-- ===== src/Hum/Command/Settings.antt =====
-- What `syn-hum set` promises: the settings as the sound and the set of the muted members.
use mathlib.Core.Path.{fun_ext, subst}
use syn_os.Common.{
  ℕ, zero, suc, ◌≤◌, ◌<◌, ◌≡◌, inl, inr, refl, sym, ◌∙◌, ap, arith, Bool, true, false, not, Option,
  none, some, List, [], ◌∷◌, ◌++◌, Bytes, codes, length, bytes_eq, leb, if◌then◌else◌, Bool-cases,
}
use syn_os.Cstring.{snprintf_s}
use syn_os.Hum.Conf.{
  Conf, style_find, index_from, is_volume, in_list, muted, drop_first, add_muted, set_mute,
}
use syn_os.Hum.Save.{style_name, on_off}
use syn_os.Hum.Save.Reload.{Word, Savable, volume_cases}
use syn_os.Hum.Command.Keeps.{
  Savable-drop, Savable-added, set_mute-new, mutes-dropped, mutes-added, mutes-same,
}
use syn_os.Hum.Command.{changed, choose_style, set_crew, set_member, is_switch}

-- The settings without the order in which the members were muted.
pub record Settings : Type 0 where
  pub style : ℕ
  pub volume : Bytes
  pub crew : Bool
  pub mutes : Bytes → Bool

abbrev pub view : Conf → Settings
view c = record { style = c.style; volume = c.volume; crew = c.crew; mutes = muted c }

pub data Request : Type 0 where
  style_request : ℕ → Request
  volume_request : Bytes → Request
  crew_request : Bool → Request
  member_request : Bytes → Bool → Request

-- What each request means for the settings.
abbrev pub apply : Request → Settings → Settings
apply (style_request s) x = record x { style = s }
apply (volume_request v) x = record x { volume = v }
apply (crew_request b) x = record x { crew = b }
apply (member_request id on) x = record x {
  mutes = λ m. if bytes_eq id m then not on else x.mutes m;
}

-- The words of the command line.
abbrev pub key_of : Request → Bytes
key_of (style_request s) = codes "style"
key_of (volume_request v) = codes "volume"
key_of (crew_request b) = codes "crew"
key_of (member_request id on) = codes "crew"

abbrev pub value_of : Request → Bytes
value_of (style_request s) = style_name s
value_of (volume_request v) = v
value_of (crew_request b) = on_off b
value_of (member_request id on) = id

abbrev pub rest_of : Request → List Bytes
rest_of (member_request id on) = on_off on ∷ []
rest_of _ = []

-- The requests that the program can carry out on these settings.
abbrev pub Possible : Conf → Request → Type 0
Possible c (style_request s) = s < 7
Possible c (volume_request v) = is_volume v ≡ true
Possible c (crew_request b) = Unit
Possible c (member_request id on) = Word id × (length id ≤ 15) × (on ≡ false → length c.mute < 16)

volume-whole : (v : Bytes) → is_volume v ≡ true → snprintf_s 16 v ≡ v
volume-whole v h = elim (volume_cases v h) [
  | inl e ↦ subst (λ v. snprintf_s 16 v ≡ v) e refl
  | inr (inl e) ↦ subst (λ v. snprintf_s 16 v ≡ v) e refl
  | inr (inr e) ↦ subst (λ v. snprintf_s 16 v ≡ v) e refl
]

set_mute-there : (c : Conf) (id : Bytes) → in_list c.mute id ≡ true → set_mute c id false ≡ some c
unfolding set_mute muted
set_mute-there c id there = ap (λ b. if b then some c else add_muted c id) there

pub style_found : (s : ℕ) → s < 7 → style_find (style_name s) ≡ some s
unfolding style_find style_name index_from bytes_eq
style_found zero h = refl
style_found (suc zero) h = refl
style_found (suc (suc zero)) h = refl
style_found (suc (suc (suc zero))) h = refl
style_found (suc (suc (suc (suc zero)))) h = refl
style_found (suc (suc (suc (suc (suc zero))))) h = refl
style_found (suc (suc (suc (suc (suc (suc zero)))))) h = refl
style_found (suc (suc (suc (suc (suc (suc (suc s))))))) h = absurd (omega arith)

is_switch-on_off : (b : Bool) → is_switch (on_off b) ≡ true
unfolding bytes_eq
is_switch-on_off true = refl
is_switch-on_off false = refl

is_on : (b : Bool) → bytes_eq (on_off b) (codes "on") ≡ b
unfolding bytes_eq
is_on true = refl
is_on false = refl

abbrev seen : Conf → (Bytes → Bool) → Settings
seen c f = record { style = c.style; volume = c.volume; crew = c.crew; mutes = f }

view_eq :
    (c : Conf) (list : List Bytes) (f : Bytes → Bool)
    → ((m : Bytes) → in_list list m ≡ f m)
    → view (record c { mute = list }) ≡ seen c f
unfolding muted
view_eq c list f h = ap (seen c) (fun_ext h)

-- The settings that a request leads to, with the ones that it was made for.
abbrev pub Carried : Conf → Option Conf → Request → Type 0
Carried c o r = (d : Conf) × (o ≡ some d) × Savable d × (view d ≡ apply r (view c))

member_on :
    (c : Conf) (id : Bytes) → Savable c → Carried c (set_mute c id true) (member_request id true)
unfolding set_mute muted
member_on c id s = elim (Bool-cases (in_list c.mute id)) [
  | inl there ↦ (
    record c { mute = drop_first c.mute id },
    ap (λ b. if b then some (record c { mute = drop_first c.mute id }) else some c) there,
    Savable-drop c id s,
    view_eq c (drop_first c.mute id) _ (λ m. mutes-dropped c.mute id m s.valid.distinct),
  )
  | inr missing ↦ (
    c,
    ap (λ b. if b then some (record c { mute = drop_first c.mute id }) else some c) missing,
    s,
    view_eq c c.mute _ (λ m. mutes-same c.mute id m false missing),
  )
]

member_off :
    (c : Conf) (id : Bytes)
    → Savable c
    → Word id
    → length id ≤ 15
    → length c.mute < 16
    → Carried c (set_mute c id false) (member_request id false)
unfolding muted
member_off c id s word fits room = elim (Bool-cases (in_list c.mute id)) [
  | inl there ↦
      (c, set_mute-there c id there, s, view_eq c c.mute _ (λ m. mutes-same c.mute id m true there))
  | inr missing ↦ (
    record c { mute = c.mute ++ (id ∷ []) },
    set_mute-new c id fits room missing,
    Savable-added c id s word fits room missing,
    view_eq c (c.mute ++ (id ∷ [])) _ (λ m. mutes-added c.mute id m),
  )
]

member_any :
    (c : Conf) (id : Bytes) (on : Bool)
    → Savable c
    → Possible c (member_request id on)
    → Carried c (set_mute c id on) (member_request id on)
member_any c id true s h = member_on c id s
member_any c id false s h = member_off c id s h.0 h.1 (h.2 refl)

member_words :
    (c : Conf) (id : Bytes) (on : Bool)
    → length id ≤ 15
    → changed c (codes "crew") id (on_off on ∷ []) ≡ set_mute c id on
unfolding changed bytes_eq set_crew muted
member_words c id on fits =
    let short : leb 16 (length id) ≡ false = ground arith in
    ap (λ b. if b then set_member c id (on_off on) else none) (is_switch-on_off on)
    ∙ ap (λ b. if b then none else set_mute c id (bytes_eq (on_off on) (codes "on"))) short
    ∙ ap (set_mute c id) (is_on on)

-- A request that is possible changes the settings as it means to, and leaves ones that a file holds.
pub changed-Carried :
    (c : Conf) (r : Request)
    → Savable c
    → Possible c r
    → Carried c (changed c (key_of r) (value_of r) (rest_of r)) r
unfolding changed bytes_eq set_crew muted
changed-Carried c (style_request x) s h = (
  record c { style = x },
  ap (choose_style c) (style_found x h),
  record {
    valid = record {
      style = h;
      volume = s.valid.volume;
      count = s.valid.count;
      fits = s.valid.fits;
      distinct = s.valid.distinct;
    };
    words = s.words;
  },
  refl,
)
changed-Carried c (volume_request v) s h = (
  record c { volume = v },
  ap (λ b. if b then some (record c { volume = snprintf_s 16 v }) else none) h
      ∙ ap (λ v. some (record c { volume = v })) (volume-whole v h),
  record {
    valid = record {
      style = s.valid.style;
      volume = h;
      count = s.valid.count;
      fits = s.valid.fits;
      distinct = s.valid.distinct;
    };
    words = s.words;
  },
  refl,
)
changed-Carried c (crew_request b) s h = (
  record c { crew = b },
  ap (λ t. if t then some (record c { crew = bytes_eq (on_off b) (codes "on") }) else none)
        (is_switch-on_off b)
      ∙ ap (λ t. some (record c { crew = t })) (is_on b),
  record {
    valid = record {
      style = s.valid.style;
      volume = s.valid.volume;
      count = s.valid.count;
      fits = s.valid.fits;
      distinct = s.valid.distinct;
    };
    words = s.words;
  },
  refl,
)
changed-Carried c (member_request id on) s h =
    subst (λ o. Carried c o (member_request id on)) (sym (member_words c id on h.1))
      (member_any c id on s h)
