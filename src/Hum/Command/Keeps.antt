-- ===== src/Hum/Command/Keeps.antt =====
-- Settings that a file can hold stay so when a member is muted or brought back.
use mathlib.Core.Path.{subst}
use syn_os.Common.{
  ◌≤◌, ◌<◌, ◌≡◌, inl, inr, refl, sym, ◌∙◌, ap, arith, Bool, true, false, none, some, List, [], ◌∷◌,
  ◌++◌, Bytes, All, length, take_all, bytes_eq, bytes_eq_refl, bytes_eq_ne, bytes_eq_cases, leb,
  if◌then◌else◌,
}
use syn_os.Cstring.{snprintf_s}
use syn_os.Hum.Conf.{Conf, in_list, muted, drop_first, add_muted, set_mute, or_same}
use syn_os.Hum.Conf.Valid.{Distinct, Valid, Valid-set_mute}
use syn_os.Hum.Conf.Mute.{drop_first-gone, drop_first-other, in_list-added, in_list-added_other}
use syn_os.Hum.Save.Reload.{Word, Savable}

All-drop_first :
    (P : Bytes → Type 0) (list : List Bytes) (id : Bytes) → All P list → All P (drop_first list id)
unfolding drop_first
All-drop_first P [] id h = tt
All-drop_first P (m ∷ list) id h =
    elim (bytes_eq m id) as (λ b. All P (if b then list else m ∷ drop_first list id)) [
      | true ↦ h.1
      | false ↦ (h.0, All-drop_first _ list id h.1)
    ]

in_list-drop_first :
    (list : List Bytes) (id m : Bytes)
    → in_list list m ≡ false
    → in_list (drop_first list id) m ≡ false
unfolding drop_first in_list
in_list-drop_first [] id m h = refl
in_list-drop_first (a ∷ list) id m h = ground (arith, in_list-drop_first list id m)

Distinct-drop_first :
    (list : List Bytes) (id : Bytes) → Distinct list → Distinct (drop_first list id)
unfolding drop_first Distinct
Distinct-drop_first [] id d = tt
Distinct-drop_first (m ∷ list) id d =
    elim (bytes_eq m id) as (λ b. Distinct (if b then list else m ∷ drop_first list id)) [
      | true ↦ d.1
      | false ↦ (in_list-drop_first list id m d.0, Distinct-drop_first list id d.1)
    ]

length-drop_first : (list : List Bytes) (id : Bytes) → length (drop_first list id) ≤ length list
unfolding drop_first
length-drop_first [] id = omega arith
length-drop_first (m ∷ list) id = ground (arith, length-drop_first list id)

pub Savable-drop :
    (c : Conf) (id : Bytes) → Savable c → Savable (record c { mute = drop_first c.mute id })
Savable-drop c id s = record {
  valid = record {
    style = s.valid.style;
    volume = s.valid.volume;
    count = omega (arith, length-drop_first c.mute id, s.valid.count);
    fits = All-drop_first _ c.mute id s.valid.fits;
    distinct = Distinct-drop_first c.mute id s.valid.distinct;
  };
  words = All-drop_first _ c.mute id s.words;
}

All-snoc :
    (P : Bytes → Type 0) (list : List Bytes) (a : Bytes)
    → All P list
    → P a
    → All P (list ++ (a ∷ []))
All-snoc P [] a h p = (p, tt)
All-snoc P (m ∷ list) a h p = (h.0, All-snoc _ list a h.1 p)

pub set_mute-new :
    (c : Conf) (id : Bytes)
    → length id ≤ 15
    → length c.mute < 16
    → in_list c.mute id ≡ false
    → set_mute c id false ≡ some (record c { mute = c.mute ++ (id ∷ []) })
unfolding set_mute muted
set_mute-new c id fits room missing =
    let space : leb 16 (length c.mute) ≡ false = ground arith in
    ap (λ b. if b then some c else add_muted c id) missing
    ∙ ap (λ b. if b then none else some (record c { mute = c.mute ++ (snprintf_s 16 id ∷ []) }))
        space
    ∙ ap (λ s. some (record c { mute = c.mute ++ (s ∷ []) })) (take_all 15 id fits)

pub Savable-added :
    (c : Conf) (id : Bytes)
    → Savable c
    → Word id
    → length id ≤ 15
    → length c.mute < 16
    → in_list c.mute id ≡ false
    → Savable (record c { mute = c.mute ++ (id ∷ []) })
Savable-added c id s word fits room missing = record {
  valid =
      subst (λ o. Valid (or_same c o)) (set_mute-new c id fits room missing)
        (Valid-set_mute c id s.valid fits);
  words = All-snoc _ c.mute id s.words word;
}

-- The members that are muted afterwards, when the list changes and when it need not.
pub mutes-dropped :
    (list : List Bytes) (id m : Bytes)
    → Distinct list
    → in_list (drop_first list id) m ≡ (if bytes_eq id m then false else in_list list m)
mutes-dropped list id m d = elim (bytes_eq_cases id m) [
  | inl e ↦ rw (sym e, bytes_eq_refl id) (drop_first-gone list id d)
  | inr ne ↦ rw (bytes_eq_ne id m ne) (drop_first-other list id m (λ e. ne (sym e)))
]

pub mutes-added :
    (list : List Bytes) (id m : Bytes)
    → in_list (list ++ (id ∷ [])) m ≡ (if bytes_eq id m then true else in_list list m)
mutes-added list id m = elim (bytes_eq_cases id m) [
  | inl e ↦ rw (sym e, bytes_eq_refl id) (in_list-added list id)
  | inr ne ↦ rw (bytes_eq_ne id m ne) (in_list-added_other list id m (λ e. ne (sym e)))
]

pub mutes-same :
    (list : List Bytes) (id m : Bytes) (b : Bool)
    → in_list list id ≡ b
    → in_list list m ≡ (if bytes_eq id m then b else in_list list m)
mutes-same list id m b h = elim (bytes_eq_cases id m) [
  | inl e ↦ rw (sym e, bytes_eq_refl id, h) refl
  | inr ne ↦ rw (bytes_eq_ne id m ne) refl
]
