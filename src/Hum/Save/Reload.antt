-- ===== src/Hum/Save/Reload.antt =====
-- The lines that the settings are printed as give the settings back.
use syn_os.Common.{
  ℕ, zero, suc, ◌+◌, ◌≤◌, ◌<◌, ◌≡◌, ◌≢◌, ◌⊎◌, refl, sym, ◌∙◌, ap, arith, Bool, true, false, ◌&&◌,
  Option, none, some, List, [], ◌∷◌, ◌++◌, append_assoc, append-nil, Bytes, All, codes, length,
  length-append, take_all, bytes_eq, bytes_eq_iff, leb, if◌then◌else◌, inl, inr,
}
use mathlib.Core.Path.{subst}
use syn_os.Cstring.{snprintf_s, skip_space, is_space, starts_with}
use syn_os.Cstring.Lines.{Line}
use syn_os.Hum.Conf.{
  Conf, style_find, index_from, is_volume, in_list, muted, add_muted, set_mute, word, nonempty,
  two_words, or_same, conf_key, conf_words, conf_line, conf_lines, defaults,
}
use syn_os.Hum.Conf.Valid.{Distinct, Valid, in_list-append, bytes_eq_sym}
use syn_os.Hum.Save.{style_name, on_off, comments, mute_lines, printed_lines}
use syn_os.Hum.Save.Lines.{ended, Fit, line_fits, Fit-test}

-- A name that "%15s" reads whole: not empty, no white space and no NUL.
unfoldable pub Word : Bytes → Type 0
Word id = (nonempty id ≡ true) × All (λ c. (is_space c ≡ false) × (c ≢ 0)) id

word-whole :
    (room : ℕ) (id : Bytes)
    → All (λ c. (is_space c ≡ false) × (c ≢ 0)) id
    → length id ≤ room
    → word room (id ++ (10 ∷ [])) ≡ (id, 10 ∷ [])
unfolding word
word-whole zero [] h fits = refl
word-whole zero (c ∷ id) h fits = absurd (omega arith)
word-whole (suc room) [] h fits = refl
word-whole (suc room) (c ∷ id) h fits = rw (h.0.0, word-whole room id h.1 (omega arith)) refl

skip-none : (id : Bytes) → Word id → skip_space (32 ∷ (id ++ (10 ∷ []))) ≡ id ++ (10 ∷ [])
unfolding skip_space Word
skip-none [] h = absurd (ground (arith, h.0))
skip-none (c ∷ id) h = rw h.1.0.0 refl

abbrev gathered : Bytes → Bytes × Bytes → Option (Bytes × Bytes)
gathered key value = if nonempty key && nonempty value.0 then some (key, value.0) else none

two_words-mute :
    (id : Bytes)
    → Word id
    → length id ≤ 15
    → two_words (codes "mute " ++ (id ++ (10 ∷ []))) ≡ some (codes "mute", id)
unfolding two_words word skip_space Word
two_words-mute id h fits =
    ap (λ b. gathered (codes "mute") (word 15 b)) (skip-none id h)
    ∙ ap (gathered (codes "mute")) (word-whole 15 id h.1 fits)
    ∙ rw h.0 refl

mute_line :
    (c : Conf) (id : Bytes)
    → Word id
    → length id ≤ 15
    → muted c id ≡ false
    → length c.mute < 16
    → conf_line c ((codes "mute " ++ id) ++ (10 ∷ [])) ≡ record c { mute = c.mute ++ (id ∷ []) }
unfolding conf_line starts_with conf_key set_mute bytes_eq
mute_line c id h fits new room =
    let space : leb 16 (length c.mute) ≡ false = ground arith in
    ap (conf_words c) (two_words-mute id h fits)
    ∙ ap (λ b. or_same c (if b then some c else add_muted c id)) new
    ∙ ap
        (λ b.
          or_same c
            (if b then none else some (record c { mute = c.mute ++ (snprintf_s 16 id ∷ []) })))
        space
    ∙ ap (λ s. record c { mute = c.mute ++ (s ∷ []) }) (take_all 15 id fits)

-- None of the ids is in the list.
abbrev Apart : List Bytes → List Bytes → Type 0
Apart list ids = All (λ id. in_list list id ≡ false) ids

Apart-add :
    (list ids : List Bytes) (a : Bytes)
    → Apart list ids
    → in_list ids a ≡ false
    → Apart (list ++ (a ∷ [])) ids
unfolding in_list
Apart-add list [] a h new = tt
Apart-add list (id ∷ ids) a h new = (
  in_list-append list a id h.0 (ground (arith, bytes_eq_sym id a)),
  Apart-add list ids a h.1 (ground arith),
)

abbrev mute_reads : List Bytes → List Bytes
mute_reads list = ended (mute_lines list)

pub mutes_back :
    (c : Conf) (ids : List Bytes)
    → All Word ids
    → All (λ id. length id ≤ 15) ids
    → Apart c.mute ids
    → Distinct ids
    → length c.mute + length ids ≤ 16
    → conf_lines c (mute_reads ids) ≡ record c { mute = c.mute ++ ids }
unfolding conf_lines mute_lines Distinct muted
mutes_back c [] words fits apart d room = ap (λ l. record c { mute = l }) (sym (append-nil c.mute))
mutes_back c (id ∷ ids) words fits apart d room =
    ap (λ x. conf_lines x (mute_reads ids)) (mute_line c id words.0 fits.0 apart.0 (omega arith))
    ∙ mutes_back (record c { mute = c.mute ++ (id ∷ []) }) ids words.1 fits.1
        (Apart-add c.mute ids id apart.1 d.0) d.1 (omega (arith, length-append c.mute (id ∷ [])))
    ∙ ap (λ l. record c { mute = l }) (append_assoc c.mute (id ∷ []) ids)

style_back :
    (c : Conf) (s : ℕ)
    → s < 7
    → conf_line c ((codes "style " ++ style_name s) ++ (10 ∷ [])) ≡ record c { style = s }
unfolding conf_line starts_with conf_key two_words word skip_space bytes_eq style_find index_from
    style_name
style_back c zero h = refl
style_back c (suc zero) h = refl
style_back c (suc (suc zero)) h = refl
style_back c (suc (suc (suc zero))) h = refl
style_back c (suc (suc (suc (suc zero)))) h = refl
style_back c (suc (suc (suc (suc (suc zero))))) h = refl
style_back c (suc (suc (suc (suc (suc (suc zero)))))) h = refl
style_back c (suc (suc (suc (suc (suc (suc (suc s))))))) h = absurd (omega arith)

abbrev crew_saved : Bool → Bytes
crew_saved b = (codes "crew " ++ on_off b) ++ (10 ∷ [])

crew_back : (c : Conf) (b : Bool) → conf_line c (crew_saved b) ≡ record c { crew = b }
unfolding conf_line starts_with conf_key two_words word skip_space bytes_eq is_volume
crew_back c true = refl
crew_back c false = refl

pub volume_cases :
    (v : Bytes)
    → is_volume v ≡ true
    → (codes "quiet" ≡ v) ⊎ (codes "normal" ≡ v) ⊎ (codes "loud" ≡ v)
unfolding is_volume
volume_cases v h = ground (
  arith,
  bytes_eq_iff v (codes "quiet"),
  bytes_eq_iff v (codes "normal"),
  bytes_eq_iff v (codes "loud"),
)

abbrev volume_line : Bytes → Bytes
volume_line v = (codes "volume " ++ v) ++ (10 ∷ [])

volume_back :
    (c : Conf) (v : Bytes)
    → is_volume v ≡ true
    → conf_line c (volume_line v) ≡ record c { volume = v }
unfolding conf_line starts_with conf_key two_words word skip_space bytes_eq is_volume
volume_back c v h = elim (volume_cases v h) [
  | inl e ↦ subst (λ v. conf_line c (volume_line v) ≡ record c { volume = v }) e refl
  | inr (inl e) ↦ subst (λ v. conf_line c (volume_line v) ≡ record c { volume = v }) e refl
  | inr (inr e) ↦ subst (λ v. conf_line c (volume_line v) ≡ record c { volume = v }) e refl
]

Line-word : (s : Bytes) → All (λ c. (is_space c ≡ false) × (c ≢ 0)) s → Line s
unfolding Line
Line-word [] h = tt
Line-word (c ∷ s) h = ((h.0.1, ground (arith, h.0.0), ground (arith, h.0.0)), Line-word s h.1)

Line-mute : (s : Bytes) → Line s → Line (codes "mute " ++ s)
unfolding Line
Line-mute s h = (
  (omega arith, omega arith, omega arith),
  (
    (omega arith, omega arith, omega arith),
    (
      (omega arith, omega arith, omega arith),
      ((omega arith, omega arith, omega arith), ((omega arith, omega arith, omega arith), h)),
    ),
  ),
)

Fit-mutes :
    (ids : List Bytes) → All Word ids → All (λ id. length id ≤ 15) ids → Fit 256 (mute_lines ids)
unfolding Fit mute_lines Word
Fit-mutes [] words fits = tt
Fit-mutes (id ∷ ids) words fits = (
  Line-mute id (Line-word id words.0.1),
  omega (arith, length-append (codes "mute ") id, fits.0),
  Fit-mutes ids words.1 fits.1,
)

style_fits : (s : ℕ) → s < 7 → line_fits 256 (codes "style " ++ style_name s) ≡ true
unfolding line_fits style_name
style_fits zero h = refl
style_fits (suc zero) h = refl
style_fits (suc (suc zero)) h = refl
style_fits (suc (suc (suc zero))) h = refl
style_fits (suc (suc (suc (suc zero)))) h = refl
style_fits (suc (suc (suc (suc (suc zero))))) h = refl
style_fits (suc (suc (suc (suc (suc (suc zero)))))) h = refl
style_fits (suc (suc (suc (suc (suc (suc (suc s))))))) h = absurd (omega arith)

volume_fits : (v : Bytes) → is_volume v ≡ true → line_fits 256 (codes "volume " ++ v) ≡ true
unfolding line_fits
volume_fits v h = elim (volume_cases v h) [
  | inl e ↦ subst (λ v. line_fits 256 (codes "volume " ++ v) ≡ true) e refl
  | inr (inl e) ↦ subst (λ v. line_fits 256 (codes "volume " ++ v) ≡ true) e refl
  | inr (inr e) ↦ subst (λ v. line_fits 256 (codes "volume " ++ v) ≡ true) e refl
]

crew_fits : (b : Bool) → line_fits 256 (codes "crew " ++ on_off b) ≡ true
unfolding line_fits
crew_fits true = refl
crew_fits false = refl

comments-Fit : (rest : List Bytes) → Fit 256 rest → Fit 256 (comments ++ rest)
unfolding line_fits
comments-Fit rest fit = Fit-test 256 _ _ refl (
    Fit-test 256 _ _ refl
      (Fit-test 256 _ _ refl (Fit-test 256 _ _ refl (Fit-test 256 _ rest refl fit))))

-- Settings that a file can hold: well formed, and each muted id is read whole.
pub record Savable (c : Conf) : Type 0 where
  pub valid : Valid c
  pub words : All Word c.mute

pub printed-Fit : (c : Conf) → Savable c → Fit 256 (printed_lines c)
unfolding printed_lines
printed-Fit c s = comments-Fit _ (
    Fit-test 256 _ _ (style_fits c.style s.valid.style) (
      Fit-test 256 _ _ (volume_fits c.volume s.valid.volume)
        (Fit-test 256 _ _ (crew_fits c.crew) (Fit-mutes c.mute s.words s.valid.fits))))

skip_comments :
    (lines : List Bytes)
    → conf_lines defaults (ended (comments ++ lines)) ≡ conf_lines defaults (ended lines)
unfolding conf_lines conf_line starts_with
skip_comments lines = refl

none-Apart : (ids : List Bytes) → Apart [] ids
unfolding in_list
none-Apart [] = tt
none-Apart (id ∷ ids) = (refl, none-Apart ids)

pub printed_back : (c : Conf) → Savable c → conf_lines defaults (ended (printed_lines c)) ≡ c
unfolding printed_lines conf_lines
printed_back c s =
    skip_comments (
      (codes "style " ++ style_name c.style)
      ∷ (codes "volume " ++ c.volume)
      ∷ (codes "crew " ++ on_off c.crew)
      ∷ mute_lines c.mute)
    ∙ ap (λ x. conf_lines (conf_line (conf_line x (volume_line c.volume)) (crew_saved c.crew)) rest)
        (style_back defaults c.style s.valid.style)
    ∙ ap (λ x. conf_lines (conf_line x (crew_saved c.crew)) rest)
        (volume_back (record defaults { style = c.style }) c.volume s.valid.volume)
    ∙ ap (λ x. conf_lines x rest)
        (crew_back (record defaults { style = c.style; volume = c.volume }) c.crew)
    ∙ mutes_back (record { style = c.style; volume = c.volume; crew = c.crew; mute = [] }) c.mute
        s.words s.valid.fits (none-Apart c.mute) s.valid.distinct (omega (arith, s.valid.count))
  where
    rest : List Bytes
    rest = mute_reads c.mute
