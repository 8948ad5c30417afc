-- ===== src/IsoBuilder/Edition/Status.antt =====
-- What `BUILD.zsh status` prints for an edition (BUILD.zsh), and the lines that the builder cuts out of
-- such a text. Names of steps have no backslash, which `print` would read.
use syn_os.Common.{
  ℕ, suc, ◌≤◌, ◌≡◌, refl, ap, ◌∙◌, arith, Bool, true, false, not, ◌&&◌, Option, none, some, List,
  [], ◌∷◌, ◌++◌, All, if-elim, Bytes, codes, length, ◌==◌, if◌then◌else◌,
}
use syn_os.IsoBuilder.Edition.{keep_line, split_lines, text_lines}

-- `print` of each line
abbrev pub print_lines : List Bytes → Bytes
print_lines [] = []
print_lines (l ∷ lines) = l ++ (10 ∷ print_lines lines)

-- `[[ -z $next ]]`
abbrev pub is_unset : Bytes → Bool
is_unset [] = true
is_unset (c ∷ next) = false

-- The loop over the steps, with `recorded` for the test on build.state.
unfoldable pub step_lines : (Bytes → Bool) → Bytes → List Bytes → List Bytes
step_lines recorded next [] = []
step_lines recorded next (s ∷ steps) =
    let rest : List Bytes = step_lines recorded next steps in
    let after_next : List Bytes = step_lines recorded s steps in
    if recorded s
    then (codes "  done     " ++ s) ∷ rest
    else if is_unset next
    then (codes "  next     " ++ s) ∷ after_next
    else (codes "  to come  " ++ s) ∷ rest

-- `next` after the loop
unfoldable pub next_step : (Bytes → Bool) → Bytes → List Bytes → Bytes
next_step recorded next [] = next
next_step recorded next (s ∷ steps) =
    let rest : Bytes = next_step recorded next steps in
    let after_next : Bytes = next_step recorded s steps in
    if recorded s then rest else if is_unset next then after_next else rest

-- Where there is an image and no build.state.
abbrev pub unrecorded_lines : Option Bytes → List Bytes
unrecorded_lines none = []
unrecorded_lines (some work_dir) =
    (codes "  (no build.state in "
      ++ (work_dir ++ codes ": its steps were run one at a time, so what's done isn't recorded;"))
    ∷ codes
        "   a build goes through every step again: what's built is skipped, the kernel and the ISO are made again)"
    ∷ []

-- The newest ISO and its date.
abbrev pub iso_lines : Option (Bytes × Bytes) → List Bytes
iso_lines none = codes "no ISO built yet" ∷ []
iso_lines (some iso) =
    (codes "newest ISO: " ++ (iso.0 ++ (codes " (" ++ (iso.1 ++ codes ")")))) ∷ []

abbrev pub all_done : Bytes → List Bytes
all_done [] = codes "every step done" ∷ []
all_done (c ∷ next) = []

-- `edition_status` of an LFS edition
unfoldable pub lfs_status :
    Option Bytes → (Bytes → Bool) → List Bytes → Option (Bytes × Bytes) → List Bytes
lfs_status unrecorded recorded steps newest =
    unrecorded_lines unrecorded
    ++ (step_lines recorded [] steps
        ++ (all_done (next_step recorded [] steps) ++ iso_lines newest))

unfoldable pub one_line : Bytes → Bool
one_line [] = true
one_line (c ∷ l) = not (c == 10) && one_line l

-- A line that `strtok_r` gives back.
abbrev pub Line : Bytes → Type 0
Line l = (one_line l ≡ true) × (1 ≤ length l)

abbrev pub IsoLine : Option (Bytes × Bytes) → Type 0
IsoLine none = Unit
IsoLine (some iso) = (one_line iso.0 ≡ true) × (one_line iso.1 ≡ true)

abbrev pub DirLine : Option Bytes → Type 0
DirLine none = Unit
DirLine (some work_dir) = one_line work_dir ≡ true

split_printed :
    (l rest : Bytes) → one_line l ≡ true → split_lines (l ++ (10 ∷ rest)) ≡ (l, text_lines rest)
unfolding one_line split_lines text_lines
split_printed [] rest h = refl
split_printed (c ∷ l) rest h = ground (arith, split_printed l rest)

pub text_lines_printed :
    (lines : List Bytes) → All Line lines → text_lines (print_lines lines) ≡ lines
unfolding text_lines split_lines
text_lines_printed [] h = refl
text_lines_printed ([] ∷ lines) h = absurd (omega (arith, h.0.1))
text_lines_printed ((c ∷ l) ∷ lines) h =
    ap (λ r. keep_line r.0 r.1) (split_printed (c ∷ l) (print_lines lines) h.0.0)
    ∙ ap (λ ls. (c ∷ l) ∷ ls) (text_lines_printed lines h.1)

one_line-append : (a b : Bytes) → one_line a ≡ true → one_line b ≡ true → one_line (a ++ b) ≡ true
unfolding one_line
one_line-append [] b h k = k
one_line-append (c ∷ a) b h k = ground (arith, one_line-append a b)

All-append :
    {A : Type 0} → (P : A → Type 0) (xs ys : List A) → All P xs → All P ys → All P (xs ++ ys)
All-append P [] ys h k = k
All-append P (x ∷ xs) ys h k = (h.0, All-append P xs ys h.1 k)

steps-Line :
    (recorded : Bytes → Bool) (next : Bytes) (steps : List Bytes)
    → All Line steps
    → All Line (step_lines recorded next steps)
unfolding step_lines one_line
steps-Line recorded next [] h = tt
steps-Line recorded next (s ∷ steps) h =
    let long : (n : ℕ) → 1 ≤ suc n = λ n. omega arith in
    if-elim (All Line) (recorded s) _ _ (λ _. ((h.0.0, long _), steps-Line recorded next steps h.1))
      (λ _.
        if-elim (All Line) (is_unset next) _ _
          (λ _. ((h.0.0, long _), steps-Line recorded s steps h.1))
          (λ _. ((h.0.0, long _), steps-Line recorded next steps h.1)))

unrecorded-Line : (o : Option Bytes) → DirLine o → All Line (unrecorded_lines o)
unfolding one_line
unrecorded-Line none h = tt
unrecorded-Line (some work_dir) h =
    ((one_line-append work_dir _ h refl, omega arith), ((refl, omega arith), tt))

iso-Line : (o : Option (Bytes × Bytes)) → IsoLine o → All Line (iso_lines o)
unfolding one_line
iso-Line none h = ((refl, omega arith), tt)
iso-Line (some iso) h =
    ((one_line-append iso.0 _ h.0 (one_line-append iso.1 _ h.1 refl), omega arith), tt)

all_done-Line : (next : Bytes) → All Line (all_done next)
unfolding one_line
all_done-Line [] = ((refl, omega arith), tt)
all_done-Line (c ∷ next) = tt

pub lfs_status-Line :
    (unrecorded : Option Bytes) (recorded : Bytes → Bool) (steps : List Bytes)
    (newest : Option (Bytes × Bytes))
    → DirLine unrecorded
    → All Line steps
    → IsoLine newest
    → All Line (lfs_status unrecorded recorded steps newest)
unfolding lfs_status
lfs_status-Line unrecorded recorded steps newest d h i =
    All-append Line (unrecorded_lines unrecorded) _ (unrecorded-Line unrecorded d) (
      All-append Line (step_lines recorded [] steps) _ (steps-Line recorded [] steps h) (
        All-append Line (all_done (next_step recorded [] steps)) _ (all_done-Line _)
          (iso-Line newest i)))
