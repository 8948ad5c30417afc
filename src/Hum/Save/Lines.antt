-- ===== src/Hum/Save/Lines.antt =====
-- The lines of a file that was printed line by line are read back one by one.
use syn_os.Common.{
  Bool, true, false, not, ◌&&◌, ◌||◌, ltb, ◌==◌, ℕ, zero, suc, ◌+◌, ◌≤◌, ◌<◌, ◌≡◌, refl, ◌∙◌, ap,
  arith, Option, none, some, List, [], ◌∷◌, ◌++◌, Bytes, length, length-append,
}
use syn_os.Cstring.{fgets}
use syn_os.Cstring.Lines.{Line, fgets_printed}
use syn_os.Relay.Apps.{lines_of}
use syn_os.Hum.Save.{with_ends}

abbrev pub ended : List Bytes → List Bytes
ended [] = []
ended (line ∷ lines) = (line ++ (10 ∷ [])) ∷ ended lines

-- Lines that `fgets` takes whole into a buffer of `size` bytes.
unfoldable pub Fit : ℕ → List Bytes → Type 0
Fit size [] = Unit
Fit size (line ∷ lines) = Line line × (length line + 1 < size) × Fit size lines

pub Fit-append : (size : ℕ) (a b : List Bytes) → Fit size a → Fit size b → Fit size (a ++ b)
unfolding Fit
Fit-append size [] b h k = k
Fit-append size (line ∷ a) b h k = (h.0, h.1, Fit-append size a b h.2 k)

abbrev then_lines : ℕ → ℕ → Option (Bytes × Bytes) → List Bytes
then_lines size fuel none = []
then_lines size fuel (some r) = r.0 ∷ lines_of size fuel r.1

unfold_lines :
    (size fuel : ℕ) (file : Bytes)
    → lines_of size (suc fuel) file ≡ then_lines size fuel (fgets size file)
unfolding lines_of
unfold_lines size fuel file = cases (fgets size file)
  where
    cases :
        (o : Option (Bytes × Bytes))
        → elim o [ none ↦ [] | some r ↦ r.0 ∷ lines_of size fuel r.1 ] ≡ then_lines size fuel o
    cases none = refl
    cases (some r) = refl

fgets-end : (room : ℕ) → fgets (suc (suc room)) [] ≡ none
unfolding fgets
fgets-end room = refl

pub lines_of-printed :
    (room fuel : ℕ) (lines : List Bytes)
    → Fit (suc (suc room)) lines
    → length (with_ends lines) ≤ fuel
    → lines_of (suc (suc room)) fuel (with_ends lines) ≡ ended lines
unfolding with_ends Fit lines_of
lines_of-printed room zero [] fit h = refl
lines_of-printed room zero (line ∷ lines) fit h =
    absurd (omega (arith, length-append line (10 ∷ with_ends lines)))
lines_of-printed room (suc fuel) [] fit h =
    unfold_lines _ fuel [] ∙ ap (then_lines (suc (suc room)) fuel) (fgets-end room)
lines_of-printed room (suc fuel) (line ∷ lines) fit h =
    unfold_lines _ fuel (with_ends (line ∷ lines))
    ∙ ap (then_lines (suc (suc room)) fuel)
        (fgets_printed (suc (suc room)) line (with_ends lines) fit.0 fit.1)
    ∙ ap (λ l. (line ++ (10 ∷ [])) ∷ l)
        (lines_of-printed room fuel lines fit.2
          (omega (arith, length-append line (10 ∷ with_ends lines))))

-- The same of a line as a test, for the lines that are literals.
unfoldable pub line_fits : ℕ → Bytes → Bool
line_fits size [] = ltb 1 size
line_fits zero (c ∷ s) = false
line_fits (suc size) (c ∷ s) =
    let later : Bool = line_fits size s in not (c == 0 || c == 10 || c == 13) && later

line_fits-Line : (size : ℕ) (s : Bytes) → line_fits size s ≡ true → Line s
unfolding line_fits Line
line_fits-Line size [] h = tt
line_fits-Line zero (c ∷ s) h = absurd (ground arith)
line_fits-Line (suc size) (c ∷ s) h = (ground arith, line_fits-Line size s (ground arith))

line_fits-length : (size : ℕ) (s : Bytes) → line_fits size s ≡ true → length s + 1 < size
unfolding line_fits
line_fits-length size [] h = ground arith
line_fits-length zero (c ∷ s) h = absurd (ground arith)
line_fits-length (suc size) (c ∷ s) h = ground (arith, line_fits-length size s)

pub Fit-test :
    (size : ℕ) (s : Bytes) (lines : List Bytes)
    → line_fits size s ≡ true
    → Fit size lines
    → Fit size (s ∷ lines)
unfolding Fit
Fit-test size s lines h fit = (line_fits-Line size s h, line_fits-length size s h, fit)
