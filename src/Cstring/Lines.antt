-- ===== src/Cstring/Lines.antt =====
-- `fgets` and the trimming read back a line that was printed.
use syn_os.Common.{
  ℕ, zero, suc, ◌+◌, ◌<◌, ◌≡◌, ◌≢◌, refl, arith, some, [], ◌∷◌, ◌++◌, Bytes, All, length,
}
use syn_os.Cstring.{cstr, read_line, fgets, trim_newline}

-- Text that fits on a line: no NUL and no line end.
unfoldable pub Line : Bytes → Type 0
Line s = All (λ c. (c ≢ 0) × (c ≢ 10) × (c ≢ 13)) s

read_line_printed :
    (room : ℕ) (s rest : Bytes)
    → Line s
    → length s < room
    → read_line room (s ++ (10 ∷ rest)) ≡ (s ++ (10 ∷ []), rest)
unfolding read_line Line
read_line_printed zero s rest line h = absurd (omega arith)
read_line_printed (suc room) [] rest line h = refl
read_line_printed (suc room) (c ∷ s) rest line h =
    ground (arith, read_line_printed room s rest line.1)

cstr-Line : (s : Bytes) → Line s → cstr (s ++ (10 ∷ [])) ≡ s ++ (10 ∷ [])
unfolding cstr Line
cstr-Line [] line = refl
cstr-Line (c ∷ s) line = ground (arith, cstr-Line s line.1)

trim-Line : (s : Bytes) → Line s → trim_newline (s ++ (10 ∷ [])) ≡ s
unfolding trim_newline Line
trim-Line [] line = refl
trim-Line (c ∷ []) line = ground arith
trim-Line (c ∷ d ∷ s) line = rw (trim-Line (d ∷ s) line.1) refl

pub fgets_printed :
    (size : ℕ) (s rest : Bytes)
    → Line s
    → length s + 1 < size
    → fgets size (s ++ (10 ∷ rest)) ≡ some (s ++ (10 ∷ []), rest)
unfolding fgets
fgets_printed zero s rest line h = absurd (omega arith)
fgets_printed (suc zero) s rest line h = absurd (omega arith)
fgets_printed (suc (suc room)) [] rest line h =
    rw (read_line_printed (suc room) [] rest line (omega arith)) (rw cstr-Line)
fgets_printed (suc (suc room)) (c ∷ s) rest line h =
    rw (read_line_printed (suc room) (c ∷ s) rest line (omega arith), cstr-Line (c ∷ s) line)

pub trim_printed : (s : Bytes) → Line s → trim_newline (s ++ (10 ∷ [])) ≡ s
trim_printed s line = trim-Line s line
