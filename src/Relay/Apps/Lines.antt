-- ===== src/Relay/Apps/Lines.antt =====
-- The fuel of the loop over the lines of a file is enough: each turn takes a byte.
use syn_os.Common.{ℕ, zero, suc, ◌≤◌, ◌≡◌, refl, ap, arith, [], ◌∷◌, Bytes, length}
use syn_os.Cstring.{fgets, read_line, cstr}
use syn_os.Relay.Apps.{lines_of}

read_line-shorter : (room : ℕ) (b : Bytes) → length (read_line room b).1 ≤ length b
unfolding read_line
read_line-shorter zero b = omega arith
read_line-shorter (suc room) [] = omega arith
read_line-shorter (suc room) (c ∷ b) = ground (arith, read_line-shorter room b)

read_line-takes : (room c : ℕ) (b : Bytes) → length (read_line (suc room) (c ∷ b)).1 ≤ length b
unfolding read_line
read_line-takes room c b = ground (arith, read_line-shorter room b)

-- Any two amounts of fuel from the number of bytes on give the same lines.
lines_of-enough :
    (room n m : ℕ) (file : Bytes)
    → length file ≤ n
    → length file ≤ m
    → lines_of (suc (suc room)) n file ≡ lines_of (suc (suc room)) m file
unfolding lines_of fgets
lines_of-enough room zero zero file p q = refl
lines_of-enough room zero (suc m) [] p q = refl
lines_of-enough room zero (suc m) (c ∷ b) p q = absurd (omega arith)
lines_of-enough room (suc n) zero [] p q = refl
lines_of-enough room (suc n) zero (c ∷ b) p q = absurd (omega arith)
lines_of-enough room (suc n) (suc m) [] p q = refl
lines_of-enough room (suc n) (suc m) (c ∷ b) p q =
    let shorter : length (read_line (suc room) (c ∷ b)).1 ≤ length b = read_line-takes room c b in
    ap (λ l. cstr (read_line (suc room) (c ∷ b)).0 ∷ l)
      (lines_of-enough room n m (read_line (suc room) (c ∷ b)).1 (omega (arith, shorter))
        (omega (arith, shorter)))
