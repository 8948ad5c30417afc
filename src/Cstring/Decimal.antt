-- ===== src/Cstring/Decimal.antt =====
-- A number that was printed with "%d" is scanned back.
use syn_os.Common.{
  ℕ, zero, suc, ◌+◌, ◌*◌, ◌/◌, ◌%◌, ◌<◌, ◌≤◌, ◌^◌, ◌≡◌, refl, ◌∙◌, arith, some, [], ◌∷◌, ◌++◌,
  append_assoc, Bytes, ltb, ap, sym, inl, inr, Bool-cases, le→leb,
}
use syn_os.Cstring.{
  decimal, scan_digits, saturate, scan_unsigned, scan_long, skip_space, plus, long_max,
}

scan-digit :
    (n d : ℕ) (rest : Bytes)
    → d < 10
    → scan_digits n ((48 + d) ∷ rest) ≡ scan_digits (n * 10 + d) rest
unfolding scan_digits
scan-digit n d rest h =
    rw (le→leb 48 (48 + d) (omega arith), le→leb (48 + d) 57 (omega arith))
      (ap (λ k. scan_digits (n * 10 + k) rest) (omega arith))

scan-decimal :
    (width n : ℕ) (rest : Bytes)
    → n < 10 ^ width
    → scan_digits 0 (decimal width n ++ rest) ≡ scan_digits n rest
unfolding decimal
scan-decimal zero n rest h = ap (λ k. scan_digits k rest) (omega arith)
scan-decimal (suc width) n rest h = elim (Bool-cases (ltb n 10)) [
  | inl one ↦
      rw one
        (scan-digit 0 (n % 10) rest (omega arith) ∙ ap (λ k. scan_digits k rest) (ground arith))
  | inr more ↦
      rw (more, append_assoc)
        (scan-decimal width (n / 10) ((48 + n % 10) ∷ rest) (omega arith)
          ∙ scan-digit (n / 10) (n % 10) rest (omega arith)
          ∙ ap (λ k. scan_digits k rest) (omega arith))
]

-- A number starts with a digit.
decimal-head :
    (width n : ℕ) → (c : ℕ) × (t : Bytes) × (decimal (suc width) n ≡ c ∷ t) × (48 ≤ c) × (c ≤ 57)
unfolding decimal
decimal-head zero n = elim (Bool-cases (ltb n 10)) [
  | inl one ↦ (48 + n % 10, [], rw one refl, omega arith, omega arith)
  | inr more ↦ (48 + n % 10, [], rw more refl, omega arith, omega arith)
]
decimal-head (suc width) n = elim (Bool-cases (ltb n 10)) [
  | inl one ↦ (48 + n % 10, [], rw one refl, omega arith, omega arith)
  | inr more ↦
      let r : (c : ℕ) × (t : Bytes) × (decimal (suc width) (n / 10) ≡ c ∷ t) × (48 ≤ c) × (c ≤ 57) =
        decimal-head width (n / 10) in
      (r.0, r.1 ++ ((48 + n % 10) ∷ []), rw (more, r.2) refl, r.3, r.4)
]

scan-number :
    (c : ℕ) (b : Bytes)
    → 48 ≤ c
    → c ≤ 57
    → scan_long (c ∷ b)
      ≡ some (plus (saturate (scan_digits 0 (c ∷ b)).0), (scan_digits 0 (c ∷ b)).1)
unfolding scan_long skip_space scan_unsigned
scan-number c b lo hi = ground arith

-- A number is scanned back from what was printed of it, when no digit follows.
pub scan_stops :
    (n : ℕ) (rest : Bytes)
    → n < 2 ^ 31
    → scan_digits n rest ≡ (n, rest)
    → scan_long (decimal 10 n ++ rest) ≡ some (plus n, rest)
scan_stops n rest h stops =
    let r : (c : ℕ) × (t : Bytes) × (decimal 10 n ≡ c ∷ t) × (48 ≤ c) × (c ≤ 57) =
      decimal-head 9 n in
    let all : scan_digits 0 (decimal 10 n ++ rest) ≡ (n, rest) =
      scan-decimal 10 n rest (omega arith) ∙ stops in
    ap scan_long (ap (λ d. d ++ rest) r.2)
    ∙ scan-number r.0 (r.1 ++ rest) r.3 r.4
    ∙ ap (λ d. some (plus (saturate d.0), d.1))
        (ap (λ d. scan_digits 0 (d ++ rest)) (sym r.2) ∙ all)
    ∙ rw (le→leb n long_max (omega arith)) refl

pub scan_printed :
    (n : ℕ) (rest : Bytes)
    → n < 2 ^ 31
    → scan_long (decimal 10 n ++ (10 ∷ rest)) ≡ some (plus n, 10 ∷ rest)
unfolding scan_digits
scan_printed n rest h = scan_stops n (10 ∷ rest) h refl

pub scan_skips_eol : (b : Bytes) → scan_long (10 ∷ b) ≡ scan_long b
unfolding scan_long skip_space
scan_skips_eol b = refl
