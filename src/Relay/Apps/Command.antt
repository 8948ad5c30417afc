-- ===== src/Relay/Apps/Command.antt =====
-- The command that a launch hands to the shell.
use syn_os.Common.{
  ℕ, zero, suc, ◌≤◌, ◌≡◌, ◌≢◌, refl, sym, take, ap, arith, [], ◌∷◌, Bytes, length, ◌==◌, inl, inr,
  Bool-cases, Bool, true, false, not, ◌&&◌, ◌∙◌,
}
use mathlib.Core.Path.{subst}
use syn_os.Relay.Apps.{strip, strip_field_codes, is_empty}

-- A percent sign stands at the end of the command only.
unfoldable pub NoCodes : Bytes → Type 0
NoCodes [] = Unit
NoCodes (c ∷ []) = Unit
NoCodes (c ∷ d ∷ e) = (c ≢ 37) × NoCodes (d ∷ e)

NoCodes-cons : (c : ℕ) (e : Bytes) → c ≢ 37 → NoCodes e → NoCodes (c ∷ e)
unfolding NoCodes
NoCodes-cons c [] ne h = tt
NoCodes-cons c (d ∷ e) ne h = (ne, h)

module _ (room c : ℕ) (e : Bytes) where
  strip-code :
      (c == 37 && not (is_empty e)) ≡ true
      → strip (suc room) false (c ∷ e) ≡ strip (suc room) true e
  unfolding strip
  strip-code h = rw h refl

  strip-char :
      (c == 37 && not (is_empty e)) ≡ false
      → strip (suc room) false (c ∷ e) ≡ c ∷ strip room false e
  unfolding strip
  strip-char h = rw h refl

strip-skip : (room c : ℕ) (e : Bytes) → strip (suc room) true (c ∷ e) ≡ strip (suc room) false e
unfolding strip
strip-skip room c e = refl

strip-nil : (room : ℕ) (skip : Bool) → strip room skip [] ≡ []
unfolding strip
strip-nil zero skip = refl
strip-nil (suc room) skip = refl

strip-full : (skip : Bool) (e : Bytes) → strip 0 skip e ≡ []
unfolding strip
strip-full skip e = refl

NoCodes-nil : NoCodes []
unfolding NoCodes
NoCodes-nil = tt

NoCodes-last : (c : ℕ) → NoCodes (c ∷ [])
unfolding NoCodes
NoCodes-last c = tt

NoCodes-strip : (e : Bytes) (room : ℕ) (skip : Bool) → NoCodes (strip room skip e)
NoCodes-strip e zero skip = rw (strip-full skip e) NoCodes-nil
NoCodes-strip [] (suc room) skip = rw (strip-nil (suc room) skip) NoCodes-nil
NoCodes-strip (c ∷ e) (suc room) true = rw (strip-skip room c e) (NoCodes-strip e (suc room) false)
NoCodes-strip (c ∷ []) (suc room) false =
    rw (strip-char room c [] (ground arith), strip-nil room false) (NoCodes-last c)
NoCodes-strip (c ∷ d ∷ e) (suc room) false = elim (Bool-cases (c == 37)) [
  | inl h ↦ rw (strip-code room c (d ∷ e) (ground arith)) (NoCodes-strip (d ∷ e) (suc room) true)
  | inr h ↦
      rw (strip-char room c (d ∷ e) (ground arith)) (
        NoCodes-cons c (strip room false (d ∷ e)) (ground arith) (NoCodes-strip (d ∷ e) room false))
]

strip-id : (e : Bytes) (room : ℕ) → NoCodes e → length e ≤ room → strip room false e ≡ e
unfolding NoCodes
strip-id [] room h fits = strip-nil room false
strip-id (c ∷ e) zero h fits = absurd (omega arith)
strip-id (c ∷ []) (suc room) h fits =
    strip-char room c [] (ground arith) ∙ ap (λ l. c ∷ l) (strip-nil room false)
strip-id (c ∷ d ∷ e) (suc room) h fits =
    strip-char room c (d ∷ e) (ground arith)
    ∙ ap (λ l. c ∷ l) (strip-id (d ∷ e) room h.1 (omega arith))

length-strip : (e : Bytes) (room : ℕ) (skip : Bool) → length (strip room skip e) ≤ room
unfolding strip
length-strip e zero skip = omega arith
length-strip [] (suc room) skip = omega arith
length-strip (c ∷ e) (suc room) true = length-strip e (suc room) false
length-strip (c ∷ e) (suc room) false =
    ground (arith, length-strip e (suc room) true, length-strip e room false)

take-nil : (room : ℕ) → take {A = ℕ} room [] ≡ []
take-nil zero = refl
take-nil (suc room) = refl

-- How a command is read: a percent sign and the character behind it are a field code and leave
-- nothing, and every other character stays, as does a percent sign at the end.
pub data Stripped : Bytes → Bytes → Type 0 where
  end : Stripped [] []
  last : Stripped (37 ∷ []) (37 ∷ [])
  code : (d : ℕ) (e s : Bytes) → Stripped e s → Stripped (37 ∷ d ∷ e) s
  stays : (c : ℕ) (e s : Bytes) → c ≢ 37 → Stripped e s → Stripped (c ∷ e) (c ∷ s)

-- The loop gives as much of that as there is room for.
strip-Stripped : (e s : Bytes) (room : ℕ) → Stripped e s → strip room false e ≡ take room s
strip-Stripped e s zero r = strip-full false e
strip-Stripped _ _ (suc room) end = strip-nil (suc room) false
strip-Stripped _ _ (suc room) last =
    strip-char room 37 [] refl ∙ ap (λ l. 37 ∷ l) (strip-nil room false ∙ sym (take-nil room))
strip-Stripped _ s (suc room) (code d e _ r) =
    strip-code room 37 (d ∷ e) refl ∙ strip-skip room d e ∙ strip-Stripped e s (suc room) r
strip-Stripped _ _ (suc room) (stays c e s ne r) =
    strip-char room c e (ground arith) ∙ ap (λ l. c ∷ l) (strip-Stripped e s room r)

-- Every command can be read so.
read : (e : Bytes) → (s : Bytes) × Stripped e s
read [] = ([], end)
read (c ∷ []) = elim (Bool-cases (c == 37)) [
  | inl h ↦
      let e : 37 ≡ c = ground arith in
      subst (λ c. (s : Bytes) × Stripped (c ∷ []) s) e (37 ∷ [], last)
  | inr h ↦ (c ∷ [], stays c [] [] (ground arith) end)
]
read (c ∷ d ∷ e) = elim (Bool-cases (c == 37)) [
  | inl h ↦
      let e' : 37 ≡ c = ground arith in
      let r : (s : Bytes) × Stripped e s = read e in
      subst (λ c. (s : Bytes) × Stripped (c ∷ d ∷ e) s) e' (r.0, code d e r.0 r.1)
  | inr h ↦
      let r : (s : Bytes) × Stripped (d ∷ e) s = read (d ∷ e) in
      (c ∷ r.0, stays c (d ∷ e) r.0 (ground arith) r.1)
]

-- Every command is left as its text without field codes, of which the first 511 bytes stay. What is
-- left has no percent sign but one at the very end, and a second stripping changes nothing.
pub strip_field_codes_lem :
    (exec : Bytes)
    → (s : Bytes) × Stripped exec s
      × (strip_field_codes exec ≡ take 511 s)
      × NoCodes (strip_field_codes exec)
      × (strip_field_codes (strip_field_codes exec) ≡ strip_field_codes exec)
unfolding strip_field_codes
strip_field_codes_lem exec =
    let clean : NoCodes (strip 511 false exec) = NoCodes-strip exec 511 false in
    let short : length (strip 511 false exec) ≤ 511 = length-strip exec 511 false in
    let r : (s : Bytes) × Stripped exec s = read exec in
    (
      r.0,
      r.1,
      strip-Stripped exec r.0 511 r.1,
      clean,
      strip-id (strip 511 false exec) 511 clean short,
    )
