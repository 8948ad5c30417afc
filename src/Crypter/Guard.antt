-- ===== src/Crypter/Guard.antt =====
-- What stands before each encryption: the test for a file that is encrypted already.
use syn_os.Common.{
  Bool, true, false, not, ◌≡◌, refl, sym, ap, ◌∙◌, ◌⊎◌, inl, inr, Bool-cases, ℕ, Option, none, some,
  Bytes, take,
}
use mathlib.Core.Path.{subst}
use syn_os.Io.{
  World, Files, io, already_encrypted, Outcome, done, fail, Call, continue, ◌>>=◌, return, require,
  throw, try, recover, attempt, open_read, lookup_file, head_fault, succeeds, next,
}
use syn_os.Io.Clean.{clean, bind-done}
use syn_os.Io.Whole.{Later, here, taken, Later-trans, WholeAt, Whole}
use syn_os.Crypter.Util.{recognised, sniff, fread, looks_encrypted, shortened}
use syn_os.Crypter.Faultless.{clean-looks_encrypted}

-- The file has one of the encrypted formats.
abbrev pub Recognised : Bytes → Files → Type 0
Recognised path fs =
    (content : Bytes) × (fs path ≡ some content) × (recognised (take 9 content) ≡ true)

-- The test ends in every world, changes no file and draws nothing.
abbrev Quiet : World → Outcome Bool × World → Type 0
Quiet w r =
    (seen : Bool) × (w₁ : World) × (r ≡ (done seen, w₁))
    × (w₁.files ≡ w.files)
    × (w₁.entropy ≡ w.entropy)
    × Later w.faults w₁.faults

looks-with :
    (w : World) (f : Option ℕ) (o : Option Bytes)
    → let r : Outcome Bytes × World =
        continue
          (require (succeeds f) io (next w)).0
          (λ _. lookup_file o)
          (require (succeeds f) io (next w)).1 in
      Quiet w (sniff (recover r.0) r.1)
unfolding require return throw lookup_file fread ◌>>=◌
looks-with w (some n) o = (false, next w, refl, refl, refl, taken w.faults _ (here _))
looks-with w none none = (false, next w, refl, refl, refl, taken w.faults _ (here _))
looks-with w none (some c) = (
  recognised (shortened (head_fault (next w).faults) (take 9 c)),
  next (next w),
  refl,
  refl,
  refl,
  taken w.faults _ (taken (next w).faults _ (here _)),
)

looks-Quiet : (path : Bytes) (w : World) → Quiet w (looks_encrypted path w)
unfolding looks_encrypted try open_read attempt ◌>>=◌
looks-Quiet path w = looks-with w (head_fault w.faults) (w.files path)

-- An encryption, with what comes after the test.
abbrev pub guarded : Bytes → Call (Unit {0}) → Call (Unit {0})
guarded path rest =
    looks_encrypted path >>= λ seen. (require (not seen) already_encrypted >>= λ _. rest)

module _ (path : Bytes) (rest : Call (Unit {0})) where
  passes :
      (w w₁ : World) → looks_encrypted path w ≡ (done false, w₁) → guarded path rest w ≡ rest w₁
  unfolding require return ◌>>=◌
  passes w w₁ e = bind-done (looks_encrypted path) _ e

  stops :
      (w w₁ : World)
      → looks_encrypted path w ≡ (done true, w₁)
      → guarded path rest w ≡ (fail already_encrypted, w₁)
  unfolding require throw ◌>>=◌
  stops w w₁ e = bind-done (looks_encrypted path) _ e

  looks-none :
      (fs : Files) (en : ℕ → ℕ)
      → fs path ≡ none
      → looks_encrypted path (clean fs en) ≡ (done false, clean fs en)
  unfolding looks_encrypted try open_read attempt ◌>>=◌ lookup_file require return throw
  looks-none fs en e = rw e

  clean-guard :
      (fs : Files) (en : ℕ → ℕ) (o : Option Bytes)
      → fs path ≡ o
      → (guarded path rest (clean fs en) ≡ rest (clean fs en)) ⊎ Recognised path fs
  clean-guard fs en none e = inl (passes _ _ (looks-none fs en e))
  clean-guard fs en (some c) e = elim (Bool-cases (recognised (take 9 c))) [
    | inl h ↦ inr (c, e, h)
    | inr h ↦
        inl (passes _ _ (clean-looks_encrypted fs en path e ∙ ap (λ b. (done b, clean fs en)) h))
  ]

  behind :
      (out : Bytes) (w w₁ : World) (r : Outcome (Unit {0}) × World)
      → w₁.files ≡ w.files
      → w₁.entropy ≡ w.entropy
      → Later w.faults w₁.faults
      → guarded path rest (clean w.files w.entropy) ≡ rest (clean w.files w.entropy)
      → WholeAt out rest w₁ r
      → WholeAt out (guarded path rest) w r
  unfolding WholeAt
  behind out w w₁ (fail s, w') ef ee l same h = tt
  behind out w w₁ (done u, w') ef ee l same h =
      let alone : guarded path rest (clean w.files w.entropy) ≡ rest (clean w₁.files w₁.entropy) =
        same
        ∙ ap (λ fs. rest (clean fs w.entropy)) (sym ef)
        ∙ ap (λ en. rest (clean w₁.files en)) (sym ee) in
      record {
        full = h.full;
        succeeds_too = ap (λ r. r.0) alone ∙ h.succeeds_too;
        leaves = ap (λ r. r.1.files out) alone ∙ h.leaves;
        closing = h.closing;
        reached = Later-trans l h.reached;
        last = h.last;
        content = h.content;
      }

  either :
      (out : Bytes) (w : World) (seen : Bool) (w₁ : World)
      → looks_encrypted path w ≡ (done seen, w₁)
      → w₁.files ≡ w.files
      → w₁.entropy ≡ w.entropy
      → Later w.faults w₁.faults
      → guarded path rest (clean w.files w.entropy) ≡ rest (clean w.files w.entropy)
      → Whole out rest
      → WholeAt out (guarded path rest) w (guarded path rest w)
  unfolding WholeAt
  either out w true w₁ e ef ee l same h =
      subst (WholeAt out (guarded path rest) w) (sym (stops w w₁ e)) tt
  either out w false w₁ e ef ee l same h =
      subst (WholeAt out (guarded path rest) w) (sym (passes w w₁ e))
        (behind out w w₁ (rest w₁) ef ee l same (h.at w₁))

  pub Whole-guarded :
      (out : Bytes) (w : World)
      → Whole out rest
      → WholeAt out (guarded path rest) w (guarded path rest w) ⊎ Recognised path w.files
  Whole-guarded out w h =
      let q : Quiet w (looks_encrypted path w) = looks-Quiet path w in
      elim (clean-guard w.files w.entropy (w.files path) refl) [
        | inl same ↦ inl (either out w q.0 q.1 q.2 q.3 q.4 q.5 same h)
        | inr seen ↦ inr seen
      ]
