-- ===== src/Io/Steady.antt =====
-- The calls that give, where they succeed, what they give without faults.
use syn_os.Common.{ℕ, zero, suc, Bool, true, false, refl, ◌∙◌, Option, none, some, [], Bytes}
use syn_os.Io.{
  World, Status, io, crypto, Outcome, done, fail, Call, continue, ◌>>=◌, return, throw, require,
  attempt, attempts, lookup_file, open_read, open_write, rand_bytes, head_fault, succeeds, next,
  draw, store,
}
use syn_os.Io.Clean.{bind-done}
use syn_os.Io.Whole.{here, taken, Later-trans, SteadyAt, Steady}

module _ {A : Type 0} where
  pub Steady-return : (a : A) → Steady (return a)
  unfolding return SteadyAt
  Steady-return a = record { at = λ w. (refl, here w.faults) }

  pub Steady-throw : (s : Status) → Steady (throw {A = A} s)
  unfolding throw SteadyAt
  Steady-throw s = record { at = λ w. tt }

module _ {A B : Type 0} (m : Call A) (f : A → Call B) where
  SteadyAt-later :
      (w w₁ : World) (a : A) (o : Outcome B) (w₂ : World)
      → SteadyAt m w (done a, w₁)
      → SteadyAt (f a) w₁ (o, w₂)
      → SteadyAt (m >>= f) w (o, w₂)
  unfolding SteadyAt
  SteadyAt-later w w₁ a (done b) w₂ s h = (bind-done m f s.0 ∙ h.0, Later-trans s.1 h.1)
  SteadyAt-later w w₁ a (fail t) w₂ s h = tt

  SteadyAt-continue :
      (w : World) (o : Outcome A) (w₁ : World)
      → SteadyAt m w (o, w₁)
      → ((a : A) → Steady (f a))
      → SteadyAt (m >>= f) w (continue o f w₁)
  unfolding SteadyAt
  SteadyAt-continue w (done a) w₁ s h = SteadyAt-later w w₁ a (f a w₁).0 (f a w₁).1 s ((h a).at w₁)
  SteadyAt-continue w (fail t) w₁ s h = tt

  pub Steady-bind : Steady m → ((a : A) → Steady (f a)) → Steady (m >>= f)
  unfolding ◌>>=◌
  Steady-bind s h = record { at = λ w. SteadyAt-continue w (m w).0 (m w).1 (s.at w) h }

pub Steady-require : (b : Bool) (s : Status) → Steady (require b s)
unfolding require
Steady-require true s = Steady-return tt
Steady-require false s = Steady-throw s

SteadyAt-attempt :
    (s : Status) (w : World) (f : Option ℕ)
    → SteadyAt (attempt s) w (require (succeeds f) s (next w))
unfolding SteadyAt attempt require return throw ◌>>=◌
SteadyAt-attempt s w none = (refl, taken w.faults _ (here _))
SteadyAt-attempt s w (some n) = tt

pub Steady-attempt : (s : Status) → Steady (attempt s)
unfolding attempt ◌>>=◌
Steady-attempt s = record { at = λ w. SteadyAt-attempt s w (head_fault w.faults) }

pub Steady-attempts : (n : ℕ) (s : Status) → Steady (attempts n s)
unfolding attempts
Steady-attempts zero s = Steady-return tt
Steady-attempts (suc n) s = Steady-bind _ _ (Steady-attempt s) λ _. Steady-attempts n s

Steady-draw : (n : ℕ) → Steady (draw n)
unfolding SteadyAt
Steady-draw n = record { at = λ w. (refl, here w.faults) }

pub Steady-rand_bytes : (n : ℕ) → Steady (rand_bytes n)
unfolding rand_bytes
Steady-rand_bytes n = Steady-bind _ _ (Steady-attempt crypto) λ _. Steady-draw n

Steady-store : (path : Bytes) (content : Option Bytes) → Steady (store path content)
unfolding SteadyAt
Steady-store path content = record { at = λ w. (refl, here w.faults) }

pub Steady-open_write : (path : Bytes) → Steady (open_write path)
unfolding open_write
Steady-open_write path = Steady-bind _ _ (Steady-attempt io) λ _. Steady-store path (some [])

Steady-lookup : (o : Option Bytes) → Steady (lookup_file o)
unfolding lookup_file
Steady-lookup none = Steady-throw io
Steady-lookup (some b) = Steady-return b

-- `open_read` looks up the file of the world that it is called in.
pub Steady-open_read : (path : Bytes) → Steady (open_read path)
unfolding open_read SteadyAt
Steady-open_read path = record {
  at = λ w.
      (Steady-bind (attempt io) (λ _. lookup_file (w.files path)) (Steady-attempt io)
          (λ _. Steady-lookup (w.files path))).at
        w;
}

pub ruleset steady_rules = (
  Steady-return, Steady-throw, Steady-bind, Steady-require, Steady-attempt, Steady-attempts,
  Steady-rand_bytes, Steady-open_write, Steady-open_read,
)
