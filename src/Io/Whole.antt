-- ===== src/Io/Whole.antt =====
-- What a block that succeeds has written, beside what it writes in a world without faults.
use syn_os.Common.{◌≡◌, ap, ◌∙◌, Option, some, List, Bytes, ℕ}
use syn_os.Io.{World, Outcome, done, fail, Call, continue, ◌>>=◌, kept, head_fault, tail_faults}
use syn_os.Io.Clean.{clean, bind-done}

-- The second schedule is what is left of the first.
pub data Later : List (Option ℕ) → List (Option ℕ) → Type 0 where
  here : (fs : List (Option ℕ)) → Later fs fs
  taken : (fs gs : List (Option ℕ)) → Later (tail_faults fs) gs → Later fs gs

pub Later-trans : {fs gs hs : List (Option ℕ)} → Later fs gs → Later gs hs → Later fs hs
Later-trans (here fs) k = k
Later-trans (taken fs gs h) k = taken fs _ (Later-trans h k)

-- A block that succeeds gives what it gives without faults, and changes the same.
unfoldable pub SteadyAt : {A : Type 0} → Call A → World → Outcome A × World → Type 0
SteadyAt m w (done a, w') =
    (m (clean w.files w.entropy) ≡ (done a, clean w'.files w'.entropy)) × Later w.faults w'.faults
SteadyAt m w (fail s, w') = Unit

pub record Steady {A : Type 0} (m : Call A) : Type 0 where
  pub at : (w : World) → SteadyAt m w (m w)

-- A block that succeeds has left the content of `path` that it leaves without faults, but for what was
-- lost in its last call, which is the `fclose`.
pub record Written (path : Bytes) (before : World) (faultless : Outcome (Unit {0}) × World)
    (after : World) : Type 0 where
  pub full : Bytes
  pub succeeds_too : faultless.0 ≡ done tt
  pub leaves : faultless.1.files path ≡ some full
  -- the schedule when `fclose` is called
  pub closing : List (Option ℕ)
  pub reached : Later before.faults closing
  pub last : after.faults ≡ tail_faults closing
  pub content : after.files path ≡ some (kept (head_fault closing) full)

unfoldable pub WholeAt : Bytes → Call (Unit {0}) → World → Outcome (Unit {0}) × World → Type 0
WholeAt path m w (done u, w') = Written path w (m (clean w.files w.entropy)) w'
WholeAt path m w (fail s, w') = Unit

pub record Whole (path : Bytes) (m : Call (Unit {0})) : Type 0 where
  pub at : (w : World) → WholeAt path m w (m w)

-- What holds where a block succeeds.
unfoldable pub Then : {A : Type 0} → (A → World → Type 0) → Outcome A × World → Type 0
Then P (done a, w) = P a w
Then P (fail s, w) = Unit

Then_Unit : {A : Type 0} → (o : Outcome A) (w : World) → Then (λ a w. Unit {0}) (o, w)
unfolding Then
Then_Unit (done a) w = tt
Then_Unit (fail s) w = tt

module _ {A : Type 0} (path : Bytes) (m : Call A) (f : A → Call (Unit {0})) where
  WholeAt-from :
      (w w₁ : World) (a : A) (o : Outcome (Unit {0})) (w₂ : World)
      → m (clean w.files w.entropy) ≡ (done a, clean w₁.files w₁.entropy)
      → Later w.faults w₁.faults
      → WholeAt path (f a) w₁ (o, w₂)
      → WholeAt path (m >>= f) w (o, w₂)
  unfolding WholeAt
  WholeAt-from w w₁ a (fail s) w₂ e l h = tt
  WholeAt-from w w₁ a (done u) w₂ e l h =
      let same : (m >>= f) (clean w.files w.entropy) ≡ f a (clean w₁.files w₁.entropy) =
        bind-done m f e in
      record {
        full = h.full;
        succeeds_too = ap (λ r. r.0) same ∙ h.succeeds_too;
        leaves = ap (λ r. r.1.files path) same ∙ h.leaves;
        closing = h.closing;
        reached = Later-trans l h.reached;
        last = h.last;
        content = h.content;
      }

  WholeAt-continue :
      (P : A → World → Type 0) (w : World) (o : Outcome A) (w₁ : World)
      → SteadyAt m w (o, w₁)
      → Then P (o, w₁)
      → ((a : A) (w₁ : World) → P a w₁ → WholeAt path (f a) w₁ (f a w₁))
      → WholeAt path (m >>= f) w (continue o f w₁)
  unfolding SteadyAt Then WholeAt
  WholeAt-continue P w (done a) w₁ s p h =
      WholeAt-from w w₁ a (f a w₁).0 (f a w₁).1 s.0 s.1 (h a w₁ p)
  WholeAt-continue P w (fail t) w₁ s p h = tt

  pub WholeAt-bind :
      (P : A → World → Type 0) (w : World)
      → Steady m
      → Then P (m w)
      → ((a : A) (w₁ : World) → P a w₁ → WholeAt path (f a) w₁ (f a w₁))
      → WholeAt path (m >>= f) w ((m >>= f) w)
  unfolding ◌>>=◌
  WholeAt-bind P w s p h = WholeAt-continue P w (m w).0 (m w).1 (s.at w) p h

  pub Whole-bind : Steady m → ((a : A) → Whole path (f a)) → Whole path (m >>= f)
  Whole-bind s h = record {
    at = λ w. WholeAt-bind (λ a w. Unit) w s (Then_Unit (m w).0 (m w).1) (λ a w₁ p. (h a).at w₁);
  }
