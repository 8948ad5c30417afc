-- ===== src/IsoBuilder/Edition/Steps.antt =====
-- The lines of the steps in the status of an LFS edition, as the builder reads them.
use syn_os.Common.{
  ℕ, suc, ◌+◌, ◌≡◌, refl, ap, ◌∙◌, arith, Bool, true, false, not, Option, none, some, List, [], ◌∷◌,
  ◌++◌, All, Bytes, codes, length, if◌then◌else◌,
}
use syn_os.Cstring.{starts_with, snprintf_s}
use syn_os.IsoBuilder.Edition.{EditionState, state_line, state_lines, no_state}
use syn_os.IsoBuilder.Edition.Order.{having}
use syn_os.IsoBuilder.Edition.Status.{step_lines, unrecorded_lines, all_done, Line}

abbrev pub counted : EditionState → ℕ → ℕ → Bytes → EditionState
counted st steps done next = record st { steps = steps; done = done; next = next }

pub state_lines-append :
    (st : EditionState) (a b : List Bytes)
    → state_lines st (a ++ b) ≡ state_lines (state_lines st a) b
unfolding state_lines
state_lines-append st [] b = refl
state_lines-append st (l ∷ a) b = state_lines-append (state_line st l) a b

pub counted-same :
    (st : EditionState) (next : Bytes) {a b c d : ℕ}
    → a ≡ b
    → c ≡ d
    → counted st a c next ≡ counted st b d next
counted-same st next {b = b} {c = c} e h =
    ap (λ n. counted st n c next) e ∙ ap (λ n. counted st b n next) h

-- The lines of the steps, once the next step has been printed.
steps-later :
    (recorded : Bytes → Bool) (c : ℕ) (next : Bytes) (steps : List Bytes) (st : EditionState)
    → state_lines st (step_lines recorded (c ∷ next) steps)
      ≡ counted st (st.steps + length steps) (st.done + length (having recorded steps)) st.next
unfolding step_lines state_lines state_line starts_with having
steps-later recorded c next [] st = counted-same st st.next (omega arith) (omega arith)
steps-later recorded c next (s ∷ steps) st =
    let later : List Bytes = step_lines recorded (c ∷ next) steps in
    let more : List Bytes = having recorded steps in
    elim (recorded s)
      as (λ b.
        state_lines st
          (if b then (codes "  done     " ++ s) ∷ later else (codes "  to come  " ++ s) ∷ later)
        ≡ counted st (st.steps + suc (length steps))
            (st.done + length (if b then s ∷ more else more)) st.next) [
              | true ↦
                  steps-later recorded c next steps
                    (counted st (st.steps + 1) (st.done + 1) st.next)
                  ∙ counted-same st st.next (omega arith) (omega arith)
              | false ↦
                  steps-later recorded c next steps (counted st (st.steps + 1) st.done st.next)
                  ∙ counted-same st st.next (omega arith) (omega arith)
            ]

-- What `next` is where `left` are the steps that are not recorded.
abbrev pub next_left : Bytes → List Bytes → Bytes
next_left old [] = old
next_left old (s ∷ left) = snprintf_s 64 s

-- The lines of the steps from the start of the loop.
pub steps-read :
    (recorded : Bytes → Bool) (steps : List Bytes) (st : EditionState)
    → All Line steps
    → state_lines st (step_lines recorded [] steps)
      ≡ counted st
          (st.steps + length steps)
          (st.done + length (having recorded steps))
          (next_left st.next (having (λ s. not (recorded s)) steps))
unfolding step_lines state_lines state_line starts_with having
steps-read recorded [] st h = counted-same st st.next (omega arith) (omega arith)
steps-read recorded ([] ∷ steps) st h = absurd (omega (arith, h.0.1))
steps-read recorded ((c ∷ s) ∷ steps) st h =
    let same : List Bytes = step_lines recorded [] steps in
    let later : List Bytes = step_lines recorded (c ∷ s) steps in
    let more : List Bytes = having recorded steps in
    let left : List Bytes = having (λ t. not (recorded t)) steps in
    elim (recorded (c ∷ s))
      as (λ b.
        state_lines st (
          if b
          then (codes "  done     " ++ (c ∷ s)) ∷ same
          else (codes "  next     " ++ (c ∷ s)) ∷ later)
        ≡ counted st (st.steps + suc (length steps))
            (st.done + length (if b then (c ∷ s) ∷ more else more))
            (next_left st.next (if not b then (c ∷ s) ∷ left else left))) [
              | true ↦
                  steps-read recorded steps (counted st (st.steps + 1) (st.done + 1) st.next) h.1
                  ∙ counted-same st (next_left st.next left) (omega arith) (omega arith)
              | false ↦
                  steps-later recorded c s steps
                    (counted st (st.steps + 1) st.done (snprintf_s 64 (c ∷ s)))
                  ∙ counted-same st (snprintf_s 64 (c ∷ s)) (omega arith) (omega arith)
            ]

-- The lines that come before and after those of the steps.
abbrev pub is_some : Option Bytes → Bool
is_some none = false
is_some (some dir) = true

pub unrecorded-read :
    (o : Option Bytes)
    → state_lines no_state (unrecorded_lines o) ≡ record no_state { unrecorded = is_some o }
unfolding state_lines state_line starts_with
unrecorded-read none = refl
unrecorded-read (some dir) = refl

pub all_done-read : (next : Bytes) (st : EditionState) → state_lines st (all_done next) ≡ st
unfolding state_lines state_line starts_with
all_done-read [] st = refl
all_done-read (c ∷ next) st = refl
