-- ===== src/Bar/Titles/Watchers.antt =====
-- The watchers that are left after a title was sent.
use syn_os.Common.{
  ℕ, zero, suc, ◌+◌, ◌≤◌, ◌≡◌, refl, ◌∙◌, ap, arith, Bool, List, [], ◌∷◌, length, ◌==◌,
  if◌then◌else◌, Bool-cases, inl, inr,
}
use syn_os.Bar.Titles.{behind_first, move_last, sweep, broadcast_title}

-- How often a descriptor stands in the list.
unfoldable pub count : ℕ → List ℕ → ℕ
count fd [] = 0
count fd (x ∷ fds) = (if x == fd then 1 else 0) + count fd fds

length-behind : (fd : ℕ) (fds : List ℕ) → length (behind_first fd fds) ≡ suc (length fds)
length-behind fd [] = refl
length-behind fd (x ∷ fds) = refl

length-move_last : (fds : List ℕ) → length (move_last fds) ≡ length fds
unfolding move_last
length-move_last [] = refl
length-move_last (fd ∷ []) = refl
length-move_last (fd ∷ next ∷ fds) =
    length-behind fd (move_last (next ∷ fds)) ∙ ap suc (length-move_last (next ∷ fds))

count-behind : (x fd : ℕ) (fds : List ℕ) → count x (behind_first fd fds) ≡ count x (fd ∷ fds)
unfolding count
count-behind x fd [] = refl
count-behind x fd (y ∷ fds) = omega arith

count-move_last : (x : ℕ) (fds : List ℕ) → count x (move_last fds) ≡ count x fds
unfolding move_last count
count-move_last x [] = refl
count-move_last x (fd ∷ []) = refl
count-move_last x (fd ∷ next ∷ fds) =
    count-behind x fd (move_last (next ∷ fds))
    ∙ ap (λ n. (if fd == x then 1 else 0) + n) (count-move_last x (next ∷ fds))

module _ (takes : ℕ → Bool) where
  count-sweep :
      (fuel x : ℕ) (fds : List ℕ)
      → length fds ≤ fuel
      → count x (sweep takes fuel fds) ≡ (if takes x then count x fds else 0)
  unfolding sweep count
  count-sweep zero x [] h = ground arith
  count-sweep zero x (fd ∷ fds) h = absurd (omega arith)
  count-sweep (suc fuel) x [] h = ground arith
  count-sweep (suc fuel) x (fd ∷ fds) h = elim (Bool-cases (takes fd)) [
    | inl took ↦
        ap
          (λ b. count x (
            let kept : List ℕ = sweep takes fuel (if b then fds else move_last fds) in
            if b then fd ∷ kept else kept))
          took
        ∙ ap (λ n. (if fd == x then 1 else 0) + n) (count-sweep fuel x fds (omega arith))
        ∙ ground (arith, took)
    | inr lost ↦
        ap
          (λ b. count x (
            let kept : List ℕ = sweep takes fuel (if b then fds else move_last fds) in
            if b then fd ∷ kept else kept))
          lost
        ∙ count-sweep fuel x (move_last fds) (omega (arith, length-move_last fds))
        ∙ ap (λ n. if takes x then n else 0) (count-move_last x fds)
        ∙ ground (arith, lost)
  ]

  length-sweep : (fuel : ℕ) (fds : List ℕ) → length (sweep takes fuel fds) ≤ length fds
  unfolding sweep
  length-sweep zero fds = omega arith
  length-sweep (suc fuel) [] = omega arith
  length-sweep (suc fuel) (fd ∷ fds) = elim (Bool-cases (takes fd)) [
    | inl took ↦ ground (arith, took, length-sweep fuel fds)
    | inr lost ↦ ground (arith, lost, length-sweep fuel (move_last fds), length-move_last fds)
  ]

  pub length-broadcast : (fds : List ℕ) → length (broadcast_title takes fds) ≤ length fds
  unfolding broadcast_title
  length-broadcast fds = length-sweep (length fds) fds

  -- After a title was sent, each watcher that took the whole line is still there, as often as it
  -- was, and no other one.
  pub count-broadcast :
      (x : ℕ) (fds : List ℕ)
      → count x (broadcast_title takes fds) ≡ (if takes x then count x fds else 0)
  unfolding broadcast_title
  count-broadcast x fds = count-sweep (length fds) x fds (omega arith)
