-- ===== src/IsoBuilder/Edition/Order.antt =====
-- The list of the editions: SYN-OS's own are moved before the rest, and neither changes its order.
use syn_os.Common.{
  ℕ, suc, ◌+◌, ◌≡◌, refl, sym, ap, ◌∙◌, arith, Bool-cases, inl, inr, Bool, not, none, some, List,
  [], ◌∷◌, ◌++◌, append_assoc, append-nil, length, length-append, take, drop, take-append,
  drop-append, get_elem?, if◌then◌else◌,
}
use syn_os.IsoBuilder.Edition.{move_up, syn_first}

-- The elements that pass a test, in their order.
unfoldable pub having : {A : Type 0} → (A → Bool) → List A → List A
having first [] = []
having first (e ∷ rest) =
    let more : List _ = having first rest in if first e then e ∷ more else more

get_elem-middle :
    {A : Type 0}
    → (xs : List A) (e : A) (rest : List A) → get_elem? (xs ++ (e ∷ rest)) (length xs) ≡ some e
get_elem-middle [] e rest = refl
get_elem-middle (x ∷ xs) e rest = get_elem-middle xs e rest

module _ {A : Type 0} (first : A → Bool) where
  move_up-middle :
      (front middle : List A) (e : A) (rest : List A)
      → move_up (length front) (length (front ++ middle)) e (front ++ middle ++ (e ∷ rest))
        ≡ (front ++ (e ∷ [])) ++ middle ++ rest
  move_up-middle front middle e rest =
      let before : List A = front ++ middle in
      let a : take (length front) (before ++ (e ∷ rest)) ≡ front =
        ap (take (length front)) (append_assoc front middle (e ∷ rest))
        ∙ take-append (length front) front (middle ++ (e ∷ rest)) refl in
      let b : take (length before) (before ++ (e ∷ rest)) ≡ before =
        take-append (length before) before (e ∷ rest) refl in
      let c : drop (length front) before ≡ middle = drop-append (length front) front middle refl in
      let d : drop (length before + 1) (before ++ (e ∷ rest)) ≡ rest =
        ap (drop (length before + 1)) (sym (append_assoc before (e ∷ []) rest))
        ∙ drop-append (length before + 1) (before ++ (e ∷ [])) rest
            (length-append before (e ∷ [])) in
      rw (
        a,
        b,
        c,
        d,
        append_assoc (front ++ (e ∷ [])) middle rest,
        append_assoc front (e ∷ []) (middle ++ rest),
      )

  -- One turn of the loop.
  syn_first-turn :
      (fuel i k : ℕ) (out : List A) (e : A)
      → get_elem? out i ≡ some e
      → syn_first first (suc fuel) i k out ≡ (
          if first e
          then syn_first first fuel (i + 1) (k + 1) (move_up k i e out)
          else syn_first first fuel (i + 1) k out)
  unfolding syn_first
  syn_first-turn fuel i k out e found =
      ap
        (λ o. elim o as (λ _. List A) [
          | none ↦ out
          | some x ↦
              if first x
              then syn_first first fuel (i + 1) (k + 1) (move_up k i x out)
              else syn_first first fuel (i + 1) k out
        ])
        found

  -- The loop at the place after `front` and `middle`, with what is before `middle` in place.
  syn_first-from :
      (front middle rest : List A)
      → syn_first first
          (length rest)
          (length (front ++ middle))
          (length front)
          (front ++ middle ++ rest)
        ≡ (front ++ having first rest) ++ (middle ++ having (λ e. not (first e)) rest)
  unfolding syn_first having
  syn_first-from front middle [] =
      rw (append-nil (front ++ middle), append-nil front, append-nil middle)
  syn_first-from front middle (e ∷ rest) =
      let before : List A = front ++ middle in
      let found : get_elem? (before ++ (e ∷ rest)) (length before) ≡ some e =
        get_elem-middle before e rest in
      elim (Bool-cases (first e)) [
        | inl h ↦
            let i : length before + 1 ≡ length (front ++ (e ∷ []) ++ middle) = omega (
              arith,
              length-append front middle,
              length-append front (e ∷ []),
              length-append (front ++ (e ∷ [])) middle,
            ) in
            let k : length front + 1 ≡ length (front ++ (e ∷ [])) =
              omega (arith, length-append front (e ∷ [])) in
            rw (
              syn_first-turn (length rest) (length before) (length front) _ e found,
              h,
              move_up-middle front middle e rest,
              i,
              k,
              syn_first-from (front ++ (e ∷ [])) middle rest,
              append_assoc front (e ∷ []) (having first rest),
            )
        | inr h ↦
            let i : length before + 1 ≡ length (front ++ (middle ++ (e ∷ []))) = omega (
              arith,
              length-append front middle,
              length-append middle (e ∷ []),
              length-append front (middle ++ (e ∷ [])),
            ) in
            let put : before ++ (e ∷ rest) ≡ front ++ (middle ++ (e ∷ [])) ++ rest = rw (
              append_assoc front middle (e ∷ rest),
              append_assoc front (middle ++ (e ∷ [])) rest,
              append_assoc middle (e ∷ []) rest,
            ) in
            rw (
              syn_first-turn (length rest) (length before) (length front) _ e found,
              h,
              put,
              i,
              syn_first-from front (middle ++ (e ∷ [])) rest,
              append_assoc middle (e ∷ []) (having (λ e. not (first e)) rest),
            )
      ]

  -- The loop from its start.
  pub syn_first-partition :
      (out : List A)
      → syn_first first (length out) 0 0 out ≡ having first out ++ having (λ e. not (first e)) out
  syn_first-partition out = syn_first-from [] [] out
