-- ===== src/IsoBuilder/Edition/Names.antt =====
-- The order of the names: `strcmp`, `qsort`, and the names that are listed.
use syn_os.Common.{
  ℕ, zero, suc, ◌-◌, ◌≤◌, ◌≡◌, refl, arith, true, false, List, [], ◌∷◌, All, All-map, if-elim,
  Bytes, length, length-take, if◌then◌else◌,
}
use syn_os.IsoBuilder.Edition.{strcmp_le, insert_name, sort_names, conf_names, is_conf}

-- Each key is not after those that follow it.
unfoldable pub InOrder : {A : Type 0} → (A → Bytes) → List A → Type 0
InOrder key [] = Unit
InOrder key (e ∷ rest) = All (λ d. strcmp_le (key e) (key d) ≡ true) rest × InOrder key rest

strcmp_le_trans :
    (a b c : Bytes) → strcmp_le a b ≡ true → strcmp_le b c ≡ true → strcmp_le a c ≡ true
unfolding strcmp_le
strcmp_le_trans [] b c h k = refl
strcmp_le_trans (x ∷ a) [] c h k = ground arith
strcmp_le_trans (x ∷ a) (y ∷ b) [] h k = ground arith
strcmp_le_trans (x ∷ a) (y ∷ b) (z ∷ c) h k = ground (arith, strcmp_le_trans a b c)

strcmp_le_total : (a b : Bytes) → strcmp_le a b ≡ false → strcmp_le b a ≡ true
unfolding strcmp_le
strcmp_le_total [] b h = ground arith
strcmp_le_total (x ∷ a) [] h = refl
strcmp_le_total (x ∷ a) (y ∷ b) h = ground (arith, strcmp_le_total a b)

abbrev pub itself : Bytes → Bytes
itself name = name

All-insert :
    (P : Bytes → Type 0) (name : Bytes) (names : List Bytes)
    → P name
    → All P names
    → All P (insert_name name names)
unfolding insert_name
All-insert P name [] p h = (p, tt)
All-insert P name (n ∷ names) p h =
    if-elim (All P) (strcmp_le name n) _ _ (λ _. (p, h)) (λ _. (h.0, All-insert P name names p h.1))

pub All-sort : (P : Bytes → Type 0) (names : List Bytes) → All P names → All P (sort_names names)
unfolding sort_names
All-sort P [] h = tt
All-sort P (n ∷ names) h = All-insert P n (sort_names names) h.0 (All-sort P names h.1)

InOrder-insert :
    (name : Bytes) (names : List Bytes)
    → InOrder itself names
    → InOrder itself (insert_name name names)
unfolding insert_name InOrder
InOrder-insert name [] h = (tt, tt)
InOrder-insert name (n ∷ names) h =
    if-elim (InOrder itself) (strcmp_le name n) _ _
      (λ e. ((e, All-map names (λ d le. strcmp_le_trans name n d e le) h.0), h))
      (λ e. (
        All-insert (λ d. strcmp_le n d ≡ true) name names (strcmp_le_total name n e) h.0,
        InOrder-insert name names h.1,
      ))

pub InOrder-sort : (names : List Bytes) → InOrder itself (sort_names names)
unfolding sort_names InOrder
InOrder-sort [] = tt
InOrder-sort (n ∷ names) = InOrder-insert n (sort_names names) (InOrder-sort names)

is_conf-Short : (name : Bytes) → is_conf name ≡ true → length name - 5 ≤ 63
unfolding is_conf
is_conf-Short name h = ground arith

pub All-conf : (room : ℕ) (names : List Bytes) → All (λ n. length n ≤ 63) (conf_names room names)
unfolding conf_names is_conf
All-conf zero names = tt
All-conf (suc room) [] = tt
All-conf (suc room) (name ∷ names) =
    if-elim (All (λ n. length n ≤ 63)) (is_conf name) _ _
      (λ e. (
        omega (arith, is_conf-Short name e, length-take (length name - 5) name),
        All-conf (if is_conf name then room else suc room) names,
      ))
      (λ e. All-conf (if is_conf name then room else suc room) names)
