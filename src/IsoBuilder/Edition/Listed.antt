-- ===== src/IsoBuilder/Edition/Listed.antt =====
-- The editions that are listed: how many, and in which order.
use syn_os.Common.{
  ℕ, zero, suc, ◌≤◌, ◌≡◌, refl, sym, ◌∙◌, arith, Bool, true, not, Option, none, some, List, [], ◌∷◌,
  ◌++◌, All, if-elim, Bytes, length, take, take_all,
}
use mathlib.Core.Path.{subst}
use syn_os.IsoBuilder.Edition.{
  Edition, strcmp_le, sort_names, conf_names, captured, text_lines, edition_shown, show_lines,
  show_line, blank_edition, edition_read_state, read_editions, is_syn, edition_list,
}
use syn_os.IsoBuilder.Edition.Order.{having, syn_first-partition}
use syn_os.IsoBuilder.Edition.Names.{InOrder, itself, All-sort, InOrder-sort, All-conf}

show_lines-name : (e : Edition) (lines : List Bytes) → (show_lines e lines).name ≡ e.name
unfolding show_lines show_line
show_lines-name e [] = refl
show_lines-name e (line ∷ lines) = show_lines-name (show_line e line) lines

module _ {A : Type 0} where
  All-having :
      (P : A → Type 0) (first : A → Bool) (xs : List A) → All P xs → All P (having first xs)
  unfolding having
  All-having P first [] h = tt
  All-having P first (x ∷ xs) h =
      if-elim (All P) (first x) _ _ (λ _. (h.0, All-having P first xs h.1))
        (λ _. All-having P first xs h.1)

  InOrder-having :
      (key : A → Bytes) (first : A → Bool) (xs : List A)
      → InOrder key xs
      → InOrder key (having first xs)
  unfolding having InOrder
  InOrder-having key first [] h = tt
  InOrder-having key first (x ∷ xs) h =
      if-elim (InOrder key) (first x) _ _
        (λ _. (All-having _ first xs h.0, InOrder-having key first xs h.1))
        (λ _. InOrder-having key first xs h.1)

module _ (show status : Bytes → Option Bytes) (size_of : Bytes → Option ℕ) where
  abbrev read : ℕ → List Bytes → List Edition
  read = read_editions show status size_of

  -- What holds of the list after one more name: of what was read without it, and with the edition
  -- in front, whose name is this one.
  read-turn :
      (Q : List Edition → Type 0) (room : ℕ) (name : Bytes) (names : List Bytes)
      → length name ≤ 63
      → Q (read (suc room) names)
      → ((e : Edition) → e.name ≡ name → Q (e ∷ read room names))
      → Q (read (suc room) (name ∷ names))
  unfolding read_editions edition_read_state
  read-turn Q room name names fits skipped added =
      elim (show name)
        as (λ o. Q (elim (edition_shown name (captured 4096 o)) as (λ _. List Edition) [
          | none ↦ read (suc room) names
          | some e ↦ edition_read_state status size_of e ∷ read room names
        ])) [
          | none ↦ skipped
          | some text ↦ added _ (
              show_lines-name (blank_edition name) (text_lines (take 4095 text))
              ∙ take_all 63 name fits)
        ]

  read-All :
      (P : Bytes → Type 0) (room : ℕ) (names : List Bytes)
      → All (λ n. length n ≤ 63) names
      → All P names
      → All (λ e. P e.name) (read room names)
  unfolding read_editions
  read-All P zero names short h = tt
  read-All P (suc room) [] short h = tt
  read-All P (suc room) (name ∷ names) short h =
      read-turn (All (λ e. P e.name)) room name names short.0
        (read-All P (suc room) names short.1 h.1)
        (λ e same. (subst P (sym same) h.0, read-All P room names short.1 h.1))

  read-InOrder :
      (room : ℕ) (names : List Bytes)
      → All (λ n. length n ≤ 63) names
      → InOrder itself names
      → InOrder (λ e. e.name) (read room names)
  unfolding read_editions InOrder
  read-InOrder zero names short h = tt
  read-InOrder (suc room) [] short h = tt
  read-InOrder (suc room) (name ∷ names) short h =
      read-turn (InOrder (λ e. e.name)) room name names short.0
        (read-InOrder (suc room) names short.1 h.1)
        (λ e same. (
          subst (λ n. All (λ d. strcmp_le n d.name ≡ true) (read room names)) (sym same)
              (read-All (λ d. strcmp_le name d ≡ true) room names short.1 h.0),
          read-InOrder room names short.1 h.1,
        ))

  read_editions-length :
      (room : ℕ) (names : List Bytes)
      → All (λ n. length n ≤ 63) names
      → length (read room names) ≤ room
  unfolding read_editions
  read_editions-length zero names short = omega arith
  read_editions-length (suc room) [] short = omega arith
  read_editions-length (suc room) (name ∷ names) short =
      read-turn (λ r. length r ≤ suc room) room name names short.0
        (read_editions-length (suc room) names short.1)
        (λ e same. omega (arith, read_editions-length room names short.1))

-- For what BUILD.zsh prints for each edition, the sizes of files, the names in the directory and the
-- room for editions: with `read` the editions that are read, in order, from the sorted names, the
-- list is those of `read` whose layer is "syn" and then those whose layer is not. Each of the two
-- parts is sorted by `strcmp` of the names, and `read` is no longer than the room.
pub edition_list-sorted :
    (show status : Bytes → Option Bytes) (size_of : Bytes → Option ℕ) (names : List Bytes) (max : ℕ)
    → let read : List Edition =
        read_editions show status size_of max (sort_names (conf_names 64 names)) in
      let ours : List Edition = having is_syn read in
      let others : List Edition = having (λ e. not (is_syn e)) read in
      (edition_list show status size_of (some names) max ≡ ours ++ others)
      × InOrder (λ e. e.name) ours
      × InOrder (λ e. e.name) others
      × (length read ≤ max)
unfolding edition_list
edition_list-sorted show status size_of names max =
    let sorted : List Bytes = sort_names (conf_names 64 names) in
    let short : All (λ n. length n ≤ 63) sorted = All-sort _ _ (All-conf 64 names) in
    let read : List Edition = read_editions show status size_of max sorted in
    let ordered : InOrder (λ e. e.name) read =
      read-InOrder show status size_of max sorted short (InOrder-sort (conf_names 64 names)) in
    (
      syn_first-partition is_syn read,
      InOrder-having (λ e. e.name) is_syn read ordered,
      InOrder-having (λ e. e.name) (λ e. not (is_syn e)) read ordered,
      read_editions-length show status size_of max sorted short,
    )
