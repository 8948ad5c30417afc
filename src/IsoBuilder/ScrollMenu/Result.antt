-- ===== src/IsoBuilder/ScrollMenu/Result.antt =====
-- What the loop returns, and what it shows while it waits.
use syn_os.Common.{
  ℕ, zero, suc, ◌+◌, ◌-◌, ◌≤◌, ◌<◌, ◌≡◌, inl, inr, All-map, Bool-cases, refl, sym, ◌∙◌, ap, arith,
  Bool, true, false, ◌&&◌, Option, none, some, List, [], ◌∷◌, ◌++◌, Bytes, All, length, drop,
  get_elem?, ltb, ◌==◌, if◌then◌else◌,
}
use mathlib.Core.Path.{subst}
use mathlib.Core.Option.{some-injective}
use syn_os.IsoBuilder.ScrollMenu.{
  Menu, Key, enter, escape, key_up, key_down, erase, other, char, Next, again, result,
  row_matches_filter, visible_from, rebuild, content_height, clamp_selected, redraw, draw_rows,
  drawn, edit_key, menu_key, choose, turn, printable, refilter,
}
use syn_os.IsoBuilder.ScrollMenu.Invariant.{Reach, reach-Valid}

-- The row at `i`, counted from `k` on, passes the filter.
unfoldable pub Passes : List Bytes → ℕ → Bytes → ℕ → Type 0
Passes rows k filter i =
    (row : Bytes) × (get_elem? rows (i - k) ≡ some row)
    × (row_matches_filter row filter ≡ true)
    × (k ≤ i)

draw_rows-get :
    (k room line at selected : ℕ) (rest : List ℕ) (i : ℕ)
    → k < room
    → at + k ≡ selected
    → get_elem? rest k ≡ some i
    → get_elem? (draw_rows room line at selected rest) k ≡ some (line + k, (i, true))
unfolding draw_rows
draw_rows-get k zero line at selected rest i h a e = absurd (omega arith)
draw_rows-get k (suc room) line at selected [] i h a e = ground arith
draw_rows-get zero (suc room) line at selected (x ∷ rest) i h a e =
    let here : (at == selected) ≡ true = ground arith in
    let same : x ≡ i = some-injective x i e in
    rw (here, same) (ap (λ l. some (l, (i, true))) (omega arith))
draw_rows-get (suc k) (suc room) line at selected (x ∷ rest) i h a e =
    draw_rows-get k room (line + 1) (at + 1) selected rest i (omega arith) (omega arith) e
    ∙ ap (λ l. some (l, (i, true))) (omega arith)

get_elem-drop : (n i : ℕ) (xs : List ℕ) → n ≤ i → get_elem? (drop n xs) (i - n) ≡ get_elem? xs i
get_elem-drop zero i xs h = ap (get_elem? xs) (omega arith)
get_elem-drop (suc n) zero xs h = absurd (omega arith)
get_elem-drop (suc n) (suc i) [] h = refl
get_elem-drop (suc n) (suc i) (x ∷ xs) h =
    ap (get_elem? (drop n xs)) (omega arith) ∙ get_elem-drop n i xs (omega arith)

-- The window of the rows that are drawn holds the selected one.
redraw-window :
    (rows_dim : ℕ) (m : Menu)
    → let d : Menu = redraw rows_dim m in
      (d.scroll_top ≤ d.selected) × (d.selected < d.scroll_top + content_height rows_dim)
unfolding redraw content_height
redraw-window rows_dim m = ground arith

content_height-above : (rows_dim : ℕ) → 4 ≤ rows_dim → 2 + content_height rows_dim ≤ rows_dim - 1
unfolding content_height
content_height-above rows_dim tall = ground arith

Passes-later :
    (k : ℕ) (filter row : Bytes) (rows : List Bytes) (i : ℕ)
    → Passes rows (suc k) filter i
    → Passes (row ∷ rows) k filter i
unfolding Passes
Passes-later k filter row rows i p =
    (p.0, ap (get_elem? (row ∷ rows)) (from_k p.3) ∙ p.1, p.2, omega (arith, p.3))
  where
    from_k : suc k ≤ i → i - k ≡ suc (i - suc k)
    from_k h = omega arith

All-get : (P : ℕ → Type 0) (xs : List ℕ) (i x : ℕ) → get_elem? xs i ≡ some x → All P xs → P x
All-get P [] i x e h = ground arith
All-get P (y ∷ xs) zero x e h = subst P (some-injective y x e) h.0
All-get P (y ∷ xs) (suc i) x e h = All-get P xs i x e h.1

Passes-first :
    (k : ℕ) (filter row : Bytes) (rows : List Bytes)
    → row_matches_filter row filter ≡ true
    → Passes (row ∷ rows) k filter k
unfolding Passes
Passes-first k filter row rows h =
    let here : k - k ≡ 0 = omega arith in (row, ap (get_elem? (row ∷ rows)) here, h, omega arith)

visible-Passes :
    (rows : List Bytes) (k : ℕ) (filter : Bytes)
    → All (Passes rows k filter) (visible_from k filter rows)
unfolding visible_from
visible-Passes [] k filter = tt
visible-Passes (row ∷ rows) k filter =
    let later : All (Passes (row ∷ rows) k filter) (visible_from (suc k) filter rows) =
      All-map _ (Passes-later k filter row rows) (visible-Passes rows (suc k) filter) in
    elim (Bool-cases (row_matches_filter row filter)) [
      | inl h ↦ rw h (Passes-first k filter row rows h, later)
      | inr h ↦ rw h later
    ]

-- What a turn may return when rows are listed by `filter`.
unfoldable Good : List Bytes → Bytes → Next → Type 0
Good rows filter (again m) = Unit
Good rows filter (result none) = Unit
Good rows filter (result (some i)) = Passes rows 0 filter i

module _ (rows : List Bytes) (filter : Bytes) where
  Good-if :
      (b : Bool) (m n : Next)
      → Good rows filter m
      → Good rows filter n
      → Good rows filter (if b then m else n)
  Good-if true m n h k = h
  Good-if false m n h k = k

  Good-edit : (m : Menu) (key : Key) → Good rows filter (edit_key rows m key)
  unfolding Good edit_key
  Good-edit m (char c) =
      Good-if (printable c && ltb (length m.filter) 255)
        (again (refilter rows true (m.filter ++ (c ∷ [])))) (again m) tt tt
  Good-edit m enter = tt
  Good-edit m escape = tt
  Good-edit m erase = tt
  Good-edit m key_up = tt
  Good-edit m key_down = tt
  Good-edit m other = tt

  Good-choose :
      (m : Menu)
      → m.visible ≡ rebuild rows filter
      → (o : Option ℕ) → get_elem? m.visible m.selected ≡ o
      → Good rows filter (choose m o)
  unfolding Good rebuild
  Good-choose m e none h = tt
  Good-choose m e (some i) h =
      All-get _ (visible_from 0 filter rows) m.selected i
        (ap (λ v. get_elem? v m.selected) (sym e) ∙ h) (visible-Passes rows 0 filter)

  Good-menu :
      (m : Menu) (key : Key) → m.visible ≡ rebuild rows filter → Good rows filter (menu_key m key)
  unfolding Good menu_key
  Good-menu m enter e =
      Good-if (length m.visible == 0) (again m) (choose m (get_elem? m.visible m.selected)) tt
        (Good-choose m e (get_elem? m.visible m.selected) refl)
  Good-menu m (char c) e = ground arith
  Good-menu m escape e = tt
  Good-menu m erase e = tt
  Good-menu m key_up e = tt
  Good-menu m key_down e = tt
  Good-menu m other e = tt

-- The index that a turn returns from a menu that the loop reaches is that of a row which passes the
-- filter that the menu shows.
pub result_passes :
    (rows : List Bytes) (m : Menu) (rows_dim : ℕ) (key : Key) (i : ℕ)
    → Reach rows m
    → turn rows rows_dim m key ≡ result (some i)
    → (row : Bytes) × (get_elem? rows i ≡ some row) × (row_matches_filter row m.filter ≡ true)
unfolding turn Good Passes redraw
result_passes rows m rows_dim key i r e =
    let d : Menu = redraw rows_dim m in
    let p : Passes rows 0 m.filter i = subst (Good rows m.filter) e (
      Good-if rows m.filter d.input_mode _ _ (Good-edit rows m.filter d key)
        (Good-menu rows m.filter d key (reach-Valid rows m r).visible)) in
    let from_zero : i ≡ i - 0 = omega arith in (p.0, ap (get_elem? rows) (omega arith) ∙ p.1, p.2)

get_elem-below : (xs : List ℕ) (i : ℕ) → i < length xs → (x : ℕ) × (get_elem? xs i ≡ some x)
get_elem-below [] i h = absurd (omega arith)
get_elem-below (x ∷ xs) zero h = (x, refl)
get_elem-below (x ∷ xs) (suc i) h = get_elem-below xs i (omega arith)

menu_enter :
    (m : Menu) → m.selected < length m.visible → (i : ℕ) × (menu_key m enter ≡ result (some i))
unfolding menu_key
menu_enter m below =
    let found : (i : ℕ) × (get_elem? m.visible m.selected ≡ some i) =
      get_elem-below m.visible m.selected below in
    let some_row : (length m.visible == 0) ≡ false = ground arith in
    (
      found.0,
      ap (λ b. if b then again m else choose m (get_elem? m.visible m.selected)) some_row
          ∙ ap (choose m) found.1,
    )

clamp_below : (count selected : ℕ) → 0 < count → clamp_selected count selected < count
clamp_below count selected h = ground arith

-- Enter returns a row from every menu in which the filter is not edited and lists a row.
pub enter_returns :
    (rows : List Bytes) (m : Menu) (rows_dim : ℕ)
    → m.input_mode ≡ false
    → 0 < length m.visible
    → (i : ℕ) × (turn rows rows_dim m enter ≡ result (some i))
unfolding turn redraw
enter_returns rows m rows_dim mode some_row =
    let d : Menu = redraw rows_dim m in
    let p : (i : ℕ) × (menu_key d enter ≡ result (some i)) =
      menu_enter d (clamp_below (length m.visible) m.selected some_row) in
    (p.0, ap (λ b. if b then edit_key rows d enter else menu_key d enter) mode ∙ p.1)

-- On a screen of at least four lines, and where a row is listed: the row that is selected is drawn, as
-- the selected one, on a line between the filter and the status bar on the last line.
pub redraw_shows_selected :
    (rows_dim : ℕ) (m : Menu)
    → 4 ≤ rows_dim
    → 0 < length m.visible
    → let d : Menu = redraw rows_dim m in
      (i : ℕ) × (line : ℕ) × (get_elem? m.visible d.selected ≡ some i)
      × (get_elem? (drawn rows_dim d) (d.selected - d.scroll_top) ≡ some (line, (i, true)))
      × (2 ≤ line)
      × (line < rows_dim - 1)
unfolding drawn redraw
redraw_shows_selected rows_dim m tall some_row =
    let d : Menu = redraw rows_dim m in
    let window = redraw-window rows_dim m in
    let k : ℕ = d.selected - d.scroll_top in
    let found : (i : ℕ) × (get_elem? m.visible d.selected ≡ some i) =
      get_elem-below m.visible d.selected (clamp_below (length m.visible) m.selected some_row) in
    (
      found.0,
      2 + k,
      found.1,
      draw_rows-get k (content_height rows_dim) 2 d.scroll_top d.selected
          (drop d.scroll_top d.visible) found.0 (omega (arith, window.0, window.1))
          (omega (arith, window.0, window.1))
          (get_elem-drop d.scroll_top d.selected d.visible window.0 ∙ found.1),
      omega arith,
      omega (arith, window.0, window.1, content_height-above rows_dim tall),
    )
