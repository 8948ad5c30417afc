-- ===== src/IsoBuilder/ScrollMenu.antt =====
-- syn_tui_scrollmenu.c: a list on the screen with a filter. The loop is a machine that redraws,
-- takes a key and goes on or returns.
pub mod Invariant
pub mod Result
use syn_os.Common.{
  ℕ, zero, suc, ◌+◌, ◌-◌, ◌%◌, Bool, true, false, not, ◌&&◌, ◌||◌, Option, none, some, List, [],
  ◌∷◌, ◌++◌, Bytes, length, take, drop, get_elem?, ltb, leb, ◌==◌, if◌then◌else◌,
}
use syn_os.Cstring.{starts_with}

-- `strstr(s, needle) != NULL`
unfoldable pub contains : Bytes → Bytes → Bool
contains needle [] = starts_with needle []
contains needle (c ∷ s) =
    let later : Bool = contains needle s in starts_with needle (c ∷ s) || later

-- `row_matches_filter`, on the `filter_text` of a row
unfoldable pub row_matches_filter : Bytes → Bytes → Bool
row_matches_filter filter_text [] = true
row_matches_filter filter_text (c ∷ filter) = contains (c ∷ filter) filter_text

-- The indices from `i` on of the rows that pass the filter.
unfoldable pub visible_from : ℕ → Bytes → List Bytes → List ℕ
visible_from i filter [] = []
visible_from i filter (row ∷ rows) =
    let later : List ℕ = visible_from (suc i) filter rows in
    if row_matches_filter row filter then i ∷ later else later

-- The variables of the loop. A row is its `filter_text`.
pub record Menu : Type 0 where
  pub filter : Bytes
  pub selected : ℕ
  pub scroll_top : ℕ
  pub visible : List ℕ
  pub input_mode : Bool

unfoldable pub rebuild : List Bytes → Bytes → List ℕ
rebuild rows filter = visible_from 0 filter rows

unfoldable pub init : List Bytes → Menu
init rows = record {
  filter = [];
  selected = 0;
  scroll_top = 0;
  visible = rebuild rows [];
  input_mode = false;
}

-- `rows_dim - content_top - 2` with a least value of 1
unfoldable pub content_height : ℕ → ℕ
content_height rows_dim = if ltb (rows_dim - 4) 1 then 1 else rows_dim - 4

abbrev pub clamp_selected : ℕ → ℕ → ℕ
clamp_selected count selected =
    if leb count selected then (if ltb 0 count then count - 1 else 0) else selected

abbrev pub scroll : ℕ → ℕ → ℕ → ℕ
scroll height selected top =
    let up : ℕ = if ltb selected top then selected else top in
    if leb (up + height) selected then selected - height + 1 else up

-- The tests before the rows are drawn, on a screen of `rows_dim` lines.
unfoldable pub redraw : ℕ → Menu → Menu
redraw rows_dim m =
    let selected : ℕ = clamp_selected (length m.visible) m.selected in
    record m {
      selected = selected;
      scroll_top = scroll (content_height rows_dim) selected m.scroll_top;
    }

-- A call of `draw_row`: its line, the index of its row, and whether it is the selected one.
abbrev pub Drawn : Type 0
Drawn = ℕ × (ℕ × Bool)

-- The loop that draws the rows: `room` more of them, at `line`, from the place `at` of the list on.
unfoldable pub draw_rows : ℕ → ℕ → ℕ → ℕ → List ℕ → List Drawn
draw_rows zero line at selected rest = []
draw_rows (suc room) line at selected [] = []
draw_rows (suc room) line at selected (row_idx ∷ rest) =
    (line, (row_idx, at == selected)) ∷ draw_rows room (line + 1) (at + 1) selected rest

unfoldable pub drawn : ℕ → Menu → List Drawn
drawn rows_dim m =
    draw_rows (content_height rows_dim) 2 m.scroll_top m.selected (drop m.scroll_top m.visible)

-- What `getch` gives, as the tests of the loop tell the keys apart.
pub data Key : Type 0 where
  enter escape key_up key_down erase other : Key
  char : ℕ → Key

-- The loop goes on, or returns an index or -1.
pub data Next : Type 0 where
  again : Menu → Next
  result : Option ℕ → Next

-- After a key that ended or changed the input.
unfoldable pub refilter : List Bytes → Bool → Bytes → Menu
refilter rows mode filter = record {
  filter = filter;
  selected = 0;
  scroll_top = 0;
  visible = rebuild rows filter;
  input_mode = mode;
}

abbrev pub printable : ℕ → Bool
printable c = leb 32 c && ltb c 127

-- While the filter is edited. The buffer holds 255 bytes.
unfoldable pub edit_key : List Bytes → Menu → Key → Next
edit_key rows m enter = again (refilter rows false m.filter)
edit_key rows m escape = again (refilter rows false m.filter)
edit_key rows m erase = again (refilter rows true (take (length m.filter - 1) m.filter))
edit_key rows m (char c) =
    if printable c && ltb (length m.filter) 255
    then again (refilter rows true (m.filter ++ (c ∷ [])))
    else again m
edit_key rows m key_up = again m
edit_key rows m key_down = again m
edit_key rows m other = again m

-- `if (visible_count > 0) selected = (selected + step) % visible_count;`
abbrev pub move_by : ℕ → Menu → Menu
move_by step m =
    if ltb 0 (length m.visible)
    then record m { selected = (m.selected + step) % length m.visible }
    else m

abbrev pub choose : Menu → Option ℕ → Next
choose m none = again m
choose m (some i) = result (some i)

-- 'k', 'j', '/' and 'q', and every other character
abbrev pub menu_char : Menu → ℕ → Next
menu_char m c =
    if c == 107
    then again (move_by (length m.visible - 1) m)
    else if c == 106
    then again (move_by 1 m)
    else if c == 47
    then again (record m { input_mode = true })
    else if c == 113
    then result none
    else again m

-- While a row is chosen. `visible[selected]` is read only where there is a row.
unfoldable pub menu_key : Menu → Key → Next
menu_key m key_up = again (move_by (length m.visible - 1) m)
menu_key m key_down = again (move_by 1 m)
menu_key m escape = result none
menu_key m enter =
    if length m.visible == 0 then again m else choose m (get_elem? m.visible m.selected)
menu_key m erase = again m
menu_key m other = again m
menu_key m (char c) = menu_char m c

-- One turn of the loop: the screen may have changed its size.
unfoldable pub turn : List Bytes → ℕ → Menu → Key → Next
turn rows rows_dim m key =
    let drawn : Menu = redraw rows_dim m in
    if drawn.input_mode then edit_key rows drawn key else menu_key drawn key

abbrev pub go_on : Next → (Menu → Option Next) → Option Next
go_on (again m) f = f m
go_on (result r) f = some (result r)

-- The loop over the sizes of the screen and the keys, `none` while it still waits for a key.
unfoldable pub run : List Bytes → List (ℕ × Key) → Menu → Option Next
run rows [] m = none
run rows (step ∷ steps) m = go_on (turn rows step.0 m step.1) (run rows steps)

-- `syn_tui_scrollmenu`
unfoldable pub scrollmenu : List Bytes → List (ℕ × Key) → Option Next
scrollmenu rows steps = run rows steps (init rows)
