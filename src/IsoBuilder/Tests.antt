-- ===== src/IsoBuilder/Tests.antt =====
-- The theorems about the scroll menu at concrete inputs.
use syn_os.Common.{
  ℕ, ◌-◌, ◌≤◌, ◌<◌, ◌≡◌, refl, arith, false, true, some, List, [], ◌∷◌, Bytes, codes, get_elem?,
}
use syn_os.Cstring.{starts_with}
use syn_os.IsoBuilder.ScrollMenu.{
  contains, visible_from, edit_key, menu_key, Menu, key_down, enter, char, again, result, init,
  redraw, drawn, refilter, content_height, turn, row_matches_filter, rebuild,
}
use syn_os.IsoBuilder.ScrollMenu.Invariant.{Reach, start, step, Valid, reach-Valid}
use syn_os.IsoBuilder.ScrollMenu.Result.{redraw_shows_selected, result_passes, enter_returns}

abbrev rows : List Bytes
rows = codes "base" ∷ codes "desktop" ∷ codes "lfs" ∷ []

abbrev screen : ℕ
screen = 24

-- The menu after a key, where the loop goes on.
abbrev filtering : Menu
filtering = record {
  filter = [];
  selected = 0;
  scroll_top = 0;
  visible = 0 ∷ 1 ∷ 2 ∷ [];
  input_mode = true;
}

abbrev filtered : Menu
filtered = record {
  filter = codes "e";
  selected = 0;
  scroll_top = 0;
  visible = 0 ∷ 1 ∷ [];
  input_mode = true;
}

abbrev chosen : Menu
chosen = record filtered { input_mode = false }

abbrev second : Menu
second = record chosen { selected = 1 }

to_filtering : turn rows screen (init rows) (char 47) ≡ again filtering
unfolding turn redraw init content_height rebuild visible_from row_matches_filter menu_key
to_filtering = refl

to_filtered : turn rows screen filtering (char 101) ≡ again filtered
unfolding turn redraw content_height rebuild visible_from row_matches_filter contains starts_with
    edit_key refilter
to_filtered = refl

to_chosen : turn rows screen filtered enter ≡ again chosen
unfolding turn redraw content_height rebuild visible_from row_matches_filter contains starts_with
    edit_key refilter
to_chosen = refl

to_second : turn rows screen chosen key_down ≡ again second
unfolding turn redraw content_height menu_key
to_second = refl

to_result : turn rows screen second enter ≡ result (some 1)
unfolding turn redraw content_height menu_key
to_result = refl

Reach_second : Reach rows second
Reach_second =
    step chosen second screen key_down
      (step filtered chosen screen enter
        (step filtering filtered screen (char 101)
          (step (init rows) filtering screen (char 47) start to_filtering) to_filtered)
        to_chosen)
      to_second

reach-Valid_example : Valid rows second
reach-Valid_example = reach-Valid rows second Reach_second

redraw_shows_selected_example :
    let d : Menu = redraw 5 second in
    (i : ℕ) × (line : ℕ) × (get_elem? second.visible d.selected ≡ some i)
    × (get_elem? (drawn 5 d) (d.selected - d.scroll_top) ≡ some (line, (i, true)))
    × (2 ≤ line)
    × (line < 4)
redraw_shows_selected_example = redraw_shows_selected 5 second (omega arith) (omega arith)

result_passes_example :
    (row : Bytes) × (get_elem? rows 1 ≡ some row) × (row_matches_filter row (codes "e") ≡ true)
result_passes_example = result_passes rows second screen enter 1 Reach_second to_result

enter_returns_example : (i : ℕ) × (turn rows screen second enter ≡ result (some i))
enter_returns_example = enter_returns rows second screen refl (omega arith)
