-- ===== src/IsoBuilder/ScrollMenu/Invariant.antt =====
-- The menus that the loop can reach, and what holds of each.
use syn_os.Common.{
  ℕ, ◌+◌, ◌-◌, ◌≤◌, ◌<◌, ◌≡◌, ◌⊎◌, inl, inr, refl, arith, Bool, true, false, ◌&&◌, Option, none,
  some, List, [], ◌∷◌, ◌++◌, Bytes, length, length-take, length-append, take, get_elem?, ltb, ◌==◌,
  if◌then◌else◌,
}
use mathlib.Core.Path.{subst}
use native.Mathlib.Nat.{mod-lt}
use syn_os.IsoBuilder.ScrollMenu.{
  Menu, Key, enter, escape, key_up, key_down, erase, other, char, Next, again, result, init,
  rebuild, redraw, refilter, edit_key, move_by, choose, menu_char, menu_key, turn, printable,
}

-- The loop reaches a menu by turns from the first one, on screens of any sizes.
pub data Reach (rows : List Bytes) : Menu → Type 0 where
  start : Reach rows (init rows)
  step :
      (m m' : Menu) (rows_dim : ℕ) (key : Key)
      → Reach rows m
      → turn rows rows_dim m key ≡ again m'
      → Reach rows m'

-- The row that is selected is one of those that pass the filter, or there is none.
abbrev pub Selects : List ℕ → ℕ → Type 0
Selects visible selected = (selected < length visible) ⊎ ((length visible ≡ 0) × (selected ≡ 0))

pub record Valid (rows : List Bytes) (m : Menu) : Type 0 where
  pub visible : m.visible ≡ rebuild rows m.filter
  pub fits : length m.filter ≤ 255
  pub selects : Selects m.visible m.selected

Selects-zero : (visible : List ℕ) → Selects visible 0
Selects-zero [] = inr (refl, refl)
Selects-zero (i ∷ visible) = inl (omega arith)

Valid-refilter :
    (rows : List Bytes) (mode : Bool) (filter : Bytes)
    → length filter ≤ 255
    → Valid rows (refilter rows mode filter)
unfolding refilter
Valid-refilter rows mode filter fits = record {
  visible = refl;
  fits = fits;
  selects = Selects-zero (rebuild rows filter);
}

Valid-init : (rows : List Bytes) → Valid rows (init rows)
unfolding init
Valid-init rows = record {
  visible = refl;
  fits = omega arith;
  selects = Selects-zero (rebuild rows []);
}

Valid-redraw :
    (rows : List Bytes) (rows_dim : ℕ) (m : Menu) → Valid rows m → Valid rows (redraw rows_dim m)
unfolding redraw
Valid-redraw rows rows_dim m v = record {
  visible = v.visible;
  fits = v.fits;
  selects = ground (arith, v.selects);
}

Valid-if :
    (rows : List Bytes) (b : Bool) (m n : Menu)
    → (b ≡ true → Valid rows m)
    → Valid rows n
    → Valid rows (if b then m else n)
Valid-if rows true m n h k = h refl
Valid-if rows false m n h k = k

Valid-move : (rows : List Bytes) (n : ℕ) (m : Menu) → Valid rows m → Valid rows (move_by n m)
Valid-move rows n m v =
    Valid-if rows (ltb 0 (length m.visible)) _ m
      (λ some_row. record {
        visible = v.visible;
        fits = v.fits;
        selects = inl (mod-lt (m.selected + n) (ground arith));
      })
      v

-- What a turn that goes on leaves.
unfoldable GoesOn : List Bytes → Next → Type 0
GoesOn rows (again m) = Valid rows m
GoesOn rows (result r) = Unit

GoesOn-if :
    (rows : List Bytes) (b : Bool) (m n : Next)
    → (b ≡ true → GoesOn rows m)
    → GoesOn rows n
    → GoesOn rows (if b then m else n)
GoesOn-if rows true m n h k = h refl
GoesOn-if rows false m n h k = k

GoesOn-edit :
    (rows : List Bytes) (m : Menu) (key : Key) → Valid rows m → GoesOn rows (edit_key rows m key)
unfolding edit_key GoesOn
GoesOn-edit rows m enter v = Valid-refilter rows false m.filter v.fits
GoesOn-edit rows m escape v = Valid-refilter rows false m.filter v.fits
GoesOn-edit rows m erase v =
    Valid-refilter rows true (take (length m.filter - 1) m.filter)
      (omega (arith, v.fits, length-take (length m.filter - 1) m.filter))
GoesOn-edit rows m (char c) v =
    GoesOn-if rows (printable c && ltb (length m.filter) 255) _ _
      (λ room.
        Valid-refilter rows true (m.filter ++ (c ∷ []))
          (ground (arith, room, length-append m.filter (c ∷ []))))
      v
GoesOn-edit rows m key_up v = v
GoesOn-edit rows m key_down v = v
GoesOn-edit rows m other v = v

GoesOn-choose :
    (rows : List Bytes) (m : Menu) (o : Option ℕ) → Valid rows m → GoesOn rows (choose m o)
unfolding GoesOn
GoesOn-choose rows m none v = v
GoesOn-choose rows m (some i) v = tt

GoesOn-char : (rows : List Bytes) (m : Menu) (c : ℕ) → Valid rows m → GoesOn rows (menu_char m c)
unfolding GoesOn
GoesOn-char rows m c v =
    GoesOn-if rows (c == 107) _ _ (λ _. Valid-move rows (length m.visible - 1) m v)
      (GoesOn-if rows (c == 106) _ _ (λ _. Valid-move rows 1 m v)
        (GoesOn-if rows (c == 47) _ _
          (λ _. record { visible = v.visible; fits = v.fits; selects = v.selects })
          (GoesOn-if rows (c == 113) _ _ (λ _. tt) v)))

GoesOn-menu :
    (rows : List Bytes) (m : Menu) (key : Key) → Valid rows m → GoesOn rows (menu_key m key)
unfolding menu_key GoesOn
GoesOn-menu rows m enter v =
    GoesOn-if rows (length m.visible == 0) _ _ (λ _. v)
      (GoesOn-choose rows m (get_elem? m.visible m.selected) v)
GoesOn-menu rows m escape v = tt
GoesOn-menu rows m key_up v = Valid-move rows (length m.visible - 1) m v
GoesOn-menu rows m key_down v = Valid-move rows 1 m v
GoesOn-menu rows m erase v = v
GoesOn-menu rows m other v = v
GoesOn-menu rows m (char c) v = GoesOn-char rows m c v

GoesOn-turn :
    (rows : List Bytes) (rows_dim : ℕ) (m : Menu) (key : Key)
    → Valid rows m
    → GoesOn rows (turn rows rows_dim m key)
unfolding turn
GoesOn-turn rows rows_dim m key v =
    GoesOn-if rows (redraw rows_dim m).input_mode _ _
      (λ _. GoesOn-edit rows (redraw rows_dim m) key (Valid-redraw rows rows_dim m v))
      (GoesOn-menu rows (redraw rows_dim m) key (Valid-redraw rows rows_dim m v))

-- In every menu that the loop reaches, the rows that are listed are those that pass the filter, the
-- filter fits in its buffer, and the selected row is one of those listed, or 0 where there is none.
pub reach-Valid : (rows : List Bytes) (m : Menu) → Reach rows m → Valid rows m
unfolding GoesOn
reach-Valid rows m start = Valid-init rows
reach-Valid rows m (step before _ rows_dim key r e) =
    subst (GoesOn rows) e (GoesOn-turn rows rows_dim before key (reach-Valid rows before r))
