-- ===== src/Selection.antt =====
-- Page one with its widgets: the callbacks of the combo boxes and reset buttons of
-- src/callbacks_position.c once more, now with the texts, the images and the blocked signals that
-- Positions leaves out. GTK is left out: a box is the row that is chosen, the text of its entry and the
-- image above it.
pub mod Drawing
pub mod Boxes
pub mod Drawn
use ultramat.Base.{
  ℕ, Bool, false, not, List, [], ◌∷◌, replicate, Option, none, some, Outcome, returns, aborts,
  ◌>>=◌, ◌==◌, ltb, if◌then◌else◌, length, get_elem?, get_or, modify, u16,
}
use ultramat.Base.Int.{ℤ, pos, negsuc}
use ultramat.Drinks.{Ingredient, get_ingredient_by_id}
use ultramat.Stores.{Icon, IngredientRow}
use ultramat.Positions.{
  Active, IngPos, Shown, selected, already_selected, guard, max_positions, get_array_index,
  reset_ingredient, set_ing_pos, get_ing_pos, already_exists, select_positions,
}

-- The text of the entry: RESET_TEXT or the name in the row.
pub data Text : Type 0 where
  reset_text : Text
  name_text : List ℕ → Text

-- `image_loading` is the theme's icon of that name.
pub data Image : Type 0 where
  image_loading : Image
  icon_image : Icon → Image

-- The combo box of a position, with the active row of its list, and the image of the position.
pub record Box : Type 0 where
  pub row : Option ℕ
  pub text : Text
  pub image : Image

pub record PageOne : Type 0 where
  pub active : Active
  pub boxes : List Box

-- A box as `add_ing_selection` of src/pages.c makes it, with the image of
-- `cb_set_combo_position_image`.
abbrev pub new_box : Box
new_box = record { row = none; text = reset_text; image = image_loading }

abbrev pub first_page : PageOne
first_page = record {
  active = replicate max_positions none;
  boxes = replicate max_positions new_box;
}

-- A write to a widget of the arrays `comboBoxs_` and `images_`; an index out of bounds is undefined.
unfoldable pub write_box : (Box → Box) → ℤ → PageOne → Outcome PageOne
write_box f (negsuc n) p = aborts
write_box f (pos i) p =
    guard (ltb i (length p.boxes)) (returns (record p { boxes = modify f p.boxes i }))

-- `cb_clear_pos_img`
clear_pos_img : ℤ → PageOne → Outcome PageOne
unfolding write_box
clear_pos_img i p = write_box (λ b. record b { image = image_loading }) i p

-- `cb_reset_combo_box`, for the box with index `k`. Its signal is blocked, so that no callback runs.
reset_combo_box : ℤ → ℤ → PageOne → Outcome PageOne
unfolding write_box clear_pos_img reset_ingredient
reset_combo_box k i p = write_box (λ b. record b { row = none; text = reset_text }) k p >>= λ q.
    clear_pos_img i q >>= λ r.
    reset_ingredient r.active i >>= λ a. returns (record r { active = a })

-- `cb_set_pos_img`
unfoldable pub set_pos_img : Option Icon → ℤ → PageOne → Outcome PageOne
unfolding write_box
set_pos_img none i p = returns p
set_pos_img (some icon) i p = write_box (λ b. record b { image = icon_image icon }) i p

-- The two ends of `cb_on_combo_position_changed`.
unfoldable pub set_both : Option Ingredient → Option Icon → ℤ → PageOne → Outcome (PageOne × Shown)
unfolding set_ing_pos set_pos_img
set_both ing icon i p = set_ing_pos p.active ing i >>= λ a.
    set_pos_img icon i (record p { active = a }) >>= λ q. returns (q, selected)

reject : ℤ → ℤ → PageOne → Outcome (PageOne × Shown)
unfolding reset_combo_box
reject k i p = reset_combo_box k i p >>= λ q. returns (q, already_selected)

-- What `gtk_combo_box_get_active_iter` and `gtk_tree_model_get` read; without an active row what they
-- give is undefined.
abbrev pub row_read : List IngredientRow → Option Box → Option IngredientRow
row_read rows none = none
row_read rows (some b) = elim b.row [ none ↦ none | some r ↦ get_elem? rows r ]

-- The position is empty or taken.
unfoldable pub place_in :
    Option Ingredient
    → Option Ingredient
    → Option Icon
    → ℤ
    → ℤ
    → PageOne
    → Outcome (PageOne × Shown)
unfolding set_both reject already_exists
place_in none ing icon k i p =
    if not (already_exists p.active ing) then set_both ing icon i p else reject k i p
place_in (some old) ing icon k i p =
    if already_exists p.active ing then reject k i p else set_both ing icon i p

module _ (ings : List Ingredient) (rows : List IngredientRow) where
  unfoldable pub row_changed :
      Option IngredientRow → ℤ → IngPos → PageOne → Outcome (PageOne × Shown)
  unfolding get_array_index get_ing_pos place_in
  row_changed none k ing_pos p = aborts
  row_changed (some row) k ing_pos p = get_array_index ing_pos >>= λ i.
      get_ing_pos p.active i >>= λ old.
      place_in old (get_ingredient_by_id ings (u16 row.id)) (some row.icon) k i p

  -- `cb_on_combo_position_changed`, of the combo box with index `k` and the position it was given.
  unfoldable pub combo_position_changed : ℕ → IngPos → PageOne → Outcome (PageOne × Shown)
  unfolding row_changed
  combo_position_changed k ing_pos p =
      row_changed (row_read rows (get_elem? p.boxes k)) (pos k) ing_pos p

-- `cb_on_reset_btn_clicked`
unfoldable pub reset_btn_clicked : IngPos → PageOne → Outcome PageOne
unfolding get_array_index reset_combo_box
reset_btn_clicked ing_pos p = get_array_index ing_pos >>= λ i. reset_combo_box i i p

-- No widget has this position.
abbrev pub no_position : IngPos
no_position = record { x_pos = negsuc 0; pump_pos = negsuc 0 }

-- What the user does: to choose a row of the box with an index, or to click on a reset button.
pub data Event : Type 0 where
  choose : ℕ → ℕ → Event
  reset : ℕ → Event

abbrev pub index_of : Event → ℕ
index_of (choose i r) = i
index_of (reset i) = i

abbrev pub same_row : Option ℕ → ℕ → Bool
same_row none r = false
same_row (some old) r = old == r

module _ (ings : List Ingredient) (rows : List IngredientRow) where
  -- GTK shows the name in the row, and emits the signal "changed" if the row was not active before.
  unfoldable pub choose_row : Option Box → Option IngredientRow → ℕ → ℕ → PageOne → Outcome PageOne
  choose_row none row i r p = returns p
  choose_row (some b) none i r p = returns p
  choose_row (some b) (some row) i r p =
      if same_row b.row r
      then returns p
      else (combo_position_changed ings rows i (get_or select_positions i no_position) (record p {
        boxes = modify (λ b. record b { row = some r; text = name_text row.name }) p.boxes i;
      })
          >>= λ (q, shown). returns q)

  unfoldable pub handle : Event → PageOne → Outcome PageOne
  unfolding choose_row
  handle (choose i r) p = choose_row (get_elem? p.boxes i) (get_elem? rows r) i r p
  handle (reset i) p = reset_btn_clicked (get_or select_positions i no_position) p

  pub handle_all : List Event → PageOne → Outcome PageOne
  unfolding handle
  handle_all [] p = returns p
  handle_all (e ∷ es) p = handle e p >>= λ q. handle_all es q
