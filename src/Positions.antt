-- ===== src/Positions.antt =====
-- The table of active ingredients of src/callbacks_position.c, with the positions of
-- inc/callbacks_position.h and the positions that page one of src/pages.c offers. A failed `assert`
-- aborts. What the callbacks do to widgets (texts, images, blocked signals) is in Selection.
pub mod Laws
pub mod Callbacks
pub mod Lookup
use ultramat.Base.{
  ℕ, ◌+◌, Bool, true, false, ◌||◌, not, List, [], ◌∷◌, Option, none, some, Outcome, returns, aborts,
  ◌>>=◌, ◌==◌, ltb, if◌then◌else◌, get_or, set, u8,
}
use ultramat.Base.Int.{ℤ, pos, negsuc, ◌+ℤ◌, ◌==ℤ◌}
use ultramat.Drinks.{Ingredient, get_ingredient_by_id}

-- PAGES_COMBO_POS_INVALID and PUMP_POS_INVALID
abbrev pub invalid : ℤ
invalid = negsuc 0

-- PAGES_COMBO_POS_ONE
abbrev pub combo_pos_one : ℤ
combo_pos_one = pos 0

-- PAGES_COMBO_POS_NUM
abbrev pub combo_pos_num : ℕ
combo_pos_num = 7

-- PUMP_POS_NUM
abbrev pub pump_pos_num : ℕ
pump_pos_num = 3

-- MAX_INGREDIENT_POSITIONS
abbrev pub max_positions : ℕ
max_positions = 9

-- `IngPos_t`. A cast may leave the named values of the two enums: their fields are integers.
pub record IngPos : Type 0 where
  pub x_pos : ℤ
  pub pump_pos : ℤ

-- `activeIngredients_`; `none` is a null pointer.
abbrev pub Active : Type 0
Active = List (Option Ingredient)

abbrev pub guard {ℓ} : {A : Type ℓ} → Bool → Outcome A → Outcome A
guard true m = m
guard false m = aborts

-- `cb_get_array_index`
unfoldable pub get_array_index : IngPos → Outcome ℤ
get_array_index p =
    guard (not (p.x_pos ==ℤ invalid) || not (p.pump_pos ==ℤ invalid))
      (returns (if p.x_pos ==ℤ combo_pos_one then p.x_pos +ℤ p.pump_pos else pos 2 +ℤ p.x_pos))

-- `cb_reset_ingredient`
unfoldable pub reset_ingredient : Active → ℤ → Outcome Active
reset_ingredient active (negsuc n) = aborts
reset_ingredient active (pos i) = guard (ltb i combo_pos_num) (returns (set active i none))

-- `cb_set_ing_pos`
unfoldable pub set_ing_pos : Active → Option Ingredient → ℤ → Outcome Active
set_ing_pos active ing (negsuc n) = aborts
set_ing_pos active none (pos i) = aborts
set_ing_pos active (some ing) (pos i) =
    guard (ltb i max_positions) (returns (set active i (some ing)))

-- `cb_get_ing_pos`
unfoldable pub get_ing_pos : Active → ℤ → Outcome (Option Ingredient)
get_ing_pos active (negsuc n) = aborts
get_ing_pos active (pos i) = guard (ltb i max_positions) (returns (get_or active i none))

abbrev pub has_id : Option Ingredient → ℕ → Bool
has_id none id = false
has_id (some ing) id = ing.id == id

-- The loop of `cb_ingredient_already_exists`.
unfoldable pub exists_id : Active → ℕ → Bool
exists_id [] id = false
exists_id (slot ∷ active) id = if has_id slot id then true else exists_id active id

-- `cb_ingredient_already_exists`
unfoldable pub already_exists : Active → Option Ingredient → Bool
unfolding exists_id
already_exists active none = false
already_exists active (some ing) = exists_id active ing.id

-- What the user sees: the new ingredient, or an emptied combo box and the text
-- ALREADY_SELECTED_ERROR.
pub data Shown : Type 0 where
  selected already_selected : Shown

-- Either the ingredient is set, or the combo box is reset, which empties the position.
place : Active → Option Ingredient → ℤ → Outcome (Active × Shown)
unfolding already_exists reset_ingredient set_ing_pos
place active ing i =
    if already_exists active ing
    then (reset_ingredient active i >>= λ a. returns (a, already_selected))
    else (set_ing_pos active ing i >>= λ a. returns (a, selected))

-- The branches of `cb_on_combo_position_changed`, for an empty position and for a taken one. Both do
-- the same.
branch : Option Ingredient → Active → Option Ingredient → ℤ → Outcome (Active × Shown)
unfolding place
branch none active ing i = place active ing i
branch (some old) active ing i = place active ing i

-- `cb_on_combo_position_changed`, once the ingredient and the index are known.
changed : Active → Option Ingredient → ℤ → Outcome (Active × Shown)
unfolding get_ing_pos branch
changed active ing i = get_ing_pos active i >>= λ old. branch old active ing i

-- `cb_on_combo_position_changed`, with the id that the combo box gives.
unfoldable pub on_combo_position_changed :
    List Ingredient → Active → IngPos → ℕ → Outcome (Active × Shown)
unfolding get_array_index changed
on_combo_position_changed ings active p id =
    get_array_index p >>= λ i. changed active (get_ingredient_by_id ings id) i

-- `cb_on_reset_btn_clicked`
unfoldable pub on_reset_btn_clicked : Active → IngPos → Outcome Active
unfolding get_array_index reset_ingredient
on_reset_btn_clicked active p = get_array_index p >>= λ i. reset_ingredient active i

-- The loop of `cb_get_position_by_id`: the first position, from `i` on, of an ingredient.
unfoldable pub find_position : Active → ℕ → ℕ → Option ℕ
find_position [] id i = none
find_position (slot ∷ active) id i =
    if has_id slot id then some i else find_position active id (i + 1)

position_of : ℕ → IngPos
position_of i =
    if ltb i pump_pos_num
    then record { x_pos = combo_pos_one; pump_pos = pos i }
    else record { x_pos = pos i; pump_pos = invalid }

-- `cb_get_position_by_id`, whose argument has 8 bits; `none` is the return value FALSE.
unfoldable pub get_position_by_id : Active → ℕ → Option IngPos
unfolding find_position position_of
get_position_by_id active id = elim (find_position active (u8 id) 0) [
  | none ↦ none
  | some i ↦ some (position_of i)
]

-- `selectPositions` of `populateStackPage_One` in src/pages.c: position `i` of the page.
unfoldable pub select_positions : List IngPos
select_positions =
    record { x_pos = pos 0; pump_pos = pos 0 }
    ∷ record { x_pos = pos 0; pump_pos = pos 1 }
    ∷ record { x_pos = pos 0; pump_pos = pos 2 }
    ∷ record { x_pos = pos 1; pump_pos = invalid }
    ∷ record { x_pos = pos 2; pump_pos = invalid }
    ∷ record { x_pos = pos 3; pump_pos = invalid }
    ∷ record { x_pos = pos 4; pump_pos = invalid }
    ∷ record { x_pos = pos 5; pump_pos = invalid }
    ∷ record { x_pos = pos 6; pump_pos = invalid }
    ∷ []
