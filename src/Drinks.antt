-- ===== src/Drinks.antt =====
-- inc/drinks.h, and the look-ups of src/drinks.c. The elements in use of an array are a list, and a
-- pointer into it is an Option.
pub mod Lookup
pub mod Lines
pub mod Files
use ultramat.Base.{ℕ, List, [], ◌∷◌, Option, none, some, ◌==◌, if◌then◌else◌}

pub record Ingredient : Type 0 where
  pub name : List ℕ  -- char[128]
  pub id : ℕ  -- uint16_t

pub record IdCountPair : Type 0 where
  pub id : ℕ  -- uint16_t
  pub count : ℕ  -- uint8_t

-- `ingCount` is the length of `ing_pairs`.
pub record Recipe : Type 0 where
  pub name : List ℕ
  pub id : ℕ
  pub ing_pairs : List IdCountPair

-- `drinks_io_get_ingredient_by_id`, over `ingArray`
unfoldable pub get_ingredient_by_id : List Ingredient → ℕ → Option Ingredient
get_ingredient_by_id [] id = none
get_ingredient_by_id (ing ∷ ings) id =
    if ing.id == id then some ing else get_ingredient_by_id ings id

-- `drinks_io_get_recipe_by_id`, over `recArray`
unfoldable pub get_recipe_by_id : List Recipe → ℕ → Option Recipe
get_recipe_by_id [] id = none
get_recipe_by_id (rec ∷ recs) id = if rec.id == id then some rec else get_recipe_by_id recs id
