-- ===== src/Stores.antt =====
-- src/drinklists.c: the list stores from which the combo boxes offer ingredients and recipes, as lists
-- of rows. GTK's stores are left out, and an icon is where it comes from.
pub mod Rows
use Prim.Native.String.{String}
use ultramat.Base.{
  ℕ, ◌+◌, Bool, List, [], ◌∷◌, length, ltb, Option, none, some, Outcome, returns, aborts, ◌>>=◌,
  get_elem?, if◌then◌else◌,
}
use ultramat.Drinks.{Ingredient, Recipe}

-- ICON_PATHS
abbrev pub icon_paths : List (Option String)
icon_paths =
    some "img/cmp_osaft.png"
    ∷ some "img/cmp_asaft.png"
    ∷ none
    ∷ some "img/cmp_rum.png"
    ∷ some "img/cmp_gin.png"
    ∷ some "img/cmp_vodka.png"
    ∷ some "img/cmp_tonic.png"
    ∷ some "img/cmp_soda.png"
    ∷ []

-- `image_missing` is the theme's icon of that name.
pub data Icon : Type 0 where
  image_missing : Icon
  from_file : String → Icon

-- The columns of the two stores.
pub record IngredientRow : Type 0 where
  pub name : List ℕ
  pub id : ℕ
  pub icon : Icon

pub record RecipeRow : Type 0 where
  pub name : List ℕ
  pub id : ℕ

-- `g_strdup` of a name: it has to end with a null within its 128 characters.
unfoldable pub strdup_name : List ℕ → Outcome (List ℕ)
strdup_name name = if ltb (length name) 128 then returns name else aborts

-- `drinks_io_get_resource_path`, over ULTRAMAT_RES_DIR and GLib's `g_build_filename`.
module _ (res_dir : Option String) (build_filename : String → String → String)
    (loads : String → Bool) where
  unfoldable pub get_resource_path : Option String → Option String
  get_resource_path none = none
  get_resource_path (some filename) = elim res_dir [
    | none ↦ some (build_filename "res" filename)
    | some dir ↦ some (build_filename dir filename)
  ]

  -- `load_icon`, where `loads` says which files GdkPixbuf can load.
  load_icon : Option String → Icon
  load_icon none = image_missing
  load_icon (some filename) = if loads filename then from_file filename else image_missing

  -- A row for the ingredient at index `i`; an index behind the end of ICON_PATHS is undefined.
  ingredient_row : Option (Option String) → Ingredient → Outcome IngredientRow
  unfolding get_resource_path load_icon strdup_name
  ingredient_row none ing = aborts
  ingredient_row (some path) ing = strdup_name ing.name >>= λ name.
      returns (record { name = name; id = ing.id; icon = load_icon (get_resource_path path) })

  -- The loop of `lists_add_ingredients`.
  unfoldable pub add_ingredients : ℕ → List Ingredient → Outcome (List IngredientRow)
  unfolding ingredient_row
  add_ingredients i [] = returns []
  add_ingredients i (ing ∷ ings) = ingredient_row (get_elem? icon_paths i) ing >>= λ row.
      add_ingredients (i + 1) ings >>= λ rows. returns (row ∷ rows)

recipe_row : Recipe → Outcome RecipeRow
unfolding strdup_name
recipe_row rec = strdup_name rec.name >>= λ name. returns (record { name = name; id = rec.id })

-- The loop of `lists_add_recipes`.
unfoldable pub add_recipes : List Recipe → Outcome (List RecipeRow)
unfolding recipe_row
add_recipes [] = returns []
add_recipes (rec ∷ recs) =
    recipe_row rec >>= λ row. add_recipes recs >>= λ rows. returns (row ∷ rows)

-- `lists_create_ingredient_store` and `lists_create_recipe_store`
abbrev pub create_ingredient_store :
    Option String
    → (String → String → String)
    → (String → Bool)
    → List Ingredient
    → Outcome (List IngredientRow)
create_ingredient_store res_dir build_filename loads ings =
    add_ingredients res_dir build_filename loads 0 ings

abbrev pub create_recipe_store : List Recipe → Outcome (List RecipeRow)
create_recipe_store recs = add_recipes recs
