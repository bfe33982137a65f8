-- ===== src/Program.antt =====
-- src/main.c: what the program does from its start to its end. What GTK's initialisation answers and
-- what the two files hold are parameters, and the run of the window is an event: it gets the stores.
pub mod Start
use Prim.Native.String.{String}
use ultramat.Base.{
  ℕ, Bool, true, false, List, [], ◌∷◌, Option, none, some, Outcome, returns, aborts, ◌>>=◌, Status,
  success, failure,
}
use ultramat.DynamicArray.{VlArray, vla_free}
use ultramat.DynamicArray.Append.{elements}
use ultramat.Drinks.{Ingredient, Recipe}
use ultramat.Drinks.Files.{read_ingredients, read_recipes, recipe_custom_free}
use ultramat.Stores.{IngredientRow, RecipeRow, create_ingredient_store, create_recipe_store}

-- `freed_ingredients` and `freed_recipes` are what the memory held that was given back.
pub data Event : Type 0 where
  printed : String → Event
  gui_thread : List IngredientRow → List RecipeRow → Event
  freed_ingredients : List Ingredient → Event
  freed_recipes : List Recipe → Event

module _ (grow : ℕ → ℕ) (res_dir : Option String) (build_filename : String → String → String)
    (loads : String → Bool) where
  -- The window until it is closed, and the end.
  abbrev pub run_window :
      VlArray Ingredient
      → VlArray Recipe
      → List IngredientRow
      → List RecipeRow
      → Status × List Event
  unfolding vla_free
  run_window ings recs rows recipe_rows = (
    success,
    gui_thread rows recipe_rows
        ∷ freed_ingredients (vla_free none ings).1
        ∷ freed_recipes (vla_free (some recipe_custom_free) recs).1
        ∷ [],
  )

  -- The stores, and what follows.
  run_gui : VlArray Ingredient → VlArray Recipe → Outcome (Status × List Event)
  run_gui ings recs =
      create_ingredient_store res_dir build_filename loads (elements ings) >>= λ rows.
      create_recipe_store (elements recs) >>= λ recipe_rows.
      returns (run_window ings recs rows recipe_rows)

  abbrev no_files : Outcome (Status × List Event)
  no_files = returns (failure, printed "Error reading recipes or ingredients\n" ∷ [])

  -- Once both files are read.
  with_files : Option (VlArray Ingredient) → Option (VlArray Recipe) → Outcome (Status × List Event)
  unfolding run_gui
  with_files none recs = no_files
  with_files (some ings) none = no_files
  with_files (some ings) (some recs) = run_gui ings recs

  after_recipes :
      Option (VlArray Ingredient)
      → Option (Outcome (Option (VlArray Recipe)))
      → Option (Outcome (Status × List Event))
  unfolding with_files
  after_recipes ings none = none
  after_recipes ings (some aborts) = some aborts
  after_recipes ings (some (returns recs)) = some (with_files ings recs)

  -- `main`: EXIT_FAILURE is `failure`; the outer `none` is a loop without fuel.
  unfoldable pub main :
      Bool → Option (List ℕ) → Option (List ℕ) → Option (Outcome (Status × List Event))
  unfolding after_recipes
  main false ing_file rec_file = some (returns (failure, printed "Error init check gtk\n" ∷ []))
  main true ing_file rec_file =
      after_recipes (read_ingredients grow ing_file) (read_recipes grow rec_file)
