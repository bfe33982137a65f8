-- ===== src/Drinks/Files.antt =====
-- `drinks_io_read_ingredients` and `drinks_io_read_recipes` of src/drinks.c: a file is the list of its
-- characters, none of which is null, or a failed `fopen`. Memory does not run out.
pub mod Split
pub mod Read
use ultramat.Base.{
  ℕ, zero, suc, List, [], ◌∷◌, Option, none, some, Outcome, returns, aborts, ◌==◌, length,
  if◌then◌else◌,
}
use ultramat.DynamicArray.{VlArray, vla_init, vla_append}
use ultramat.Drinks.{Ingredient, Recipe}
use ultramat.Drinks.Lines.{newline, ingredient_create, recipe_create}

-- BUFFER_SIZE, and what `fgets` can read into it before the final null.
abbrev pub buffer_size : ℕ
buffer_size = 256

abbrev pub line_max : ℕ
line_max = 255

-- At most so many characters, up to the first end of line, and what is left.
chunk : ℕ → List ℕ → List ℕ × List ℕ
chunk zero cs = ([], cs)
chunk (suc n) [] = ([], [])
chunk (suc n) (c ∷ cs) =
    let (line, rest) = chunk n cs in if c == newline then (c ∷ [], cs) else (c ∷ line, rest)

-- What the calls of `fgets` give, one after another, until the end of the file. Each takes a
-- character, so that the number of characters bounds the calls.
file_lines : ℕ → ℕ → List ℕ → List (List ℕ)
unfolding chunk
file_lines room zero cs = []
file_lines room (suc n) [] = []
file_lines room (suc n) (c ∷ cs) =
    let (line, rest) = chunk room (c ∷ cs) in line ∷ file_lines room n rest

unfoldable pub lines_of : List ℕ → List (List ℕ)
unfolding file_lines
lines_of cs = file_lines line_max (length cs) cs

-- `none` is a null pointer, or memory behind the end of what was allocated.
abbrev pub blank_ingredient : Ingredient
blank_ingredient = record { name = []; id = 0 }

abbrev pub blank_recipe : Recipe
blank_recipe = record { name = []; id = 0; ing_pairs = [] }

module _ (grow : ℕ → ℕ) where
  -- The loop of `drinks_io_read_ingredients`.
  append_ingredients : List (List ℕ) → VlArray Ingredient → VlArray Ingredient
  append_ingredients [] a = a
  append_ingredients (line ∷ lines) a =
      append_ingredients lines (vla_append blank_ingredient grow a (ingredient_create line))

  -- `none` is a null pointer.
  unfoldable pub read_ingredients : Option (List ℕ) → Option (VlArray Ingredient)
  unfolding append_ingredients
  read_ingredients none = none
  read_ingredients (some cs) =
      some (append_ingredients (lines_of cs) (vla_init blank_ingredient grow blank_ingredient))

  -- What the loop does with what `recipe_create` made of a line.
  recipe_read :
      Option (Outcome Recipe)
      → (Recipe → Option (Outcome (VlArray Recipe)))
      → Option (Outcome (VlArray Recipe))
  recipe_read none k = none
  recipe_read (some aborts) k = some aborts
  recipe_read (some (returns rec)) k = k rec

  -- The loop of `drinks_io_read_recipes`.
  append_recipes : List (List ℕ) → VlArray Recipe → Option (Outcome (VlArray Recipe))
  unfolding recipe_read
  append_recipes [] a = some (returns a)
  append_recipes (line ∷ lines) a =
      recipe_read (recipe_create line)
        (λ rec. append_recipes lines (vla_append blank_recipe grow a rec))

  array_read : Option (Outcome (VlArray Recipe)) → Option (Outcome (Option (VlArray Recipe)))
  array_read none = none
  array_read (some aborts) = some aborts
  array_read (some (returns a)) = some (returns (some a))

  -- The outer `none` is a loop of `recipe_create` without fuel, the inner one a null pointer.
  unfoldable pub read_recipes : Option (List ℕ) → Option (Outcome (Option (VlArray Recipe)))
  unfolding append_recipes array_read
  read_recipes none = some (returns none)
  read_recipes (some cs) =
      array_read (append_recipes (lines_of cs) (vla_init blank_recipe grow blank_recipe))

-- `drinks_io_recipe_custom_free`, on the memory that starts with a recipe. A null pointer is an empty
-- list of pairs.
abbrev pub recipe_custom_free : List Recipe → List Recipe
recipe_custom_free [] = []
recipe_custom_free (rec ∷ recs) = record rec { ing_pairs = [] } ∷ recs
