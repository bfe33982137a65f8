-- ===== src/Drinks/Files/Read.antt =====
-- A well-formed file of ingredients or of recipes is read as what it writes (src/drinks.c).
use ultramat.Base.{
  ℕ, ◌<◌, ◌≡◌, refl, ap, ◌∙◌, List, [], ◌∷◌, ◌++◌, map, some, returns, take, length, length-map,
  arith, u16,
}
use ultramat.DynamicArray.{VlArray, vla_init, vla_append}
use ultramat.DynamicArray.Append.{Grows, elements, append_all, elements-append_all-vla_init}
use ultramat.Drinks.{Ingredient, Recipe}
use ultramat.Drinks.Lines.{separator, newline}
use ultramat.Drinks.Lines.Recipes.{
  Without, Number, text, value, Written, read, pairs_text, recipe_create-line,
  ingredient_create-line,
}
use ultramat.Drinks.Files.{
  blank_ingredient, blank_recipe, append_ingredients, read_ingredients, recipe_read, append_recipes,
  array_read, read_recipes,
}
use ultramat.Drinks.Files.Split.{concat, AllLines, lines_of-lines}

-- A name with no ';' and an id, as a file writes them.
pub record Entry : Type 0 where
  pub first : ℕ
  pub more : List ℕ
  pub id : Number
  pub named : Without separator (first ∷ more)

-- "name;id;" and what follows.
abbrev pub entry_text : Entry → List ℕ → List ℕ
entry_text e behind = (e.first ∷ e.more) ++ (separator ∷ (text e.id ++ (separator ∷ behind)))

abbrev pub ingredient_line : Entry → List ℕ
ingredient_line e = entry_text e (newline ∷ [])

abbrev pub ingredient_of : Entry → Ingredient
ingredient_of e = record { name = take 128 (e.first ∷ e.more); id = u16 (value e.id) }

append_ingredients-lines :
    (grow : ℕ → ℕ) (es : List Entry) (a : VlArray Ingredient)
    → append_ingredients grow (map ingredient_line es) a
      ≡ append_all blank_ingredient grow a (map ingredient_of es)
unfolding append_ingredients append_all
append_ingredients-lines grow [] a = refl
append_ingredients-lines grow (e ∷ es) a =
    ap
      (λ i. append_ingredients grow (map ingredient_line es) (vla_append blank_ingredient grow a i))
      (ingredient_create-line e.first e.more e.id (newline ∷ []) e.named)
    ∙ append_ingredients-lines grow es (vla_append blank_ingredient grow a (ingredient_of e))

-- A file has a line "name;id;" for each of fewer than 2^31 ingredients, none of which has more than
-- 255 characters, and the array grows as it should. Then the call gives an array that holds just these
-- ingredients, in their order, with names cut to 128 characters and ids to 16 bits.
pub read_ingredients-lines :
    (grow : ℕ → ℕ) (es : List Entry)
    → Grows grow
    → AllLines 255 (map ingredient_line es)
    → length es < 2147483648
    → (a : VlArray Ingredient) × (read_ingredients grow (some (concat (map ingredient_line es)))
        ≡ some a)
      × (elements a ≡ map ingredient_of es)
unfolding read_ingredients
read_ingredients-lines grow es g lines n =
    let start = vla_init blank_ingredient grow blank_ingredient in
    (
      append_all blank_ingredient grow start (map ingredient_of es),
      ap (λ ls. some (append_ingredients grow ls start))
            (lines_of-lines (map ingredient_line es) lines)
          ∙ ap some (append_ingredients-lines grow es start),
      (elements-append_all-vla_init blank_ingredient grow blank_ingredient (map ingredient_of es) g
          (omega (arith, length-map es ingredient_of))).1,
    )

-- A recipe as a file writes it.
pub record RecipeEntry : Type 0 where
  pub entry : Entry
  pub pairs : List Written

abbrev pub recipe_line : RecipeEntry → List ℕ
recipe_line e = entry_text e.entry (pairs_text e.pairs)

abbrev pub recipe_of : RecipeEntry → Recipe
recipe_of e = record {
  name = take 128 (e.entry.first ∷ e.entry.more);
  id = u16 (value e.entry.id);
  ing_pairs = map read e.pairs;
}

append_recipes-lines :
    (grow : ℕ → ℕ) (es : List RecipeEntry) (a : VlArray Recipe)
    → append_recipes grow (map recipe_line es) a
      ≡ some (returns (append_all blank_recipe grow a (map recipe_of es)))
unfolding append_recipes recipe_read append_all
append_recipes-lines grow [] a = refl
append_recipes-lines grow (e ∷ es) a =
    ap
      (λ m.
        recipe_read grow m
          (λ rec. append_recipes grow (map recipe_line es) (vla_append blank_recipe grow a rec)))
      (recipe_create-line e.entry.first e.entry.more e.entry.id e.pairs e.entry.named)
    ∙ append_recipes-lines grow es (vla_append blank_recipe grow a (recipe_of e))

-- A file has a line "name;id;" with any pairs "id-count;" for each of fewer than 2^31 recipes, none of
-- which has more than 255 characters, and the array grows as it should. Then the call ends with an
-- array that holds just these recipes, in their order, cut to the widths of the C types.
pub read_recipes-lines :
    (grow : ℕ → ℕ) (es : List RecipeEntry)
    → Grows grow
    → AllLines 255 (map recipe_line es)
    → length es < 2147483648
    → (a : VlArray Recipe) × (read_recipes grow (some (concat (map recipe_line es)))
        ≡ some (returns (some a)))
      × (elements a ≡ map recipe_of es)
unfolding read_recipes array_read
read_recipes-lines grow es g lines n =
    let start = vla_init blank_recipe grow blank_recipe in
    (
      append_all blank_recipe grow start (map recipe_of es),
      ap (λ ls. array_read grow (append_recipes grow ls start))
            (lines_of-lines (map recipe_line es) lines)
          ∙ ap (array_read grow) (append_recipes-lines grow es start),
      (elements-append_all-vla_init blank_recipe grow blank_recipe (map recipe_of es) g
          (omega (arith, length-map es recipe_of))).1,
    )
