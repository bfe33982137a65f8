-- ===== src/Program/Start.antt =====
-- src/main.c: the program offers just what the two files hold.
use Prim.Native.String.{String}
use ultramat.Base.{
  ℕ, ◌≤◌, ◌<◌, ◌≡◌, ◌⊎◌, inl, inr, ap, ◌∙◌, Bool, true, List, ◌∷◌, map, Option, some, Outcome,
  returns, aborts, ◌>>=◌, Status, success, length, length-map, subst,
}
use ultramat.DynamicArray.{VlArray, vla_free}
use ultramat.DynamicArray.Append.{Grows, elements}
use ultramat.Drinks.{Ingredient, Recipe}
use ultramat.Drinks.Files.{read_recipes}
use ultramat.Drinks.Files.Split.{concat, AllLines}
use ultramat.Drinks.Files.Read.{
  Entry, RecipeEntry, ingredient_line, ingredient_of, recipe_line, recipe_of,
  read_ingredients-lines, read_recipes-lines,
}
use ultramat.Stores.{IngredientRow, RecipeRow, add_ingredients, add_recipes}
use ultramat.Stores.Rows.{
  RowsOf, AllKnown, RowsOf-AllKnown, AllTerminated, names, add_ingredients_cases, row_of,
  add_recipes-rows,
}
use ultramat.Program.{Event, gui_thread, run_window, run_gui, after_recipes, main}

-- The program runs the window with a row for each of the ingredients and of the recipes, in their
-- order, whose ids the look-up of ingredients knows, and succeeds.
abbrev pub Offers : List Ingredient → List Recipe → Option (Outcome (Status × List Event)) → Type 0
Offers ings recs r =
    (rows : List IngredientRow) × (later : List Event) × (r
      ≡ some (returns (success, gui_thread rows (map row_of recs) ∷ later)))
    × RowsOf ings rows
    × AllKnown ings rows

-- The start with so many ingredients: the rows need an icon for each.
abbrev pub Starts :
    ℕ → List Ingredient → List Recipe → Option (Outcome (Status × List Event)) → Type 0
Starts n ings recs r = ((n ≤ 8) × Offers ings recs r) ⊎ ((8 < n) × (r ≡ some aborts))

module _ (grow : ℕ → ℕ) (res_dir : Option String) (build_filename : String → String → String)
    (loads : String → Bool) where
  -- What is built on the rows.
  abbrev built :
      VlArray Ingredient
      → VlArray Recipe
      → Outcome (List IngredientRow)
      → Outcome (List RecipeRow)
      → Option (Outcome (Status × List Event))
  built a b rows recipe_rows = some (
      rows >>= λ rows. recipe_rows >>= λ recipe_rows.
      returns (run_window grow res_dir build_filename loads a b rows recipe_rows))

  run_gui_cases :
      (a : VlArray Ingredient) (b : VlArray Recipe) (ings : List Ingredient) (recs : List Recipe)
      (r : Option (Outcome (Status × List Event)))
      → r ≡ some (run_gui grow res_dir build_filename loads a b)
      → elements a ≡ ings
      → elements b ≡ recs
      → AllTerminated (names ings)
      → AllTerminated (map (λ rec. rec.name) recs)
      → Starts (length ings) ings recs r
  unfolding run_gui vla_free
  run_gui_cases a b ings recs r start p q t t' =
      let made = add_ingredients res_dir build_filename loads 0 in
      let from : r ≡ built a b (made ings) (add_recipes recs) =
        start
        ∙ ap (λ is. built a b (made is) (add_recipes (elements b))) p
        ∙ ap (λ rs. built a b (made ings) (add_recipes rs)) q in
      elim (add_ingredients_cases res_dir build_filename loads ings t) [
        | inl (few, rows, e, of) ↦ inl (
          few,
          (
            rows,
            _,
            from
                ∙ ap (λ m. built a b m (add_recipes recs)) e
                ∙ ap (built a b (returns rows)) (add_recipes-rows recs t'),
            of,
            RowsOf-AllKnown ings rows of,
          ),
        )
        | inr (many, stopped) ↦ inr (many, from ∙ ap (λ m. built a b m (add_recipes recs)) stopped)
      ]

  -- GTK can be initialised, and the two files have well-formed lines of at most 255 characters, fewer
  -- than 2^31, and names of fewer than 128 characters. With at most eight ingredients, the program
  -- offers just the ingredients and the recipes of the files, each ingredient that it offers can be
  -- looked up by its id, and it succeeds. With more, it reads behind the end of ICON_PATHS.
  pub main-lines :
      (es : List Entry) (rs : List RecipeEntry)
      → Grows grow
      → AllLines 255 (map ingredient_line es)
      → length es < 2147483648
      → AllLines 255 (map recipe_line rs)
      → length rs < 2147483648
      → AllTerminated (names (map ingredient_of es))
      → AllTerminated (map (λ rec. rec.name) (map recipe_of rs))
      → Starts (length es) (map ingredient_of es) (map recipe_of rs) (
          main grow res_dir build_filename loads true
            (some (concat (map ingredient_line es)))
            (some (concat (map recipe_line rs))))
  unfolding main
  main-lines es rs g lines n lines' n' t t' =
      let (a, read_a, in_a) = read_ingredients-lines grow es g lines n in
      let (b, read_b, in_b) = read_recipes-lines grow rs g lines' n' in
      let start =
        ap
          (λ x.
            after_recipes grow res_dir build_filename loads x
              (read_recipes grow (some (concat (map recipe_line rs)))))
          read_a
        ∙ ap (after_recipes grow res_dir build_filename loads (some a)) read_b in
      subst
        (λ k. Starts k (map ingredient_of es) (map recipe_of rs) (
          main grow res_dir build_filename loads true (some (concat (map ingredient_line es)))
            (some (concat (map recipe_line rs)))))
        (length-map es ingredient_of)
        (run_gui_cases a b (map ingredient_of es) (map recipe_of rs) _ start in_a in_b t t')
