-- ===== src/Stores/Rows.antt =====
-- The rows of the list stores (src/drinklists.c): one for each ingredient, in order, as long as there
-- are icons; and what a combo box gives is always known.
use Prim.Native.String.{String}
use ultramat.Base.{
  ℕ, map, ltb, zero, suc, ◌+◌, Bool, ◌≤◌, ◌<◌, ◌≡◌, ◌⊎◌, inl, inr, refl, sym, ap, subst, List, [],
  ◌∷◌, Option, none, some, returns, aborts, arith, length, get_elem?, lt_or_le, Bool-cases, ◌==◌,
  ==_iff, true,
}
use ultramat.Drinks.{Ingredient, Recipe, get_ingredient_by_id}
use ultramat.Stores.{
  IngredientRow, RecipeRow, strdup_name, recipe_row, add_recipes, icon_paths, get_resource_path,
  load_icon, ingredient_row, add_ingredients,
}

icon_known : (i : ℕ) → i < 8 → (path : Option String) × (get_elem? icon_paths i ≡ some path)
icon_known zero h = (_, refl)
icon_known (suc zero) h = (_, refl)
icon_known (suc (suc zero)) h = (_, refl)
icon_known (suc (suc (suc zero))) h = (_, refl)
icon_known (suc (suc (suc (suc zero)))) h = (_, refl)
icon_known (suc (suc (suc (suc (suc zero))))) h = (_, refl)
icon_known (suc (suc (suc (suc (suc (suc zero)))))) h = (_, refl)
icon_known (suc (suc (suc (suc (suc (suc (suc zero))))))) h = (_, refl)
icon_known (suc (suc (suc (suc (suc (suc (suc (suc i)))))))) h = absurd (omega arith)

-- The rows are those of the ingredients, one for each, in order.
abbrev pub RowsOf : List Ingredient → List IngredientRow → Type 0
RowsOf [] [] = Unit
RowsOf [] (row ∷ rows) = ⊥
RowsOf (ing ∷ ings) [] = ⊥
RowsOf (ing ∷ ings) (row ∷ rows) = (row.name ≡ ing.name) × (row.id ≡ ing.id) × RowsOf ings rows

-- Each name ends within its 128 characters.
abbrev pub AllTerminated : List (List ℕ) → Type 0
AllTerminated [] = Unit
AllTerminated (name ∷ names) = (length name < 128) × AllTerminated names

abbrev pub names : List Ingredient → List (List ℕ)
names = map (λ ing. ing.name)

ltb-name : (name : List ℕ) → length name < 128 → ltb (length name) 128 ≡ true
ltb-name name h = ground arith

module _ (res_dir : Option String) (build_filename : String → String → String)
    (loads : String → Bool) where
  rows_from :
      (i : ℕ) (ings : List Ingredient)
      → i + length ings ≤ 8
      → AllTerminated (names ings)
      → (rows : List IngredientRow) × (add_ingredients res_dir build_filename loads i ings
          ≡ returns rows)
        × RowsOf ings rows
  unfolding add_ingredients strdup_name
  rows_from i [] h t = ([], refl, tt)
  rows_from i (ing ∷ ings) h t =
      let (path, known) = icon_known i (omega arith) in
      let (rows, r, of) = rows_from (i + 1) ings (omega arith) t.1 in
      (
        record {
          name = ing.name;
          id = ing.id;
          icon =
              load_icon res_dir build_filename loads
                (get_resource_path res_dir build_filename loads path);
        }
            ∷ rows,
        rw (known, ingredient_row, ltb-name ing.name t.0, r),
        (refl, refl, of),
      )

  no_rows_from :
      (i : ℕ) (ings : List Ingredient)
      → i ≤ 8
      → 8 < i + length ings
      → AllTerminated (names ings)
      → add_ingredients res_dir build_filename loads i ings ≡ aborts
  unfolding add_ingredients strdup_name
  no_rows_from i [] low high t = absurd (omega arith)
  no_rows_from i (ing ∷ ings) low high t = elim (lt_or_le i 8) [
    | inl there ↦
        let (path, known) = icon_known i there in
        rw (
          known,
          ingredient_row,
          ltb-name ing.name t.0,
          no_rows_from (i + 1) ings (omega arith) (omega arith) t.1,
        )
    | inr beyond ↦
        let last : i ≡ 8 = omega arith in
        let unknown : get_elem? icon_paths i ≡ none = ap (get_elem? icon_paths) last in
        rw (unknown, ingredient_row)
  ]

  -- All names end within their 128 characters. With at most eight ingredients, the store has a row for each, in their order, with its name and
  -- id. With more, an icon is read behind the end of ICON_PATHS.
  pub add_ingredients_cases :
      (ings : List Ingredient)
      → AllTerminated (names ings)
      → ((length ings ≤ 8)
          × (rows : List IngredientRow) × (add_ingredients res_dir build_filename loads 0 ings
              ≡ returns rows)
          × RowsOf ings rows)
        ⊎ ((8 < length ings) × (add_ingredients res_dir build_filename loads 0 ings ≡ aborts))
  add_ingredients_cases ings t = elim (lt_or_le 8 (length ings)) [
    | inl many ↦ inr (many, no_rows_from 0 ings (omega arith) (omega arith) t)
    | inr few ↦ let (rows, r, of) = rows_from 0 ings (omega arith) t in inl (few, rows, r, of)
  ]

abbrev pub row_of : Recipe → RecipeRow
row_of rec = record { name = rec.name; id = rec.id }

pub add_recipes-rows :
    (recs : List Recipe)
    → AllTerminated (map (λ rec. rec.name) recs)
    → add_recipes recs ≡ returns (map row_of recs)
unfolding add_recipes strdup_name
add_recipes-rows [] t = refl
add_recipes-rows (rec ∷ recs) t = rw (recipe_row, ltb-name rec.name t.0, add_recipes-rows recs t.1)

-- The look-up knows the id.
abbrev pub Known : List Ingredient → ℕ → Type 0
Known ings id = (ing : Ingredient) × (get_ingredient_by_id ings id ≡ some ing)

abbrev pub AllKnown : List Ingredient → List IngredientRow → Type 0
AllKnown ings [] = Unit
AllKnown ings (row ∷ rows) = Known ings row.id × AllKnown ings rows

Known-cons :
    (ings : List Ingredient) (x : Ingredient) (id : ℕ) → Known ings id → Known (x ∷ ings) id
unfolding get_ingredient_by_id
Known-cons ings x id (ing, e) = elim (Bool-cases (x.id == id)) [
  | inl hit ↦ (x, rw hit)
  | inr miss ↦ (ing, rw miss e)
]

AllKnown-cons :
    (ings : List Ingredient) (x : Ingredient) (rows : List IngredientRow)
    → AllKnown ings rows
    → AllKnown (x ∷ ings) rows
AllKnown-cons ings x [] k = tt
AllKnown-cons ings x (row ∷ rows) k = (Known-cons ings x row.id k.0, AllKnown-cons ings x rows k.1)

-- So an ingredient chosen in a combo box is never missing.
pub RowsOf-AllKnown :
    (ings : List Ingredient) (rows : List IngredientRow) → RowsOf ings rows → AllKnown ings rows
unfolding get_ingredient_by_id
RowsOf-AllKnown [] [] of = tt
RowsOf-AllKnown [] (row ∷ rows) of = absurd of
RowsOf-AllKnown (ing ∷ ings) [] of = absurd of
RowsOf-AllKnown (ing ∷ ings) (row ∷ rows) of =
    let hit : (ing.id == row.id) ≡ true = (==_iff ing.id row.id).1 (sym of.1) in
    ((ing, rw hit), AllKnown-cons ings ing rows (RowsOf-AllKnown ings rows of.2))

pub AllKnown-get_elem? :
    (ings : List Ingredient) (rows : List IngredientRow) (r : ℕ) {row : IngredientRow}
    → AllKnown ings rows
    → get_elem? rows r ≡ some row
    → Known ings row.id
AllKnown-get_elem? ings [] r k e = cc
AllKnown-get_elem? ings (first ∷ rows) zero {row} k e =
    let same : first ≡ row = cc in subst (λ (x : IngredientRow). Known ings x.id) same k.0
AllKnown-get_elem? ings (first ∷ rows) (suc r) k e = AllKnown-get_elem? ings rows r k.1 e
