-- ===== src/Selection/Drawing.antt =====
-- Page one of src/callbacks_position.c, drawn from the table of active ingredients.
use ultramat.Base.{
  ℕ, zero, suc, ◌+◌, ◌<◌, ◌≡◌, refl, ap, subst, ◌∙◌, true, false, List, [], ◌∷◌, map, Option, none,
  some, ◌==◌, ==_iff, if◌then◌else◌, get_elem?, set, modify, arith,
}
use ultramat.Drinks.{Ingredient}
use ultramat.Stores.{IngredientRow}
use ultramat.Positions.Laws.{IsValid}
use ultramat.Selection.{PageOne, Box, name_text, icon_image, new_box}

-- The box of an ingredient, drawn from nothing: the row of the store with its id, as chosen, with its
-- name and icon.
abbrev pub box_of : ℕ → IngredientRow → Box
box_of r row = record { row = some r; text = name_text row.name; image = icon_image row.icon }

abbrev pub draw_from : ℕ → List IngredientRow → ℕ → Box
draw_from r [] id = new_box
draw_from r (row ∷ rows) id = if row.id == id then box_of r row else draw_from (suc r) rows id

abbrev pub draw : List IngredientRow → Option Ingredient → Box
draw rows none = new_box
draw rows (some ing) = draw_from 0 rows ing.id

-- Ids of 16 bits, no two the same.
abbrev pub OtherIds : ℕ → List IngredientRow → Type 0
OtherIds id [] = Unit
OtherIds id (row ∷ rows) = ((row.id == id) ≡ false) × OtherIds id rows

abbrev pub ProperIds : List IngredientRow → Type 0
ProperIds [] = Unit
ProperIds (row ∷ rows) = (row.id < 65536) × OtherIds row.id rows × ProperIds rows

OtherIds-get_elem? :
    (id : ℕ) (rows : List IngredientRow) (r : ℕ) {row : IngredientRow}
    → OtherIds id rows
    → get_elem? rows r ≡ some row
    → (row.id == id) ≡ false
OtherIds-get_elem? id [] r o e = cc
OtherIds-get_elem? id (first ∷ rows) zero o e = cc
OtherIds-get_elem? id (first ∷ rows) (suc r) o e = OtherIds-get_elem? id rows r o.1 e

pub draw_from-get_elem? :
    (n : ℕ) (rows : List IngredientRow) (r : ℕ) {row : IngredientRow}
    → ProperIds rows
    → get_elem? rows r ≡ some row
    → draw_from n rows row.id ≡ box_of (n + r) row
draw_from-get_elem? n [] r ids e = cc
draw_from-get_elem? n (first ∷ rows) zero {row} ids e =
    let same : first ≡ row = cc in
    let hit : (first.id == row.id) ≡ true =
      (==_iff first.id row.id).1 (ap (λ (x : IngredientRow). x.id) same) in
    rw hit (ap (box_of n) same ∙ ap (λ k. box_of k row) (omega arith))
draw_from-get_elem? n (first ∷ rows) (suc r) {row} ids e =
    let other = OtherIds-get_elem? first.id rows r ids.1 e in
    let miss : (first.id == row.id) ≡ false = ground (arith, other) in
    rw miss (draw_from-get_elem? (suc n) rows r ids.2 e ∙ ap (λ k. box_of k row) (omega arith))

pub ProperIds-get_elem? :
    (rows : List IngredientRow) (r : ℕ) {row : IngredientRow}
    → ProperIds rows
    → get_elem? rows r ≡ some row
    → row.id < 65536
ProperIds-get_elem? [] r ids e = cc
ProperIds-get_elem? (first ∷ rows) zero {row} ids e =
    let same : first ≡ row = cc in subst (λ (x : IngredientRow). x.id < 65536) same ids.0
ProperIds-get_elem? (first ∷ rows) (suc r) ids e = ProperIds-get_elem? rows r ids.2 e

pub modify-map {ℓ} :
    {A B : Type ℓ} (f : A → B) (g : B → B) (xs : List A) (i : ℕ) (x : A)
    → ((b : B) → g b ≡ f x)
    → modify g (map f xs) i ≡ map f (set xs i x)
modify-map f g [] i x e = refl
modify-map f g (y ∷ xs) zero x e = ap (λ b. b ∷ map f xs) (e (f y))
modify-map f g (y ∷ xs) (suc i) x e = ap (λ bs. f y ∷ bs) (modify-map f g xs i x e)

-- What is drawn is what the table holds.
pub record Drawn (rows : List IngredientRow) (p : PageOne) : Type 0 where
  pub drawn : p.boxes ≡ map (draw rows) p.active
  pub table : IsValid p.active
