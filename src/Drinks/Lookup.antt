-- ===== src/Drinks/Lookup.antt =====
-- The look-ups of src/drinks.c.
use ultramat.Base.{ℕ, ◌≡◌, List, [], ◌∷◌, some, ◌==◌, ==_iff, subst, inl, inr, Bool-cases}
use ultramat.Drinks.{Ingredient, get_ingredient_by_id}

pub get_ingredient_by_id-id :
    (ings : List Ingredient) (id : ℕ) {ing : Ingredient}
    → get_ingredient_by_id ings id ≡ some ing
    → ing.id ≡ id
unfolding get_ingredient_by_id
get_ingredient_by_id-id [] id e = cc
get_ingredient_by_id-id (x ∷ ings) id {ing} e = elim (Bool-cases (x.id == id)) [
  | inl hit ↦
      let same : x ≡ ing = cc (rw hit at e) in
      subst (λ (y : Ingredient). y.id ≡ id) same ((==_iff x.id id).0 hit)
  | inr miss ↦ get_ingredient_by_id-id ings id (rw miss at e)
]
