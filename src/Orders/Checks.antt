-- ===== src/Orders/Checks.antt =====
-- `cb_on_recipe_order_toggle` (src/callbacks_position.c): its checks are those that
-- `proto_comms_start_new_mixing` needs.
use ultramat.Base.{
  ℕ, suc, ◌+◌, ◌<◌, ◌≡◌, refl, ap, ◌∙◌, inl, inr, true, false, List, [], ◌∷◌, ◌++◌, some, arith,
  Bool-cases, Option-cases, length, subst,
}
use ultramat.Drinks.{Ingredient, Recipe, IdCountPair, get_ingredient_by_id}
use ultramat.Proto.{RecipeStep}
use ultramat.Positions.{Active, IngPos, exists_id, already_exists, get_position_by_id}
use ultramat.Positions.Lookup.{get_position_by_id-known}
use ultramat.MessageHandler.{System}
use ultramat.MessageHandler.Linked.{Linked, pending_ids}
use ultramat.Mixing.{start_new_mixing, step_of, final_step}
use ultramat.Mixing.Plan.{Plan, done, next, Queued, start_new_mixing_all}
use ultramat.Drinks.Lookup.{get_ingredient_by_id-id}
use ultramat.Orders.{Page, all_active, place_order, on_recipe_order_toggle, locked}

-- The ingredients of a recipe have ids of 8 bits.
abbrev pub Small : List IdCountPair → Type 0
Small [] = Unit
Small (pair ∷ pairs) = (pair.id < 256) × Small pairs

-- An active ingredient has a position.
position_known :
    (ings : List Ingredient) (active : Active) (id : ℕ)
    → id < 256
    → already_exists active (get_ingredient_by_id ings id) ≡ true
    → (p : IngPos) × (get_position_by_id active id ≡ some p)
unfolding already_exists
position_known ings active id h e = elim (Option-cases (get_ingredient_by_id ings id)) [
  | inl nothing ↦ absurd (cc (rw nothing at e))
  | inr (ing, found) ↦
      let there : exists_id active ing.id ≡ true = rw found at e in
      get_position_by_id-known active id h
        (subst (λ n. exists_id active n ≡ true) (get_ingredient_by_id-id ings id found) there)
]

pub all_active-Plan :
    (ings : List Ingredient) (active : Active) (pairs : List IdCountPair)
    → Small pairs
    → all_active ings active pairs ≡ true
    → (todo : List RecipeStep) × Plan active pairs todo × (length todo ≡ length pairs)
unfolding all_active
all_active-Plan ings active [] h e = ([], done, refl)
all_active-Plan ings active (pair ∷ pairs) h e =
    elim (Bool-cases (already_exists active (get_ingredient_by_id ings pair.id))) [
      | inl old ↦
          let (todo, plan, same) = all_active-Plan ings active pairs h.1 (rw old at e) in
          let (p, found) = position_known ings active pair.id h.0 old in
          (step_of p pair.count ∷ todo, next pair p found plan, ap suc same)
      | inr gone ↦ absurd (cc (rw gone at e))
    ]

pub order-locked :
    (ings : List Ingredient) (active : Active) (rec : Recipe) (p : Page) (s : System)
    → p.order_button.active ≡ true
    → p.order_button.sensitive ≡ true
    → p.active_recipe ≡ some rec
    → all_active ings active rec.ing_pairs ≡ true
    → on_recipe_order_toggle ings active true p s
      ≡ (locked p, (start_new_mixing active s (some rec)).1, [])
unfolding on_recipe_order_toggle place_order
order-locked ings active rec p s on can e all = rw (on, can, e, all)

-- The order button is toggled on while it can be used, a recipe is chosen, the serial thread runs,
-- every ingredient of the recipe is active and has an id of 8 bits, and the ring of pending ids has
-- room for the steps and the final one. Then each pair has a position, the order button and the box
-- of recipes can no longer be used, nothing else on the page changes and the user is told nothing, and
-- the steps of the recipe are queued in order, the final one last.
pub on_recipe_order_toggle_starts :
    (ings : List Ingredient) (active : Active) (rec : Recipe) (p : Page) (s : System)
    → p.order_button.active ≡ true
    → p.order_button.sensitive ≡ true
    → p.active_recipe ≡ some rec
    → all_active ings active rec.ing_pairs ≡ true
    → Small rec.ing_pairs
    → Linked s
    → length (pending_ids s) + length rec.ing_pairs < 31
    → (todo : List RecipeStep) × (s' : System) × Plan active rec.ing_pairs todo
      × (on_recipe_order_toggle ings active true p s ≡ (
        record p {
          order_button = record { active = true; sensitive = false };
          recipe_combo_sensitive = false;
        },
        s',
        [],
      ))
      × Queued s s' (todo ++ (final_step ∷ []))
on_recipe_order_toggle_starts ings active rec p s on can e all small l room =
    let (todo, plan, same) = all_active-Plan ings active rec.ing_pairs small all in
    let (s', r, q) = start_new_mixing_all active s rec todo plan l (omega (arith, same)) in
    (
      todo,
      s',
      plan,
      order-locked ings active rec p s on can e all ∙ λ i. (
        record p {
          order_button = record { active = on i; sensitive = false };
          recipe_combo_sensitive = false;
        },
        (r i).1,
        [],
      ),
      q,
    )
