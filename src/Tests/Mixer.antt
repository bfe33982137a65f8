-- ===== src/Tests/Mixer.antt =====
-- The messages of a recipe (src/proto_serial.c) for a concrete table and recipe.
use ultramat.Base.{ℕ, ◌≡◌, ◌<◌, ◌≤◌, ◌⊎◌, refl, [], ◌∷◌, some, none, failure, arith, set, replicate}
use ultramat.Base.Int.{pos}
use ultramat.Drinks.{Ingredient, Recipe, IdCountPair}
use ultramat.Positions.{Active, IngPos, invalid, exists_id, get_position_by_id}
use ultramat.Positions.Laws.{IsValid, select}
use ultramat.Mixing.{start_new_mixing, step_of}
use ultramat.Mixing.Plan.{done, next, Queued, start_new_mixing_missing}
use ultramat.Mixing.Target.{move_step, pump_step, step_of_position}
use ultramat.MessageHandler.{System, init}
use ultramat.MessageHandler.Linked.{init-Linked}
use ultramat.Ring
use ultramat.Ring.Refine.{contents}
use ultramat.Tests.Worker.{off}

abbrev pub juice : Ingredient
juice = record { name = []; id = 1 }

abbrev pub vodka : Ingredient
vodka = record { name = []; id = 6 }

-- Vodka at the first pump, juice at the first position behind the pumps.
abbrev pub bar : Active
bar = set (set (replicate 9 none) 0 (some vodka)) 3 (some juice)

bar-IsValid : IsValid bar
unfolding exists_id
bar-IsValid = record { size = refl; distinct = (refl, (refl, tt)) }

abbrev pair : ℕ → ℕ → IdCountPair
pair id count = record { id = id; count = count }

abbrev pub vodka_o : Recipe
vodka_o = record { name = []; id = 1; ing_pairs = pair 1 4 ∷ pair 6 2 ∷ [] }

abbrev vodka_a : Recipe
vodka_a = record { name = []; id = 2; ing_pairs = pair 6 2 ∷ pair 2 4 ∷ [] }

abbrev behind_pumps : IngPos
behind_pumps = record { x_pos = pos 3; pump_pos = invalid }

abbrev first_pump : IngPos
first_pump = record { x_pos = pos 0; pump_pos = pos 0 }

start_new_mixing_missing_example :
    (s' : System) × (start_new_mixing bar (init off) (some vodka_a) ≡ (failure, s'))
    × Queued (init off) s' (step_of first_pump 2 ∷ [])
unfolding get_position_by_id init contents Ring.init
start_new_mixing_missing_example =
    start_new_mixing_missing bar (init off) vodka_a (pair 6 2 ∷ []) (pair 2 4) []
      (step_of first_pump 2 ∷ []) refl (next (pair 6 2) first_pump refl done) refl (init-Linked off)
      (omega arith)

-- Juice stands at x position TWO, which is 2, and the step goes to 4.
step_of_position_example :
    ((3 < 3) × (step_of behind_pumps 4 ≡ pump_step 3))
    ⊎ ((3 ≤ 3) × (step_of behind_pumps 4 ≡ move_step 4 4) × (step_of (select 3) 4 ≡ move_step 2 4))
unfolding get_position_by_id
step_of_position_example =
    step_of_position bar 3 4 juice behind_pumps bar-IsValid (omega arith) (omega arith) refl refl
