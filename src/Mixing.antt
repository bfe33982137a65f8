-- ===== src/Mixing.antt =====
-- `proto_comms_start_new_mixing` of src/proto_serial.c: the messages of a recipe.
pub mod Kept
pub mod Plan
pub mod Target
pub mod Whole
use ultramat.Base.{
  ℕ, ◌+◌, ◌-◌, ◌&&◌, not, List, [], ◌∷◌, Option, none, some, Status, success, failure, u8, u32,
  if◌then◌else◌,
}
use ultramat.Base.Int.{ℤ, pos, negsuc, ◌==ℤ◌, pos_part}
use ultramat.Drinks.{Recipe, IdCountPair}
use ultramat.Proto.{Message, RecipeStep, PositionX, recipe_step, step, message_init_zero}
use ultramat.Proto.Position
use ultramat.Positions.{Active, IngPos, combo_pos_one, invalid, get_position_by_id}
use ultramat.MessageHandler.{System, add_outgoing}

-- The cast `(PositionX)(ingPos.xPos + 1)`, to an unsigned type.
abbrev pub next_position_x : ℤ → PositionX
next_position_x (pos n) = u32 (n + 1)
next_position_x (negsuc n) = u32 (4294967296 - n)

-- At the pumps 5 seconds, else the count of the pair.
unfoldable pub step_of : IngPos → ℕ → RecipeStep
step_of p count =
    if p.x_pos ==ℤ combo_pos_one && not (p.pump_pos ==ℤ invalid)
    then record {
      x_pos = Position.one;
      y_count = none;
      pump = some (record { pump_pos = u8 (pos_part p.pump_pos); seconds = 5 });
    }
    else record { x_pos = next_position_x p.x_pos; y_count = some count; pump = none }

abbrev pub step_message : RecipeStep → Message
step_message st = record message_init_zero { type = recipe_step; payload = step st }

-- The message that ends a recipe.
abbrev pub final_step : RecipeStep
final_step = record { x_pos = Position.final; y_count = some 0; pump = none }

-- The round of the loop for one pair, on what the look-up gives.
queue_step : Option IngPos → ℕ → System → Status × System
unfolding step_of
queue_step none count s = (failure, s)
queue_step (some p) count s = add_outgoing s (step_message (step_of p count))

-- What follows a call that has not failed.
abbrev pub and_then : Status × System → (System → Status × System) → Status × System
and_then (failure, s) k = (failure, s)
and_then (success, s) k = k s

-- The loop, which returns at the first failure.
unfoldable pub steps : Active → List IdCountPair → System → Status × System
unfolding queue_step
steps active [] s = (success, s)
steps active (pair ∷ pairs) s =
    and_then (queue_step (get_position_by_id active pair.id) pair.count s)
      (λ s'. steps active pairs s')

-- `none` is a null pointer.
unfoldable pub start_new_mixing : Active → System → Option Recipe → Status × System
unfolding steps
start_new_mixing active s none = (failure, s)
start_new_mixing active s (some rec) =
    and_then (steps active rec.ing_pairs s) (λ s'. add_outgoing s' (step_message final_step))
