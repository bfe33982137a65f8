-- ===== src/Mixing/Kept.antt =====
-- `proto_comms_start_new_mixing` of src/proto_serial.c leaves the system linked, however far it comes.
use ultramat.Base.{List, [], ◌∷◌, Option, none, some, Status, success, failure, ℕ}
use ultramat.Drinks.{IdCountPair, Recipe}
use ultramat.Positions.{Active, IngPos, get_position_by_id}
use ultramat.MessageHandler.{System, add_outgoing}
use ultramat.MessageHandler.Linked.{Linked}
use ultramat.MessageHandler.Linked.Outgoing.{add_outgoing-Linked}
use ultramat.Mixing.{
  step_of, step_message, final_step, queue_step, steps, and_then, start_new_mixing,
}

and_then-Linked :
    (m : Status × System) (k : System → Status × System)
    → Linked m.1
    → ((s : System) → Linked s → Linked (k s).1)
    → Linked (and_then m k).1
and_then-Linked (success, s) k l h = h s l
and_then-Linked (failure, s) k l h = l

queue_step-Linked :
    (p : Option IngPos) (count : ℕ) (s : System) → Linked s → Linked (queue_step p count s).1
unfolding queue_step
queue_step-Linked none count s l = l
queue_step-Linked (some p) count s l = add_outgoing-Linked (step_message (step_of p count)) l

steps-Linked :
    (active : Active) (pairs : List IdCountPair) (s : System)
    → Linked s
    → Linked (steps active pairs s).1
unfolding steps
steps-Linked active [] s l = l
steps-Linked active (pair ∷ pairs) s l =
    and_then-Linked (queue_step (get_position_by_id active pair.id) pair.count s)
      (steps active pairs) (queue_step-Linked (get_position_by_id active pair.id) pair.count s l)
      (λ s' l'. steps-Linked active pairs s' l')

pub start_new_mixing-Linked :
    (active : Active) (s : System) (rec : Recipe)
    → Linked s
    → Linked (start_new_mixing active s (some rec)).1
unfolding start_new_mixing
start_new_mixing-Linked active s rec l =
    and_then-Linked (steps active rec.ing_pairs s) (λ s'. add_outgoing s' (step_message final_step))
      (steps-Linked active rec.ing_pairs s l)
      (λ s' l'. add_outgoing-Linked (step_message final_step) l')
