-- ===== src/Mixing/Whole.antt =====
-- `proto_comms_start_new_mixing` of src/proto_serial.c as one batch of messages, for pairs whose
-- ingredients have a position.
use ultramat.Base.{
  ◌≡◌, refl, sym, ap, ◌∙◌, List, [], ◌∷◌, ◌++◌, map, some, Status, success, failure,
}
use ultramat.Drinks.{Recipe, IdCountPair}
use ultramat.Proto.{Message, RecipeStep}
use ultramat.Positions.{Active, IngPos, get_position_by_id}
use ultramat.MessageHandler.{System, add_outgoing}
use ultramat.MessageHandler.Abstract.Batch.{add_batch}
use ultramat.Mixing.{
  step_of, step_message, final_step, queue_step, steps, and_then, start_new_mixing,
}

-- The steps for pairs whose ingredients all have a position.
pub data Plan (active : Active) : List IdCountPair → List RecipeStep → Type 0 where
  done : Plan active [] []
  next :
      {pairs : List IdCountPair} {todo : List RecipeStep} (pair : IdCountPair) (p : IngPos)
      → get_position_by_id active pair.id ≡ some p
      → Plan active pairs todo
      → Plan active (pair ∷ pairs) (step_of p pair.count ∷ todo)

-- The messages of a recipe, the one that ends it last.
abbrev pub messages : List RecipeStep → List Message
messages todo = map step_message (todo ++ (final_step ∷ []))

pub and_then-success : (m : Status × System) → m ≡ and_then m (λ s. (success, s))
and_then-success (success, s) = refl
and_then-success (failure, s) = refl

and_then-and_then :
    (m : Status × System) (j k l : System → Status × System)
    → ((s : System) → and_then (j s) k ≡ l s)
    → and_then (and_then m j) k ≡ and_then m l
and_then-and_then (success, s) j k l h = h s
and_then-and_then (failure, s) j k l h = refl

-- The loop comes through the pairs that have a position, whatever follows them.
pub steps-append :
    {active : Active} {pairs : List IdCountPair} {todo : List RecipeStep} (rest : List IdCountPair)
    (s : System)
    → Plan active pairs todo
    → steps active (pairs ++ rest) s
      ≡ and_then (add_batch (map step_message todo) s) (steps active rest)
unfolding steps queue_step add_batch
steps-append rest s done = refl
steps-append {active} rest s (next {pairs = pairs} {todo = todo} pair p e plan) =
    let batch = add_batch (map step_message todo) in
    ap (λ o. and_then (queue_step o pair.count s) (steps active (pairs ++ rest))) e
    ∙ sym (
        and_then-and_then (add_outgoing s (step_message (step_of p pair.count))) batch
          (steps active rest) (steps active (pairs ++ rest))
          (λ s'. sym (steps-append rest s' plan)))

steps-add_batch :
    {active : Active} {pairs : List IdCountPair} {todo : List RecipeStep} (s : System)
    → Plan active pairs todo
    → and_then (steps active pairs s) (λ s'. add_outgoing s' (step_message final_step))
      ≡ add_batch (messages todo) s
unfolding steps queue_step add_batch
steps-add_batch s done = and_then-success (add_outgoing s (step_message final_step))
steps-add_batch {active} s (next {pairs = pairs} {todo = todo} pair p e plan) =
    let final = λ (s' : System). add_outgoing s' (step_message final_step) in
    ap (λ o. and_then (and_then (queue_step o pair.count s) (steps active pairs)) final) e
    ∙ and_then-and_then (add_outgoing s (step_message (step_of p pair.count))) (steps active pairs)
        final (add_batch (messages todo)) (λ s'. steps-add_batch s' plan)

pub start_new_mixing-add_batch :
    (active : Active) (s : System) (rec : Recipe) (todo : List RecipeStep)
    → Plan active rec.ing_pairs todo
    → start_new_mixing active s (some rec) ≡ add_batch (messages todo) s
unfolding start_new_mixing
start_new_mixing-add_batch active s rec todo plan = steps-add_batch s plan
