-- ===== src/Mixing/Plan.antt =====
-- `proto_comms_start_new_mixing` of src/proto_serial.c: which messages a recipe queues.
pub use ultramat.Mixing.Whole.{Plan, done, next}
use ultramat.Base.{
  ℕ, ◌+◌, ◌≤◌, ◌<◌, ◌≡◌, refl, ap, ◌∙◌, List, [], ◌∷◌, ◌++◌, map, none, some, Status, success,
  failure, arith, length, length-append, length-map, map-append, u32,
}
use ultramat.Drinks.{Recipe, IdCountPair}
use ultramat.Proto.{Message, RecipeStep, Payload, step}
use ultramat.Positions.{Active, get_position_by_id}
use ultramat.MessageHandler.{System, add_outgoing}
use ultramat.MessageHandler.Linked.{Linked, pending_ids, queued, ids}
use ultramat.MessageHandler.Abstract.{View}
use ultramat.MessageHandler.Abstract.Batch.{
  numbered_from, length-numbered_from, Added, add_batch-Added,
}
use ultramat.Mixing.{step_message, final_step, queue_step, steps, and_then, start_new_mixing}
use ultramat.Mixing.Whole.{messages, steps-append, start_new_mixing-add_batch}

abbrev pub payloads : List Message → List Payload
payloads = map (λ m. m.payload)

-- The steps were queued behind what was queued, in order, each waiting for its done.
pub record Queued (s s' : System) (todo : List RecipeStep) : Type 0 where
  pub linked : Linked s'
  pub queue : payloads (queued s') ≡ payloads (queued s) ++ map step todo
  pub pending : length (pending_ids s') ≡ length (pending_ids s) + length todo

payloads-numbered_from :
    (c : ℕ) (todo : List RecipeStep)
    → payloads (numbered_from c (map step_message todo)) ≡ map step todo
payloads-numbered_from c [] = refl
payloads-numbered_from c (st ∷ todo) =
    ap (◌∷◌ (step st)) (payloads-numbered_from (u32 (c + 1)) todo)

Added-Queued :
    (s : System) (todo : List RecipeStep) (b : Added s (map step_message todo))
    → Queued s b.after todo
Added-Queued s todo b =
    let ms = numbered_from s.id_counter (map step_message todo) in
    record {
      linked = b.linked;
      queue =
          ap (λ (v : View). payloads v.queue) b.seen
          ∙ map-append (λ m. m.payload) (queued s) ms
          ∙ ap (◌++◌ (payloads (queued s))) (payloads-numbered_from s.id_counter todo);
      pending = omega (
        arith,
        ap (λ (v : View). length v.pending) b.seen,
        length-append (pending_ids s) (ids ms),
        length-map ms (λ (m : Message). m.id),
        length-numbered_from s.id_counter (map step_message todo),
        length-map todo step_message,
      );
    }

steps-missing :
    (active : Active) (pair : IdCountPair) (behind : List IdCountPair) (s : System)
    → get_position_by_id active pair.id ≡ none
    → steps active (pair ∷ behind) s ≡ (failure, s)
unfolding steps queue_step
steps-missing active pair behind s e =
    ap (λ o. and_then (queue_step o pair.count s) (steps active behind)) e

-- Every ingredient of a recipe has a position, and there is room for its steps and the final one.
-- Then all of them are queued in the order of the recipe, the final one last, and the call succeeds.
pub start_new_mixing_all :
    (active : Active) (s : System) (rec : Recipe) (todo : List RecipeStep)
    → Plan active rec.ing_pairs todo
    → Linked s
    → length (pending_ids s) + length todo < 31
    → (s' : System) × (start_new_mixing active s (some rec) ≡ (success, s'))
      × Queued s s' (todo ++ (final_step ∷ []))
start_new_mixing_all active s rec todo plan l room =
    let all = todo ++ (final_step ∷ []) in
    let b =
      add_batch-Added s (messages todo) l
        (omega (arith, length-map all step_message, length-append todo (final_step ∷ []))) in
    (b.after, start_new_mixing-add_batch active s rec todo plan ∙ b.result, Added-Queued s all b)

-- An ingredient of a recipe has no position. Then the call fails, but the steps of the pairs before
-- it stay queued, without a final step.
pub start_new_mixing_missing :
    (active : Active) (s : System) (rec : Recipe) (before : List IdCountPair) (pair : IdCountPair)
    (behind : List IdCountPair) (todo : List RecipeStep)
    → rec.ing_pairs ≡ before ++ (pair ∷ behind)
    → Plan active before todo
    → get_position_by_id active pair.id ≡ none
    → Linked s
    → length (pending_ids s) + length todo ≤ 31
    → (s' : System) × (start_new_mixing active s (some rec) ≡ (failure, s')) × Queued s s' todo
unfolding start_new_mixing
start_new_mixing_missing active s rec before pair behind todo split plan absent l room =
    let b =
      add_batch-Added s (map step_message todo) l (omega (arith, length-map todo step_message)) in
    let looped : steps active rec.ing_pairs s ≡ (failure, b.after) =
      ap (λ (l : List IdCountPair). steps active l s) split
      ∙ steps-append (pair ∷ behind) s plan
      ∙ ap (λ m. and_then m (steps active (pair ∷ behind))) b.result
      ∙ steps-missing active pair behind b.after absent in
    let ended =
      λ (m : Status × System). and_then m (λ s. add_outgoing s (step_message final_step)) in
    (b.after, ap ended looped, Added-Queued s todo b)
