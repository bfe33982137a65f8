-- ===== src/Orders/Complete.antt =====
-- An order from the button to the finished drink: the callbacks of src/callbacks_position.c, the steps
-- of src/proto_serial.c, the worker of src/message_handler.c and the table of src/command_handler.c.
use ultramat.Base.{
  ℕ, suc, ◌+◌, ◌<◌, ◌≡◌, refl, sym, ap, ◌∙◌, true, List, [], ◌∷◌, ◌++◌, map, replicate, Option,
  some, returns, arith, length, length-map, length-append, subst, u8, u32,
}
use ultramat.Drinks.{Ingredient, Recipe}
use ultramat.Proto.{Message, RecipeStep, McVersion, recipe_step}
use ultramat.CommandHandler.{
  cb_cmd_step_done, recipe_step_handler, get_handler_func, call_handler, run_func,
}
use ultramat.CommandHandler.Unused.{AllHandled, calls_of}
use ultramat.Positions.{Active}
use ultramat.Mixing.{step_message, final_step}
use ultramat.Mixing.Whole.{messages, start_new_mixing-add_batch}
use ultramat.MessageHandler.{System, Effect, idle_call}
use ultramat.MessageHandler.Linked.{pending_ids, ids}
use ultramat.MessageHandler.Abstract.Work.{Rested, idle-pending}
use ultramat.MessageHandler.Abstract.Batch.{Added, add_batch-Added}
use ultramat.MessageHandler.Service.{Service, Serves, Ready, serve, ack, acks, add_batch-Served}
use ultramat.Orders.{Page, locked, finished, all_active, on_recipe_order_toggle}
use ultramat.Orders.Checks.{Small, all_active-Plan, order-locked}
use ultramat.Orders.Idle.{run_effects, run_effects-steps}
use ultramat.Orders.Steps.{steps_done_finish, drink_ready}

-- The messages of a recipe all have the handler of a recipe step.
abbrev AllSteps : List Message → Type 0
AllSteps [] = Unit
AllSteps (m ∷ ms) = (m.type ≡ recipe_step) × AllSteps ms

messages-AllSteps : (todo : List RecipeStep) → AllSteps (messages todo)
messages-AllSteps [] = (refl, tt)
messages-AllSteps (st ∷ todo) = (refl, messages-AllSteps todo)

AllSteps-AllHandled : (ms : List Message) → AllSteps ms → AllHandled ms
unfolding get_handler_func
AllSteps-AllHandled [] st = tt
AllSteps-AllHandled (m ∷ ms) st =
    ((recipe_step_handler, ap get_handler_func st.0), AllSteps-AllHandled ms st.1)

calls_of-AllSteps :
    (v : Option McVersion) (c : ℕ) (ms : List Message)
    → AllSteps ms
    → map idle_call (calls_of ms (acks v c ms)) ≡ replicate (length ms) (idle_call cb_cmd_step_done)
unfolding run_func get_handler_func call_handler
calls_of-AllSteps v c [] st = refl
calls_of-AllSteps v c (m ∷ ms) st =
    let resp = ack v (record m { id = u8 (u32 (c + 1)) }) in
    let later = calls_of ms (acks v (u32 (c + 1)) ms) in
    ap (λ cmd. map idle_call (run_func (get_handler_func cmd) resp ++ later)) st.0
    ∙ ap (◌∷◌ (idle_call cb_cmd_step_done)) (calls_of-AllSteps v (u32 (c + 1)) ms st.1)

length-messages : (todo : List RecipeStep) → length (messages todo) ≡ suc (length todo)
length-messages todo =
    length-map (todo ++ (final_step ∷ [])) step_message
    ∙ omega (arith, length-append todo (final_step ∷ []))

-- The order is taken, and its messages are added.
pub record Taken (ings : List Ingredient) (active : Active) (rec : Recipe) (p : Page) (s : System)
    : Type 0 where
  pub todo : List RecipeStep
  pub added : Added s (messages todo)
  pub toggled : on_recipe_order_toggle ings active true p s ≡ (locked p, added.after, [])
  pub long : length (messages todo) ≡ suc (length rec.ing_pairs)

pub order-Taken :
    (ings : List Ingredient) (active : Active) (rec : Recipe) (p : Page) (s : System) {n start : ℕ}
    → p.order_button.active ≡ true
    → p.order_button.sensitive ≡ true
    → p.active_recipe ≡ some rec
    → all_active ings active rec.ing_pairs ≡ true
    → Small rec.ing_pairs
    → length rec.ing_pairs < 31
    → Ready s n start
    → Taken ings active rec p s
order-Taken ings active rec p s on can e all small few ready =
    let (todo, plan, same) = all_active-Plan ings active rec.ing_pairs small all in
    let n : length (messages todo) ≡ suc (length rec.ing_pairs) =
      length-messages todo ∙ ap suc same in
    let nothing : pending_ids s ≡ [] =
      idle-pending s ready.linked ready.state ∙ ap ids ready.nothing_queued in
    let b = add_batch-Added s (messages todo) ready.linked (omega (arith, n, ap length nothing)) in
    record {
      todo = todo;
      added = b;
      toggled =
          order-locked ings active rec p s on can e all
          ∙ ap (λ m. (locked p, m.1, []))
              (start_new_mixing-add_batch active s rec todo plan ∙ b.result);
      long = n;
    }

pub messages-AllHandled : (todo : List RecipeStep) → AllHandled (messages todo)
messages-AllHandled todo = AllSteps-AllHandled (messages todo) (messages-AllSteps todo)

-- What is served finishes the order.
abbrev pub Finishes : Page → System × List Effect → Type 0
Finishes p (s, calls) = Rested s × (run_effects calls p ≡ returns (finished p, drink_ready ∷ []))

pub Taken-Finishes :
    (ings : List Ingredient) (active : Active) (rec : Recipe) (p : Page) (s : System)
    (svc : Service) (v : Option McVersion) (t : Taken ings active rec p s)
    → p.active_recipe ≡ some rec
    → p.recipe_step_done_counter ≡ 0
    → length rec.ing_pairs < 31
    → Ready s (suc (length rec.ing_pairs)) svc.start
    → Serves (suc (length rec.ing_pairs)) svc
    → Finishes (locked p) (serve svc v t.added.after)
Taken-Finishes ings active rec p s svc v t e zero_done few ready serves =
    let ms = messages t.todo in
    let n = length rec.ing_pairs in
    let served =
      add_batch-Served svc v s ms (omega (arith, t.long)) (omega (arith, t.long))
        (messages-AllHandled t.todo) (subst (λ n. Ready s n svc.start) (sym t.long) ready)
        (subst (λ n. Serves n svc) (sym t.long) serves) t.added in
    (
      served.0,
      ap (λ fx. run_effects fx (locked p))
            (served.1
              ∙ calls_of-AllSteps v s.id_counter ms (messages-AllSteps t.todo)
              ∙ ap (λ n. replicate n (idle_call cb_cmd_step_done)) t.long)
          ∙ run_effects-steps (suc n) (locked p)
          ∙ steps_done_finish n (locked p) rec e (omega arith) (omega arith),
    )

-- The order button is toggled on while it can be used, a recipe of at most 30 pairs is chosen, no step
-- is counted, the serial thread runs, and every ingredient is active and has an id of 8 bits. The
-- worker is idle with nothing queued and nothing come, and no slot of the table of handlers before the
-- one that is written next has one of the next ids. The port takes every message, and two rounds for
-- each are made within 90 seconds, which a running timeout has not yet begun before; then a done for
-- each message that went out comes in, in order, and a round for each pair and one more follow, at any
-- time. Then the worker is idle with nothing left, and what it has left to the GUI unlocks the page,
-- sets the counter back to 0 and tells the user once that the drink is ready.
pub on_recipe_order_toggle-Finishes :
    (ings : List Ingredient) (active : Active) (rec : Recipe) (p : Page) (s : System)
    (svc : Service) (v : Option McVersion)
    → p.order_button.active ≡ true
    → p.order_button.sensitive ≡ true
    → p.active_recipe ≡ some rec
    → p.recipe_step_done_counter ≡ 0
    → all_active ings active rec.ing_pairs ≡ true
    → Small rec.ing_pairs
    → length rec.ing_pairs < 31
    → Ready s (suc (length rec.ing_pairs)) svc.start
    → Serves (suc (length rec.ing_pairs)) svc
    → let (p₁, s₁, _) = on_recipe_order_toggle ings active true p s in Finishes p₁ (serve svc v s₁)
on_recipe_order_toggle-Finishes ings active rec p s svc v on can e zero_done all small few ready
      serves =
    let t = order-Taken ings active rec p s on can e all small few ready in
    subst (λ r. Finishes r.0 (serve svc v r.1)) (sym t.toggled)
      (Taken-Finishes ings active rec p s svc v t e zero_done few ready serves)
