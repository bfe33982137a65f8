-- ===== src/Orders/Session/EndsWell.antt =====
-- A session of src/callbacks_position.c and src/proto_serial.c ends well: the first message is answered,
-- and every order is carried out.
use ultramat.Base.{
  ℕ, suc, ◌+◌, ◌≡◌, refl, ap, ◌∙◌, true, List, [], ◌∷◌, ◌++◌, replicate, Option, Bool, Outcome,
  returns, ◌>>=◌, arith, length, append-nil, u8, u32,
}
use ultramat.Ring.Refine.{contents-init}
use ultramat.Drinks.{Ingredient, Recipe}
use ultramat.Proto.{Message, McVersion, hello_there, message_init_zero, response_init_zero}
use ultramat.CommandHandler.{hello_there_handler, get_handler_func, call_handler, run_func}
use ultramat.CommandHandler.Recent.{init-Recent}
use ultramat.Wire.{Wire}
use ultramat.Mixing.Whole.{messages, and_then-success}
use ultramat.Serial.{
  Connection, ThreadState, allocated, opened, set_handle, Answers, start_serial_connection,
  thread_start,
}
use ultramat.MessageHandler.{System, init, add_outgoing}
use ultramat.MessageHandler.Linked.{init-Linked}
use ultramat.MessageHandler.Abstract.Batch.{Added, add_batch, add_batch-Added}
use ultramat.MessageHandler.Service.{
  Service, Serves, serve, ack, add_batch-Served, Calm, Calm-Ready, serve-Calm,
}
use ultramat.Orders.{
  Page, Modal, locked, finished, on_recipe_order_toggle, on_motor_switch_toggle, switched_on,
  cmd_hello_there_done, version_modals,
}
use ultramat.Orders.Complete.{order-Taken, Taken-Finishes, messages-AllHandled}
use ultramat.Orders.Idle.{run_effects}
use ultramat.Orders.Steps.{drink_ready}
use ultramat.Orders.Session.{
  Order, ordering, ending, work_in, Up, connect, order, play, AtEase, EndsWell, Possible,
  AllPossible,
}

module _ (ings : List Ingredient) (recs : List Recipe) (v : Option McVersion) where
  order-EndsWell :
      (o : Order) (p : Page) (c : Connection)
      → Possible ings recs o
      → AtEase p
      → Up c
      → Calm c.system
      → EndsWell (drink_ready ∷ []) (order ings recs v o p c)
  unfolding order ordering
  order-EndsWell o p c can ease up calm =
      let s = c.system in
      let n = length can.recipe.ing_pairs in
      let p₁ = ordering recs o.id p in
      let few = can.few in
      let ready = Calm-Ready s (suc n) o.service.start (omega arith) calm in
      let t =
        order-Taken ings o.active can.recipe p₁ s refl ease.button can.known can.all can.small few
          ready in
      let finishes =
        Taken-Finishes ings o.active can.recipe p₁ s o.service v t can.known ease.counter few ready
          can.serves in
      let (s', calls) = serve o.service v t.added.after in
      let c' : Connection = record c { system = s' } in
      let order_in : Bool → ThreadState → Outcome (Page × Connection × List Modal) =
        λ running thread.
          let (p₂, s₁, ms) = on_recipe_order_toggle ings o.active running p₁ s in
          ending ms c (work_in thread o.service v s₁) p₂ in
      (
        finished (locked p₁),
        c',
        (λ i. order_in (up.running i) (up.thread i))
            ∙ ap (λ r. ending r.2 c (serve o.service v r.1) r.0) t.toggled
            ∙ ap (λ r. r >>= λ (q, ms). returns (q, c', ms)) finishes.1,
        record { button = refl; box = refl; counter = refl },
        record { port = up.port; running = up.running; thread = up.thread },
        serve-Calm o.service v s (messages t.todo) (messages-AllHandled t.todo) calm t.added
            finishes.0,
      )

  play-EndsWell :
      (os : List Order) (p : Page) (c : Connection)
      → AllPossible ings recs os
      → AtEase p
      → Up c
      → Calm c.system
      → EndsWell (replicate (length os) drink_ready) (play ings recs v os p c)
  unfolding play
  play-EndsWell [] p c can ease up calm = (p, c, refl, ease, up, calm)
  play-EndsWell (o ∷ os) p c can ease up calm =
      let (q, t, done, ease', up', calm') = order-EndsWell o p c can.0 ease up calm in
      let (q', t', rest, ease'', up'', calm'') = play-EndsWell os q t can.1 ease' up' calm' in
      (
        q',
        t',
        ap
              (λ r. r >>= λ (q, t, ms).
                play ings recs v os q t >>= λ (q', t', ms'). returns (q', t', ms ++ ms'))
              done
            ∙ ap (λ r. r >>= λ (q', t', ms'). returns (q', t', drink_ready ∷ ms')) rest,
        ease'',
        up'',
        calm'',
      )

init-Calm : (s : System) → Calm (init s)
unfolding init
init-Calm s = record {
  linked = init-Linked s;
  state = refl;
  nothing_queued = contents-init message_init_zero;
  nothing_come = contents-init response_init_zero;
  timed = refl;
  recent = init-Recent s.id_counter;
}

abbrev hello : Message
hello = record message_init_zero { type = hello_there }

hello-Added :
    (s : System) → (b : Added (init s) (hello ∷ [])) × ((add_outgoing (init s) hello).1 ≡ b.after)
unfolding add_batch init
hello-Added s =
    let b =
      add_batch-Added (init s) (hello ∷ []) (init-Linked s)
        (omega (arith, ap (λ (l : List ℕ). length l) (contents-init 0))) in
    (b, ap (λ r. r.1) (and_then-success (add_outgoing (init s) hello) ∙ b.result))

connect-EndsWell :
    (v : Option McVersion) (a : Answers) (w : Wire) (svc : Service) (p : Page) (c : Connection)
    → a.allocates ≡ true
    → a.opens ≡ true
    → a.creates ≡ true
    → p.recipe_combo_sensitive ≡ true
    → p.recipe_step_done_counter ≡ 0
    → Serves 1 svc
    → EndsWell (version_modals v) (connect v a w svc p c)
unfolding connect on_motor_switch_toggle switched_on start_serial_connection thread_start
    run_effects get_handler_func run_func call_handler cmd_hello_there_done
connect-EndsWell v a w svc p c al op cr box zero_done serves =
    let s = c.system in
    let (b, added) = hello-Added s in
    let ready = Calm-Ready (init s) 1 svc.start (omega arith) (init-Calm s) in
    let served =
      add_batch-Served svc v (init s) (hello ∷ []) (omega arith) (omega arith)
        ((hello_there_handler, refl), tt) ready serves b in
    let resp = ack v (record hello { id = u8 (u32 ((init s).id_counter + 1)) }) in
    let p₁ : Page = record p { motor_switch = true } in
    let q : Page = (cmd_hello_there_done resp p₁).0 in
    let c₁ : Connection =
      thread_start
        (record (record (set_handle allocated c) { ser = opened }) { system = init s }) in
    let started : connect v a w svc p c
        ≡ ending [] c₁ (serve svc v (add_outgoing (init s) hello).1) p₁ =
      rw (al, op, cr) in
    let shown : run_effects (serve svc v b.after).1 p₁ ≡ returns (q, version_modals v) =
      ap (λ fx. run_effects fx p₁) served.1
      ∙ ap (λ ms. returns (q, ms)) (append-nil (version_modals v)) in
    let c' : Connection = record c₁ { system = (serve svc v b.after).0 } in
    (
      q,
      c',
      started
          ∙ ap (λ t. ending [] c₁ (serve svc v t) p₁) added
          ∙ ap (λ r. r >>= λ (q, ms). returns (q, c', ms)) shown,
      record { button = refl; box = box; counter = zero_done },
      record { port = refl; running = refl; thread = refl },
      serve-Calm svc v (init s) (hello ∷ []) ((hello_there_handler, refl), tt) (init-Calm s) b
          served.0,
    )

-- The motor switch is toggled on, the connection is made, no step is counted and a recipe can be
-- chosen. The port takes the first message, and its done comes, with a version or without. Then the
-- user orders one recipe after another, each of at most 30 pairs, with its ingredients selected and of
-- ids of 8 bits, and each time the port takes every message, two rounds for each are made within 90
-- seconds, and a done for each comes in order. However many orders there are, and whatever the counter
-- of ids was, the user is told of a missing version and then just once for each order that the drink is
-- ready; in the end the thread is still in its loop on an open port, the next order can be given, and
-- the worker is idle with nothing left.
pub connect-play-EndsWell :
    (ings : List Ingredient) (recs : List Recipe) (v : Option McVersion) (a : Answers) (w : Wire)
    (svc : Service) (p : Page) (c : Connection) (os : List Order)
    → a.allocates ≡ true
    → a.opens ≡ true
    → a.creates ≡ true
    → p.recipe_combo_sensitive ≡ true
    → p.recipe_step_done_counter ≡ 0
    → Serves 1 svc
    → AllPossible ings recs os
    → EndsWell (version_modals v ++ replicate (length os) drink_ready) (
        connect v a w svc p c >>= λ (q, t, ms).
        play ings recs v os q t >>= λ (q', t', ms'). returns (q', t', ms ++ ms'))
connect-play-EndsWell ings recs v a w svc p c os al op cr box zero_done serves can =
    let (q, t, made, ease, up, calm) =
      connect-EndsWell v a w svc p c al op cr box zero_done serves in
    let (q', t', played, ease', up', calm') = play-EndsWell ings recs v os q t can ease up calm in
    (
      q',
      t',
      ap
            (λ r. r >>= λ (q, t, ms).
              play ings recs v os q t >>= λ (q', t', ms'). returns (q', t', ms ++ ms'))
            made
          ∙ ap (λ r. r >>= λ (q', t', ms'). returns (q', t', version_modals v ++ ms')) played,
      ease',
      up',
      calm',
    )
