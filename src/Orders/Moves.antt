-- ===== src/Orders/Moves.antt =====
-- A manual move from the button to its done: the callbacks of src/callbacks_position.c, the worker of
-- src/message_handler.c and the table of src/command_handler.c.
use ultramat.Base.{
  ◌≤◌, ◌<◌, ◌≡◌, refl, sym, ap, ◌∙◌, true, List, [], ◌∷◌, map, Option, returns, arith, length,
  subst, Status,
}
use ultramat.Proto.{McVersion, PositionX}
use ultramat.CommandHandler.{move_x_handler, get_handler_func, call_handler, run_func}
use ultramat.MessageHandler.{System, sent, add_outgoing, message_move_x}
use ultramat.MessageHandler.Linked.{pending_ids, ids}
use ultramat.MessageHandler.Linked.Outgoing.{numbered}
use ultramat.MessageHandler.Abstract.Rounds.{rounds}
use ultramat.MessageHandler.Abstract.Work.{Rested, idle-pending}
use ultramat.MessageHandler.Abstract.Batch.{add_batch, add_batch-Added}
use ultramat.MessageHandler.Service.{
  Service, Serves, Ready, serve, add_batch-Served, add_batch-sent,
}
use ultramat.Mixing.Whole.{and_then-success}
use ultramat.Orders.{Page, Modal, on_manual_pos_toggle, cmd_move_x_done}
use ultramat.Orders.Idle.{run_effects}
use ultramat.Orders.Manual.{
  ready, unusable, move_message, message_move_x-valid, set_manual-set_manual,
}

-- The buttons are locked, the move goes out, and once it is done the worker is at rest and what is left
-- to the GUI makes all buttons ready.
pub record Moves (x : PositionX) (p : Page) (s : System) (svc : Service) (v : Option McVersion)
    (r : Page × System × List Modal) : Type 0 where
  pub buttons_locked : r.0 ≡ record p { manual_pos_buttons = map unusable p.manual_pos_buttons }
  pub silent : r.2 ≡ []
  pub goes_out : (rounds svc.wire svc.times r.1).1 ≡ sent (numbered s (move_message x)) ∷ []
  pub rested : Rested (serve svc v r.1).0
  pub buttons_ready :
      run_effects (serve svc v r.1).1 r.0
      ≡ returns (record p { manual_pos_buttons = map ready p.manual_pos_buttons }, [])

-- The user toggles the button of x position 1 to 8 while the thread runs. The worker is idle with
-- nothing queued and nothing come, and no slot of the table of handlers before the one that is written
-- next has the next id. The port takes the message, and two rounds are made within 90 seconds, which a
-- running timeout has not yet begun before; then its done comes in, and a round follows, at any time.
-- Then at first no manual button can be used and nothing else changes; just one message goes out, the
-- move to this position with the next id; and in the end the worker is idle with nothing left, and all
-- manual buttons can be used and are not toggled, with nothing else changed and nothing said.
pub on_manual_pos_toggle-Moves :
    (x : PositionX) (p : Page) (s : System) (svc : Service) (v : Option McVersion)
    → 0 < x
    → x ≤ 8
    → Ready s 1 svc.start
    → Serves 1 svc
    → Moves x p s svc v (on_manual_pos_toggle true x p s)
unfolding on_manual_pos_toggle cmd_move_x_done add_batch run_effects get_handler_func run_func
    call_handler
on_manual_pos_toggle-Moves x p s svc v low high can serves =
    let m = move_message x in
    let nothing : pending_ids s ≡ [] =
      idle-pending s can.linked can.state ∙ ap ids can.nothing_queued in
    let b = add_batch-Added s (m ∷ []) can.linked (omega (arith, ap length nothing)) in
    let added : (message_move_x s x).1 ≡ b.after =
      ap (λ (r : Status × System). r.1)
        (message_move_x-valid s x low high ∙ and_then-success (add_outgoing s m) ∙ b.result) in
    let served =
      add_batch-Served svc v s (m ∷ []) (omega arith) (omega arith) ((move_x_handler, refl), tt) can
        serves b in
    let page : Page = record p { manual_pos_buttons = map unusable p.manual_pos_buttons } in
    record {
      buttons_locked = refl;
      silent = refl;
      goes_out =
          ap (λ t. (rounds svc.wire svc.times t).1) added ∙ add_batch-sent svc s m [] can serves b;
      rested = subst (λ t. Rested (serve svc v t).0) (sym added) served.0;
      buttons_ready =
          ap (λ t. run_effects (serve svc v t).1 page) added
          ∙ ap (λ fx. run_effects fx page) served.1
          ∙ ap (λ ts. returns (record p { manual_pos_buttons = ts }, []))
              (set_manual-set_manual p.manual_pos_buttons);
    }
