-- ===== src/Tests/Worker.antt =====
-- Runs of the worker of src/message_handler.c, and its theorems on them.
use ultramat.Base.{
  ℕ, ◌≡◌, refl, List, [], ◌∷◌, ◌++◌, some, none, success, failure, true, false, arith, ◌⊎◌,
}
use ultramat.Fifo
use ultramat.Ring
use ultramat.Ring.Refine.{contents}
use ultramat.Proto.{Message, Response, ResponseType, message_init_zero, move_x, x_pos, hello_there}
use ultramat.CommandHandler
use ultramat.CommandHandler.{cb_cmd_move_x_done, move_x_handler}
use ultramat.Wire.{Wire, send_msg}
use ultramat.MessageHandler.{
  System, init, process, add_outgoing, add_incoming, idle, send_cmd, done_pending, error,
  unknown_msg, ooo_done, recieved_err, done_timeout, error_string, idle_call, sent, serial_error,
}
use ultramat.MessageHandler.Linked.{Linked, pending_ids}
use ultramat.MessageHandler.Trace.{
  Call, adds_incoming, adds_outgoing, rounds, History, step, run, start,
}
use ultramat.MessageHandler.Trace.Order.{run-start-Ordered, Ordered}
use ultramat.MessageHandler.Linked.Outgoing.{Accepted, Rejected, add_outgoing_cases}
use ultramat.MessageHandler.Responses.Foreign.{process-foreign_done}
use ultramat.MessageHandler.Responses.Done.{
  process-done, process-wrong_done, process-error_response,
}
use ultramat.MessageHandler.Responses.Timeout.{
  awaiting_since, process-timeout, process-send_keeps_timeout, process-failed_send,
}
use ultramat.CommandHandler.Lookup.{add_all, execute_done-add_all, init-IsValid}
use ultramat.Ring.Bounds
use ultramat.Ring.Refine
use ultramat.Fifo.{put, get, look}

-- A port that takes every message, and one that takes none.
abbrev pub up : Wire
up = record { encode = λ m. some (m.id ∷ []); write = λ bytes. true }

abbrev down : Wire
down = record { encode = λ m. some (m.id ∷ []); write = λ bytes. false }

-- The program before its first connection.
abbrev pub off : System
off = record {
  worker = record {
    pending_dones = record { head = 0; tail = 0; slots = [] };
    fsm_state = idle;
    error = unknown_msg;
    timeout_done_started = false;
    timestamp_done = 0;
  };
  in_q = record { head = 0; tail = 0; slots = [] };
  out_q = record { head = 0; tail = 0; slots = [] };
  id_counter = 0;
  commands = record { pending = []; handler_index = 0 };
}

abbrev pub go : ℕ → Message
go x = record message_init_zero { type = move_x; payload = x_pos x }

abbrev pub answer : ResponseType → ℕ → Response
answer type id = record { id = id; type = type; version = none; error = none }

-- A sequence of calls, with all that it computes with.
unfoldable pub played : List Call → History
unfolding run start step init process add_outgoing add_incoming send_msg Ring.init Ring.push
    Ring.pop Ring.peek Ring.is_full Ring.is_empty CommandHandler.init CommandHandler.add
    CommandHandler.execute_done CommandHandler.get_handler_func CommandHandler.run_func
    CommandHandler.find_pending contents
played cs = run (start off) cs

pub played_Linked : (cs : List Call) → Linked (played cs).system
unfolding played
played_Linked cs = (run-start-Ordered off cs).linked

abbrev pub two_sent : List Call
two_sent =
    adds_outgoing (go 1)
    ∷ adds_outgoing (go 2)
    ∷ rounds up 0
    ∷ rounds up 0
    ∷ rounds up 1
    ∷ rounds up 1
    ∷ []

-- The worker awaits the dones of two messages.
abbrev two : System
unfolding played
two = (played two_sent).system

-- The worker has sent one message, and another is queued.
abbrev pub one_sent : List Call
one_sent = adds_outgoing (go 1) ∷ rounds up 0 ∷ rounds up 0 ∷ []

two_phases :
    (two.worker.fsm_state ≡ done_pending)
    × (pending_ids two ≡ 1 ∷ 2 ∷ [])
    × ((played two_sent).went_out ≡ record (go 1) { id = 1 } ∷ record (go 2) { id = 2 } ∷ [])
unfolding played
two_phases = (refl, refl, refl)

run-start-Ordered_example : Ordered (run (start off) two_sent)
run-start-Ordered_example = run-start-Ordered off two_sent

add_outgoing_cases_example :
    Accepted (played two_sent).system (go 3) ⊎ Rejected (played two_sent).system (go 3)
add_outgoing_cases_example = add_outgoing_cases (go 3) (played_Linked two_sent)

abbrev pub answered : ResponseType → ℕ → List Call
answered type id = two_sent ++ (adds_incoming (answer type id) ∷ [])

process-done_example :
    (process up 2 (played (answered ResponseType.done 1)).system).2
    ≡ idle_call cb_cmd_move_x_done ∷ []
unfolding played CommandHandler.call_handler
process-done_example =
    (process-done up 2 (answer ResponseType.done 1) [] 1 (2 ∷ [])
      (played_Linked (answered ResponseType.done 1)) refl refl refl refl refl).1

-- An id that is 256 more than that of the first message.
process-foreign_done_example :
    (process up 2 (played (answered ResponseType.done 257)).system).2 ≡ []
unfolding played
process-foreign_done_example =
    (process-foreign_done up 2 (answer ResponseType.done 257) [] 1 (2 ∷ [])
      (played_Linked (answered ResponseType.done 257)) refl refl refl refl refl (omega arith)
      (omega arith)).1

process-wrong_done_example :
    (process up 2 (played (answered ResponseType.done 2)).system).1.worker.error ≡ ooo_done
unfolding played
process-wrong_done_example =
    (process-wrong_done up 2 (answer ResponseType.done 2) [] 1 (2 ∷ [])
      (played_Linked (answered ResponseType.done 2)) refl refl refl refl (omega arith)).2

-- A third message is queued when the error comes.
abbrev failing : List Call
failing = two_sent ++ (adds_outgoing (go 3) ∷ adds_incoming (answer ResponseType.error 0) ∷ [])

process-error_response_example :
    (process up 2 (played failing).system).1.worker.error ≡ recieved_err
unfolding played
process-error_response_example =
    (process-error_response up 2 (answer ResponseType.error 0) [] recieved_err
      (played_Linked failing) refl refl refl).2

-- The error is noted, and the worker goes on to send.
error_goes_by : (process up 2 (played failing).system).1.worker.fsm_state ≡ send_cmd
unfolding played
error_goes_by = refl

process-timeout_example :
    process up 5 (played one_sent).system ≡ (success, awaiting_since (played one_sent).system 5, [])
unfolding played
process-timeout_example =
    (process-timeout (played one_sent).system up up up 5 96 97 (played_Linked one_sent) refl refl
      refl refl).0

process-send_keeps_timeout_example :
    let s = (played (one_sent ++ (adds_outgoing (go 2) ∷ []))).system in
    let (_, s₁, _) = process up 80 (awaiting_since s 0) in
    let (_, s₂, fx) = process up 90 s₁ in
    let (_, s₃, _) = process up 91 s₂ in
    (fx ≡ sent (record (go 2) { id = 2 }) ∷ [])
    × (s₃.worker.fsm_state ≡ error)
    × (s₃.worker.error ≡ done_timeout)
unfolding played
process-send_keeps_timeout_example =
    process-send_keeps_timeout (played (one_sent ++ (adds_outgoing (go 2) ∷ []))).system up up up 0
      80 90 91 (record (go 2) { id = 2 }) (played_Linked (one_sent ++ (adds_outgoing (go 2) ∷ [])))
      refl refl refl (omega arith) (omega arith) refl

abbrev about_to_send : List Call
about_to_send = adds_outgoing (go 1) ∷ rounds up 0 ∷ []

process-failed_send_example :
    let s' = (process down 1 (played about_to_send).system).1 in
    process down 2 s' ≡ (failure, s', serial_error "Unknown message recieved" ∷ [])
unfolding played error_string
process-failed_send_example =
    (process-failed_send (played about_to_send).system down down 1 2 (record (go 1) { id = 1 }) []
      (played_Linked about_to_send) refl refl refl).3

execute_done-add_all_example :
    CommandHandler.execute_done
      (add_all (CommandHandler.add CommandHandler.init 1 move_x).1 ((2, hello_there) ∷ []))
      (answer ResponseType.done 1)
    ≡ (success, cb_cmd_move_x_done ∷ [])
unfolding CommandHandler.init CommandHandler.get_handler_func CommandHandler.call_handler
execute_done-add_all_example =
    execute_done-add_all 1 move_x move_x_handler ((2, hello_there) ∷ [])
      (answer ResponseType.done 1) init-IsValid refl (omega arith) (omega arith) (omega arith) refl

run_refines_example :
    Refine.run {A = ℕ} 0 (Ring.init 0) (put 4 ∷ put 5 ∷ get ∷ look ∷ [])
    ≡ (success, none) ∷ (success, none) ∷ (success, some 4) ∷ (success, some 5) ∷ []
unfolding contents Ring.init Fifo.run Fifo.push Fifo.pop Fifo.peek
run_refines_example = Refine.run_refines 0 (put 4 ∷ put 5 ∷ get ∷ look ∷ []) (Bounds.init-IsValid 0)
