-- ===== src/MessageHandler/Abstract.antt =====
-- What src/message_handler.c promises: the worker over plain lists, with no ring and no index. `view`
-- is what the program's state stands for. This is the specification, not code of the repository.
pub mod Refine
pub mod Rounds
pub mod Progress
pub mod Work
pub mod Batch
pub mod Pending
use ultramat.Base.{
  ℕ, ◌+◌, Bool, true, false, List, [], ◌∷◌, map, Status, success, failure, ◌==◌, ltb, u8,
  if◌then◌else◌,
}
use ultramat.Fifo
use ultramat.Ring.Refine.{contents}
use ultramat.Proto.{Message, Response, ResponseType, message_init_zero, response_init_zero}
use ultramat.CommandHandler
use ultramat.CommandHandler.{Commands}
use ultramat.Wire.{Wire, send_msg}
use ultramat.MessageHandler.{
  System, WorkerState, idle, send_cmd, done_pending, error, ErrorType, unknown_msg, ooo_done,
  ooo_msg, recieved_err, done_timeout, Effect, idle_call, sent, serial_error, error_string,
}

pub record View : Type 0 where
  pub state : WorkerState
  pub noted : ErrorType
  pub timed : Bool
  pub since : ℕ
  pub responses : List Response
  pub queue : List Message
  pub pending : List ℕ
  pub commands : Commands

abbrev pub view : System → View
view s = record {
  state = s.worker.fsm_state;
  noted = s.worker.error;
  timed = s.worker.timeout_done_started;
  since = s.worker.timestamp_done;
  responses = contents response_init_zero s.in_q;
  queue = contents message_init_zero s.out_q;
  pending = contents 0 s.worker.pending_dones;
  commands = s.commands;
}

abbrev pub enter : WorkerState → View → View
enter st v = record v { state = st }

abbrev pub fail : ErrorType → View → View
fail e v = record v { state = error; noted = e }

-- The id that is awaited; 0 if there is none.
abbrev pub first_id : List ℕ → ℕ
first_id [] = 0
first_id (id ∷ ids) = id

abbrev pub later_ids : List ℕ → List ℕ
later_ids [] = []
later_ids (id ∷ ids) = ids

abbrev pub awaiting : List ℕ → WorkerState
awaiting [] = idle
awaiting (id ∷ ids) = done_pending

-- The done of the oldest pending id: it is taken, and its handler runs.
abbrev pub settle : View → Response → View × List Effect
settle v resp = (
  record v { pending = later_ids v.pending; state = awaiting (later_ids v.pending) },
  map idle_call (CommandHandler.execute_done v.commands resp).1,
)

unfoldable pub done : View → Response → View × List Effect
done v resp = if first_id v.pending == u8 resp.id then settle v resp else (fail ooo_done v, [])

unfoldable pub respond : ResponseType → WorkerState → View → Response → View × List Effect
unfolding done
respond ResponseType.done done_pending v resp = done v resp
respond ResponseType.done _ v resp = (fail ooo_msg v, [])
respond ResponseType.error _ v resp = (fail recieved_err v, [])
respond ResponseType.emergency_stop st v resp = (enter st v, [])
respond _ _ v resp = (fail unknown_msg v, [])

-- Queued messages go first.
unfoldable pub go_on : View → View
go_on v = if Fifo.is_empty v.queue then v else enter send_cmd v

unfoldable pub when_idle : List Response → View → View × List Effect
unfolding respond go_on
when_idle [] v = (go_on v, [])
when_idle (resp ∷ later) v = respond resp.type v.state (record v { responses = later }) resp

unfoldable pub send_first : Status → Message → View → View × List Effect
send_first failure m v = (enter error v, [])
send_first success m v = (enter done_pending v, sent m ∷ [])

unfoldable pub when_sending : List Message → Wire → View → View × List Effect
unfolding send_first
when_sending [] w v = (enter error v, [])
when_sending (m ∷ later) w v = send_first (send_msg w m) m (record v { queue = later })

unfoldable pub wait : Bool → ℕ → View → View
unfolding go_on
wait true now v = if ltb (v.since + 90) now then fail done_timeout v else go_on v
wait false now v = go_on (record v { timed = true; since = now })

unfoldable pub when_pending : List Response → ℕ → View → View × List Effect
unfolding respond go_on wait
when_pending [] now v = (wait v.timed now v, [])
when_pending (resp ∷ later) now v =
    let (v', fx) = respond resp.type v.state (record v { responses = later; timed = false }) resp in
    (go_on v', fx)

unfoldable pub round_in : WorkerState → Wire → ℕ → View → Status × View × List Effect
unfolding when_idle when_sending when_pending error_string
round_in idle w now v = let (v', fx) = when_idle v.responses v in (success, v', fx)
round_in send_cmd w now v = let (v', fx) = when_sending v.queue w v in (success, v', fx)
round_in done_pending w now v = let (v', fx) = when_pending v.responses now v in (success, v', fx)
round_in error w now v = (failure, v, serial_error (error_string v.noted) ∷ [])

-- A round of the worker.
unfoldable pub round : Wire → ℕ → View → Status × View × List Effect
unfolding round_in
round w now v = round_in v.state w now v
