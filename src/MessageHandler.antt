-- ===== src/MessageHandler.antt =====
-- src/message_handler.c: the worker that sends queued messages to the microcontroller and waits
-- for their done responses, in the order of the messages. The module's static variables are the
-- fields of `System`; a call returns the new system, and what it did outside it as a list.
pub mod Linked
pub mod Kept
pub mod Calls
pub mod Service
pub mod Trace
pub mod Responses
pub mod Abstract
use Prim.Native.String.{String}
use ultramat.Base.{
  ℕ, ◌+◌, Bool, true, false, ◌||◌, List, [], ◌∷◌, map, Option, none, some, Status, success, failure,
  ◌==◌, ltb, leb, if◌then◌else◌, u8, u32,
}
use ultramat.RingBuffer.{
  RingBuffer, zeroed, ring_buffer_put, ring_buffer_pop, ring_buffer_peek, ring_buffer_is_full,
  ring_buffer_is_empty,
}
use ultramat.Queue.{
  OutMsgQ, InRespQ, out_msg_q_init, in_resp_q_init, out_msg_q_is_empty, out_msg_q_push,
  in_resp_q_push, out_msg_q_pop, in_resp_q_pop,
}
use ultramat.CommandHandler
use ultramat.CommandHandler.{Commands, IdleCall}
use ultramat.Proto.{
  Message, Response, ResponseType, PositionX, move_x, move_y, x_pos, y_count, message_init_zero,
}
use ultramat.Proto.Position
use ultramat.Wire.{Wire, send_msg}

-- eWorkerState
pub data WorkerState : Type 0 where
  idle send_cmd done_pending error : WorkerState

-- eErrorType
pub data ErrorType : Type 0 where
  unknown_msg ooo_done ooo_msg done_timeout serial_write serial_read recieved_err : ErrorType

-- `message_handler_t`
pub record Worker : Type 0 where
  pub pending_dones : RingBuffer
  pub fsm_state : WorkerState
  pub error : ErrorType
  pub timeout_done_started : Bool
  pub timestamp_done : ℕ

-- `worker_`, `inQ_`, `outQ_` and `idCounter_`, and the state of command_handler.c
pub record System : Type 0 where
  pub worker : Worker
  pub in_q : InRespQ
  pub out_q : OutMsgQ
  pub id_counter : ℕ
  pub commands : Commands

-- What a call does outside the system: an idle call for the GUI thread, a message that went out,
-- or `cb_error_serial_communication` with its text.
pub data Effect : Type 0 where
  idle_call : IdleCall → Effect
  sent : Message → Effect
  serial_error : String → Effect

-- WORKER_TIMEOUT_DONE, in seconds
abbrev pub timeout_done : ℕ
timeout_done = 90

unfoldable pub error_string : ErrorType → String
error_string unknown_msg = "Unknown message recieved"
error_string ooo_done = "Out of order done message recieved"
error_string ooo_msg = "Incorrect order for recieved message"
error_string done_timeout = "Done message timeout"
error_string serial_write = "Serial write failed"
error_string serial_read = "Serial read failed"
error_string recieved_err = "Error message recieved"

abbrev pub set_state : WorkerState → System → System
set_state st s = record s { worker = record (s.worker) { fsm_state = st } }

-- `handler_set_error`
abbrev pub set_error : ErrorType → System → System
set_error e s = record s { worker = record (s.worker) { fsm_state = error; error = e } }

-- Every call of `get_next_out_msg_id` is followed by a conversion to uint8_t.
abbrev pub next_id : System → ℕ
next_id s = u8 (u32 (s.id_counter + 1))

pendings_on : Status × RingBuffer → System → Status × System
pendings_on (r, rb) s = (r, record s { worker = record (s.worker) { pending_dones = rb } })

-- `worker_add_new_pendings`
add_new_pendings : System → ℕ → Status × System
unfolding pendings_on
add_new_pendings s id =
    if ring_buffer_is_full s.worker.pending_dones
    then (failure, s)
    else pendings_on (ring_buffer_put s.worker.pending_dones id) s

-- What a variable that starts at 0 holds after a call that may store a value in it.
abbrev or_zero : Option ℕ → ℕ
or_zero none = 0
or_zero (some n) = n

-- The done that the worker waits for: run its handler and forget its id.
take_done : System → Response → WorkerState × System × List Effect
take_done s resp =
    let calls = (CommandHandler.execute_done s.commands resp).1 in
    let rb = (ring_buffer_pop s.worker.pending_dones).1 in
    (
      if ring_buffer_is_empty rb then idle else done_pending,
      record s { worker = record (s.worker) { pending_dones = rb } },
      map idle_call calls,
    )

-- The case DONE of `handler_process_incoming`, while a done is awaited. A response's id is cut to 8
-- bits; the byte to compare with is 0 if the ring is empty.
done_awaited : System → Response → WorkerState × System × List Effect
unfolding take_done
done_awaited s resp =
    if or_zero (ring_buffer_peek s.worker.pending_dones) == u8 resp.id
    then take_done s resp
    else (error, set_error ooo_done s, [])

-- The `switch` of `handler_process_incoming`; the first result is `nextState`.
incoming : ResponseType → WorkerState → System → Response → WorkerState × System × List Effect
unfolding done_awaited
incoming ResponseType.done done_pending s resp = done_awaited s resp
incoming ResponseType.done _ s resp = (error, set_error ooo_msg s, [])
incoming ResponseType.error _ s resp = (error, set_error recieved_err s, [])
incoming ResponseType.emergency_stop st s resp = (st, s, [])
incoming _ _ s resp = (error, set_error unknown_msg s, [])

-- The assignment `worker_.fsmState = handler_process_incoming(&resp)`.
abbrev assign : WorkerState × System × List Effect → System × List Effect
assign (next, s, fx) = (set_state next s, fx)

pub receive : System → Response → System × List Effect
unfolding incoming
receive s resp = assign (incoming resp.type s.worker.fsm_state s resp)

-- `message_handler_init`. The id counter goes on. Its test for a failed queue never holds.
unfoldable pub init : System → System
init s = record s {
  commands = CommandHandler.init;
  in_q = in_resp_q_init;
  out_q = out_msg_q_init;
  worker = record {
    pending_dones = zeroed;
    fsm_state = idle;
    error = unknown_msg;
    timeout_done_started = false;
    timestamp_done = 0;
  };
}

unfoldable pub add_incoming : System → Response → Status × System
add_incoming s resp = let (r, q) = in_resp_q_push s.in_q resp in (r, record s { in_q = q })

-- The rest of `message_handler_add_outgoing`, on what `out_msg_q_push` gives.
queue_on : Status × OutMsgQ → System → Message → Status × System
queue_on (failure, q) s msg = (failure, record s { out_q = q })
queue_on (success, q) s msg =
    (success, record s { out_q = q; commands = (CommandHandler.add s.commands msg.id msg.type).1 })

-- The same, on what `worker_add_new_pendings` gives.
outgoing_on : Status × System → Message → Status × System
unfolding queue_on
outgoing_on (failure, s) msg = (failure, s)
outgoing_on (success, s) msg = queue_on (out_msg_q_push s.out_q msg) s msg

abbrev count_id : System → System
count_id s = record s { id_counter = u32 (s.id_counter + 1) }

unfoldable pub add_outgoing : System → Message → Status × System
unfolding add_new_pendings outgoing_on
add_outgoing s msg =
    outgoing_on (add_new_pendings (count_id s) (next_id s)) (record msg { id = next_id s })

unfoldable pub message_move_x : System → PositionX → Status × System
message_move_x s pos =
    if leb pos Position.invalid || ltb Position.final pos
    then (failure, s)
    else add_outgoing s (record message_init_zero { type = move_x; payload = x_pos pos })

unfoldable pub message_move_y : System → ℕ → Status × System
message_move_y s count =
    if leb count 0 || ltb 10 count
    then (failure, s)
    else add_outgoing s (record message_init_zero { type = move_y; payload = y_count count })

-- With a message queued the worker goes on to send it: when idle, and while it waits for a done.
allow_send : System → System
allow_send s = if out_msg_q_is_empty s.out_q then s else set_state send_cmd s

-- The case IDLE, on what `in_resp_q_pop` gives.
idle_on : Option Response × InRespQ → System → System × List Effect
unfolding receive allow_send
idle_on (some resp, q) s = receive (record s { in_q = q }) resp
idle_on (none, q) s = (allow_send s, [])

process_idle : System → System × List Effect
unfolding idle_on
process_idle s = idle_on (in_resp_q_pop s.in_q) s

-- `proto_comms_send_msg` on the message that was taken from the queue. A failure leaves
-- `worker_.error` as it was, and so does an empty queue.
send_result : Status → Message → System → System × List Effect
send_result failure msg s = (set_state error s, [])
send_result success msg s = (set_state done_pending s, sent msg ∷ [])

-- The case SEND_CMD, on what `out_msg_q_pop` gives.
send_on : Option Message × OutMsgQ → Wire → System → System × List Effect
unfolding send_result
send_on (none, q) w s = (set_state error s, [])
send_on (some msg, q) w s = send_result (send_msg w msg) msg (record s { out_q = q })

process_send : Wire → System → System × List Effect
unfolding send_on
process_send w s = send_on (out_msg_q_pop s.out_q) w s

start_timeout : ℕ → System → System
start_timeout now s = record s {
  worker = record (s.worker) { timeout_done_started = true; timestamp_done = now };
}

pub stop_timeout : System → System
stop_timeout s = record s { worker = record (s.worker) { timeout_done_started = false } }

-- No response has come: see if the timeout has run out, or start it.
await_since : Bool → ℕ → System → System
unfolding allow_send start_timeout
await_since true now s =
    if ltb (s.worker.timestamp_done + timeout_done) now
    then set_error done_timeout s
    else allow_send s
await_since false now s = allow_send (start_timeout now s)

-- The case DONE_PENDING, on what `in_resp_q_pop` gives.
pending_on : Option Response × InRespQ → ℕ → System → System × List Effect
unfolding receive allow_send stop_timeout await_since
pending_on (some resp, q) now s =
    let (s', fx) = receive (stop_timeout (record s { in_q = q })) resp in (allow_send s', fx)
pending_on (none, q) now s = (await_since s.worker.timeout_done_started now s, [])

process_pending : ℕ → System → System × List Effect
unfolding pending_on
process_pending now s = pending_on (in_resp_q_pop s.in_q) now s

process_in : WorkerState → Wire → ℕ → System → Status × System × List Effect
unfolding process_idle process_send process_pending error_string
process_in idle w now s = let (s', fx) = process_idle s in (success, s', fx)
process_in send_cmd w now s = let (s', fx) = process_send w s in (success, s', fx)
process_in done_pending w now s = let (s', fx) = process_pending now s in (success, s', fx)
process_in error w now s = (failure, s, serial_error (error_string s.worker.error) ∷ [])

-- One round of the worker, `now` being the time in seconds.
unfoldable pub process : Wire → ℕ → System → Status × System × List Effect
unfolding process_in
process w now s = process_in s.worker.fsm_state w now s
