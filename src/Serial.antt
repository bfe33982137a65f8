-- ===== src/Serial.antt =====
-- The thread and the connection of src/proto_serial.c, over the serial port (c-periphery), the
-- decoder (nanopb) and the threads of POSIX.
pub mod Thread
pub mod Lifecycle
pub mod Kept
use ultramat.Base.{
  ℕ, ◌+◌, Bool, true, false, List, [], ◌∷◌, ◌++◌, Option, none, some, Status, success, failure,
  if◌then◌else◌,
}
use ultramat.Proto.{Message, Response, hello_there, stop, stop_default, message_init_zero}
use ultramat.Wire.{Wire, send_msg}
use ultramat.MessageHandler.{System, Effect, sent, init, add_incoming, add_outgoing, process}

-- What the port answers in a round: whether `serial_poll` sees bytes, what `serial_read` gives
-- (`none` if it fails), what `pb_decode` makes of bytes, and how a message can be sent.
pub record Port : Type 0 where
  pub polls : Bool
  pub read : Option (List ℕ)
  pub decode : List ℕ → Option Response
  pub wire : Wire

-- `proto_comms_read_response`; `none` is a negative return value.
unfoldable pub read_response : Port → Option Response
read_response port = elim (port.read) [ none ↦ none | some bytes ↦ port.decode bytes ]

-- A response that was read, or not, is added to the system.
unfoldable pub take_response : Option Response → System → Status × System
take_response none s = (failure, s)
take_response (some resp) s = add_incoming s resp

-- The first half of a round.
unfoldable pub poll_port : Port → System → Status × System
unfolding take_response
poll_port port s = if port.polls then take_response (read_response port) s else (success, s)

-- The second half, which a failure in the first skips.
unfoldable pub process_on : Status × System → Wire → ℕ → Status × System × List Effect
process_on (failure, s) w now = (failure, s, [])
process_on (success, s) w now = process w now s

-- A round of the loop of `proto_comms_serial_thread_func`; on a failure the loop ends.
unfoldable pub round : Port → ℕ → System → Status × System × List Effect
unfolding poll_port process_on
round port now s = process_on (poll_port port s) port.wire now

-- What happens while the loop runs: its rounds, and messages that the GUI thread adds.
pub data Event : Type 0 where
  rounds : Port → ℕ → Event
  adds : Message → Event

after_round : Status × System × List Effect → (System → System × List Effect) → System × List Effect
after_round (failure, s, fx) k = (s, fx)
after_round (success, s, fx) k = let (s', fx') = k s in (s', fx ++ fx')

-- The loop, up to its end or as far as the events go.
unfoldable pub loop : List Event → System → System × List Effect
unfolding after_round
loop [] s = (s, [])
loop (rounds port now ∷ es) s = after_round (round port now s) (λ s'. loop es s')
loop (adds m ∷ es) s = loop es (add_outgoing s m).1

-- `ser_`: a null pointer, a new handle, or one with an open port.
pub data Handle : Type 0 where
  null allocated opened : Handle

pub data ThreadState : Type 0 where
  absent looping ended : ThreadState

-- The static variables, the state of the thread, and how many ports were open when their handle was
-- freed or overwritten.
pub record Connection : Type 0 where
  pub ser : Handle
  pub thread_running : Bool
  pub thread : ThreadState
  pub left_open : ℕ
  pub system : System

-- What `serial_new`, `serial_open` and `pthread_create` answer.
pub record Answers : Type 0 where
  pub allocates : Bool
  pub opens : Bool
  pub creates : Bool

abbrev pub open_count : Handle → ℕ
open_count null = 0
open_count allocated = 0
open_count opened = 1

-- An assignment to `ser_`, FREE_SERIAL_HANDLE included: the handle that it held is given up.
abbrev pub set_handle : Handle → Connection → Connection
set_handle h c = record c { ser = h; left_open = c.left_open + open_count c.ser }

-- The start of `proto_comms_serial_thread_func`: the first message is queued.
unfoldable pub thread_start : Connection → Connection
thread_start c = record c {
  thread = looping;
  thread_running = true;
  system = (add_outgoing c.system (record message_init_zero { type = hello_there })).1;
}

-- `serial_new`, `serial_open`, `message_handler_init`, which never fails, and `pthread_create`, with
-- the new thread up to its loop.
unfoldable pub start_serial_connection : Answers → Connection → Status × Connection
start_serial_connection a c =
    if a.allocates
    then (if a.opens
        then (let ready = record (record (set_handle allocated c) { ser = opened }) {
          system = init c.system;
        } in
            if a.creates then (success, thread_start ready) else (failure, set_handle null ready))
        else (failure, set_handle null (set_handle allocated c)))
    else (failure, set_handle null c)

abbrev pub stop_message : Message
stop_message = record message_init_zero { type = stop; payload = stop_default true }

sent_if : Status → Message → List Effect
sent_if success m = sent m ∷ []
sent_if failure m = []

-- `proto_comms_serial_thread_cleanup`. The port is closed before its handle is freed.
unfoldable pub thread_cleanup : Wire → Connection → Connection × List Effect
unfolding sent_if
thread_cleanup w c = (
  record c { thread_running = false; ser = null },
  sent_if (send_msg w stop_message) stop_message,
)

-- `pthread_cancel` runs the clean-up of a thread in its loop, between rounds; a thread that has ended
-- has none. `pthread_join` waits for it.
cancel : ThreadState → Wire → Connection → Connection × List Effect
cancel looping w c = thread_cleanup w c
cancel ended w c = (c, [])
cancel absent w c = (c, [])

-- `proto_comms_stop_serial_connection`
unfoldable pub stop_serial_connection : Wire → Connection → Connection × List Effect
unfolding cancel
stop_serial_connection w c =
    let (c', fx) = cancel c.thread w c in (record c' { thread = absent }, fx)

thread_after : Status → ThreadState
thread_after success = looping
thread_after failure = ended

-- A round of the thread. At its end the clean-up is taken off without being run.
unfoldable pub thread_round : Port → ℕ → Connection → Connection × List Effect
unfolding thread_after
thread_round port now c =
    let (r, s, fx) = round port now c.system in
    (record c { system = s; thread = thread_after r }, fx)
