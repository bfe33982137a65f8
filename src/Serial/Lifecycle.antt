-- ===== src/Serial/Lifecycle.antt =====
-- The connection of src/proto_serial.c over its life: start, the thread, stop.
use ultramat.Base.{
  ℕ, ◌+◌, ◌≡◌, refl, ap, ◌⊎◌, inl, inr, Bool, true, false, List, [], Status, success, failure,
  arith, Bool-cases, Status-cases, ◌<◌, Option, none, some, ◌&&◌, if◌then◌else◌,
}
use ultramat.Proto.{Message, Response, hello_there, message_init_zero}
use ultramat.Wire.{Wire}
use ultramat.MessageHandler.{System, Effect, add_incoming}
use ultramat.MessageHandler.Linked.Rounds.{process-Linked, add_incoming-Linked}
use ultramat.MessageHandler.Linked.{Linked, init-Linked}
use ultramat.MessageHandler.Linked.Outgoing.{add_outgoing-Linked}
use ultramat.Serial.{
  null, opened, Connection, looping, ended, Answers, Port, round, thread_round, thread_cleanup,
  stop_serial_connection, start_serial_connection, thread_start, open_count, take_response,
  process_on, poll_port, read_response, cancel, thread_after,
}

abbrev hello : Message
hello = record message_init_zero { type = hello_there }

-- The thread is in its loop, on an open port.
pub record Live (c : Connection) : Type 0 where
  pub port : c.ser ≡ opened
  pub running : c.thread_running ≡ true
  pub thread : c.thread ≡ looping
  pub linked : Linked c.system

-- What a start can come to. A failure leaves no handle and no new thread; the port that it opened is
-- left open if it was the thread that could not be created.
pub record Failed (a : Answers) (c c' : Connection) : Type 0 where
  pub no_handle : c'.ser ≡ null
  pub thread_kept : c'.thread ≡ c.thread
  pub left_open :
      c'.left_open ≡ c.left_open + open_count c.ser + (if a.allocates && a.opens then 1 else 0)

pub record Started (c c' : Connection) : Type 0 where
  pub live : Live c'
  pub left_open : c'.left_open ≡ c.left_open + open_count c.ser

-- What a start comes to, by whether everything that it asks for is given.
abbrev pub StartEnds : Bool → Answers → Connection → Status × Connection → Type 0
StartEnds true a c (r, c') = (r ≡ success) × Started c c'
StartEnds false a c (r, c') = (r ≡ failure) × Failed a c c'

-- A start for which the handle is allocated, the port opened and the thread created succeeds and brings
-- a live connection. Any other fails, leaves no handle and no new thread, and leaves its own port open
-- just if it could be opened, so that it was the thread that could not be created. A port that was
-- open before is left open.
pub start_serial_connection_cases :
    (a : Answers) (c : Connection)
    → StartEnds (a.allocates && (a.opens && a.creates)) a c (start_serial_connection a c)
unfolding start_serial_connection thread_start
start_serial_connection_cases a c = elim (Bool-cases a.allocates) [
  | inr no_handle ↦
      rw no_handle (refl, record { no_handle = refl; thread_kept = refl; left_open = omega arith })
  | inl handle ↦ elim (Bool-cases a.opens) [
    | inr no_port ↦
        rw (handle, no_port)
          (refl, record { no_handle = refl; thread_kept = refl; left_open = omega arith })
    | inl port ↦ elim (Bool-cases a.creates) [
      | inr no_thread ↦
          rw (handle, port, no_thread)
            (refl, record { no_handle = refl; thread_kept = refl; left_open = refl })
      | inl thread ↦
          rw (handle, port, thread)
            (
              refl,
              record {
                live = record {
                  port = refl;
                  running = refl;
                  thread = refl;
                  linked = add_outgoing-Linked hello (init-Linked c.system);
                };
                left_open = refl;
              },
            )
    ]
  ]
]

StartEnds-either :
    (ok : Bool) (a : Answers) (c : Connection) (r : Status × Connection)
    → StartEnds ok a c r
    → ((r.0 ≡ success) × Started c r.1) ⊎ ((r.0 ≡ failure) × Failed a c r.1)
StartEnds-either true a c r e = inl e
StartEnds-either false a c r e = inr e

-- Whatever is given, a start succeeds or fails as a whole.
pub start_serial_connection_either :
    (a : Answers) (c : Connection)
    → let (r, c') = start_serial_connection a c in
      ((r ≡ success) × Started c c') ⊎ ((r ≡ failure) × Failed a c c')
start_serial_connection_either a c =
    StartEnds-either (a.allocates && (a.opens && a.creates)) a c (start_serial_connection a c)
      (start_serial_connection_cases a c)

take_response-Linked :
    (resp : Option Response) {s : System} → Linked s → Linked (take_response resp s).1
unfolding take_response add_incoming
take_response-Linked none l = l
take_response-Linked (some resp) l = add_incoming-Linked resp l

process_on-Linked :
    (r : Status) (w : Wire) (now : ℕ) {s : System} → Linked s → Linked (process_on (r, s) w now).1
unfolding process_on
process_on-Linked failure w now l = l
process_on-Linked success w now l = process-Linked w now l

pub round-Linked : (port : Port) (now : ℕ) {s : System} → Linked s → Linked (round port now s).1
unfolding round poll_port read_response
round-Linked port now {s} l = elim (Bool-cases port.polls) [
  | inr quiet ↦ rw quiet (process_on-Linked success port.wire now l)
  | inl seen ↦ rw seen (
      process_on-Linked (take_response (read_response port) s).0 port.wire now
        (take_response-Linked (read_response port) l))
]

-- The user switches the machine off while the thread runs.
pub record Closed (c c' : Connection) : Type 0 where
  pub no_handle : c'.ser ≡ null
  pub not_running : c'.thread_running ≡ false
  pub left_open : c'.left_open ≡ c.left_open

-- The thread has ended by itself: switching off sends nothing, and the program goes on to think that
-- the thread runs, with the port open, which the next start leaves open.
pub record Stuck (c c' : Connection) (fx : List Effect) : Type 0 where
  pub thread : c.thread ≡ ended
  pub port : c'.ser ≡ opened
  pub running : c'.thread_running ≡ true
  pub no_stop : fx ≡ []
  pub next_start : (a : Answers) → c.left_open < (start_serial_connection a c').1.left_open

start_leaves_open :
    (a : Answers) (c : Connection)
    → c.ser ≡ opened
    → c.left_open < (start_serial_connection a c).1.left_open
start_leaves_open a c e = elim (start_serial_connection_either a c) [
  | inl (_, started) ↦ omega (arith, started.left_open, ap open_count e)
  | inr (_, failed) ↦ omega (arith, failed.left_open, ap open_count e)
]

-- What a round of a live thread comes to, by its result, before and after the user switches off.
abbrev pub RoundEnds : Status → Connection → Connection → List Effect → Type 0
RoundEnds success c c' fx = Live c × Closed c c'
RoundEnds failure c c' fx = Stuck c c' fx

-- A live thread makes a round, and then the user switches off. If the round succeeds, the thread is
-- still live, and switching off closes the port. If it fails, the thread has ended, switching off
-- does nothing, and the port stays open.
pub thread_round_cases :
    (port : Port) (now : ℕ) (w : Wire) (c : Connection)
    → Live c
    → let (c', _) = thread_round port now c in
      let (c'', fx) = stop_serial_connection w c' in RoundEnds (round port now c.system).0 c' c'' fx
unfolding thread_round thread_after stop_serial_connection cancel thread_cleanup
thread_round_cases port now w c l = elim (Status-cases (round port now c.system).0) [
  | inl good ↦ rw good (
    record {
      port = l.port;
      running = l.running;
      thread = refl;
      linked = round-Linked port now l.linked;
    },
    record { no_handle = refl; not_running = refl; left_open = refl },
  )
  | inr bad ↦ rw bad (record {
    thread = refl;
    port = l.port;
    running = l.running;
    no_stop = refl;
    next_start = λ a. start_leaves_open a _ l.port;
  })
]
