-- ===== src/Serial/Kept.antt =====
-- What a round of the thread of src/proto_serial.c leaves, and what it gives to the GUI thread.
use ultramat.Base.{
  ℕ, ◌≡◌, refl, ◌∙◌, ap, sym, subst, inl, inr, Option, none, some, Status, success, failure,
  Bool-cases,
}
use ultramat.Proto.{Response}
use ultramat.CommandHandler
use ultramat.CommandHandler.{IdleCall}
use ultramat.Wire.{Wire}
use ultramat.MessageHandler.{System, add_incoming}
use ultramat.MessageHandler.Kept.{process-kept}
use ultramat.MessageHandler.Calls.{calls_in, AllCalls, Gives, process-calls}
use ultramat.Serial.{
  ThreadState, absent, looping, ended, Connection, cancel, thread_cleanup, stop_serial_connection,
  Port, round, poll_port, take_response, process_on, read_response,
}

take_response-commands :
    (resp : Option Response) (s : System) → (take_response resp s).1.commands ≡ s.commands
unfolding take_response add_incoming
take_response-commands none s = refl
take_response-commands (some resp) s = refl

poll_port-commands : (port : Port) (s : System) → (poll_port port s).1.commands ≡ s.commands
unfolding poll_port read_response
poll_port-commands port s = elim (Bool-cases port.polls) [
  | inr quiet ↦ rw quiet
  | inl seen ↦ rw seen (take_response-commands (read_response port) s)
]

process_on-commands :
    (r : Status) (s : System) (w : Wire) (now : ℕ)
    → (process_on (r, s) w now).1.commands ≡ s.commands
unfolding process_on
process_on-commands failure s w now = refl
process_on-commands success s w now = ap (λ k. k.0) (process-kept w now s)

pub round-commands :
    (port : Port) (now : ℕ) (s : System) → (round port now s).1.commands ≡ s.commands
unfolding round
round-commands port now s =
    let (r, t) = poll_port port s in
    process_on-commands r t port.wire now ∙ poll_port-commands port s

process_on-calls :
    (P : IdleCall → Type 0) (r : Status) (s : System) (w : Wire) (now : ℕ)
    → Gives P s
    → AllCalls P (calls_in (process_on (r, s) w now).2)
unfolding process_on
process_on-calls P failure s w now g = tt
process_on-calls P success s w now g = process-calls P w now s g

pub round-calls :
    (P : IdleCall → Type 0) (port : Port) (now : ℕ) (s : System)
    → Gives P s
    → AllCalls P (calls_in (round port now s).2)
unfolding round
round-calls P port now s g =
    let (r, t) = poll_port port s in
    process_on-calls P r t port.wire now (
      subst (λ c. (resp : Response) → AllCalls P (CommandHandler.execute_done c resp).1)
        (sym (poll_port-commands port s)) g)

cancel-system : (t : ThreadState) (w : Wire) (c : Connection) → (cancel t w c).0.system ≡ c.system
unfolding cancel thread_cleanup
cancel-system absent w c = refl
cancel-system looping w c = refl
cancel-system ended w c = refl

pub stop_serial_connection-system :
    (w : Wire) (c : Connection) → (stop_serial_connection w c).0.system ≡ c.system
unfolding stop_serial_connection
stop_serial_connection-system w c = cancel-system c.thread w c
