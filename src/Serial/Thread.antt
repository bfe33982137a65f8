-- ===== src/Serial/Thread.antt =====
-- `proto_comms_serial_thread_func` of src/proto_serial.c keeps the order of the messages.
use ultramat.Base.{
  ℕ, ◌≡◌, refl, sym, ap, ◌∙◌, inl, inr, List, [], ◌∷◌, ◌++◌, Status, success, failure, append_assoc,
  append-nil, Bool-cases, Option-cases, subst,
}
use ultramat.Proto.{Message}
use ultramat.MessageHandler.{
  System, Effect, idle_call, sent, serial_error, process, add_incoming, add_outgoing,
}
use ultramat.MessageHandler.Linked.Outgoing.{numbered}
use ultramat.MessageHandler.Trace.{
  History, Call, adds_incoming, adds_outgoing, sent_by, step, accept, accept-append,
}
use ultramat.MessageHandler.Trace.Order.{Ordered, step-Ordered}
use ultramat.Serial.{
  Port, read_response, take_response, poll_port, process_on, round, Event, rounds, adds,
  after_round, loop,
}

sent_by-append : (a b : List Effect) → sent_by (a ++ b) ≡ sent_by a ++ sent_by b
sent_by-append [] b = refl
sent_by-append (idle_call c ∷ a) b = sent_by-append a b
sent_by-append (sent m ∷ a) b = ap (◌∷◌ m) (sent_by-append a b)
sent_by-append (serial_error e ∷ a) b = sent_by-append a b

if_going_on : Status → List Message → List Message
if_going_on success ms = ms
if_going_on failure ms = []

-- The messages of the GUI thread that are accepted while the loop runs, with their ids.
unfoldable pub accepted_in : List Event → System → List Message
unfolding if_going_on
accepted_in [] s = []
accepted_in (rounds port now ∷ es) s =
    let (r, s', _) = round port now s in if_going_on r (accepted_in es s')
accepted_in (adds m ∷ es) s =
    accept (add_outgoing s m).0 (numbered s m) [] ++ accepted_in es (add_outgoing s m).1

-- A history that goes on: to a system, with what has been accepted and has gone out since.
pub record Onward (h : History) (s : System) (ms : List Message) (fx : List Effect) : Type 0 where
  pub after : History
  pub ordered : Ordered after
  pub system : after.system ≡ s
  pub accepted : after.accepted ≡ h.accepted ++ ms
  pub went_out : after.went_out ≡ h.went_out ++ sent_by fx

process-Onward :
    (r : Status) (s : System) (port : Port) (now : ℕ) (h h' : History)
    → Ordered h'
    → h'.system ≡ s
    → h'.accepted ≡ h.accepted
    → h'.went_out ≡ h.went_out
    → let (_, s', fx) = process_on (r, s) port.wire now in Onward h s' [] fx
unfolding process_on step
process-Onward failure s port now h h' o e a w = record {
  after = h';
  ordered = o;
  system = e;
  accepted = a ∙ sym (append-nil h.accepted);
  went_out = w ∙ sym (append-nil h.went_out);
}
process-Onward success s port now h h' o e a w = record {
  after = step h' (Call.rounds port.wire now);
  ordered = step-Ordered h' (Call.rounds port.wire now) o;
  system = ap (λ t. (process port.wire now t).1) e;
  accepted = a ∙ sym (append-nil h.accepted);
  went_out = rw (w, e) refl;
}

-- What a round of the thread does is what two calls of the message handler do.
round-Onward :
    (port : Port) (now : ℕ) (h : History)
    → Ordered h
    → let (_, s, fx) = round port now h.system in Onward h s [] fx
unfolding round poll_port step read_response
round-Onward port now h o = elim (Bool-cases port.polls) [
  | inr quiet ↦ rw quiet (process-Onward success h.system port now h h o refl refl refl)
  | inl seen ↦ elim (Option-cases (read_response port)) [
    | inl broken ↦
        rw (seen, broken, take_response)
          (process-Onward failure h.system port now h h o refl refl refl)
    | inr (resp, read) ↦
        let (r, s) = add_incoming h.system resp in
        rw (seen, read, take_response)
          (process-Onward r s port now h (step h (adds_incoming resp))
            (step-Ordered h (adds_incoming resp) o) refl refl refl)
  ]
]

Onward-append :
    (h : History) (s t : System) (ms : List Message) (fx fx' : List Effect) (a : Onward h s [] fx)
    → Onward a.after t ms fx'
    → Onward h t ms (fx ++ fx')
Onward-append h s t ms fx fx' a b = record {
  after = b.after;
  ordered = b.ordered;
  system = b.system;
  accepted = b.accepted ∙ ap (λ (l : List Message). l ++ ms) (a.accepted ∙ append-nil h.accepted);
  went_out =
      b.went_out
      ∙ ap (λ (l : List Message). l ++ sent_by fx') a.went_out
      ∙ append_assoc h.went_out (sent_by fx) (sent_by fx')
      ∙ ap (◌++◌ h.went_out) (sym (sent_by-append fx fx'));
}

after_round-Onward :
    (r : Status) (h : History) (s : System) (fx : List Effect) (k : System → System × List Effect)
    (m : System → List Message)
    → Onward h s [] fx
    → ((h' : History) → Ordered h' → Onward h' (k h'.system).0 (m h'.system) (k h'.system).1)
    → Onward h (after_round (r, s, fx) k).0 (if_going_on r (m s)) (after_round (r, s, fx) k).1
unfolding after_round if_going_on
after_round-Onward failure h s fx k m a goes_on = a
after_round-Onward success h s fx k m a goes_on =
    Onward-append h s (k s).0 (m s) fx (k s).1 a
      (subst (λ t. Onward a.after (k t).0 (m t) (k t).1) a.system (goes_on a.after a.ordered))

-- The thread is in its loop, and the GUI thread adds messages, in any order of the rounds and the
-- messages, whatever comes from the port. Before, the messages accepted were those that went out, then
-- at most one that could not be sent, which has stopped the worker, and then those that are queued. So
-- it is after the loop too, with the messages in one order: those that went out are those before and
-- those that the loop has sent, those accepted are those before and just those that the message
-- handler took meanwhile, and the queue is that of the system which the loop leaves.
pub loop-Onward :
    (es : List Event) (h : History)
    → Ordered h
    → let (s, fx) = loop es h.system in Onward h s (accepted_in es h.system) fx
unfolding loop step accepted_in
loop-Onward [] h o = record {
  after = h;
  ordered = o;
  system = refl;
  accepted = sym (append-nil h.accepted);
  went_out = sym (append-nil h.went_out);
}
loop-Onward (rounds port now ∷ es) h o =
    let (r, s, fx) = round port now h.system in
    after_round-Onward r h s fx (λ t. loop es t) (λ t. accepted_in es t) (round-Onward port now h o)
      (λ h' o'. loop-Onward es h' o')
loop-Onward (adds m ∷ es) h o =
    let n = loop-Onward es (step h (adds_outgoing m)) (step-Ordered h (adds_outgoing m) o) in
    let (r, s) = add_outgoing h.system m in
    let number : Message = numbered h.system m in
    record {
      after = n.after;
      ordered = n.ordered;
      system = n.system;
      accepted =
          n.accepted
          ∙ ap (λ (l : List Message). l ++ accepted_in es s) (accept-append r number h.accepted)
          ∙ append_assoc h.accepted (accept r number []) (accepted_in es s);
      went_out = n.went_out;
    }
