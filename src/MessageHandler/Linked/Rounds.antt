-- ===== src/MessageHandler/Linked/Rounds.antt =====
-- src/message_handler.c: every call of the module keeps the pending ids linked to the messages.
use ultramat.Base.{
  ℕ, ◌+◌, ◌≡◌, ◌≢◌, refl, sym, ap, ◌∙◌, inl, inr, List, [], ◌∷◌, ◌++◌, Status, success, failure,
  append_assoc, Bool-cases, true, false, Bool, ltb, subst,
}
use ultramat.Ring
use ultramat.Ring.Bounds.{push-IsValid}
use ultramat.Ring.Refine.{contents}
use ultramat.Ring.Cases.{pop_cases}
use ultramat.Proto.{Message, Response, ResponseType, message_init_zero, response_init_zero}
use ultramat.Wire.{Wire, send_msg}
use ultramat.MessageHandler.{
  System, WorkerState, idle, send_cmd, done_pending, error, set_state, unknown_msg, ooo_msg,
  recieved_err, done_timeout, incoming, receive, idle_on, send_on, send_result, pending_on,
  process_idle, process_send, process_pending, process_in, process, await_since, start_timeout,
  stop_timeout, add_incoming,
}
use ultramat.MessageHandler.Linked.{
  Linked, LinkedBy, Phase, Settling, queued, ids, settled, restate, fail, receive-Settling,
  allow_send-Linked,
}

-- A response that comes while nothing is awaited is an error, or stops nothing.
incoming_idle-Linked :
    (type : ResponseType) {s : System} (resp : Response)
    → (l : Linked s) → l.awaiting ≡ []
    → Linked (settled (incoming type idle s resp))
unfolding incoming
incoming_idle-Linked ResponseType.done resp l h = fail ooo_msg l tt
incoming_idle-Linked ResponseType.error resp l h = fail recieved_err l tt
incoming_idle-Linked ResponseType.emergency_stop resp l h = restate idle l h
incoming_idle-Linked ResponseType.rsp_undefined resp l h = fail unknown_msg l tt
incoming_idle-Linked (ResponseType.unrecognized n) resp l h = fail unknown_msg l tt

-- The system with another queue of responses.
received :
    {s : System} (q : Ring.Ring Response)
    → Ring.Bounds.IsValid q
    → Linked s
    → Linked (record s { in_q = q })
received q v l = record {
  pending_IsValid = l.pending_IsValid;
  in_IsValid = v;
  out_IsValid = l.out_IsValid;
  awaiting = l.awaiting;
  split = l.split;
  phase = l.phase;
}

Phase-at :
    {s : System} (st : WorkerState) (l : Linked s)
    → s.worker.fsm_state ≡ st
    → Phase st l.awaiting (queued s)
Phase-at {s} st l e = subst (λ x. Phase x l.awaiting (queued s)) e l.phase

settling :
    (st : WorkerState) (awaiting : List ℕ) (out : List Message)
    → Phase st awaiting out
    → Settling st awaiting out
settling idle awaiting out h = h
settling send_cmd awaiting out h = h
settling done_pending awaiting out h = inl h
settling error awaiting out h = tt

Linked-Settling : {s : System} → Linked s → LinkedBy Settling s
Linked-Settling {s} l =
    restate s.worker.fsm_state l (settling s.worker.fsm_state l.awaiting (queued s) l.phase)

idle_on-Linked :
    {s : System}
    → Linked s
    → s.worker.fsm_state ≡ idle
    → Linked (idle_on (Ring.pop response_init_zero s.in_q) s).0
unfolding idle_on receive received
idle_on-Linked {s} l e = elim (pop_cases response_init_zero l.in_IsValid) [
  | inl p ↦ rw p.result (
      subst (λ st. Linked (settled (incoming p.first.type st (record s { in_q = p.rest }) p.first)))
        (sym e)
        (incoming_idle-Linked p.first.type p.first (received p.rest p.rest_IsValid l)
          (Phase-at idle l e)))
  | inr d ↦ rw d.result (allow_send-Linked (Linked-Settling l))
]

-- Taking a message from the queue moves its id to those that await a done.
sent_off :
    {s : System} (st : WorkerState) (q : Ring.Ring Message) (m : Message)
    → (l : Linked s) → Ring.Bounds.IsValid q
    → queued s ≡ m ∷ contents message_init_zero q
    → Phase st (l.awaiting ++ (m.id ∷ [])) (contents message_init_zero q)
    → Linked (set_state st (record s { out_q = q }))
sent_off {s} st q m l v e h = record {
  pending_IsValid = l.pending_IsValid;
  in_IsValid = l.in_IsValid;
  out_IsValid = v;
  awaiting = l.awaiting ++ (m.id ∷ []);
  split = l.split ∙ ap (λ ms. l.awaiting ++ ids ms) e ∙ sym (append_assoc l.awaiting _ _);
  phase = h;
}

snoc_ne_nil : (xs : List ℕ) (x : ℕ) → xs ++ (x ∷ []) ≢ []
snoc_ne_nil [] x e = cc
snoc_ne_nil (y ∷ xs) x e = cc

send_result-Linked :
    (r : Status) {s : System} (q : Ring.Ring Message) (m : Message)
    → (l : Linked s) → Ring.Bounds.IsValid q
    → queued s ≡ m ∷ contents message_init_zero q
    → Linked (send_result r m (record s { out_q = q })).0
unfolding send_result
send_result-Linked success q m l v e = sent_off done_pending q m l v e (snoc_ne_nil l.awaiting m.id)
send_result-Linked failure q m l v e = sent_off error q m l v e tt

send_on-Linked :
    {s : System} (w : Wire) → Linked s → Linked (send_on (Ring.pop message_init_zero s.out_q) w s).0
unfolding send_on
send_on-Linked {s} w l = elim (pop_cases message_init_zero l.out_IsValid) [
  | inl p ↦
      rw p.result (send_result-Linked (send_msg w p.first) p.rest p.first l p.rest_IsValid p.taken)
  | inr d ↦ rw d.result (restate error l tt)
]

started :
    {P : WorkerState → List ℕ → List Message → Type 0} {s : System} (now : ℕ)
    → LinkedBy P s
    → LinkedBy P (start_timeout now s)
unfolding start_timeout
started now l = record {
  pending_IsValid = l.pending_IsValid;
  in_IsValid = l.in_IsValid;
  out_IsValid = l.out_IsValid;
  awaiting = l.awaiting;
  split = l.split;
  phase = l.phase;
}

pub stopped :
    {s : System} (q : Ring.Ring Response)
    → Ring.Bounds.IsValid q
    → Linked s
    → Linked (stop_timeout (record s { in_q = q }))
unfolding stop_timeout
stopped q v l = record {
  pending_IsValid = l.pending_IsValid;
  in_IsValid = v;
  out_IsValid = l.out_IsValid;
  awaiting = l.awaiting;
  split = l.split;
  phase = l.phase;
}

await_since-Linked : (on : Bool) {s : System} (now : ℕ) → Linked s → Linked (await_since on now s)
unfolding await_since
await_since-Linked true {s} now l = elim (Bool-cases (ltb (s.worker.timestamp_done + 90) now)) [
  | inl late ↦ rw late (fail done_timeout l tt)
  | inr early ↦ rw early (allow_send-Linked (Linked-Settling l))
]
await_since-Linked false now l = allow_send-Linked (Linked-Settling (started now l))

pending_on-Linked :
    {s : System} (now : ℕ)
    → Linked s
    → Linked (pending_on (Ring.pop response_init_zero s.in_q) now s).0
unfolding pending_on
pending_on-Linked {s} now l = elim (pop_cases response_init_zero l.in_IsValid) [
  | inl p ↦
      rw p.result (allow_send-Linked (receive-Settling p.first (stopped p.rest p.rest_IsValid l)))
  | inr d ↦ rw d.result (await_since-Linked s.worker.timeout_done_started now l)
]

process_in-Linked :
    (st : WorkerState) (w : Wire) (now : ℕ) {s : System}
    → s.worker.fsm_state ≡ st
    → Linked s
    → Linked (process_in st w now s).1
unfolding process_in process_idle process_send process_pending
process_in-Linked idle w now e l = idle_on-Linked l e
process_in-Linked send_cmd w now e l = send_on-Linked w l
process_in-Linked done_pending w now e l = pending_on-Linked now l
process_in-Linked error w now e l = l

-- Whatever arrived, whether or not the message can be sent, and at any time, a round of the worker
-- keeps the pending ids linked to the messages.
pub process-Linked : {s : System} (w : Wire) (now : ℕ) → Linked s → Linked (process w now s).1
unfolding process
process-Linked {s} w now l = process_in-Linked s.worker.fsm_state w now refl l

pub add_incoming-Linked : {s : System} (resp : Response) → Linked s → Linked (add_incoming s resp).1
unfolding add_incoming
add_incoming-Linked {s} resp l =
    received (Ring.push s.in_q resp).1 (push-IsValid resp l.in_IsValid) l
