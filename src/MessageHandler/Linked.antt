-- ===== src/MessageHandler/Linked.antt =====
-- src/message_handler.c: how the ring of pending ids, the queue of outgoing messages and the state
-- of the worker belong together.
pub mod Rounds
pub mod Outgoing
use ultramat.Base.{
  ℕ, ◌≡◌, ◌≢◌, refl, sym, ap, ◌∙◌, ◌⊎◌, inl, inr, List, [], ◌∷◌, ◌++◌, map, Bool-cases, u8, ◌==◌,
  true, false, if◌then◌else◌,
}
use ultramat.Fifo
use ultramat.Ring
use ultramat.Ring.Bounds
use ultramat.Ring.Bounds.{init-IsValid}
use ultramat.Ring.Refine.{contents, contents-init, is_empty_refines}
use ultramat.Ring.Cases.{pop_cases}
use ultramat.Proto.{Message, Response, ResponseType, message_init_zero, response_init_zero}
use ultramat.CommandHandler.Lookup
use ultramat.MessageHandler.{
  System, WorkerState, idle, send_cmd, done_pending, error, set_state, set_error, init, allow_send,
  take_done, done_awaited, or_zero, incoming, receive, Effect, ErrorType, unknown_msg, ooo_done,
  ooo_msg, recieved_err,
}

abbrev pub pending_ids : System → List ℕ
pending_ids s = contents 0 s.worker.pending_dones

abbrev pub queued : System → List Message
queued s = contents message_init_zero s.out_q

abbrev pub ids : List Message → List ℕ
ids = map (λ m. m.id)

-- What each state of the worker says of the ids that await a done and of the messages queued.
abbrev pub Phase : WorkerState → List ℕ → List Message → Type 0
Phase idle awaiting out = awaiting ≡ []
Phase send_cmd awaiting out = out ≢ []
Phase done_pending awaiting out = awaiting ≢ []
Phase error awaiting out = Unit

-- In the middle of a round, while DONE_PENDING may stand for queued messages alone.
abbrev Settling : WorkerState → List ℕ → List Message → Type 0
Settling idle awaiting out = awaiting ≡ []
Settling send_cmd awaiting out = out ≢ []
Settling done_pending awaiting out = (awaiting ≢ []) ⊎ (out ≢ [])
Settling error awaiting out = Unit

-- The three rings are valid, and the pending ids are some ids that await a done, followed by those
-- of the queued messages, in their order.
pub record LinkedBy (P : WorkerState → List ℕ → List Message → Type 0) (s : System) : Type 0 where
  pub pending_IsValid : Bounds.IsValid s.worker.pending_dones
  pub in_IsValid : Bounds.IsValid s.in_q
  pub out_IsValid : Bounds.IsValid s.out_q
  pub awaiting : List ℕ
  pub split : pending_ids s ≡ awaiting ++ ids (queued s)
  pub phase : P s.worker.fsm_state awaiting (queued s)

abbrev pub Linked : System → Type 0
Linked s = LinkedBy Phase s

pub queued-init : (s : System) → queued (init s) ≡ []
unfolding init
queued-init s = contents-init message_init_zero

-- A change of the worker's state alone.
restate :
    {P Q : WorkerState → List ℕ → List Message → Type 0} {s : System} (st : WorkerState)
    (l : LinkedBy P s)
    → Q st l.awaiting (queued s)
    → LinkedBy Q (set_state st s)
restate st l q = record {
  pending_IsValid = l.pending_IsValid;
  in_IsValid = l.in_IsValid;
  out_IsValid = l.out_IsValid;
  awaiting = l.awaiting;
  split = l.split;
  phase = q;
}

pub init-Linked : (s : System) → Linked (init s)
unfolding init
init-Linked s = record {
  pending_IsValid = init-IsValid 0;
  in_IsValid = init-IsValid response_init_zero;
  out_IsValid = init-IsValid message_init_zero;
  awaiting = [];
  split = contents-init 0 ∙ sym (ap ids (contents-init message_init_zero));
  phase = refl;
}

nil_of_is_empty {ℓ} : {A : Type ℓ} (l : List A) → Fifo.is_empty l ≡ true → l ≡ []
nil_of_is_empty [] e = refl
nil_of_is_empty (x ∷ l) e = cc

ne_nil_of_is_empty {ℓ} : {A : Type ℓ} (l : List A) → Fifo.is_empty l ≡ false → l ≢ []
ne_nil_of_is_empty [] e = cc
ne_nil_of_is_empty (x ∷ l) e = λ n. cc

Settling-Phase :
    (st : WorkerState) (awaiting : List ℕ) (out : List Message)
    → out ≡ []
    → Settling st awaiting out
    → Phase st awaiting out
Settling-Phase idle awaiting out e h = h
Settling-Phase send_cmd awaiting out e h = h
Settling-Phase done_pending awaiting out e (inl h) = h
Settling-Phase done_pending awaiting out e (inr h) = absurd (h e)
Settling-Phase error awaiting out e h = tt

fail :
    {P Q : WorkerState → List ℕ → List Message → Type 0} {s : System} (e : ErrorType)
    → (l : LinkedBy P s) → Q error l.awaiting (queued s)
    → LinkedBy Q (set_error e s)
fail e l q = record {
  pending_IsValid = l.pending_IsValid;
  in_IsValid = l.in_IsValid;
  out_IsValid = l.out_IsValid;
  awaiting = l.awaiting;
  split = l.split;
  phase = q;
}

-- With a message queued the worker goes on to send it, and else it stays.
allow_send-Linked : {s : System} → LinkedBy Settling s → Linked (allow_send s)
unfolding allow_send
allow_send-Linked {s} l = elim (Bool-cases (Ring.is_empty s.out_q)) [
  | inl gone ↦ rw gone (
      restate s.worker.fsm_state l (
        Settling-Phase s.worker.fsm_state l.awaiting (queued s)
          (nil_of_is_empty (queued s)
            (sym (is_empty_refines message_init_zero l.out_IsValid) ∙ gone))
          l.phase))
  | inr left ↦ rw left (
      restate send_cmd l (
        ne_nil_of_is_empty (queued s)
          (sym (is_empty_refines message_init_zero l.out_IsValid) ∙ left)))
]

-- The first of the pending ids is that of the oldest message that awaits a done.
record Oldest (first : ℕ) (rest awaiting : List ℕ) (out : List ℕ) : Type 0 where
  later : List ℕ
  awaited : awaiting ≡ first ∷ later
  left : rest ≡ later ++ out

Oldest-first :
    (first : ℕ) (rest awaiting out : List ℕ)
    → awaiting ≢ []
    → first ∷ rest ≡ awaiting ++ out
    → Oldest first rest awaiting out
Oldest-first first rest [] out ne e = absurd (ne refl)
Oldest-first first rest (a ∷ awaiting) out ne e = record {
  later = awaiting;
  awaited = cc;
  left = cc;
}

Settling-rest :
    (rest later : List ℕ) (out : List Message)
    → rest ≡ later ++ ids out
    → Settling (if Fifo.is_empty rest then idle else done_pending) later out
Settling-rest [] [] out e = refl
Settling-rest [] (a ∷ later) out e = cc
Settling-rest (x ∷ rest) [] [] e = cc
Settling-rest (x ∷ rest) [] (m ∷ out) e = inr (λ n. cc)
Settling-rest (x ∷ rest) (a ∷ later) out e = inl (λ n. cc)

abbrev settled : WorkerState × System × List Effect → System
settled r = set_state r.0 r.1

nil_of_append : (awaiting out : List ℕ) → [] ≡ awaiting ++ out → awaiting ≡ []
nil_of_append [] out e = refl
nil_of_append (a ∷ awaiting) out e = cc

take_done-Settling :
    {s : System} (resp : Response)
    → (l : LinkedBy Phase s) → l.awaiting ≢ []
    → LinkedBy Settling (settled (take_done s resp))
unfolding take_done
take_done-Settling {s} resp l ne = elim (pop_cases 0 l.pending_IsValid) [
  | inl p ↦
      let o =
        Oldest-first p.first (contents 0 p.rest) l.awaiting (ids (queued s)) ne
          (sym p.taken ∙ l.split) in
      rw (p.result, is_empty_refines 0 p.rest_IsValid)
        (record {
          pending_IsValid = p.rest_IsValid;
          in_IsValid = l.in_IsValid;
          out_IsValid = l.out_IsValid;
          awaiting = o.later;
          split = o.left;
          phase = Settling-rest (contents 0 p.rest) o.later (queued s) o.left;
        })
  | inr d ↦ absurd (ne (nil_of_append l.awaiting (ids (queued s)) (sym d.gone ∙ l.split)))
]

done_awaited-Settling :
    {s : System} (resp : Response)
    → (l : LinkedBy Phase s) → l.awaiting ≢ []
    → LinkedBy Settling (settled (done_awaited s resp))
unfolding done_awaited
done_awaited-Settling {s} resp l ne =
    elim (Bool-cases (or_zero (Ring.peek 0 s.worker.pending_dones) == u8 resp.id)) [
      | inl same ↦ rw same (take_done-Settling resp l ne)
      | inr other ↦ rw other (fail ooo_done l tt)
    ]

-- Whatever the response, the pending ids stay linked to the queue.
incoming-Settling :
    (type : ResponseType) (st : WorkerState) {s : System} (resp : Response)
    → (l : LinkedBy Phase s) → Phase st l.awaiting (queued s)
    → LinkedBy Settling (settled (incoming type st s resp))
unfolding incoming
incoming-Settling ResponseType.done done_pending resp l h = done_awaited-Settling resp l h
incoming-Settling ResponseType.done idle resp l h = fail ooo_msg l tt
incoming-Settling ResponseType.done send_cmd resp l h = fail ooo_msg l tt
incoming-Settling ResponseType.done error resp l h = fail ooo_msg l tt
incoming-Settling ResponseType.error st resp l h = fail recieved_err l tt
incoming-Settling ResponseType.emergency_stop idle resp l h = restate idle l h
incoming-Settling ResponseType.emergency_stop send_cmd resp l h = restate send_cmd l h
incoming-Settling ResponseType.emergency_stop done_pending resp l h = restate done_pending l (inl h)
incoming-Settling ResponseType.emergency_stop error resp l h = restate error l tt
incoming-Settling ResponseType.rsp_undefined st resp l h = fail unknown_msg l tt
incoming-Settling (ResponseType.unrecognized n) st resp l h = fail unknown_msg l tt

pub receive-Settling :
    {s : System} (resp : Response) → Linked s → LinkedBy Settling (receive s resp).0
unfolding receive
receive-Settling {s} resp l = incoming-Settling resp.type s.worker.fsm_state resp l l.phase
