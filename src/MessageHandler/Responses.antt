-- ===== src/MessageHandler/Responses.antt =====
-- src/message_handler.c: what the worker makes of a response while it awaits a done, of a missing
-- response, and of a message that cannot be sent.
pub mod Done
pub mod Foreign
pub mod Timeout
use ultramat.Base.{
  ℕ, ◌≡◌, refl, ap, ◌∙◌, inl, inr, List, ◌∷◌, success, Bool-cases, Bool, false, some, if◌then◌else◌,
}
use ultramat.Fifo
use ultramat.Ring
use ultramat.Ring.Refine.{contents, is_empty_refines}
use ultramat.Ring.Cases.{pop_cases}
use ultramat.Ring.Bounds.{IsValid}
use ultramat.Proto.{Response, message_init_zero, response_init_zero}
use ultramat.Queue.{InRespQ}
use ultramat.CommandHandler
use ultramat.Wire.{Wire}
use ultramat.MessageHandler.{
  System, WorkerState, send_cmd, done_pending, error, process, process_in, process_pending,
  pending_on, allow_send, stop_timeout, receive,
}
use ultramat.MessageHandler.Linked.{queued}

abbrev pub responses : System → List Response
responses s = contents response_init_zero s.in_q

-- A round in a given state.
process-at :
    (st : WorkerState) (w : Wire) (now : ℕ) (s : System)
    → s.worker.fsm_state ≡ st
    → process w now s ≡ process_in st w now s
unfolding process
process-at st w now s e = ap (λ x. process_in x w now s) e

-- The system behind a response, once the worker has taken it and stopped its timeout.
abbrev taken : System → InRespQ → System
taken s q = record s { in_q = q; worker = record (s.worker) { timeout_done_started = false } }

pending-first :
    (s : System) (w : Wire) (now : ℕ) {resp : Response} {rest : InRespQ}
    → s.worker.fsm_state ≡ done_pending
    → Ring.pop response_init_zero s.in_q ≡ (some resp, rest)
    → process w now s
      ≡ (success, allow_send (receive (taken s rest) resp).0, (receive (taken s rest) resp).1)
unfolding process_in process_pending pending_on stop_timeout
pending-first s w now e p = process-at done_pending w now s e ∙ rw p

-- The ring of responses with its first element known.
record FirstIn (s : System) (resp : Response) (later : List Response) : Type 0 where
  rest : InRespQ
  result : Ring.pop response_init_zero s.in_q ≡ (some resp, rest)
  rest_contents : contents response_init_zero rest ≡ later

first_in :
    (s : System) (resp : Response) (later : List Response)
    → IsValid s.in_q
    → responses s ≡ resp ∷ later
    → FirstIn s resp later
first_in s resp later v e = elim (pop_cases response_init_zero v) [
  | inl p ↦
      let same : p.first ≡ resp = cc (p.taken) in
      let kept : contents response_init_zero p.rest ≡ later = cc (p.taken) in
      record { rest = p.rest; result = rw same at p.result; rest_contents = kept }
  | inr d ↦ absurd (cc (d.gone))
]

allow_send_state :
    (s : System)
    → IsValid s.out_q
    → (allow_send s).worker.fsm_state
      ≡ (if Fifo.is_empty (queued s) then s.worker.fsm_state else send_cmd)
unfolding allow_send
allow_send_state s v =
    rw (← is_empty_refines message_init_zero v)
      (elim (Bool-cases (Ring.is_empty s.out_q)) [ inl gone ↦ rw gone | inr left ↦ rw left ])

-- `allow_send` changes the state and nothing else.
allow_send_fields :
    (s : System)
    → ((allow_send s).worker.pending_dones ≡ s.worker.pending_dones)
      × ((allow_send s).in_q ≡ s.in_q)
      × ((allow_send s).out_q ≡ s.out_q)
      × ((allow_send s).worker.error ≡ s.worker.error)
unfolding allow_send
allow_send_fields s = elim (Bool-cases (Ring.is_empty s.out_q)) [
  | inl gone ↦ rw gone (refl, refl, refl, refl)
  | inr left ↦ rw left (refl, refl, refl, refl)
]
