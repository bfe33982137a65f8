-- ===== src/MessageHandler/Abstract/Refine.antt =====
-- The worker of src/message_handler.c does what its specification over lists says.
use ultramat.Base.{
  ℕ, ◌+◌, ◌≡◌, refl, sym, ap, ◌∙◌, inl, inr, Bool, true, false, List, [], ◌∷◌, Status, success,
  failure, ◌==◌, ltb, u8, if◌then◌else◌, Bool-cases,
}
use ultramat.Fifo
use ultramat.Ring
use ultramat.Ring.Bounds.{IsValid}
use ultramat.Ring.Refine.{contents, is_empty_refines, peek_refines}
use ultramat.Ring.Cases.{pop_cases}
use ultramat.Proto.{Message, Response, ResponseType, message_init_zero, response_init_zero}
use ultramat.Wire.{Wire, send_msg}
use ultramat.MessageHandler.{
  System, WorkerState, idle, send_cmd, done_pending, error, Effect, or_zero, take_done,
  done_awaited, incoming, assign, receive, allow_send, idle_on, process_idle, send_result, send_on,
  process_send, start_timeout, stop_timeout, await_since, pending_on, process_pending, process_in,
  process,
}
use ultramat.MessageHandler.Linked.{Linked, receive-Settling}
use ultramat.MessageHandler.Linked.Rounds.{stopped}
use ultramat.MessageHandler.Abstract.{
  View, view, first_id, awaiting, settle, done, respond, go_on, when_idle, send_first, when_sending,
  wait, when_pending, round_in, round,
}

-- What a part of a round leaves, seen over lists.
abbrev seen : System × List Effect → View × List Effect
seen (s, fx) = (view s, fx)

allow_send-view : (s : System) → IsValid s.out_q → view (allow_send s) ≡ go_on (view s)
unfolding allow_send go_on
allow_send-view s v =
    rw (← is_empty_refines message_init_zero v)
      (elim (Bool-cases (Ring.is_empty s.out_q)) [ inl gone ↦ rw gone | inr left ↦ rw left ])

first_id-peek :
    (s : System)
    → IsValid s.worker.pending_dones
    → or_zero (Ring.peek 0 s.worker.pending_dones) ≡ first_id (contents 0 s.worker.pending_dones)
unfolding Fifo.peek
first_id-peek s v = ap or_zero (peek_refines 0 v) ∙ at_front (contents 0 s.worker.pending_dones)
  where
    at_front : (l : List ℕ) → or_zero (Fifo.peek l) ≡ first_id l
    at_front [] = refl
    at_front (x ∷ l) = refl

awaiting_lem : (l : List ℕ) → (if Fifo.is_empty l then idle else done_pending) ≡ awaiting l
awaiting_lem [] = refl
awaiting_lem (x ∷ l) = refl

take_done-view :
    (s : System) (resp : Response)
    → IsValid s.worker.pending_dones
    → seen (assign (take_done s resp)) ≡ settle (view s) resp
unfolding take_done
take_done-view s resp v = elim (pop_cases 0 v) [
  | inl p ↦
      rw (p.result, p.taken, is_empty_refines 0 p.rest_IsValid, awaiting_lem (contents 0 p.rest))
  | inr d ↦ rw (d.result, d.gone, is_empty_refines 0 v, d.gone)
]

done_awaited-view :
    (s : System) (resp : Response)
    → IsValid s.worker.pending_dones
    → seen (assign (done_awaited s resp)) ≡ done (view s) resp
unfolding done_awaited done
done_awaited-view s resp v =
    rw (← first_id-peek s v)
      (elim (Bool-cases (or_zero (Ring.peek 0 s.worker.pending_dones) == u8 resp.id)) [
        | inl same ↦ rw same (take_done-view s resp v)
        | inr other ↦ rw other
      ])

incoming-view :
    (type : ResponseType) (st : WorkerState) (s : System) (resp : Response)
    → IsValid s.worker.pending_dones
    → seen (assign (incoming type st s resp)) ≡ respond type st (view s) resp
unfolding incoming respond
incoming-view ResponseType.done done_pending s resp v = done_awaited-view s resp v
incoming-view ResponseType.done idle s resp v = refl
incoming-view ResponseType.done send_cmd s resp v = refl
incoming-view ResponseType.done error s resp v = refl
incoming-view ResponseType.error st s resp v = refl
incoming-view ResponseType.emergency_stop st s resp v = refl
incoming-view ResponseType.rsp_undefined st s resp v = refl
incoming-view (ResponseType.unrecognized n) st s resp v = refl

receive-view :
    (s : System) (resp : Response)
    → IsValid s.worker.pending_dones
    → seen (receive s resp) ≡ respond resp.type (view s).state (view s) resp
unfolding receive
receive-view s resp v = incoming-view resp.type s.worker.fsm_state s resp v

process_idle-view :
    (s : System) → Linked s → seen (process_idle s) ≡ when_idle (view s).responses (view s)
unfolding process_idle idle_on when_idle
process_idle-view s l = elim (pop_cases response_init_zero l.in_IsValid) [
  | inl p ↦
      ap (λ r. seen (idle_on r s)) p.result
      ∙ receive-view (record s { in_q = p.rest }) p.first l.pending_IsValid
      ∙ ap (λ rs. when_idle rs (view s)) (sym p.taken)
  | inr d ↦
      ap (λ r. seen (idle_on r s)) d.result
      ∙ ap (λ v. (v, [])) (allow_send-view s l.out_IsValid)
      ∙ ap (λ rs. when_idle rs (view s)) (sym d.gone)
]

send_result-view :
    (r : Status) (m : Message) (s : System) → seen (send_result r m s) ≡ send_first r m (view s)
unfolding send_result send_first
send_result-view success m s = refl
send_result-view failure m s = refl

process_send-view :
    (w : Wire) (s : System)
    → Linked s
    → seen (process_send w s) ≡ when_sending (view s).queue w (view s)
unfolding process_send send_on when_sending
process_send-view w s l = elim (pop_cases message_init_zero l.out_IsValid) [
  | inl p ↦
      ap (λ r. seen (send_on r w s)) p.result
      ∙ send_result-view (send_msg w p.first) p.first (record s { out_q = p.rest })
      ∙ ap (λ ms. when_sending ms w (view s)) (sym p.taken)
  | inr d ↦
      ap (λ r. seen (send_on r w s)) d.result ∙ ap (λ ms. when_sending ms w (view s)) (sym d.gone)
]

await_since-view :
    (on : Bool) (now : ℕ) (s : System)
    → IsValid s.out_q
    → view (await_since on now s) ≡ wait on now (view s)
unfolding await_since start_timeout wait
await_since-view true now s v = elim (Bool-cases (ltb (s.worker.timestamp_done + 90) now)) [
  | inl late ↦ rw late
  | inr early ↦ rw early (allow_send-view s v)
]
await_since-view false now s v = allow_send-view (start_timeout now s) v

process_pending-view :
    (now : ℕ) (s : System)
    → Linked s
    → seen (process_pending now s) ≡ when_pending (view s).responses now (view s)
unfolding process_pending pending_on stop_timeout when_pending
process_pending-view now s l = elim (pop_cases response_init_zero l.in_IsValid) [
  | inl p ↦
      let t : System = stop_timeout (record s { in_q = p.rest }) in
      let kept : IsValid (receive t p.first).0.out_q =
        (receive-Settling p.first (stopped p.rest p.rest_IsValid l)).out_IsValid in
      ap (λ r. seen (pending_on r now s)) p.result
      ∙ ap (λ v. (v, (receive t p.first).1)) (allow_send-view (receive t p.first).0 kept)
      ∙ ap (λ r. (go_on r.0, r.1)) (receive-view t p.first l.pending_IsValid)
      ∙ ap (λ rs. when_pending rs now (view s)) (sym p.taken)
  | inr d ↦
      ap (λ r. seen (pending_on r now s)) d.result
      ∙ ap (λ v. (v, [])) (await_since-view s.worker.timeout_done_started now s l.out_IsValid)
      ∙ ap (λ rs. when_pending rs now (view s)) (sym d.gone)
]

-- The result of a round, seen over lists.
abbrev pub seen_round : Status × System × List Effect → Status × View × List Effect
seen_round (r, s, fx) = (r, view s, fx)

process_in-view :
    (st : WorkerState) (w : Wire) (now : ℕ) (s : System)
    → Linked s
    → seen_round (process_in st w now s) ≡ round_in st w now (view s)
unfolding process_in round_in
process_in-view idle w now s l = ap (λ r. (success, r.0, r.1)) (process_idle-view s l)
process_in-view send_cmd w now s l = ap (λ r. (success, r.0, r.1)) (process_send-view w s l)
process_in-view done_pending w now s l =
    ap (λ r. (success, r.0, r.1)) (process_pending-view now s l)
process_in-view error w now s l = refl

-- A round of the worker of a linked system, whatever its state, the responses that have come, the
-- messages queued, the port and the time: it returns what the specification returns on the lists that
-- the system stands for, has the same effects, and leaves a system that stands for the specified lists.
pub process-view :
    (w : Wire) (now : ℕ) (s : System)
    → Linked s
    → seen_round (process w now s) ≡ round w now (view s)
unfolding process round
process-view w now s l = process_in-view s.worker.fsm_state w now s l
