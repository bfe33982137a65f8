-- ===== src/MessageHandler/Responses/Done.antt =====
-- src/message_handler.c: done responses are taken in the order of the messages.
use ultramat.Base.{
  ℕ, ◌≡◌, ◌≢◌, refl, sym, ap, ◌∙◌, inl, inr, List, [], ◌∷◌, map, subst, some, ◌==◌, u8,
  if◌then◌else◌, ==_iff, Bool-cases, Option, none,
}
use ultramat.Fifo
use ultramat.Ring
use ultramat.Ring.Refine.{contents, is_empty_refines, peek_refines}
use ultramat.Ring.Cases.{pop_cases}
use ultramat.Ring.Bounds.{IsValid}
use ultramat.Proto.{Response, ResponseType, message_init_zero, response_init_zero}
use ultramat.CommandHandler
use ultramat.Wire.{Wire}
use ultramat.MessageHandler.{
  System, WorkerState, idle, send_cmd, done_pending, error, ErrorType, recieved_err, unknown_msg,
  idle_call, ooo_done, process, allow_send, receive, incoming, done_awaited, take_done, or_zero,
  assign, set_state, set_error,
}
use ultramat.MessageHandler.Linked.{Linked, pending_ids, queued}
use ultramat.MessageHandler.Responses.{
  responses, taken, pending-first, first_in, allow_send_state, allow_send_fields,
}

-- The state in which the worker awaits what it still has to do: `quiet` if nothing is queued.
abbrev pub next_state : System → WorkerState → WorkerState
next_state s quiet = if Fifo.is_empty (queued s) then quiet else send_cmd

-- How a round treats a done response, `s` being the system before it and `rest` the pending ids
-- after it.
pub record Done (s : System) (rest : List ℕ) (later : List Response) (quiet : WorkerState)
    (s' : System) : Type 0 where
  pub pending : pending_ids s' ≡ rest
  pub queue_kept : queued s' ≡ queued s
  pub responses_left : responses s' ≡ later
  pub state : s'.worker.fsm_state ≡ next_state s quiet

receive-done :
    (t : System) (resp : Response)
    → t.worker.fsm_state ≡ done_pending
    → resp.type ≡ ResponseType.done
    → receive t resp ≡ assign (done_awaited t resp)
unfolding receive incoming
receive-done t resp e d =
    ap (λ ty. assign (incoming ty t.worker.fsm_state t resp)) d
    ∙ ap (λ st. assign (incoming ResponseType.done st t resp)) e

done_awaited-same :
    (t : System) (resp : Response)
    → or_zero (Ring.peek 0 t.worker.pending_dones) ≡ u8 resp.id
    → done_awaited t resp ≡ take_done t resp
unfolding done_awaited
done_awaited-same t resp e = rw ((==_iff _ _).1 e)

done_awaited-other :
    (t : System) (resp : Response)
    → or_zero (Ring.peek 0 t.worker.pending_dones) ≢ u8 resp.id
    → done_awaited t resp ≡ (error, set_error ooo_done t, [])
unfolding done_awaited
done_awaited-other t resp ne =
    elim (Bool-cases (or_zero (Ring.peek 0 t.worker.pending_dones) == u8 resp.id)) [
      | inl same ↦ absurd (ne ((==_iff _ _).0 same))
      | inr other ↦ rw other
    ]

-- The ring of pending ids without its first.
take_done-pending :
    (t : System) (resp : Response) (first : ℕ) (rest : List ℕ)
    → IsValid t.worker.pending_dones
    → pending_ids t ≡ first ∷ rest
    → (pending_ids (take_done t resp).1 ≡ rest)
      × ((take_done t resp).0 ≡ (if Fifo.is_empty rest then idle else done_pending))
unfolding take_done
take_done-pending t resp first rest v e = elim (pop_cases 0 v) [
  | inl p ↦
      let kept : contents 0 p.rest ≡ rest = cc (p.taken) in
      rw p.result (
        kept,
        rw (is_empty_refines 0 p.rest_IsValid)
            (ap (λ (l : List ℕ). if Fifo.is_empty l then idle else done_pending) kept),
      )
  | inr d ↦ absurd (cc (d.gone))
]

-- After a round that took a response and left the worker in some state, `allow_send` has chosen.
after_response :
    (s t : System) (rest : List ℕ) (later : List Response) (quiet : WorkerState)
    → IsValid s.out_q
    → t.out_q ≡ s.out_q
    → pending_ids t ≡ rest
    → responses t ≡ later
    → t.worker.fsm_state ≡ quiet
    → Done s rest later quiet (allow_send t)
after_response s t rest later quiet v q p r st =
    let fields = allow_send_fields t in
    let v' : IsValid t.out_q = subst IsValid (sym q) v in
    record {
      pending = ap (contents 0) fields.0 ∙ p;
      queue_kept = ap (contents message_init_zero) (fields.2 ∙ q);
      responses_left = ap (contents response_init_zero) fields.1 ∙ r;
      state = allow_send_state t v' ∙ rw (q, st);
    }

peek-first :
    (t : System) (first : ℕ) (rest : List ℕ)
    → IsValid t.worker.pending_dones
    → pending_ids t ≡ first ∷ rest
    → or_zero (Ring.peek 0 t.worker.pending_dones) ≡ first
unfolding Fifo.peek
peek-first t first rest v e = ap or_zero (peek_refines 0 v ∙ ap Fifo.peek e)

-- A worker awaits a done, and the next response is a done with the oldest pending id. Then the round
-- takes both, runs the handler of the command with the response's id if the table has it, and leaves
-- the queue and the later responses. With messages queued it goes on to send; else it awaits the
-- next done, or is idle if none is pending.
pub process-done :
    {s : System} (w : Wire) (now : ℕ) (resp : Response) (later : List Response) (first : ℕ)
    (rest : List ℕ)
    → Linked s
    → s.worker.fsm_state ≡ done_pending
    → responses s ≡ resp ∷ later
    → resp.type ≡ ResponseType.done
    → pending_ids s ≡ first ∷ rest
    → u8 resp.id ≡ first
    → let (r, s', fx) = process w now s in
      Done s rest later (if Fifo.is_empty rest then idle else done_pending) s'
      × (fx ≡ map idle_call (CommandHandler.execute_done s.commands resp).1)
unfolding take_done
process-done {s} w now resp later first rest l e r d p same =
    let f = first_in s resp later l.in_IsValid r in
    let t : System = taken s f.rest in
    let found = peek-first t first rest l.pending_IsValid p in
    let out = take_done-pending t resp first rest l.pending_IsValid p in
    rw
      (
        pending-first s w now e f.result,
        receive-done t resp e d,
        done_awaited-same t resp (found ∙ sym same),
      )
      (
        after_response s (set_state (take_done t resp).0 (take_done t resp).1) rest later _
            l.out_IsValid refl out.0 f.rest_contents out.1,
        refl,
      )

-- A done with another id is not handled: nothing pending or queued is lost, and the error is noted.
-- But with messages queued the worker goes on to send them.
pub process-wrong_done :
    {s : System} (w : Wire) (now : ℕ) (resp : Response) (later : List Response) (first : ℕ)
    (rest : List ℕ)
    → Linked s
    → s.worker.fsm_state ≡ done_pending
    → responses s ≡ resp ∷ later
    → resp.type ≡ ResponseType.done
    → pending_ids s ≡ first ∷ rest
    → u8 resp.id ≢ first
    → let (r, s', fx) = process w now s in
      Done s (first ∷ rest) later error s' × (fx ≡ []) × (s'.worker.error ≡ ooo_done)
process-wrong_done {s} w now resp later first rest l e r d p ne =
    let f = first_in s resp later l.in_IsValid r in
    let t : System = taken s f.rest in
    let found = peek-first t first rest l.pending_IsValid p in
    let missed = done_awaited-other t resp (λ q. ne (sym q ∙ found)) in
    rw (pending-first s w now e f.result, receive-done t resp e d, missed)
      (
        after_response s (set_error ooo_done t) (first ∷ rest) later error l.out_IsValid refl p
            f.rest_contents refl,
        refl,
        (allow_send_fields (set_error ooo_done t)).3,
      )

-- The error that a response of this type is, while a done is awaited: one that is neither a done nor
-- a stop.
abbrev pub error_of : ResponseType → Option ErrorType
error_of ResponseType.done = none
error_of ResponseType.error = some recieved_err
error_of ResponseType.emergency_stop = none
error_of _ = some unknown_msg

incoming-error :
    (type : ResponseType) (st : WorkerState) (t : System) (resp : Response) (x : ErrorType)
    → error_of type ≡ some x
    → incoming type st t resp ≡ (error, set_error x t, [])
unfolding incoming
incoming-error ResponseType.done st t resp x e = cc
incoming-error ResponseType.error st t resp x e = ap (λ y. (error, set_error y t, [])) (cc)
incoming-error ResponseType.emergency_stop st t resp x e = cc
incoming-error ResponseType.rsp_undefined st t resp x e = ap (λ y. (error, set_error y t, [])) (cc)
incoming-error (ResponseType.unrecognized n) st t resp x e =
    ap (λ y. (error, set_error y t, [])) (cc)

receive-error :
    (t : System) (resp : Response) (x : ErrorType)
    → error_of resp.type ≡ some x
    → receive t resp ≡ (set_error x t, [])
unfolding receive
receive-error t resp x e = ap assign (incoming-error resp.type t.worker.fsm_state t resp x e)

-- An error response while a done is awaited takes nothing from the pending ids or the queue, runs no
-- handler, and is noted. It stops the worker only if no message is queued.
pub process-error_response :
    {s : System} (w : Wire) (now : ℕ) (resp : Response) (later : List Response) (x : ErrorType)
    → Linked s
    → s.worker.fsm_state ≡ done_pending
    → responses s ≡ resp ∷ later
    → error_of resp.type ≡ some x
    → let (r, s', fx) = process w now s in
      Done s (pending_ids s) later error s' × (fx ≡ []) × (s'.worker.error ≡ x)
process-error_response {s} w now resp later x l e r d =
    let f = first_in s resp later l.in_IsValid r in
    let t : System = taken s f.rest in
    rw (pending-first s w now e f.result, receive-error t resp x d)
      (
        after_response s (set_error x t) (pending_ids s) later error l.out_IsValid refl refl
            f.rest_contents refl,
        refl,
        (allow_send_fields (set_error x t)).3,
      )
