-- ===== src/MessageHandler/Abstract/Pending.antt =====
-- What a round of the worker of src/message_handler.c does to the ring of pending ids: it takes the
-- oldest id, or leaves the ring.
use ultramat.Base.{
  ℕ, ◌+◌, ◌≡◌, refl, sym, ap, ◌∙◌, ◌⊎◌, inl, inr, Bool, true, false, List, [], ◌∷◌, Bool-cases, ltb,
  ◌==◌, u8, success, failure, Status, subst,
}
use ultramat.Fifo
use ultramat.Proto.{Message, Response, ResponseType}
use ultramat.Wire.{Wire, send_msg}
use ultramat.MessageHandler.{
  System, WorkerState, idle, send_cmd, done_pending, error, Effect, process,
}
use ultramat.MessageHandler.Linked.{Linked, pending_ids}
use ultramat.MessageHandler.Abstract.{
  View, view, first_id, later_ids, done, respond, go_on, when_idle, send_first, when_sending, wait,
  when_pending, round_in, round,
}
use ultramat.MessageHandler.Abstract.Refine.{process-view}

-- What a part of a round does to the pending ids: nothing, or it takes the oldest.
abbrev pub TakesOldest : List ℕ → View → Type 0
TakesOldest before v = (v.pending ≡ before) ⊎ (v.pending ≡ later_ids before)

done-TakesOldest : (v : View) (resp : Response) → TakesOldest v.pending (done v resp).0
unfolding done
done-TakesOldest v resp = elim (Bool-cases (first_id v.pending == u8 resp.id)) [
  | inl hit ↦ rw hit (inr refl)
  | inr miss ↦ rw miss (inl refl)
]

respond-TakesOldest :
    (type : ResponseType) (st : WorkerState) (v : View) (resp : Response)
    → TakesOldest v.pending (respond type st v resp).0
unfolding respond
respond-TakesOldest ResponseType.done done_pending v resp = done-TakesOldest v resp
respond-TakesOldest ResponseType.done idle v resp = inl refl
respond-TakesOldest ResponseType.done send_cmd v resp = inl refl
respond-TakesOldest ResponseType.done error v resp = inl refl
respond-TakesOldest ResponseType.error st v resp = inl refl
respond-TakesOldest ResponseType.emergency_stop st v resp = inl refl
respond-TakesOldest ResponseType.rsp_undefined st v resp = inl refl
respond-TakesOldest (ResponseType.unrecognized n) st v resp = inl refl

go_on-pending : (v : View) → (go_on v).pending ≡ v.pending
unfolding go_on
go_on-pending v = elim (Bool-cases (Fifo.is_empty v.queue)) [ inl e ↦ rw e | inr e ↦ rw e ]

go_on-TakesOldest :
    (before : List ℕ) (v : View) → TakesOldest before v → TakesOldest before (go_on v)
go_on-TakesOldest before v (inl e) = inl (go_on-pending v ∙ e)
go_on-TakesOldest before v (inr e) = inr (go_on-pending v ∙ e)

wait-pending : (on : Bool) (now : ℕ) (v : View) → (wait on now v).pending ≡ v.pending
unfolding wait
wait-pending true now v = elim (Bool-cases (ltb (v.since + 90) now)) [
  | inl late ↦ rw late
  | inr early ↦ rw early (go_on-pending v)
]
wait-pending false now v = go_on-pending _

when_idle-TakesOldest : (rs : List Response) (v : View) → TakesOldest v.pending (when_idle rs v).0
unfolding when_idle
when_idle-TakesOldest [] v = inl (go_on-pending v)
when_idle-TakesOldest (resp ∷ rs) v =
    respond-TakesOldest resp.type v.state (record v { responses = rs }) resp

send_first-pending :
    (r : Status) (m : Message) (v : View) → (send_first r m v).0.pending ≡ v.pending
unfolding send_first
send_first-pending success m v = refl
send_first-pending failure m v = refl

when_sending-pending :
    (ms : List Message) (w : Wire) (v : View) → (when_sending ms w v).0.pending ≡ v.pending
unfolding when_sending
when_sending-pending [] w v = refl
when_sending-pending (m ∷ ms) w v = send_first-pending (send_msg w m) m (record v { queue = ms })

when_pending-TakesOldest :
    (rs : List Response) (now : ℕ) (v : View) → TakesOldest v.pending (when_pending rs now v).0
unfolding when_pending
when_pending-TakesOldest [] now v = inl (wait-pending v.timed now v)
when_pending-TakesOldest (resp ∷ rs) now v =
    go_on-TakesOldest v.pending _
      (respond-TakesOldest resp.type v.state (record v { responses = rs; timed = false }) resp)

round-TakesOldest :
    (st : WorkerState) (w : Wire) (now : ℕ) (v : View)
    → TakesOldest v.pending (round_in st w now v).1
unfolding round_in
round-TakesOldest idle w now v = when_idle-TakesOldest v.responses v
round-TakesOldest send_cmd w now v = inl (when_sending-pending v.queue w v)
round-TakesOldest done_pending w now v = when_pending-TakesOldest v.responses now v
round-TakesOldest error w now v = inl refl

pub process-TakesOldest :
    (w : Wire) (now : ℕ) (s : System)
    → Linked s
    → TakesOldest (pending_ids s) (view (process w now s).1)
unfolding round
process-TakesOldest w now s l =
    subst (TakesOldest (pending_ids s))
      (sym (ap (λ (r : Status × View × List Effect). r.1) (process-view w now s l)))
      (round-TakesOldest s.worker.fsm_state w now (view s))
