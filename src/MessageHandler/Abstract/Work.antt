-- ===== src/MessageHandler/Abstract/Work.antt =====
-- The worker of src/message_handler.c works its queue off: what it is given while idle is sent, and
-- once all dones have come it is idle with nothing left.
use ultramat.Base.{
  ℕ, false, suc, ◌+◌, ◌*◌, ◌≤◌, ◌<◌, ◌≡◌, refl, sym, ap, ◌∙◌, inl, inr, Bool, List, [], ◌∷◌, ◌++◌,
  map, success, arith, length, append_assoc, append-nil, subst, length-append, length-map,
}
use ultramat.Ring.Refine.{length-contents}
use ultramat.Ring.Cases.{push_cases}
use ultramat.Proto.{Message, Response, response_init_zero}
use ultramat.Wire.{Wire}
use ultramat.MessageHandler.{
  System, WorkerState, idle, send_cmd, done_pending, Effect, sent, add_incoming,
}
use ultramat.MessageHandler.Linked.{Linked, Phase, pending_ids, queued, ids}
use ultramat.MessageHandler.Linked.Rounds.{add_incoming-Linked}
use ultramat.MessageHandler.Abstract.{View, view, when_idle, go_on, round_in, round}
use ultramat.MessageHandler.Abstract.Rounds.{
  rounds, view_rounds, rounds-Linked, rounds-view, view_rounds-cons,
}
use ultramat.MessageHandler.Abstract.Progress.{
  Takes, Punctual, Fresh, holding, send_rounds, Answers, handled, answering, done_rounds,
}

-- Responses that are read one after another.
unfoldable pub arrive : List Response → System → System
arrive [] s = s
arrive (resp ∷ rs) s = arrive rs (add_incoming s resp).1

add_incoming-view :
    (s : System) (resp : Response)
    → Linked s
    → length (view s).responses < 31
    → view (add_incoming s resp).1
      ≡ record (view s) { responses = (view s).responses ++ (resp ∷ []) }
unfolding add_incoming
add_incoming-view s resp l h = elim (push_cases response_init_zero resp l.in_IsValid) [
  | inl p ↦
      ap (λ r. view (record s { in_q = r.1 })) p.result
      ∙ ap (λ rs. record (view s) { responses = rs }) p.stored
  | inr r ↦ absurd (omega (arith, r.full))
]

record Arrived (s : System) (rs : List Response) : Type 0 where
  linked : Linked (arrive rs s)
  seen : view (arrive rs s) ≡ record (view s) { responses = (view s).responses ++ rs }

arrive-Arrived :
    (rs : List Response) (s : System)
    → Linked s
    → length (view s).responses + length rs ≤ 31
    → Arrived s rs
unfolding arrive
arrive-Arrived [] s l h = record {
  linked = l;
  seen = ap (λ rs. record (view s) { responses = rs }) (sym (append-nil (view s).responses));
}
arrive-Arrived (resp ∷ rs) s l h =
    let first = add_incoming-view s resp l (omega arith) in
    let there = ap (λ (v : View). v.responses) first in
    let a =
      arrive-Arrived rs (add_incoming s resp).1 (add_incoming-Linked resp l)
        (omega (arith, ap length there, length-append (view s).responses (resp ∷ []))) in
    record {
      linked = a.linked;
      seen =
          a.seen
          ∙ ap (λ (v : View). record v { responses = v.responses ++ rs }) first
          ∙ ap (λ l. record (view s) { responses = l })
              (append_assoc (view s).responses (resp ∷ []) rs);
    }

as_holding :
    (st : WorkerState) (ms : List Message) (v : View)
    → v.state ≡ st
    → v.queue ≡ ms
    → v.responses ≡ []
    → v ≡ holding st ms v
as_holding st ms v e q r = λ i. record v { state = e i; queue = q i; responses = r i }

round-leaves_idle :
    (w : Wire) (now : ℕ) (m : Message) (ms : List Message) (v : View)
    → round w now (holding idle (m ∷ ms) v) ≡ (success, holding send_cmd (m ∷ ms) v, [])
unfolding round round_in when_idle go_on
round-leaves_idle w now m ms v = refl

-- The rounds from an idle system to one that awaits the dones.
record AllSent (w : Wire) (times : List ℕ) (s : System) (ms : List Message) : Type 0 where
  on : Bool
  since : ℕ
  seen :
      view (rounds w times s).0
      ≡ holding done_pending [] (record (view s) { timed = on; since = since })
  effects : (rounds w times s).1 ≡ map sent ms

rounds-AllSent :
    (w : Wire) (start : ℕ) (times : List ℕ) (s : System) (m : Message) (ms : List Message)
    → Linked s
    → s.worker.fsm_state ≡ idle
    → (view s).responses ≡ []
    → queued s ≡ m ∷ ms
    → Takes w (m ∷ ms)
    → Punctual start times
    → Fresh start s.worker.timeout_done_started s.worker.timestamp_done
    → length times ≡ 2 * length ms + 2
    → AllSent w times s (m ∷ ms)
rounds-AllSent w start [] s m ms l e r q takes p fresh n = absurd (omega arith)
rounds-AllSent w start (now ∷ times) s m ms l e r q takes p fresh n =
    let (on, since, sending) =
      send_rounds w start times m ms (view s) takes p.2 fresh (omega arith) in
    let whole =
      rounds-view w (now ∷ times) s l
      ∙ ap (λ v. view_rounds w (now ∷ times) v) (as_holding idle (m ∷ ms) (view s) e q r)
      ∙ view_rounds-cons w now times _ _ _ _ _ _ (round-leaves_idle w now m ms (view s)) sending in
    record { on = on; since = since; seen = ap (λ r. r.0) whole; effects = ap (λ r. r.1) whole }

-- A system that has sent its messages and waits for their dones.
pub record Sent (s s' : System) : Type 0 where
  pub state : s'.worker.fsm_state ≡ done_pending
  pub queue : queued s' ≡ []
  pub pending : pending_ids s' ≡ pending_ids s
  pub linked : Linked s'

-- A linked system is idle, no response has come, messages are queued, the port takes each of them,
-- and the rounds are made within 90 seconds, which a running timeout has not yet begun before. Then
-- two rounds for each message send all of them in their order, and the worker awaits their dones.
pub rounds-Sent :
    (w : Wire) (start : ℕ) (times : List ℕ) (s : System) (m : Message) (ms : List Message)
    → Linked s
    → s.worker.fsm_state ≡ idle
    → (view s).responses ≡ []
    → queued s ≡ m ∷ ms
    → Takes w (m ∷ ms)
    → Punctual start times
    → Fresh start s.worker.timeout_done_started s.worker.timestamp_done
    → length times ≡ 2 * length ms + 2
    → let (s', fx) = rounds w times s in Sent s s' × (fx ≡ map sent (m ∷ ms))
rounds-Sent w start times s m ms l e r q takes p fresh n =
    let a = rounds-AllSent w start times s m ms l e r q takes p fresh n in
    (
      record {
        state = ap (λ (v : View). v.state) a.seen;
        queue = ap (λ (v : View). v.queue) a.seen;
        pending = ap (λ (v : View). v.pending) a.seen;
        linked = rounds-Linked w times l;
      },
      a.effects,
    )

Answers-length : (rs : List Response) (l : List ℕ) → Answers rs l → length rs ≡ length l
Answers-length [] [] a = refl
Answers-length [] (id ∷ l) a = absurd a
Answers-length (resp ∷ rs) [] a = absurd a
Answers-length (resp ∷ rs) (id ∷ l) a = ap suc (Answers-length rs l a.2)

-- While idle the pending ids are those of the queued messages.
pub idle-pending :
    (s : System) → Linked s → s.worker.fsm_state ≡ idle → pending_ids s ≡ ids (queued s)
idle-pending s l e = l.split ∙ ap (λ a. a ++ ids (queued s)) none_awaited
  where
    none_awaited : l.awaiting ≡ []
    none_awaited = subst (λ st. Phase st l.awaiting (queued s)) e l.phase

pending-length : (s : System) → length (pending_ids s) ≤ 31
pending-length s = omega (arith, length-contents 0 s.worker.pending_dones)

-- A system with nothing left to do, and no timeout running.
pub record Rested (s : System) : Type 0 where
  pub state : s.worker.fsm_state ≡ idle
  pub queue : queued s ≡ []
  pub pending : pending_ids s ≡ []
  pub responses : (view s).responses ≡ []
  pub timed : s.worker.timeout_done_started ≡ false
  pub linked : Linked s

-- A linked system is idle, no response has come, messages are queued, the port takes each of them,
-- and two rounds for each are made within 90 seconds, which a running timeout has not yet begun
-- before. Then just these messages go out, in their order. When then a done for each message that went
-- out comes in, in that order, and a round for each follows, at any time and with any port, these run
-- what the table of handlers has for the responses, in that order, and leave the worker idle with
-- nothing queued, pending or unread, and no timeout running.
pub rounds-Rested :
    (w w' : Wire) (start : ℕ) (times times' : List ℕ) (s : System) (m : Message) (ms : List Message)
    (rs : List Response)
    → Linked s
    → s.worker.fsm_state ≡ idle
    → (view s).responses ≡ []
    → queued s ≡ m ∷ ms
    → Takes w (m ∷ ms)
    → Punctual start times
    → Fresh start s.worker.timeout_done_started s.worker.timestamp_done
    → length times ≡ 2 * length ms + 2
    → Answers rs (ids (m ∷ ms))
    → length times' ≡ length (m ∷ ms)
    → let (s₁, out) = rounds w times s in
      let (s₂, fx) = rounds w' times' (arrive rs s₁) in
      (out ≡ map sent (m ∷ ms)) × Rested s₂ × (fx ≡ handled s.commands rs)
rounds-Rested w w' start times times' s m ms [] l e r q takes p fresh n a n' = absurd a
rounds-Rested w w' start times times' s m ms (resp ∷ rs) l e r q takes p fresh n a n' =
    let sent_all = rounds-AllSent w start times s m ms l e r q takes p fresh n in
    let s₁ : System = (rounds w times s).0 in
    let l₁ = rounds-Linked w times {s = s} l in
    let pending : pending_ids s ≡ ids (m ∷ ms) = idle-pending s l e ∙ ap ids q in
    let unread : (view s₁).responses ≡ [] = ap (λ (v : View). v.responses) sent_all.seen in
    let there = arrive-Arrived (resp ∷ rs) s₁ l₁ (
      omega (
        arith,
        ap length unread,
        Answers-length (resp ∷ rs) (ids (m ∷ ms)) a,
        ap length pending,
        pending-length s,
      )) in
    let start_view : View = record (view s) { timed = sent_all.on; since = sent_all.since } in
    let before : view (arrive (resp ∷ rs) s₁)
        ≡ answering sent_all.on (resp ∷ rs) (ids (m ∷ ms)) start_view =
      there.seen
      ∙ ap (λ (v : View). record v { responses = v.responses ++ (resp ∷ rs) }) sent_all.seen
      ∙ ap (λ l. record (holding done_pending [] start_view) { responses = resp ∷ rs; pending = l })
          pending in
    let whole =
      rounds-view w' times' (arrive (resp ∷ rs) s₁) there.linked
      ∙ ap (λ v. view_rounds w' times' v) before
      ∙ done_rounds w' times' sent_all.on m.id (ids ms) resp rs start_view a
          (omega (arith, length-map ms (λ (m : Message). m.id))) in
    (
      sent_all.effects,
      record {
        state = ap (λ (r : View × List Effect). r.0.state) whole;
        queue = ap (λ (r : View × List Effect). r.0.queue) whole;
        pending = ap (λ (r : View × List Effect). r.0.pending) whole;
        responses = ap (λ (r : View × List Effect). r.0.responses) whole;
        timed = ap (λ (r : View × List Effect). r.0.timed) whole;
        linked = rounds-Linked w' times' there.linked;
      },
      ap (λ (r : View × List Effect). r.1) whole,
    )
