-- ===== src/MessageHandler/Trace.antt =====
-- src/message_handler.c over any sequence of calls: those of the two threads that add messages, of
-- the serial port that adds responses, and of the worker's rounds, in any order.
pub mod Order
pub mod Account
use ultramat.Base.{
  ℕ, ◌+◌, ◌≡◌, refl, sym, ◌∙◌, ◌⊎◌, inl, inr, List, [], ◌∷◌, ◌++◌, map, Status, success, failure,
  append-nil, Bool-cases, Bool, true, false, ltb, some, none, Option, ◌==◌, u8, length,
}
use ultramat.Ring
use ultramat.Ring.Cases.{pop_cases}
use ultramat.Proto.{Message, Response, ResponseType, message_init_zero}
use ultramat.Queue.{OutMsgQ, InRespQ}
use ultramat.CommandHandler
use ultramat.CommandHandler.{IdleCall}
use ultramat.Wire.{Wire, send_msg}
use ultramat.MessageHandler.{
  System, WorkerState, idle, send_cmd, done_pending, error, Effect, idle_call, sent, serial_error,
  init, add_incoming, add_outgoing, process, process_in, process_idle, process_send,
  process_pending, idle_on, send_on, send_result, pending_on, await_since, allow_send,
  start_timeout, stop_timeout, receive, incoming, done_awaited, take_done, or_zero,
}
use ultramat.MessageHandler.Linked.{Linked, queued}
use ultramat.MessageHandler.Linked.Outgoing.{numbered}

-- A response read from the port, a message to add, or a round with the port and the time of then.
pub data Call : Type 0 where
  adds_incoming : Response → Call
  adds_outgoing : Message → Call
  rounds : Wire → ℕ → Call

abbrev pub sent_by : List Effect → List Message
sent_by [] = []
sent_by (idle_call c ∷ fx) = sent_by fx
sent_by (sent m ∷ fx) = m ∷ sent_by fx
sent_by (serial_error e ∷ fx) = sent_by fx

-- A system with the messages that were accepted since its start, and those that went out.
pub record History : Type 0 where
  pub system : System
  pub accepted : List Message
  pub went_out : List Message

pub accept : Status → Message → List Message → List Message
accept success m ms = ms ++ (m ∷ [])
accept failure m ms = ms

pub accept-append :
    (r : Status) (m : Message) (ms : List Message) → accept r m ms ≡ ms ++ accept r m []
unfolding accept
accept-append success m ms = refl
accept-append failure m ms = sym (append-nil ms)

unfoldable pub step : History → Call → History
unfolding accept
step h (adds_incoming resp) = record h { system = (add_incoming h.system resp).1 }
step h (adds_outgoing m) =
    let (r, s) = add_outgoing h.system m in
    record h { system = s; accepted = accept r (numbered h.system m) h.accepted }
step h (rounds w now) =
    let (_, s, fx) = process w now h.system in
    record h { system = s; went_out = h.went_out ++ sent_by fx }

unfoldable pub run : History → List Call → History
run h [] = h
run h (c ∷ cs) = run (step h c) cs

-- The start: `message_handler_init`, from any former state.
unfoldable pub start : System → History
start s = record { system = init s; accepted = []; went_out = [] }

-- A part of a round that leaves the queue of messages alone and sends none.
record Quiet (s s' : System) (fx : List Effect) : Type 0 where
  queue_kept : s'.out_q ≡ s.out_q
  none_sent : sent_by fx ≡ []

sent_by-idle_calls : (calls : List IdleCall) → sent_by (map idle_call calls) ≡ []
sent_by-idle_calls [] = refl
sent_by-idle_calls (c ∷ calls) = sent_by-idle_calls calls

done_awaited-Quiet :
    (s : System) (resp : Response) → Quiet s (done_awaited s resp).1 (done_awaited s resp).2
unfolding done_awaited take_done
done_awaited-Quiet s resp =
    elim (Bool-cases (or_zero (Ring.peek 0 s.worker.pending_dones) == u8 resp.id)) [
      | inl same ↦ rw same (record {
        queue_kept = refl;
        none_sent = sent_by-idle_calls (CommandHandler.execute_done s.commands resp).1;
      })
      | inr other ↦ rw other (record { queue_kept = refl; none_sent = refl })
    ]

incoming-Quiet :
    (type : ResponseType) (st : WorkerState) (s : System) (resp : Response)
    → Quiet s (incoming type st s resp).1 (incoming type st s resp).2
unfolding incoming
incoming-Quiet ResponseType.done done_pending s resp = done_awaited-Quiet s resp
incoming-Quiet ResponseType.done idle s resp = record { queue_kept = refl; none_sent = refl }
incoming-Quiet ResponseType.done _ s resp = record { queue_kept = refl; none_sent = refl }
incoming-Quiet _ _ s resp = record { queue_kept = refl; none_sent = refl }

allow_send_queue : (s : System) → (allow_send s).out_q ≡ s.out_q
unfolding allow_send
allow_send_queue s = elim (Bool-cases (Ring.is_empty s.out_q)) [ inl e ↦ rw e | inr e ↦ rw e ]

await_since_queue : (on : Bool) (now : ℕ) (s : System) → (await_since on now s).out_q ≡ s.out_q
unfolding await_since start_timeout
await_since_queue true now s = elim (Bool-cases (ltb (s.worker.timestamp_done + 90) now)) [
  | inl late ↦ rw late
  | inr early ↦ rw early (allow_send_queue s)
]
await_since_queue false now s = allow_send_queue (start_timeout now s)

idle_on-Quiet :
    (r : Option Response × InRespQ) (s : System) → Quiet s (idle_on r s).0 (idle_on r s).1
unfolding idle_on receive
idle_on-Quiet (some resp, q) s =
    let quiet = incoming-Quiet resp.type s.worker.fsm_state (record s { in_q = q }) resp in
    record { queue_kept = quiet.queue_kept; none_sent = quiet.none_sent }
idle_on-Quiet (none, q) s = record { queue_kept = allow_send_queue s; none_sent = refl }

pending_on-Quiet :
    (r : Option Response × InRespQ) (now : ℕ) (s : System)
    → Quiet s (pending_on r now s).0 (pending_on r now s).1
unfolding pending_on receive stop_timeout
pending_on-Quiet (some resp, q) now s =
    let quiet =
      incoming-Quiet resp.type s.worker.fsm_state (stop_timeout (record s { in_q = q })) resp in
    record { queue_kept = allow_send_queue _ ∙ quiet.queue_kept; none_sent = quiet.none_sent }
pending_on-Quiet (none, q) now s = record {
  queue_kept = await_since_queue s.worker.timeout_done_started now s;
  none_sent = refl;
}

-- What a round does to the queue: it takes away the message that went out, or the one that could
-- not be sent, and that is the end of the worker.
record Round (s s' : System) (fx : List Effect) : Type 0 where
  dropped : List Message
  order : queued s ≡ sent_by fx ++ (dropped ++ queued s')
  last : (dropped ≡ []) ⊎ ((length dropped ≡ 1) × (s'.worker.fsm_state ≡ error))

Quiet-Round : (s s' : System) (fx : List Effect) → Quiet s s' fx → Round s s' fx
Quiet-Round s s' fx q = record {
  dropped = [];
  order = rw (q.none_sent, q.queue_kept);
  last = inl refl;
}

send_result-Round :
    (r : Status) (s : System) (m : Message) (q : OutMsgQ)
    → queued s ≡ m ∷ queued (record s { out_q = q })
    → let (s', fx) = send_result r m (record s { out_q = q }) in Round s s' fx
unfolding send_result
send_result-Round success s m q e = record { dropped = []; order = e; last = inl refl }
send_result-Round failure s m q e = record { dropped = m ∷ []; order = e; last = inr (refl, refl) }

process_send-Round :
    (w : Wire) (s : System) → Linked s → let (s', fx) = process_send w s in Round s s' fx
unfolding process_send
process_send-Round w s l = elim (pop_cases message_init_zero l.out_IsValid) [
  | inl p ↦ rw (p.result, send_on) (send_result-Round (send_msg w p.first) s p.first p.rest p.taken)
  | inr d ↦ rw (d.result, send_on) (record { dropped = []; order = refl; last = inl refl })
]

process_in-Round :
    (st : WorkerState) (w : Wire) (now : ℕ) (s : System)
    → Linked s
    → let (r, s', fx) = process_in st w now s in Round s s' fx
unfolding process_in process_idle process_pending
process_in-Round idle w now s l = Quiet-Round s _ _ (idle_on-Quiet _ s)
process_in-Round send_cmd w now s l = process_send-Round w s l
process_in-Round done_pending w now s l = Quiet-Round s _ _ (pending_on-Quiet _ now s)
process_in-Round error w now s l = record { dropped = []; order = refl; last = inl refl }
