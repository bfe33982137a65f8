-- ===== src/MessageHandler/Kept.antt =====
-- A round of the worker of src/message_handler.c leaves the table of handlers and the counter of ids.
use ultramat.Base.{
  ℕ, ◌+◌, ◌≡◌, refl, ◌∙◌, inl, inr, Bool, true, false, List, [], ◌∷◌, Option, none, some, Status,
  success, failure, Bool-cases, ltb, ◌==◌, u8,
}
use ultramat.Proto.{Message, Response, ResponseType}
use ultramat.Queue.{OutMsgQ, InRespQ, out_msg_q_is_empty, out_msg_q_pop, in_resp_q_pop}
use ultramat.RingBuffer.{ring_buffer_peek}
use ultramat.CommandHandler.{Commands}
use ultramat.Wire.{Wire, send_msg}
use ultramat.MessageHandler.{
  System, WorkerState, idle, send_cmd, done_pending, error, Effect, or_zero, take_done,
  done_awaited, incoming, assign, receive, allow_send, idle_on, process_idle, send_result, send_on,
  process_send, start_timeout, stop_timeout, await_since, pending_on, process_pending, process_in,
  process, add_incoming,
}
use ultramat.MessageHandler.Abstract.Rounds.{rounds}
use ultramat.MessageHandler.Abstract.Work.{arrive}

-- What no round changes.
abbrev pub kept : System → Commands × ℕ
kept s = (s.commands, s.id_counter)

abbrev kept_by : System × List Effect → Commands × ℕ
kept_by (s, fx) = kept s

allow_send-kept : (s : System) → kept (allow_send s) ≡ kept s
unfolding allow_send
allow_send-kept s = elim (Bool-cases (out_msg_q_is_empty s.out_q)) [ inl e ↦ rw e | inr e ↦ rw e ]

done_awaited-kept : (s : System) (resp : Response) → kept_by (assign (done_awaited s resp)) ≡ kept s
unfolding done_awaited take_done
done_awaited-kept s resp =
    elim (Bool-cases (or_zero (ring_buffer_peek s.worker.pending_dones) == u8 resp.id)) [
      | inl same ↦ rw same
      | inr other ↦ rw other
    ]

incoming-kept :
    (type : ResponseType) (st : WorkerState) (s : System) (resp : Response)
    → kept_by (assign (incoming type st s resp)) ≡ kept s
unfolding incoming
incoming-kept ResponseType.done done_pending s resp = done_awaited-kept s resp
incoming-kept ResponseType.done idle s resp = refl
incoming-kept ResponseType.done send_cmd s resp = refl
incoming-kept ResponseType.done error s resp = refl
incoming-kept ResponseType.error st s resp = refl
incoming-kept ResponseType.emergency_stop st s resp = refl
incoming-kept ResponseType.rsp_undefined st s resp = refl
incoming-kept (ResponseType.unrecognized n) st s resp = refl

receive-kept : (s : System) (resp : Response) → kept_by (receive s resp) ≡ kept s
unfolding receive
receive-kept s resp = incoming-kept resp.type s.worker.fsm_state s resp

idle_on-kept : (r : Option Response × InRespQ) (s : System) → kept_by (idle_on r s) ≡ kept s
unfolding idle_on
idle_on-kept (none, q) s = allow_send-kept s
idle_on-kept (some resp, q) s = receive-kept (record s { in_q = q }) resp

send_result-kept : (r : Status) (m : Message) (s : System) → kept_by (send_result r m s) ≡ kept s
unfolding send_result
send_result-kept success m s = refl
send_result-kept failure m s = refl

send_on-kept :
    (r : Option Message × OutMsgQ) (w : Wire) (s : System) → kept_by (send_on r w s) ≡ kept s
unfolding send_on
send_on-kept (none, q) w s = refl
send_on-kept (some m, q) w s = send_result-kept (send_msg w m) m (record s { out_q = q })

await_since-kept : (on : Bool) (now : ℕ) (s : System) → kept (await_since on now s) ≡ kept s
unfolding await_since start_timeout
await_since-kept true now s = elim (Bool-cases (ltb (s.worker.timestamp_done + 90) now)) [
  | inl late ↦ rw late
  | inr early ↦ rw early (allow_send-kept s)
]
await_since-kept false now s = allow_send-kept (start_timeout now s)

pending_on-kept :
    (r : Option Response × InRespQ) (now : ℕ) (s : System) → kept_by (pending_on r now s) ≡ kept s
unfolding pending_on stop_timeout
pending_on-kept (none, q) now s = await_since-kept s.worker.timeout_done_started now s
pending_on-kept (some resp, q) now s =
    let t = stop_timeout (record s { in_q = q }) in
    allow_send-kept (receive t resp).0 ∙ receive-kept t resp

process_in-kept :
    (st : WorkerState) (w : Wire) (now : ℕ) (s : System) → kept (process_in st w now s).1 ≡ kept s
unfolding process_in process_idle process_send process_pending
process_in-kept idle w now s = idle_on-kept (in_resp_q_pop s.in_q) s
process_in-kept send_cmd w now s = send_on-kept (out_msg_q_pop s.out_q) w s
process_in-kept done_pending w now s = pending_on-kept (in_resp_q_pop s.in_q) now s
process_in-kept error w now s = refl

pub process-kept : (w : Wire) (now : ℕ) (s : System) → kept (process w now s).1 ≡ kept s
unfolding process
process-kept w now s = process_in-kept s.worker.fsm_state w now s

pub rounds-kept : (w : Wire) (times : List ℕ) (s : System) → kept (rounds w times s).0 ≡ kept s
unfolding rounds
rounds-kept w [] s = refl
rounds-kept w (now ∷ times) s = rounds-kept w times (process w now s).1 ∙ process-kept w now s

pub arrive-kept : (rs : List Response) (s : System) → kept (arrive rs s) ≡ kept s
unfolding arrive add_incoming
arrive-kept [] s = refl
arrive-kept (resp ∷ rs) s = arrive-kept rs (add_incoming s resp).1
