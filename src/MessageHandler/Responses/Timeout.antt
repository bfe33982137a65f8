-- ===== src/MessageHandler/Responses/Timeout.antt =====
-- src/message_handler.c: the timeout for a done, and a message that cannot be sent.
use ultramat.Base.{
  ℕ, ◌+◌, ◌≤◌, ◌<◌, ◌≡◌, refl, ap, ◌∙◌, List, [], ◌∷◌, Status, success, failure, true, false, ltb,
  arith, lt→ltb, inl, inr, Bool-cases, if◌then◌else◌,
}
use ultramat.Ring.Refine.{contents, is_empty_refines}
use ultramat.Ring.Cases.{pop_cases}
use ultramat.Ring.Bounds.{IsValid}
use ultramat.Proto.{Message, response_init_zero, message_init_zero}
use ultramat.Queue.{OutMsgQ}
use ultramat.Wire.{Wire, send_msg}
use ultramat.MessageHandler.{
  System, send_cmd, done_pending, error, Effect, sent, serial_error, error_string, done_timeout,
  process, process_in, process_send, process_pending, send_on, send_result, pending_on, await_since,
  allow_send, start_timeout, set_state, set_error,
}
use ultramat.MessageHandler.Linked.{Linked, queued}
use ultramat.MessageHandler.Responses.{responses, process-at}

-- No response has come.
process-await :
    (s : System) (w : Wire) (now : ℕ)
    → IsValid s.in_q
    → s.worker.fsm_state ≡ done_pending
    → responses s ≡ []
    → process w now s ≡ (success, await_since s.worker.timeout_done_started now s, [])
unfolding process_in process_pending pending_on
process-await s w now v e none_in =
    process-at done_pending w now s e
    ∙ elim (pop_cases response_init_zero v) [ inl p ↦ absurd (cc (p.taken)) | inr d ↦ rw d.result ]

allow_send-nil : (s : System) → IsValid s.out_q → queued s ≡ [] → allow_send s ≡ s
unfolding allow_send
allow_send-nil s v e = rw (is_empty_refines message_init_zero v, e)

allow_send-cons :
    (s : System) (m : Message) (more : List Message)
    → IsValid s.out_q
    → queued s ≡ m ∷ more
    → allow_send s ≡ set_state send_cmd s
unfolding allow_send
allow_send-cons s m more v e = rw (is_empty_refines message_init_zero v, e)

-- While the timeout is on.
await_since-late :
    (s : System) (now : ℕ)
    → s.worker.timestamp_done + 90 < now
    → await_since true now s ≡ set_error done_timeout s
unfolding await_since
await_since-late s now h = rw (lt→ltb _ _ h)

await_since-early :
    (s : System) (now : ℕ)
    → now ≤ s.worker.timestamp_done + 90
    → await_since true now s ≡ allow_send s
unfolding await_since
await_since-early s now h =
    let early : ltb (s.worker.timestamp_done + 90) now ≡ false = ground arith in rw early

-- With nothing queued.
await_since-on :
    (s : System) (now : ℕ)
    → IsValid s.out_q
    → queued s ≡ []
    → await_since true now s
      ≡ (if ltb (s.worker.timestamp_done + 90) now then set_error done_timeout s else s)
unfolding await_since
await_since-on s now v e = elim (Bool-cases (ltb (s.worker.timestamp_done + 90) now)) [
  | inl late ↦ rw late
  | inr early ↦ rw early (allow_send-nil s v e)
]

-- The worker reports its error and gives up.
process-report :
    (s : System) (w : Wire) (now : ℕ)
    → s.worker.fsm_state ≡ error
    → process w now s ≡ (failure, s, serial_error (error_string s.worker.error) ∷ [])
unfolding process_in
process-report s w now e = process-at error w now s e

-- The result of a round that succeeds and does nothing outside the system.
abbrev quietly : System → Status × System × List Effect
quietly s = (success, s, [])

-- The system that awaits a done since a time.
abbrev pub awaiting_since : System → ℕ → System
awaiting_since s since = record s {
  worker = record (s.worker) { timeout_done_started = true; timestamp_done = since };
}

await_since-off :
    (s : System) (now : ℕ)
    → s.worker.timeout_done_started ≡ false
    → await_since s.worker.timeout_done_started now s ≡ allow_send (awaiting_since s now)
unfolding await_since start_timeout
await_since-off s now off = ap (λ b. await_since b now s) off

-- A worker awaits a done, with nothing queued, no response and its timeout not started. Its round at
-- `since` starts the timeout. A round up to 90 seconds later changes nothing, and one more than 90
-- seconds later is the timeout error. The round after that reports it and fails.
pub process-timeout :
    (s : System) (w w' w'' : Wire) (since now later : ℕ)
    → Linked s
    → s.worker.fsm_state ≡ done_pending
    → responses s ≡ []
    → queued s ≡ []
    → s.worker.timeout_done_started ≡ false
    → let t = awaiting_since s since in
      (process w since s ≡ (success, t, []))
      × (process w' now t
          ≡ (success, (if ltb (since + 90) now then set_error done_timeout t else t), []))
      × (process w'' later (set_error done_timeout t)
          ≡ (failure, set_error done_timeout t, serial_error "Done message timeout" ∷ []))
unfolding error_string
process-timeout s w w' w'' since now later l e r q off =
    let t : System = awaiting_since s since in
    (
      process-await s w since l.in_IsValid e r
          ∙ ap quietly (await_since-off s since off ∙ allow_send-nil t l.out_IsValid q),
      process-await t w' now l.in_IsValid e r ∙ ap quietly (await_since-on t now l.out_IsValid q),
      process-report (set_error done_timeout t) w'' later refl,
    )

-- What `proto_comms_send_msg` gives decides a round in SEND_CMD.
process-send :
    (s : System) (w : Wire) (now : ℕ) (m : Message) (more : List Message)
    → IsValid s.out_q
    → s.worker.fsm_state ≡ send_cmd
    → queued s ≡ m ∷ more
    → (q : OutMsgQ) × (contents message_init_zero q ≡ more)
      × IsValid q
      × (process w now s ≡ (
        success,
        (send_result (send_msg w m) m (record s { out_q = q })).0,
        (send_result (send_msg w m) m (record s { out_q = q })).1,
      ))
unfolding process_in process_send send_on
process-send s w now m more v e q = elim (pop_cases message_init_zero v) [
  | inl p ↦
      let same : p.first ≡ m = cc (p.taken) in
      let kept : contents message_init_zero p.rest ≡ more = cc (p.taken) in
      (p.rest, kept, p.rest_IsValid, process-at send_cmd w now s e ∙ rw (p.result, same))
  | inr d ↦ absurd (cc (d.gone))
]

-- A worker is about to send a message, and the port does not take it. The round drops the message
-- and stops the worker, but leaves `error` as it was: the next round reports that former error (after
-- a start "Unknown message recieved"), whatever it was, and fails.
pub process-failed_send :
    (s : System) (w w' : Wire) (now later : ℕ) (m : Message) (more : List Message)
    → Linked s
    → s.worker.fsm_state ≡ send_cmd
    → queued s ≡ m ∷ more
    → send_msg w m ≡ failure
    → let (r, s', fx) = process w now s in
      (r ≡ success)
      × (fx ≡ [])
      × (queued s' ≡ more)
      × (process w' later s' ≡ (failure, s', serial_error (error_string s.worker.error) ∷ []))
unfolding send_result
process-failed_send s w w' now later m more l e q bad =
    let (rest, kept, v, sends) = process-send s w now m more l.out_IsValid e q in
    rw (sends, bad)
      (refl, refl, kept, process-report (set_state error (record s { out_q = rest })) w' later refl)

-- A worker awaits a done since `since`, and a message is queued. Its next two rounds send the message
-- but do not start the timeout anew: a third round without a response, more than 90 seconds after
-- `since`, is the timeout error, however short ago the message was sent.
pub process-send_keeps_timeout :
    (s : System) (w w' w'' : Wire) (since now sending later : ℕ) (m : Message)
    → Linked s
    → s.worker.fsm_state ≡ done_pending
    → responses s ≡ []
    → queued s ≡ m ∷ []
    → now ≤ since + 90
    → since + 90 < later
    → send_msg w' m ≡ success
    → let (_, s₁, _) = process w now (awaiting_since s since) in
      let (_, s₂, fx) = process w' sending s₁ in
      let (_, s₃, _) = process w'' later s₂ in
      (fx ≡ sent m ∷ []) × (s₃.worker.fsm_state ≡ error) × (s₃.worker.error ≡ done_timeout)
unfolding send_result
process-send_keeps_timeout s w w' w'' since now sending later m l e r q early late good =
    let t : System = awaiting_since s since in
    let t' : System = set_state send_cmd t in
    let (rest, kept, v, sends) = process-send t' w' sending m [] l.out_IsValid refl q in
    let t'' : System = set_state done_pending (record t' { out_q = rest }) in
    let first : process w now t ≡ quietly t' =
      process-await t w now l.in_IsValid e r
      ∙ ap quietly (await_since-early t now early ∙ allow_send-cons t m [] l.out_IsValid q) in
    let third : process w'' later t'' ≡ quietly (set_error done_timeout t'') =
      process-await t'' w'' later l.in_IsValid refl r
      ∙ ap quietly (await_since-late t'' later late) in
    rw (first, sends, good, third) (refl, refl, refl)
