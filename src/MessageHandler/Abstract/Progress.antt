-- ===== src/MessageHandler/Abstract/Progress.antt =====
-- The worker of src/message_handler.c comes to an end of its work: with a port that takes every
-- message all are sent, and with all dones answered it is idle again.
use ultramat.Base.{
  ℕ, ◌+◌, ◌*◌, ◌≤◌, ◌≡◌, refl, sym, ap, Bool, true, false, List, [], ◌∷◌, ◌++◌, map, success, arith,
  ltb, ◌==◌, ==_iff, length, u8,
}
use ultramat.Proto.{Message, Response, ResponseType}
use ultramat.CommandHandler
use ultramat.CommandHandler.{Commands}
use ultramat.Wire.{Wire, send_msg}
use ultramat.MessageHandler.{WorkerState, send_cmd, done_pending, Effect, idle_call, sent}
use ultramat.MessageHandler.Abstract.{
  View, awaiting, go_on, done, respond, send_first, when_sending, wait, when_pending, round_in,
  round,
}
use ultramat.MessageHandler.Abstract.Rounds.{view_rounds, view_rounds-cons}

-- The port takes each of the messages.
abbrev pub Takes : Wire → List Message → Type 0
Takes w [] = Unit
Takes w (m ∷ ms) = (send_msg w m ≡ success) × Takes w ms

-- All times are from `start` to 90 seconds later.
abbrev pub Punctual : ℕ → List ℕ → Type 0
Punctual start [] = Unit
Punctual start (now ∷ times) = (start ≤ now) × (now ≤ start + 90) × Punctual start times

-- A running timeout was started at `start` or later.
abbrev pub Fresh : ℕ → Bool → ℕ → Type 0
Fresh start true since = start ≤ since
Fresh start false since = Unit

-- The view with no response and these messages queued.
abbrev pub holding : WorkerState → List Message → View → View
holding st ms v = record v { state = st; queue = ms; responses = [] }

-- The timeout runs since then.
abbrev pub timed_from : ℕ → View → View
timed_from since v = record v { timed = true; since = since }

round-sending :
    (w : Wire) (now : ℕ) (m : Message) (ms : List Message) (v : View)
    → send_msg w m ≡ success
    → round w now (holding send_cmd (m ∷ ms) v) ≡ (success, holding done_pending ms v, sent m ∷ [])
unfolding round round_in when_sending send_first
round-sending w now m ms v good = rw good

wait-early :
    (on : Bool) (start now : ℕ) (m : Message) (ms : List Message) (v : View)
    → v.timed ≡ on
    → start ≤ now
    → now ≤ start + 90
    → Fresh start on v.since
    → (since : ℕ) × (start ≤ since)
      × (wait on now (holding done_pending (m ∷ ms) v)
          ≡ holding send_cmd (m ∷ ms) (timed_from since v))
unfolding wait go_on
wait-early true start now m ms v e low high fresh =
    let early : ltb (v.since + 90) now ≡ false = ground arith in
    (
      v.since,
      fresh,
      rw early (ap (λ b. holding send_cmd (m ∷ ms) (record v { timed = b; since = v.since })) e),
    )
wait-early false start now m ms v e low high fresh = (now, low, refl)

round-waiting :
    (w : Wire) (start now : ℕ) (m : Message) (ms : List Message) (v : View)
    → start ≤ now
    → now ≤ start + 90
    → Fresh start v.timed v.since
    → (since : ℕ) × (start ≤ since)
      × (round w now (holding done_pending (m ∷ ms) v)
          ≡ (success, holding send_cmd (m ∷ ms) (timed_from since v), []))
unfolding round round_in when_pending
round-waiting w start now m ms v low high fresh =
    let (since, kept, e) = wait-early v.timed start now m ms v refl low high fresh in
    (since, kept, ap (λ u. (success, u, [])) e)

-- From SEND_CMD on.
pub send_rounds :
    (w : Wire) (start : ℕ) (times : List ℕ) (m : Message) (ms : List Message) (v : View)
    → Takes w (m ∷ ms)
    → Punctual start times
    → Fresh start v.timed v.since
    → length times ≡ 2 * length ms + 1
    → (on : Bool) × (since : ℕ) × (view_rounds w times (holding send_cmd (m ∷ ms) v)
        ≡ (holding done_pending [] (record v { timed = on; since = since }), map sent (m ∷ ms)))
unfolding view_rounds
send_rounds w start [] m ms v takes p fresh n = absurd (omega arith)
send_rounds w start (now ∷ []) m [] v takes p fresh n = (
  v.timed,
  v.since,
  view_rounds-cons w now [] _ _ _ _ _ [] (round-sending w now m [] v takes.0) refl,
)
send_rounds w start (now ∷ t ∷ times) m [] v takes p fresh n = absurd (omega arith)
send_rounds w start (now ∷ []) m (m' ∷ ms) v takes p fresh n = absurd (omega arith)
send_rounds w start (now ∷ t ∷ times) m (m' ∷ ms) v takes p fresh n =
    let (since, kept, waited) = round-waiting w start t m' ms v p.2.0 p.2.1 fresh in
    let (on, since', r) =
      send_rounds w start times m' ms (timed_from since v) takes.1 p.2.2 kept (omega arith) in
    (
      on,
      since',
      view_rounds-cons w now (t ∷ times) _ _ _ _ _ _ (round-sending w now m (m' ∷ ms) v takes.0)
          (view_rounds-cons w t times _ _ _ _ _ _ waited r),
    )

-- The answers to pending ids, in their order.
abbrev pub Answers : List Response → List ℕ → Type 0
Answers [] [] = Unit
Answers [] (id ∷ ids) = ⊥
Answers (resp ∷ rs) [] = ⊥
Answers (resp ∷ rs) (id ∷ ids) =
    (resp.type ≡ ResponseType.done) × (u8 resp.id ≡ id) × Answers rs ids

-- The handlers that the responses run.
abbrev pub handled : Commands → List Response → List Effect
handled commands [] = []
handled commands (resp ∷ rs) =
    map idle_call (CommandHandler.execute_done commands resp).1 ++ handled commands rs

-- The view with nothing queued, these responses and these pending ids, and the timeout on or off.
abbrev pub answering : Bool → List Response → List ℕ → View → View
answering on rs ids v = record v {
  state = awaiting ids;
  queue = [];
  responses = rs;
  pending = ids;
  timed = on;
}

round-answered :
    (w : Wire) (now : ℕ) (on : Bool) (id : ℕ) (ids : List ℕ) (resp : Response) (rs : List Response)
    (v : View)
    → resp.type ≡ ResponseType.done
    → u8 resp.id ≡ id
    → round w now (answering on (resp ∷ rs) (id ∷ ids) v) ≡ (
      success,
      answering false rs ids v,
      map idle_call (CommandHandler.execute_done v.commands resp).1,
    )
unfolding round round_in when_pending respond done go_on
round-answered w now on id ids resp rs v d same =
    let hit : (id == u8 resp.id) ≡ true = (==_iff id (u8 resp.id)).1 (sym same) in rw (d, hit)

-- From DONE_PENDING on, with all dones there: a round for each.
pub done_rounds :
    (w : Wire) (times : List ℕ) (on : Bool) (id : ℕ) (ids : List ℕ) (resp : Response)
    (rs : List Response) (v : View)
    → Answers (resp ∷ rs) (id ∷ ids)
    → length times ≡ length (id ∷ ids)
    → view_rounds w times (answering on (resp ∷ rs) (id ∷ ids) v)
      ≡ (answering false [] [] v, handled v.commands (resp ∷ rs))
unfolding view_rounds
done_rounds w [] on id ids resp rs v a n = absurd (omega arith)
done_rounds w (now ∷ []) on id [] resp [] v a n =
    view_rounds-cons w now [] _ _ _ _ _ [] (round-answered w now on id [] resp [] v a.0 a.1) refl
done_rounds w (now ∷ t ∷ times) on id [] resp rs v a n = absurd (omega arith)
done_rounds w (now ∷ []) on id [] resp (r' ∷ rs) v a n = absurd (a.2)
done_rounds w (now ∷ []) on id (id' ∷ ids) resp rs v a n = absurd (omega arith)
done_rounds w (now ∷ t ∷ times) on id (id' ∷ ids) resp [] v a n = absurd (a.2)
done_rounds w (now ∷ t ∷ times) on id (id' ∷ ids) resp (r' ∷ rs) v a n =
    view_rounds-cons w now (t ∷ times) _ _ _ _ _ _
      (round-answered w now on id (id' ∷ ids) resp (r' ∷ rs) v a.0 a.1)
      (done_rounds w (t ∷ times) false id' ids r' rs v a.2 (omega arith))
