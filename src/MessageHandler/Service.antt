-- ===== src/MessageHandler/Service.antt =====
-- The worker of src/message_handler.c with a microcontroller that does what it is sent: a batch of
-- messages goes out, each is answered, and the handlers run.
use ultramat.Base.{
  ℕ, ◌+◌, ◌*◌, ◌≤◌, ◌<◌, ◌≡◌, refl, sym, ap, ◌∙◌, false, List, [], ◌∷◌, ◌++◌, map, Option, none,
  success, arith, length, subst, u8, u32,
}
use ultramat.Proto.{Message, Response, ResponseType, McVersion}
use ultramat.CommandHandler.{Commands}
use ultramat.CommandHandler.Lookup.{IsValid, add_all}
use ultramat.CommandHandler.Unused.{Unused, Echoes, AllHandled, calls_of, handled-Echoes}
use ultramat.CommandHandler.Recent.{Recent, Recent-Unused, add_all-Recent}
use ultramat.Wire.{Wire, send_msg}
use ultramat.MessageHandler.{System, Effect, idle, idle_call, sent, serial_error}
use ultramat.MessageHandler.Kept.{kept, rounds-kept, arrive-kept}
use ultramat.MessageHandler.Linked.{Linked, queued, ids}
use ultramat.MessageHandler.Abstract.{View, view}
use ultramat.MessageHandler.Abstract.Rounds.{rounds}
use ultramat.MessageHandler.Abstract.Progress.{Takes, Punctual, Fresh, Answers, handled}
use ultramat.MessageHandler.Abstract.Work.{arrive, Rested, rounds-Sent, rounds-Rested}
use ultramat.MessageHandler.Abstract.Batch.{
  numbered_from, length-numbered_from, counter_after, entries, Added,
}

-- The done response to a message, which may tell the version of the microcontroller.
abbrev pub ack : Option McVersion → Message → Response
ack v m = record { id = m.id; type = ResponseType.done; version = v; error = none }

-- What a microcontroller answers that does what it is sent: a done for each message, in order.
abbrev pub acknowledged : Option McVersion → List Effect → List Response
acknowledged v [] = []
acknowledged v (sent m ∷ fx) = ack v m ∷ acknowledged v fx
acknowledged v (idle_call c ∷ fx) = acknowledged v fx
acknowledged v (serial_error text ∷ fx) = acknowledged v fx

-- The ports and times of the rounds in which messages go out, and of those that read the dones.
pub record Service : Type 0 where
  pub wire : Wire
  pub start : ℕ
  pub times : List ℕ
  pub wire_after : Wire
  pub times_after : List ℕ

-- The worker sends what it has, is answered, and reads the answers.
abbrev pub serve : Service → Option McVersion → System → System × List Effect
serve svc v s =
    let (s₁, out) = rounds svc.wire svc.times s in
    rounds svc.wire_after svc.times_after (arrive (acknowledged v out) s₁)

-- The service is enough for so many messages: the port takes every message, two rounds for each are
-- made within 90 seconds, and later one for each.
pub record Serves (n : ℕ) (svc : Service) : Type 0 where
  pub takes : (m : Message) → send_msg svc.wire m ≡ success
  pub punctual : Punctual svc.start svc.times
  pub enough : length svc.times ≡ 2 * n
  pub answers : length svc.times_after ≡ n

-- A worker at rest that can take so many messages.
pub record Ready (s : System) (n start : ℕ) : Type 0 where
  pub linked : Linked s
  pub state : s.worker.fsm_state ≡ idle
  pub nothing_queued : queued s ≡ []
  pub nothing_come : (view s).responses ≡ []
  pub table : IsValid s.commands
  pub unused : Unused s.id_counter n s.commands
  pub fresh : Fresh start s.worker.timeout_done_started s.worker.timestamp_done

acknowledged-sent :
    (v : Option McVersion) (ms : List Message) → acknowledged v (map sent ms) ≡ map (ack v) ms
acknowledged-sent v [] = refl
acknowledged-sent v (m ∷ ms) = ap (◌∷◌ (ack v m)) (acknowledged-sent v ms)

ack-Echoes : (v : Option McVersion) (ms : List Message) → Echoes (map (ack v) ms) ms
ack-Echoes v [] = tt
ack-Echoes v (m ∷ ms) = (refl, refl, ack-Echoes v ms)

-- The dones to messages that are numbered from a counter.
abbrev pub acks : Option McVersion → ℕ → List Message → List Response
acks v c ms = map (ack v) (numbered_from c ms)

ack-Answers :
    (v : Option McVersion) (c : ℕ) (ms : List Message)
    → Answers (acks v c ms) (ids (numbered_from c ms))
ack-Answers v c [] = tt
ack-Answers v c (m ∷ ms) = (refl, omega arith, ack-Answers v (u32 (c + 1)) ms)

all-Takes : (w : Wire) (ms : List Message) → ((m : Message) → send_msg w m ≡ success) → Takes w ms
all-Takes w [] t = tt
all-Takes w (m ∷ ms) t = (t m, all-Takes w ms t)

-- Everything is answered: these handlers run, and the worker is left with nothing to do.
abbrev pub Served : List Effect → System × List Effect → Type 0
Served calls (s, fx) = Rested s × (fx ≡ calls)

-- A batch that was added to a worker at rest is all that is queued, and the rounds are enough for it.
record Starts (svc : Service) (t : System) (m : Message) (ms : List Message) : Type 0 where
  state : t.worker.fsm_state ≡ idle
  nothing_come : (view t).responses ≡ []
  queue : queued t ≡ m ∷ ms
  fresh : Fresh svc.start t.worker.timeout_done_started t.worker.timestamp_done
  enough : length svc.times ≡ 2 * length ms + 2
  all : Takes svc.wire (m ∷ ms)

Added-Starts :
    (svc : Service) (s : System) (m : Message) (ms : List Message)
    → Ready s (length (m ∷ ms)) svc.start
    → Serves (length (m ∷ ms)) svc
    → (b : Added s (m ∷ ms))
    → Starts svc b.after
        (record m { id = u8 (u32 (s.id_counter + 1)) })
        (numbered_from (u32 (s.id_counter + 1)) ms)
Added-Starts svc s m ms ready serves b =
    let c = s.id_counter in
    let ms' = numbered_from c (m ∷ ms) in
    record {
      state = ap (λ (v : View). v.state) b.seen ∙ ready.state;
      nothing_come = ap (λ (v : View). v.responses) b.seen ∙ ready.nothing_come;
      queue = ap (λ (v : View). v.queue) b.seen ∙ ap (λ q. q ++ ms') ready.nothing_queued;
      fresh = subst (λ (v : View). Fresh svc.start v.timed v.since) (sym b.seen) ready.fresh;
      enough = omega (arith, serves.enough, length-numbered_from (u32 (c + 1)) ms);
      all = all-Takes svc.wire ms' serves.takes;
    }

-- Its messages go out, with the ids that they got.
pub add_batch-sent :
    (svc : Service) (s : System) (m : Message) (ms : List Message)
    → Ready s (length (m ∷ ms)) svc.start
    → Serves (length (m ∷ ms)) svc
    → (b : Added s (m ∷ ms))
    → (rounds svc.wire svc.times b.after).1 ≡ map sent (numbered_from s.id_counter (m ∷ ms))
add_batch-sent svc s m ms ready serves b =
    let at = Added-Starts svc s m ms ready serves b in
    let c = s.id_counter in
    (rounds-Sent svc.wire svc.start svc.times b.after (record m { id = u8 (u32 (c + 1)) })
      (numbered_from (u32 (c + 1)) ms) b.linked at.state at.nothing_come at.queue at.all
      serves.punctual at.fresh at.enough).1

-- A batch of messages with handlers that was added to a worker at rest is served.
pub add_batch-Served :
    (svc : Service) (v : Option McVersion) (s : System) (ms : List Message)
    → 0 < length ms
    → length ms ≤ 31
    → AllHandled ms
    → Ready s (length ms) svc.start
    → Serves (length ms) svc
    → (b : Added s ms)
    → Served (map idle_call (calls_of ms (acks v s.id_counter ms))) (serve svc v b.after)
add_batch-Served svc v s [] pos few hs ready serves b = absurd (omega arith)
add_batch-Served svc v s (m ∷ ms) pos few hs ready serves b =
    let c = s.id_counter in
    let m' : Message = record m { id = u8 (u32 (c + 1)) } in
    let ms' = numbered_from (u32 (c + 1)) ms in
    let rs = acks v c (m ∷ ms) in
    let at = Added-Starts svc s m ms ready serves b in
    let out = add_batch-sent svc s m ms ready serves b in
    let done =
      rounds-Rested svc.wire svc.wire_after svc.start svc.times svc.times_after b.after m' ms' rs
        b.linked at.state at.nothing_come at.queue at.all serves.punctual at.fresh at.enough
        (ack-Answers v c (m ∷ ms))
        (omega (arith, serves.answers, length-numbered_from c (m ∷ ms))) in
    let called =
      ap (λ (v : View). handled v.commands rs) b.seen
      ∙ handled-Echoes c (m ∷ ms) rs s.commands ready.table ready.unused (omega arith) hs
          (ack-Echoes v (m' ∷ ms')) in
    let answered : acknowledged v (rounds svc.wire svc.times b.after).1 ≡ rs =
      ap (acknowledged v) out ∙ acknowledged-sent v (m' ∷ ms') in
    subst
      (λ rs'.
        Served (map idle_call (calls_of (m ∷ ms) rs)) (
          rounds svc.wire_after svc.times_after (arrive rs' (rounds svc.wire svc.times b.after).0)))
      (sym answered) (done.1, done.2 ∙ called)

-- A worker at rest, all of whose messages since `message_handler_init` had handlers.
pub record Calm (s : System) : Type 0 where
  pub linked : Linked s
  pub state : s.worker.fsm_state ≡ idle
  pub nothing_queued : queued s ≡ []
  pub nothing_come : (view s).responses ≡ []
  pub timed : s.worker.timeout_done_started ≡ false
  pub recent : Recent s.id_counter s.commands

pub Calm-Ready : (s : System) (n start : ℕ) → n ≤ 200 → Calm s → Ready s n start
Calm-Ready s n start few c = record {
  linked = c.linked;
  state = c.state;
  nothing_queued = c.nothing_queued;
  nothing_come = c.nothing_come;
  table = c.recent.table;
  unused = Recent-Unused s.id_counter n s.commands few c.recent;
  fresh = subst (λ on. Fresh start on s.worker.timestamp_done) (sym c.timed) tt;
}

serve-kept : (svc : Service) (v : Option McVersion) (s : System) → kept (serve svc v s).0 ≡ kept s
serve-kept svc v s =
    let (s₁, out) = rounds svc.wire svc.times s in
    rounds-kept svc.wire_after svc.times_after (arrive (acknowledged v out) s₁)
    ∙ arrive-kept (acknowledged v out) s₁
    ∙ rounds-kept svc.wire svc.times s

-- After the service the worker is as before, and so the next batch is served too.
pub serve-Calm :
    (svc : Service) (v : Option McVersion) (s : System) (ms : List Message)
    → AllHandled ms
    → Calm s
    → (b : Added s ms) → Rested (serve svc v b.after).0
    → Calm (serve svc v b.after).0
serve-Calm svc v s ms hs c b r =
    let same : kept (serve svc v b.after).0 ≡ (
      add_all s.commands (entries (numbered_from s.id_counter ms)),
      counter_after s.id_counter ms,
    ) =
      serve-kept svc v b.after ∙ λ i. ((b.seen i).commands, b.counts i) in
    record {
      linked = r.linked;
      state = r.state;
      nothing_queued = r.queue;
      nothing_come = r.responses;
      timed = r.timed;
      recent =
          subst (λ (k : Commands × ℕ). Recent k.1 k.0) (sym same)
            (add_all-Recent s.id_counter ms s.commands hs c.recent);
    }
