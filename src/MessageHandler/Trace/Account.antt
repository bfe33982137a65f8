-- ===== src/MessageHandler/Trace/Account.antt =====
-- src/message_handler.c: every accepted message is settled, awaits its done or is queued, in that
-- order, whatever the order of the calls.
use ultramat.Base.{
  ℕ, ◌≤◌, ◌≡◌, refl, sym, ap, ◌∙◌, ◌⊎◌, inl, inr, List, [], ◌∷◌, ◌++◌, append_assoc, append-nil,
  map-append, arith, length, length-append, length-map,
}
use ultramat.Ring.Refine.{contents-init}
use ultramat.Proto.{Message}
use ultramat.Wire.{Wire}
use ultramat.MessageHandler.{System, init, error, process, add_incoming}
use ultramat.MessageHandler.Linked.{Linked, pending_ids, queued, ids}
use ultramat.MessageHandler.Linked.Outgoing.{numbered, add_outgoing_cases}
use ultramat.MessageHandler.Abstract.{later_ids}
use ultramat.MessageHandler.Abstract.Pending.{process-TakesOldest}
use ultramat.MessageHandler.Trace.{
  Call, adds_incoming, adds_outgoing, rounds, History, step, run, start,
}
use ultramat.MessageHandler.Trace.Order.{Ordered, start-Ordered, step-Ordered, run-Ordered}

-- The accepted messages are those that are settled, and those that are not, whose ids are pending.
record Tallied (h : History) : Type 0 where
  settled : List Message
  unsettled : List Message
  whole : h.accepted ≡ settled ++ unsettled
  waiting : pending_ids h.system ≡ ids unsettled

round-Tallied :
    (w : Wire) (now : ℕ) (h : History)
    → Linked h.system
    → Tallied h
    → Tallied (step h (rounds w now))
unfolding step
round-Tallied w now h l t = elim (process-TakesOldest w now h.system l) [
  | inl same ↦ record {
    settled = t.settled;
    unsettled = t.unsettled;
    whole = t.whole;
    waiting = same ∙ t.waiting;
  }
  | inr later ↦ oldest t.unsettled t.whole (later ∙ ap later_ids t.waiting)
]
  where
    oldest :
        (ms : List Message)
        → h.accepted ≡ t.settled ++ ms
        → pending_ids (process w now h.system).1 ≡ later_ids (ids ms)
        → Tallied (step h (rounds w now))
    oldest [] e p = record { settled = t.settled; unsettled = []; whole = e; waiting = p }
    oldest (m ∷ ms) e p = record {
      settled = t.settled ++ (m ∷ []);
      unsettled = ms;
      whole = e ∙ sym (append_assoc t.settled (m ∷ []) ms);
      waiting = p;
    }

step-Tallied : (h : History) (c : Call) → Ordered h → Tallied h → Tallied (step h c)
unfolding step add_incoming
step-Tallied h (adds_incoming resp) o t = record {
  settled = t.settled;
  unsettled = t.unsettled;
  whole = t.whole;
  waiting = t.waiting;
}
step-Tallied h (adds_outgoing m) o t = elim (add_outgoing_cases m o.linked) [
  | inl a ↦
      let m' = numbered h.system m in
      rw a.result (record {
        settled = t.settled;
        unsettled = t.unsettled ++ (m' ∷ []);
        whole =
            ap (λ (l : List Message). l ++ (m' ∷ [])) t.whole
            ∙ append_assoc t.settled t.unsettled _;
        waiting =
            a.awaits
            ∙ ap (λ (l : List ℕ). l ++ (m'.id ∷ [])) t.waiting
            ∙ sym (map-append (λ (m : Message). m.id) t.unsettled (m' ∷ []));
      })
  | inr r ↦ rw r.result (record {
    settled = t.settled;
    unsettled = t.unsettled;
    whole = t.whole;
    waiting = t.waiting;
  })
]
step-Tallied h (rounds w now) o t = round-Tallied w now h o.linked t

run-Tallied : (h : History) (cs : List Call) → Ordered h → Tallied h → Tallied (run h cs)
unfolding run
run-Tallied h [] o t = t
run-Tallied h (c ∷ cs) o t = run-Tallied (step h c) cs (step-Ordered h c o) (step-Tallied h c o t)

start-Tallied : (s : System) → Tallied (start s)
unfolding start init
start-Tallied s = record { settled = []; unsettled = []; whole = refl; waiting = contents-init 0 }

-- Two ways to part a list, of which the second has the shorter end.
part_again :
    (a b c d : List Message)
    → a ++ b ≡ c ++ d
    → length d ≤ length b
    → (mid : List Message) × (b ≡ mid ++ d) × (a ++ mid ≡ c)
part_again [] b c d e h = (c, e, refl)
part_again (x ∷ a) b [] d e h = absurd (omega (arith, ap length e, length-append a b))
part_again (x ∷ a) b (y ∷ c) d e h =
    let rest : a ++ b ≡ c ++ d = cc (e) in
    let same : x ≡ y = cc (e) in
    let (mid, p, q) = part_again a b c d rest h in (mid, p, rw (same, q))

-- Where the accepted messages are.
pub record Accounted (h : History) : Type 0 where
  pub settled : List Message
  pub unanswered : List Message
  pub whole : h.accepted ≡ settled ++ (unanswered ++ queued h.system)
  pub pending : pending_ids h.system ≡ ids unanswered ++ ids (queued h.system)
  pub went_out :
      (settled ++ unanswered ≡ h.went_out)
      ⊎ ((h.system.worker.fsm_state ≡ error)
          × (lost : Message) × (settled ++ unanswered ≡ h.went_out ++ (lost ∷ [])))

only_one : (l : List Message) → length l ≡ 1 → (m : Message) × (l ≡ m ∷ [])
only_one [] e = absurd (omega arith)
only_one (m ∷ []) e = (m, refl)
only_one (m ∷ n ∷ l) e = absurd (omega arith)

Ordered-Accounted : {h : History} → Ordered h → Tallied h → Accounted h
Ordered-Accounted {h} o t =
    let out = queued h.system in
    let more : length out ≤ length t.unsettled = omega (
      arith,
      ap length (sym o.linked.split ∙ t.waiting),
      length-append o.linked.awaiting (ids out),
      length-map out (λ (m : Message). m.id),
      length-map t.unsettled (λ (m : Message). m.id),
    ) in
    let (mid, p, q) =
      part_again t.settled t.unsettled (h.went_out ++ o.dropped) out
        (sym t.whole ∙ o.order ∙ sym (append_assoc h.went_out o.dropped out)) more in
    record {
      settled = t.settled;
      unanswered = mid;
      whole = t.whole ∙ ap (◌++◌ t.settled) p;
      pending = t.waiting ∙ ap ids p ∙ map-append (λ (m : Message). m.id) mid out;
      went_out = elim o.last [
        | inl none ↦ inl (q ∙ ap (◌++◌ h.went_out) none ∙ append-nil h.went_out)
        | inr (one, stopped) ↦
            let (m, e) = only_one o.dropped one in inr (stopped, m, q ∙ ap (◌++◌ h.went_out) e)
      ];
    }

-- From `message_handler_init` on, after any calls by the threads in any order, the accepted messages
-- are, in their order: those settled, those unanswered and those queued. The pending ids are just the
-- ids of the unanswered and the queued ones, in that order. The settled and the unanswered ones are
-- those that went out, and at most one more, whose sending failed and so stopped the worker.
pub run-start-Accounted : (s : System) (cs : List Call) → Accounted (run (start s) cs)
run-start-Accounted s cs =
    Ordered-Accounted (run-Ordered (start s) cs (start-Ordered s))
      (run-Tallied (start s) cs (start-Ordered s) (start-Tallied s))
