-- ===== src/MessageHandler/Abstract/Batch.antt =====
-- Messages that are added one after another (src/message_handler.c): their ids, and what they change.
use ultramat.Base.{
  ℕ, suc, ◌+◌, ◌≤◌, ◌≡◌, refl, sym, ap, ◌∙◌, inl, inr, List, [], ◌∷◌, ◌++◌, map, Status, success,
  arith, length, length-append, append_assoc, append-nil, u8, u32,
}
use ultramat.Ring.Refine.{contents}
use ultramat.Proto.{Message, response_init_zero, CmdType}
use ultramat.CommandHandler.Lookup.{add_all}
use ultramat.MessageHandler.{System, add_outgoing, next_id}
use ultramat.Mixing.{and_then}
use ultramat.MessageHandler.Linked.{Linked, pending_ids, ids}
use ultramat.MessageHandler.Linked.Outgoing.{numbered, Accepted, add_outgoing_cases}
use ultramat.MessageHandler.Abstract.{View, view}

-- The messages with the ids that they get from a counter.
abbrev pub numbered_from : ℕ → List Message → List Message
numbered_from c [] = []
numbered_from c (m ∷ ms) = record m { id = u8 (u32 (c + 1)) } ∷ numbered_from (u32 (c + 1)) ms

pub length-numbered_from : (c : ℕ) (ms : List Message) → length (numbered_from c ms) ≡ length ms
length-numbered_from c [] = refl
length-numbered_from c (m ∷ ms) = ap suc (length-numbered_from (u32 (c + 1)) ms)

-- The counter after so many messages.
abbrev pub counter_after : ℕ → List Message → ℕ
counter_after c [] = c
counter_after c (m ∷ ms) = counter_after (u32 (c + 1)) ms

abbrev pub entries : List Message → List (ℕ × CmdType)
entries = map (λ m. (m.id, m.type))

-- Calls of `message_handler_add_outgoing`, until the first that fails.
unfoldable pub add_batch : List Message → System → Status × System
add_batch [] s = (success, s)
add_batch (m ∷ ms) s = and_then (add_outgoing s m) (add_batch ms)

-- The view with these messages queued, awaiting their dones and in the table of handlers.
abbrev pub joined : List Message → View → View
joined ms v = record v {
  queue = v.queue ++ ms;
  pending = v.pending ++ ids ms;
  commands = add_all v.commands (entries ms);
}

pub record Added (s : System) (ms : List Message) : Type 0 where
  pub after : System
  pub result : add_batch ms s ≡ (success, after)
  pub linked : Linked after
  pub counts : after.id_counter ≡ counter_after s.id_counter ms
  pub seen : view after ≡ joined (numbered_from s.id_counter ms) (view s)

Accepted-view :
    (s : System) (m : Message) (a : Accepted s m)
    → view a.after ≡ joined (numbered s m ∷ []) (view s)
unfolding add_all
Accepted-view s m a = λ i. record {
  state = a.state_kept i;
  noted = a.error_kept i;
  timed = a.timed_kept i;
  since = a.since_kept i;
  responses = contents response_init_zero (a.in_kept i);
  queue = a.joins i;
  pending = a.awaits i;
  commands = a.handled i;
}

joined-joined :
    (m : Message) (ms : List Message) (v : View) → joined ms (joined (m ∷ []) v) ≡ joined (m ∷ ms) v
unfolding add_all
joined-joined m ms v = λ i. record v {
  queue = append_assoc v.queue (m ∷ []) ms i;
  pending = append_assoc v.pending (m.id ∷ []) (ids ms) i;
  commands = add_all v.commands (entries (m ∷ ms));
}

joined-nil : (v : View) → v ≡ joined [] v
unfolding add_all
joined-nil v =
    λ i. record v { queue = sym (append-nil v.queue) i; pending = sym (append-nil v.pending) i }

-- With room for all of them, all are added.
pub add_batch-Added :
    (s : System) (ms : List Message)
    → Linked s
    → length (pending_ids s) + length ms ≤ 31
    → Added s ms
unfolding add_batch
add_batch-Added s [] l room = record {
  after = s;
  result = refl;
  linked = l;
  counts = refl;
  seen = joined-nil (view s);
}
add_batch-Added s (m ∷ ms) l room = elim (add_outgoing_cases m l) [
  | inr r ↦ absurd (omega (arith, r.full))
  | inl a ↦
      let b =
        add_batch-Added a.after ms a.after_Linked
          (omega (arith, ap length a.awaits, length-append (pending_ids s) (next_id s ∷ []))) in
      record {
        after = b.after;
        result = ap (λ r. and_then r (add_batch ms)) a.result ∙ b.result;
        linked = b.linked;
        counts = b.counts ∙ ap (λ c. counter_after c ms) a.counts;
        seen =
            b.seen
            ∙ ap (λ c. joined (numbered_from c ms) (view a.after)) a.counts
            ∙ ap (joined (numbered_from (u32 (s.id_counter + 1)) ms)) (Accepted-view s m a)
            ∙ joined-joined (numbered s m) (numbered_from (u32 (s.id_counter + 1)) ms) (view s);
      }
]
