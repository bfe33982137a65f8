-- ===== src/MessageHandler/Linked/Outgoing.antt =====
-- `message_handler_add_outgoing` of src/message_handler.c: a message goes to the ring of pending
-- ids, to the queue and to the table of handlers, or to none of them.
use ultramat.Base.{
  ℕ, ◌≤◌, ◌<◌, ◌≡◌, refl, sym, ap, ◌∙◌, ◌⊎◌, inl, inr, List, [], ◌∷◌, ◌++◌, success, failure, arith,
  append_assoc, map-append, length, length-append, length-map, true, false,
}
use ultramat.Ring
use ultramat.Ring.Cases.{push_cases}
use ultramat.Proto.{Message, message_init_zero}
use ultramat.CommandHandler
use ultramat.MessageHandler.{
  System, WorkerState, idle, send_cmd, done_pending, error, add_outgoing, count_id, next_id,
}
use ultramat.MessageHandler.Linked.{Linked, Phase, pending_ids, queued, ids}

-- The message as it is queued.
abbrev pub numbered : System → Message → Message
numbered s msg = record msg { id = next_id s }

-- The call found a free slot: both rings and the table have the message, and nothing else changed.
pub record Accepted (s : System) (msg : Message) : Type 0 where
  pub after : System
  pub result : add_outgoing s msg ≡ (success, after)
  pub awaits : pending_ids after ≡ pending_ids s ++ (next_id s ∷ [])
  pub joins : queued after ≡ queued s ++ (numbered s msg ∷ [])
  pub handled : after.commands ≡ (CommandHandler.add s.commands (next_id s) msg.type).1
  pub state_kept : after.worker.fsm_state ≡ s.worker.fsm_state
  pub error_kept : after.worker.error ≡ s.worker.error
  pub timed_kept : after.worker.timeout_done_started ≡ s.worker.timeout_done_started
  pub since_kept : after.worker.timestamp_done ≡ s.worker.timestamp_done
  pub in_kept : after.in_q ≡ s.in_q
  pub counts : after.id_counter ≡ (count_id s).id_counter
  pub after_Linked : Linked after

-- The ring of pending ids is full: only the id is used up.
pub record Rejected (s : System) (msg : Message) : Type 0 where
  pub result : add_outgoing s msg ≡ (failure, count_id s)
  pub full : 31 ≤ length (pending_ids s)

Phase-append :
    (st : WorkerState) (awaiting : List ℕ) (out : List Message) (m : Message)
    → Phase st awaiting out
    → Phase st awaiting (out ++ (m ∷ []))
Phase-append idle awaiting out m h = h
Phase-append send_cmd awaiting [] m h = λ e. cc
Phase-append send_cmd awaiting (x ∷ out) m h = λ e. cc
Phase-append done_pending awaiting out m h = h
Phase-append error awaiting out m h = tt

-- The queue cannot be full while the ring of pending ids has room: it holds no more ids.
queue_has_room : {s : System} (l : Linked s) → length (pending_ids s) < 31 → length (queued s) < 31
queue_has_room {s} l h = omega (
  arith,
  ap length l.split,
  length-append l.awaiting (ids (queued s)),
  length-map (queued s) (λ (m : Message). m.id),
)

-- The system once the message is in both rings and the table.
abbrev entered : System → Message → Ring.Ring ℕ → Ring.Ring Message → System
entered s msg pending out = record s {
  worker = record (s.worker) { pending_dones = pending };
  out_q = out;
  id_counter = (count_id s).id_counter;
  commands = (CommandHandler.add s.commands (next_id s) msg.type).1;
}

result_rejected :
    (s : System) (msg : Message)
    → Ring.is_full s.worker.pending_dones ≡ true
    → add_outgoing s msg ≡ (failure, count_id s)
unfolding add_outgoing
result_rejected s msg full = rw full

result_accepted :
    (s : System) (msg : Message) (pending : Ring.Ring ℕ) (out : Ring.Ring Message)
    → Ring.is_full s.worker.pending_dones ≡ false
    → Ring.push s.worker.pending_dones (next_id s) ≡ (success, pending)
    → Ring.push s.out_q (numbered s msg) ≡ (success, out)
    → add_outgoing s msg ≡ (success, entered s msg pending out)
unfolding add_outgoing
result_accepted s msg pending out room p o = rw (room, p, o)

split-append :
    (pending awaiting later : List ℕ) (id : ℕ)
    → pending ≡ awaiting ++ later
    → pending ++ (id ∷ []) ≡ awaiting ++ (later ++ (id ∷ []))
split-append pending awaiting later id e = rw (e, append_assoc)

-- Of a linked system: a message is accepted whole, or it is rejected because 31 messages wait for
-- their done. So the queue never refuses a message whose id is in the ring.
pub add_outgoing_cases : {s : System} (msg : Message) → Linked s → Accepted s msg ⊎ Rejected s msg
add_outgoing_cases {s} msg l = elim (push_cases 0 (next_id s) l.pending_IsValid) [
  | inr full ↦ inr (record { result = result_rejected s msg full.no_room; full = full.full })
  | inl p ↦ elim (push_cases message_init_zero (numbered s msg) l.out_IsValid) [
    | inr stuck ↦ absurd (omega (arith, stuck.full, queue_has_room l p.fits))
    | inl o ↦ inl (record {
      after = entered s msg p.next o.next;
      result = result_accepted s msg p.next o.next p.room p.result o.result;
      awaits = p.stored;
      joins = o.stored;
      handled = refl;
      state_kept = refl;
      error_kept = refl;
      timed_kept = refl;
      since_kept = refl;
      in_kept = refl;
      counts = refl;
      after_Linked = record {
        pending_IsValid = p.next_IsValid;
        in_IsValid = l.in_IsValid;
        out_IsValid = o.next_IsValid;
        awaiting = l.awaiting;
        split =
            p.stored
            ∙ split-append (pending_ids s) l.awaiting (ids (queued s)) (next_id s) l.split
            ∙ ap (◌++◌ l.awaiting)
                (sym (ap ids o.stored ∙ map-append (λ m. m.id) (queued s) (numbered s msg ∷ [])));
        phase =
            rw o.stored
              (Phase-append s.worker.fsm_state l.awaiting (queued s) (numbered s msg) l.phase);
      };
    })
  ]
]

pub counted : {s : System} → Linked s → Linked (count_id s)
counted l = record {
  pending_IsValid = l.pending_IsValid;
  in_IsValid = l.in_IsValid;
  out_IsValid = l.out_IsValid;
  awaiting = l.awaiting;
  split = l.split;
  phase = l.phase;
}

pub add_outgoing-Linked : {s : System} (msg : Message) → Linked s → Linked (add_outgoing s msg).1
add_outgoing-Linked {s} msg l = elim (add_outgoing_cases msg l) [
  | inl a ↦ rw a.result a.after_Linked
  | inr r ↦ rw r.result (counted l)
]
