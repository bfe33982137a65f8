-- ===== src/MessageHandler/Trace/Order.antt =====
-- src/message_handler.c: messages go out in the order in which they were accepted, whatever the
-- order of the calls.
use ultramat.Base.{
  ◌≡◌, refl, sym, ap, ◌∙◌, ◌⊎◌, inl, inr, List, [], ◌∷◌, ◌++◌, append_assoc, append-nil, subst,
  failure, ℕ, length,
}
use ultramat.Proto.{Message}
use ultramat.Wire.{Wire}
use ultramat.MessageHandler.{
  System, error, serial_error, error_string, process, process_in, add_incoming,
}
use ultramat.MessageHandler.Linked.{Linked, queued, init-Linked, queued-init}
use ultramat.MessageHandler.Linked.Rounds.{process-Linked, add_incoming-Linked}
use ultramat.MessageHandler.Linked.Outgoing.{numbered, add_outgoing_cases, counted}
use ultramat.MessageHandler.Trace.{
  Call, adds_incoming, adds_outgoing, rounds, History, step, run, start, process_in-Round,
}

-- What was accepted is what went out, then a message that could not be sent, if there is one, then
-- what is queued. A message that could not be sent has stopped the worker.
pub record Ordered (h : History) : Type 0 where
  pub linked : Linked h.system
  pub dropped : List Message
  pub order : h.accepted ≡ h.went_out ++ (dropped ++ queued h.system)
  pub last : (dropped ≡ []) ⊎ ((length dropped ≡ 1) × (h.system.worker.fsm_state ≡ error))

pub start-Ordered : (s : System) → Ordered (start s)
unfolding start
start-Ordered s = record {
  linked = init-Linked s;
  dropped = [];
  order = sym (queued-init s);
  last = inl refl;
}

round-Ordered_running :
    (w : Wire) (now : ℕ) (h : History)
    → Ordered h
    → h.accepted ≡ h.went_out ++ queued h.system
    → Ordered (step h (rounds w now))
unfolding step process
round-Ordered_running w now h o e =
    let r = process_in-Round h.system.worker.fsm_state w now h.system o.linked in
    record {
      linked = process-Linked w now o.linked;
      dropped = r.dropped;
      order = e ∙ ap (◌++◌ h.went_out) r.order ∙ sym (append_assoc h.went_out _ _);
      last = r.last;
    }

-- A worker that has stopped does nothing but report its error.
process-error :
    (w : Wire) (now : ℕ) (s : System)
    → s.worker.fsm_state ≡ error
    → process w now s ≡ (failure, s, serial_error (error_string s.worker.error) ∷ [])
unfolding process process_in
process-error w now s e =
    subst
      (λ st. process_in st w now s ≡ (failure, s, serial_error (error_string s.worker.error) ∷ []))
      (sym e) refl

round-Ordered_stopped :
    (w : Wire) (now : ℕ) (h : History)
    → Ordered h
    → h.system.worker.fsm_state ≡ error
    → Ordered (step h (rounds w now))
unfolding step
round-Ordered_stopped w now h o e = rw (process-error w now h.system e) (record {
  linked = o.linked;
  dropped = o.dropped;
  order = rw append-nil o.order;
  last = o.last;
})

regroup {ℓ} : {A : Type ℓ} (a b c d : List A) → (a ++ (b ++ c)) ++ d ≡ a ++ (b ++ (c ++ d))
regroup a b c d = simp append_assoc

pub step-Ordered : (h : History) (c : Call) → Ordered h → Ordered (step h c)
unfolding step add_incoming
step-Ordered h (adds_incoming resp) o = record {
  linked = add_incoming-Linked resp o.linked;
  dropped = o.dropped;
  order = o.order;
  last = o.last;
}
step-Ordered h (adds_outgoing m) o = elim (add_outgoing_cases m o.linked) [
  | inl a ↦ rw a.result (record {
    linked = a.after_Linked;
    dropped = o.dropped;
    order = rw a.joins (
        ap (λ (l : List Message). l ++ (numbered h.system m ∷ [])) o.order
        ∙ regroup h.went_out o.dropped (queued h.system) (numbered h.system m ∷ []));
    last = rw a.state_kept o.last;
  })
  | inr r ↦
      rw r.result
        (record { linked = counted o.linked; dropped = o.dropped; order = o.order; last = o.last })
]
step-Ordered h (rounds w now) o = elim o.last [
  | inl none ↦
      round-Ordered_running w now h o
        (o.order ∙ ap (λ (d : List Message). h.went_out ++ (d ++ queued h.system)) none)
  | inr stopped ↦ round-Ordered_stopped w now h o stopped.1
]

pub run-Ordered : (h : History) (cs : List Call) → Ordered h → Ordered (run h cs)
unfolding run
run-Ordered h [] o = o
run-Ordered h (c ∷ cs) o = run-Ordered (step h c) cs (step-Ordered h c o)

-- From `message_handler_init` on, after any calls by the threads in any order: the pending ids end
-- in those of the queued messages, in their order, and what was accepted is what went out followed
-- by what is queued, in that order. Between the two there is at most one message more, one that could
-- not be sent, and then the worker has stopped.
pub run-start-Ordered : (s : System) (cs : List Call) → Ordered (run (start s) cs)
run-start-Ordered s cs = run-Ordered (start s) cs (start-Ordered s)
