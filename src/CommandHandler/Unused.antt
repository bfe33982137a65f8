-- ===== src/CommandHandler/Unused.antt =====
-- src/command_handler.c: the table runs the handlers of a sequence of commands that were added with
-- one id after another.
use ultramat.Base.{
  ℕ, zero, suc, ◌+◌, ◌≤◌, ◌<◌, ◌≡◌, ◌≢◌, refl, sym, subst, ap, ◌∙◌, inl, inr, List, [], ◌∷◌, ◌++◌,
  map, arith, length, set, Option-cases, lt_or_le, ◌%◌, some, u8, u32,
}
use ultramat.Proto.{CmdType, Message, Response, ResponseType}
use ultramat.CommandHandler.{
  Commands, IdHandlerPair, Handler, IdleCall, run_func, get_handler_func, call_handler, add_handler,
  add,
}
use ultramat.CommandHandler.Lookup.{
  IsValid, add-IsValid, Differ, add_all, execute_done-add_all_before, AbsentBefore,
}
use ultramat.MessageHandler.{idle_call}
use ultramat.MessageHandler.Abstract.Progress.{handled}
use ultramat.MessageHandler.Abstract.Batch.{numbered_from, entries}

-- The ids that a counter gives to the next messages are in no slot before the one that is written
-- next.
abbrev pub Unused : ℕ → ℕ → Commands → Type 0
Unused c zero s = Unit
Unused c (suc n) s =
    AbsentBefore (u8 (u32 (c + 1))) s.pending s.handler_index × Unused (u32 (c + 1)) n s

AbsentBefore-zero : (id : ℕ) (ps : List IdHandlerPair) → AbsentBefore id ps 0
AbsentBefore-zero id [] = tt
AbsentBefore-zero id (p ∷ ps) = tt

AbsentBefore-set :
    (id : ℕ) (ps : List IdHandlerPair) (i : ℕ) (p : IdHandlerPair)
    → p.id ≢ id
    → AbsentBefore id ps i
    → AbsentBefore id (set ps i p) (suc i)
AbsentBefore-set id [] i p ne a = tt
AbsentBefore-set id (q ∷ ps) zero p ne a = (ne, AbsentBefore-zero id ps)
AbsentBefore-set id (q ∷ ps) (suc i) p ne a = (a.0, AbsentBefore-set id ps i p ne a.1)

AbsentBefore-add :
    (id id' : ℕ) (cmd : CmdType) (s : Commands)
    → id' ≢ id
    → IsValid s
    → AbsentBefore id s.pending s.handler_index
    → AbsentBefore id (add s id' cmd).1.pending (add s id' cmd).1.handler_index
unfolding add add_handler
AbsentBefore-add id id' cmd s ne v a = elim (Option-cases (get_handler_func cmd)) [
  | inl e ↦ rw (e, add_handler) a
  | inr (h, e) ↦
      let p : IdHandlerPair = record { id = id'; func = some h } in
      rw (e, add_handler)
        (elim (lt_or_le (s.handler_index + 1) 32) [
          | inl more ↦
              let next : (s.handler_index + 1) % 32 ≡ suc s.handler_index = omega arith in
              subst (AbsentBefore id (set s.pending s.handler_index p)) (sym next)
                (AbsentBefore-set id s.pending s.handler_index p ne a)
          | inr last ↦
              let next : (s.handler_index + 1) % 32 ≡ 0 = omega (arith, v.index_in) in
              subst (AbsentBefore id (set s.pending s.handler_index p)) (sym next)
                (AbsentBefore-zero id (set s.pending s.handler_index p))
        ])
]

-- Of less than 256 ids in a row, none is one of the others.
Unused-add :
    (id : ℕ) (cmd : CmdType) (c₀ c k n : ℕ) (s : Commands)
    → id ≡ u8 (u32 (c₀ + 1))
    → c ≡ u32 (c₀ + k)
    → 0 < k
    → k + n < 256
    → IsValid s
    → Unused c n s
    → Unused c n (add s id cmd).1
Unused-add id cmd c₀ c k zero s is at pos few v un = tt
Unused-add id cmd c₀ c k (suc n) s is at pos few v un = (
  AbsentBefore-add (u8 (u32 (c + 1))) id cmd s (λ e. omega (arith, e)) v un.0,
  Unused-add id cmd c₀ (u32 (c + 1)) (suc k) n s is (omega arith) (omega arith) (omega arith) v
      un.1,
)

entries-Differ :
    (id c₀ c k : ℕ) (ms : List Message)
    → id ≡ u8 (u32 (c₀ + 1))
    → c ≡ u32 (c₀ + k)
    → 0 < k
    → k + length ms < 256
    → Differ id (entries (numbered_from c ms))
entries-Differ id c₀ c k [] is at pos few = tt
entries-Differ id c₀ c k (m ∷ ms) is at pos few = (
  λ e. omega (arith, e),
  entries-Differ id c₀ (u32 (c + 1)) (suc k) ms is (omega arith) (omega arith) (omega arith),
)

length-entries : (c : ℕ) (ms : List Message) → length (entries (numbered_from c ms)) ≡ length ms
length-entries c [] = refl
length-entries c (m ∷ ms) = ap suc (length-entries (u32 (c + 1)) ms)

-- Dones with the ids of the messages.
abbrev pub Echoes : List Response → List Message → Type 0
Echoes [] [] = Unit
Echoes [] (m ∷ ms) = ⊥
Echoes (resp ∷ rs) [] = ⊥
Echoes (resp ∷ rs) (m ∷ ms) = (resp.type ≡ ResponseType.done) × (resp.id ≡ m.id) × Echoes rs ms

-- What the handlers of the messages run for the responses, one by one.
abbrev pub calls_of : List Message → List Response → List IdleCall
unfolding run_func
calls_of [] rs = []
calls_of (m ∷ ms) [] = []
calls_of (m ∷ ms) (resp ∷ rs) = run_func (get_handler_func m.type) resp ++ calls_of ms rs

abbrev pub AllHandled : List Message → Type 0
AllHandled [] = Unit
AllHandled (m ∷ ms) = ((h : Handler) × (get_handler_func m.type ≡ some h)) × AllHandled ms

-- At most 32 commands with handlers, under unused ids: each done runs the handler of its own command.
pub handled-Echoes :
    (c : ℕ) (ms : List Message) (rs : List Response) (s : Commands)
    → IsValid s
    → Unused c (length ms) s
    → length ms ≤ 32
    → AllHandled ms
    → Echoes rs (numbered_from c ms)
    → handled (add_all s (entries (numbered_from c ms))) rs ≡ map idle_call (calls_of ms rs)
unfolding add_all run_func
handled-Echoes c [] [] s v un few hs e = refl
handled-Echoes c [] (resp ∷ rs) s v un few hs e = absurd e
handled-Echoes c (m ∷ ms) [] s v un few hs e = absurd e
handled-Echoes c (m ∷ ms) (resp ∷ rs) s v un few ((h, is), hs) e =
    let id : ℕ = u8 (u32 (c + 1)) in
    let later = entries (numbered_from (u32 (c + 1)) ms) in
    let s₁ : Commands = (add s id m.type).1 in
    let found =
      execute_done-add_all_before id m.type h later resp v is un.0
        (omega (arith, length-entries (u32 (c + 1)) ms))
        (entries-Differ id c (u32 (c + 1)) 1 ms refl (omega arith) (omega arith) (omega arith))
        e.1 in
    let rest =
      handled-Echoes (u32 (c + 1)) ms rs s₁ (add-IsValid id m.type v)
        (Unused-add id m.type c (u32 (c + 1)) 1 (length ms) s refl (omega arith) (omega arith)
          (omega arith) v un.1)
        (omega arith) hs e.2 in
    ap (λ r. map idle_call r.1 ++ handled (add_all s₁ later) rs) found
    ∙ ap (◌∷◌ (idle_call (call_handler h resp))) rest
    ∙ ap (λ f. map idle_call (run_func f resp ++ calls_of ms rs)) (sym is)
