-- ===== src/CommandHandler/Recent.antt =====
-- src/command_handler.c: while every message has a handler, the slots before the one that is written
-- next hold the last ids in order, so that the next ids are never among them.
use ultramat.Base.{
  ℕ, zero, suc, ◌+◌, ◌-◌, ◌%◌, ◌≤◌, ◌<◌, ◌≡◌, refl, sym, subst, inl, inr, List, [], ◌∷◌, arith, set,
  some, lt_or_le, u8, u32,
}
use ultramat.Proto.{Message}
use ultramat.CommandHandler.{
  Commands, IdHandlerPair, Handler, get_handler_func, add_handler, add, init,
}
use ultramat.CommandHandler.Lookup.{IsValid, init-IsValid, add-IsValid, AbsentBefore, add_all}
use ultramat.CommandHandler.Unused.{Unused, AllHandled}
use ultramat.MessageHandler.Abstract.Batch.{numbered_from, counter_after, entries}

-- The slots before slot `n` hold the last `n` ids that the counter has given, in order.
abbrev Last : ℕ → List IdHandlerPair → ℕ → Type 0
Last c [] n = Unit
Last c (p ∷ ps) zero = Unit
Last c (p ∷ ps) (suc n) = (p.id ≡ u8 (c + 256 - n)) × Last c ps n

pub record Recent (c : ℕ) (s : Commands) : Type 0 where
  pub table : IsValid s
  pub last : Last c s.pending s.handler_index

Last-zero : (c : ℕ) (ps : List IdHandlerPair) → Last c ps 0
Last-zero c [] = tt
Last-zero c (p ∷ ps) = tt

pub init-Recent : (c : ℕ) → Recent c init
unfolding init
init-Recent c = record { table = init-IsValid; last = Last-zero c (init).pending }

Last-set :
    (c : ℕ) (ps : List IdHandlerPair) (n : ℕ) (p : IdHandlerPair)
    → n < 32
    → p.id ≡ u8 (u32 (c + 1))
    → Last c ps n
    → Last (u32 (c + 1)) (set ps n p) (suc n)
Last-set c [] n p h e l = tt
Last-set c (q ∷ ps) zero p h e l = (omega arith, Last-zero (u32 (c + 1)) ps)
Last-set c (q ∷ ps) (suc n) p h e l = (omega (arith, l.0), Last-set c ps n p (omega arith) e l.1)

add-Recent :
    (c : ℕ) (m : Message) (s : Commands) (h : Handler)
    → get_handler_func m.type ≡ some h
    → Recent c s
    → Recent (u32 (c + 1)) (add s (u8 (u32 (c + 1))) m.type).1
unfolding add add_handler
add-Recent c m s h e r = record {
  table = add-IsValid (u8 (u32 (c + 1))) m.type r.table;
  last =
      let p : IdHandlerPair = record { id = u8 (u32 (c + 1)); func = some h } in
      let ps = set s.pending s.handler_index p in
      rw (e, add_handler)
        (elim (lt_or_le (s.handler_index + 1) 32) [
          | inl more ↦
              let next : (s.handler_index + 1) % 32 ≡ suc s.handler_index = omega arith in
              subst (Last (u32 (c + 1)) ps) (sym next)
                (Last-set c s.pending s.handler_index p (omega arith) refl r.last)
          | inr end ↦
              let next : (s.handler_index + 1) % 32 ≡ 0 = omega (arith, r.table.index_in) in
              subst (Last (u32 (c + 1)) ps) (sym next) (Last-zero (u32 (c + 1)) ps)
        ]);
}

pub add_all-Recent :
    (c : ℕ) (ms : List Message) (s : Commands)
    → AllHandled ms
    → Recent c s
    → Recent (counter_after c ms) (add_all s (entries (numbered_from c ms)))
unfolding add_all
add_all-Recent c [] s hs r = r
add_all-Recent c (m ∷ ms) s ((h, e), hs) r =
    add_all-Recent (u32 (c + 1)) ms (add s (u8 (u32 (c + 1))) m.type).1 hs (add-Recent c m s h e r)

Last-AbsentBefore :
    (c k id : ℕ) (ps : List IdHandlerPair) (n : ℕ)
    → id ≡ u8 (c + k)
    → 0 < k
    → k + n ≤ 256
    → n ≤ 32
    → Last c ps n
    → AbsentBefore id ps n
Last-AbsentBefore c k id [] n is pos few low l = tt
Last-AbsentBefore c k id (p ∷ ps) zero is pos few low l = tt
Last-AbsentBefore c k id (p ∷ ps) (suc n) is pos few low l = (
  λ e. omega (arith, e, l.0),
  Last-AbsentBefore c k id ps n is pos (omega arith) (omega arith) l.1,
)

Last-Unused :
    (c₀ c k n : ℕ) (s : Commands)
    → u8 c ≡ u8 (c₀ + k)
    → k + n ≤ 200
    → IsValid s
    → Last c₀ s.pending s.handler_index
    → Unused c n s
Last-Unused c₀ c k zero s at few v l = tt
Last-Unused c₀ c k (suc n) s at few v l = (
  Last-AbsentBefore c₀ (suc k) (u8 (u32 (c + 1))) s.pending s.handler_index (omega arith)
      (omega arith) (omega (arith, v.index_in)) (omega (arith, v.index_in)) l,
  Last-Unused c₀ (u32 (c + 1)) (suc k) n s (omega arith) (omega arith) v l,
)

-- So the next ids are unused, whatever the counter.
pub Recent-Unused : (c n : ℕ) (s : Commands) → n ≤ 200 → Recent c s → Unused c n s
Recent-Unused c n s few r = Last-Unused c c 0 n s (omega arith) (omega arith) r.table r.last
