-- ===== src/CommandHandler/Lookup.antt =====
-- src/command_handler.c: which callback a done response runs, after any later commands.
use ultramat.Base.{
  ℕ, zero, suc, ◌+◌, ◌-◌, ◌∙◌, ◌%◌, ◌≤◌, ◌<◌, ◌≡◌, ◌≢◌, refl, ap, List, [], ◌∷◌, some, success,
  arith, length, length-set, set, Option-cases, inl, inr,
}
use ultramat.Proto.{CmdType, Response}
use ultramat.CommandHandler.{
  Commands, IdHandlerPair, Handler, max_pending, get_handler_func, call_handler, find_pending,
  execute_done, add_handler, add, init,
}

pub record IsValid (s : Commands) : Type 0 where
  pub storage : length s.pending ≡ max_pending
  pub index_in : s.handler_index < max_pending

pub init-IsValid : IsValid init
unfolding init
init-IsValid = omega arith

pub add-IsValid : {s : Commands} (id : ℕ) (cmd : CmdType) → IsValid s → IsValid (add s id cmd).1
unfolding add add_handler
add-IsValid {s} id cmd v = elim (Option-cases (get_handler_func cmd)) [
  | inl e ↦ rw (e, add_handler) v
  | inr (h, e) ↦
      rw (e, add_handler)
        (record {
          storage = length-set s.pending s.handler_index _ ∙ v.storage;
          index_in = omega arith;
        })
]

-- No slot of the table holds the id.
abbrev pub Absent : ℕ → List IdHandlerPair → Type 0
Absent id [] = Unit
Absent id (p ∷ ps) = (p.id ≢ id) × Absent id ps

-- None of the first slots holds the id.
abbrev pub AbsentBefore : ℕ → List IdHandlerPair → ℕ → Type 0
AbsentBefore id [] n = Unit
AbsentBefore id (p ∷ ps) zero = Unit
AbsentBefore id (p ∷ ps) (suc n) = (p.id ≢ id) × AbsentBefore id ps n

Absent-Before : (id : ℕ) (ps : List IdHandlerPair) (n : ℕ) → Absent id ps → AbsentBefore id ps n
Absent-Before id [] n a = tt
Absent-Before id (p ∷ ps) zero a = tt
Absent-Before id (p ∷ ps) (suc n) a = (a.0, Absent-Before id ps n a.1)

-- Slot `i` is the first that holds the id, and holds this handler.
abbrev FirstAt : ℕ → Handler → List IdHandlerPair → ℕ → Type 0
FirstAt id h [] i = ⊥
FirstAt id h (p ∷ ps) zero = p ≡ record { id = id; func = some h }
FirstAt id h (p ∷ ps) (suc i) = (p.id ≢ id) × FirstAt id h ps i

FirstAt-find_pending :
    (id : ℕ) (h : Handler) (ps : List IdHandlerPair) (i : ℕ) (resp : Response)
    → resp.id ≡ id
    → FirstAt id h ps i
    → find_pending ps resp ≡ (success, call_handler h resp ∷ [])
unfolding find_pending
FirstAt-find_pending id h [] i resp e f = absurd f
FirstAt-find_pending id h (p ∷ ps) zero resp e f = ground arith
FirstAt-find_pending id h (p ∷ ps) (suc i) resp e f =
    ground (arith, FirstAt-find_pending id h ps i resp e f.1)

FirstAt-set_self :
    (id : ℕ) (h : Handler) (ps : List IdHandlerPair) (i : ℕ)
    → i < length ps
    → AbsentBefore id ps i
    → FirstAt id h (set ps i (record { id = id; func = some h })) i
FirstAt-set_self id h [] i lt a = absurd (omega arith)
FirstAt-set_self id h (p ∷ ps) zero lt a = refl
FirstAt-set_self id h (p ∷ ps) (suc i) lt a = (a.0, FirstAt-set_self id h ps i (omega arith) a.1)

FirstAt-set_ne :
    (id : ℕ) (h : Handler) (ps : List IdHandlerPair) (i j : ℕ) (p : IdHandlerPair)
    → j ≢ i
    → p.id ≢ id
    → FirstAt id h ps i
    → FirstAt id h (set ps j p) i
FirstAt-set_ne id h [] i j p ne other f = f
FirstAt-set_ne id h (q ∷ ps) zero zero p ne other f = absurd (ne refl)
FirstAt-set_ne id h (q ∷ ps) zero (suc j) p ne other f = f
FirstAt-set_ne id h (q ∷ ps) (suc i) zero p ne other f = (other, f.1)
FirstAt-set_ne id h (q ∷ ps) (suc i) (suc j) p ne other f =
    (f.0, FirstAt-set_ne id h ps i j p (λ e. ne (ap suc e)) other f.1)

-- The id was stored in slot `slot`, with room for `left` more commands before it is overwritten.
record Placed (id : ℕ) (h : Handler) (s : Commands) (left : ℕ) : Type 0 where
  slot : ℕ
  slot_in : slot < max_pending
  ahead : s.handler_index ≡ (slot + 32 - left) % max_pending
  fresh : left < max_pending
  found : FirstAt id h s.pending slot

-- A later command takes up a slot, or none if its type has no handler.
add-Placed :
    (id : ℕ) (h : Handler) (s : Commands) (left id' : ℕ) (cmd : CmdType)
    → id' ≢ id
    → Placed id h s (suc left)
    → (left' : ℕ) × (left ≤ left') × Placed id h (add s id' cmd).1 left'
unfolding add add_handler
add-Placed id h s left id' cmd ne p = elim (Option-cases (get_handler_func cmd)) [
  | inl e ↦ (suc left, omega arith, rw (e, add_handler) p)
  | inr (h', e) ↦ (
    left,
    omega arith,
    rw (e, add_handler)
        (record {
          slot = p.slot;
          slot_in = p.slot_in;
          ahead = omega (arith, p);
          fresh = omega (arith, p);
          found =
              FirstAt-set_ne id h s.pending p.slot s.handler_index
                (record { id = id'; func = some h' }) (omega (arith, p)) ne p.found;
        }),
  )
]

-- A sequence of calls of `add`.
unfoldable pub add_all : Commands → List (ℕ × CmdType) → Commands
add_all s [] = s
add_all s ((id, cmd) ∷ cs) = add_all (add s id cmd).1 cs

-- No command of the list goes by this id.
abbrev pub Differ : ℕ → List (ℕ × CmdType) → Type 0
Differ id [] = Unit
Differ id ((id', _) ∷ cs) = (id' ≢ id) × Differ id cs

add_all-Placed :
    (id : ℕ) (h : Handler) (s : Commands) (left : ℕ) (cs : List (ℕ × CmdType))
    → length cs ≤ left
    → Differ id cs
    → Placed id h s left
    → (left' : ℕ) × Placed id h (add_all s cs) left'
unfolding add_all
add_all-Placed id h s left [] le d p = (left, p)
add_all-Placed id h s zero (c ∷ cs) le d p = absurd (omega arith)
add_all-Placed id h s (suc left) ((id', cmd) ∷ cs) le d p =
    let (left', le', p') = add-Placed id h s left id' cmd d.0 p in
    add_all-Placed id h (add s id' cmd).1 left' cs (omega arith) d.1 p'

add-Placed_self :
    {s : Commands} (id : ℕ) (cmd : CmdType) (h : Handler)
    → IsValid s
    → get_handler_func cmd ≡ some h
    → AbsentBefore id s.pending s.handler_index
    → Placed id h (add s id cmd).1 31
unfolding add add_handler
add-Placed_self {s} id cmd h v e a =
    rw (e, add_handler)
      (record {
        slot = s.handler_index;
        slot_in = v.index_in;
        ahead = omega arith;
        fresh = omega arith;
        found = FirstAt-set_self id h s.pending s.handler_index (omega arith) a;
      })

-- A command whose type has a handler is added under an id that no slot holds before the one that is
-- written next, and at most 31 commands with other ids follow. Then a done response with that id
-- finds it.
pub execute_done-add_all_before :
    {s : Commands} (id : ℕ) (cmd : CmdType) (h : Handler) (cs : List (ℕ × CmdType))
    (resp : Response)
    → IsValid s
    → get_handler_func cmd ≡ some h
    → AbsentBefore id s.pending s.handler_index
    → length cs ≤ 31
    → Differ id cs
    → resp.id ≡ id
    → execute_done (add_all (add s id cmd).1 cs) resp ≡ (success, call_handler h resp ∷ [])
unfolding execute_done
execute_done-add_all_before {s} id cmd h cs resp v e a le d same =
    let (_, p) = add_all-Placed id h (add s id cmd).1 31 cs le d (add-Placed_self id cmd h v e a) in
    FirstAt-find_pending id h (add_all (add s id cmd).1 cs).pending p.slot resp same p.found

-- A command whose type has a handler is added under an id that the table does not hold, and at
-- most 31 commands with other ids follow. Then a done response with that id finds it: the call
-- succeeds, and the one idle call of its own handler is made.
pub execute_done-add_all :
    {s : Commands} (id : ℕ) (cmd : CmdType) (h : Handler) (cs : List (ℕ × CmdType))
    (resp : Response)
    → IsValid s
    → get_handler_func cmd ≡ some h
    → Absent id s.pending
    → length cs ≤ 31
    → Differ id cs
    → resp.id ≡ id
    → execute_done (add_all (add s id cmd).1 cs) resp ≡ (success, call_handler h resp ∷ [])
execute_done-add_all {s} id cmd h cs resp v e a le d same =
    execute_done-add_all_before id cmd h cs resp v e (Absent-Before id s.pending s.handler_index a)
      le d same
