-- ===== src/App/Fits.antt =====
-- What the table of src/command_handler.c may hold: a handler of recipe steps only once a recipe is
-- chosen (src/callbacks_position.c).
use ultramat.Base.{
  ℕ, zero, suc, sym, subst, inl, inr, List, [], ◌∷◌, Option, none, some, Status, ◌==◌, Bool-cases,
  Option-cases, set, replicate,
}
use ultramat.Drinks.{Recipe}
use ultramat.Proto.{Message, CmdType, Response}
use ultramat.CommandHandler
use ultramat.CommandHandler.{
  Commands, Handler, IdHandlerPair, hello_there_handler, recipe_step_handler, move_x_handler,
  move_y_handler, get_handler_func, run_func, call_handler, find_pending, execute_done, add,
  add_handler,
}
use ultramat.MessageHandler.{System, add_outgoing}
use ultramat.MessageHandler.Calls.{AllCalls, Gives}
use ultramat.MessageHandler.Linked.{Linked}
use ultramat.MessageHandler.Linked.Outgoing.{add_outgoing_cases}
use ultramat.Orders.Idle.{CallFits}

abbrev pub HandlerFits : Option Recipe → Option Handler → Type 0
HandlerFits (some rec) func = Unit
HandlerFits none none = Unit
HandlerFits none (some hello_there_handler) = Unit
HandlerFits none (some recipe_step_handler) = ⊥
HandlerFits none (some move_x_handler) = Unit
HandlerFits none (some move_y_handler) = Unit

abbrev pub TableFits : Option Recipe → List IdHandlerPair → Type 0
TableFits rec [] = Unit
TableFits rec (p ∷ ps) = HandlerFits rec p.func × TableFits rec ps

abbrev pub Fits : Option Recipe → System → Type 0
Fits rec s = TableFits rec s.commands.pending

-- With a recipe chosen all fits.
pub TableFits-some : (rec : Recipe) (ps : List IdHandlerPair) → TableFits (some rec) ps
TableFits-some rec [] = tt
TableFits-some rec (p ∷ ps) = (tt, TableFits-some rec ps)

TableFits-replicate :
    (rec : Option Recipe) (n : ℕ) (p : IdHandlerPair)
    → HandlerFits rec p.func
    → TableFits rec (replicate n p)
TableFits-replicate rec zero p fit = tt
TableFits-replicate rec (suc n) p fit = (fit, TableFits-replicate rec n p fit)

pub init-TableFits : (rec : Option Recipe) → TableFits rec (CommandHandler.init).pending
unfolding CommandHandler.init
init-TableFits none = TableFits-replicate none 32 (record { id = 0; func = none }) tt
init-TableFits (some rec) = TableFits-some rec (CommandHandler.init).pending

TableFits-set :
    (rec : Option Recipe) (ps : List IdHandlerPair) (i : ℕ) (p : IdHandlerPair)
    → HandlerFits rec p.func
    → TableFits rec ps
    → TableFits rec (set ps i p)
TableFits-set rec [] i p fit fits = tt
TableFits-set rec (q ∷ ps) zero p fit fits = (fit, fits.1)
TableFits-set rec (q ∷ ps) (suc i) p fit fits = (fits.0, TableFits-set rec ps i p fit fits.1)

run_func-CallFits :
    (rec : Option Recipe) (func : Option Handler) (resp : Response)
    → HandlerFits rec func
    → AllCalls (CallFits rec) (run_func func resp)
unfolding run_func call_handler
run_func-CallFits (some rec) none resp fit = tt
run_func-CallFits (some rec) (some h) resp fit = (tt, tt)
run_func-CallFits none none resp fit = tt
run_func-CallFits none (some hello_there_handler) resp fit = (tt, tt)
run_func-CallFits none (some recipe_step_handler) resp fit = absurd fit
run_func-CallFits none (some move_x_handler) resp fit = (tt, tt)
run_func-CallFits none (some move_y_handler) resp fit = (tt, tt)

find_pending-CallFits :
    (rec : Option Recipe) (ps : List IdHandlerPair) (resp : Response)
    → TableFits rec ps
    → AllCalls (CallFits rec) (find_pending ps resp).1
unfolding find_pending
find_pending-CallFits rec [] resp fits = tt
find_pending-CallFits rec (p ∷ ps) resp (fit, fits) = elim (Bool-cases (p.id == resp.id)) [
  | inl hit ↦ rw hit (run_func-CallFits rec p.func resp fit)
  | inr miss ↦ rw miss (find_pending-CallFits rec ps resp fits)
]

-- Such a table gives only calls that fit.
pub Fits-Gives : (rec : Option Recipe) (s : System) → Fits rec s → Gives (CallFits rec) s
unfolding execute_done
Fits-Gives rec s fits resp = find_pending-CallFits rec s.commands.pending resp fits

add-TableFits :
    (rec : Option Recipe) (s : Commands) (id : ℕ) (cmd : CmdType)
    → HandlerFits rec (get_handler_func cmd)
    → TableFits rec s.pending
    → TableFits rec (add s id cmd).1.pending
unfolding add add_handler
add-TableFits rec s id cmd fit fits = elim (Option-cases (get_handler_func cmd)) [
  | inl e ↦ rw e fits
  | inr (h, e) ↦ rw e (
      TableFits-set rec s.pending s.handler_index (record { id = id; func = some h })
        (subst (HandlerFits rec) e fit) fits)
]

pub add_outgoing-Fits :
    (rec : Option Recipe) (m : Message) (s : System)
    → HandlerFits rec (get_handler_func m.type)
    → Linked s
    → Fits rec s
    → Fits rec (add_outgoing s m).1
add_outgoing-Fits rec m s fit l fits = elim (add_outgoing_cases m l) [
  | inr r ↦ subst (λ (x : Status × System). Fits rec x.1) (sym r.result) fits
  | inl a ↦
      subst (λ (x : Status × System). Fits rec x.1) (sym a.result)
        (subst (λ (c : Commands). TableFits rec c.pending) (sym a.handled)
          (add-TableFits rec s.commands _ m.type fit fits))
]
