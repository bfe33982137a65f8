-- ===== src/Orders/Idle.antt =====
-- What the effects of the worker do to the page: the callbacks of src/callbacks_position.c that
-- src/command_handler.c gives to `gdk_threads_add_idle`, run in that order, and the error of the
-- connection, which src/message_handler.c calls itself.
use ultramat.Base.{
  ℕ, zero, suc, ◌+◌, ◌≡◌, refl, sym, ap, subst, ◌∙◌, inl, inr, List, [], ◌∷◌, map, length,
  replicate, Option, none, some, Outcome, returns, aborts, ◌>>=◌, ◌==◌, Bool-cases, u16,
}
use ultramat.Drinks.{Recipe}
use ultramat.MessageHandler.Calls.{AllCalls}
use ultramat.CommandHandler.{
  IdleCall, cb_cmd_hello_there_done, cb_cmd_step_done, cb_cmd_move_x_done, cb_cmd_move_y_done,
}
use ultramat.MessageHandler.{Effect, idle_call, sent, serial_error}
use ultramat.Orders.{
  step_done, Page, Modal, cmd_hello_there_done, cmd_step_done, cmd_move_x_done, cmd_move_y_done,
  error_serial_communication,
}
use ultramat.Orders.Steps.{show, steps_done}

unfoldable pub run_idle_call : IdleCall → Page → Outcome (Page × List Modal)
run_idle_call (cb_cmd_hello_there_done resp) p = returns (cmd_hello_there_done resp p)
run_idle_call cb_cmd_step_done p = cmd_step_done p
run_idle_call cb_cmd_move_x_done p = returns (cmd_move_x_done p, [])
run_idle_call cb_cmd_move_y_done p = returns (cmd_move_y_done p, [])

-- A message that goes out changes nothing on the page.
run_effect : Effect → Page → Outcome (Page × List Modal)
unfolding run_idle_call
run_effect (idle_call call) p = run_idle_call call p
run_effect (serial_error text) p = returns (error_serial_communication text p)
run_effect (sent m) p = returns (p, [])

-- `cb_cmd_step_done` needs a recipe.
abbrev pub CallFits : Option Recipe → IdleCall → Type 0
CallFits (some rec) call = Unit
CallFits none (cb_cmd_hello_there_done resp) = Unit
CallFits none cb_cmd_step_done = ⊥
CallFits none cb_cmd_move_x_done = Unit
CallFits none cb_cmd_move_y_done = Unit

-- The call returns, and the recipe is still the same.
abbrev pub RunsOn : Page → Outcome (Page × List Modal) → Type 0
RunsOn p r =
    (q : Page) × (ms : List Modal) × (r ≡ returns (q, ms)) × (q.active_recipe ≡ p.active_recipe)

step_done-RunsOn : (rec : Recipe) (p : Page) → RunsOn p (returns (step_done rec p))
unfolding step_done
step_done-RunsOn rec p =
    let moves = u16 (length rec.ing_pairs + 1) in
    elim (Bool-cases (u16 (p.recipe_step_done_counter + 1) == moves)) [
      | inl last ↦ (_, _, refl, rw last)
      | inr more ↦ (_, _, refl, rw more)
    ]

cmd_step_done-RunsOn :
    (rec : Option Recipe) (p : Page)
    → p.active_recipe ≡ rec
    → CallFits rec cb_cmd_step_done
    → RunsOn p (cmd_step_done p)
unfolding cmd_step_done
cmd_step_done-RunsOn none p e fits = absurd fits
cmd_step_done-RunsOn (some rec) p e fits =
    let (q, ms, r, same) = step_done-RunsOn rec p in
    let run : Option Recipe → Outcome (Page × List Modal) =
      λ o. elim o [ none ↦ aborts | some chosen ↦ returns (step_done chosen p) ] in
    (q, ms, ap run e ∙ r, same)

pub run_idle_call-RunsOn :
    (call : IdleCall) (p : Page) → CallFits p.active_recipe call → RunsOn p (run_idle_call call p)
unfolding run_idle_call cmd_hello_there_done cmd_move_x_done cmd_move_y_done
run_idle_call-RunsOn (cb_cmd_hello_there_done resp) p fits = (_, _, refl, refl)
run_idle_call-RunsOn cb_cmd_step_done p fits = cmd_step_done-RunsOn p.active_recipe p refl fits
run_idle_call-RunsOn cb_cmd_move_x_done p fits = (_, _, refl, refl)
run_idle_call-RunsOn cb_cmd_move_y_done p fits = (_, _, refl, refl)

unfoldable pub run_effects : List Effect → Page → Outcome (Page × List Modal)
unfolding run_effect
run_effects [] p = returns (p, [])
run_effects (fx ∷ later) p =
    run_effect fx p >>= λ (q, ms). run_effects later q >>= λ r. returns (show ms r)

pub run_effects-steps :
    (n : ℕ) (p : Page) → run_effects (replicate n (idle_call cb_cmd_step_done)) p ≡ steps_done n p
unfolding run_effects steps_done
run_effects-steps zero p = refl
run_effects-steps (suc n) p =
    λ i. cmd_step_done p >>= λ (q, ms). run_effects-steps n q i >>= λ r. returns (show ms r)

-- Calls that fit the recipe all return, one after another.
pub run_effects-RunsOn :
    (calls : List IdleCall) (p : Page)
    → AllCalls (CallFits p.active_recipe) calls
    → RunsOn p (run_effects (map idle_call calls) p)
unfolding run_effects run_effect
run_effects-RunsOn [] p fits = (p, [], refl, refl)
run_effects-RunsOn (call ∷ calls) p (fit, fits) =
    let (q, ms, r, same) = run_idle_call-RunsOn call p fit in
    let (q', ms', r', same') =
      run_effects-RunsOn calls q (subst (λ rec. AllCalls (CallFits rec) calls) (sym same) fits) in
    (
      q',
      _,
      ap (λ m. m >>= λ (q, ms). run_effects (map idle_call calls) q >>= λ s. returns (show ms s)) r
          ∙ ap (λ m. m >>= λ s. returns (show ms s)) r',
      same' ∙ same,
    )
