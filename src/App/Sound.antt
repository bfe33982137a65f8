-- ===== src/App/Sound.antt =====
-- What always holds of the whole program, whatever the user, the port and the two threads do.
use ultramat.Base.{
  ℕ, ◌≡◌, sym, ap, subst, ◌∙◌, inl, inr, List, [], ◌∷◌, ◌++◌, map, Option, none, some,
}
use ultramat.Drinks.{Ingredient, Recipe}
use ultramat.Stores.{IngredientRow}
use ultramat.Stores.Rows.{RowsOf}
use ultramat.CommandHandler.{IdleCall}
use ultramat.MessageHandler.{System, Effect, idle_call, init}
use ultramat.MessageHandler.Calls.{calls_in, AllCalls, AllCalls-append}
use ultramat.MessageHandler.Linked.{Linked, init-Linked}
use ultramat.Serial.{Connection, Port, thread_round, round}
use ultramat.Serial.Lifecycle.{round-Linked}
use ultramat.Serial.Kept.{round-commands, round-calls}
use ultramat.Selection.Drawing.{ProperIds, Drawn}
use ultramat.Selection.Drawn.{handle-Handled, first_page-Drawn}
use ultramat.Orders.{
  Page, Modal, on_combo_order_changed, on_recipe_order_toggle, on_manual_pos_toggle,
  on_manual_pos_y_toggle, on_motor_switch_toggle,
}
use ultramat.Orders.Idle.{CallFits, RunsOn, run_idle_call-RunsOn, run_effects, run_effects-RunsOn}
use ultramat.App.{
  App, start, static_system, Step, Reachable, selects, picks, orders, moves_x, moves_y, switches,
  works, runs, starts, goes_on, after, switched, order_toggled, manual_toggled, y_toggled,
  system_of,
}
use ultramat.App.Fits.{TableFits, TableFits-some, init-TableFits, Fits-Gives}
use ultramat.App.Steps.{
  Served, Kept, SwitchKept, on_recipe_order_toggle-Kept, on_manual_pos_toggle-Kept,
  on_manual_pos_y_toggle-Kept, on_motor_switch_toggle-Kept, errors_on-recipe,
}

-- Page one shows its table, the worker is linked, and the calls in the idle queue fit the recipe, now
-- and later.
record Sound (rows : List IngredientRow) (a : App) : Type 0 where
  drawn : Drawn rows a.page_one
  served : Served a.page.active_recipe a.connection.system
  calls : AllCalls (CallFits a.page.active_recipe) a.idle_queue

AllCalls-some : (rec : Recipe) (calls : List IdleCall) → AllCalls (CallFits (some rec)) calls
AllCalls-some rec [] = tt
AllCalls-some rec (call ∷ calls) = (tt, AllCalls-some rec calls)

start-Sound : (rows : List IngredientRow) → Sound rows start
unfolding init
start-Sound rows = record {
  drawn = first_page-Drawn rows;
  served = record { linked = init-Linked static_system; fits = init-TableFits none };
  calls = tt;
}

after-Sound :
    (rows : List IngredientRow) (a : App) (r : Page × System × List Modal)
    → Kept a.page r
    → Sound rows a
    → Sound rows (after a r)
after-Sound rows a (q, s, ms) (same, v) sound = record {
  drawn = sound.drawn;
  served = subst (λ rec. Served rec s) (sym same) v;
  calls = subst (λ rec. AllCalls (CallFits rec) a.idle_queue) (sym same) sound.calls;
}

switched-Sound :
    (rows : List IngredientRow) (a : App) (r : Page × Connection × List Effect × List Modal)
    → SwitchKept a.page r
    → Sound rows a
    → Sound rows (switched a r)
switched-Sound rows a (q, c, fx, ms) (same, v) sound = record {
  drawn = sound.drawn;
  served = subst (λ rec. Served rec c.system) (sym same) v;
  calls = subst (λ rec. AllCalls (CallFits rec) a.idle_queue) (sym same) sound.calls;
}

round-Served :
    (rec : Option Recipe) (port : Port) (now : ℕ) (s : System)
    → Served rec s
    → Served rec (round port now s).1
round-Served rec port now s v = record {
  linked = round-Linked port now v.linked;
  fits = subst (λ c. TableFits rec c.pending) (sym (round-commands port now s)) v.fits;
}

module _ (ings : List Ingredient) (rows : List IngredientRow) (recs : List Recipe)
    (of : RowsOf ings rows) (ids : ProperIds rows) where
  Step-Sound : {a b : App} → Step ings rows recs a b → Sound rows a → Sound rows b
  unfolding on_combo_order_changed thread_round
  Step-Sound {a} (selects e p here goes) sound =
      elim (handle-Handled ings rows e a.page_one here of ids sound.drawn) [
        | inl (stops, high) ↦ absurd (cc (stops, goes))
        | inr (q, goes', d) ↦
            let same : q ≡ p = cc (goes, goes') in
            record { drawn = subst (Drawn rows) same d; served = sound.served; calls = sound.calls }
      ]
  Step-Sound {a} (picks rec id known) sound = record {
    drawn = sound.drawn;
    served =
        subst (λ r. Served r a.connection.system) (sym known)
          (record { linked = sound.served.linked; fits = TableFits-some rec _ });
    calls =
        subst (λ r. AllCalls (CallFits r) a.idle_queue) (sym known)
          (AllCalls-some rec a.idle_queue);
  }
  Step-Sound {a} (orders b) sound =
      let p = order_toggled b a.page in
      let active = a.page_one.active in
      let running = a.connection.thread_running in
      let t = system_of a in
      after-Sound rows a (on_recipe_order_toggle ings active running p t)
        (on_recipe_order_toggle-Kept ings active running p t sound.served) sound
  Step-Sound {a} (moves_x b x) sound =
      let p = manual_toggled b x a.page in
      let running = a.connection.thread_running in
      after-Sound rows a (on_manual_pos_toggle running x p (system_of a))
        (on_manual_pos_toggle-Kept running x p (system_of a) sound.served) sound
  Step-Sound {a} (moves_y b) sound =
      let p = y_toggled b a.page in
      let running = a.connection.thread_running in
      after-Sound rows a (on_manual_pos_y_toggle running p (system_of a))
        (on_manual_pos_y_toggle-Kept running p (system_of a) sound.served) sound
  Step-Sound {a} (switches b answers w) sound =
      switched-Sound rows a (on_motor_switch_toggle b answers w a.page a.connection)
        (on_motor_switch_toggle-Kept b answers w a.page a.connection sound.served) sound
  Step-Sound {a} (works port now looping) sound =
      let rec = a.page.active_recipe in
      let s = a.connection.system in
      let fx = (round port now s).2 in
      let gives = Fits-Gives rec s sound.served.fits in
      let same = errors_on-recipe fx a.page in
      record {
        drawn = sound.drawn;
        served =
            subst (λ r. Served r (round port now s).1) (sym same)
              (round-Served rec port now s sound.served);
        calls =
            subst (λ r. AllCalls (CallFits r) (a.idle_queue ++ calls_in fx)) (sym same)
              (AllCalls-append (CallFits rec) a.idle_queue (calls_in fx) sound.calls
                (round-calls (CallFits rec) port now s gives));
      }
  Step-Sound {a} (runs call calls p ms first goes) sound =
      let rec = a.page.active_recipe in
      let fits : AllCalls (CallFits rec) (call ∷ calls) =
        subst (AllCalls (CallFits rec)) first sound.calls in
      let (q, ms', goes', kept) = run_idle_call-RunsOn call a.page fits.0 in
      let there : q ≡ p = cc (goes, goes') in
      let same : p.active_recipe ≡ rec = sym (ap (λ (x : Page). x.active_recipe) there) ∙ kept in
      record {
        drawn = sound.drawn;
        served = subst (λ r. Served r a.connection.system) (sym same) sound.served;
        calls = subst (λ r. AllCalls (CallFits r) calls) (sym same) fits.1;
      }

  Reachable-Sound : {a : App} → Reachable ings rows recs a → Sound rows a
  Reachable-Sound starts = start-Sound rows
  Reachable-Sound (goes_on r s) = Step-Sound s (Reachable-Sound r)

-- Page one shows its table of ingredients, each at one position at most; the worker's rings and state
-- belong together; and the calls in the idle queue can all run.
pub record Safe (rows : List IngredientRow) (a : App) : Type 0 where
  pub drawn : Drawn rows a.page_one
  pub linked : Linked a.connection.system
  pub runs : RunsOn a.page (run_effects (map idle_call a.idle_queue) a.page)

-- The store has a row for each ingredient of the file, and the ids have 16 bits and are all different.
-- From the start of the program, let the user do what the pages offer (but nothing that stops the
-- program), the serial thread make its rounds whatever the port gives, and the idle calls run, in any
-- order, over any number of connections. Then page one shows the table of active ingredients, which has
-- no ingredient twice; the pending ids, the queue and the state of the worker belong together; and the
-- done callbacks that wait in the idle queue all return: `cb_cmd_step_done` never finds that no recipe
-- was chosen.
pub Reachable-Safe :
    (ings : List Ingredient) (rows : List IngredientRow) (recs : List Recipe) {a : App}
    → RowsOf ings rows
    → ProperIds rows
    → Reachable ings rows recs a
    → Safe rows a
Reachable-Safe ings rows recs {a} of ids r =
    let sound = Reachable-Sound ings rows recs of ids r in
    record {
      drawn = sound.drawn;
      linked = sound.served.linked;
      runs = run_effects-RunsOn a.idle_queue a.page sound.calls;
    }
