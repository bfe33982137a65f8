-- ===== src/Orders/Session.antt =====
-- A session: the motor switch of src/callbacks_position.c, the first message of src/proto_serial.c and
-- its answer, and then one order after another.
pub mod EndsWell
use ultramat.Base.{
  ℕ, suc, ◌+◌, ◌<◌, ◌≡◌, true, List, [], ◌∷◌, ◌++◌, Option, some, Outcome, returns, ◌>>=◌, length,
}
use ultramat.Drinks.{Ingredient, Recipe, get_recipe_by_id}
use ultramat.Proto.{McVersion}
use ultramat.Wire.{Wire}
use ultramat.Positions.{Active}
use ultramat.Serial.{Connection, ThreadState, opened, looping, absent, ended, Answers}
use ultramat.MessageHandler.{System, Effect}
use ultramat.MessageHandler.Service.{Service, Serves, serve, Calm}
use ultramat.Orders.{
  Page, Modal, all_active, on_combo_order_changed, on_recipe_order_toggle, on_motor_switch_toggle,
}
use ultramat.Orders.Checks.{Small}
use ultramat.Orders.Idle.{run_effects}

-- An order: the ingredients that are selected, the id that the recipe box gives, and when the worker
-- gets to it.
pub record Order : Type 0 where
  pub active : Active
  pub id : ℕ
  pub service : Service

-- The user chooses a recipe and pushes the order button.
abbrev pub ordering : List Recipe → ℕ → Page → Page
unfolding on_combo_order_changed
ordering recs id p = record (on_combo_order_changed recs id p) {
  order_button = record { active = true; sensitive = p.order_button.sensitive };
}

-- What the worker does with the messages of a batch, if its thread is in its loop.
abbrev pub work_in : ThreadState → Service → Option McVersion → System → System × List Effect
work_in looping svc v s = serve svc v s
work_in absent svc v s = (s, [])
work_in ended svc v s = (s, [])

-- What the GUI does at last, with the messages to the user so far.
abbrev pub ending :
    List Modal → Connection → System × List Effect → Page → Outcome (Page × Connection × List Modal)
ending ms c (s, calls) p =
    run_effects calls p >>= λ (q, ms'). returns (q, record c { system = s }, ms ++ ms')

-- The user switches the motor on, and the worker gets to the first message.
pub connect :
    Option McVersion
    → Answers
    → Wire
    → Service
    → Page
    → Connection
    → Outcome (Page × Connection × List Modal)
connect v a w svc p c =
    let (p₁, c₁, _, ms) = on_motor_switch_toggle true a w p c in
    ending ms c₁ (work_in c₁.thread svc v c₁.system) p₁

-- The user can order, and no step is counted.
pub record AtEase (p : Page) : Type 0 where
  pub button : p.order_button.sensitive ≡ true
  pub box : p.recipe_combo_sensitive ≡ true
  pub counter : p.recipe_step_done_counter ≡ 0

-- The thread is in its loop on an open port, and the program knows.
pub record Up (c : Connection) : Type 0 where
  pub port : c.ser ≡ opened
  pub running : c.thread_running ≡ true
  pub thread : c.thread ≡ looping

-- These messages to the user; then the next order can be given, and the worker is at rest.
abbrev pub EndsWell : List Modal → Outcome (Page × Connection × List Modal) → Type 0
EndsWell ms r =
    (q : Page) × (c : Connection) × (r ≡ returns (q, c, ms)) × AtEase q × Up c × Calm c.system

module _ (ings : List Ingredient) (recs : List Recipe) where
  -- The recipe is there with at most 30 pairs, its ingredients are selected and have ids of 8 bits, and
  -- the worker gets to it in time.
  pub record Possible (o : Order) : Type 0 where
    pub recipe : Recipe
    pub known : get_recipe_by_id recs o.id ≡ some recipe
    pub few : length recipe.ing_pairs < 31
    pub all : all_active ings o.active recipe.ing_pairs ≡ true
    pub small : Small recipe.ing_pairs
    pub serves : Serves (suc (length recipe.ing_pairs)) o.service

  abbrev pub AllPossible : List Order → Type 0
  AllPossible [] = Unit
  AllPossible (o ∷ os) = Possible o × AllPossible os

module _ (ings : List Ingredient) (recs : List Recipe) (v : Option McVersion) where
  -- An order, while `proto_comms_thread_running()` gives what the connection says.
  pub order : Order → Page → Connection → Outcome (Page × Connection × List Modal)
  order o p c =
      let (p₁, s₁, ms) =
        on_recipe_order_toggle ings o.active c.thread_running (ordering recs o.id p) c.system in
      ending ms c (work_in c.thread o.service v s₁) p₁

  -- Orders, one after another.
  pub play : List Order → Page → Connection → Outcome (Page × Connection × List Modal)
  unfolding order
  play [] p c = returns (p, c, [])
  play (o ∷ os) p c =
      order o p c >>= λ (q, d, ms). play os q d >>= λ (q', d', ms'). returns (q', d', ms ++ ms')
