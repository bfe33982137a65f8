-- ===== src/Tests/Orders.antt =====
-- Orders (src/callbacks_position.c) for a concrete page, table and recipe.
use ultramat.Base.{◌≡◌, refl, false, true, [], ◌∷◌, ◌++◌, some, returns, arith, replicate, List}
use ultramat.Drinks.{get_ingredient_by_id}
use ultramat.Proto.{RecipeStep, response_init_zero}
use ultramat.Positions.{exists_id, already_exists}
use ultramat.MessageHandler.{System, init}
use ultramat.MessageHandler.Linked.{init-Linked}
use ultramat.Mixing.{final_step}
use ultramat.Mixing.Plan.{Plan, Queued}
use ultramat.Ring
use ultramat.Ring.Refine.{contents}
use ultramat.Orders.{Page, cleared, all_active, on_recipe_order_toggle, finished}
use ultramat.Orders.Checks.{on_recipe_order_toggle_starts}
use ultramat.Orders.Steps.{steps_done, counted, drink_ready, ordered_again, steps_done_after_error}
use ultramat.Tests.Worker.{off}
use ultramat.Tests.Mixer.{bar, juice, vodka, vodka_o}

-- The user has chosen a recipe of two ingredients and toggled the order button.
abbrev pub page : Page
page = record {
  active_recipe = some vodka_o;
  recipe_step_done_counter = 0;
  recipe_combo_sensitive = true;
  order_button = record { active = true; sensitive = true };
  motor_switch = true;
  manual_pos_buttons = replicate 8 (record { active = false; sensitive = true });
  manual_pos_y_button = record { active = false; sensitive = true };
  progress = cleared;
  mc_version = record { major = 0; minor = 0; bugfix = 1 };
}

on_recipe_order_toggle_starts_example :
    (todo : List RecipeStep) × (s' : System) × Plan bar vodka_o.ing_pairs todo
    × (on_recipe_order_toggle (juice ∷ vodka ∷ []) bar true page (init off) ≡ (
      record page {
        order_button = record { active = true; sensitive = false };
        recipe_combo_sensitive = false;
      },
      s',
      [],
    ))
    × Queued (init off) s' (todo ++ (final_step ∷ []))
unfolding all_active already_exists exists_id get_ingredient_by_id init contents Ring.init
on_recipe_order_toggle_starts_example =
    on_recipe_order_toggle_starts (juice ∷ vodka ∷ []) bar vodka_o page (init off) refl refl refl
      refl (omega arith, (omega arith, tt)) (init-Linked off) (omega arith)

-- An error after one of two ingredients: the next drink is said to be ready one step too early.
steps_done_after_error_example :
    let q =
      ordered_again "Serial read failed" response_init_zero vodka_o (counted 1 cleared page) in
    steps_done 2 q ≡ returns (finished q, drink_ready ∷ [])
steps_done_after_error_example =
    steps_done_after_error 1 "Serial read failed" response_init_zero (counted 1 cleared page)
      vodka_o (omega arith) refl
