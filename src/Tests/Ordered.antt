-- ===== src/Tests/Ordered.antt =====
-- Orders of two ingredients, from the button to the finished drink, and a session.
use ultramat.Base.{
  ℕ, ◌≤◌, ◌≡◌, refl, [], ◌∷◌, ◌++◌, true, none, success, returns, ◌>>=◌, arith, List,
}
use ultramat.Ring
use ultramat.Ring.Refine.{contents}
use ultramat.Drinks.{get_ingredient_by_id, get_recipe_by_id}
use ultramat.Proto.{Message}
use ultramat.Positions.{exists_id, already_exists}
use ultramat.CommandHandler.Lookup.{init-IsValid}
use ultramat.CommandHandler.Recent.{Recent-Unused, init-Recent}
use ultramat.Wire.{send_msg}
use ultramat.MessageHandler.{init}
use ultramat.MessageHandler.Linked.{init-Linked}
use ultramat.MessageHandler.Service.{Service, Serves, Ready, serve}
use ultramat.Orders.Moves.{Moves, on_manual_pos_toggle-Moves}
use ultramat.Orders.{on_manual_pos_toggle, all_active, on_recipe_order_toggle, version_modals}
use ultramat.Orders.Steps.{drink_ready}
use ultramat.Orders.Complete.{Finishes, on_recipe_order_toggle-Finishes}
use ultramat.Orders.Session.{Order, Possible, EndsWell, connect, play}
use ultramat.Orders.Session.EndsWell.{connect-play-EndsWell}
use ultramat.Tests.Worker.{up, off}
use ultramat.Tests.Mixer.{bar, juice, vodka, vodka_o}
use ultramat.Tests.Orders.{page}
use ultramat.Tests.Connection.{all_well, unconnected}

up-takes : (m : Message) → send_msg up m ≡ success
unfolding send_msg
up-takes m = refl

abbrev times : List ℕ
times = 0 ∷ 0 ∷ 1 ∷ 2 ∷ 3 ∷ 90 ∷ []

abbrev service : Service
service = record {
  wire = up;
  start = 0;
  times = times;
  wire_after = up;
  times_after = 100 ∷ 200 ∷ 300 ∷ [];
}

service-Serves : Serves 3 service
service-Serves = record { takes = up-takes; punctual = omega arith; enough = refl; answers = refl }

init-Ready : (n : ℕ) → n ≤ 200 → Ready (init off) n 0
unfolding init contents Ring.init
init-Ready n few = record {
  linked = init-Linked off;
  state = refl;
  nothing_queued = refl;
  nothing_come = refl;
  table = init-IsValid;
  unused =
      Recent-Unused (init off).id_counter n (init off).commands few
        (init-Recent (init off).id_counter);
  fresh = tt;
}

on_recipe_order_toggle-Finishes_example :
    let (p₁, s₁, _) = on_recipe_order_toggle (juice ∷ vodka ∷ []) bar true page (init off) in
    Finishes p₁ (serve service none s₁)
unfolding all_active already_exists exists_id get_ingredient_by_id
on_recipe_order_toggle-Finishes_example =
    on_recipe_order_toggle-Finishes (juice ∷ vodka ∷ []) bar vodka_o page (init off) service none
      refl refl refl refl refl (omega arith, (omega arith, tt)) (omega arith)
      (init-Ready 3 (omega arith)) service-Serves

-- The same recipe, two times, after a first message that is answered without a version.
abbrev one_order : Order
one_order = record { active = bar; id = 1; service = service }

one_order-Possible : Possible (juice ∷ vodka ∷ []) (vodka_o ∷ []) one_order
unfolding all_active already_exists exists_id get_ingredient_by_id get_recipe_by_id
one_order-Possible = record {
  recipe = vodka_o;
  known = refl;
  few = omega arith;
  all = refl;
  small = (omega arith, (omega arith, tt));
  serves = service-Serves;
}

abbrev first_service : Service
first_service = record {
  wire = up;
  start = 0;
  times = 0 ∷ 0 ∷ [];
  wire_after = up;
  times_after = 1 ∷ [];
}

first_service-Serves : Serves 1 first_service
first_service-Serves = record {
  takes = up-takes;
  punctual = omega arith;
  enough = refl;
  answers = refl;
}

connect-play-EndsWell_example : EndsWell (version_modals none ++ (drink_ready ∷ drink_ready ∷ [])) (
    connect none all_well up first_service page unconnected >>= λ (q, t, ms).
    play (juice ∷ vodka ∷ []) (vodka_o ∷ []) none (one_order ∷ one_order ∷ []) q t
    >>= λ (q', t', ms'). returns (q', t', ms ++ ms'))
connect-play-EndsWell_example =
    connect-play-EndsWell (juice ∷ vodka ∷ []) (vodka_o ∷ []) none all_well up first_service page
      unconnected (one_order ∷ one_order ∷ []) refl refl refl refl refl first_service-Serves
      (one_order-Possible, (one_order-Possible, tt))

on_manual_pos_toggle-Moves_example :
    Moves 8 page (init off) first_service none (on_manual_pos_toggle true 8 page (init off))
on_manual_pos_toggle-Moves_example =
    on_manual_pos_toggle-Moves 8 page (init off) first_service none (omega arith) (omega arith)
      (init-Ready 1 (omega arith)) first_service-Serves
