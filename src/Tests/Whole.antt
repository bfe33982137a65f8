-- ===== src/Tests/Whole.antt =====
-- A run of the whole program: an ingredient and a recipe are chosen, the motor is switched on, the
-- serial thread makes a round, and a drink is ordered.
use ultramat.Base.{refl, true, [], ◌∷◌, arith, set, some}
use ultramat.Drinks.{Recipe, get_ingredient_by_id, get_recipe_by_id}
use ultramat.Positions.{
  exists_id, already_exists, get_array_index, select_positions, get_ing_pos, set_ing_pos,
}
use ultramat.Stores.{image_missing}
use ultramat.Selection.{
  PageOne, first_page, name_text, icon_image, choose, handle, choose_row, combo_position_changed,
  row_changed, place_in, set_both, set_pos_img, write_box,
}
use ultramat.Serial.{start_serial_connection, thread_start, thread_round}
use ultramat.Orders.{
  on_combo_order_changed, on_recipe_order_toggle, on_motor_switch_toggle, switched_on,
}
use ultramat.App.{
  App, Reachable, starts, goes_on, selects, picks, switches, works, orders, start, switched, after,
  worked, order_toggled, system_of,
}
use ultramat.App.Sound.{Safe, Reachable-Safe}
use ultramat.Tests.Worker.{up}
use ultramat.Tests.Connection.{all_well, silent}
use ultramat.Tests.Table.{rows, rum_and_gin}

abbrev long_island : Recipe
long_island = record { name = []; id = 7; ing_pairs = record { id = 4; count = 2 } ∷ [] }

abbrev with_rum : PageOne
with_rum = record {
  active = set first_page.active 0 (some (record { name = 82 ∷ []; id = 4 }));
  boxes =
      set first_page.boxes 0
        (record { row = some 0; text = name_text (82 ∷ []); image = icon_image image_missing });
}

abbrev selected : App
selected = record start { page_one = with_rum }

abbrev picked : App
picked = record selected { page = on_combo_order_changed (long_island ∷ []) 7 selected.page }

abbrev connected : App
connected = switched picked (on_motor_switch_toggle true all_well up picked.page picked.connection)

abbrev working : App
working = worked connected (thread_round silent 0 connected.connection)

abbrev ordered : App
ordered = after working (
    on_recipe_order_toggle rum_and_gin working.page_one.active working.connection.thread_running
      (order_toggled true working.page) (system_of working))

selected-Reachable : Reachable rum_and_gin rows (long_island ∷ []) selected
unfolding handle choose_row combo_position_changed row_changed place_in set_both set_pos_img
    write_box get_array_index get_ing_pos set_ing_pos already_exists exists_id select_positions
    get_ingredient_by_id
selected-Reachable = goes_on starts (selects (choose 0 0) with_rum (omega arith) refl)

connected-Reachable : Reachable rum_and_gin rows (long_island ∷ []) connected
unfolding get_recipe_by_id
connected-Reachable =
    goes_on (goes_on selected-Reachable (picks long_island 7 refl)) (switches true all_well up)

ordered-Reachable : Reachable rum_and_gin rows (long_island ∷ []) ordered
unfolding on_motor_switch_toggle switched_on start_serial_connection thread_start
ordered-Reachable = goes_on (goes_on connected-Reachable (works silent 0 refl)) (orders true)

Reachable-Safe_example : Safe rows ordered
Reachable-Safe_example =
    Reachable-Safe rum_and_gin rows (long_island ∷ []) (refl, refl, (refl, refl, tt))
      (omega arith, (refl, tt), (omega arith, tt, tt)) ordered-Reachable
