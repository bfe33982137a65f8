-- ===== src/Tests/Table.antt =====
-- The table of ingredients of src/callbacks_position.c at concrete tables.
use ultramat.Base.{
  ◌≡◌, refl, [], ◌∷◌, some, none, aborts, arith, set, replicate, List, ◌⊎◌, returns,
}
use ultramat.Stores.{IngredientRow, image_missing, from_file}
use ultramat.Selection.{PageOne, Event, choose, reset, first_page, handle_all}
use ultramat.Selection.Drawing.{Drawn}
use ultramat.Selection.Drawn.{SomeAtEnd, handle_all-Drawn}
use ultramat.Drinks.{Ingredient, get_ingredient_by_id}
use ultramat.Positions.{Active, exists_id, on_combo_position_changed, on_reset_btn_clicked}
use ultramat.Positions.Laws.{select}
use ultramat.Positions.Callbacks.{on_combo_position_changed_at, on_reset_btn_clicked_at}

abbrev rum : Ingredient
rum = record { name = []; id = 4 }

abbrev gin : Ingredient
gin = record { name = []; id = 5 }

-- Rum at the second pump.
abbrev with_rum : Active
with_rum = set (replicate 9 none) 1 (some rum)

-- The same ingredient once more, at the last position: the program stops.
on_combo_position_changed_at_example :
    on_combo_position_changed (rum ∷ gin ∷ []) with_rum (select 8) 4 ≡ aborts
unfolding exists_id get_ingredient_by_id
on_combo_position_changed_at_example =
    on_combo_position_changed_at (rum ∷ gin ∷ []) with_rum 8 4 rum (omega arith) refl

on_reset_btn_clicked_at_example : on_reset_btn_clicked with_rum (select 8) ≡ aborts
on_reset_btn_clicked_at_example = on_reset_btn_clicked_at with_rum 8 (omega arith)

-- Rum at the first position, then gin instead, rum at the last position, and the first one reset.
abbrev pub rows : List IngredientRow
rows =
    record { name = 82 ∷ []; id = 4; icon = image_missing }
    ∷ record { name = 71 ∷ []; id = 5; icon = from_file "img/cmp_gin.png" }
    ∷ []

abbrev pub rum_and_gin : List Ingredient
rum_and_gin = record { name = 82 ∷ []; id = 4 } ∷ record { name = 71 ∷ []; id = 5 } ∷ []

abbrev events : List Event
events = choose 0 0 ∷ choose 0 1 ∷ choose 8 0 ∷ reset 0 ∷ []

handle_all-Drawn_example :
    ((handle_all rum_and_gin rows events first_page ≡ aborts) × SomeAtEnd events)
    ⊎ ((q : PageOne) × (handle_all rum_and_gin rows events first_page ≡ returns q) × Drawn rows q)
handle_all-Drawn_example =
    handle_all-Drawn rum_and_gin rows events
      (omega arith, (omega arith, (omega arith, (omega arith, tt)))) (refl, refl, (refl, refl, tt))
      (omega arith, (refl, tt), (omega arith, tt, tt))
