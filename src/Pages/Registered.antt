-- ===== src/Pages/Registered.antt =====
-- After the set-up of the window every callback of src/callbacks_position.c finds its widgets.
use Prim.Native.String.{String}
use ultramat.Base.{
  ℕ, zero, suc, ◌+◌, ◌<◌, ◌≡◌, refl, true, List, [], ◌∷◌, map, some, returns, ltb, arith,
}
use ultramat.Base.Int.{pos}
use ultramat.Positions.{IngPos, get_array_index, select_positions}
use ultramat.Pages.{Widgets, no_widgets, Connected, BoxPos, combo_pos_str_map, Made, create_widgets}

-- All ids that GTK gave are larger than 0, as is documented of `g_signal_connect`.
pub record AllConnected (made : Made) : Type 0 where
  pub selections : (i : ℕ) → 0 < (made.selections i).combo.id
  pub switch : 0 < made.switch.id
  pub order_combo : 0 < made.order_combo.id
  pub order_button : 0 < made.order_button.id
  pub manual_y : 0 < made.manual_y.id
  pub manual : (p : ℕ) → 0 < (made.manual p).id

abbrev pub from_to : ℕ → ℕ → List ℕ
from_to i zero = []
from_to i (suc n) = i ∷ from_to (i + 1) n

ltb-id : (c : Connected) → 0 < c.id → ltb 0 c.id ≡ true
ltb-id c h = ground arith

-- What each static variable holds in the end.
abbrev pub all_widgets : Made → Widgets
all_widgets made = record {
  combo_boxs = map (λ i. some (made.selections i).combo.widget) (from_to 0 9);
  combo_cb_ids = map (λ i. (made.selections i).combo.id) (from_to 0 9);
  images = map (λ i. some (made.selections i).image) (from_to 0 9);
  manual_pos_buttons = map (λ p. some (made.manual p).widget) (from_to 1 8);
  manual_pos_button_ids = map (λ p. (made.manual p).id) (from_to 1 8);
  manual_pos_y_button = some made.manual_y.widget;
  manual_pos_y_button_id = made.manual_y.id;
  recipe_combo_box = some made.order_combo.widget;
  recipe_combo_id = made.order_combo.id;
  recipe_order_button = some made.order_button.widget;
  button_order_cb_id = made.order_button.id;
  motor_switch = some made.switch.widget;
  switch_motor_cb_id = made.switch.id;
  progress_bar = some made.bar;
  mc_version_label = some made.mc_version;
}

abbrev pub all_boxes : List String → List IngPos → List BoxPos
all_boxes [] ps = []
all_boxes (text ∷ texts) [] = []
all_boxes (text ∷ texts) (p ∷ ps) = record { label = text; position = p } ∷ all_boxes texts ps

-- If all ids that GTK gave are larger than 0, no assertion of the set-up fails, and in the end each
-- static variable holds its widget and the id of its handler: the combo boxes and images of the nine
-- positions of page one at the indices 0 to 8, and the manual buttons of PositionX_ONE to
-- PositionX_FINAL at 0 to 7. The box at each index has the text of its index, and gives its callbacks
-- a position that they map back to this index.
pub create_widgets-all :
    (made : Made)
    → AllConnected made
    → (create_widgets made no_widgets
        ≡ returns (all_widgets made, all_boxes combo_pos_str_map select_positions))
      × (map get_array_index select_positions ≡ map (λ i. returns (pos i)) (from_to 0 9))
unfolding create_widgets get_array_index select_positions
create_widgets-all made c = (
  rw (
    ltb-id made.switch c.switch,
    ltb-id (made.selections 0).combo (c.selections 0),
    ltb-id (made.selections 1).combo (c.selections 1),
    ltb-id (made.selections 2).combo (c.selections 2),
    ltb-id (made.selections 3).combo (c.selections 3),
    ltb-id (made.selections 4).combo (c.selections 4),
    ltb-id (made.selections 5).combo (c.selections 5),
    ltb-id (made.selections 6).combo (c.selections 6),
    ltb-id (made.selections 7).combo (c.selections 7),
    ltb-id (made.selections 8).combo (c.selections 8),
    ltb-id made.order_combo c.order_combo,
    ltb-id made.order_button c.order_button,
    ltb-id made.manual_y c.manual_y,
    ltb-id (made.manual 1) (c.manual 1),
    ltb-id (made.manual 2) (c.manual 2),
    ltb-id (made.manual 3) (c.manual 3),
    ltb-id (made.manual 4) (c.manual 4),
    ltb-id (made.manual 5) (c.manual 5),
    ltb-id (made.manual 6) (c.manual 6),
    ltb-id (made.manual 7) (c.manual 7),
    ltb-id (made.manual 8) (c.manual 8),
  ),
  refl,
)
