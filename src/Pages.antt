-- ===== src/Pages.antt =====
-- How src/pages.c and src/gui.c set up the widgets whose callbacks are in src/callbacks_position.c:
-- its `cb_set_*` functions, and the order of their calls. A widget and the id of a signal's handler
-- are numbers, given by GTK; what is set of a widget and where it is packed are in Layout.
pub mod Registered
use Prim.Native.String.{String}
use ultramat.Base.{
  ℕ, zero, suc, ◌+◌, ◌-◌, Bool, false, ◌&&◌, List, [], ◌∷◌, Option, none, some, Outcome, returns,
  aborts, ◌>>=◌, ltb, leb, ◌==◌, not, if◌then◌else◌, set, get_elem?, u8, replicate,
}
use ultramat.Base.Int.{ℤ, pos, negsuc}
use ultramat.Proto.{PositionX}
use ultramat.Positions.{
  IngPos, guard, get_array_index, combo_pos_num, max_positions, select_positions,
}

-- The static widgets of src/callbacks_position.c with the ids of their handlers, and that of
-- src/callbacks_info.c. `none` is a null
-- pointer.
pub record Widgets : Type 0 where
  pub combo_boxs : List (Option ℕ)
  pub combo_cb_ids : List ℕ
  pub images : List (Option ℕ)
  pub manual_pos_buttons : List (Option ℕ)
  pub manual_pos_button_ids : List ℕ
  pub manual_pos_y_button : Option ℕ
  pub manual_pos_y_button_id : ℕ
  pub recipe_combo_box : Option ℕ
  pub recipe_combo_id : ℕ
  pub recipe_order_button : Option ℕ
  pub button_order_cb_id : ℕ
  pub motor_switch : Option ℕ
  pub switch_motor_cb_id : ℕ
  pub progress_bar : Option ℕ
  pub mc_version_label : Option ℕ

-- PositionX_FINAL, the length of the arrays of manual buttons.
abbrev pub x_final : ℕ
x_final = 8

-- Static variables start as 0.
abbrev pub no_widgets : Widgets
no_widgets = record {
  combo_boxs = replicate max_positions none;
  combo_cb_ids = replicate max_positions 0;
  images = replicate max_positions none;
  manual_pos_buttons = replicate x_final none;
  manual_pos_button_ids = replicate x_final 0;
  manual_pos_y_button = none;
  manual_pos_y_button_id = 0;
  recipe_combo_box = none;
  recipe_combo_id = 0;
  recipe_order_button = none;
  button_order_cb_id = 0;
  motor_switch = none;
  switch_motor_cb_id = 0;
  progress_bar = none;
  mc_version_label = none;
}

-- A widget and the id of the handler that `g_signal_connect` connected to it.
pub record Connected : Type 0 where
  pub widget : ℕ
  pub id : ℕ

-- comboPosStrMap
abbrev pub combo_pos_str_map : List String
combo_pos_str_map =
    "Pumpe 1" ∷ "Pumpe 2" ∷ "Pumpe 3" ∷ "Barbutler 1" ∷ "Barbutler 2" ∷ "Barbutler 3"
    ∷ "Barbutler 4" ∷ "Barbutler 5" ∷ "Barbutler 6" ∷ []

-- The tests that three functions make of an x position.
abbrev pub is_combo_pos : ℤ → Bool
is_combo_pos (negsuc n) = false
is_combo_pos (pos n) = ltb n combo_pos_num

-- Outside of an array the behaviour is undefined.
at_index : Option String → Outcome String
at_index none = aborts
at_index (some text) = returns text

label_at : ℤ → Outcome String
unfolding at_index
label_at (negsuc n) = aborts
label_at (pos i) = at_index (get_elem? combo_pos_str_map i)

-- `cb_get_combo_pos_string`
get_combo_pos_string : IngPos → Outcome String
unfolding label_at
get_combo_pos_string p = guard (is_combo_pos p.x_pos) (get_array_index p >>= label_at)

store_combo : Widgets → Connected → ℤ → Outcome Widgets
store_combo w c (negsuc n) = aborts
store_combo w c (pos i) = guard (ltb i max_positions) (
    returns (record w {
      combo_boxs = set w.combo_boxs i (some c.widget);
      combo_cb_ids = set w.combo_cb_ids i c.id;
    }))

-- `cb_set_combo_position_callback`
set_combo_position_callback : Widgets → Connected → IngPos → Outcome Widgets
unfolding store_combo
set_combo_position_callback w c p =
    guard (ltb 0 c.id && is_combo_pos p.x_pos) (get_array_index p >>= store_combo w c)

store_image : Widgets → ℕ → ℤ → Outcome Widgets
store_image w img (negsuc n) = aborts
store_image w img (pos i) =
    guard (ltb i max_positions) (returns (record w { images = set w.images i (some img) }))

-- `cb_set_combo_position_image`
set_combo_position_image : Widgets → ℕ → IngPos → Outcome Widgets
unfolding store_image
set_combo_position_image w img p =
    guard (is_combo_pos p.x_pos) (get_array_index p >>= store_image w img)

-- `cb_set_manual_pos_callback`
set_manual_pos_callback : Widgets → Connected → PositionX → Outcome Widgets
set_manual_pos_callback w c p = guard (ltb 0 c.id && (not (p == 0) && leb p x_final)) (
    returns (record w {
      manual_pos_button_ids = set w.manual_pos_button_ids (u8 (p - 1)) c.id;
      manual_pos_buttons = set w.manual_pos_buttons (u8 (p - 1)) (some c.widget);
    }))

-- `cb_set_manual_pos_y_callback`
set_manual_pos_y_callback : Widgets → Connected → Outcome Widgets
set_manual_pos_y_callback w c =
    guard (ltb 0 c.id)
      (returns (record w { manual_pos_y_button_id = c.id; manual_pos_y_button = some c.widget }))

-- `cb_set_combo_order_callback_id` and `cb_set_combo_order_widget`
set_combo_order : Widgets → Connected → Outcome Widgets
set_combo_order w c =
    guard (ltb 0 c.id)
      (returns (record w { recipe_combo_id = c.id; recipe_combo_box = some c.widget }))

-- `cb_set_button_order_callback_id` and `cb_set_button_order_widget`
set_button_order : Widgets → Connected → Outcome Widgets
set_button_order w c =
    guard (ltb 0 c.id)
      (returns (record w { button_order_cb_id = c.id; recipe_order_button = some c.widget }))

-- `cb_set_motor_switch_callback_id` and `cb_set_motor_switch_widget`
set_motor_switch : Widgets → Connected → Outcome Widgets
set_motor_switch w c =
    guard (ltb 0 c.id)
      (returns (record w { switch_motor_cb_id = c.id; motor_switch = some c.widget }))

-- What GTK makes for one selection of page one.
pub record Selection : Type 0 where
  pub image : ℕ
  pub combo : Connected

-- A box of page one: its text, and the position that its combo box and its reset button give to their
-- callbacks.
pub record BoxPos : Type 0 where
  pub label : String
  pub position : IngPos

-- `add_ing_selection`
add_ing_selection : Widgets → Selection → IngPos → Outcome (Widgets × BoxPos)
unfolding get_combo_pos_string set_combo_position_image set_combo_position_callback
add_ing_selection w new p = get_combo_pos_string p >>= λ text.
    set_combo_position_image w new.image p >>= λ w₁.
    set_combo_position_callback w₁ new.combo p >>= λ w₂.
    returns (w₂, record { label = text; position = p })

-- The loop of `populateStackPage_One`, over the positions from index `i` on.
populate_from : (ℕ → Selection) → ℕ → List IngPos → Widgets → Outcome (Widgets × List BoxPos)
unfolding add_ing_selection
populate_from new i [] w = returns (w, [])
populate_from new i (p ∷ ps) w = add_ing_selection w (new i) p >>= λ (w₁, box).
    populate_from new (i + 1) ps w₁ >>= λ (w₂, boxes). returns (w₂, box ∷ boxes)

unfoldable pub populate_one : (ℕ → Selection) → Widgets → Outcome (Widgets × List BoxPos)
unfolding populate_from
populate_one new w = populate_from new 0 select_positions w

-- `cb_set_progress_bar_widget`
abbrev set_progress_bar : Widgets → ℕ → Widgets
set_progress_bar w bar = record w { progress_bar = some bar }

-- The calls of `populateStackPage_Two`.
populate_two : Connected → Connected → ℕ → Widgets → Outcome Widgets
unfolding set_combo_order set_button_order
populate_two combo button bar w = set_combo_order w combo >>= λ w₁.
    set_button_order w₁ button >>= λ w₂. returns (set_progress_bar w₂ bar)

-- The calls for the x buttons, from position `p` on.
populate_manual : (ℕ → Connected) → ℕ → PositionX → Widgets → Outcome Widgets
unfolding set_manual_pos_callback
populate_manual new zero p w = returns w
populate_manual new (suc n) p w =
    set_manual_pos_callback w (new p) p >>= λ w₁. populate_manual new n (p + 1) w₁

-- The calls of `populateStackPage_Three`: the y button, and the x buttons from PositionX_ONE to
-- PositionX_FINAL. The button of a position gives it to its callback.
populate_three : Connected → (PositionX → Connected) → Widgets → Outcome Widgets
unfolding populate_manual set_manual_pos_y_callback
populate_three y new w = set_manual_pos_y_callback w y >>= λ w₁. populate_manual new x_final 1 w₁

-- `cb_info_set_mc_version_label`
abbrev info_set_mc_version_label : Widgets → ℕ → Widgets
info_set_mc_version_label w label = record w { mc_version_label = some label }

-- The call of `populateStackPage_Four`.
populate_four : ℕ → Widgets → Outcome Widgets
populate_four label w = returns (info_set_mc_version_label w label)

-- What GTK makes for the window.
pub record Made : Type 0 where
  pub selections : ℕ → Selection
  pub switch : Connected
  pub order_combo : Connected
  pub order_button : Connected
  pub bar : ℕ
  pub manual_y : Connected
  pub manual : PositionX → Connected
  pub mc_version : ℕ

-- `create_main_motor_switch`
create_main_motor_switch : Made → Widgets → Outcome Widgets
unfolding set_motor_switch
create_main_motor_switch made w = set_motor_switch w made.switch

-- `createStackPages`
create_stack_pages : Made → Widgets → Outcome (Widgets × List BoxPos)
unfolding populate_one populate_two populate_three populate_four
create_stack_pages made w = populate_one made.selections w >>= λ (w₁, boxes).
    populate_two made.order_combo made.order_button made.bar w₁ >>= λ w₂.
    populate_three made.manual_y made.manual w₂ >>= λ w₃.
    populate_four made.mc_version w₃ >>= λ w₄. returns (w₄, boxes)

-- `gui_thread` up to its main loop.
unfoldable pub create_widgets : Made → Widgets → Outcome (Widgets × List BoxPos)
unfolding create_main_motor_switch create_stack_pages
create_widgets made w = create_main_motor_switch made w >>= create_stack_pages made
