-- ===== src/Orders.antt =====
-- The callbacks of src/callbacks_position.c for orders, manual moves and done commands, on the
-- widgets of page two: which can be used, which are toggled, and what is shown. GTK and the float
-- width of the progress bar are left out.
pub mod Checks
pub mod Manual
pub mod Moves
pub mod Motor
pub mod Steps
pub mod Idle
pub mod Complete
pub mod Session
use Prim.Native.String.{String, ◌++◌}
use ultramat.Base.{
  ℕ, ◌+◌, ◌-◌, Bool, true, false, not, List, [], ◌∷◌, map, Option, none, some, Outcome, returns,
  aborts, ◌==◌, if◌then◌else◌, get_or, set, length, u8, u16, Status, success, failure,
}
use ultramat.Drinks.{Ingredient, Recipe, IdCountPair, get_ingredient_by_id, get_recipe_by_id}
use ultramat.Proto.{Response, McVersion, PositionX}
use ultramat.Positions.{Active, already_exists}
use ultramat.MessageHandler.{System, Effect, message_move_x, message_move_y}
use ultramat.Wire.{Wire}
use ultramat.Serial.{Connection, Answers, start_serial_connection, stop_serial_connection}
use ultramat.Mixing.{start_new_mixing}

pub record Toggle : Type 0 where
  pub active : Bool
  pub sensitive : Bool

-- `gui_show_error_modal` and `gui_show_info_modal`
pub data Modal : Type 0 where
  error_modal info_modal : String → Modal

-- The bar is empty, or as wide as so many of so many steps.
pub data Bar : Type 0 where
  cleared : Bar
  reached : ℕ → ℕ → Bar

pub record Page : Type 0 where
  pub active_recipe : Option Recipe
  pub recipe_step_done_counter : ℕ
  pub recipe_combo_sensitive : Bool
  pub order_button : Toggle
  pub motor_switch : Bool
  pub manual_pos_buttons : List Toggle
  pub manual_pos_y_button : Toggle
  pub progress : Bar
  pub mc_version : McVersion

abbrev pub reset_toggle_button : Toggle → Toggle
reset_toggle_button t = record t { active = false }

abbrev pub set_sensitive : Bool → Toggle → Toggle
set_sensitive b t = record t { sensitive = b }

-- `cb_set_switch_state`, while the signal of the switch is blocked.
abbrev pub set_switch_state : Bool → Page → Page
set_switch_state b p = record p { motor_switch = b }

-- A round of `cb_set_manual_pos_sensitive_state`.
abbrev pub set_manual : Bool → Toggle → Toggle
set_manual true t = set_sensitive true (reset_toggle_button t)
set_manual false t = set_sensitive false t

abbrev pub set_manual_pos_sensitive_state : Bool → Page → Page
set_manual_pos_sensitive_state b p = record p {
  manual_pos_buttons = map (set_manual b) p.manual_pos_buttons;
}

-- `cb_on_combo_order_changed`, with the id that the combo box gives.
unfoldable pub on_combo_order_changed : List Recipe → ℕ → Page → Page
on_combo_order_changed recs id p = record p { active_recipe = get_recipe_by_id recs id }

-- The loop of `cb_on_recipe_order_toggle`.
unfoldable pub all_active : List Ingredient → Active → List IdCountPair → Bool
all_active ings active [] = true
all_active ings active (pair ∷ pairs) =
    if already_exists active (get_ingredient_by_id ings pair.id)
    then all_active ings active pairs
    else false

-- The order is not taken: the button goes back, and the user is told why.
abbrev pub refuse : String → Page → System → Page × System × List Modal
refuse text p s =
    (record p { order_button = reset_toggle_button p.order_button }, s, error_modal text ∷ [])

-- The page while a recipe is mixed.
abbrev pub locked : Page → Page
locked p = record p {
  order_button = set_sensitive false p.order_button;
  recipe_combo_sensitive = false;
}

-- `cb_on_recipe_order_toggle`, once the button is on. That `proto_comms_start_new_mixing` fails
-- changes nothing.
unfoldable pub place_order :
    List Ingredient → Active → Bool → Option Recipe → Page → System → Page × System × List Modal
place_order ings active running none p s = refuse "Kein Rezept ausgewählt!" p s
place_order ings active running (some rec) p s =
    if running
    then (if all_active ings active rec.ing_pairs
        then (locked p, (start_new_mixing active s (some rec)).1, [])
        else refuse "Es fehlt eine Zutat!" p s)
    else refuse "Serial thread nicht aktiv!" p s

-- `cb_on_recipe_order_toggle`; the Boolean is `proto_comms_thread_running()`.
unfoldable pub on_recipe_order_toggle :
    List Ingredient → Active → Bool → Page → System → Page × System × List Modal
unfolding place_order
on_recipe_order_toggle ings active running p s =
    if p.order_button.active
    then (if p.order_button.sensitive
        then place_order ings active running p.active_recipe p s
        else (p, s, []))
    else (p, s, [])

-- `cb_on_manual_pos_toggle`. Whether the message is accepted is not looked at.
unfoldable pub on_manual_pos_toggle : Bool → PositionX → Page → System → Page × System × List Modal
on_manual_pos_toggle running x p s =
    if running then (set_manual_pos_sensitive_state false p, (message_move_x s x).1, []) else (
      record p {
        manual_pos_buttons =
            set p.manual_pos_buttons (u8 (x - 1)) (
              reset_toggle_button (get_or p.manual_pos_buttons (u8 (x - 1)) p.manual_pos_y_button));
      },
      s,
      error_modal "Serial thread nicht aktiv!" ∷ [],
    )

-- `cb_on_manual_pos_y_toggle`
unfoldable pub on_manual_pos_y_toggle : Bool → Page → System → Page × System × List Modal
on_manual_pos_y_toggle running p s =
    if running
    then (
      record p { manual_pos_y_button = set_sensitive false p.manual_pos_y_button },
      (message_move_y s 1).1,
      [],
    )
    else (
      record p { manual_pos_y_button = reset_toggle_button p.manual_pos_y_button },
      s,
      error_modal "Serial thread nicht aktiv!" ∷ [],
    )

pub shown_version : Option McVersion → McVersion
shown_version none = record { major = 0; minor = 0; bugfix = 1 }
shown_version (some v) = v

pub version_modals : Option McVersion → List Modal
version_modals none = error_modal "Could not read real microcontroller version!" ∷ []
version_modals (some v) = []

-- `cb_cmd_hello_there_done`; the response is never null.
unfoldable pub cmd_hello_there_done : Response → Page → Page × List Modal
unfolding shown_version version_modals
cmd_hello_there_done resp p = (
  record p {
    order_button = set_sensitive true p.order_button;
    mc_version = shown_version resp.version;
  },
  version_modals resp.version,
)

-- The page once the last step is done.
abbrev pub finished : Page → Page
finished p = record p {
  recipe_step_done_counter = 0;
  recipe_combo_sensitive = true;
  order_button = record { active = false; sensitive = true };
  progress = cleared;
}

-- `cb_cmd_step_done` for a recipe, whose final step counts too.
step_done : Recipe → Page → Page × List Modal
step_done rec p =
    let moves = u16 (length rec.ing_pairs + 1) in
    let counter = u16 (p.recipe_step_done_counter + 1) in
    if counter == moves
    then (finished p, info_modal "Drink ist fertig!" ∷ [])
    else (record p { recipe_step_done_counter = counter; progress = reached counter moves }, [])

-- `cb_cmd_step_done`. Without a recipe it reads through a null pointer.
unfoldable pub cmd_step_done : Page → Outcome (Page × List Modal)
unfolding step_done
cmd_step_done p = elim (p.active_recipe) [ none ↦ aborts | some rec ↦ returns (step_done rec p) ]

-- `cb_cmd_move_x_done`
unfoldable pub cmd_move_x_done : Page → Page
cmd_move_x_done p = set_manual_pos_sensitive_state true p

-- `cb_cmd_move_y_done`
unfoldable pub cmd_move_y_done : Page → Page
cmd_move_y_done p = record p {
  manual_pos_y_button = set_sensitive true (reset_toggle_button p.manual_pos_y_button);
}

-- `cb_error_serial_communication`; its text is cut to 127 bytes, which no text of the worker reaches.
unfoldable pub error_serial_communication : String → Page → Page × List Modal
error_serial_communication text p = (
  set_switch_state false (record p {
    order_button = set_sensitive false p.order_button;
    recipe_combo_sensitive = true;
  }),
  error_modal ("Fehler bei Kommunikation: " ++ text) ∷ [],
)

-- The rest of `cb_on_motor_switch_toggle`, on what the start of the connection gives.
unfoldable pub switched_on :
    Status × Connection → Page → Page × Connection × List Effect × List Modal
switched_on (failure, c) p =
    (set_switch_state false p, c, [], error_modal "Fehler bei Kommunikationsaufbau" ∷ [])
switched_on (success, c) p = (set_switch_state true p, c, [], [])

-- `cb_on_motor_switch_toggle`: the switch shows whether the connection was made.
unfoldable pub on_motor_switch_toggle :
    Bool → Answers → Wire → Page → Connection → Page × Connection × List Effect × List Modal
unfolding switched_on
on_motor_switch_toggle true a w p c = switched_on (start_serial_connection a c) p
on_motor_switch_toggle false a w p c =
    let (c', fx) = stop_serial_connection w c in
    (
      set_switch_state false (record p { order_button = set_sensitive false p.order_button }),
      c',
      fx,
      [],
    )
