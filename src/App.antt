-- ===== src/App.antt =====
-- The whole program while its window is open: page one and page two (src/callbacks_position.c), the
-- connection and its thread (src/proto_serial.c), and the idle queue of GLib between the two threads.
-- Each step is one callback of the GUI thread or one round of the serial thread, in any order.
pub mod Fits
pub mod Steps
pub mod Sound
use ultramat.Base.{
  ℕ, ◌<◌, ◌≡◌, Bool, true, false, List, [], ◌∷◌, ◌++◌, none, some, returns, replicate, get_or, set,
  u8, ◌-◌,
}
use ultramat.RingBuffer.{zeroed}
use ultramat.Queue.{in_resp_q_init, out_msg_q_init}
use ultramat.Drinks.{Ingredient, Recipe, get_recipe_by_id}
use ultramat.Stores.{IngredientRow}
use ultramat.Proto.{PositionX}
use ultramat.CommandHandler
use ultramat.CommandHandler.{IdleCall}
use ultramat.MessageHandler.{System, Effect, idle_call, sent, serial_error, idle, unknown_msg}
use ultramat.MessageHandler.Calls.{calls_in}
use ultramat.Wire.{Wire}
use ultramat.Serial.{Connection, Answers, Port, null, absent, looping, thread_round}
use ultramat.Selection.{PageOne, first_page, handle, index_of}
use ultramat.Selection
use ultramat.Orders.{
  Page, Modal, Toggle, cleared, on_combo_order_changed, on_recipe_order_toggle,
  on_manual_pos_toggle, on_manual_pos_y_toggle, on_motor_switch_toggle, error_serial_communication,
}
use ultramat.Orders.Idle.{run_idle_call}

pub record App : Type 0 where
  pub page_one : PageOne
  pub page : Page
  pub connection : Connection
  pub idle_queue : List IdleCall

-- The static variables of src/message_handler.c and src/command_handler.c at the start, all zero.
abbrev pub static_system : System
static_system = record {
  worker = record {
    pending_dones = zeroed;
    fsm_state = idle;
    error = unknown_msg;
    timeout_done_started = false;
    timestamp_done = 0;
  };
  in_q = in_resp_q_init;
  out_q = out_msg_q_init;
  id_counter = 0;
  commands = CommandHandler.init;
}

abbrev released : Toggle
released = record { active = false; sensitive = true }

-- Pages two and three as src/pages.c makes them. The version is not known yet.
abbrev pub new_page : Page
new_page = record {
  active_recipe = none;
  recipe_step_done_counter = 0;
  recipe_combo_sensitive = true;
  order_button = record { active = false; sensitive = false };
  motor_switch = false;
  manual_pos_buttons = replicate 8 released;
  manual_pos_y_button = released;
  progress = cleared;
  mc_version = record { major = 0; minor = 0; bugfix = 0 };
}

abbrev pub start : App
start = record {
  page_one = first_page;
  page = new_page;
  connection = record {
    ser = null;
    thread_running = false;
    thread = absent;
    left_open = 0;
    system = static_system;
  };
  idle_queue = [];
}

-- The worker calls `cb_error_serial_communication` itself.
abbrev pub errors_on : List Effect → Page → Page
errors_on [] p = p
errors_on (idle_call call ∷ fx) p = errors_on fx p
errors_on (sent m ∷ fx) p = errors_on fx p
errors_on (serial_error text ∷ fx) p = errors_on fx (error_serial_communication text p).0

abbrev pub system_of : App → System
system_of a = a.connection.system

-- The page and the system after a callback.
abbrev pub after : App → Page × System × List Modal → App
after a (p, s, ms) = record a { page = p; connection = record (a.connection) { system = s } }

-- The user toggles the order button, which GTK allows while it is sensitive.
abbrev pub order_toggled : Bool → Page → Page
order_toggled b p = record p { order_button = record (p.order_button) { active = b } }

abbrev pub manual_toggled : Bool → PositionX → Page → Page
manual_toggled b x p = record p {
  manual_pos_buttons =
      set p.manual_pos_buttons (u8 (x - 1))
        (record (get_or p.manual_pos_buttons (u8 (x - 1)) released) { active = b });
}

abbrev pub y_toggled : Bool → Page → Page
y_toggled b p = record p { manual_pos_y_button = record (p.manual_pos_y_button) { active = b } }

abbrev pub switched : App → Page × Connection × List Effect × List Modal → App
switched a (p, c, fx, ms) = record a { page = p; connection = c }

abbrev pub worked : App → Connection × List Effect → App
worked a (c, fx) = record a {
  page = errors_on fx a.page;
  connection = c;
  idle_queue = a.idle_queue ++ calls_in fx;
}

module _ (ings : List Ingredient) (rows : List IngredientRow) (recs : List Recipe) where
  pub data Step : App → App → Type 0 where
    -- The user chooses an ingredient or resets one, and the program goes on.
    selects :
        {a : App} (e : Selection.Event) (p : PageOne)
        → index_of e < 9
        → handle ings rows e a.page_one ≡ returns p
        → Step a (record a { page_one = p })
    -- The recipe box gives the id of a recipe of the file.
    picks :
        {a : App} (rec : Recipe) (id : ℕ)
        → get_recipe_by_id recs id ≡ some rec
        → Step a (record a { page = on_combo_order_changed recs id a.page })
    orders :
        {a : App} (b : Bool)
        → Step a (
            after a (
              on_recipe_order_toggle ings a.page_one.active a.connection.thread_running
                (order_toggled b a.page)
                (system_of a)))
    moves_x :
        {a : App} (b : Bool) (x : PositionX)
        → Step a (
            after a (
              on_manual_pos_toggle a.connection.thread_running x
                (manual_toggled b x a.page)
                (system_of a)))
    moves_y :
        {a : App} (b : Bool)
        → Step a (
            after a (
              on_manual_pos_y_toggle a.connection.thread_running
                (y_toggled b a.page)
                (system_of a)))
    switches :
        {a : App} (b : Bool) (answers : Answers) (w : Wire)
        → Step a (switched a (on_motor_switch_toggle b answers w a.page a.connection))
    -- The serial thread makes a round, at some time, with whatever its port gives.
    works :
        {a : App} (port : Port) (now : ℕ)
        → a.connection.thread ≡ looping
        → Step a (worked a (thread_round port now a.connection))
    -- The GUI thread runs the first call of the idle queue.
    runs :
        {a : App} (call : IdleCall) (calls : List IdleCall) (p : Page) (ms : List Modal)
        → a.idle_queue ≡ call ∷ calls
        → run_idle_call call a.page ≡ returns (p, ms)
        → Step a (record a { page = p; idle_queue = calls })

  pub data Reachable : App → Type 0 where
    starts : Reachable start
    goes_on : {a b : App} → Reachable a → Step a b → Reachable b
