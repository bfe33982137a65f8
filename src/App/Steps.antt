-- ===== src/App/Steps.antt =====
-- Each callback of the GUI thread and each round of the serial thread keeps the worker linked, the
-- recipe, and a table of handlers that fits it.
use ultramat.Base.{
  ℕ, ◌≡◌, refl, sym, subst, inl, inr, Bool, true, false, List, [], ◌∷◌, Option, none, some, Status,
  success, failure, Bool-cases, ◌||◌, leb, ltb, if_holds,
}
use ultramat.Drinks.{Ingredient, Recipe}
use ultramat.Positions.{Active}
use ultramat.Proto.{
  Message, PositionX, move_x, move_y, x_pos, y_count, hello_there, message_init_zero,
}
use ultramat.Proto.Position
use ultramat.CommandHandler.{get_handler_func}
use ultramat.Wire.{Wire}
use ultramat.MessageHandler.{
  System, Effect, idle_call, sent, serial_error, init, add_outgoing, message_move_x, message_move_y,
}
use ultramat.MessageHandler.Linked.{Linked, init-Linked}
use ultramat.MessageHandler.Linked.Outgoing.{add_outgoing-Linked}
use ultramat.Mixing.Kept.{start_new_mixing-Linked}
use ultramat.Serial.{Connection, Answers, start_serial_connection, thread_start}
use ultramat.Serial.Kept.{stop_serial_connection-system}
use ultramat.Orders.{
  Page, Modal, place_order, on_recipe_order_toggle, on_manual_pos_toggle, on_manual_pos_y_toggle,
  on_motor_switch_toggle, switched_on, all_active, error_serial_communication,
}
use ultramat.App.{errors_on}
use ultramat.App.Fits.{HandlerFits, Fits, TableFits-some, init-TableFits, add_outgoing-Fits}

-- The worker is linked, and its table fits the recipe.
pub record Served (rec : Option Recipe) (s : System) : Type 0 where
  pub linked : Linked s
  pub fits : Fits rec s

add_outgoing-Served :
    (rec : Option Recipe) (m : Message) (s : System)
    → HandlerFits rec (get_handler_func m.type)
    → Served rec s
    → Served rec (add_outgoing s m).1
add_outgoing-Served rec m s fit v = record {
  linked = add_outgoing-Linked m v.linked;
  fits = add_outgoing-Fits rec m s fit v.linked v.fits;
}

-- A callback leaves the recipe, and the worker served.
abbrev pub Kept : Page → Page × System × List Modal → Type 0
Kept p (q, s, ms) = (q.active_recipe ≡ p.active_recipe) × Served p.active_recipe s

place_order-Kept :
    (ings : List Ingredient) (active : Active) (running : Bool) (rec : Option Recipe) (p : Page)
    (s : System)
    → Served rec s
    → let (q, t, ms) = place_order ings active running rec p s in
      (q.active_recipe ≡ p.active_recipe) × Served rec t
unfolding place_order
place_order-Kept ings active running none p s v = (refl, v)
place_order-Kept ings active false (some rec) p s v = (refl, v)
place_order-Kept ings active true (some rec) p s v =
    elim (Bool-cases (all_active ings active rec.ing_pairs)) [
      | inr missing ↦ rw missing (refl, v)
      | inl all ↦ rw all (
        refl,
        record {
          linked = start_new_mixing-Linked active s rec v.linked;
          fits = TableFits-some rec _;
        },
      )
    ]

pub on_recipe_order_toggle-Kept :
    (ings : List Ingredient) (active : Active) (running : Bool) (p : Page) (s : System)
    → Served p.active_recipe s
    → Kept p (on_recipe_order_toggle ings active running p s)
unfolding on_recipe_order_toggle
on_recipe_order_toggle-Kept ings active running p s v =
    if_holds p.order_button.active (Kept p)
      (if_holds p.order_button.sensitive (Kept p)
        (place_order-Kept ings active running p.active_recipe p s v) (refl, v))
      (refl, v)

move_x-fits : (rec : Option Recipe) → HandlerFits rec (get_handler_func move_x)
unfolding get_handler_func
move_x-fits none = tt
move_x-fits (some rec) = tt

move_y-fits : (rec : Option Recipe) → HandlerFits rec (get_handler_func move_y)
unfolding get_handler_func
move_y-fits none = tt
move_y-fits (some rec) = tt

hello_there-fits : (rec : Option Recipe) → HandlerFits rec (get_handler_func hello_there)
unfolding get_handler_func
hello_there-fits none = tt
hello_there-fits (some rec) = tt

message_move_x-Served :
    (rec : Option Recipe) (s : System) (x : PositionX)
    → Served rec s
    → Served rec (message_move_x s x).1
unfolding message_move_x
message_move_x-Served rec s x v =
    if_holds (leb x Position.invalid || ltb Position.final x)
      (λ (r : Status × System). Served rec r.1) v
      (add_outgoing-Served rec (record message_init_zero { type = move_x; payload = x_pos x }) s
        (move_x-fits rec) v)

message_move_y-Served :
    (rec : Option Recipe) (s : System) (n : ℕ) → Served rec s → Served rec (message_move_y s n).1
unfolding message_move_y
message_move_y-Served rec s n v =
    if_holds (leb n 0 || ltb 10 n) (λ (r : Status × System). Served rec r.1) v
      (add_outgoing-Served rec (record message_init_zero { type = move_y; payload = y_count n }) s
        (move_y-fits rec) v)

pub on_manual_pos_toggle-Kept :
    (running : Bool) (x : PositionX) (p : Page) (s : System)
    → Served p.active_recipe s
    → Kept p (on_manual_pos_toggle running x p s)
unfolding on_manual_pos_toggle
on_manual_pos_toggle-Kept false x p s v = (refl, v)
on_manual_pos_toggle-Kept true x p s v = (refl, message_move_x-Served p.active_recipe s x v)

pub on_manual_pos_y_toggle-Kept :
    (running : Bool) (p : Page) (s : System)
    → Served p.active_recipe s
    → Kept p (on_manual_pos_y_toggle running p s)
unfolding on_manual_pos_y_toggle
on_manual_pos_y_toggle-Kept false p s v = (refl, v)
on_manual_pos_y_toggle-Kept true p s v = (refl, message_move_y-Served p.active_recipe s 1 v)

-- The same of the motor switch, which may make a new connection.
abbrev pub SwitchKept : Page → Page × Connection × List Effect × List Modal → Type 0
SwitchKept p (q, c, fx, ms) = (q.active_recipe ≡ p.active_recipe) × Served p.active_recipe c.system

switched_on-Kept :
    (r : Status) (c : Connection) (p : Page)
    → Served p.active_recipe c.system
    → SwitchKept p (switched_on (r, c) p)
unfolding switched_on
switched_on-Kept success c p v = (refl, v)
switched_on-Kept failure c p v = (refl, v)

init-Served : (rec : Option Recipe) (s : System) → Served rec (init s)
unfolding init
init-Served rec s = record { linked = init-Linked s; fits = init-TableFits rec }

start_serial_connection-Served :
    (rec : Option Recipe) (a : Answers) (c : Connection)
    → Served rec c.system
    → Served rec (start_serial_connection a c).1.system
unfolding start_serial_connection thread_start
start_serial_connection-Served rec a c v =
    let P : Status × Connection → Type 0 = λ r. Served rec r.1.system in
    if_holds a.allocates P
      (if_holds a.opens P
        (if_holds a.creates P
          (add_outgoing-Served rec (record message_init_zero { type = hello_there }) (init c.system)
            (hello_there-fits rec) (init-Served rec c.system))
          (init-Served rec c.system))
        v)
      v

pub on_motor_switch_toggle-Kept :
    (b : Bool) (a : Answers) (w : Wire) (p : Page) (c : Connection)
    → Served p.active_recipe c.system
    → SwitchKept p (on_motor_switch_toggle b a w p c)
unfolding on_motor_switch_toggle
on_motor_switch_toggle-Kept true a w p c v =
    let (r, c') = start_serial_connection a c in
    switched_on-Kept r c' p (start_serial_connection-Served p.active_recipe a c v)
on_motor_switch_toggle-Kept false a w p c v =
    (refl, subst (Served p.active_recipe) (sym (stop_serial_connection-system w c)) v)

-- An error of the connection leaves the recipe.
pub errors_on-recipe :
    (fx : List Effect) (p : Page) → (errors_on fx p).active_recipe ≡ p.active_recipe
unfolding error_serial_communication
errors_on-recipe [] p = refl
errors_on-recipe (idle_call call ∷ fx) p = errors_on-recipe fx p
errors_on-recipe (sent m ∷ fx) p = errors_on-recipe fx p
errors_on-recipe (serial_error text ∷ fx) p =
    errors_on-recipe fx (error_serial_communication text p).0
