-- ===== src/Layout/Shown.antt =====
-- Every widget that a callback of src/callbacks_position.c or src/callbacks_info.c uses is in the window,
-- once, and its signal has the right callback.
use Prim.Native.String.{String}
use ultramat.Base.{
  ℕ, ◌+◌, ◌≡◌, refl, List, [], ◌∷◌, ◌++◌, Option, none, some, returns, Bool, true, false, not, ◌&&◌,
  ◌==◌,
}
use ultramat.Positions.{IngPos, select_positions}
use ultramat.Proto.{PositionX}
use ultramat.Pages.{Widgets, no_widgets, Made, BoxPos, create_widgets, combo_pos_str_map}
use ultramat.Pages.Registered.{AllConnected, all_widgets, all_boxes, create_widgets-all}
use ultramat.Layout.{
  Place, attached, Widget, Children, widget, empty, child, Attr, connect, Callback,
  cb_on_reset_btn_clicked, cb_on_combo_position_changed, cb_on_combo_order_changed,
  cb_on_recipe_order_toggle, cb_on_manual_pos_y_toggle, cb_on_manual_pos_toggle,
  cb_on_motor_switch_toggle, cb_info_app_update_button_clicked, cb_info_mc_update_button_clicked,
  gtk_main_quit,
}
use ultramat.Layout.Window.{main_window}

-- A widget with each callback of its signals.
abbrev callbacks_of : Option ℕ → List Attr → List (Option ℕ × Callback)
callbacks_of id [] = []
callbacks_of id (connect signal cb ∷ attrs) = (id, cb) ∷ callbacks_of id attrs
callbacks_of id (_ ∷ attrs) = callbacks_of id attrs

unfoldable mutual
  pub callbacks_in : Widget → List (Option ℕ × Callback)
  callbacks_in (widget k id attrs cs) = callbacks_of id attrs ++ callbacks_below cs

  pub callbacks_below : Children → List (Option ℕ × Callback)
  callbacks_below empty = []
  callbacks_below (child p w cs) = callbacks_in w ++ callbacks_below cs

abbrev cons_known : Option ℕ → List (Option ℕ) → List (Option ℕ)
cons_known none ids = ids
cons_known (some id) ids = some id ∷ ids

unfoldable mutual
  pub known_in : Widget → List (Option ℕ)
  known_in (widget k id attrs cs) = cons_known id (known_below cs)

  pub known_below : Children → List (Option ℕ)
  known_below empty = []
  known_below (child p w cs) = known_in w ++ known_below cs

-- No two widgets are attached to one cell of a grid.
abbrev same_cell : Place → ℕ → ℕ → Bool
same_cell (attached c r) col row = (c == col) && (r == row)
same_cell _ col row = false

abbrev cell_free : Children → ℕ → ℕ → Bool
cell_free empty col row = true
cell_free (child p w cs) col row = not (same_cell p col row) && cell_free cs col row

abbrev place_free : Place → Children → Bool
place_free (attached col row) cs = cell_free cs col row
place_free _ cs = true

unfoldable mutual
  pub apart_in : Widget → Bool
  apart_in (widget k id attrs cs) = apart_below cs

  pub apart_below : Children → Bool
  apart_below empty = true
  apart_below (child p w cs) = place_free p cs && (apart_in w && apart_below cs)

abbrev interleave : List (Option ℕ) → List (Option ℕ) → List (Option ℕ)
interleave [] ys = []
interleave (x ∷ xs) [] = []
interleave (x ∷ xs) (y ∷ ys) = x ∷ y ∷ interleave xs ys

-- What the static variables point to, page by page.
abbrev pub registered : Widgets → List (Option ℕ)
registered w =
    w.motor_switch ∷ interleave w.images w.combo_boxs
    ++ (w.recipe_combo_box ∷ w.recipe_order_button ∷ w.progress_bar ∷ [])
    ++ w.manual_pos_buttons
    ++ (w.manual_pos_y_button ∷ w.mc_version_label ∷ [])

-- The combo box at each index, and a reset button, with the position of this index.
abbrev position_callbacks : List (Option ℕ) → List IngPos → List (Option ℕ × Callback)
position_callbacks [] ps = []
position_callbacks (x ∷ xs) [] = []
position_callbacks (x ∷ xs) (p ∷ ps) =
    (none, cb_on_reset_btn_clicked p)
    ∷ (x, cb_on_combo_position_changed p)
    ∷ position_callbacks xs ps

-- The manual button at each index, with the position that is one more.
abbrev manual_callbacks : List (Option ℕ) → PositionX → List (Option ℕ × Callback)
manual_callbacks [] p = []
manual_callbacks (x ∷ xs) p = (x, cb_on_manual_pos_toggle p) ∷ manual_callbacks xs (p + 1)

-- The callbacks as src/callbacks_position.c needs them.
abbrev pub expected_callbacks : Widgets → List (Option ℕ × Callback)
expected_callbacks w =
    ((none, gtk_main_quit) ∷ (w.motor_switch, cb_on_motor_switch_toggle) ∷ [])
    ++ position_callbacks w.combo_boxs select_positions
    ++ ((w.recipe_combo_box, cb_on_combo_order_changed)
        ∷ (w.recipe_order_button, cb_on_recipe_order_toggle)
        ∷ [])
    ++ manual_callbacks w.manual_pos_buttons 1
    ++ ((w.manual_pos_y_button, cb_on_manual_pos_y_toggle)
        ∷ (none, cb_info_app_update_button_clicked)
        ∷ (none, cb_info_mc_update_button_clicked)
        ∷ (none, gtk_main_quit)
        ∷ [])

pub record IsShown (version : String) (made : Made) (w : Widgets) (boxes : List BoxPos)
    : Type 0 where
  pub widgets : known_in (main_window version made boxes) ≡ registered w
  pub callbacks : callbacks_in (main_window version made boxes) ≡ expected_callbacks w
  pub apart : apart_in (main_window version made boxes) ≡ true

all_widgets-IsShown :
    (version : String) (made : Made)
    → IsShown version made (all_widgets made) (all_boxes combo_pos_str_map select_positions)
unfolding known_in callbacks_in apart_in select_positions
all_widgets-IsShown version made = record { widgets = refl; callbacks = refl; apart = refl }

-- If all ids that GTK gave are larger than 0, the set-up of the window comes to its end, and in the
-- order of the pages the window has just the widgets that the static variables point to, each once.
-- The combo box at each index and the reset button beside it give the position of this index to their
-- callbacks, the manual button at each index gives the position that is one more, and every other
-- widget has the callback that is meant for it. No two widgets are in one cell of a grid.
pub create_widgets-IsShown :
    (version : String) (made : Made)
    → AllConnected made
    → (w : Widgets) × (boxes : List BoxPos) × (create_widgets made no_widgets ≡ returns (w, boxes))
      × IsShown version made w boxes
create_widgets-IsShown version made c = (
  all_widgets made,
  all_boxes combo_pos_str_map select_positions,
  (create_widgets-all made c).0,
  all_widgets-IsShown version made,
)
