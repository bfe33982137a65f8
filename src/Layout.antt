-- ===== src/Layout.antt =====
-- The widgets of the window, as src/gui.c and src/pages.c make and pack them: a tree with what is set
-- of each widget, in the order of the calls. What GTK draws of it is left out.
pub mod Pages
pub mod Window
pub mod Shown
use Prim.Native.String.{String}
use ultramat.Base.{ℕ, Bool, List, Option, none, some}
use ultramat.Proto.{PositionX}
use ultramat.Positions.{IngPos}

pub data Orientation : Type 0 where
  vertical horizontal : Orientation

pub data Align : Type 0 where
  align_start align_center align_end : Align

-- The functions that `g_signal_connect` is given, with the data for them.
pub data Callback : Type 0 where
  cb_on_reset_btn_clicked cb_on_combo_position_changed : IngPos → Callback
  cb_on_combo_order_changed cb_on_recipe_order_toggle cb_on_manual_pos_y_toggle : Callback
  cb_on_manual_pos_toggle : PositionX → Callback
  cb_on_motor_switch_toggle : Callback
  cb_info_app_update_button_clicked cb_info_mc_update_button_clicked gtk_main_quit : Callback

-- What is set of a widget. `size` is of `gtk_widget_set_size_request`.
pub data Attr : Type 0 where
  name text : String → Attr
  size default_size spacing : ℕ → ℕ → Attr
  pixel_size entry_text_column transition_duration : ℕ → Attr
  halign valign : Align → Attr
  margin_start margin_end xalign_percent : ℕ → Attr
  compute_expand : Orientation → Attr
  vexpand hexpand not_editable not_sensitive not_resizable centered : Attr
  default_image slide_left_right : Attr
  connect : String → Callback → Attr

pub data Kind : Type 0 where
  window fixed stack stack_switcher switch image progress_bar separator grid : Kind
  box : Orientation → ℕ → Kind
  label toggle_button button icon_button : String → Kind
  ingredient_combo recipe_combo : Kind

-- How a widget is put into its container.
pub data Place : Type 0 where
  added : Place
  packed : Bool → Bool → ℕ → Place
  attached : ℕ → ℕ → Place
  titled : String → String → Place
  put_at : ℕ → ℕ → Place

-- A widget, with the number by which `Made` knows it if a static variable is to point to it, and its
-- children.
mutual
  pub data Widget : Type 0 where
    widget : Kind → Option ℕ → List Attr → Children → Widget

  pub data Children : Type 0 where
    empty : Children
    child : Place → Widget → Children → Children

-- A widget that no static variable points to, and one without children.
abbrev pub container : Kind → List Attr → Children → Widget
container k attrs cs = widget k none attrs cs

abbrev pub leaf : Kind → List Attr → Widget
leaf k attrs = widget k none attrs empty

abbrev pub known : Kind → ℕ → List Attr → Widget
known k id attrs = widget k (some id) attrs empty
