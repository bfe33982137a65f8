-- ===== src/Layout/Window.antt =====
-- The window of src/gui.c.
use Prim.Native.String.{String}
use ultramat.Base.{true, false, List, [], ◌∷◌}
use ultramat.Pages.{Made, BoxPos}
use ultramat.Layout.{
  Widget, empty, child, added, packed, put_at, container, leaf, known, vertical, box, window, fixed,
  stack, stack_switcher, switch, label, name, text, size, default_size, not_resizable, centered,
  transition_duration, slide_left_right, connect, cb_on_motor_switch_toggle, gtk_main_quit,
}
use ultramat.Layout.Pages.{stack_pages}

-- The switch of `create_main_motor_switch`.
abbrev main_motor_switch : Made → Widget
main_motor_switch made =
    known switch made.switch.widget
      (name "motorSwitch" ∷ size 180 100 ∷ connect "state-set" cb_on_motor_switch_toggle ∷ [])

-- `create_window_top_header`, with the switcher of `create_main_stack_switcher`.
abbrev top_header : Made → Widget
top_header made = container fixed [] (
    child (put_at 0 0) (leaf stack_switcher (name "mainStackSwitcher" ∷ size 100 100 ∷ [])) (
      child (put_at 560 25) (leaf (label "Ultramat") (name "projectTitle" ∷ []))
        (child (put_at 1100 0) (main_motor_switch made) empty)))

-- The stack of `create_main_window_stack`, with its pages.
abbrev main_stack : String → Made → List BoxPos → Widget
main_stack version made boxes =
    container stack (slide_left_right ∷ transition_duration 250 ∷ [])
      (stack_pages version made boxes)

-- The window of `create_main_window` with the box of `create_main_box`. The stack is packed first, but
-- `gtk_box_reorder_child` puts it behind the header.
abbrev pub main_window : String → Made → List BoxPos → Widget
main_window version made boxes =
    container window
      (text "Ultramat Projekt"
        ∷ centered
        ∷ not_resizable
        ∷ default_size 1280 800
        ∷ connect "destroy" gtk_main_quit
        ∷ [])
      (child added
        (container (box vertical 0) [] (
          child (packed false false 0) (top_header made)
            (child (packed true true 0) (main_stack version made boxes) empty)))
        empty)
