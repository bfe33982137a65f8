-- ===== src/Layout/Pages.antt =====
-- The four pages of src/pages.c.
use Prim.Native.String.{String}
use ultramat.Base.{ℕ, ◌+◌, ◌/◌, ◌%◌, true, false, List, [], ◌∷◌}
use ultramat.Proto.{PositionX}
use ultramat.Pages.{Made, Selection, BoxPos, Connected}
use ultramat.Layout.{
  Widget, Children, empty, child, packed, attached, titled, container, leaf, known, vertical,
  horizontal, align_start, align_center, align_end, box, grid, label, toggle_button, button,
  icon_button, image, progress_bar, separator, ingredient_combo, recipe_combo, name, text, size,
  spacing, pixel_size, entry_text_column, halign, valign, margin_start, margin_end, xalign_percent,
  vexpand, hexpand, compute_expand, not_editable, not_sensitive, default_image, connect,
  cb_on_reset_btn_clicked, cb_on_combo_position_changed, cb_on_combo_order_changed,
  cb_on_recipe_order_toggle, cb_on_manual_pos_y_toggle, cb_on_manual_pos_toggle,
  cb_info_app_update_button_clicked, cb_info_mc_update_button_clicked, gtk_main_quit,
}

-- The box that `add_ing_selection` returns.
abbrev pub selection_box : Selection → BoxPos → Widget
selection_box new b = container (box vertical 0) [] (
    child (packed true true 0) (leaf (label b.label) []) (
      child (packed true true 0) (known image new.image (pixel_size 128 ∷ default_image ∷ [])) (
        child (packed true true 0)
          (container (box horizontal 0) [] (
            child (packed true true 0)
              (leaf (icon_button "edit-delete")
                (connect "clicked" (cb_on_reset_btn_clicked b.position) ∷ []))
              (child (packed true true 0)
                (known ingredient_combo new.combo.widget (
                  text "Zutat auswählen!"
                  ∷ not_editable
                  ∷ connect "changed" (cb_on_combo_position_changed b.position)
                  ∷ size 200 50
                  ∷ entry_text_column 0
                  ∷ []))
                empty)))
          empty)))

-- The loop of `populateStackPage_One`: gridPositions goes through three columns, row by row.
abbrev pub selection_boxes : (ℕ → Selection) → ℕ → List BoxPos → Children
selection_boxes new i [] = empty
selection_boxes new i (b ∷ bs) =
    child (attached (i % 3) (i / 3)) (selection_box (new i) b) (selection_boxes new (i + 1) bs)

-- `populateStackPage_One`
abbrev pub stack_page_one : (ℕ → Selection) → List BoxPos → Widget
stack_page_one new boxes = container (box vertical 0) (vexpand ∷ hexpand ∷ name "Box_P_1" ∷ []) (
    child (packed true true 10)
      (container grid (spacing 25 25 ∷ halign align_center ∷ []) (selection_boxes new 0 boxes))
      empty)

-- The left half of `populateStackPage_Two`.
abbrev order_box : ℕ → ℕ → Widget
order_box combo start =
    container (box vertical 10)
      (valign align_center ∷ halign align_start ∷ margin_start 140 ∷ margin_end 0 ∷ [])
      (child (packed true false 0) (leaf (label "Drink auswählen:") []) (
        child (packed false false 0)
          (known recipe_combo combo (
            entry_text_column 0
            ∷ size 400 70
            ∷ text "Drink auswählen!"
            ∷ not_editable
            ∷ connect "changed" cb_on_combo_order_changed
            ∷ []))
          (child (packed false false 0)
            (known (toggle_button "Starte mixen!") start
              (not_sensitive ∷ connect "toggled" cb_on_recipe_order_toggle ∷ []))
            empty)))

-- And its right half.
abbrev progress_box : ℕ → Widget
progress_box bar =
    container (box vertical 10)
      (valign align_center ∷ halign align_end ∷ margin_start 0 ∷ margin_end 140 ∷ [])
      (child (packed true false 0) (leaf (label "Status") (name "Progressbar_Label" ∷ [])) (
        child (packed true false 0)
          (known progress_bar bar
            (size 400 0 ∷ compute_expand horizontal ∷ valign align_center ∷ []))
          empty))

-- `populateStackPage_Two`
abbrev pub stack_page_two : ℕ → ℕ → ℕ → Widget
stack_page_two combo start bar =
    container (box horizontal 0) (vexpand ∷ hexpand ∷ name "Box_P_2" ∷ []) (
      child (packed true false 0) (order_box combo start) (
        child (packed true false 0)
          (leaf separator (
            size 10 0
            ∷ compute_expand vertical
            ∷ halign align_center
            ∷ margin_start 50
            ∷ margin_end 50
            ∷ []))
          (child (packed true false 0) (progress_box bar) empty)))

abbrev pub manual_labels : List String
manual_labels =
    "Pumpen" ∷ "Position 1" ∷ "Position 2" ∷ "Position 3" ∷ "Position 4" ∷ "Position 5"
    ∷ "Position 6" ∷ "Ausgabe" ∷ []

-- The buttons of `populateStackPage_Three`, for the positions from `p` on.
abbrev manual_buttons : (PositionX → Connected) → PositionX → List String → Children
manual_buttons new p [] = empty
manual_buttons new p (t ∷ ts) =
    child (packed true true 10)
      (known (toggle_button t) (new p).widget (connect "toggled" (cb_on_manual_pos_toggle p) ∷ []))
      (manual_buttons new (p + 1) ts)

-- `populateStackPage_Three`
abbrev pub stack_page_three : ℕ → (PositionX → Connected) → Widget
stack_page_three y new = container (box vertical 0) (vexpand ∷ hexpand ∷ []) (
    child (packed true true 25)
      (container (box horizontal 25) (valign align_center ∷ [])
        (manual_buttons new 1 manual_labels))
      (child (packed true true 25)
        (container (box horizontal 25) [] (
          child (packed true false 10)
            (known (toggle_button "Vertikale Bewegung") y
              (connect "toggled" cb_on_manual_pos_y_toggle ∷ []))
            empty))
        empty))

-- `populateStackPage_Four`. `gtk_grid_attach_next_to` with GTK_POS_RIGHT puts a widget into the next
-- column; `version` is ULTRA_VERSION, which the build makes.
abbrev pub stack_page_four : String → ℕ → Widget
stack_page_four version mc_version = container (box vertical 0) (vexpand ∷ hexpand ∷ []) (
    child (packed false false 25)
      (container grid (spacing 25 25 ∷ halign align_center ∷ []) (
        child (attached 0 0) (leaf (label "App version:") (xalign_percent 100 ∷ [])) (
          child (attached 1 0) (leaf (label version) []) (
            child (attached 2 0)
              (leaf (button "Check Update")
                (size 60 100 ∷ connect "clicked" cb_info_app_update_button_clicked ∷ []))
              (child (attached 0 1)
                (leaf (label "Microcontroller version:") (xalign_percent 100 ∷ []))
                (child (attached 1 1) (known (label "Nicht ausgelesen") mc_version []) (
                  child (attached 2 1)
                    (leaf (button "Check Update")
                      (size 60 100 ∷ connect "clicked" cb_info_mc_update_button_clicked ∷ []))
                    (child (attached 0 2)
                      (leaf (icon_button "application-exit")
                        (size 60 100 ∷ connect "clicked" gtk_main_quit ∷ []))
                      empty))))))))
      empty)

-- `createStackPages`
abbrev pub stack_pages : String → Made → List BoxPos → Children
stack_pages version made boxes =
    child (titled "Page_One" "Positionen") (stack_page_one made.selections boxes) (
      child (titled "Page_Two" "Bestellung")
        (stack_page_two made.order_combo.widget made.order_button.widget made.bar)
        (child (titled "Page_Three" "Manuell") (stack_page_three made.manual_y.widget made.manual)
          (child (titled "Page_Four" "Info") (stack_page_four version made.mc_version) empty)))
