-- ===== src/Selection/Drawn.antt =====
-- Page one always shows the table of active ingredients (src/callbacks_position.c).
use ultramat.Base.{
  ℕ, ◌≤◌, ◌<◌, ◌≡◌, ◌⊎◌, inl, inr, refl, sym, ap, subst, ◌∙◌, List, [], ◌∷◌, Option, none, some,
  Outcome, returns, aborts, ◌>>=◌, ltb, length, length-map, length-modify, length-set,
  modify-modify, get_elem?, get_elem?-modify, set, modify, arith, Bool-cases,
}
use ultramat.Drinks.{Ingredient}
use ultramat.Stores.{IngredientRow}
use ultramat.Stores.Rows.{RowsOf, RowsOf-AllKnown, AllKnown-get_elem?}
use ultramat.Positions.{Active, exists_id, select_positions}
use ultramat.Drinks.Lookup.{get_ingredient_by_id-id}
use ultramat.Selection.Drawing.{
  box_of, draw_from, draw, ProperIds, draw_from-get_elem?, ProperIds-get_elem?, modify-map, Drawn,
}
use ultramat.Selection.Boxes.{
  put_at, reset_at, reset_btn_clicked_at, chosen_at, combo_position_changed_at,
}
use ultramat.Positions.Laws.{IsValid, Distinct-set-none, Distinct-set-some}
use ultramat.Selection.{
  same_row, PageOne, Box, name_text, icon_image, new_box, first_page, Event, choose, reset,
  row_read, choose_row, handle, handle_all, index_of,
}

set-Drawn :
    (rows : List IngredientRow) (f : Box → Box) (slot : Option Ingredient) (i : ℕ) (p : PageOne)
    → ((b : Box) → f b ≡ draw rows slot)
    → IsValid (set p.active i slot)
    → Drawn rows p
    → Drawn rows (record { active = set p.active i slot; boxes = modify f p.boxes i })
set-Drawn rows f slot i p same v d = record {
  drawn = ap (λ bs. modify f bs i) d.drawn ∙ modify-map (draw rows) f p.active i slot same;
  table = v;
}

-- So it is after another change of the same box.
changed-Drawn :
    (rows : List IngredientRow) (f g : Box → Box) (slot : Option Ingredient) (i : ℕ) (p : PageOne)
    → ((b : Box) → g (f b) ≡ draw rows slot)
    → IsValid (set p.active i slot)
    → Drawn rows p
    → Drawn rows (record { active = set p.active i slot; boxes = modify g (modify f p.boxes i) i })
changed-Drawn rows f g slot i p same v d =
    subst (λ bs. Drawn rows (record { active = set p.active i slot; boxes = bs }))
      (sym (modify-modify f g p.boxes i)) (set-Drawn rows (λ b. g (f b)) slot i p same v d)

Drawn-size : (rows : List IngredientRow) {p : PageOne} → Drawn rows p → length p.boxes ≡ 9
Drawn-size rows {p} d =
    ap (λ (bs : List Box). length bs) d.drawn ∙ length-map p.active (draw rows) ∙ d.table.size

IsValid-none : (active : Active) (i : ℕ) → IsValid active → IsValid (set active i none)
IsValid-none active i v = record {
  size = length-set active i none ∙ v.size;
  distinct = Distinct-set-none active i v.distinct;
}

abbrev pub Handled : List IngredientRow → ℕ → Outcome PageOne → Type 0
Handled rows i m = ((m ≡ aborts) × (7 ≤ i)) ⊎ ((q : PageOne) × (m ≡ returns q) × Drawn rows q)

module _ (ings : List Ingredient) (rows : List IngredientRow) where
  reset-Handled :
      (i : ℕ) (p : PageOne) → i < 9 → Drawn rows p → Handled rows i (handle ings rows (reset i) p)
  unfolding handle select_positions
  reset-Handled i p h d =
      let at = reset_btn_clicked_at i p h (Drawn-size rows d) in
      elim (Bool-cases (ltb i 7)) [
        | inl low ↦ inr (
          reset_at i p,
          at ∙ rw low,
          set-Drawn rows (λ b. new_box) none i p (λ b. refl) (IsValid-none p.active i d.table) d,
        )
        | inr high ↦ inl (at ∙ rw high, ground arith)
      ]

  -- The page after GTK has shown the row that is chosen.
  abbrev shown_at : ℕ → ℕ → IngredientRow → PageOne → PageOne
  shown_at i r row p = record p {
    boxes = modify (λ b. record b { row = some r; text = name_text row.name }) p.boxes i;
  }

  chosen_at-Handled :
      (i r : ℕ) (row : IngredientRow) (ing : Ingredient) (p : PageOne)
      → i < 9
      → ProperIds rows
      → get_elem? rows r ≡ some row
      → ing.id ≡ row.id
      → Drawn rows p
      → Handled rows i (chosen_at i ing row.icon (shown_at i r row p) >>= λ (q, shown). returns q)
  chosen_at-Handled i r row ing p h ids there same d =
      let f : Box → Box = λ b. record b { row = some r; text = name_text row.name } in
      elim (Bool-cases (exists_id p.active ing.id)) [
        | inl old ↦ elim (Bool-cases (ltb i 7)) [
          | inl low ↦ inr (
            reset_at i (shown_at i r row p),
            rw (old, low),
            changed-Drawn rows f (λ b. new_box) none i p (λ b. refl)
                (IsValid-none p.active i d.table) d,
          )
          | inr high ↦ inl (rw (old, high), ground arith)
        ]
        | inr new ↦ inr (
          put_at i ing row.icon (shown_at i r row p),
          rw new,
          changed-Drawn rows f (λ b. record b { image = icon_image row.icon }) (some ing) i p
              (λ b.
                ap (λ k. box_of k row) (omega arith)
                ∙ sym (draw_from-get_elem? 0 rows r ids there)
                ∙ ap (draw_from 0 rows) (sym same))
              (record {
                size = length-set p.active i (some ing) ∙ d.table.size;
                distinct = Distinct-set-some p.active i ing new d.table.distinct;
              })
              d,
        )
      ]

  choose_row-Handled :
      (box : Option Box) (row : Option IngredientRow) (i r : ℕ) (p : PageOne)
      → get_elem? p.boxes i ≡ box
      → get_elem? rows r ≡ row
      → i < 9
      → RowsOf ings rows
      → ProperIds rows
      → Drawn rows p
      → Handled rows i (choose_row ings rows box row i r p)
  unfolding choose_row select_positions
  choose_row-Handled none row i r p box_is there h of ids d = inr (p, refl, d)
  choose_row-Handled (some b) none i r p box_is there h of ids d = inr (p, refl, d)
  choose_row-Handled (some b) (some row) i r p box_is there h of ids d =
      elim (Bool-cases (same_row b.row r)) [
        | inl same ↦ inr (p, rw same, d)
        | inr new ↦
            let (ing, known) =
              AllKnown-get_elem? ings rows r (RowsOf-AllKnown ings rows of) there in
            let f : Box → Box = λ b. record b { row = some r; text = name_text row.name } in
            let size = length-modify f p.boxes i ∙ Drawn-size rows d in
            let called =
              combo_position_changed_at ings rows i row ing (shown_at i r row p) h size
                (ProperIds-get_elem? rows r ids there)
                (ap (row_read rows) (get_elem?-modify f p.boxes i box_is) ∙ there) known in
            rw new (
              subst (λ m. Handled rows i (m >>= λ (q, shown). returns q)) (sym called)
                (chosen_at-Handled i r row ing p h ids there
                  (get_ingredient_by_id-id ings row.id known) d))
      ]

  pub handle-Handled :
      (e : Event) (p : PageOne)
      → index_of e < 9
      → RowsOf ings rows
      → ProperIds rows
      → Drawn rows p
      → Handled rows (index_of e) (handle ings rows e p)
  unfolding handle
  handle-Handled (choose i r) p h of ids d =
      choose_row-Handled (get_elem? p.boxes i) (get_elem? rows r) i r p refl refl h of ids d
  handle-Handled (reset i) p h of ids d = reset-Handled i p h d

abbrev pub AllOnPage : List Event → Type 0
AllOnPage [] = Unit
AllOnPage (e ∷ es) = (index_of e < 9) × AllOnPage es

abbrev pub SomeAtEnd : List Event → Type 0
SomeAtEnd [] = ⊥
SomeAtEnd (e ∷ es) = (7 ≤ index_of e) ⊎ SomeAtEnd es

module _ (ings : List Ingredient) (rows : List IngredientRow) where
  handle_all-from :
      (es : List Event) (p : PageOne)
      → AllOnPage es
      → RowsOf ings rows
      → ProperIds rows
      → Drawn rows p
      → ((handle_all ings rows es p ≡ aborts) × SomeAtEnd es)
        ⊎ ((q : PageOne) × (handle_all ings rows es p ≡ returns q) × Drawn rows q)
  unfolding handle_all
  handle_all-from [] p on of ids d = inr (p, refl, d)
  handle_all-from (e ∷ es) p on of ids d = elim (handle-Handled ings rows e p on.0 of ids d) [
    | inl (stops, high) ↦ inl (rw stops, inl high)
    | inr (q, goes, d') ↦ elim (handle_all-from es q on.1 of ids d') [
      | inl (stops, high) ↦ inl (rw (goes, stops), inr high)
      | inr (q', goes', d'') ↦ inr (q', rw (goes, goes'), d'')
    ]
  ]

pub first_page-Drawn : (rows : List IngredientRow) → Drawn rows first_page
first_page-Drawn rows = record { drawn = refl; table = record { size = refl; distinct = tt } }

-- The store has a row for each ingredient of the file, and the ids have 16 bits and are all different.
-- From the page as it is made, the user chooses rows and clicks on reset buttons, at the nine positions
-- and in any order. The program stops only if one of these is at the last two positions. Else the boxes
-- and images are in the end those that are drawn anew from the table of active ingredients: an empty
-- position shows RESET_TEXT and the default image, and a taken one the row of its ingredient with its
-- name and icon; and no ingredient is at two positions.
pub handle_all-Drawn :
    (ings : List Ingredient) (rows : List IngredientRow) (es : List Event)
    → AllOnPage es
    → RowsOf ings rows
    → ProperIds rows
    → ((handle_all ings rows es first_page ≡ aborts) × SomeAtEnd es)
      ⊎ ((q : PageOne) × (handle_all ings rows es first_page ≡ returns q) × Drawn rows q)
handle_all-Drawn ings rows es on of ids =
    handle_all-from ings rows es first_page on of ids (first_page-Drawn rows)
