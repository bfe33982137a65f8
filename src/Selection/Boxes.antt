-- ===== src/Selection/Boxes.antt =====
-- What the callbacks of src/callbacks_position.c do to the boxes and images of page one, at each position.
use ultramat.Base.{
  ℕ, ◌<◌, ◌≡◌, inl, inr, ap, ◌∙◌, true, List, Option, none, some, Outcome, returns, aborts, ◌>>=◌,
  ltb, lt→ltb, if◌then◌else◌, length, length-modify, modify-modify, get_elem?, get_or, set, modify,
  u16, arith, Bool-cases,
}
use ultramat.Base.Int.{pos}
use ultramat.Drinks.{Ingredient, get_ingredient_by_id}
use ultramat.Stores.{Icon, IngredientRow}
use ultramat.Positions.{
  Shown, selected, already_selected, exists_id, already_exists, get_array_index, get_ing_pos,
  set_ing_pos, reset_ingredient,
}
use ultramat.Positions.Laws.{select, get_array_index-select}
use ultramat.Selection.{
  PageOne, Box, Text, Image, icon_image, new_box, write_box, clear_pos_img, reset_combo_box,
  set_pos_img, set_both, reject, place_in, row_changed, row_read, combo_position_changed,
  reset_btn_clicked,
}

-- The page after a new ingredient, and after a reset.
abbrev pub put_at : ℕ → Ingredient → Icon → PageOne → PageOne
put_at i ing icon p = record p {
  active = set p.active i (some ing);
  boxes = modify (λ b. record b { image = icon_image icon }) p.boxes i;
}

abbrev pub reset_at : ℕ → PageOne → PageOne
reset_at i p = record p { active = set p.active i none; boxes = modify (λ b. new_box) p.boxes i }

reset_combo_box_at :
    (i : ℕ) (p : PageOne)
    → i < 9
    → length p.boxes ≡ 9
    → reset_combo_box (pos i) (pos i) p ≡ (if ltb i 7 then returns (reset_at i p) else aborts)
unfolding reset_combo_box clear_pos_img write_box reset_ingredient
reset_combo_box_at i p h size =
    let first : ltb i (length p.boxes) ≡ true = lt→ltb i (length p.boxes) (omega (arith, size)) in
    let f : Box → Box = λ b. record b { row = none; text = Text.reset_text } in
    let second : ltb i (length (modify f p.boxes i)) ≡ true =
      ap (ltb i) (length-modify f p.boxes i) ∙ first in
    elim (Bool-cases (ltb i 7)) [
      | inl low ↦
          rw (first, second, low)
            (ap (λ bs. returns (record { active = set p.active i none; boxes = bs }))
              (modify-modify f (λ b. record b { image = Image.image_loading }) p.boxes i))
      | inr high ↦ rw (first, second, high)
    ]

pub reset_btn_clicked_at :
    (i : ℕ) (p : PageOne)
    → i < 9
    → length p.boxes ≡ 9
    → reset_btn_clicked (select i) p ≡ (if ltb i 7 then returns (reset_at i p) else aborts)
unfolding reset_btn_clicked
reset_btn_clicked_at i p h size =
    ap (λ m. m >>= λ j. reset_combo_box j j p) (get_array_index-select i h)
    ∙ reset_combo_box_at i p h size

abbrev pub chosen_at : ℕ → Ingredient → Icon → PageOne → Outcome (PageOne × Shown)
chosen_at i ing icon p =
    if exists_id p.active ing.id
    then (if ltb i 7 then returns (reset_at i p, already_selected) else aborts)
    else returns (put_at i ing icon p, selected)

set_both-at :
    (i : ℕ) (ing : Ingredient) (icon : Icon) (p : PageOne)
    → i < 9
    → length p.boxes ≡ 9
    → set_both (some ing) (some icon) (pos i) p ≡ returns (put_at i ing icon p, selected)
unfolding set_both set_ing_pos set_pos_img write_box
set_both-at i ing icon p h size =
    let inside : ltb i (length p.boxes) ≡ true = lt→ltb i (length p.boxes) (omega (arith, size)) in
    rw (lt→ltb i 9 h, inside)

reject-at :
    (i : ℕ) (p : PageOne)
    → i < 9
    → length p.boxes ≡ 9
    → reject (pos i) (pos i) p
      ≡ (if ltb i 7 then returns (reset_at i p, already_selected) else aborts)
unfolding reject
reject-at i p h size =
    ap (λ m. m >>= λ q. returns (q, already_selected)) (reset_combo_box_at i p h size)
    ∙ elim (Bool-cases (ltb i 7)) [ inl low ↦ rw low | inr high ↦ rw high ]

place_in-at :
    (old : Option Ingredient) (i : ℕ) (ing : Ingredient) (icon : Icon) (p : PageOne)
    → i < 9
    → length p.boxes ≡ 9
    → place_in old (some ing) (some icon) (pos i) (pos i) p ≡ chosen_at i ing icon p
unfolding place_in already_exists
place_in-at none i ing icon p h size = elim (Bool-cases (exists_id p.active ing.id)) [
  | inl found ↦ rw found (reject-at i p h size)
  | inr new ↦ rw new (set_both-at i ing icon p h size)
]
place_in-at (some old) i ing icon p h size = elim (Bool-cases (exists_id p.active ing.id)) [
  | inl found ↦ rw found (reject-at i p h size)
  | inr new ↦ rw new (set_both-at i ing icon p h size)
]

module _ (ings : List Ingredient) (rows : List IngredientRow) where
  -- The callback at position `i`, once its box has an active row.
  pub combo_position_changed_at :
      (i : ℕ) (row : IngredientRow) (ing : Ingredient) (p : PageOne)
      → i < 9
      → length p.boxes ≡ 9
      → row.id < 65536
      → row_read rows (get_elem? p.boxes i) ≡ some row
      → get_ingredient_by_id ings row.id ≡ some ing
      → combo_position_changed ings rows i (select i) p ≡ chosen_at i ing row.icon p
  unfolding combo_position_changed row_changed get_ing_pos
  combo_position_changed_at i row ing p h size small read known =
      let id : u16 row.id ≡ row.id = omega arith in
      let rest : Option Ingredient → Outcome (PageOne × Shown) = λ found.
        get_array_index (select i) >>= λ j.
        get_ing_pos p.active j >>= λ old. place_in old found (some row.icon) (pos i) j p in
      ap (λ r. row_changed ings rows r (pos i) (select i) p) read
      ∙ ap (λ k. rest (get_ingredient_by_id ings k)) id
      ∙ ap rest known
      ∙ ap
          (λ m. m >>= λ j.
            get_ing_pos p.active j >>= λ old. place_in old (some ing) (some row.icon) (pos i) j p)
          (get_array_index-select i h)
      ∙ rw (lt→ltb i 9 h) (place_in-at (get_or p.active i none) i ing row.icon p h size)
