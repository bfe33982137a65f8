-- ===== src/Positions/Callbacks.antt =====
-- The callbacks of the combo boxes and reset buttons of page one (src/callbacks_position.c).
use ultramat.Base.{
  ℕ, ◌<◌, ◌≡◌, refl, sym, ap, ◌∙◌, inl, inr, List, Option, none, some, Outcome, returns, aborts,
  ltb, length-set, get_or, set, Bool-cases, Option-cases, subst, lt→ltb, if◌then◌else◌, ◌>>=◌,
}
use ultramat.Base.Int.{pos}
use ultramat.Drinks.{Ingredient, get_ingredient_by_id}
use ultramat.Positions.{
  Active, Shown, selected, already_selected, exists_id, already_exists, on_combo_position_changed,
  on_reset_btn_clicked, get_ing_pos, set_ing_pos, reset_ingredient, place, branch, changed,
}
use ultramat.Positions.Laws.{
  IsValid, select, get_array_index-select, Distinct-set-none, Distinct-set-some,
}

abbrev emptied : Active → ℕ → Outcome (Active × Shown)
emptied active i = if ltb i 7 then returns (set active i none, already_selected) else aborts

-- What the callback of position `i` does when the combo box gives an ingredient.
abbrev pub chosen : Active → ℕ → Ingredient → Outcome (Active × Shown)
chosen active i ing =
    if exists_id active ing.id
    then (if ltb i 7 then returns (set active i none, already_selected) else aborts)
    else returns (set active i (some ing), selected)

place-some :
    (active : Active) (i : ℕ) (ing : Ingredient)
    → i < 9
    → place active (some ing) (pos i) ≡ chosen active i ing
unfolding place already_exists reset_ingredient set_ing_pos
place-some active i ing h = elim (Bool-cases (exists_id active ing.id)) [
  | inl old ↦ rw old (elim (Bool-cases (ltb i 7)) [ inl low ↦ rw low | inr high ↦ rw high ])
  | inr new ↦ rw (new, lt→ltb i 9 h)
]

branch-place :
    (old : Option Ingredient) (active : Active) (ing : Option Ingredient) (i : ℕ)
    → branch old active ing (pos i) ≡ place active ing (pos i)
unfolding branch
branch-place none active ing i = refl
branch-place (some old) active ing i = refl

changed-place :
    (active : Active) (ing : Option Ingredient) (i : ℕ)
    → i < 9
    → changed active ing (pos i) ≡ place active ing (pos i)
unfolding changed get_ing_pos
changed-place active ing i h = rw (lt→ltb i 9 h) (branch-place (get_or active i none) active ing i)

-- The callback at position `i` of the page.
at_position :
    (ings : List Ingredient) (active : Active) (i id : ℕ)
    → i < 9
    → on_combo_position_changed ings active (select i) id
      ≡ place active (get_ingredient_by_id ings id) (pos i)
unfolding on_combo_position_changed
at_position ings active i id h =
    ap (λ m. m >>= λ j. changed active (get_ingredient_by_id ings id) j)
      (get_array_index-select i h)
    ∙ changed-place active (get_ingredient_by_id ings id) i h

-- The combo box of position `i` gives the id of an ingredient. If no position holds an ingredient
-- with its id, it is set at `i`. Else position `i` is emptied: that is so for the first seven, while
-- the assertion of `cb_reset_ingredient` stops the program at the last two.
pub on_combo_position_changed_at :
    (ings : List Ingredient) (active : Active) (i id : ℕ) (ing : Ingredient)
    → i < 9
    → get_ingredient_by_id ings id ≡ some ing
    → on_combo_position_changed ings active (select i) id ≡ (
        if exists_id active ing.id
        then (if ltb i 7 then returns (set active i none, already_selected) else aborts)
        else returns (set active i (some ing), selected))
on_combo_position_changed_at ings active i id ing h e =
    at_position ings active i id h ∙ ap (λ o. place active o (pos i)) e ∙ place-some active i ing h

-- An id that no ingredient has stops the program.
pub on_combo_position_changed_unknown :
    (ings : List Ingredient) (active : Active) (i id : ℕ)
    → i < 9
    → get_ingredient_by_id ings id ≡ none
    → on_combo_position_changed ings active (select i) id ≡ aborts
unfolding place already_exists set_ing_pos
on_combo_position_changed_unknown ings active i id h e =
    at_position ings active i id h ∙ ap (λ o. place active o (pos i)) e

-- The reset button of position `i` empties it, at the first seven positions. At the last two the
-- assertion of `cb_reset_ingredient`, which counts positions of the x axis, stops the program.
pub on_reset_btn_clicked_at :
    (active : Active) (i : ℕ)
    → i < 9
    → on_reset_btn_clicked active (select i)
      ≡ (if ltb i 7 then returns (set active i none) else aborts)
unfolding on_reset_btn_clicked reset_ingredient
on_reset_btn_clicked_at active i h =
    ap (λ m. m >>= λ j. reset_ingredient active j) (get_array_index-select i h)
    ∙ elim (Bool-cases (ltb i 7)) [ inl low ↦ rw low | inr high ↦ rw high ]

pub chosen-IsValid :
    (active : Active) (i : ℕ) (ing : Ingredient) {active' : Active} {shown : Shown}
    → IsValid active
    → chosen active i ing ≡ returns (active', shown)
    → IsValid active'
chosen-IsValid active i ing {active'} {shown} v e = elim (Bool-cases (exists_id active ing.id)) [
  | inl old ↦ elim (Bool-cases (ltb i 7)) [
    | inl low ↦ subst IsValid (cc (rw (old, low) at e)) (record {
      size = length-set active i none ∙ v.size;
      distinct = Distinct-set-none active i v.distinct;
    })
    | inr high ↦ absurd (cc (rw (old, high) at e))
  ]
  | inr new ↦ subst IsValid (cc (rw new at e)) (record {
    size = length-set active i (some ing) ∙ v.size;
    distinct = Distinct-set-some active i ing new v.distinct;
  })
]

-- A combo box keeps the table valid: nine places, and no id at two of them.
pub on_combo_position_changed-IsValid :
    (ings : List Ingredient) (active : Active) (i id : ℕ) {active' : Active} {shown : Shown}
    → i < 9
    → IsValid active
    → on_combo_position_changed ings active (select i) id ≡ returns (active', shown)
    → IsValid active'
on_combo_position_changed-IsValid ings active i id {active'} {shown} h v e =
    elim (Option-cases (get_ingredient_by_id ings id)) [
      | inl unknown ↦ absurd (cc (on_combo_position_changed_unknown ings active i id h unknown))
      | inr (ing, known) ↦
          chosen-IsValid active i ing v
            (sym (on_combo_position_changed_at ings active i id ing h known) ∙ e)
    ]
