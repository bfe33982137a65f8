-- ===== src/Positions/Lookup.antt =====
-- `cb_get_position_by_id` (src/callbacks_position.c) against the positions of page one.
use ultramat.Base.{
  ℕ, zero, suc, ◌+◌, ◌-◌, ◌≤◌, ◌<◌, ◌≡◌, refl, ap, ◌∙◌, inl, inr, true, false, [], ◌∷◌, none, some,
  ltb, arith, length, get_or, u8, Bool-cases,
}
use ultramat.Base.Int.{pos}
use ultramat.Drinks.{Ingredient}
use ultramat.Positions.{
  Active, IngPos, invalid, has_id, exists_id, find_position, position_of, get_position_by_id,
  select_positions,
}
use ultramat.Positions.Laws.{IsValid, Distinct, select}

exists_id-stored :
    (active : Active) (i : ℕ) (ing : Ingredient)
    → get_or active i none ≡ some ing
    → exists_id active ing.id ≡ true
unfolding exists_id
exists_id-stored [] i ing e = cc
exists_id-stored (slot ∷ active) zero ing e = ground arith
exists_id-stored (slot ∷ active) (suc i) ing e = ground (arith, exists_id-stored active i ing e)

-- The search finds the position, since no earlier one has the id.
find_position-stored :
    (active : Active) (i k : ℕ) (ing : Ingredient)
    → Distinct active
    → get_or active i none ≡ some ing
    → find_position active ing.id k ≡ some (k + i)
unfolding find_position
find_position-stored [] i k ing d e = cc
find_position-stored (none ∷ active) zero k ing d e = cc
find_position-stored (some old ∷ active) zero k ing d e = ground arith
find_position-stored (none ∷ active) (suc i) k ing d e =
    find_position-stored active i (k + 1) ing d e ∙ ap some (omega arith)
find_position-stored (some old ∷ active) (suc i) k ing d e =
    ground (arith, exists_id-stored active i ing e, find_position-stored active i (k + 1) ing d.1 e)

-- The search finds nothing just when no position has the id.
pub find_position-none :
    (active : Active) (id k : ℕ) → exists_id active id ≡ false → find_position active id k ≡ none
unfolding find_position exists_id
find_position-none [] id k h = refl
find_position-none (slot ∷ active) id k h = elim (Bool-cases (has_id slot id)) [
  | inl hit ↦ absurd (cc (rw hit at h))
  | inr miss ↦ rw miss (find_position-none active id (k + 1) (rw miss at h))
]

pub find_position-some :
    (active : Active) (id k : ℕ)
    → exists_id active id ≡ true
    → (i : ℕ) × (find_position active id k ≡ some i) × (k ≤ i) × (i < k + length active)
unfolding find_position exists_id
find_position-some [] id k h = absurd (cc)
find_position-some (slot ∷ active) id k h = elim (Bool-cases (has_id slot id)) [
  | inl hit ↦ (k, rw hit, omega arith, omega arith)
  | inr miss ↦
      let (i, e, low, high) = find_position-some active id (k + 1) (rw miss at h) in
      (i, rw miss e, omega arith, omega arith)
]

select_behind_pumps :
    (i : ℕ) → 3 ≤ i → i < 9 → select i ≡ record { x_pos = pos (i - 2); pump_pos = invalid }
unfolding select_positions
select_behind_pumps zero l h = absurd (omega arith)
select_behind_pumps (suc zero) l h = absurd (omega arith)
select_behind_pumps (suc (suc zero)) l h = absurd (omega arith)
select_behind_pumps (suc (suc (suc zero))) l h = refl
select_behind_pumps (suc (suc (suc (suc zero)))) l h = refl
select_behind_pumps (suc (suc (suc (suc (suc zero))))) l h = refl
select_behind_pumps (suc (suc (suc (suc (suc (suc zero)))))) l h = refl
select_behind_pumps (suc (suc (suc (suc (suc (suc (suc zero))))))) l h = refl
select_behind_pumps (suc (suc (suc (suc (suc (suc (suc (suc zero)))))))) l h = refl
select_behind_pumps (suc (suc (suc (suc (suc (suc (suc (suc (suc i))))))))) l h =
    absurd (omega arith)

position_of_pump : (i : ℕ) → i < 3 → position_of i ≡ select i
unfolding position_of select_positions
position_of_pump zero h = refl
position_of_pump (suc zero) h = refl
position_of_pump (suc (suc zero)) h = refl
position_of_pump (suc (suc (suc i))) h = absurd (omega arith)

-- An ingredient with an id of 8 bits stands at position `i` of a valid table. At a pump, the look-up
-- by its id gives that position of page one. Behind the pumps page one has x position `i - 2` there,
-- but the look-up gives x position `i`.
pub get_position_by_id_at :
    (active : Active) (i : ℕ) (ing : Ingredient)
    → IsValid active
    → i < 9
    → ing.id < 256
    → get_or active i none ≡ some ing
    → (i < 3 → get_position_by_id active ing.id ≡ some (select i))
      × (3 ≤ i
          → (get_position_by_id active ing.id ≡ some (record { x_pos = pos i; pump_pos = invalid }))
            × (select i ≡ record { x_pos = pos (i - 2); pump_pos = invalid }))
unfolding get_position_by_id
get_position_by_id_at active i ing v h small e = (
  λ pump. rw (found, get_position_by_id) (ap some (position_of_pump i pump)),
  λ behind.
      (rw (found, get_position_by_id) (ap some (high behind)), select_behind_pumps i behind h),
)
  where
    found : find_position active (u8 ing.id) 0 ≡ some i
    found =
        let same : u8 ing.id ≡ ing.id = omega arith in
        rw same (find_position-stored active i 0 ing v.distinct e ∙ ap some (omega arith))

    high : 3 ≤ i → position_of i ≡ record { x_pos = pos i; pump_pos = invalid }
    high behind = let over : ltb i 3 ≡ false = ground arith in rw over

-- The look-up finds a position for an ingredient that has one.
pub get_position_by_id-known :
    (active : Active) (id : ℕ)
    → id < 256
    → exists_id active id ≡ true
    → (p : IngPos) × (get_position_by_id active id ≡ some p)
unfolding get_position_by_id
get_position_by_id-known active id h there =
    let (i, at_i, _, _) = find_position-some active id 0 there in
    let same : u8 id ≡ id = omega arith in
    let found : find_position active (u8 id) 0 ≡ some i = rw same at_i in
    (position_of i, rw (found, get_position_by_id) refl)
