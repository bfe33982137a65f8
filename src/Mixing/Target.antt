-- ===== src/Mixing/Target.antt =====
-- Where a recipe step of `proto_comms_start_new_mixing` (src/proto_serial.c) sends the machine, for
-- an ingredient at a position of page one.
use ultramat.Base.{
  ℕ, zero, suc, ◌+◌, ◌-◌, ◌≤◌, ◌<◌, ◌≡◌, refl, ap, ◌∙◌, none, some, arith, get_or, u32, lt_or_le,
  ◌⊎◌, inl, inr,
}
use ultramat.Base.Int.{pos}
use ultramat.Drinks.{Ingredient}
use ultramat.Proto.{RecipeStep}
use ultramat.Proto.Position
use ultramat.Positions.{Active, IngPos, invalid, get_position_by_id, select_positions}
use ultramat.Positions.Laws.{IsValid, select}
use ultramat.Positions.Lookup.{get_position_by_id_at}
use ultramat.Mixing.{step_of}

-- The step for pump `i`.
abbrev pub pump_step : ℕ → RecipeStep
pump_step i = record {
  x_pos = Position.one;
  y_count = none;
  pump = some (record { pump_pos = i; seconds = 5 });
}

-- The step that moves to an x position and takes `count` measures there.
abbrev pub move_step : ℕ → ℕ → RecipeStep
move_step x count = record { x_pos = x; y_count = some count; pump = none }

step_of_pump : (i count : ℕ) → i < 3 → step_of (select i) count ≡ pump_step i
unfolding step_of select_positions
step_of_pump zero count h = refl
step_of_pump (suc zero) count h = refl
step_of_pump (suc (suc zero)) count h = refl
step_of_pump (suc (suc (suc i))) count h = absurd (omega arith)

step_of_x :
    (x count : ℕ)
    → 0 < x
    → x < 9
    → step_of (record { x_pos = pos x; pump_pos = invalid }) count ≡ move_step (x + 1) count
unfolding step_of
step_of_x zero count p h = absurd (omega arith)
step_of_x (suc x) count p h =
    let small : u32 (suc x + 1) ≡ suc x + 1 = omega arith in rw small (ground arith)

-- An ingredient with an id of 8 bits stands at position `i` of a valid table; `p` is where the
-- look-up puts it. At a pump the step runs that pump at x position ONE. Behind the pumps the step
-- goes to x position `i + 1`, while the position of page one is at `i - 1`, two further back: the
-- last two go to the position FINAL, 8, and to 9, which is no position.
pub step_of_position :
    (active : Active) (i count : ℕ) (ing : Ingredient) (p : IngPos)
    → IsValid active
    → i < 9
    → ing.id < 256
    → get_or active i none ≡ some ing
    → get_position_by_id active ing.id ≡ some p
    → ((i < 3) × (step_of p count ≡ pump_step i))
      ⊎ ((3 ≤ i)
          × (step_of p count ≡ move_step (i + 1) count)
          × (step_of (select i) count ≡ move_step (i - 1) count))
step_of_position active i count ing p v h small e found =
    let (pump, behind) = get_position_by_id_at active i ing v h small e in
    elim (lt_or_le i 3) [
      | inl low ↦ inl (low, ap (λ q. step_of q count) (cc (pump low)) ∙ step_of_pump i count low)
      | inr high ↦ inr (
        high,
        ap (λ q. step_of q count) (cc ((behind high).0)) ∙ step_of_x i count (omega arith) h,
        ap (λ q. step_of q count) (behind high).1
            ∙ step_of_x (i - 2) count (omega arith) (omega arith)
            ∙ ap (λ x. move_step x count) (omega arith),
      )
    ]
