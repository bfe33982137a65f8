-- ===== src/Positions/Laws.antt =====
-- The table of active ingredients (src/callbacks_position.c): no ingredient stands at two
-- positions, what the callbacks do at each position of page one, and what a look-up gives.
use ultramat.Base.{
  ℕ, zero, suc, ◌<◌, ◌≡◌, ◌≢◌, refl, false, [], ◌∷◌, none, some, returns, arith, length, get_or,
  set,
}
use ultramat.Base.Int.{pos}
use ultramat.Drinks.{Ingredient}
use ultramat.Positions.{Active, IngPos, invalid, exists_id, get_array_index, select_positions}

-- Position `i` of page one.
abbrev pub select : ℕ → IngPos
unfolding select_positions
select i = get_or select_positions i (record { x_pos = invalid; pump_pos = invalid })

-- The positions of page one are the places of the table, in order.
pub get_array_index-select : (i : ℕ) → i < 9 → get_array_index (select i) ≡ returns (pos i)
unfolding get_array_index select_positions
get_array_index-select zero h = refl
get_array_index-select (suc zero) h = refl
get_array_index-select (suc (suc zero)) h = refl
get_array_index-select (suc (suc (suc zero))) h = refl
get_array_index-select (suc (suc (suc (suc zero)))) h = refl
get_array_index-select (suc (suc (suc (suc (suc zero))))) h = refl
get_array_index-select (suc (suc (suc (suc (suc (suc zero)))))) h = refl
get_array_index-select (suc (suc (suc (suc (suc (suc (suc zero))))))) h = refl
get_array_index-select (suc (suc (suc (suc (suc (suc (suc (suc zero)))))))) h = refl
get_array_index-select (suc (suc (suc (suc (suc (suc (suc (suc (suc i))))))))) h =
    absurd (omega arith)

-- No two positions hold ingredients with one id.
abbrev pub Distinct : Active → Type 0
Distinct [] = Unit
Distinct (none ∷ active) = Distinct active
Distinct (some ing ∷ active) = (exists_id active ing.id ≡ false) × Distinct active

pub record IsValid (active : Active) : Type 0 where
  pub size : length active ≡ 9
  pub distinct : Distinct active

exists_id-set-none :
    (active : Active) (i id : ℕ)
    → exists_id active id ≡ false
    → exists_id (set active i none) id ≡ false
unfolding exists_id
exists_id-set-none [] i id h = h
exists_id-set-none (none ∷ active) zero id h = h
exists_id-set-none (some ing ∷ active) zero id h = ground arith
exists_id-set-none (none ∷ active) (suc i) id h = exists_id-set-none active i id h
exists_id-set-none (some ing ∷ active) (suc i) id h = ground (arith, exists_id-set-none active i id)

pub Distinct-set-none : (active : Active) (i : ℕ) → Distinct active → Distinct (set active i none)
Distinct-set-none [] i d = tt
Distinct-set-none (none ∷ active) zero d = d
Distinct-set-none (some ing ∷ active) zero d = d.1
Distinct-set-none (none ∷ active) (suc i) d = Distinct-set-none active i d
Distinct-set-none (some ing ∷ active) (suc i) d =
    (exists_id-set-none active i ing.id d.0, Distinct-set-none active i d.1)

exists_id-set-some :
    (active : Active) (i id : ℕ) (ing : Ingredient)
    → exists_id active id ≡ false
    → ing.id ≢ id
    → exists_id (set active i (some ing)) id ≡ false
unfolding exists_id
exists_id-set-some [] i id ing h ne = h
exists_id-set-some (none ∷ active) zero id ing h ne = ground arith
exists_id-set-some (some old ∷ active) zero id ing h ne = ground arith
exists_id-set-some (none ∷ active) (suc i) id ing h ne = exists_id-set-some active i id ing h ne
exists_id-set-some (some old ∷ active) (suc i) id ing h ne =
    ground (arith, exists_id-set-some active i id ing)

pub Distinct-set-some :
    (active : Active) (i : ℕ) (ing : Ingredient)
    → exists_id active ing.id ≡ false
    → Distinct active
    → Distinct (set active i (some ing))
unfolding exists_id
Distinct-set-some [] i ing h d = tt
Distinct-set-some (none ∷ active) zero ing h d = (h, d)
Distinct-set-some (some old ∷ active) zero ing h d = (ground arith, d.1)
Distinct-set-some (none ∷ active) (suc i) ing h d = Distinct-set-some active i ing h d
Distinct-set-some (some old ∷ active) (suc i) ing h d = (
  exists_id-set-some active i old.id ing d.0 (ground arith),
  Distinct-set-some active i ing (ground arith) d.1,
)
