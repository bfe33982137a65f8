-- ===== src/Ring/Bounds.antt =====
-- The indices of a circular buffer stay inside its array, and its free and used slots add up.
use ultramat.Base.{ℕ, ◌+◌, ◌-◌, ◌%◌, ◌<◌, ◌≡◌, ◌↔◌, arith, true, length, length-set}
use ultramat.Ring.{Ring, max_size, is_full, is_empty, push, pop, init, used}

module _ {ℓ} {A : Type ℓ} where
  pub record IsValid (q : Ring A) : Type ℓ where
    pub head_in : q.head < max_size
    pub tail_in : q.tail < max_size
    pub storage : length q.slots ≡ max_size

  -- The number of stored elements, from the two indices.
  abbrev pub size : Ring A → ℕ
  size q = (q.head + max_size - q.tail) % max_size

  pub init-IsValid : (blank : A) → IsValid (init blank)
  unfolding init
  init-IsValid blank = omega arith

  pub push-IsValid : {q : Ring A} (x : A) → IsValid q → IsValid (push q x).1
  unfolding push is_full
  push-IsValid {q} x v = ground (arith, length-set q.slots q.head x)

  pub pop-IsValid : (blank : A) {q : Ring A} → IsValid q → IsValid (pop blank q).1
  unfolding pop is_empty
  pop-IsValid blank v = ground arith

  pub used-eq-size : {q : Ring A} → IsValid q → used q ≡ size q
  unfolding used
  used-eq-size v = ground arith

  pub is_full_iff : {q : Ring A} → IsValid q → (is_full q ≡ true) ↔ (used q ≡ 31)
  unfolding is_full used
  is_full_iff v = ground arith

  pub is_empty_iff : {q : Ring A} → IsValid q → (is_empty q ≡ true) ↔ (used q ≡ 0)
  unfolding is_empty used
  is_empty_iff v = ground arith
