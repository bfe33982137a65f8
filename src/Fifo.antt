-- ===== src/Fifo.antt =====
-- What a client of a circular buffer is promised: a first-in first-out queue of at most
-- `capacity` elements, oldest first. This is the specification, not code of the repository.
use ultramat.Base.{
  ℕ, List, [], ◌∷◌, ◌++◌, Bool, true, false, Option, none, some, Status, success, failure, leb,
  if◌then◌else◌, length,
}

abbrev pub capacity : ℕ
capacity = 31

module _ {ℓ} {A : Type ℓ} where
  unfoldable pub push : List A → A → Status × List A
  push q x = if leb capacity (length q) then (failure, q) else (success, q ++ (x ∷ []))

  unfoldable pub pop : List A → Option A × List A
  pop [] = (none, [])
  pop (x ∷ q) = (some x, q)

  unfoldable pub peek : List A → Option A
  peek [] = none
  peek (x ∷ q) = some x

  abbrev pub is_empty : List A → Bool
  is_empty [] = true
  is_empty (x ∷ q) = false

-- A client's calls, and the answers to a sequence of them.
pub data Op {ℓ} (A : Type ℓ) : Type ℓ where
  put : A → Op A
  get : Op A
  look : Op A

abbrev pub Reply {ℓ} : Type ℓ → Type ℓ
Reply A = Status × Option A

module _ {ℓ} {A : Type ℓ} where
  unfoldable pub run : List A → List (Op A) → List (Reply A)
  run q [] = []
  run q (put x ∷ ops) = let (s, q') = push q x in (s, none) ∷ run q' ops
  run q (get ∷ ops) = let (r, q') = pop q in (success, r) ∷ run q' ops
  run q (look ∷ ops) = (success, peek q) ∷ run q ops
