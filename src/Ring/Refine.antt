-- ===== src/Ring/Refine.antt =====
-- A valid circular buffer behaves as the first-in first-out queue of what it holds.
use ultramat.Base.{
  ℕ, zero, suc, ◌+◌, ◌-◌, ◌%◌, ◌<◌, ◌≡◌, ◌≢◌, refl, ap, List, [], ◌∷◌, ◌++◌, arith, none, success,
  leb, true, false, Bool-cases, inl, inr, length, set, get_or,
}
use ultramat.Fifo
use ultramat.Fifo.{Op, put, get, look, Reply}
use ultramat.Ring.{Ring, max_size, is_full, is_empty, push, pop, peek, init}
use ultramat.Ring.Bounds.{IsValid, size, push-IsValid, pop-IsValid}

module _ {ℓ} {A : Type ℓ} where
  pub get_or-set_self :
      (xs : List A) (i : ℕ) (v d : A) → i < length xs → get_or (set xs i v) i d ≡ v
  get_or-set_self [] i v d h = absurd (omega arith)
  get_or-set_self (x ∷ xs) zero v d h = refl
  get_or-set_self (x ∷ xs) (suc i) v d h = get_or-set_self xs i v d (omega arith)

  pub get_or-set_ne :
      (xs : List A) (i j : ℕ) (v d : A) → i ≢ j → get_or (set xs i v) j d ≡ get_or xs j d
  get_or-set_ne [] i j v d h = refl
  get_or-set_ne (x ∷ xs) zero zero v d h = absurd (h refl)
  get_or-set_ne (x ∷ xs) zero (suc j) v d h = refl
  get_or-set_ne (x ∷ xs) (suc i) zero v d h = refl
  get_or-set_ne (x ∷ xs) (suc i) (suc j) v d h = get_or-set_ne xs i j v d (λ e. h (ap suc e))

  -- The `n` elements that start at slot `t`, going round.
  abbrev pub window : A → List A → ℕ → ℕ → List A
  window blank slots t zero = []
  window blank slots t (suc n) = get_or slots t blank ∷ window blank slots ((t + 1) % max_size) n

  length-window : (b : A) (slots : List A) (t n : ℕ) → length (window b slots t n) ≡ n
  length-window b slots t zero = refl
  length-window b slots t (suc n) = ap suc (length-window b slots ((t + 1) % max_size) n)

  -- A write to the slot behind a window extends the window.
  window-set :
      (b : A) (slots : List A) (x : A) (i n t : ℕ)
      → length slots ≡ max_size
      → t < max_size
      → n < max_size
      → i ≡ (t + n) % max_size
      → window b (set slots i x) t (suc n) ≡ window b slots t n ++ (x ∷ [])
  window-set b slots x i zero t hs ht hn e =
      let here : i ≡ t = omega arith in rw (here, get_or-set_self slots t x b (omega arith))
  window-set b slots x i (suc n) t hs ht hn e =
      rw (get_or-set_ne slots i t x b (λ p. omega arith)) (
        ap (◌∷◌ (get_or slots t b)) (
          window-set b slots x i n ((t + 1) % max_size) hs (omega arith) (omega arith)
            (omega arith)))

  module _ (blank : A) where
    -- What a ring holds, oldest first.
    unfoldable pub contents : Ring A → List A
    contents q = window blank q.slots q.tail (size q)

    pub length-contents : (q : Ring A) → length (contents q) ≡ size q
    unfolding contents
    length-contents q = length-window blank q.slots q.tail (size q)

    pub contents-init : contents (init blank) ≡ []
    unfolding contents init
    contents-init = refl

    -- The ring after a successful `push`.
    abbrev pub pushed : Ring A → A → Ring A
    pushed q x = record q { slots = set q.slots q.head x; head = (q.head + 1) % max_size }

    pub contents-push :
        (q : Ring A) (x : A)
        → IsValid q
        → size q < 31
        → contents (pushed q x) ≡ contents q ++ (x ∷ [])
    unfolding contents
    contents-push q x v h =
        let grows : ((q.head + 1) % 32 + 32 - q.tail) % 32 ≡ suc (size q) = omega arith in
        rw grows (
          window-set blank q.slots x q.head (size q) q.tail v.storage v.tail_in (omega arith)
            (omega arith))

    pub full-length : {q : Ring A} → IsValid q → leb 31 (length (contents q)) ≡ is_full q
    unfolding is_full
    full-length {q} v = ground (arith, length-contents q)

    pub free_of_not_full : {q : Ring A} → IsValid q → is_full q ≡ false → size q < 31
    unfolding is_full
    free_of_not_full v h = ground arith

    -- `push` answers as the bounded queue does, and leaves the ring holding its queue.
    pub push_refines :
        {q : Ring A} (x : A)
        → IsValid q
        → let (s, q') = push q x in (s, contents q') ≡ Fifo.push (contents q) x
    unfolding push Fifo.push
    push_refines {q} x v = rw (full-length v) (elim (Bool-cases (is_full q)) [
      | inl full ↦ rw full
      | inr room ↦ rw room (ap (λ l. (success, l)) (contents-push q x v (free_of_not_full v room)))
    ])

    -- `window` matches on `suc`, and the code compares the two indices.
    window_of_pos :
        (slots : List A) (t n : ℕ)
        → 0 < n
        → window blank slots t n ≡ get_or slots t blank ∷ window blank slots ((t + 1) % 32) (n - 1)
    window_of_pos slots t zero h = absurd (omega arith)
    window_of_pos slots t (suc n) h =
        ap (λ k. get_or slots t blank ∷ window blank slots ((t + 1) % 32) k) (omega arith)

    pub contents_of_empty : {q : Ring A} → IsValid q → is_empty q ≡ true → contents q ≡ []
    unfolding is_empty contents
    contents_of_empty {q} v h = let none_left : size q ≡ 0 = ground arith in rw none_left

    -- The ring after a successful `pop`.
    abbrev pub popped : Ring A → Ring A
    popped q = record q { tail = (q.tail + 1) % max_size }

    pub contents_of_pos :
        {q : Ring A}
        → IsValid q
        → is_empty q ≡ false
        → contents q ≡ get_or q.slots q.tail blank ∷ contents (popped q)
    unfolding is_empty contents
    contents_of_pos {q} v h =
        let some_left : 0 < size q = ground arith in
        let shrinks : size q - 1 ≡ size (popped q) = omega arith in
        rw (window_of_pos q.slots q.tail (size q) some_left, shrinks)

    -- `pop` answers as the queue does, and leaves the ring holding the rest.
    pub pop_refines :
        {q : Ring A}
        → IsValid q
        → let (r, q') = pop blank q in (r, contents q') ≡ Fifo.pop (contents q)
    unfolding pop Fifo.pop
    pop_refines {q} v = elim (Bool-cases (is_empty q)) [
      | inl gone ↦ rw (gone, contents_of_empty v gone)
      | inr left ↦ rw (left, contents_of_pos v left)
    ]

    pub peek_refines : {q : Ring A} → IsValid q → peek blank q ≡ Fifo.peek (contents q)
    unfolding peek Fifo.peek
    peek_refines {q} v = elim (Bool-cases (is_empty q)) [
      | inl gone ↦ rw (gone, contents_of_empty v gone)
      | inr left ↦ rw (left, contents_of_pos v left)
    ]

    pub is_empty_refines : {q : Ring A} → IsValid q → is_empty q ≡ Fifo.is_empty (contents q)
    is_empty_refines {q} v = elim (Bool-cases (is_empty q)) [
      | inl gone ↦ rw (gone, contents_of_empty v gone)
      | inr left ↦ rw (left, contents_of_pos v left)
    ]

    -- A client's sequence of calls on a ring.
    pub run : Ring A → List (Op A) → List (Reply A)
    run q [] = []
    run q (put x ∷ ops) = let (s, q') = push q x in (s, none) ∷ run q' ops
    run q (get ∷ ops) = let (r, q') = pop blank q in (success, r) ∷ run q' ops
    run q (look ∷ ops) = (success, peek blank q) ∷ run q ops

    -- On a valid ring every sequence of calls of put, pop and peek is answered as the bounded
    -- first-in first-out queue of its contents answers it: the same statuses and the same values.
    pub run_refines :
        (ops : List (Op A)) {q : Ring A} → IsValid q → run q ops ≡ Fifo.run (contents q) ops
    unfolding run Fifo.run
    run_refines [] v = refl
    run_refines (put x ∷ ops) v = rw (run_refines ops (push-IsValid x v), ← push_refines x v)
    run_refines (get ∷ ops) v = rw (run_refines ops (pop-IsValid blank v), ← pop_refines v)
    run_refines (look ∷ ops) v = rw (run_refines ops v, peek_refines v)
