-- ===== src/RingBuffer/Search.antt =====
-- `ring_buffer_find` of src/util/ring_buffer.c against a search of a list.
use ultramat.Base.{
  ℕ, zero, suc, ◌+◌, ◌%◌, ◌≤◌, ◌≡◌, refl, sym, ap, ◌∙◌, inl, inr, List, [], ◌∷◌, Option, none, some,
  arith, ◌==◌, if◌then◌else◌, get_or, Bool-cases,
}
use ultramat.Ring
use ultramat.Ring.{max_size}
use ultramat.Ring.Bounds.{IsValid, size, used-eq-size, is_empty_iff}
use ultramat.Ring.Refine.{window, contents}
use ultramat.RingBuffer.{RingBuffer, find_from, ring_buffer_find}

-- The index of the first element that is `item`, if that of the first element is `index`.
unfoldable pub index_from : List ℕ → ℕ → ℕ → Option ℕ
index_from [] item index = none
index_from (x ∷ xs) item index =
    if x == item then some index else index_from xs item ((index + 1) % max_size)

find_from-index_from :
    (slots : List ℕ) (item rounds i index : ℕ)
    → i + rounds ≤ max_size
    → find_from slots item rounds i index ≡ index_from (window 0 slots i rounds) item index
unfolding find_from index_from
find_from-index_from slots item zero i index h = refl
find_from-index_from slots item (suc zero) i index h = refl
find_from-index_from slots item (suc (suc rounds)) i index h =
    let next : (i + 1) % max_size ≡ i + 1 = omega arith in
    let found =
      find_from-index_from slots item (suc rounds) (i + 1) ((index + 1) % max_size) (omega arith) in
    ap (λ rest. if get_or slots i 0 == item then some index else rest)
      (found
        ∙ ap (λ j. index_from (window 0 slots j (suc rounds)) item ((index + 1) % max_size))
            (cc (next)))

-- On a valid ring the search compares as many slots as are used, from the first slot of the array on,
-- and counts the index that it returns from that of the oldest element. So what it searches are the
-- elements only if the oldest is in the first slot.
pub ring_buffer_find-slots :
    {rb : RingBuffer} (item : ℕ)
    → IsValid rb
    → ring_buffer_find rb item ≡ index_from (window 0 rb.slots 0 (size rb)) item rb.tail
unfolding ring_buffer_find index_from
ring_buffer_find-slots {rb} item v = elim (Bool-cases (Ring.is_empty rb)) [
  | inl gone ↦
      let no_size : size rb ≡ 0 = sym (used-eq-size v) ∙ (is_empty_iff v).0 gone in
      rw (gone, no_size) refl
  | inr left ↦
      rw (left, used-eq-size v)
        (find_from-index_from rb.slots item (size rb) 0 rb.tail (omega arith))
]

-- On a valid ring whose oldest element is in the first slot, the search gives the index of the oldest
-- element that is the item, or fails if there is none.
pub ring_buffer_find-contents :
    {rb : RingBuffer} (item : ℕ)
    → IsValid rb
    → rb.tail ≡ 0
    → ring_buffer_find rb item ≡ index_from (contents 0 rb) item 0
unfolding contents
ring_buffer_find-contents {rb} item v first =
    ring_buffer_find-slots item v
    ∙ ap (λ t. index_from (window 0 rb.slots 0 (size rb)) item t) first
    ∙ ap (λ t. index_from (window 0 rb.slots t (size rb)) item 0) (sym first)
