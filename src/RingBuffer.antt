-- ===== src/RingBuffer.antt =====
-- src/util/ring_buffer.c and inc/util/ring_buffer.h: the circular buffer of bytes, and its search.
-- Every caller passes the addresses of objects, so the tests for null pointers never fail and are
-- left out.
pub mod Search
use ultramat.Base.{
  ℕ, zero, suc, ◌+◌, ◌%◌, List, Bool, Option, none, some, Status, ◌==◌, if◌then◌else◌, get_or,
}
use ultramat.Ring
use ultramat.Ring.{Ring, max_size}

abbrev pub RingBuffer : Type 0
RingBuffer = Ring ℕ

-- The buffer with all bytes 0.
abbrev pub zeroed : RingBuffer
zeroed = Ring.init 0

abbrev pub ring_buffer_put : RingBuffer → ℕ → Status × RingBuffer
ring_buffer_put rb x = Ring.push rb x

abbrev pub ring_buffer_pop : RingBuffer → Option ℕ × RingBuffer
ring_buffer_pop rb = Ring.pop 0 rb

abbrev pub ring_buffer_peek : RingBuffer → Option ℕ
ring_buffer_peek rb = Ring.peek 0 rb

abbrev pub ring_buffer_is_full : RingBuffer → Bool
ring_buffer_is_full rb = Ring.is_full rb

abbrev pub ring_buffer_is_empty : RingBuffer → Bool
ring_buffer_is_empty rb = Ring.is_empty rb

-- The loop of `ring_buffer_find` over its variables, with the rounds left before them. It compares
-- slot `i` and returns `index`; `none` is the return value -1.
find_from : List ℕ → ℕ → ℕ → ℕ → ℕ → Option ℕ
find_from slots item zero i index = none
find_from slots item (suc rounds) i index =
    let rest = find_from slots item rounds (i + 1) ((index + 1) % max_size) in
    if get_or slots i 0 == item then some index else rest

unfoldable pub ring_buffer_find : RingBuffer → ℕ → Option ℕ
unfolding find_from
ring_buffer_find rb item =
    if Ring.is_empty rb then none else find_from rb.slots item (Ring.used rb) 0 rb.tail
