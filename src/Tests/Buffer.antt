-- ===== src/Tests/Buffer.antt =====
-- The search of src/util/ring_buffer.c in concrete rings.
use ultramat.Base.{◌≡◌, ◌∷◌, none, arith, replicate}
use ultramat.RingBuffer.{RingBuffer, ring_buffer_find}
use ultramat.RingBuffer.Search.{index_from, ring_buffer_find-slots}

-- 7 was put and popped, then 8 was put.
abbrev moved_on : RingBuffer
moved_on = record { head = 2; tail = 1; slots = 7 ∷ 8 ∷ replicate 30 0 }

-- 8 is in the ring, and is not found.
ring_buffer_find-slots_example : ring_buffer_find moved_on 8 ≡ none
unfolding index_from
ring_buffer_find-slots_example = ring_buffer_find-slots {rb = moved_on} 8 (omega arith)
