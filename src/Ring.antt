-- ===== src/Ring.antt =====
-- The circular buffer that util/queue.c and util/ring_buffer.c implement three times, for
-- messages, responses and bytes: an array of `max_size` slots, `head` the next slot to write and
-- `tail` the oldest. One slot stays free, so that a full buffer differs from an empty one.
-- `int` indices are natural numbers: `Ring.Bounds` shows them in range.
pub mod Bounds
pub mod Refine
pub mod Cases
use ultramat.Base.{
  ℕ, ◌+◌, ◌-◌, ◌%◌, Bool, List, Option, none, some, Status, success, failure, ◌==◌, leb,
  if◌then◌else◌, get_or, set, replicate,
}

-- RING_BUFFER_MAX_SIZE and QUEUE_MAX_SIZE
abbrev pub max_size : ℕ
max_size = 32

pub record Ring {ℓ} (A : Type ℓ) : Type ℓ where
  pub head : ℕ
  pub tail : ℕ
  pub slots : List A

module _ {ℓ} {A : Type ℓ} where
  unfoldable pub is_full : Ring A → Bool
  is_full q = (q.head + 1) % max_size == q.tail

  unfoldable pub is_empty : Ring A → Bool
  is_empty q = q.tail == q.head

  -- Fails on a full ring, which it leaves alone.
  unfoldable pub push : Ring A → A → Status × Ring A
  push q x =
      if is_full q
      then (failure, q)
      else (success, record q { slots = set q.slots q.head x; head = (q.head + 1) % max_size })

  unfoldable pub free : Ring A → ℕ
  free q = if leb q.tail q.head then max_size - 1 - (q.head - q.tail) else q.tail - q.head - 1

  unfoldable pub used : Ring A → ℕ
  unfolding free
  used q = max_size - 1 - free q

-- `blank` is the element whose bytes are all 0.
module _ {ℓ} {A : Type ℓ} (blank : A) where
  unfoldable pub init : Ring A
  init = record { head = 0; tail = 0; slots = replicate max_size blank }

  -- `none` is the return value -1; else what the call stores through its pointer.
  unfoldable pub pop : Ring A → Option A × Ring A
  pop q =
      if is_empty q
      then (none, q)
      else (some (get_or q.slots q.tail blank), record q { tail = (q.tail + 1) % max_size })

  unfoldable pub peek : Ring A → Option A
  peek q = if is_empty q then none else some (get_or q.slots q.tail blank)
