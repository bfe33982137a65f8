-- ===== src/DynamicArray.antt =====
-- src/util/dynamic_array.c and inc/util/dynamic_array.h: the array that holds the ingredients and the
-- recipes. Every caller passes the addresses of objects, and memory does not run out.
pub mod Append
use ultramat.Base.{
  ℕ, ◌+◌, ◌-◌, List, [], ◌++◌, Option, none, some, ◌==◌, if◌then◌else◌, get_or, set, take, length,
  replicate, u32,
}

-- VLA_INITIAL_SIZE
abbrev pub initial_size : ℕ
initial_size = 5

-- `VLArray_t`; `size` is the length of the slots, kept in 32 bits.
pub record VlArray {ℓ} (A : Type ℓ) : Type ℓ where
  pub data_slots : List A
  pub size : ℕ
  pub used : ℕ

-- `junk` is what fresh memory holds, and `grow` the float product with RESIZE_FACTOR, rounded up.
module _ {ℓ} {A : Type ℓ} (junk : A) (grow : ℕ → ℕ) where
  -- `vla_init`, where `calloc` gives memory that is all 0, `blank`.
  unfoldable pub vla_init : A → VlArray A
  vla_init blank = record {
    data_slots = replicate initial_size blank;
    size = initial_size;
    used = 0;
  }

  -- `realloc`
  abbrev pub resized : ℕ → List A → List A
  resized n xs = take n xs ++ replicate (n - length xs) junk

  -- The first part of `vla_append`, where a full array grows.
  reserve : VlArray A → VlArray A
  reserve a =
      if a.size == a.used
      then record a { data_slots = resized (grow a.size) a.data_slots; size = u32 (grow a.size) }
      else a

  -- `memcpy` to the slot behind the last.
  store : VlArray A → A → VlArray A
  store a x = record a { data_slots = set a.data_slots a.used x; used = u32 (a.used + 1) }

  unfoldable pub vla_append : VlArray A → A → VlArray A
  unfolding reserve store
  vla_append a x = store (reserve a) x

  -- `vla_get_elem_at`, which does not look at `used`.
  unfoldable pub vla_get_elem_at : VlArray A → ℕ → A
  vla_get_elem_at a i = get_or a.data_slots i junk

-- What the given function makes of the memory that starts with the array's first element.
abbrev called {ℓ} : {A : Type ℓ} → Option (List A → List A) → List A → List A
called none xs = xs
called (some free_func) xs = free_func xs

-- `vla_free`: the array, with a null pointer for its data, and what the freed memory held then.
unfoldable pub vla_free {ℓ} :
    {A : Type ℓ} → Option (List A → List A) → VlArray A → VlArray A × List A
vla_free free_func a = (record a { data_slots = [] }, called free_func a.data_slots)
