-- ===== src/DynamicArray/Append.antt =====
-- The dynamic array holds what was appended to it, in order.
use ultramat.Base.{
  ℕ, zero, suc, ◌+◌, ◌≤◌, ◌<◌, ◌≡◌, refl, sym, ap, ◌∙◌, inl, inr, List, [], ◌∷◌, ◌++◌, ◌==◌, arith,
  take, set, length, length-set, length-append, length-replicate, Bool-cases, ==_iff, u32,
  append_assoc, append-nil,
}
use ultramat.DynamicArray.{VlArray, reserve, store, vla_init, vla_append}

module _ {ℓ} {A : Type ℓ} where
  -- The elements in use.
  abbrev pub elements : VlArray A → List A
  elements a = take a.used a.data_slots

  pub record IsValid (a : VlArray A) : Type ℓ where
    pub room : a.used ≤ a.size
    pub allocated : length a.data_slots ≡ a.size
    pub some_size : 0 < a.size

  take-set :
      (xs : List A) (n : ℕ) (x : A)
      → n < length xs
      → take (suc n) (set xs n x) ≡ take n xs ++ (x ∷ [])
  take-set [] n x h = absurd (omega arith)
  take-set (y ∷ xs) zero x h = refl
  take-set (y ∷ xs) (suc n) x h = ap (◌∷◌ y) (take-set xs n x (omega arith))

  take-append : (xs ys : List A) → take (length xs) (xs ++ ys) ≡ xs
  take-append [] ys = refl
  take-append (x ∷ xs) ys = ap (◌∷◌ x) (take-append xs ys)

  take-all : (xs : List A) (n : ℕ) → length xs ≤ n → take n xs ≡ xs
  take-all [] zero h = refl
  take-all [] (suc n) h = refl
  take-all (x ∷ xs) zero h = absurd (omega arith)
  take-all (x ∷ xs) (suc n) h = ap (◌∷◌ x) (take-all xs n (omega arith))

-- What the growth has to do for sizes of 31 bits: be larger, in 32 bits.
abbrev pub Grows : (ℕ → ℕ) → Type 0
Grows grow = (n : ℕ) → 0 < n → n < 2147483648 → (n < grow n) × (grow n < 4294967296)

module _ {ℓ} {A : Type ℓ} (junk : A) (grow : ℕ → ℕ) where
  -- An array that has room for one more, with the same elements.
  record Reserved (a b : VlArray A) : Type ℓ where
    same_used : b.used ≡ a.used
    same_elements : elements b ≡ elements a
    room : a.used < b.size
    allocated : length b.data_slots ≡ b.size

  reserve-Reserved :
      (a : VlArray A)
      → Grows grow
      → IsValid a
      → a.used < 2147483648
      → Reserved a (reserve junk grow a)
  unfolding reserve
  reserve-Reserved a g v h = elim (Bool-cases (a.size == a.used)) [
    | inr left ↦
        let differ : a.used < a.size = ground (arith, v.room) in
        rw left (record {
          same_used = refl;
          same_elements = refl;
          room = differ;
          allocated = v.allocated;
        })
    | inl full ↦
        let same : a.size ≡ a.used = (==_iff a.size a.used).0 full in
        let (larger, small) = g a.size v.some_size (omega (arith, same)) in
        let fits : u32 (grow a.size) ≡ grow a.size = omega arith in
        let kept : take (grow a.size) a.data_slots ≡ a.data_slots =
          take-all a.data_slots (grow a.size) (omega (arith, v.allocated)) in
        let all_used : a.used ≡ length a.data_slots = sym same ∙ sym v.allocated in
        rw full (record {
          same_used = refl;
          same_elements =
              rw (kept, all_used)
                (take-append a.data_slots _ ∙ sym (take-all a.data_slots _ (omega arith)));
          room = omega (arith, fits, same);
          allocated =
              rw (kept, fits)
                (length-append a.data_slots _
                  ∙ ap (λ n. length a.data_slots + n) (length-replicate _ junk)
                  ∙ omega (arith, v.allocated));
        })
  ]

  store-Reserved :
      (a b : VlArray A) (x : A)
      → Reserved a b
      → a.used < 2147483648
      → IsValid (store junk grow b x)
        × (elements (store junk grow b x) ≡ elements a ++ (x ∷ []))
        × ((store junk grow b x).used ≡ a.used + 1)
  unfolding store
  store-Reserved a b x r h =
      let next : u32 (b.used + 1) ≡ suc b.used = omega (arith, r.same_used) in
      (
        record {
          room = omega (arith, r.room, r.same_used);
          allocated = length-set b.data_slots b.used x ∙ r.allocated;
          some_size = omega (arith, r.room);
        },
        rw next (take-set b.data_slots b.used x (omega (arith, r.room, r.same_used, r.allocated)))
            ∙ ap (λ (l : List A). l ++ (x ∷ [])) r.same_elements,
        next ∙ omega (arith, r.same_used),
      )

  -- `vla_append` of each element of a list, in order.
  unfoldable pub append_all : VlArray A → List A → VlArray A
  append_all a [] = a
  append_all a (x ∷ xs) = append_all (vla_append junk grow a x) xs

  elements-append_all :
      (a : VlArray A) (xs : List A)
      → Grows grow
      → IsValid a
      → a.used + length xs < 2147483648
      → IsValid (append_all a xs) × (elements (append_all a xs) ≡ elements a ++ xs)
  unfolding append_all vla_append
  elements-append_all a [] g v h = (v, sym (append-nil (elements a)))
  elements-append_all a (x ∷ xs) g v h =
      let r = reserve-Reserved a g v (omega arith) in
      let (v', e, u) = store-Reserved a (reserve junk grow a) x r (omega arith) in
      let (w, e') = elements-append_all (vla_append junk grow a x) xs g v' (omega (arith, u)) in
      (w, e' ∙ ap (λ (l : List A). l ++ xs) e ∙ append_assoc (elements a) (x ∷ []) xs)

  -- If the growth makes sizes of 31 bits larger and keeps them in 32 bits, an array that was
  -- initialised, and to which fewer than 2^31 elements were appended, is valid and holds just these,
  -- in their order.
  pub elements-append_all-vla_init :
      (blank : A) (xs : List A)
      → Grows grow
      → length xs < 2147483648
      → IsValid (append_all (vla_init junk grow blank) xs)
        × (elements (append_all (vla_init junk grow blank) xs) ≡ xs)
  unfolding vla_init
  elements-append_all-vla_init blank xs g h =
      elements-append_all (vla_init junk grow blank) xs g
        (record { room = omega arith; allocated = refl; some_size = omega arith }) (omega arith)
