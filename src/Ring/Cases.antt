-- ===== src/Ring/Cases.antt =====
-- The outcomes of `push` and `pop`, as the clients of the rings use them: what each does to the
-- contents, with the ring itself left shut.
use ultramat.Base.{
  ◌≤◌, ◌<◌, length-set, true, false, ◌≡◌, ◌∙◌, ◌⊎◌, inl, inr, [], ◌∷◌, ◌++◌, some, none, success,
  failure, arith, length, Bool-cases, get_or, leb→le,
}
use ultramat.Ring.{Ring, is_full, is_empty, push, pop}
use ultramat.Ring.Bounds.{IsValid}
use ultramat.Ring.Refine.{
  contents, full-length, free_of_not_full, contents-push, contents_of_empty, contents_of_pos,
  popped, pushed, length-contents,
}

module _ {A : Type 0} (blank : A) where
  pub record Pushed (q : Ring A) (x : A) : Type 0 where
    pub next : Ring A
    pub room : is_full q ≡ false
    pub result : push q x ≡ (success, next)
    pub stored : contents blank next ≡ contents blank q ++ (x ∷ [])
    pub fits : length (contents blank q) < 31
    pub next_IsValid : IsValid next

  pub record Refused (q : Ring A) (x : A) : Type 0 where
    pub no_room : is_full q ≡ true
    pub result : push q x ≡ (failure, q)
    pub full : 31 ≤ length (contents blank q)

  pub push_cases : {q : Ring A} (x : A) → IsValid q → Pushed q x ⊎ Refused q x
  unfolding push
  push_cases {q} x v = elim (Bool-cases (is_full q)) [
    | inl full ↦ inr (record {
      no_room = full;
      result = rw full;
      full = omega (arith, leb→le 31 (length (contents blank q)) (full-length blank v ∙ full));
    })
    | inr room ↦ inl (record {
      next = pushed blank q x;
      room = room;
      result = rw room;
      stored = contents-push blank q x v (free_of_not_full blank v room);
      fits = omega (arith, length-contents blank q, free_of_not_full blank v room);
      next_IsValid = omega (arith, length-set q.slots q.head x, v);
    })
  ]

  pub record Popped (q : Ring A) : Type 0 where
    pub first : A
    pub rest : Ring A
    pub result : pop blank q ≡ (some first, rest)
    pub taken : contents blank q ≡ first ∷ contents blank rest
    pub rest_IsValid : IsValid rest

  pub record Drained (q : Ring A) : Type 0 where
    pub result : pop blank q ≡ (none, q)
    pub gone : contents blank q ≡ []

  pub pop_cases : {q : Ring A} → IsValid q → Popped q ⊎ Drained q
  unfolding pop
  pop_cases {q} v = elim (Bool-cases (is_empty q)) [
    | inl gone ↦ inr (record { result = rw gone; gone = contents_of_empty blank v gone })
    | inr left ↦ inl (record {
      first = get_or q.slots q.tail blank;
      rest = popped blank q;
      result = rw left;
      taken = contents_of_pos blank v left;
      rest_IsValid = omega arith;
    })
  ]
