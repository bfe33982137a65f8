-- ===== src/Tests/Arrays.antt =====
-- The dynamic array of src/util/dynamic_array.c, growing once.
use ultramat.Base.{ℕ, ◌+◌, ◌*◌, ◌/◌, ◌≡◌, [], ◌∷◌, List, arith}
use ultramat.DynamicArray.{vla_init}
use ultramat.DynamicArray.Append.{
  IsValid, Grows, elements, append_all, elements-append_all-vla_init,
}

-- 1.6 times the size, rounded up.
abbrev pub grown : ℕ → ℕ
grown n = (8 * n + 4) / 5

pub grown-Grows : Grows grown
grown-Grows = λ n p h. (omega arith, omega arith)

abbrev six : List ℕ
six = 1 ∷ 2 ∷ 3 ∷ 4 ∷ 5 ∷ 6 ∷ []

elements-append_all-vla_init_example :
    IsValid (append_all 0 grown (vla_init 0 grown 0) six)
    × (elements (append_all 0 grown (vla_init 0 grown 0) six) ≡ six)
elements-append_all-vla_init_example =
    elements-append_all-vla_init 0 grown 0 six grown-Grows (omega arith)
