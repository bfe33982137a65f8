-- ===== src/Info/Text.antt =====
-- The label of src/callbacks_info.c shows the whole version.
use ultramat.Base.{
  ℕ, ◌+◌, ◌-◌, ◌*◌, ◌/◌, ◌%◌, ◌≤◌, ◌<◌, ◌≡◌, refl, sym, ap, ◌∙◌, inl, inr, List, [], ◌∷◌, ◌++◌, ltb,
  ◌==◌, if◌then◌else◌, false, take, length, length-append, append-nil, Bool-cases, zero, suc, arith,
}
use ultramat.Proto.{McVersion}
use ultramat.Info.{decimal, version_format, info_set_mc_version}

-- What a user reads: the numbers between the dots, `acc` being the digits read of the first one.
abbrev pub numbers : ℕ → List ℕ → List ℕ
numbers acc [] = acc ∷ []
numbers acc (c ∷ cs) =
    let next = numbers 0 cs in
    let more = numbers (acc * 10 + (c - 48)) cs in if c == 46 then acc ∷ next else more

pub record IsBytes (v : McVersion) : Type 0 where
  pub major : v.major < 256
  pub minor : v.minor < 256
  pub bugfix : v.bugfix < 256

length-decimal : (n : ℕ) → length (decimal n) ≤ 3
unfolding decimal
length-decimal n = elim (Bool-cases (ltb n 10)) [
  | inl one ↦ rw one (omega arith)
  | inr more ↦ elim (Bool-cases (ltb n 100)) [
    | inl two ↦ rw (more, two) (omega arith)
    | inr three ↦ rw (more, three) (omega arith)
  ]
]

take-all {ℓ} : {A : Type ℓ} (n : ℕ) (xs : List A) → length xs ≤ n → take n xs ≡ xs
take-all zero [] h = refl
take-all zero (x ∷ xs) h = absurd (omega arith)
take-all (suc n) [] h = refl
take-all (suc n) (x ∷ xs) h = ap (λ ys. x ∷ ys) (take-all n xs (omega arith))

numbers-digit : (acc d : ℕ) (cs : List ℕ) → numbers acc ((48 + d) ∷ cs) ≡ numbers (acc * 10 + d) cs
numbers-digit acc d cs =
    let digit : ((48 + d) == 46) ≡ false = ground arith in
    rw digit (ap (λ n. numbers (acc * 10 + n) cs) (omega arith))

numbers-decimal :
    (n : ℕ) (rest : List ℕ) → n < 1000 → numbers 0 (decimal n ++ rest) ≡ numbers n rest
unfolding decimal
numbers-decimal n rest h = elim (Bool-cases (ltb n 10)) [
  | inl one ↦ rw one (numbers-digit 0 n rest ∙ ap (λ k. numbers k rest) (omega arith))
  | inr more ↦ elim (Bool-cases (ltb n 100)) [
    | inl two ↦
        rw (more, two)
          (numbers-digit 0 (n / 10) ((48 + n % 10) ∷ rest)
            ∙ numbers-digit (0 * 10 + n / 10) (n % 10) rest
            ∙ ap (λ k. numbers k rest) (omega arith))
    | inr three ↦
        rw (more, three)
          (numbers-digit 0 (n / 100) ((48 + n / 10 % 10) ∷ (48 + n % 10) ∷ rest)
            ∙ numbers-digit (0 * 10 + n / 100) (n / 10 % 10) ((48 + n % 10) ∷ rest)
            ∙ numbers-digit ((0 * 10 + n / 100) * 10 + n / 10 % 10) (n % 10) rest
            ∙ ap (λ k. numbers k rest) (omega arith))
  ]
]

numbers-dot : (n : ℕ) (cs : List ℕ) → numbers n (46 ∷ cs) ≡ n ∷ numbers 0 cs
numbers-dot n cs = refl

-- What stands behind the "v".
parts : McVersion → List ℕ
parts v = decimal v.major ++ (46 ∷ (decimal v.minor ++ (46 ∷ decimal v.bugfix)))

parts-numbers :
    (v : McVersion) → IsBytes v → numbers 0 (parts v) ≡ v.major ∷ v.minor ∷ v.bugfix ∷ []
unfolding parts
parts-numbers v bytes =
    let last : List ℕ = 46 ∷ decimal v.bugfix in
    let after : List ℕ = 46 ∷ (decimal v.minor ++ last) in
    let ended : numbers 0 (decimal v.bugfix) ≡ v.bugfix ∷ [] =
      ap (numbers 0) (sym (append-nil (decimal v.bugfix)))
      ∙ numbers-decimal v.bugfix [] (omega (arith, bytes.bugfix)) in
    let middle : numbers 0 (decimal v.minor ++ last) ≡ v.minor ∷ v.bugfix ∷ [] =
      numbers-decimal v.minor last (omega (arith, bytes.minor))
      ∙ numbers-dot v.minor (decimal v.bugfix)
      ∙ ap (λ ns. v.minor ∷ ns) ended in
    numbers-decimal v.major after (omega (arith, bytes.major))
    ∙ numbers-dot v.major (decimal v.minor ++ last)
    ∙ ap (λ ns. v.major ∷ ns) middle

parts-length : (v : McVersion) → length (parts v) ≤ 12
unfolding parts
parts-length v =
    let last : List ℕ = 46 ∷ decimal v.bugfix in
    let after : List ℕ = 46 ∷ (decimal v.minor ++ last) in
    let front : length (decimal v.major ++ after) ≡ length (decimal v.major) + length after =
      length-append (decimal v.major) after in
    let back : length (decimal v.minor ++ last) ≡ length (decimal v.minor) + length last =
      length-append (decimal v.minor) last in
    omega
      (arith, front, back, length-decimal v.major, length-decimal v.minor, length-decimal v.bugfix)

-- The parts of a version have 8 bits. Then the text of the label is never cut: it is a "v", and behind
-- it just the three parts are read between the dots.
pub info_set_mc_version-numbers :
    (v : McVersion)
    → IsBytes v
    → (rest : List ℕ) × (info_set_mc_version v ≡ 118 ∷ rest)
      × (numbers 0 rest ≡ v.major ∷ v.minor ∷ v.bugfix ∷ [])
unfolding info_set_mc_version version_format parts
info_set_mc_version-numbers v bytes =
    (parts v, take-all 13 (118 ∷ parts v) (omega (arith, parts-length v)), parts-numbers v bytes)
