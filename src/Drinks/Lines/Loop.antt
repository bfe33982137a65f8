-- ===== src/Drinks/Lines/Loop.antt =====
-- The loop of `recipe_create` (src/drinks.c) ends on every line.
use ultramat.Base.{
  ℕ, zero, suc, ◌+◌, ◌-◌, ◌<◌, ◌≤◌, ◌≢◌, refl, List, [], ◌∷◌, Option, none, some, Outcome, returns,
  aborts, ◌==◌, length, arith, inl, inr, Bool-cases,
}
use ultramat.Drinks.{IdCountPair}
use ultramat.Drinks.Lines.{
  separator, hyphen, skip, until, token, strtok, is_newline, Next, stops, crashes, goes_on,
  pair_end, pair_count, pair_round, after_pair, read_pairs, recipe_pairs, with_pairs, recipe_id,
  recipe_name, recipe_create,
}

length-skip : (sep : ℕ) (cs : List ℕ) → length (skip sep cs) ≤ length cs
unfolding skip
length-skip sep [] = omega arith
length-skip sep (c ∷ cs) = elim (Bool-cases (c == sep)) [
  | inl hit ↦ rw hit (omega (arith, length-skip sep cs))
  | inr miss ↦ rw miss (omega arith)
]

length-until : (sep : ℕ) (cs : List ℕ) → length (until sep cs).1 ≤ length cs - 1
unfolding until
length-until sep [] = omega arith
length-until sep (c ∷ []) = elim (Bool-cases (c == sep)) [
  | inl hit ↦ rw hit (omega arith)
  | inr miss ↦ rw miss (omega arith)
]
length-until sep (c ∷ d ∷ cs) = elim (Bool-cases (c == sep)) [
  | inl hit ↦ rw hit (omega arith)
  | inr miss ↦ rw miss (omega (arith, length-until sep (d ∷ cs)))
]

length-token : (sep : ℕ) (cs : List ℕ) → length (token sep cs).1 ≤ length cs - 1
unfolding token
length-token sep [] = omega arith
length-token sep (c ∷ cs) = length-until sep (c ∷ cs)

length-strtok : (sep : ℕ) (cs : List ℕ) → length (strtok sep cs).1 ≤ length cs - 1
unfolding strtok
length-strtok sep cs = omega (arith, length-token sep (skip sep cs), length-skip sep cs)

-- How many characters the loop may go on with.
abbrev Within : ℕ → Next → Type 0
Within n (stops pairs) = Unit
Within n crashes = Unit
Within n (goes_on part rest pairs) = length rest ≤ n

pair_end-Within :
    (r : Option (List ℕ) × List ℕ) (pairs : List IdCountPair) (n : ℕ)
    → length r.1 ≤ n
    → Within n (pair_end r pairs)
unfolding pair_end
pair_end-Within (none, rest) pairs n h = tt
pair_end-Within (some part, rest) pairs n h = elim (Bool-cases (is_newline part)) [
  | inl last ↦ rw last tt
  | inr more ↦ rw more h
]

pair_count-Within :
    (r : Option (List ℕ) × List ℕ) (id : ℕ) (pairs : List IdCountPair) (n : ℕ)
    → length r.1 ≤ n
    → Within n (pair_count r id pairs)
unfolding pair_count
pair_count-Within (none, rest) id pairs n h = tt
pair_count-Within (some part, rest) id pairs n h =
    pair_end-Within (strtok hyphen rest) _ n (omega (arith, length-strtok hyphen rest))

after_pair-some :
    (next : Next) (n : ℕ)
    (k : List ℕ → List ℕ → List IdCountPair → Option (Outcome (List IdCountPair)))
    → Within n next
    → ((part rest : List ℕ) (pairs : List IdCountPair) → length rest ≤ n → k part rest pairs ≢ none)
    → after_pair next k ≢ none
unfolding after_pair
after_pair-some (stops pairs) n k w h = λ e. cc
after_pair-some crashes n k w h = λ e. cc
after_pair-some (goes_on part rest pairs) n k w h = h part rest pairs w

read_pairs-some :
    (fuel : ℕ) (part rest : List ℕ) (pairs : List IdCountPair)
    → length rest < fuel
    → read_pairs fuel part rest pairs ≢ none
unfolding read_pairs pair_round pair_count strtok skip token after_pair
read_pairs-some zero part rest pairs h = absurd (omega arith)
read_pairs-some (suc fuel) part [] pairs h = λ e. cc
read_pairs-some (suc fuel) part (c ∷ rest) pairs h =
    after_pair-some (pair_round part (c ∷ rest) pairs) (length rest) _
      (pair_count-Within (strtok separator (c ∷ rest)) _ pairs (length rest)
        (omega (arith, length-strtok separator (c ∷ rest))))
      (λ p r ps b. read_pairs-some fuel p r ps (omega arith))

recipe_pairs-some : (r : Option (List ℕ) × List ℕ) → recipe_pairs r ≢ none
unfolding recipe_pairs
recipe_pairs-some (none, rest) = λ e. cc
recipe_pairs-some (some part, rest) = read_pairs-some (length rest + 1) part rest [] (omega arith)

with_pairs-some :
    (name : List ℕ) (id : ℕ) (r : Option (Outcome (List IdCountPair)))
    → r ≢ none
    → with_pairs name id r ≢ none
with_pairs-some name id none h = λ e. h refl
with_pairs-some name id (some aborts) h = λ e. cc
with_pairs-some name id (some (returns pairs)) h = λ e. cc

recipe_id-some : (r : Option (List ℕ) × List ℕ) (name : List ℕ) → recipe_id r name ≢ none
unfolding recipe_id
recipe_id-some (none, rest) name = λ e. cc
recipe_id-some (some part, rest) name =
    with_pairs-some name _ _ (recipe_pairs-some (strtok hyphen rest))

recipe_name-some : (r : Option (List ℕ) × List ℕ) → recipe_name r ≢ none
unfolding recipe_name
recipe_name-some (none, rest) = λ e. cc
recipe_name-some (some part, rest) = recipe_id-some (strtok separator rest) _

-- Whatever the line, the loop has fuel enough: it ends, with a recipe or at a null pointer.
pub recipe_create-some : (line : List ℕ) → recipe_create line ≢ none
unfolding recipe_create
recipe_create-some line = recipe_name-some (strtok separator line)
