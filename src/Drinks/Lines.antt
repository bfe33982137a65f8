-- ===== src/Drinks/Lines.antt =====
-- `ingredient_create` and `recipe_create` of src/drinks.c: a line of a file as a list of character
-- codes, without its final null. `strtok` and `atoi` are written as the C library defines them; memory
-- does not run out.
pub mod Recipes
pub mod Unended
pub mod Loop
use ultramat.Base.{
  ℕ, zero, suc, ◌+◌, ◌-◌, ◌*◌, Bool, false, ◌&&◌, ◌||◌, List, [], ◌∷◌, ◌++◌, Option, none, some,
  Outcome, returns, aborts, ◌==◌, leb, if◌then◌else◌, take, length, u8, u16,
}
use ultramat.Base.Int.{ℤ, pos, negsuc}
use ultramat.Drinks.{Ingredient, IdCountPair, Recipe}

-- SEPARATOR, ';'
abbrev pub separator : ℕ
separator = 59

-- '-'
abbrev pub hyphen : ℕ
hyphen = 45

-- '\n'
abbrev pub newline : ℕ
newline = 10

-- MAX_NAME_LENGTH
abbrev pub max_name_length : ℕ
max_name_length = 128

-- The characters behind the separators at the front.
skip : ℕ → List ℕ → List ℕ
skip sep [] = []
skip sep (c ∷ cs) = if c == sep then skip sep cs else c ∷ cs

-- The characters up to the first separator, and those behind it.
until : ℕ → List ℕ → List ℕ × List ℕ
until sep [] = ([], [])
until sep (c ∷ cs) =
    let (token, rest) = until sep cs in if c == sep then ([], cs) else (c ∷ token, rest)

token : ℕ → List ℕ → Option (List ℕ) × List ℕ
unfolding until
token sep [] = (none, [])
token sep (c ∷ cs) = let (t, rest) = until sep (c ∷ cs) in (some t, rest)

-- `strtok` with one separator: the next token, `none` for a null pointer, and what is left.
unfoldable pub strtok : ℕ → List ℕ → Option (List ℕ) × List ℕ
unfolding skip token
strtok sep cs = token sep (skip sep cs)

abbrev pub is_digit : ℕ → Bool
is_digit c = leb 48 c && leb c 57

-- The number whose digits come first, `acc` being that of the digits before.
unfoldable pub digits : ℕ → List ℕ → ℕ
digits acc [] = acc
digits acc (c ∷ cs) = if is_digit c then digits (acc * 10 + (c - 48)) cs else acc

abbrev pub is_space : ℕ → Bool
is_space c = c == 32 || (leb 9 c && leb c 13)

abbrev negated : ℕ → ℤ
negated zero = pos 0
negated (suc n) = negsuc n

-- The sign and the digits.
signed : List ℕ → ℤ
signed [] = pos 0
signed (c ∷ cs) =
    if c == hyphen
    then negated (digits 0 cs)
    else (if c == 43 then pos (digits 0 cs) else pos (digits 0 (c ∷ cs)))

-- `atoi`, for numbers that an `int` holds.
unfoldable pub atoi : List ℕ → ℤ
unfolding signed digits
atoi [] = pos 0
atoi (c ∷ cs) = if is_space c then atoi cs else signed (c ∷ cs)

-- The conversions of an `int` to uint16_t and to uint8_t.
abbrev pub to_u16 : ℤ → ℕ
to_u16 (pos n) = u16 n
to_u16 (negsuc n) = 65535 - u16 n

abbrev pub to_u8 : ℤ → ℕ
to_u8 (pos n) = u8 n
to_u8 (negsuc n) = 255 - u8 n

ingredient_id : Option (List ℕ) × List ℕ → List ℕ → Ingredient
unfolding atoi
ingredient_id (none, rest) name = record { name = name; id = 0 }
ingredient_id (some part, rest) name = record { name = name; id = to_u16 (atoi part) }

ingredient_name : Option (List ℕ) × List ℕ → Ingredient
unfolding ingredient_id strtok
ingredient_name (none, rest) = record { name = []; id = 0 }
ingredient_name (some part, rest) =
    ingredient_id (strtok separator rest) (take max_name_length part)

-- `ingredient_create`, on an ingredient that is all 0.
unfoldable pub ingredient_create : List ℕ → Ingredient
unfolding ingredient_name
ingredient_create line = ingredient_name (strtok separator line)

-- What the loop of `recipe_create` does next: it returns, it reads through a null pointer, or it goes
-- on with a part and the characters left.
pub data Next : Type 0 where
  stops : List IdCountPair → Next
  crashes : Next
  goes_on : List ℕ → List ℕ → List IdCountPair → Next

abbrev pub is_newline : List ℕ → Bool
is_newline [] = false
is_newline (c ∷ []) = c == newline
is_newline (c ∷ d ∷ cs) = false

-- The end of a round, with the part behind the count: `strcmp(part_str, "\n")`.
pair_end : Option (List ℕ) × List ℕ → List IdCountPair → Next
pair_end (none, rest) pairs = crashes
pair_end (some part, rest) pairs = if is_newline part then stops pairs else goes_on part rest pairs

-- `dt_recipe_append_pair`
abbrev pub recipe_append_pair : List IdCountPair → ℕ → ℤ → List IdCountPair
recipe_append_pair pairs id count = pairs ++ (record { id = id; count = to_u8 count } ∷ [])

-- The count of a pair.
pair_count : Option (List ℕ) × List ℕ → ℕ → List IdCountPair → Next
unfolding pair_end
pair_count (none, rest) id pairs = stops pairs
pair_count (some part, rest) id pairs =
    pair_end (strtok hyphen rest) (recipe_append_pair pairs id (atoi part))

-- A round of the loop, which starts with a part that holds the id.
pair_round : List ℕ → List ℕ → List IdCountPair → Next
unfolding pair_count
pair_round part rest pairs = pair_count (strtok separator rest) (to_u16 (atoi part)) pairs

-- The loop, which starts a round with a part and the characters left. Each round takes characters,
-- so that their number and one is fuel enough; `none` is a loop without fuel.
after_pair :
    Next
    → (List ℕ → List ℕ → List IdCountPair → Option (Outcome (List IdCountPair)))
    → Option (Outcome (List IdCountPair))
after_pair (stops pairs) k = some (returns pairs)
after_pair crashes k = some aborts
after_pair (goes_on part rest pairs) k = k part rest pairs

read_pairs : ℕ → List ℕ → List ℕ → List IdCountPair → Option (Outcome (List IdCountPair))
unfolding after_pair pair_round
read_pairs zero part rest pairs = none
read_pairs (suc fuel) part rest pairs =
    after_pair (pair_round part rest pairs) (λ p r ps. read_pairs fuel p r ps)

-- The pairs of a recipe, from its first part on.
recipe_pairs : Option (List ℕ) × List ℕ → Option (Outcome (List IdCountPair))
unfolding read_pairs
recipe_pairs (none, rest) = some (returns [])
recipe_pairs (some part, rest) = read_pairs (length rest + 1) part rest []

abbrev with_pairs : List ℕ → ℕ → Option (Outcome (List IdCountPair)) → Option (Outcome Recipe)
with_pairs name id none = none
with_pairs name id (some aborts) = some aborts
with_pairs name id (some (returns pairs)) =
    some (returns (record { name = name; id = id; ing_pairs = pairs }))

-- `atoi` of a null pointer aborts, and so does `strncpy`.
recipe_id : Option (List ℕ) × List ℕ → List ℕ → Option (Outcome Recipe)
unfolding recipe_pairs
recipe_id (none, rest) name = some aborts
recipe_id (some part, rest) name =
    with_pairs name (to_u16 (atoi part)) (recipe_pairs (strtok hyphen rest))

recipe_name : Option (List ℕ) × List ℕ → Option (Outcome Recipe)
unfolding recipe_id
recipe_name (none, rest) = some aborts
recipe_name (some part, rest) = recipe_id (strtok separator rest) (take max_name_length part)

-- `recipe_create`, on a recipe that is all 0.
unfoldable pub recipe_create : List ℕ → Option (Outcome Recipe)
unfolding recipe_name
recipe_create line = recipe_name (strtok separator line)
