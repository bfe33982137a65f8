-- ===== src/Drinks/Lines/Recipes.antt =====
-- A well-formed line of the file of recipes is read as the recipe it writes (src/drinks.c).
use ultramat.Base.{
  ℕ, zero, suc, ◌<◌, ◌≡◌, refl, ap, ◌∙◌, true, false, List, [], ◌∷◌, ◌++◌, map, some, returns, ◌==◌,
  take, length, arith, u8, u16, append_assoc, length-append,
}
use ultramat.Base.Int.{pos}
use ultramat.Drinks.{IdCountPair}
use ultramat.Drinks.Lines.{
  ingredient_name, ingredient_id, ingredient_create, separator, hyphen, newline, skip, until, token,
  strtok, is_digit, digits, signed, atoi, is_space, is_newline, pair_end, pair_count, pair_round,
  after_pair, read_pairs, recipe_pairs, recipe_id, recipe_name, recipe_create,
}

-- A text without a character.
abbrev pub Without : ℕ → List ℕ → Type 0
Without sep [] = Unit
Without sep (c ∷ cs) = ((c == sep) ≡ false) × Without sep cs

until-Without :
    (sep : ℕ) (t rest : List ℕ) → Without sep t → until sep (t ++ (sep ∷ rest)) ≡ (t, rest)
unfolding until
until-Without sep [] rest w = let same : (sep == sep) ≡ true = ground arith in rw same
until-Without sep (c ∷ t) rest w = rw (w.0, until-Without sep t rest w.1)

pub strtok-Without :
    (sep c : ℕ) (t rest : List ℕ)
    → Without sep (c ∷ t)
    → strtok sep ((c ∷ t) ++ (sep ∷ rest)) ≡ (some (c ∷ t), rest)
unfolding strtok skip token until
strtok-Without sep c t rest w = rw (w.0, until-Without sep t rest w.1, w.0)

-- A number, written as a first digit and more.
abbrev pub AllDigits : List ℕ → Type 0
AllDigits [] = Unit
AllDigits (c ∷ cs) = (is_digit c ≡ true) × AllDigits cs

pub record Number : Type 0 where
  pub first : ℕ
  pub more : List ℕ
  pub all : AllDigits (first ∷ more)

abbrev pub text : Number → List ℕ
text n = n.first ∷ n.more

abbrev pub value : Number → ℕ
unfolding digits
value n = digits 0 (text n)

AllDigits-Without : (sep : ℕ) (cs : List ℕ) → is_digit sep ≡ false → AllDigits cs → Without sep cs
AllDigits-Without sep [] h d = tt
AllDigits-Without sep (c ∷ cs) h d = (ground (arith, d.0, h), AllDigits-Without sep cs h d.1)

pub atoi-text : (n : Number) → atoi (text n) ≡ pos (value n)
unfolding atoi signed
atoi-text n =
    let no_space : is_space n.first ≡ false = ground (arith, n.all.0) in
    let no_minus : (n.first == hyphen) ≡ false = ground (arith, n.all.0) in
    let no_plus : (n.first == 43) ≡ false = ground (arith, n.all.0) in
    rw (no_space, no_minus, no_plus)

pub strtok-text :
    (sep : ℕ) (n : Number) (rest : List ℕ)
    → is_digit sep ≡ false
    → strtok sep (text n ++ (sep ∷ rest)) ≡ (some (text n), rest)
strtok-text sep n rest h =
    strtok-Without sep n.first n.more rest (AllDigits-Without sep (text n) h n.all)

-- A pair as the file writes it.
pub record Written : Type 0 where
  pub id : Number
  pub count : Number

abbrev pub read : Written → IdCountPair
read p = record { id = u16 (value p.id); count = u8 (value p.count) }

-- "id-count;" for each pair, and the end of the line.
abbrev pub pairs_text : List Written → List ℕ
pairs_text [] = newline ∷ []
pairs_text (p ∷ ps) = text p.id ++ (hyphen ∷ (text p.count ++ (separator ∷ pairs_text ps)))

-- What is left behind the first part of a text of pairs.
abbrev behind : List Written → List ℕ
behind [] = []
behind (p ∷ ps) = text p.count ++ (separator ∷ pairs_text ps)

abbrev part_of : List Written → List ℕ
part_of [] = newline ∷ []
part_of (p ∷ ps) = text p.id

strtok-pairs_text :
    (ps : List Written) → strtok hyphen (pairs_text ps) ≡ (some (part_of ps), behind ps)
unfolding strtok skip token until
strtok-pairs_text [] = refl
strtok-pairs_text (p ∷ ps) = strtok-text hyphen p.id _ refl

pub no_newline : (c : ℕ) (cs : List ℕ) → is_digit c ≡ true → is_newline (c ∷ cs) ≡ false
no_newline c [] h = ground (arith, h)
no_newline c (d ∷ cs) h = refl

-- The loop on a text of pairs, with more fuel than characters.
read_pairs-pairs_text :
    (fuel : ℕ) (p : Written) (ps : List Written) (before : List IdCountPair)
    → length (behind (p ∷ ps)) < fuel
    → read_pairs fuel (text p.id) (behind (p ∷ ps)) before
      ≡ some (returns (before ++ map read (p ∷ ps)))
unfolding read_pairs pair_round pair_count pair_end after_pair
read_pairs-pairs_text zero p ps before h = absurd (omega arith)
read_pairs-pairs_text (suc fuel) p [] before h = rw (
  strtok-text separator p.count (newline ∷ []) refl,
  strtok-pairs_text [],
  atoi-text p.id,
  atoi-text p.count,
)
read_pairs-pairs_text (suc fuel) p (q ∷ ps) before h =
    rw
      (
        strtok-text separator p.count (pairs_text (q ∷ ps)) refl,
        strtok-pairs_text (q ∷ ps),
        atoi-text p.id,
        atoi-text p.count,
        no_newline q.id.first q.id.more q.id.all.0,
      )
      (read_pairs-pairs_text fuel q ps (before ++ (read p ∷ [])) (
          omega (
            arith,
            length-append (text p.count) (separator ∷ pairs_text (q ∷ ps)),
            length-append (text q.id) (hyphen ∷ behind (q ∷ ps)),
          ))
        ∙ ap (λ (l : List IdCountPair). some (returns l))
            (append_assoc before (read p ∷ []) (map read (q ∷ ps))))

recipe_pairs-pairs_text :
    (ps : List Written)
    → recipe_pairs (strtok hyphen (pairs_text ps)) ≡ some (returns (map read ps))
unfolding recipe_pairs read_pairs pair_round pair_count pair_end after_pair strtok skip token
recipe_pairs-pairs_text [] = refl
recipe_pairs-pairs_text (p ∷ ps) =
    rw (strtok-pairs_text (p ∷ ps)) (read_pairs-pairs_text _ p ps [] (omega arith))

pub recipe_create-line :
    (c : ℕ) (name : List ℕ) (id : Number) (ps : List Written)
    → Without separator (c ∷ name)
    → recipe_create ((c ∷ name) ++ (separator ∷ (text id ++ (separator ∷ pairs_text ps))))
      ≡ some (
          returns
            (record { name = take 128 (c ∷ name); id = u16 (value id); ing_pairs = map read ps }))
unfolding recipe_create recipe_name recipe_id
recipe_create-line c name id ps w = rw (
  strtok-Without separator c name (text id ++ (separator ∷ pairs_text ps)) w,
  strtok-text separator id (pairs_text ps) refl,
  atoi-text id,
  recipe_pairs-pairs_text ps,
)

-- The same for a line of the file of ingredients, whatever follows the id.
pub ingredient_create-line :
    (c : ℕ) (name : List ℕ) (id : Number) (behind : List ℕ)
    → Without separator (c ∷ name)
    → ingredient_create ((c ∷ name) ++ (separator ∷ (text id ++ (separator ∷ behind))))
      ≡ record { name = take 128 (c ∷ name); id = u16 (value id) }
unfolding ingredient_create ingredient_name ingredient_id
ingredient_create-line c name id behind w = rw (
  strtok-Without separator c name (text id ++ (separator ∷ behind)) w,
  strtok-text separator id behind refl,
  atoi-text id,
)
