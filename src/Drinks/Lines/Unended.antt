-- ===== src/Drinks/Lines/Unended.antt =====
-- A line of the file of recipes without an end of line, as a last line can be (src/drinks.c).
use ultramat.Base.{
  ℕ, zero, suc, ◌<◌, ◌≡◌, refl, List, [], ◌∷◌, ◌++◌, some, aborts, length, arith, length-append,
}
use ultramat.Drinks.{IdCountPair}
use ultramat.Drinks.Lines.{
  separator, hyphen, skip, token, strtok, pair_end, pair_count, pair_round, after_pair, read_pairs,
  recipe_pairs, recipe_id, recipe_name, recipe_create,
}
use ultramat.Drinks.Lines.Recipes.{
  Without, Number, text, Written, strtok-Without, strtok-text, no_newline,
}

-- "id-count;" for each pair, and nothing else.
abbrev pub unended : List Written → List ℕ
unended [] = []
unended (p ∷ ps) = text p.id ++ (hyphen ∷ (text p.count ++ (separator ∷ unended ps)))

read_pairs-unended :
    (fuel : ℕ) (p : Written) (ps : List Written) (before : List IdCountPair)
    → length (text p.count ++ (separator ∷ unended ps)) < fuel
    → read_pairs fuel (text p.id) (text p.count ++ (separator ∷ unended ps)) before ≡ some aborts
unfolding read_pairs pair_round pair_count pair_end after_pair strtok skip token
read_pairs-unended zero p ps before h = absurd (omega arith)
read_pairs-unended (suc fuel) p [] before h = rw (strtok-text separator p.count [] refl)
read_pairs-unended (suc fuel) p (q ∷ ps) before h =
    let behind = text q.count ++ (separator ∷ unended ps) in
    rw
      (
        strtok-text separator p.count (unended (q ∷ ps)) refl,
        strtok-text hyphen q.id behind refl,
        no_newline q.id.first q.id.more q.id.all.0,
      )
      (read_pairs-unended fuel q ps _ (
        omega (
          arith,
          length-append (text p.count) (separator ∷ unended (q ∷ ps)),
          length-append (text q.id) (hyphen ∷ behind),
        )))

recipe_pairs-unended :
    (p : Written) (ps : List Written)
    → recipe_pairs (strtok hyphen (unended (p ∷ ps))) ≡ some aborts
unfolding recipe_pairs
recipe_pairs-unended p ps =
    rw (strtok-text hyphen p.id (text p.count ++ (separator ∷ unended ps)) refl)
      (read_pairs-unended _ p ps [] (omega arith))

-- A line with a name, an id and at least one pair, as `recipe_create` reads them, but with no end of
-- line behind the last ';', makes it read through a null pointer.
pub recipe_create-unended :
    (c : ℕ) (name : List ℕ) (id : Number) (p : Written) (ps : List Written)
    → Without separator (c ∷ name)
    → recipe_create ((c ∷ name) ++ (separator ∷ (text id ++ (separator ∷ unended (p ∷ ps)))))
      ≡ some aborts
unfolding recipe_create recipe_name recipe_id
recipe_create-unended c name id p ps w = rw (
  strtok-Without separator c name (text id ++ (separator ∷ unended (p ∷ ps))) w,
  strtok-text separator id (unended (p ∷ ps)) refl,
  recipe_pairs-unended p ps,
)
