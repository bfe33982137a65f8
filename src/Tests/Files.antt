-- ===== src/Tests/Files.antt =====
-- Lines of the file of recipes (src/drinks.c).
use ultramat.Base.{◌≡◌, ◌≢◌, refl, [], ◌∷◌, none, some, aborts}
use ultramat.Drinks.Lines.{recipe_create}
use ultramat.Drinks.Lines.Recipes.{Number, Written}
use ultramat.Drinks.Lines.Loop.{recipe_create-some}
use ultramat.Drinks.Lines.Unended.{recipe_create-unended}

abbrev pub seven : Number
seven = record { first = 55; more = []; all = (refl, tt) }

-- 300, which a count of 8 bits cuts.
abbrev three_hundred : Number
three_hundred = record { first = 51; more = 48 ∷ 48 ∷ []; all = (refl, (refl, (refl, tt))) }

abbrev pub one_pair : Written
one_pair = record { id = three_hundred; count = three_hundred }

recipe_create-unended_example :
    recipe_create (65 ∷ 59 ∷ 55 ∷ 59 ∷ 51 ∷ 48 ∷ 48 ∷ 45 ∷ 51 ∷ 48 ∷ 48 ∷ 59 ∷ []) ≡ some aborts
recipe_create-unended_example = recipe_create-unended 65 [] seven one_pair [] (refl, tt)

recipe_create-some_example : recipe_create (45 ∷ 59 ∷ 59 ∷ []) ≢ none
recipe_create-some_example = recipe_create-some (45 ∷ 59 ∷ 59 ∷ [])
