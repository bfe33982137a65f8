-- ===== src/Tests/Reading.antt =====
-- Files of ingredients and of recipes (src/drinks.c), and the rows made of them (src/drinklists.c).
use ultramat.Base.{◌≡◌, refl, [], ◌∷◌, some, returns, arith}
use ultramat.DynamicArray.{VlArray}
use ultramat.DynamicArray.Append.{elements}
use ultramat.Drinks.{Recipe}
use ultramat.Drinks.Lines.{digits}
use ultramat.Drinks.Files.{lines_of, read_recipes}
use ultramat.Drinks.Files.Split.{concat, Fit, IsLine, lines_of-concat}
use ultramat.Drinks.Files.Read.{
  Entry, RecipeEntry, ingredient_line, recipe_line, read_recipes-lines,
}
use ultramat.Tests.Arrays.{grown, grown-Grows}
use ultramat.Tests.Files.{seven, one_pair}

abbrev pub gin : Entry
gin = record { first = 71; more = 73 ∷ 78 ∷ []; id = seven; named = (refl, (refl, (refl, tt))) }

-- "GIN;7;\n", twice
pub gin-IsLine : IsLine 255 (ingredient_line gin)
gin-IsLine = record {
  body = 71 ∷ 73 ∷ 78 ∷ 59 ∷ 55 ∷ 59 ∷ [];
  ended = refl;
  within = (refl, (refl, (refl, (refl, (refl, (refl, tt))))));
  short = omega arith;
}

-- "a\n\nb", whose last line has no end
lines_of-concat_example :
    (concat (lines_of (97 ∷ 10 ∷ 10 ∷ 98 ∷ [])) ≡ 97 ∷ 10 ∷ 10 ∷ 98 ∷ [])
    × Fit 255 (lines_of (97 ∷ 10 ∷ 10 ∷ 98 ∷ []))
lines_of-concat_example = lines_of-concat (97 ∷ 10 ∷ 10 ∷ 98 ∷ [])

abbrev pub shot : RecipeEntry
shot = record { entry = gin; pairs = one_pair ∷ [] }

-- "GIN;7;300-300;\n"
pub shot-IsLine : IsLine 255 (recipe_line shot)
shot-IsLine = record {
  body = 71 ∷ 73 ∷ 78 ∷ 59 ∷ 55 ∷ 59 ∷ 51 ∷ 48 ∷ 48 ∷ 45 ∷ 51 ∷ 48 ∷ 48 ∷ 59 ∷ [];
  ended = refl;
  within = (
    refl,
    (
      refl,
      (
        refl,
        (refl, (refl, (refl, (refl, (refl, (refl, (refl, (refl, (refl, (refl, (refl, tt))))))))))),
      ),
    ),
  );
  short = omega arith;
}

read_recipes-lines_example :
    (a : VlArray Recipe) × (read_recipes grown
        (some (71 ∷ 73 ∷ 78 ∷ 59 ∷ 55 ∷ 59 ∷ 51 ∷ 48 ∷ 48 ∷ 45 ∷ 51 ∷ 48 ∷ 48 ∷ 59 ∷ 10 ∷ []))
      ≡ some (returns (some a)))
    × (elements a
        ≡ record {
          name = 71 ∷ 73 ∷ 78 ∷ [];
          id = 7;
          ing_pairs = record { id = 300; count = 44 } ∷ [];
        }
          ∷ [])
unfolding digits
read_recipes-lines_example =
    read_recipes-lines grown (shot ∷ []) grown-Grows (shot-IsLine, tt) (omega arith)
