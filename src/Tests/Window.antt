-- ===== src/Tests/Window.antt =====
-- The start of the program (src/main.c) on two files, and the set-up of its window.
use Prim.Native.String.{String}
use ultramat.Base.{◌+◌, ◌≡◌, map, [], ◌∷◌, none, some, returns, arith, true, List, ℕ, ℕ}
use ultramat.Base.Int.{pos}
use ultramat.Drinks.Files.Read.{ingredient_of, recipe_of}
use ultramat.Program.{main}
use ultramat.Program.Start.{Starts, main-lines}
use ultramat.Positions.{select_positions, get_array_index}
use ultramat.Info.{info_set_mc_version}
use ultramat.Info.Text.{numbers, info_set_mc_version-numbers}
use ultramat.Layout.Shown.{IsShown, create_widgets-IsShown}
use ultramat.Pages.{Widgets, BoxPos, Made, no_widgets, create_widgets, combo_pos_str_map}
use ultramat.Pages.Registered.{AllConnected, all_widgets, all_boxes, create_widgets-all}
use ultramat.Tests.Arrays.{grown, grown-Grows}
use ultramat.Tests.Reading.{gin, gin-IsLine, shot, shot-IsLine}

abbrev join : String → String → String
join dir name = name

main-lines_example : Starts 1 (ingredient_of gin ∷ []) (recipe_of shot ∷ []) (
    main grown none join
      (λ name. true)
      true
      (some (71 ∷ 73 ∷ 78 ∷ 59 ∷ 55 ∷ 59 ∷ 10 ∷ []))
      (some (71 ∷ 73 ∷ 78 ∷ 59 ∷ 55 ∷ 59 ∷ 51 ∷ 48 ∷ 48 ∷ 45 ∷ 51 ∷ 48 ∷ 48 ∷ 59 ∷ 10 ∷ [])))
main-lines_example =
    main-lines grown none join (λ name. true) (gin ∷ []) (shot ∷ []) grown-Grows (gin-IsLine, tt)
      (omega arith) (shot-IsLine, tt) (omega arith) (omega arith, tt) (omega arith, tt)

abbrev made : Made
made = record {
  selections = λ i. record { image = 100 + i; combo = record { widget = 200 + i; id = 1 + i } };
  switch = record { widget = 1; id = 20 };
  order_combo = record { widget = 2; id = 21 };
  order_button = record { widget = 3; id = 22 };
  bar = 4;
  mc_version = 6;
  manual_y = record { widget = 5; id = 23 };
  manual = λ p. record { widget = 300 + p; id = 30 + p };
}

made-AllConnected : AllConnected made
made-AllConnected = record {
  selections = λ i. omega arith;
  switch = omega arith;
  order_combo = omega arith;
  order_button = omega arith;
  manual_y = omega arith;
  manual = λ p. omega arith;
}

create_widgets-all_example :
    (create_widgets made no_widgets
      ≡ returns (all_widgets made, all_boxes combo_pos_str_map select_positions))
    × (map get_array_index select_positions
        ≡ returns (pos 0)
          ∷ returns (pos 1)
          ∷ returns (pos 2)
          ∷ returns (pos 3)
          ∷ returns (pos 4)
          ∷ returns (pos 5)
          ∷ returns (pos 6)
          ∷ returns (pos 7)
          ∷ returns (pos 8)
          ∷ [])
create_widgets-all_example = create_widgets-all made made-AllConnected

create_widgets-IsShown_example :
    (w : Widgets) × (boxes : List BoxPos) × (create_widgets made no_widgets ≡ returns (w, boxes))
    × IsShown "1.0.0" made w boxes
create_widgets-IsShown_example = create_widgets-IsShown "1.0.0" made made-AllConnected

info_set_mc_version-numbers_example :
    (rest : List ℕ) × (info_set_mc_version (record { major = 2; minor = 0; bugfix = 255 })
      ≡ 118 ∷ rest)
    × (numbers 0 rest ≡ 2 ∷ 0 ∷ 255 ∷ [])
info_set_mc_version-numbers_example =
    info_set_mc_version-numbers (record { major = 2; minor = 0; bugfix = 255 })
      (record { major = omega arith; minor = omega arith; bugfix = omega arith })
