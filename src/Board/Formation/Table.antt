-- ===== src/Board/Formation/Table.antt =====
-- The table `FORMATIONS` of features/tactics/board/model.ts: depth and width in hundredths.
use scoutpulse.Base.{ℕ, String, List, [], ◌∷◌, ◌++◌, Dict}

pub record Spot : Type 0 where
  pub number : String
  pub depth : ℕ
  pub across : ℕ

-- Each spot with the number at its place. Every shape below has as many numbers as spots.
abbrev with_numbers : List (ℕ × ℕ) → List String → List Spot
with_numbers [] numbers = []
with_numbers (at ∷ spots) [] =
    record { number = ""; depth = at.0; across = at.1 } ∷ with_numbers spots []
with_numbers (at ∷ spots) (n ∷ numbers) =
    record { number = n; depth = at.0; across = at.1 } ∷ with_numbers spots numbers

abbrev joined : List (List (ℕ × ℕ)) → List (ℕ × ℕ)
joined [] = []
joined (row ∷ rows) = row ++ joined rows

-- `shape`: the rows, defence first, then the numbers
abbrev shape : List (List (ℕ × ℕ)) → List String → List Spot
shape rows numbers = with_numbers (joined rows) numbers

abbrev pub four_four_two : List Spot
four_four_two =
    shape
      (((82, 12) ∷ (80, 37) ∷ (80, 63) ∷ (82, 88) ∷ [])
        ∷ ((45, 12) ∷ (42, 38) ∷ (42, 62) ∷ (45, 88) ∷ [])
        ∷ ((12, 38) ∷ (12, 62) ∷ [])
        ∷ [])
      ("2" ∷ "5" ∷ "6" ∷ "3" ∷ "7" ∷ "4" ∷ "8" ∷ "11" ∷ "9" ∷ "10" ∷ [])

abbrev pub four_three_three : List Spot
four_three_three =
    shape
      (((82, 12) ∷ (80, 37) ∷ (80, 63) ∷ (82, 88) ∷ [])
        ∷ ((55, 50) ∷ (40, 30) ∷ (40, 70) ∷ [])
        ∷ ((14, 15) ∷ (8, 50) ∷ (14, 85) ∷ [])
        ∷ [])
      ("2" ∷ "5" ∷ "4" ∷ "3" ∷ "6" ∷ "8" ∷ "10" ∷ "7" ∷ "9" ∷ "11" ∷ [])

abbrev pub four_two_three_one : List Spot
four_two_three_one =
    shape
      (((82, 12) ∷ (80, 37) ∷ (80, 63) ∷ (82, 88) ∷ [])
        ∷ ((58, 38) ∷ (58, 62) ∷ [])
        ∷ ((32, 15) ∷ (30, 50) ∷ (32, 85) ∷ [])
        ∷ ((8, 50) ∷ [])
        ∷ [])
      ("2" ∷ "5" ∷ "4" ∷ "3" ∷ "6" ∷ "8" ∷ "7" ∷ "10" ∷ "11" ∷ "9" ∷ [])

abbrev pub three_five_two : List Spot
three_five_two =
    shape
      (((80, 25) ∷ (82, 50) ∷ (80, 75) ∷ [])
        ∷ ((45, 8) ∷ (52, 35) ∷ (58, 50) ∷ (52, 65) ∷ (45, 92) ∷ [])
        ∷ ((12, 38) ∷ (12, 62) ∷ [])
        ∷ [])
      ("4" ∷ "5" ∷ "6" ∷ "2" ∷ "8" ∷ "10" ∷ "7" ∷ "3" ∷ "9" ∷ "11" ∷ [])

abbrev pub three_four_three : List Spot
three_four_three =
    shape
      (((80, 25) ∷ (82, 50) ∷ (80, 75) ∷ [])
        ∷ ((48, 10) ∷ (52, 38) ∷ (52, 62) ∷ (48, 90) ∷ [])
        ∷ ((15, 18) ∷ (8, 50) ∷ (15, 82) ∷ [])
        ∷ [])
      ("4" ∷ "5" ∷ "6" ∷ "2" ∷ "8" ∷ "10" ∷ "3" ∷ "7" ∷ "9" ∷ "11" ∷ [])

abbrev pub five_three_two : List Spot
five_three_two =
    shape
      (((72, 8) ∷ (82, 30) ∷ (84, 50) ∷ (82, 70) ∷ (72, 92) ∷ [])
        ∷ ((50, 30) ∷ (55, 50) ∷ (50, 70) ∷ [])
        ∷ ((14, 38) ∷ (14, 62) ∷ [])
        ∷ [])
      ("2" ∷ "4" ∷ "5" ∷ "6" ∷ "3" ∷ "8" ∷ "10" ∷ "7" ∷ "9" ∷ "11" ∷ [])

unfoldable pub formations : Dict (List Spot)
formations =
    ("4-4-2", four_four_two)
    ∷ ("4-3-3", four_three_three)
    ∷ ("4-2-3-1", four_two_three_one)
    ∷ ("3-5-2", three_five_two)
    ∷ ("3-4-3", three_four_three)
    ∷ ("5-3-2", five_three_two)
    ∷ []

-- `Object.keys(FORMATIONS)`
abbrev pub formation_names : List String
formation_names = "4-4-2" ∷ "4-3-3" ∷ "4-2-3-1" ∷ "3-5-2" ∷ "3-4-3" ∷ "5-3-2" ∷ []
