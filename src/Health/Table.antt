-- ===== src/Health/Table.antt =====
-- The printed table (printAlignedTable in health.go). A text is its runes. `none` is a panic of the program:
-- a row that is longer than the first one, or a negative count of spaces.
pub mod Columns
pub mod Layout
use remotecmd_cli.Prelude.{
  ℕ, zero, suc, ◌+◌, ◌-◌, Bool, Option, none, some, List, [], ◌∷◌, ◌++◌, leb, ltb, length,
  if◌then◌else◌,
}

abbrev pub Cell : Type 0
Cell = List ℕ

-- strings.Repeat of one rune.
unfoldable pub repeat : ℕ → ℕ → List ℕ
repeat r zero = []
repeat r (suc n) = r ∷ repeat r n

abbrev pub wider : ℕ → ℕ → ℕ
wider w n = if ltb w n then n else w

abbrev pub with_width : ℕ → Option (List ℕ) → Option (List ℕ)
with_width w none = none
with_width w (some ws) = some (w ∷ ws)

-- The inner loop that widens the columns by a row.
unfoldable pub widen : List ℕ → List Cell → Option (List ℕ)
widen ws [] = some ws
widen [] (c ∷ r) = none
widen (w ∷ ws) (c ∷ r) = with_width (wider w (length c)) (widen ws r)

abbrev pub and_then : {A B : Type 0} → Option A → (A → Option B) → Option B
and_then none f = none
and_then (some a) f = f a

unfoldable pub widen_all : List ℕ → List (List Cell) → Option (List ℕ)
unfolding widen
widen_all ws [] = some ws
widen_all ws (r ∷ rs) = and_then (widen ws r) (λ ws'. widen_all ws' rs)

abbrev pub behind : List ℕ → Option (List ℕ) → Option (List ℕ)
behind start none = none
behind start (some rest) = some (start ++ rest)

-- A cell with the spaces behind it.
abbrev pub padded : ℕ → Cell → List ℕ
padded w c = c ++ repeat 32 (suc w - length c)

-- line
unfoldable pub line : List ℕ → List Cell → Option (List ℕ)
unfolding repeat
line ws [] = some []
line ws (c ∷ []) = some c
line [] (c ∷ d ∷ r) = none
line (w ∷ ws) (c ∷ d ∷ r) =
    let rest = line ws (d ∷ r) in if leb (length c) (suc w) then behind (padded w c) rest else none

unfoldable pub lines : List ℕ → List (List Cell) → Option (List (List ℕ))
unfolding line
lines ws [] = some []
lines ws (r ∷ rs) = and_then (line ws r) (λ l. and_then (lines ws rs) (λ ls. some (l ∷ ls)))

abbrev pub zeros : List Cell → List ℕ
zeros [] = []
zeros (c ∷ r) = 0 ∷ zeros r

abbrev pub widest : List (List ℕ) → ℕ
widest [] = 0
widest (l ∷ ls) = let rest = widest ls in if ltb rest (length l) then length l else rest

-- The header, a rule as long as the longest line, and the other rows.
abbrev pub ruled : List (List ℕ) → List (List ℕ)
ruled [] = []
ruled (l ∷ ls) = l ∷ repeat 45 (widest (l ∷ ls)) ∷ ls

-- printAlignedTable: the lines that it prints.
unfoldable pub print_aligned_table : List (List Cell) → Option (List (List ℕ))
unfolding widen_all lines repeat
print_aligned_table [] = some []
print_aligned_table (r ∷ rs) =
    and_then (widen_all (zeros r) (r ∷ rs))
      (λ ws. and_then (lines ws (r ∷ rs)) (λ ls. some (ruled ls)))
