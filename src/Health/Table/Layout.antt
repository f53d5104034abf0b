-- ===== src/Health/Table/Layout.antt =====
-- What printAlignedTable prints (health.go).
use remotecmd_cli.Prelude.{
  ℕ, zero, suc, ◌-◌, ◌≤◌, ◌≡◌, refl, sym, ap, subst, ◌∙◌, true, Option, some, List, [], ◌∷◌, ◌++◌,
  arith, leb, length, take, drop, All, append_assoc, length-append, take-length_append,
  drop-length_append,
}
use remotecmd_cli.Health.Table.{
  Cell, repeat, and_then, behind, padded, line, lines, zeros, ruled, print_aligned_table,
}
use remotecmd_cli.Health.Table.Columns.{Fits, IsAligned, AtMost, widen_all-Fits}

length-repeat : (r n : ℕ) → length (repeat r n) ≡ n
unfolding repeat
length-repeat r zero = refl
length-repeat r (suc n) = omega (arith, length-repeat r n)

length-padded : (w : ℕ) (c : Cell) → length c ≤ w → length (padded w c) ≡ suc w
length-padded w c h =
    omega (
      arith,
      h,
      length-append c (repeat 32 (suc w - length c)),
      length-repeat 32 (suc w - length c),
    )

take-padded : (w : ℕ) (c : Cell) (rest : List ℕ) → take (length c) (padded w c ++ rest) ≡ c
take-padded w c rest =
    ap (take (length c)) (append_assoc c (repeat 32 (suc w - length c)) rest)
    ∙ take-length_append c (repeat 32 (suc w - length c) ++ rest)

drop-padded :
    (w : ℕ) (c : Cell) (rest : List ℕ) → length c ≤ w → drop (suc w) (padded w c ++ rest) ≡ rest
drop-padded w c rest h =
    ap (λ n. drop n (padded w c ++ rest)) (sym (length-padded w c h))
    ∙ drop-length_append (padded w c) rest

line-IsAligned :
    (ws : List ℕ) (r : List Cell)
    → Fits ws r
    → (l : List ℕ) × (line ws r ≡ some l) × IsAligned ws r l
unfolding line IsAligned Fits
line-IsAligned ws [] f = ([], refl, refl)
line-IsAligned ws (c ∷ []) f = (c, refl, refl)
line-IsAligned [] (c ∷ d ∷ r) f = elim f [ ]
line-IsAligned (w ∷ ws) (c ∷ d ∷ r) (h, f) =
    let (l, e, aligned) = line-IsAligned ws (d ∷ r) f in
    let short : leb (length c) (suc w) ≡ true = ground (arith, h) in
    (
      padded w c ++ l,
      rw (short) (ap (behind (padded w c)) e),
      (take-padded w c l, subst (IsAligned ws (d ∷ r)) (sym (drop-padded w c l h)) aligned),
    )

-- The lines of rows, all with the same columns.
unfoldable pub AreAligned : List ℕ → List (List Cell) → List (List ℕ) → Type 0
AreAligned ws [] [] = Unit
AreAligned ws (r ∷ rs) (l ∷ ls) = IsAligned ws r l × AreAligned ws rs ls
AreAligned ws _ _ = ⊥

lines-AreAligned :
    (ws : List ℕ) (rows : List (List Cell))
    → All (Fits ws) rows
    → (ls : List (List ℕ)) × (lines ws rows ≡ some ls) × AreAligned ws rows ls
unfolding lines AreAligned
lines-AreAligned ws [] f = ([], refl, _)
lines-AreAligned ws (r ∷ rs) (f, fs) =
    let (l, e, a) = line-IsAligned ws r f in
    let (ls, e', more) = lines-AreAligned ws rs fs in (l ∷ ls, rw (e, e') refl, (a, more))

length-zeros : (r : List Cell) → length (zeros r) ≡ length r
length-zeros [] = refl
length-zeros (c ∷ r) = omega (arith, length-zeros r)

-- What is printed for the rows: with one list of column widths, a line for each of them, and the rule.
unfoldable pub IsLaidOut : List (List Cell) → Option (List (List ℕ)) → Type 0
IsLaidOut rows printed =
    (ws : List ℕ) × (ls : List (List ℕ)) × (printed ≡ some (ruled ls)) × AreAligned ws rows ls

-- A table in which no row is longer than the first one is printed without a panic: no width is missing and
-- no count of spaces is negative. And its columns are aligned: there are column widths such that in each
-- line each cell stands at the start of its column, behind the columns before it.
pub print_aligned_table-IsLaidOut :
    (r : List Cell) (rs : List (List Cell))
    → AtMost (length r) rs
    → IsLaidOut (r ∷ rs) (print_aligned_table (r ∷ rs))
unfolding print_aligned_table IsLaidOut
print_aligned_table-IsLaidOut r rs short =
    let same = length-zeros r in
    let all : AtMost (length (zeros r)) (r ∷ rs) =
      (omega (arith, same), subst (λ n. AtMost n rs) (sym same) short) in
    let (ws, e, grows, fits) = widen_all-Fits (zeros r) (r ∷ rs) all in
    let (ls, e', aligned) = lines-AreAligned ws (r ∷ rs) fits in
    (
      ws,
      ls,
      ap (λ o. and_then o (λ vs. and_then (lines vs (r ∷ rs)) (λ ks. some (ruled ks)))) e
          ∙ ap (λ o. and_then o (λ ks. some (ruled ks))) e',
      aligned,
    )
