-- ===== src/Health/Table/Columns.antt =====
-- The columns of the printed table are aligned (printAlignedTable in health.go).
use remotecmd_cli.Prelude.{
  ℕ, suc, ◌≤◌, ◌≡◌, refl, ap, ◌∙◌, some, List, [], ◌∷◌, arith, subst, length, take, drop, All,
}
use remotecmd_cli.Health.Table.{Cell, wider, widen, with_width, widen_all, and_then}

-- The widths are as wide as the cells of the row, of which there are not more.
unfoldable pub Fits : List ℕ → List Cell → Type 0
Fits ws [] = Unit
Fits [] (c ∷ r) = ⊥
Fits (w ∷ ws) (c ∷ r) = (length c ≤ w) × Fits ws r

-- As many widths, each at least as wide.
pub Grows : List ℕ → List ℕ → Type 0
Grows [] [] = Unit
Grows (v ∷ vs) (w ∷ ws) = (v ≤ w) × Grows vs ws
Grows _ _ = ⊥

-- Each cell stands at the start of its column, where the columns have the widths and a space between
-- them; the last one ends the line.
unfoldable pub IsAligned : List ℕ → List Cell → List ℕ → Type 0
IsAligned ws [] l = l ≡ []
IsAligned ws (c ∷ []) l = l ≡ c
IsAligned [] (c ∷ d ∷ r) l = ⊥
IsAligned (w ∷ ws) (c ∷ d ∷ r) l = (take (length c) l ≡ c) × IsAligned ws (d ∷ r) (drop (suc w) l)

Grows-refl : (ws : List ℕ) → Grows ws ws
unfolding Grows
Grows-refl [] = _
Grows-refl (w ∷ ws) = (omega arith, Grows-refl ws)

Grows-trans : (us vs ws : List ℕ) → Grows us vs → Grows vs ws → Grows us ws
unfolding Grows
Grows-trans [] [] [] g h = _
Grows-trans [] [] (w ∷ ws) g h = elim h [ ]
Grows-trans [] (v ∷ vs) ws g h = elim g [ ]
Grows-trans (u ∷ us) [] ws g h = elim g [ ]
Grows-trans (u ∷ us) (v ∷ vs) [] g h = elim h [ ]
Grows-trans (u ∷ us) (v ∷ vs) (w ∷ ws) (a, g) (b, h) =
    (omega (arith, a, b), Grows-trans us vs ws g h)

Fits-Grows : (vs ws : List ℕ) (r : List Cell) → Grows vs ws → Fits vs r → Fits ws r
unfolding Grows Fits
Fits-Grows vs ws [] g f = _
Fits-Grows [] ws (c ∷ r) g f = elim f [ ]
Fits-Grows (v ∷ vs) [] (c ∷ r) g f = elim g [ ]
Fits-Grows (v ∷ vs) (w ∷ ws) (c ∷ r) (a, g) (b, f) = (omega (arith, a, b), Fits-Grows vs ws r g f)

-- Widening by a row that is not longer than the widths.
widen-Fits :
    (ws : List ℕ) (r : List Cell)
    → length r ≤ length ws
    → (ws' : List ℕ) × (widen ws r ≡ some ws') × Grows ws ws' × Fits ws' r
unfolding widen Grows Fits
widen-Fits ws [] h = (ws, refl, Grows-refl ws, _)
widen-Fits [] (c ∷ r) h = ground (arith, h)
widen-Fits (w ∷ ws) (c ∷ r) h =
    let (ws', e, g, f) = widen-Fits ws r (omega (arith, h)) in
    (
      wider w (length c) ∷ ws',
      ap (with_width (wider w (length c))) e,
      (ground arith, g),
      (ground arith, f),
    )

Grows-length : (vs ws : List ℕ) → Grows vs ws → length vs ≡ length ws
unfolding Grows
Grows-length [] [] g = refl
Grows-length [] (w ∷ ws) g = elim g [ ]
Grows-length (v ∷ vs) [] g = elim g [ ]
Grows-length (v ∷ vs) (w ∷ ws) (a, g) = omega (arith, Grows-length vs ws g)

-- Every row has at most that many cells.
abbrev pub AtMost : ℕ → List (List Cell) → Type 0
AtMost n rows = All (λ r. length r ≤ n) rows

pub widen_all-Fits :
    (ws : List ℕ) (rows : List (List Cell))
    → AtMost (length ws) rows
    → (ws' : List ℕ) × (widen_all ws rows ≡ some ws') × Grows ws ws' × All (Fits ws') rows
unfolding widen_all
widen_all-Fits ws [] h = (ws, refl, Grows-refl ws, _)
widen_all-Fits ws (r ∷ rs) (h, hs) =
    let (vs, e, g, f) = widen-Fits ws r h in
    let (us, e', g', fs) =
      widen_all-Fits vs rs (subst (λ n. AtMost n rs) (Grows-length ws vs g) hs) in
    (
      us,
      ap (λ o. and_then o (λ ws'. widen_all ws' rs)) e ∙ e',
      Grows-trans ws vs us g g',
      (Fits-Grows vs us r g' f, fs),
    )
