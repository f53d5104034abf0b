-- ===== src/Prelude/Elements.antt =====
-- The elements of a list by their positions, and of what is appended, taken and dropped.
use Prim.Native.Nat.{ℕ, zero, suc, ◌+◌, ◌-◌, ◌≤◌}
use mathlib.Core.Path.{◌≡◌, refl, ap, ◌∙◌}
use mathlib.Core.Option.{Option, none, some}
use mathlib.Core.List.{List, [], ◌∷◌, ◌++◌}
use native.Mathlib.Omega.{arith}
use remotecmd_cli.Prelude.Tests.{ltb, if◌then◌else◌}
use remotecmd_cli.Prelude.Lists.{length, take, drop}

same : (k n : ℕ) → k - n ≡ suc k - suc n
same k n = omega arith

module _ {ℓ} {A : Type ℓ} where
  abbrev pub get_elem? : List A → ℕ → Option A
  get_elem? [] k = none
  get_elem? (x ∷ xs) zero = some x
  get_elem? (x ∷ xs) (suc k) = get_elem? xs k

  pub get_elem?-beyond : (xs : List A) (k : ℕ) → length xs ≤ k → get_elem? xs k ≡ none
  get_elem?-beyond [] k h = refl
  get_elem?-beyond (x ∷ xs) zero h = ground arith
  get_elem?-beyond (x ∷ xs) (suc k) h = get_elem?-beyond xs k (omega arith)

  pub get_elem?-append :
      (xs ys : List A) (k : ℕ)
      → get_elem? (xs ++ ys) k
        ≡ (if ltb k (length xs) then get_elem? xs k else get_elem? ys (k - length xs))
  get_elem?-append [] ys k =
      let whole : k ≡ k - 0 = omega arith in ground (arith, ap (get_elem? ys) whole)
  get_elem?-append (x ∷ xs) ys zero = ground arith
  get_elem?-append (x ∷ xs) ys (suc k) =
      ground (arith, get_elem?-append xs ys k, ap (get_elem? ys) (same k (length xs)))

  pub get_elem?-take :
      (n : ℕ) (xs : List A) (k : ℕ)
      → get_elem? (take n xs) k ≡ (if ltb k n then get_elem? xs k else none)
  get_elem?-take zero xs k = ground arith
  get_elem?-take (suc n) [] k = ground arith
  get_elem?-take (suc n) (x ∷ xs) zero = ground arith
  get_elem?-take (suc n) (x ∷ xs) (suc k) = ground (arith, get_elem?-take n xs k)

  pub get_elem?-drop :
      (n : ℕ) (xs : List A) (k : ℕ) → get_elem? (drop n xs) k ≡ get_elem? xs (n + k)
  get_elem?-drop zero xs k = ap (get_elem? xs) (omega arith)
  get_elem?-drop (suc n) [] k = refl
  get_elem?-drop (suc n) (x ∷ xs) k =
      let next : suc (n + k) ≡ suc n + k = omega arith in
      get_elem?-drop n xs k ∙ ap (get_elem? (x ∷ xs)) next

  -- Lists are equal that have the same elements.
  pub get_elem?-ext : (xs ys : List A) → ((k : ℕ) → get_elem? xs k ≡ get_elem? ys k) → xs ≡ ys
  get_elem?-ext [] [] h = refl
  get_elem?-ext [] (y ∷ ys) h = ground (arith, h 0)
  get_elem?-ext (x ∷ xs) [] h = ground (arith, h 0)
  get_elem?-ext (x ∷ xs) (y ∷ ys) h = ground (arith, h 0, get_elem?-ext xs ys (λ k. h (suc k)))
