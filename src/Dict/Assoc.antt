-- ===== src/Dict/Assoc.antt =====
-- Lists of keyed values, behind `Dict`.
use remotecmd_cli.Prelude.{
  String, Bool, ◌≡◌, Option, none, some, List, [], ◌∷◌, arith, ◌==◌, eq_iff, if◌then◌else◌,
}

module _ {ℓ} {V : Type ℓ} where
  -- The value of the first pair with the key.
  unfoldable pub value_at : List (String × V) → String → Option V
  value_at [] key = none
  value_at (pair ∷ pairs) key =
      let later = value_at pairs key in if key == pair.0 then some pair.1 else later

  -- The pairs whose key passes a test.
  unfoldable pub select : (String → Bool) → List (String × V) → List (String × V)
  select test [] = []
  select test (pair ∷ pairs) =
      let later = select test pairs in if test pair.0 then pair ∷ later else later

  pub value_at-select :
      (test : String → Bool) (pairs : List (String × V)) (key : String)
      → value_at (select test pairs) key ≡ (if test key then value_at pairs key else none)
  unfolding value_at select
  value_at-select test [] key = ground arith
  value_at-select test ((name, v) ∷ pairs) key =
      ground (arith, value_at-select test pairs key, eq_iff key name)
