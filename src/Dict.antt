-- ===== src/Dict.antt =====
-- Go's `map[string]V`, which the program uses throughout. The representation (an association list with
-- the newest entry first) is private: clients have `dict_laws`. The order of a range over a map is
-- arbitrary in Go; `entries` fixes one order.
mod Assoc
use Assoc.{value_at, select, value_at-select}
use remotecmd_cli.Prelude.{
  String, Bool, true, false, not, ◌||◌, ◌≡◌, refl, Option, none, some, List, [], ◌∷◌, arith, ◌==◌,
  eq_iff, eq_refl, if◌then◌else◌,
}

pub record Dict {ℓ} (V : Type ℓ) : Type ℓ where
  assoc : List (String × V)

-- A test on the value that a lookup gives: false where the key is missing.
abbrev pub holds {ℓ} : {V : Type ℓ} → (V → Bool) → Option V → Bool
holds p none = false
holds p (some v) = p v

module _ {ℓ} {V : Type ℓ} where
  abbrev is_nil : List (String × V) → Bool
  is_nil [] = true
  is_nil (pair ∷ pairs) = false

  -- len(m) == 0
  pub is_empty : Dict V → Bool
  is_empty m = is_nil m.assoc

  -- the pairs that a range over the map visits
  pub entries : Dict V → List (String × V)
  entries m = m.assoc

  -- v, ok := m[key]
  pub get : Dict V → String → Option V
  get m key = value_at m.assoc key

  -- for key, v := range m { if !test(v) { delete(m, key) } }
  pub retain : (V → Bool) → Dict V → Dict V
  retain test m = record { assoc = select (λ key. holds test (value_at m.assoc key)) m.assoc }

  -- delete(m, key)
  pub remove : Dict V → String → Dict V
  remove m key = record { assoc = select (λ name. not (key == name)) m.assoc }

  pub get-remove :
      (m : Dict V) (key name : String)
      → get (remove m key) name ≡ (if key == name then none else get m name)
  unfolding remove get
  get-remove m key name = ground (arith, value_at-select (λ other. not (key == other)) m.assoc name)

  pub get-retain :
      (test : V → Bool) (m : Dict V) (name : String)
      → get (retain test m) name ≡ (if holds test (get m name) then get m name else none)
  unfolding retain get
  get-retain test m name = value_at-select (λ key. holds test (value_at m.assoc key)) m.assoc name

  -- m[key] = v
  pub put : Dict V → String → V → Dict V
  unfolding remove
  put m key v = record { assoc = (key, v) ∷ (remove m key).assoc }

  pub get-put :
      (m : Dict V) (key name : String) (v : V)
      → get (put m key v) name ≡ (if key == name then some v else get m name)
  unfolding put get value_at
  get-put m key name v = ground (arith, get-remove m key name, eq_iff name key, eq_iff key name)

  pub get-remove_self : (m : Dict V) (key : String) → get (remove m key) key ≡ none
  get-remove_self m key = simp (get-remove, eq_refl)

  pub get-put_self : (m : Dict V) (key : String) (v : V) → get (put m key v) key ≡ some v
  get-put_self m key v = simp (get-put, eq_refl)

  -- The key is among these pairs.
  abbrev pub is_listed : String → List (String × V) → Bool
  is_listed key [] = false
  is_listed key ((name, v) ∷ pairs) = name == key || is_listed key pairs

  value_at-is_listed :
      (pairs : List (String × V)) (key : String) (v : V)
      → value_at pairs key ≡ some v
      → is_listed key pairs ≡ true
  unfolding value_at
  value_at-is_listed [] key v found = ground (arith, found)
  value_at-is_listed ((name, v') ∷ pairs) key v found =
      ground (arith, found, value_at-is_listed pairs key v, eq_iff name key, eq_iff key name)

  -- A range visits every key.
  pub entries-is_listed :
      (m : Dict V) (key : String) (v : V) → get m key ≡ some v → is_listed key (entries m) ≡ true
  unfolding get entries
  entries-is_listed m key v found = value_at-is_listed m.assoc key v found

  -- make(map[string]V)
  pub empty : Dict V
  empty = record { assoc = [] }

  pub get-empty : (key : String) → get empty key ≡ none
  unfolding empty get value_at
  get-empty key = refl

pub ruleset dict_laws = (get-empty, get-remove, get-put, get-retain)
