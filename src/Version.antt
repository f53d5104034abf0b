-- ===== src/Version.antt =====
-- Versions (daemonversion.go and version.go): their text, their numbers and their order. A version is its
-- bytes.
pub mod Order
pub mod Reported
use mathlib.Core.List.{append_assoc}
use remotecmd_cli.Prelude.{
  ℕ, zero, suc, ◌+◌, ◌-◌, ◌*◌, ◌^◌, Bool, true, false, not, ◌&&◌, ◌||◌, Option, none, some, List,
  [], ◌∷◌, ◌++◌, eqb, ltb, leb, any, take, length, if◌then◌else◌,
}

abbrev dash : ℕ
dash = 45

abbrev plus : ℕ
plus = 43

abbrev space : ℕ
space = 32

abbrev dot : ℕ
dot = 46

abbrev letter_v : ℕ
letter_v = 118

-- strings.TrimPrefix(s, "v")
unfoldable pub trim_v : List ℕ → List ℕ
trim_v [] = []
trim_v (b ∷ s) = if eqb b letter_v then s else b ∷ s

-- s up to the first byte that `stops` holds of; all of s where there is none.
unfoldable pub until : (ℕ → Bool) → List ℕ → List ℕ
until stops [] = []
until stops (b ∷ s) = let rest = until stops s in if stops b then [] else b ∷ rest

abbrev pub is_suffix_mark : ℕ → Bool
is_suffix_mark b = eqb b dash || eqb b plus || eqb b space

abbrev attach : ℕ → List (List ℕ) → List (List ℕ)
attach b [] = (b ∷ []) ∷ []
attach b (part ∷ parts) = (b ∷ part) ∷ parts

-- strings.Split(s, ".")
unfoldable pub split_dots : List ℕ → List (List ℕ)
split_dots [] = [] ∷ []
split_dots (b ∷ s) = let rest = split_dots s in if eqb b dot then [] ∷ rest else attach b rest

abbrev is_digit : ℕ → Bool
is_digit b = leb 48 b && leb b 57

abbrev digits : Option ℕ → List ℕ → Option ℕ
digits none s = none
digits (some n) [] = some n
digits (some n) (b ∷ s) = digits (if is_digit b then some (n * 10 + (b - 48)) else none) s

abbrev in_range : Option ℕ → Option ℕ
in_range none = none
in_range (some n) = if ltb n (2 ^ 63) then some n else none

-- strconv.Atoi of a text without a sign (a sign ends the text that the caller takes apart): an error
-- where it is empty, has a byte that is not a digit, or does not fit.
unfoldable pub atoi : List ℕ → Option ℕ
atoi [] = none
atoi (b ∷ s) = in_range (digits (some 0) (b ∷ s))

pub record Numbers : Type 0 where
  pub major : ℕ
  pub minor : ℕ
  pub patch : ℕ

-- The loop of versionNumbers over at most `n` parts: the numbers, 0 where there is no part.
unfoldable pub numbers_of : ℕ → List (List ℕ) → Option (List ℕ)
unfolding atoi
numbers_of zero parts = some []
numbers_of (suc n) [] = elim (numbers_of n []) [ none ↦ none | some ns ↦ some (0 ∷ ns) ]
numbers_of (suc n) (part ∷ parts) =
    let rest = numbers_of n parts in
    elim (atoi part) [ none ↦ none | some k ↦ elim rest [ none ↦ none | some ns ↦ some (k ∷ ns) ] ]

abbrev three : List ℕ → Option Numbers
three (a ∷ b ∷ c ∷ []) = some (record { major = a; minor = b; patch = c })
three _ = none

abbrev maybe_three : Option (List ℕ) → Option Numbers
maybe_three none = none
maybe_three (some ns) = three ns

-- versionNumbers; `none` is nil.
unfoldable pub version_numbers : List ℕ → Option Numbers
unfolding trim_v until split_dots numbers_of
version_numbers s = maybe_three (numbers_of 3 (split_dots (until is_suffix_mark (trim_v s))))

-- isPrerelease
unfoldable pub is_prerelease : List ℕ → Bool
unfolding until
is_prerelease v = any (λ b. eqb b dash) (until (λ b. eqb b plus) v)

abbrev pub less_numbers : Numbers → Bool → Numbers → Bool → Bool
less_numbers x px y py =
    if not (eqb x.major y.major)
    then ltb x.major y.major
    else if not (eqb x.minor y.minor)
    then ltb x.minor y.minor
    else if not (eqb x.patch y.patch)
    then ltb x.patch y.patch
    else px && not py

abbrev pub less_parsed : Option Numbers → Bool → Option Numbers → Bool → Bool
less_parsed none px y py = false
less_parsed (some x) px none py = false
less_parsed (some x) px (some y) py = less_numbers x px y py

-- versionLess
unfoldable pub version_less : List ℕ → List ℕ → Bool
version_less a b =
    less_parsed (version_numbers a) (is_prerelease a) (version_numbers b) (is_prerelease b)

abbrev revision_suffix : List ℕ → Bool → List ℕ
revision_suffix [] modified = []
revision_suffix (r ∷ rev) modified =
    plus ∷ take 7 (r ∷ rev) ++ (if modified then 46 ∷ 100 ∷ 105 ∷ 114 ∷ 116 ∷ 121 ∷ [] else [])

-- resolveVersion, of the release that the build sets, the next version, and what the version control
-- reports ("-dev", "+" and at most seven bytes of the revision, ".dirty").
unfoldable pub resolve_version : List ℕ → List ℕ → List ℕ → Bool → List ℕ
resolve_version [] next rev modified = next ++ dash ∷ 100 ∷ 101 ∷ 118 ∷ revision_suffix rev modified
resolve_version (b ∷ release) next rev modified = b ∷ release
