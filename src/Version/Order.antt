-- ===== src/Version/Order.antt =====
-- The order of versions, and where a development build stands in it.
use remotecmd_cli.Prelude.{
  ℕ, Bool, true, false, not, ◌&&◌, ◌||◌, Option, none, some, List, [], ◌∷◌, ◌++◌, eqb, any, ◌≡◌,
  refl, arith, Option-cases, Bool-cases, inl, inr, ◌∙◌, sym,
}
use remotecmd_cli.Version.{
  Numbers, version_numbers, is_prerelease, less_numbers, less_parsed, version_less, resolve_version,
  trim_v, until, is_suffix_mark,
}

irreflexive : (x : Numbers) (p : Bool) → less_numbers x p x p ≡ false
irreflexive x p = ground arith

asymmetric :
    (x y : Numbers) (p q : Bool) → less_numbers x p y q ≡ true → less_numbers y q x p ≡ false
asymmetric x y p q h = ground arith

transitive :
    (x y z : Numbers) (p q r : Bool)
    → less_numbers x p y q ≡ true
    → less_numbers y q z r ≡ true
    → less_numbers x p z r ≡ true
transitive x y z p q r h k = ground arith

-- versionLess is a strict order: no version is below itself, no two are below each other, and it is
-- transitive. Versions without a number take part: they are below nothing and above nothing.
pub version_less-IsStrict :
    (a b c : List ℕ)
    → (version_less a a ≡ false)
      × ((version_less a b && version_less b a) ≡ false)
      × ((not (version_less a b && version_less b c) || version_less a c) ≡ true)
unfolding version_less
version_less-IsStrict a b c =
    strict (version_numbers a) (version_numbers b) (version_numbers c) (is_prerelease a)
      (is_prerelease b) (is_prerelease c)
  where
    strict :
        (x y z : Option Numbers) (p q r : Bool)
        → (less_parsed x p x p ≡ false)
          × ((less_parsed x p y q && less_parsed y q x p) ≡ false)
          × ((not (less_parsed x p y q && less_parsed y q z r) || less_parsed x p z r) ≡ true)
    strict none y z p q r = (refl, refl, refl)
    strict (some x) none z p q r = (irreflexive x p, refl, refl)
    strict (some x) (some y) none p q r =
        (irreflexive x p, ground (arith, asymmetric x y p q), ground arith)
    strict (some x) (some y) (some z) p q r = (
      irreflexive x p,
      ground (arith, asymmetric x y p q),
      ground (arith, transitive x y z p q r),
    )

-- A version without a suffix, such as that of a release.
abbrev pub IsPlain : List ℕ → Type 0
IsPlain n = any is_suffix_mark n ≡ false

until_mark : (n t : List ℕ) → IsPlain n → until is_suffix_mark (n ++ 45 ∷ t) ≡ n
unfolding until
until_mark [] t plain = refl
until_mark (b ∷ n) t plain = ground (arith, until_mark n t)

until_end : (n : List ℕ) → IsPlain n → until is_suffix_mark n ≡ n
unfolding until
until_end [] plain = refl
until_end (b ∷ n) plain = ground (arith, until_end n)

trimmed_plain :
    (b : ℕ) (n t : List ℕ)
    → IsPlain (b ∷ n)
    → until is_suffix_mark (trim_v ((b ∷ n) ++ 45 ∷ t)) ≡ until is_suffix_mark (trim_v (b ∷ n))
unfolding trim_v
trimmed_plain b n t plain = elim (Bool-cases (eqb b 118)) [
  | inl v ↦ rw v (until_mark n t (ground arith) ∙ sym (until_end n (ground arith)))
  | inr other ↦ rw other (until_mark (b ∷ n) t plain ∙ sym (until_end (b ∷ n) plain))
]

version_numbers-suffix :
    (n t : List ℕ) (x : Numbers)
    → IsPlain n
    → version_numbers n ≡ some x
    → version_numbers (n ++ 45 ∷ t) ≡ some x
unfolding version_numbers
version_numbers-suffix [] t x plain e = ground (arith, e)
version_numbers-suffix (b ∷ n) t x plain e = rw (trimmed_plain b n t plain) e

is_prerelease-suffix : (n t : List ℕ) → IsPlain n → is_prerelease (n ++ 45 ∷ t) ≡ true
unfolding is_prerelease until
is_prerelease-suffix [] t plain = refl
is_prerelease-suffix (b ∷ n) t plain = ground (arith, is_prerelease-suffix n t)

is_prerelease-plain : (n : List ℕ) → IsPlain n → is_prerelease n ≡ false
unfolding is_prerelease until
is_prerelease-plain [] plain = refl
is_prerelease-plain (b ∷ n) plain = ground (arith, is_prerelease-plain n)

-- A development build, whatever its revision, stands directly below the release that is to come next, if
-- that version has numbers and no suffix: it is below it, and it is above exactly those versions without a
-- suffix that the next release is above.
pub development_build_between :
    (next rev release : List ℕ) (modified : Bool) (x : Numbers)
    → IsPlain next
    → version_numbers next ≡ some x
    → IsPlain release
    → (version_less (resolve_version [] next rev modified) next ≡ true)
      × (version_less release (resolve_version [] next rev modified) ≡ version_less release next)
unfolding version_less resolve_version
development_build_between next rev release modified x plain numbers plain' =
    rw
      (
        version_numbers-suffix next _ x plain numbers,
        is_prerelease-suffix next _ plain,
        numbers,
        is_prerelease-plain next plain,
        is_prerelease-plain release plain',
      )
      (
        ground arith,
        elim (Option-cases (version_numbers release)) [
          | inl e ↦ rw e
          | inr (y, e) ↦ rw e (ground arith)
        ],
      )
