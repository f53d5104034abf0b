-- ===== src/Update/Verified.antt =====
-- What the verification of a downloaded file vouches for (verifyReleaseChecksum and smokeTestBinary in
-- update.go).
use Prim.Native.String.{len}
use remotecmd_cli.Prelude.{
  ℕ, ◌≡◌, String, true, none, some, List, arith, eq_iff, Option-cases, inl, inr,
}
use remotecmd_cli.Dict
use remotecmd_cli.Errors.{contains}
use remotecmd_cli.Update.{
  Asset, Release, Machine, fetched, asset_candidates, find_asset, find_checksums_url,
  parse_checksums, verify_release_checksum, smoke_test_binary,
}

-- The release's checksums have an entry for the file, and it is the bytes' digest.
unfoldable pub IsDigested : Machine → Release → String → List ℕ → Type 0
IsDigested mach rel name bytes =
    (sums : Asset) × (t : String) × (want : String) × (find_checksums_url rel ≡ some sums)
    × (mach.checksums sums.url ≡ some t)
    × (Dict.get (parse_checksums mach t) name ≡ some want)
    × (len want ≡ 64)
    × (mach.sha256 bytes ≡ want)

-- The bytes are a file of the release for this platform, as the network gave it; its digest is the one that
-- the release's checksums name, and its `version` command works.
unfoldable pub IsVerified : Machine → Release → List ℕ → Type 0
IsVerified mach rel bytes =
    (a : Asset) × (out : String) × (find_asset (asset_candidates mach.os mach.arch) rel.assets
      ≡ some a)
    × (mach.download a.url ≡ fetched bytes)
    × IsDigested mach rel a.name bytes
    × (mach.run_version bytes ≡ some out)
    × (contains out "remotecmd-cli version" ≡ true)

pub verify-IsDigested :
    (mach : Machine) (rel : Release) (name : String) (bytes : List ℕ)
    → verify_release_checksum mach rel (some bytes) name ≡ none
    → IsDigested mach rel name bytes
unfolding verify_release_checksum IsDigested
verify-IsDigested mach rel name bytes valid = elim (Option-cases (find_checksums_url rel)) [
  | inl missing ↦ ground (arith, missing, valid)
  | inr (sums, has) ↦ elim (Option-cases (mach.checksums sums.url)) [
    | inl down ↦ ground (arith, has, down, valid)
    | inr (t, sent) ↦ elim (Option-cases (Dict.get (parse_checksums mach t) name)) [
      | inl no_line ↦ ground (arith, has, sent, no_line, valid)
      | inr (want, line) ↦ (
        sums,
        t,
        want,
        has,
        sent,
        line,
        ground (arith, has, sent, line, valid),
        ground (arith, has, sent, line, valid, eq_iff (mach.sha256 bytes) want),
      )
    ]
  ]
]

pub smoke_lem :
    (mach : Machine) (bytes : List ℕ)
    → smoke_test_binary mach (some bytes) ≡ none
    → (out : String) × (mach.run_version bytes ≡ some out)
      × (contains out "remotecmd-cli version" ≡ true)
unfolding smoke_test_binary
smoke_lem mach bytes works = elim (Option-cases (mach.run_version bytes)) [
  | inl broke ↦ ground (arith, broke, works)
  | inr (out, ran) ↦ (out, ran, ground (arith, ran, works))
]
