-- ===== src/Update.antt =====
-- Updating the program itself (update.go): the choice of a release's file, its verification, and the swap
-- on the disk, with a fault at any step. The network, SHA-256, the running of the downloaded file and
-- runtime.GOOS are parameters; permissions are left out, and removing a temporary file succeeds.
pub mod Verified
pub mod Swap
pub mod Paths
pub mod Safety
use remotecmd_cli.Prelude.{
  ℕ, ◌+◌, String, ◌⧺◌, Bool, true, false, not, ◌&&◌, ◌||◌, Option, none, some, List, [], ◌∷◌, ◌==◌,
  eqb, map, if◌then◌else◌,
}
use Prim.Native.Char.{Char, code}
use Prim.Native.String.{len}
use remotecmd_cli.Prelude.Chars.{chars, text_of, runes}
use remotecmd_cli.Dict
use remotecmd_cli.Dict.{Dict}
use remotecmd_cli.Errors.{contains}
use remotecmd_cli.Version.{version_less, trim_v}
use remotecmd_cli.Version.Reported.{split_at, is_newline, fields}

pub record Asset : Type 0 where
  pub name : String
  pub url : String

-- githubRelease
pub record Release : Type 0 where
  pub tag : String
  pub assets : List Asset

-- The contents of the files.
abbrev pub Files : Type 0
Files = String → Option (List ℕ)

-- What downloadFile comes to: the bytes, or an error after some bytes were written, which is one of
-- permissions or not.
pub data Download : Type 0 where
  fetched : List ℕ → Download
  broken : List ℕ → Bool → String → Download

-- Where copyFile fails, if it does: before it has its new file (`cannot_open`), while it writes it, or when
-- it renames it.
pub data CopyFault : Type 0 where
  no_fault : CopyFault
  cannot_open : String → CopyFault
  cannot_write : String → CopyFault
  cannot_rename : String → CopyFault

-- What an update finds on its machine and in the network.
pub record Machine : Type 0 where
  pub os : String
  pub arch : String
  pub pid : String
  pub download : String → Download
  pub checksums : String → Option String
  pub lower : String → String
  pub sha256 : List ℕ → String
  pub run_version : List ℕ → Option String
  pub copy_fault : CopyFault
  pub rename_error : String → String → Option String

pub data InstallError : Type 0 where
  no_binary : InstallError
  permission_denied : String → InstallError
  download_failed : String → InstallError
  no_checksums : InstallError
  checksums_unreachable : InstallError
  no_entry : InstallError
  no_digest : InstallError
  unreadable : InstallError
  hash_mismatch : InstallError
  smoke_failed : InstallError
  smoke_unexpected : String → InstallError
  backup_failed : String → InstallError
  aside_failed : String → InstallError
  swap_failed : String → InstallError

-- assetCandidates
unfoldable pub asset_candidates : String → String → List String
asset_candidates os arch =
    let base = "remotecmd-cli-" ⧺ os ⧺ "-" ⧺ arch in
    if os == "linux"
    then (base ⧺ "-static") ∷ base ∷ []
    else if os == "windows"
    then (base ⧺ ".exe") ∷ []
    else base ∷ []

unfoldable pub asset_named : String → List Asset → Option Asset
asset_named want [] = none
asset_named want (a ∷ rest) =
    let later = asset_named want rest in if a.name == want then some a else later

abbrev or_later : Option Asset → Option Asset → Option Asset
or_later none later = later
or_later (some a) later = some a

-- findAsset, over the wanted names.
unfoldable pub find_asset : List String → List Asset → Option Asset
unfolding asset_named
find_asset [] assets = none
find_asset (want ∷ wants) assets = or_later (asset_named want assets) (find_asset wants assets)

-- findChecksumsURL; `none` is the empty text.
unfoldable pub find_checksums_url : Release → Option Asset
unfolding asset_named
find_checksums_url rel = asset_named "checksums.txt" rel.assets

-- strings.TrimPrefix(name, "*")
abbrev trim_star : List Char → List Char
trim_star [] = []
trim_star (c ∷ cs) = if eqb (code c) 42 then cs else c ∷ cs

-- A line of checksums.txt.
abbrev add_entry : Machine → List (List Char) → Dict String → Dict String
add_entry mach (hash ∷ name ∷ []) m =
    Dict.put m (text_of (trim_star name)) (mach.lower (text_of hash))
add_entry mach _ m = m

unfoldable pub parse_lines : Machine → List (List Char) → Dict String → Dict String
unfolding fields text_of
parse_lines mach [] m = m
parse_lines mach (line ∷ rest) m = parse_lines mach rest (add_entry mach (fields line) m)

-- The parsing in fetchChecksums.
unfoldable pub parse_checksums : Machine → String → Dict String
unfolding split_at parse_lines chars
parse_checksums mach data_text = parse_lines mach (split_at is_newline (chars data_text)) Dict.empty

abbrev pub compare_digest : Machine → String → Option (List ℕ) → Option InstallError
compare_digest mach want none = some unreadable
compare_digest mach want (some bytes) =
    if mach.sha256 bytes == want then none else some hash_mismatch

abbrev pub check_entry : Machine → Option (List ℕ) → Option String → Option InstallError
check_entry mach file none = some no_entry
check_entry mach file (some want) =
    if eqb (len want) 64 then compare_digest mach want file else some no_digest

abbrev pub check_text : Machine → Option (List ℕ) → String → Option String → Option InstallError
check_text mach file asset none = some checksums_unreachable
check_text mach file asset (some t) =
    check_entry mach file (Dict.get (parse_checksums mach t) asset)

-- verifyReleaseChecksum, of the content of the file; `none` is nil.
unfoldable pub verify_release_checksum :
    Machine → Release → Option (List ℕ) → String → Option InstallError
unfolding find_checksums_url parse_checksums
verify_release_checksum mach rel file asset = elim (find_checksums_url rel) [
  | none ↦ some no_checksums
  | some a ↦ check_text mach file asset (mach.checksums a.url)
]

abbrev pub check_output : Option String → Option InstallError
check_output none = some smoke_failed
check_output (some out) =
    if contains out "remotecmd-cli version" then none else some (smoke_unexpected out)

-- smokeTestBinary, of the content of the file.
unfoldable pub smoke_test_binary : Machine → Option (List ℕ) → Option InstallError
smoke_test_binary mach none = some smoke_failed
smoke_test_binary mach (some bytes) = check_output (mach.run_version bytes)

abbrev pub write : String → List ℕ → Files → Files
write path bytes fs p = if path == p then some bytes else fs p

abbrev pub remove : String → Files → Files
remove path fs p = if path == p then none else fs p

-- os.Rename where it succeeds.
abbrev pub move : String → String → Files → Files
move src dst fs p = if dst == p then fs src else if src == p then none else fs p

-- copyFile: its error, and the files.
abbrev pub copy_bytes : CopyFault → List ℕ → String → Files → Option String × Files
copy_bytes no_fault bytes dst fs = (none, move (dst ⧺ ".tmp") dst (write (dst ⧺ ".tmp") bytes fs))
copy_bytes (cannot_open e) bytes dst fs = (some e, fs)
copy_bytes (cannot_write e) bytes dst fs = (some e, remove (dst ⧺ ".tmp") fs)
copy_bytes (cannot_rename e) bytes dst fs = (some e, write (dst ⧺ ".tmp") bytes fs)

unfoldable pub copy_file : CopyFault → String → String → Files → Option String × Files
copy_file fault src dst fs = elim (fs src) [
  | none ↦ (some "no such file or directory", fs)
  | some bytes ↦ copy_bytes fault bytes dst fs
]

-- What installRelease leaves: the files, and its error.
pub record Installed : Type 0 where
  pub files : Files
  pub error : Option InstallError

-- An error after the temporary file was removed.
abbrev pub give_up : String → InstallError → Files → Installed
give_up tmp e fs = record { files = remove tmp fs; error = some e }

-- The swap where a running file can be replaced.
abbrev pub swap_unix : Machine → String → String → Files → Installed
swap_unix mach exe tmp fs = elim (mach.rename_error tmp exe) [
  | some e ↦ give_up tmp (swap_failed e) fs
  | none ↦ record { files = move tmp exe fs; error = none }
]

-- os.Rename, whose error is not looked at.
abbrev pub move_back : Machine → String → String → Files → Files
move_back mach old exe fs = elim (mach.rename_error old exe) [
  | some e ↦ fs
  | none ↦ move old exe fs
]

-- The swap on Windows, where a running file can be renamed only.
abbrev pub swap_windows : Machine → String → String → Files → Installed
swap_windows mach exe tmp fs =
    let old = exe ⧺ ".old" in
    let cleared = remove old fs in
    elim (mach.rename_error exe old) [
      | some e ↦ give_up tmp (aside_failed e) cleared
      | none ↦
          let aside = move exe old cleared in
          elim (mach.rename_error tmp exe) [
            | some e ↦ give_up tmp (swap_failed e) (move_back mach old exe aside)
            | none ↦ record { files = move tmp exe aside; error = none }
          ]
    ]

abbrev pub swap : Machine → String → String → Option String × Files → Installed
swap mach exe tmp (some e, fs) = give_up tmp (backup_failed e) fs
swap mach exe tmp (none, fs) =
    if mach.os == "windows" then swap_windows mach exe tmp fs else swap_unix mach exe tmp fs

abbrev pub backed_up : Machine → String → String → Option InstallError → Files → Installed
backed_up mach exe tmp (some e) fs = give_up tmp e fs
backed_up mach exe tmp none fs = swap mach exe tmp (copy_file mach.copy_fault exe (exe ⧺ ".bak") fs)

abbrev pub tested : Machine → String → String → Option InstallError → Files → Installed
tested mach exe tmp (some e) fs = give_up tmp e fs
tested mach exe tmp none fs = backed_up mach exe tmp (smoke_test_binary mach (fs tmp)) fs

abbrev pub downloaded : Machine → Release → String → String → Asset → Download → Files → Installed
downloaded mach rel exe tmp a (broken part denied e) fs =
    give_up tmp (if denied then permission_denied e else download_failed e) (write tmp part fs)
downloaded mach rel exe tmp a (fetched bytes) fs =
    let there = write tmp bytes fs in
    tested mach exe tmp (verify_release_checksum mach rel (there tmp) a.name) there

-- The temporary file beside the program, whose name keeps an extension .exe (winExeExt); `stem` and `ext`
-- are the program's path without it, and it.
abbrev pub temp_path : Machine → String → String → String
temp_path mach stem ext = stem ⧺ (".new." ⧺ (mach.pid ⧺ ext))

-- installRelease
unfoldable pub install_release : Machine → Release → String → String → Files → Installed
unfolding asset_candidates find_asset verify_release_checksum smoke_test_binary copy_file
install_release mach rel stem ext fs =
    elim (find_asset (asset_candidates mach.os mach.arch) rel.assets) [
      | none ↦ record { files = fs; error = some no_binary }
      | some a ↦
          downloaded mach rel (stem ⧺ ext) (temp_path mach stem ext) a (mach.download a.url) fs
    ]

-- What handleUpdate does with the latest release.
pub data Decision : Type 0 where
  up_to_date : Decision
  available : Decision
  installs : Decision

-- handleUpdate, with its flags --check and --force, up to the installation.
unfoldable pub decide_update : Bool → Bool → String → Release → Decision
decide_update check_only force current rel =
    if not (version_less (runes current) (trim_v (runes rel.tag))) && not force
    then up_to_date
    else if check_only
    then available
    else installs
