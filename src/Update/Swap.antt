-- ===== src/Update/Swap.antt =====
-- What an update leaves on the disk (installRelease in update.go), whatever goes wrong.
use remotecmd_cli.Prelude.{
  ℕ, ◌≡◌, refl, sym, ◌∙◌, String, ◌⧺◌, false, Option, none, some, List, arith, ◌==◌, eq_refl,
  if◌then◌else◌, Option-cases, inl, inr,
}
use remotecmd_cli.Update.{
  Asset, Release, Files, Machine, CopyFault, no_fault, cannot_open, cannot_write, cannot_rename,
  InstallError, permission_denied, download_failed, Download, fetched, broken, Installed,
  asset_candidates, find_asset, verify_release_checksum, smoke_test_binary, copy_file, copy_bytes,
  swap, swap_unix, backed_up, tested, downloaded, temp_path, install_release, give_up, swap_failed,
  backup_failed, remove, write, move,
}
use remotecmd_cli.Update.Verified.{IsVerified, verify-IsDigested, smoke_lem}

-- With an error the program is what it was. Without one it is a verified file, and the backup is what the
-- program was.
abbrev pub Sound : Machine → Release → String → Files → Files → Option InstallError → Type 0
Sound mach rel exe before after (some e) = after exe ≡ before exe
Sound mach rel exe before after none =
    (bytes : List ℕ) × IsVerified mach rel bytes
    × (after exe ≡ some bytes)
    × (after (exe ⧺ ".bak") ≡ before exe)

unfoldable pub IsSound : Machine → Release → String → Files → Installed → Type 0
IsSound mach rel exe before r = Sound mach rel exe before r.files r.error

-- The paths that are used beside the program's differ from it and from each other.
unfoldable pub AreApart : String → String → Type 0
AreApart exe tmp =
    ((tmp == exe) ≡ false)
    × (((exe ⧺ ".bak") == exe) ≡ false)
    × ((((exe ⧺ ".bak") ⧺ ".tmp") == exe) ≡ false)
    × ((((exe ⧺ ".bak") ⧺ ".tmp") == tmp) ≡ false)
    × (((exe ⧺ ".bak") == tmp) ≡ false)
    × ((tmp == (exe ⧺ ".bak")) ≡ false)
    × ((((exe ⧺ ".bak") ⧺ ".tmp") == (exe ⧺ ".bak")) ≡ false)
    × ((exe == (exe ⧺ ".bak")) ≡ false)

give_up-IsSound :
    (mach : Machine) (rel : Release) (exe tmp : String) (before : Files) (e : InstallError)
    (fs : Files)
    → AreApart exe tmp
    → fs exe ≡ before exe
    → IsSound mach rel exe before (give_up tmp e fs)
unfolding IsSound AreApart
give_up-IsSound mach rel exe tmp before e fs apart same = ground (arith, apart, same)

module _ (mach : Machine) (rel : Release) (exe tmp : String) (before : Files) (bytes : List ℕ)
    (unix : (mach.os == "windows") ≡ false) (apart : AreApart exe tmp)
    (verified : IsVerified mach rel bytes) where
  abbrev Ends : Installed → Type 0
  Ends r = IsSound mach rel exe before r

  swap-Ends :
      (fs : Files)
      → fs exe ≡ before exe
      → fs tmp ≡ some bytes
      → fs (exe ⧺ ".bak") ≡ before exe
      → Ends (swap_unix mach exe tmp fs)
  unfolding IsSound AreApart
  swap-Ends fs same there backed = elim (Option-cases (mach.rename_error tmp exe)) [
    | inl moves ↦
        rw (moves, swap_unix)
          (bytes, verified, ground (arith, eq_refl exe, there), ground (arith, apart, backed))
    | inr (e, bad) ↦
        rw (bad, swap_unix) (give_up-IsSound mach rel exe tmp before (swap_failed e) fs apart same)
  ]

  copied-Ends :
      (fault : CopyFault) (old : List ℕ) (fs : Files)
      → before exe ≡ some old
      → fs exe ≡ before exe
      → fs tmp ≡ some bytes
      → Ends (swap mach exe tmp (copy_bytes fault old (exe ⧺ ".bak") fs))
  unfolding AreApart
  copied-Ends no_fault old fs was same there =
      rw (unix, swap)
        (swap-Ends
          (move ((exe ⧺ ".bak") ⧺ ".tmp") (exe ⧺ ".bak") (write ((exe ⧺ ".bak") ⧺ ".tmp") old fs))
          (ground (arith, apart, same)) (ground (arith, apart, there))
          (ground (arith, apart, was, eq_refl (exe ⧺ ".bak"), eq_refl ((exe ⧺ ".bak") ⧺ ".tmp"))))
  copied-Ends (cannot_open e) old fs was same there =
      give_up-IsSound mach rel exe tmp before (backup_failed e) fs apart same
  copied-Ends (cannot_write e) old fs was same there =
      give_up-IsSound mach rel exe tmp before (backup_failed e)
        (remove ((exe ⧺ ".bak") ⧺ ".tmp") fs) apart (ground (arith, apart, same))
  copied-Ends (cannot_rename e) old fs was same there =
      give_up-IsSound mach rel exe tmp before (backup_failed e)
        (write ((exe ⧺ ".bak") ⧺ ".tmp") old fs) apart (ground (arith, apart, same))

  backed_up-Ends :
      (fs : Files)
      → fs exe ≡ before exe
      → fs tmp ≡ some bytes
      → Ends (backed_up mach exe tmp none fs)
  unfolding copy_file
  backed_up-Ends fs same there = elim (Option-cases (fs exe)) [
    | inl gone ↦
        rw (gone, copy_file)
          (give_up-IsSound mach rel exe tmp before (backup_failed "no such file or directory") fs
            apart same)
    | inr (old, is) ↦
        rw (is, copy_file) (copied-Ends mach.copy_fault old fs (sym same ∙ is) same there)
  ]

module _ (mach : Machine) (rel : Release) (exe tmp : String) (a : Asset) (bytes : List ℕ)
    (fs : Files) (unix : (mach.os == "windows") ≡ false) (apart : AreApart exe tmp)
    (found : find_asset (asset_candidates mach.os mach.arch) rel.assets ≡ some a)
    (got : mach.download a.url ≡ fetched bytes) where
  -- The program, and the downloaded file, behind the download.
  kept : write tmp bytes fs exe ≡ fs exe
  unfolding AreApart
  kept = ground (arith, apart)

  there : write tmp bytes fs tmp ≡ some bytes
  there = ground (arith, eq_refl tmp)

  smoke_tested :
      verify_release_checksum mach rel (some bytes) a.name ≡ none
      → IsSound mach rel exe fs (tested mach exe tmp none (write tmp bytes fs))
  unfolding IsVerified
  smoke_tested valid = elim (Option-cases (smoke_test_binary mach (some bytes))) [
    | inl works ↦
        let (out, ran, fine) = smoke_lem mach bytes works in
        let digest = verify-IsDigested mach rel a.name bytes valid in
        rw (there, works, tested)
          (backed_up-Ends mach rel exe tmp fs bytes unix apart
            (a, out, found, got, digest, ran, fine) (write tmp bytes fs) kept there)
    | inr (e, bad) ↦
        rw (there, bad, tested)
          (give_up-IsSound mach rel exe tmp fs e (write tmp bytes fs) apart kept)
  ]

  fetched-IsSound : IsSound mach rel exe fs (downloaded mach rel exe tmp a (fetched bytes) fs)
  fetched-IsSound = elim (Option-cases (verify_release_checksum mach rel (some bytes) a.name)) [
    | inl valid ↦ rw (there, valid, downloaded) (smoke_tested valid)
    | inr (e, bad) ↦
        rw (there, bad, downloaded)
          (give_up-IsSound mach rel exe tmp fs e (write tmp bytes fs) apart kept)
  ]

downloaded-IsSound :
    (mach : Machine) (rel : Release) (exe tmp : String) (a : Asset) (d : Download) (fs : Files)
    → (mach.os == "windows") ≡ false
    → AreApart exe tmp
    → find_asset (asset_candidates mach.os mach.arch) rel.assets ≡ some a
    → mach.download a.url ≡ d
    → IsSound mach rel exe fs (downloaded mach rel exe tmp a d fs)
unfolding AreApart
downloaded-IsSound mach rel exe tmp a (fetched bytes) fs unix apart found got =
    fetched-IsSound mach rel exe tmp a bytes fs unix apart found got
downloaded-IsSound mach rel exe tmp a (broken part denied e) fs unix apart found got =
    give_up-IsSound mach rel exe tmp fs (if denied then permission_denied e else download_failed e)
      (write tmp part fs) apart (ground (arith, apart))

-- The theorem of Update/Safety, for paths that differ.
pub install_at_paths :
    (mach : Machine) (rel : Release) (stem ext : String) (fs : Files)
    → (mach.os == "windows") ≡ false
    → AreApart (stem ⧺ ext) (temp_path mach stem ext)
    → IsSound mach rel (stem ⧺ ext) fs (install_release mach rel stem ext fs)
unfolding install_release IsSound
install_at_paths mach rel stem ext fs unix apart =
    elim (Option-cases (find_asset (asset_candidates mach.os mach.arch) rel.assets)) [
      | inl missing ↦ rw (missing, install_release) refl
      | inr (a, found) ↦
          rw (found, install_release)
            (downloaded-IsSound mach rel (stem ⧺ ext) (temp_path mach stem ext) a
              (mach.download a.url) fs unix apart found refl)
    ]
