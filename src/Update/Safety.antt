-- ===== src/Update/Safety.antt =====
-- An update fails closed (installRelease in update.go).
use remotecmd_cli.Prelude.{◌≡◌, sym, subst, String, ◌⧺◌, false, ◌==◌}
use remotecmd_cli.Update.{Release, Files, Machine, temp_path, install_release}
use remotecmd_cli.Update.Swap.{AreApart, IsSound, install_at_paths}
use remotecmd_cli.Update.Paths.{append_none, paths-AreApart}

-- The update fails closed, where a running file can be replaced: whatever the network gives, and wherever
-- the disk fails, installRelease either reports an error and the program is what it was, or reports none,
-- and then the program is a file of the release for this platform whose SHA-256 is the one that the
-- release's checksums name for it and whose `version` command works, and the backup holds what the
-- program was.
pub install_release-IsSound :
    (mach : Machine) (rel : Release) (exe : String) (fs : Files)
    → (mach.os == "windows") ≡ false
    → IsSound mach rel exe fs (install_release mach rel exe "" fs)
install_release-IsSound mach rel exe fs unix =
    let whole = append_none exe in
    let apart =
      subst (λ p. AreApart p (temp_path mach exe "")) (sym whole)
        (paths-AreApart exe (mach.pid ⧺ "")) in
    subst (λ p. IsSound mach rel p fs (install_release mach rel exe "" fs)) whole
      (install_at_paths mach rel exe "" fs unix apart)
