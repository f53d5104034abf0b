-- ===== src/Examples/Updates.antt =====
-- The theorem on updates, on one release.
use remotecmd_cli.Prelude.{refl, String, ◌⧺◌, none, some, [], ◌∷◌, ◌==◌, if◌then◌else◌}
use remotecmd_cli.Update.{Release, Machine, Files, fetched, no_fault, install_release}
use remotecmd_cli.Update.Swap.{IsSound}
use remotecmd_cli.Update.Safety.{install_release-IsSound}

abbrev release : Release
release = record {
  tag = "v2.7.0";
  assets =
      record { name = "checksums.txt"; url = "https://sums" }
      ∷ record { name = "remotecmd-cli-linux-amd64"; url = "https://file" }
      ∷ [];
}

abbrev digest : String
digest = "0123456789abcdef0123456789abcdef0123456789abcdef0123456789abcdef"

abbrev machine : Machine
machine = record {
  os = "linux";
  arch = "amd64";
  pid = "42";
  download = λ url. fetched (7 ∷ 7 ∷ []);
  checksums = λ url. some (digest ⧺ "  remotecmd-cli-linux-amd64\n");
  lower = λ s. s;
  sha256 = λ bytes. digest;
  run_version = λ bytes. some "remotecmd-cli version 2.7.0\n";
  copy_fault = no_fault;
  rename_error = λ src dst. none;
}

abbrev disk : Files
disk path = if path == "/usr/local/bin/rcmd" then some (1 ∷ []) else none

install_release-IsSound_example :
    IsSound machine release "/usr/local/bin/rcmd" disk
      (install_release machine release "/usr/local/bin/rcmd" "" disk)
install_release-IsSound_example =
    install_release-IsSound machine release "/usr/local/bin/rcmd" disk refl
