-- ===== src/Health.antt =====
-- The health cache (health.go) and the versions that it records (daemonversion.go). A time is a number of
-- nanoseconds, the zero time is `none`. The file of the cache is what loadHealthCache makes of it: `none`
-- where it cannot be read, and writing it succeeds. In a map of results no value is null.
pub mod Ping
pub mod Age
pub mod Table
pub mod Listing
use remotecmd_cli.Prelude.{
  ℕ, suc, ◌-◌, String, Bool, true, false, not, ◌&&◌, ◌||◌, Option, none, some, List, [], ◌∷◌, ◌==◌,
  ltb, is_none, if◌then◌else◌,
}
use remotecmd_cli.Prelude.Chars.{runes}
use remotecmd_cli.Prelude.Int.{ℤ, pos}
use remotecmd_cli.Dict
use remotecmd_cli.Dict.{Dict}
use remotecmd_cli.Version.{version_less}

-- TargetHealth
pub record TargetHealth : Type 0 where
  pub last_check : Option ℕ
  pub last_seen : Option ℕ
  pub status : String
  pub hostname : String
  pub latency_ms : ℤ
  pub error : String
  pub version : String

-- The zero value.
abbrev pub no_health : TargetHealth
no_health = record {
  last_check = none;
  last_seen = none;
  status = "";
  hostname = "";
  latency_ms = pos 0;
  error = "";
  version = "";
}

abbrev pub Cache : Type 0
Cache = Dict TargetHealth

abbrev or_none : Option TargetHealth → TargetHealth
or_none none = no_health
or_none (some h) = h

-- cache.Targets[alias]
abbrev pub health_of : Cache → String → TargetHealth
health_of c alias = or_none (Dict.get c alias)

-- knownDaemonVersion
unfoldable pub known_daemon_version : Option Cache → String → String
known_daemon_version none alias = ""
known_daemon_version (some c) alias = (health_of c alias).version

abbrev noted : Cache → String → String → Cache
noted c alias v = Dict.put c alias (record (health_of c alias) { version = v })

-- noteDaemonVersion
unfoldable pub note_daemon_version : String → String → Option Cache → Option Cache
note_daemon_version alias v none = none
note_daemon_version alias v (some c) =
    if alias == "" || v == "" || (health_of c alias).version == v
    then some c
    else some (noted c alias v)

-- minDaemonVersion
unfoldable pub min_daemon_version : String → String
min_daemon_version feature =
    if feature == "stdin" then "1.8.0" else if feature == "cp" then "1.8.0" else ""

-- The warning of warnIfDaemonTooOld, with what its text shows.
pub record Warning : Type 0 where
  pub alias : String
  pub version : String
  pub feature : String
  pub minimum : String
  pub consequence : String

-- warnIfDaemonTooOld; `none` where it prints nothing.
unfoldable pub warn_if_daemon_too_old : Option Cache → String → String → String → Option Warning
unfolding known_daemon_version min_daemon_version
warn_if_daemon_too_old file alias feature consequence =
    let minimum = min_daemon_version feature in
    let v = known_daemon_version file alias in
    if v == "" || minimum == "" || not (version_less (runes v) (runes minimum))
    then none
    else some (record {
      alias = alias;
      version = v;
      feature = feature;
      minimum = minimum;
      consequence = consequence;
    })

-- healthCheckInterval
abbrev pub health_check_interval : ℕ
health_check_interval = 3600000000000

abbrev pub is_old : ℕ → Option ℕ → Bool
is_old now none = true
is_old now (some checked) = ltb health_check_interval (now - checked)

-- The test of listTargetsSmart whether a target's entry is to be renewed.
unfoldable pub is_stale : ℕ → Cache → String → Bool
is_stale now c alias = is_none (Dict.get c alias) || is_old now (health_of c alias).last_check

-- The loop of listTargetsSmart that chooses the targets to probe.
unfoldable pub to_probe : Bool → ℕ → Cache → List String → List String
unfolding is_stale
to_probe refresh now c [] = []
to_probe refresh now c (alias ∷ aliases) =
    let rest = to_probe refresh now c aliases in
    if refresh || is_stale now c alias then alias ∷ rest else rest

abbrev keep_version : Cache → String → TargetHealth → TargetHealth
keep_version c alias h =
    if h.version == "" then record h { version = (health_of c alias).version } else h

-- The loop of listTargetsSmart that takes new entries into the cache.
unfoldable pub merge_fresh : List (String × TargetHealth) → Cache → Cache
merge_fresh [] c = c
merge_fresh ((alias, h) ∷ rest) c = merge_fresh rest (Dict.put c alias (keep_version c alias h))
