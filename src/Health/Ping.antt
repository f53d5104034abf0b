-- ===== src/Health/Ping.antt =====
-- The probing of targets (pingTargets and probeDaemonVersions in health.go), in one or two round trips over
-- the relay.
pub mod Attribution
pub mod Verdicts
pub mod Shared
use remotecmd_cli.Prelude.{
  ℕ, String, Bool, true, false, not, ◌&&◌, ◌||◌, Option, none, some, List, [], ◌∷◌, ◌==◌,
  if◌then◌else◌,
}
use remotecmd_cli.Prelude.Int.{ℤ, pos}
use remotecmd_cli.Dict
use remotecmd_cli.Dict.{Dict}
use remotecmd_cli.Protocol.{Message, message, header, Header, Results, no_results, result}
use remotecmd_cli.Config.{Config}
use remotecmd_cli.Client.{
  Link, ClientError, Try, done, failed, Exchange, Resolved, resolve_relay_targets, multi_exec_raw,
}
use remotecmd_cli.Version.Reported.{parse_daemon_version}
use remotecmd_cli.Health.{TargetHealth, no_health, Cache, health_of}

-- What pingTargets finds: the time, the milliseconds that the first round takes, the configuration at
-- each of its readings, the connection of each round; and the text of an error, and strings.TrimSpace.
pub record Probe : Type 0 where
  pub now : ℕ
  pub elapsed : ℤ
  pub resolve_config : Try Config
  pub ping_config : Try Config
  pub ping_link : Link
  pub version_config : Try Config
  pub version_link : Link
  pub error_text : ClientError → String
  pub trim : String → String

abbrev pub ping_cmd : String
ping_cmd = "hostname"

abbrev pub ping_timeout : ℤ
ping_timeout = pos 8

abbrev pub daemon_version_probe : String
daemon_version_probe = "/proc/$PPID/exe version"

-- The entry of a target that could not be asked.
abbrev pub down_with : ℕ → String → TargetHealth
down_with now e = record no_health { last_check = some now; status = "down"; error = e }

-- The loop that gives all targets the same entry.
unfoldable pub all_down : TargetHealth → List String → Cache
all_down h [] = Dict.empty
all_down h (alias ∷ aliases) = Dict.put (all_down h aliases) alias h

-- The loop that makes aliasByRelay, with the map so far.
unfoldable pub alias_by_relay : List String → List String → Dict String → Dict String
alias_by_relay (alias ∷ aliases) (name ∷ names) m =
    alias_by_relay aliases names (Dict.put m name alias)
alias_by_relay _ _ m = m

abbrev or_empty : Option String → String
or_empty none = ""
or_empty (some s) = s

-- aliasByRelay[relayName]
abbrev pub alias_of : Dict String → String → String
alias_of m name = or_empty (Dict.get m name)

-- msg.Results[relayName]
unfoldable pub find_result : Results → String → Option Message
find_result no_results name = none
find_result (result t m rest) name =
    let later = find_result rest name in if t == name then some m else later

abbrev pub results_of : Message → Results
results_of (message h r) = r

abbrev pub is_ok : Option Bool → Bool
is_ok none = false
is_ok (some b) = b

abbrev pub up_with : Probe → Header → TargetHealth
up_with p h = record {
  last_check = some p.now;
  last_seen = some p.now;
  status = "up";
  hostname = p.trim h.stdout;
  latency_ms = p.elapsed;
  error = "";
  version = h.daemon_version;
}

-- What an answer of the relay, or the lack of one, says of a target.
unfoldable pub verdict : Probe → Option Message → TargetHealth
verdict p none = record (down_with p.now "no result from relay") { latency_ms = p.elapsed }
verdict p (some m) =
    if is_ok (header m).ok
    then up_with p (header m)
    else record (down_with p.now (header m).error) { latency_ms = p.elapsed }

-- The loop over the answers, with the entries so far.
unfoldable pub record_verdicts : Probe → Dict String → Results → List String → Cache → Cache
unfolding verdict find_result
record_verdicts p aliases answers [] c = c
record_verdicts p aliases answers (name ∷ names) c =
    record_verdicts p aliases answers names
      (Dict.put c (alias_of aliases name) (verdict p (find_result answers name)))

-- The first loop of probeDaemonVersions.
unfoldable pub needing_version : Cache → Dict String → List String → List String
needing_version c aliases [] = []
needing_version c aliases (name ∷ names) =
    let rest = needing_version c aliases names in
    let h = health_of c (alias_of aliases name) in
    if h.status == "up" && h.version == "" then name ∷ rest else rest

abbrev pub with_version : Cache → String → String → Cache
with_version c alias v =
    if v == "" then c else Dict.put c alias (record (health_of c alias) { version = v })

abbrev pub version_from : Cache → String → Option Message → Cache
version_from c alias none = c
version_from c alias (some m) =
    if is_ok (header m).ok then with_version c alias (parse_daemon_version (header m).stdout) else c

-- The second loop of probeDaemonVersions.
unfoldable pub record_versions : Dict String → Results → List String → Cache → Cache
unfolding find_result
record_versions aliases answers [] c = c
record_versions aliases answers (name ∷ names) c =
    record_versions aliases answers names
      (version_from c (alias_of aliases name) (find_result answers name))

abbrev pub versions_answered : Dict String → List String → Cache → Try Message → Cache
versions_answered aliases need c (failed e) = c
versions_answered aliases need c (done m) = record_versions aliases (results_of m) need c

-- probeDaemonVersions behind its first loop.
abbrev pub ask_versions : Probe → Resolved → Dict String → List String → Cache → Cache
ask_versions p r aliases [] c = c
ask_versions p r aliases (name ∷ names) c =
    versions_answered aliases (name ∷ names) c
      (multi_exec_raw p.version_config p.version_link (record r { names = name ∷ names })
        daemon_version_probe ping_timeout).returned

-- probeDaemonVersions
unfoldable pub probe_daemon_versions : Probe → Resolved → Dict String → Cache → Cache
unfolding needing_version record_versions
probe_daemon_versions p r aliases c = ask_versions p r aliases (needing_version c aliases r.names) c

abbrev pub pinged : Probe → List String → Resolved → Try Message → Cache
pinged p targets r (failed e) = all_down (down_with p.now (p.error_text e)) targets
pinged p targets r (done m) =
    let aliases = alias_by_relay targets r.names Dict.empty in
    probe_daemon_versions p r aliases (record_verdicts p aliases (results_of m) r.names Dict.empty)

abbrev pub ping_resolved : Probe → List String → Try Resolved → Cache
ping_resolved p targets (failed e) = all_down (down_with p.now (p.error_text e)) targets
ping_resolved p targets (done r) =
    pinged p targets r (multi_exec_raw p.ping_config p.ping_link r ping_cmd ping_timeout).returned

-- pingTargets. Without targets there is no entry, and nothing is asked.
unfoldable pub ping_targets : Probe → List String → Cache
unfolding all_down alias_by_relay record_verdicts probe_daemon_versions
ping_targets p [] = Dict.empty
ping_targets p (t ∷ ts) = ping_resolved p (t ∷ ts) (resolve_relay_targets p.resolve_config (t ∷ ts))
