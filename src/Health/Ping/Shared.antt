-- ===== src/Health/Ping/Shared.antt =====
-- Two aliases of one target (health.go): pingTargets attributes the answer to one of them.
use remotecmd_cli.Prelude.{
  ◌≡◌, ◌≢◌, sym, ap, subst, ◌∙◌, String, false, Option, none, some, List, [], ◌∷◌, arith, ◌==◌,
  eq_iff,
}
use remotecmd_cli.Dict
use remotecmd_cli.Dict.{Dict, get-put, get-empty}
use remotecmd_cli.Protocol.{Message, header, Results}
use remotecmd_cli.Client.{Try, done, failed, Resolved, resolve_relay_targets, multi_exec_raw}
use remotecmd_cli.Health.{Cache, health_of}
use remotecmd_cli.Health.Ping.{
  Probe, alias_by_relay, alias_of, find_result, results_of, verdict, record_verdicts, with_version,
  version_from, record_versions, ask_versions, versions_answered, needing_version,
  probe_daemon_versions, ping_targets, ping_cmd, ping_timeout, daemon_version_probe,
}
use remotecmd_cli.Health.Ping.Verdicts.{pinged_lem}
use remotecmd_cli.Version.Reported.{parse_daemon_version}

-- No name leads to the alias.
abbrev Unnamed : Dict String → String → Type 0
Unnamed m alias = (name : String) → (alias_of m name == alias) ≡ false

module _ (m : Dict String) (alias : String) (unnamed : Unnamed m alias) where
  abbrev Absent : Cache → Type 0
  Absent c = Dict.get c alias ≡ none

  record_verdicts-Absent :
      (p : Probe) (answers : Results) (ns : List String) (c : Cache)
      → Absent c
      → Absent (record_verdicts p m answers ns c)
  unfolding record_verdicts
  record_verdicts-Absent p answers [] c h = h
  record_verdicts-Absent p answers (n ∷ ns) c h =
      let v = verdict p (find_result answers n) in
      record_verdicts-Absent p answers ns (Dict.put c (alias_of m n) v)
        (ground (arith, h, unnamed n, get-put c (alias_of m n) alias v))

  with_version-Absent :
      (c : Cache) (n v : String) → Absent c → Absent (with_version c (alias_of m n) v)
  with_version-Absent c n v h =
      let a = alias_of m n in
      ground (arith, h, unnamed n, get-put c a alias (record (health_of c a) { version = v }))

  version_from-Absent :
      (c : Cache) (n : String) (o : Option Message)
      → Absent c
      → Absent (version_from c (alias_of m n) o)
  version_from-Absent c n none h = h
  version_from-Absent c n (some a) h =
      ground (arith, h, with_version-Absent c n (parse_daemon_version (header a).stdout) h)

  record_versions-Absent :
      (answers : Results) (ns : List String) (c : Cache)
      → Absent c
      → Absent (record_versions m answers ns c)
  unfolding record_versions
  record_versions-Absent answers [] c h = h
  record_versions-Absent answers (n ∷ ns) c h =
      record_versions-Absent answers ns (version_from c (alias_of m n) (find_result answers n))
        (version_from-Absent c n (find_result answers n) h)

  versions_answered-Absent :
      (need : List String) (c : Cache) (answer : Try Message)
      → Absent c
      → Absent (versions_answered m need c answer)
  versions_answered-Absent need c (failed e) h = h
  versions_answered-Absent need c (done a) h = record_versions-Absent (results_of a) need c h

  ask_versions-Absent :
      (p : Probe) (r : Resolved) (need : List String) (c : Cache)
      → Absent c
      → Absent (ask_versions p r m need c)
  ask_versions-Absent p r [] c h = h
  ask_versions-Absent p r (n ∷ ns) c h =
      versions_answered-Absent (n ∷ ns) c
        (multi_exec_raw p.version_config p.version_link (record r { names = n ∷ ns })
          daemon_version_probe ping_timeout).returned
        h

shared-Unnamed :
    (a b name : String)
    → a ≢ b
    → a ≢ ""
    → Unnamed (alias_by_relay (a ∷ b ∷ []) (name ∷ name ∷ []) Dict.empty) a
unfolding alias_by_relay
shared-Unnamed a b name differ named other =
    let first = Dict.put Dict.empty name a in
    ground (
      arith,
      get-put first name other b,
      get-put Dict.empty name other a,
      get-empty {V = String} other,
      eq_iff b a,
      eq_iff "" a,
      differ,
      named,
    )

-- Of two aliases of one target, which the relay knows under one name, the first gets no entry from
-- pingTargets where the relay answers, whatever the answer is.
pub ping_targets-shared :
    (p : Probe) (a b name : String) (r : Resolved) (m : Message)
    → resolve_relay_targets p.resolve_config (a ∷ b ∷ []) ≡ done r
    → r.names ≡ name ∷ name ∷ []
    → (multi_exec_raw p.ping_config p.ping_link r ping_cmd ping_timeout).returned ≡ done m
    → a ≢ b
    → a ≢ ""
    → Dict.get (ping_targets p (a ∷ b ∷ [])) a ≡ none
unfolding probe_daemon_versions
ping_targets-shared p a b name r m resolved names answered differ named =
    let targets = a ∷ b ∷ [] in
    let aliases = alias_by_relay targets r.names Dict.empty in
    let unnamed : Unnamed aliases a =
      subst (λ ns. Unnamed (alias_by_relay targets ns Dict.empty) a) (sym names)
        (shared-Unnamed a b name differ named) in
    let found = record_verdicts p aliases (results_of m) r.names Dict.empty in
    ap (λ c. Dict.get c a) (pinged_lem p a (b ∷ []) r m resolved answered)
    ∙ ask_versions-Absent aliases a unnamed p r (needing_version found aliases r.names) found
        (record_verdicts-Absent aliases a unnamed p (results_of m) r.names Dict.empty (get-empty a))
