-- ===== src/Health/Ping/Verdicts.antt =====
-- Which targets pingTargets gives an entry, and what the entry says (health.go).
use remotecmd_cli.Prelude.{
  ℕ, suc, ◌≡◌, refl, sym, ap, subst, ◌∙◌, String, true, Option, none, some, List, [], ◌∷◌, arith,
  ◌==◌, eq_iff, length, Bool-cases, Option-cases, inl, inr,
}
use remotecmd_cli.Dict
use remotecmd_cli.Dict.{Dict, get-put, get-put_self}
use remotecmd_cli.Protocol.{Message, header, Results}
use remotecmd_cli.Config.{Config}
use remotecmd_cli.Client.{
  Try, done, failed, Resolved, resolve_all, resolve_relay_targets, multi_exec_raw, relay_target,
  with_name,
}
use remotecmd_cli.Health.{TargetHealth, Cache, health_of}
use remotecmd_cli.Health.Ping.{
  Probe, alias_by_relay, alias_of, find_result, results_of, verdict, record_verdicts, is_ok,
  with_version, version_from, record_versions, ask_versions, versions_answered, needing_version,
  probe_daemon_versions, pinged, ping_resolved, ping_targets, ping_cmd, ping_timeout,
  daemon_version_probe,
}
use remotecmd_cli.Health.Ping.Attribution.{
  distinct, Written, alias_by_relay-Matches, record_verdicts-Written,
}
use remotecmd_cli.Version.Reported.{parse_daemon_version}

-- The entries say the same, but for the version.
unfoldable pub IsLike : TargetHealth → TargetHealth → Type 0
IsLike h v =
    (h.status ≡ v.status)
    × (h.hostname ≡ v.hostname)
    × (h.error ≡ v.error)
    × (h.last_check ≡ v.last_check)
    × (h.last_seen ≡ v.last_seen)
    × (h.latency_ms ≡ v.latency_ms)

-- The cache has an entry like this one for the target.
unfoldable pub Holds : Cache → String → TargetHealth → Type 0
Holds c alias v = (h : TargetHealth) × (Dict.get c alias ≡ some h) × IsLike h v

-- Each target has the entry that the answer under its relay name gives it.
unfoldable pub AreJudged : Probe → Results → Cache → List String → List String → Type 0
AreJudged p answers c [] names = Unit
AreJudged p answers c (t ∷ ts) [] = ⊥
AreJudged p answers c (t ∷ ts) (n ∷ ns) =
    Holds c t (verdict p (find_result answers n)) × AreJudged p answers c ts ns

-- What version probing may do to a cache: entries stay, but for their versions.
abbrev Keeps : Cache → Cache → Type 0
Keeps c c' = (alias : String) (v : TargetHealth) → Holds c alias v → Holds c' alias v

with_version-Keeps : (c : Cache) (alias v : String) → Keeps c (with_version c alias v)
unfolding Holds IsLike
with_version-Keeps c alias v other want (h, known, like) = elim (Bool-cases (v == "")) [
  | inl blank ↦ (h, ground (arith, blank, known), like)
  | inr full ↦
      let put = get-put c alias other (record (health_of c alias) { version = v }) in
      elim (Bool-cases (alias == other)) [
        | inl same ↦
            let there : Dict.get c alias ≡ some h =
              ap (Dict.get c) ((eq_iff alias other).0 same) ∙ known in
            let old : health_of c alias ≡ h = ground (arith, there) in
            let new = ap {A = TargetHealth} (λ x. some (record x { version = v })) old in
            (record h { version = v }, ground (arith, full, put, same, new), like)
        | inr differ ↦ (h, ground (arith, full, put, differ, known), like)
      ]
]

version_from-Keeps :
    (c : Cache) (alias : String) (o : Option Message) → Keeps c (version_from c alias o)
version_from-Keeps c alias none other want held = held
version_from-Keeps c alias (some a) other want held = elim (Bool-cases (is_ok (header a).ok)) [
  | inl ok ↦
      rw (ok, version_from)
        (with_version-Keeps c alias (parse_daemon_version (header a).stdout) other want held)
  | inr bad ↦ rw (bad, version_from) held
]

record_versions-Keeps :
    (m : Dict String) (answers : Results) (ns : List String) (c : Cache)
    → Keeps c (record_versions m answers ns c)
unfolding record_versions
record_versions-Keeps m answers [] c other want held = held
record_versions-Keeps m answers (n ∷ ns) c other want held =
    record_versions-Keeps m answers ns (version_from c (alias_of m n) (find_result answers n)) other
      want (version_from-Keeps c (alias_of m n) (find_result answers n) other want held)

versions_answered-Keeps :
    (m : Dict String) (need : List String) (c : Cache) (answer : Try Message)
    → Keeps c (versions_answered m need c answer)
versions_answered-Keeps m need c (failed e) other want held = held
versions_answered-Keeps m need c (done a) other want held =
    record_versions-Keeps m (results_of a) need c other want held

ask_versions-Keeps :
    (p : Probe) (r : Resolved) (m : Dict String) (need : List String) (c : Cache)
    → Keeps c (ask_versions p r m need c)
ask_versions-Keeps p r m [] c other want held = held
ask_versions-Keeps p r m (n ∷ ns) c other want held =
    versions_answered-Keeps m (n ∷ ns) c
      (multi_exec_raw p.version_config p.version_link (record r { names = n ∷ ns })
        daemon_version_probe ping_timeout).returned
      other want held

-- What was written before is judged afterwards.
keep_all :
    (p : Probe) (answers : Results) (c c' : Cache) (ts ns : List String)
    → Keeps c c'
    → Written p answers c ts ns
    → AreJudged p answers c' ts ns
unfolding AreJudged Holds IsLike
keep_all p answers c c' [] ns k h = _
keep_all p answers c c' (t ∷ ts) [] k h = h
keep_all p answers c c' (t ∷ ts) (n ∷ ns) k (e, h) =
    let v = verdict p (find_result answers n) in
    (k t v (v, e, (refl, refl, refl, refl, refl, refl)), keep_all p answers c c' ts ns k h)

with_name-length :
    (name : String) (t : Try Resolved) (n : ℕ) (r : Resolved)
    → ((s : Resolved) → t ≡ done s → length s.names ≡ n)
    → with_name name t ≡ done r
    → length r.names ≡ suc n
with_name-length name (failed e) n r h same = ground (arith, same)
with_name-length name (done s) n r h same = ground (arith, same, h s refl)

resolve_all-length :
    (cfg : Config) (ts : List String) (tokens : Dict String) (r : Resolved)
    → resolve_all cfg ts tokens ≡ done r
    → length r.names ≡ length ts
unfolding resolve_all
resolve_all-length cfg [] tokens r e = ground (arith, e)
resolve_all-length cfg (t ∷ ts) tokens r e = elim (Option-cases (Dict.get cfg.targets t)) [
  | inl missing ↦ ground (arith, missing, e)
  | inr (tgt, known) ↦
      let next = Dict.put tokens (relay_target t tgt) tgt.token in
      with_name-length (relay_target t tgt) (resolve_all cfg ts next) (length ts) r
        (resolve_all-length cfg ts next) (ground (arith, known, e))
]

resolve-length :
    (t : Try Config) (ts : List String) (r : Resolved)
    → resolve_relay_targets t ts ≡ done r
    → length r.names ≡ length ts
unfolding resolve_relay_targets
resolve-length (failed e) ts r h = ground (arith, h)
resolve-length (done cfg) ts r h = resolve_all-length cfg ts Dict.empty r (ground (arith, h))

-- What pingTargets returns where the relay answers the first round.
pub pinged_lem :
    (p : Probe) (t : String) (ts : List String) (r : Resolved) (m : Message)
    → resolve_relay_targets p.resolve_config (t ∷ ts) ≡ done r
    → (multi_exec_raw p.ping_config p.ping_link r ping_cmd ping_timeout).returned ≡ done m
    → ping_targets p (t ∷ ts) ≡ pinged p (t ∷ ts) r (done m)
unfolding ping_targets
pinged_lem p t ts r m resolved answered =
    ap (ping_resolved p (t ∷ ts)) resolved ∙ ap (pinged p (t ∷ ts) r) answered

-- Where the targets are configured, no two of them have one name at the relay, none is named twice, and the
-- relay answers, each of them gets the entry that the answer under its relay name says: that it is up,
-- with its host name, or that it is down, with the error, or that it is down because there is no answer.
-- Asking for the versions changes nothing of it but versions.
pub ping_targets-AreJudged :
    (p : Probe) (t : String) (ts : List String) (r : Resolved) (m : Message)
    → resolve_relay_targets p.resolve_config (t ∷ ts) ≡ done r
    → (multi_exec_raw p.ping_config p.ping_link r ping_cmd ping_timeout).returned ≡ done m
    → distinct r.names ≡ true
    → distinct (t ∷ ts) ≡ true
    → AreJudged p (results_of m) (ping_targets p (t ∷ ts)) (t ∷ ts) r.names
unfolding probe_daemon_versions
ping_targets-AreJudged p t ts r m resolved answered apart once =
    let all = t ∷ ts in
    let aliases = alias_by_relay all r.names Dict.empty in
    let found = record_verdicts p aliases (results_of m) r.names Dict.empty in
    let matches =
      alias_by_relay-Matches all r.names Dict.empty (resolve-length p.resolve_config all r resolved)
        apart in
    subst (λ c. AreJudged p (results_of m) c all r.names)
      (sym (pinged_lem p t ts r m resolved answered))
      (keep_all p (results_of m) found _ all r.names
        (ask_versions-Keeps p r aliases (needing_version found aliases r.names) found)
        (record_verdicts-Written p aliases (results_of m) all r.names Dict.empty matches once))
