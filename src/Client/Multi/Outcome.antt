-- ===== src/Client/Multi/Outcome.antt =====
-- When a command on many targets counts as failed (handleMultiExec in client.go).
use remotecmd_cli.Prelude.{
  ◌≡◌, refl, String, Bool, true, false, not, ◌&&◌, ◌||◌, Option, none, some, List, [], ◌∷◌, arith,
  ◌==◌, if◌then◌else◌,
}
use remotecmd_cli.Prelude.Int.{ℤ}
use remotecmd_cli.Protocol.{Message, Results, header}
use remotecmd_cli.Config.{Config}
use remotecmd_cli.Client.{
  Link, Try, done, targets_failed, Resolved, resolve_relay_targets, multi_exec_raw,
}
use remotecmd_cli.Health.{Cache}
use remotecmd_cli.Health.Ping.{find_result, results_of, is_ok}
use remotecmd_cli.Client.Multi.{table_of, fails, handle_multi_exec, presented}

-- The field is there, and true.
abbrev is_said : Option Bool → Bool
is_said (some true) = true
is_said _ = false

-- The answer is there and says that the command went well: its "ok" is there and true.
abbrev says_ok : Option Message → Bool
says_ok none = false
says_ok (some m) = is_said (header m).ok

-- Each name has an answer that says it went well.
unfoldable pub all_ok : Results → List String → Bool
all_ok answers [] = true
all_ok answers (n ∷ ns) = says_ok (find_result answers n) && all_ok answers ns

fails-says_ok : (o : Option Message) → fails o ≡ not (says_ok o)
fails-says_ok none = refl
fails-says_ok (some m) = said (header m).ok
  where
    said : (ok : Option Bool) → not (is_ok ok) ≡ not (is_said ok)
    said none = refl
    said (some true) = refl
    said (some false) = refl

table_of-any_failed :
    (answers : Results) (ns : List String)
    → (table_of answers ns).any_failed ≡ not (all_ok answers ns)
unfolding table_of all_ok
table_of-any_failed answers [] = refl
table_of-any_failed answers (n ∷ ns) =
    ground (arith, fails-says_ok (find_result answers n), table_of-any_failed answers ns)

module _ (config again : Try Config) (link : Link) (file : Option Cache) (targets : List String)
    (cmd : String) (timeout : ℤ) (r : Resolved) (m : Message)
    (resolved : resolve_relay_targets config targets ≡ done r)
    (answered : (multi_exec_raw again link r cmd timeout).returned ≡ done m) where
  answered_lem :
      (format : String)
      → (handle_multi_exec config again link file targets cmd timeout format).error
        ≡ (presented format r.names m).1
  unfolding handle_multi_exec
  answered_lem format = ground (arith, resolved, answered)

  -- Where the targets are configured and the relay answers, a command on many targets that is shown as
  -- a table ends with an error exactly if some target has no answer, or one whose "ok" is missing or
  -- false; one that is shown as JSON ends without an error, whatever the answers say.
  pub handle_multi_exec-error :
      (format : String)
      → (handle_multi_exec config again link file targets cmd timeout format).error
        ≡ (if format == "json" || all_ok (results_of m) r.names then none else some targets_failed)
  handle_multi_exec-error format =
      ground (arith, answered_lem format, table_of-any_failed (results_of m) r.names)
