-- ===== src/Examples/Clients.antt =====
-- The theorems on the one-shot client, the health cache and the reported versions, on small values.
use Prim.Native.Char.{Char}
use remotecmd_cli.Prelude.{
  ◌≡◌, refl, any, ◌∙◌, true, false, ◌||◌, none, some, List, [], ◌∷◌, arith, ◌==◌, eq_iff,
  if◌then◌else◌,
}
use remotecmd_cli.Prelude.Chars.{text_of}
use remotecmd_cli.Prelude.Int.{pos}
use remotecmd_cli.Dict
use remotecmd_cli.Dict.{Dict, get-put, get-put_self}
use remotecmd_cli.Protocol.{Message, message, blank, flat, no_results, result, Results, ok_result}
use remotecmd_cli.Config.{Config, TargetConfig}
use remotecmd_cli.Client.{
  Link, done, targets_failed, silent, arrives, Resolved, resolve_all, resolve_relay_targets,
  multi_exec_raw, exchange, multi_reply,
}
use remotecmd_cli.Client.Replies.{IsOpen}
use remotecmd_cli.Client.Exec.{Command, handle_exec_with_stdin}
use remotecmd_cli.Client.Exec.Output.{IsAnswered, IsSeen, handle_exec_with_stdin-IsSeen}
use remotecmd_cli.Client.Multi.{handle_multi_exec}
use remotecmd_cli.Client.Multi.Outcome.{all_ok, handle_multi_exec-error}
use remotecmd_cli.Health.Table.Layout.{IsLaidOut}
use remotecmd_cli.Health.Listing.{
  Printer, health_rows, header_row, print_health_table, print_health_table-IsLaidOut,
}
use remotecmd_cli.Health.Ping.{Probe, ping_targets, results_of, ping_cmd, ping_timeout}
use remotecmd_cli.Health.Ping.Attribution.{distinct}
use remotecmd_cli.Health.Ping.Verdicts.{AreJudged, ping_targets-AreJudged}
use remotecmd_cli.Health.Ping.Shared.{ping_targets-shared}
use remotecmd_cli.Version.{version_numbers}
use remotecmd_cli.Version.Reported.{is_space, has_numbers, parse_daemon_version}
use remotecmd_cli.Version.Reported.Reading.{version_output, parse_daemon_version-version_output}

-- Two aliases of the target "app", and the target "db".
abbrev known : Dict TargetConfig
known =
    Dict.put
      (Dict.put (Dict.put Dict.empty "db" (record { token = "t1"; relay_name = "" })) "app-b"
        (record { token = "t2"; relay_name = "app" }))
      "app-a" (record { token = "t2"; relay_name = "app" })

abbrev laptop : Config
laptop = record {
  relay = record { url = "ws://relay"; name = "relay"; secret = "" };
  targets = known;
  groups = Dict.empty;
}

abbrev app : TargetConfig
app = record { token = "t2"; relay_name = "app" }

abbrev chunk : Message
chunk =
    flat (record blank { kind = "stream_chunk"; id = "r1"; stream_name = "stdout"; payload = "hi" })

abbrev hi_answer : Message
hi_answer =
    flat (record blank { kind = "result"; id = "r1"; stdout = "hi"; daemon_version = "2.6.0" })

abbrev exec_link : Link
exec_link = record {
  dial_error = none;
  new_id = "r1";
  write_error = none;
  answers = λ m. arrives chunk (arrives hi_answer silent);
}

abbrev say_hi : Command
say_hi = record {
  target = "app-a";
  cmd = "echo hi";
  timeout = pos 30;
  stream = false;
  stdin_data = [];
}

hi-IsAnswered : IsAnswered (λ bytes. "") laptop exec_link say_hi (chunk ∷ []) hi_answer
unfolding IsAnswered IsOpen
hi-IsAnswered =
    (app, silent, (refl, refl, refl), get-put_self _ "app-a" app, refl, refl, refl, refl, refl)

handle_exec_with_stdin-IsSeen_example :
    IsSeen
      (some Dict.empty)
      "r1"
      say_hi
      (chunk ∷ [])
      hi_answer
      (handle_exec_with_stdin (λ bytes. "") (done laptop) exec_link (some Dict.empty) say_hi)
handle_exec_with_stdin-IsSeen_example =
    handle_exec_with_stdin-IsSeen (λ bytes. "") laptop exec_link (some Dict.empty) say_hi
      (chunk ∷ []) hi_answer hi-IsAnswered

abbrev answers : Results
answers = result "app" (ok_result "2.6.0" "1" "host-a" "" (pos 0) (pos 3)) no_results

abbrev report : Message
report = message (record blank { kind = "multi_result"; id = "r1" }) answers

abbrev multi_link : Link
multi_link = record {
  dial_error = none;
  new_id = "r1";
  write_error = none;
  answers = λ m. arrives report silent;
}

abbrev two : Resolved
two = record {
  names = "app" ∷ "db" ∷ [];
  tokens = Dict.put (Dict.put Dict.empty "app" "t2") "db" "t1";
}

app-a_known : Dict.get known "app-a" ≡ some app
app-a_known = get-put_self _ "app-a" app

app-b_known : Dict.get known "app-b" ≡ some app
app-b_known = get-put _ "app-a" "app-b" app ∙ get-put_self _ "app-b" app

abbrev db : TargetConfig
db = record { token = "t1"; relay_name = "" }

db-known : Dict.get known "db" ≡ some db
db-known = get-put _ "app-a" "db" app ∙ get-put _ "app-b" "db" app ∙ get-put_self Dict.empty "db" db

two-resolved : resolve_relay_targets (done laptop) ("app-a" ∷ "db" ∷ []) ≡ done two
unfolding resolve_relay_targets resolve_all
two-resolved = ground (arith, app-a_known, db-known)

report-arrives :
    (r : Resolved)
    → (multi_exec_raw (done laptop) multi_link r ping_cmd ping_timeout).returned ≡ done report
unfolding multi_exec_raw exchange multi_reply
report-arrives r = refl

handle_multi_exec-error_example :
    (handle_multi_exec
      (done laptop)
      (done laptop)
      multi_link
      none
      ("app-a" ∷ "db" ∷ [])
      "hostname"
      (pos 8)
      "json").error
    ≡ (if "json" == "json" || all_ok (results_of report) two.names
        then none
        else some targets_failed)
handle_multi_exec-error_example =
    handle_multi_exec-error (done laptop) (done laptop) multi_link none ("app-a" ∷ "db" ∷ [])
      "hostname" (pos 8) two report two-resolved (report-arrives two) "json"

abbrev probe : Probe
probe = record {
  now = 1000;
  elapsed = pos 12;
  resolve_config = done laptop;
  ping_config = done laptop;
  ping_link = multi_link;
  version_config = done laptop;
  version_link = multi_link;
  error_text = λ e. "error";
  trim = λ s. s;
}

two-apart : distinct two.names ≡ true
unfolding distinct
two-apart = refl

aliases-apart : distinct ("app-a" ∷ "db" ∷ []) ≡ true
unfolding distinct
aliases-apart = refl

ping_targets-AreJudged_example :
    AreJudged probe
      (results_of report)
      (ping_targets probe ("app-a" ∷ "db" ∷ []))
      ("app-a" ∷ "db" ∷ [])
      two.names
ping_targets-AreJudged_example =
    ping_targets-AreJudged probe "app-a" ("db" ∷ []) two report two-resolved (report-arrives two)
      two-apart aliases-apart

abbrev one_twice : Resolved
one_twice = record {
  names = "app" ∷ "app" ∷ [];
  tokens = Dict.put (Dict.put Dict.empty "app" "t2") "app" "t2";
}

one_twice-resolved : resolve_relay_targets (done laptop) ("app-a" ∷ "app-b" ∷ []) ≡ done one_twice
unfolding resolve_relay_targets resolve_all
one_twice-resolved = ground (arith, app-a_known, app-b_known)

ping_targets-shared_example : Dict.get (ping_targets probe ("app-a" ∷ "app-b" ∷ [])) "app-a" ≡ none
ping_targets-shared_example =
    ping_targets-shared probe "app-a" "app-b" "app" one_twice report one_twice-resolved refl
      (report-arrives one_twice) (λ e. ground (arith, (eq_iff "app-a" "app-b").1 e))
      (λ e. ground (arith, (eq_iff "app-a" "").1 e))

abbrev printer : Printer
printer = record { decimal = λ n. "5"; current = "2.7.0"; now = 1000 }

print_health_table-IsLaidOut_example :
    IsLaidOut
      (header_row ∷ health_rows printer known Dict.empty ("app-a" ∷ "db" ∷ []))
      (print_health_table printer known Dict.empty ("app-a" ∷ "db" ∷ []))
print_health_table-IsLaidOut_example =
    print_health_table-IsLaidOut printer known Dict.empty "app-a" ("db" ∷ [])

abbrev v_2_6_0 : List Char
v_2_6_0 = "2" ∷ "." ∷ "6" ∷ "." ∷ "0" ∷ []

plain : any is_space v_2_6_0 ≡ false
plain = refl

numbered : has_numbers v_2_6_0 ≡ true
unfolding version_numbers
numbered = refl

parse_daemon_version-version_output_example :
    parse_daemon_version (text_of (version_output v_2_6_0)) ≡ text_of v_2_6_0
parse_daemon_version-version_output_example =
    parse_daemon_version-version_output v_2_6_0 plain numbered
