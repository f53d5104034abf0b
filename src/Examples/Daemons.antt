-- ===== src/Examples/Daemons.antt =====
-- The theorems on the daemon's commands and retries, and on sessions.
use remotecmd_cli.Prelude.{
  ℕ, String, true, false, ◌≡◌, ◌≤◌, refl, none, some, [], ◌∷◌, length, arith, eq_iff,
}
use remotecmd_cli.Prelude.Int.{pos, ◌+ℤ◌}
use remotecmd_cli.Dict
use remotecmd_cli.Dict.{get-put_self}
use remotecmd_cli.Protocol.{Header, Message, blank, flat}
use remotecmd_cli.Config.{Config, TargetConfig}
use remotecmd_cli.Daemon.Commands.{System, Run, broken, running}
use remotecmd_cli.Daemon.Retry.{Round, Identity, pair_retry_loop}
use remotecmd_cli.Daemon.Expiry.{has_ended, IsSteady, pair_retry_loop_bound}
use remotecmd_cli.Session.{ClientSession, new_session, ask, waits, await, answered, read_message}
use remotecmd_cli.Session.Steps.{IsOrderly, fresh, next, asks, Reachable-IsOrderly}
use remotecmd_cli.Session.Waiting.{none_yet, other_reads, exec_answered}

abbrev killed : Run
killed = record { stdout = "a\n"; stderr = ""; exit = broken; timed_out = true; duration = pos 9 }

abbrev system : System
system = record {
  version = "2.7.0";
  decode_base64 = λ text. (some text, "");
  trim = λ text. text;
  show = λ n. "30";
  process = λ cmd stdin timeout. some killed;
  launch = λ cmd stdin timeout. running (("stdout", "a") ∷ []) (some killed);
}

abbrev sleep_command : Header
sleep_command = record blank { kind = "command"; id = "r1"; cmd = "sleep 99"; stream = true }

abbrev me : Identity
me = record { name = "n"; token = "t" }

abbrev quiet : ℕ → Round
quiet n = record { drift = pos 0; stop = false; code = "ABCD"; activation_key = "" }

pair_retry_loop_bound_example :
    (let out = pair_retry_loop 353 me quiet 0 (pos 0) in
      (has_ended out.end ≡ true) × (length out.sent ≤ 352))
unfolding IsSteady
pair_retry_loop_bound_example = pair_retry_loop_bound me quiet (pos 0) refl (λ n. refl)

-- Rounds that take no longer than their intervals send as many messages as the bound allows.
messages_of_a_day : length (pair_retry_loop 353 me quiet 0 (pos 0)).sent ≡ 352
unfolding pair_retry_loop ◌+ℤ◌
messages_of_a_day = refl

abbrev one_target : Config
one_target = record {
  relay = record { url = ""; name = ""; secret = "" };
  targets = Dict.put Dict.empty "web" (record { token = "t"; relay_name = "" });
  groups = Dict.empty;
}

abbrev begun : ClientSession
begun = (ask one_target "a" none "web" "ls" (pos 5) new_session).1

Reachable-IsOrderly_example : IsOrderly begun
Reachable-IsOrderly_example =
    Reachable-IsOrderly (next fresh (asks one_target "a" none "web" "ls" (pos 5) new_session))

abbrev reply : String → Message
reply id = flat (record blank { kind = "result"; id = id; ok = some true })

first_channel : (ask one_target "a" none "web" "ls" (pos 5) new_session).0 ≡ waits 0
unfolding ask new_session
first_channel =
    rw
      (
        get-put_self {V = TargetConfig} Dict.empty "web" (record { token = "t"; relay_name = "" }),
        ask,
      )
      refl

exec_answered_example :
    ((await "a" "web" 0 (read_message (reply "a") (read_message (reply "b") begun))).0
      ≡ answered (reply "a"))
    × (Dict.get (read_message (reply "a") (read_message (reply "b") begun)).pending "a" ≡ none)
exec_answered_example =
    exec_answered one_target "a" none "web" "ls" (pos 5) new_session
      (read_message (reply "b") begun) 0 (reply "a") fresh first_channel
      (other_reads (reply "b") (ground (arith, eq_iff "b" "a")) (none_yet begun)) refl
