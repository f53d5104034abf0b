-- ===== src/Examples/Servers.antt =====
-- The theorems on the MCP server, on a small host and a few lines.
use remotecmd_cli.Prelude.{
  ◌≡◌, refl, String, true, false, ◌||◌, any, none, some, List, [], ◌∷◌, ◌==◌, if◌then◌else◌,
}
use remotecmd_cli.Prelude.Int.{pos}
use remotecmd_cli.Dict
use remotecmd_cli.Dict.{get-put_self}
use remotecmd_cli.Protocol.{err_result}
use remotecmd_cli.Config.{Config, TargetConfig}
use remotecmd_cli.Client.{silent, arrives, done}
use remotecmd_cli.Client.Replies.{IsOpen}
use remotecmd_cli.Mcp.Json.{Codec, Request, string, decoded, malformed}
use remotecmd_cli.Mcp.Tools.{Host, mcp_health, returned, json_result}
use remotecmd_cli.Mcp.Server.{McpSession, run_mcp_server, handle_mcp_request, is_modern, parse_meta}
use remotecmd_cli.Mcp.Replies.{ids, expected_ids, run_mcp_server-expected_ids}
use remotecmd_cli.Mcp.Eras.{session_after, opens_legacy, session_after-legacy}
use remotecmd_cli.Mcp.Stateless.{all, is_modern_line, answered_alone, run_mcp_server-answered_alone}
use remotecmd_cli.Relay.Client.{binary}
use remotecmd_cli.Mcp.Access.{IsWarranted, handle_mcp_request-IsWarranted}
use remotecmd_cli.Mcp.Shapes.{
  result_type, due_type, is_served_legacy, handle_mcp_request-result_type,
}
use remotecmd_cli.Mcp.Verdicts.{IsAnswered, health_report, mcp_health-err_result}

abbrev web : TargetConfig
web = record { token = "secret"; relay_name = "" }

abbrev desk : Config
desk = record {
  relay = record { url = "ws://relay"; name = "relay"; secret = "" };
  targets = Dict.put Dict.empty "web" web;
  groups = Dict.empty;
}

-- The relay says that the target is not connected.
abbrev host : Host
host = record {
  config = done desk;
  error_text = λ e. "error";
  link = record {
    dial_error = none;
    new_id = "r1";
    write_error = none;
    answers = λ m. arrives (err_result "r1" "target not connected: web") silent;
  };
  file_exists = λ path. true;
  transfer = λ target source destination. record { frames = binary (7 ∷ []) ∷ []; error = none };
}

abbrev hello : Request
hello = record { id = "1"; method = "initialize"; params = "" }

abbrev listing : Request
listing = record { id = "2"; method = "tools/list"; params = "modern" }

abbrev call : Request
call = record { id = "3"; method = "tools/call"; params = "modern" }

abbrev notice : Request
notice = record { id = ""; method = "notifications/initialized"; params = "" }

-- Lines are known by one word each.
abbrev codec : Codec
codec = record {
  trim = λ line. line;
  decode_request = λ line.
      if line == "hello"
      then some hello
      else if line == "list"
      then some listing
      else if line == "call"
      then some call
      else if line == "notice"
      then some notice
      else none;
  decode_id = λ raw. string raw;
  decode_wrapper = λ params. some params;
  decode_meta =
      λ raw. some (record { protocol_version = "2026-07-28"; client_capabilities = "{}" });
  decode_hello = λ params. none;
  decode_call = λ params. some (record { name = "rcmd_health"; arguments = "web" });
  decode_exec = λ args. malformed "no object";
  decode_cp = λ args. malformed "no object";
  decode_health = λ args. decoded args;
  indent = λ j. "{}";
  quote = λ s. s;
  decimal = λ n. "0";
}

abbrev fresh : McpSession
fresh = record { legacy = false }

abbrev session_lines : List (Host × String)
session_lines =
    (host, "hello") ∷ (host, "notice") ∷ (host, "") ∷ (host, "nonsense") ∷ (host, "list") ∷ []

run_mcp_server-expected_ids_example :
    ids (run_mcp_server codec "3.0.0" session_lines fresh) ≡ expected_ids codec session_lines
run_mcp_server-expected_ids_example = run_mcp_server-expected_ids codec "3.0.0" session_lines fresh

session_after-legacy_example :
    (session_after codec "3.0.0" session_lines fresh).legacy
    ≡ (any (opens_legacy codec) session_lines || fresh.legacy)
session_after-legacy_example = session_after-legacy codec "3.0.0" session_lines fresh

abbrev modern_lines : List (Host × String)
modern_lines = (host, "list") ∷ (host, "call") ∷ (host, "nonsense") ∷ []

modern_lines-modern : all (is_modern_line codec) modern_lines ≡ true
unfolding is_modern_line is_modern parse_meta
modern_lines-modern = refl

run_mcp_server-answered_alone_example :
    run_mcp_server codec "3.0.0" modern_lines (record { legacy = true })
    ≡ answered_alone codec "3.0.0" modern_lines
run_mcp_server-answered_alone_example =
    run_mcp_server-answered_alone codec "3.0.0" modern_lines (record { legacy = true })
      modern_lines-modern

handle_mcp_request-IsWarranted_example :
    IsWarranted codec host call fresh (handle_mcp_request codec "3.0.0" host call fresh).sent
handle_mcp_request-IsWarranted_example =
    handle_mcp_request-IsWarranted codec "3.0.0" host call fresh

handle_mcp_request-result_type_example :
    result_type (handle_mcp_request codec "3.0.0" host call fresh).reply
    ≡ due_type
        (is_served_legacy codec call fresh)
        (handle_mcp_request codec "3.0.0" host call fresh).reply
handle_mcp_request-result_type_example =
    handle_mcp_request-result_type codec "3.0.0" host call fresh

offline-IsAnswered : IsAnswered codec host "web" "web" (err_result "r1" "target not connected: web")
unfolding IsAnswered IsOpen err_result
offline-IsAnswered = (
  desk,
  web,
  [],
  silent,
  refl,
  refl,
  refl,
  get-put_self Dict.empty "web" web,
  (refl, refl, refl),
  refl,
  refl,
  refl,
)

mcp_health-err_result_example :
    (mcp_health codec host "web").outcome
    ≡ returned (json_result codec (health_report codec "web" true (pos 0) (pos 0)))
mcp_health-err_result_example =
    mcp_health-err_result codec host "web" "web" "target not connected: web" offline-IsAnswered
