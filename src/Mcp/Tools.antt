-- ===== src/Mcp/Tools.antt =====
-- The tools of the MCP server (mcp_tools.go): each is a function of what the tool finds on its host, and
-- gives the frames it wrote to the relay and the result for the client.
use remotecmd_cli.Prelude.{
  String, ◌⧺◌, Bool, true, false, not, ◌||◌, Option, none, some, List, [], ◌∷◌, map, ◌==◌, eqb,
  if◌then◌else◌,
}
use remotecmd_cli.Prelude.Int.{ℤ, pos, negsuc}
use remotecmd_cli.Dict
use remotecmd_cli.Dict.{entries}
use remotecmd_cli.Protocol.{Message, Header, header, blank, flat}
use remotecmd_cli.Relay.Client.{Packet, json}
use remotecmd_cli.Config.{Config, TargetConfig}
use remotecmd_cli.Client.{
  Link, ClientError, Try, done, failed, Exchange, send_to_relay, relay_target,
}
use remotecmd_cli.Mcp.Json.{
  Json, Items, boolean, number, string, array, object, no_items, item, no_members, member, Codec,
  decoded, malformed, ExecParams, CpParams,
}

-- A file transfer: the frames that it wrote to the relay, on all its connections, and its error.
pub record Transferred : Type 0 where
  pub frames : List Packet
  pub error : Option String

-- What a tool finds: loadConfig's result, the text of an error, the connection to the relay, os.Stat's
-- outcome for a path (true where the file is there), and what handleFileTransfer does for a target, a
-- source and a destination.
pub record Host : Type 0 where
  pub config : Try Config
  pub error_text : ClientError → String
  pub link : Link
  pub file_exists : String → Bool
  pub transfer : String → String → String → Transferred

-- MCPContent
pub record McpContent : Type 0 where
  pub kind : String
  pub text : String

-- MCPToolResult
pub record ToolResult : Type 0 where
  pub content : List McpContent
  pub is_error : Bool

-- What a tool returns: a result, or an error.
pub data ToolOutcome : Type 0 where
  returned : ToolResult → ToolOutcome
  rejected : String → ToolOutcome

pub record ToolRun : Type 0 where
  pub sent : List Packet
  pub outcome : ToolOutcome

unfoldable pub text_result : String → ToolResult
text_result s = record { content = record { kind = "text"; text = s } ∷ []; is_error = false }

unfoldable pub error_result : String → ToolResult
error_result s = record { content = record { kind = "text"; text = s } ∷ []; is_error = true }

unfoldable pub json_result : Codec → Json → ToolResult
unfolding text_result
json_result codec j = text_result (codec.indent j)

-- A tool that ends before it has a connection.
abbrev pub quiet : ToolOutcome → ToolRun
quiet o = record { sent = []; outcome = o }

abbrev pub reply : ToolResult → ToolRun
reply r = quiet (returned r)

abbrev pub load_error : Host → ClientError → ToolRun
load_error host e = reply (error_result ("Failed to load config: " ⧺ host.error_text e))

-- cfg, err := loadConfig(), with the tool's answer to an error.
abbrev pub with_config : Host → Try Config → (Config → ToolRun) → ToolRun
with_config host (failed e) rest = load_error host e
with_config host (done cfg) rest = rest cfg

-- The entry of a target in the list (targetInfo).
abbrev target_info : Config → String → TargetConfig → Json
target_info cfg name tgt = object (
    member "name" (string name) (
      member "relay" (string cfg.relay.url)
        (member "connected" (boolean (not (tgt.token == ""))) no_members)))

unfoldable pub target_infos : Config → List (String × TargetConfig) → Items
target_infos cfg [] = no_items
target_infos cfg ((name, tgt) ∷ rest) = item (target_info cfg name tgt) (target_infos cfg rest)

abbrev list_or_hint : Codec → Items → ToolResult
list_or_hint codec no_items =
    text_result "No targets configured. Add one with: rcmd add-target --name <n> --token <t>"
list_or_hint codec (item j rest) = json_result codec (array (item j rest))

-- mcpListTargets
unfoldable pub mcp_list_targets : Codec → Host → ToolRun
mcp_list_targets codec host =
    with_config host host.config
      (λ cfg. reply (list_or_hint codec (target_infos cfg (entries cfg.targets))))

abbrev pub is_zero : ℤ → Bool
is_zero (pos n) = eqb n 0
is_zero (negsuc n) = false

-- The request of a tool for a target.
abbrev pub tool_request : String → TargetConfig → String → ℤ → Message
tool_request alias tgt cmd timeout = flat (record blank {
  kind = "execute";
  target = relay_target alias tgt;
  token = tgt.token;
  cmd = cmd;
  timeout = timeout;
})

-- execResult
abbrev exec_json : Codec → ExecParams → Header → Json
exec_json codec p h = object (
    member "target" (string p.target) (
      member "command" (string p.command) (
        member "stdout" (string h.stdout) (
          member "stderr" (string h.stderr) (
            member "exit_code" (number h.exit_code) (
              member "duration" (string (codec.decimal h.duration_ms ⧺ "ms"))
                (member "success" (boolean (is_zero h.exit_code)) no_members)))))))

abbrev exec_answer : Codec → Host → ExecParams → Try Message → ToolResult
exec_answer codec host p (failed e) = error_result ("Failed to execute: " ⧺ host.error_text e)
exec_answer codec host p (done m) =
    if not ((header m).error == "")
    then error_result (header m).error
    else json_result codec (exec_json codec p (header m))

abbrev pub default_timeout : ℤ → ℤ
default_timeout t = if is_zero t then pos 30 else t

abbrev pub exec_sent : Codec → Host → ExecParams → Exchange Message → ToolRun
exec_sent codec host p x = record {
  sent = map json x.sent;
  outcome = returned (exec_answer codec host p x.returned);
}

abbrev pub tool_exec_on : Codec → Host → ExecParams → Config → ToolRun
tool_exec_on codec host p cfg = elim (Dict.get cfg.targets p.target) [
  | none ↦ reply (
      error_result (
        "Target "
        ⧺ codec.quote p.target
        ⧺ " not found. Use rcmd_list_targets to see available targets."))
  | some tgt ↦ exec_sent codec host p (
      send_to_relay cfg host.link (tool_request p.target tgt p.command (default_timeout p.timeout)))
]

abbrev pub tool_exec_with : Codec → Host → ExecParams → ToolRun
tool_exec_with codec host p =
    if p.target == "" || p.command == ""
    then quiet (rejected "target and command are required")
    else with_config host host.config (λ cfg. tool_exec_on codec host p cfg)

-- mcpExec
unfoldable pub mcp_exec : Codec → Host → String → ToolRun
mcp_exec codec host args = elim (codec.decode_exec args) [
  | malformed e ↦ quiet (rejected ("invalid arguments: " ⧺ e))
  | decoded p ↦ tool_exec_with codec host p
]

abbrev pub cp_done : Host → CpParams → Option String → ToolResult
cp_done host p (some e) = error_result ("Transfer failed: " ⧺ e)
cp_done host p none =
    text_result ("File copied: " ⧺ p.source ⧺ " → " ⧺ p.target ⧺ ":" ⧺ p.destination)

abbrev pub cp_sent : Host → CpParams → Transferred → ToolRun
cp_sent host p t = record { sent = t.frames; outcome = returned (cp_done host p t.error) }

abbrev pub cp_on : Codec → Host → CpParams → Config → ToolRun
cp_on codec host p cfg = elim (Dict.get cfg.targets p.target) [
  | none ↦ reply (error_result ("Target " ⧺ codec.quote p.target ⧺ " not found"))
  | some tgt ↦ cp_sent host p (host.transfer p.target p.source p.destination)
]

abbrev pub cp_with : Codec → Host → CpParams → ToolRun
cp_with codec host p =
    if p.target == "" || p.source == "" || p.destination == ""
    then quiet (rejected "target, source, and destination are required")
    else if not (host.file_exists p.source)
    then reply (error_result ("Source file not found: " ⧺ p.source))
    else with_config host host.config (λ cfg. cp_on codec host p cfg)

-- mcpCp
unfoldable pub mcp_cp : Codec → Host → String → ToolRun
mcp_cp codec host args = elim (codec.decode_cp args) [
  | malformed e ↦ quiet (rejected ("invalid arguments: " ⧺ e))
  | decoded p ↦ cp_with codec host p
]

-- The two healthResult types.
abbrev pub health_json : Codec → Host → String → Try Message → Json
health_json codec host target (failed e) = object (
    member "target" (string target)
      (member "healthy" (boolean false) (member "error" (string (host.error_text e)) no_members)))
health_json codec host target (done m) = object (
    member "target" (string target) (
      member "healthy" (boolean (is_zero (header m).exit_code)) (
        member "latency" (string (codec.decimal (header m).duration_ms ⧺ "ms"))
          (member "exit_code" (number (header m).exit_code) no_members))))

abbrev pub health_sent : Codec → Host → String → Exchange Message → ToolRun
health_sent codec host target x = record {
  sent = map json x.sent;
  outcome = returned (json_result codec (health_json codec host target x.returned));
}

abbrev pub health_on : Codec → Host → String → Config → ToolRun
health_on codec host target cfg = elim (Dict.get cfg.targets target) [
  | none ↦ reply (error_result ("Target " ⧺ codec.quote target ⧺ " not found"))
  | some tgt ↦
      health_sent codec host target
        (send_to_relay cfg host.link (tool_request target tgt "echo ok" (pos 5)))
]

abbrev pub health_with : Codec → Host → String → ToolRun
health_with codec host target =
    if target == ""
    then quiet (rejected "target is required")
    else with_config host host.config (λ cfg. health_on codec host target cfg)

-- mcpHealth
unfoldable pub mcp_health : Codec → Host → String → ToolRun
mcp_health codec host args = elim (codec.decode_health args) [
  | malformed e ↦ quiet (rejected ("invalid arguments: " ⧺ e))
  | decoded target ↦ health_with codec host target
]

-- executeMCPTool
unfoldable pub execute_mcp_tool : Codec → Host → String → String → ToolRun
execute_mcp_tool codec host name args =
    if name == "rcmd_list_targets"
    then mcp_list_targets codec host
    else if name == "rcmd_exec"
    then mcp_exec codec host args
    else if name == "rcmd_cp"
    then mcp_cp codec host args
    else if name == "rcmd_health"
    then mcp_health codec host args
    else quiet (rejected ("unknown tool: " ⧺ name))
