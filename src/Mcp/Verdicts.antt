-- ===== src/Mcp/Verdicts.antt =====
-- What the MCP tool rcmd_health says of a target (mcp_tools.go), by what the relay answers.
use remotecmd_cli.Prelude.{◌≡◌, ap, String, ◌⧺◌, Bool, true, false, some, List, arith, ◌==◌}
use remotecmd_cli.Prelude.Int.{ℤ, pos}
use remotecmd_cli.Dict
use remotecmd_cli.Protocol.{Message, header, err_result}
use remotecmd_cli.Config.{Config, TargetConfig}
use remotecmd_cli.Client.{Inbox, arrives, done, with_id}
use remotecmd_cli.Client.Replies.{arriving, none_bears, IsOpen, send_to_relay-first}
use remotecmd_cli.Mcp.Json.{
  Codec, decoded, Json, object, member, string, boolean, number, no_members,
}
use remotecmd_cli.Mcp.Tools.{
  Host, returned, tool_request, health_on, health_json, mcp_health, json_result, with_config,
}

-- The report on a target that answered in time, with its exit code.
abbrev pub health_report : Codec → String → Bool → ℤ → ℤ → Json
health_report codec target healthy latency code = object (
    member "target" (string target) (
      member "healthy" (boolean healthy) (
        member "latency" (string (codec.decimal latency ⧺ "ms"))
          (member "exit_code" (number code) no_members))))

-- The answer to the request of rcmd_health for a target that is configured: `answer` is the first message
-- that comes back under its identifier.
unfoldable pub IsAnswered : Codec → Host → String → String → Message → Type 0
IsAnswered codec host args target answer =
    (cfg : Config) × (tgt : TargetConfig) × (before : List Message) × (after : Inbox)
    × (codec.decode_health args ≡ decoded target)
    × ((target == "") ≡ false)
    × (host.config ≡ done cfg)
    × (Dict.get cfg.targets target ≡ some tgt)
    × IsOpen cfg host.link
    × (host.link.answers (with_id host.link.new_id (tool_request target tgt "echo ok" (pos 5)))
        ≡ arriving before (arrives answer after))
    × (none_bears host.link.new_id before ≡ true)
    × ((header answer).id ≡ host.link.new_id)

answered_lem :
    (codec : Codec) (host : Host) (args target : String) (answer : Message)
    → IsAnswered codec host args target answer
    → (mcp_health codec host args).outcome
      ≡ returned (json_result codec (health_json codec host target (done answer)))
unfolding mcp_health IsAnswered
answered_lem codec host args target answer
      (cfg, tgt, before, after, read, named, loaded, known, ready, arrived, others, own) =
    let m = tool_request target tgt "echo ok" (pos 5) in
    let reply = send_to_relay-first cfg host.link m answer before after ready arrived others own in
    ground (
      arith,
      read,
      named,
      ap (λ t. (with_config host t (health_on codec host target)).outcome) loaded,
      known,
      ap (λ t. json_result codec (health_json codec host target t)) reply,
    )

-- The tool rcmd_health reports a refusal as health: where the first message under the request's identifier
-- is an error result, whatever its text (the target is not connected, the token is wrong), the report says
-- that the target is healthy, and does not show the error.
pub mcp_health-err_result :
    (codec : Codec) (host : Host) (args target text : String)
    → IsAnswered codec host args target (err_result host.link.new_id text)
    → (mcp_health codec host args).outcome
      ≡ returned (json_result codec (health_report codec target true (pos 0) (pos 0)))
unfolding err_result
mcp_health-err_result codec host args target text h =
    answered_lem codec host args target (err_result host.link.new_id text) h
