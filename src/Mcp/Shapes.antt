-- ===== src/Mcp/Shapes.antt =====
-- The shape of the MCP server's results in its two protocols (mcp.go).
use remotecmd_cli.Prelude.{
  ◌≡◌, refl, String, Bool, true, false, not, ◌||◌, ◌&&◌, Option, none, some, arith, ◌==◌, apart,
  if◌then◌else◌, Bool-cases, Option-cases, inl, inr,
}
use remotecmd_cli.Mcp.Json.{Json, string, Members, no_members, member, Codec, Request}
use remotecmd_cli.Mcp.Tools.{Host, ToolRun, execute_mcp_tool}
use remotecmd_cli.Mcp.Server.{
  McpSession, Response, Body, result, error, handle_mcp_request, handle_real, handle_operation,
  handle_tool_call, is_modern, parse_meta, validate_modern_request, complete_result, tool_reply,
}

-- fields[key]
abbrev lookup : Members → String → Option Json
lookup no_members key = none
lookup (member name j rest) key =
    let later = lookup rest key in if name == key then some j else later

abbrev type_in : Body → Option Json
type_in (result fields) = lookup fields "resultType"
type_in (error e) = none

-- The resultType that a response shows.
abbrev pub result_type : Option Response → Option Json
result_type none = none
result_type (some r) = type_in r.body

abbrev is_result : Body → Bool
is_result (result fields) = true
is_result (error e) = false

abbrev pub has_result : Option Response → Bool
has_result none = false
has_result (some r) = is_result r.body

-- The request is served by the legacy protocol.
unfoldable pub is_served_legacy : Codec → Request → McpSession → Bool
is_served_legacy codec req s =
    req.method == "initialize"
    || req.method == "ping"
    || (not (req.method == "server/discover")
        && s.legacy
        && not (is_modern (parse_meta codec req.params)))

-- The resultType that is due to a response.
abbrev pub due_type : Bool → Option Response → Option Json
due_type legacy reply = if has_result reply && not legacy then some (string "complete") else none

module _ (codec : Codec) (version : String) (host : Host) where
  tool_type :
      (req : Request) (legacy : Bool) (s : McpSession) (run : ToolRun)
      → result_type (tool_reply codec version req legacy s run).reply
        ≡ due_type legacy (tool_reply codec version req legacy s run).reply
  unfolding complete_result
  tool_type req true s run = refl
  tool_type req false s run = refl

  call_type :
      (req : Request) (legacy : Bool) (s : McpSession)
      → result_type (handle_tool_call codec version host req legacy s).reply
        ≡ due_type legacy (handle_tool_call codec version host req legacy s).reply
  unfolding handle_tool_call
  call_type req legacy s = elim (Option-cases (codec.decode_call req.params)) [
    | inl bad ↦ rw (bad, handle_tool_call) refl
    | inr (call, ok) ↦
        rw (ok, handle_tool_call)
          (tool_type req legacy s (execute_mcp_tool codec host call.name call.arguments))
  ]

  operation_type :
      (req : Request) (legacy : Bool) (s : McpSession)
      → result_type (handle_operation codec version host req legacy s).reply
        ≡ due_type legacy (handle_operation codec version host req legacy s).reply
  unfolding handle_operation complete_result
  operation_type req true s = ground (arith, call_type req true s)
  operation_type req false s = ground (arith, call_type req false s)

  real_type :
      (req : Request) (s : McpSession)
      → result_type (handle_real codec version host req s).reply
        ≡ due_type
            (s.legacy && not (is_modern (parse_meta codec req.params)))
            (handle_real codec version host req s).reply
  unfolding handle_real
  real_type req s = elim (Option-cases (validate_modern_request (parse_meta codec req.params))) [
    | inl ok ↦ ground (arith, ok, operation_type req true s, operation_type req false s)
    | inr (e, bad) ↦ ground (arith, bad, operation_type req true s)
  ]

  -- A result has the type "complete" exactly where the request is served by the modern protocol; where it
  -- is served by the legacy one, and in a response that is an error, there is no type. Served by the
  -- legacy protocol are initialize and ping always, server/discover never, and anything else exactly if
  -- the server is in its legacy state and the request does not name the protocol's version.
  pub handle_mcp_request-result_type :
      (req : Request) (s : McpSession)
      → result_type (handle_mcp_request codec version host req s).reply
        ≡ due_type
            (is_served_legacy codec req s)
            (handle_mcp_request codec version host req s).reply
  unfolding handle_mcp_request is_served_legacy complete_result
  handle_mcp_request-result_type req s = elim (Bool-cases (req.method == "server/discover")) [
    | inl found ↦ ground (
      arith,
      found,
      apart req.method "server/discover" "initialize" refl found,
      apart req.method "server/discover" "ping" refl found,
    )
    | inr other ↦ ground (arith, other, real_type req s)
  ]
