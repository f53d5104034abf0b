-- ===== src/Mcp/Server.antt =====
-- The requests of the MCP server and its loop over lines (mcp.go). The server has one piece of state,
-- whether it serves the legacy protocol. A step gives the response, where there is one, and what the
-- tools wrote to the relay. A line that is too long for the scanner, which ends the process, is left
-- out, and so is the lock.
use remotecmd_cli.Prelude.{
  String, ◌⧺◌, Bool, true, false, not, ◌&&◌, ◌||◌, Option, none, some, List, [], ◌∷◌, ◌++◌, ◌==◌,
  if◌then◌else◌,
}
use remotecmd_cli.Prelude.Int.{ℤ, pos, negate}
use remotecmd_cli.Relay.Client.{Packet}
use remotecmd_cli.Mcp.Json.{
  Json, Items, Members, null, boolean, number, string, array, object, no_items, item, no_members,
  member, strings, set, Codec, Request, RequestMeta,
}
use remotecmd_cli.Mcp.Tools.{
  Host, McpContent, ToolResult, ToolRun, ToolOutcome, returned, rejected, error_result,
  execute_mcp_tool,
}
use remotecmd_cli.Mcp.Listing.{mcp_tools, tools_json}

abbrev pub mcp_protocol_version : String
mcp_protocol_version = "2026-07-28"

abbrev pub mcp_legacy_fallback_version : String
mcp_legacy_fallback_version = "2024-11-05"

abbrev pub mcp_tools_cache_ttl_ms : ℤ
mcp_tools_cache_ttl_ms = pos 3600000

-- mcpSession
pub record McpSession : Type 0 where
  pub legacy : Bool

unfoldable pub set_legacy : McpSession → McpSession
set_legacy s = record s { legacy = true }

-- RPCError
pub record RpcError : Type 0 where
  pub code : ℤ
  pub message : String
  pub data_members : Members

-- What a JSONRPCResponse brings besides its identifier.
pub data Body : Type 0 where
  result : Members → Body
  error : RpcError → Body

-- JSONRPCResponse. The null of an identifier is left out when it is written.
pub record Response : Type 0 where
  pub id : Json
  pub body : Body

-- What handling a line leaves: the session, the response, and what was written to the relay.
pub record Handled : Type 0 where
  pub session : McpSession
  pub reply : Option Response
  pub sent : List Packet

abbrev rpc_error : ℤ → String → RpcError
rpc_error code text = record { code = code; message = text; data_members = no_members }

-- What parseMeta reads of a _meta that the request has.
abbrev meta_of : Codec → Option String → Option RequestMeta
meta_of codec none = none
meta_of codec (some raw) = if raw == "" then none else codec.decode_meta raw

-- parseMeta
unfoldable pub parse_meta : Codec → String → Option RequestMeta
parse_meta codec params = if params == "" then none else meta_of codec (codec.decode_wrapper params)

-- serverInfo, of the process's `Version`.
abbrev server_info : String → Json
server_info version =
    object (member "name" (string "rcmd") (member "version" (string version) no_members))

-- serverInfoMeta
abbrev server_info_meta : String → Json
server_info_meta version =
    object (member "io.modelcontextprotocol/serverInfo" (server_info version) no_members)

-- completeResult; the nil map is the empty one.
unfoldable pub complete_result : String → Members → Bool → Members
complete_result version fields legacy =
    if legacy
    then fields
    else set (set fields "resultType" (string "complete")) "_meta" (server_info_meta version)

-- parseID
unfoldable pub parse_id : Codec → String → Json
parse_id codec raw = if raw == "" then null else codec.decode_id raw

abbrev version_missing : RpcError
version_missing =
    rpc_error (negate 32602)
      "Invalid params: _meta['io.modelcontextprotocol/protocolVersion'] is required"

abbrev capabilities_missing : RpcError
capabilities_missing =
    rpc_error (negate 32602)
      "Invalid params: _meta['io.modelcontextprotocol/clientCapabilities'] is required"

abbrev version_unsupported : String → RpcError
version_unsupported requested = record {
  code = negate 32022;
  message = "Unsupported protocol version";
  data_members =
      member "supported" (array (strings (mcp_protocol_version ∷ [])))
        (member "requested" (string requested) no_members);
}

-- validateModernRequest; `none` is nil.
unfoldable pub validate_modern_request : Option RequestMeta → Option RpcError
validate_modern_request none = some version_missing
validate_modern_request (some meta) =
    if meta.protocol_version == ""
    then some version_missing
    else if not (meta.protocol_version == mcp_protocol_version)
    then some (version_unsupported meta.protocol_version)
    else if meta.client_capabilities == ""
    then some capabilities_missing
    else none

-- Whether a request brings the protocol's version.
unfoldable pub is_modern : Option RequestMeta → Bool
is_modern none = false
is_modern (some meta) = not (meta.protocol_version == "")

abbrev tools_capability : Json
tools_capability = object (member "tools" (object no_members) no_members)

abbrev instructions : String
instructions =
    "Execute commands, copy files and check health on remote machines through the rcmd relay — no SSH and no inbound ports. Access is scoped by the relay token: a token may be limited to specific targets and to read-only operations, and every action is recorded in the account's audit log."

abbrev cacheable : Members
cacheable =
    member "ttlMs" (number mcp_tools_cache_ttl_ms)
      (member "cacheScope" (string "public") no_members)

abbrev discovery : Members
discovery =
    member "supportedVersions" (array (strings (mcp_protocol_version ∷ []))) (
      member "capabilities" tools_capability
        (member "instructions" (string instructions) cacheable))

abbrev or_fallback : Option String → String
or_fallback none = mcp_legacy_fallback_version
or_fallback (some v) = if v == "" then mcp_legacy_fallback_version else v

-- The version that an initialize request names.
abbrev hello_version : Codec → String → String
hello_version codec params =
    if params == "" then mcp_legacy_fallback_version else or_fallback (codec.decode_hello params)

abbrev handshake : Codec → String → String → Members
handshake codec version params =
    member "protocolVersion" (string (hello_version codec params)) (
      member "capabilities" tools_capability (member "serverInfo" (server_info version) no_members))

abbrev content_items : List McpContent → Items
content_items [] = no_items
content_items (c ∷ cs) =
    item (object (member "type" (string c.kind) (member "text" (string c.text) no_members)))
      (content_items cs)

abbrev tool_members : ToolResult → Members
tool_members r =
    member "content" (array (content_items r.content))
      (member "isError" (boolean r.is_error) no_members)

abbrev outcome_result : ToolOutcome → ToolResult
outcome_result (returned r) = r
outcome_result (rejected e) = error_result e

-- A response to a request that leaves the session as it is and writes nothing to the relay.
abbrev reply_with : Codec → Request → McpSession → Body → Handled
reply_with codec req s body = record {
  session = s;
  reply = some (record { id = parse_id codec req.id; body = body });
  sent = [];
}

abbrev pub tool_reply : Codec → String → Request → Bool → McpSession → ToolRun → Handled
tool_reply codec version req legacy s ran = record {
  session = s;
  reply = some (record {
    id = parse_id codec req.id;
    body = result (complete_result version (tool_members (outcome_result ran.outcome)) legacy);
  });
  sent = ran.sent;
}

-- handleToolCall
unfoldable pub handle_tool_call : Codec → String → Host → Request → Bool → McpSession → Handled
unfolding complete_result
handle_tool_call codec version host req legacy s = elim (codec.decode_call req.params) [
  | none ↦ reply_with codec req s (error (rpc_error (negate 32602) "Invalid params"))
  | some call ↦
      tool_reply codec version req legacy s (execute_mcp_tool codec host call.name call.arguments)
]

-- The second switch of handleMCPRequest.
unfoldable pub handle_operation : Codec → String → Host → Request → Bool → McpSession → Handled
unfolding complete_result handle_tool_call
handle_operation codec version host req legacy s =
    if req.method == "tools/list"
    then reply_with codec req s (
        result (
          complete_result version (member "tools" (array (tools_json mcp_tools)) cacheable) legacy))
    else if req.method == "tools/call"
    then handle_tool_call codec version host req legacy s
    else reply_with codec req s
        (error (rpc_error (negate 32601) ("Method not found: " ⧺ req.method)))

abbrev pub checked : Codec → String → Host → Request → McpSession → Option RpcError → Handled
checked codec version host req s (some e) = reply_with codec req s (error e)
checked codec version host req s none = handle_operation codec version host req false s

-- The part of handleMCPRequest behind its first switch.
unfoldable pub handle_real : Codec → String → Host → Request → McpSession → Handled
unfolding validate_modern_request is_modern parse_meta
handle_real codec version host req s =
    if s.legacy && not (is_modern (parse_meta codec req.params))
    then handle_operation codec version host req true s
    else checked codec version host req s (validate_modern_request (parse_meta codec req.params))

-- handleMCPRequest
unfoldable pub handle_mcp_request : Codec → String → Host → Request → McpSession → Handled
unfolding complete_result set_legacy
handle_mcp_request codec version host req s =
    if req.method == "server/discover"
    then reply_with codec req s (result (complete_result version discovery false))
    else if req.method == "initialize"
    then reply_with codec req (set_legacy s) (result (handshake codec version req.params))
    else if req.method == "notifications/initialized"
    then record { session = s; reply = none; sent = [] }
    else if req.method == "ping"
    then reply_with codec req s (result no_members)
    else handle_real codec version host req s

-- No response is written to a request without an identifier.
abbrev pub is_notification : Request → Bool
is_notification req = req.id == "" || req.id == "null"

abbrev pub parse_error : Response
parse_error = record { id = null; body = error (rpc_error (negate 32700) "Parse error") }

abbrev unless_notification : Request → Handled → Handled
unless_notification req h = if is_notification req then record h { reply = none } else h

-- A round of the loop of runMCPServer, on a line and what its tool finds.
unfoldable pub handle_line : Codec → String → Host → String → McpSession → Handled
handle_line codec version host line s =
    if codec.trim line == ""
    then record { session = s; reply = none; sent = [] }
    else elim (codec.decode_request (codec.trim line)) [
      | none ↦ record { session = s; reply = some parse_error; sent = [] }
      | some req ↦ unless_notification req (handle_mcp_request codec version host req s)
    ]

abbrev pub option_list {ℓ} : {A : Type ℓ} → Option A → List A
option_list none = []
option_list (some a) = a ∷ []

-- runMCPServer: the responses to lines, in order.
unfoldable pub run_mcp_server : Codec → String → List (Host × String) → McpSession → List Response
unfolding handle_line
run_mcp_server codec version [] s = []
run_mcp_server codec version ((host, line) ∷ rest) s =
    let step = handle_line codec version host line s in
    option_list step.reply ++ run_mcp_server codec version rest step.session
