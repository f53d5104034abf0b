-- ===== src/Mcp/Replies.antt =====
-- Which lines the MCP server answers, and under which identifier (mcp.go).
use remotecmd_cli.Prelude.{
  ◌≡◌, refl, ap, ◌∙◌, String, Bool, true, false, ◌||◌, Option, none, some, List, [], ◌∷◌, ◌++◌,
  arith, ◌==◌, apart, if◌then◌else◌, Bool-cases, Option-cases, inl, inr,
}
use remotecmd_cli.Mcp.Json.{Json, null, Codec, Request}
use remotecmd_cli.Mcp.Tools.{Host}
use remotecmd_cli.Mcp.Server.{
  McpSession, Response, handle_line, handle_mcp_request, handle_real, handle_operation,
  handle_tool_call, run_mcp_server, parse_id, option_list, parse_meta, validate_modern_request,
}

abbrev pub id_of : Option Response → Option Json
id_of none = none
id_of (some r) = some r.id

abbrev pub ids : List Response → List Json
ids [] = []
ids (r ∷ rs) = r.id ∷ ids rs

abbrev request_id : Codec → Option Request → Option Json
request_id codec none = some null
request_id codec (some req) =
    if req.id == "" || req.id == "null" || req.method == "notifications/initialized"
    then none
    else some (codec.decode_id req.id)

-- The identifier that the response to a line is to have, if the line is to have one: what json.Unmarshal
-- makes of the request's own, and null for a line that is no request. The printed response leaves out null.
unfoldable pub expected_id : Codec → String → Option Json
expected_id codec line =
    if codec.trim line == ""
    then none
    else request_id codec (codec.decode_request (codec.trim line))

unfoldable pub expected_ids : Codec → List (Host × String) → List Json
expected_ids codec [] = []
expected_ids codec ((host, line) ∷ rest) =
    option_list (expected_id codec line) ++ expected_ids codec rest

module _ (codec : Codec) (version : String) (host : Host) where
  operation_id :
      (req : Request) (legacy : Bool) (s : McpSession)
      → id_of (handle_operation codec version host req legacy s).reply
        ≡ some (parse_id codec req.id)
  unfolding handle_operation handle_tool_call
  operation_id req legacy s = elim (Option-cases (codec.decode_call req.params)) [
    | inl bad ↦ ground (arith, bad)
    | inr (call, ok) ↦ ground (arith, ok)
  ]

  real_id :
      (req : Request) (s : McpSession)
      → id_of (handle_real codec version host req s).reply ≡ some (parse_id codec req.id)
  unfolding handle_real
  real_id req s = elim (Option-cases (validate_modern_request (parse_meta codec req.params))) [
    | inl valid ↦ ground (arith, valid, operation_id req true s, operation_id req false s)
    | inr (e, bad) ↦ ground (arith, bad, operation_id req true s)
  ]

  request_reply :
      (req : Request) (s : McpSession)
      → id_of (handle_mcp_request codec version host req s).reply
        ≡ (if req.method == "notifications/initialized" then none else some (parse_id codec req.id))
  unfolding handle_mcp_request
  request_reply req s = elim (Bool-cases (req.method == "notifications/initialized")) [
    | inl silent ↦ ground (
      arith,
      silent,
      apart req.method "notifications/initialized" "server/discover" refl silent,
      apart req.method "notifications/initialized" "initialize" refl silent,
    )
    | inr other ↦ ground (arith, other, real_id req s)
  ]

  line_reply :
      (line : String) (s : McpSession)
      → id_of (handle_line codec version host line s).reply ≡ expected_id codec line
  unfolding handle_line expected_id parse_id
  line_reply line s = elim (Option-cases (codec.decode_request (codec.trim line))) [
    | inl bad ↦ ground (arith, bad)
    | inr (req, ok) ↦ ground (arith, ok, request_reply req s)
  ]

ids-option_list :
    (r : Option Response) (rs : List Response)
    → ids (option_list r ++ rs) ≡ option_list (id_of r) ++ ids rs
ids-option_list none rs = refl
ids-option_list (some r) rs = refl

-- Whatever state the server is in, what it finds and what its tools do, its responses to lines of input
-- bear, in this order: for each line that is not blank and not a request, the null identifier; for each
-- request with an identifier other than null, what json.Unmarshal into an interface{} makes of that
-- identifier; nothing for a request without one, and nothing for "notifications/initialized".
pub run_mcp_server-expected_ids :
    (codec : Codec) (version : String) (lines : List (Host × String)) (s : McpSession)
    → ids (run_mcp_server codec version lines s) ≡ expected_ids codec lines
unfolding run_mcp_server expected_ids
run_mcp_server-expected_ids codec version [] s = refl
run_mcp_server-expected_ids codec version ((host, line) ∷ rest) s =
    let step = handle_line codec version host line s in
    ids-option_list step.reply (run_mcp_server codec version rest step.session)
    ∙ ap (λ o. option_list o ++ ids (run_mcp_server codec version rest step.session))
        (line_reply codec version host line s)
    ∙ ap (λ js. option_list (expected_id codec line) ++ js)
        (run_mcp_server-expected_ids codec version rest step.session)
