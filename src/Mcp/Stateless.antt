-- ===== src/Mcp/Stateless.antt =====
-- What the MCP server answers to requests that name the protocol's version: nothing of it depends on the
-- requests before (mcp.go).
use remotecmd_cli.Prelude.{
  ◌≡◌, refl, ap, ◌∙◌, String, Bool, true, false, ◌||◌, ◌&&◌, Option, none, some, List, [], ◌∷◌,
  ◌++◌, arith, ◌==◌, Bool-cases, Option-cases, inl, inr,
}
use remotecmd_cli.Mcp.Json.{Codec, Request}
use remotecmd_cli.Mcp.Tools.{Host}
use remotecmd_cli.Mcp.Server.{
  McpSession, Response, handle_line, handle_mcp_request, handle_real, handle_operation,
  handle_tool_call, run_mcp_server, option_list, is_modern, parse_meta, validate_modern_request,
}

abbrev names_version : Codec → Option Request → Bool
names_version codec none = true
names_version codec (some req) = is_modern (parse_meta codec req.params)

-- The line is blank, no request, or a request that names the protocol's version.
unfoldable pub is_modern_line : Codec → Host × String → Bool
is_modern_line codec (host, line) =
    codec.trim line == "" || names_version codec (codec.decode_request (codec.trim line))

abbrev pub all : (Host × String → Bool) → List (Host × String) → Bool
all p [] = true
all p (x ∷ xs) = p x && all p xs

-- The responses to each line by itself, by a server that has just started.
unfoldable pub answered_alone : Codec → String → List (Host × String) → List Response
answered_alone codec version [] = []
answered_alone codec version ((host, line) ∷ rest) =
    option_list (handle_line codec version host line (record { legacy = false })).reply
    ++ answered_alone codec version rest

module _ (codec : Codec) (version : String) (host : Host) where
  operation_alike :
      (req : Request) (legacy : Bool) (s t : McpSession)
      → (handle_operation codec version host req legacy s).reply
        ≡ (handle_operation codec version host req legacy t).reply
  unfolding handle_operation handle_tool_call
  operation_alike req legacy s t = elim (Option-cases (codec.decode_call req.params)) [
    | inl bad ↦ ground (arith, bad)
    | inr (call, ok) ↦ ground (arith, ok)
  ]

  real_alike :
      (req : Request) (s t : McpSession)
      → is_modern (parse_meta codec req.params) ≡ true
      → (handle_real codec version host req s).reply ≡ (handle_real codec version host req t).reply
  unfolding handle_real
  real_alike req s t modern =
      elim (Option-cases (validate_modern_request (parse_meta codec req.params))) [
        | inl ok ↦ ground (arith, ok, modern, operation_alike req false s t)
        | inr (e, bad) ↦ ground (arith, bad, modern)
      ]

  request_alike :
      (req : Request) (s t : McpSession)
      → is_modern (parse_meta codec req.params) ≡ true
      → (handle_mcp_request codec version host req s).reply
        ≡ (handle_mcp_request codec version host req t).reply
  unfolding handle_mcp_request
  request_alike req s t modern = ground (arith, real_alike req s t modern)

  line_alike :
      (line : String) (s t : McpSession)
      → is_modern_line codec (host, line) ≡ true
      → (handle_line codec version host line s).reply
        ≡ (handle_line codec version host line t).reply
  unfolding handle_line is_modern_line
  line_alike line s t modern = elim (Option-cases (codec.decode_request (codec.trim line))) [
    | inl bad ↦ ground (arith, bad)
    | inr (req, ok) ↦ elim (Bool-cases (codec.trim line == "")) [
      | inl blank ↦ ground (arith, blank)
      | inr full ↦
          ground (arith, ok, full, request_alike req s t (ground (arith, ok, full, modern)))
    ]
  ]

-- To a client all of whose requests name the protocol's version, the server is stateless: whatever it
-- served before, its responses to lines are those that a new server gives to each line by itself.
pub run_mcp_server-answered_alone :
    (codec : Codec) (version : String) (lines : List (Host × String)) (s : McpSession)
    → all (is_modern_line codec) lines ≡ true
    → run_mcp_server codec version lines s ≡ answered_alone codec version lines
unfolding run_mcp_server answered_alone
run_mcp_server-answered_alone codec version [] s modern = refl
run_mcp_server-answered_alone codec version ((host, line) ∷ rest) s modern =
    let step = handle_line codec version host line s in
    ap (λ r. option_list r ++ run_mcp_server codec version rest step.session)
      (line_alike codec version host line s (record { legacy = false }) (ground (arith, modern)))
    ∙ ap
        (λ rs.
          option_list (handle_line codec version host line (record { legacy = false })).reply ++ rs)
        (run_mcp_server-answered_alone codec version rest step.session (ground (arith, modern)))
