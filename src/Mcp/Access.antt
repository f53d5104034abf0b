-- ===== src/Mcp/Access.antt =====
-- Of which requests the MCP server runs its tools (mcp.go).
use remotecmd_cli.Prelude.{
  ◌≡◌, refl, subst, ◌⊎◌, String, Bool, true, false, not, ◌&&◌, Option, none, some, List, [], arith,
  ◌==◌, eq_iff, Option-cases, if_cases, inl, inr,
}
use remotecmd_cli.Relay.Client.{Packet}
use remotecmd_cli.Mcp.Json.{Codec, Request, RequestMeta}
use remotecmd_cli.Mcp.Tools.{Host}
use remotecmd_cli.Mcp.Server.{
  McpSession, RpcError, mcp_protocol_version, Handled, checked, handle_mcp_request, handle_real,
  handle_operation, handle_tool_call, is_modern, parse_meta, validate_modern_request,
}
use remotecmd_cli.Mcp.Grants.{IsOneRequest, AreGranted, execute_mcp_tool-AreGranted}

-- A request of the modern protocol: it brings the version that is served, and the client's capabilities.
unfoldable pub IsModernRequest : Option RequestMeta → Type 0
IsModernRequest o =
    (meta : RequestMeta) × (o ≡ some meta)
    × (meta.protocol_version ≡ mcp_protocol_version)
    × ((meta.client_capabilities == "") ≡ false)

-- The server may run tools for the request: the server is in its legacy state and the request names no
-- version, or the request is one of the modern protocol.
unfoldable pub IsAllowed : Codec → Request → McpSession → Type 0
IsAllowed codec req s =
    ((s.legacy ≡ true) × (is_modern (parse_meta codec req.params) ≡ false))
    ⊎ IsModernRequest (parse_meta codec req.params)

validate-IsModernRequest :
    (o : Option RequestMeta) → validate_modern_request o ≡ none → IsModernRequest o
unfolding IsModernRequest validate_modern_request
validate-IsModernRequest none valid = ground (arith, valid)
validate-IsModernRequest (some meta) valid = (
  meta,
  refl,
  ground (arith, valid, eq_iff meta.protocol_version mcp_protocol_version),
  ground (arith, valid),
)

-- Nothing was sent, or the request is an allowed call of a tool, for which one request was sent.
unfoldable pub IsWarranted : Codec → Host → Request → McpSession → List Packet → Type 0
IsWarranted codec host req s sent =
    (sent ≡ []) ⊎ ((IsAllowed codec req s × (req.method ≡ "tools/call")) × IsOneRequest host sent)

module _ (codec : Codec) (host : Host) where
  abbrev Warranted : Request → McpSession → Handled → Type 0
  Warranted req s h = IsWarranted codec host req s h.sent

  call-Warranted :
      (version : String) (req : Request) (legacy : Bool) (s t : McpSession)
      → IsAllowed codec req t
      → req.method ≡ "tools/call"
      → Warranted req t (handle_tool_call codec version host req legacy s)
  unfolding handle_tool_call IsWarranted AreGranted
  call-Warranted version req legacy s t allowed called =
      elim (Option-cases (codec.decode_call req.params)) [
        | inl bad ↦ inl (ground (arith, bad))
        | inr (call, ok) ↦ elim (execute_mcp_tool-AreGranted codec host call.name call.arguments) [
          | inl quiet ↦ inl (ground (arith, ok, quiet))
          | inr one ↦ inr ((allowed, called), subst (IsOneRequest host) (ground (arith, ok)) one)
        ]
      ]

  operation-Warranted :
      (version : String) (req : Request) (legacy : Bool) (s t : McpSession)
      → IsAllowed codec req t
      → Warranted req t (handle_operation codec version host req legacy s)
  unfolding handle_operation IsWarranted
  operation-Warranted version req legacy s t allowed =
      if_cases (Warranted req t) (req.method == "tools/list") _ _ (λ e. inl refl)
        (λ e.
          if_cases (Warranted req t) (req.method == "tools/call") _ _
            (λ e.
              call-Warranted version req legacy s t allowed
                (ground (arith, e, eq_iff req.method "tools/call")))
            (λ e. inl refl))

  checked-Warranted :
      (version : String) (req : Request) (s : McpSession) (e : Option RpcError)
      → validate_modern_request (parse_meta codec req.params) ≡ e
      → Warranted req s (checked codec version host req s e)
  unfolding IsWarranted IsAllowed
  checked-Warranted version req s none ok =
      operation-Warranted version req false s s
        (inr (validate-IsModernRequest (parse_meta codec req.params) ok))
  checked-Warranted version req s (some e) bad = inl refl

  real-Warranted :
      (version : String) (req : Request) (s : McpSession)
      → Warranted req s (handle_real codec version host req s)
  unfolding handle_real IsAllowed
  real-Warranted version req s =
      if_cases (Warranted req s) (s.legacy && not (is_modern (parse_meta codec req.params))) _ _
        (λ e. operation-Warranted version req true s s (inl (ground (arith, e), ground (arith, e))))
        (λ e. checked-Warranted version req s _ refl)

-- A request makes the server write to the relay only if it is a call of a tool and either the server is
-- in its legacy state and the request names no version, or the request brings the version that is served
-- and the client's capabilities. And then it writes one message, a command for a target of the
-- configuration under that target's token, or exactly the frames that one transfer of a file that is
-- there writes for a target of the configuration.
pub handle_mcp_request-IsWarranted :
    (codec : Codec) (version : String) (host : Host) (req : Request) (s : McpSession)
    → IsWarranted codec host req s (handle_mcp_request codec version host req s).sent
unfolding handle_mcp_request IsWarranted
handle_mcp_request-IsWarranted codec version host req s =
    if_cases (Warranted codec host req s) (req.method == "server/discover") _ _ (λ e. inl refl)
      (λ e.
        if_cases (Warranted codec host req s) (req.method == "initialize") _ _ (λ e. inl refl)
          (λ e.
            if_cases (Warranted codec host req s) (req.method == "notifications/initialized") _ _
              (λ e. inl refl)
              (λ e.
                if_cases (Warranted codec host req s) (req.method == "ping") _ _ (λ e. inl refl)
                  (λ e. real-Warranted codec host version req s))))
