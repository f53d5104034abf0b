-- ===== src/Mcp/Eras.antt =====
-- The two protocols that the MCP server serves: which lines decide on them, and which do not depend on
-- them (mcp.go).
use remotecmd_cli.Prelude.{
  ◌≡◌, refl, ap, String, Bool, true, false, not, ◌||◌, ◌&&◌, Option, none, some, List, [], ◌∷◌,
  arith, ◌==◌, apart, any, Bool-cases, Option-cases, inl, inr,
}
use remotecmd_cli.Mcp.Json.{Codec, Request}
use remotecmd_cli.Mcp.Tools.{Host}
use remotecmd_cli.Mcp.Server.{
  McpSession, handle_line, handle_mcp_request, handle_real, handle_operation, handle_tool_call,
  parse_meta, validate_modern_request, set_legacy,
}

-- The session that lines leave.
unfoldable pub session_after : Codec → String → List (Host × String) → McpSession → McpSession
session_after codec version [] s = s
session_after codec version ((host, line) ∷ rest) s =
    session_after codec version rest (handle_line codec version host line s).session

abbrev asks_legacy : Option Request → Bool
asks_legacy none = false
asks_legacy (some req) = req.method == "initialize"

-- The line is an initialize request, with an identifier or without.
unfoldable pub opens_legacy : Codec → Host × String → Bool
opens_legacy codec (host, line) =
    not (codec.trim line == "") && asks_legacy (codec.decode_request (codec.trim line))

module _ (codec : Codec) (version : String) (host : Host) where
  operation_session :
      (req : Request) (legacy : Bool) (s : McpSession)
      → (handle_operation codec version host req legacy s).session ≡ s
  unfolding handle_operation handle_tool_call
  operation_session req legacy s = elim (Option-cases (codec.decode_call req.params)) [
    | inl bad ↦ ground (arith, bad)
    | inr (call, ok) ↦ ground (arith, ok)
  ]

  real_session :
      (req : Request) (s : McpSession) → (handle_real codec version host req s).session ≡ s
  unfolding handle_real
  real_session req s = elim (Option-cases (validate_modern_request (parse_meta codec req.params))) [
    | inl ok ↦ ground (arith, ok, operation_session req true s, operation_session req false s)
    | inr (e, bad) ↦ ground (arith, bad, operation_session req true s)
  ]

  request_session :
      (req : Request) (s : McpSession)
      → (handle_mcp_request codec version host req s).session.legacy
        ≡ (req.method == "initialize" || s.legacy)
  unfolding handle_mcp_request set_legacy
  request_session req s = elim (Bool-cases (req.method == "initialize")) [
    | inl hello ↦ ground (arith, hello, apart req.method "initialize" "server/discover" refl hello)
    | inr other ↦ ground (arith, other, ap (λ t. t.legacy) (real_session req s))
  ]

  line_session :
      (line : String) (s : McpSession)
      → (handle_line codec version host line s).session.legacy
        ≡ (opens_legacy codec (host, line) || s.legacy)
  unfolding handle_line opens_legacy
  line_session line s = elim (Option-cases (codec.decode_request (codec.trim line))) [
    | inl bad ↦ ground (arith, bad)
    | inr (req, ok) ↦ ground (arith, ok, request_session req s)
  ]

-- The server serves the legacy protocol after some lines exactly if it did before, or if one of the lines
-- is an initialize request, whatever other lines there are.
pub session_after-legacy :
    (codec : Codec) (version : String) (lines : List (Host × String)) (s : McpSession)
    → (session_after codec version lines s).legacy ≡ (any (opens_legacy codec) lines || s.legacy)
unfolding session_after
session_after-legacy codec version [] s = refl
session_after-legacy codec version ((host, line) ∷ rest) s = ground (
  arith,
  line_session codec version host line s,
  session_after-legacy codec version rest (handle_line codec version host line s).session,
)
