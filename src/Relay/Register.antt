-- ===== src/Relay/Register.antt =====
-- handleRegister of relay_handler.go. The first result says that the connection is to be closed.
use remotecmd_cli.Prelude.{
  ℕ, String, ◌⧺◌, Bool, true, false, not, ◌&&◌, ◌||◌, Option, none, some, ◌==◌, if◌then◌else◌,
}
use remotecmd_cli.Dict
use remotecmd_cli.Dict.{holds}
use remotecmd_cli.Protocol.{Header, blank, flat, error_message}
use remotecmd_cli.Relay.State.{Relay, World, send, set_conn, token_equal}

abbrev pub auth_required : String
auth_required = "authentication required: relay secret not provided"

-- rs.secretExempt[name]
unfoldable pub is_exempt : Relay → String → Bool
is_exempt s name = holds (λ b. b) (Dict.get s.secret_exempt name)

-- The connection takes the name and the token, and the name now leads to it.
unfoldable pub install : World → ℕ → Header → Relay → Relay
install w rc h s =
    let named = set_conn rc (record (s.conns rc) { name = h.name; token = h.token }) s in
    send w rc (flat (record blank { kind = "registered"; name = h.name }))
      (record named { clients = Dict.put s.clients h.name rc })

-- The stale holder is told that it is replaced, and loses the name.
unfoldable pub evict : World → ℕ → Header → Relay → Relay
evict w existing h s =
    let told = send w existing (error_message "replaced by new connection") s in
    record told { clients = Dict.remove s.clients h.name }

-- The part under the lock, by who holds the name.
unfoldable pub claim : World → ℕ → Header → Option ℕ → Relay → Bool × Relay
unfolding install evict
claim w rc h none s = (false, install w rc h s)
claim w rc h (some existing) s =
    if token_equal (s.conns existing).token h.token
    then (false, install w rc h (evict w existing h s))
    else (true, send w rc (error_message ("name already registered: " ⧺ h.name)) s)

-- handleRegister
unfoldable pub handle_register : World → ℕ → Bool → Header → Relay → Bool × Relay
unfolding claim is_exempt
handle_register w rc authenticated h s =
    if h.name == "" || h.token == ""
    then (false, send w rc (error_message "name and token required") s)
    else if not (s.secret == "") && not authenticated && not (is_exempt s h.name)
    then (true, send w rc (error_message auth_required) s)
    else claim w rc h (Dict.get s.clients h.name) s
