-- ===== src/Relay/Tunnel.antt =====
-- relay_tunnel.go: tunnels between a client and a target.
use remotecmd_cli.Prelude.{
  ℕ, String, ◌⧺◌, Bool, ◌||◌, Option, none, some, List, [], ◌∷◌, ◌==◌, eqb, if◌then◌else◌,
}
use remotecmd_cli.Dict
use remotecmd_cli.Protocol.{Header, Message, header, blank, flat}
use remotecmd_cli.Relay.State.{Relay, World, TunnelSession, send, send_error}
use remotecmd_cli.Relay.Forward.{Found, target, refused, find_target}

-- The connection that a message of `rc` goes to: the daemon's if `rc` is the client, else the client's.
unfoldable pub other_side : ℕ → TunnelSession → ℕ
other_side rc t = if eqb t.client_conn rc then t.daemon_conn else t.client_conn

-- The "tunnel_opened" message with an error.
unfoldable pub open_refused : Header → String → Message
open_refused h e =
    flat (record blank { kind = "tunnel_opened"; tunnel_id = h.tunnel_id; error = e })

unfoldable pub tunnel_request : Header → Message
tunnel_request h =
    flat
      (record blank { kind = "tunnel_open"; tunnel_id = h.tunnel_id; remote_addr = h.remote_addr })

unfoldable pub tunnel_closed : String → Message
tunnel_closed tid = flat (record blank { kind = "tunnel_close"; tunnel_id = tid })

abbrev pub open_sent : World → ℕ → Header → Option String → Relay → Relay
open_sent w rc h none s = s
open_sent w rc h (some e) s =
    send w rc (open_refused h ("failed to forward tunnel request: " ⧺ e))
      (record s { tunnels = Dict.remove s.tunnels h.tunnel_id })

abbrev pub open_at : World → ℕ → Header → Found → Relay → Relay
open_at w rc h (refused e) s = send w rc (open_refused h e) s
open_at w rc h (target t) s =
    let session : TunnelSession = record { client_conn = rc; daemon_conn = t } in
    let opened = record s { tunnels = Dict.put s.tunnels h.tunnel_id session } in
    open_sent w rc h (send_error w s) (send w t (tunnel_request h) opened)

-- handleTunnelOpen
unfoldable pub handle_tunnel_open : World → ℕ → Header → Relay → Relay
unfolding open_refused
handle_tunnel_open w rc h s =
    if h.target == "" || h.tunnel_id == "" || h.remote_addr == ""
    then send w rc (open_refused h "target, tunnel_id, and remote_addr are required") s
    else open_at w rc h (find_target h s) s

-- handleTunnelRelay
unfoldable pub handle_tunnel_relay : World → ℕ → Message → Relay → Relay
unfolding other_side
handle_tunnel_relay w rc m s = elim (Dict.get s.tunnels (header m).tunnel_id) [
  | none ↦ s
  | some t ↦ send w (other_side rc t) m s
]

-- handleTunnelClose
unfoldable pub handle_tunnel_close : World → ℕ → Header → Relay → Relay
unfolding other_side tunnel_closed
handle_tunnel_close w rc h s = elim (Dict.get s.tunnels h.tunnel_id) [
  | none ↦ s
  | some t ↦
      send w (other_side rc t) (tunnel_closed h.tunnel_id)
        (record s { tunnels = Dict.remove s.tunnels h.tunnel_id })
]

-- A tunnel that a connection is an end of.
unfoldable pub is_end : ℕ → TunnelSession → Bool
is_end rc t = eqb t.client_conn rc || eqb t.daemon_conn rc

-- The notices that unregister sends, in the order of the range over the map.
unfoldable pub notify_closed : World → ℕ → List (String × TunnelSession) → Relay → Relay
unfolding other_side tunnel_closed is_end
notify_closed w rc [] s = s
notify_closed w rc ((tid, t) ∷ rest) s =
    notify_closed w rc rest
      (if is_end rc t then send w (other_side rc t) (tunnel_closed tid) s else s)
