-- ===== src/Daemon/Tunnels.antt =====
-- Tunnels at the daemon (tunnel_daemon.go). A TCP connection is its number. handleTunnelOpen has a
-- goroutine of its own, so its two changes of the state are two steps (`announce` and `register_tunnel`),
-- and each round of tunnelReadLoop is one. Dialling, sockets and base64 are parameters.
use remotecmd_cli.Prelude.{
  ℕ, String, ◌⧺◌, Bool, true, false, Option, none, some, List, [], ◌∷◌, ◌++◌, eqb, if◌then◌else◌,
}
use remotecmd_cli.Dict
use remotecmd_cli.Dict.{Dict}
use remotecmd_cli.Protocol.{Header, Message, blank, flat}

-- net.Conn: what was written to it, and whether it is open.
pub record Remote : Type 0 where
  pub written : List ℕ
  pub is_open : Bool

-- activeTunnels, with the connections and the messages sent to the relay.
pub record Tunnels : Type 0 where
  pub active : Dict ℕ
  pub remotes : ℕ → Remote
  pub outgoing : List Message

-- base64 both ways, and whether a connection takes some bytes (a write that fails takes none).
pub record Network : Type 0 where
  pub decode_base64 : String → Option (List ℕ)
  pub encode_base64 : List ℕ → String
  pub accepts : ℕ → List ℕ → Bool

abbrev pub send_out : Message → Tunnels → Tunnels
send_out m s = record s { outgoing = s.outgoing ++ m ∷ [] }

abbrev pub set_remote : ℕ → Remote → Tunnels → Tunnels
set_remote c r s = record s { remotes = λ k. if eqb c k then r else s.remotes k }

-- What net.DialTimeout gives.
pub data Dialled : Type 0 where
  dialled : ℕ → Dialled
  dial_failed : String → Dialled

-- handleTunnelOpen up to the answer; `some` is the connection that is left to register.
unfoldable pub announce : Header → Dialled → Tunnels → Option ℕ × Tunnels
announce h (dial_failed e) s = (
  none,
  send_out
      (flat (record blank {
        kind = "tunnel_opened";
        tunnel_id = h.tunnel_id;
        error = "dial failed: " ⧺ e;
      }))
      s,
)
announce h (dialled c) s = (
  some c,
  send_out (flat (record blank { kind = "tunnel_opened"; tunnel_id = h.tunnel_id; ok = some true }))
      s,
)

-- registerTunnel
unfoldable pub register_tunnel : String → ℕ → Tunnels → Tunnels
register_tunnel id c s = record s { active = Dict.put s.active id c }

-- closeTunnel
unfoldable pub close_tunnel : String → Tunnels → Tunnels
close_tunnel id s = elim (Dict.get s.active id) [
  | none ↦ s
  | some c ↦ record (set_remote c (record (s.remotes c) { is_open = false }) s) {
    active = Dict.remove s.active id;
  }
]

unfoldable pub close_notice : String → Message
close_notice id = flat (record blank { kind = "tunnel_close"; tunnel_id = id })

abbrev pub write_remote : Network → String → ℕ → List ℕ → Tunnels → Tunnels
write_remote net id c bytes s =
    if net.accepts c bytes
    then set_remote c (record (s.remotes c) { written = (s.remotes c).written ++ bytes }) s
    else send_out (close_notice id) (close_tunnel id s)

abbrev pub write_decoded : Network → String → ℕ → Option (List ℕ) → Tunnels → Tunnels
write_decoded net id c none s = s
write_decoded net id c (some bytes) s = write_remote net id c bytes s

-- handleTunnelData
unfoldable pub handle_tunnel_data : Network → Header → Tunnels → Tunnels
unfolding close_tunnel
handle_tunnel_data net h s = elim (Dict.get s.active h.tunnel_id) [
  | none ↦ s
  | some c ↦ write_decoded net h.tunnel_id c (net.decode_base64 h.payload) s
]

-- handleTunnelClose
unfoldable pub handle_daemon_tunnel_close : Header → Tunnels → Tunnels
unfolding close_tunnel
handle_daemon_tunnel_close h s = close_tunnel h.tunnel_id s

abbrev pub read_data : Network → String → List ℕ → Tunnels → Tunnels
read_data net id [] s = s
read_data net id (b ∷ bytes) s =
    send_out
      (flat (record blank {
        kind = "tunnel_data";
        tunnel_id = id;
        payload = net.encode_base64 (b ∷ bytes);
      }))
      s

-- A round of tunnelReadLoop: the bytes that were read, and whether the read ended in an error.
unfoldable pub tunnel_read : Network → String → List ℕ → Bool → Tunnels → Tunnels
unfolding close_tunnel
tunnel_read net id bytes ends s =
    let read = read_data net id bytes s in
    if ends then send_out (close_notice id) (close_tunnel id read) else read
