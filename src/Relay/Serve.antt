-- ===== src/Relay/Serve.antt =====
-- The read loop of relay.go (handleWS), one frame at a time, unregister, and the server's events.
use remotecmd_cli.Prelude.{
  ℕ, suc, String, ◌⧺◌, Bool, true, false, not, ◌&&◌, ◌||◌, Option, none, some, List, [], ◌∷◌, ◌==◌,
  eqb, if◌then◌else◌,
}
use remotecmd_cli.Dict
use remotecmd_cli.Protocol.{
  Header, Message, message, header, blank, flat, err_result, error_message,
}
use remotecmd_cli.Relay.Client.{Client, fresh_client, close_writer, send_raw_bytes, drain}
use remotecmd_cli.Relay.State.{Relay, World, send, set_conn, token_equal}
use remotecmd_cli.Relay.Register.{auth_required, handle_register}
use remotecmd_cli.Relay.Forward.{handle_execute, handle_file_transfer, handle_disconnect}
use remotecmd_cli.Relay.Chunks.{Frame, text_frame, binary_frame, read_error, handle_file_chunk}
use remotecmd_cli.Relay.Results.{
  handle_stream_chunk, handle_stream_end, handle_result, handle_file_transfer_result,
}
use remotecmd_cli.Relay.Multi.{handle_execute_multi, multi_timeout}
use remotecmd_cli.Relay.Pair.{handle_pair_listen, handle_pair}
use remotecmd_cli.Relay.Tunnel.{
  handle_tunnel_open, handle_tunnel_relay, handle_tunnel_close, is_end, notify_closed,
}

-- clientOnlyMessages
unfoldable pub is_client_only : String → Bool
is_client_only k =
    k == "execute"
    || k == "execute_multi"
    || k == "file_transfer"
    || k == "file_chunk"
    || k == "pair_listen"
    || k == "disconnect"
    || k == "tunnel_open"

-- authRequiredReply
unfoldable pub auth_required_reply : Header → Message
unfolding err_result
auth_required_reply h =
    if h.kind == "execute_multi"
    then flat (record blank { kind = "multi_result"; id = h.id; error = auth_required })
    else if h.kind == "tunnel_open"
    then flat
        (record blank { kind = "tunnel_opened"; tunnel_id = h.tunnel_id; error = auth_required })
    else if h.kind == "pair_listen" || h.kind == "disconnect"
    then flat (record blank { kind = "error"; id = h.id; error = auth_required })
    else err_result h.id auth_required

-- The locals of one connection's handleWS: `closed` says that it has returned.
pub record Session : Type 0 where
  pub authenticated : Bool
  pub registered : Bool
  pub closed : Bool

-- The messages that never touch the session, by type.
unfoldable pub handle : World → ℕ → Message → Frame → Relay → Relay
handle w rc (message h r) next s =
    if h.kind == "execute"
    then handle_execute w rc h s
    else if h.kind == "file_transfer"
    then handle_file_transfer w rc h s
    else if h.kind == "file_chunk"
    then handle_file_chunk w rc h next s
    else if h.kind == "stream_chunk"
    then handle_stream_chunk w (message h r) s
    else if h.kind == "stream_end"
    then handle_stream_end w (message h r) s
    else if h.kind == "result"
    then handle_result w (message h r) s
    else if h.kind == "file_transfer_result"
    then handle_file_transfer_result w rc (message h r) s
    else if h.kind == "execute_multi"
    then handle_execute_multi w rc h s
    else if h.kind == "pair_listen"
    then handle_pair_listen w rc h s
    else if h.kind == "pair"
    then handle_pair w rc h s
    else if h.kind == "disconnect"
    then handle_disconnect w rc h s
    else if h.kind == "tunnel_open"
    then handle_tunnel_open w rc h s
    else if h.kind == "tunnel_opened" || h.kind == "tunnel_data"
    then handle_tunnel_relay w rc (message h r) s
    else if h.kind == "tunnel_close"
    then handle_tunnel_close w rc h s
    else send w rc (error_message ("unknown message type: " ⧺ h.kind)) s

-- The deletions of unregister: the connection's name if it still holds it, and all that refers to it.
unfoldable pub forget : ℕ → Relay → Relay
unfolding is_end
forget rc s =
    let name = (s.conns rc).name in
    record s {
      clients =
          if Dict.holds (eqb rc) (Dict.get s.clients name)
          then Dict.remove s.clients name
          else s.clients;
      pending = Dict.retain (λ pr. not (eqb pr.client_conn rc)) s.pending;
      pair_listeners = Dict.retain (λ l. not (eqb l.conn rc)) s.pair_listeners;
      tunnels = Dict.retain (λ t. not (is_end rc t)) s.tunnels;
    }

-- unregister
unfoldable pub unregister : World → ℕ → Relay → Relay
unfolding forget notify_closed
unregister w rc s =
    let told = notify_closed w rc (Dict.entries s.tunnels) (forget rc s) in
    set_conn rc (close_writer (told.conns rc)) told

-- The return of handleWS, with its deferred unregister.
unfoldable pub close_session : World → ℕ → Session → Relay → Session × Relay
close_session w rc v s = (record v { closed = true }, if v.registered then unregister w rc s else s)

abbrev pub after_register : World → ℕ → Session → Bool × Relay → Session × Relay
after_register w rc v (true, s) = close_session w rc v s
after_register w rc v (false, s) = (record v { registered = true }, s)

-- A message that was read, behind the gate for connections without the relay's secret.
unfoldable pub on_message : World → ℕ → Session → Message → Frame → Relay → Session × Relay
on_message w rc v m next s =
    if not v.authenticated && is_client_only (header m).kind
    then close_session w rc v (send w rc (auth_required_reply (header m)) s)
    else if (header m).kind == "register"
    then after_register w rc v (handle_register w rc v.authenticated (header m) s)
    else (v, handle w rc m next s)

-- A binary frame by itself goes where `lastBinaryRoute` says.
unfoldable pub on_binary : World → ℕ → List ℕ → Relay → Relay
on_binary w rc bytes s = elim (s.conns rc).last_binary_route [
  | none ↦ s
  | some route ↦
      set_conn route.target (send_raw_bytes (w.write_error s.writes) bytes (s.conns route.target)).1
        (record s { writes = suc s.writes })
]

-- One round of the read loop. `next` is the frame behind the one that was read; a binary "file_chunk"
-- reads it too.
unfoldable pub on_frame : World → ℕ → Session → Frame → Frame → Relay → Session × Relay
unfolding on_binary
on_frame w rc v (read_error e) next s = close_session w rc v s
on_frame w rc v (binary_frame bytes) next s = (v, on_binary w rc bytes s)
on_frame w rc v (text_frame none) next s = (v, s)
on_frame w rc v (text_frame (some m)) next s = on_message w rc v m next s

-- The relay with its connections' sessions; a number without a session is not connected.
pub record Server : Type 0 where
  pub relay : Relay
  pub sessions : ℕ → Option Session

-- What can happen: a connection attempt with its Authorization header, a frame of a connection (with the
-- frame behind it), the firing of a multi-target timer, and a round of a writer goroutine with the
-- outcomes of its writes.
pub data Event : Type 0 where
  connects : ℕ → String → Event
  receives : ℕ → Frame → Frame → Event
  fires : String → Event
  drains : ℕ → Option String → Option String → Event

abbrev pub set_session : ℕ → Session → (ℕ → Option Session) → ℕ → Option Session
set_session c v f d = if eqb c d then some v else f d

-- The admission check of handleWS: `none` is the 401 answer.
unfoldable pub admit : Relay → String → Option Session
admit s auth =
    if s.secret == "" || token_equal auth ("Bearer " ⧺ s.secret)
    then some (record { authenticated = true; registered = false; closed = false })
    else if Dict.is_empty s.secret_exempt
    then none
    else some (record { authenticated = false; registered = false; closed = false })

-- A number is used for one connection only.
abbrev pub connect : ℕ → Option Session → Option Session → Server → Server
connect c (some old) new v = v
connect c none none v = v
connect c none (some fresh) v = record {
  relay = set_conn c fresh_client v.relay;
  sessions = set_session c fresh v.sessions;
}

abbrev pub receive : World → ℕ → Frame → Frame → Option Session → Server → Server
receive w c f next none v = v
receive w c f next (some ses) v =
    if ses.closed
    then v
    else (let (ses', s') = on_frame w c ses f next v.relay in
        record { relay = s'; sessions = set_session c ses' v.sessions })

abbrev pub drained : ℕ → Option Client → Relay → Relay
drained c none s = s
drained c (some k) s = set_conn c k s

unfoldable pub step : World → Event → Server → Server
unfolding admit
step w (connects c auth) v = connect c (v.sessions c) (admit v.relay auth) v
step w (receives c f next) v = receive w c f next (v.sessions c) v
step w (fires mid) v = record v { relay = multi_timeout w mid v.relay }
step w (drains c err next) v = record v {
  relay = drained c (drain err next (v.relay.conns c)) v.relay;
}

unfoldable pub run : World → List Event → Server → Server
run w [] v = v
run w (e ∷ es) v = run w es (step w e v)
