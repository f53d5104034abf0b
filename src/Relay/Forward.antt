-- ===== src/Relay/Forward.antt =====
-- The handlers of relay_handler.go that pass a client's request on to a target: handleExecute,
-- handleFileTransfer and handleDisconnect.
use remotecmd_cli.Prelude.{ℕ, suc, String, ◌⧺◌, Option, none, some, ◌==◌, if◌then◌else◌}
use remotecmd_cli.Dict
use remotecmd_cli.Protocol.{Header, Message, blank, flat, err_result, error_message}
use remotecmd_cli.Relay.Client.{ChunkRoute, start_writer}
use remotecmd_cli.Relay.State.{Relay, World, send, send_error, set_conn, token_equal}

pub data Found : Type 0 where
  target : ℕ → Found
  refused : String → Found

abbrev pub check_token : Header → Relay → Option ℕ → Found
check_token h s none = refused ("target not connected: " ⧺ h.target)
check_token h s (some t) =
    if token_equal (s.conns t).token h.token
    then target t
    else refused ("invalid token for target: " ⧺ h.target)

-- The guards that the handlers share: the target is connected and the message holds its token. The
-- refusal carries the error text.
unfoldable pub find_target : Header → Relay → Found
find_target h s = check_token h s (Dict.get s.clients h.target)

-- cleanupPending
unfoldable pub cleanup_pending : String → Relay → Relay
cleanup_pending req_id s = record s { pending = Dict.remove s.pending req_id }

-- rs.pending[newID()] = …
unfoldable pub add_pending : World → ℕ → Header → Relay → Relay
add_pending w rc h s = record s {
  pending = Dict.put s.pending (w.new_id s.ids) (record { server_id = h.id; client_conn = rc });
  ids = suc s.ids;
}

-- The "command" message of handleExecute.
unfoldable pub command : String → Header → Message
command req_id h = flat (record blank {
  kind = "command";
  id = req_id;
  cmd = h.cmd;
  timeout = h.timeout;
  stream = h.stream;
  stdin_data = h.stdin_data;
})

-- What follows a forward: on a failed send the pending entry goes and the client gets the error.
unfoldable pub after_forward : World → ℕ → Header → String → String → Option String → Relay → Relay
after_forward w rc h req_id what none s = s
after_forward w rc h req_id what (some e) s =
    send w rc (err_result h.id (what ⧺ e)) (cleanup_pending req_id s)

abbrev pub execute_at : World → ℕ → Header → Found → Relay → Relay
execute_at w rc h (refused e) s = send w rc (err_result h.id e) s
execute_at w rc h (target t) s =
    let req_id = w.new_id s.ids in
    let asked = add_pending w rc h s in
    after_forward w rc h req_id "failed to forward command: " (send_error w asked)
      (send w t (command req_id h) asked)

-- handleExecute
unfoldable pub handle_execute : World → ℕ → Header → Relay → Relay
unfolding after_forward
handle_execute w rc h s =
    if h.target == ""
    then send w rc (err_result h.id "target is required") s
    else execute_at w rc h (find_target h s) s

-- The "file_transfer" message that the relay forwards.
unfoldable pub transfer_request : String → Header → Message
transfer_request req_id h = flat (record blank {
  kind = "file_transfer";
  id = req_id;
  mode = h.mode;
  src_path = h.src_path;
  dst_path = h.dst_path;
  content = h.content;
  chunked = h.chunked;
  total_chunks = h.total_chunks;
  total_size = h.total_size;
  chunk_size_bytes = h.chunk_size_bytes;
  parallel_streams = h.parallel_streams;
})

-- ctx.rc.chunkRoutes[msg.ID] = …; target.startWriter()
unfoldable pub route_chunks : ℕ → ℕ → String → Header → Relay → Relay
route_chunks rc t req_id h s =
    let route : ChunkRoute = record { target = t; req_id = req_id } in
    let sender = record (s.conns rc) {
      chunk_routes = Dict.put (s.conns rc).chunk_routes h.id route;
    } in
    let routed = set_conn rc sender s in set_conn t (start_writer (routed.conns t)) routed

abbrev pub transfer_sent : World → ℕ → ℕ → Header → String → Option String → Relay → Relay
transfer_sent w rc t h req_id (some e) s =
    after_forward w rc h req_id "failed to forward file transfer: " (some e) s
transfer_sent w rc t h req_id none s = if h.chunked then route_chunks rc t req_id h s else s

abbrev pub transfer_at : World → ℕ → Header → Found → Relay → Relay
transfer_at w rc h (refused e) s = send w rc (err_result h.id e) s
transfer_at w rc h (target t) s =
    let req_id = w.new_id s.ids in
    let asked = add_pending w rc h s in
    transfer_sent w rc t h req_id (send_error w asked) (send w t (transfer_request req_id h) asked)

-- handleFileTransfer
unfoldable pub handle_file_transfer : World → ℕ → Header → Relay → Relay
unfolding after_forward route_chunks
handle_file_transfer w rc h s =
    if h.target == ""
    then send w rc (err_result h.id "target is required") s
    else transfer_at w rc h (find_target h s) s

abbrev pub disconnect_sent : World → ℕ → Header → Option String → Relay → Relay
disconnect_sent w rc h (some e) s =
    send w rc (error_message ("failed to forward disconnect: " ⧺ e)) s
disconnect_sent w rc h none s =
    send w rc (flat (record blank { kind = "disconnect_confirmed"; target = h.target })) s

abbrev pub disconnect_at : World → ℕ → Header → Found → Relay → Relay
disconnect_at w rc h (refused e) s = send w rc (error_message e) s
disconnect_at w rc h (target t) s =
    disconnect_sent w rc h (send_error w s)
      (send w t (flat (record blank { kind = "disconnect" })) s)

-- handleDisconnect
unfoldable pub handle_disconnect : World → ℕ → Header → Relay → Relay
handle_disconnect w rc h s =
    if h.target == ""
    then send w rc (error_message "disconnect requires target") s
    else disconnect_at w rc h (find_target h s) s
