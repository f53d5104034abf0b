-- ===== src/Relay/Chunks.antt =====
-- handleFileChunk of relay_handler.go. A binary chunk is a header message and the binary frame after it.
use remotecmd_cli.Prelude.{ℕ, suc, String, ◌⧺◌, true, Option, none, some, List, if◌then◌else◌}
use remotecmd_cli.Dict
use remotecmd_cli.Protocol.{Header, Message, blank, flat, err_result}
use remotecmd_cli.Relay.Client.{ChunkRoute, send_header_and_binary}
use remotecmd_cli.Relay.State.{Relay, World, send, send_error, set_conn}
use remotecmd_cli.Relay.Forward.{cleanup_pending}

-- What a read of a connection gives: a JSON message (`none` if it does not parse), a binary frame, or an
-- error that ends the connection.
pub data Frame : Type 0 where
  text_frame : Option Message → Frame
  binary_frame : List ℕ → Frame
  read_error : String → Frame

-- delete(ctx.rc.chunkRoutes, id)
unfoldable pub drop_route : ℕ → String → Relay → Relay
drop_route rc id s =
    set_conn rc (record (s.conns rc) { chunk_routes = Dict.remove (s.conns rc).chunk_routes id }) s

-- A chunk that cannot be read or forwarded ends its transfer.
unfoldable pub fail_transfer : World → ℕ → Header → ChunkRoute → String → Relay → Relay
unfolding drop_route
fail_transfer w rc h route e s =
    send w rc (err_result h.id e) (cleanup_pending route.req_id (drop_route rc h.id s))

abbrev pub chunk_sent : World → ℕ → Header → ChunkRoute → Option String → Relay → Relay
chunk_sent w rc h route (some e) s =
    fail_transfer w rc h route ("failed to forward file chunk: " ⧺ e) s
chunk_sent w rc h route none s = if h.final then drop_route rc h.id s else s

-- The header that goes in front of the binary payload.
unfoldable pub chunk_header : ChunkRoute → Header → Message
chunk_header route h = flat (record blank {
  kind = "file_chunk";
  id = route.req_id;
  seq = h.seq;
  final = h.final;
  binary_chunk = true;
  compressed = h.compressed;
})

-- The legacy chunk, with base64 data inside.
unfoldable pub chunk_message : ChunkRoute → Header → Message
chunk_message route h = flat (record blank {
  kind = "file_chunk";
  id = route.req_id;
  seq = h.seq;
  payload = h.payload;
  final = h.final;
})

-- The state and the error after target.sendRawHeaderAndBinary, which may try two writes.
unfoldable pub send_pair : World → ℕ → List ℕ → List ℕ → Relay → Option String × Relay
send_pair w t header payload s =
    let (err, c) =
      send_header_and_binary (w.write_error s.writes) (w.write_error (suc s.writes)) header payload
        (s.conns t) in
    (err, set_conn t c (record s { writes = suc (suc s.writes) }))

-- A frame of the wrong type is dropped, and the transfer stays as it is.
abbrev pub binary_chunk : World → ℕ → Header → ChunkRoute → Frame → Relay → Relay
binary_chunk w rc h route (read_error e) s =
    fail_transfer w rc h route ("failed to read binary chunk payload: " ⧺ e) s
binary_chunk w rc h route (text_frame m) s = s
binary_chunk w rc h route (binary_frame bytes) s =
    let (err, sent) = send_pair w route.target (w.marshal (chunk_header route h)) bytes s in
    chunk_sent w rc h route err sent

abbrev pub chunk_at : World → ℕ → Header → Frame → Option ChunkRoute → Relay → Relay
chunk_at w rc h next none s = s
chunk_at w rc h next (some route) s =
    if h.binary_chunk
    then binary_chunk w rc h route next s
    else chunk_sent w rc h route (send_error w s) (send w route.target (chunk_message route h) s)

-- handleFileChunk. `next` is the frame behind the message, which only a binary chunk reads.
unfoldable pub handle_file_chunk : World → ℕ → Header → Frame → Relay → Relay
unfolding fail_transfer
handle_file_chunk w rc h next s = chunk_at w rc h next (Dict.get (s.conns rc).chunk_routes h.id) s
