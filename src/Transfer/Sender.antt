-- ===== src/Transfer/Sender.antt =====
-- The sender's side of a file transfer (filetransfer_stream.go, marshalWithinLimit of
-- filetransfer_chunk.go). A connection is what was written to it; a text frame of a marshalled message is
-- `json`. Progress events go to the terminal and are left out.
use remotecmd_cli.Prelude.{
  ℕ, zero, suc, ◌+◌, String, Bool, true, false, Option, none, some, List, [], ◌∷◌, ◌++◌, length,
  take, drop, ltb, leb, eqb, if◌then◌else◌,
}
use remotecmd_cli.Prelude.Int.{ℤ, pos}
use remotecmd_cli.Protocol.{Header, Message, blank, flat}
use remotecmd_cli.Relay.Client.{Packet, json, text, binary}
use remotecmd_cli.Transfer.Chunk.{chunk_count, chunk_data}
use remotecmd_cli.Transfer.Compress.{try_compress}

-- relayMaxFrameSize
abbrev pub max_frame : ℕ
max_frame = 33554432

-- What the sender takes from outside: json.Marshal, gzip, and the outcome of each write to the
-- connection, by its number.
pub record Outside : Type 0 where
  pub marshal : Message → List ℕ
  pub gzip : List ℕ → List ℕ
  pub write_error : ℕ → Option String

-- The connection: what was written, and how many writes were tried.
pub record Port : Type 0 where
  pub wire : List Packet
  pub writes : ℕ

-- How an error names the chunk: by its number from 0, by its number from 1 and how many there are, or not.
pub data Place : Type 0 where
  numbered : ℕ → Place
  counted : ℕ → ℕ → Place
  unnumbered : Place

-- The errors that the functions return, with what their texts show.
pub data SendError : Type 0 where
  too_large : ℕ → SendError
  init_failed : String → SendError
  header_failed : Place → String → SendError
  payload_failed : Place → String → SendError
  empty_failed : String → SendError
  read_failed : String → SendError
  in_stream : ℕ → SendError → SendError

abbrev pub after_write :
    Option String → (String → SendError) → Packet → Port → Option SendError × Port
after_write none fault p port =
    (none, record { wire = port.wire ++ p ∷ []; writes = suc port.writes })
after_write (some e) fault p port = (some (fault e), record port { writes = suc port.writes })

-- conn.WriteMessage
unfoldable pub write_packet :
    Outside → (String → SendError) → Packet → Port → Option SendError × Port
write_packet o fault p port = after_write (o.write_error port.writes) fault p port

-- marshalWithinLimit, and the write of the frame that it gives.
unfoldable pub write_message :
    Outside → (String → SendError) → Message → Port → Option SendError × Port
unfolding write_packet
write_message o fault m port =
    if ltb max_frame (length (o.marshal m))
    then (some (too_large (length (o.marshal m))), port)
    else write_packet o fault (json m) port

-- The frames that announce a transfer: `base` gives the identifier, target, token, mode and paths.
unfoldable pub init_message : Header → ℤ → ℕ → Message
init_message base total size = flat (record blank {
  kind = "file_transfer";
  id = base.id;
  target = base.target;
  token = base.token;
  mode = base.mode;
  src_path = base.src_path;
  dst_path = base.dst_path;
  chunked = true;
  total_chunks = total;
  total_size = pos size;
})

unfoldable pub chunk_header : Header → ℕ → Bool → Bool → Message
chunk_header base i final compressed = flat (record blank {
  kind = "file_chunk";
  id = base.id;
  seq = pos i;
  final = final;
  binary_chunk = true;
  compressed = compressed;
})

-- The payload as it goes out, with whether it is compressed.
abbrev pub encoded : Option (List ℕ) → List ℕ → List ℕ × Bool
encoded none bytes = (bytes, false)
encoded (some packed) bytes = (packed, true)

-- Empty payloads are not written.
unfoldable pub write_payload : Outside → Place → List ℕ → Port → Option SendError × Port
unfolding write_packet
write_payload o place [] port = (none, port)
write_payload o place (b ∷ bytes) port =
    write_packet o (payload_failed place) (binary (b ∷ bytes)) port

abbrev pub then_payload :
    Outside → Place → List ℕ → Option SendError × Port → Option SendError × Port
then_payload o place payload (none, port) = write_payload o place payload port
then_payload o place payload (some e, port) = (some e, port)

-- One chunk: its header, then its payload. Errors name it by `place`.
unfoldable pub send_chunk :
    Outside → Header → Place → ℕ → Bool → List ℕ → Port → Option SendError × Port
unfolding write_message write_payload
send_chunk o base place i final bytes port =
    let (payload, compressed) = encoded (try_compress o.gzip bytes) bytes in
    then_payload o place payload
      (write_message o (header_failed place) (chunk_header base i final compressed) port)

-- The loops go on where a chunk was sent.
abbrev pub on_sent :
    (Port → Option SendError × Port) → Option SendError × Port → Option SendError × Port
on_sent next (none, port) = next port
on_sent next (some e, port) = (some e, port)

-- The loop of sendFileFramesWithSize, from chunk `i` of `total`.
unfoldable pub send_chunks :
    Outside → Header → ℕ → ℕ → List (List ℕ) → Port → Option SendError × Port
unfolding send_chunk
send_chunks o base total i [] port = (none, port)
send_chunks o base total i (chunk ∷ chunks) port =
    on_sent (λ port'. send_chunks o base total (suc i) chunks port')
      (send_chunk o base (counted (suc i) total) i (eqb (suc i) total) chunk port)

abbrev pub then_chunks :
    Outside → Header → List (List ℕ) → Option SendError × Port → Option SendError × Port
then_chunks o base chunks (none, port) = send_chunks o base (length chunks) 0 chunks port
then_chunks o base chunks (some e, port) = (some e, port)

-- sendFileFramesWithSize
unfoldable pub send_file_frames : Outside → Header → List ℕ → ℕ → Port → Option SendError × Port
unfolding send_chunks write_message
send_file_frames o base bytes chunk_size port =
    let chunks = chunk_data bytes chunk_size in
    then_chunks o base chunks
      (write_message o init_failed (init_message base (pos (length chunks)) (length bytes)) port)

-- What the reader of sendFileStreaming gives: its bytes, and then its end or an error.
pub record Reader : Type 0 where
  pub rest : List ℕ
  pub failure : Option String

-- How io.ReadFull ends: a full buffer, some bytes (io.ErrUnexpectedEOF), none (io.EOF), an error.
pub data ReadEnd : Type 0 where
  full short ended : ReadEnd
  broken : String → ReadEnd

abbrev short_end : Option String → ℕ → ReadEnd
short_end none zero = ended
short_end none (suc n) = short
short_end (some e) n = broken e

-- io.ReadFull(r, buf)
unfoldable pub read_full : ℕ → Reader → List ℕ × ReadEnd × Reader
read_full size r = (
  take size r.rest,
  (if leb size (length r.rest) then full else short_end r.failure (length r.rest)),
  record r { rest = drop size r.rest },
)

-- What sendFileStreaming returns: the bytes sent and an error, with the connection.
abbrev pub Streamed : Type 0
Streamed = ℕ × (Option SendError × Port)

-- isFinal of the loop.
abbrev pub is_final : ReadEnd → ℕ → ℕ → Bool
is_final full sent total = leb total sent
is_final short sent total = true
is_final ended sent total = false
is_final (broken e) sent total = false

-- A header frame that is written without the check of its size: a frame that is too large is nil.
abbrev pub unchecked : Outside → Message → Packet
unchecked o m = if ltb max_frame (length (o.marshal m)) then text [] else json m

-- The end of the loop where nothing was read: an empty file gets one empty final chunk.
abbrev pub at_end : Outside → Header → ℕ → ReadEnd → ℕ → Port → Streamed
at_end o base i (broken e) sent port = (sent, (some (read_failed e), port))
at_end o base zero end sent port =
    (sent, write_packet o empty_failed (unchecked o (chunk_header base 0 true false)) port)
at_end o base (suc i) end sent port = (sent, (none, port))

-- The end of a round, before which `sent` and after which `sent'` bytes are out.
abbrev pub on_round : Bool → ℕ → ℕ → (Port → Streamed) → Option SendError × Port → Streamed
on_round final sent sent' next (some e, port) = (sent, (some e, port))
on_round true sent sent' next (none, port) = (sent', (none, port))
on_round false sent sent' next (none, port) = next port

-- The loop of sendFileStreaming, on fuel.
unfoldable pub stream_loop : ℕ → Outside → Header → ℕ → ℕ → ℕ → ℕ → Reader → Port → Streamed
unfolding read_full send_chunk write_message
stream_loop zero o base size total i sent r port = (sent, (none, port))
stream_loop (suc fuel) o base size total i sent r port =
    let (bytes, end, r') = read_full size r in
    elim bytes [
      | [] ↦ at_end o base i end sent port
      | b ∷ bs ↦
          let sent' = sent + length (b ∷ bs) in
          let final = is_final end sent' total in
          on_round final sent sent'
            (λ port'. stream_loop fuel o base size total (suc i) sent' r' port')
            (send_chunk o base (numbered i) i final (b ∷ bs) port)
    ]

abbrev pub then_stream : ℕ → Outside → Header → ℕ → ℕ → Reader → Option SendError × Port → Streamed
then_stream fuel o base size total r (none, port) = stream_loop fuel o base size total 0 0 r port
then_stream fuel o base size total r (some e, port) = (0, (some e, port))

-- sendFileStreaming, for a positive chunk size. A round reads a byte or ends the loop, so one round more
-- than there are bytes is enough.
unfoldable pub send_file_streaming : Outside → Header → Reader → ℕ → ℕ → Port → Streamed
unfolding stream_loop write_message
send_file_streaming o base r total_size chunk_size port =
    then_stream (suc (length r.rest)) o base chunk_size total_size r (
      write_message o init_failed (init_message base (chunk_count total_size chunk_size) total_size)
        port)
