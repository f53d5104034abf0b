-- ===== src/Transfer/Streams.antt =====
-- Parallel streams at the sender: sendFileParallel of filetransfer_stream.go, and the choice of their
-- number in handleFileTransfer of filetransfer.go. A stream has a connection of its own. `file` is what
-- each stream reads; dialling, the opening of the file and the wait for a stream's result are left out.
use remotecmd_cli.Prelude.{
  ℕ, zero, suc, ◌+◌, ◌*◌, Bool, true, not, ◌&&◌, Option, none, some, List, [], ◌∷◌, length, take,
  drop, ltb, leb, if◌then◌else◌,
}
use remotecmd_cli.Prelude.Int.{ℤ, pos, negsuc, ltb_ℤ}
use remotecmd_cli.Protocol.{Header, Message, blank, flat}
use remotecmd_cli.Transfer.Sender.{
  Outside, Port, SendError, init_failed, read_failed, too_large, in_stream, unnumbered, send_chunk,
  on_sent, write_message,
}

-- fileChunkSize
abbrev pub file_chunk_size : ℕ
file_chunk_size = 2097152

-- effectiveChunkSize, where the environment's setting is what Sscanf makes of it.
unfoldable pub effective_chunk_size : Option ℤ → ℕ
effective_chunk_size none = file_chunk_size
effective_chunk_size (some (negsuc n)) = file_chunk_size
effective_chunk_size (some (pos n)) = if ltb 0 n then n else file_chunk_size

-- The number of streams: of the environment's setting, or by the size in scp mode.
unfoldable pub parallel_streams_of : Option ℤ → Bool → ℕ → ℤ
parallel_streams_of (some setting) streamed_scp size = setting
parallel_streams_of none streamed_scp size =
    if not streamed_scp
    then pos 0
    else if ltb (100 * 1048576) size
    then pos 4
    else if ltb (20 * 1048576) size
    then pos 3
    else if ltb (5 * 1048576) size
    then pos 2
    else pos 0

-- Whether sendFileParallel is called.
unfoldable pub goes_parallel : Option ℤ → Bool → ℕ → Bool
unfolding parallel_streams_of
goes_parallel setting streamed_scp size =
    ltb_ℤ (pos 1) (parallel_streams_of setting streamed_scp size) && streamed_scp

-- The init message of a stream.
unfoldable pub stream_init : Header → ℤ → ℕ → ℕ → ℕ → Message
stream_init base total size chunk_size streams = flat (record blank {
  kind = "file_transfer";
  id = base.id;
  target = base.target;
  token = base.token;
  mode = "scp";
  src_path = base.src_path;
  dst_path = base.dst_path;
  chunked = true;
  total_chunks = total;
  total_size = pos size;
  chunk_size_bytes = pos chunk_size;
  parallel_streams = pos streams;
})

-- A chunk read at its place; nothing is there where the file has shrunk.
abbrev pub send_read : Outside → Header → ℕ → Bool → List ℕ → Port → Option SendError × Port
send_read o base seq final [] port = (some (read_failed "EOF"), port)
send_read o base seq final (b ∷ bytes) port =
    send_chunk o base unnumbered seq final (b ∷ bytes) port

-- The loop of a stream from chunk `seq` on, on fuel.
unfoldable pub send_stream :
    ℕ → Outside → Header → ℕ → ℕ → ℕ → List ℕ → ℕ → Port → Option SendError × Port
send_stream zero o base chunk_size streams total file seq port = (none, port)
send_stream (suc fuel) o base chunk_size streams total file seq port =
    let chunk = take chunk_size (drop (seq * chunk_size) file) in
    let sent = send_read o base seq (leb total (seq + streams)) chunk port in
    if ltb seq total
    then on_sent
        (λ port'. send_stream fuel o base chunk_size streams total file (seq + streams) port') sent
    else (none, port)

-- The text of an error begins with the stream's number, except where a frame is too large.
abbrev stream_error : ℕ → SendError → SendError
stream_error s (too_large n) = too_large n
stream_error s e = in_stream s e

abbrev stream_end : ℕ → Option SendError × Port → Option SendError × Port
stream_end s (none, port) = (none, port)
stream_end s (some e, port) = (some (stream_error s e), port)

-- Stream `s`, whose loop has at most `total` rounds.
unfoldable pub run_stream :
    Outside → Header → ℕ → ℕ → ℕ → List ℕ → ℕ → Port → Option SendError × Port
unfolding send_stream write_message stream_init
run_stream o base chunk_size streams total file s port = stream_end s (
    on_sent (λ port'. send_stream total o base chunk_size streams total file s port')
      (write_message o init_failed (stream_init base (pos total) (length file) chunk_size streams)
        port))

-- The first error of the streams, in the order in which they end.
unfoldable pub first_error : List (Option SendError) → Option SendError
first_error [] = none
first_error (none ∷ results) = first_error results
first_error (some e ∷ results) = some e
