-- ===== src/Transfer/Arrival.antt =====
-- The chunks of a transfer at the daemon (daemon_filetransfer.go): handleFileChunk, handleBinaryChunk,
-- and what the read loop of daemon.go does with the frames of transfers.
use remotecmd_cli.Prelude.{
  ℕ, suc, ◌-◌, ◌*◌, ◌%◌, ◌^◌, String, ◌⧺◌, Bool, true, false, ◌&&◌, Option, none, some, List, [],
  ◌∷◌, ◌++◌, ltb, ◌==◌, if◌then◌else◌,
}
use remotecmd_cli.Prelude.Int.{ℤ, pos, negsuc, ltb_ℤ}
use remotecmd_cli.Dict
use remotecmd_cli.Protocol.{Header, header}
use remotecmd_cli.Relay.Client.{Packet, json, text, binary}
use remotecmd_cli.Transfer.Disk.{Disk, write_handle, seek, close}
use remotecmd_cli.Transfer.Receiver.{
  Daemon, Libraries, Decoded, decoded, rejected, send_message, transfer_failed, transfer_done,
  set_cell, write_payload, report, drop_reassembly, close_file_writer, begin_chunked_transfer,
  handle_whole_transfer,
}

-- A product of two ints as a file position: 64 bits of two's complement, `none` where it is negative.
abbrev pub residue : ℤ → ℕ
residue (pos n) = n % 2 ^ 64
residue (negsuc n) = (2 ^ 64 - suc n % 2 ^ 64) % 2 ^ 64

abbrev pub position : ℕ → Option ℕ
position n = if ltb n (2 ^ 63) then some n else none

unfoldable pub chunk_offset : ℤ → ℤ → Option ℕ
chunk_offset seq size = position (residue seq * residue size % 2 ^ 64)

abbrev pub set_disk : Disk → Daemon → Daemon
set_disk d td = record td { disk = d }

abbrev pub buffer : ℕ → List ℕ → Daemon → Daemon
buffer p bytes td = set_cell p (record (td.heap p) { buf = (td.heap p).buf ++ bytes }) td

abbrev pub or_buffer : ℕ → List ℕ → Bool × Disk → Daemon → Daemon
or_buffer p bytes (true, d) td = set_disk d td
or_buffer p bytes (false, d) td = buffer p bytes (set_disk d td)

abbrev pub write_there : Libraries → ℕ → ℕ → List ℕ → Bool × Disk → Daemon → Daemon
write_there lib p f bytes (true, d) td = or_buffer p bytes (write_handle lib.fault f bytes d) td
write_there lib p f bytes (false, d) td = buffer p bytes (set_disk d td)

abbrev pub seek_there : Libraries → ℕ → Option ℕ → Disk → Bool × Disk
seek_there lib f none d = (false, record d { ops = suc d.ops })
seek_there lib f (some at) d = seek lib.fault f at d

-- writeChunkData
unfoldable pub write_chunk_data : Libraries → ℕ → List ℕ → Daemon → Daemon
write_chunk_data lib p bytes td =
    let r = td.heap p in
    elim r.writer [
      | none ↦ buffer p bytes td
      | some f ↦
          if r.parallel && ltb_ℤ (pos 0) r.chunk_size_bytes
          then write_there lib p f bytes
              (seek_there lib f (chunk_offset r.seq r.chunk_size_bytes) td.disk) td
          else or_buffer p bytes (write_handle lib.fault f bytes td.disk) td
    ]

-- finishReassembly behind its first line.
abbrev pub finish_dropped : Libraries → ℕ → Daemon → Daemon
finish_dropped lib p td =
    let r = td.heap p in
    if r.parallel then send_message (transfer_done lib r.id) td else elim r.writer [
      | some f ↦
          send_message (transfer_done lib r.id)
            (set_cell p (record r { writer = none }) (set_disk (close f td.disk) td))
      | none ↦ report lib r.id (write_payload lib r.mode r.dst r.buf td.disk) td
    ]

-- finishReassembly
unfoldable pub finish_reassembly : Libraries → ℕ → Daemon → Daemon
unfolding drop_reassembly
finish_reassembly lib p td = finish_dropped lib p (drop_reassembly (td.heap p).id td)

-- The end of a transfer whose chunk cannot be decoded.
abbrev pub abort : Libraries → String → ℕ → String → Daemon → Daemon
abort lib id p e td =
    send_message (transfer_failed lib id e) (close_file_writer p (drop_reassembly id td))

abbrev pub legacy_chunk : Libraries → Header → ℕ → Decoded → Daemon → Daemon
legacy_chunk lib h p (rejected e) td = abort lib h.id p ("failed to decode chunk: " ⧺ e) td
legacy_chunk lib h p (decoded bytes) td =
    let written = write_chunk_data lib p bytes td in
    if h.final then finish_reassembly lib p written else written

-- The header of a binary chunk is kept for the frame that follows.
abbrev pub await_binary : Header → ℕ → Daemon → Daemon
await_binary h p td =
    record (set_cell p
      (record (td.heap p) { id = h.id; seq = h.seq; final = h.final; compressed = h.compressed })
      td) { pending = some p }

-- handleFileChunk
unfoldable pub handle_file_chunk : Libraries → Header → Daemon → Daemon
unfolding write_chunk_data finish_reassembly
handle_file_chunk lib h td = elim (Dict.get td.reassembly h.id) [
  | none ↦ send_message (transfer_failed lib h.id "received chunk for unknown transfer") td
  | some p ↦
      if h.binary_chunk
      then await_binary h p td
      else legacy_chunk lib h p (lib.decode_base64 h.payload) td
]

abbrev pub chunk_written : Libraries → ℕ → List ℕ → Daemon → Daemon
chunk_written lib p bytes td =
    let written = write_chunk_data lib p bytes td in
    if (written.heap p).final then finish_reassembly lib p written else written

abbrev pub inflated : Libraries → ℕ → Decoded → Daemon → Daemon
inflated lib p (rejected e) td = abort lib (td.heap p).id p ("gzip read failed: " ⧺ e) td
inflated lib p (decoded bytes) td =
    chunk_written lib p bytes (set_cell p (record (td.heap p) { compressed = false }) td)

abbrev pub inflate : Libraries → ℕ → List ℕ → Option String → Daemon → Daemon
inflate lib p bytes (some e) td = abort lib (td.heap p).id p ("gzip decompress failed: " ⧺ e) td
inflate lib p bytes none td = inflated lib p (lib.gunzip_read bytes) td

-- handleBinaryChunk
unfoldable pub handle_binary_chunk : Libraries → List ℕ → Daemon → Daemon
unfolding write_chunk_data finish_reassembly
handle_binary_chunk lib bytes td = elim td.pending [
  | none ↦ td
  | some p ↦
      let taken = record td { pending = none } in
      if (td.heap p).compressed
      then inflate lib p bytes (lib.gunzip_open bytes) taken
      else chunk_written lib p bytes taken
]

-- The loop of run that clears what a lost connection left, over the entries of the map.
unfoldable pub close_all : List (String × ℕ) → Daemon → Daemon
close_all [] td = td
close_all ((id, p) ∷ rest) td = close_all rest (drop_reassembly id (close_file_writer p td))

-- The beginning of run.
unfoldable pub reset_transfers : Daemon → Daemon
unfolding close_all
reset_transfers td = record (close_all (Dict.entries td.reassembly) td) { pending = none }

-- What the read loop of run does with the frames of file transfers; a transfer in one message runs in a
-- goroutine of its own, here at once.
unfoldable pub receive : Libraries → Packet → Daemon → Daemon
receive lib (binary bytes) td = handle_binary_chunk lib bytes td
receive lib (text bytes) td = td
receive lib (json m) td =
    let h = header m in
    if h.kind == "file_transfer"
    then (if h.chunked then begin_chunked_transfer lib h td else handle_whole_transfer lib h td)
    else if h.kind == "file_chunk"
    then handle_file_chunk lib h td
    else td

unfoldable pub receive_all : Libraries → List Packet → Daemon → Daemon
unfolding receive
receive_all lib [] td = td
receive_all lib (p ∷ ps) td = receive_all lib ps (receive lib p td)
