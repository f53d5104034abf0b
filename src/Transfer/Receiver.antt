-- ===== src/Transfer/Receiver.antt =====
-- The daemon's side of a file transfer (daemon_filetransfer.go). A pointer to a fileReassembly is its
-- number, and `heap` is the store that the map and the pending chunk share. `sent` is what was passed to
-- td.send, which only logs a failing write. The locks are not modelled: one handler runs at a time.
use remotecmd_cli.Prelude.{
  ℕ, suc, String, ◌⧺◌, Bool, true, false, ◌&&◌, ◌||◌, Option, none, some, List, [], ◌∷◌, ◌++◌, eqb,
  ◌==◌, is_none, not, if◌then◌else◌,
}
use remotecmd_cli.Prelude.Int.{ℤ, pos, negsuc, ltb_ℤ}
use remotecmd_cli.Dict
use remotecmd_cli.Dict.{Dict}
use remotecmd_cli.Protocol.{Header, Message, blank, flat}
use remotecmd_cli.Transfer.Disk.{
  Disk, Fault, create, truncate, write_file, make_dirs, overwrite, close,
}

-- fileReassembly, less the two counters that nothing reads.
pub record Reassembly : Type 0 where
  pub mode : String
  pub src : String
  pub dst : String
  pub buf : List ℕ
  pub id : String
  pub seq : ℤ
  pub final : Bool
  pub writer : Option ℕ
  pub compressed : Bool
  pub chunk_size_bytes : ℤ
  pub parallel : Bool

-- The part of TargetDaemon that transfers use, with the disk and the messages sent.
pub record Daemon : Type 0 where
  pub reassembly : Dict ℕ
  pub heap : ℕ → Reassembly
  pub allocated : ℕ
  pub pending : Option ℕ
  pub disk : Disk
  pub sent : List Message

-- What a decoder gives: bytes, or the text of its error.
pub data Decoded : Type 0 where
  decoded : List ℕ → Decoded
  rejected : String → Decoded

-- An entry of a tar archive, by its type.
pub data Entry : Type 0 where
  directory : String → Entry
  regular : String → List ℕ → Entry
  link : String → Entry
  other : String → Entry

-- The libraries that the daemon calls: base64, gzip (whose header and body can be bad), tar (the entries
-- up to the end or an error), path/filepath, the texts of the system's errors, and the faults of the disk.
pub record Libraries : Type 0 where
  pub version : String
  pub decode_base64 : String → Decoded
  pub gunzip_open : List ℕ → Option String
  pub gunzip_read : List ℕ → Decoded
  pub untar : List ℕ → List Entry × Option String
  pub join : String → String → String
  pub parent : String → String
  pub error_text : ℕ → String
  pub fault : ℕ → Option Fault

-- td.send
unfoldable pub send_message : Message → Daemon → Daemon
send_message m td = record td { sent = td.sent ++ m ∷ [] }

-- stampVersion(&Message{Type: "file_transfer_result", …})
unfoldable pub transfer_failed : Libraries → String → String → Message
transfer_failed lib id e = flat (record blank {
  kind = "file_transfer_result";
  id = id;
  ok = some false;
  error = e;
  daemon_version = lib.version;
})

unfoldable pub transfer_done : Libraries → String → Message
transfer_done lib id = flat (record blank {
  kind = "file_transfer_result";
  id = id;
  ok = some true;
  daemon_version = lib.version;
})

abbrev pub set_cell : ℕ → Reassembly → Daemon → Daemon
set_cell p r td = record td { heap = λ q. if eqb p q then r else td.heap q }

-- The extraction of one entry: the text of its error, if it fails.
abbrev pub error_of : Libraries → Bool × Disk → Option String × Disk
error_of lib (true, d) = (none, d)
error_of lib (false, d) = (some (lib.error_text d.ops), d)

abbrev pub extract_file : Libraries → String → List ℕ → Bool × Disk → Option String × Disk
extract_file lib path bytes (true, d) = error_of lib (overwrite lib.fault path bytes d)
extract_file lib path bytes (false, d) = (some (lib.error_text d.ops), d)

unfoldable pub extract_entry : Libraries → String → Entry → Disk → Option String × Disk
extract_entry lib dst (link name) d = (none, d)
extract_entry lib dst (other name) d = (none, d)
extract_entry lib dst (directory name) d = error_of lib (make_dirs lib.fault (lib.join dst name) d)
extract_entry lib dst (regular name bytes) d =
    let path = lib.join dst name in
    extract_file lib path bytes (make_dirs lib.fault (lib.parent path) d)

unfoldable pub extract_entries :
    Libraries → String → List Entry → Option String → Disk → Option String × Disk
unfolding extract_entry
extract_entries lib dst [] end d = (end, d)
extract_entries lib dst (e ∷ es) end d =
    let (err, d') = extract_entry lib dst e d in
    elim err [ none ↦ extract_entries lib dst es end d' | some why ↦ (some why, d') ]

-- extractTarArchive
unfoldable pub extract_tar : Libraries → List ℕ → String → Disk → Option String × Disk
unfolding extract_entries
extract_tar lib bytes dst d =
    let (entries, end) = lib.untar bytes in extract_entries lib dst entries end d

abbrev prefixed : String → Option String × Disk → Option String × Disk
prefixed what (none, d) = (none, d)
prefixed what (some e, d) = (some (what ⧺ e), d)

abbrev pub extract_into : Libraries → List ℕ → String → Bool × Disk → Option String × Disk
extract_into lib bytes dst (true, d) =
    prefixed "failed to extract tar archive: " (extract_tar lib bytes dst d)
extract_into lib bytes dst (false, d) =
    (some ("failed to create destination directory: " ⧺ lib.error_text d.ops), d)

-- A payload that is whole, written in the way of its mode (writeTransfer, and the same steps of
-- handleFileTransfer).
unfoldable pub write_payload : Libraries → String → String → List ℕ → Disk → Option String × Disk
unfolding extract_tar
write_payload lib mode dst bytes d =
    if mode == "scp"
    then prefixed "failed to write file: " (error_of lib (write_file lib.fault dst bytes d))
    else if mode == "rsync"
    then extract_into lib bytes dst (make_dirs lib.fault dst d)
    else (some ("unknown file transfer mode: " ⧺ mode), d)

abbrev pub report : Libraries → String → Option String × Disk → Daemon → Daemon
report lib id (none, d) td = send_message (transfer_done lib id) (record td { disk = d })
report lib id (some e, d) td = send_message (transfer_failed lib id e) (record td { disk = d })

abbrev transfer_decoded : Libraries → Header → Decoded → Daemon → Daemon
transfer_decoded lib h (rejected e) td =
    send_message (transfer_failed lib h.id ("failed to decode file content: " ⧺ e)) td
transfer_decoded lib h (decoded bytes) td =
    report lib h.id (write_payload lib h.mode h.dst_path bytes td.disk) td

-- handleFileTransfer
unfoldable pub handle_whole_transfer : Libraries → Header → Daemon → Daemon
unfolding write_payload transfer_failed transfer_done
handle_whole_transfer lib h td =
    if h.mode == "scp" || h.mode == "rsync"
    then transfer_decoded lib h (lib.decode_base64 h.content) td
    else send_message (transfer_failed lib h.id ("unknown file transfer mode: " ⧺ h.mode)) td

-- The file of an earlier parallel stream to the same destination.
unfoldable pub shared_writer : (ℕ → Reassembly) → String → List (String × ℕ) → Option ℕ
shared_writer heap dst [] = none
shared_writer heap dst ((id, p) ∷ rest) =
    let later = shared_writer heap dst rest in
    let r = heap p in
    if (r.dst == dst && not (is_none r.writer)) && r.parallel then r.writer else later

-- td.reassembly[msg.ID] = r
abbrev pub add_reassembly : String → Reassembly → Daemon → Daemon
add_reassembly id r td = record (set_cell td.allocated r td) {
  reassembly = Dict.put td.reassembly id td.allocated;
  allocated = suc td.allocated;
}

abbrev allocate_file : Libraries → ℤ → Option ℕ × Disk → Option ℕ × Disk
allocate_file lib size (none, d) = (none, d)
allocate_file lib (negsuc n) (some f, d) = (some f, d)
allocate_file lib (pos n) (some f, d) = (some f, if eqb n 0 then d else truncate lib.fault f n d)

abbrev with_writer : String → Reassembly → Option ℕ × Disk → Daemon → Daemon
with_writer id r (f, d) td = add_reassembly id (record r { writer = f }) (record td { disk = d })

abbrev parallel_writer : Libraries → Header → Option ℕ → Disk → Option ℕ × Disk
parallel_writer lib h (some f) d = (some f, d)
parallel_writer lib h none d = allocate_file lib h.total_size (create lib.fault h.dst_path d)

abbrev pub started : Header → Bool → Reassembly
started h parallel = record {
  mode = h.mode;
  src = h.src_path;
  dst = h.dst_path;
  buf = [];
  id = "";
  seq = pos 0;
  final = false;
  writer = none;
  compressed = false;
  chunk_size_bytes = h.chunk_size_bytes;
  parallel = parallel;
}

-- beginChunkedTransfer
unfoldable pub begin_chunked_transfer : Libraries → Header → Daemon → Daemon
unfolding shared_writer
begin_chunked_transfer lib h td =
    if ltb_ℤ (pos 1) h.parallel_streams && h.mode == "scp"
    then with_writer h.id (started h true)
        (parallel_writer lib h (shared_writer td.heap h.dst_path (Dict.entries td.reassembly))
          td.disk)
        td
    else if h.mode == "scp"
    then with_writer h.id (started h false) (create lib.fault h.dst_path td.disk) td
    else add_reassembly h.id (started h false) td

-- dropReassembly
unfoldable pub drop_reassembly : String → Daemon → Daemon
drop_reassembly id td = record td { reassembly = Dict.remove td.reassembly id }

-- closeFileWriter
unfoldable pub close_file_writer : ℕ → Daemon → Daemon
close_file_writer p td = elim (td.heap p).writer [
  | none ↦ td
  | some f ↦
      set_cell p (record (td.heap p) { writer = none }) (record td { disk = close f td.disk })
]
