-- ===== src/Transfer/Gaps.antt =====
-- Where a transfer goes wrong without a word: a disk that is full, the base64 chunks of
-- old senders, and files that shrink (filetransfer_stream.go, daemon_filetransfer.go).
use remotecmd_cli.Prelude.{
  ℕ, suc, ◌+◌, ◌≡◌, ◌≢◌, refl, sym, ap, ◌∙◌, String, Bool, true, false, Option, none, some, List,
  [], ◌∷◌, ◌++◌, arith, length, drop, eqb_refl, eq_false, if◌then◌else◌,
}
use remotecmd_cli.Dict
use remotecmd_cli.Dict.{get-put_self, get-remove}
use remotecmd_cli.Protocol.{Header}
use remotecmd_cli.Transfer.Disk.{
  Disk, Fault, refused, write_as, next_op, write_handle, overwrite, overwrite_as, bytes_of,
  make_dirs, file_at, splice, close, put_bytes,
}
use remotecmd_cli.Transfer.Receiver.{
  Daemon, Libraries, decoded, regular, transfer_done, send_message, drop_reassembly, extract_entry,
  error_of, extract_file,
}
use remotecmd_cli.Transfer.Arrival.{
  handle_file_chunk, write_chunk_data, finish_reassembly, set_disk, or_buffer, buffer, legacy_chunk,
  await_binary,
}
use remotecmd_cli.Transfer.Incoming.{write_chunk_data-sequential}

alike_cases : {A : Type 0} (b : Bool) (x : A) → (if b then x else x) ≡ x
alike_cases true x = refl
alike_cases false x = refl

refused_write :
    (fault : ℕ → Option Fault) (h : ℕ) (bytes : List ℕ) (d : Disk)
    → fault d.ops ≡ some refused
    → write_handle fault h bytes d ≡ (false, next_op d)
unfolding write_handle
refused_write fault h bytes d full =
    let tried =
      ap (λ why. if (d.handles h).is_open then write_as fault why h bytes d else (false, next_op d))
        full in
    tried ∙ alike_cases (d.handles h).is_open (false, next_op d)

refused_chunk :
    (lib : Libraries) (p f : ℕ) (bytes : List ℕ) (td : Daemon)
    → lib.fault td.disk.ops ≡ some refused
    → (td.heap p).writer ≡ some f
    → (td.heap p).parallel ≡ false
    → write_chunk_data lib p bytes td ≡ buffer p bytes (set_disk (next_op td.disk) td)
unfolding write_chunk_data
refused_chunk lib p f bytes td full writer alone =
    let tried : write_chunk_data lib p bytes td
        ≡ or_buffer p bytes (write_handle lib.fault f bytes td.disk) td =
      rw (writer, write_chunk_data, alone) refl in
    tried ∙ ap (λ w. or_buffer p bytes w td) (refused_write lib.fault f bytes td.disk full)

-- The end of a transfer that was written to a file.
finish_file :
    (lib : Libraries) (p f : ℕ) (td : Daemon)
    → (td.heap p).writer ≡ some f
    → (td.heap p).parallel ≡ false
    → (let after = finish_reassembly lib p td in
        (after.sent ≡ td.sent ++ transfer_done lib (td.heap p).id ∷ [])
        × (after.disk.content ≡ td.disk.content)
        × (after.reassembly ≡ Dict.remove td.reassembly (td.heap p).id))
unfolding finish_reassembly send_message drop_reassembly close
finish_file lib p f td writer alone = rw (alone, finish_reassembly, writer) (refl, refl, refl)

-- In a transfer that writes chunks to a file one after another, a last chunk that the disk refuses is not
-- in the file, and yet the daemon's result is a success.
pub full_disk_succeeds :
    (lib : Libraries) (p f : ℕ) (bytes : List ℕ) (td : Daemon)
    → lib.fault td.disk.ops ≡ some refused
    → (td.heap p).writer ≡ some f
    → (td.heap p).parallel ≡ false
    → (let after = finish_reassembly lib p (write_chunk_data lib p bytes td) in
        (after.sent ≡ td.sent ++ transfer_done lib (td.heap p).id ∷ [])
        × (after.disk.content ≡ td.disk.content))
full_disk_succeeds lib p f bytes td full writer alone =
    let kept = buffer p bytes (set_disk (next_op td.disk) td) in
    let (sent, content, gone) =
      finish_file lib p f kept (rw (eqb_refl p) writer) (rw (eqb_refl p) alone) in
    rw (refused_chunk lib p f bytes td full writer alone) (sent ∙ rw (eqb_refl p) refl, content)

-- A transfer of old senders, whose chunks are base64 inside the messages, ends under the empty identifier:
-- where the disk does every operation and the cell never had a binary chunk, the last chunk makes the
-- daemon send a success that does not name the transfer, and keep the transfer's entry.
pub legacy_end_unnamed :
    (lib : Libraries) (h : Header) (p f : ℕ) (bytes : List ℕ) (td : Daemon)
    → ((n : ℕ) → lib.fault n ≡ none)
    → Dict.get td.reassembly h.id ≡ some p
    → h.id ≢ ""
    → (td.heap p).id ≡ ""
    → (td.heap p).writer ≡ some f
    → (td.heap p).parallel ≡ false
    → (td.disk.handles f).is_open ≡ true
    → h.binary_chunk ≡ false
    → h.final ≡ true
    → lib.decode_base64 h.payload ≡ decoded bytes
    → (let after = handle_file_chunk lib h td in
        (after.sent ≡ td.sent ++ transfer_done lib "" ∷ [])
        × (Dict.get after.reassembly h.id ≡ some p))
unfolding handle_file_chunk
legacy_end_unnamed lib h p f bytes td sound known named unnamed writer alone is_open plain last
      decodes =
    let written = set_disk (put_bytes lib.fault f bytes (next_op td.disk)) td in
    let step =
      write_chunk_data-sequential lib p f bytes td (sound td.disk.ops) writer alone is_open in
    let (sent, content, left) = finish_file lib p f written writer alone in
    let other = eq_false "" h.id (λ e. named (sym e)) in
    let read : handle_file_chunk lib h td ≡ legacy_chunk lib h p (decoded bytes) td =
      rw (known, handle_file_chunk)
        (ap
            (λ b.
              if b
              then await_binary h p td
              else legacy_chunk lib h p (lib.decode_base64 h.payload) td)
            plain
          ∙ ap (λ d. legacy_chunk lib h p d td) decodes) in
    let ended =
      ap (λ w. if h.final then finish_reassembly lib p w else w) step
      ∙ ap (λ b. if b then finish_reassembly lib p written else written) last in
    rw (read ∙ ended) (
      sent ∙ ap (λ id. td.sent ++ transfer_done lib id ∷ []) unnamed,
      ap (λ m. Dict.get m h.id) left
          ∙ get-remove td.reassembly (td.heap p).id h.id
          ∙ rw (unnamed, other) known,
    )

make_dirs_sound :
    (fault : ℕ → Option Fault) (path : String) (d : Disk)
    → fault d.ops ≡ none
    → make_dirs fault path d ≡ (true, next_op d)
unfolding make_dirs
make_dirs_sound fault path d sound = rw (sound, make_dirs) refl

-- A file of an archive whose path holds a longer one keeps that one's tail, as it is not truncated; the
-- extraction reports no error.
pub extracted_tail :
    (lib : Libraries) (dst name : String) (bytes : List ℕ) (d : Disk)
    → ((n : ℕ) → lib.fault n ≡ none)
    → (let (err, after) = extract_entry lib dst (regular name bytes) d in
        let old = file_at (lib.join dst name) d in
        (err ≡ none) × (file_at (lib.join dst name) after ≡ bytes ++ drop (length bytes) old))
unfolding extract_entry overwrite splice
extracted_tail lib dst name bytes d sound =
    let path = lib.join dst name in
    let made = make_dirs_sound lib.fault (lib.parent path) d (sound d.ops) in
    let step =
      ap (λ m. extract_file lib path bytes m) made
      ∙ ap (λ why. error_of lib (overwrite_as lib.fault why path bytes (next_op d)))
          (sound (suc d.ops)) in
    let whole : 0 + length bytes ≡ length bytes = omega arith in
    rw step (
      refl,
      ap bytes_of (get-put_self d.content path _)
          ∙ ap (λ n. bytes ++ drop n (file_at path d)) whole,
    )
