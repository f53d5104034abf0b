-- ===== src/Transfer/Incoming.antt =====
-- A transfer of one file at the daemon, chunk by chunk (daemon_filetransfer.go).
use remotecmd_cli.Prelude.{
  ℕ, ◌+◌, ◌≡◌, refl, ap, ◌∙◌, String, true, false, Option, none, some, List, [], ◌∷◌, ◌++◌, arith,
  length, length-append, drop, eqb_refl, if◌then◌else◌, ◌-◌, drop_beyond, take_all, append_nil,
}
use remotecmd_cli.Dict
use remotecmd_cli.Dict.{get-put_self, get-remove_self}
use remotecmd_cli.Protocol.{Message}
use remotecmd_cli.Transfer.Disk.{
  Disk, Fault, write_as, splice, write_handle, put_bytes, next_op, file_at, close, zeros,
}
use remotecmd_cli.Transfer.Receiver.{
  Daemon, Reassembly, Libraries, send_message, transfer_done, set_cell, drop_reassembly,
}
use remotecmd_cli.Transfer.Arrival.{write_chunk_data, finish_reassembly, set_disk, chunk_written}

-- Bytes written at the end of a file.
splice_end : (old bytes : List ℕ) → splice old (length old) bytes ≡ old ++ bytes
unfolding splice
splice_end old bytes =
    let no_gap : zeros (length old - length old) ≡ [] = ap zeros {y = 0} (omega arith) in
    let nothing : drop (length old + length bytes) old ≡ [] = drop_beyond _ old (omega arith) in
    rw (no_gap, nothing, append_nil, append_nil)
      (ap (λ xs. xs ++ bytes) (take_all (length old) old (omega arith)))

-- The transfer `id` is under way in cell `p`, which writes to the open file of handle `f` at `dst`; the
-- file holds `written`, and the messages `out` have been sent.
unfoldable pub Incoming : String → ℕ → ℕ → String → List ℕ → List Message → Daemon → Type 0
Incoming id p f dst written out td =
    (Dict.get td.reassembly id ≡ some p)
    × ((td.heap p).writer ≡ some f)
    × ((td.heap p).parallel ≡ false)
    × ((td.disk.handles f).is_open ≡ true)
    × ((td.disk.handles f).path ≡ dst)
    × ((td.disk.handles f).offset ≡ length written)
    × (file_at dst td.disk ≡ written)
    × (td.sent ≡ out)

pub write_handle-open :
    (fault : ℕ → Option Fault) (h : ℕ) (bytes : List ℕ) (d : Disk)
    → fault d.ops ≡ none
    → (d.handles h).is_open ≡ true
    → write_handle fault h bytes d ≡ (true, put_bytes fault h bytes (next_op d))
unfolding write_handle
write_handle-open fault h bytes d sound is_open =
    let opened =
      ap (λ b. if b then write_as fault (fault d.ops) h bytes d else (false, next_op d)) is_open in
    opened ∙ ap (λ why. write_as fault why h bytes d) sound

pub write_chunk_data-sequential :
    (lib : Libraries) (p f : ℕ) (chunk : List ℕ) (td : Daemon)
    → lib.fault (td.disk.ops) ≡ none
    → (td.heap p).writer ≡ some f
    → (td.heap p).parallel ≡ false
    → (td.disk.handles f).is_open ≡ true
    → write_chunk_data lib p chunk td ≡ set_disk (put_bytes lib.fault f chunk (next_op td.disk)) td
unfolding write_chunk_data write_handle
write_chunk_data-sequential lib p f chunk td sound writer alone is_open =
    rw (writer, write_chunk_data, alone, write_handle-open lib.fault f chunk td.disk sound is_open)
      refl

-- A chunk arrives: written grows.
put_bytes-Incoming :
    (lib : Libraries) (id : String) (p f : ℕ) (dst : String) (written chunk : List ℕ)
    (out : List Message) (td : Daemon)
    → Incoming id p f dst written out td
    → Incoming id p f dst
        (written ++ chunk)
        out
        (set_disk (put_bytes lib.fault f chunk (next_op td.disk)) td)
unfolding Incoming
put_bytes-Incoming lib id p f dst written chunk out td
      (known, writer, alone, is_open, at, offset, holds, sent) =
    (
      known,
      writer,
      alone,
      rw (eqb_refl f) is_open,
      rw (eqb_refl f) at,
      rw (eqb_refl f) (omega (arith, offset, length-append written chunk)),
      rw (at, get-put_self, offset, holds) (splice_end written chunk),
      sent,
    )

-- A change of the cell that leaves its writer as it is.
pub set_cell-Incoming :
    (id : String) (p f : ℕ) (dst : String) (written : List ℕ) (out : List Message) (r : Reassembly)
    (pending : Option ℕ) (td : Daemon)
    → r.writer ≡ (td.heap p).writer
    → r.parallel ≡ (td.heap p).parallel
    → Incoming id p f dst written out td
    → Incoming id p f dst written out (set_cell p r (record td { pending = pending }))
unfolding Incoming
set_cell-Incoming id p f dst written out r pending td same alike inc =
    let (known, writer, alone, is_open, at, offset, holds, sent) = inc in
    (
      known,
      rw (eqb_refl p) (same ∙ writer),
      rw (eqb_refl p) (alike ∙ alone),
      is_open,
      at,
      offset,
      holds,
      sent,
    )

-- The transfer is over: the file is closed, its entry is gone, and the result is sent.
unfoldable pub Completed : Libraries → String → ℕ → String → List ℕ → List Message → Daemon → Type 0
Completed lib id f dst bytes out td =
    (file_at dst td.disk ≡ bytes)
    × (td.sent ≡ out ++ transfer_done lib id ∷ [])
    × (Dict.get td.reassembly id ≡ none)
    × ((td.disk.handles f).is_open ≡ false)

module _ (lib : Libraries) (sound : (n : ℕ) → lib.fault n ≡ none) where
  finish-Completed :
      (id : String) (p f : ℕ) (dst : String) (written : List ℕ) (out : List Message) (td : Daemon)
      → Incoming id p f dst written out td
      → (td.heap p).id ≡ id
      → Completed lib id f dst written out (finish_reassembly lib p td)
  unfolding Incoming Completed finish_reassembly drop_reassembly send_message close
  finish-Completed id p f dst written out td inc named =
      let (known, writer, alone, is_open, at, offset, holds, sent) = inc in
      rw (alone, finish_reassembly, writer, named)
        (
          holds,
          ap (λ ms. ms ++ transfer_done lib id ∷ []) sent,
          get-remove_self td.reassembly id,
          rw (eqb_refl f) refl,
        )

  pub chunk_written-more :
      (id : String) (p f : ℕ) (dst : String) (written chunk : List ℕ) (out : List Message)
      (td : Daemon)
      → Incoming id p f dst written out td
      → (td.heap p).final ≡ false
      → Incoming id p f dst (written ++ chunk) out (chunk_written lib p chunk td)
  unfolding Incoming
  chunk_written-more id p f dst written chunk out td inc more =
      let (known, writer, alone, is_open, at, offset, holds, sent) = inc in
      rw
        (
          write_chunk_data-sequential lib p f chunk td (sound td.disk.ops) writer alone is_open,
          more,
        )
        (put_bytes-Incoming lib id p f dst written chunk out td inc)

  pub chunk_written-last :
      (id : String) (p f : ℕ) (dst : String) (written chunk : List ℕ) (out : List Message)
      (td : Daemon)
      → Incoming id p f dst written out td
      → (td.heap p).final ≡ true
      → (td.heap p).id ≡ id
      → Completed lib id f dst (written ++ chunk) out (chunk_written lib p chunk td)
  unfolding Incoming
  chunk_written-last id p f dst written chunk out td inc last named =
      let (known, writer, alone, is_open, at, offset, holds, sent) = inc in
      rw
        (
          write_chunk_data-sequential lib p f chunk td (sound td.disk.ops) writer alone is_open,
          last,
        )
        (finish-Completed id p f dst (written ++ chunk) out _
          (put_bytes-Incoming lib id p f dst written chunk out td inc) named)
