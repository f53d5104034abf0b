-- ===== src/Transfer/Relayed.antt =====
-- The frames of one transfer, as the relay passes them on (relay_handler.go), at the daemon
-- (daemon_filetransfer.go).
use remotecmd_cli.Prelude.{
  ℕ, suc, ◌+◌, ◌≡◌, refl, sym, ap, ◌∙◌, subst, String, Bool, true, false, none, some, List, [], ◌∷◌,
  ◌++◌, map, arith, length, eqb, eqb_refl, ◌==◌, if◌then◌else◌, Option-cases, inl, inr, append_nil,
  append_assoc,
}
use remotecmd_cli.Prelude.Int.{ℤ}
use remotecmd_cli.Dict.{get-put_self}
use remotecmd_cli.Protocol.{Header, Message, header}
use remotecmd_cli.Relay.Client.{Packet, ChunkRoute, json, text, binary}
use remotecmd_cli.Relay.Forward.{transfer_request}
use remotecmd_cli.Relay.Chunks
use remotecmd_cli.Transfer.Cutting.{concat}
use remotecmd_cli.Transfer.Compress.{try_compress}
use remotecmd_cli.Transfer.Disk.{create, create_as, bytes_of}
use remotecmd_cli.Transfer.Receiver.{Daemon, Libraries, decoded, set_cell, begin_chunked_transfer}
use remotecmd_cli.Transfer.Arrival.{
  inflate, inflated, handle_file_chunk, handle_binary_chunk, receive, receive_all, chunk_written,
  await_binary,
}
use remotecmd_cli.Transfer.Sender.{Outside, init_message, chunk_header, encoded}
use remotecmd_cli.Transfer.Incoming.{
  Incoming, Completed, set_cell-Incoming, chunk_written-more, chunk_written-last,
}
use remotecmd_cli.Transfer.Sending.{chunk_pair, chunk_frames}

-- A frame of the client as the daemon reads it once it has passed the relay by the transfer's route.
unfoldable pub forwarded : ChunkRoute → Packet → Packet
forwarded route (json m) =
    if (header m).kind == "file_transfer"
    then json (transfer_request route.req_id (header m))
    else json (Chunks.chunk_header route (header m))
forwarded route (text bytes) = text bytes
forwarded route (binary bytes) = binary bytes

pub receive_all-append :
    (lib : Libraries) (ps qs : List Packet) (td : Daemon)
    → receive_all lib (ps ++ qs) td ≡ receive_all lib qs (receive_all lib ps td)
unfolding receive_all
receive_all-append lib [] qs td = refl
receive_all-append lib (p ∷ ps) qs td = receive_all-append lib ps qs (receive lib p td)

-- The disk does every operation, and gunzip undoes gzip.
unfoldable pub Works : Outside → Libraries → Type 0
Works o lib =
    ((n : ℕ) → lib.fault n ≡ none)
    × ((bytes : List ℕ) → lib.gunzip_open (o.gzip bytes) ≡ none)
    × ((bytes : List ℕ) → lib.gunzip_read (o.gzip bytes) ≡ decoded bytes)

-- try_compress gives what gzip made of all of the chunk.
try_compress-gzip :
    (gzip : List ℕ → List ℕ) (chunk packed : List ℕ)
    → try_compress gzip chunk ≡ some packed
    → gzip chunk ≡ packed
unfolding try_compress
try_compress-gzip gzip chunk packed e = ground arith

-- The daemon once a header is taken, and once the payload is unpacked.
abbrev cleared : ℕ → Daemon → Daemon
cleared p td = set_cell p (record (td.heap p) { compressed = false }) td

abbrev taken : Daemon → Daemon
taken td = record td { pending = none }

module _ (lib : Libraries) (p : ℕ) (td : Daemon) (expected : td.pending ≡ some p) where
  plain_payload :
      (chunk : List ℕ)
      → (td.heap p).compressed ≡ false
      → handle_binary_chunk lib chunk td ≡ chunk_written lib p chunk (taken td)
  unfolding handle_binary_chunk
  plain_payload chunk plain = rw (expected, handle_binary_chunk, plain) refl

  packed_payload :
      (packed chunk : List ℕ)
      → (td.heap p).compressed ≡ true
      → lib.gunzip_open packed ≡ none
      → lib.gunzip_read packed ≡ decoded chunk
      → handle_binary_chunk lib packed td ≡ chunk_written lib p chunk (cleared p (taken td))
  unfolding handle_binary_chunk
  packed_payload packed chunk compressed opens reads =
      let read = taken td in
      let split =
        ap
          (λ c.
            if c
            then inflate lib p packed (lib.gunzip_open packed) read
            else chunk_written lib p packed read)
          compressed in
      let opened = ap (λ e. inflate lib p packed e read) opens in
      rw (expected, handle_binary_chunk)
        (split ∙ opened ∙ ap (λ bytes. inflated lib p bytes read) reads)

module _ (o : Outside) (lib : Libraries) (base : Header) (route : ChunkRoute) where
  -- The frames of a chunk, as the relay passes them on.
  abbrev relayed_pair : ℕ → Bool → List ℕ × Bool → List Packet
  relayed_pair i final (payload, compressed) =
      map (forwarded route) (json (chunk_header base i final compressed) ∷ binary payload ∷ [])

  module _ (p f : ℕ) (dst : String) (i : ℕ) (final : Bool) (written chunk : List ℕ)
      (out : List Message) (td : Daemon) (inc : Incoming route.req_id p f dst written out td) where
    -- Frames that make the daemon take up the chunk.
    Passed : List Packet → Type 0
    Passed frames =
        (td' : Daemon) × (receive_all lib frames td ≡ chunk_written lib p chunk td')
        × Incoming route.req_id p f dst written out td'
        × ((td'.heap p).id ≡ route.req_id)
        × ((td'.heap p).final ≡ final)

    abbrev pub head : Bool → Header
    head compressed =
        header (Chunks.chunk_header route (header (chunk_header base i final compressed)))

    pub header-received :
        (compressed : Bool)
        → receive lib (forwarded route (json (chunk_header base i final compressed))) td
          ≡ await_binary (head compressed) p td
    unfolding receive forwarded Chunks.chunk_header chunk_header handle_file_chunk Incoming
    header-received compressed = rw (inc.0, handle_file_chunk) refl

    -- The daemon behind the header.
    abbrev waiting : Bool → Daemon
    waiting compressed = await_binary (head compressed) p td

    pair-plain : Passed (relayed_pair i final (chunk, false))
    unfolding Passed receive_all forwarded receive Chunks.chunk_header chunk_header
    pair-plain = (
      taken (waiting false),
      ap (λ d. receive lib (binary chunk) d) (header-received false)
          ∙ plain_payload lib p (waiting false) refl chunk (rw (eqb_refl p) refl),
      set_cell-Incoming route.req_id p f dst written out _ none td refl refl inc,
      rw (eqb_refl p) refl,
      rw (eqb_refl p) refl,
    )

    pair-packed :
        lib.gunzip_open (o.gzip chunk) ≡ none
        → lib.gunzip_read (o.gzip chunk) ≡ decoded chunk
        → Passed (relayed_pair i final (o.gzip chunk, true))
    unfolding Passed receive_all forwarded receive Chunks.chunk_header chunk_header
    pair-packed opens reads = (
      cleared p (taken (waiting true)),
      ap (λ d. receive lib (binary (o.gzip chunk)) d) (header-received true)
          ∙ packed_payload lib p (waiting true) refl (o.gzip chunk) chunk (rw (eqb_refl p) refl)
              opens reads,
      set_cell-Incoming route.req_id p f dst written out _ none (taken (waiting true)) refl refl
          (set_cell-Incoming route.req_id p f dst written out _ none td refl refl inc),
      rw (eqb_refl p) refl,
      rw (eqb_refl p) refl,
    )

    pair-received : Works o lib → Passed (map (forwarded route) (chunk_pair o base i final chunk))
    unfolding Works
    pair-received works = elim (Option-cases (try_compress o.gzip chunk)) [
      | inl e ↦ subst (λ v. Passed (relayed_pair i final (encoded v chunk))) (sym e) pair-plain
      | inr (packed, e) ↦
          subst (λ v. Passed (relayed_pair i final (encoded v chunk)))
            (sym (e ∙ ap some (sym (try_compress-gzip o.gzip chunk packed e))))
            (pair-packed (works.1 chunk) (works.2 chunk))
    ]

  -- The chunks from one on, of which the last is the transfer's last.
  pub chunks-received :
      (p f : ℕ) (dst : String) (total i : ℕ) (written chunk : List ℕ) (chunks : List (List ℕ))
      (out : List Message) (td : Daemon)
      → Works o lib
      → Incoming route.req_id p f dst written out td
      → i + suc (length chunks) ≡ total
      → Completed lib route.req_id f dst (written ++ concat (chunk ∷ chunks)) out (
          receive_all lib (map (forwarded route) (chunk_frames o base total i (chunk ∷ chunks))) td)
  unfolding chunk_frames concat receive_all Works Passed
  chunks-received p f dst total i written chunk [] out td works inc ends =
      let (td', arrives, inc', named, final) =
        pair-received p f dst i (eqb (suc i) total) written chunk out td inc works in
      let last : eqb (suc i) total ≡ true = ground (arith, ends) in
      rw (arrives, append_nil chunk)
        (chunk_written-last lib works.0 route.req_id p f dst written chunk out td' inc'
          (final ∙ last) named)
  chunks-received p f dst total i written chunk (next ∷ chunks) out td works inc ends =
      let (td', arrives, inc', named, final) =
        pair-received p f dst i (eqb (suc i) total) written chunk out td inc works in
      let more : eqb (suc i) total ≡ false = ground (arith, ends) in
      let step =
        chunk_written-more lib works.0 route.req_id p f dst written chunk out td' inc'
          (final ∙ more) in
      rw (arrives, sym (append_assoc written chunk (concat (next ∷ chunks))))
        (chunks-received p f dst total (suc i) (written ++ chunk) next chunks out _ works step
          (omega (arith, ends)))

  -- The message that announces the transfer.
  pub begin-received :
      (total : ℤ) (size : ℕ) (td : Daemon)
      → Works o lib
      → base.mode ≡ "scp"
      → Incoming route.req_id td.allocated td.disk.opened base.dst_path [] td.sent
          (receive lib (forwarded route (json (init_message base total size))) td)
  unfolding Works Incoming receive forwarded transfer_request init_message begin_chunked_transfer
      create
  begin-received total size td works scp =
      let made = create_as lib.fault none base.dst_path td.disk in
      let known = get-put_self td.reassembly route.req_id td.allocated in
      let holds = ap bytes_of (get-put_self td.disk.content base.dst_path []) in
      let cell = eqb_refl td.allocated in
      let handle = eqb_refl td.disk.opened in
      rw (scp, create, works.0 td.disk.ops)
        (
          known,
          rw cell refl,
          rw cell refl,
          rw handle refl,
          rw handle refl,
          rw handle refl,
          holds,
          refl,
        )
