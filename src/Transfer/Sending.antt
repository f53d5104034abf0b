-- ===== src/Transfer/Sending.antt =====
-- What the sender writes when no write fails: the frames of a transfer in order (filetransfer_stream.go).
use remotecmd_cli.Prelude.{
  ℕ, suc, ◌≤◌, ◌≡◌, refl, sym, ◌∙◌, Bool, true, false, none, List, [], ◌∷◌, ◌++◌, arith, length,
  append_assoc, append_nil, ltb, eqb, All,
}
use remotecmd_cli.Prelude.Int.{ℤ, pos}
use remotecmd_cli.Protocol.{Header, Message}
use remotecmd_cli.Relay.Client.{Packet, json, binary}
use remotecmd_cli.Transfer.Compress.{try_compress}
use remotecmd_cli.Transfer.Chunk.{chunk_data}
use remotecmd_cli.Transfer.Sender.{
  Outside, Port, Place, counted, write_packet, write_message, init_message, chunk_header,
  write_payload, send_chunk, send_chunks, send_file_frames, encoded, max_frame,
}

-- A message that marshalWithinLimit lets through.
abbrev pub Fits : Outside → Message → Type 0
Fits o m = ltb max_frame (length (o.marshal m)) ≡ false

-- Every write succeeds, the JSON messages of the transfer fit in a frame, and gzip's output is never empty.
unfoldable pub IsClear : Outside → Header → Type 0
IsClear o base =
    ((n : ℕ) → o.write_error n ≡ none)
    × ((total : ℤ) (size : ℕ) → Fits o (init_message base total size))
    × ((i : ℕ) (final compressed : Bool) → Fits o (chunk_header base i final compressed))
    × ((bytes : List ℕ) → 1 ≤ length (o.gzip bytes))

-- The port behind some frames.
abbrev pub behind : List Packet → Port → Port
behind [] port = port
behind (frame ∷ frames) port =
    behind frames (record { wire = port.wire ++ frame ∷ []; writes = suc port.writes })

-- The two frames of a chunk.
abbrev pub chunk_pair : Outside → Header → ℕ → Bool → List ℕ → List Packet
chunk_pair o base i final chunk =
    let (payload, compressed) = encoded (try_compress o.gzip chunk) chunk in
    json (chunk_header base i final compressed) ∷ binary payload ∷ []

-- The frames of the chunks from chunk `i` of `total` on.
unfoldable pub chunk_frames : Outside → Header → ℕ → ℕ → List (List ℕ) → List Packet
chunk_frames o base total i [] = []
chunk_frames o base total i (chunk ∷ chunks) =
    chunk_pair o base i (eqb (suc i) total) chunk ++ chunk_frames o base total (suc i) chunks

-- All frames of a transfer.
unfoldable pub transfer_frames : Outside → Header → List ℕ → ℕ → List Packet
transfer_frames o base bytes c =
    let chunks = chunk_data bytes c in
    json (init_message base (pos (length chunks)) (length bytes))
    ∷ chunk_frames o base (length chunks) 0 chunks

module _ (o : Outside) (base : Header) (clear : IsClear o base) where
  pub write_message-clear :
      (fault : _) (m : _) (port : Port)
      → Fits o m
      → write_message o fault m port ≡ (none, behind (json m ∷ []) port)
  unfolding write_message write_packet IsClear
  write_message-clear fault m port fits =
      let (writes, _, _, _) = clear in rw (fits, writes port.writes) refl

  pub write_init :
      (fault : _) (total : ℤ) (size : ℕ) (port : Port)
      → write_message o fault (init_message base total size) port
        ≡ (none, behind (json (init_message base total size) ∷ []) port)
  unfolding IsClear
  write_init fault total size port =
      let (_, init, _, _) = clear in write_message-clear fault _ port (init total size)

  write_header :
      (fault : _) (i : ℕ) (final compressed : Bool) (port : Port)
      → write_message o fault (chunk_header base i final compressed) port
        ≡ (none, behind (json (chunk_header base i final compressed) ∷ []) port)
  unfolding IsClear
  write_header fault i final compressed port =
      let (_, _, header, _) = clear in write_message-clear fault _ port (header i final compressed)

  write_payload-clear :
      (place : Place) (bytes : List ℕ) (port : Port)
      → 1 ≤ length bytes
      → write_payload o place bytes port ≡ (none, behind (binary bytes ∷ []) port)
  unfolding write_payload write_packet IsClear
  write_payload-clear place [] port h = ground arith
  write_payload-clear place (b ∷ bytes) port h =
      let (writes, _, _, _) = clear in rw (writes port.writes) refl

  encoded_some :
      (chunk : List ℕ) → 1 ≤ length chunk → 1 ≤ length (encoded (try_compress o.gzip chunk) chunk).0
  unfolding try_compress IsClear
  encoded_some chunk h = let (_, _, _, packed) = clear in ground (arith, packed chunk)

  pub send_chunk-clear :
      (place : Place) (i : ℕ) (final : Bool) (chunk : List ℕ) (port : Port)
      → 1 ≤ length chunk
      → send_chunk o base place i final chunk port
        ≡ (none, behind (chunk_pair o base i final chunk) port)
  unfolding send_chunk
  send_chunk-clear place i final chunk port h =
      rw
        (
          write_header _ i final _ port,
          write_payload-clear place _ (behind (json _ ∷ []) port) (encoded_some chunk h),
        )
        refl

  send_chunks-clear :
      (total i : ℕ) (chunks : List (List ℕ)) (port : Port)
      → All (λ chunk. 1 ≤ length chunk) chunks
      → send_chunks o base total i chunks port
        ≡ (none, behind (chunk_frames o base total i chunks) port)
  unfolding send_chunks chunk_frames
  send_chunks-clear total i [] port h = refl
  send_chunks-clear total i (chunk ∷ chunks) port (h, hs) =
      let first = send_chunk-clear (counted (suc i) total) i (eqb (suc i) total) chunk port h in
      rw first (send_chunks-clear total (suc i) chunks _ hs)

  pub send_file_frames-clear :
      (c : ℕ) (bytes : List ℕ) (port : Port)
      → All (λ chunk. 1 ≤ length chunk) (chunk_data bytes c)
      → send_file_frames o base bytes c port ≡ (none, behind (transfer_frames o base bytes c) port)
  unfolding send_file_frames transfer_frames
  send_file_frames-clear c bytes port h =
      rw
        (
          write_init _ _ _ port,
          send_chunks-clear (length (chunk_data bytes c)) 0 (chunk_data bytes c) _ h,
        )
        refl

  -- An empty file: the header of one final chunk, with no payload behind it.
  pub send_file_frames-empty :
      (c : ℕ) (port : Port)
      → send_file_frames o base [] c port ≡ (
        none,
        behind
            (json (init_message base (pos 1) 0) ∷ json (chunk_header base 0 true false) ∷ [])
            port,
      )
  unfolding send_file_frames chunk_data send_chunks send_chunk write_payload try_compress
  send_file_frames-empty c port =
      rw (write_init _ (pos 1) 0 port, write_header _ 0 true false (behind (json _ ∷ []) port)) refl

pub behind-wire :
    (frames : List Packet) (port : Port) → (behind frames port).wire ≡ port.wire ++ frames
behind-wire [] port = sym (append_nil port.wire)
behind-wire (frame ∷ frames) port =
    behind-wire frames _ ∙ append_assoc port.wire (frame ∷ []) frames
