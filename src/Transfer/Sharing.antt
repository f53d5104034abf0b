-- ===== src/Transfer/Sharing.antt =====
-- How parallel streams share the chunks of a file (sendFileParallel of filetransfer_stream.go).
use native.Mathlib.Nat.{mod-add-div', mod-lt, le-mul_of_pos_right}
use remotecmd_cli.Prelude.{
  ℕ, zero, suc, ◌+◌, ◌*◌, ◌/◌, ◌%◌, ◌≤◌, ◌<◌, ◌≡◌, refl, sym, Bool, true, none, List, [], ◌∷◌, ◌++◌,
  arith, length, ltb, leb, eqb, any, if◌then◌else◌, Bool-cases, inl, inr,
}
use remotecmd_cli.Protocol.{Header}
use remotecmd_cli.Relay.Client.{Packet}
use remotecmd_cli.Transfer.Sender.{Outside, Port, unnumbered, send_chunk}
use remotecmd_cli.Transfer.Sending.{IsClear, behind, chunk_pair, send_chunk-clear}
use remotecmd_cli.Transfer.Splicing.{chunk_of}
use remotecmd_cli.Transfer.Streams.{send_stream, send_read}

-- The chunks of a stream that starts at one of them.
unfoldable pub stream_chunks : ℕ → ℕ → ℕ → ℕ → List ℕ
stream_chunks zero streams total seq = []
stream_chunks (suc fuel) streams total seq =
    let rest = stream_chunks fuel streams total (seq + streams) in
    if ltb seq total then seq ∷ rest else []

-- The frames of such chunks, of which the last of the stream is marked.
unfoldable pub stream_frames : Outside → Header → ℕ → ℕ → ℕ → List ℕ → List ℕ → List Packet
stream_frames o base c streams total file [] = []
stream_frames o base c streams total file (seq ∷ seqs) =
    chunk_pair o base seq (leb total (seq + streams)) (chunk_of c file seq)
    ++ stream_frames o base c streams total file seqs

stream_chunks-cover :
    (k j fuel streams total seq : ℕ)
    → k ≡ seq + j * streams
    → k < total
    → j < fuel
    → any (eqb k) (stream_chunks fuel streams total seq) ≡ true
unfolding stream_chunks
stream_chunks-cover k j zero streams total seq at inside enough = ground arith
stream_chunks-cover k zero (suc fuel) streams total seq at inside enough = ground (arith, at)
stream_chunks-cover k (suc j) (suc fuel) streams total seq at inside enough =
    let at' : k ≡ seq + streams + j * streams = omega (arith, at) in
    let more : ltb seq total ≡ true = ground (arith, inside, at') in
    let found =
      stream_chunks-cover k j fuel streams total (seq + streams) at' inside
        (omega (arith, enough)) in
    rw more (ground (arith, found))

send_read-some :
    (o : Outside) (base : Header) (seq : ℕ) (final : Bool) (chunk : List ℕ) (port : Port)
    → 1 ≤ length chunk
    → send_read o base seq final chunk port ≡ send_chunk o base unnumbered seq final chunk port
send_read-some o base seq final [] port h = ground arith
send_read-some o base seq final (b ∷ bytes) port h = refl

send_stream-frames :
    (o : Outside) (base : Header) (clear : IsClear o base) (fuel c streams total : ℕ)
    (file : List ℕ) (seq : ℕ) (port : Port)
    → ((k : ℕ) → k < total → 1 ≤ length (chunk_of c file k))
    → send_stream fuel o base c streams total file seq port ≡ (
      none,
      behind
          (stream_frames o base c streams total file (stream_chunks fuel streams total seq))
          port,
    )
unfolding send_stream stream_frames stream_chunks
send_stream-frames o base clear zero c streams total file seq port whole = refl
send_stream-frames o base clear (suc fuel) c streams total file seq port whole =
    elim (Bool-cases (ltb seq total)) [
      | inl more ↦
          let chunk = chunk_of c file seq in
          let some_bytes = whole seq (ground (arith, more)) in
          let read = send_read-some o base seq (leb total (seq + streams)) chunk port some_bytes in
          let sent =
            send_chunk-clear o base clear unnumbered seq (leb total (seq + streams)) chunk port
              some_bytes in
          rw
            (
              more,
              read,
              sent,
              send_stream-frames o base clear fuel c streams total file (seq + streams)
                  (behind (chunk_pair o base seq (leb total (seq + streams)) chunk) port) whole,
            )
            refl
      | inr over ↦ rw over refl
    ]

-- For a file of which chunk numbers below the total are not empty, and at least one stream: where no write
-- fails, the messages of the transfer fit in a frame and gzip's output is never empty, the loop of a
-- stream ends without an error and writes exactly the header and payload of each of its chunks, the last
-- one marked as final; and every chunk number below the total is among those of one stream, the one
-- numbered by its remainder.
pub send_stream_shares :
    (o : Outside) (base : Header) (c streams total : ℕ) (file : List ℕ) (port : Port)
    → IsClear o base
    → 1 ≤ streams
    → ((k : ℕ) → k < total → 1 ≤ length (chunk_of c file k))
    → ((s : ℕ)
        → send_stream total o base c streams total file s port ≡ (
          none,
          behind
              (stream_frames o base c streams total file (stream_chunks total streams total s))
              port,
        ))
      × ((k : ℕ)
          → k < total
          → (k % streams < streams)
            × (any (eqb k) (stream_chunks total streams total (k % streams)) ≡ true))
send_stream_shares o base c streams total file port clear some_streams whole = (
  λ s. send_stream-frames o base clear total c streams total file s port whole,
  λ k inside.
      let parts = mod-add-div' k streams in
      (
        mod-lt k (omega (arith, some_streams)),
        stream_chunks-cover k (k / streams) total streams total (k % streams) (sym parts) inside (
            omega (
              arith,
              parts,
              inside,
              le-mul_of_pos_right {m = streams} (k / streams) (omega (arith, some_streams)),
            )),
      ),
)
