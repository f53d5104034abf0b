-- ===== src/Transfer/Streaming.antt =====
-- The two senders of filetransfer_stream.go: sendFileStreaming, which reads a chunk at a time, against
-- sendFileFrames, which has all chunks in memory.
use remotecmd_cli.Prelude.{
  ℕ, zero, suc, ◌∙◌, ◌+◌, ◌^◌, ◌≤◌, ◌≡◌, refl, sym, Bool, true, false, Option, none, some, List, [],
  ◌∷◌, arith, length, take, drop, length-take, length-drop, drop_add, drop_beyond, ltb, leb, eqb,
  Bool-cases, ap, inl, inr,
}
use remotecmd_cli.Protocol.{Header}
use remotecmd_cli.Transfer.Chunk.{chunks_from, chunk_data}
use remotecmd_cli.Transfer.Cutting.{chunk_data_cuts, chunk_at}
use remotecmd_cli.Transfer.Restating.{restate, restate-write_message, restate-send_chunk}
use remotecmd_cli.Transfer.Sender.{
  init_failed, on_round, on_sent, Outside, Port, SendError, Reader, Streamed, read_full, is_final,
  send_chunks, send_file_frames, stream_loop, send_file_streaming, then_stream, then_chunks,
}

-- What is left of a payload, cut into chunks of `suc k` bytes, on fuel.
cut_rest : ℕ → ℕ → List ℕ → List (List ℕ)
cut_rest zero k bytes = []
cut_rest (suc fuel) k [] = []
cut_rest (suc fuel) k (b ∷ bytes) = (b ∷ take k bytes) ∷ cut_rest fuel k (drop k bytes)

cut_rest-nil : (fuel k : ℕ) → cut_rest fuel k [] ≡ []
unfolding cut_rest
cut_rest-nil zero k = refl
cut_rest-nil (suc fuel) k = refl

cut_rest-some :
    (fuel k : ℕ) (bytes : List ℕ)
    → 1 ≤ length bytes
    → take (suc k) bytes ∷ cut_rest fuel k (drop (suc k) bytes) ≡ cut_rest (suc fuel) k bytes
unfolding cut_rest
cut_rest-some fuel k [] bytes_left = ground arith
cut_rest-some fuel k (b ∷ bytes) bytes_left = refl

length-cut_rest :
    (fuel k : ℕ) (bytes : List ℕ) → 1 ≤ length bytes → 1 ≤ fuel → 1 ≤ length (cut_rest fuel k bytes)
unfolding cut_rest
length-cut_rest zero k bytes bytes_left enough = ground arith
length-cut_rest (suc fuel) k [] bytes_left enough = ground arith
length-cut_rest (suc fuel) k (b ∷ bytes) bytes_left enough = omega arith

some_left : (fuel k : ℕ) (bytes : List ℕ) → 1 ≤ length (cut_rest fuel k bytes) → 1 ≤ length bytes
unfolding cut_rest
some_left zero k [] h = ground arith
some_left (suc fuel) k [] h = ground arith
some_left fuel k (b ∷ bytes) h = omega arith

-- A round for each byte is enough.
cut_rest-enough :
    (fuel k : ℕ) (bytes : List ℕ)
    → length bytes ≤ fuel
    → cut_rest (suc fuel) k bytes ≡ cut_rest fuel k bytes
unfolding cut_rest
cut_rest-enough fuel k [] h = sym (cut_rest-nil fuel k)
cut_rest-enough zero k (b ∷ bytes) h = ground arith
cut_rest-enough (suc fuel) k (b ∷ bytes) h =
    ap (◌∷◌ (b ∷ take k bytes))
      (cut_rest-enough fuel k (drop k bytes) (omega (arith, length-drop k bytes)))

chunks_from-cut_rest :
    (fuel at k : ℕ) (bytes : List ℕ)
    → chunks_from fuel at (suc k) bytes ≡ cut_rest fuel k (drop at bytes)
unfolding chunks_from cut_rest
chunks_from-cut_rest zero at k bytes = refl
chunks_from-cut_rest (suc fuel) at k bytes = elim (Bool-cases (ltb at (length bytes))) [
  | inl more ↦
      rw
        (
          more,
          chunk_at (suc k) bytes (omega arith) at,
          chunks_from-cut_rest fuel (at + suc k) k bytes,
          drop_add at (suc k) bytes,
        )
        (cut_rest-some fuel k (drop at bytes) (ground (arith, length-drop at bytes)))
  | inr over ↦ rw (over, drop_beyond at bytes (ground arith)) refl
]

-- The reader with these bytes left.
abbrev pub reader : List ℕ → Reader
reader bytes = record { rest = bytes; failure = none }

-- A round of the one is a round of the other where what follows is the same.
on_round-on_sent :
    (n : ℕ) (final : Bool) (sent sent' : ℕ) (more : Port → Streamed)
    (next : Port → Option SendError × Port) (r : Option SendError × Port)
    → ((port : Port)
        → (final ≡ true → (none, port) ≡ next port)
          × (final ≡ false → restate n (more port).1 ≡ next port))
    → restate n (on_round final sent sent' more r).1 ≡ on_sent next (restate n r)
on_round-on_sent n true sent sent' more next (none, port) h = (h port).0 refl
on_round-on_sent n false sent sent' more next (none, port) h = (h port).1 refl
on_round-on_sent n true sent sent' more next (some e, port) h = refl
on_round-on_sent n false sent sent' more next (some e, port) h = refl

module _ (o : Outside) (base : Header) (k total : ℕ) where
  -- Both know at the same chunk that it is the last.
  last_alike :
      (fuel i sent b : ℕ) (bytes : List ℕ)
      → total ≡ sent + suc (length bytes)
      → length bytes ≤ fuel
      → is_final
          (read_full (suc k) (reader (b ∷ bytes))).1
          (sent + suc (length (take k bytes)))
          total
        ≡ eqb (suc i) (i + suc (length (cut_rest fuel k (drop k bytes))))
  unfolding read_full cut_rest
  last_alike fuel i sent b bytes whole enough =
      let left = length-drop k bytes in
      let out = length-take k bytes in
      elim (Bool-cases (leb (length bytes) k)) [
        | inl last ↦
            let none_left =
              ap (λ rest. length (cut_rest fuel k rest)) (drop_beyond k bytes (ground arith)) in
            let nothing = ap length (cut_rest-nil fuel k) in
            ground (arith, none_left, nothing, left, out)
        | inr more ↦
            let bytes_left =
              length-cut_rest fuel k (drop k bytes) (ground (arith, left)) (ground arith) in
            ground (arith, bytes_left, left, out)
      ]

  no_chunks :
      (n i : ℕ) (chunks : List (List ℕ)) (port : Port)
      → length chunks ≡ 0
      → (none, port) ≡ send_chunks o base n i chunks port
  unfolding send_chunks
  no_chunks n i [] port h = refl
  no_chunks n i (chunk ∷ chunks) port h = ground arith

  next_index : (i n : ℕ) → suc i + n ≡ i + suc n
  next_index i n = omega arith

  stream_loop-send_chunks :
      (fuel i sent : ℕ) (bytes : List ℕ) (port : Port)
      → 1 ≤ length bytes
      → total ≡ sent + length bytes
      → length bytes ≤ fuel
      → (let n = i + length (cut_rest fuel k bytes) in
          restate n (stream_loop fuel o base (suc k) total i sent (reader bytes) port).1
          ≡ send_chunks o base n i (cut_rest fuel k bytes) port)
  unfolding stream_loop send_chunks cut_rest read_full
  stream_loop-send_chunks fuel i sent [] port bytes_left whole enough = ground arith
  stream_loop-send_chunks zero i sent (b ∷ bytes) port bytes_left whole enough = ground arith
  stream_loop-send_chunks (suc fuel) i sent (b ∷ bytes) port bytes_left whole enough =
      let rest = cut_rest fuel k (drop k bytes) in
      let n = i + suc (length rest) in
      let left = length-drop k bytes in
      let out = length-take k bytes in
      let sent' = sent + suc (length (take k bytes)) in
      let next : Port → Option SendError × Port =
        λ port'. send_chunks o base n (suc i) rest port' in
      rw (last_alike fuel i sent b bytes whole (omega (arith, enough))) (
        on_round-on_sent n (eqb (suc i) n) sent sent'
          (λ port'.
            stream_loop fuel o base (suc k) total (suc i) sent' (reader (drop k bytes)) port')
          next _
          (λ port'. (
            λ last. no_chunks _ (suc i) rest port' (ground (arith, last)),
            λ more. rw⁻¹ (next_index i (length rest)) (
                stream_loop-send_chunks fuel (suc i) sent' (drop k bytes) port'
                  (some_left fuel k (drop k bytes) (ground (arith, more)))
                  (omega (arith, left, out, whole)) (omega (arith, left, enough))),
          ))
        ∙ ap (on_sent next) (restate-send_chunk n i o base (eqb (suc i) n) (b ∷ take k bytes) port))

then_stream-then_chunks :
    (o : Outside) (base : Header) (k b : ℕ) (bytes : List ℕ) (r : Option SendError × Port)
    → (let chunks = chunk_data (b ∷ bytes) (suc k) in
        restate (length chunks) r ≡ r
        → restate
            (length chunks)
            (then_stream
              (suc (suc (length bytes)))
              o
              base
              (suc k)
              (suc (length bytes))
              (reader (b ∷ bytes))
              r).1
          ≡ then_chunks o base chunks r)
unfolding chunk_data
then_stream-then_chunks o base k b bytes (some e, port) same = same
then_stream-then_chunks o base k b bytes (none, port) same =
    let all = b ∷ bytes in
    let cut = chunks_from-cut_rest (length all) 0 k all in
    let enough = cut_rest-enough (length all) k all (omega arith) in
    let from_zero : 0 + length (cut_rest (suc (length all)) k all)
        ≡ length (cut_rest (suc (length all)) k all) =
      omega arith in
    rw (cut, sym enough, sym from_zero)
      (stream_loop-send_chunks o base k (length all) (suc (length all)) 0 0 all port (omega arith)
        (omega arith) (omega arith))

-- For a file that has bytes and is read without an error up to its announced size, and a chunk size that
-- is at least 1, where both together stay in 63 bits, sendFileStreaming writes to the connection exactly
-- what sendFileFrames does on the bytes in memory, and fails exactly where it does and for the same reason,
-- whatever writes fail and whatever the frames' sizes are; only the texts number the chunk differently:
-- the one by `i`, the other by `i + 1` and the number of chunks.
pub send_file_streaming-send_file_frames :
    (o : Outside) (base : Header) (c b : ℕ) (bytes : List ℕ) (port : Port)
    → 1 ≤ c
    → suc (length bytes) + c ≤ 2 ^ 63
    → restate
        (length (chunk_data (b ∷ bytes) c))
        (send_file_streaming o base (reader (b ∷ bytes)) (suc (length bytes)) c port).1
      ≡ send_file_frames o base (b ∷ bytes) c port
unfolding send_file_streaming send_file_frames
send_file_streaming-send_file_frames o base zero b bytes port some_size small = ground arith
send_file_streaming-send_file_frames o base (suc k) b bytes port some_size small =
    let (_, _, count) = chunk_data_cuts (suc k) (b ∷ bytes) some_size small in
    rw count (
      then_stream-then_chunks o base k b bytes _
        (restate-write_message _ o init_failed init_failed _ port (λ e. refl)))
