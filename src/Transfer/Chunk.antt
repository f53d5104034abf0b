-- ===== src/Transfer/Chunk.antt =====
-- filetransfer_chunk.go: how a payload is cut into chunks, and the limit on a frame.
use Prim.Native.Nat.{min}
use remotecmd_cli.Prelude.{
  ℕ, zero, suc, ◌+◌, ◌-◌, ◌/◌, ◌%◌, ◌^◌, List, [], ◌∷◌, length, take, drop, ltb, eqb, if◌then◌else◌,
}
use remotecmd_cli.Prelude.Int.{ℤ, pos, negate}

-- size + chunkSize - 1 on 64 bits, as two's complement, divided towards zero as Go divides.
abbrev signed_div : ℕ → ℕ → ℤ
signed_div n c = if ltb n (2 ^ 63) then pos (n / c) else negate ((2 ^ 64 - n) / c)

-- chunkCount, for a size and a chunk size from 1 to 2^63 - 1.
unfoldable pub chunk_count : ℕ → ℕ → ℤ
chunk_count size chunk_size =
    if eqb size 0 then pos 1 else signed_div ((size + chunk_size - 1) % 2 ^ 64) chunk_size

-- The loop of chunkData at position `i`, on fuel.
unfoldable pub chunks_from : ℕ → ℕ → ℕ → List ℕ → List (List ℕ)
chunks_from zero i chunk_size bytes = []
chunks_from (suc fuel) i chunk_size bytes =
    let rest = chunks_from fuel (i + chunk_size) chunk_size bytes in
    let end = min (i + chunk_size) (length bytes) in
    if ltb i (length bytes) then take (end - i) (drop i bytes) ∷ rest else []

-- chunkData. The loop runs at most once for each byte, so the number of bytes is enough fuel.
unfoldable pub chunk_data : List ℕ → ℕ → List (List ℕ)
unfolding chunks_from
chunk_data [] chunk_size = [] ∷ []
chunk_data (b ∷ bytes) chunk_size = chunks_from (length (b ∷ bytes)) 0 chunk_size (b ∷ bytes)
