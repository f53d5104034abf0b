-- ===== src/Transfer/Compress.antt =====
-- tryCompress of filetransfer_chunk.go: when a chunk is sent compressed. The gzip library is a parameter,
-- as a function on bytes; writing to a buffer does not fail. The two floating-point tests are written in
-- integers, which is what they compute for sizes below 2^50.
use Prim.Native.Nat.{min}
use remotecmd_cli.Prelude.{ℕ, ◌*◌, Option, none, some, List, length, take, ltb, leb, if◌then◌else◌}

-- compressionSampleSize
abbrev pub sample_size : ℕ
sample_size = 4096

-- The bytes that the heuristic compresses first.
abbrev pub sample : List ℕ → List ℕ
sample bytes = take (min sample_size (length bytes)) bytes

unfoldable pub try_compress : (List ℕ → List ℕ) → List ℕ → Option (List ℕ)
try_compress gzip bytes =
    if ltb (length bytes) 1024
    then none
    else if leb (95 * length (sample bytes)) (100 * length (gzip (sample bytes)))
    then none
    else if ltb (10 * length (gzip bytes)) (9 * length bytes)
    then some (gzip bytes)
    else none
