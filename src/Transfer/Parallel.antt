-- ===== src/Transfer/Parallel.antt =====
-- Parallel streams at the daemon: their chunks share one file (writeChunkData of daemon_filetransfer.go).
use native.Mathlib.Nat.{le-mul_of_pos_right}
use remotecmd_cli.Prelude.{
  ℕ, ◌+◌, ◌*◌, ◌%◌, ◌^◌, ◌≤◌, ◌<◌, ◌≡◌, refl, sym, ap, ◌∙◌, String, Bool, true, false, Option, none,
  some, List, [], ◌∷◌, arith, length, ltb, leb, eqb, eqb_refl, if◌then◌else◌, Bool-cases, inl, inr,
  All, any, ◌&&◌,
}
use remotecmd_cli.Prelude.Int.{pos, ltb_ℤ}
use remotecmd_cli.Dict.{get-put_self}
use remotecmd_cli.Prelude.Elements.{get_elem?, get_elem?-beyond, get_elem?-ext}
use remotecmd_cli.Transfer.Disk.{
  Disk, Fault, seek, seek_as, splice, set_handle, put_bytes, next_op, file_at,
}
use remotecmd_cli.Transfer.Receiver.{Daemon, Libraries, set_cell}
use remotecmd_cli.Transfer.Arrival.{write_chunk_data, or_buffer, set_disk, chunk_offset}
use remotecmd_cli.Transfer.Incoming.{write_handle-open}
use remotecmd_cli.Transfer.Splicing.{chunk_of, length-placed, placed_elem}

-- The position of chunk `i` is exact where it is below 2^63.
chunk_offset_exact :
    (i c : ℕ)
    → i < 2 ^ 63
    → c < 2 ^ 63
    → i * c < 2 ^ 63
    → chunk_offset (pos i) (pos c) ≡ some (i * c)
unfolding chunk_offset
chunk_offset_exact i c hi hc h =
    let i_whole : i % 2 ^ 64 ≡ i = omega (arith, hi) in
    let c_whole : c % 2 ^ 64 ≡ c = omega (arith, hc) in
    let product : (i * c) % 2 ^ 64 ≡ i * c = omega (arith, h) in
    let small : ltb (i * c) (2 ^ 63) ≡ true = ground (arith, h) in
    rw (i_whole, c_whole, product, small) refl

-- The disk after a seek to a position and a write there.
abbrev written_at : (ℕ → Option Fault) → ℕ → ℕ → List ℕ → Disk → Disk
written_at fault f at bytes d =
    put_bytes fault f bytes
      (next_op (set_handle f (record (d.handles f) { offset = at }) (next_op d)))

seek-open :
    (fault : ℕ → Option Fault) (f at : ℕ) (d : Disk)
    → fault d.ops ≡ none
    → (d.handles f).is_open ≡ true
    → seek fault f at d ≡ (true, set_handle f (record (d.handles f) { offset = at }) (next_op d))
unfolding seek
seek-open fault f at d sound is_open =
    let opened =
      ap (λ b. if b then seek_as fault (fault d.ops) f at d else (false, next_op d)) is_open in
    opened ∙ ap (λ why. seek_as fault why f at d) sound

-- A cell of a parallel stream into the file of handle `f`.
unfoldable pub IsStream : ℕ → ℕ → ℕ → Daemon → Type 0
IsStream f c p td =
    ((td.heap p).writer ≡ some f)
    × ((td.heap p).parallel ≡ true)
    × ((td.heap p).chunk_size_bytes ≡ pos c)

write_chunk_data-parallel :
    (lib : Libraries) (p f c i : ℕ) (bytes : List ℕ) (td : Daemon)
    → ((n : ℕ) → lib.fault n ≡ none)
    → IsStream f c p td
    → 1 ≤ c
    → (td.heap p).seq ≡ pos i
    → chunk_offset (pos i) (pos c) ≡ some (i * c)
    → (td.disk.handles f).is_open ≡ true
    → write_chunk_data lib p bytes td ≡ set_disk (written_at lib.fault f (i * c) bytes td.disk) td
unfolding write_chunk_data IsStream
write_chunk_data-parallel lib p f c i bytes td sound (writer, alike, size) some_size seq offset
      is_open =
    let positive : ltb_ℤ (pos 0) (pos c) ≡ true = ground (arith, some_size) in
    rw
      (
        writer,
        write_chunk_data,
        alike,
        size,
        positive,
        seq,
        offset,
        seek-open lib.fault f (i * c) td.disk (sound td.disk.ops) is_open,
      )
      (ap (λ w. or_buffer p bytes w td)
        (write_handle-open lib.fault f bytes _ (sound _) (rw (eqb_refl f) is_open)))

-- Chunk `i` of the payload arrives on cell `p`: handleFileChunk has noted its number.
pub arrive : Libraries → ℕ → List ℕ → ℕ × ℕ → Daemon → Daemon
arrive lib c bytes (p, i) td =
    write_chunk_data lib p (chunk_of c bytes i) (set_cell p (record (td.heap p) { seq = pos i }) td)

pub arrive_all : Libraries → ℕ → List ℕ → List (ℕ × ℕ) → Daemon → Daemon
arrive_all lib c bytes [] td = td
arrive_all lib c bytes (a ∷ as') td = arrive_all lib c bytes as' (arrive lib c bytes a td)

-- The handle `f` is open at `dst`, whose file has the size that was announced.
unfoldable pub IsShared : ℕ → String → ℕ → Daemon → Type 0
IsShared f dst n td =
    ((td.disk.handles f).is_open ≡ true)
    × ((td.disk.handles f).path ≡ dst)
    × (length (file_at dst td.disk) ≡ n)

module _ (lib : Libraries) (f c : ℕ) (dst : String) (bytes : List ℕ)
    (sound : (n : ℕ) → lib.fault n ≡ none) (some_size : 1 ≤ c) (c_small : c < 2 ^ 63)
    (small : length bytes < 2 ^ 63) where
  -- Chunk `i` of the stream of cell `p` is one of the payload's.
  pub IsArrival : Daemon → ℕ × ℕ → Type 0
  IsArrival td (p, i) = IsStream f c p td × (i * c < length bytes)

  arrive_lem :
      (p i : ℕ) (td : Daemon)
      → IsArrival td (p, i)
      → IsShared f dst (length bytes) td
      → arrive lib c bytes (p, i) td
        ≡ set_disk
            (written_at lib.fault f (i * c) (chunk_of c bytes i) td.disk)
            (set_cell p (record (td.heap p) { seq = pos i }) td)
  unfolding arrive IsArrival IsShared IsStream
  arrive_lem p i td (stream, inside) shared =
      let (writer, alike, size) = stream in
      let named = set_cell p (record (td.heap p) { seq = pos i }) td in
      write_chunk_data-parallel lib p f c i (chunk_of c bytes i) named sound
        (rw (eqb_refl p) writer, rw (eqb_refl p) alike, rw (eqb_refl p) size) some_size
        (rw (eqb_refl p) refl)
        (chunk_offset_exact i c
          (omega (arith, le-mul_of_pos_right {m = c} i (omega (arith, some_size)), inside, small))
          c_small (omega (arith, inside, small)))
        shared.0

  -- A stream stays one, as only its chunk's number changes.
  set_cell-IsStream :
      (p q i : ℕ) (d : Disk) (td : Daemon)
      → IsStream f c q td
      → IsStream f c q (set_disk d (set_cell p (record (td.heap p) { seq = pos i }) td))
  unfolding IsStream
  set_cell-IsStream p q i d td (writer, alike, size) = elim (Bool-cases (eqb p q)) [
    | inl same ↦
        let e : p ≡ q = ground (arith, same) in rw same (rw e writer, rw e alike, rw e size)
    | inr other ↦ rw other (writer, alike, size)
  ]

  arrive-disk :
      (p i : ℕ) (td : Daemon)
      → IsArrival td (p, i)
      → IsShared f dst (length bytes) td
      → IsShared f dst (length bytes) (arrive lib c bytes (p, i) td)
        × ((k : ℕ)
            → get_elem? (file_at dst (arrive lib c bytes (p, i) td).disk) k ≡ (
                if ltb k (i * c)
                then get_elem? (file_at dst td.disk) k
                else if ltb k (i * c + c)
                then get_elem? bytes k
                else get_elem? (file_at dst td.disk) k))
  unfolding IsShared IsArrival
  arrive-disk p i td (stream, inside) (is_open, at, size) =
      let old = file_at dst td.disk in
      let step = arrive_lem p i td (stream, inside) (is_open, at, size) in
      let placed = splice old (i * c) (chunk_of c bytes i) in
      let now : file_at dst (arrive lib c bytes (p, i) td).disk ≡ placed =
        rw step (rw (eqb_refl f, at, get-put_self) refl) in
      (
        (
          rw (step, eqb_refl f) is_open,
          rw (step, eqb_refl f) at,
          rw now (length-placed c i bytes old size inside),
        ),
        λ k. rw now (placed_elem c i bytes old size inside k),
      )

  arrivals-kept :
      (p i : ℕ) (td : Daemon) (as' : List (ℕ × ℕ))
      → IsArrival td (p, i)
      → IsShared f dst (length bytes) td
      → All (IsArrival td) as'
      → All (IsArrival (arrive lib c bytes (p, i) td)) as'
  unfolding IsArrival
  arrivals-kept p i td [] a shared rest = tt
  arrivals-kept p i td ((q, j) ∷ as') a shared ((stream, inside), rest) =
      let step = arrive_lem p i td a shared in
      (
        (rw step (set_cell-IsStream p q i _ td stream), inside),
        arrivals-kept p i td as' a shared rest,
      )

  -- Some arrival covers the position.
  abbrev pub covers : ℕ → List (ℕ × ℕ) → Bool
  covers k as' = any (λ a. leb (a.1 * c) k && ltb k (a.1 * c + c)) as'

  arrive_all-elem :
      (as' : List (ℕ × ℕ)) (td : Daemon)
      → All (IsArrival td) as'
      → IsShared f dst (length bytes) td
      → IsShared f dst (length bytes) (arrive_all lib c bytes as' td)
        × ((k : ℕ)
            → get_elem? (file_at dst (arrive_all lib c bytes as' td).disk) k
              ≡ (if covers k as' then get_elem? bytes k else get_elem? (file_at dst td.disk) k))
  unfolding arrive_all
  arrive_all-elem [] td rest shared = (shared, λ k. refl)
  arrive_all-elem ((p, i) ∷ as') td (a, rest) shared =
      let (shared', elem) = arrive-disk p i td a shared in
      let (last, elems) =
        arrive_all-elem as' (arrive lib c bytes (p, i) td) (arrivals-kept p i td as' a shared rest)
          shared' in
      (last, λ k. ground (arith, elem k, elems k))

-- Where the disk does every operation, chunks of a payload that arrive on the cells of parallel streams,
-- in any order and any number of times, each at seq times the chunk size, make of a file that was given
-- the payload's size exactly the payload, if every position of it is in a chunk that arrives; sizes are
-- below 2^63 and the chunk size is at least 1.
pub arrive_all-any_order :
    (lib : Libraries) (f c : ℕ) (dst : String) (bytes : List ℕ) (as' : List (ℕ × ℕ)) (td : Daemon)
    → ((n : ℕ) → lib.fault n ≡ none)
    → 1 ≤ c
    → c < 2 ^ 63
    → length bytes < 2 ^ 63
    → IsShared f dst (length bytes) td
    → All (λ a. IsStream f c a.0 td × (a.1 * c < length bytes)) as'
    → ((k : ℕ) → k < length bytes → any (λ a. leb (a.1 * c) k && ltb k (a.1 * c + c)) as' ≡ true)
    → file_at dst (arrive_all lib c bytes as' td).disk ≡ bytes
unfolding IsArrival IsShared
arrive_all-any_order lib f c dst bytes as' td sound some_size c_small small shared streams whole =
    let ((is_open, at, size), elems) =
      arrive_all-elem lib f c dst bytes sound some_size c_small small as' td streams shared in
    get_elem?-ext _ bytes λ k. elim (Bool-cases (ltb k (length bytes))) [
      | inl inside ↦ ground (arith, elems k, whole k)
      | inr beyond ↦
          get_elem?-beyond _ k (ground (arith, beyond, size))
          ∙ sym (get_elem?-beyond bytes k (ground (arith, beyond)))
    ]
