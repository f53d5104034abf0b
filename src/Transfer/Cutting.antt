-- ===== src/Transfer/Cutting.antt =====
-- What chunkData makes of a payload: its chunks put together again, their sizes and their number.
use Prim.Native.Nat.{min}
use native.Mathlib.Nat.{add-mul, one-mul, div-eq_of_lt-le}
use remotecmd_cli.Prelude.{
  ℕ, zero, suc, ◌+◌, ◌-◌, ◌*◌, ◌/◌, ◌%◌, ◌^◌, ◌≤◌, ◌<◌, ◌≡◌, refl, sym, ap, ◌∙◌, List, [], ◌∷◌,
  ◌++◌, arith, length, take, drop, length-take, length-drop, take-append-drop, drop_add,
  take_beyond, drop_beyond, All, ltb, leb, if_cases, Bool-cases, inl, inr,
}
use remotecmd_cli.Prelude.Int.{pos}
use remotecmd_cli.Transfer.Chunk.{chunk_count, chunks_from, chunk_data}

-- The chunks put together again.
unfoldable pub concat : List (List ℕ) → List ℕ
concat [] = []
concat (xs ∷ xss) = xs ++ concat xss

module _ (c : ℕ) (bytes : List ℕ) (some_size : 1 ≤ c) where
  pub chunk_at :
      (i : ℕ) → take (min (i + c) (length bytes) - i) (drop i bytes) ≡ take c (drop i bytes)
  chunk_at i =
      ap (λ n. take n (drop i bytes)) (omega (arith, length-drop i bytes))
      ∙ take_beyond c (drop i bytes)

  concat-chunks_from :
      (fuel i : ℕ) → length bytes ≤ i + fuel → concat (chunks_from fuel i c bytes) ≡ drop i bytes
  unfolding chunks_from concat
  concat-chunks_from zero i h = sym (drop_beyond i bytes (omega arith))
  concat-chunks_from (suc fuel) i h = elim (Bool-cases (ltb i (length bytes))) [
    | inl more ↦
        rw (more, chunk_at i, concat-chunks_from fuel (i + c) (omega arith), drop_add i c bytes)
          (take-append-drop c (drop i bytes))
    | inr over ↦ rw over (sym (drop_beyond i bytes (ground arith)))
  ]

  -- One round takes chunk_size bytes off what is left to cut.
  left : (i : ℕ) → length (drop i bytes) ≡ length bytes - i
  left i = length-drop i bytes

  within : (fuel i : ℕ) → All (λ chunk. length chunk ≤ c) (chunks_from fuel i c bytes)
  unfolding chunks_from
  within zero i = tt
  within (suc fuel) i =
      if_cases (All λ chunk. length chunk ≤ c) (ltb i (length bytes)) _ _
        (λ _. (rw (chunk_at i) (omega (arith, length-take c (drop i bytes))), within fuel (i + c)))
        λ _. tt

  some_bytes : (fuel i : ℕ) → All (λ chunk. 1 ≤ length chunk) (chunks_from fuel i c bytes)
  unfolding chunks_from
  some_bytes zero i = tt
  some_bytes (suc fuel) i =
      if_cases (All λ chunk. 1 ≤ length chunk) (ltb i (length bytes)) _ _
        (λ more. (
          rw (chunk_at i) (ground (arith, length-take c (drop i bytes), length-drop i bytes)),
          some_bytes fuel (i + c),
        ))
        λ _. tt

  over : (fuel i : ℕ) → length bytes ≤ i → chunks_from fuel i c bytes ≡ []
  unfolding chunks_from
  over zero i h = refl
  over (suc fuel) i h = ground arith

  rounds :
      (fuel i : ℕ)
      → length bytes ≤ i + fuel
      → (length bytes - i ≤ length (chunks_from fuel i c bytes) * c)
        × (length (chunks_from fuel i c bytes) * c < length bytes - i + c)
  unfolding chunks_from
  rounds zero i h = (omega arith, omega arith)
  rounds (suc fuel) i h =
      let (lower, upper) = rounds fuel (i + c) (omega arith) in
      let n = length (chunks_from fuel (i + c) c bytes) in
      let none_left : length bytes ≤ i + c → n ≡ 0 = λ e. ap length (over fuel (i + c) e) in
      let one_more : suc n * c ≡ c + n * c = omega arith in
      elim (Bool-cases (ltb i (length bytes))) [
        | inl more ↦ rw more (
          omega arith,
          elim (Bool-cases (leb (length bytes) (i + c))) [
            | inl last ↦ grind (arith, none_left)
            | inr inner ↦ ground arith
          ],
        )
        | inr done ↦ rw done (ground arith, ground arith)
      ]

-- A payload with bytes has no empty chunk.
pub chunk_data-some :
    (c b : ℕ) (bytes : List ℕ) → 1 ≤ c → All (λ chunk. 1 ≤ length chunk) (chunk_data (b ∷ bytes) c)
unfolding chunk_data
chunk_data-some c b bytes h = some_bytes c (b ∷ bytes) h (length (b ∷ bytes)) 0

pub concat-chunk_data : (c : ℕ) (bytes : List ℕ) → 1 ≤ c → concat (chunk_data bytes c) ≡ bytes
unfolding chunk_data concat
concat-chunk_data c [] h = refl
concat-chunk_data c (b ∷ bytes) h =
    concat-chunks_from c (b ∷ bytes) h (length (b ∷ bytes)) 0 (omega arith)

count_lem :
    (c size n : ℕ)
    → 1 ≤ c
    → 1 ≤ size
    → size + c ≤ 2 ^ 63
    → size ≤ n * c
    → n * c < size + c
    → chunk_count size c ≡ pos n
unfolding chunk_count
count_lem c size n some_size some_bytes small lower upper =
    let whole : (size + c - 1) % 2 ^ 64 ≡ size + c - 1 = omega arith in
    let quotient : (size + c - 1) / c ≡ n =
      div-eq_of_lt-le c (omega arith) (omega (arith, add-mul n 1 c, one-mul c)) in
    rw (whole, quotient) (ground arith)

-- Of a payload and a chunk size that is at least 1, where both together stay in 63 bits, chunkData makes
-- chunks that give the payload again when they are put together in order, none of them longer than the
-- chunk size, and as many as chunkCount says.
pub chunk_data_cuts :
    (c : ℕ) (bytes : List ℕ)
    → 1 ≤ c
    → length bytes + c ≤ 2 ^ 63
    → (concat (chunk_data bytes c) ≡ bytes)
      × All (λ chunk. length chunk ≤ c) (chunk_data bytes c)
      × (chunk_count (length bytes) c ≡ pos (length (chunk_data bytes c)))
unfolding chunk_data concat chunk_count
chunk_data_cuts c [] some_size small = (refl, (omega arith, tt), refl)
chunk_data_cuts c (b ∷ bytes) some_size small =
    let all = b ∷ bytes in
    let (lower, upper) = rounds c all some_size (length all) 0 (omega arith) in
    (
      concat-chunks_from c all some_size (length all) 0 (omega arith),
      within c all some_size (length all) 0,
      count_lem c (length all) _ some_size (omega arith) small (omega (arith, lower))
          (omega (arith, upper)),
    )
