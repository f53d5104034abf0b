-- ===== src/Transfer/Splicing.antt =====
-- Chunks written into a file at their places, in any order (writeChunkData of daemon_filetransfer.go).
use remotecmd_cli.Prelude.{
  ℕ, ◌+◌, ◌-◌, ◌*◌, ◌≤◌, ◌<◌, ◌≡◌, refl, ap, ◌∙◌, List, [], ◌++◌, arith, length, take, drop,
  length-take, length-drop, length-append, append_nil, ltb, if◌then◌else◌,
}
use remotecmd_cli.Prelude.Elements.{
  get_elem?, get_elem?-beyond, get_elem?-append, get_elem?-take, get_elem?-drop,
}
use remotecmd_cli.Transfer.Disk.{splice, zeros}

-- Chunk `i` of a payload.
abbrev pub chunk_of : ℕ → List ℕ → ℕ → List ℕ
chunk_of c bytes i = take c (drop (i * c) bytes)

module _ (old : List ℕ) (at : ℕ) (bs : List ℕ) (inside : at + length bs ≤ length old) where
  splice_inside : splice old at bs ≡ take at old ++ (bs ++ drop (at + length bs) old)
  unfolding splice
  splice_inside =
      let no_gap : zeros (at - length old) ≡ [] = ap zeros {y = 0} (omega (arith, inside)) in
      rw (no_gap, append_nil) refl

  pub length-splice : length (splice old at bs) ≡ length old
  length-splice =
      let front = length-take at old in
      let back = length-drop (at + length bs) old in
      rw splice_inside (
        omega (
          arith,
          length-append (take at old) (bs ++ drop (at + length bs) old),
          length-append bs (drop (at + length bs) old),
          front,
          back,
          inside,
        ))

  get_elem?-splice :
      (k : ℕ)
      → get_elem? (splice old at bs) k ≡ (
          if ltb k at
          then get_elem? old k
          else if ltb k (at + length bs)
          then get_elem? bs (k - at)
          else get_elem? old k)
  get_elem?-splice k =
      rw (splice_inside, get_elem?-append (take at old))
        (let back = drop (at + length bs) old in
          let front : length (take at old) ≡ at = omega (arith, length-take at old, inside) in
          let there : at + length bs ≤ k
              → get_elem? old (at + length bs + (k - at - length bs)) ≡ get_elem? old k =
            λ h. ap (get_elem? old) (omega (arith, h)) in
          rw front (
            ground (
              arith,
              get_elem?-take at old k,
              get_elem?-append bs back (k - at),
              get_elem?-drop (at + length bs) old (k - at - length bs),
              there,
            )))

module _ (c i : ℕ) (bytes old : List ℕ) (same_size : length old ≡ length bytes)
    (in_file : i * c < length bytes) where
  chunk_inside : i * c + length (chunk_of c bytes i) ≤ length old
  chunk_inside =
      omega
        (arith, length-take c (drop (i * c) bytes), length-drop (i * c) bytes, same_size, in_file)

  -- A chunk put at its place keeps the size, and what was right before.
  pub length-placed : length (splice old (i * c) (chunk_of c bytes i)) ≡ length bytes
  length-placed = length-splice old (i * c) (chunk_of c bytes i) chunk_inside ∙ same_size

  pub placed_elem :
      (k : ℕ)
      → get_elem? (splice old (i * c) (chunk_of c bytes i)) k ≡ (
          if ltb k (i * c)
          then get_elem? old k
          else if ltb k (i * c + c)
          then get_elem? bytes k
          else get_elem? old k)
  placed_elem k =
      let size = length-take c (drop (i * c) bytes) in
      let left = length-drop (i * c) bytes in
      let back : i * c ≤ k → get_elem? bytes (i * c + (k - i * c)) ≡ get_elem? bytes k =
        λ h. ap (get_elem? bytes) (omega (arith, h)) in
      ground (
        arith,
        get_elem?-splice old (i * c) (chunk_of c bytes i) chunk_inside k,
        get_elem?-take c (drop (i * c) bytes) (k - i * c),
        get_elem?-drop (i * c) bytes (k - i * c),
        get_elem?-beyond old k,
        get_elem?-beyond bytes k,
        size,
        left,
        back,
        same_size,
        in_file,
      )
