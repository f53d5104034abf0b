-- ===== src/Transfer/Passage.antt =====
-- The frames of one transfer at the relay (relay_handler.go, relay_client.go): the handlers take them from
-- the client's connection, and the target's writer goroutine runs between them as it will.
use remotecmd_cli.Prelude.{
  ℕ, zero, suc, ◌+◌, ◌^◌, ◌<◌, ◌≡◌, ◌≢◌, refl, sym, ap, subst, if_cases, ◌∙◌, Bool, true, false,
  none, some, List, [], ◌∷◌, ◌++◌, map, arith, length, eqb, eqb_refl, All, append_assoc,
  if◌then◌else◌,
}
use remotecmd_cli.Dict
use remotecmd_cli.Dict.{get-put_self}
use remotecmd_cli.Protocol.{Header, header}
use remotecmd_cli.Relay.Client.{
  Client, Packet, ChunkRoute, json, text, binary, drain, has_room, pair_frame, enqueue,
  send_header_and_binary,
}
use remotecmd_cli.Relay.State.{Relay, World, set_conn}
use remotecmd_cli.Relay.Chunks
use remotecmd_cli.Relay.Chunks.{binary_frame, handle_file_chunk, drop_route, send_pair}
use remotecmd_cli.Relay.Serve.{drained}
use remotecmd_cli.Relay.Framing.{
  outgoing, packets, packets-append, IsWhole, drain_one, frame_packets-pair_frame,
}
use remotecmd_cli.Relay.Wires.{conns-set_conn_self}
use remotecmd_cli.Transfer.Sender.{Outside, chunk_header}
use remotecmd_cli.Transfer.Sending.{chunk_pair, chunk_frames}

-- Rounds of the writer goroutine of connection `t`, with no failing write.
unfoldable pub writer_rounds : ℕ → ℕ → Relay → Relay
writer_rounds zero t s = s
writer_rounds (suc n) t s = writer_rounds n t (drained t (drain none none (s.conns t)) s)

-- The relay's read loop over the chunks of a transfer, from pair `n` on: behind each pair of frames the
-- writer goroutine of `t` makes some rounds.
unfoldable pub pass_chunks : World → ℕ → ℕ → (ℕ → ℕ) → ℕ → List Packet → Relay → Relay
pass_chunks w rc t rounds n (json m ∷ binary b ∷ rest) s =
    pass_chunks w rc t rounds (suc n) rest
      (writer_rounds (rounds n) t (handle_file_chunk w rc (header m) (binary_frame b) s))
pass_chunks w rc t rounds n _ s = s

-- The target's queue has room for each pair when it comes.
unfoldable pub KeepsRoom : World → ℕ → ℕ → (ℕ → ℕ) → ℕ → List Packet → Relay → Type 0
KeepsRoom w rc t rounds n (json m ∷ binary b ∷ rest) s =
    (has_room (s.conns t) ≡ true)
    × KeepsRoom w rc t rounds (suc n) rest
        (writer_rounds (rounds n) t (handle_file_chunk w rc (header m) (binary_frame b) s))
KeepsRoom w rc t rounds n _ s = Unit

-- The peer of `t` will see these packets, no write to it has failed, and its queue holds whole frames.
unfoldable pub Carries : ℕ → Relay → List Packet → Type 0
Carries t s out =
    (outgoing (s.conns t) ≡ out) × ((s.conns t).write_err ≡ none) × All IsWhole (s.conns t).queued

drain-keeps :
    (c : Client) (fs : List (List ℕ))
    → c.queued ≡ fs
    → c.write_err ≡ none
    → All IsWhole fs
    → (c' : Client) × (drain none none c ≡ some c')
      × (outgoing c' ≡ outgoing c)
      × (c'.write_err ≡ none)
      × All IsWhole c'.queued
unfolding drain
drain-keeps c [] q ok whole = (c, rw (q, drain) refl, refl, ok, rw q tt)
drain-keeps c (f ∷ fs) q ok (w, whole) = (
  record c { queued = fs; wire = c.wire ++ w.0 },
  drain_one c f fs w.0 q w.1 ok,
  rw (q, w.1) (append_assoc c.wire w.0 (packets fs)),
  ok,
  whole,
)

-- A pair at the end of the queue.
enqueue-outgoing :
    (head b : List ℕ) (c : Client)
    → length head < 2 ^ 32
    → All IsWhole c.queued
    → (outgoing (enqueue (pair_frame head b) c) ≡ outgoing c ++ text head ∷ binary b ∷ [])
      × All IsWhole (c.queued ++ pair_frame head b ∷ [])
enqueue-outgoing head b c small whole = (
  rw (packets-append c.queued (pair_frame head b ∷ []), frame_packets-pair_frame head b small)
      (sym (append_assoc c.wire (packets c.queued) _)),
  all_whole c.queued whole,
)
  where
    all_whole : (fs : List (List ℕ)) → All IsWhole fs → All IsWhole (fs ++ pair_frame head b ∷ [])
    all_whole [] h = ((_, frame_packets-pair_frame head b small), tt)
    all_whole (f ∷ fs) (h, hs) = (h, all_whole fs hs)

module _ (rc t : ℕ) (apart : t ≢ rc) where
  pub set_conn-ne : (c : Client) (s : Relay) → (set_conn t c s).conns rc ≡ s.conns rc
  unfolding set_conn
  set_conn-ne c s = ground (arith, apart)

  pub set_conn_other : (c : Client) (s : Relay) → (set_conn rc c s).conns t ≡ s.conns t
  unfolding set_conn
  set_conn_other c s = ground (arith, apart)

  round-Carries :
      (s : Relay) (out : List Packet)
      → Carries t s out
      → (let s' = drained t (drain none none (s.conns t)) s in
          Carries t s' out × (s'.conns rc ≡ s.conns rc))
  unfolding Carries set_conn
  round-Carries s out (seen, ok, whole) =
      let (c', e, same, ok', whole') = drain-keeps (s.conns t) _ refl ok whole in
      rw (e, eqb_refl t) ((same ∙ seen, ok', whole'), ground (arith, apart))

  rounds-Carries :
      (n : ℕ) (s : Relay) (out : List Packet)
      → Carries t s out
      → Carries t (writer_rounds n t s) out × ((writer_rounds n t s).conns rc ≡ s.conns rc)
  unfolding writer_rounds
  rounds-Carries zero s out h = (h, refl)
  rounds-Carries (suc n) s out h =
      let (h', same) = round-Carries s out h in
      let (h'', same') = rounds-Carries n _ out h' in (h'', same' ∙ same)

  -- A pair is put into the queue.
  pair-queued :
      (w : World) (h : Header) (route : ChunkRoute) (b : List ℕ) (s : Relay)
      → route.target ≡ t
      → Dict.get (s.conns rc).chunk_routes h.id ≡ some route
      → h.binary_chunk ≡ true
      → has_room (s.conns t) ≡ true
      → (s.conns t).write_err ≡ none
      → handle_file_chunk w rc h (binary_frame b) s ≡ (
          let frame = pair_frame (w.marshal (Chunks.chunk_header route h)) b in
          let s' =
            set_conn t (enqueue frame (s.conns t)) (record s { writes = suc (suc s.writes) }) in
          if h.final then drop_route rc h.id s' else s')
  unfolding handle_file_chunk send_pair send_header_and_binary
  pair-queued w h route b s at known pair room ok =
      rw (known, handle_file_chunk, pair, at, room, ok) refl

  pub conns-Carries :
      (s s' : Relay) (out : List Packet)
      → s'.conns t ≡ s.conns t
      → Carries t s out
      → Carries t s' out
  unfolding Carries
  conns-Carries s s' out same h = rw same h

  enqueued-Carries :
      (head b : List ℕ) (s s' : Relay) (out : List Packet)
      → s'.conns t ≡ s.conns t
      → length head < 2 ^ 32
      → Carries t s out
      → Carries t
          (set_conn t (enqueue (pair_frame head b) (s.conns t)) s')
          (out ++ text head ∷ binary b ∷ [])
  unfolding Carries
  enqueued-Carries head b s s' out same small (seen, ok, whole) =
      let self = conns-set_conn_self t (enqueue (pair_frame head b) (s.conns t)) s' in
      let (seen', whole') = enqueue-outgoing head b (s.conns t) small whole in
      rw self (seen' ∙ ap (λ ps. ps ++ text head ∷ binary b ∷ []) seen, ok, whole')

  -- What the peer of the target is to see of a pair.
  pair-Carries :
      (w : World) (h : Header) (route : ChunkRoute) (b : List ℕ) (s : Relay) (out : List Packet)
      → route.target ≡ t
      → Dict.get (s.conns rc).chunk_routes h.id ≡ some route
      → h.binary_chunk ≡ true
      → has_room (s.conns t) ≡ true
      → (s.conns t).write_err ≡ none
      → length (w.marshal (Chunks.chunk_header route h)) < 2 ^ 32
      → Carries t s out
      → (let s' = handle_file_chunk w rc h (binary_frame b) s in
          Carries t s' (out ++ text (w.marshal (Chunks.chunk_header route h)) ∷ binary b ∷ [])
          × (h.final ≡ false → s'.conns rc ≡ s.conns rc))
  unfolding drop_route
  pair-Carries w h route b s out at known pair room ok small held =
      subst Passed (sym (pair-queued w h route b s at known pair room ok)) (
        if_cases Passed h.final _ _
          (λ last.
            (conns-Carries _ _ _ (set_conn_other _ _) here, λ more. ground (arith, last, more)))
          (λ more. (here, λ _. set_conn-ne _ _)))
    where
      head : List ℕ
      head = w.marshal (Chunks.chunk_header route h)

      here :
          Carries t
            (set_conn t
              (enqueue (pair_frame head b) (s.conns t))
              (record s { writes = suc (suc s.writes) }))
            (out ++ text head ∷ binary b ∷ [])
      here = enqueued-Carries head b s _ out refl small held

      Passed : Relay → Type 0
      Passed s' =
          Carries t s' (out ++ text head ∷ binary b ∷ [])
          × (h.final ≡ false → s'.conns rc ≡ s.conns rc)

-- The frame at the target for a frame of the client.
abbrev pub carried : World → ChunkRoute → Packet → Packet
carried w route (json m) = text (w.marshal (Chunks.chunk_header route (header m)))
carried w route (text bytes) = text bytes
carried w route (binary bytes) = binary bytes

module _ (w : World) (rc t : ℕ) (apart : t ≢ rc) (rounds : ℕ → ℕ) (o : Outside) (base : Header)
    (route : ChunkRoute) (at : route.target ≡ t)
    (small : (i : ℕ) (final compressed : Bool)
      → length
          (w.marshal (Chunks.chunk_header route (header (chunk_header base i final compressed))))
        < 2 ^ 32) where
  -- A pair and the rounds of the writer behind it.
  turn-Carries :
      (n i : ℕ) (final compressed : Bool) (b : List ℕ) (s : Relay) (out : List Packet)
      → Dict.get (s.conns rc).chunk_routes base.id ≡ some route
      → has_room (s.conns t) ≡ true
      → Carries t s out
      → (let h = header (chunk_header base i final compressed) in
          let s' = writer_rounds n t (handle_file_chunk w rc h (binary_frame b) s) in
          Carries t s' (out ++ text (w.marshal (Chunks.chunk_header route h)) ∷ binary b ∷ [])
          × (final ≡ false → Dict.get (s'.conns rc).chunk_routes base.id ≡ some route))
  unfolding chunk_header Carries
  turn-Carries n i final compressed b s out known room h =
      let (h', kept) =
        pair-Carries rc t apart w _ route b s out at known refl room h.1 (small i final compressed)
          h in
      let (h'', same) = rounds-Carries rc t apart n _ _ h' in
      (h'', λ more. ap (λ c. Dict.get c.chunk_routes base.id) (same ∙ kept more) ∙ known)

  -- The chunks from one on, of which the last is the transfer's last.
  pub chunks-Carries :
      (total n i : ℕ) (chunk : List ℕ) (chunks : List (List ℕ)) (s : Relay) (out : List Packet)
      → Dict.get (s.conns rc).chunk_routes base.id ≡ some route
      → i + suc (length chunks) ≡ total
      → (let frames = chunk_frames o base total i (chunk ∷ chunks) in
          KeepsRoom w rc t rounds n frames s
          → Carries t s out
          → Carries t (pass_chunks w rc t rounds n frames s) (out ++ map (carried w route) frames))
  unfolding pass_chunks KeepsRoom chunk_frames
  chunks-Carries total n i chunk [] s out known ends (room, _) h =
      (turn-Carries (rounds n) i (eqb (suc i) total) _ _ s out known room h).0
  chunks-Carries total n i chunk (next ∷ chunks) s out known ends (room, more_room) h =
      let more : eqb (suc i) total ≡ false = ground (arith, ends) in
      let (h', known') = turn-Carries (rounds n) i (eqb (suc i) total) _ _ s out known room h in
      subst (Carries t _)
        (append_assoc out (map (carried w route) (chunk_pair o base i (eqb (suc i) total) chunk)) _)
        (chunks-Carries total (suc n) (suc i) next chunks _ _ (known' more) (omega (arith, ends))
          more_room h')
