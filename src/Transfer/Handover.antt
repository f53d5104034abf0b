-- ===== src/Transfer/Handover.antt =====
-- A whole transfer at the relay: its announcement (handleFileTransfer of relay_handler.go), its chunks, and
-- what the target's connection then holds for the daemon.
use remotecmd_cli.Prelude.{
  ℕ, suc, ◌^◌, ◌<◌, ◌≡◌, ◌≢◌, refl, sym, ap, ◌∙◌, String, Bool, true, false, some, none, List, All,
  [], ◌∷◌, ◌++◌, map, arith, length, eqb, ◌==◌, if_cases, append_assoc, append_nil,
}
use remotecmd_cli.Prelude.Int.{ℤ}
use remotecmd_cli.Dict
use remotecmd_cli.Dict.{get-put_self}
use remotecmd_cli.Protocol.{Header, Message, header}
use remotecmd_cli.Relay.Client.{Client, Packet, ChunkRoute, json, text, binary, write, start_writer}
use remotecmd_cli.Relay.State.{Relay, World, send, set_conn}
use remotecmd_cli.Relay.Forward.{
  handle_file_transfer, find_target, target, transfer_request, route_chunks, add_pending,
  transfer_at,
}
use remotecmd_cli.Relay.Chunks
use remotecmd_cli.Relay.Framing.{outgoing, IsWhole}
use remotecmd_cli.Relay.Wires.{conns-set_conn_self}
use remotecmd_cli.Transfer.Sender.{Outside, init_message, chunk_header}
use remotecmd_cli.Transfer.Sending.{chunk_frames}
use remotecmd_cli.Transfer.Relayed.{forwarded}
use remotecmd_cli.Transfer.Passage.{
  Carries, KeepsRoom, pass_chunks, carried, chunks-Carries, set_conn-ne, set_conn_other,
  conns-Carries,
}

-- The relay's read loop over the frames of a transfer.
unfoldable pub pass_transfer : World → ℕ → ℕ → (ℕ → ℕ) → List Packet → Relay → Relay
pass_transfer w rc t rounds (json m ∷ rest) s =
    pass_chunks w rc t rounds 0 rest (handle_file_transfer w rc (header m) s)
pass_transfer w rc t rounds _ s = s

-- The target's queue has room for each chunk of the transfer when it comes.
unfoldable pub HasRoomFor : World → ℕ → ℕ → (ℕ → ℕ) → List Packet → Relay → Type 0
HasRoomFor w rc t rounds (json m ∷ rest) s =
    KeepsRoom w rc t rounds 0 rest (handle_file_transfer w rc (header m) s)
HasRoomFor w rc t rounds _ s = Unit

-- The relay's identifier for the transfer, and where its chunks go.
abbrev pub route_of : World → ℕ → Relay → ChunkRoute
route_of w t s = record { target = t; req_id = w.new_id s.ids }

-- A frame as the daemon reads it, which unmarshals text.
abbrev pub read_frame : (List ℕ → Message) → Packet → Packet
read_frame unmarshal (text bytes) = json (unmarshal bytes)
read_frame unmarshal (json m) = json m
read_frame unmarshal (binary bytes) = binary bytes

-- The header that the relay puts in front of a chunk.
abbrev pub relayed_header : Header → ChunkRoute → ℕ → Bool → Bool → Message
relayed_header base route i final compressed =
    Chunks.chunk_header route (header (chunk_header base i final compressed))

-- The relay can pass a transfer to connection `t`: that is another connection than the sender's, which the
-- transfer names with its token, nothing waits in its queue, no write to it fails or has failed, and the
-- chunks' headers are shorter than 4 GB and come out of json.Unmarshal as they went into json.Marshal.
unfoldable pub IsPassable : World → ℕ → ℕ → (List ℕ → Message) → Header → Relay → Type 0
IsPassable w rc t unmarshal base s =
    (t ≢ rc)
    × ((base.target == "") ≡ false)
    × (find_target base s ≡ target t)
    × (w.write_error s.writes ≡ none)
    × ((s.conns t).queued ≡ [])
    × ((s.conns t).write_err ≡ none)
    × ((i : ℕ) (final compressed : Bool)
        → (let m = relayed_header base (route_of w t s) i final compressed in
            (unmarshal (w.marshal m) ≡ m) × (length (w.marshal m) < 2 ^ 32)))

start_writer-Carries :
    (t : ℕ) (c : Client) (s s' : Relay) (out : List Packet)
    → Carries t s out
    → s'.conns t ≡ start_writer (s.conns t)
    → Carries t s' out
unfolding Carries start_writer
start_writer-Carries t c s s' out h self =
    rw self (if_cases Held (s.conns t).started _ _ (λ _. h) (λ _. h))
  where
    Held : Client → Type 0
    Held d = (outgoing d ≡ out) × (d.write_err ≡ none) × All IsWhole d.queued

module _ (rc t : ℕ) (apart : t ≢ rc) where
  -- The route is set, and the writer started.
  routed :
      (req_id : String) (h : Header) (s : Relay) (out : List Packet)
      → Carries t s out
      → (let s' = route_chunks rc t req_id h s in
          Carries t s' out
          × (Dict.get (s'.conns rc).chunk_routes h.id
              ≡ some (record { target = t; req_id = req_id })))
  unfolding route_chunks
  routed req_id h s out held =
      let route : ChunkRoute = record { target = t; req_id = req_id } in
      let sender = record (s.conns rc) {
        chunk_routes = Dict.put (s.conns rc).chunk_routes h.id route;
      } in
      let s1 = set_conn rc sender s in
      let there = conns-Carries rc t apart s s1 out (set_conn_other rc t apart sender s) held in
      (
        start_writer-Carries t sender s1 _ out there (conns-set_conn_self t _ s1),
        ap (λ c. Dict.get c.chunk_routes h.id)
              (set_conn-ne rc t apart _ s1 ∙ conns-set_conn_self rc sender s)
            ∙ get-put_self (s.conns rc).chunk_routes h.id route,
      )

  written :
      (w : World) (m : Message) (s s' : Relay)
      → w.write_error s'.writes ≡ none
      → s'.conns t ≡ s.conns t
      → (s.conns t).queued ≡ []
      → (s.conns t).write_err ≡ none
      → Carries t (send w t m s') (outgoing (s.conns t) ++ json m ∷ [])
  unfolding Carries send write
  written w m s s' clear same nothing ok =
      rw
        (
          clear,
          conns-set_conn_self t (write none (json m) (s'.conns t))
              (record s' { writes = suc s'.writes }),
        )
        (rw (same, nothing, append_nil)
          (sym (ap (λ ps. ps ++ json m ∷ []) (append_nil (s.conns t).wire)), ok, tt))

  -- The announcement is written, and the route is set.
  announced :
      (w : World) (h : Header) (s : Relay)
      → (h.target == "") ≡ false
      → find_target h s ≡ target t
      → w.write_error s.writes ≡ none
      → (s.conns t).queued ≡ []
      → (s.conns t).write_err ≡ none
      → h.chunked ≡ true
      → (let s' = handle_file_transfer w rc h s in
          Carries t s' (outgoing (s.conns t) ++ json (transfer_request (w.new_id s.ids) h) ∷ [])
          × (Dict.get (s'.conns rc).chunk_routes h.id ≡ some (route_of w t s)))
  unfolding handle_file_transfer add_pending
  announced w h s named found clear nothing ok chunked =
      let m = transfer_request (w.new_id s.ids) h in
      let asked = add_pending w rc h s in
      let step : handle_file_transfer w rc h s
          ≡ route_chunks rc t (w.new_id s.ids) h (send w t m asked) =
        rw (named, handle_file_transfer, found, transfer_at, clear, chunked) refl in
      rw step
        (routed (w.new_id s.ids) h (send w t m asked) _ (written w m s asked clear refl nothing ok))

module _ (w : World) (unmarshal : List ℕ → Message) (o : Outside) (base : Header)
    (route : ChunkRoute)
    (reads : (i : ℕ) (final compressed : Bool)
      → unmarshal (w.marshal (relayed_header base route i final compressed))
        ≡ relayed_header base route i final compressed) where
  -- The daemon reads what the relay was to pass on.
  read-carried :
      (total i : ℕ) (chunks : List (List ℕ))
      → map (read_frame unmarshal) (map (carried w route) (chunk_frames o base total i chunks))
        ≡ map (forwarded route) (chunk_frames o base total i chunks)
  unfolding chunk_frames forwarded chunk_header
  read-carried total i [] = refl
  read-carried total i (chunk ∷ chunks) =
      rw (reads i (eqb (suc i) total) _, read-carried total (suc i) chunks) refl

-- A transfer of one chunk or more that the relay can pass, and for which the target's queue has room, goes
-- to the target's connection: what its peer will see is what it would have seen, and then the announcement
-- and the chunks, which the daemon reads as `forwarded` says.
pub transfer-handed :
    (w : World) (rc t : ℕ) (rounds : ℕ → ℕ) (unmarshal : List ℕ → Message) (o : Outside)
    (base : Header) (total : ℤ) (size : ℕ) (chunk : List ℕ) (chunks : List (List ℕ)) (s : Relay)
    → IsPassable w rc t unmarshal base s
    → (let frames =
          json (init_message base total size)
          ∷ chunk_frames o base (suc (length chunks)) 0 (chunk ∷ chunks) in
        HasRoomFor w rc t rounds frames s
        → (passed : List Packet) × (outgoing ((pass_transfer w rc t rounds frames s).conns t)
            ≡ outgoing (s.conns t) ++ passed)
          × (map (read_frame unmarshal) passed ≡ map (forwarded (route_of w t s)) frames))
unfolding IsPassable HasRoomFor pass_transfer Carries forwarded init_message find_target
transfer-handed w rc t rounds unmarshal o base total size chunk chunks s
      (apart, named, found, clear, nothing, ok, heads) room =
    let route = route_of w t s in
    let h = header (init_message base total size) in
    let frames = chunk_frames o base (suc (length chunks)) 0 (chunk ∷ chunks) in
    let (begun, known) = announced rc t apart w h s named found clear nothing ok refl in
    let held =
      chunks-Carries w rc t apart rounds o base route refl
        (λ i final compressed. (heads i final compressed).1) (suc (length chunks)) 0 0 chunk chunks
        (handle_file_transfer w rc h s) _ known (omega arith) room begun in
    (
      json (transfer_request route.req_id h) ∷ map (carried w route) frames,
      held.0 ∙ append_assoc (outgoing (s.conns t)) (json (transfer_request route.req_id h) ∷ []) _,
      ap (◌∷◌ (json (transfer_request route.req_id h))) (
          read-carried w unmarshal o base route (λ i final compressed. (heads i final compressed).0)
            (suc (length chunks)) 0 (chunk ∷ chunks)),
    )
