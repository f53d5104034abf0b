-- ===== src/Relay/Framing.antt =====
-- The write queue of relay_client.go: the frame format, and the order in which packets reach the socket.
use mathlib.Core.List.{append_assoc, append-nil}
use remotecmd_cli.Prelude.{
  ℕ, zero, suc, ◌+◌, ◌*◌, ◌/◌, ◌%◌, ◌^◌, ◌<◌, ◌≡◌, refl, sym, ◌∙◌, ◌⊎◌, inl, inr, true, false,
  Option, none, some, List, [], ◌∷◌, ◌++◌, arith, length, take, drop, leb, length-append,
  take-length_append, drop-length_append, Bool-cases, if◌then◌else◌, All,
}
use remotecmd_cli.Relay.Client.{
  Client, Packet, text, binary, write, pair_frame, frame_packets, has_room, send_header_and_binary,
  write_packets, drain,
}

abbrev four_bytes : ℕ → ℕ
four_bytes n =
    n / 2 ^ 24 % 256 * 2 ^ 24 + n / 2 ^ 16 % 256 * 2 ^ 16 + n / 2 ^ 8 % 256 * 2 ^ 8 + n % 256

four_bytes_lem : (n : ℕ) → n < 2 ^ 32 → four_bytes n ≡ n
four_bytes_lem n h = omega arith

split-at :
    (n : ℕ) (header payload : List ℕ)
    → n ≡ length header
    → (if leb n (length (header ++ payload))
        then some (text (take n (header ++ payload)) ∷ binary (drop n (header ++ payload)) ∷ [])
        else none)
      ≡ some (text header ∷ binary payload ∷ [])
split-at n header payload e =
    rw (e, take-length_append header payload, drop-length_append header payload)
      (ground (arith, length-append header payload))

-- A header of less than 2^32 bytes and its payload survive the queue's frame format: the writer
-- goroutine writes the header as a text frame and then the payload as a binary frame.
pub frame_packets-pair_frame :
    (header payload : List ℕ)
    → length header < 2 ^ 32
    → frame_packets (pair_frame header payload) ≡ some (text header ∷ binary payload ∷ [])
unfolding frame_packets pair_frame
frame_packets-pair_frame header payload h =
    split-at (four_bytes (length header)) header payload (four_bytes_lem (length header) h)

abbrev packets_of : Option (List Packet) → List Packet
packets_of none = []
packets_of (some ps) = ps

-- What the writer goroutine will write for the frames of a queue.
abbrev pub packets : List (List ℕ) → List Packet
packets [] = []
packets (f ∷ fs) = packets_of (frame_packets f) ++ packets fs

pub packets-append : (fs gs : List (List ℕ)) → packets (fs ++ gs) ≡ packets fs ++ packets gs
packets-append [] gs = refl
packets-append (f ∷ fs) gs =
    rw (packets-append fs gs) (sym (append_assoc (packets_of (frame_packets f)) (packets fs) _))

-- A connection as its peer will see it: what was written, then what waits in the queue.
abbrev pub outgoing : Client → List Packet
outgoing c = c.wire ++ packets c.queued

-- While the queue takes frames, or while it is closed and empty, a header and its payload go to the end
-- of what the peer will see, in this order and side by side, if no write fails.
pub outgoing-send_header_and_binary :
    (header payload : List ℕ) (c : Client)
    → length header < 2 ^ 32
    → (has_room c ≡ true) ⊎ (c.queued ≡ [])
    → outgoing (send_header_and_binary none none header payload c).1
      ≡ outgoing c ++ text header ∷ binary payload ∷ []
unfolding send_header_and_binary
outgoing-send_header_and_binary header payload c h free = elim (Bool-cases (has_room c)) [
  | inl room ↦
      rw
        (
          room,
          packets-append c.queued (pair_frame header payload ∷ []),
          frame_packets-pair_frame header payload h,
        )
        (sym (append_assoc c.wire (packets c.queued) _))
  | inr full ↦ elim free [
    | inl room ↦ cc
    | inr nothing ↦ rw (full, nothing) (simp (append_assoc, append-nil))
  ]
]

-- Where the queue is full, the pair is written at once, in front of all that waits in the queue: it
-- overtakes the frames that were sent before it.
pub send_header_and_binary_overtakes :
    (header payload : List ℕ) (c : Client)
    → has_room c ≡ false
    → outgoing (send_header_and_binary none none header payload c).1
      ≡ c.wire ++ (text header ∷ binary payload ∷ packets c.queued)
unfolding send_header_and_binary
send_header_and_binary_overtakes header payload c full = rw full (simp append_assoc)

-- A frame that the writer goroutine can take apart.
abbrev pub IsWhole : List ℕ → Type 0
IsWhole f = (ps : List Packet) × (frame_packets f ≡ some ps)

write_packets_lem :
    (ps : List Packet) (c : Client)
    → write_packets none none ps c ≡ record c { wire = c.wire ++ ps }
unfolding write_packets
write_packets_lem [] c = simp append-nil
write_packets_lem (p ∷ ps) c = write_packets_lem ps (write none p c) ∙ simp append_assoc

pub drain_one :
    (c : Client) (f : List ℕ) (fs : List (List ℕ)) (ps : List Packet)
    → c.queued ≡ f ∷ fs
    → frame_packets f ≡ some ps
    → c.write_err ≡ none
    → drain none none c ≡ some (record c { queued = fs; wire = c.wire ++ ps })
unfolding drain
drain_one c f fs ps q e ok = rw (q, drain, e, ok, write_packets_lem)

-- Rounds of the writer goroutine with no failing write.
pub drain_times : ℕ → Client → Option Client
drain_times zero c = some c
drain_times (suc n) c = elim (drain none none c) [ none ↦ none | some c' ↦ drain_times n c' ]

flush :
    (fs : List (List ℕ)) (c : Client)
    → c.queued ≡ fs
    → All IsWhole fs
    → c.write_err ≡ none
    → drain_times (length fs) c ≡ some (record c { queued = []; wire = c.wire ++ packets fs })
unfolding drain_times
flush [] c q whole ok = ground (arith, append-nil c.wire)
flush (f ∷ fs) c q (w, whole) ok =
    rw (drain_one c f fs w.0 q w.1 ok, drain_times, w.1)
      (flush fs (record c { queued = fs; wire = c.wire ++ w.0 }) refl whole ok ∙ simp append_assoc)

-- Once the queue of a connection holds whole frames and no write has failed, as many rounds of the writer
-- goroutine as there are frames, with no failing write, put everything on the wire in the order of the
-- queue, whether or not the queue was closed in between, and leave the queue empty.
pub drain_times-outgoing :
    (c : Client)
    → All IsWhole c.queued
    → c.write_err ≡ none
    → drain_times (length c.queued) c ≡ some (record c { queued = []; wire = outgoing c })
drain_times-outgoing c whole ok = flush c.queued c refl whole ok
