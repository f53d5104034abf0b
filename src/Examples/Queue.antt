-- ===== src/Examples/Queue.antt =====
-- The write queue's theorems on a header and a payload of a few bytes.
use remotecmd_cli.Prelude.{ℕ, true, false, some, List, [], ◌∷◌, ◌≡◌, refl, arith}
use remotecmd_cli.Relay.Client.{
  Client, fresh_client, text, binary, pair_frame, frame_packets, has_room,
}
use remotecmd_cli.Relay.Framing.{
  frame_packets-pair_frame, outgoing, drain_times, drain_times-outgoing,
}

abbrev head : List ℕ
head = 123 ∷ 125 ∷ []

abbrev load : List ℕ
load = 0 ∷ 255 ∷ 7 ∷ []

-- A connection whose writer goroutine was started, with one pair in its queue.
abbrev busy : Client
busy = record fresh_client { queue_open = true; started = true; queued = pair_frame head load ∷ [] }

-- The same connection after its queue was closed.
abbrev leaving : Client
leaving = record busy { queue_open = false }

busy-has_room : has_room busy ≡ true
unfolding has_room
busy-has_room = refl

leaving_has_none : has_room leaving ≡ false
unfolding has_room
leaving_has_none = refl

frame_packets-pair_frame_example :
    frame_packets (pair_frame head load) ≡ some (text head ∷ binary load ∷ [])
frame_packets-pair_frame_example = frame_packets-pair_frame head load (omega arith)

drain_times-outgoing_example :
    drain_times 1 busy ≡ some (record busy { queued = []; wire = outgoing busy })
drain_times-outgoing_example =
    drain_times-outgoing busy ((_, frame_packets-pair_frame head load (omega arith)), tt) refl
