-- ===== src/Transfer/Delivery.antt =====
-- A file transfer from end to end: the sender (filetransfer_stream.go), the relay's messages
-- (relay_handler.go) and the daemon (daemon_filetransfer.go).
use remotecmd_cli.Prelude.{ℕ, ◌≡◌, ◌++◌, List, [], ◌∷◌, map, length}
use remotecmd_cli.Prelude.Int.{pos}
use remotecmd_cli.Protocol.{Header, Message}
use remotecmd_cli.Relay.Client.{Packet, json}
use remotecmd_cli.Relay.State.{Relay, World}
use remotecmd_cli.Relay.Framing.{outgoing}
use remotecmd_cli.Transfer.Incoming.{Incoming}
use remotecmd_cli.Transfer.Relayed.{forwarded}
use remotecmd_cli.Transfer.Handover.{pass_transfer, HasRoomFor, route_of, read_frame}
use remotecmd_cli.Transfer.Sender.{Outside, Port, init_message}
use remotecmd_cli.Transfer.Sending.{chunk_frames}

-- A connection that nothing was written to.
abbrev pub fresh_port : Port
fresh_port = record { wire = []; writes = 0 }

-- The frames of these chunks pass the relay.
Pass :
    World
    → ℕ
    → ℕ
    → (ℕ → ℕ)
    → (List ℕ → Message)
    → Outside
    → Header
    → ℕ
    → List (List ℕ)
    → Relay
    → Type 0
Pass w rc t rounds unmarshal o base size chunks s =
    let frames =
      json (init_message base (pos (length chunks)) size)
      ∷ chunk_frames o base (length chunks) 0 chunks in
    HasRoomFor w rc t rounds frames s
    → (passed : List Packet) × (outgoing ((pass_transfer w rc t rounds frames s).conns t)
        ≡ outgoing (s.conns t) ++ passed)
      × (map (read_frame unmarshal) passed ≡ map (forwarded (route_of w t s)) frames)
