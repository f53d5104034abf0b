-- ===== src/Examples/Deliveries.antt =====
-- The theorem on a whole transfer, on a relay with one target.
use remotecmd_cli.Prelude.{Bool, eqb, if◌then◌else◌, true, ℕ, false, none, List, [], ◌∷◌}
use remotecmd_cli.Dict
use remotecmd_cli.Transfer.Sender.{Outside, send_file_streaming}
use remotecmd_cli.Relay.State.{Relay, World, new_relay}
use remotecmd_cli.Relay.Chunks
use remotecmd_cli.Prelude.Int.{pos_part}
use remotecmd_cli.Protocol.{Message, header}
use remotecmd_cli.Transfer.Handover.{relayed_header}
use remotecmd_cli.Transfer.Sender
use remotecmd_cli.Transfer.Sender.{
  send_chunks, send_chunk, write_message, write_payload, write_packet,
}
use remotecmd_cli.Examples.Transfers.{scp, route}

-- A relay at which connection 1 is the target "t".
abbrev relay : Relay
relay = record (new_relay "" Dict.empty) { clients = Dict.put Dict.empty "t" 1 }

-- The headers of chunks as three numbers.
abbrev bit : Bool → ℕ
bit b = if b then 1 else 0

abbrev packed : Message → List ℕ
packed m = pos_part (header m).seq ∷ bit (header m).final ∷ bit (header m).compressed ∷ []

abbrev unpacked : List ℕ → Message
unpacked (i ∷ final ∷ compressed ∷ []) = relayed_header scp route i (eqb final 1) (eqb compressed 1)
unpacked bytes = relayed_header scp route 0 false false

abbrev world : World
world = record {
  new_id = λ n. "r1";
  write_error = λ n. none;
  marshal = packed;
  is_valid_key = λ key. true;
}

abbrev each_time : ℕ → ℕ
each_time n = 1
