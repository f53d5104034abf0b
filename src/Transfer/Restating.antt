-- ===== src/Transfer/Restating.antt =====
-- The errors of the two senders of filetransfer_stream.go, which number a chunk differently: by `i` in
-- sendFileStreaming, by `i + 1` and the number of chunks in sendFileFrames.
use remotecmd_cli.Prelude.{
  ℕ, suc, ◌≡◌, refl, ap, ◌∙◌, String, Bool, Option, none, some, List, [], ◌∷◌, length, ltb,
  Bool-cases, Option-cases, inl, inr,
}
use remotecmd_cli.Protocol.{Header, Message}
use remotecmd_cli.Relay.Client.{Packet, json}
use remotecmd_cli.Transfer.Compress.{try_compress}
use remotecmd_cli.Transfer.Sender.{
  Outside, Port, SendError, numbered, counted, header_failed, payload_failed, max_frame, encoded,
  chunk_header, write_packet, write_message, write_payload, then_payload, send_chunk,
}

-- An error of sendFileStreaming in the words of sendFileFrames, which has `n` chunks.
abbrev restated : ℕ → SendError → SendError
restated n (header_failed (numbered i) e) = header_failed (counted (suc i) n) e
restated n (payload_failed (numbered i) e) = payload_failed (counted (suc i) n) e
restated n e = e

abbrev pub restate : ℕ → Option SendError × Port → Option SendError × Port
restate n (none, port) = (none, port)
restate n (some e, port) = (some (restated n e), port)

restate-write_packet :
    (n : ℕ) (o : Outside) (fault fault' : String → SendError) (m : Packet) (port : Port)
    → ((e : String) → restated n (fault e) ≡ fault' e)
    → restate n (write_packet o fault m port) ≡ write_packet o fault' m port
unfolding write_packet
restate-write_packet n o fault fault' m port same =
    elim (Option-cases (o.write_error port.writes)) [
      | inl sent ↦ rw sent refl
      | inr (e, failed) ↦
          rw failed (ap (λ w. (some w, record port { writes = suc port.writes })) (same e))
    ]

pub restate-write_message :
    (n : ℕ) (o : Outside) (fault fault' : String → SendError) (m : Message) (port : Port)
    → ((e : String) → restated n (fault e) ≡ fault' e)
    → restate n (write_message o fault m port) ≡ write_message o fault' m port
unfolding write_message
restate-write_message n o fault fault' m port same =
    elim (Bool-cases (ltb max_frame (length (o.marshal m)))) [
      | inl over ↦ rw over refl
      | inr fits ↦ rw fits (restate-write_packet n o fault fault' (json m) port same)
    ]

restate-write_payload :
    (n i : ℕ) (o : Outside) (bytes : List ℕ) (port : Port)
    → restate n (write_payload o (numbered i) bytes port)
      ≡ write_payload o (counted (suc i) n) bytes port
unfolding write_payload
restate-write_payload n i o [] port = refl
restate-write_payload n i o (b ∷ bytes) port =
    restate-write_packet n o (payload_failed (numbered i)) (payload_failed (counted (suc i) n)) _
      port (λ e. refl)

restate-then_payload :
    (n i : ℕ) (o : Outside) (bytes : List ℕ) (r : Option SendError × Port)
    → restate n (then_payload o (numbered i) bytes r)
      ≡ then_payload o (counted (suc i) n) bytes (restate n r)
restate-then_payload n i o bytes (none, port) = restate-write_payload n i o bytes port
restate-then_payload n i o bytes (some e, port) = refl

-- Both send a chunk alike.
pub restate-send_chunk :
    (n i : ℕ) (o : Outside) (base : Header) (final : Bool) (bytes : List ℕ) (port : Port)
    → restate n (send_chunk o base (numbered i) i final bytes port)
      ≡ send_chunk o base (counted (suc i) n) i final bytes port
unfolding send_chunk
restate-send_chunk n i o base final bytes port =
    let (payload, compressed) = encoded (try_compress o.gzip bytes) bytes in
    restate-then_payload n i o payload _
    ∙ ap (then_payload o (counted (suc i) n) payload) (
        restate-write_message n o (header_failed (numbered i)) (header_failed (counted (suc i) n))
          (chunk_header base i final compressed) port (λ e. refl))
