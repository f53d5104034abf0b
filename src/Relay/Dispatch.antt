-- ===== src/Relay/Dispatch.antt =====
-- Case analysis on the dispatch of the read loop in relay.go: what holds of every handler's result holds
-- of the dispatch.
use remotecmd_cli.Prelude.{
  ℕ, ◌⧺◌, ◌≡◌, ◌⊎◌, inl, inr, Bool, true, false, ◌||◌, ◌==◌, eq_iff, if_cases,
}
use remotecmd_cli.Protocol.{Header, Results, message, error_message}
use remotecmd_cli.Relay.State.{Relay, World, send}
use remotecmd_cli.Relay.Forward.{handle_execute, handle_file_transfer, handle_disconnect}
use remotecmd_cli.Relay.Chunks.{Frame, handle_file_chunk}
use remotecmd_cli.Relay.Results.{
  handle_stream_chunk, handle_stream_end, handle_result, handle_file_transfer_result,
}
use remotecmd_cli.Relay.Multi.{handle_execute_multi}
use remotecmd_cli.Relay.Pair.{handle_pair_listen, handle_pair}
use remotecmd_cli.Relay.Tunnel.{handle_tunnel_open, handle_tunnel_relay, handle_tunnel_close}
use remotecmd_cli.Relay.Serve.{handle}

or_cases : (a b : Bool) → (a || b) ≡ true → (a ≡ true) ⊎ (b ≡ true)
or_cases true b h = inl h
or_cases false b h = inr h

-- One premise for each handler, in the order of the switch.
pub record Cases {ℓ} (P : Relay → Type ℓ) (w : World) (rc : ℕ) (h : Header) (r : Results)
    (next : Frame) (s : Relay) : Type ℓ where
  pub execute : P (handle_execute w rc h s)
  pub file_transfer : P (handle_file_transfer w rc h s)
  pub file_chunk : P (handle_file_chunk w rc h next s)
  pub stream_chunk : h.kind ≡ "stream_chunk" → P (handle_stream_chunk w (message h r) s)
  pub stream_end : h.kind ≡ "stream_end" → P (handle_stream_end w (message h r) s)
  pub result : h.kind ≡ "result" → P (handle_result w (message h r) s)
  pub file_transfer_result : P (handle_file_transfer_result w rc (message h r) s)
  pub execute_multi : P (handle_execute_multi w rc h s)
  pub pair_listen : P (handle_pair_listen w rc h s)
  pub pair : P (handle_pair w rc h s)
  pub disconnect : P (handle_disconnect w rc h s)
  pub tunnel_open : P (handle_tunnel_open w rc h s)
  pub tunnel_relay :
      (h.kind ≡ "tunnel_opened") ⊎ (h.kind ≡ "tunnel_data")
      → P (handle_tunnel_relay w rc (message h r) s)
  pub tunnel_close : P (handle_tunnel_close w rc h s)
  pub unknown : P (send w rc (error_message ("unknown message type: " ⧺ h.kind)) s)

module _ {ℓ} (P : Relay → Type ℓ) (w : World) (rc : ℕ) (h : Header) (r : Results) (next : Frame)
    (s : Relay) (c : Cases P w rc h r next s) where
  tunnel_kind :
      (h.kind == "tunnel_opened" || h.kind == "tunnel_data") ≡ true
      → (h.kind ≡ "tunnel_opened") ⊎ (h.kind ≡ "tunnel_data")
  tunnel_kind e = elim (or_cases (h.kind == "tunnel_opened") _ e) [
    | inl a ↦ inl ((eq_iff _ _).0 a)
    | inr b ↦ inr ((eq_iff _ _).0 b)
  ]

  pub handle_cases : P (handle w rc (message h r) next s)
  unfolding handle
  handle_cases =
      if_cases P (h.kind == "execute") _ _ (λ _. c.execute)
        λ _.
          if_cases P (h.kind == "file_transfer") _ _ (λ _. c.file_transfer)
            λ _.
              if_cases P (h.kind == "file_chunk") _ _ (λ _. c.file_chunk)
                λ _.
                  if_cases P (h.kind == "stream_chunk") _ _ (λ e. c.stream_chunk ((eq_iff _ _).0 e))
                    λ _.
                      if_cases P (h.kind == "stream_end") _ _ (λ e. c.stream_end ((eq_iff _ _).0 e))
                        λ _.
                          if_cases P (h.kind == "result") _ _ (λ e. c.result ((eq_iff _ _).0 e))
                            λ _.
                              if_cases P (h.kind == "file_transfer_result") _ _
                                (λ _. c.file_transfer_result)
                                λ _.
                                  if_cases P (h.kind == "execute_multi") _ _ (λ _. c.execute_multi)
                                    λ _.
                                      if_cases P (h.kind == "pair_listen") _ _ (λ _. c.pair_listen)
                                        λ _.
                                          if_cases P (h.kind == "pair") _ _ (λ _. c.pair)
                                            λ _.
                                              if_cases P (h.kind == "disconnect") _ _
                                                (λ _. c.disconnect)
                                                λ _.
                                                  if_cases P (h.kind == "tunnel_open") _ _
                                                    (λ _. c.tunnel_open)
                                                    λ _.
                                                      if_cases P
                                                        (h.kind == "tunnel_opened"
                                                          || h.kind == "tunnel_data")
                                                        _ _ (λ e. c.tunnel_relay (tunnel_kind e))
                                                        λ _.
                                                          if_cases P (h.kind == "tunnel_close") _ _
                                                            (λ _. c.tunnel_close) λ _. c.unknown
