-- ===== src/Relay/Authority/Handlers.antt =====
-- The requests that the remaining handlers send: only through a target that `find_target` gave.
use remotecmd_cli.Prelude.{ℕ, ◌≡◌, ◌≢◌, refl, ◌∙◌, String, Option, none, some, arith}
use remotecmd_cli.Protocol.{Header}
use remotecmd_cli.Dict
use remotecmd_cli.Dict.{Dict}
use remotecmd_cli.Relay.Client.{start_writer}
use remotecmd_cli.Relay.State.{Relay, World, send, set_conn, send_error}
use remotecmd_cli.Relay.Authority.Base.{
  is_request, asked, asked-send_quiet, asked-err_result, asked-error_message, asked-after_forward,
  asked-send_target,
}
use remotecmd_cli.Relay.Forward.{
  Found, target, refused, find_target, handle_file_transfer, handle_disconnect, transfer_at,
  transfer_sent, disconnect_at, disconnect_sent, add_pending, route_chunks,
}
use remotecmd_cli.Relay.Tunnel.{
  handle_tunnel_open, open_at, open_sent, open_refused, tunnel_request,
}

module _ (w : World) (rc : ℕ) (h : Header) (t : ℕ) where
  asked-route_chunks :
      (c : ℕ) (req_id : String) (s : Relay) → asked t (route_chunks rc c req_id h s) ≡ asked t s
  unfolding route_chunks set_conn start_writer
  asked-route_chunks c req_id s = ground arith

  asked-transfer_sent :
      (c : ℕ) (req_id : String) (o : Option String) (s : Relay)
      → asked t (transfer_sent w rc c h req_id o s) ≡ asked t s
  asked-transfer_sent c req_id (some e) s =
      asked-after_forward w rc h t req_id "failed to forward file transfer: " (some e) s
  asked-transfer_sent c req_id none s = ground (arith, asked-route_chunks c req_id s)

  asked-transfer_at :
      (s : Relay) (f : Found)
      → find_target h s ≡ f
      → h.token ≢ (s.conns t).token
      → asked t (transfer_at w rc h f s) ≡ asked t s
  unfolding add_pending
  asked-transfer_at s (refused e) found no_token = asked-err_result t w rc h.id e s
  asked-transfer_at s (target c) found no_token =
      asked-transfer_sent c (w.new_id s.ids) _ _
      ∙ asked-send_target w rc h t s (add_pending w rc h s) c _ found no_token

  pub asked-handle_file_transfer :
      (s : Relay)
      → h.token ≢ (s.conns t).token
      → asked t (handle_file_transfer w rc h s) ≡ asked t s
  unfolding handle_file_transfer
  asked-handle_file_transfer s no_token = ground (
    arith,
    asked-err_result t w rc h.id "target is required" s,
    asked-transfer_at s (find_target h s) refl no_token,
  )

  asked-disconnect_sent :
      (o : Option String) (s : Relay) → asked t (disconnect_sent w rc h o s) ≡ asked t s
  unfolding is_request
  asked-disconnect_sent (some e) s = asked-error_message t w rc _ s
  asked-disconnect_sent none s = asked-send_quiet t w rc _ s refl

  asked-disconnect_at :
      (s : Relay) (f : Found)
      → find_target h s ≡ f
      → h.token ≢ (s.conns t).token
      → asked t (disconnect_at w rc h f s) ≡ asked t s
  asked-disconnect_at s (refused e) found no_token = asked-error_message t w rc e s
  asked-disconnect_at s (target c) found no_token =
      asked-disconnect_sent _ _ ∙ asked-send_target w rc h t s s c _ found no_token

  pub asked-handle_disconnect :
      (s : Relay) → h.token ≢ (s.conns t).token → asked t (handle_disconnect w rc h s) ≡ asked t s
  unfolding handle_disconnect
  asked-handle_disconnect s no_token = ground (
    arith,
    asked-error_message t w rc "disconnect requires target" s,
    asked-disconnect_at s (find_target h s) refl no_token,
  )

  asked-open_refused :
      (e : String) (s : Relay) → asked t (send w rc (open_refused h e) s) ≡ asked t s
  unfolding is_request open_refused
  asked-open_refused e s = asked-send_quiet t w rc (open_refused h e) s refl

  asked-open_sent : (o : Option String) (s : Relay) → asked t (open_sent w rc h o s) ≡ asked t s
  asked-open_sent none s = refl
  asked-open_sent (some e) s = asked-open_refused _ _

  abbrev opened : ℕ → Relay → Relay
  opened c s = record s {
    tunnels = Dict.put s.tunnels h.tunnel_id (record { client_conn = rc; daemon_conn = c });
  }

  asked-open_at :
      (s : Relay) (f : Found)
      → find_target h s ≡ f
      → h.token ≢ (s.conns t).token
      → asked t (open_at w rc h f s) ≡ asked t s
  asked-open_at s (refused e) found no_token = asked-open_refused e s
  asked-open_at s (target c) found no_token =
      asked-open_sent (send_error w s) (send w c (tunnel_request h) (opened c s))
      ∙ asked-send_target w rc h t s (opened c s) c (tunnel_request h) found no_token

  pub asked-handle_tunnel_open :
      (s : Relay) → h.token ≢ (s.conns t).token → asked t (handle_tunnel_open w rc h s) ≡ asked t s
  unfolding handle_tunnel_open
  asked-handle_tunnel_open s no_token = ground (
    arith,
    asked-open_refused "target, tunnel_id, and remote_addr are required" s,
    asked-open_at s (find_target h s) refl no_token,
  )
