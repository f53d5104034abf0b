-- ===== src/Relay/Authority/Quiet.antt =====
-- The handlers that send no request at all: registration, chunks, answers, pairing, tunnel data.
use remotecmd_cli.Prelude.{
  ℕ, suc, ◌≡◌, refl, ◌∙◌, inl, inr, String, ◌⧺◌, Bool, false, Option, none, some, List, [], ◌∷◌,
  arith, Option-cases,
}
use remotecmd_cli.Protocol.{Header, Message, header}
use remotecmd_cli.Dict
use remotecmd_cli.Dict.{Dict}
use remotecmd_cli.Relay.Client.{
  Client, ChunkRoute, json, text, binary, write, write_pair, send_header_and_binary,
}
use remotecmd_cli.Relay.State.{
  Relay, World, TunnelSession, PairListener, send, set_conn, send_error,
}
use remotecmd_cli.Relay.Authority.Base.{
  is_request, requests, asked, asked-send_quiet, asked-err_result, requests-write,
  asked-error_message,
}
use remotecmd_cli.Relay.Register.{install, evict, claim, handle_register}
use remotecmd_cli.Relay.Forward.{cleanup_pending}
use remotecmd_cli.Relay.Chunks.{
  Frame, text_frame, binary_frame, read_error, drop_route, fail_transfer, send_pair, chunk_sent,
  binary_chunk, chunk_at, handle_file_chunk, chunk_message,
}
use remotecmd_cli.Relay.Pair.{handle_pair_listen, handle_pair, pair_with, pair_done, pair_confirmed}
use remotecmd_cli.Relay.Tunnel.{
  handle_tunnel_relay, handle_tunnel_close, other_side, tunnel_closed, notify_closed,
}

-- A change of a connection that keeps its wire.
pub asked-set_conn :
    (t c : ℕ) (k : Client) (s : Relay)
    → requests k.wire ≡ requests (s.conns c).wire
    → asked t (set_conn c k s) ≡ asked t s
unfolding set_conn
asked-set_conn t c k s h = ground arith

module _ (w : World) (rc : ℕ) (t : ℕ) where
  asked-install : (h : Header) (s : Relay) → asked t (install w rc h s) ≡ asked t s
  unfolding install is_request
  asked-install h s =
      asked-send_quiet t w rc _ _ refl
      ∙ asked-set_conn t rc (record (s.conns rc) { name = h.name; token = h.token }) s refl

  asked-evict : (existing : ℕ) (h : Header) (s : Relay) → asked t (evict w existing h s) ≡ asked t s
  unfolding evict
  asked-evict existing h s = asked-error_message t w existing "replaced by new connection" s

  asked-claim : (h : Header) (o : Option ℕ) (s : Relay) → asked t (claim w rc h o s).1 ≡ asked t s
  unfolding claim
  asked-claim h none s = asked-install h s
  asked-claim h (some existing) s = ground (
    arith,
    asked-error_message t w rc ("name already registered: " ⧺ h.name) s,
    asked-install h (evict w existing h s),
    asked-evict existing h s,
  )

  pub asked-handle_register :
      (auth : Bool) (h : Header) (s : Relay) → asked t (handle_register w rc auth h s).1 ≡ asked t s
  unfolding handle_register
  asked-handle_register auth h s = ground (
    arith,
    asked-error_message t w rc "name and token required" s,
    asked-error_message t w rc "authentication required: relay secret not provided" s,
    asked-claim h (Dict.get s.clients h.name) s,
  )

  asked-drop_route : (id : String) (s : Relay) → asked t (drop_route rc id s) ≡ asked t s
  unfolding drop_route
  asked-drop_route id s =
      asked-set_conn t rc
        (record (s.conns rc) { chunk_routes = Dict.remove (s.conns rc).chunk_routes id }) s refl

  asked-fail_transfer :
      (h : Header) (route : ChunkRoute) (e : String) (s : Relay)
      → asked t (fail_transfer w rc h route e s) ≡ asked t s
  unfolding fail_transfer cleanup_pending
  asked-fail_transfer h route e s = asked-err_result t w rc h.id e _ ∙ asked-drop_route h.id s

  asked-chunk_sent :
      (h : Header) (route : ChunkRoute) (o : Option String) (s : Relay)
      → asked t (chunk_sent w rc h route o s) ≡ asked t s
  asked-chunk_sent h route (some e) s = asked-fail_transfer h route _ s
  asked-chunk_sent h route none s = ground (arith, asked-drop_route h.id s)

  requests-write_pair :
      (o p : Option String) (head payload : List ℕ) (c : Client)
      → requests (write_pair o p head payload c).1.wire ≡ requests c.wire
  unfolding write_pair is_request
  requests-write_pair (some e) p head payload c = refl
  requests-write_pair none p head payload c =
      requests-write p (binary payload) (write none (text head) c) refl
      ∙ requests-write none (text head) c refl

  asked-send_pair :
      (c : ℕ) (head payload : List ℕ) (s : Relay)
      → asked t (send_pair w c head payload s).1 ≡ asked t s
  unfolding send_pair send_header_and_binary
  asked-send_pair c head payload s =
      asked-set_conn t c _ (record s { writes = suc (suc s.writes) })
        (ground (
          arith,
          requests-write_pair (w.write_error s.writes) (w.write_error (suc s.writes)) head payload
              (s.conns c),
        ))

  asked-binary_chunk :
      (h : Header) (route : ChunkRoute) (next : Frame) (s : Relay)
      → asked t (binary_chunk w rc h route next s) ≡ asked t s
  asked-binary_chunk h route (read_error e) s = asked-fail_transfer h route _ s
  asked-binary_chunk h route (text_frame m) s = refl
  asked-binary_chunk h route (binary_frame bytes) s =
      asked-chunk_sent h route _ _ ∙ asked-send_pair route.target _ bytes s

  asked-chunk_at :
      (h : Header) (next : Frame) (o : Option ChunkRoute) (s : Relay)
      → asked t (chunk_at w rc h next o s) ≡ asked t s
  unfolding is_request chunk_message
  asked-chunk_at h next none s = refl
  asked-chunk_at h next (some route) s = ground (
    arith,
    asked-binary_chunk h route next s,
    asked-chunk_sent h route (send_error w s) (send w route.target (chunk_message route h) s),
    asked-send_quiet t w route.target (chunk_message route h) s refl,
  )

  pub asked-handle_file_chunk :
      (h : Header) (next : Frame) (s : Relay)
      → asked t (handle_file_chunk w rc h next s) ≡ asked t s
  unfolding handle_file_chunk
  asked-handle_file_chunk h next s = asked-chunk_at h next _ s

  pub asked-handle_pair_listen :
      (h : Header) (s : Relay) → asked t (handle_pair_listen w rc h s) ≡ asked t s
  unfolding handle_pair_listen
  asked-handle_pair_listen h s =
      ground (arith, asked-error_message t w rc "pair_listen requires code" s)

  asked-pair_with :
      (h : Header) (l : PairListener) (s : Relay) → asked t (pair_with w rc h l s) ≡ asked t s
  unfolding pair_done pair_confirmed is_request
  asked-pair_with h l s = ground (
    arith,
    asked-send_quiet t w rc (pair_confirmed h) (send w l.conn (pair_done h) s) refl,
    asked-send_quiet t w l.conn (pair_done h) s refl,
    asked-error_message t w rc "pair rejected: activation key required but not provided or invalid"
        s,
  )

  pub asked-handle_pair : (h : Header) (s : Relay) → asked t (handle_pair w rc h s) ≡ asked t s
  unfolding handle_pair
  asked-handle_pair h s = elim (Option-cases (Dict.get s.pair_listeners h.code)) [
    | inl e ↦ ground (arith, asked-error_message t w rc "pair requires code and token" s)
    | inr (l, e) ↦ ground (
      arith,
      asked-error_message t w rc "pair requires code and token" s,
      asked-pair_with h l (record s { pair_listeners = Dict.remove s.pair_listeners h.code }),
    )
  ]

  pub asked-handle_tunnel_relay :
      (m : Message) (s : Relay)
      → is_request (json m) ≡ false
      → asked t (handle_tunnel_relay w rc m s) ≡ asked t s
  unfolding handle_tunnel_relay
  asked-handle_tunnel_relay m s quiet =
      elim (Option-cases (Dict.get s.tunnels (header m).tunnel_id)) [
        | inl e ↦ ground arith
        | inr (u, e) ↦ ground (arith, asked-send_quiet t w (other_side rc u) m s quiet)
      ]

  pub asked-handle_tunnel_close :
      (h : Header) (s : Relay) → asked t (handle_tunnel_close w rc h s) ≡ asked t s
  unfolding handle_tunnel_close tunnel_closed is_request
  asked-handle_tunnel_close h s = elim (Option-cases (Dict.get s.tunnels h.tunnel_id)) [
    | inl e ↦ ground arith
    | inr (u, e) ↦ ground (
      arith,
      asked-send_quiet t w (other_side rc u) (tunnel_closed h.tunnel_id)
          (record s { tunnels = Dict.remove s.tunnels h.tunnel_id }) refl,
    )
  ]

  pub asked-notify_closed :
      (l : List (String × TunnelSession)) (s : Relay) → asked t (notify_closed w rc l s) ≡ asked t s
  unfolding notify_closed tunnel_closed is_request
  asked-notify_closed [] s = refl
  asked-notify_closed ((tid, u) ∷ rest) s =
      asked-notify_closed rest _
      ∙ ground (arith, asked-send_quiet t w (other_side rc u) (tunnel_closed tid) s refl)
