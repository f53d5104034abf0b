-- ===== src/Relay/Tunnels.antt =====
-- The life of a tunnel through the relay (relay_tunnel.go).
use remotecmd_cli.Prelude.{
  ℕ, ◌≡◌, ◌≢◌, refl, ap, ◌∙◌, String, false, none, some, [], ◌∷◌, ◌++◌, arith, eq_false, eqb_iff,
  eqb_refl,
}
use remotecmd_cli.Dict
use remotecmd_cli.Dict.{get-put, get-put_self, get-remove, get-remove_self}
use remotecmd_cli.Protocol.{Header, Message, header}
use remotecmd_cli.Relay.Client.{json}
use remotecmd_cli.Relay.State.{Relay, World, TunnelSession, send, set_conn}
use remotecmd_cli.Relay.Wires.{wire, wire-send}
use remotecmd_cli.Relay.Chunks.{read_error, Frame}
use remotecmd_cli.Relay.Correlation.{IsReachable, find_target-reachable}
use remotecmd_cli.Relay.Tunnel.{
  handle_tunnel_open, handle_tunnel_relay, handle_tunnel_close, tunnel_request, tunnel_closed,
  other_side,
}
use remotecmd_cli.Relay.Serve.{Session, on_frame, close_session}

tunnels-send : (w : World) (c : ℕ) (m : Message) (s : Relay) → (send w c m s).tunnels ≡ s.tunnels
unfolding send set_conn
tunnels-send w c m s = refl

handle_tunnel_relay_known :
    (w : World) (c : ℕ) (m : Message) (s : Relay) (x : TunnelSession)
    → Dict.get s.tunnels (header m).tunnel_id ≡ some x
    → handle_tunnel_relay w c m s ≡ send w (other_side c x) m s
unfolding handle_tunnel_relay
handle_tunnel_relay_known w c m s x found = rw (found, handle_tunnel_relay)

handle_tunnel_relay_unknown :
    (w : World) (c : ℕ) (m : Message) (s : Relay)
    → Dict.get s.tunnels (header m).tunnel_id ≡ none
    → handle_tunnel_relay w c m s ≡ s
unfolding handle_tunnel_relay
handle_tunnel_relay_unknown w c m s unknown = rw (unknown, handle_tunnel_relay)

handle_tunnel_close_known :
    (w : World) (c : ℕ) (k : Header) (s : Relay) (x : TunnelSession)
    → Dict.get s.tunnels k.tunnel_id ≡ some x
    → handle_tunnel_close w c k s
      ≡ send w
          (other_side c x)
          (tunnel_closed k.tunnel_id)
          (record s { tunnels = Dict.remove s.tunnels k.tunnel_id })
unfolding handle_tunnel_close
handle_tunnel_close_known w c k s x found = rw (found, handle_tunnel_close)

-- An open message that names a tunnel and an address, for a reachable target.
pub record IsOpening (h : Header) (t : ℕ) (s : Relay) : Type 0 where
  pub reachable : IsReachable h t s
  pub identified : h.tunnel_id ≢ ""
  pub addressed : h.remote_addr ≢ ""

module _ (w : World) (rc t : ℕ) (h : Header) (s : Relay) (o : IsOpening h t s)
    (ok : w.write_error s.writes ≡ none) where
  abbrev pub with_tunnel : Relay
  with_tunnel = record s {
    tunnels = Dict.put s.tunnels h.tunnel_id (record { client_conn = rc; daemon_conn = t });
  }

  abbrev pub opened : Relay
  opened = handle_tunnel_open w rc h s

  opened_lem : opened ≡ send w t (tunnel_request h) with_tunnel
  unfolding handle_tunnel_open
  opened_lem =
      rw
        (
          eq_false h.target "" o.reachable.named,
          eq_false h.tunnel_id "" o.identified,
          eq_false h.remote_addr "" o.addressed,
          find_target-reachable h t s o.reachable,
        )
        (ground (arith, ok))

  pub tunnel-opened :
      Dict.get opened.tunnels h.tunnel_id ≡ some (record { client_conn = rc; daemon_conn = t })
  tunnel-opened = rw (opened_lem, tunnels-send) (get-put_self s.tunnels h.tunnel_id _)

  pub wire-opened : wire t opened ≡ wire t s ++ json (tunnel_request h) ∷ []
  wire-opened = rw opened_lem (wire-send w t (tunnel_request h) with_tunnel ok)

  -- The connection at the other end from `c`.
  abbrev far_end : ℕ → ℕ
  far_end c = other_side c (record { client_conn = rc; daemon_conn = t })

  found-opened :
      (tid : String)
      → tid ≡ h.tunnel_id
      → Dict.get opened.tunnels tid ≡ some (record { client_conn = rc; daemon_conn = t })
  found-opened tid same = ap (Dict.get opened.tunnels) same ∙ tunnel-opened

  relay-opened :
      (c : ℕ) (m : Message)
      → (header m).tunnel_id ≡ h.tunnel_id
      → handle_tunnel_relay w c m opened ≡ send w (far_end c) m opened
  relay-opened c m same = handle_tunnel_relay_known w c m opened _ (found-opened _ same)

  shut : Header → Relay
  shut k = record opened { tunnels = Dict.remove opened.tunnels k.tunnel_id }

  close-opened :
      (c : ℕ) (k : Header)
      → k.tunnel_id ≡ h.tunnel_id
      → handle_tunnel_close w c k opened ≡ send w (far_end c) (tunnel_closed k.tunnel_id) (shut k)
  unfolding shut
  close-opened c k same = handle_tunnel_close_known w c k opened _ (found-opened _ same)

  closed_silent :
      (c e : ℕ) (k : Header) (m : Message)
      → k.tunnel_id ≡ h.tunnel_id
      → (header m).tunnel_id ≡ k.tunnel_id
      → handle_tunnel_relay w e m (handle_tunnel_close w c k opened)
        ≡ handle_tunnel_close w c k opened
  unfolding shut
  closed_silent c e k m same same' = handle_tunnel_relay_unknown w e m _ (
      ap (λ x. Dict.get x.tunnels (header m).tunnel_id) (close-opened c k same)
      ∙ ap (λ x. Dict.get x (header m).tunnel_id) (tunnels-send w (far_end c) _ (shut k))
      ∙ ap (Dict.get (shut k).tunnels) same'
      ∙ get-remove_self opened.tunnels k.tunnel_id)

  -- The life of a tunnel between two different connections, where no write fails: the open reaches the
  -- daemon's side; then what the client sends goes to the daemon and what the daemon sends goes to the
  -- client; a close by either end reaches the other end, and what is sent on the tunnel after it, by
  -- anyone, changes nothing.
  pub tunnel_life :
      (m : Message) (k : Header)
      → rc ≢ t
      → k.tunnel_id ≡ h.tunnel_id
      → (header m).tunnel_id ≡ k.tunnel_id
      → w.write_error opened.writes ≡ none
      → (wire t opened ≡ wire t s ++ json (tunnel_request h) ∷ [])
        × (wire t (handle_tunnel_relay w rc m opened) ≡ wire t opened ++ json m ∷ [])
        × (wire rc (handle_tunnel_relay w t m opened) ≡ wire rc opened ++ json m ∷ [])
        × (wire t (handle_tunnel_close w rc k opened)
            ≡ wire t opened ++ json (tunnel_closed k.tunnel_id) ∷ [])
        × (wire rc (handle_tunnel_close w t k opened)
            ≡ wire rc opened ++ json (tunnel_closed k.tunnel_id) ∷ [])
        × ((c e : ℕ)
            → handle_tunnel_relay w e m (handle_tunnel_close w c k opened)
              ≡ handle_tunnel_close w c k opened)
  unfolding other_side shut
  tunnel_life m k ne same' same ok' =
      let same_m = same ∙ same' in
      let to_daemon : far_end rc ≡ t = rw (eqb_refl rc) in
      let to_client : far_end t ≡ rc = ground (arith, eqb_iff rc t) in
      let closed_by = λ (c d : ℕ) (e : far_end c ≡ d).
        ap (wire d) (close-opened c k same')
        ∙ ap (λ x. wire d (send w x (tunnel_closed k.tunnel_id) (shut k))) e
        ∙ wire-send w d (tunnel_closed k.tunnel_id) (shut k) ok' in
      let sent_by = λ (c d : ℕ) (e : far_end c ≡ d).
        ap (wire d) (relay-opened c m same_m)
        ∙ ap (λ x. wire d (send w x m opened)) e
        ∙ wire-send w d m opened ok' in
      (
        wire-opened,
        sent_by rc t to_daemon,
        sent_by t rc to_client,
        closed_by rc t to_daemon,
        closed_by t rc to_client,
        λ c e. closed_silent c e k m same' same,
      )

  -- A client that opened a tunnel without having registered and then goes away leaves the tunnel open:
  -- the tunnel stays in the relay's table, and the daemon is sent nothing.
  pub abandoned_tunnel :
      (v : Session) (e : String) (next : Frame)
      → v.registered ≡ false
      → (Dict.get (on_frame w rc v (read_error e) next opened).1.tunnels h.tunnel_id
          ≡ some (record { client_conn = rc; daemon_conn = t }))
        × (wire t (on_frame w rc v (read_error e) next opened).1 ≡ wire t opened)
  unfolding on_frame close_session
  abandoned_tunnel v e next unregistered = (rw unregistered tunnel-opened, rw unregistered)
