-- ===== src/Relay/Registry/Answers.antt =====
-- The handlers of answers, pairings, tunnels and multi-target commands change no name and no token.
use remotecmd_cli.Prelude.{
  ℕ, refl, String, Bool, Option, none, some, List, [], ◌∷◌, ◌==◌, ◌||◌, if_cases, Option-cases, inl,
  inr, eqb,
}
use remotecmd_cli.Prelude.Int.{ℤ, pos, leb_ℤ}
use remotecmd_cli.Dict
use remotecmd_cli.Dict.{Dict, holds}
use remotecmd_cli.Protocol.{Header, Message, Results, message, header}
use remotecmd_cli.Relay.Client.{close_writer}
use remotecmd_cli.Relay.State.{
  Relay, World, SubTargetInfo, MultiPendingEntry, PairListener, TunnelSession, send_error,
  token_equal,
}
use remotecmd_cli.Relay.Registry.Same.{SameRegistry, same_set_conn, same_send}
use remotecmd_cli.Relay.Forward.{Found, target, refused, find_target, cleanup_pending}
use remotecmd_cli.Relay.Chunks.{Frame}
use remotecmd_cli.Relay.Results.{
  answer, handle_stream_chunk, handle_stream_end, handle_result, handle_file_transfer_result,
  send_multi_result, sub_result, finish_multi, record_result,
}
use remotecmd_cli.Relay.Multi.{
  update_entry, set_verdict, add_sub, sub_sent, forward_sub, ask_at, ask_target, fan_out,
  start_multi, arm_multi, handle_execute_multi, multi_timeout, with_entry, no_targets,
}
use remotecmd_cli.Relay.Pair.{handle_pair_listen, handle_pair, pair_with, key_accepted}
use remotecmd_cli.Relay.Tunnel.{
  handle_tunnel_open, handle_tunnel_relay, handle_tunnel_close, open_at, open_sent, notify_closed,
  is_end,
}
use remotecmd_cli.Relay.Registry.Requests.{
  Same-handle_execute, Same-handle_file_transfer, Same-handle_disconnect, Same-handle_file_chunk,
}
use remotecmd_cli.Relay.Dispatch.{handle_cases}
use remotecmd_cli.Relay.Serve.{handle}

module _ (w : World) (a : Relay) where
  abbrev Same : Relay → Type 0
  Same = SameRegistry a

  Same-handle_stream_chunk : (m : Message) (s : Relay) → Same s → Same (handle_stream_chunk w m s)
  unfolding handle_stream_chunk
  Same-handle_stream_chunk m s p = elim (Option-cases (Dict.get s.pending (header m).id)) [
    | inl e ↦ rw (e, handle_stream_chunk) p
    | inr (pr, e) ↦ rw (e, handle_stream_chunk) (same_send a w pr.client_conn _ s p)
  ]

  Same-answer : (m : Message) (s : Relay) → Same s → Same (answer w m s)
  unfolding answer cleanup_pending
  Same-answer m s p = elim (Option-cases (Dict.get s.pending (header m).id)) [
    | inl e ↦ rw (e, answer) p
    | inr (pr, e) ↦
        rw (e, answer) (same_send a w pr.client_conn _ (cleanup_pending (header m).id s) p)
  ]

  Same-handle_file_transfer_result :
      (rc : ℕ) (m : Message) (s : Relay) → Same s → Same (handle_file_transfer_result w rc m s)
  unfolding handle_file_transfer_result cleanup_pending close_writer
  Same-handle_file_transfer_result rc m s p =
      elim (Option-cases (Dict.get s.pending (header m).id)) [
        | inl e ↦ rw (e, handle_file_transfer_result) p
        | inr (pr, e) ↦
            rw (e, handle_file_transfer_result)
              (same_set_conn a rc _ _ refl refl
                (same_send a w pr.client_conn _ (cleanup_pending (header m).id s) p))
      ]

  Same-finish_multi :
      (mid : String) (e : MultiPendingEntry) (s : Relay) → Same s → Same (finish_multi w mid e s)
  unfolding send_multi_result
  Same-finish_multi mid e s p =
      if_cases Same (leb_ℤ e.remaining (pos 0)) _ _ (λ _. same_send a w e.client_conn _ _ p) λ _. p

  Same-sub_result :
      (m : Message) (info : SubTargetInfo) (s : Relay) → Same s → Same (sub_result w m info s)
  unfolding sub_result
  Same-sub_result m info s p = elim (Option-cases (Dict.get s.multi_pending info.multi_id)) [
    | inl e ↦ rw (e, sub_result) p
    | inr (x, e) ↦
        rw (e, sub_result)
          (Same-finish_multi info.multi_id (record_result info.target_name m x)
            (record s { sub_to_multi = Dict.remove s.sub_to_multi (header m).id }) p)
  ]

  Same-handle_result : (m : Message) (s : Relay) → Same s → Same (handle_result w m s)
  unfolding handle_result
  Same-handle_result m s p = elim (Option-cases (Dict.get s.sub_to_multi (header m).id)) [
    | inl e ↦ rw (e, handle_result) (Same-answer m s p)
    | inr (info, e) ↦ rw (e, handle_result) (Same-sub_result m info s p)
  ]

  Same-update_entry :
      (mid : String) (f : MultiPendingEntry → MultiPendingEntry) (s : Relay)
      → Same s
      → Same (update_entry mid f s)
  unfolding update_entry
  Same-update_entry mid f s p = elim (Option-cases (Dict.get s.multi_pending mid)) [
    | inl e ↦ rw (e, update_entry) p
    | inr (x, e) ↦ rw (e, update_entry) p
  ]

  Same-set_verdict : (mid name e : String) (s : Relay) → Same s → Same (set_verdict mid name e s)
  unfolding set_verdict
  Same-set_verdict mid name e s p = Same-update_entry mid _ s p

  Same-sub_sent :
      (mid name sub_id : String) (o : Option String) (s : Relay)
      → Same s
      → Same (sub_sent mid name sub_id o s)
  Same-sub_sent mid name sub_id none s p = p
  Same-sub_sent mid name sub_id (some e) s p = Same-set_verdict mid name _ _ p

  Same-ask_at :
      (mid : String) (h : Header) (name : String) (o : Option ℕ) (s : Relay)
      → Same s
      → Same (ask_at w mid h name o s).1
  unfolding forward_sub add_sub
  Same-ask_at mid h name none s p = Same-set_verdict mid name _ s p
  Same-ask_at mid h name (some c) s p =
      if_cases (λ (x : Bool × Relay). Same x.1)
        (holds (token_equal (s.conns c).token) (Dict.get h.tokens name)) _ _
        (λ _. Same-sub_sent mid name _ _ _ (same_send a w c _ (add_sub w mid name s) p))
        λ _. Same-set_verdict mid name _ s p

  Same-fan_out :
      (mid : String) (h : Header) (names : List String) (count : ℕ) (s : Relay)
      → Same s
      → Same (fan_out w mid h names count s).1
  unfolding fan_out ask_target
  Same-fan_out mid h [] count s p = p
  Same-fan_out mid h (name ∷ rest) count s p =
      Same-fan_out mid h rest _ _ (Same-ask_at mid h name (Dict.get s.clients name) s p)

  Same-arm_multi :
      (mid : String) (timeout : ℤ) (count : ℕ) (s : Relay)
      → Same s
      → Same (arm_multi w mid timeout count s)
  unfolding arm_multi send_multi_result
  Same-arm_multi mid timeout count s p = elim (Option-cases (Dict.get s.multi_pending mid)) [
    | inl e ↦ rw (e, arm_multi) p
    | inr (x, e) ↦
        rw (e, arm_multi)
          (if_cases Same (eqb count 0) _ _ (λ _. same_send a w x.client_conn _ _ p)
            λ _. Same-update_entry mid _ s p)
  ]

  Same-handle_execute_multi :
      (rc : ℕ) (h : Header) (s : Relay) → Same s → Same (handle_execute_multi w rc h s)
  unfolding handle_execute_multi start_multi
  Same-handle_execute_multi rc h s p =
      let mid = w.new_id s.ids in
      let started = fan_out w mid h h.targets 0 (with_entry w rc h s) in
      if_cases Same (no_targets h.targets || h.cmd == "") _ _ (λ _. same_send a w rc _ s p)
        λ _.
          Same-arm_multi mid h.timeout started.0 started.1
            (Same-fan_out mid h h.targets 0 (with_entry w rc h s) p)

  pub Same-multi_timeout : (mid : String) (s : Relay) → Same s → Same (multi_timeout w mid s)
  unfolding multi_timeout send_multi_result
  Same-multi_timeout mid s p = elim (Option-cases (Dict.get s.multi_pending mid)) [
    | inl e ↦ rw (e, multi_timeout) p
    | inr (x, e) ↦ rw (e, multi_timeout) (same_send a w x.client_conn _ _ p)
  ]

  Same-handle_pair_listen :
      (rc : ℕ) (h : Header) (s : Relay) → Same s → Same (handle_pair_listen w rc h s)
  unfolding handle_pair_listen
  Same-handle_pair_listen rc h s p =
      if_cases Same (h.code == "") _ _ (λ _. same_send a w rc _ s p) λ _. p

  Same-pair_with :
      (rc : ℕ) (h : Header) (l : PairListener) (s : Relay) → Same s → Same (pair_with w rc h l s)
  Same-pair_with rc h l s p =
      if_cases Same (key_accepted w l h) _ _
        (λ _. same_send a w rc _ _ (same_send a w l.conn _ s p)) λ _. same_send a w rc _ s p

  Same-handle_pair : (rc : ℕ) (h : Header) (s : Relay) → Same s → Same (handle_pair w rc h s)
  unfolding handle_pair
  Same-handle_pair rc h s p = elim (Option-cases (Dict.get s.pair_listeners h.code)) [
    | inl e ↦
        rw (e, handle_pair)
          (if_cases Same (h.code == "" || h.token == "") _ _ (λ _. same_send a w rc _ s p) λ _. p)
    | inr (l, e) ↦
        rw (e, handle_pair)
          (if_cases Same (h.code == "" || h.token == "") _ _ (λ _. same_send a w rc _ s p)
            λ _.
              Same-pair_with rc h l
                (record s { pair_listeners = Dict.remove s.pair_listeners h.code }) p)
  ]

  Same-open_sent :
      (rc : ℕ) (h : Header) (o : Option String) (s : Relay) → Same s → Same (open_sent w rc h o s)
  Same-open_sent rc h none s p = p
  Same-open_sent rc h (some e) s p = same_send a w rc _ _ p

  Same-open_at : (rc : ℕ) (h : Header) (f : Found) (s : Relay) → Same s → Same (open_at w rc h f s)
  Same-open_at rc h (refused e) s p = same_send a w rc _ s p
  Same-open_at rc h (target t) s p = Same-open_sent rc h (send_error w s) _ (same_send a w t _ _ p)

  Same-handle_tunnel_open :
      (rc : ℕ) (h : Header) (s : Relay) → Same s → Same (handle_tunnel_open w rc h s)
  unfolding handle_tunnel_open
  Same-handle_tunnel_open rc h s p =
      if_cases Same (h.target == "" || h.tunnel_id == "" || h.remote_addr == "") _ _
        (λ _. same_send a w rc _ s p) λ _. Same-open_at rc h (find_target h s) s p

  Same-handle_tunnel_relay :
      (rc : ℕ) (m : Message) (s : Relay) → Same s → Same (handle_tunnel_relay w rc m s)
  unfolding handle_tunnel_relay
  Same-handle_tunnel_relay rc m s p =
      elim (Option-cases (Dict.get s.tunnels (header m).tunnel_id)) [
        | inl e ↦ rw (e, handle_tunnel_relay) p
        | inr (u, e) ↦ rw (e, handle_tunnel_relay) (same_send a w _ m s p)
      ]

  Same-handle_tunnel_close :
      (rc : ℕ) (h : Header) (s : Relay) → Same s → Same (handle_tunnel_close w rc h s)
  unfolding handle_tunnel_close
  Same-handle_tunnel_close rc h s p = elim (Option-cases (Dict.get s.tunnels h.tunnel_id)) [
    | inl e ↦ rw (e, handle_tunnel_close) p
    | inr (u, e) ↦ rw (e, handle_tunnel_close) (same_send a w _ _ _ p)
  ]

  pub Same-notify_closed :
      (rc : ℕ) (l : List (String × TunnelSession)) (s : Relay)
      → Same s
      → Same (notify_closed w rc l s)
  unfolding notify_closed
  Same-notify_closed rc [] s p = p
  Same-notify_closed rc ((tid, u) ∷ rest) s p =
      Same-notify_closed rc rest _
        (if_cases Same (is_end rc u) _ _ (λ _. same_send a w _ _ s p) λ _. p)

  -- No message but a registration changes who holds which name, or a connection's name and token.
  pub Same-handle :
      (rc : ℕ) (h : Header) (r : Results) (next : Frame) (s : Relay)
      → Same s
      → Same (handle w rc (message h r) next s)
  unfolding handle_stream_end
  Same-handle rc h r next s p = handle_cases Same w rc h r next s (record {
    execute = Same-handle_execute w a rc h s p;
    file_transfer = Same-handle_file_transfer w a rc h s p;
    file_chunk = Same-handle_file_chunk w a rc h next s p;
    stream_chunk = λ _. Same-handle_stream_chunk (message h r) s p;
    stream_end = λ _. Same-answer (message h r) s p;
    result = λ _. Same-handle_result (message h r) s p;
    file_transfer_result = Same-handle_file_transfer_result rc (message h r) s p;
    execute_multi = Same-handle_execute_multi rc h s p;
    pair_listen = Same-handle_pair_listen rc h s p;
    pair = Same-handle_pair rc h s p;
    disconnect = Same-handle_disconnect w a rc h s p;
    tunnel_open = Same-handle_tunnel_open rc h s p;
    tunnel_relay = λ _. Same-handle_tunnel_relay rc (message h r) s p;
    tunnel_close = Same-handle_tunnel_close rc h s p;
    unknown = same_send a w rc _ s p;
  })
