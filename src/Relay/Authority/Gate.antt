-- ===== src/Relay/Authority/Gate.antt =====
-- The read loop and the server's events: who is sent a request.
use remotecmd_cli.Prelude.{
  ℕ, suc, ◌≡◌, ◌≢◌, ◌⊎◌, inl, inr, refl, ◌∙◌, String, ◌⧺◌, Bool, true, false, not, ◌&&◌, Option,
  none, some, List, arith, ◌==◌, ◌||◌, Option-cases, if_cases,
}
use remotecmd_cli.Protocol.{Header, Message, Results, message, header}
use remotecmd_cli.Dict
use remotecmd_cli.Relay.Client.{Client, json, binary, close_writer, has_room, send_raw_bytes, drain}
use remotecmd_cli.Relay.State.{Relay, World, send, set_conn}
use remotecmd_cli.Relay.Authority.Base.{
  is_request, requests, asked, asked-send_quiet, asked-error_message, asked-handle_execute,
  requests-write,
}
use remotecmd_cli.Relay.Authority.Handlers.{
  asked-handle_file_transfer, asked-handle_disconnect, asked-handle_tunnel_open,
}
use remotecmd_cli.Relay.Authority.Quiet.{
  asked-set_conn, asked-handle_register, asked-handle_file_chunk, asked-handle_pair_listen,
  asked-handle_pair, asked-handle_tunnel_relay, asked-handle_tunnel_close, asked-notify_closed,
}
use remotecmd_cli.Relay.Authority.Answers.{
  asked-handle_stream_chunk, asked-answer, asked-handle_result, asked-handle_file_transfer_result,
}
use remotecmd_cli.Relay.Authority.Fanout.{
  NoTokenFor, asked-handle_execute_multi, asked-multi_timeout,
}
use remotecmd_cli.Relay.Authority.Writers.{requests-drain, drained_requests}
use remotecmd_cli.Relay.Chunks.{Frame, text_frame, binary_frame, read_error}
use remotecmd_cli.Relay.Results.{handle_stream_end}
use remotecmd_cli.Relay.Register.{handle_register}
use remotecmd_cli.Relay.Dispatch.{handle_cases}
use remotecmd_cli.Relay.Serve.{
  Session, Server, Event, connects, receives, fires, drains, handle, on_message, on_frame,
  on_binary, after_register, close_session, forget, unregister, auth_required_reply, is_client_only,
  step, receive, connect, drained,
}

-- A message brings the token of a connection, by itself or in its map of tokens.
abbrev pub Holds : Header → ℕ → Relay → Type 0
Holds h t s =
    (h.token ≡ (s.conns t).token)
    ⊎ ((name : String) × (Dict.get h.tokens name ≡ some (s.conns t).token))

quiet_kind :
    (h : Header) (r : Results) (k : String)
    → h.kind ≡ k
    → is_request (json (message (record h { kind = k }) r)) ≡ false
    → is_request (json (message h r)) ≡ false
unfolding is_request
quiet_kind h r k e q = rw e q

module _ (w : World) (rc : ℕ) (t : ℕ) where
  asked-handle :
      (h : Header) (r : Results) (next : Frame) (s : Relay)
      → h.token ≢ (s.conns t).token
      → NoTokenFor h t s
      → asked t (handle w rc (message h r) next s) ≡ asked t s
  unfolding handle_stream_end is_request
  asked-handle h r next s no_token none_held =
      handle_cases (λ s'. asked t s' ≡ asked t s) w rc h r next s
        (record {
          execute = asked-handle_execute w rc h t s no_token;
          file_transfer = asked-handle_file_transfer w rc h t s no_token;
          file_chunk = asked-handle_file_chunk w rc t h next s;
          stream_chunk = λ e.
              asked-handle_stream_chunk w t (message h r) s (quiet_kind h r "stream_chunk" e refl);
          stream_end = λ e. asked-answer w t (message h r) s (quiet_kind h r "stream_end" e refl);
          result = λ e. asked-handle_result w t (message h r) s (quiet_kind h r "result" e refl);
          file_transfer_result = asked-handle_file_transfer_result w t rc (message h r) s;
          execute_multi = asked-handle_execute_multi w t rc h s none_held;
          pair_listen = asked-handle_pair_listen w rc t h s;
          pair = asked-handle_pair w rc t h s;
          disconnect = asked-handle_disconnect w rc h t s no_token;
          tunnel_open = asked-handle_tunnel_open w rc h t s no_token;
          tunnel_relay = λ k. asked-handle_tunnel_relay w rc t (message h r) s (elim k [
            | inl e ↦ quiet_kind h r "tunnel_opened" e refl
            | inr e ↦ quiet_kind h r "tunnel_data" e refl
          ]);
          tunnel_close = asked-handle_tunnel_close w rc t h s;
          unknown = asked-error_message t w rc ("unknown message type: " ⧺ h.kind) s;
        })

  asked-unregister : (s : Relay) → asked t (unregister w rc s) ≡ asked t s
  unfolding unregister forget close_writer
  asked-unregister s =
      asked-set_conn t rc _ _ refl ∙ asked-notify_closed w rc t (Dict.entries s.tunnels) _

  asked-close_session : (v : Session) (s : Relay) → asked t (close_session w rc v s).1 ≡ asked t s
  unfolding close_session
  asked-close_session v s = ground (arith, asked-unregister s)

  asked-auth_required :
      (h : Header) (s : Relay) → asked t (send w rc (auth_required_reply h) s) ≡ asked t s
  unfolding auth_required_reply is_request
  asked-auth_required h s = asked-send_quiet t w rc (auth_required_reply h) s (
      if_cases (λ m. is_request (json m) ≡ false) (h.kind == "execute_multi") _ _ (λ _. refl)
        λ _.
          if_cases (λ m. is_request (json m) ≡ false) (h.kind == "tunnel_open") _ _ (λ _. refl)
            λ _.
              if_cases (λ m. is_request (json m) ≡ false)
                (h.kind == "pair_listen" || h.kind == "disconnect") _ _ (λ _. refl) λ _. refl)

  asked-after_register :
      (v : Session) (r : Bool × Relay) → asked t (after_register w rc v r).1 ≡ asked t r.1
  asked-after_register v (true, s) = asked-close_session v s
  asked-after_register v (false, s) = refl

  asked-on_message :
      (v : Session) (m : Message) (next : Frame) (s : Relay)
      → (header m).token ≢ (s.conns t).token
      → NoTokenFor (header m) t s
      → asked t (on_message w rc v m next s).1 ≡ asked t s
  unfolding on_message
  asked-on_message v (message h r) next s no_token none_held =
      if_cases (λ (x : Session × Relay). asked t x.1 ≡ asked t s)
        (not v.authenticated && is_client_only h.kind) _ _
        (λ _. asked-close_session v _ ∙ asked-auth_required h s)
        λ _.
          if_cases (λ (x : Session × Relay). asked t x.1 ≡ asked t s) (h.kind == "register") _ _
            (λ _.
              asked-after_register v (handle_register w rc v.authenticated h s)
              ∙ asked-handle_register w rc t v.authenticated h s)
            λ _. asked-handle h r next s no_token none_held

  asked-on_binary : (bytes : List ℕ) (s : Relay) → asked t (on_binary w rc bytes s) ≡ asked t s
  unfolding on_binary send_raw_bytes is_request
  asked-on_binary bytes s = elim (Option-cases (s.conns rc).last_binary_route) [
    | inl e ↦ rw (e, on_binary)
    | inr (route, e) ↦
        rw (e, on_binary)
          (asked-set_conn t route.target _ (record s { writes = suc s.writes })
            (if_cases
              (λ (x : Option String × Client).
                requests x.1.wire ≡ requests (s.conns route.target).wire)
              (has_room (s.conns route.target)) _ _ (λ _. refl)
              λ _.
                requests-write (w.write_error s.writes) (binary bytes) (s.conns route.target) refl))
  ]

-- The event is a message that brings the token of a connection.
abbrev pub Brings : Event → ℕ → Relay → Type 0
Brings (receives c (text_frame (some m)) next) t s = Holds (header m) t s
Brings (receives c (text_frame none) next) t s = ⊥
Brings (receives c (binary_frame bytes) next) t s = ⊥
Brings (receives c (read_error e) next) t s = ⊥
Brings (connects c auth) t s = ⊥
Brings (fires mid) t s = ⊥
Brings (drains c err next) t s = ⊥

module _ (w : World) (t : ℕ) where
  asked-on_frame :
      (c : ℕ) (v : Session) (f next : Frame) (s : Relay)
      → ¬ Brings (receives c f next) t s
      → asked t (on_frame w c v f next s).1 ≡ asked t s
  unfolding on_frame
  asked-on_frame c v (read_error e) next s h = asked-close_session w c t v s
  asked-on_frame c v (binary_frame bytes) next s h = asked-on_binary w c t bytes s
  asked-on_frame c v (text_frame none) next s h = refl
  asked-on_frame c v (text_frame (some m)) next s h =
      asked-on_message w c t v m next s (λ e. h (inl e)) (λ name e. h (inr (name, e)))

  asked-receive :
      (c : ℕ) (f next : Frame) (o : Option Session) (v : Server)
      → ¬ Brings (receives c f next) t v.relay
      → asked t (receive w c f next o v).relay ≡ asked t v.relay
  asked-receive c f next none v h = refl
  asked-receive c f next (some ses) v h =
      if_cases (λ (x : Server). asked t x.relay ≡ asked t v.relay) ses.closed _ _ (λ _. refl)
        λ _. asked-on_frame c ses f next v.relay h

  asked-connect :
      (c : ℕ) (old new : Option Session) (ses : Session) (v : Server)
      → v.sessions c ≡ old
      → v.sessions t ≡ some ses
      → asked t (connect c old new v).relay ≡ asked t v.relay
  unfolding set_conn
  asked-connect c (some old) new ses v e h = refl
  asked-connect c none none ses v e h = refl
  asked-connect c none (some new) ses v e h = ground arith

  asked-drained :
      (c : ℕ) (o : Option Client) (s : Relay)
      → drained_requests (s.conns c) o ≡ requests (s.conns c).wire
      → asked t (drained c o s) ≡ asked t s
  asked-drained c none s h = refl
  asked-drained c (some k) s h = asked-set_conn t c k s h

  -- A connection is sent a command, a file transfer, a tunnel request or a disconnect only by a message
  -- that brings its token: any other event of the server (other messages, binary frames, closing
  -- connections, new connections, timers, writer goroutines) adds no request to the wire of a connection
  -- that is there.
  pub requests_need_token :
      (ev : Event) (ses : Session) (v : Server)
      → v.sessions t ≡ some ses
      → ¬ Brings ev t v.relay
      → asked t (step w ev v).relay ≡ asked t v.relay
  unfolding step
  requests_need_token (receives c f next) ses v there h = asked-receive c f next _ v h
  requests_need_token (connects c auth) ses v there h = asked-connect c _ _ ses v refl there
  requests_need_token (fires mid) ses v there h = asked-multi_timeout w t mid v.relay
  requests_need_token (drains c err next) ses v there h =
      asked-drained c (drain err next (v.relay.conns c)) v.relay
        (requests-drain err next (v.relay.conns c))
