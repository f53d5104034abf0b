-- ===== src/Relay/Registry/Takeover.antt =====
-- How a name of the relay changes hands, over all events of the server.
use remotecmd_cli.Prelude.{
  ℕ, ◌≡◌, ◌⊎◌, inl, inr, refl, String, Bool, true, false, not, ◌&&◌, Option, none, some, List, ◌==◌,
  eq_iff, if_cases, Option-cases,
}
use remotecmd_cli.Dict
use remotecmd_cli.Dict.{holds, get-put, get-remove, dict_laws}
use remotecmd_cli.Protocol.{Message, message, header}
use remotecmd_cli.Relay.Client.{Client}
use remotecmd_cli.Relay.State.{Relay, World, send, set_conn}
use remotecmd_cli.Relay.Chunks.{Frame, text_frame, binary_frame, read_error}
use remotecmd_cli.Relay.Registry.Names.{
  RegisterResult, register_result, unregister_name, clients-send,
}
use remotecmd_cli.Relay.Registry.Same.{same_refl}
use remotecmd_cli.Relay.Registry.Answers.{Same-handle, Same-multi_timeout}
use remotecmd_cli.Relay.Serve.{
  Session, Server, Event, connects, receives, fires, drains, on_message, on_frame, on_binary,
  after_register, close_session, auth_required_reply, is_client_only, step, receive, connect,
  drained,
}

-- The event is a frame of this connection.
abbrev pub IsFrom : Event → ℕ → Type 0
IsFrom (receives r f next) c = r ≡ c
IsFrom _ c = ⊥

-- The event is a registration of a connection for a name, with a token.
abbrev pub ClaimsName : Event → String → String → ℕ → Type 0
ClaimsName (receives r (text_frame (some m)) next) n token c =
    (r ≡ c) × ((header m).kind ≡ "register") × ((header m).name ≡ n) × ((header m).token ≡ token)
ClaimsName _ n token c = ⊥

-- What an event may do to a name that `c` holds with a token.
abbrev pub NameOutcome : Event → String → ℕ → String → Relay → Type 0
NameOutcome ev n c token s' =
    (Dict.get s'.clients n ≡ some c)
    ⊎ ((Dict.get s'.clients n ≡ none) × IsFrom ev c)
    ⊎ ((c' : ℕ) × (Dict.get s'.clients n ≡ some c') × ClaimsName ev n token c')

clients-on_binary :
    (w : World) (rc : ℕ) (bytes : List ℕ) (s : Relay) → (on_binary w rc bytes s).clients ≡ s.clients
unfolding on_binary set_conn
clients-on_binary w rc bytes s = elim (Option-cases (s.conns rc).last_binary_route) [
  | inl e ↦ rw (e, on_binary)
  | inr (route, e) ↦ rw (e, on_binary)
]

module _ (w : World) (n : String) (c : ℕ) where
  -- What a frame of `rc` does to a name that `c` holds.
  abbrev FrameOutcome : ℕ → Relay → Type 0
  FrameOutcome rc s' =
      (Dict.get s'.clients n ≡ some c) ⊎ ((Dict.get s'.clients n ≡ none) × (rc ≡ c))

  close_outcome :
      (rc : ℕ) (v : Session) (s : Relay)
      → Dict.get s.clients n ≡ some c
      → FrameOutcome rc (close_session w rc v s).1
  unfolding close_session
  close_outcome rc v s held =
      if_cases (FrameOutcome rc) v.registered _ _ (λ _. unregister_name w rc s n c held)
        λ _. inl held

  after_register_outcome :
      (rc : ℕ) (v : Session) (m : Message) (next : Frame) (s : Relay) (r : Bool × Relay)
      → (header m).kind ≡ "register"
      → (held' : Dict.get s.clients n ≡ some c) → RegisterResult w rc (header m) s n c held' r
      → NameOutcome
          (receives rc (text_frame (some m)) next)
          n
          c
          (s.conns c).token
          (after_register w rc v r).1
  after_register_outcome rc v m next s (true, s') k held out = elim (close_outcome rc v s' out) [
    | inl a ↦ inl a
    | inr b ↦ inr (inl b)
  ]
  after_register_outcome rc v m next s (false, s') k held out = elim out [
    | inl a ↦ inl a
    | inr (a, name, token) ↦ inr (inr (rc, a, (refl, k, name, token)))
  ]

  message_outcome :
      (rc : ℕ) (v : Session) (m : Message) (next : Frame) (s : Relay)
      → Dict.get s.clients n ≡ some c
      → NameOutcome
          (receives rc (text_frame (some m)) next)
          n
          c
          (s.conns c).token
          (on_message w rc v m next s).1
  unfolding on_message
  message_outcome rc v (message h r) next s held =
      let Out = λ (x : Session × Relay).
        NameOutcome (receives rc (text_frame (some (message h r))) next) n c (s.conns c).token
          x.1 in
      if_cases Out (not v.authenticated && is_client_only h.kind) _ _
        (λ _.
          elim (close_outcome rc v (send w rc (auth_required_reply h) s) (rw clients-send held)) [
            | inl a ↦ inl a
            | inr b ↦ inr (inl b)
          ])
        λ _.
          if_cases Out (h.kind == "register") _ _
            (λ k.
              after_register_outcome rc v (message h r) next s _ ((eq_iff _ _).0 k) held
                (register_result w rc h s n c held v.authenticated))
            λ _. inl (rw (Same-handle w s rc h r next s (same_refl s)).0 held)

  on_frame_outcome :
      (rc : ℕ) (v : Session) (f next : Frame) (s : Relay)
      → Dict.get s.clients n ≡ some c
      → NameOutcome (receives rc f next) n c (s.conns c).token (on_frame w rc v f next s).1
  unfolding on_frame
  on_frame_outcome rc v (read_error e) next s held = elim (close_outcome rc v s held) [
    | inl a ↦ inl a
    | inr b ↦ inr (inl b)
  ]
  on_frame_outcome rc v (binary_frame bytes) next s held =
      inl (rw (clients-on_binary w rc bytes s) held)
  on_frame_outcome rc v (text_frame none) next s held = inl held
  on_frame_outcome rc v (text_frame (some m)) next s held = message_outcome rc v m next s held

  receive_outcome :
      (rc : ℕ) (f next : Frame) (o : Option Session) (v : Server)
      → Dict.get v.relay.clients n ≡ some c
      → NameOutcome (receives rc f next) n c (v.relay.conns c).token (receive w rc f next o v).relay
  receive_outcome rc f next none v held = inl held
  receive_outcome rc f next (some ses) v held =
      if_cases
        (λ (x : Server). NameOutcome (receives rc f next) n c (v.relay.conns c).token x.relay)
        ses.closed _ _ (λ _. inl held) λ _. on_frame_outcome rc ses f next v.relay held

  connect_outcome :
      (r : ℕ) (auth : String) (old new : Option Session) (v : Server)
      → Dict.get v.relay.clients n ≡ some c
      → NameOutcome (connects r auth) n c (v.relay.conns c).token (connect r old new v).relay
  unfolding set_conn
  connect_outcome r auth (some old) new v held = inl held
  connect_outcome r auth none none v held = inl held
  connect_outcome r auth none (some new) v held = inl held

  clients-drained : (r : ℕ) (o : Option Client) (s : Relay) → (drained r o s).clients ≡ s.clients
  unfolding set_conn
  clients-drained r none s = refl
  clients-drained r (some k) s = refl

  -- A name that a connection holds changes hands only by its token: after any event of the server the
  -- same connection holds it, or the event is a frame of that very connection and nobody holds it, or the
  -- event is a registration for that name with the token of the holder, and the connection that sent it
  -- holds the name.
  pub names_change_by_token :
      (ev : Event) (v : Server)
      → Dict.get v.relay.clients n ≡ some c
      → NameOutcome ev n c (v.relay.conns c).token (step w ev v).relay
  unfolding step
  names_change_by_token (receives r f next) v held = receive_outcome r f next (v.sessions r) v held
  names_change_by_token (connects r auth) v held = connect_outcome r auth _ _ v held
  names_change_by_token (fires mid) v held =
      inl (rw (Same-multi_timeout w v.relay mid v.relay (same_refl v.relay)).0 held)
  names_change_by_token (drains r err next) v held = inl (rw clients-drained held)
