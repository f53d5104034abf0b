-- ===== src/Relay/Authority/Base.antt =====
-- Who can make the relay send a request to a connection.
use mathlib.Core.List.{append-nil}
use remotecmd_cli.Prelude.{
  ℕ, ◌≡◌, ◌≢◌, refl, sym, ◌∙◌, inl, inr, String, ◌⧺◌, Bool, false, Option, none, some, List, [],
  ◌∷◌, ◌++◌, arith, ◌==◌, eq_iff, ◌||◌, if◌then◌else◌, Option-cases, subst,
}
use remotecmd_cli.Protocol.{Header, Message, header, err_result, error_message}
use remotecmd_cli.Dict
use remotecmd_cli.Relay.Client.{Client, Packet, json, text, binary, write}
use remotecmd_cli.Relay.State.{Relay, World, send, set_conn}
use remotecmd_cli.Relay.Forward.{
  Found, target, refused, find_target, handle_execute, add_pending, cleanup_pending, after_forward,
  execute_at,
}

-- The messages that make a daemon act: a command, a file transfer, a tunnel, or its own exit.
unfoldable pub is_request : Packet → Bool
is_request (json m) =
    (header m).kind == "command"
    || (header m).kind == "file_transfer"
    || (header m).kind == "tunnel_open"
    || (header m).kind == "disconnect"
is_request (text b) = false
is_request (binary b) = false

unfoldable pub requests : List Packet → List Packet
requests [] = []
requests (p ∷ ps) = let rest = requests ps in if is_request p then p ∷ rest else rest

-- The requests that a connection has been sent.
abbrev pub asked : ℕ → Relay → List Packet
asked t s = requests (s.conns t).wire

pub requests-append : (ps qs : List Packet) → requests (ps ++ qs) ≡ requests ps ++ requests qs
unfolding requests
requests-append [] qs = refl
requests-append (p ∷ ps) qs = ground (arith, requests-append ps qs)

pub requests-write :
    (o : Option String) (p : Packet) (c : Client)
    → is_request p ≡ false
    → requests (write o p c).wire ≡ requests c.wire
unfolding write requests
requests-write none p c h = rw (requests-append c.wire (p ∷ []), h) (simp append-nil)
requests-write (some e) p c h = refl

module _ (t : ℕ) (w : World) (c : ℕ) where
  -- A message that asks for nothing leaves every connection's requests alone.
  pub asked-send_quiet :
      (m : Message) (s : Relay) → is_request (json m) ≡ false → asked t (send w c m s) ≡ asked t s
  unfolding send set_conn
  asked-send_quiet m s h =
      ground (arith, requests-write (w.write_error s.writes) (json m) (s.conns c) h)

  pub asked-send_ne : (m : Message) (s : Relay) → c ≢ t → asked t (send w c m s) ≡ asked t s
  unfolding send set_conn
  asked-send_ne m s h = ground arith

  pub asked-err_result :
      (id e : String) (s : Relay) → asked t (send w c (err_result id e) s) ≡ asked t s
  unfolding err_result is_request
  asked-err_result id e s = asked-send_quiet (err_result id e) s refl

  pub asked-error_message :
      (e : String) (s : Relay) → asked t (send w c (error_message e) s) ≡ asked t s
  unfolding is_request
  asked-error_message e s = asked-send_quiet (error_message e) s refl

  pub token-send : (m : Message) (s : Relay) → ((send w c m s).conns t).token ≡ (s.conns t).token
  unfolding send set_conn write
  token-send m s = ground arith

-- The connection that a request of a client goes to is registered under the target's name, and the
-- message brings its token.
pub find_target-target :
    (h : Header) (s : Relay) (c : ℕ)
    → find_target h s ≡ target c
    → (Dict.get s.clients h.target ≡ some c) × ((s.conns c).token ≡ h.token)
unfolding find_target
find_target-target h s c e = elim (Option-cases (Dict.get s.clients h.target)) [
  | inl missing ↦ absurd (ground arith)
  | inr (d, hit) ↦ ground (arith, eq_iff (s.conns d).token h.token)
]

module _ (w : World) (rc : ℕ) (h : Header) (t : ℕ) where
  pub asked-after_forward :
      (req_id what : String) (o : Option String) (s : Relay)
      → asked t (after_forward w rc h req_id what o s) ≡ asked t s
  unfolding after_forward cleanup_pending
  asked-after_forward req_id what none s = refl
  asked-after_forward req_id what (some e) s = asked-err_result t w rc h.id (what ⧺ e) _

  -- What a handler sends to the target that it found reaches no connection with another token.
  pub asked-send_target :
      (s s' : Relay) (c : ℕ) (m : Message)
      → find_target h s ≡ target c
      → h.token ≢ (s.conns t).token
      → asked t (send w c m s') ≡ asked t s'
  asked-send_target s s' c m e no_token = asked-send_ne t w c m s' λ same.
      no_token (subst (λ d. h.token ≡ (s.conns d).token) same (sym (find_target-target h s c e).1))

  asked-execute_at :
      (s : Relay) (f : Found)
      → find_target h s ≡ f
      → h.token ≢ (s.conns t).token
      → asked t (execute_at w rc h f s) ≡ asked t s
  unfolding add_pending
  asked-execute_at s (refused e) found no_token = asked-err_result t w rc h.id e s
  asked-execute_at s (target c) found no_token =
      asked-after_forward (w.new_id s.ids) "failed to forward command: " _ _
      ∙ asked-send_target s (add_pending w rc h s) c _ found no_token

  pub asked-handle_execute :
      (s : Relay) → h.token ≢ (s.conns t).token → asked t (handle_execute w rc h s) ≡ asked t s
  unfolding handle_execute
  asked-handle_execute s no_token = ground (
    arith,
    asked-err_result t w rc h.id "target is required" s,
    asked-execute_at s (find_target h s) refl no_token,
  )
