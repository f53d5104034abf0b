-- ===== src/Relay/Registry/Names.antt =====
-- What a registration and a departure do to a name of the relay that is held.
use remotecmd_cli.Prelude.{
  ℕ, ◌≡◌, ◌⊎◌, inl, inr, refl, String, Bool, true, false, not, ◌&&◌, ◌||◌, Option, none, some,
  arith, ◌==◌, eq_iff, eqb, if◌then◌else◌, if_cases, Bool-cases,
}
use remotecmd_cli.Dict
use remotecmd_cli.Dict.{holds, get-put, get-remove, dict_laws}
use remotecmd_cli.Protocol.{Header, Message}
use remotecmd_cli.Relay.State.{Relay, World, send, set_conn, token_equal}
use remotecmd_cli.Relay.Register.{install, evict, claim, handle_register, is_exempt}
use remotecmd_cli.Relay.Registry.Same.{same_refl}
use remotecmd_cli.Relay.Registry.Answers.{Same-notify_closed}
use remotecmd_cli.Relay.Serve.{forget, unregister}

clients-unregister :
    (w : World) (rc : ℕ) (s : Relay)
    → (unregister w rc s).clients ≡ (
        if holds (eqb rc) (Dict.get s.clients (s.conns rc).name)
        then Dict.remove s.clients (s.conns rc).name
        else s.clients)
unfolding unregister set_conn
clients-unregister w rc s =
    (Same-notify_closed w (forget rc s) rc (Dict.entries s.tunnels) (forget rc s)
      (same_refl (forget rc s))).0

holds-eqb : (rc c : ℕ) (o : Option ℕ) → holds (eqb rc) o ≡ true → o ≡ some c → rc ≡ c
holds-eqb rc c none h e = cc
holds-eqb rc c (some d) h e = ground arith

-- A connection that leaves takes only a name that it holds itself.
pub unregister_name :
    (w : World) (rc : ℕ) (s : Relay) (n : String) (c : ℕ)
    → Dict.get s.clients n ≡ some c
    → (Dict.get (unregister w rc s).clients n ≡ some c)
      ⊎ ((Dict.get (unregister w rc s).clients n ≡ none) × (rc ≡ c))
unregister_name w rc s n c e =
    let name = (s.conns rc).name in
    rw (clients-unregister w rc s) (elim (Bool-cases (holds (eqb rc) (Dict.get s.clients name))) [
      | inr other ↦ rw other (inl e)
      | inl own ↦ rw own (elim (Bool-cases (name == n)) [
        | inr ne ↦ inl (rw (get-remove s.clients name n, ne) e)
        | inl same ↦
            let same' = (eq_iff name n).0 same in
            inr (
              rw (get-remove s.clients name n, same),
              holds-eqb rc c (Dict.get s.clients name) own (rw same' e),
            )
      ])
    ])

clients-install :
    (w : World) (rc : ℕ) (h : Header) (s : Relay)
    → (install w rc h s).clients ≡ Dict.put s.clients h.name rc
unfolding install send set_conn
clients-install w rc h s = refl

clients-evict :
    (w : World) (existing : ℕ) (h : Header) (s : Relay)
    → (evict w existing h s).clients ≡ Dict.remove s.clients h.name
unfolding evict
clients-evict w existing h s = refl

pub clients-send :
    (w : World) (c : ℕ) (m : Message) (s : Relay) → (send w c m s).clients ≡ s.clients
unfolding send set_conn
clients-send w c m s = refl

module _ (w : World) (rc : ℕ) (h : Header) (s : Relay) (n : String) (c : ℕ)
    (held : Dict.get s.clients n ≡ some c) where
  -- What a registration does to a name that is held.
  abbrev pub RegisterOutcome : Relay → Type 0
  RegisterOutcome s' =
      (Dict.get s'.clients n ≡ some c)
      ⊎ ((Dict.get s'.clients n ≡ some rc) × (h.name ≡ n) × (h.token ≡ (s.conns c).token))

  -- A refused connection took nothing.
  abbrev pub RegisterResult : Bool × Relay → Type 0
  RegisterResult (true, s') = Dict.get s'.clients n ≡ some c
  RegisterResult (false, s') = RegisterOutcome s'

  claim_result : (o : Option ℕ) → Dict.get s.clients h.name ≡ o → RegisterResult (claim w rc h o s)
  unfolding claim
  claim_result none e =
      ground (arith, clients-install w rc h s, get-put s.clients h.name n rc, eq_iff h.name n)
  claim_result (some existing) e =
      if_cases RegisterResult (token_equal (s.conns existing).token h.token) _ _
        (λ good. ground (
          arith,
          good,
          clients-install w rc h (evict w existing h s),
          clients-evict w existing h s,
          get-put (Dict.remove s.clients h.name) h.name n rc,
          get-remove s.clients h.name n,
          eq_iff h.name n,
          eq_iff (s.conns existing).token h.token,
        ))
        λ _. rw clients-send held

  pub register_result : (auth : Bool) → RegisterResult (handle_register w rc auth h s)
  unfolding handle_register
  register_result auth =
      if_cases RegisterResult (h.name == "" || h.token == "") _ _ (λ _. inl (rw clients-send held))
        λ _.
          if_cases RegisterResult (not (s.secret == "") && not auth && not (is_exempt s h.name)) _ _
            (λ _. rw clients-send held) λ _. claim_result (Dict.get s.clients h.name) refl
