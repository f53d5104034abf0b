-- ===== src/Relay/Departure.antt =====
-- What unregister (relay.go) leaves behind of a connection, and when it runs.
use remotecmd_cli.Prelude.{
  ℕ, ◌≡◌, ◌≢◌, ◌↔◌, refl, inl, inr, String, not, some, List, [], ◌∷◌, arith, eqb, if_cases,
  Bool-cases,
}
use remotecmd_cli.Dict
use remotecmd_cli.Dict.{holds, get-retain, get-remove_self}
use remotecmd_cli.Protocol.{Message}
use remotecmd_cli.Relay.State.{
  Relay, World, PendingRequest, PairListener, TunnelSession, send, set_conn,
}
use remotecmd_cli.Relay.Tunnel.{notify_closed, is_end}
use remotecmd_cli.Relay.Serve.{forget, unregister}

-- The tables of the relay, without the connections' own state.
abbrev pub SameTables : Relay → Relay → Type 0
SameTables s s' =
    (s'.clients ≡ s.clients)
    × (s'.pending ≡ s.pending)
    × (s'.pair_listeners ≡ s.pair_listeners)
    × (s'.tunnels ≡ s.tunnels)

tables-send :
    (w : World) (c : ℕ) (m : Message) (a s : Relay) → SameTables a s → SameTables a (send w c m s)
unfolding send set_conn
tables-send w c m a s p = p

tables-notify_closed :
    (w : World) (rc : ℕ) (l : List (String × TunnelSession)) (a s : Relay)
    → SameTables a s
    → SameTables a (notify_closed w rc l s)
unfolding notify_closed
tables-notify_closed w rc [] a s p = p
tables-notify_closed w rc ((tid, t) ∷ rest) a s p =
    tables-notify_closed w rc rest a _
      (if_cases (SameTables a) (is_end rc t) _ _ (λ _. tables-send w _ _ a s p) λ _. p)

tables-unregister : (w : World) (rc : ℕ) (s : Relay) → SameTables (forget rc s) (unregister w rc s)
unfolding unregister set_conn
tables-unregister w rc s =
    tables-notify_closed w rc (Dict.entries s.tunnels) (forget rc s) (forget rc s)
      (refl, refl, refl, refl)

module _ (w : World) (rc : ℕ) (s : Relay) where
  -- What the tables hold of a connection and of all others once unregister has run for it: exactly the
  -- waiting requests, pairing codes and tunnels that are not its own, each as it was, and not its name.
  pub record Forgets (s' : Relay) : Type 0 where
    pub no_name : Dict.get s'.clients (s.conns rc).name ≢ some rc
    pub requests :
        (j : String) (pr : PendingRequest)
        → (Dict.get s'.pending j ≡ some pr)
          ↔ ((Dict.get s.pending j ≡ some pr) × (pr.client_conn ≢ rc))
    pub listeners :
        (j : String) (l : PairListener)
        → (Dict.get s'.pair_listeners j ≡ some l)
          ↔ ((Dict.get s.pair_listeners j ≡ some l) × (l.conn ≢ rc))
    pub tunnels :
        (j : String) (t : TunnelSession)
        → (Dict.get s'.tunnels j ≡ some t)
          ↔ ((Dict.get s.tunnels j ≡ some t) × (t.client_conn ≢ rc) × (t.daemon_conn ≢ rc))

  forget_name : Dict.get (forget rc s).clients (s.conns rc).name ≢ some rc
  unfolding forget
  forget_name e = elim (Bool-cases (holds (eqb rc) (Dict.get s.clients (s.conns rc).name))) [
    | inl own ↦ ground (arith, own, get-remove_self s.clients (s.conns rc).name)
    | inr other ↦ ground (arith, other)
  ]

  forget_requests :
      (j : String) (pr : PendingRequest)
      → (Dict.get (forget rc s).pending j ≡ some pr)
        ↔ ((Dict.get s.pending j ≡ some pr) × (pr.client_conn ≢ rc))
  unfolding forget
  forget_requests j pr =
      let kept = get-retain (λ (x : PendingRequest). not (eqb x.client_conn rc)) s.pending j in
      (λ e. ground (arith, kept), λ e. ground (arith, kept))

  forget_listeners :
      (j : String) (l : PairListener)
      → (Dict.get (forget rc s).pair_listeners j ≡ some l)
        ↔ ((Dict.get s.pair_listeners j ≡ some l) × (l.conn ≢ rc))
  unfolding forget
  forget_listeners j l =
      let kept = get-retain (λ (x : PairListener). not (eqb x.conn rc)) s.pair_listeners j in
      (λ e. ground (arith, kept), λ e. ground (arith, kept))

  forget_tunnels :
      (j : String) (t : TunnelSession)
      → (Dict.get (forget rc s).tunnels j ≡ some t)
        ↔ ((Dict.get s.tunnels j ≡ some t) × (t.client_conn ≢ rc) × (t.daemon_conn ≢ rc))
  unfolding forget
  forget_tunnels j t =
      let kept = get-retain (λ (x : TunnelSession). not (is_end rc x)) s.tunnels j in
      (λ e. ground (arith, kept), λ e. ground (arith, kept))

  -- Once unregister has run for a connection, the connection's name does not lead to it, and exactly the
  -- waiting requests, pairing codes and tunnels that are not its own remain, each as it was.
  pub unregister-Forgets : Forgets (unregister w rc s)
  unregister-Forgets =
      let (c, p, l, t) = tables-unregister w rc s in
      record {
        no_name = rw c forget_name;
        requests = λ j pr. rw p (forget_requests j pr);
        listeners = λ j x. rw l (forget_listeners j x);
        tunnels = λ j x. rw t (forget_tunnels j x);
      }
