-- ===== src/Relay/Pairing.antt =====
-- A pairing code: who gets what when a daemon brings it (handlePair of relay_handler.go).
use remotecmd_cli.Prelude.{
  ℕ, suc, String, true, false, none, some, [], ◌∷◌, ◌++◌, ◌≡◌, ◌≢◌, ◌⊎◌, inl, inr, sym, refl, ap,
  ◌∙◌, arith, ◌==◌, eq_iff, eq_false, Bool-cases,
}
use remotecmd_cli.Dict
use remotecmd_cli.Dict.{get-put, get-remove, get-remove_self}
use remotecmd_cli.Protocol.{Header, Message, error_message}
use remotecmd_cli.Relay.Client.{json}
use remotecmd_cli.Relay.State.{Relay, World, PairListener, send, set_conn}
use remotecmd_cli.Relay.Wires.{wire, wire-send, wire-send_ne}
use remotecmd_cli.Relay.Pair.{
  handle_pair, pair_with, pair_done, pair_confirmed, key_accepted, key_rejected,
}

listeners-send :
    (w : World) (c : ℕ) (m : Message) (s : Relay) → (send w c m s).pair_listeners ≡ s.pair_listeners
unfolding send set_conn
listeners-send w c m s = refl

writes-send : (w : World) (c : ℕ) (m : Message) (s : Relay) → (send w c m s).writes ≡ suc s.writes
unfolding send set_conn
writes-send w c m s = refl

handle_pair_used :
    (w : World) (rc : ℕ) (h : Header) (s : Relay)
    → Dict.get s.pair_listeners h.code ≡ none
    → h.code ≢ ""
    → h.token ≢ ""
    → handle_pair w rc h s ≡ s
unfolding handle_pair
handle_pair_used w rc h s used coded tokened =
    ground (arith, eq_false h.code "" coded, eq_false h.token "" tokened, used)

module _ (w : World) (rc : ℕ) (h : Header) (s : Relay) (l : PairListener) (coded : h.code ≢ "")
    (tokened : h.token ≢ "") (waiting : Dict.get s.pair_listeners h.code ≡ some l) where
  taken : Relay
  taken = record s { pair_listeners = Dict.remove s.pair_listeners h.code }

  handle_pair_waiting : handle_pair w rc h s ≡ pair_with w rc h l taken
  unfolding handle_pair taken
  handle_pair_waiting =
      ground (arith, eq_false h.code "" coded, eq_false h.token "" tokened, waiting)

  done : Relay
  done = send w rc (pair_confirmed h) (send w l.conn (pair_done h) taken)

  handle_pair-done :
      (l.require_activation_key ≡ false)
        ⊎ ((h.activation_key ≢ "") × (w.is_valid_key h.activation_key ≡ true))
      → handle_pair w rc h s ≡ done
  unfolding key_accepted done
  handle_pair-done (inl free) = handle_pair_waiting ∙ ground (arith, free)
  handle_pair-done (inr (given, valid)) =
      handle_pair_waiting ∙ ground (arith, valid, eq_false h.activation_key "" given)

  done-code : Dict.get done.pair_listeners h.code ≡ none
  unfolding done taken
  done-code = rw listeners-send (rw listeners-send (get-remove_self s.pair_listeners h.code))

  -- A daemon that brings a code that is waited for, and a valid key where the listener asks for one, makes
  -- the pair, if both writes succeed and it is not itself the listener: the listener gets the daemon's
  -- token, the daemon the confirmation, the code is used up, and whoever brings it again changes nothing.
  pub handle_pair_accepted :
      (again : ℕ)
      → (l.require_activation_key ≡ false)
        ⊎ ((h.activation_key ≢ "") × (w.is_valid_key h.activation_key ≡ true))
      → l.conn ≢ rc
      → w.write_error s.writes ≡ none
      → w.write_error (suc s.writes) ≡ none
      → (wire l.conn (handle_pair w rc h s) ≡ wire l.conn s ++ json (pair_done h) ∷ [])
        × (wire rc (handle_pair w rc h s) ≡ wire rc s ++ json (pair_confirmed h) ∷ [])
        × (Dict.get (handle_pair w rc h s).pair_listeners h.code ≡ none)
        × (handle_pair w again h (handle_pair w rc h s) ≡ handle_pair w rc h s)
  unfolding done taken
  handle_pair_accepted again key ne ok ok' =
      let sent = send w l.conn (pair_done h) taken in
      rw (handle_pair-done key) (
        wire-send_ne w rc (pair_confirmed h) sent l.conn (λ e. ne (sym e))
            ∙ wire-send w l.conn (pair_done h) taken ok,
        wire-send w rc (pair_confirmed h) sent (rw writes-send ok')
            ∙ ap (λ x. x ++ json (pair_confirmed h) ∷ [])
                (wire-send_ne w l.conn (pair_done h) taken rc ne),
        done-code,
        handle_pair_used w again h done done-code coded tokened,
      )

  restored : Relay
  restored = record (send w rc (error_message key_rejected) taken) {
    pair_listeners =
        Dict.put (send w rc (error_message key_rejected) taken).pair_listeners h.code l;
  }

  handle_pair-restored :
      l.require_activation_key ≡ true
      → (h.activation_key ≡ "") ⊎ (w.is_valid_key h.activation_key ≡ false)
      → handle_pair w rc h s ≡ restored
  unfolding key_accepted restored
  handle_pair-restored asks (inl missing) =
      handle_pair_waiting ∙ ground (arith, asks, eq_iff h.activation_key "", missing)
  handle_pair-restored asks (inr invalid) = handle_pair_waiting ∙ ground (arith, asks, invalid)

  restored_codes :
      (code : String) → Dict.get restored.pair_listeners code ≡ Dict.get s.pair_listeners code
  unfolding restored taken
  restored_codes code = rw listeners-send (
      rw (get-put _ h.code code l, get-remove s.pair_listeners h.code code)
        (elim (Bool-cases (h.code == code)) [
          | inl same ↦
              rw same (sym waiting ∙ ap (Dict.get s.pair_listeners) ((eq_iff h.code code).0 same))
          | inr other ↦ rw other
        ]))

  -- A daemon that brings no valid key where the listener asks for one gets the error, if the write
  -- succeeds; no other connection is sent anything, and all codes wait as before, so that the right daemon
  -- can still pair.
  pub handle_pair_rejected :
      l.require_activation_key ≡ true
      → (h.activation_key ≡ "") ⊎ (w.is_valid_key h.activation_key ≡ false)
      → w.write_error s.writes ≡ none
      → (wire rc (handle_pair w rc h s) ≡ wire rc s ++ json (error_message key_rejected) ∷ [])
        × ((d : ℕ) → rc ≢ d → wire d (handle_pair w rc h s) ≡ wire d s)
        × ((code : String)
            → Dict.get (handle_pair w rc h s).pair_listeners code ≡ Dict.get s.pair_listeners code)
  unfolding taken restored
  handle_pair_rejected asks key ok = rw (handle_pair-restored asks key) (
    wire-send w rc (error_message key_rejected) taken ok,
    λ d ne. wire-send_ne w rc (error_message key_rejected) taken d ne,
    restored_codes,
  )
