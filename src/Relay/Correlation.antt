-- ===== src/Relay/Correlation.antt =====
-- A command and its answer: the request reaches the target, and the answer the client that asked, once.
use remotecmd_cli.Prelude.{
  ℕ, ◌≡◌, ◌≢◌, refl, String, none, some, [], ◌∷◌, ◌++◌, arith, ◌==◌, eq_iff, eq_refl, eq_false,
  if◌then◌else◌,
}
use remotecmd_cli.Dict
use remotecmd_cli.Dict.{get-put, get-remove, get-put_self, get-remove_self}
use remotecmd_cli.Protocol.{Header, Message, header}
use remotecmd_cli.Relay.Client.{json}
use remotecmd_cli.Relay.State.{Relay, World, PendingRequest, send, set_conn}
use remotecmd_cli.Relay.Wires.{wire, wire-send}
use remotecmd_cli.Relay.Forward.{
  target, find_target, handle_execute, add_pending, cleanup_pending, command, after_forward,
}
use remotecmd_cli.Relay.Results.{with_id, answer, handle_result}

-- The target is connected and the message has its token.
pub record IsReachable (h : Header) (t : ℕ) (s : Relay) : Type 0 where
  pub named : h.target ≢ ""
  pub connected : Dict.get s.clients h.target ≡ some t
  pub authorized : (s.conns t).token ≡ h.token

pub find_target-reachable :
    (h : Header) (t : ℕ) (s : Relay) → IsReachable h t s → find_target h s ≡ target t
unfolding find_target
find_target-reachable h t s r =
    ground (arith, r.connected, r.authorized, eq_iff (s.conns t).token h.token)

module _ (w : World) (rc t : ℕ) (h : Header) (s : Relay) (r : IsReachable h t s) where
  abbrev pub req_id : String
  req_id = w.new_id s.ids

  abbrev pub forwarded : Relay
  forwarded = send w t (command req_id h) (add_pending w rc h s)

  pub handle_execute-reachable :
      handle_execute w rc h s
      ≡ after_forward w rc h req_id "failed to forward command: " (w.write_error s.writes) forwarded
  unfolding handle_execute add_pending
  handle_execute-reachable = rw (eq_false h.target "" r.named, find_target-reachable h t s r)

  handle_execute-forwarded : w.write_error s.writes ≡ none → handle_execute w rc h s ≡ forwarded
  unfolding after_forward
  handle_execute-forwarded ok = rw (handle_execute-reachable, ok)

pub pending-send :
    (w : World) (c : ℕ) (m : Message) (s : Relay) → (send w c m s).pending ≡ s.pending
unfolding send set_conn
pending-send w c m s = refl

sub_to_multi-send :
    (w : World) (c : ℕ) (m : Message) (s : Relay) → (send w c m s).sub_to_multi ≡ s.sub_to_multi
unfolding send set_conn
sub_to_multi-send w c m s = refl

-- An answer that belongs to no pending request changes nothing.
pub handle_result_unknown :
    (w : World) (m : Message) (s : Relay)
    → Dict.get s.sub_to_multi (header m).id ≡ none
    → Dict.get s.pending (header m).id ≡ none
    → handle_result w m s ≡ s
unfolding handle_result answer
handle_result_unknown w m s no_sub no_pending = rw (no_sub, handle_result, no_pending, answer)

handle_result_pending :
    (w : World) (m : Message) (s : Relay) (pr : PendingRequest)
    → Dict.get s.sub_to_multi (header m).id ≡ none
    → Dict.get s.pending (header m).id ≡ some pr
    → handle_result w m s
      ≡ send w pr.client_conn (with_id pr.server_id m) (cleanup_pending (header m).id s)
unfolding handle_result answer
handle_result_pending w m s pr no_sub found = rw (no_sub, handle_result, found, answer)

module _ (w : World) (rc t : ℕ) (h : Header) (s : Relay) (r : IsReachable h t s)
    (ok : w.write_error s.writes ≡ none) where
  abbrev pub id₁ : String
  id₁ = w.new_id s.ids

  abbrev pub after_execute : Relay
  after_execute = handle_execute w rc h s

  pub wire-handle_execute : wire t after_execute ≡ wire t s ++ json (command id₁ h) ∷ []
  unfolding add_pending
  wire-handle_execute =
      rw (handle_execute-forwarded w rc t h s r ok)
        (wire-send w t (command id₁ h) (add_pending w rc h s) ok)

  pending-handle_execute :
      (j : String)
      → Dict.get after_execute.pending j ≡ (
          if id₁ == j
          then some (record { server_id = h.id; client_conn = rc })
          else Dict.get s.pending j)
  unfolding add_pending
  pending-handle_execute j =
      rw (handle_execute-forwarded w rc t h s r ok, pending-send w t _ _)
        (get-put s.pending id₁ j _)

  sub_to_multi-handle_execute : after_execute.sub_to_multi ≡ s.sub_to_multi
  unfolding add_pending
  sub_to_multi-handle_execute =
      rw (handle_execute-forwarded w rc t h s r ok, sub_to_multi-send w t _ _) refl

  -- The life of a command: it is forwarded to its target under a new identifier; the first answer that
  -- comes back under this identifier is delivered to the client that asked, under the client's own
  -- identifier, and ends the request; a second answer changes nothing. It holds for a connected target
  -- whose token the message brings, where the forward is written, where the answer is written, and where
  -- no multi-target request uses the new identifier.
  pub execute_round_trip :
      (m : Message)
      → (header m).id ≡ id₁
      → Dict.get s.sub_to_multi id₁ ≡ none
      → w.write_error after_execute.writes ≡ none
      → (wire t after_execute ≡ wire t s ++ json (command id₁ h) ∷ [])
        × (wire rc (handle_result w m after_execute)
            ≡ wire rc after_execute ++ json (with_id h.id m) ∷ [])
        × (Dict.get (handle_result w m after_execute).pending id₁ ≡ none)
        × (handle_result w m (handle_result w m after_execute) ≡ handle_result w m after_execute)
  unfolding cleanup_pending
  execute_round_trip m same no_sub ok' =
      let s₁ = after_execute in
      let no_sub₁ : Dict.get s₁.sub_to_multi (header m).id ≡ none =
        rw (same, sub_to_multi-handle_execute) no_sub in
      let found : Dict.get s₁.pending (header m).id
          ≡ some (record { server_id = h.id; client_conn = rc }) =
        rw (same, pending-handle_execute id₁) (rw (eq_refl id₁)) in
      let step = handle_result_pending w m s₁ _ no_sub₁ found in
      let gone : Dict.get (handle_result w m s₁).pending (header m).id ≡ none =
        rw (step, pending-send w rc _ _) (get-remove_self s₁.pending (header m).id) in
      let no_sub₂ : Dict.get (handle_result w m s₁).sub_to_multi (header m).id ≡ none =
        rw (step, sub_to_multi-send w rc _ _) no_sub₁ in
      (
        wire-handle_execute,
        rw step (wire-send w rc (with_id h.id m) (cleanup_pending (header m).id s₁) ok'),
        rw same at gone,
        handle_result_unknown w m (handle_result w m s₁) no_sub₂ gone,
      )
