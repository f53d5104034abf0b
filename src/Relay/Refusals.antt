-- ===== src/Relay/Refusals.antt =====
-- The error paths of handleExecute: a command that cannot be forwarded is answered and leaves no trace.
use remotecmd_cli.Prelude.{
  ℕ, suc, ◌≡◌, ◌≢◌, refl, ap, ◌∙◌, inl, inr, String, ◌⧺◌, Option, none, some, [], ◌∷◌, ◌++◌, arith,
  ◌==◌, eq_iff, if◌then◌else◌, Option-cases,
}
use remotecmd_cli.Dict
use remotecmd_cli.Dict.{get-put, get-remove}
use remotecmd_cli.Protocol.{Header, Message, err_result}
use remotecmd_cli.Relay.Client.{json}
use remotecmd_cli.Relay.State.{Relay, World, send, set_conn}
use remotecmd_cli.Relay.Wires.{wire, wire-send, wire-send_ne, wire-send_lost}
use remotecmd_cli.Relay.Forward.{
  find_target, handle_execute, add_pending, cleanup_pending, after_forward,
}
use remotecmd_cli.Relay.Correlation.{IsReachable, pending-send, forwarded, handle_execute-reachable}

-- The text that refuses a target before anything is forwarded; `none` where the target is reachable.
unfoldable pub refusal : Header → Relay → Option String
refusal h s =
    if h.target == "" then some "target is required" else elim (Dict.get s.clients h.target) [
      | none ↦ some ("target not connected: " ⧺ h.target)
      | some t ↦
          if h.token == (s.conns t).token
          then none
          else some ("invalid token for target: " ⧺ h.target)
    ]

-- The requests that wait are the same.
abbrev pub SamePending : Relay → Relay → Type 0
SamePending s s' = (j : String) → Dict.get s'.pending j ≡ Dict.get s.pending j

writes-send : (w : World) (c : ℕ) (m : Message) (s : Relay) → (send w c m s).writes ≡ suc s.writes
unfolding send set_conn
writes-send w c m s = refl

module _ (w : World) (rc : ℕ) (h : Header) (s : Relay) where
  handle_execute-refusal :
      (e : String)
      → refusal h s ≡ some e
      → handle_execute w rc h s ≡ send w rc (err_result h.id e) s
  unfolding refusal handle_execute find_target
  handle_execute-refusal e r = elim (Option-cases (Dict.get s.clients h.target)) [
    | inl missing ↦ ground arith
    | inr (t, found) ↦
        ground (arith, eq_iff (s.conns t).token h.token, eq_iff h.token (s.conns t).token)
  ]

  -- A reply in place of a forward.
  reply_only :
      (e : String)
      → w.write_error s.writes ≡ none
      → SamePending s (send w rc (err_result h.id e) s)
        × (wire rc (send w rc (err_result h.id e) s) ≡ wire rc s ++ json (err_result h.id e) ∷ [])
        × ((d : ℕ) → rc ≢ d → wire d (send w rc (err_result h.id e) s) ≡ wire d s)
  reply_only e ok = (
    λ j. rw pending-send,
    wire-send w rc (err_result h.id e) s ok,
    λ d ne. wire-send_ne w rc (err_result h.id e) s d ne,
  )

  after_cleanup :
      (j : String)
      → Dict.get s.pending (w.new_id s.ids) ≡ none
      → Dict.get (Dict.remove (add_pending w rc h s).pending (w.new_id s.ids)) j
        ≡ Dict.get s.pending j
  unfolding add_pending
  after_cleanup j new =
      let id = w.new_id s.ids in
      ground (
        arith,
        get-remove (add_pending w rc h s).pending id j,
        get-put s.pending id j (record { server_id = h.id; client_conn = rc }),
        eq_iff id j,
      )

  -- A command that is refused (no target name, a target that is not connected, or another token) sends
  -- its refusal to the client and changes no waiting request and no other wire.
  pub execute_refused :
      (e : String)
      → refusal h s ≡ some e
      → w.write_error s.writes ≡ none
      → SamePending s (handle_execute w rc h s)
        × (wire rc (handle_execute w rc h s) ≡ wire rc s ++ json (err_result h.id e) ∷ [])
        × ((d : ℕ) → rc ≢ d → wire d (handle_execute w rc h s) ≡ wire d s)
  execute_refused e r ok = rw (handle_execute-refusal e r) (reply_only e ok)

  -- Where the forward to a reachable target cannot be written, the client is told so, no wire but the
  -- client's changes, and the request does not stay among those that wait.
  pub execute_forward_fails :
      (t : ℕ) (e : String)
      → IsReachable h t s
      → w.write_error s.writes ≡ some e
      → w.write_error (suc s.writes) ≡ none
      → Dict.get s.pending (w.new_id s.ids) ≡ none
      → SamePending s (handle_execute w rc h s)
        × (wire rc (handle_execute w rc h s)
            ≡ wire rc s ++ json (err_result h.id ("failed to forward command: " ⧺ e)) ∷ [])
        × ((d : ℕ) → rc ≢ d → wire d (handle_execute w rc h s) ≡ wire d s)
  unfolding after_forward cleanup_pending add_pending
  execute_forward_fails t e r bad ok new =
      let id = w.new_id s.ids in
      let lost = forwarded w rc t h s r in
      let reply = err_result h.id ("failed to forward command: " ⧺ e) in
      rw (handle_execute-reachable w rc t h s r, bad)
        (
          λ j. rw pending-send (rw pending-send (after_cleanup j new)),
          wire-send w rc reply (cleanup_pending id lost) (rw writes-send ok)
              ∙ ap (λ l. l ++ json reply ∷ [])
                  (wire-send_lost w t _ (add_pending w rc h s) rc e bad),
          λ d ne.
              wire-send_ne w rc reply (cleanup_pending id lost) d ne
              ∙ wire-send_lost w t _ (add_pending w rc h s) d e bad,
        )
