-- ===== src/Relay/Authority/Fanout.antt =====
-- The multi-target fan-out asks only the targets whose token the message brings.
use remotecmd_cli.Prelude.{
  ℕ, ◌≡◌, ◌≢◌, refl, sym, ap, ◌∙◌, String, ◌⧺◌, true, Option, none, some, List, [], ◌∷◌, arith,
  eq_iff, Bool-cases, Option-cases, inl, inr,
}
use remotecmd_cli.Prelude.Int.{ℤ, pos}
use remotecmd_cli.Protocol.{Header}
use remotecmd_cli.Dict
use remotecmd_cli.Dict.{Dict, holds}
use remotecmd_cli.Relay.State.{Relay, World, MultiPendingEntry, send, send_error, token_equal}
use remotecmd_cli.Relay.Authority.Base.{asked, asked-err_result, asked-send_ne, token-send}
use remotecmd_cli.Relay.Authority.Answers.{asked-send_multi_result}
use remotecmd_cli.Relay.Multi.{
  update_entry, set_verdict, add_sub, sub_sent, sub_command, forward_sub, ask_at, ask_target,
  fan_out, start_multi, arm_multi, handle_execute_multi, multi_timeout, batch_timeout, with_entry,
}

-- The message brings the token of no target name under which `t` could be asked.
abbrev pub NoTokenFor : Header → ℕ → Relay → Type 0
NoTokenFor h t s = (name : String) → Dict.get h.tokens name ≢ some (s.conns t).token

-- `t` was sent no request between the two states, and kept its token.
pub record Unasked (t : ℕ) (s s' : Relay) : Type 0 where
  pub same : asked t s' ≡ asked t s
  pub token : (s'.conns t).token ≡ (s.conns t).token

abbrev unasked_trans : {t : ℕ} {a b c : Relay} → Unasked t a b → Unasked t b c → Unasked t a c
unasked_trans p q = record { same = q.same ∙ p.same; token = q.token ∙ p.token }

token_held :
    (o : Option String) (token : String) → holds (token_equal token) o ≡ true → o ≡ some token
token_held none token h = cc
token_held (some k) token h = ap some (sym ((eq_iff token k).0 h))

conns-update_entry :
    (mid : String) (f : MultiPendingEntry → MultiPendingEntry) (s : Relay)
    → (update_entry mid f s).conns ≡ s.conns
unfolding update_entry
conns-update_entry mid f s = elim (Option-cases (Dict.get s.multi_pending mid)) [
  | inl e ↦ rw (e, update_entry)
  | inr (x, e) ↦ rw (e, update_entry)
]

module _ (w : World) (t : ℕ) where
  unasked_update :
      (mid : String) (f : MultiPendingEntry → MultiPendingEntry) (s : Relay)
      → Unasked t s (update_entry mid f s)
  unasked_update mid f s = record {
    same = rw (conns-update_entry mid f s);
    token = rw (conns-update_entry mid f s);
  }

  unasked_verdict : (mid name e : String) (s : Relay) → Unasked t s (set_verdict mid name e s)
  unfolding set_verdict
  unasked_verdict mid name e s = unasked_update mid _ s

  unasked_sub_sent :
      (mid name sub_id : String) (o : Option String) (s : Relay)
      → Unasked t s (sub_sent mid name sub_id o s)
  unasked_sub_sent mid name sub_id none s = record { same = refl; token = refl }
  unasked_sub_sent mid name sub_id (some e) s =
      let v =
        unasked_verdict mid name ("forward failed: " ⧺ e)
          (record s { sub_to_multi = Dict.remove s.sub_to_multi sub_id }) in
      record { same = v.same; token = v.token }

  unasked_forward :
      (mid : String) (h : Header) (name : String) (c : ℕ) (s : Relay)
      → c ≢ t
      → Unasked t s (forward_sub w mid h name c s)
  unfolding forward_sub add_sub
  unasked_forward mid h name c s h' =
      let asked_state = add_sub w mid name s in
      let m = sub_command (w.new_id s.ids) h in
      let sent : Unasked t s (send w c m asked_state) = record {
        same = asked-send_ne t w c m asked_state h';
        token = token-send t w c m asked_state;
      } in
      unasked_trans sent (unasked_sub_sent mid name (w.new_id s.ids) (send_error w asked_state) _)

  unasked_ask_at :
      (mid : String) (h : Header) (name : String) (o : Option ℕ) (s : Relay)
      → NoTokenFor h t s
      → Unasked t s (ask_at w mid h name o s).1
  unasked_ask_at mid h name none s none_held = unasked_verdict mid name "target not connected" s
  unasked_ask_at mid h name (some c) s none_held =
      elim (Bool-cases (holds (token_equal (s.conns c).token) (Dict.get h.tokens name))) [
        | inl good ↦ rw good (
            unasked_forward mid h name c s
              λ same. none_held name (token_held _ _ good ∙ ap (λ d. some (s.conns d).token) same))
        | inr bad ↦ rw bad (unasked_verdict mid name "invalid token" s)
      ]

  unasked_fan_out :
      (mid : String) (h : Header) (names : List String) (count : ℕ) (s : Relay)
      → NoTokenFor h t s
      → Unasked t s (fan_out w mid h names count s).1
  unfolding fan_out ask_target
  unasked_fan_out mid h [] count s none_held = record { same = refl; token = refl }
  unasked_fan_out mid h (name ∷ rest) count s none_held =
      let first = unasked_ask_at mid h name (Dict.get s.clients name) s none_held in
      unasked_trans first
        (unasked_fan_out mid h rest _ _ (λ n e. none_held n (e ∙ ap some first.token)))

  asked-arm_multi :
      (mid : String) (timeout : ℤ) (count : ℕ) (s : Relay)
      → asked t (arm_multi w mid timeout count s) ≡ asked t s
  unfolding arm_multi
  asked-arm_multi mid timeout count s = elim (Option-cases (Dict.get s.multi_pending mid)) [
    | inl e ↦ rw (e, arm_multi)
    | inr (x, e) ↦ ground (
      arith,
      e,
      asked-send_multi_result w t x.client_conn x.client_id x.results x.target_order
          (record s { multi_pending = Dict.remove s.multi_pending mid }),
      (unasked_update mid
          (λ entry. record entry { remaining = pos count; timer = some (batch_timeout timeout) })
          s).same,
    )
  ]

  pub asked-handle_execute_multi :
      (rc : ℕ) (h : Header) (s : Relay)
      → NoTokenFor h t s
      → asked t (handle_execute_multi w rc h s) ≡ asked t s
  unfolding handle_execute_multi start_multi
  asked-handle_execute_multi rc h s none_held = ground (
    arith,
    asked-err_result t w rc h.id "targets and cmd are required" s,
    asked-arm_multi (w.new_id s.ids) h.timeout (start_multi w rc h s).0 (start_multi w rc h s).1,
    (unasked_fan_out (w.new_id s.ids) h h.targets 0 (with_entry w rc h s) none_held).same,
  )

  pub asked-multi_timeout : (mid : String) (s : Relay) → asked t (multi_timeout w mid s) ≡ asked t s
  unfolding multi_timeout
  asked-multi_timeout mid s = elim (Option-cases (Dict.get s.multi_pending mid)) [
    | inl e ↦ rw (e, multi_timeout)
    | inr (x, e) ↦
        rw (e, multi_timeout)
          (asked-send_multi_result w t x.client_conn x.client_id _ x.target_order _)
  ]
