-- ===== src/Relay/Aggregate.antt =====
-- What the client of a multi-target command is answered (sendMultiResult of relay.go, and the timer of
-- relay_multi.go).
use remotecmd_cli.Prelude.{
  String, Bool, true, not, ◌&&◌, Option, none, some, List, [], ◌∷◌, ◌++◌, ◌≡◌, ◌≢◌, ◌↔◌, refl, ap,
  ◌∙◌, sym, arith, ◌==◌, eq_iff, any, is_none, if◌then◌else◌, Option-cases, Bool-cases, inl, inr,
}
use remotecmd_cli.Dict
use remotecmd_cli.Dict.{Dict, get-put, get-remove, get-remove_self, get-retain, get-empty}
use remotecmd_cli.Protocol.{Message, message, blank}
use remotecmd_cli.Relay.Client.{json}
use remotecmd_cli.Relay.State.{Relay, World, MultiPendingEntry, SubTargetInfo, send, set_conn}
use remotecmd_cli.Relay.Wires.{wire, wire-send}
use remotecmd_cli.Relay.Results.{collect_one, collect, multi_result, results_of, send_multi_result}
use remotecmd_cli.Relay.Multi.{fill_missing, relay_verdict, multi_timeout}

abbrev is_among : String → List String → Bool
is_among t order = any (λ x. x == t) order

-- Equal keys lead to equal values.
get_same :
    (results : Dict Message) (x t : String)
    → (x == t) ≡ true
    → Dict.get results t ≡ Dict.get results x
get_same results x t same = ap (Dict.get results) (sym ((eq_iff x t).0 same))

get-collect_one :
    (results ordered : Dict Message) (x t : String)
    → Dict.get (collect_one ordered x (Dict.get results x)) t ≡ (
        if x == t && not (is_none (Dict.get results t))
        then Dict.get results t
        else Dict.get ordered t)
get-collect_one results ordered x t = elim (Option-cases (Dict.get results x)) [
  | inl e ↦ rw e (elim (Bool-cases (x == t)) [
    | inl same ↦ rw (same, get_same results x t same, e)
    | inr other ↦ rw other
  ])
  | inr (m, e) ↦
      rw (e, get-put ordered x t m)
        (elim (Bool-cases (x == t)) [
          | inl same ↦ rw (same, get_same results x t same, e)
          | inr other ↦ rw other
        ])
]

get-collect :
    (order : List String) (results ordered : Dict Message) (t : String)
    → Dict.get (collect results order ordered) t ≡ (
        if is_among t order && not (is_none (Dict.get results t))
        then Dict.get results t
        else Dict.get ordered t)
unfolding collect
get-collect [] results ordered t = refl
get-collect (x ∷ order) results ordered t = ground (
  arith,
  get-collect order results (collect_one ordered x (Dict.get results x)) t,
  get-collect_one results ordered x t,
)

abbrev pub timed_out : Message
timed_out = relay_verdict "timed out waiting for result"

get-fill_missing :
    (order : List String) (results : Dict Message) (t : String)
    → Dict.get (fill_missing order results) t ≡ (
        if is_none (Dict.get results t) && is_among t order
        then some timed_out
        else Dict.get results t)
unfolding fill_missing
get-fill_missing [] results t = ground arith
get-fill_missing (x ∷ order) results t = elim (Bool-cases (is_none (Dict.get results x))) [
  | inl missing ↦ rw missing (
      get-fill_missing order (Dict.put results x timed_out) t ∙ (elim (Bool-cases (x == t)) [
        | inl same ↦
            let e = get_same results x t same in
            ground (arith, e, missing, get-put results x t timed_out)
        | inr other ↦ ground (arith, other, get-put results x t timed_out)
      ]))
  | inr present ↦ rw present (
      get-fill_missing order results t ∙ (elim (Bool-cases (x == t)) [
        | inl same ↦ let e = get_same results x t same in ground (arith, e, present)
        | inr other ↦ ground (arith, other)
      ]))
]

-- What a target's entry in the answer should be at the time-out.
abbrev pub verdict_at : MultiPendingEntry → String → Option Message
verdict_at e t =
    if is_among t e.target_order
    then (if is_none (Dict.get e.results t) then some timed_out else Dict.get e.results t)
    else none

multi_timeout_unknown :
    (w : World) (mid : String) (s : Relay)
    → Dict.get s.multi_pending mid ≡ none
    → multi_timeout w mid s ≡ s
unfolding multi_timeout
multi_timeout_unknown w mid s unknown = rw (unknown, multi_timeout)

-- The answer with the results of a map.
abbrev pub answer_of : MultiPendingEntry → Dict Message → Message
answer_of e d =
    message (record blank { kind = "multi_result"; id = e.client_id }) (results_of (Dict.entries d))

module _ (w : World) (mid : String) (e : MultiPendingEntry) (s : Relay)
    (found : Dict.get s.multi_pending mid ≡ some e) where
  answers : Dict Message
  answers = collect (fill_missing e.target_order e.results) e.target_order Dict.empty

  get-answers : (t : String) → Dict.get answers t ≡ verdict_at e t
  unfolding answers
  get-answers t =
      get-collect e.target_order (fill_missing e.target_order e.results) Dict.empty t
      ∙ ground (arith, get-fill_missing e.target_order e.results t, get-empty {V = Message} t)

  forgotten : Relay
  forgotten = record s {
    multi_pending = Dict.remove s.multi_pending mid;
    sub_to_multi = Dict.retain (λ info. not (info.multi_id == mid)) s.sub_to_multi;
  }

  multi_timeout_known : multi_timeout w mid s ≡ send w e.client_conn (answer_of e answers) forgotten
  unfolding multi_timeout send_multi_result multi_result answers forgotten
  multi_timeout_known = rw (found, multi_timeout)

  multi_pending-after : Dict.get (multi_timeout w mid s).multi_pending mid ≡ none
  unfolding send set_conn forgotten
  multi_pending-after = rw multi_timeout_known (get-remove_self s.multi_pending mid)

  subs-after : (multi_timeout w mid s).sub_to_multi ≡ forgotten.sub_to_multi
  unfolding send set_conn
  subs-after = rw multi_timeout_known

  -- When the timer of a multi-target command fires before all answers are in, and the write succeeds, the
  -- client is sent one answer that holds, for exactly the targets of the command, the target's own result
  -- or else the time-out error; the command is forgotten, with its sub-requests and no others; and a
  -- second firing changes nothing.
  pub multi_timeout_completes :
      w.write_error s.writes ≡ none
      → ((d : Dict Message) × ((t : String) → Dict.get d t ≡ verdict_at e t)
          × (wire e.client_conn (multi_timeout w mid s)
              ≡ wire e.client_conn s ++ json (answer_of e d) ∷ []))
        × ((j : String) (info : SubTargetInfo)
            → (Dict.get (multi_timeout w mid s).sub_to_multi j ≡ some info)
              ↔ ((Dict.get s.sub_to_multi j ≡ some info) × (info.multi_id ≢ mid)))
        × (multi_timeout w mid (multi_timeout w mid s) ≡ multi_timeout w mid s)
  unfolding forgotten
  multi_timeout_completes ok =
      let kept = λ (j : String).
        get-retain (λ (x : SubTargetInfo). not (x.multi_id == mid)) s.sub_to_multi j in
      (
        (answers, get-answers, rw multi_timeout_known (wire-send w e.client_conn _ forgotten ok)),
        λ j info. rw subs-after (
          λ h. ground (arith, kept j, eq_iff info.multi_id mid),
          λ h. ground (arith, kept j, eq_iff info.multi_id mid),
        ),
        multi_timeout_unknown w mid (multi_timeout w mid s) multi_pending-after,
      )
