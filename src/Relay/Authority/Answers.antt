-- ===== src/Relay/Authority/Answers.antt =====
-- The answers of targets, and the multi-target fan-out: which of them send requests.
use remotecmd_cli.Prelude.{ℕ, ◌≡◌, refl, ◌∙◌, String, false, List, arith, Option-cases, inl, inr}
use remotecmd_cli.Protocol.{Message, message, header}
use remotecmd_cli.Dict
use remotecmd_cli.Dict.{Dict, holds}
use remotecmd_cli.Relay.Client.{json, close_writer}
use remotecmd_cli.Relay.State.{Relay, World, SubTargetInfo, MultiPendingEntry, send}
use remotecmd_cli.Relay.Authority.Base.{is_request, asked, asked-send_quiet}
use remotecmd_cli.Relay.Authority.Quiet.{asked-set_conn}
use remotecmd_cli.Relay.Forward.{cleanup_pending}
use remotecmd_cli.Relay.Results.{
  with_id, with_kind, answer, handle_stream_chunk, handle_result, handle_file_transfer_result,
  multi_result, send_multi_result, sub_result, finish_multi, record_result,
}

with_id_quiet : (id : String) (m : Message) → is_request (json (with_id id m)) ≡ is_request (json m)
unfolding is_request
with_id_quiet id (message h r) = refl

with_kind_quiet : (m : Message) → is_request (json (with_kind "result" m)) ≡ false
unfolding is_request
with_kind_quiet (message h r) = refl

module _ (w : World) (t : ℕ) where
  pub asked-send_multi_result :
      (c : ℕ) (id : String) (results : Dict Message) (order : List String) (s : Relay)
      → asked t (send_multi_result w c id results order s) ≡ asked t s
  unfolding send_multi_result multi_result is_request
  asked-send_multi_result c id results order s =
      asked-send_quiet t w c (multi_result id results order) s refl

  module _ (m : Message) (s : Relay) (quiet : is_request (json m) ≡ false) where
    pub asked-handle_stream_chunk : asked t (handle_stream_chunk w m s) ≡ asked t s
    unfolding handle_stream_chunk
    asked-handle_stream_chunk = elim (Option-cases (Dict.get s.pending (header m).id)) [
      | inl e ↦ ground arith
      | inr (pr, e) ↦ ground (
        arith,
        asked-send_quiet t w pr.client_conn (with_id pr.server_id m) s
            (with_id_quiet pr.server_id m ∙ quiet),
      )
    ]

    pub asked-answer : asked t (answer w m s) ≡ asked t s
    unfolding answer cleanup_pending
    asked-answer = elim (Option-cases (Dict.get s.pending (header m).id)) [
      | inl e ↦ ground arith
      | inr (pr, e) ↦ ground (
        arith,
        asked-send_quiet t w pr.client_conn (with_id pr.server_id m)
            (cleanup_pending (header m).id s) (with_id_quiet pr.server_id m ∙ quiet),
      )
    ]

  pub asked-handle_file_transfer_result :
      (rc : ℕ) (m : Message) (s : Relay)
      → asked t (handle_file_transfer_result w rc m s) ≡ asked t s
  unfolding handle_file_transfer_result cleanup_pending close_writer
  asked-handle_file_transfer_result rc m s =
      elim (Option-cases (Dict.get s.pending (header m).id)) [
        | inl e ↦ ground arith
        | inr (pr, e) ↦
            let quiet = with_kind_quiet (with_id pr.server_id m) in
            let sent =
              send w pr.client_conn (with_kind "result" (with_id pr.server_id m))
                (cleanup_pending (header m).id s) in
            rw (e, handle_file_transfer_result)
              (asked-set_conn t rc (close_writer (sent.conns rc)) sent refl
                ∙ asked-send_quiet t w pr.client_conn _ (cleanup_pending (header m).id s) quiet)
      ]

  asked-finish_multi :
      (mid : String) (e : MultiPendingEntry) (s : Relay)
      → asked t (finish_multi w mid e s) ≡ asked t s
  asked-finish_multi mid e s = ground (
    arith,
    asked-send_multi_result e.client_conn e.client_id e.results e.target_order
        (record s { multi_pending = Dict.remove s.multi_pending mid }),
  )

  asked-sub_result :
      (m : Message) (info : SubTargetInfo) (s : Relay) → asked t (sub_result w m info s) ≡ asked t s
  unfolding sub_result
  asked-sub_result m info s = elim (Option-cases (Dict.get s.multi_pending info.multi_id)) [
    | inl e ↦ ground arith
    | inr (x, e) ↦
        rw (e, sub_result)
          (asked-finish_multi info.multi_id (record_result info.target_name m x)
            (record s { sub_to_multi = Dict.remove s.sub_to_multi (header m).id }))
  ]

  pub asked-handle_result :
      (m : Message) (s : Relay)
      → is_request (json m) ≡ false
      → asked t (handle_result w m s) ≡ asked t s
  unfolding handle_result
  asked-handle_result m s quiet = elim (Option-cases (Dict.get s.sub_to_multi (header m).id)) [
    | inl e ↦ rw (e, handle_result) (asked-answer m s quiet)
    | inr (info, e) ↦ rw (e, handle_result) (asked-sub_result m info s)
  ]
