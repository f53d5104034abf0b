-- ===== src/Relay/Results.antt =====
-- The handlers that carry a target's answer back: handleStreamChunk, handleStreamEnd, handleResult and
-- handleFileTransferResult of relay_handler.go, and sendMultiResult of relay.go.
use remotecmd_cli.Prelude.{ℕ, String, Option, none, some, List, [], ◌∷◌, if◌then◌else◌}
use remotecmd_cli.Prelude.Int.{pos, negsuc, ◌+ℤ◌, leb_ℤ}
use remotecmd_cli.Dict
use remotecmd_cli.Dict.{Dict}
use remotecmd_cli.Protocol.{Message, message, Results, result, no_results, header, blank}
use remotecmd_cli.Relay.Client.{close_writer}
use remotecmd_cli.Relay.State.{Relay, World, MultiPendingEntry, SubTargetInfo, send, set_conn}
use remotecmd_cli.Relay.Forward.{cleanup_pending}

-- msg.ID = id
abbrev pub with_id : String → Message → Message
with_id id (message h r) = message (record h { id = id }) r

-- msg.Type = kind
abbrev pub with_kind : String → Message → Message
with_kind kind (message h r) = message (record h { kind = kind }) r

-- handleStreamChunk
unfoldable pub handle_stream_chunk : World → Message → Relay → Relay
handle_stream_chunk w m s = elim (Dict.get s.pending (header m).id) [
  | none ↦ s
  | some pr ↦ send w pr.client_conn (with_id pr.server_id m) s
]

-- The answer that ends a request: its entry goes, and the client that asked gets the message under its
-- own identifier.
unfoldable pub answer : World → Message → Relay → Relay
answer w m s = elim (Dict.get s.pending (header m).id) [
  | none ↦ s
  | some pr ↦ send w pr.client_conn (with_id pr.server_id m) (cleanup_pending (header m).id s)
]

-- handleStreamEnd
unfoldable pub handle_stream_end : World → Message → Relay → Relay
unfolding answer
handle_stream_end w m s = answer w m s

-- handleFileTransferResult, with ctx.rc.closeWriter() at its end.
unfoldable pub handle_file_transfer_result : World → ℕ → Message → Relay → Relay
handle_file_transfer_result w rc m s = elim (Dict.get s.pending (header m).id) [
  | none ↦ s
  | some pr ↦
      let sent =
        send w pr.client_conn (with_kind "result" (with_id pr.server_id m))
          (cleanup_pending (header m).id s) in
      set_conn rc (close_writer (sent.conns rc)) sent
]

abbrev pub collect_one : Dict Message → String → Option Message → Dict Message
collect_one ordered t none = ordered
collect_one ordered t (some r) = Dict.put ordered t r

-- The loop of sendMultiResult over the targets.
unfoldable pub collect : Dict Message → List String → Dict Message → Dict Message
collect results [] ordered = ordered
collect results (t ∷ ts) ordered = collect results ts (collect_one ordered t (Dict.get results t))

-- The map as the message holds it.
unfoldable pub results_of : List (String × Message) → Results
results_of [] = no_results
results_of ((t, m) ∷ rest) = result t m (results_of rest)

unfoldable pub multi_result : String → Dict Message → List String → Message
unfolding collect results_of
multi_result client_id results order =
    message (record blank { kind = "multi_result"; id = client_id })
      (results_of (Dict.entries (collect results order Dict.empty)))

-- sendMultiResult
unfoldable pub send_multi_result : World → ℕ → String → Dict Message → List String → Relay → Relay
send_multi_result w client client_id results order s =
    send w client (multi_result client_id results order) s

-- results[name] = msg; remaining--
unfoldable pub record_result : String → Message → MultiPendingEntry → MultiPendingEntry
unfolding ◌+ℤ◌
record_result name m e = record e {
  results = Dict.put e.results name m;
  remaining = e.remaining +ℤ negsuc 0;
}

abbrev pub finish_multi : World → String → MultiPendingEntry → Relay → Relay
finish_multi w multi_id e s =
    if leb_ℤ e.remaining (pos 0)
    then send_multi_result w e.client_conn e.client_id e.results e.target_order
        (record s { multi_pending = Dict.remove s.multi_pending multi_id })
    else record s { multi_pending = Dict.put s.multi_pending multi_id e }

-- A sub-result of a multi-target command.
unfoldable pub sub_result : World → Message → SubTargetInfo → Relay → Relay
unfolding record_result
sub_result w m info s =
    let taken = record s { sub_to_multi = Dict.remove s.sub_to_multi (header m).id } in
    elim (Dict.get s.multi_pending info.multi_id) [
      | none ↦ taken
      | some e ↦ finish_multi w info.multi_id (record_result info.target_name m e) taken
    ]

-- handleResult
unfoldable pub handle_result : World → Message → Relay → Relay
unfolding sub_result answer
handle_result w m s = elim (Dict.get s.sub_to_multi (header m).id) [
  | some info ↦ sub_result w m info s
  | none ↦ answer w m s
]
