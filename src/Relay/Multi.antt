-- ===== src/Relay/Multi.antt =====
-- relay_multi.go: a command for several targets, with the aggregate's time-out. The entry is shared
-- through a pointer in `multiPending`; here every update goes through the map.
use remotecmd_cli.Prelude.{
  ℕ, suc, String, ◌⧺◌, Bool, true, false, not, ◌||◌, Option, none, some, List, [], ◌∷◌, ◌==◌,
  if◌then◌else◌, is_none, eqb,
}
use remotecmd_cli.Prelude.Int.{ℤ, pos, ◌+ℤ◌, leb_ℤ}
use remotecmd_cli.Dict
use remotecmd_cli.Dict.{Dict, holds}
use remotecmd_cli.Protocol.{Header, Message, blank, flat, err_result}
use remotecmd_cli.Relay.State.{Relay, World, MultiPendingEntry, send, send_error, token_equal}
use remotecmd_cli.Relay.Results.{send_multi_result}

abbrev pub update_at :
    String → (MultiPendingEntry → MultiPendingEntry) → Option MultiPendingEntry → Relay → Relay
update_at mid f none s = s
update_at mid f (some e) s = record s { multi_pending = Dict.put s.multi_pending mid (f e) }

unfoldable pub update_entry : String → (MultiPendingEntry → MultiPendingEntry) → Relay → Relay
update_entry mid f s = update_at mid f (Dict.get s.multi_pending mid) s

-- The result that the relay writes itself for a target that it cannot ask.
unfoldable pub relay_verdict : String → Message
relay_verdict e = flat (record blank { kind = "result"; ok = some false; error = e })

-- entry.results[name] = &Message{…, Error: e}
unfoldable pub set_verdict : String → String → String → Relay → Relay
unfolding update_entry relay_verdict
set_verdict mid name e s =
    update_entry mid
      (λ entry. record entry { results = Dict.put entry.results name (relay_verdict e) }) s

-- The "command" message of a sub-request. It carries no stream flag and no stdin.
unfoldable pub sub_command : String → Header → Message
sub_command sub_id h =
    flat (record blank { kind = "command"; id = sub_id; cmd = h.cmd; timeout = h.timeout })

-- rs.subToMulti[newID()] = …
unfoldable pub add_sub : World → String → String → Relay → Relay
add_sub w mid name s = record s {
  sub_to_multi =
      Dict.put s.sub_to_multi (w.new_id s.ids) (record { multi_id = mid; target_name = name });
  ids = suc s.ids;
}

abbrev pub sub_sent : String → String → String → Option String → Relay → Relay
sub_sent mid name sub_id none s = s
sub_sent mid name sub_id (some e) s =
    set_verdict mid name ("forward failed: " ⧺ e)
      (record s { sub_to_multi = Dict.remove s.sub_to_multi sub_id })

unfoldable pub forward_sub : World → String → Header → String → ℕ → Relay → Relay
unfolding add_sub set_verdict
forward_sub w mid h name t s =
    let sub_id = w.new_id s.ids in
    let asked = add_sub w mid name s in
    sub_sent mid name sub_id (send_error w asked) (send w t (sub_command sub_id h) asked)

-- One round of the fan-out: the state after it, and whether `pendingCount` grew. It grows before the
-- send is tried, and a failed send does not take it back.
abbrev pub ask_at : World → String → Header → String → Option ℕ → Relay → Bool × Relay
ask_at w mid h name none s = (false, set_verdict mid name "target not connected" s)
ask_at w mid h name (some t) s =
    if holds (token_equal (s.conns t).token) (Dict.get h.tokens name)
    then (true, forward_sub w mid h name t s)
    else (false, set_verdict mid name "invalid token" s)

unfoldable pub ask_target : World → String → Header → String → Relay → Bool × Relay
unfolding forward_sub set_verdict
ask_target w mid h name s = ask_at w mid h name (Dict.get s.clients name) s

-- The loop over the targets, with `pendingCount`.
unfoldable pub fan_out : World → String → Header → List String → ℕ → Relay → ℕ × Relay
fan_out w mid h [] count s = (count, s)
fan_out w mid h (name ∷ rest) count s =
    let (asked, s') = ask_target w mid h name s in
    fan_out w mid h rest (if asked then suc count else count) s'

-- The seconds of the aggregate's timer.
unfoldable pub batch_timeout : ℤ → ℤ
unfolding ◌+ℤ◌
batch_timeout timeout =
    let batch = timeout +ℤ pos 5 in if leb_ℤ batch (pos 0) then pos 35 else batch

-- rs.multiPending[newID()] = entry
abbrev pub with_entry : World → ℕ → Header → Relay → Relay
with_entry w rc h s = record s {
  multi_pending = Dict.put s.multi_pending (w.new_id s.ids) (record {
    client_conn = rc;
    client_id = h.id;
    results = Dict.empty;
    target_order = h.targets;
    remaining = pos 0;
    timer = none;
  });
  ids = suc s.ids;
}

-- From the new entry to the end of the loop: `pendingCount` and the state.
unfoldable pub start_multi : World → ℕ → Header → Relay → ℕ × Relay
start_multi w rc h s = fan_out w (w.new_id s.ids) h h.targets 0 (with_entry w rc h s)

abbrev pub drop_multi : World → String → MultiPendingEntry → Relay → Relay
drop_multi w mid e s =
    send_multi_result w e.client_conn e.client_id e.results e.target_order
      (record s { multi_pending = Dict.remove s.multi_pending mid })

-- After the loop: `remaining` is set, and the answer goes out if nothing was asked, or the timer is
-- armed.
unfoldable pub arm_multi : World → String → ℤ → ℕ → Relay → Relay
unfolding update_entry batch_timeout
arm_multi w mid timeout count s = elim (Dict.get s.multi_pending mid) [
  | none ↦ s
  | some e ↦
      if eqb count 0
      then drop_multi w mid (record e { remaining = pos 0 }) s
      else update_entry mid
          (λ entry. record entry { remaining = pos count; timer = some (batch_timeout timeout) }) s
]

abbrev pub no_targets : List String → Bool
no_targets [] = true
no_targets (t ∷ ts) = false

-- handleExecuteMulti
unfoldable pub handle_execute_multi : World → ℕ → Header → Relay → Relay
unfolding start_multi arm_multi
handle_execute_multi w rc h s =
    if no_targets h.targets || h.cmd == ""
    then send w rc (err_result h.id "targets and cmd are required") s
    else (let (count, asked) = start_multi w rc h s in
        arm_multi w (w.new_id s.ids) h.timeout count asked)

-- The results at the time-out: a target with none gets an error.
unfoldable pub fill_missing : List String → Dict Message → Dict Message
unfolding relay_verdict
fill_missing [] results = results
fill_missing (t ∷ ts) results = fill_missing ts (
    if is_none (Dict.get results t)
    then Dict.put results t (relay_verdict "timed out waiting for result")
    else results)

-- The timer's function.
unfoldable pub multi_timeout : World → String → Relay → Relay
unfolding fill_missing
multi_timeout w mid s = elim (Dict.get s.multi_pending mid) [
  | none ↦ s
  | some e ↦
      drop_multi w mid (record e { results = fill_missing e.target_order e.results })
        (record s {
          sub_to_multi = Dict.retain (λ info. not (info.multi_id == mid)) s.sub_to_multi;
        })
]
