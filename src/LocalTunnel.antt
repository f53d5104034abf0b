-- ===== src/LocalTunnel.antt =====
-- The local end of a tunnel (tunnel.go): a listener whose connections go through the relay to an address at
-- a target. Relay connections and local connections are numbers; the channel of an open that waits is its
-- one place. handleLocalConnection is three kinds of steps, the open, the end of its select and the
-- rounds of its pipe, and between them the read loop takes messages and the relay connection may be
-- replaced. Dialling, timers, pings and the listener are left out; writes and base64 are parameters.
pub mod Opening
pub mod Loss
use remotecmd_cli.Prelude.{
  ℕ, ◌*◌, String, Bool, true, false, not, Option, none, some, List, [], ◌∷◌, ◌++◌, ◌==◌, eqb, ltb,
  if◌then◌else◌,
}
use remotecmd_cli.Dict
use remotecmd_cli.Dict.{Dict, entries}
use remotecmd_cli.Protocol.{Header, Message, header, blank, flat}
use remotecmd_cli.Daemon.Tunnels.{Remote, Network}

-- clientTunnel, with the local connections and what was written to each relay connection. A channel in
-- `pending` holds a message, or none.
pub record ClientTunnel : Type 0 where
  pub target_name : String
  pub remote_addr : String
  pub token : String
  pub conn : Option ℕ
  pub pending : Dict (Option Message)
  pub active : Dict ℕ
  pub locals : ℕ → Remote
  pub wires : ℕ → List Message

-- Whether a relay connection takes a message.
abbrev pub Writes : Type 0
Writes = ℕ → Message → Bool

-- tunnelReconnectMax, in seconds.
abbrev pub tunnel_reconnect_max : ℕ
tunnel_reconnect_max = 30

-- The wait after a reconnect that failed, by the wait before it (maintain).
unfoldable pub next_backoff : ℕ → ℕ
next_backoff backoff =
    if ltb tunnel_reconnect_max (backoff * 2) then tunnel_reconnect_max else backoff * 2

-- setConn
unfoldable pub set_relay_conn : ℕ → ClientTunnel → ClientTunnel
set_relay_conn c s = record s { conn = some c }

abbrev pub set_local : ℕ → Remote → ClientTunnel → ClientTunnel
set_local l r s = record s { locals = λ k. if eqb l k then r else s.locals k }

abbrev pub close_local : ℕ → ClientTunnel → ClientTunnel
close_local l s = set_local l (record (s.locals l) { is_open = false }) s

-- closeTunnel
unfoldable pub close_client_tunnel : String → ClientTunnel → ClientTunnel
close_client_tunnel id s = elim (Dict.get s.active id) [
  | none ↦ s
  | some l ↦ record (close_local l s) { active = Dict.remove s.active id }
]

-- A select with a default: a message for a channel whose place is taken is dropped.
abbrev pub filled : Message → Option Message → Option Message
filled m none = some m
filled m (some old) = some old

abbrev pub offer_open : String → Message → ClientTunnel → ClientTunnel
offer_open id m s = elim (Dict.get s.pending id) [
  | none ↦ s
  | some box ↦ record s { pending = Dict.put s.pending id (filled m box) }
]

unfoldable pub close_each : List (String × ℕ) → ClientTunnel → ClientTunnel
unfolding close_client_tunnel
close_each [] s = s
close_each ((id, l) ∷ rest) s = close_each rest (close_client_tunnel id s)

unfoldable pub fail_each : List (String × Option Message) → ClientTunnel → ClientTunnel
fail_each [] s = s
fail_each ((id, box) ∷ rest) s =
    fail_each rest (offer_open id (flat (record blank { error = "relay connection lost" })) s)

abbrev pub is_current : Option ℕ → ℕ → Bool
is_current none c = false
is_current (some d) c = eqb d c

abbrev retire : ℕ → ClientTunnel → ClientTunnel
retire c s = if is_current s.conn c then record s { conn = none } else s

-- dropConn
unfoldable pub drop_conn : ℕ → ClientTunnel → ClientTunnel
unfolding close_each fail_each
drop_conn c s =
    let retired = close_each (entries s.active) (retire c s) in
    fail_each (entries retired.pending) retired

abbrev pub write_local : Network → String → ℕ → Option (List ℕ) → ClientTunnel → ClientTunnel
write_local net id l none s = s
write_local net id l (some bytes) s =
    if net.accepts l bytes
    then set_local l (record (s.locals l) { written = (s.locals l).written ++ bytes }) s
    else close_client_tunnel id s

abbrev pub deliver : Network → Header → ClientTunnel → ClientTunnel
deliver net h s = elim (Dict.get s.active h.tunnel_id) [
  | none ↦ s
  | some l ↦ write_local net h.tunnel_id l (net.decode_base64 h.payload) s
]

-- A message in readLoop.
unfoldable pub read_tunnel_message : Network → Message → ClientTunnel → ClientTunnel
unfolding close_client_tunnel
read_tunnel_message net m s =
    let h = header m in
    if h.kind == "tunnel_opened"
    then offer_open h.tunnel_id m s
    else if h.kind == "tunnel_data"
    then deliver net h s
    else if h.kind == "tunnel_close"
    then close_client_tunnel h.tunnel_id s
    else s

-- sendOn: whether it succeeded, and the state.
unfoldable pub send_on : Writes → ℕ → Message → ClientTunnel → Bool × ClientTunnel
send_on writes c m s =
    if not (is_current s.conn c)
    then (false, s)
    else if writes c m
    then (true, record s { wires = λ k. if eqb c k then s.wires k ++ m ∷ [] else s.wires k })
    else (false, s)

abbrev pub open_message : String → ClientTunnel → Message
open_message id s = flat (record blank {
  kind = "tunnel_open";
  target = s.target_name;
  token = s.token;
  tunnel_id = id;
  remote_addr = s.remote_addr;
})

-- The deferred deletion of the waiting open.
abbrev pub forget_open : String → ClientTunnel → ClientTunnel
forget_open id s = record s { pending = Dict.remove s.pending id }

abbrev pub after_open : String → ℕ → Bool × ClientTunnel → ClientTunnel
after_open id l (true, s) = s
after_open id l (false, s) = forget_open id (close_local l s)

-- handleLocalConnection up to its select: the local connection `l`, what waitConn returned, and newID's
-- identifier.
unfoldable pub open_tunnel : Writes → Option ℕ → String → ℕ → ClientTunnel → ClientTunnel
unfolding send_on
open_tunnel writes none id l s = close_local l s
open_tunnel writes (some c) id l s =
    after_open id l
      (send_on writes c (open_message id s) (record s { pending = Dict.put s.pending id none }))

-- What the select of handleLocalConnection found: the message in the channel, or the timer.
abbrev pub opened_error : Option Message → String
opened_error none = "no answer from relay"
opened_error (some m) = (header m).error

-- handleLocalConnection behind its select, up to the pipe.
unfoldable pub confirm : String → ℕ → Option Message → ClientTunnel → ClientTunnel
confirm id l answer s =
    if opened_error answer == ""
    then record s { active = Dict.put s.active id l }
    else forget_open id (close_local l s)

-- The deferred calls at the end of the pipe.
abbrev pub finish_pipe : String → ClientTunnel → ClientTunnel
finish_pipe id s = forget_open id (close_client_tunnel id s)

abbrev pub data_message : Network → String → List ℕ → Message
data_message net id bytes =
    flat (record blank { kind = "tunnel_data"; tunnel_id = id; payload = net.encode_base64 bytes })

abbrev pub send_data : Network → Writes → ℕ → String → List ℕ → ClientTunnel → Bool × ClientTunnel
send_data net writes c id [] s = (true, s)
send_data net writes c id (b ∷ bytes) s = send_on writes c (data_message net id (b ∷ bytes)) s

abbrev pub close_message : String → Message
close_message id = flat (record blank { kind = "tunnel_close"; tunnel_id = id })

abbrev pub end_round : Writes → ℕ → String → Bool → Bool × ClientTunnel → ClientTunnel
end_round writes c id ends (false, s) = finish_pipe id s
end_round writes c id false (true, s) = s
end_round writes c id true (true, s) = finish_pipe id (send_on writes c (close_message id) s).1

-- A round of the pipe on the relay connection `c`: the bytes that were read, and whether the read ended in
-- an error.
unfoldable pub pipe_round :
    Network → Writes → ℕ → String → List ℕ → Bool → ClientTunnel → ClientTunnel
unfolding send_on close_client_tunnel
pipe_round net writes c id bytes ends s =
    end_round writes c id ends (send_data net writes c id bytes s)
