-- ===== src/Session.antt =====
-- ClientSession (client_session.go): many commands over one connection. A channel of one place is its
-- number, and `boxes` is what lies in it. readLoop, which takes one message at a time, runs between the
-- steps of Exec, which are the request and what its select finds. Closing the socket is left out.
pub mod Steps
pub mod Waiting
use remotecmd_cli.Prelude.{
  ℕ, suc, String, Bool, true, false, Option, none, some, List, [], ◌∷◌, ◌++◌, eqb, ◌==◌,
  if◌then◌else◌,
}
use remotecmd_cli.Prelude.Int.{ℤ}
use remotecmd_cli.Dict
use remotecmd_cli.Dict.{Dict}
use remotecmd_cli.Protocol.{Message, header, blank, flat}
use remotecmd_cli.Config.{Config, TargetConfig}

-- ClientSession, with its channels and what was written to the connection.
pub record ClientSession : Type 0 where
  pub pending : Dict ℕ
  pub boxes : ℕ → Option Message
  pub made : ℕ
  pub wire : List Message

-- The errors of Exec, with what their texts show.
pub data ExecError : Type 0 where
  unknown_target : String → ExecError
  send_failed : String → ExecError
  timed_out : String → ExecError

-- The session that newClientSession makes of a connection.
unfoldable pub new_session : ClientSession
new_session = record { pending = Dict.empty; boxes = λ ch. none; made = 0; wire = [] }

-- A select with a default: a message for a channel whose place is taken is dropped.
abbrev pub offered : Message → Option Message → Option Message
offered m none = some m
offered m (some old) = some old

abbrev pub offer : ℕ → Message → ClientSession → ClientSession
offer ch m s = record s { boxes = λ c. if eqb ch c then offered m (s.boxes ch) else s.boxes c }

-- delete(s.pending, id)
abbrev pub drop_request : String → ClientSession → ClientSession
drop_request id s = record s { pending = Dict.remove s.pending id }

-- readLoop on a message.
unfoldable pub read_message : Message → ClientSession → ClientSession
read_message m s = elim (Dict.get s.pending (header m).id) [
  | none ↦ s
  | some ch ↦ offer ch m (drop_request (header m).id s)
]

unfoldable pub closed_message : Message
closed_message =
    flat (record blank { kind = "result"; ok = some false; error = "connection closed" })

-- The loop at the end of readLoop, over the entries of the map.
unfoldable pub close_pending : List (String × ℕ) → ClientSession → ClientSession
close_pending [] s = s
close_pending ((id, ch) ∷ rest) s = close_pending rest (drop_request id (offer ch closed_message s))

-- readLoop where the read fails.
unfoldable pub connection_lost : ClientSession → ClientSession
unfolding close_pending
connection_lost s = close_pending (Dict.entries s.pending) s

-- The request of Exec for a configured target.
unfoldable pub request : String → String → TargetConfig → String → ℤ → Message
request id target tgt cmd timeout = flat (record blank {
  kind = "execute";
  id = id;
  target = if tgt.relay_name == "" then target else tgt.relay_name;
  token = tgt.token;
  cmd = cmd;
  timeout = timeout;
})

-- What Exec has once it has asked: an error, or a channel to wait on.
pub data Asked : Type 0 where
  failed : ExecError → Asked
  waits : ℕ → Asked

-- make(chan *Message, 1), and its entry.
abbrev pub make_channel : String → ClientSession → ClientSession
make_channel id s = record s {
  pending = Dict.put s.pending id s.made;
  boxes = λ c. if eqb s.made c then none else s.boxes c;
  made = suc s.made;
}

abbrev pub after_ask : String → ℕ → Option String → Message → ClientSession → Asked × ClientSession
after_ask id ch none m s = (waits ch, record s { wire = s.wire ++ m ∷ [] })
after_ask id ch (some e) m s = (failed (send_failed e), drop_request id s)

-- Exec up to its select, for a configuration that could be read. The identifier is newID's, and
-- `write_error` the outcome of the write.
unfoldable pub ask :
    Config → String → Option String → String → String → ℤ → ClientSession → Asked × ClientSession
unfolding request
ask cfg id write_error target cmd timeout s = elim (Dict.get cfg.targets target) [
  | none ↦ (failed (unknown_target target), s)
  | some tgt ↦
      after_ask id s.made write_error (request id target tgt cmd timeout) (make_channel id s)
]

-- What Exec returns.
pub data Answer : Type 0 where
  answered : Message → Answer
  no_answer : ExecError → Answer

-- The select of Exec: the message in the channel, or the timer, where it fires first.
unfoldable pub await : String → String → ℕ → ClientSession → Answer × ClientSession
await id target ch s = elim (s.boxes ch) [
  | some m ↦ (answered m, record s { boxes = λ c. if eqb ch c then none else s.boxes c })
  | none ↦ (no_answer (timed_out target), drop_request id s)
]
