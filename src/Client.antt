-- ===== src/Client.antt =====
-- The one-shot client (client.go): a connection for one request. Dialling, the outcome of the write and
-- what arrives until the timer fires are parameters (`Link`), as are the files that loadConfig reads. The
-- lengths of the timers are left out: an inbox ends with a failed read, or with the timer (`silent`). An
-- error is a constructor with what its text quotes.
pub mod Replies
pub mod Exec
pub mod Multi
use remotecmd_cli.Prelude.{
  ℕ, String, Bool, true, false, not, ◌&&◌, ◌||◌, Option, none, some, List, [], ◌∷◌, ◌==◌,
  if◌then◌else◌,
}
use remotecmd_cli.Prelude.Int.{ℤ}
use remotecmd_cli.Dict
use remotecmd_cli.Dict.{Dict}
use remotecmd_cli.Protocol.{Message, message, Header, header, blank, flat}
use remotecmd_cli.Config.{Config, TargetConfig}

-- What ReadJSON yields on a connection until the caller stops waiting.
pub data Inbox : Type 0 where
  breaks : String → Inbox
  silent : Inbox
  arrives : Message → Inbox → Inbox

-- What a connection to the relay meets. `answers` is what arrives after a request.
pub record Link : Type 0 where
  pub dial_error : Option String
  pub new_id : String
  pub write_error : Option String
  pub answers : Message → Inbox

pub data ClientError : Type 0 where
  load_failed : String → ClientError
  relay_missing : ClientError
  relay_unset : ClientError
  unknown_alias : String → ClientError
  unknown_target : String → ClientError
  connect_failed : String → ClientError
  send_failed : String → ClientError
  send_multi_failed : String → ClientError
  read_failed : String → ClientError
  refused : String → ClientError
  timed_out : ClientError
  timed_out_for : String → ClientError
  timed_out_multi : ClientError
  targets_failed : ClientError

pub data Try {ℓ} (A : Type ℓ) : Type ℓ where
  done : A → Try A
  failed : ClientError → Try A

-- What a function of the client wrote to its connection, and what it returned.
pub record Exchange {ℓ} (A : Type ℓ) : Type ℓ where
  pub sent : List Message
  pub returned : Try A

-- A function that returns before it has a connection.
abbrev pub unsent {ℓ} : {A : Type ℓ} → ClientError → Exchange A
unsent e = record { sent = []; returned = failed e }

-- Dialling, the write of a request, and the wait for its answer.
unfoldable pub exchange {ℓ} :
    {A : Type ℓ} → Link → (String → ClientError) → Message → (Inbox → Try A) → Exchange A
exchange link write_failed m receive = elim link.dial_error [
  | some e ↦ unsent (connect_failed e)
  | none ↦ elim link.write_error [
    | some e ↦ unsent (write_failed e)
    | none ↦ record { sent = m ∷ []; returned = receive (link.answers m) }
  ]
]

-- if msg.ID == "" { msg.ID = newID() }
abbrev pub with_id : String → Message → Message
with_id fresh (message h r) =
    if h.id == "" then message (record h { id = fresh }) r else message h r

-- The reader of sendToRelay with its select: the first message with the request's identifier.
unfoldable pub first_reply : String → Inbox → Try Message
first_reply id (breaks e) = failed (read_failed e)
first_reply id silent = failed timed_out
first_reply id (arrives m rest) =
    let later = first_reply id rest in if (header m).id == id then done m else later

-- sendToRelay
unfoldable pub send_to_relay : Config → Link → Message → Exchange Message
unfolding exchange first_reply
send_to_relay cfg link m =
    if cfg.relay.url == ""
    then unsent relay_missing
    else exchange link send_failed (with_id link.new_id m)
        (first_reply (header (with_id link.new_id m)).id)

-- The name under which the relay knows a target.
abbrev pub relay_target : String → TargetConfig → String
relay_target alias tgt = if tgt.relay_name == "" then alias else tgt.relay_name

-- What resolveRelayTargets returns: the names in order, and the token of each.
pub record Resolved : Type 0 where
  pub names : List String
  pub tokens : Dict String

abbrev pub with_name : String → Try Resolved → Try Resolved
with_name name (failed e) = failed e
with_name name (done r) = done (record { names = name ∷ r.names; tokens = r.tokens })

-- The loop of resolveRelayTargets, with the tokens so far.
unfoldable pub resolve_all : Config → List String → Dict String → Try Resolved
resolve_all cfg [] tokens = done (record { names = []; tokens = tokens })
resolve_all cfg (alias ∷ aliases) tokens = elim (Dict.get cfg.targets alias) [
  | none ↦ failed (unknown_alias alias)
  | some tgt ↦
      with_name (relay_target alias tgt)
        (resolve_all cfg aliases (Dict.put tokens (relay_target alias tgt) tgt.token))
]

-- resolveRelayTargets, of what loadConfig returned.
unfoldable pub resolve_relay_targets : Try Config → List String → Try Resolved
unfolding resolve_all
resolve_relay_targets (failed e) aliases = failed e
resolve_relay_targets (done cfg) aliases =
    if cfg.relay.url == "" then failed relay_unset else resolve_all cfg aliases Dict.empty

abbrev pub is_multi_answer : String → Header → Bool
is_multi_answer id h = h.kind == "multi_result" && h.id == id

abbrev pub is_refusal : String → Header → Bool
is_refusal id h = h.kind == "error" && (h.id == id || h.id == "")

abbrev pub multi_answer : Message → Try Message
multi_answer m = if (header m).error == "" then done m else failed (refused (header m).error)

-- The reader of multiExecRaw with its select.
unfoldable pub multi_reply : String → Inbox → Try Message
multi_reply id (breaks e) = failed (read_failed e)
multi_reply id silent = failed timed_out_multi
multi_reply id (arrives m rest) =
    let later = multi_reply id rest in
    if is_multi_answer id (header m)
    then multi_answer m
    else if is_refusal id (header m)
    then failed (refused (header m).error)
    else later

abbrev pub multi_request : String → Resolved → String → ℤ → Message
multi_request id r cmd timeout = flat (record blank {
  kind = "execute_multi";
  id = id;
  targets = r.names;
  tokens = r.tokens;
  cmd = cmd;
  timeout = timeout;
})

-- multiExecRaw
unfoldable pub multi_exec_raw : Try Config → Link → Resolved → String → ℤ → Exchange Message
unfolding exchange multi_reply
multi_exec_raw (failed e) link r cmd timeout = unsent e
multi_exec_raw (done cfg) link r cmd timeout =
    if cfg.relay.url == ""
    then unsent relay_unset
    else exchange link send_multi_failed (multi_request link.new_id r cmd timeout)
        (multi_reply link.new_id)
