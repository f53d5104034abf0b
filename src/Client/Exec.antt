-- ===== src/Client/Exec.antt =====
-- One command on one target (handleExec and handleExecWithStdin in client.go), with what is shown while it
-- runs. The health cache is in the state, as the answer's version is noted there. base64 is a parameter.
-- When the timer ends the wait, what the reader shows afterwards until the process exits is left out.
pub mod Output
use remotecmd_cli.Prelude.{
  ℕ, String, Bool, true, false, not, ◌&&◌, ◌||◌, Option, none, some, List, [], ◌∷◌, ◌++◌, ◌==◌,
  if◌then◌else◌,
}
use remotecmd_cli.Prelude.Int.{ℤ}
use remotecmd_cli.Dict
use remotecmd_cli.Protocol.{Message, Header, header, blank, flat}
use remotecmd_cli.Config.{Config, TargetConfig}
use remotecmd_cli.Errors.{contains, is_false}
use remotecmd_cli.Health.{Cache, Warning, note_daemon_version, warn_if_daemon_too_old}
use remotecmd_cli.Client.{
  Inbox, breaks, silent, arrives, Link, ClientError, relay_unset, unknown_target, connect_failed,
  send_failed, read_failed, refused, timed_out_for, Try, done, failed, relay_target,
}

-- What the user sees: the events of emitProgress, texts on the two outputs, a message printed as JSON.
pub data Shown : Type 0 where
  progress_chunk : String → String → Shown
  progress_error : String → Shown
  progress_complete : Option Bool → ℤ → ℤ → Shown
  progress_timeout : Shown
  on_stdout : String → Shown
  on_stderr : String → Shown
  printed : Message → Shown

abbrev pub streaming : Bool → Shown → List Shown
streaming stream s = if stream then s ∷ [] else []

abbrev pub show_chunk : Bool → Header → Shown
show_chunk stream h =
    if stream
    then progress_chunk h.stream_name h.payload
    else if h.stream_name == "stderr"
    then on_stderr h.payload
    else on_stdout h.payload

-- What the reader showed, and what it came to.
pub record Watched : Type 0 where
  pub shown : List Shown
  pub outcome : Try Message

abbrev pub and_then : Shown → Watched → Watched
and_then s w = record w { shown = s ∷ w.shown }

-- The message belongs to the request: it bears its identifier, or is an error without one.
abbrev pub is_own : String → Header → Bool
is_own id h = h.id == id || (h.kind == "error" && h.id == "")

-- The reader on a message, with what comes of the messages behind it.
unfoldable pub react : Bool → String → Message → Watched → Watched
react stream id m later =
    let h = header m in
    if not (is_own id h)
    then later
    else if h.kind == "error"
    then record { shown = []; outcome = failed (refused h.error) }
    else if h.kind == "stream_chunk"
    then and_then (show_chunk stream h) later
    else if h.kind == "stream_end" || h.kind == "result"
    then record {
      shown = streaming stream (progress_complete h.ok h.exit_code h.duration_ms);
      outcome = done m;
    }
    else later

-- The reader and the select of handleExecWithStdin.
unfoldable pub watch : Bool → String → String → Inbox → Watched
unfolding react
watch stream target id (breaks e) = record {
  shown = streaming stream (progress_error e);
  outcome = failed (read_failed e);
}
watch stream target id silent = record {
  shown = streaming stream progress_timeout;
  outcome = failed (timed_out_for target);
}
watch stream target id (arrives m rest) = react stream id m (watch stream target id rest)

pub record Command : Type 0 where
  pub target : String
  pub cmd : String
  pub timeout : ℤ
  pub stream : Bool
  pub stdin_data : List ℕ

-- What a command leaves: what was shown and written to the relay, a warning, the file of the cache, and
-- what the function returned.
pub record Executed : Type 0 where
  pub shown : List Shown
  pub sent : List Message
  pub warning : Option Warning
  pub file : Option Cache
  pub error : Option ClientError

abbrev pub is_nil : List ℕ → Bool
is_nil [] = true
is_nil (b ∷ bs) = false

abbrev pub exec_request : (List ℕ → String) → String → Command → TargetConfig → Message
exec_request encode id c tgt = flat (record blank {
  kind = "execute";
  id = id;
  target = relay_target c.target tgt;
  token = tgt.token;
  cmd = c.cmd;
  timeout = c.timeout;
  stream = c.stream;
  stdin_data = if is_nil c.stdin_data then "" else encode c.stdin_data;
})

abbrev pub stdin_warning : Option Cache → Command → Option Warning
stdin_warning file c =
    if is_nil c.stdin_data
    then none
    else warn_if_daemon_too_old file c.target "stdin" "the piped stdin will be ignored"

abbrev pub is_refused : Header → Bool
is_refused h = is_false h.ok && contains h.error "authentication required"

-- The answer as it is printed.
abbrev pub printed_answer : Bool → Message → List Shown
printed_answer stream m = if (header m).kind == "result" || not stream then printed m ∷ [] else []

-- The cases of the select, behind what was shown.
abbrev pub finish : Command → Executed → Watched → Executed
finish c x w = elim w.outcome [
  | failed e ↦ record x { shown = w.shown; error = some e }
  | done m ↦
      if is_refused (header m)
      then record x { shown = w.shown; error = some (refused (header m).error) }
      else record x {
        shown = w.shown ++ printed_answer c.stream m;
        file = note_daemon_version c.target (header m).daemon_version x.file;
      }
]

-- A command that has shown and sent nothing.
abbrev pub started : Option Warning → Option Cache → Option ClientError → Executed
started w file e = record { shown = []; sent = []; warning = w; file = file; error = e }

-- handleExecWithStdin for a configured target.
abbrev pub exec_on : (List ℕ → String) → Link → Option Cache → Command → TargetConfig → Executed
exec_on encode link file c tgt =
    let warned = stdin_warning file c in
    let m = exec_request encode link.new_id c tgt in
    elim link.dial_error [
      | some e ↦ started warned file (some (connect_failed e))
      | none ↦ elim link.write_error [
        | some e ↦ started warned file (some (send_failed e))
        | none ↦
            finish c (record (started warned file none) { sent = m ∷ [] })
              (watch c.stream c.target link.new_id (link.answers m))
      ]
    ]

abbrev pub exec_with : (List ℕ → String) → Config → Link → Option Cache → Command → Executed
exec_with encode cfg link file c =
    if cfg.relay.url == ""
    then started none file (some relay_unset)
    else elim (Dict.get cfg.targets c.target) [
      | none ↦ started none file (some (unknown_target c.target))
      | some tgt ↦ exec_on encode link file c tgt
    ]

-- handleExecWithStdin, of what loadConfig returned.
unfoldable pub handle_exec_with_stdin :
    (List ℕ → String) → Try Config → Link → Option Cache → Command → Executed
unfolding watch
handle_exec_with_stdin encode (failed e) link file c = started none file (some e)
handle_exec_with_stdin encode (done cfg) link file c = exec_with encode cfg link file c
