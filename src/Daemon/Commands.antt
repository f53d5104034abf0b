-- ===== src/Daemon/Commands.antt =====
-- executeCommand of daemon.go: what the daemon sends for a command, in order. The process (os/exec) is a
-- parameter, with the interleaving of its two pipes; logging is left out. A run may never end: cmd.Run and
-- wg.Wait wait for the pipes, which a child of the process can keep open beyond the timeout.
use remotecmd_cli.Prelude.{
  String, ◌⧺◌, Bool, Option, none, some, List, [], ◌∷◌, ◌++◌, map, ◌==◌, if◌then◌else◌,
}
use remotecmd_cli.Prelude.Int.{ℤ, pos, leb_ℤ}
use remotecmd_cli.Protocol.{
  Header, Message, blank, flat, err_result, ok_result, stream_end_ok, stream_end_err,
}

-- How a process ends: well, with an exit code, or with an error that is no *exec.ExitError.
pub data Exit : Type 0 where
  succeeded : Exit
  exited : ℤ → Exit
  broken : Exit

-- A run: its output, its end, whether the context's deadline has passed by then, and how long it took.
pub record Run : Type 0 where
  pub stdout : String
  pub stderr : String
  pub exit : Exit
  pub timed_out : Bool
  pub duration : ℤ

-- A streamed run: an error of one of the three steps before, or the lines of both pipes in the order in
-- which they are sent, and the run's end, where it has one.
pub data Launch : Type 0 where
  no_stdout : String → Launch
  no_stderr : String → Launch
  not_started : String → Launch
  running : List (String × String) → Option Run → Launch

-- What commands take from outside: the version, base64, strings.TrimSpace, the print of a number, and
-- processes for a command, a standard input and a timeout; `none` is a cmd.Run that never returns.
pub record System : Type 0 where
  pub version : String
  pub decode_base64 : String → Option String × String
  pub trim : String → String
  pub show : ℤ → String
  pub process : String → Option String → ℤ → Option Run
  pub launch : String → Option String → ℤ → Launch

-- The timeout in seconds, 30 where none is given.
abbrev pub timeout_of : Header → ℤ
timeout_of h = if leb_ℤ h.timeout (pos 0) then pos 30 else h.timeout

-- Standard input: none is given, what it decodes to, or the text of the error.
pub data Input : Type 0 where
  input : Option String → Input
  bad_input : String → Input

abbrev decoded_input : Option String × String → Input
decoded_input (none, e) = bad_input e
decoded_input (some text, e) = input (some text)

unfoldable pub input_of : System → Header → Input
input_of sys h =
    if h.stdin_data == "" then input none else decoded_input (sys.decode_base64 h.stdin_data)

abbrev timeout_text : System → Header → String
timeout_text sys h = "command timed out after " ⧺ sys.show (timeout_of h) ⧺ "s"

abbrev pub buffered_end : System → Header → Run → Exit → Message
buffered_end sys h r succeeded =
    ok_result sys.version h.id (sys.trim r.stdout) (sys.trim r.stderr) (pos 0) r.duration
buffered_end sys h r (exited code) =
    if r.timed_out
    then err_result h.id (timeout_text sys h)
    else ok_result sys.version h.id (sys.trim r.stdout) (sys.trim r.stderr) code r.duration
buffered_end sys h r broken =
    if r.timed_out
    then err_result h.id (timeout_text sys h)
    else ok_result sys.version h.id (sys.trim r.stdout) (sys.trim r.stderr) (pos 1) r.duration

abbrev pub buffered_run : System → Header → Option Run → List Message
buffered_run sys h none = []
buffered_run sys h (some r) = buffered_end sys h r r.exit ∷ []

abbrev pub buffered_with : System → Header → Input → List Message
buffered_with sys h (bad_input e) = err_result h.id ("failed to decode stdin data: " ⧺ e) ∷ []
buffered_with sys h (input stdin) = buffered_run sys h (sys.process h.cmd stdin (timeout_of h))

-- executeCommandBuffered
unfoldable pub execute_command_buffered : System → Header → List Message
unfolding input_of
execute_command_buffered sys h = buffered_with sys h (input_of sys h)

-- One line of a pipe.
unfoldable pub output_line : Header → String × String → Message
output_line h (name, line) =
    flat
      (record blank { kind = "stream_chunk"; id = h.id; stream_name = name; payload = line ⧺ "\n" })

abbrev pub streaming_end : System → Header → Run → Exit → Message
streaming_end sys h r succeeded = stream_end_ok sys.version h.id (pos 0) r.duration
streaming_end sys h r (exited code) =
    if r.timed_out
    then stream_end_err sys.version h.id (timeout_text sys h)
    else stream_end_ok sys.version h.id code r.duration
streaming_end sys h r broken =
    if r.timed_out
    then stream_end_err sys.version h.id (timeout_text sys h)
    else stream_end_ok sys.version h.id (pos 1) r.duration

abbrev pub ended_run : System → Header → Option Run → List Message
ended_run sys h none = []
ended_run sys h (some r) = streaming_end sys h r r.exit ∷ []

abbrev pub streamed : System → Header → Launch → List Message
streamed sys h (no_stdout e) = err_result h.id ("failed to create stdout pipe: " ⧺ e) ∷ []
streamed sys h (no_stderr e) = err_result h.id ("failed to create stderr pipe: " ⧺ e) ∷ []
streamed sys h (not_started e) = err_result h.id ("failed to start command: " ⧺ e) ∷ []
streamed sys h (running lines r) = map (output_line h) lines ++ ended_run sys h r

abbrev pub streaming_with : System → Header → Input → List Message
streaming_with sys h (bad_input e) = err_result h.id ("failed to decode stdin data: " ⧺ e) ∷ []
streaming_with sys h (input stdin) = streamed sys h (sys.launch h.cmd stdin (timeout_of h))

-- executeCommandStreaming
unfoldable pub execute_command_streaming : System → Header → List Message
unfolding input_of
execute_command_streaming sys h = streaming_with sys h (input_of sys h)

-- executeCommand
unfoldable pub execute_command : System → Header → List Message
unfolding execute_command_buffered execute_command_streaming
execute_command sys h =
    if h.stream then execute_command_streaming sys h else execute_command_buffered sys h
