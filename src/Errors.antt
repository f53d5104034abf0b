-- ===== src/Errors.antt =====
-- Exit codes and typed errors of the command-line tool (exitcode.go, clierror.go).
pub mod Codes
use text.Mathlib.Text.{find?}
use remotecmd_cli.Prelude.{
  ℕ, String, Bool, true, false, not, ◌&&◌, ◌||◌, Option, none, some, List, [], ◌∷◌, ◌==◌, eqb, leb,
  any, is_none, if◌then◌else◌,
}
use remotecmd_cli.Prelude.Int.{ℤ, pos, negsuc}
use remotecmd_cli.Protocol.{Header, Message, Results, message, header, no_results, result}

abbrev pub exit_success : ℕ
exit_success = 0

abbrev pub exit_exec_error : ℕ
exit_exec_error = 1

abbrev pub exit_relay_error : ℕ
exit_relay_error = 2

abbrev pub exit_config_error : ℕ
exit_config_error = 3

abbrev pub exit_internal : ℕ
exit_internal = 4

-- exitUpdateFail of update.go.
abbrev pub exit_update_fail : ℕ
exit_update_fail = 100

-- strings.Contains
abbrev pub contains : String → String → Bool
contains msg part = not (is_none (find? msg part))

-- One case of a switch that asks for any of some parts.
abbrev pub contains_any : List String → String → Bool
contains_any parts msg = any (contains msg) parts

-- classifyError, of the text of an error, or of none.
unfoldable pub classify_error : Option String → ℕ
classify_error none = exit_success
classify_error (some msg) =
    if contains_any ("relay secret" ∷ "authentication required" ∷ []) msg
    then exit_config_error
    else if contains_any ("connect to relay" ∷ "connection" ∷ "timed out waiting" ∷ []) msg
    then exit_relay_error
    else if contains_any
        ("unknown target" ∷ "not found" ∷ "required" ∷ "already exists" ∷ "not configured"
          ∷ "unknown command" ∷ [])
        msg
    then exit_config_error
    else exit_exec_error

abbrev pub is_false : Option Bool → Bool
is_false none = false
is_false (some b) = not b

abbrev is_zero : ℤ → Bool
is_zero (pos n) = eqb n 0
is_zero (negsuc n) = false

-- The tests of the loop of multiExecExit.
abbrev pub is_failure : Header → Bool
is_failure h = not (h.error == "") || is_false h.ok || not (is_zero h.exit_code)

unfoldable pub has_failure : Results → Bool
has_failure no_results = false
has_failure (result t m rest) =
    let later = has_failure rest in if is_failure (header m) then true else later

-- multiExecExit. `none` is a nil message. A message without results has the nil map, which is what the
-- encoding makes of an empty one (`omitempty`).
unfoldable pub multi_exec_exit : Option Message → ℕ
unfolding has_failure
multi_exec_exit none = exit_relay_error
multi_exec_exit (some (message h no_results)) = exit_relay_error
multi_exec_exit (some (message h (result t m rest))) =
    if has_failure (result t m rest) then exit_exec_error else exit_success

-- The second switch of errorType.
unfoldable pub type_of_message : String → String
type_of_message msg =
    if contains_any ("relay secret" ∷ "authentication required" ∷ []) msg
    then "auth_required"
    else if contains_any ("unknown target" ∷ "not found in config" ∷ []) msg
    then "unknown_target"
    else if contains msg "not connected"
    then "target_offline"
    else if contains_any ("timed out" ∷ "Timed out" ∷ []) msg
    then "timeout"
    else if contains_any ("unknown command" ∷ "Unknown command" ∷ []) msg
    then "unknown_command"
    else if contains msg "not configured"
    then "not_configured"
    else if contains msg "required"
    then "missing_argument"
    else if contains msg "already exists"
    then "already_exists"
    else if contains msg "not found"
    then "not_found"
    else "invalid_arguments"

-- errorType
unfoldable pub error_type : ℕ → String → String
unfolding type_of_message
error_type code msg =
    if eqb code exit_relay_error
    then "relay_unreachable"
    else if eqb code exit_update_fail
    then "update_failed"
    else if eqb code exit_internal
    then "internal"
    else if eqb code exit_exec_error
    then "command_failed"
    else type_of_message msg

-- cliError
pub record CliError : Type 0 where
  pub code : ℕ
  pub kind : String
  pub text : String
  pub recoverable : Bool
  pub suggestions : List String

-- The error that `fail` writes before it exits with the code.
unfoldable pub fail_with : ℕ → String → String → List String → CliError
fail_with code kind text suggestions = record {
  code = code;
  kind = kind;
  text = text;
  recoverable = eqb code exit_relay_error || (leb 100 code && leb code 109);
  suggestions = suggestions;
}

-- defaultSuggestions
unfoldable pub default_suggestions : String → List String
default_suggestions kind =
    if kind == "unknown_target"
    then "remotecmd-cli list-targets" ∷ "remotecmd-cli add-target --name <n> --token <t>" ∷ []
    else if kind == "relay_unreachable"
    then "retry with backoff" ∷ "remotecmd-cli list-targets --refresh" ∷ []
    else if kind == "not_configured"
    then "remotecmd-cli set-relay --url <u> --name <n>" ∷ []
    else if kind == "auth_required"
    then "printf %s <secret> | remotecmd-cli set-relay --secret-stdin" ∷ []
    else []

-- failErrCode
unfoldable pub fail_code : ℕ → String → List String → CliError
unfolding fail_with default_suggestions
fail_code code msg [] =
    fail_with code (error_type code msg) msg (default_suggestions (error_type code msg))
fail_code code msg (s ∷ ss) = fail_with code (error_type code msg) msg (s ∷ ss)

-- failErr
unfoldable pub fail_err : String → List String → CliError
unfolding fail_code
fail_err msg suggestions = fail_code (classify_error (some msg)) msg suggestions
