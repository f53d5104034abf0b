-- ===== src/Client/Multi.antt =====
-- One command on many targets (handleMultiExec in client.go): the printed table, and what becomes of the
-- results. A text of more than 60 bytes is cut at its 60th; where this is inside a character, the source
-- prints a part of it.
pub mod Outcome
use Prim.Native.String.{slice, len}
use remotecmd_cli.Prelude.{
  ℕ, String, ◌⧺◌, Bool, true, false, not, ◌&&◌, ◌||◌, Option, none, some, List, [], ◌∷◌, ◌==◌, ltb,
  if◌then◌else◌,
}
use remotecmd_cli.Prelude.Int.{ℤ}
use remotecmd_cli.Protocol.{Message, message, Header, header, Results, no_results, result}
use remotecmd_cli.Config.{Config}
use remotecmd_cli.Client.{
  Link, ClientError, targets_failed, Try, done, failed, Exchange, Resolved, resolve_relay_targets,
  multi_exec_raw,
}
use remotecmd_cli.Health.{Cache, note_daemon_version}
use remotecmd_cli.Health.Ping.{find_result, results_of, is_ok}

-- A row of the table.
pub record Row : Type 0 where
  pub target : String
  pub status : String
  pub text : String

abbrev pub shortened : String → String
shortened s = if ltb 60 (len s) then slice s 0 60 ⧺ "..." else s

abbrev pub failure_text : String → String
failure_text e = if e == "" then "unknown error" else e

abbrev pub row_of : String → Option Message → Row
row_of target none = record { target = target; status = "N/A"; text = "no result" }
row_of target (some m) =
    if is_ok (header m).ok
    then record { target = target; status = "OK"; text = shortened (header m).stdout }
    else record { target = target; status = "FAIL"; text = failure_text (header m).error }

abbrev pub fails : Option Message → Bool
fails none = true
fails (some m) = not (is_ok (header m).ok)

-- The loop over the targets: the rows, and hasFailure.
pub record Table : Type 0 where
  pub rows : List Row
  pub any_failed : Bool

unfoldable pub table_of : Results → List String → Table
unfolding find_result
table_of answers [] = record { rows = []; any_failed = false }
table_of answers (target ∷ targets) =
    let rest = table_of answers targets in
    let found = find_result answers target in
    record { rows = row_of target found ∷ rest.rows; any_failed = fails found || rest.any_failed }

abbrev noted_from : String → Option Message → Option Cache → Option Cache
noted_from alias none file = file
noted_from alias (some m) file = note_daemon_version alias (header m).daemon_version file

-- The loop that notes the versions.
unfoldable pub note_versions : List String → List String → Results → Option Cache → Option Cache
unfolding find_result
note_versions (alias ∷ aliases) (name ∷ names) answers file =
    note_versions aliases names answers (noted_from alias (find_result answers name) file)
note_versions _ _ answers file = file

-- What the user sees: the message as JSON, or the rows under the table's header.
pub data Display : Type 0 where
  nothing : Display
  json : Message → Display
  table : List Row → Display

pub record MultiExecuted : Type 0 where
  pub display : Display
  pub sent : List Message
  pub file : Option Cache
  pub error : Option ClientError

abbrev pub table_error : Bool → Option ClientError
table_error b = if b then some targets_failed else none

abbrev pub presented : String → List String → Message → Display × Option ClientError
presented format names m = if format == "json" then (json m, none) else (
  table (table_of (results_of m) names).rows,
  table_error (table_of (results_of m) names).any_failed,
)

abbrev pub multi_done :
    String → List String → Resolved → Option Cache → Exchange Message → MultiExecuted
multi_done format targets r file x = elim x.returned [
  | failed e ↦ record { display = nothing; sent = x.sent; file = file; error = some e }
  | done m ↦ record {
    display = (presented format r.names m).0;
    sent = x.sent;
    file = note_versions targets r.names (results_of m) file;
    error = (presented format r.names m).1;
  }
]

-- handleMultiExec; the configuration is read twice.
unfoldable pub handle_multi_exec :
    Try Config
    → Try Config
    → Link
    → Option Cache
    → List String
    → String
    → ℤ
    → String
    → MultiExecuted
unfolding table_of note_versions
handle_multi_exec config again link file targets cmd timeout format =
    elim (resolve_relay_targets config targets) [
      | failed e ↦ record { display = nothing; sent = []; file = file; error = some e }
      | done r ↦ multi_done format targets r file (multi_exec_raw again link r cmd timeout)
    ]
