-- ===== src/Protocol.antt =====
-- The wire messages of protocol.go: `Message` and its constructors.
-- A `Message` holds a map of messages (`Results`), so it is a mutual pair of data types, and the flat
-- fields are a record `Header`. A nil map and an empty map read alike and are both `Dict.empty`.
use Prim.Native.String.{slice, len}
use text.Mathlib.Text.{starts_with}
use remotecmd_cli.Prelude.{
  String, ◌⧺◌, ◌≡◌, refl, Bool, true, false, Option, none, some, List, [], eqb, if◌then◌else◌,
}
use remotecmd_cli.Prelude.Int.{ℤ, pos, negsuc}
use remotecmd_cli.Dict.{Dict}
use remotecmd_cli.Dict

pub record Header : Type 0 where
  pub kind : String
  pub id : String
  pub target : String
  pub token : String
  pub name : String
  pub cmd : String
  pub timeout : ℤ
  pub stream : Bool
  pub ok : Option Bool
  pub stdout : String
  pub stderr : String
  pub exit_code : ℤ
  pub duration_ms : ℤ
  pub error : String
  pub stream_name : String
  pub payload : String
  pub code : String
  pub hostname : String
  pub require_activation_key : Bool
  pub activation_key : String
  pub src_path : String
  pub dst_path : String
  pub content : String
  pub mode : String
  pub chunked : Bool
  pub seq : ℤ
  pub total_chunks : ℤ
  pub total_size : ℤ
  pub final : Bool
  pub chunk_size_bytes : ℤ
  pub parallel_streams : ℤ
  pub binary_chunk : Bool
  pub compressed : Bool
  pub stdin_data : String
  pub targets : List String
  pub tokens : Dict String
  pub parallel : ℤ
  pub tunnel_id : String
  pub remote_addr : String
  pub daemon_version : String

mutual
  pub data Message : Type 0 where
    message : Header → Results → Message

  pub data Results : Type 0 where
    no_results : Results
    result : String → Message → Results → Results

abbrev pub header : Message → Header
header (message h r) = h

-- The zero value of the struct.
abbrev pub blank : Header
blank = record {
  kind = "";
  id = "";
  target = "";
  token = "";
  name = "";
  cmd = "";
  timeout = pos 0;
  stream = false;
  ok = none;
  stdout = "";
  stderr = "";
  exit_code = pos 0;
  duration_ms = pos 0;
  error = "";
  stream_name = "";
  payload = "";
  code = "";
  hostname = "";
  require_activation_key = false;
  activation_key = "";
  src_path = "";
  dst_path = "";
  content = "";
  mode = "";
  chunked = false;
  seq = pos 0;
  total_chunks = pos 0;
  total_size = pos 0;
  final = false;
  chunk_size_bytes = pos 0;
  parallel_streams = pos 0;
  binary_chunk = false;
  compressed = false;
  stdin_data = "";
  targets = [];
  tokens = Dict.empty;
  parallel = pos 0;
  tunnel_id = "";
  remote_addr = "";
  daemon_version = "";
}

-- A message with no results map.
abbrev pub flat : Header → Message
flat h = message h no_results

-- errResult
unfoldable pub err_result : String → String → Message
err_result id msg = flat (record blank { kind = "result"; id = id; ok = some false; error = msg })

-- &Message{Type: "error", Error: text}
abbrev pub error_message : String → Message
error_message text = flat (record blank { kind = "error"; error = text })

-- okResult; the first argument is the process's `Version`.
unfoldable pub ok_result : String → String → String → String → ℤ → ℤ → Message
ok_result version id stdout stderr exit_code duration = flat (record blank {
  kind = "result";
  id = id;
  ok = some true;
  stdout = stdout;
  stderr = stderr;
  exit_code = exit_code;
  duration_ms = duration;
  daemon_version = version;
})

is_zero : ℤ → Bool
is_zero (pos n) = eqb n 0
is_zero (negsuc n) = false

-- streamEndOK
unfoldable pub stream_end_ok : String → String → ℤ → ℤ → Message
unfolding is_zero
stream_end_ok version id exit_code duration = flat (record blank {
  kind = "stream_end";
  id = id;
  ok = some (is_zero exit_code);
  exit_code = exit_code;
  duration_ms = duration;
  daemon_version = version;
})

-- streamEndErr
unfoldable pub stream_end_err : String → String → String → Message
stream_end_err version id text = flat (record blank {
  kind = "stream_end";
  id = id;
  ok = some false;
  error = text;
  daemon_version = version;
})

-- wsURL. A scheme that is not known gets ws:// in front of the whole text.
unfoldable pub ws_url : String → String
ws_url raw =
    if starts_with raw "http://"
    then "ws://" ⧺ slice raw 7 (len raw)
    else if starts_with raw "https://"
    then "wss://" ⧺ slice raw 8 (len raw)
    else if starts_with raw "ws://"
    then raw
    else if starts_with raw "wss://"
    then raw
    else "ws://" ⧺ raw

ws_url_tests :
    (ws_url "http://h:1" ≡ "ws://h:1")
    × (ws_url "https://h" ≡ "wss://h")
    × (ws_url "wss://h" ≡ "wss://h")
    × (ws_url "h" ≡ "ws://h")
unfolding ws_url
ws_url_tests = (refl, refl, refl, refl)
