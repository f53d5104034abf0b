-- ===== src/Examples/Transfers.antt =====
-- The theorems on file transfers, on a file of three bytes. `gzip` puts one byte in front.
use remotecmd_cli.Prelude.{
  eqb, true, zero, suc, ◌<◌, ◌≤◌, ◌%◌, length, any, ℕ, ◌⧺◌, false, none, List, [], ◌∷◌, ◌≡◌, refl,
  arith,
}
use remotecmd_cli.Prelude.Int.{pos}
use remotecmd_cli.Dict
use remotecmd_cli.Protocol.{Header, blank}
use remotecmd_cli.Relay.Client.{ChunkRoute}
use remotecmd_cli.Transfer.Receiver.{Daemon, Libraries, decoded, rejected}
use remotecmd_cli.Transfer.Relayed.{Works}
use remotecmd_cli.Transfer.Sender.{Outside, send_file_frames, send_file_streaming}
use remotecmd_cli.Transfer.Splicing.{chunk_of}
use remotecmd_cli.Transfer.Streams.{send_stream}
use remotecmd_cli.Transfer.Sharing.{stream_chunks, stream_frames, send_stream_shares}
use remotecmd_cli.Transfer.Sending.{behind, IsClear}
use remotecmd_cli.Dict.{get-put_self}
use remotecmd_cli.Transfer.Delivery.{fresh_port}
use remotecmd_cli.Transfer.Restating.{restate}
use remotecmd_cli.Transfer.Chunk.{chunk_data}
use remotecmd_cli.Transfer.Streaming.{reader, send_file_streaming-send_file_frames}

abbrev tail_of : List ℕ → List ℕ
tail_of [] = []
tail_of (b ∷ bytes) = bytes

abbrev pub sender : Outside
sender = record { marshal = λ m. []; gzip = λ bytes. 31 ∷ bytes; write_error = λ n. none }

abbrev pub libraries : Libraries
libraries = record {
  version = "2.7.0";
  decode_base64 = λ text. rejected "not base64";
  gunzip_open = λ bytes. none;
  gunzip_read = λ bytes. decoded (tail_of bytes);
  untar = λ bytes. ([], none);
  join = λ dir name. dir ⧺ "/" ⧺ name;
  parent = λ path. "/";
  error_text = λ n. "no space left on device";
  fault = λ n. none;
}

abbrev pub idle : Daemon
idle = record {
  reassembly = Dict.empty;
  heap = λ p. record {
    mode = "";
    src = "";
    dst = "";
    buf = [];
    id = "";
    seq = pos 0;
    final = false;
    writer = none;
    compressed = false;
    chunk_size_bytes = pos 0;
    parallel = false;
  };
  allocated = 0;
  pending = none;
  disk = record {
    content = Dict.empty;
    handles = λ h. record { path = ""; offset = 0; is_open = false };
    opened = 0;
    ops = 0;
  };
  sent = [];
}

abbrev pub scp : Header
scp = record blank { id = "c1"; target = "t"; mode = "scp"; src_path = "a"; dst_path = "/b" }

abbrev pub route : ChunkRoute
route = record { target = 1; req_id = "r1" }

pub sender-IsClear : IsClear sender scp
unfolding IsClear
sender-IsClear = (λ n. refl, λ total size. refl, λ i final compressed. refl, λ bytes. omega arith)

pub sender-Works : Works sender libraries
unfolding Works
sender-Works = (λ n. refl, λ bytes. refl, λ bytes. refl)

send_file_streaming-send_file_frames_example :
    restate 2 (send_file_streaming sender scp (reader (7 ∷ 8 ∷ 9 ∷ [])) 3 2 fresh_port).1
    ≡ send_file_frames sender scp (7 ∷ 8 ∷ 9 ∷ []) 2 fresh_port
unfolding chunk_data
send_file_streaming-send_file_frames_example =
    send_file_streaming-send_file_frames sender scp 2 7 (8 ∷ 9 ∷ []) fresh_port (omega arith)
      (omega arith)

three_bytes : (k : ℕ) → k < 2 → 1 ≤ length (chunk_of 2 (7 ∷ 8 ∷ 9 ∷ []) k)
three_bytes zero h = omega arith
three_bytes (suc zero) h = omega arith
three_bytes (suc (suc k)) h = ground (arith, h)

send_stream_shares_example :
    ((s : ℕ)
      → send_stream 2 sender scp 2 2 2 (7 ∷ 8 ∷ 9 ∷ []) s fresh_port ≡ (
        none,
        behind (stream_frames sender scp 2 2 2 (7 ∷ 8 ∷ 9 ∷ []) (stream_chunks 2 2 2 s)) fresh_port,
      ))
    × ((k : ℕ) → k < 2 → (k % 2 < 2) × (any (eqb k) (stream_chunks 2 2 2 (k % 2)) ≡ true))
send_stream_shares_example =
    send_stream_shares sender scp 2 2 2 (7 ∷ 8 ∷ 9 ∷ []) fresh_port sender-IsClear (omega arith)
      three_bytes
