-- ===== src/Examples/Cells.antt =====
-- The theorems on single chunks at the daemon, with one cell that writes to one open file.
use remotecmd_cli.Prelude.{String, Bool, true, false, some, [], ◌∷◌, ◌≡◌, refl, ap, length, arith}
use remotecmd_cli.Prelude.Int.{pos}
use remotecmd_cli.Dict
use remotecmd_cli.Dict.{get-put_self}
use remotecmd_cli.Protocol.{Header, blank}
use remotecmd_cli.Transfer.Disk.{refused, file_at, bytes_of}
use remotecmd_cli.Transfer.Receiver.{Daemon, Reassembly, Libraries, decoded, transfer_done}
use remotecmd_cli.Transfer.Arrival.{write_chunk_data, finish_reassembly}
use remotecmd_cli.Transfer.Parallel.{IsShared, IsStream, arrive_all, arrive_all-any_order}
use remotecmd_cli.Transfer.Gaps.{full_disk_succeeds}
use remotecmd_cli.Examples.Transfers.{libraries, idle}

abbrev cell : String → Bool → Reassembly
cell id parallel = record {
  mode = "scp";
  src = "a";
  dst = "/b";
  buf = [];
  id = id;
  seq = pos 0;
  final = true;
  writer = some 0;
  compressed = false;
  chunk_size_bytes = pos 2;
  parallel = parallel;
}

-- One open file "/b" of three bytes, and the same cell under every number.
abbrev busy : Reassembly → Daemon
busy r = record idle {
  reassembly = Dict.put Dict.empty "r1" 0;
  heap = λ p. r;
  allocated = 1;
  disk = record {
    content = Dict.put Dict.empty "/b" (0 ∷ 0 ∷ 0 ∷ []);
    handles = λ h. record { path = "/b"; offset = 0; is_open = true };
    opened = 1;
    ops = 0;
  };
}

abbrev full : Libraries
full = record libraries { fault = λ n. some refused }

abbrev base64 : Libraries
base64 = record libraries { decode_base64 = λ text. decoded (7 ∷ []) }

abbrev last_chunk : Header
last_chunk = record blank { id = "r1"; payload = "Bw=="; final = true }

full_disk_succeeds_example :
    (let after =
        finish_reassembly full 0 (write_chunk_data full 0 (7 ∷ []) (busy (cell "r1" false))) in
      (after.sent ≡ transfer_done full "r1" ∷ [])
      × (after.disk.content ≡ Dict.put Dict.empty "/b" (0 ∷ 0 ∷ 0 ∷ [])))
full_disk_succeeds_example =
    full_disk_succeeds full 0 0 (7 ∷ []) (busy (cell "r1" false)) refl refl refl

shared : IsShared 0 "/b" 3 (busy (cell "r1" true))
unfolding IsShared
shared = (refl, refl, ap (λ o. length (bytes_of o)) (get-put_self Dict.empty "/b" (0 ∷ 0 ∷ 0 ∷ [])))

stream : IsStream 0 2 0 (busy (cell "r1" true))
unfolding IsStream
stream = (refl, refl, refl)

arrive_all-any_order_example :
    file_at "/b"
      (arrive_all libraries 2 (7 ∷ 8 ∷ 9 ∷ []) ((0, 1) ∷ (0, 0) ∷ []) (busy (cell "r1" true))).disk
    ≡ 7 ∷ 8 ∷ 9 ∷ []
arrive_all-any_order_example =
    arrive_all-any_order libraries 0 2 "/b" (7 ∷ 8 ∷ 9 ∷ []) ((0, 1) ∷ (0, 0) ∷ [])
      (busy (cell "r1" true)) (λ n. refl) (omega arith) (omega arith) (omega arith) shared
      ((stream, omega arith), ((stream, omega arith), tt)) (λ k h. ground (arith, h))
