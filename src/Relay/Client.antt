-- ===== src/Relay/Client.antt =====
-- relay_client.go: one connection of the relay and its asynchronous write queue.
-- `wire` is what has been written to the socket, oldest first. A write that the WebSocket library fails
-- reports its error text; the caller passes in that outcome. The writer goroutine is the function
-- `drain`, one frame at a time. A frame is a list of bytes.
use remotecmd_cli.Prelude.{
  ℕ, ◌+◌, ◌*◌, ◌/◌, ◌%◌, ◌^◌, String, Bool, true, false, ◌&&◌, Option, none, some, List, [], ◌∷◌,
  ◌++◌, length, take, drop, ltb, leb, eqb, if◌then◌else◌, is_none,
}
use remotecmd_cli.Dict.{Dict}
use remotecmd_cli.Dict
use remotecmd_cli.Protocol.{Message}

-- A WebSocket frame: a JSON message, a text frame of marshalled bytes, or a binary frame.
pub data Packet : Type 0 where
  json : Message → Packet
  text : List ℕ → Packet
  binary : List ℕ → Packet

-- chunkRoute; connections are numbered.
pub record ChunkRoute : Type 0 where
  pub target : ℕ
  pub req_id : String

-- relayClient. `queued` is the content of the channel, `queue_open` says that `writeQueue` is not nil,
-- and `started` is `writeOnce`.
pub record Client : Type 0 where
  pub name : String
  pub token : String
  pub chunk_routes : Dict ChunkRoute
  pub last_binary_route : Option ChunkRoute
  pub queue_open : Bool
  pub started : Bool
  pub queued : List (List ℕ)
  pub write_err : Option String
  pub wire : List Packet

-- &relayClient{conn: conn, chunkRoutes: make(…)}
abbrev pub fresh_client : Client
fresh_client = record {
  name = "";
  token = "";
  chunk_routes = Dict.empty;
  last_binary_route = none;
  queue_open = false;
  started = false;
  queued = [];
  write_err = none;
  wire = [];
}

-- WriteMessage and WriteJSON: the packet goes out unless the write fails.
unfoldable pub write : Option String → Packet → Client → Client
write none p c = record c { wire = c.wire ++ p ∷ [] }
write (some e) p c = c

-- make(chan []byte, 128)
abbrev pub queue_capacity : ℕ
queue_capacity = 128

-- startWriter: only the first call of a connection's life has an effect.
unfoldable pub start_writer : Client → Client
start_writer c = if c.started then c else record c { started = true; queue_open = true }

-- closeWriter: the channel takes no more frames; what it holds is still drained.
unfoldable pub close_writer : Client → Client
close_writer c = record c { queue_open = false }

-- The frame that carries a header and a binary payload: [2][4-byte length][header][binary].
unfoldable pub pair_frame : List ℕ → List ℕ → List ℕ
pair_frame header payload =
    let hl = length header in
    2
    ∷ (hl / 2 ^ 24 % 256)
    ∷ (hl / 2 ^ 16 % 256)
    ∷ (hl / 2 ^ 8 % 256)
    ∷ (hl % 256)
    ∷ (header ++ payload)

-- The tail of a tagged frame split at the encoded header length; `none` where the slice would panic.
-- The four bytes are or-ed at disjoint bit positions, which is their sum.
unfoldable pub split_pair : List ℕ → Option (List Packet)
split_pair (a ∷ b ∷ c ∷ d ∷ rest) =
    let hl = a * 2 ^ 24 + b * 2 ^ 16 + c * 2 ^ 8 + d in
    if leb hl (length rest) then some (text (take hl rest) ∷ binary (drop hl rest) ∷ []) else none
split_pair _ = none

-- The packets that the writer goroutine writes for a frame; `none` is a panic.
unfoldable pub frame_packets : List ℕ → Option (List Packet)
unfolding split_pair
frame_packets [] = some (text [] ∷ [])
frame_packets (tag ∷ rest) =
    if eqb tag 2
    then split_pair rest
    else if eqb tag 1
    then some (binary rest ∷ [])
    else if eqb tag 0
    then some (text rest ∷ [])
    else some (text (tag ∷ rest) ∷ [])

-- The channel takes a frame if it is open and not full.
unfoldable pub has_room : Client → Bool
has_room c = c.queue_open && ltb (length c.queued) queue_capacity

abbrev pub enqueue : List ℕ → Client → Client
enqueue frame c = record c { queued = c.queued ++ frame ∷ [] }

-- sendRawBytes
unfoldable pub send_raw_bytes : Option String → List ℕ → Client → Option String × Client
unfolding has_room write
send_raw_bytes err bytes c =
    if has_room c then (c.write_err, enqueue (1 ∷ bytes) c) else (err, write err (binary bytes) c)

-- sendRawJSON
unfoldable pub send_raw_json : Option String → List ℕ → Client → Option String × Client
unfolding has_room write
send_raw_json err bytes c =
    if has_room c then (c.write_err, enqueue (0 ∷ bytes) c) else (err, write err (text bytes) c)

-- The synchronous path of sendRawHeaderAndBinary: the payload is not written if the header fails.
unfoldable pub write_pair :
    Option String → Option String → List ℕ → List ℕ → Client → Option String × Client
unfolding write
write_pair (some e) err header payload c = (some e, c)
write_pair none err header payload c =
    (err, write err (binary payload) (write none (text header) c))

-- sendRawHeaderAndBinary, with the outcomes of its two writes.
unfoldable pub send_header_and_binary :
    Option String → Option String → List ℕ → List ℕ → Client → Option String × Client
unfolding has_room write_pair
send_header_and_binary header_err payload_err header payload c =
    if has_room c
    then (c.write_err, enqueue (pair_frame header payload) c)
    else write_pair header_err payload_err header payload c

-- The writes of one frame (at most two), with their outcomes: the first error stops it and is kept in `write_err`.
unfoldable pub write_packets : Option String → Option String → List Packet → Client → Client
unfolding write
write_packets err next [] c = c
write_packets none next (p ∷ ps) c = write_packets next none ps (write none p c)
write_packets (some e) next (p ∷ ps) c = record c { write_err = some e }

-- One round of the writer goroutine. After an error the frames are taken and thrown away. `none` is a
-- panic.
unfoldable pub drain_frame :
    Option String → Option String → Client → Option (List Packet) → Option Client
unfolding write_packets
drain_frame err next c none = none
drain_frame err next c (some ps) =
    some (if is_none c.write_err then write_packets err next ps c else c)

unfoldable pub drain_queue : Option String → Option String → Client → List (List ℕ) → Option Client
unfolding drain_frame
drain_queue err next c [] = some c
drain_queue err next c (f ∷ rest) =
    drain_frame err next (record c { queued = rest }) (frame_packets f)

unfoldable pub drain : Option String → Option String → Client → Option Client
unfolding drain_queue
drain err next c = drain_queue err next c c.queued
