-- ===== src/Mcp/Json.antt =====
-- The JSON values that the server writes (`map[string]any` and the like in mcp.go), and what it uses of
-- encoding/json and of the formatting of texts, as parameters.
use remotecmd_cli.Prelude.{String, Bool, Option, List, [], ◌∷◌, ◌==◌, if◌then◌else◌}
use remotecmd_cli.Prelude.Int.{ℤ}

mutual
  pub data Json : Type 0 where
    null : Json
    boolean : Bool → Json
    number : ℤ → Json
    string : String → Json
    array : Items → Json
    object : Members → Json

  pub data Items : Type 0 where
    no_items : Items
    item : Json → Items → Items

  pub data Members : Type 0 where
    no_members : Members
    member : String → Json → Members → Members

abbrev pub strings : List String → Items
strings [] = no_items
strings (s ∷ ss) = item (string s) (strings ss)

-- fields[key] = value
abbrev pub set : Members → String → Json → Members
set no_members key value = member key value no_members
set (member name old rest) key value =
    let later = set rest key value in
    if name == key then member name value rest else member name old later

-- JSONRPCRequest. A raw value that the request does not have is empty.
pub record Request : Type 0 where
  pub id : String
  pub method : String
  pub params : String

-- mcpRequestMeta, less the client information, which nothing reads.
pub record RequestMeta : Type 0 where
  pub protocol_version : String
  pub client_capabilities : String

-- The parameters of tools/call.
pub record ToolCall : Type 0 where
  pub name : String
  pub arguments : String

pub record ExecParams : Type 0 where
  pub target : String
  pub command : String
  pub timeout : ℤ

pub record CpParams : Type 0 where
  pub target : String
  pub source : String
  pub destination : String

-- What json.Unmarshal makes of a raw value.
pub data Decoded {ℓ} (A : Type ℓ) : Type ℓ where
  decoded : A → Decoded A
  malformed : String → Decoded A

-- encoding/json, strings.TrimSpace and the verbs %q and %d of fmt, as the server calls them. A decoder
-- whose error text is not used gives an Option; `decode_wrapper` and `decode_hello` give the raw _meta
-- and the protocolVersion of a request's parameters, `decode_id` the null of an identifier that is no
-- JSON.
pub record Codec : Type 0 where
  pub trim : String → String
  pub decode_request : String → Option Request
  pub decode_id : String → Json
  pub decode_wrapper : String → Option String
  pub decode_meta : String → Option RequestMeta
  pub decode_hello : String → Option String
  pub decode_call : String → Option ToolCall
  pub decode_exec : String → Decoded ExecParams
  pub decode_cp : String → Decoded CpParams
  pub decode_health : String → Decoded String
  pub indent : Json → String
  pub quote : String → String
  pub decimal : ℤ → String
