-- ===== src/Relay/State.antt =====
-- The relay's state (RelayServer in relay.go, tunnelSession in relay_tunnel.go), and how a handler
-- sends. A pointer to a connection is its number, and `conns` is the store that all maps share. A handler
-- runs as one step: what it does between two lock sections is not interleaved with other connections.
use remotecmd_cli.Prelude.{ℕ, suc, String, Bool, Option, List, eqb, if◌then◌else◌, ◌==◌}
use remotecmd_cli.Prelude.Int.{ℤ}
use remotecmd_cli.Dict.{Dict}
use remotecmd_cli.Dict
use remotecmd_cli.Protocol.{Message}
use remotecmd_cli.Relay.Client.{Client, json, fresh_client, write}

-- pendingRequest
pub record PendingRequest : Type 0 where
  pub server_id : String
  pub client_conn : ℕ

-- subTargetInfo
pub record SubTargetInfo : Type 0 where
  pub multi_id : String
  pub target_name : String

-- multiPendingEntry. `timer` holds the seconds that the timer was armed with.
pub record MultiPendingEntry : Type 0 where
  pub client_conn : ℕ
  pub client_id : String
  pub results : Dict Message
  pub target_order : List String
  pub remaining : ℤ
  pub timer : Option ℤ

-- pairListener
pub record PairListener : Type 0 where
  pub conn : ℕ
  pub require_activation_key : Bool

-- tunnelSession. Both connections are set whenever the relay makes one, so neither is an option.
pub record TunnelSession : Type 0 where
  pub client_conn : ℕ
  pub daemon_conn : ℕ

-- RelayServer, with the connections, and two counters that index the world's answers: how many
-- identifiers were drawn and how many writes were tried.
pub record Relay : Type 0 where
  pub secret : String
  pub secret_exempt : Dict Bool
  pub clients : Dict ℕ
  pub pending : Dict PendingRequest
  pub pair_listeners : Dict PairListener
  pub multi_pending : Dict MultiPendingEntry
  pub sub_to_multi : Dict SubTargetInfo
  pub tunnels : Dict TunnelSession
  pub conns : ℕ → Client
  pub ids : ℕ
  pub writes : ℕ

-- What the relay takes from outside: the identifiers of `newID` (crypto/rand), the outcome of each write
-- of the WebSocket library, json.Marshal, and whether the activation key store accepts a key.
pub record World : Type 0 where
  pub new_id : ℕ → String
  pub write_error : ℕ → Option String
  pub marshal : Message → List ℕ
  pub is_valid_key : String → Bool

-- NewRelayServer, with the secret of newRelayFromEnv.
unfoldable pub new_relay : String → Dict Bool → Relay
new_relay secret exempt = record {
  secret = secret;
  secret_exempt = exempt;
  clients = Dict.empty;
  pending = Dict.empty;
  pair_listeners = Dict.empty;
  multi_pending = Dict.empty;
  sub_to_multi = Dict.empty;
  tunnels = Dict.empty;
  conns = λ _. fresh_client;
  ids = 0;
  writes = 0;
}

-- A change of one connection's state.
unfoldable pub set_conn : ℕ → Client → Relay → Relay
set_conn c v s = record s { conns = λ d. if eqb c d then v else s.conns d }

-- c.send(msg): the state after it, and the error that it returns.
unfoldable pub send : World → ℕ → Message → Relay → Relay
unfolding set_conn
send w c m s =
    set_conn c (write (w.write_error s.writes) (json m) (s.conns c))
      (record s { writes = suc s.writes })

abbrev pub send_error : World → Relay → Option String
send_error w s = w.write_error s.writes

-- subtle.ConstantTimeCompare
abbrev pub token_equal : String → String → Bool
token_equal a b = a == b
