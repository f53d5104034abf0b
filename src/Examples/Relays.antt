-- ===== src/Examples/Relays.antt =====
-- The relay's theorems on a relay with one daemon, "web", and one client.
use remotecmd_cli.Prelude.{
  ℕ, String, true, false, none, some, [], ◌∷◌, ◌++◌, ◌≡◌, ◌≢◌, refl, inl, inr, eqb, ◌==◌, eq_iff,
  arith, if◌then◌else◌,
}
use remotecmd_cli.Dict
use remotecmd_cli.Dict.{get-put_self, get-empty, get-put}
use remotecmd_cli.Protocol.{Header, Message, blank, flat}
use remotecmd_cli.Relay.Client.{fresh_client, json}
use remotecmd_cli.Relay.State.{Relay, World}
use remotecmd_cli.Relay.Chunks.{text_frame, read_error}
use remotecmd_cli.Relay.Forward.{command, handle_execute}
use remotecmd_cli.Relay.Results.{with_id, handle_result}
use remotecmd_cli.Relay.Serve.{Session, Server, Event, receives, step, unregister}
use remotecmd_cli.Relay.Wires.{wire}
use remotecmd_cli.Relay.Tunnel.{
  handle_tunnel_open, handle_tunnel_relay, handle_tunnel_close, tunnel_request, tunnel_closed,
}
use remotecmd_cli.Relay.Correlation.{IsReachable, execute_round_trip}
use remotecmd_cli.Relay.Refusals.{refusal}
use remotecmd_cli.Relay.Departure.{Forgets, unregister-Forgets}
use remotecmd_cli.Relay.Tunnels.{IsOpening, tunnel_life}
use remotecmd_cli.Relay.Authority.Base.{asked}
use remotecmd_cli.Relay.Authority.Gate.{Brings, requests_need_token}
use remotecmd_cli.Relay.Registry.Takeover.{NameOutcome, names_change_by_token}

-- Every write succeeds.
abbrev calm : World
calm = record {
  new_id = λ n. if eqb n 0 then "r0" else "r1";
  write_error = λ n. none;
  marshal = λ m. [];
  is_valid_key = λ k. k == "key";
}

-- The first write fails.
abbrev broken : World
broken = record calm { write_error = λ n. if eqb n 0 then some "broken pipe" else none }

-- The daemon is connection 2; connection 1 is a client.
abbrev two : Relay
two = record {
  secret = "";
  secret_exempt = Dict.empty;
  clients = Dict.put Dict.empty "web" 2;
  pending = Dict.empty;
  pair_listeners = Dict.empty;
  multi_pending = Dict.empty;
  sub_to_multi = Dict.empty;
  tunnels = Dict.empty;
  conns =
      λ d. if eqb d 2 then record fresh_client { name = "web"; token = "tok" } else fresh_client;
  ids = 0;
  writes = 0;
}

abbrev ls : Header
ls = record blank { kind = "execute"; id = "7"; target = "web"; token = "tok"; cmd = "ls" }

abbrev guess : Header
guess = record ls { token = "guess" }

abbrev listing : Message
listing = flat (record blank { kind = "result"; id = "r0"; stdout = "a.txt" })

abbrev anonymous : Session
anonymous = record { authenticated = true; registered = false; closed = false }

abbrev server : Server
server = record { relay = two; sessions = λ c. some anonymous }

web_differs : ◌≢◌ {A = String} "web" ""
web_differs e = ground (arith, (eq_iff "web" "").1 e)

ls-IsReachable : IsReachable ls 2 two
ls-IsReachable = record {
  named = web_differs;
  connected = get-put_self Dict.empty "web" 2;
  authorized = refl;
}

guess-Brings_nothing :
    ¬ Brings (receives 1 (text_frame (some (flat guess))) (read_error "eof")) 2 two
guess-Brings_nothing (inl e) = ground (arith, (eq_iff "guess" "tok").1 e)
guess-Brings_nothing (inr (name, e)) = ground (arith, get-empty {V = String} name)

requests_need_token_example :
    asked 2
      (step calm (receives 1 (text_frame (some (flat guess))) (read_error "eof")) server).relay
    ≡ asked 2 two
requests_need_token_example =
    requests_need_token calm 2 (receives 1 (text_frame (some (flat guess))) (read_error "eof"))
      anonymous server refl guess-Brings_nothing

abbrev takeover : Event
takeover =
    receives 3
      (text_frame (some (flat (record blank { kind = "register"; name = "web"; token = "tok" }))))
      (read_error "eof")

names_change_by_token_example : NameOutcome takeover "web" 2 "tok" (step calm takeover server).relay
names_change_by_token_example =
    names_change_by_token calm "web" 2 takeover server (get-put_self Dict.empty "web" 2)

execute_round_trip_example :
    (wire 2 (handle_execute calm 1 ls two) ≡ wire 2 two ++ json (command "r0" ls) ∷ [])
    × (wire 1 (handle_result calm listing (handle_execute calm 1 ls two))
        ≡ wire 1 (handle_execute calm 1 ls two) ++ json (with_id "7" listing) ∷ [])
    × (Dict.get (handle_result calm listing (handle_execute calm 1 ls two)).pending "r0" ≡ none)
    × (handle_result calm listing (handle_result calm listing (handle_execute calm 1 ls two))
        ≡ handle_result calm listing (handle_execute calm 1 ls two))
execute_round_trip_example =
    execute_round_trip calm 1 2 ls two ls-IsReachable refl listing refl (get-empty "r0") refl

unregister-Forgets_example : Forgets calm 2 two (unregister calm 2 two)
unregister-Forgets_example = unregister-Forgets calm 2 two

guess_refused : refusal guess two ≡ some "invalid token for target: web"
unfolding refusal
guess_refused = rw (get-put_self {V = ℕ} Dict.empty "web" 2)

abbrev open_ssh : Header
open_ssh = record blank {
  kind = "tunnel_open";
  target = "web";
  token = "tok";
  tunnel_id = "t1";
  remote_addr = "localhost:22";
}

abbrev ssh_data : Message
ssh_data = flat (record blank { kind = "tunnel_data"; tunnel_id = "t1"; payload = "aGk=" })

open_ssh-IsOpening : IsOpening open_ssh 2 two
open_ssh-IsOpening = record {
  reachable = record {
    named = web_differs;
    connected = get-put_self Dict.empty "web" 2;
    authorized = refl;
  };
  identified = λ e. ground (arith, (eq_iff "t1" "").1 e);
  addressed = λ e. ground (arith, (eq_iff "localhost:22" "").1 e);
}

abbrev ssh : Relay
ssh = handle_tunnel_open calm 1 open_ssh two

tunnel_life_example :
    (wire 2 ssh ≡ wire 2 two ++ json (tunnel_request open_ssh) ∷ [])
    × (wire 2 (handle_tunnel_relay calm 1 ssh_data ssh) ≡ wire 2 ssh ++ json ssh_data ∷ [])
    × (wire 1 (handle_tunnel_relay calm 2 ssh_data ssh) ≡ wire 1 ssh ++ json ssh_data ∷ [])
    × (wire 2 (handle_tunnel_close calm 1 open_ssh ssh)
        ≡ wire 2 ssh ++ json (tunnel_closed "t1") ∷ [])
    × (wire 1 (handle_tunnel_close calm 2 open_ssh ssh)
        ≡ wire 1 ssh ++ json (tunnel_closed "t1") ∷ [])
    × ((c e : ℕ)
        → handle_tunnel_relay calm e ssh_data (handle_tunnel_close calm c open_ssh ssh)
          ≡ handle_tunnel_close calm c open_ssh ssh)
tunnel_life_example =
    tunnel_life calm 1 2 open_ssh two open_ssh-IsOpening refl ssh_data open_ssh
      (λ e. omega (arith, e)) refl refl refl
