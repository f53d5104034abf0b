-- ===== src/Examples/Pipes.antt =====
-- The theorems on the daemon's tunnels, with two tunnels.
use remotecmd_cli.Prelude.{ℕ, String, true, eq_iff, ◌≡◌, refl, some, [], ◌∷◌, arith, eqb}
use remotecmd_cli.Dict
use remotecmd_cli.Dict.{get-put_self, get-put, get-empty}
use remotecmd_cli.Protocol.{Header, blank}
use remotecmd_cli.Daemon.Tunnels.{Tunnels, Network}
use remotecmd_cli.Daemon.TunnelData.{Carries, handle_all_data, payloads, handle_all_data-in_order}

abbrev net : Network
net = record {
  decode_base64 = λ text. some (7 ∷ []);
  encode_base64 = λ bytes. "Bw==";
  accepts = λ c bytes. eqb c 0;
}

abbrev quiet_daemon : Tunnels
quiet_daemon = record {
  active = Dict.empty;
  remotes = λ c. record { written = []; is_open = true };
  outgoing = [];
}

abbrev for_tunnel : String → Header
for_tunnel id = record blank { kind = "tunnel_data"; tunnel_id = id; payload = "Bw==" }

-- Tunnel "t1" on connection 0 and "t2" on connection 1, which takes nothing.
abbrev two_tunnels : Tunnels
two_tunnels = record quiet_daemon { active = Dict.put (Dict.put Dict.empty "t2" 1) "t1" 0 }

two_tunnels-Carries : Carries "t1" 0 two_tunnels
unfolding Carries
two_tunnels-Carries = (
  get-put_self (Dict.put Dict.empty "t2" 1) "t1" 0,
  λ k e. ground (
    arith,
    e,
    get-put {V = ℕ} (Dict.put Dict.empty "t2" 1) "t1" k 0,
    get-put {V = ℕ} Dict.empty "t2" k 1,
    get-empty {V = ℕ} k,
    eq_iff "t1" k,
  ),
)

handle_all_data-in_order_example :
    ((handle_all_data net
        (for_tunnel "t1" ∷ for_tunnel "t2" ∷ for_tunnel "t1" ∷ [])
        two_tunnels).remotes
      0).written
    ≡ payloads net "t1" (for_tunnel "t1" ∷ for_tunnel "t2" ∷ for_tunnel "t1" ∷ [])
handle_all_data-in_order_example =
    handle_all_data-in_order net "t1" 0 (for_tunnel "t1" ∷ for_tunnel "t2" ∷ for_tunnel "t1" ∷ [])
      two_tunnels two_tunnels-Carries (λ bytes. refl)
