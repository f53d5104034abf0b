-- ===== src/Examples/Batches.antt =====
-- The theorems on multi-target commands and on pairing, on one command to two targets and on one code.
use remotecmd_cli.Prelude.{
  String, true, none, some, [], ◌∷◌, ◌++◌, ◌≡◌, ◌≢◌, ◌↔◌, refl, inr, ◌==◌, eq_iff, arith,
}
use remotecmd_cli.Prelude.Int.{pos}
use remotecmd_cli.Dict
use remotecmd_cli.Dict.{Dict, get-put_self}
use remotecmd_cli.Protocol.{Header, Message, blank, flat}
use remotecmd_cli.Relay.Client.{fresh_client, json}
use remotecmd_cli.Relay.State.{Relay, World, MultiPendingEntry, PairListener, SubTargetInfo}
use remotecmd_cli.Relay.Wires.{wire}
use remotecmd_cli.Relay.Multi.{multi_timeout}
use remotecmd_cli.Relay.Pair.{handle_pair, pair_done, pair_confirmed}
use remotecmd_cli.Relay.Aggregate.{answer_of, verdict_at, multi_timeout_completes}
use remotecmd_cli.Relay.Pairing.{handle_pair_accepted}

abbrev calm : World
calm = record {
  new_id = λ n. "id";
  write_error = λ n. none;
  marshal = λ m. [];
  is_valid_key = λ k. k == "key";
}

-- A command to "web" and "db", of which "web" has answered.
abbrev half_done : MultiPendingEntry
half_done = record {
  client_conn = 1;
  client_id = "7";
  results = Dict.put Dict.empty "web" (flat (record blank { kind = "result"; stdout = "up" }));
  target_order = "web" ∷ "db" ∷ [];
  remaining = pos 1;
  timer = some (pos 35);
}

-- A listener that asks for an activation key.
abbrev guarded : PairListener
guarded = record { conn = 1; require_activation_key = true }

abbrev busy : Relay
busy = record {
  secret = "";
  secret_exempt = Dict.empty;
  clients = Dict.empty;
  pending = Dict.empty;
  pair_listeners = Dict.put Dict.empty "1234" guarded;
  multi_pending = Dict.put Dict.empty "m0" half_done;
  sub_to_multi = Dict.empty;
  tunnels = Dict.empty;
  conns = λ d. fresh_client;
  ids = 0;
  writes = 0;
}

half_done_found : Dict.get busy.multi_pending "m0" ≡ some half_done
half_done_found = get-put_self Dict.empty "m0" half_done

multi_timeout_completes_example :
    ((d : Dict Message) × ((t : String) → Dict.get d t ≡ verdict_at half_done t)
      × (wire 1 (multi_timeout calm "m0" busy) ≡ wire 1 busy ++ json (answer_of half_done d) ∷ []))
    × ((j : String) (info : SubTargetInfo)
        → (Dict.get (multi_timeout calm "m0" busy).sub_to_multi j ≡ some info)
          ↔ ((Dict.get busy.sub_to_multi j ≡ some info) × (info.multi_id ≢ "m0")))
    × (multi_timeout calm "m0" (multi_timeout calm "m0" busy) ≡ multi_timeout calm "m0" busy)
multi_timeout_completes_example =
    multi_timeout_completes calm "m0" half_done busy half_done_found refl

abbrev knock : Header
knock = record blank { kind = "pair"; code = "1234"; token = "tok"; activation_key = "key" }

abbrev intrusion : Header
intrusion = record knock { activation_key = "guess" }

code_differs : ◌≢◌ {A = String} "1234" ""
code_differs e = ground (arith, (eq_iff "1234" "").1 e)

token_differs : ◌≢◌ {A = String} "tok" ""
token_differs e = ground (arith, (eq_iff "tok" "").1 e)

key_differs : ◌≢◌ {A = String} "key" ""
key_differs e = ground (arith, (eq_iff "key" "").1 e)

handle_pair_accepted_example :
    (wire 1 (handle_pair calm 2 knock busy) ≡ wire 1 busy ++ json (pair_done knock) ∷ [])
    × (wire 2 (handle_pair calm 2 knock busy) ≡ wire 2 busy ++ json (pair_confirmed knock) ∷ [])
    × (Dict.get (handle_pair calm 2 knock busy).pair_listeners "1234" ≡ none)
    × (handle_pair calm 3 knock (handle_pair calm 2 knock busy) ≡ handle_pair calm 2 knock busy)
handle_pair_accepted_example =
    handle_pair_accepted calm 2 knock busy guarded code_differs token_differs
      (get-put_self Dict.empty "1234" guarded) 3 (inr (key_differs, refl)) (λ e. omega (arith, e))
      refl refl
