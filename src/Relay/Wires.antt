-- ===== src/Relay/Wires.antt =====
-- What a send does to the wires of the connections (send of relay_client.go).
use remotecmd_cli.Prelude.{ℕ, ◌≡◌, ◌≢◌, String, none, some, List, [], ◌∷◌, ◌++◌, arith, eqb_refl}
use remotecmd_cli.Protocol.{Message}
use remotecmd_cli.Relay.Client.{Client, Packet, json, write}
use remotecmd_cli.Relay.State.{Relay, World, send, set_conn}

-- The frames that a connection was sent, oldest first.
abbrev pub wire : ℕ → Relay → List Packet
wire c s = (s.conns c).wire

pub conns-set_conn_self : (c : ℕ) (k : Client) (s : Relay) → (set_conn c k s).conns c ≡ k
unfolding set_conn
conns-set_conn_self c k s = rw (eqb_refl c)

module _ (w : World) (c : ℕ) (m : Message) (s : Relay) where
  pub wire-send : w.write_error s.writes ≡ none → wire c (send w c m s) ≡ wire c s ++ json m ∷ []
  unfolding send set_conn write
  wire-send ok = rw ok (ground arith)

  pub wire-send_fails :
      (e : String) → w.write_error s.writes ≡ some e → wire c (send w c m s) ≡ wire c s
  unfolding send set_conn write
  wire-send_fails e bad = rw bad (ground arith)

  pub wire-send_ne : (d : ℕ) → c ≢ d → wire d (send w c m s) ≡ wire d s
  unfolding send set_conn
  wire-send_ne d h = ground arith

  -- A failed write changes no wire.
  pub wire-send_lost :
      (d : ℕ) (e : String) → w.write_error s.writes ≡ some e → wire d (send w c m s) ≡ wire d s
  unfolding send set_conn write
  wire-send_lost d e bad = rw bad (ground arith)
