-- ===== src/Relay/Registry/Same.antt =====
-- States with the same `clients` map and the same names and tokens of all connections.
use remotecmd_cli.Prelude.{ℕ, suc, ◌≡◌, refl, ◌∙◌, String, Option, none, some, arith}
use remotecmd_cli.Protocol.{Message}
use remotecmd_cli.Relay.Client.{Client, json, write}
use remotecmd_cli.Relay.State.{Relay, World, send, set_conn}

abbrev pub SameRegistry : Relay → Relay → Type 0
SameRegistry s s' =
    (s'.clients ≡ s.clients)
    × ((t : ℕ) → (s'.conns t).token ≡ (s.conns t).token)
    × ((t : ℕ) → (s'.conns t).name ≡ (s.conns t).name)

pub same_refl : (s : Relay) → SameRegistry s s
same_refl s = (refl, λ t. refl, λ t. refl)

pub same_trans : (a b c : Relay) → SameRegistry a b → SameRegistry b c → SameRegistry a c
same_trans a b c p q = (q.0 ∙ p.0, λ t. q.1 t ∙ p.1 t, λ t. q.2 t ∙ p.2 t)

pub same_set_conn :
    (a : Relay) (c : ℕ) (k : Client) (s : Relay)
    → k.token ≡ (s.conns c).token
    → k.name ≡ (s.conns c).name
    → SameRegistry a s
    → SameRegistry a (set_conn c k s)
unfolding set_conn
same_set_conn a c k s ht hn p =
    (p.0, λ t. ground (arith, p.1 t, p.1 c), λ t. ground (arith, p.2 t, p.2 c))

token-write : (o : Option String) (m : Message) (c : Client) → (write o (json m) c).token ≡ c.token
unfolding write
token-write none m c = refl
token-write (some e) m c = refl

name-write : (o : Option String) (m : Message) (c : Client) → (write o (json m) c).name ≡ c.name
unfolding write
name-write none m c = refl
name-write (some e) m c = refl

pub same_send :
    (a : Relay) (w : World) (c : ℕ) (m : Message) (s : Relay)
    → SameRegistry a s
    → SameRegistry a (send w c m s)
unfolding send
same_send a w c m s p =
    same_set_conn a c (write (w.write_error s.writes) (json m) (s.conns c))
      (record s { writes = suc s.writes }) (token-write (w.write_error s.writes) m (s.conns c))
      (name-write (w.write_error s.writes) m (s.conns c)) p
