-- ===== src/Examples/Doors.antt =====
-- The theorems on the local end of a tunnel, on one tunnel.
use remotecmd_cli.Prelude.{ℕ, String, List, arith, ◌≡◌, refl, true, false, none, some, [], ◌∷◌}
use remotecmd_cli.Dict
use remotecmd_cli.Dict.{get-empty}
use remotecmd_cli.Protocol.{Message, blank, flat}
use remotecmd_cli.Daemon.Tunnels.{Network}
use remotecmd_cli.LocalTunnel.{ClientTunnel, confirm, drop_conn}
use remotecmd_cli.LocalTunnel.Loss.{After, round, replaced, IsGone, go_on, drop_conn-silences}
use remotecmd_cli.LocalTunnel.Opening.{read_all, first_data_lost}

abbrev net : Network
net = record {
  decode_base64 = λ s. some (83 ∷ 83 ∷ 72 ∷ []);
  encode_base64 = λ bytes. "U1NI";
  accepts = λ c bytes. true;
}

-- An open waits; the relay connection is number 7.
abbrev door : ClientTunnel
door = record {
  target_name = "db";
  remote_addr = "127.0.0.1:22";
  token = "secret";
  conn = some 7;
  pending = Dict.put Dict.empty "t1" none;
  active = Dict.empty;
  locals = λ l. record { written = []; is_open = true };
  wires = λ c. [];
}

abbrev opened : Message
opened = flat (record blank { kind = "tunnel_opened"; tunnel_id = "t1"; ok = some true })

abbrev banner : Message
banner = flat (record blank { kind = "tunnel_data"; tunnel_id = "t1"; payload = "U1NI" })

first_data_lost_example :
    (Dict.get (confirm "t1" 3 (some opened) (read_all net (opened ∷ banner ∷ []) door)).active "t1"
      ≡ some 3)
    × ((confirm "t1" 3 (some opened) (read_all net (opened ∷ banner ∷ []) door)).locals 3
        ≡ door.locals 3)
first_data_lost_example =
    first_data_lost net "t1" 3 opened (banner ∷ []) door refl refl (get-empty "t1")
      ((refl, refl), _)

-- The same client with an open tunnel.
abbrev busy : ClientTunnel
busy = record door { active = Dict.put Dict.empty "t1" 3 }

abbrev later : List After
later = round "t1" (9 ∷ []) false ∷ replaced 8 ∷ round "t1" [] true ∷ []

drop_conn-silences_example :
    ((id : String) (l : ℕ) → Dict.get busy.active id ≡ some l → IsGone id l (drop_conn 7 busy))
    × ((go_on net (λ c m. true) 7 later (drop_conn 7 busy)).wires ≡ busy.wires)
drop_conn-silences_example =
    drop_conn-silences net (λ c m. true) 7 later busy refl ((λ e. ground (arith, e)), tt)
