-- ===== src/LocalTunnel/Opening.antt =====
-- What is lost and what is kept back at the local end of a tunnel (tunnel.go).
use remotecmd_cli.Prelude.{
  ℕ, ◌≡◌, refl, ap, ◌∙◌, String, true, none, some, List, [], ◌∷◌, All, ◌==◌, apart, Option-cases,
  inl, inr,
}
use remotecmd_cli.Dict
use remotecmd_cli.Dict.{Dict, get-put_self, get-remove_self}
use remotecmd_cli.Protocol.{Message, header}
use remotecmd_cli.Daemon.Tunnels.{Network}
use remotecmd_cli.LocalTunnel.{ClientTunnel, read_tunnel_message, deliver, offer_open, confirm}

-- Messages of readLoop, one after another.
unfoldable pub read_all : Network → List Message → ClientTunnel → ClientTunnel
read_all net [] s = s
read_all net (m ∷ ms) s = read_all net ms (read_tunnel_message net m s)

-- The message brings data for the tunnel.
abbrev pub IsDataFor : String → Message → Type 0
IsDataFor id m = (((header m).kind == "tunnel_data") ≡ true) × ((header m).tunnel_id ≡ id)

unregistered_data :
    (net : Network) (id : String) (m : Message) (s : ClientTunnel)
    → Dict.get s.active id ≡ none
    → IsDataFor id m
    → read_tunnel_message net m s ≡ s
unfolding read_tunnel_message
unregistered_data net id m s missing (kind, own) =
    let absent : Dict.get s.active (header m).tunnel_id ≡ none =
      ap (Dict.get s.active) own ∙ missing in
    rw (apart (header m).kind "tunnel_data" "tunnel_opened" refl kind, kind, absent, deliver) refl

unregistered_messages :
    (net : Network) (id : String) (ms : List Message) (s : ClientTunnel)
    → Dict.get s.active id ≡ none
    → All (IsDataFor id) ms
    → read_all net ms s ≡ s
unfolding read_all
unregistered_messages net id [] s missing all = refl
unregistered_messages net id (m ∷ ms) s missing (this, all) =
    ap (read_all net ms) (unregistered_data net id m s missing this)
    ∙ unregistered_messages net id ms s missing all

opened_keeps :
    (net : Network) (m : Message) (s : ClientTunnel)
    → ((header m).kind == "tunnel_opened") ≡ true
    → ((read_tunnel_message net m s).active ≡ s.active)
      × ((read_tunnel_message net m s).locals ≡ s.locals)
unfolding read_tunnel_message
opened_keeps net m s opened = elim (Option-cases (Dict.get s.pending (header m).tunnel_id)) [
  | inl missing ↦ rw (opened, missing, offer_open) (refl, refl)
  | inr (box, waits) ↦ rw (opened, waits, offer_open) (refl, refl)
]

-- The target's first words are lost: data that the read loop takes behind the confirmation of a tunnel, but
-- before the waiting goroutine registers the tunnel, is dropped. The tunnel is registered afterwards, and
-- its local connection has received none of it.
pub first_data_lost :
    (net : Network) (id : String) (l : ℕ) (opened : Message) (ms : List Message) (s : ClientTunnel)
    → ((header opened).kind == "tunnel_opened") ≡ true
    → (header opened).error ≡ ""
    → Dict.get s.active id ≡ none
    → All (IsDataFor id) ms
    → (Dict.get (confirm id l (some opened) (read_all net (opened ∷ ms) s)).active id ≡ some l)
      × ((confirm id l (some opened) (read_all net (opened ∷ ms) s)).locals l ≡ s.locals l)
unfolding confirm read_all
first_data_lost net id l opened ms s kind fine missing all =
    let told = read_tunnel_message net opened s in
    let (same_active, same_locals) = opened_keeps net opened s kind in
    let kept : read_all net ms told ≡ told =
      unregistered_messages net id ms told (ap (λ m. Dict.get m id) same_active ∙ missing) all in
    rw (fine, kept) (get-put_self told.active id l, ap (λ locals. locals l) same_locals)
