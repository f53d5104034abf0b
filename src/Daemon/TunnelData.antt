-- ===== src/Daemon/TunnelData.antt =====
-- What a tunnel of the daemon carries, and what it loses (tunnel_daemon.go).
use remotecmd_cli.Prelude.{
  ℕ, String, ◌≡◌, ◌≢◌, refl, sym, ap, ◌∙◌, true, false, Option, none, some, List, [], ◌∷◌, ◌++◌,
  arith, append_assoc, append_nil, eqb, eqb_refl, ◌==◌, eq_false, eq_iff, eq_refl, if_cases,
  Bool-cases, if◌then◌else◌, All, Option-cases, inl, inr,
}
use remotecmd_cli.Dict
use remotecmd_cli.Dict.{get-put_self, get-remove}
use remotecmd_cli.Protocol.{Header}
use remotecmd_cli.Daemon.Tunnels.{
  Tunnels, Network, dialled, announce, register_tunnel, handle_tunnel_data, close_tunnel,
  write_decoded, write_remote,
}

-- The messages of a tunnel, one after another.
unfoldable pub handle_all_data : Network → List Header → Tunnels → Tunnels
handle_all_data net [] s = s
handle_all_data net (h ∷ hs) s = handle_all_data net hs (handle_tunnel_data net h s)

abbrev pub bytes_or_none : Option (List ℕ) → List ℕ
bytes_or_none none = []
bytes_or_none (some bytes) = bytes

-- The bytes that some messages have for a tunnel; one that cannot be decoded has none.
unfoldable pub payloads : Network → String → List Header → List ℕ
payloads net id [] = []
payloads net id (h ∷ hs) =
    let rest = payloads net id hs in
    if h.tunnel_id == id then bytes_or_none (net.decode_base64 h.payload) ++ rest else rest

unregistered_data :
    (net : Network) (id : String) (hs : List Header) (s : Tunnels)
    → Dict.get s.active id ≡ none
    → All (λ h. h.tunnel_id ≡ id) hs
    → handle_all_data net hs s ≡ s
unfolding handle_all_data handle_tunnel_data
unregistered_data net id [] s missing all = refl
unregistered_data net id (h ∷ hs) s missing (same, all) =
    let none_here : Dict.get s.active h.tunnel_id ≡ none = ap (Dict.get s.active) same ∙ missing in
    let nothing : handle_tunnel_data net h s ≡ s = rw (none_here, handle_tunnel_data) refl in
    rw nothing (unregistered_data net id hs s missing all)

-- A tunnel is announced before it is registered: data that comes in between changes nothing, and the
-- connection, registered afterwards, has received none of it.
pub early_data_lost :
    (net : Network) (h : Header) (hs : List Header) (c : ℕ) (s : Tunnels)
    → Dict.get s.active h.tunnel_id ≡ none
    → All (λ data_message. data_message.tunnel_id ≡ h.tunnel_id) hs
    → (let announced = (announce h (dialled c) s).1 in
        let registered = register_tunnel h.tunnel_id c (handle_all_data net hs announced) in
        (Dict.get registered.active h.tunnel_id ≡ some c) × (registered.remotes c ≡ s.remotes c))
unfolding announce register_tunnel
early_data_lost net h hs c s missing all =
    let announced = (announce h (dialled c) s).1 in
    let lost = unregistered_data net h.tunnel_id hs announced missing all in
    rw lost (get-put_self s.active h.tunnel_id c, refl)

-- The tunnel `id` has the connection `c` for itself.
unfoldable pub Carries : String → ℕ → Tunnels → Type 0
Carries id c s =
    (Dict.get s.active id ≡ some c) × ((k : String) → Dict.get s.active k ≡ some c → k ≡ id)

-- The tunnel still has the connection, which has received nothing since.
Keeps : String → ℕ → Tunnels → Tunnels → Type 0
Keeps id c s s' = Carries id c s' × (s'.remotes c ≡ s.remotes c)

close_other :
    (id k : String) (c c' : ℕ) (s : Tunnels)
    → Carries id c s
    → Dict.get s.active k ≡ some c'
    → eqb c' c ≡ false
    → k ≢ id
    → Keeps id c s (close_tunnel k s)
unfolding close_tunnel Carries Keeps
close_other id k c c' s (known, alone) there differs other =
    rw (there, close_tunnel)
      (
        (
          ground (arith, get-remove s.active k id, eq_false k id other, known),
          λ j e. alone j (ground (arith, e, get-remove s.active k j)),
        ),
        rw differs refl,
      )

write_other :
    (net : Network) (id k : String) (c c' : ℕ) (bytes : List ℕ) (s : Tunnels)
    → Carries id c s
    → Dict.get s.active k ≡ some c'
    → eqb c' c ≡ false
    → k ≢ id
    → Keeps id c s (write_remote net k c' bytes s)
unfolding Keeps Carries
write_other net id k c c' bytes s carries there differs other =
    if_cases (Keeps id c s) (net.accepts c' bytes) _ _ (λ _. (carries, rw differs refl))
      λ _. close_other id k c c' s carries there differs other

-- A message of another tunnel changes neither the connection nor the entry of this one.
other_tunnel :
    (net : Network) (id : String) (c : ℕ) (h : Header) (s : Tunnels)
    → Carries id c s
    → h.tunnel_id ≢ id
    → Keeps id c s (handle_tunnel_data net h s)
unfolding handle_tunnel_data Carries Keeps
other_tunnel net id c h s (known, alone) other =
    elim (Option-cases (Dict.get s.active h.tunnel_id)) [
      | inl missing ↦ rw (missing, handle_tunnel_data) ((known, alone), refl)
      | inr (c', there) ↦
          let apart : c' ≡ c → ⊥ = λ same. other (alone h.tunnel_id (there ∙ ap some same)) in
          let differs : eqb c' c ≡ false = ground (arith, apart) in
          rw (there, handle_tunnel_data)
            (decoded_other (net.decode_base64 h.payload) c' there differs)
    ]
  where
    decoded_other :
        (o : Option (List ℕ)) (c' : ℕ)
        → Dict.get s.active h.tunnel_id ≡ some c'
        → eqb c' c ≡ false
        → Keeps id c s (write_decoded net h.tunnel_id c' o s)
    decoded_other none c' there differs = ((known, alone), refl)
    decoded_other (some bytes) c' there differs =
        write_other net id h.tunnel_id c c' bytes s (known, alone) there differs other

-- A message of the tunnel itself, where its connection takes all bytes.
own_data :
    (net : Network) (id : String) (c : ℕ) (h : Header) (s : Tunnels)
    → Carries id c s
    → h.tunnel_id ≡ id
    → ((bytes : List ℕ) → net.accepts c bytes ≡ true)
    → Carries id c (handle_tunnel_data net h s)
      × (((handle_tunnel_data net h s).remotes c).written
          ≡ (s.remotes c).written ++ bytes_or_none (net.decode_base64 h.payload))
unfolding handle_tunnel_data Carries
own_data net id c h s (known, alone) mine takes =
    let there : Dict.get s.active h.tunnel_id ≡ some c = ap (Dict.get s.active) mine ∙ known in
    rw (there, handle_tunnel_data) (own (net.decode_base64 h.payload))
  where
    own :
        (o : Option (List ℕ))
        → Carries id c (write_decoded net h.tunnel_id c o s)
          × (((write_decoded net h.tunnel_id c o s).remotes c).written
              ≡ (s.remotes c).written ++ bytes_or_none o)
    own none = ((known, alone), sym (append_nil (s.remotes c).written))
    own (some bytes) = rw (takes bytes) ((known, alone), rw (eqb_refl c) refl)

-- Where a tunnel has a connection of its own, which takes all bytes, the connection receives exactly the
-- decoded data of the tunnel's messages, in their order, whatever messages of other tunnels come in
-- between and whatever becomes of these; messages that cannot be decoded carry nothing.
pub handle_all_data-in_order :
    (net : Network) (id : String) (c : ℕ) (hs : List Header) (s : Tunnels)
    → Carries id c s
    → ((bytes : List ℕ) → net.accepts c bytes ≡ true)
    → ((handle_all_data net hs s).remotes c).written ≡ (s.remotes c).written ++ payloads net id hs
unfolding handle_all_data payloads Keeps
handle_all_data-in_order net id c [] s carries takes = sym (append_nil (s.remotes c).written)
handle_all_data-in_order net id c (h ∷ hs) s carries takes = elim (Bool-cases (h.tunnel_id == id)) [
  | inl same ↦
      let mine : h.tunnel_id ≡ id = ground (arith, same, eq_iff h.tunnel_id id) in
      let (carries', more) = own_data net id c h s carries mine takes in
      rw same (
        handle_all_data-in_order net id c hs (handle_tunnel_data net h s) carries' takes
        ∙ ap (λ bytes. bytes ++ payloads net id hs) more
        ∙ append_assoc (s.remotes c).written _ (payloads net id hs))
  | inr differs ↦
      let other : h.tunnel_id ≢ id = λ e. ground (arith, e, differs, eq_refl id) in
      let (carries', kept) = other_tunnel net id c h s carries other in
      rw differs (
        handle_all_data-in_order net id c hs (handle_tunnel_data net h s) carries' takes
        ∙ ap (λ r. r.written ++ payloads net id hs) kept)
]
