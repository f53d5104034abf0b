-- ===== src/LocalTunnel/Loss.antt =====
-- What the loss of the relay connection does to the local connections of a tunnel (dropConn of tunnel.go).
use remotecmd_cli.Prelude.{
  ℕ, ◌≡◌, ◌≢◌, refl, ap, ◌∙◌, String, Bool, true, false, Option, none, some, List, [], ◌∷◌, arith,
  ◌==◌, eqb_refl, if◌then◌else◌, sym, subst, eq_iff, Bool-cases, Option-cases, inl, inr,
}
use remotecmd_cli.Dict
use remotecmd_cli.Dict.{Dict, entries, is_listed, entries-is_listed, get-remove, get-remove_self}
use remotecmd_cli.Protocol.{Message, blank, flat}
use remotecmd_cli.Daemon.Tunnels.{Network}
use remotecmd_cli.LocalTunnel.{
  ClientTunnel, Writes, close_client_tunnel, close_each, fail_each, offer_open, drop_conn,
  is_current, set_relay_conn, pipe_round, send_on, end_round, finish_pipe,
}

-- The tunnel is forgotten, and its local connection closed.
abbrev pub IsGone : String → ℕ → ClientTunnel → Type 0
IsGone id l s = (Dict.get s.active id ≡ none) × ((s.locals l).is_open ≡ false)

module _ (id : String) (l : ℕ) where
  close-IsGone :
      (k : String) (s : ClientTunnel) → IsGone id l s → IsGone id l (close_client_tunnel k s)
  unfolding close_client_tunnel
  close-IsGone k s gone = elim (Option-cases (Dict.get s.active k)) [
    | inl missing ↦ rw (missing, close_client_tunnel) gone
    | inr (l', there) ↦
        rw (there, close_client_tunnel)
          (ground (arith, get-remove s.active k id, gone.0), ground (arith, gone.1))
  ]

  close_self-IsGone :
      (s : ClientTunnel) → Dict.get s.active id ≡ some l → IsGone id l (close_client_tunnel id s)
  unfolding close_client_tunnel
  close_self-IsGone s there =
      rw (there, close_client_tunnel) (get-remove_self s.active id, ground arith)

  close_other :
      (k : String) (s : ClientTunnel)
      → (k == id) ≡ false
      → Dict.get (close_client_tunnel k s).active id ≡ Dict.get s.active id
  unfolding close_client_tunnel
  close_other k s other = elim (Option-cases (Dict.get s.active k)) [
    | inl missing ↦ rw (missing, close_client_tunnel) refl
    | inr (l', there) ↦
        rw (there, close_client_tunnel) (ground (arith, get-remove s.active k id, other))
  ]

  close_each-IsGone :
      (es : List (String × ℕ)) (s : ClientTunnel) → IsGone id l s → IsGone id l (close_each es s)
  unfolding close_each
  close_each-IsGone [] s gone = gone
  close_each-IsGone ((k, l') ∷ es) s gone = close_each-IsGone es _ (close-IsGone k s gone)

  close_each-closes :
      (es : List (String × ℕ)) (s : ClientTunnel)
      → is_listed id es ≡ true
      → Dict.get s.active id ≡ some l
      → IsGone id l (close_each es s)
  unfolding close_each
  close_each-closes [] s listed there = ground (arith, listed)
  close_each-closes ((k, l') ∷ es) s listed there = elim (Bool-cases (k == id)) [
    | inl same ↦
        subst (λ j. IsGone id l (close_each es (close_client_tunnel j s)))
          (sym ((eq_iff k id).0 same)) (close_each-IsGone es _ (close_self-IsGone s there))
    | inr other ↦
        close_each-closes es (close_client_tunnel k s) (ground (arith, listed, other))
          (close_other k s other ∙ there)
  ]

-- The tunnels, the local connections and the relay connection are the same.
IsAlike : ClientTunnel → ClientTunnel → Type 0
IsAlike s s' =
    (s.active ≡ s'.active) × (s.locals ≡ s'.locals) × (s.conn ≡ s'.conn) × (s.wires ≡ s'.wires)

offer_open-IsAlike : (id : String) (m : Message) (s : ClientTunnel) → IsAlike (offer_open id m s) s
unfolding IsAlike
offer_open-IsAlike id m s = elim (Option-cases (Dict.get s.pending id)) [
  | inl missing ↦ rw (missing, offer_open) (refl, refl, refl, refl)
  | inr (box, there) ↦ rw (there, offer_open) (refl, refl, refl, refl)
]

fail_each-IsAlike :
    (es : List (String × Option Message)) (s : ClientTunnel) → IsAlike (fail_each es s) s
unfolding fail_each IsAlike
fail_each-IsAlike [] s = (refl, refl, refl, refl)
fail_each-IsAlike ((id, box) ∷ es) s =
    let s' = offer_open id (flat (record blank { error = "relay connection lost" })) s in
    let (a, b, c, d) = fail_each-IsAlike es s' in
    let (a', b', c', d') = offer_open-IsAlike id _ s in (a ∙ a', b ∙ b', c ∙ c', d ∙ d')

close-conn :
    (k : String) (s : ClientTunnel)
    → ((close_client_tunnel k s).conn ≡ s.conn) × ((close_client_tunnel k s).wires ≡ s.wires)
unfolding close_client_tunnel
close-conn k s = elim (Option-cases (Dict.get s.active k)) [
  | inl missing ↦ rw (missing, close_client_tunnel) (refl, refl)
  | inr (l, there) ↦ rw (there, close_client_tunnel) (refl, refl)
]

close_each-conn :
    (es : List (String × ℕ)) (s : ClientTunnel)
    → ((close_each es s).conn ≡ s.conn) × ((close_each es s).wires ≡ s.wires)
unfolding close_each
close_each-conn [] s = (refl, refl)
close_each-conn ((k, l) ∷ es) s =
    let (a, b) = close_each-conn es (close_client_tunnel k s) in
    let (a', b') = close-conn k s in (a ∙ a', b ∙ b')

-- What comes behind a loss: a round of a pipe, of any tunnel, that was opened on the lost connection, or
-- another connection in its place.
pub data After : Type 0 where
  round : String → List ℕ → Bool → After
  replaced : ℕ → After

-- The replacements are other connections.
abbrev pub AreOthers : ℕ → List After → Type 0
AreOthers c [] = Unit
AreOthers c (round id bytes ends ∷ es) = AreOthers c es
AreOthers c (replaced d ∷ es) = (d ≢ c) × AreOthers c es

unfoldable pub go_on : Network → Writes → ℕ → List After → ClientTunnel → ClientTunnel
go_on net writes c [] s = s
go_on net writes c (round id bytes ends ∷ es) s =
    go_on net writes c es (pipe_round net writes c id bytes ends s)
go_on net writes c (replaced d ∷ es) s = go_on net writes c es (set_relay_conn d s)

-- The relay connection `c` is not the current one.
abbrev IsLost : ℕ → ClientTunnel → Type 0
IsLost c s = is_current s.conn c ≡ false

finish-keeps :
    (id : String) (s : ClientTunnel)
    → ((finish_pipe id s).conn ≡ s.conn) × ((finish_pipe id s).wires ≡ s.wires)
finish-keeps id s = close-conn id s

send_on-lost :
    (writes : Writes) (c : ℕ) (m : Message) (s : ClientTunnel)
    → IsLost c s
    → send_on writes c m s ≡ (false, s)
unfolding send_on
send_on-lost writes c m s lost = rw lost refl

round-keeps :
    (net : Network) (writes : Writes) (c : ℕ) (id : String) (bytes : List ℕ) (ends : Bool)
    (s : ClientTunnel)
    → IsLost c s
    → (let s' = pipe_round net writes c id bytes ends s in
        (s'.conn ≡ s.conn) × (s'.wires ≡ s.wires))
unfolding pipe_round
round-keeps net writes c id [] true s lost = rw (send_on-lost writes c _ s lost) (finish-keeps id s)
round-keeps net writes c id [] false s lost = (refl, refl)
round-keeps net writes c id (b ∷ bytes) ends s lost =
    rw (send_on-lost writes c _ s lost, end_round) (finish-keeps id s)

go_on-silent :
    (net : Network) (writes : Writes) (c : ℕ) (es : List After) (s : ClientTunnel)
    → IsLost c s
    → AreOthers c es
    → (go_on net writes c es s).wires ≡ s.wires
unfolding go_on set_relay_conn
go_on-silent net writes c [] s lost others = refl
go_on-silent net writes c (round id bytes ends ∷ es) s lost others =
    let (same, quiet) = round-keeps net writes c id bytes ends s lost in
    go_on-silent net writes c es _ (ap (λ o. is_current o c) same ∙ lost) others ∙ quiet
go_on-silent net writes c (replaced d ∷ es) s lost (other, others) =
    go_on-silent net writes c es _ (ground (arith, other)) others

-- When a tunnel's client drops its relay connection, every local connection that was registered is closed
-- and its tunnel forgotten; and whatever the pipes that were opened on the dropped connection still read,
-- and whichever other connections take its place in between, they write on no relay connection.
pub drop_conn-silences :
    (net : Network) (writes : Writes) (c : ℕ) (es : List After) (s : ClientTunnel)
    → s.conn ≡ some c
    → AreOthers c es
    → ((id : String) (l : ℕ) → Dict.get s.active id ≡ some l → IsGone id l (drop_conn c s))
      × ((go_on net writes c es (drop_conn c s)).wires ≡ s.wires)
unfolding drop_conn IsAlike
drop_conn-silences net writes c es s current others =
    let lost = record s { conn = none } in
    let closed = close_each (entries s.active) lost in
    let dropped = fail_each (entries closed.pending) closed in
    let step : drop_conn c s ≡ dropped =
      ap
        (λ b.
          let r = close_each (entries s.active) (if b then lost else s) in
          fail_each (entries r.pending) r)
        (ap (λ o. is_current o c) current ∙ eqb_refl c) in
    let (active, locals, conn, wires) = fail_each-IsAlike (entries closed.pending) closed in
    let (conn', wires') = close_each-conn (entries s.active) lost in
    (
      λ id l there.
          let (gone, shut) =
            close_each-closes id l (entries s.active) lost (entries-is_listed s.active id l there)
              there in
          subst (IsGone id l) (sym step)
            (ap (λ m. Dict.get m id) active ∙ gone, ap (λ ls. (ls l).is_open) locals ∙ shut),
      ap (λ d. (go_on net writes c es d).wires) step
          ∙ go_on-silent net writes c es dropped (ap (λ o. is_current o c) (conn ∙ conn')) others
          ∙ wires
          ∙ wires',
    )
