-- ===== src/Relay/Authority/Writers.antt =====
-- The writer goroutine sends chunk frames only, never a request.
use remotecmd_cli.Prelude.{
  ℕ, ◌≡◌, refl, ◌∙◌, String, Bool, true, false, Option, none, some, List, [], ◌∷◌, arith, All,
  if◌then◌else◌, eqb,
}
use remotecmd_cli.Relay.Client.{
  Client, Packet, write, split_pair, frame_packets, write_packets, drain_frame, drain_queue, drain,
}
use remotecmd_cli.Relay.Authority.Base.{is_request, requests, requests-write}

abbrev AllQuiet : List Packet → Type 0
AllQuiet = All (λ p. is_request p ≡ false)

abbrev IsQuiet : Option (List Packet) → Type 0
IsQuiet none = Unit
IsQuiet (some ps) = AllQuiet ps

IsQuiet-if :
    (b : Bool) (x y : Option (List Packet)) → IsQuiet x → IsQuiet y → IsQuiet (if b then x else y)
IsQuiet-if true x y hx hy = hx
IsQuiet-if false x y hx hy = hy

split_pair-IsQuiet : (f : List ℕ) → IsQuiet (split_pair f)
unfolding split_pair is_request
split_pair-IsQuiet (a ∷ b ∷ c ∷ d ∷ rest) = ground arith
split_pair-IsQuiet _ = tt

frame_packets-IsQuiet : (f : List ℕ) → IsQuiet (frame_packets f)
unfolding frame_packets is_request
frame_packets-IsQuiet [] = (refl, tt)
frame_packets-IsQuiet (tag ∷ rest) =
    IsQuiet-if (eqb tag 2) _ _ (split_pair-IsQuiet rest)
      (IsQuiet-if (eqb tag 1) _ _ (refl, tt) (IsQuiet-if (eqb tag 0) _ _ (refl, tt) (refl, tt)))

requests-write_packets :
    (err next : Option String) (ps : List Packet) (c : Client)
    → AllQuiet ps
    → requests (write_packets err next ps c).wire ≡ requests c.wire
unfolding write_packets
requests-write_packets err next [] c h = refl
requests-write_packets none next (p ∷ ps) c (h, hs) =
    requests-write_packets next none ps (write none p c) hs ∙ requests-write none p c h
requests-write_packets (some e) next (p ∷ ps) c h = refl

-- The requests on a wire, where the round did not panic.
abbrev pub drained_requests : Client → Option Client → List Packet
drained_requests c none = requests c.wire
drained_requests c (some k) = requests k.wire

requests-drain_frame :
    (err next : Option String) (c : Client) (o : Option (List Packet))
    → IsQuiet o
    → drained_requests c (drain_frame err next c o) ≡ requests c.wire
unfolding drain_frame
requests-drain_frame err next c none h = refl
requests-drain_frame err next c (some ps) h = ground (arith, requests-write_packets err next ps c h)

requests-drain_queue :
    (err next : Option String) (c : Client) (q : List (List ℕ))
    → drained_requests c (drain_queue err next c q) ≡ requests c.wire
unfolding drain_queue
requests-drain_queue err next c [] = refl
requests-drain_queue err next c (f ∷ rest) =
    requests-drain_frame err next (record c { queued = rest }) (frame_packets f)
      (frame_packets-IsQuiet f)

pub requests-drain :
    (err next : Option String) (c : Client)
    → drained_requests c (drain err next c) ≡ requests c.wire
unfolding drain
requests-drain err next c = requests-drain_queue err next c c.queued
