-- ===== src/Session/Steps.antt =====
-- The states that a session can reach (client_session.go), and what is true of all of them.
use remotecmd_cli.Prelude.{
  ℕ, ◌<◌, ◌≡◌, sym, ap, ◌∙◌, ◌⊎◌, Bool-cases, String, Option, none, some, arith, ◌==◌, eq_iff,
  Option-cases, inl, inr,
}
use remotecmd_cli.Prelude.Int.{ℤ}
use remotecmd_cli.Dict
use remotecmd_cli.Dict.{Dict, get-empty, get-put, get-remove}
use remotecmd_cli.Protocol.{Message, header}
use remotecmd_cli.Config.{Config}
use remotecmd_cli.Session.{
  ClientSession, new_session, offer, drop_request, read_message, ask, after_ask, make_channel,
  await,
}

-- Every waiting request has a channel of its own, which is empty.
unfoldable pub IsOrderly : ClientSession → Type 0
IsOrderly s =
    ((id : String) (ch : ℕ) → Dict.get s.pending id ≡ some ch → (ch < s.made) × (s.boxes ch ≡ none))
    × ((id id' : String) (ch : ℕ)
        → Dict.get s.pending id ≡ some ch
        → Dict.get s.pending id' ≡ some ch
        → id ≡ id')

-- The steps of a session while its connection lives: requests, messages, the selects of requests.
pub data Step : ClientSession → ClientSession → Type 0 where
  asks :
      (cfg : Config) (id : String) (e : Option String) (target cmd : String) (timeout : ℤ)
      (s : ClientSession)
      → Step s (ask cfg id e target cmd timeout s).1
  reads : (m : Message) (s : ClientSession) → Step s (read_message m s)
  awaits : (id target : String) (ch : ℕ) (s : ClientSession) → Step s (await id target ch s).1

-- The states that new_session can come to.
pub data Reachable : ClientSession → Type 0 where
  fresh : Reachable new_session
  next : {s s' : ClientSession} → Reachable s → Step s s' → Reachable s'

drop_request-IsOrderly :
    (id : String) (s : ClientSession) → IsOrderly s → IsOrderly (drop_request id s)
unfolding IsOrderly
drop_request-IsOrderly id s (owns, apart) = (
  λ k ch e. owns k ch (ground (arith, e, get-remove s.pending id k)),
  λ k k' ch e e'.
      apart k k' ch (ground (arith, e, get-remove s.pending id k))
        (ground (arith, e', get-remove s.pending id k')),
)

-- A message for a channel that no request waits on any more.
offer-IsOrderly :
    (ch : ℕ) (m : Message) (s : ClientSession)
    → ((id : String) → Dict.get s.pending id ≡ some ch → ⊥)
    → IsOrderly s
    → IsOrderly (offer ch m s)
unfolding IsOrderly
offer-IsOrderly ch m s free (owns, apart) = (
  λ k c e.
      let (below, empty) = owns k c e in
      let other : ch ≡ c → ⊥ = λ same. free k (e ∙ ap some (sym same)) in
      (below, ground (arith, other, empty)),
  apart,
)

-- The entry of a channel is the new request's, or an older one.
made_or_old :
    (id k : String) (ch : ℕ) (s : ClientSession)
    → Dict.get (make_channel id s).pending k ≡ some ch
    → ((id ≡ k) × (s.made ≡ ch)) ⊎ (Dict.get s.pending k ≡ some ch)
made_or_old id k ch s e = elim (Bool-cases (id == k)) [
  | inl same ↦
      inl
        (ground (arith, eq_iff id k, same), ground (arith, e, same, get-put s.pending id k s.made))
  | inr other ↦ inr (ground (arith, e, other, get-put s.pending id k s.made))
]

make_channel-IsOrderly :
    (id : String) (s : ClientSession) → IsOrderly s → IsOrderly (make_channel id s)
unfolding IsOrderly
make_channel-IsOrderly id s (owns, apart) = (
  λ k c e. elim (made_or_old id k c s e) [
    | inl (same, new) ↦ (omega (arith, new), ground (arith, new))
    | inr old ↦ let (below, empty) = owns k c old in (omega (arith, below), ground (arith, empty))
  ],
  λ k k' c e e'. elim (made_or_old id k c s e) [
    | inl (same, new) ↦ elim (made_or_old id k' c s e') [
      | inl (same', new') ↦ sym same ∙ same'
      | inr old' ↦ let (below, empty) = owns k' c old' in ground (arith, new, below)
    ]
    | inr old ↦ elim (made_or_old id k' c s e') [
      | inl (same', new') ↦ let (below, empty) = owns k c old in ground (arith, new', below)
      | inr old' ↦ apart k k' c old old'
    ]
  ],
)

after_ask-IsOrderly :
    (id : String) (e : Option String) (m : Message) (s : ClientSession)
    → IsOrderly s
    → IsOrderly (after_ask id s.made e m (make_channel id s)).1
unfolding IsOrderly
after_ask-IsOrderly id none m s h = make_channel-IsOrderly id s h
after_ask-IsOrderly id (some why) m s h =
    drop_request-IsOrderly id (make_channel id s) (make_channel-IsOrderly id s h)

-- Once a request is forgotten, its channel is nobody's.
drop_frees :
    (id : String) (ch : ℕ) (s : ClientSession)
    → IsOrderly s
    → Dict.get s.pending id ≡ some ch
    → (k : String) → Dict.get (drop_request id s).pending k ≡ some ch
    → ⊥
unfolding IsOrderly
drop_frees id ch s (owns, apart) known k e =
    let found = get-remove s.pending id k in
    elim (Bool-cases (id == k)) [
      | inl same ↦ ground (arith, same, found, e)
      | inr other ↦
          let alike = apart id k ch known (ground (arith, other, found, e)) in
          ground (arith, other, alike, eq_iff id k)
    ]

read_message-IsOrderly :
    (m : Message) (s : ClientSession) → IsOrderly s → IsOrderly (read_message m s)
unfolding read_message
read_message-IsOrderly m s h = elim (Option-cases (Dict.get s.pending (header m).id)) [
  | inl missing ↦ rw (missing, read_message) h
  | inr (ch, known) ↦
      rw (known, read_message)
        (offer-IsOrderly ch m (drop_request (header m).id s) (drop_frees (header m).id ch s h known)
          (drop_request-IsOrderly (header m).id s h))
]

ask-IsOrderly :
    (cfg : Config) (id : String) (e : Option String) (target cmd : String) (timeout : ℤ)
    (s : ClientSession)
    → IsOrderly s
    → IsOrderly (ask cfg id e target cmd timeout s).1
unfolding ask
ask-IsOrderly cfg id e target cmd timeout s h = elim (Option-cases (Dict.get cfg.targets target)) [
  | inl missing ↦ rw (missing, ask) h
  | inr (tgt, known) ↦ rw (known, ask) (after_ask-IsOrderly id e _ s h)
]

await-IsOrderly :
    (id target : String) (ch : ℕ) (s : ClientSession)
    → IsOrderly s
    → IsOrderly (await id target ch s).1
unfolding await IsOrderly
await-IsOrderly id target ch s (owns, apart) = elim (Option-cases (s.boxes ch)) [
  | inl missing ↦ rw (missing, await) (drop_request-IsOrderly id s (owns, apart))
  | inr (m, there) ↦
      rw (there, await)
        (λ k c e. let (below, empty) = owns k c e in (below, ground (arith, empty)), apart)
]

Step-IsOrderly : {s s' : ClientSession} → Step s s' → IsOrderly s → IsOrderly s'
Step-IsOrderly (asks cfg id e target cmd timeout s) h =
    ask-IsOrderly cfg id e target cmd timeout s h
Step-IsOrderly (reads m s) h = read_message-IsOrderly m s h
Step-IsOrderly (awaits id target ch s) h = await-IsOrderly id target ch s h

-- In every state that a session can reach by requests, messages and selects, in any order, the requests
-- that wait have different channels, all made, and nothing lies in them.
pub Reachable-IsOrderly : {s : ClientSession} → Reachable s → IsOrderly s
unfolding IsOrderly new_session
Reachable-IsOrderly fresh = (
  λ id ch e. ground (arith, e, get-empty {V = ℕ} id),
  λ id id' ch e e'. ground (arith, e, get-empty {V = ℕ} id),
)
Reachable-IsOrderly (next before step) = Step-IsOrderly step (Reachable-IsOrderly before)
