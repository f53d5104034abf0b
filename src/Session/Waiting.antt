-- ===== src/Session/Waiting.antt =====
-- A request of a session and its answer (client_session.go), with others in between.
use remotecmd_cli.Prelude.{
  ℕ, ◌≡◌, ◌≢◌, refl, ap, ◌∙◌, String, Option, none, some, arith, eqb_refl, eq_false, Option-cases,
  inl, inr,
}
use remotecmd_cli.Prelude.Int.{ℤ}
use remotecmd_cli.Dict
use remotecmd_cli.Dict.{get-remove_self, get-put, get-put_self, get-remove}
use remotecmd_cli.Protocol.{Message, header}
use remotecmd_cli.Config.{Config}
use remotecmd_cli.Session.{
  ClientSession, waits, answered, offer, drop_request, read_message, ask, after_ask, make_channel,
  await,
}
use remotecmd_cli.Session.Steps.{
  IsOrderly, Reachable, Reachable-IsOrderly, asks, reads, awaits, next,
}

-- The request `id` waits on channel `ch`.
Waits : String → ℕ → ClientSession → Type 0
Waits id ch s = Reachable s × (Dict.get s.pending id ≡ some ch)

-- Steps of other requests: none of them asks under the identifier, answers it, or gives it up.
pub data Others (id : String) : ClientSession → ClientSession → Type 0 where
  none_yet : (s : ClientSession) → Others id s s
  other_asks :
      {s s' : ClientSession} (cfg : Config) (k : String) (e : Option String) (target cmd : String)
      (timeout : ℤ)
      → k ≢ id
      → Others id s s'
      → Others id s (ask cfg k e target cmd timeout s').1
  other_reads :
      {s s' : ClientSession} (m : Message)
      → (header m).id ≢ id
      → Others id s s'
      → Others id s (read_message m s')
  other_awaits :
      {s s' : ClientSession} (k target : String) (ch : ℕ)
      → k ≢ id
      → Others id s s'
      → Others id s (await k target ch s').1

drop_other :
    (id k : String) (ch : ℕ) (s : ClientSession)
    → k ≢ id
    → Dict.get s.pending id ≡ some ch
    → Dict.get (drop_request k s).pending id ≡ some ch
drop_other id k ch s other known =
    ground (arith, get-remove s.pending k id, eq_false k id other, known)

ask_other :
    (id : String) (ch : ℕ) (cfg : Config) (k : String) (e : Option String) (target cmd : String)
    (timeout : ℤ) (s : ClientSession)
    → k ≢ id
    → Dict.get s.pending id ≡ some ch
    → Dict.get (ask cfg k e target cmd timeout s).1.pending id ≡ some ch
unfolding ask
ask_other id ch cfg k e target cmd timeout s other known =
    elim (Option-cases (Dict.get cfg.targets target)) [
      | inl missing ↦ rw (missing, ask) known
      | inr (tgt, there) ↦ rw (there, ask) (sent e _)
    ]
  where
    made : Dict.get (make_channel k s).pending id ≡ some ch
    made = ground (arith, get-put s.pending k id s.made, eq_false k id other, known)

    sent :
        (e : Option String) (m : Message)
        → Dict.get (after_ask k s.made e m (make_channel k s)).1.pending id ≡ some ch
    sent none m = made
    sent (some why) m = drop_other id k ch (make_channel k s) other made

read_other :
    (id : String) (ch : ℕ) (m : Message) (s : ClientSession)
    → (header m).id ≢ id
    → Dict.get s.pending id ≡ some ch
    → Dict.get (read_message m s).pending id ≡ some ch
unfolding read_message
read_other id ch m s other known = elim (Option-cases (Dict.get s.pending (header m).id)) [
  | inl missing ↦ rw (missing, read_message) known
  | inr (c, there) ↦ rw (there, read_message) (drop_other id (header m).id ch s other known)
]

await_other :
    (id : String) (ch : ℕ) (k target : String) (c : ℕ) (s : ClientSession)
    → k ≢ id
    → Dict.get s.pending id ≡ some ch
    → Dict.get (await k target c s).1.pending id ≡ some ch
unfolding await
await_other id ch k target c s other known = elim (Option-cases (s.boxes c)) [
  | inl missing ↦ rw (missing, await) (drop_other id k ch s other known)
  | inr (m, there) ↦ rw (there, await) known
]

Others-Waits :
    {id : String} {s s' : ClientSession} (ch : ℕ) → Others id s s' → Waits id ch s → Waits id ch s'
unfolding Waits
Others-Waits {id} ch (none_yet s) h = h
Others-Waits {id} ch (other_asks {s} {s'} cfg k e target cmd timeout other before) h =
    let (reached, known) = Others-Waits ch before h in
    (
      next reached (asks cfg k e target cmd timeout s'),
      ask_other id ch cfg k e target cmd timeout s' other known,
    )
Others-Waits {id} ch (other_reads {s} {s'} m other before) h =
    let (reached, known) = Others-Waits ch before h in
    (next reached (reads m s'), read_other id ch m s' other known)
Others-Waits {id} ch (other_awaits {s} {s'} k target c other before) h =
    let (reached, known) = Others-Waits ch before h in
    (next reached (awaits k target c s'), await_other id ch k target c s' other known)

after_ask-waits :
    (id : String) (e : Option String) (q : Message) (s : ClientSession) (ch : ℕ)
    → (after_ask id s.made e q (make_channel id s)).0 ≡ waits ch
    → Dict.get (after_ask id s.made e q (make_channel id s)).1.pending id ≡ some ch
after_ask-waits id none q s ch h =
    let new : s.made ≡ ch = ground (arith, h) in get-put_self s.pending id s.made ∙ ap some new
after_ask-waits id (some why) q s ch h = ground (arith, h)

ask-waits :
    (cfg : Config) (id : String) (e : Option String) (target cmd : String) (timeout : ℤ)
    (s : ClientSession) (ch : ℕ)
    → (ask cfg id e target cmd timeout s).0 ≡ waits ch
    → Dict.get (ask cfg id e target cmd timeout s).1.pending id ≡ some ch
unfolding ask
ask-waits cfg id e target cmd timeout s ch = elim (Option-cases (Dict.get cfg.targets target)) [
  | inl missing ↦ rw (missing, ask) (λ h. ground (arith, h))
  | inr (tgt, known) ↦ rw (known, ask) (after_ask-waits id e _ s ch)
]

-- A request of a session that any requests, messages and selects came before, and that was sent, waits on
-- a channel; whatever other requests are then asked, answered and given up, the first message with its
-- identifier is what Exec returns, and after it the identifier is free.
pub exec_answered :
    (cfg : Config) (id : String) (e : Option String) (target cmd : String) (timeout : ℤ)
    (s s' : ClientSession) (ch : ℕ) (m : Message)
    → Reachable s
    → (ask cfg id e target cmd timeout s).0 ≡ waits ch
    → Others id (ask cfg id e target cmd timeout s).1 s'
    → (header m).id ≡ id
    → ((await id target ch (read_message m s')).0 ≡ answered m)
      × (Dict.get (read_message m s').pending id ≡ none)
unfolding Waits IsOrderly read_message await
exec_answered cfg id e target cmd timeout s s' ch m reached waiting others named =
    let after = next reached (asks cfg id e target cmd timeout s) in
    let (reached', known) =
      Others-Waits ch others (after, ask-waits cfg id e target cmd timeout s ch waiting) in
    let (below, empty) = (Reachable-IsOrderly reached').0 id ch known in
    let taken : read_message m s' ≡ offer ch m (drop_request id s') =
      rw (named, known, read_message, named) refl in
    rw taken (rw (eqb_refl ch, empty, await) refl, get-remove_self s'.pending id)
