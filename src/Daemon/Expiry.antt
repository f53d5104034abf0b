-- ===== src/Daemon/Expiry.antt =====
-- The end of the pairing retries (pairRetryLoop of daemon.go).
use remotecmd_cli.Prelude.{
  ℕ, zero, suc, ◌+◌, ◌-◌, ◌*◌, ◌/◌, ◌≤◌, ◌<◌, ◌≡◌, refl, ap, sym, subst, ◌∙◌, Bool, true, false,
  arith, length, length-append, ltb, if◌then◌else◌, if_cases,
}
use remotecmd_cli.Prelude.Int.{ℤ, pos, negsuc, pos_part, leb_ℤ, ltb_ℤ, ◌+ℤ◌}
use remotecmd_cli.Daemon.Retry.{
  Round, Identity, End, Retries, out_of_fuel, stopped, expired, send_pair_if_needed, interval,
  pair_retry_loop, hour, minute, second,
}

-- How many rounds can follow at a time.
rounds_left : ℕ → ℕ
rounds_left elapsed =
    if ltb (24 * hour) elapsed
    then 0
    else if ltb elapsed (5 * minute)
    then (5 * minute - 1 - elapsed) / (15 * second) + 1 + 55 + 277
    else if ltb elapsed hour
    then (hour - 1 - elapsed) / minute + 1 + 277
    else (24 * hour - elapsed) / (5 * minute) + 1

rounds_left_down :
    (elapsed lag : ℕ)
    → ltb (24 * hour) elapsed ≡ false
    → suc (rounds_left (elapsed + interval (pos elapsed) + lag)) ≤ rounds_left elapsed
unfolding rounds_left interval
rounds_left_down elapsed lag h = ground (arith, h)

length-send_pair_if_needed : (me : Identity) (r : Round) → length (send_pair_if_needed me r) ≤ 1
unfolding send_pair_if_needed
length-send_pair_if_needed me r = ground arith

rounds_left_bound : (elapsed : ℕ) → rounds_left elapsed ≤ 352
unfolding rounds_left
rounds_left_bound elapsed = ground arith

-- The loop returned by itself.
abbrev pub has_ended : End → Bool
has_ended out_of_fuel = false
has_ended stopped = true
has_ended (expired deleted) = true

-- The clock is not set back in any round.
unfoldable pub IsSteady : (ℕ → Round) → Type 0
IsSteady rounds = (n : ℕ) → leb_ℤ (pos 0) (rounds n).drift ≡ true

pos_of : (z : ℤ) → leb_ℤ (pos 0) z ≡ true → z ≡ pos (pos_part z)
pos_of (pos n) h = refl
pos_of (negsuc n) h = ground (arith, h)

pos_add : (a b : ℕ) → pos a +ℤ pos b ≡ pos (a + b)
unfolding ◌+ℤ◌
pos_add a b = ground arith

-- The time that the next round finds.
next_elapsed :
    (e : ℕ) (drift : ℤ)
    → leb_ℤ (pos 0) drift ≡ true
    → pos e +ℤ pos (interval (pos e)) +ℤ drift ≡ pos (e + interval (pos e) + pos_part drift)
next_elapsed e drift steady =
    ap (λ d. pos e +ℤ pos (interval (pos e)) +ℤ d) (pos_of drift steady)
    ∙ ap (λ t. t +ℤ pos (pos_part drift)) (pos_add e (interval (pos e)))
    ∙ pos_add (e + interval (pos e)) (pos_part drift)

-- The loop has ended by itself, with a message at most for each round that can follow at `e`.
abbrev EndsIn : Retries → ℕ → Type 0
EndsIn out e = (has_ended out.end ≡ true) × (length out.sent ≤ rounds_left e)

pair_retry_loop-ends :
    (fuel : ℕ) (me : Identity) (rounds : ℕ → Round) (n e : ℕ)
    → IsSteady rounds
    → rounds_left e < fuel
    → EndsIn (pair_retry_loop fuel me rounds n (pos e)) e
unfolding pair_retry_loop IsSteady
pair_retry_loop-ends zero me rounds n e steady h = ground (arith, h)
pair_retry_loop-ends (suc fuel) me rounds n e steady h =
    if_cases Ended (ltb_ℤ (pos (24 * hour)) (pos e)) _ _ (λ _. (refl, omega arith))
      λ early.
        let r = rounds n in
        let lag = pos_part r.drift in
        let down = rounds_left_down e lag (ground (arith, early)) in
        let (ends, few) =
          subst
            (λ t. EndsIn (pair_retry_loop fuel me rounds (suc n) t) (e + interval (pos e) + lag))
            (sym (next_elapsed e r.drift (steady n)))
            (pair_retry_loop-ends fuel me rounds (suc n) (e + interval (pos e) + lag) steady
              (omega (arith, down, h))) in
        if_cases Ended r.stop _ _ (λ _. (refl, omega arith))
          λ _. (
            ends,
            omega (
              arith,
              length-append (send_pair_if_needed me r) _,
              length-send_pair_if_needed me r,
              few,
              down,
            ),
          )
  where
    Ended : Retries → Type 0
    Ended out = EndsIn out e

-- Where the pair code's file is not newer than the clock at the start, and the clock is not set back while
-- the loop runs, pairRetryLoop ends by itself, stopped or expired, within 353 rounds, and it sends at most
-- 352 pair messages, however long the rounds take.
pub pair_retry_loop_bound :
    (me : Identity) (rounds : ℕ → Round) (elapsed : ℤ)
    → leb_ℤ (pos 0) elapsed ≡ true
    → IsSteady rounds
    → (let out = pair_retry_loop 353 me rounds 0 elapsed in
        (has_ended out.end ≡ true) × (length out.sent ≤ 352))
pair_retry_loop_bound me rounds (negsuc n) past steady = ground (arith, past)
pair_retry_loop_bound me rounds (pos e) past steady =
    let bound = rounds_left_bound e in
    let (ends, few) = pair_retry_loop-ends 353 me rounds 0 e steady (omega (arith, bound)) in
    (ends, omega (arith, few, bound))
