-- ===== src/Daemon/Retry.antt =====
-- Pairing at the daemon (daemon.go): sendPairIfNeeded and pairRetryLoop. The clock is in nanoseconds, as
-- in time.Duration, and what it does between two rounds is a parameter of each round. It may be set back, and
-- the start (the time of the pair code's file) may be in the future: the time since then is signed.
use remotecmd_cli.Prelude.{
  ℕ, zero, suc, ◌*◌, String, Bool, not, List, [], ◌∷◌, ◌++◌, ◌==◌, if◌then◌else◌,
}
use remotecmd_cli.Prelude.Int.{ℤ, pos, ltb_ℤ, ◌+ℤ◌}
use remotecmd_cli.Protocol.{Message, blank, flat}

-- What a round finds: by how much more than its interval the clock moves, which is negative where the clock
-- is set back; whether the connection ends while it waits; and the files of the pair code ("" where it is
-- missing or cannot be read) and the activation key.
pub record Round : Type 0 where
  pub drift : ℤ
  pub stop : Bool
  pub code : String
  pub activation_key : String

-- The daemon's name and token.
pub record Identity : Type 0 where
  pub name : String
  pub token : String

-- How the loop ends; `deleted` says that a code was there and was removed.
pub data End : Type 0 where
  out_of_fuel : End
  stopped : End
  expired : Bool → End

-- Times in nanoseconds.
abbrev pub second : ℕ
second = 1000000000

abbrev pub minute : ℕ
minute = 60000000000

abbrev pub hour : ℕ
hour = 3600000000000

-- sendPairIfNeeded
unfoldable pub send_pair_if_needed : Identity → Round → List Message
send_pair_if_needed me r =
    if r.code == ""
    then []
    else flat (record blank {
      kind = "pair";
      code = r.code;
      token = me.token;
      hostname = me.name;
      activation_key = r.activation_key;
    })
      ∷ []

-- The interval by the time that has passed.
unfoldable pub interval : ℤ → ℕ
interval elapsed =
    if ltb_ℤ elapsed (pos (5 * minute))
    then 15 * second
    else if ltb_ℤ elapsed (pos hour)
    then minute
    else 5 * minute

-- The messages of a loop, with its end.
pub record Retries : Type 0 where
  pub sent : List Message
  pub end : End

abbrev pub after_send : List Message → Retries → Retries
after_send ms rest = record rest { sent = ms ++ rest.sent }

-- pairRetryLoop from round `n`, on fuel, where time.Since(start) is `elapsed`.
unfoldable pub pair_retry_loop : ℕ → Identity → (ℕ → Round) → ℕ → ℤ → Retries
unfolding send_pair_if_needed interval
pair_retry_loop zero me rounds n elapsed = record { sent = []; end = out_of_fuel }
pair_retry_loop (suc fuel) me rounds n elapsed =
    let r = rounds n in
    let rest =
      pair_retry_loop fuel me rounds (suc n) (elapsed +ℤ pos (interval elapsed) +ℤ r.drift) in
    if ltb_ℤ (pos (24 * hour)) elapsed
    then record { sent = []; end = expired (not (r.code == "")) }
    else if r.stop
    then record { sent = []; end = stopped }
    else after_send (send_pair_if_needed me r) rest
