-- ===== src/Health/Age.antt =====
-- Durations as text (humanDuration and agoString in health.go). A duration is a number of nanoseconds; a
-- negative one reads "just now", as does 0. The source divides floating-point numbers of seconds, minutes
-- and hours; their rounding, which reaches the result only beyond years, is left out.
use remotecmd_cli.Prelude.{
  ℕ, suc, ◌*◌, ◌/◌, ◌≤◌, ◌<◌, String, ◌⧺◌, ◌==◌, ltb, arith, if◌then◌else◌, if_cases,
}

abbrev pub second : ℕ
second = 1000000000

abbrev pub minute : ℕ
minute = 60000000000

abbrev pub hour : ℕ
hour = 3600000000000

abbrev pub day : ℕ
day = 86400000000000

-- The texts of humanDuration, by their number.
pub data Age : Type 0 where
  just_now : Age
  seconds : ℕ → Age
  minutes : ℕ → Age
  hours : ℕ → Age
  days : ℕ → Age

unfoldable pub human_duration : ℕ → Age
human_duration d =
    if ltb d 30000000000
    then just_now
    else if ltb d minute
    then seconds (d / second)
    else if ltb d hour
    then minutes (d / minute)
    else if ltb d day
    then hours (d / hour)
    else days (d / day)

-- The text, with the decimal notation of numbers.
unfoldable pub age_text : (ℕ → String) → Age → String
age_text decimal just_now = "just now"
age_text decimal (seconds n) = decimal n ⧺ "s"
age_text decimal (minutes n) = decimal n ⧺ "min"
age_text decimal (hours n) = decimal n ⧺ "h"
age_text decimal (days n) = decimal n ⧺ "d"

-- agoString
unfoldable pub ago_string : (ℕ → String) → ℕ → String
unfolding age_text human_duration
ago_string decimal d =
    let h = age_text decimal (human_duration d) in
    if h == "just now" then "just now" else h ⧺ " ago"

-- The duration lies in the unit that is counted: n units have passed, and n + 1 have not.
abbrev Lies : ℕ → ℕ → ℕ → Type 0
Lies d unit n = (n * unit ≤ d) × (d < suc n * unit)

-- What an age says of a duration.
unfoldable pub IsAgeOf : ℕ → Age → Type 0
IsAgeOf d just_now = d < 30 * second
IsAgeOf d (seconds n) = Lies d second n × (30 ≤ n) × (n < 60)
IsAgeOf d (minutes n) = Lies d minute n × (1 ≤ n) × (n < 60)
IsAgeOf d (hours n) = Lies d hour n × (1 ≤ n) × (n < 24)
IsAgeOf d (days n) = Lies d day n × (1 ≤ n)

-- The number that is shown counts whole units that have passed, and it fits its unit: 30 to 59 seconds,
-- 1 to 59 minutes, 1 to 23 hours, at least 1 day, and below 30 seconds no number.
pub human_duration-IsAgeOf : (d : ℕ) → IsAgeOf d (human_duration d)
unfolding IsAgeOf human_duration
human_duration-IsAgeOf d =
    if_cases (IsAgeOf d) (ltb d 30000000000) _ _ (λ e. ground (arith, e))
      (λ a.
        if_cases (IsAgeOf d) (ltb d minute) _ _ (λ e. ground (arith, a, e))
          (λ b.
            if_cases (IsAgeOf d) (ltb d hour) _ _ (λ e. ground (arith, b, e))
              (λ c.
                if_cases (IsAgeOf d) (ltb d day) _ _ (λ e. ground (arith, c, e))
                  (λ e. ground (arith, e)))))
