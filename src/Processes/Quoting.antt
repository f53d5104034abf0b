-- ===== src/Processes/Quoting.antt =====
-- Quoted arguments survive the splitting of a Windows command line.
use mathlib.Core.List.{append_assoc, append-nil}
use remotecmd_cli.Prelude.{ℕ, true, false, List, [], ◌∷◌, ◌++◌, eqb, any, All, ◌≡◌, ap, ◌∙◌, arith}
use remotecmd_cli.Processes.{Splitter, split_round, split_loop, split_command_line, flush}

-- Every argument in quotes, each with a space behind it.
unfoldable pub quoted : List (List ℕ) → List ℕ
quoted [] = []
quoted (a ∷ more) = 34 ∷ (a ++ (34 ∷ 32 ∷ quoted more))

-- An argument without a quote character.
abbrev pub IsUnquoted : List ℕ → Type 0
IsUnquoted a = any (λ r. eqb r 34) a ≡ false

abbrev between : List (List ℕ) → Splitter
between done = record { args = done; cur = []; in_quote = false; have = false }

abbrev inside : List (List ℕ) → List ℕ → Splitter
inside done cur = record { args = done; cur = cur; in_quote = true; have = true }

split_round-inside :
    (r : ℕ) (cur : List ℕ) (done : List (List ℕ))
    → eqb r 34 ≡ false
    → split_round r (inside done cur) ≡ inside done (cur ++ r ∷ [])
unfolding split_round
split_round-inside r cur done plain = ground (arith, plain)

split_loop-inside :
    (a rest cur : List ℕ) (done : List (List ℕ))
    → IsUnquoted a
    → split_loop (a ++ rest) (inside done cur) ≡ split_loop rest (inside done (cur ++ a))
unfolding split_loop split_round
split_loop-inside [] rest cur done h = rw (append-nil cur)
split_loop-inside (r ∷ a) rest cur done h =
    ap (split_loop (a ++ rest)) (split_round-inside r cur done (ground arith))
    ∙ split_loop-inside a rest (cur ++ r ∷ []) done (ground arith)
    ∙ ap (λ x. split_loop rest (inside done x)) (append_assoc cur (r ∷ []) a)

split_loop-quoted :
    (more done : List (List ℕ))
    → All IsUnquoted more
    → split_loop (quoted more) (between done) ≡ between (done ++ more)
unfolding split_loop split_round quoted
split_loop-quoted [] done h = rw (append-nil done)
split_loop-quoted (a ∷ more) done (unquoted, h) =
    split_loop-inside a (34 ∷ 32 ∷ quoted more) [] done unquoted
    ∙ split_loop-quoted more (done ++ a ∷ []) h
    ∙ ap between (append_assoc done (a ∷ []) more)

-- Arguments without a quote character, each put in quotes with a space behind it, come back from the
-- splitting as they were, whatever spaces they hold, empty ones included.
pub split_command_line-quoted :
    (more : List (List ℕ)) → All IsUnquoted more → split_command_line (quoted more) ≡ more
unfolding split_command_line
split_command_line-quoted more h = ap (λ st. (flush st).args) (split_loop-quoted more [] h)
