-- ===== src/Processes.antt =====
-- How the tool finds its running processes (procupdate.go): the splitting of a Windows command line, and
-- the choice of one process. A text is the list of its characters' numbers.
pub mod Quoting
use remotecmd_cli.Prelude.{
  ℕ, String, ◌⧺◌, Bool, true, false, not, ◌&&◌, ◌||◌, Option, none, some, List, [], ◌∷◌, ◌++◌, eqb,
  ◌==◌, drop, length, if◌then◌else◌,
}

-- The characters '"', ' ' and tab.
abbrev pub quote : ℕ
quote = 34

abbrev pub space : ℕ
space = 32

abbrev pub tab : ℕ
tab = 9

-- The locals of the loop of splitWindowsCommandLine.
pub record Splitter : Type 0 where
  pub args : List (List ℕ)
  pub cur : List ℕ
  pub in_quote : Bool
  pub have : Bool

abbrev pub flush : Splitter → Splitter
flush st =
    if st.have then record st { args = st.args ++ st.cur ∷ []; cur = []; have = false } else st

-- One round of the loop.
unfoldable pub split_round : ℕ → Splitter → Splitter
split_round r st =
    if eqb r quote
    then record st { in_quote = not st.in_quote; have = true }
    else if (eqb r space || eqb r tab) && not st.in_quote
    then flush st
    else record st { cur = st.cur ++ r ∷ []; have = true }

unfoldable pub split_loop : List ℕ → Splitter → Splitter
unfolding split_round
split_loop [] st = st
split_loop (r ∷ s) st = split_loop s (split_round r st)

-- splitWindowsCommandLine
unfoldable pub split_command_line : List ℕ → List (List ℕ)
unfolding split_loop
split_command_line s =
    (flush (split_loop s (record { args = []; cur = []; in_quote = false; have = false }))).args

-- runningProc, as far as selectPID reads it.
pub record RunningProc : Type 0 where
  pub pid : ℕ

-- selectPID; `none` is the error.
unfoldable pub select_pid : List RunningProc → ℕ → Option (List RunningProc)
select_pid [] pid = none
select_pid (p ∷ procs) pid =
    let later = select_pid procs pid in if eqb p.pid pid then some (p ∷ []) else later

-- The loop that compares the words behind the program's name with the wanted ones.
unfoldable pub has_words : List String → List String → Bool
has_words [] words = true
has_words (w ∷ want) [] = false
has_words (w ∷ want) (a ∷ words) = let later = has_words want words in a == w && later

abbrev next_is : String → List String → Bool
next_is name [] = false
next_is name (a ∷ rest) = a == name

-- The loop that looks for the name among the flags.
unfoldable pub has_name : String → List String → Bool
has_name name [] = false
has_name name (a ∷ rest) =
    let later = has_name name rest in
    if (a == "-name" || a == "--name") && next_is name rest
    then true
    else if a == "-name=" ⧺ name || a == "--name=" ⧺ name
    then true
    else later

abbrev wanted : String → List String
wanted kind = if kind == "relay" then "relay" ∷ "daemon" ∷ "start" ∷ [] else "daemon" ∷ "start" ∷ []

-- matchesProc
unfoldable pub matches_proc : List String → String → String → Bool
unfolding has_words has_name
matches_proc argv kind name =
    if not (has_words (wanted kind) (drop 1 argv))
    then false
    else if kind == "daemon" && not (name == "")
    then has_name name (drop (length (wanted kind)) (drop 1 argv))
    else true
