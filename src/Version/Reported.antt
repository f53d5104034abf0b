-- ===== src/Version/Reported.antt =====
-- The versions that daemons report (daemonversion.go): what is read from the output of `version`.
pub mod Reading
use Prim.Native.Char.{Char, code}
use remotecmd_cli.Prelude.{
  ℕ, String, Bool, true, false, not, ◌&&◌, ◌||◌, Option, none, some, List, [], ◌∷◌, ◌==◌, eqb, leb,
  map, is_none, if◌then◌else◌,
}
use remotecmd_cli.Prelude.Chars.{chars, text_of}
use remotecmd_cli.Version.{version_numbers}

-- unicode.IsSpace
abbrev pub is_space : Char → Bool
is_space c =
    (leb 9 (code c) && leb (code c) 13)
    || eqb (code c) 32
    || eqb (code c) 133
    || eqb (code c) 160
    || eqb (code c) 5760
    || (leb 8192 (code c) && leb (code c) 8202)
    || eqb (code c) 8232
    || eqb (code c) 8233
    || eqb (code c) 8239
    || eqb (code c) 8287
    || eqb (code c) 12288

abbrev pub is_newline : Char → Bool
is_newline c = eqb (code c) 10

abbrev pub attach : Char → List (List Char) → List (List Char)
attach c [] = (c ∷ []) ∷ []
attach c (part ∷ parts) = (c ∷ part) ∷ parts

-- The parts of a text between the characters that `stops` holds of, as of strings.Split.
unfoldable pub split_at : (Char → Bool) → List Char → List (List Char)
split_at stops [] = [] ∷ []
split_at stops (c ∷ s) = let rest = split_at stops s in if stops c then [] ∷ rest else attach c rest

unfoldable pub non_empty : List (List Char) → List (List Char)
non_empty [] = []
non_empty ([] ∷ parts) = non_empty parts
non_empty ((c ∷ s) ∷ parts) = (c ∷ s) ∷ non_empty parts

-- strings.Fields
unfoldable pub fields : List Char → List (List Char)
unfolding split_at non_empty
fields s = non_empty (split_at is_space s)

abbrev pub has_numbers : List Char → Bool
has_numbers v = not (is_none (version_numbers (map code v)))

-- The inner loop of parseDaemonVersion.
unfoldable pub version_in : List (List Char) → Option (List Char)
version_in [] = none
version_in (w ∷ []) = none
version_in (w ∷ v ∷ rest) =
    let later = version_in (v ∷ rest) in
    if text_of w == "version" && has_numbers v then some v else later

abbrev pub first_found : Option (List Char) → String → String
first_found none later = later
first_found (some v) later = text_of v

-- The outer loop of parseDaemonVersion.
unfoldable pub version_on_lines : List (List Char) → String
unfolding fields version_in text_of
version_on_lines [] = ""
version_on_lines (line ∷ rest) = first_found (version_in (fields line)) (version_on_lines rest)

-- parseDaemonVersion
unfoldable pub parse_daemon_version : String → String
unfolding split_at version_on_lines chars
parse_daemon_version out = version_on_lines (split_at is_newline (chars out))
