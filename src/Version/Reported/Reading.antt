-- ===== src/Version/Reported/Reading.antt =====
-- What is read back from the output of the `version` command (daemonversion.go, main.go).
use Prim.Native.Char.{Char}
use remotecmd_cli.Prelude.{
  ◌≡◌, refl, ap, ◌∙◌, Bool, true, false, some, List, [], ◌∷◌, ◌++◌, any, arith,
}
use remotecmd_cli.Prelude.Chars.{chars, text_of}
use remotecmd_cli.Version.{version_numbers}
use remotecmd_cli.Version.Reported.{
  is_space, is_newline, split_at, fields, non_empty, version_in, version_on_lines, first_found,
  has_numbers, parse_daemon_version,
}

chars-text_of : (cs : List Char) → chars (text_of cs) ≡ cs
unfolding chars text_of
chars-text_of [] = refl
chars-text_of (c ∷ cs) = ap (◌∷◌ c) (chars-text_of cs)

-- A text without a separator is one part.
split_at-word :
    (stops : Char → Bool) (v : List Char) → any stops v ≡ false → split_at stops v ≡ v ∷ []
unfolding split_at
split_at-word stops [] h = refl
split_at-word stops (c ∷ v) h = ground (arith, h, split_at-word stops v (ground (arith, h)))

split_at-ended :
    (stops : Char → Bool) (v : List Char) (c : Char)
    → any stops v ≡ false
    → stops c ≡ true
    → split_at stops (v ++ c ∷ []) ≡ v ∷ [] ∷ []
unfolding split_at
split_at-ended stops [] c h e = ground (arith, e)
split_at-ended stops (d ∷ v) c h e =
    ground (arith, h, split_at-ended stops v c (ground (arith, h)) e)

no_newline : (v : List Char) → any is_space v ≡ false → any is_newline v ≡ false
no_newline [] h = refl
no_newline (c ∷ v) h = ground (arith, h, no_newline v (ground (arith, h)))

-- What `fmt.Println("remotecmd-cli version", Version)` prints.
unfoldable pub version_output : List Char → List Char
version_output v = chars "remotecmd-cli version " ++ (v ++ chars "\n")

abbrev announced : List Char → List Char
announced v = chars "remotecmd-cli version " ++ v

output_lines :
    (v : List Char)
    → any is_space v ≡ false
    → split_at is_newline (version_output v) ≡ announced v ∷ [] ∷ []
unfolding version_output split_at chars
output_lines v h = rw (split_at-ended is_newline v "\n" (no_newline v h) refl) refl

output_words :
    (v : List Char)
    → any is_space v ≡ false
    → non_empty (v ∷ []) ≡ v ∷ []
    → fields (announced v) ≡ chars "remotecmd-cli" ∷ chars "version" ∷ v ∷ []
unfolding fields split_at chars non_empty
output_words v h full = rw (split_at-word is_space v h, full) refl

full_of : (v : List Char) → has_numbers v ≡ true → non_empty (v ∷ []) ≡ v ∷ []
unfolding non_empty version_numbers
full_of [] n = ground (arith, n)
full_of (c ∷ v) n = refl

announced_version :
    (v : List Char)
    → any is_space v ≡ false
    → has_numbers v ≡ true
    → version_in (fields (announced v)) ≡ some v
unfolding version_in text_of chars
announced_version v h n = ap version_in (output_words v h (full_of v n)) ∙ ground (arith, n)

-- The output of the command `version` is read back: of the line that a daemon whose version has numbers
-- and no white space prints, parseDaemonVersion gives that version.
pub parse_daemon_version-version_output :
    (v : List Char)
    → any is_space v ≡ false
    → has_numbers v ≡ true
    → parse_daemon_version (text_of (version_output v)) ≡ text_of v
unfolding parse_daemon_version version_on_lines
parse_daemon_version-version_output v h n =
    ap (λ cs. version_on_lines (split_at is_newline cs)) (chars-text_of (version_output v))
    ∙ ap version_on_lines (output_lines v h)
    ∙ ap (λ o. first_found o "") (announced_version v h n)
