-- ===== src/Prelude/Chars.antt =====
-- A text as the list of its characters.
use Prim.Native.Char.{Char, code}
use Prim.Native.Nat.{ℕ}
use Prim.Native.String.{String, [] as no_text, ◌∷◌ as ◌▹◌}
use mathlib.Core.List.{List, [], ◌∷◌}

unfoldable pub chars : String → List Char
chars no_text = []
chars (c ▹ s) = c ∷ chars s

unfoldable pub text_of : List Char → String
text_of [] = no_text
text_of (c ∷ cs) = c ▹ text_of cs

-- The runes of a text.
unfoldable pub runes : String → List ℕ
runes no_text = []
runes (c ▹ s) = code c ∷ runes s
