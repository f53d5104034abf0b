-- ===== src/Update/Paths.antt =====
-- The paths that an update uses beside the program's are different (installRelease in update.go).
use Prim.Native.Char.{code}
use Prim.Native.String.append.{nil, cons}
use Prim.Native.String.{[] as no_text, ◌∷◌ as ◌▹◌}
use remotecmd_cli.Prelude.{
  ℕ, ◌≡◌, ◌≢◌, refl, sym, ap, ◌∙◌, String, ◌⧺◌, false, arith, ◌==◌, eq_iff, eq_false,
}
use remotecmd_cli.Update.Swap.{AreApart}

tail : String → String
tail no_text = no_text
tail (c ▹ s) = s

-- What is appended to one text differs where the results do.
append_cancel : (s a b : String) → s ⧺ a ≡ s ⧺ b → a ≡ b
unfolding tail
append_cancel no_text a b h = sym (nil a) ∙ h ∙ nil b
append_cancel (c ▹ s) a b h = append_cancel s a b (ap tail (sym (cons c s a) ∙ h ∙ cons c s b))

pub append_none : (s : String) → s ⧺ "" ≡ s
append_none no_text = nil ""
append_none (c ▹ s) = cons c s "" ∙ ap (◌▹◌ c) (append_none s)

append_both : (s a b : String) → (s ⧺ a) ⧺ b ≡ s ⧺ (a ⧺ b)
append_both no_text a b = ap (λ t. t ⧺ b) (nil a) ∙ sym (nil (a ⧺ b))
append_both (c ▹ s) a b =
    ap (λ t. t ⧺ b) (cons c s a)
    ∙ cons c (s ⧺ a) b
    ∙ ap (◌▹◌ c) (append_both s a b)
    ∙ sym (cons c s (a ⧺ b))

ends_differ : (s a b : String) → a ≢ b → ((s ⧺ a) == (s ⧺ b)) ≡ false
ends_differ s a b h = eq_false (s ⧺ a) (s ⧺ b) (λ e. h (append_cancel s a b e))

-- The number of a text's first character.
first_code : String → ℕ
first_code no_text = 0
first_code (c ▹ s) = code c

second_code : (x : String) → first_code (tail (".new." ⧺ x)) ≡ 110
unfolding first_code tail
second_code x = ap (λ t. first_code (tail t)) (cons "." "new." x) ∙ ap first_code (cons "n" "ew." x)

first_of_new : (x : String) → first_code (".new." ⧺ x) ≡ 46
unfolding first_code
first_of_new x = ap first_code (cons "." "new." x)

grows : (s t : String) → t ≢ "" → ((s ⧺ t) == s) ≡ false
grows s t h = eq_false (s ⧺ t) s (λ e. h (append_cancel s t "" (e ∙ sym (append_none s))))

grown : (s t : String) → t ≢ "" → (s == (s ⧺ t)) ≡ false
grown s t h = eq_false s (s ⧺ t) (λ e. h (append_cancel s t "" (sym e ∙ sym (append_none s))))

new_not_empty : (x : String) → ".new." ⧺ x ≢ ""
unfolding first_code
new_not_empty x e = omega (arith, ap first_code e, first_of_new x)

bak_not_new : (x t : String) → first_code (tail t) ≡ 98 → t ≢ ".new." ⧺ x
unfolding first_code tail
bak_not_new x t b e = omega (arith, b, ap (λ u. first_code (tail u)) e, second_code x)

literal_differs : (s t : String) → (s == t) ≡ false → s ≢ t
literal_differs s t h e = ground (arith, h, eq_iff s t, e)

pub paths-AreApart : (exe pid : String) → AreApart exe (exe ⧺ (".new." ⧺ pid))
unfolding AreApart first_code tail
paths-AreApart exe pid =
    let bak_tmp = append_both exe ".bak" ".tmp" in
    (
      grows exe (".new." ⧺ pid) (new_not_empty pid),
      grows exe ".bak" (literal_differs ".bak" "" refl),
      ap (λ p. p == exe) bak_tmp ∙ grows exe ".bak.tmp" (literal_differs ".bak.tmp" "" refl),
      ap (λ p. p == (exe ⧺ (".new." ⧺ pid))) bak_tmp
          ∙ ends_differ exe ".bak.tmp" (".new." ⧺ pid) (bak_not_new pid ".bak.tmp" refl),
      ends_differ exe ".bak" (".new." ⧺ pid) (bak_not_new pid ".bak" refl),
      ends_differ exe (".new." ⧺ pid) ".bak" (λ e. bak_not_new pid ".bak" refl (sym e)),
      grows (exe ⧺ ".bak") ".tmp" (literal_differs ".tmp" "" refl),
      grown exe ".bak" (literal_differs ".bak" "" refl),
    )
