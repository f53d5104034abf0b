-- ===== src/Errors/Codes.antt =====
-- How the exit code, the type and the hint to retry of an error go together.
use remotecmd_cli.Prelude.{
  ℕ, String, Bool, true, false, ◌&&◌, ◌||◌, some, List, [], ◌∷◌, ◌==◌, eqb, leb, ◌≡◌, ◌⊎◌, inl, inr,
  refl, sym, arith, if◌then◌else◌,
}
use remotecmd_cli.Errors.{
  classify_error, contains, contains_any, error_type, type_of_message, fail_with, fail_code,
  fail_err,
}

abbrev is_retry : String → Bool
is_retry kind = kind == "relay_unreachable"

-- A type that does not say that the relay is unreachable.
record IsOther (kind : String) : Type 0 where
  other : is_retry kind ≡ false

IsOther-if : (b : Bool) (x y : String) → IsOther x → IsOther y → IsOther (if b then x else y)
IsOther-if true x y hx hy = hx
IsOther-if false x y hx hy = hy

-- No message by itself has the type of an unreachable relay.
type_of_message-IsOther : (msg : String) → IsOther (type_of_message msg)
unfolding type_of_message
type_of_message-IsOther msg =
    IsOther-if (contains_any ("relay secret" ∷ "authentication required" ∷ []) msg) _ _
      (record { other = refl })
      (IsOther-if (contains_any ("unknown target" ∷ "not found in config" ∷ []) msg) _ _
        (record { other = refl })
        (IsOther-if (contains msg "not connected") _ _ (record { other = refl })
          (IsOther-if (contains_any ("timed out" ∷ "Timed out" ∷ []) msg) _ _
            (record { other = refl })
            (IsOther-if (contains_any ("unknown command" ∷ "Unknown command" ∷ []) msg) _ _
              (record { other = refl })
              (IsOther-if (contains msg "not configured") _ _ (record { other = refl })
                (IsOther-if (contains msg "required") _ _ (record { other = refl })
                  (IsOther-if (contains msg "already exists") _ _ (record { other = refl })
                    (IsOther-if (contains msg "not found") _ _ (record { other = refl })
                      (record { other = refl })))))))))

-- The codes that classifyError gives to an error.
classify_error_lem :
    (msg : String)
    → (classify_error (some msg) ≡ 1)
      ⊎ (classify_error (some msg) ≡ 2)
      ⊎ (classify_error (some msg) ≡ 3)
unfolding classify_error
classify_error_lem msg = ground arith

kind-fail_code :
    (code : ℕ) (msg : String) (hints : List String)
    → (fail_code code msg hints).kind ≡ error_type code msg
unfolding fail_code fail_with
kind-fail_code code msg [] = refl
kind-fail_code code msg (s ∷ ss) = refl

code-fail_code :
    (code : ℕ) (msg : String) (hints : List String) → (fail_code code msg hints).code ≡ code
unfolding fail_code fail_with
code-fail_code code msg [] = refl
code-fail_code code msg (s ∷ ss) = refl

recoverable-fail_code :
    (code : ℕ) (msg : String) (hints : List String)
    → (fail_code code msg hints).recoverable ≡ (eqb code 2 || (leb 100 code && leb code 109))
unfolding fail_code fail_with
recoverable-fail_code code msg [] = refl
recoverable-fail_code code msg (s ∷ ss) = refl

-- An error that classifyError rates is reported with that code, it is marked as recoverable exactly if its
-- type says that the relay is unreachable, and that is so exactly if its code is 2.
pub fail_err_consistent :
    (msg : String) (hints : List String)
    → ((fail_err msg hints).code ≡ classify_error (some msg))
      × ((fail_err msg hints).recoverable ≡ ((fail_err msg hints).kind == "relay_unreachable"))
      × ((fail_err msg hints).recoverable ≡ eqb (fail_err msg hints).code 2)
unfolding fail_err error_type
fail_err_consistent msg hints =
    let code = classify_error (some msg) in
    rw
      (
        code-fail_code code msg hints,
        kind-fail_code code msg hints,
        recoverable-fail_code code msg hints,
      )
      (elim (classify_error_lem msg) [
        | inl e ↦ rw e (refl, refl, refl)
        | inr (inl e) ↦ rw e (refl, refl, refl)
        | inr (inr e) ↦ rw e (refl, sym (type_of_message-IsOther msg).other, refl)
      ])
