-- ===== src/Health/Ping/Attribution.antt =====
-- How pingTargets attributes the relay's answers to aliases (health.go).
use remotecmd_cli.Prelude.{
  ◌≡◌, refl, ap, ◌∙◌, String, Bool, true, false, not, ◌&&◌, some, List, [], ◌∷◌, arith, ◌==◌, any,
  length,
}
use remotecmd_cli.Dict
use remotecmd_cli.Dict.{Dict, get-put, get-put_self}
use remotecmd_cli.Protocol.{Results}
use remotecmd_cli.Health.{Cache}
use remotecmd_cli.Health.Ping.{
  Probe, alias_by_relay, alias_of, find_result, verdict, record_verdicts,
}

abbrev pub among : String → List String → Bool
among s ss = any (λ t. t == s) ss

-- No text is in the list twice.
unfoldable pub distinct : List String → Bool
distinct [] = true
distinct (s ∷ ss) = not (among s ss) && distinct ss

-- The alias that belongs to each name.
abbrev pub Matches : Dict String → List String → List String → Type 0
Matches m [] [] = Unit
Matches m (t ∷ ts) (n ∷ ns) = (alias_of m n ≡ t) × Matches m ts ns
Matches m _ _ = ⊥

abbrev pub Written : Probe → Results → Cache → List String → List String → Type 0
Written p answers c [] names = Unit
Written p answers c (t ∷ ts) [] = ⊥
Written p answers c (t ∷ ts) (n ∷ ns) =
    (Dict.get c t ≡ some (verdict p (find_result answers n))) × Written p answers c ts ns

alias_by_relay-other :
    (ts ns : List String) (m : Dict String) (name : String)
    → among name ns ≡ false
    → Dict.get (alias_by_relay ts ns m) name ≡ Dict.get m name
unfolding alias_by_relay
alias_by_relay-other [] ns m name h = refl
alias_by_relay-other (t ∷ ts) [] m name h = refl
alias_by_relay-other (t ∷ ts) (n ∷ ns) m name h = ground (
  arith,
  h,
  alias_by_relay-other ts ns (Dict.put m n t) name (ground (arith, h)),
  get-put m n name t,
)

pub alias_by_relay-Matches :
    (ts ns : List String) (m : Dict String)
    → length ns ≡ length ts
    → distinct ns ≡ true
    → Matches (alias_by_relay ts ns m) ts ns
unfolding alias_by_relay distinct
alias_by_relay-Matches [] [] m e d = _
alias_by_relay-Matches [] (n ∷ ns) m e d = ground (arith, e)
alias_by_relay-Matches (t ∷ ts) [] m e d = ground (arith, e)
alias_by_relay-Matches (t ∷ ts) (n ∷ ns) m e d = (
  ground (
    arith,
    alias_by_relay-other ts ns (Dict.put m n t) n (ground (arith, d)),
    get-put_self m n t,
  ),
  alias_by_relay-Matches ts ns (Dict.put m n t) (omega (arith, e)) (ground (arith, d)),
)

module _ (p : Probe) (m : Dict String) (answers : Results) where
  record_verdicts-other :
      (ts ns : List String) (c : Cache) (alias : String)
      → Matches m ts ns
      → among alias ts ≡ false
      → Dict.get (record_verdicts p m answers ns c) alias ≡ Dict.get c alias
  unfolding record_verdicts
  record_verdicts-other [] [] c alias h out = refl
  record_verdicts-other [] (n ∷ ns) c alias h out = elim h [ ]
  record_verdicts-other (t ∷ ts) [] c alias h out = elim h [ ]
  record_verdicts-other (t ∷ ts) (n ∷ ns) c alias (own, h) out =
      let v = verdict p (find_result answers n) in
      record_verdicts-other ts ns (Dict.put c (alias_of m n) v) alias h (ground (arith, out))
      ∙ ground (arith, own, out, get-put c (alias_of m n) alias v)

  pub record_verdicts-Written :
      (ts ns : List String) (c : Cache)
      → Matches m ts ns
      → distinct ts ≡ true
      → Written p answers (record_verdicts p m answers ns c) ts ns
  unfolding record_verdicts distinct
  record_verdicts-Written [] ns c h d = _
  record_verdicts-Written (t ∷ ts) [] c h d = elim h [ ]
  record_verdicts-Written (t ∷ ts) (n ∷ ns) c (own, h) d =
      let v = verdict p (find_result answers n) in
      (
        record_verdicts-other ts ns (Dict.put c (alias_of m n) v) t h (ground (arith, d))
            ∙ ap (λ a. Dict.get (Dict.put c a v) t) own
            ∙ get-put_self c t v,
        record_verdicts-Written ts ns (Dict.put c (alias_of m n) v) h (ground (arith, d)),
      )
