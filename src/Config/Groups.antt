-- ===== src/Config/Groups.antt =====
-- Groups hold configured targets: what the operations of config.go keep true, and where it breaks.
use remotecmd_cli.Prelude.{
  String, false, not, Option, none, some, List, [], ◌∷◌, ◌++◌, ◌==◌, any, is_none, if_cases, ◌≡◌,
  arith, All, Option-cases, Bool-cases, inl, inr,
}
use remotecmd_cli.Dict
use remotecmd_cli.Dict.{get-put, get-remove, get-remove_self}
use remotecmd_cli.Config.{
  Config, Outcome, saved, failed, first_unknown, unless_unknown, put_group, add_target,
  remove_target, group_create, group_delete, group_add_targets, group_remove_targets, new_members,
  kept_members, set_relay, set_relay_secret,
}

-- A target that is configured.
abbrev pub IsTarget : Config → String → Type 0
IsTarget cfg t = is_none (Dict.get cfg.targets t) ≡ false

-- A predicate of the members of a group, true where there is no such group.
abbrev pub Members : (String → Type 0) → Option (List String) → Type 0
Members P none = Unit
Members P (some members) = All P members

-- Every member of every group is a configured target.
abbrev pub IsClosed : Config → Type 0
IsClosed cfg = (name : String) → Members (IsTarget cfg) (Dict.get cfg.groups name)

-- The configuration that is on disk after an operation.
abbrev pub after : Config → Outcome Config → Config
after cfg (saved cfg') = cfg'
after cfg (failed e) = cfg

first_unknown_lem :
    (cfg : Config) (ts : List String) → first_unknown cfg ts ≡ none → All (IsTarget cfg) ts
unfolding first_unknown
first_unknown_lem cfg [] h = tt
first_unknown_lem cfg (t ∷ ts) h = elim (Bool-cases (is_none (Dict.get cfg.targets t))) [
  | inl unknown ↦ ground arith
  | inr known ↦ (known, first_unknown_lem cfg ts (rw known at h))
]

module _ (P : String → Type 0) where
  All-append : (xs ys : List String) → All P xs → All P ys → All P (xs ++ ys)
  All-append [] ys hx hy = hy
  All-append (x ∷ xs) ys (px, hx) hy = (px, All-append xs ys hx hy)

  All-new : (members ts : List String) → All P ts → All P (new_members members ts)
  unfolding new_members
  All-new members [] h = tt
  All-new members (t ∷ ts) (pt, h) =
      if_cases (All P) (not (any (λ m. m == t) members)) _ _ (λ _. (pt, All-new members ts h))
        λ _. All-new members ts h

  All-kept : (exclude ms : List String) → All P ms → All P (kept_members exclude ms)
  unfolding kept_members
  All-kept exclude [] h = tt
  All-kept exclude (m ∷ ms) (pm, h) =
      if_cases (All P) (not (any (λ t. t == m) exclude)) _ _ (λ _. (pm, All-kept exclude ms h))
        λ _. All-kept exclude ms h

Members-map :
    (P Q : String → Type 0) (o : Option (List String))
    → ((t : String) → P t → Q t)
    → Members P o
    → Members Q o
Members-map P Q none f h = tt
Members-map P Q (some []) f h = tt
Members-map P Q (some (t ∷ ts)) f (pt, h) = (f t pt, Members-map P Q (some ts) f h)

module _ (cfg : Config) (closed : IsClosed cfg) where
  IsClosed-put :
      (name : String) (members : List String)
      → All (IsTarget cfg) members
      → IsClosed (put_group name members cfg)
  IsClosed-put name members known n =
      rw (get-put cfg.groups name n members)
        (if_cases (Members (IsTarget cfg)) (name == n) _ _ (λ _. known) λ _. closed n)

  IsClosed-unless :
      (name : String) (members ts : List String)
      → (All (IsTarget cfg) ts → All (IsTarget cfg) members)
      → IsClosed (after cfg (unless_unknown (first_unknown cfg ts) (put_group name members cfg)))
  IsClosed-unless name members ts f = elim (Option-cases (first_unknown cfg ts)) [
    | inl e ↦ rw e (IsClosed-put name members (f (first_unknown_lem cfg ts e)))
    | inr (t, e) ↦ rw e closed
  ]

  IsClosed-create :
      (name : String) (ts : List String) → IsClosed (after cfg (group_create name ts cfg))
  unfolding group_create
  IsClosed-create name ts = elim (Option-cases (Dict.get cfg.groups name)) [
    | inl e ↦ rw (e, after) (IsClosed-unless name ts ts λ h. h)
    | inr (ms, e) ↦ rw (e, after) closed
  ]

  IsClosed-delete : (name : String) → IsClosed (after cfg (group_delete name cfg))
  unfolding group_delete
  IsClosed-delete name = elim (Option-cases (Dict.get cfg.groups name)) [
    | inl e ↦ rw (e, after) closed
    | inr (ms, e) ↦
        rw (e, after)
          λ n.
            rw (get-remove cfg.groups name n)
              (if_cases (Members (IsTarget cfg)) (name == n) _ _ (λ _. tt) λ _. closed n)
  ]

  IsClosed-add :
      (name : String) (ts : List String) → IsClosed (after cfg (group_add_targets name ts cfg))
  unfolding group_add_targets
  IsClosed-add name ts = elim (Option-cases (Dict.get cfg.groups name)) [
    | inl e ↦ rw (e, after) closed
    | inr (ms, e) ↦
        rw (e, after)
          (IsClosed-unless name (ms ++ new_members ms ts) ts λ h.
            All-append (IsTarget cfg) ms _ (rw e at (closed name)) (All-new (IsTarget cfg) ms ts h))
  ]

  IsClosed-remove :
      (name : String) (ts : List String) → IsClosed (after cfg (group_remove_targets name ts cfg))
  unfolding group_remove_targets
  IsClosed-remove name ts = elim (Option-cases (Dict.get cfg.groups name)) [
    | inl e ↦ rw (e, after) closed
    | inr (ms, e) ↦
        rw (e, after) (IsClosed-put name _ (All-kept (IsTarget cfg) ts ms (rw e at (closed name))))
  ]

  IsClosed-add_target :
      (name token relay_name : String) → IsClosed (add_target name token relay_name cfg)
  unfolding add_target
  IsClosed-add_target name token relay_name n =
      Members-map (IsTarget cfg) (IsTarget (add_target name token relay_name cfg))
        (Dict.get cfg.groups n)
        (λ t known. ground (
          arith,
          known,
          get-put cfg.targets name t (record { token = token; relay_name = relay_name }),
        ))
        (closed n)

  -- Creating, deleting, extending and reducing a group, adding a target and setting the relay keep every
  -- member of every group a configured target, whether they succeed or fail.
  pub group_operations-IsClosed :
      (name token relay_name : String) (ts : List String)
      → IsClosed (after cfg (group_create name ts cfg))
        × IsClosed (after cfg (group_delete name cfg))
        × IsClosed (after cfg (group_add_targets name ts cfg))
        × IsClosed (after cfg (group_remove_targets name ts cfg))
        × IsClosed (add_target name token relay_name cfg)
        × IsClosed (set_relay name token cfg)
        × IsClosed (set_relay_secret name cfg)
  unfolding set_relay set_relay_secret
  group_operations-IsClosed name token relay_name ts = (
    IsClosed-create name ts,
    IsClosed-delete name,
    IsClosed-add name ts,
    IsClosed-remove name ts,
    IsClosed-add_target name token relay_name,
    closed,
    closed,
  )

-- A target that is removed while a group still has it stays in the group, which then names a target that
-- is not configured.
pub remove_target_dangles :
    (cfg : Config) (name t : String) (ts : List String)
    → Dict.get cfg.groups name ≡ some (t ∷ ts)
    → ¬ IsClosed (remove_target t cfg)
unfolding remove_target
remove_target_dangles cfg name t ts found closed =
    let (known, rest) = rw found at (closed name) in
    ground (arith, known, get-remove_self cfg.targets t)

-- A target that a call names twice, and that the group does not have yet, is appended twice.
pub group_add_targets_repeats :
    (cfg : Config) (name t : String) (members : List String)
    → Dict.get cfg.groups name ≡ some members
    → IsTarget cfg t
    → any (λ m. m == t) members ≡ false
    → group_add_targets name (t ∷ t ∷ []) cfg ≡ saved (put_group name (members ++ t ∷ t ∷ []) cfg)
unfolding group_add_targets first_unknown new_members
group_add_targets_repeats cfg name t members found known fresh =
    rw (found, group_add_targets, known, fresh)
