-- ===== src/Config.antt =====
-- The client's configuration (config.go): targets, groups and the relay. Reading and writing config.json
-- is not modelled: an operation maps the configuration that loadConfig read to the one that saveConfig
-- writes. Nor are the files of the tokens and codes.
pub mod Groups
use remotecmd_cli.Prelude.{
  String, Bool, true, false, not, ◌||◌, Option, none, some, List, [], ◌∷◌, ◌++◌, ◌==◌, any, is_none,
  if◌then◌else◌,
}
use remotecmd_cli.Dict
use remotecmd_cli.Dict.{Dict}

pub record RelayConfig : Type 0 where
  pub url : String
  pub name : String
  pub secret : String

pub record TargetConfig : Type 0 where
  pub token : String
  pub relay_name : String

pub record Config : Type 0 where
  pub relay : RelayConfig
  pub targets : Dict TargetConfig
  pub groups : Dict (List String)

-- The errors of the operations, with the name that each text quotes.
pub data ConfigError : Type 0 where
  group_exists : String → ConfigError
  group_not_found : String → ConfigError
  unknown_target : String → ConfigError

pub data Outcome {ℓ} (A : Type ℓ) : Type ℓ where
  saved : A → Outcome A
  failed : ConfigError → Outcome A

-- The configuration of a directory without config.json (loadConfig).
unfoldable pub empty_config : Config
empty_config = record {
  relay = record { url = ""; name = ""; secret = "" };
  targets = Dict.empty;
  groups = Dict.empty;
}

-- addTargetWithRelayName
unfoldable pub add_target : String → String → String → Config → Config
add_target name token relay_name cfg = record cfg {
  targets = Dict.put cfg.targets name (record { token = token; relay_name = relay_name });
}

-- removeTarget
unfoldable pub remove_target : String → Config → Config
remove_target name cfg = record cfg { targets = Dict.remove cfg.targets name }

-- The loop that validates targets: the first that is not configured.
unfoldable pub first_unknown : Config → List String → Option String
first_unknown cfg [] = none
first_unknown cfg (t ∷ ts) =
    let rest = first_unknown cfg ts in if is_none (Dict.get cfg.targets t) then some t else rest

abbrev pub unless_unknown : Option String → Config → Outcome Config
unless_unknown none cfg = saved cfg
unless_unknown (some t) cfg = failed (unknown_target t)

abbrev pub put_group : String → List String → Config → Config
put_group name members cfg = record cfg { groups = Dict.put cfg.groups name members }

-- groupCreate
unfoldable pub group_create : String → List String → Config → Outcome Config
unfolding first_unknown
group_create name ts cfg = elim (Dict.get cfg.groups name) [
  | some members ↦ failed (group_exists name)
  | none ↦ unless_unknown (first_unknown cfg ts) (put_group name ts cfg)
]

-- groupDelete
unfoldable pub group_delete : String → Config → Outcome Config
group_delete name cfg = elim (Dict.get cfg.groups name) [
  | none ↦ failed (group_not_found name)
  | some members ↦ saved (record cfg { groups = Dict.remove cfg.groups name })
]

-- The targets that are not in `members`, in order: groupAddTargets appends these, and does not look at
-- what it has appended so far.
unfoldable pub new_members : List String → List String → List String
new_members members [] = []
new_members members (t ∷ ts) =
    let rest = new_members members ts in if not (any (λ m. m == t) members) then t ∷ rest else rest

-- groupAddTargets
unfoldable pub group_add_targets : String → List String → Config → Outcome Config
unfolding first_unknown new_members
group_add_targets name ts cfg = elim (Dict.get cfg.groups name) [
  | none ↦ failed (group_not_found name)
  | some members ↦
      unless_unknown (first_unknown cfg ts) (put_group name (members ++ new_members members ts) cfg)
]

-- The members that are not in `exclude`, in order.
unfoldable pub kept_members : List String → List String → List String
kept_members exclude [] = []
kept_members exclude (m ∷ ms) =
    let rest = kept_members exclude ms in if not (any (λ t. t == m) exclude) then m ∷ rest else rest

-- groupRemoveTargets
unfoldable pub group_remove_targets : String → List String → Config → Outcome Config
unfolding kept_members
group_remove_targets name ts cfg = elim (Dict.get cfg.groups name) [
  | none ↦ failed (group_not_found name)
  | some members ↦ saved (put_group name (kept_members ts members) cfg)
]

-- resolveTargets of a group's name.
unfoldable pub resolve_group : String → Config → Outcome (List String)
resolve_group name cfg = elim (Dict.get cfg.groups name) [
  | none ↦ failed (group_not_found name)
  | some members ↦ saved members
]

abbrev or_unknown : Option String → List String → Outcome (List String)
or_unknown none names = saved names
or_unknown (some t) names = failed (unknown_target t)

-- resolveTargets of a list of names, after it was split at commas and trimmed.
unfoldable pub resolve_names : List String → Config → Outcome (List String)
unfolding first_unknown
resolve_names names cfg = or_unknown (first_unknown cfg names) names

-- setRelay
unfoldable pub set_relay : String → String → Config → Config
set_relay url name cfg = record cfg {
  relay = record { url = url; name = name; secret = cfg.relay.secret };
}

-- setRelaySecret
unfoldable pub set_relay_secret : String → Config → Config
set_relay_secret secret cfg = record cfg { relay = record cfg.relay { secret = secret } }
