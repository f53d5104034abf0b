-- ===== src/Examples/Tools.antt =====
-- The theorems on chunks, versions, configurations and activation keys, on small values.
use remotecmd_cli.Prelude.{
  ℕ, String, true, false, not, ◌&&◌, ◌||◌, some, List, [], ◌∷◌, ◌≡◌, ◌≤◌, refl, length, any, All,
  arith, ◌==◌, is_none,
}
use remotecmd_cli.Prelude.Int.{pos}
use remotecmd_cli.Dict
use remotecmd_cli.Dict.{get-put_self, get-empty, get-put}
use remotecmd_cli.Transfer.Chunk.{chunk_count, chunk_data}
use remotecmd_cli.Transfer.Cutting.{concat, chunk_data_cuts}
use remotecmd_cli.Version.{version_less, resolve_version, version_numbers}
use remotecmd_cli.Version.Order.{version_less-IsStrict, development_build_between}
use remotecmd_cli.Config.{
  Config, TargetConfig, group_create, group_delete, group_add_targets, group_remove_targets,
  add_target, set_relay, set_relay_secret,
}
use remotecmd_cli.Config.Groups.{IsClosed, after, group_operations-IsClosed}
use remotecmd_cli.Keys.{Stamp, KeyStore, KeyFile, keys, present, is_valid}
use remotecmd_cli.Keys.Validity.{IsSynced, is_valid_exact}

abbrev five : List ℕ
five = 1 ∷ 2 ∷ 3 ∷ 4 ∷ 5 ∷ []

chunk_data_cuts_example :
    (concat (chunk_data five 2) ≡ five)
    × All (λ chunk. length chunk ≤ 2) (chunk_data five 2)
    × (chunk_count 5 2 ≡ pos (length (chunk_data five 2)))
chunk_data_cuts_example = chunk_data_cuts 2 five (omega arith) (omega arith)

-- "2.6.0" and "2.7.0".
abbrev v_2_6_0 : List ℕ
v_2_6_0 = 50 ∷ 46 ∷ 54 ∷ 46 ∷ 48 ∷ []

abbrev v_2_7_0 : List ℕ
v_2_7_0 = 50 ∷ 46 ∷ 55 ∷ 46 ∷ 48 ∷ []

version_less-IsStrict_example :
    (version_less v_2_6_0 v_2_6_0 ≡ false)
    × ((version_less v_2_6_0 v_2_7_0 && version_less v_2_7_0 v_2_6_0) ≡ false)
    × ((not (version_less v_2_6_0 v_2_7_0 && version_less v_2_7_0 v_2_6_0)
          || version_less v_2_6_0 v_2_6_0)
        ≡ true)
version_less-IsStrict_example = version_less-IsStrict v_2_6_0 v_2_7_0 v_2_6_0

numbers_2_7_0 : version_numbers v_2_7_0 ≡ some (record { major = 2; minor = 7; patch = 0 })
unfolding version_numbers
numbers_2_7_0 = refl

development_build_between_example :
    (version_less (resolve_version [] v_2_7_0 (97 ∷ []) true) v_2_7_0 ≡ true)
    × (version_less v_2_6_0 (resolve_version [] v_2_7_0 (97 ∷ []) true)
        ≡ version_less v_2_6_0 v_2_7_0)
development_build_between_example =
    development_build_between v_2_7_0 (97 ∷ []) v_2_6_0 true _ refl numbers_2_7_0 refl

-- Two targets and a group of one of them.
abbrev shop : Config
shop = record {
  relay = record { url = "ws://r"; name = "me"; secret = "" };
  targets = Dict.put Dict.empty "web" (record { token = "tok"; relay_name = "" });
  groups = Dict.put Dict.empty "all" ("web" ∷ []);
}

abbrev bare : Config
bare = record shop { groups = Dict.empty }

bare-IsClosed : IsClosed bare
bare-IsClosed name = rw (get-empty {V = List String} name) tt

group_operations-IsClosed_example :
    IsClosed (after bare (group_create "all" ("web" ∷ []) bare))
    × IsClosed (after bare (group_delete "all" bare))
    × IsClosed (after bare (group_add_targets "all" ("web" ∷ []) bare))
    × IsClosed (after bare (group_remove_targets "all" ("web" ∷ []) bare))
    × IsClosed (add_target "all" "secret" "" bare)
    × IsClosed (set_relay "all" "secret" bare)
    × IsClosed (set_relay_secret "all" bare)
group_operations-IsClosed_example =
    group_operations-IsClosed bare bare-IsClosed "all" "secret" "" ("web" ∷ [])

abbrev idle : Config
idle = record shop { groups = Dict.put Dict.empty "all" [] }

web_known : is_none (Dict.get idle.targets "web") ≡ false
web_known =
    rw
      (get-put_self {V = TargetConfig} Dict.empty "web" (record { token = "tok"; relay_name = "" }))

abbrev stamped : Stamp
stamped = record { mod_time = 1700000000; file_size = 12 }

abbrev cold : KeyStore
cold = record { cached = []; stamp = record { mod_time = 0; file_size = 0 } }

abbrev key_file : KeyFile
key_file = present stamped (keys ("alpha" ∷ []))

cold-IsSynced : IsSynced stamped ("alpha" ∷ []) cold
cold-IsSynced e = ground (arith, e)

is_valid_exact_example :
    ((is_valid key_file "alpha" cold).0
      ≡ (not ("alpha" == "") && any (λ k. k == "alpha") ("alpha" ∷ [])))
    × IsSynced stamped ("alpha" ∷ []) (is_valid key_file "alpha" cold).1
is_valid_exact_example = is_valid_exact stamped ("alpha" ∷ []) "alpha" cold cold-IsSynced

-- The arguments `a b` and an empty one.
abbrev two_args : List (List ℕ)
two_args = (97 ∷ 32 ∷ 98 ∷ []) ∷ [] ∷ []
