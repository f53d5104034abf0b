-- ===== src/Keys/Validity.antt =====
-- Which activation keys the relay accepts, against what the file holds.
use remotecmd_cli.Prelude.{
  String, true, false, not, ◌&&◌, ◌||◌, Option, none, some, List, [], ◌∷◌, ◌++◌, ◌==◌, eqb_refl,
  any, if_cases, ◌≡◌, refl, ap, ◌∙◌, sym, arith, eq_iff, Bool-cases, inl, inr,
}
use remotecmd_cli.Keys.{
  Stamp, keys, missing, present, KeyStore, same_stamp, reload, is_valid, add_key, without_key,
  remove_key, listed,
}

-- What the store has cached is what the file holds, if the stamp is that of the file.
abbrev pub IsSynced : Stamp → List String → KeyStore → Type 0
IsSynced stamp ks store = same_stamp stamp store.stamp ≡ true → store.cached ≡ ks

same_stamp_refl : (a : Stamp) → same_stamp a a ≡ true
same_stamp_refl a = ground (arith, eqb_refl a.mod_time, eqb_refl a.file_size)

reload-synced :
    (stamp : Stamp) (ks : List String) (store : KeyStore)
    → IsSynced stamp ks store
    → (reload (present stamp (keys ks)) store).cached ≡ ks
unfolding reload
reload-synced stamp ks store synced =
    if_cases (λ (x : KeyStore). x.cached ≡ ks) (same_stamp stamp store.stamp) _ _ synced λ _. refl

-- While the store is in step with a file of keys, a check accepts exactly the keys of the file, less the
-- empty one, and leaves the store in step with the file.
pub is_valid_exact :
    (stamp : Stamp) (ks : List String) (key : String) (store : KeyStore)
    → IsSynced stamp ks store
    → ((is_valid (present stamp (keys ks)) key store).0
        ≡ (not (key == "") && any (λ k. k == key) ks))
      × IsSynced stamp ks (is_valid (present stamp (keys ks)) key store).1
unfolding is_valid
is_valid_exact stamp ks key store synced =
    let file = present stamp (keys ks) in
    let found = reload-synced stamp ks store synced in
    elim (Bool-cases (key == "")) [
      | inl empty ↦ rw empty (refl, synced)
      | inr named ↦ rw named (ap (any λ k. k == key) found, λ _. found)
    ]

reload_keeps_stamp :
    (stamp : Stamp) (ks : List String) (store : KeyStore)
    → same_stamp stamp (reload (present stamp (keys ks)) store).stamp ≡ true
unfolding reload
reload_keeps_stamp stamp ks store =
    if_cases (λ (x : KeyStore). same_stamp stamp x.stamp ≡ true) (same_stamp stamp store.stamp) _ _
      (λ same. same) λ _. same_stamp_refl stamp

-- A file of keys that was read, then was missing at one check, and then is back with the same time and
-- size, is not read again: every key is rejected, those of the file included.
pub restored_file_ignored :
    (stamp : Stamp) (ks : List String) (key : String) (store : KeyStore)
    → let file = present stamp (keys ks) in
      (is_valid file key (reload missing (reload file store))).0 ≡ false
unfolding is_valid reload
restored_file_ignored stamp ks key store = rw (reload_keeps_stamp stamp ks store) (ground arith)

member_append :
    (j key : String) (ks : List String)
    → any (λ k. k == j) (ks ++ key ∷ []) ≡ (any (λ k. k == j) ks || key == j)
member_append j key [] = ground arith
member_append j key (k ∷ ks) = ground (arith, member_append j key ks)

member-without_key :
    (j key : String) (ks : List String)
    → any (λ k. k == j) (without_key key ks) ≡ (not (key == j) && any (λ k. k == j) ks)
unfolding without_key
member-without_key j key [] = ground arith
member-without_key j key (k ∷ ks) =
    ground (arith, member-without_key j key ks, eq_iff k key, eq_iff k j, eq_iff key j)

known_member :
    (key j : String) (ks : List String)
    → any (λ k. k == key) ks ≡ true
    → any (λ k. k == j) ks ≡ (any (λ k. k == j) ks || key == j)
known_member key j ks known = elim (Bool-cases (key == j)) [
  | inl same ↦
      rw same (ap (λ x. any (λ k. k == x) ks) (sym ((eq_iff key j).0 same)) ∙ known ∙ ground arith)
  | inr other ↦ rw other (ground arith)
]

-- The keys after an operation that saves them, or saves nothing.
abbrev pub saved_or : List String → Option (List String) → List String
saved_or ks none = ks
saved_or ks (some ks') = ks'

-- While the store is in step with a file of keys, an added key is in the file afterwards together with
-- those that were, and a removed key is not, while all others stay as they were.
pub keys_update :
    (stamp : Stamp) (ks : List String) (key j : String) (store : KeyStore)
    → IsSynced stamp ks store
    → let file = present stamp (keys ks) in
      (any (λ k. k == j) (saved_or ks (add_key file key store).0)
        ≡ (any (λ k. k == j) ks || key == j))
      × (any (λ k. k == j) (remove_key file key store).0 ≡ (not (key == j) && any (λ k. k == j) ks))
unfolding add_key remove_key listed
keys_update stamp ks key j store synced = rw (reload-synced stamp ks store synced) (
  if_cases
      (λ (x : Option (List String) × KeyStore).
        any (λ k. k == j) (saved_or ks x.0) ≡ (any (λ k. k == j) ks || key == j))
      (any (λ k. k == key) ks) _ _ (known_member key j ks) λ _. member_append j key ks,
  member-without_key j key ks,
)
