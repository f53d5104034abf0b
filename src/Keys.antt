-- ===== src/Keys.antt =====
-- The relay's activation keys (activation_keys.go): the cache, its refresh from the file, the operations.
-- The file system is a parameter of each call, as what it holds at that time. Locking is not modelled.
pub mod Validity
use remotecmd_cli.Prelude.{
  ℕ, String, Bool, true, false, not, ◌&&◌, Option, none, some, List, [], ◌∷◌, ◌++◌, ◌==◌, eqb, any,
  if◌then◌else◌,
}

-- What os.Stat reports and the store remembers: the time of the last change and the size. The store only
-- compares them for equality, so their int64 values are taken by their bit patterns.
pub record Stamp : Type 0 where
  pub mod_time : ℕ
  pub file_size : ℕ

-- What reading the file gives.
pub data Content : Type 0 where
  unreadable : Content
  malformed : Content
  keys : List String → Content

pub data KeyFile : Type 0 where
  missing : KeyFile
  present : Stamp → Content → KeyFile

-- activationKeyStore
pub record KeyStore : Type 0 where
  pub cached : List String
  pub stamp : Stamp

abbrev pub same_stamp : Stamp → Stamp → Bool
same_stamp a b = eqb a.mod_time b.mod_time && eqb a.file_size b.file_size

abbrev read_content : Stamp → Content → KeyStore → KeyStore
read_content stamp unreadable store = store
read_content stamp malformed store = record { cached = []; stamp = stamp }
read_content stamp (keys ks) store = record { cached = ks; stamp = stamp }

-- reload
unfoldable pub reload : KeyFile → KeyStore → KeyStore
reload missing store = record store { cached = [] }
reload (present stamp content) store =
    if same_stamp stamp store.stamp then store else read_content stamp content store

-- isValid
unfoldable pub is_valid : KeyFile → String → KeyStore → Bool × KeyStore
unfolding reload
is_valid file key store =
    if key == ""
    then (false, store)
    else (any (λ k. k == key) (reload file store).cached, reload file store)

-- list
unfoldable pub listed : KeyFile → KeyStore → List String × KeyStore
unfolding reload
listed file store = ((reload file store).cached, reload file store)

-- addActivationKey: the keys that it saves, if it saves any, and the store.
unfoldable pub add_key : KeyFile → String → KeyStore → Option (List String) × KeyStore
unfolding listed
add_key file key store =
    let (ks, next) = listed file store in
    if any (λ k. k == key) ks then (none, next) else (some (ks ++ key ∷ []), next)

-- The loop of removeActivationKey.
unfoldable pub without_key : String → List String → List String
without_key key [] = []
without_key key (k ∷ ks) =
    let rest = without_key key ks in if not (k == key) then k ∷ rest else rest

-- removeActivationKey: the keys that it saves, and the store.
unfoldable pub remove_key : KeyFile → String → KeyStore → List String × KeyStore
unfolding listed without_key
remove_key file key store = let (ks, next) = listed file store in (without_key key ks, next)
