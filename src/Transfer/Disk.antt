-- ===== src/Transfer/Disk.antt =====
-- The files that the daemon writes (os.Create, os.File, os.WriteFile): contents by path, and open handles.
-- A handle that was closed takes no more writes. An operation may be refused, or a write cut short, as
-- `fault` says of its number.
use remotecmd_cli.Prelude.{
  ℕ, zero, suc, ◌+◌, ◌-◌, String, Bool, true, false, Option, none, some, List, [], ◌∷◌, ◌++◌,
  length, take, drop, eqb, if◌then◌else◌,
}
use remotecmd_cli.Dict
use remotecmd_cli.Dict.{Dict}

pub data Fault : Type 0 where
  refused : Fault
  cut : ℕ → Fault

pub record FileHandle : Type 0 where
  pub path : String
  pub offset : ℕ
  pub is_open : Bool

pub record Disk : Type 0 where
  pub content : Dict (List ℕ)
  pub handles : ℕ → FileHandle
  pub opened : ℕ
  pub ops : ℕ

abbrev pub zeros : ℕ → List ℕ
zeros zero = []
zeros (suc n) = 0 ∷ zeros n

-- Bytes written over old ones from a position; a gap behind the old ones is filled with zeros.
unfoldable pub splice : List ℕ → ℕ → List ℕ → List ℕ
splice old at bytes =
    take at (old ++ zeros (at - length old)) ++ (bytes ++ drop (at + length bytes) old)

abbrev pub bytes_of : Option (List ℕ) → List ℕ
bytes_of none = []
bytes_of (some bytes) = bytes

-- What a path holds, nothing where there is no file.
abbrev pub file_at : String → Disk → List ℕ
file_at path d = bytes_of (Dict.get d.content path)

abbrev pub put_file : String → List ℕ → Disk → Disk
put_file path bytes d = record d { content = Dict.put d.content path bytes }

abbrev pub set_handle : ℕ → FileHandle → Disk → Disk
set_handle h v d = record d { handles = λ k. if eqb h k then v else d.handles k }

-- Every operation has a number.
abbrev pub next_op : Disk → Disk
next_op d = record d { ops = suc d.ops }

module _ (fault : ℕ → Option Fault) where
  abbrev pub create_as : Option Fault → String → Disk → Option ℕ × Disk
  create_as (some f) path d = (none, next_op d)
  create_as none path d = (
    some d.opened,
    record (put_file path []
        (set_handle d.opened (record { path = path; offset = 0; is_open = true }) (next_op d))) {
          opened = suc d.opened;
        },
  )

  -- os.Create
  unfoldable pub create : String → Disk → Option ℕ × Disk
  create path d = create_as (fault d.ops) path d

  -- f.Truncate(size), whose error the caller ignores.
  unfoldable pub truncate : ℕ → ℕ → Disk → Disk
  truncate h size d = elim (fault d.ops) [
    | some f ↦ next_op d
    | none ↦
        let path = (d.handles h).path in
        let old = file_at path d in
        put_file path (take size (old ++ zeros (size - length old))) (next_op d)
  ]

  -- Bytes that reach the file of a handle, at its offset.
  abbrev pub put_bytes : ℕ → List ℕ → Disk → Disk
  put_bytes h bytes d =
      let v = d.handles h in
      put_file v.path (splice (file_at v.path d) v.offset bytes)
        (set_handle h (record v { offset = v.offset + length bytes }) d)

  abbrev pub write_as : Option Fault → ℕ → List ℕ → Disk → Bool × Disk
  write_as none h bytes d = (true, put_bytes h bytes (next_op d))
  write_as (some refused) h bytes d = (false, next_op d)
  write_as (some (cut n)) h bytes d = (false, put_bytes h (take n bytes) (next_op d))

  -- f.Write(bytes): whether it succeeds.
  unfoldable pub write_handle : ℕ → List ℕ → Disk → Bool × Disk
  write_handle h bytes d =
      if (d.handles h).is_open then write_as (fault d.ops) h bytes d else (false, next_op d)

  abbrev pub seek_as : Option Fault → ℕ → ℕ → Disk → Bool × Disk
  seek_as (some f) h at d = (false, next_op d)
  seek_as none h at d = (true, set_handle h (record (d.handles h) { offset = at }) (next_op d))

  -- f.Seek(at, 0)
  unfoldable pub seek : ℕ → ℕ → Disk → Bool × Disk
  seek h at d = if (d.handles h).is_open then seek_as (fault d.ops) h at d else (false, next_op d)

  abbrev write_file_as : Option Fault → String → List ℕ → Disk → Bool × Disk
  write_file_as none path bytes d = (true, put_file path bytes (next_op d))
  write_file_as (some refused) path bytes d = (false, next_op d)
  write_file_as (some (cut n)) path bytes d = (false, put_file path (take n bytes) (next_op d))

  -- os.WriteFile
  unfoldable pub write_file : String → List ℕ → Disk → Bool × Disk
  write_file path bytes d = write_file_as (fault d.ops) path bytes d

  -- os.MkdirAll: only whether it succeeds is kept.
  unfoldable pub make_dirs : String → Disk → Bool × Disk
  make_dirs path d = elim (fault d.ops) [ none ↦ (true, next_op d) | some f ↦ (false, next_op d) ]

  abbrev pub overwrite_as : Option Fault → String → List ℕ → Disk → Bool × Disk
  overwrite_as none path bytes d =
      (true, put_file path (splice (file_at path d) 0 bytes) (next_op d))
  overwrite_as (some refused) path bytes d = (false, next_op d)
  overwrite_as (some (cut n)) path bytes d =
      (false, put_file path (splice (file_at path d) 0 (take n bytes)) (next_op d))

  -- os.OpenFile without O_TRUNC, and io.Copy to it.
  unfoldable pub overwrite : String → List ℕ → Disk → Bool × Disk
  overwrite path bytes d = overwrite_as (fault d.ops) path bytes d

-- f.Close()
unfoldable pub close : ℕ → Disk → Disk
close h d = set_handle h (record (d.handles h) { is_open = false }) d
