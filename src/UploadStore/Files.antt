-- ===== src/UploadStore/Files.antt =====
-- The part of the file system that the store changes: the directories under the upload root with
-- the names in each. Any call may fail instead with an error number that the operating system
-- chooses; a failed call changes nothing.
use holdfast.Base.{
  Bytes, bytes_eq, any, retain, ℕ, Bool, false, not, Option, none, some, List, [], ◌∷◌,
}
use holdfast.Base.Map
use holdfast.Base.Map.{Map, bytes_key}

abbrev pub Root : Type 0
Root = Map Bytes (List Bytes)

-- The system calls of the store, in the order of the source.
pub data Call : Type 0 where
  mkdir open_dir chmod_dir create_partial chmod_file undo_create undo_mkdir : Call
  flush sync link unlink_partial sync_dir chown_file chown_dir : Call
  drop_partial drop_stored drop_dir : Call

abbrev pub Faults : Type 0
Faults = Call → Option ℕ

-- `openat(… O_CREAT | O_EXCL …)` and `linkat`: a new name in a directory.
unfoldable pub add_name : Bytes → Bytes → Root → Root
add_name directory name root = elim (Map.get root directory) [
  | none ↦ root
  | some names ↦ Map.insert root directory (name ∷ names)
]

-- `unlinkat(…, NoRemoveDir)`
unfoldable pub unlink_name : Bytes → Bytes → Root → Root
unlink_name directory name root = elim (Map.get root directory) [
  | none ↦ root
  | some names ↦ Map.insert root directory (retain (λ n. not (bytes_eq n name)) names)
]

-- `unlinkat(…, RemoveDir)`, which refuses a directory that is not empty.
unfoldable pub remove_dir : Bytes → Root → Root
remove_dir directory root = elim (Map.get root directory) [
  | some [] ↦ Map.remove root directory
  | _ ↦ root
]

-- `let _ = call(…)`: the effect, unless the call fails.
unfoldable pub ignoring : Faults → Call → (Root → Root) → Root → Root
ignoring faults call effect root = elim (faults call) [ none ↦ effect root | some _ ↦ root ]

-- Whether a directory has the name.
unfoldable pub holds_name : Bytes → Bytes → Root → Bool
holds_name directory name root = elim (Map.get root directory) [
  | none ↦ false
  | some names ↦ any (λ n. bytes_eq n name) names
]
