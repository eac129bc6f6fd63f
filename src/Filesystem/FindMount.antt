-- ===== src/Filesystem/FindMount.antt =====
-- filesystem/mountpoint.go: FindMount, with its walk up the directory hierarchy.
pub mod Walk
use fscrypt.Common.{
  ℕ, zero, suc, ◌+◌, [], ◌∷◌, Option, none, some, Bytes, bytes_eq, length, ◌==◌, if◌then◌else◌,
  Result, ok, err,
}
use fscrypt.Filesystem.MountInfo.{Mount}

abbrev pub slash : ℕ
slash = b'/'

-- What stands in front of the last "/".
unfoldable pub cut_last : Bytes → Option Bytes
cut_last [] = none
cut_last (c ∷ s) = elim (cut_last s) [
  | some p ↦ some (c ∷ p)
  | none ↦ if c == slash then some [] else none
]

abbrev pub dir_of : Option Bytes → Bytes
dir_of none = b'.' ∷ []
dir_of (some []) = slash ∷ []
dir_of (some (c ∷ p)) = c ∷ p

-- filepath.Dir of a clean path.
unfoldable pub dir : Bytes → Bytes
dir path = dir_of (cut_last path)

-- The state of the mount table, and the two system calls that FindMount makes.
pub record Table : Type 0 where
  pub load_error : Option ℕ
  pub mounts_by_device : ℕ → Option (Option Mount)
  pub mounts_by_path : Bytes → Option Mount
  pub containing_device : Bytes → Result ℕ ℕ
  pub canonicalize_path : Bytes → Result ℕ Bytes

pub data FindError : Type 0 where
  cannot_load stat_failed bad_path : ℕ → FindError
  lacks_main_mount : ℕ → FindError
  no_mountpoint out_of_fuel : FindError

-- The loop, with fuel.
unfoldable pub walk : Table → ℕ → Bytes → Result FindError Mount
walk t zero cur_path = err out_of_fuel
walk t (suc fuel) cur_path = elim (t.mounts_by_path cur_path) [
  | some m ↦ ok m
  | none ↦
      let parent = dir cur_path in
      let rest = walk t fuel parent in if bytes_eq parent cur_path then err no_mountpoint else rest
]

-- A walk up from a path visits fewer directories than the path has bytes.
abbrev pub walk_up : Table → Result ℕ Bytes → Result FindError Mount
walk_up t (err e) = err (bad_path e)
walk_up t (ok path) = walk t (suc (length path)) path

abbrev pub by_device : Table → Bytes → ℕ → Option (Option Mount) → Result FindError Mount
by_device t path device (some (some m)) = ok m
by_device t path device (some none) = err (lacks_main_mount device)
by_device t path device none = walk_up t (t.canonicalize_path path)

abbrev pub from_device : Table → Bytes → Result ℕ ℕ → Result FindError Mount
from_device t path (err e) = err (stat_failed e)
from_device t path (ok device) = by_device t path device (t.mounts_by_device device)

unfoldable pub find_mount : Table → Bytes → Result FindError Mount
find_mount t path = elim t.load_error [
  | some e ↦ err (cannot_load e)
  | none ↦ from_device t path (t.containing_device path)
]
