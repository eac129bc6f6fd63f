-- ===== src/Filesystem/Records.antt =====
-- filesystem/filesystem.go: addMetadata, getMetadata and removeMetadata, for a kind of metadata.
pub mod Kept
use fscrypt.Common.{
  ℕ, Bool, true, false, ◌&&◌, ◌%◌, ◌==◌, Option, none, some, Bytes, if◌then◌else◌, Result, ok, err,
}
use fscrypt.Metadata.Checks.{Check}
use fscrypt.Actions.Types.{User}
use fscrypt.Filesystem.Store.{
  File, Files, find_file, delete_file, lstat, remove, enoent, StoreError, system, not_exist,
  corrupt, invalid_metadata, cannot_marshal, System, write_data, read_metadata_file_safe,
}

-- A kind of metadata: proto.Marshal and proto.Unmarshal, and its CheckValidity, which may change the
-- structure that it checks.
pub record Format (A : Type 0) : Type 0 where
  pub marshal : A → Option Bytes
  pub unmarshal : Bytes → Option A
  pub check : A → A × Check

-- The default of 0600.
abbrev pub file_permissions : ℕ
file_permissions = 384

-- os.IsNotExist
abbrev pub is_not_exist : StoreError → Bool
is_not_exist (not_exist path) = true
is_not_exist (system errno) = errno == enoent
is_not_exist e = false

-- An error that says that a file does not exist is replaced by another.
abbrev pub replaced : {A : Type 0} → StoreError → Result StoreError A → Result StoreError A
replaced e (ok a) = ok a
replaced e (err x) = if is_not_exist x then err e else err x

-- An existing file keeps its mode, and its owner if root writes it without an owner.
abbrev pub kept_owner : System → Option User → Option ℕ → Option File → Option User
kept_owner s (some owner) failed existing = some owner
kept_owner s none none (some file) =
    if s.euid == 0 && s.has_user file.uid then some file.uid else none
kept_owner s none _ _ = none

abbrev pub kept_mode : Option ℕ → Option File → ℕ
kept_mode none (some file) = file.mode % 512
kept_mode _ _ = file_permissions

-- The end of addMetadata, with the marshalled data.
abbrev pub write_marshalled :
    System → Bytes → Option User → Files → Option Bytes → Files × Result StoreError (Unit {0})
write_marshalled s path owner files none = (files, err cannot_marshal)
write_marshalled s path owner files (some content) =
    let existing = find_file path files in
    let failed = s.fails lstat path in
    write_data s path content (kept_owner s owner failed existing) (kept_mode failed existing) files

module _ {A : Type 0} (s : System) (f : Format A) where
  abbrev pub add_checked :
      Bytes → Option User → Files → A × Check → Files × (A × Result StoreError (Unit {0}))
  add_checked path owner files (p, err x) = (files, (p, err invalid_metadata))
  add_checked path owner files (p, ok u) =
      let r = write_marshalled s path owner files (f.marshal p) in (r.0, (p, r.1))

  -- The structure that is given comes back, as the check has left it.
  unfoldable pub add_metadata :
      Bytes → A → Option User → Files → Files × (A × Result StoreError (Unit {0}))
  unfolding find_file write_data
  add_metadata path p owner files = add_checked path owner files (f.check p)

  abbrev pub checked_data : Bytes → User → A × Check → Result StoreError (A × User)
  checked_data path owner (p, ok u) = ok (p, owner)
  checked_data path owner (p, err x) = err (corrupt path)

  abbrev pub unmarshalled : Bytes → User → Option A → Result StoreError (A × User)
  unmarshalled path owner none = err (corrupt path)
  unmarshalled path owner (some p) = checked_data path owner (f.check p)

  abbrev pub read_data : Bytes → Result StoreError (Bytes × User) → Result StoreError (A × User)
  read_data path (err e) = err e
  read_data path (ok (content, owner)) = unmarshalled path owner (f.unmarshal content)

  -- The metadata and the owner of its file.
  unfoldable pub get_metadata : Bytes → Option User → Files → Result StoreError (A × User)
  unfolding read_metadata_file_safe
  get_metadata path trusted files = read_data path (read_metadata_file_safe s path trusted files)

-- os.Remove, of a file that is there or not.
abbrev pub removed : Bytes → Files → Option ℕ → Option File → Files × Result StoreError (Unit {0})
removed path files (some errno) file = (files, err (system errno))
removed path files none none = (files, err (not_exist path))
removed path files none (some file) = (delete_file path files, ok tt)

unfoldable pub remove_metadata : System → Bytes → Files → Files × Result StoreError (Unit {0})
unfolding find_file delete_file
remove_metadata s path files = removed path files (s.fails remove path) (find_file path files)
