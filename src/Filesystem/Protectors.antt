-- ===== src/Filesystem/Protectors.antt =====
-- filesystem/filesystem.go: the operations on protectors and on the links to them.
pub mod Filled
pub mod Links
pub mod Owned
use fscrypt.Common.{
  ◌++◌, pos, eq_ℤ, Bool, true, false, not, ◌&&◌, ◌==◌, Option, none, some, Bytes, if◌then◌else◌,
  Result, ok, err,
}
use fscrypt.Metadata.Types.{ProtectorData}
use fscrypt.Metadata.Source
use fscrypt.Actions.Types.{Mount, User, Storage}
use fscrypt.Filesystem.Link.{FollowError, get_mount_from_link, make_link}
use fscrypt.Filesystem.Store.{
  Files, find_file, File, stat, StoreError, protector_not_found, linked_protector, corrupt,
  bad_link, link_points_elsewhere, cannot_follow, System, write_data, read_metadata_file_safe,
}
use fscrypt.Filesystem.Setup.{protector_path, linked_protector_path}
use fscrypt.Filesystem.Records.{
  file_permissions, is_not_exist, replaced, add_metadata, get_metadata, remove_metadata,
}
use fscrypt.Filesystem.Layout.{Layout, protector_format, setup_of, guarded}
use fscrypt.Filesystem.Policies.{add_policy, remove_policy, renamed_error}

abbrev pub path_of : Layout → Mount → Bytes → Bytes
path_of l m descriptor = protector_path l.tree (l.mount_of m) descriptor

abbrev pub link_path_of : Layout → Mount → Bytes → Bytes
link_path_of l m descriptor = linked_protector_path l.tree (l.mount_of m) descriptor

abbrev shows_regular : Option File → Bool
shows_regular none = false
shows_regular (some file) = file.is_regular

-- isRegularFile
unfoldable pub is_regular_file : System → Bytes → Files → Bool
unfolding find_file
is_regular_file s path files = elim (s.fails stat path) [
  | some errno ↦ false
  | none ↦ shows_regular (find_file path files)
]

abbrev pub without_data :
    {A : Type 0} → Files × (A × Result StoreError (Unit {0})) → Files × Result StoreError (Unit {0})
without_data (files, (p, r)) = (files, r)

-- A login protector has to be owned by root or by the user that it names.
abbrev pub owner_checked :
    Bytes → Result StoreError (ProtectorData × User) → Result StoreError ProtectorData
owner_checked path (err e) = err e
owner_checked path (ok (p, owner)) =
    if eq_ℤ p.source Source.pam_passphrase && not (owner == 0) && not (eq_ℤ (pos owner) p.uid)
    then err (corrupt path)
    else ok p

module _ (s : System) (l : Layout) where
  unfoldable pub add_protector :
      Mount → ProtectorData → Option User → Files → Files × Result StoreError (Unit {0})
  unfolding is_regular_file add_metadata
  add_protector m p owner files =
      guarded (setup_of l m none) (λ e. (files, err e))
        (if is_regular_file s (link_path_of l m p.protector_descriptor) files
          then (files, err (linked_protector p.protector_descriptor))
          else without_data (
              add_metadata s (protector_format l) (path_of l m p.protector_descriptor) p owner
                files))

  unfoldable pub get_regular_protector :
      Mount → Bytes → Option User → Files → Result StoreError ProtectorData
  unfolding get_metadata
  get_regular_protector m descriptor trusted files =
      let path = path_of l m descriptor in
      guarded (setup_of l m trusted) (λ e. err e)
        (owner_checked path (
          replaced (protector_not_found descriptor)
            (get_metadata s (protector_format l) path trusted files)))

  -- The protector beside the mount that has it.
  abbrev pub at_mount :
      Mount → Result StoreError ProtectorData → Result StoreError (Mount × ProtectorData)
  at_mount m (ok p) = ok (m, p)
  at_mount m (err e) = err e

  abbrev pub through_link :
      Bytes → Mount → Result StoreError ProtectorData → Result StoreError (Mount × ProtectorData)
  through_link link m (ok p) = ok (m, p)
  through_link link m (err e) = err (cannot_follow link e)

  abbrev pub followed :
      Bytes
      → Bytes
      → Bytes
      → Option User
      → Files
      → Result FollowError Mount
      → Result StoreError (Mount × ProtectorData)
  followed descriptor path link trusted files (err e) = err (bad_link path e)
  followed descriptor path link trusted files (ok m) =
      through_link link m (get_regular_protector m descriptor trusted files)

  abbrev pub link_read :
      Mount
      → Bytes
      → Bytes
      → Option User
      → Files
      → Result StoreError (Bytes × User)
      → Result StoreError (Mount × ProtectorData)
  link_read m descriptor path trusted files (err e) =
      if is_not_exist e
      then at_mount m (get_regular_protector m descriptor trusted files)
      else err e
  link_read m descriptor path trusted files (ok (link, owner)) =
      followed descriptor path link trusted files (get_mount_from_link l.lookups link)

  unfoldable pub get_protector :
      Mount → Bytes → Option User → Files → Result StoreError (Mount × ProtectorData)
  unfolding read_metadata_file_safe get_regular_protector get_mount_from_link
  get_protector m descriptor trusted files =
      let path = link_path_of l m descriptor in
      guarded (setup_of l m trusted) (λ e. err e)
        (link_read m descriptor path trusted files (read_metadata_file_safe s path trusted files))

  -- The regular protector is removed if there is no link.
  abbrev pub remove_next :
      Mount → Bytes → Files × Result StoreError (Unit {0}) → Files × Result StoreError (Unit {0})
  remove_next m descriptor (files, ok u) = (files, ok u)
  remove_next m descriptor (files, err e) =
      if is_not_exist e
      then renamed_error (protector_not_found descriptor)
          (remove_metadata s (path_of l m descriptor) files)
      else (files, err e)

  unfoldable pub remove_protector : Mount → Bytes → Files → Files × Result StoreError (Unit {0})
  unfolding remove_metadata
  remove_protector m descriptor files =
      guarded (setup_of l m none) (λ e. (files, err e))
        (remove_next m descriptor (remove_metadata s (link_path_of l m descriptor) files))

  -- A link that is there already has to lead to the right mount.
  abbrev pub existing_link :
      Mount → Bytes → Files → Result FollowError Mount → Files × Result StoreError Bool
  existing_link dest path files (err e) = (files, err (bad_link path e))
  existing_link dest path files (ok m) =
      if m == dest then (files, ok false) else (files, err (link_points_elsewhere path m dest))

  abbrev pub created_link : Files × Result StoreError (Unit {0}) → Files × Result StoreError Bool
  created_link (files, ok u) = (files, ok true)
  created_link (files, err e) = (files, err e)

  abbrev pub make_new_link :
      Mount
      → Bytes
      → Option User
      → Files
      → Result StoreError (Bytes × User)
      → Files × Result StoreError Bool
  make_new_link dest path owner files (ok (link, uid)) =
      existing_link dest path files (get_mount_from_link l.lookups link)
  make_new_link dest path owner files (err e) =
      if is_not_exist e
      then created_link (
          write_data s path (make_link (l.uuid_of dest) (l.mount_of dest)) owner file_permissions
            files)
      else (files, err e)

  abbrev pub link_good :
      Mount
      → Bytes
      → Option User
      → Option User
      → Files
      → Result StoreError ProtectorData
      → Files × Result StoreError Bool
  link_good dest path trusted owner files (err e) = (files, err e)
  link_good dest path trusted owner files (ok p) =
      make_new_link dest path owner files (read_metadata_file_safe s path trusted files)

  unfoldable pub add_linked_protector :
      Mount → Bytes → Mount → Option User → Option User → Files → Files × Result StoreError Bool
  unfolding get_regular_protector read_metadata_file_safe get_mount_from_link write_data make_link
  add_linked_protector m descriptor dest trusted owner files =
      guarded (setup_of l m trusted) (λ e. (files, err e))
        (link_good dest (link_path_of l m descriptor) trusted owner files
          (get_regular_protector dest descriptor trusted files))

  -- The storage that the actions use.
  abbrev pub mount_storage : Storage Files StoreError
  mount_storage = record {
    add_policy = λ m p owner files. add_policy s l m p owner files;
    remove_policy = λ m d files. remove_policy s l m d files;
    add_protector = λ m p owner files. add_protector m p owner files;
    remove_protector = λ m d files. remove_protector m d files;
    add_linked_protector =
        λ m d dest trusted owner files. add_linked_protector m d dest trusted owner files;
  }
