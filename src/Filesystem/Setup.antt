-- ===== src/Filesystem/Setup.antt =====
-- filesystem/filesystem.go: the metadata directories of a filesystem, and CheckSetup.
pub mod Accepted
use fscrypt.Common.{
  ℕ, ◌/◌, ◌%◌, ◌==◌, Bool, true, false, not, ◌&&◌, ◌||◌, List, [], ◌∷◌, ◌++◌, Option, none, some,
  Bytes, bytes_eq, codes, if◌then◌else◌, Result, ok, err, ◌>>=◌, ◌>>◌,
}
use fscrypt.Actions.Types.{User}
use fscrypt.Filesystem.MountInfo.{Mount}
use fscrypt.Filesystem.Clean.{join_path}
use fscrypt.Filesystem.Store.{
  SetupError, not_set_up, mount_owned_by_another_user, set_up_by_another_user, insecure_permissions,
  check_ownership,
}

-- What Stat and Lstat show of a directory: `perm` has the nine bits of the permissions.
pub record Info : Type 0 where
  pub is_symlink : Bool
  pub is_dir : Bool
  pub is_sticky : Bool
  pub perm : ℕ
  pub uid : User

-- The directories, by path. The operations on metadata files leave them as they are.
pub record Tree : Type 0 where
  pub lstat : Bytes → Option Info
  pub stat : Bytes → Option Info
  pub readlink : Bytes → Option Bytes

abbrev is_abs : Bytes → Bool
is_abs [] = false
is_abs (c ∷ s) = c == b'/'

module _ (t : Tree) where
  abbrev base_target : Mount → Bytes → Option Bytes → Bytes
  base_target m raw none = raw
  base_target m raw (some target) = if is_abs target then target else join_path m.path target

  unfoldable pub base_dir : Mount → Bytes
  unfolding join_path
  base_dir m = let raw = join_path m.path (codes ".fscrypt") in base_target m raw (t.readlink raw)

  unfoldable pub protector_dir : Mount → Bytes
  unfolding base_dir join_path
  protector_dir m = join_path (base_dir m) (codes "protectors")

  unfoldable pub protector_path : Mount → Bytes → Bytes
  unfolding protector_dir join_path
  protector_path m descriptor = join_path (protector_dir m) descriptor

  unfoldable pub linked_protector_path : Mount → Bytes → Bytes
  unfolding protector_path
  linked_protector_path m descriptor = protector_path m descriptor ++ codes ".link"

  unfoldable pub policy_dir : Mount → Bytes
  unfolding base_dir join_path
  policy_dir m = join_path (base_dir m) (codes "policies")

  unfoldable pub policy_path : Mount → Bytes → Bytes
  unfolding policy_dir join_path
  policy_path m descriptor = join_path (policy_dir m) descriptor

-- The cases of the switch.
abbrev fscrypt_types : List Bytes
fscrypt_types =
    codes "ext4"
    ∷ codes "f2fs"
    ∷ codes "ubifs"
    ∷ codes "btrfs"
    ∷ codes "ceph"
    ∷ codes "xfs"
    ∷ codes "lustre"
    ∷ []

unfoldable pub is_one_of : List Bytes → Bytes → Bool
is_one_of [] s = false
is_one_of (x ∷ xs) s = bytes_eq s x || is_one_of xs s

unfoldable pub is_fscrypt_setup_allowed : Mount → Bool
unfolding is_one_of
is_fscrypt_setup_allowed m =
    bytes_eq m.path (codes "/") || is_one_of fscrypt_types m.filesystem_type

-- An error that is returned where a test fails.
abbrev pub require : Bool → SetupError → Result SetupError (Unit {0})
require true e = ok tt
require false e = err e

abbrev pub found : Option Info → Result SetupError Info
found none = err not_set_up
found (some i) = ok i

abbrev pub is_world_writable : Info → Bool
is_world_writable i = i.perm / 2 % 2 == 1

-- The body of the loop over the two directories.
unfoldable pub check_subdir : Tree → Option User → Bytes → Result SetupError (Unit {0})
check_subdir t trusted path = do
  i ← found (t.lstat path)
  require (not i.is_symlink) not_set_up
  require i.is_dir not_set_up
  require (not (is_world_writable i && not i.is_sticky)) (insecure_permissions path)
  require (check_ownership i.uid trusted) set_up_by_another_user

unfoldable pub check_subdirs : Tree → Option User → List Bytes → Result SetupError (Unit {0})
check_subdirs t trusted [] = ok tt
check_subdirs t trusted (path ∷ paths) = do
  check_subdir t trusted path
  check_subdirs t trusted paths

unfoldable pub check_setup : Tree → Mount → Option User → Result SetupError (Unit {0})
unfolding is_fscrypt_setup_allowed base_dir policy_dir protector_dir check_subdir check_subdirs
check_setup t m trusted = do
  require (is_fscrypt_setup_allowed m) not_set_up
  i ← found (t.lstat m.path)
  require (not i.is_symlink) not_set_up
  require i.is_dir not_set_up
  require (check_ownership i.uid trusted) mount_owned_by_another_user
  b ← found (t.stat (base_dir t m))
  require b.is_dir not_set_up
  require (check_ownership b.uid trusted) mount_owned_by_another_user
  check_subdirs t trusted (policy_dir t m ∷ protector_dir t m ∷ [])
