-- ===== src/Filesystem/Policies.antt =====
-- filesystem/filesystem.go: the operations on policies.
pub mod Apart
pub mod Readback
pub mod Removed
pub mod Stored
use fscrypt.Common.{Option, none, Bytes, Result, ok, err}
use fscrypt.Metadata.Types.{PolicyData}
use fscrypt.Actions.Types.{Mount, User}
use fscrypt.Filesystem.Store.{Files, StoreError, policy_not_found, System}
use fscrypt.Filesystem.Setup.{policy_path}
use fscrypt.Filesystem.Records.{replaced, add_metadata, get_metadata, remove_metadata}
use fscrypt.Filesystem.Layout.{Layout, policy_format, setup_of, guarded}

abbrev pub path_of : Layout → Mount → Bytes → Bytes
path_of l m descriptor = policy_path l.tree (l.mount_of m) descriptor

-- The policy without the owner of its file.
abbrev pub without_owner : {A B : Type 0} → Result StoreError (A × B) → Result StoreError A
without_owner (ok (p, owner)) = ok p
without_owner (err e) = err e

abbrev pub renamed_error :
    StoreError → Files × Result StoreError (Unit {0}) → Files × Result StoreError (Unit {0})
renamed_error e (files, r) = (files, replaced e r)

module _ (s : System) (l : Layout) where
  unfoldable pub add_policy :
      Mount → PolicyData → Option User → Files → Files × (PolicyData × Result StoreError (Unit {0}))
  unfolding add_metadata
  add_policy m p owner files =
      guarded (setup_of l m none) (λ e. (files, (p, err e)))
        (add_metadata s (policy_format l) (path_of l m p.key_descriptor) p owner files)

  unfoldable pub get_policy : Mount → Bytes → Option User → Files → Result StoreError PolicyData
  unfolding get_metadata
  get_policy m descriptor trusted files =
      guarded (setup_of l m trusted) (λ e. err e)
        (replaced (policy_not_found descriptor)
          (without_owner (get_metadata s (policy_format l) (path_of l m descriptor) trusted files)))

  unfoldable pub remove_policy : Mount → Bytes → Files → Files × Result StoreError (Unit {0})
  unfolding remove_metadata
  remove_policy m descriptor files =
      guarded (setup_of l m none) (λ e. (files, err e))
        (renamed_error (policy_not_found descriptor)
          (remove_metadata s (path_of l m descriptor) files))
