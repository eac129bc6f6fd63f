-- ===== src/Filesystem/Protectors/Filled.antt =====
-- The operations on mounts fill the interface that the actions use.
use fscrypt.Actions.Policy.Removal.{KeepsKeys}
use fscrypt.Filesystem.Store.{System}
use fscrypt.Filesystem.Layout.{Layout}
use fscrypt.Filesystem.Policies.Stored.{add_policy-keys}
use fscrypt.Filesystem.Protectors.{mount_storage}

-- AddPolicy leaves the wrapped keys of the policy that it is given alone, whether it fails or not,
-- which is what the theorems on the operations of the actions ask of the storage.
pub mount_storage-KeepsKeys : (s : System) (l : Layout) → KeepsKeys (mount_storage s l)
mount_storage-KeepsKeys s l m p owner files = add_policy-keys s l m p owner files
