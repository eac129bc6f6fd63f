-- ===== src/Filesystem/Policies/Apart.antt =====
-- Policies with different descriptors do not disturb each other.
use fscrypt.Common.{◌≡◌, ◌≢◌, ap, Option, Bytes, err}
use fscrypt.Metadata.Types.{PolicyData}
use fscrypt.Actions.Types.{Mount, User}
use fscrypt.Filesystem.Clean.{IsName, join_path-Injective}
use fscrypt.Filesystem.Setup.{policy_dir, policy_path}
use fscrypt.Filesystem.Store.{Files, System, policy_not_found}
use fscrypt.Filesystem.Records.{replaced}
use fscrypt.Filesystem.Records.Kept.{get_metadata-found}
use fscrypt.Filesystem.Layout.{Layout, policy_format, setup_of, guarded}
use fscrypt.Filesystem.Policies.{path_of, add_policy, get_policy, without_owner}
use fscrypt.Filesystem.Policies.Stored.{add_policy_others}

module _ (s : System) (l : Layout) where
  path_of-Injective :
      (m : Mount) (d d' : Bytes) → IsName d → IsName d' → path_of l m d ≡ path_of l m d' → d ≡ d'
  unfolding policy_path
  path_of-Injective m d d' name name' e =
      join_path-Injective (policy_dir l.tree (l.mount_of m)) d d' name name' e

  -- AddPolicy, whether it fails or not, does not change what GetPolicy answers for another
  -- descriptor, if both descriptors are names of files.
  pub get_policy-add_policy_other :
      (m : Mount) (p : PolicyData) (owner trusted : Option User) (d : Bytes) (files : Files)
      → IsName d
      → IsName p.key_descriptor
      → d ≢ p.key_descriptor
      → get_policy s l m d trusted (add_policy s l m p owner files).0
        ≡ get_policy s l m d trusted files
  unfolding get_policy
  get_policy-add_policy_other m p owner trusted d files name name' ne =
      let path = path_of l m d in
      let apart : path ≢ path_of l m p.key_descriptor =
        λ e. ne (path_of-Injective m d p.key_descriptor name name' e) in
      ap
        (λ r.
          guarded (setup_of l m trusted) (λ x. err x)
            (replaced (policy_not_found d) (without_owner r)))
        (get_metadata-found s (policy_format l) path trusted files
          (add_policy s l m p owner files).0 (add_policy_others s l m p owner files path apart))
