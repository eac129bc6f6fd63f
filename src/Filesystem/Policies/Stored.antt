-- ===== src/Filesystem/Policies/Stored.antt =====
-- What the operations on policies do to the stored policies.
use fscrypt.Common.{◌≡◌, ◌≢◌, refl, ap, ◌∙◌, Option, none, some, Bytes, ok, err}
use fscrypt.Metadata.Types.{PolicyData, EncryptionOptions}
use fscrypt.Metadata.Checks.{EnumNames, Check, check_slots, check_options}
use fscrypt.Metadata.Checks.Whole.{finish_policy, policy_options, after_slots, check_policy}
use fscrypt.Actions.Types.{Mount, User}
use fscrypt.Filesystem.Store.{Files, find_file, System}
use fscrypt.Filesystem.Records.{add_metadata}
use fscrypt.Filesystem.Records.Kept.{add_metadata-data, add_metadata_others}
use fscrypt.Filesystem.Layout.{Layout, policy_format, setup_of, guarded_elim}
use fscrypt.Filesystem.Policies.{path_of, add_policy}

finish_policy-keys :
    (p : PolicyData) (r : EncryptionOptions × Check)
    → (finish_policy p r).0.wrapped_policy_keys ≡ p.wrapped_policy_keys
finish_policy-keys p (e, err x) = refl
finish_policy-keys p (e, ok u) = refl

policy_options-keys :
    (names : EnumNames) (p : PolicyData) (o : Option EncryptionOptions)
    → (policy_options names p o).0.wrapped_policy_keys ≡ p.wrapped_policy_keys
policy_options-keys names p none = refl
policy_options-keys names p (some e) = finish_policy-keys p (check_options names e)

after_slots-keys :
    (names : EnumNames) (p : PolicyData) (c : Check)
    → (after_slots names p c).0.wrapped_policy_keys ≡ p.wrapped_policy_keys
after_slots-keys names p (err x) = refl
after_slots-keys names p (ok u) = policy_options-keys names p p.options

-- The check of a policy leaves its keys alone, whether it succeeds or not.
check_policy-keys :
    (names : EnumNames) (p : PolicyData)
    → (check_policy names p).0.wrapped_policy_keys ≡ p.wrapped_policy_keys
unfolding check_policy
check_policy-keys names p = after_slots-keys names p (check_slots 0 p.wrapped_policy_keys)

module _ (s : System) (l : Layout) where
  -- AddPolicy leaves the keys of its argument alone.
  pub add_policy-keys :
      (m : Mount) (p : PolicyData) (owner : Option User) (files : Files)
      → (add_policy s l m p owner files).1.0.wrapped_policy_keys ≡ p.wrapped_policy_keys
  unfolding add_policy
  add_policy-keys m p owner files =
      let path = path_of l m p.key_descriptor in
      guarded_elim (λ r. r.1.0.wrapped_policy_keys ≡ p.wrapped_policy_keys) (setup_of l m none)
        (λ e. (files, (p, err e))) (add_metadata s (policy_format l) path p owner files) (λ e. refl)
        (ap (λ (q : PolicyData). q.wrapped_policy_keys)
            (add_metadata-data s (policy_format l) path p owner files)
          ∙ check_policy-keys l.names p)

  -- AddPolicy changes no file but the one of the policy's descriptor, whether it fails or not.
  pub add_policy_others :
      (m : Mount) (p : PolicyData) (owner : Option User) (files : Files) (q : Bytes)
      → q ≢ path_of l m p.key_descriptor
      → find_file q (add_policy s l m p owner files).0 ≡ find_file q files
  unfolding add_policy
  add_policy_others m p owner files q ne =
      let path = path_of l m p.key_descriptor in
      guarded_elim (λ r. find_file q r.0 ≡ find_file q files) (setup_of l m none)
        (λ e. (files, (p, err e))) (add_metadata s (policy_format l) path p owner files) (λ e. refl)
        (add_metadata_others s (policy_format l) path p owner files q ne)
