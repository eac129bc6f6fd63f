-- ===== src/Actions/Policy/Provision/Needs.antt =====
-- NeedsUserKeyring and NeedsRootToProvision say what the keyring functions do.
use fscrypt.Common.{
  ◌*◌, ◌==◌, ◌&&◌, not, eq_ℤ, pos, ◌≡◌, refl, inl, inr, Bool-cases, Bool, true, false, some, Bytes,
  length, ok, arith,
}
use fscrypt.Metadata.Types.{EncryptionOptions, key_descriptor_size}
use fscrypt.Metadata.Checks.{EnumNames}
use fscrypt.Metadata.Checks.Valid.{version_of}
use fscrypt.Metadata.Checks.Whole.{check_policy}
use fscrypt.Metadata.Checks.PolicyForm.{DescriptorFits, valid_options}
use fscrypt.Keyring.Types.{Kernel, State}
use fscrypt.Keyring.Dispatch.{
  Options, is_fs_keyring_supported, if_supported, as_result, should_use_fs_keyring,
}
use fscrypt.Actions.Types.{Mount, Policy}
use fscrypt.Actions.Policy.Provision.{get_keyring_options, needs_user_keyring}

module _ {J : Type 0} (k : Kernel J) (type_of : Mount → Bytes) where
  supported_ok :
      (s : State J × Bool)
      → s.1 ≡ true
      → ((if_supported k s).1 ≡ ok true) × ((as_result k s).1 ≡ ok true)
  supported_ok (st, true) h = (refl, refl)
  supported_ok (st, false) h = absurd (ground (arith, h))

  used :
      (options : Options) (d : Bytes) (st : State J) (v1 : Bool)
      → (length d == 2 * key_descriptor_size) ≡ v1
      → (is_fs_keyring_supported k options.mount st).1 ≡ true
      → (should_use_fs_keyring k d options st).1
        ≡ ok (not (v1 && not options.use_fs_keyring_for_v1_policies))
  unfolding should_use_fs_keyring
  used options d st true e h = elim (Bool-cases options.use_fs_keyring_for_v1_policies) [
    | inl fs ↦ rw (e, fs) (supported_ok (is_fs_keyring_supported k options.mount st) h).1
    | inr user ↦ rw (e, user) refl
  ]
  used options d st false e h = rw e (supported_ok (is_fs_keyring_supported k options.mount st) h).0

  version_one :
      (e : EncryptionOptions) (d : Bytes)
      → DescriptorFits e d
      → e.policy_version ≡ version_of e
      → (length d == 2 * key_descriptor_size) ≡ eq_ℤ e.policy_version (pos 1)
  version_one e d (inl (v, l)) set = rw (set, v, l) refl
  version_one e d (inr (v, l)) set = rw (set, v, l) refl

  -- Where the kernel has filesystem keyrings, the keyring functions use the user keyring for a valid
  -- policy with a set version exactly if NeedsUserKeyring says so.
  pub needs_user_keyring_lem :
      (names : EnumNames) (policy : Policy) (e : EncryptionOptions) (st : State J)
      → policy.fields.options ≡ some e
      → e.policy_version ≡ version_of e
      → (check_policy names policy.fields).1 ≡ ok tt
      → (is_fs_keyring_supported k policy.context.mount st).1 ≡ true
      → (needs : Bool) × (needs_user_keyring policy ≡ some needs)
        × ((should_use_fs_keyring k policy.fields.key_descriptor
              (get_keyring_options type_of policy.context)
              st).1
            ≡ ok (not needs))
  needs_user_keyring_lem names policy e st has set valid supported =
      let (v, fits) = valid_options names policy.fields e has valid in
      let options = get_keyring_options type_of policy.context in
      let v1 = eq_ℤ e.policy_version (pos 1) in
      (
        v1 && not policy.context.config.use_fs_keyring_for_v1_policies,
        rw has refl,
        used options policy.fields.key_descriptor st v1
            (version_one e policy.fields.key_descriptor fits set) supported,
      )
