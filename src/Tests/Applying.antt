-- ===== src/Tests/Applying.antt =====
-- Package actions: policies of directories, and their keys in the keyrings.
use fscrypt.Common.{ℕ, ◌≡◌, ◌↔◌, refl, true, none, to_uint, codes, ok, arith}
use fscrypt.Util.{lookup}
use fscrypt.Hex
use fscrypt.Metadata.Checks.{
  check_slots, check_options, check_wrapped_key, check_wrapped_policy_key, check_valid_length,
  check_mode, check_padding, check_version, check_source,
}
use fscrypt.Metadata.Checks.Whole.{check_policy, check_descriptor, check_config, check_config_costs}
use fscrypt.Metadata.Flags.{build_policy_flags}
use fscrypt.Metadata.Ioctl.{get_policy}
use fscrypt.Metadata.Setting.{
  set_policy, set_version, set_result, disambiguate, set_v2_policy, set_policy_ioctl,
}
use fscrypt.Keyring.Dispatch.{
  is_fs_keyring_supported, check_for_fs_keyring_support, remove_encryption_key,
  should_use_fs_keyring,
}
use fscrypt.Actions.Context.{check_context}
use fscrypt.Actions.Policy.Path.{Paths, apply, get_policy_from_path}
use fscrypt.Actions.Policy.Path.Agrees.{Agreement, locked_policy, get_policy_from_path_iff}
use fscrypt.Actions.Policy.Path.Found.{get_policy_from_path-apply}
use fscrypt.Actions.Policy.Provision.{purge, purge_all_policies}
use fscrypt.Actions.Policy.Provision.Purged.{Purged, purge_all_policies_removes}
use fscrypt.Tests.Samples.{names, options, context, policy, policy_data, retrieval, process}
use fscrypt.Tests.Checking.{kernel, kernel-StoresPolicies, directory}
use fscrypt.Tests.Ringing as Ringing
use fscrypt.Tests.Ringing.{root_state, user_keyring}

abbrev paths : Paths ℕ
paths = record {
  have_read_access_to = λ path. true;
  find_mount = λ path. ok 1;
  is_policy_not_found = λ e. true;
}

get_policy_from_path_iff_example :
    ((get_policy_from_path {K = ℕ} names retrieval paths Ringing.kernel 0 directory kernel none
        context root_state).1
      ≡ ok policy)
    ↔ (((check_context names retrieval {K = ℕ} context 0).1 ≡ ok tt)
        × Agreement retrieval 0
            (check_context names retrieval {K = ℕ} context 0).0
            (get_policy kernel none directory)
            policy)
get_policy_from_path_iff_example =
    get_policy_from_path_iff ℕ names retrieval paths Ringing.kernel 0 directory kernel none context
      root_state policy

applied : (apply {E = ℕ} {K = ℕ} names kernel policy paths none directory).1.1 ≡ ok tt
unfolding apply set_policy set_version set_v2_policy set_policy_ioctl set_result disambiguate
    Hex.decode Hex.from_hex_char build_policy_flags lookup check_policy check_slots check_options
    check_wrapped_key check_wrapped_policy_key check_valid_length check_mode check_padding
    check_version check_descriptor
applied = refl

context_good : (check_context names retrieval {K = ℕ} context 0).1 ≡ ok tt
unfolding check_context check_config check_config_costs check_source check_options check_mode
    check_padding check_version to_uint
context_good = refl

get_policy_from_path-apply_example :
    (get_policy_from_path {K = ℕ} names retrieval paths Ringing.kernel 0 directory kernel
      (apply {K = ℕ} names kernel policy paths none directory).0
      context
      root_state).1
    ≡ ok (locked_policy (check_context names retrieval {K = ℕ} context 0).0 policy_data)
get_policy_from_path-apply_example =
    get_policy_from_path-apply ℕ names retrieval paths Ringing.kernel kernel kernel-StoresPolicies 0
      directory policy options none context root_state policy_data refl (omega arith) (omega arith)
      applied refl context_good refl refl refl

purged :
    (purge_all_policies Ringing.kernel user_keyring process
      (λ m. codes "ext4")
      {K = ℕ}
      names
      retrieval
      context
      0
      root_state).1
    ≡ ok tt
unfolding purge_all_policies purge check_context check_config check_config_costs check_source
    check_options check_mode check_padding check_version remove_encryption_key should_use_fs_keyring
    is_fs_keyring_supported check_for_fs_keyring_support to_uint Hex.decode Hex.from_hex_char
purged = refl

purge_all_policies_removes_example :
    Purged Ringing.kernel user_keyring process
      (λ m. codes "ext4")
      ℕ
      names
      retrieval
      (check_context names retrieval {K = ℕ} context 0).0
      0
      root_state
      (purge_all_policies Ringing.kernel user_keyring process
        (λ m. codes "ext4")
        {K = ℕ}
        names
        retrieval
        context
        0
        root_state).0
purge_all_policies_removes_example =
    purge_all_policies_removes Ringing.kernel user_keyring process (λ m. codes "ext4") ℕ names
      retrieval context 0 root_state purged

supported : (is_fs_keyring_supported Ringing.kernel 1 root_state).1 ≡ true
unfolding is_fs_keyring_supported check_for_fs_keyring_support
supported = refl
