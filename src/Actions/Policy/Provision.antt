-- ===== src/Actions/Policy/Provision.antt =====
-- actions/policy.go: the key of a policy in the keyrings, and PurgeAllPolicies.
-- actions/context.go: getKeyringOptions.
pub mod Purged
pub mod Needs
use fscrypt.Common.{
  ◌==◌, ◌&&◌, ◌||◌, not, eq_ℤ, pos, ℤ, Bool, true, false, List, [], ◌∷◌, Option, none, some, Bytes,
  if◌then◌else◌, Result, ok, err,
}
use mathlib.Core.Option as Option
use fscrypt.Metadata.Types.{EncryptionOptions}
use fscrypt.Metadata.Checks.{EnumNames}
use fscrypt.Crypto.Key.{Key}
use fscrypt.Keyring.Types.{
  KeyStatus, unknown, present, KeyringError, key_added_by_other_users, key_files_open,
  key_not_present, Kernel, State,
}
use fscrypt.Keyring.Dispatch.{
  Options, UserKeyring, add_encryption_key, remove_encryption_key, get_encryption_key_status,
}
use fscrypt.Actions.Types.{Mount, Context, Policy, Process}
use fscrypt.Actions.Context.{Retrieval, OpError, key_locked, storage_failed, check_context}
use fscrypt.Actions.Policy.{descriptor}

pub data ProvisionError (E K : Type 0) : Type 0 where
  operation_failed : OpError E K → ProvisionError E K
  keyring_failed : KeyringError → ProvisionError E K

-- getKeyringOptions; the type of a mount's filesystem is its own.
abbrev pub get_keyring_options : (Mount → Bytes) → Context → Options
get_keyring_options type_of ctx = record {
  mount = ctx.mount;
  filesystem_type = type_of ctx.mount;
  user = ctx.target_user;
  use_fs_keyring_for_v1_policies = ctx.config.use_fs_keyring_for_v1_policies;
}

-- Version; the options of a policy are no nil pointer, or it panics.
abbrev pub version : Policy → Option ℤ
version policy = Option.map (λ (e : EncryptionOptions). e.policy_version) policy.fields.options

abbrev pub needs_user_keyring : Policy → Option Bool
needs_user_keyring policy =
    Option.map (λ v. eq_ℤ v (pos 1) && not policy.context.config.use_fs_keyring_for_v1_policies)
      (version policy)

abbrev pub needs_root_to_provision : Policy → Option Bool
needs_root_to_provision policy =
    Option.map (λ v. eq_ℤ v (pos 1) && policy.context.config.use_fs_keyring_for_v1_policies)
      (version policy)

abbrev pub can_be_applied_without_provisioning : Process → Policy → Option Bool
can_be_applied_without_provisioning process policy =
    Option.map (λ v. eq_ℤ v (pos 1) || process.is_user_root) (version policy)

module _ {J : Type 0} (k : Kernel J) (u : UserKeyring J) (process : Process)
    (type_of : Mount → Bytes) where
  abbrev pub status_or_unknown : State J × Result KeyringError KeyStatus → State J × KeyStatus
  status_or_unknown (st, err e) = (st, unknown)
  status_or_unknown (st, ok status) = (st, status)

  unfoldable pub get_provisioning_status : Policy → State J → State J × KeyStatus
  unfolding get_encryption_key_status
  get_provisioning_status policy st = status_or_unknown (
      get_encryption_key_status k u (descriptor policy) (get_keyring_options type_of policy.context)
        st)

  abbrev pub is_present : KeyStatus → Bool
  is_present present = true
  is_present _ = false

  unfoldable pub is_provisioned_by_target_user : Policy → State J → State J × Bool
  unfolding get_provisioning_status
  is_provisioned_by_target_user policy st =
      let r = get_provisioning_status policy st in (r.0, is_present r.1)

  abbrev pub lift_keyring :
      {E K : Type 0}
      → State J × Result KeyringError (Unit {0})
      → State J × Result (ProvisionError E K) (Unit {0})
  lift_keyring (st, ok t) = (st, ok t)
  lift_keyring (st, err e) = (st, err (keyring_failed e))

  abbrev pub provision_key :
      {E K : Type 0}
      → Policy
      → State J
      → Option Key
      → State J × Result (ProvisionError E K) (Unit {0})
  provision_key policy st none = (st, err (operation_failed key_locked))
  provision_key policy st (some key) = lift_keyring (
      add_encryption_key k u process.memory key (descriptor policy)
        (get_keyring_options type_of policy.context) st)

  unfoldable pub provision :
      {E K : Type 0} → Policy → State J → State J × Result (ProvisionError E K) (Unit {0})
  unfolding add_encryption_key
  provision policy st = provision_key policy st policy.key

  unfoldable pub deprovision :
      {E K : Type 0} → Policy → Bool → State J → State J × Result (ProvisionError E K) (Unit {0})
  unfolding remove_encryption_key
  deprovision policy all_users st = lift_keyring (
      remove_encryption_key k u (descriptor policy) (get_keyring_options type_of policy.context)
        all_users st)

  -- The `switch` of PurgeAllPolicies on the cause of the error: which ones are only logged.
  abbrev pub is_ignored : KeyringError → Bool
  is_ignored key_not_present = true
  is_ignored key_files_open = true
  is_ignored key_added_by_other_users = true
  is_ignored _ = false

  abbrev pub continued :
      State J × Result KeyringError (Unit {0})
      → (State J → State J × Result KeyringError (Unit {0}))
      → State J × Result KeyringError (Unit {0})
  continued (st, ok t) rest = rest st
  continued (st, err e) rest = if is_ignored e then rest st else (st, err e)

  -- The loop over the descriptors.
  unfoldable pub purge : Options → List Bytes → State J → State J × Result KeyringError (Unit {0})
  unfolding remove_encryption_key
  purge options [] st = (st, ok tt)
  purge options (d ∷ ds) st =
      continued (remove_encryption_key k u d options false st) (λ st'. purge options ds st')

  module _ {W E K : Type 0} (names : EnumNames) (ret : Retrieval W E) where
    abbrev pub purge_listed :
        Context → State J → Result E (List Bytes) → State J × Result (ProvisionError E K) (Unit {0})
    purge_listed ctx st (err e) = (st, err (operation_failed (storage_failed e)))
    purge_listed ctx st (ok policies) =
        lift_keyring (purge (get_keyring_options type_of ctx) policies st)

    abbrev pub purge_checked :
        W
        → State J
        → Context × Result (OpError E K) (Unit {0})
        → State J × Result (ProvisionError E K) (Unit {0})
    purge_checked w st (ctx, err e) = (st, err (operation_failed e))
    purge_checked w st (ctx, ok t) = purge_listed ctx st (ret.list_policies ctx.mount none w)

    unfoldable pub purge_all_policies :
        Context → W → State J → State J × Result (ProvisionError E K) (Unit {0})
    unfolding check_context purge
    purge_all_policies ctx w st = purge_checked w st (check_context names ret ctx w)
