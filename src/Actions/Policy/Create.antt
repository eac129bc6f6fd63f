-- ===== src/Actions/Policy/Create.antt =====
-- actions/policy.go: CreatePolicy and GetPolicy.
pub mod Opened
pub mod Succeeds
use fscrypt.Common.{ℕ, ℤ, true, false, [], Option, none, some, Bytes, Result, ok, err}
use fscrypt.Metadata.Types.{EncryptionOptions, PolicyData, policy_key_len}
use fscrypt.Metadata.Checks.{EnumNames}
use fscrypt.Crypto.Key.{Key}
use fscrypt.Crypto.Wrap.{CryptoError}
use fscrypt.Crypto.Random.{new_random_key}
use fscrypt.Crypto.Derive.{DescriptorError, compute_key_descriptor}
use fscrypt.Actions.Types.{User, Context, Protector, Policy, ActionError, panic, Storage, Process}
use fscrypt.Actions.Context.{
  Retrieval, OpError, crypto_failed, descriptor_failed, action_failed, lift_error, check_context,
}
use fscrypt.Actions.Policy.{Step, get_owner_of_metadata_for_protector, add_protector}

abbrev pub locked_policy :
    {E K : Type 0} → Context → Result E PolicyData → Result (OpError E K) Policy
locked_policy ctx (err e) = lift_error (err e)
locked_policy ctx (ok fields) = ok (record {
  context = ctx;
  fields = fields;
  key = none;
  created = false;
  owner_if_creating = none;
  new_linked_protectors = [];
})

module _ {W E K : Type 0} where
  -- On an error the policy is locked and dropped.
  abbrev pub finish : Step W E → W × Result (OpError E K) Policy
  finish (w, (policy, err e)) = (w, err (action_failed e))
  finish (w, (policy, ok u)) = (w, ok policy)

  module _ (process : Process) (s : Storage W E) (protector : Protector) (w : W) where
    abbrev pub with_owner :
        Context
        → EncryptionOptions
        → Key
        → Bytes
        → Result (ActionError E) (Option User)
        → W × Result (OpError E K) Policy
    with_owner ctx options key d (err e) = (w, err (action_failed e))
    with_owner ctx options key d (ok owner) = finish (
        add_protector process s
          (record {
            context = ctx;
            fields = record {
              key_descriptor = d;
              options = some options;
              wrapped_policy_keys = [];
            };
            key = some key;
            created = true;
            owner_if_creating = owner;
            new_linked_protectors = [];
          })
          protector w)

    abbrev pub with_descriptor :
        Context
        → EncryptionOptions
        → Key
        → Result DescriptorError Bytes
        → W × Result (OpError E K) Policy
    with_descriptor ctx options key (err e) = (w, err (descriptor_failed e))
    with_descriptor ctx options key (ok d) =
        with_owner ctx options key d (get_owner_of_metadata_for_protector process protector)

    abbrev pub with_options :
        Context → Key → Option EncryptionOptions → W × Result (OpError E K) Policy
    with_options ctx key none = (w, err (action_failed panic))
    with_options ctx key (some options) =
        with_descriptor ctx options key
          (compute_key_descriptor process.hashes key options.policy_version)

    abbrev pub with_key : Context → Result CryptoError Key → W × Result (OpError E K) Policy
    with_key ctx (err e) = (w, err (crypto_failed e))
    with_key ctx (ok key) = with_options ctx key ctx.config.options

    abbrev pub context_checked :
        Context × Result (OpError E K) (Unit {0}) → W × Result (OpError E K) Policy
    context_checked (ctx, err e) = (w, err e)
    context_checked (ctx, ok u) =
        with_key ctx (new_random_key process.primitives process.memory policy_key_len)

    -- The policy is made with the context as its check has left it.
    unfoldable pub create_policy :
        EnumNames → Retrieval W E → Context → W × Result (OpError E K) Policy
    unfolding check_context new_random_key compute_key_descriptor
        get_owner_of_metadata_for_protector add_protector
    create_policy names ret ctx = context_checked (check_context names ret ctx w)

  abbrev pub found :
      Retrieval W E
      → W
      → Bytes
      → Context × Result (OpError E K) (Unit {0})
      → Result (OpError E K) Policy
  found ret w d (ctx, err e) = err e
  found ret w d (ctx, ok u) = locked_policy ctx (ret.get_policy ctx.mount d ctx.trusted_user w)

  unfoldable pub get_policy :
      EnumNames → Retrieval W E → Context → W → Bytes → Result (OpError E K) Policy
  unfolding check_context
  get_policy names ret ctx w d = found ret w d (check_context names ret ctx w)
