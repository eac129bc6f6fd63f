-- ===== src/Tests/Creating.antt =====
-- Package actions: the creation of a protector and of a policy, and what opens them.
use fscrypt.Common.{
  ℕ, pos, ◌≡◌, refl, false, none, some, codes, replicate, ok, err, arith, Result, Bool, true,
  to_uint,
}
use fscrypt.Crypto.Key.{Key, data_of, len, new_blank_key, copy}
use fscrypt.Crypto.Derive.{passphrase_hash}
use fscrypt.Crypto.Wrap.{wrap, check_wrapping_key, stretch_key, aes_ctr, get_hmac}
use fscrypt.Metadata.Checks.{check_source, check_options, check_mode, check_padding, check_version}
use fscrypt.Metadata.Checks.Whole.{check_config, check_config_costs}
use fscrypt.Actions.Context.{check_context}
use fscrypt.Actions.Types.{Context, Policy}
use fscrypt.Actions.Callback.{get_wrapping_key}
use fscrypt.Actions.Protector.{rewrap, unlock, lock}
use fscrypt.Actions.Protector.Rewrapped.{unlock-rewrap}
use fscrypt.Actions.Protector.Create.{create_protector}
use fscrypt.Actions.Protector.Create.Created.{Creation}
use fscrypt.Actions.Protector.Create.Whole.{create_protector_lem}
use fscrypt.Actions.Policy.{descriptor}
use fscrypt.Actions.Policy.Create.{create_policy}
use fscrypt.Actions.Policy.Create.Opened.{OpenedBy, create_policy_opened}
use fscrypt.Actions.Policy.Select as Select
use fscrypt.Actions.Policy.Select.{OptionFunc, policy_options}
use fscrypt.Actions.Policy.Select.Sound.{Unlocking, unlock_selects}
use fscrypt.Tests.Samples.{
  memory-HasMemory, primitives-AreLawful, hashes-AreLawful, process, names, context, policy,
  protector, storage, storage-KeepsKeys, retrieval, same_key, key_of,
}

create_protector_lem_example :
    Creation names storage none
      (codes "x")
      0
      (create_protector process names retrieval storage same_key none 0 0 context (codes "x"))
create_protector_lem_example =
    create_protector_lem ℕ process primitives-AreLawful hashes-AreLawful names retrieval storage
      same_key none 0 0 (codes "x") context

rewrapped : (rewrap process storage same_key protector 0 0).1.1.1 ≡ ok tt
unfolding rewrap get_wrapping_key wrap check_wrapping_key len stretch_key aes_ctr get_hmac
rewrapped = refl

same_wrapping_key :
    (get_wrapping_key process
      (rewrap process storage same_key protector 0 0).1.1.0.fields
      same_key
      false
      5).1
    ≡ (get_wrapping_key process protector.fields same_key false 0).1
unfolding rewrap get_wrapping_key wrap check_wrapping_key len stretch_key aes_ctr get_hmac
same_wrapping_key = refl

unlock-rewrap_example :
    (secret : Key) × ((unlock {E = ℕ} 1 process same_key
        (lock (rewrap process storage same_key protector 0 0).1.1.0)
        5).1
      ≡ (record (rewrap process storage same_key protector 0 0).1.1.0 { key = some secret }, ok tt))
    × (data_of secret ≡ data_of (key_of (replicate 32 8)))
unlock-rewrap_example =
    unlock-rewrap process storage primitives-AreLawful memory-HasMemory protector
      (key_of (replicate 32 8)) same_key same_key 0 5 0 0 refl (omega arith) rewrapped
      same_wrapping_key

create_policy_opened_example :
    OpenedBy ℕ process protector {K = ℕ}
      (create_policy process storage protector 0 names retrieval context)
create_policy_opened_example =
    create_policy_opened ℕ process primitives-AreLawful memory-HasMemory storage storage-KeepsKeys
      protector (key_of (replicate 32 8)) refl refl 0 names retrieval context

abbrev locked_policy : Policy
locked_policy = record policy { key = none }

-- The second protector is selected.
abbrev second : OptionFunc ℕ ℕ ℕ
second d choices st = (st, ok (pos 1))

unlock_selects_example :
    Unlocking process names retrieval same_key locked_policy 0
      (second (descriptor locked_policy) (policy_options names retrieval locked_policy 0) 0).1
      (Select.unlock process 2 same_key locked_policy names retrieval second 0 0)
unlock_selects_example =
    unlock_selects process names retrieval same_key locked_policy 0 2 second 0 refl

abbrev is_made : {E A : Type 0} → Result E A → Bool
is_made (ok a) = true
is_made (err e) = false

-- The context of the protector's filesystem.
abbrev local_context : Context
local_context = record context { mount = 2 }

-- At this input the operation succeeds.
protector_made :
    is_made
      (create_protector process names retrieval storage same_key none 0 0 context (codes "x")).1.1
    ≡ true
unfolding create_protector check_context check_config check_config_costs check_source check_options
    check_mode check_padding check_version to_uint new_blank_key passphrase_hash wrap
    check_wrapping_key len copy stretch_key aes_ctr get_hmac
protector_made = refl
