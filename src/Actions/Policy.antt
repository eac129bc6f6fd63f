-- ===== src/Actions/Policy.antt =====
-- actions/policy.go: the protectors of a policy.
pub mod Keys
pub mod Removal
pub mod Addition
pub mod Unlock
pub mod Invariant
pub mod Reach
pub mod Create
pub mod Select
pub mod Path
pub mod Provision
use fscrypt.Common.{
  ℕ, zero, suc, ◌-◌, ℤ, eq_ℤ, Bool, true, false, not, ◌&&◌, List, [], ◌∷◌, ◌++◌, Option, none, some,
  Bytes, bytes_eq, length, get_elem?, take, ◌==◌, if◌then◌else◌, Result, ok, err,
}
use mathlib.Core.List.{map}
use mathlib.Core.Option as Option
use fscrypt.Metadata.Types.{WrappedPolicyKey, WrappedKeyData, PolicyData}
use fscrypt.Metadata.Source
use fscrypt.Crypto.Key.{Key, wipe}
use fscrypt.Crypto.Wrap.{CryptoError, wrap, unwrap}
use fscrypt.Actions.Types.{
  User, Protector, Policy, ActionError, locked, already_protected, not_protected, only_protector,
  unknown_user, storage, crypto, panic, Storage, Process,
}

abbrev pub descriptor : Policy → Bytes
descriptor policy = policy.fields.key_descriptor

abbrev pub keys_of : Policy → List WrappedPolicyKey
keys_of policy = policy.fields.wrapped_policy_keys

abbrev pub with_keys : List WrappedPolicyKey → Policy → Policy
with_keys keys policy = record policy {
  fields = record policy.fields { wrapped_policy_keys = keys };
}

-- ProtectorDescriptors
abbrev pub protector_descriptors : Policy → List Bytes
protector_descriptors policy = map (λ w. w.protector_descriptor) (keys_of policy)

abbrev pub is_found : Option ℕ → Bool
is_found none = false
is_found (some idx) = true

-- The loop of findWrappedKeyIndex.
abbrev pub find_index : Bytes → List WrappedPolicyKey → Option ℕ
find_index d [] = none
find_index d (w ∷ rest) =
    if bytes_eq w.protector_descriptor d then some 0 else Option.map suc (find_index d rest)

unfoldable pub find_wrapped_key_index : Policy → Bytes → Option ℕ
find_wrapped_key_index policy d = find_index d (keys_of policy)

unfoldable pub uses_protector : Policy → Protector → Bool
unfolding find_wrapped_key_index
uses_protector policy protector =
    is_found (find_wrapped_key_index policy protector.fields.protector_descriptor)

unfoldable pub add_key : WrappedPolicyKey → Policy → Policy
add_key to_add policy = with_keys (keys_of policy ++ (to_add ∷ [])) policy

-- `xs[i] = x`
abbrev pub set_at {ℓ} : {A : Type ℓ} → ℕ → A → List A → List A
set_at i x [] = []
set_at zero x (y ∷ ys) = x ∷ ys
set_at (suc i) x (y ∷ ys) = y ∷ set_at i x ys

-- removeKey: the last key moves to the index. `none` is an index out of range, a panic.
unfoldable pub remove_key :
    ℕ → List WrappedPolicyKey → Option (WrappedPolicyKey × List WrappedPolicyKey)
remove_key index keys =
    let last_idx = length keys - 1 in
    elim (get_elem? keys index) [
      | none ↦ none
      | some to_remove ↦ elim (get_elem? keys last_idx) [
        | none ↦ none
        | some last ↦ some (to_remove, take last_idx (set_at index last keys))
      ]
    ]

-- What an operation leaves of the filesystems and of the policy, and what it returns.
abbrev pub Step : Type 0 → Type 0 → Type 0
Step W E = W × (Policy × Result (ActionError E) (Unit {0}))

abbrev pub lift_storage : {E A : Type 0} → Result E A → Result (ActionError E) A
lift_storage (ok a) = ok a
lift_storage (err e) = err (storage e)

-- getOwnerOfMetadataForProtector
unfoldable pub get_owner_of_metadata_for_protector :
    {E : Type 0} → Process → Protector → Result (ActionError E) (Option User)
get_owner_of_metadata_for_protector process protector =
    if eq_ℤ protector.fields.source Source.pam_passphrase && process.is_user_root
    then elim (process.user_from_uid protector.fields.uid) [
      | none ↦ err (unknown_user protector.fields.uid)
      | some owner ↦ ok (some owner)
    ]
    else ok none

module _ {W E : Type 0} where
  -- commitData
  unfoldable pub commit_data : Storage W E → Policy → W → Step W E
  commit_data s policy w =
      let r = s.add_policy policy.context.mount policy.fields policy.owner_if_creating w in
      (r.0, (record policy { fields = r.1.0 }, lift_storage r.1.1))

  abbrev pub linked : Policy → Bytes → W × Result E Bool → Step W E
  linked policy d (w, ok true) = (
    w,
    (record policy { new_linked_protectors = policy.new_linked_protectors ++ (d ∷ []) }, ok tt),
  )
  linked policy d (w, ok false) = (w, (policy, ok tt))
  linked policy d (w, err e) = (w, (policy, err (storage e)))

  -- The link that a protector on another filesystem needs.
  unfoldable pub add_link : Process → Storage W E → Policy → Protector → W → Step W E
  unfolding get_owner_of_metadata_for_protector
  add_link process s policy protector w =
      if policy.context.mount == protector.context.mount
      then (w, (policy, ok tt))
      else elim (get_owner_of_metadata_for_protector process protector) [
        | err e ↦ (w, (policy, err e))
        | ok owner ↦ linked policy protector.fields.protector_descriptor (
            s.add_linked_protector policy.context.mount protector.fields.protector_descriptor
              protector.context.mount protector.context.trusted_user owner w)
      ]

  -- The failed addition is taken back; the removed key is dropped.
  abbrev pub take_back :
      W → Policy → ActionError E → Option (WrappedPolicyKey × List WrappedPolicyKey) → Step W E
  take_back w policy e none = (w, (policy, err panic))
  take_back w policy e (some (removed, keys)) = (w, (with_keys keys policy, err e))

  abbrev pub after_add : Step W E → Step W E
  after_add (w, (policy, ok u)) = (w, (policy, ok u))
  after_add (w, (policy, err e)) =
      take_back w policy e (remove_key (length (keys_of policy) - 1) (keys_of policy))

  -- The new key is added and committed, or taken off again.
  abbrev pub add_wrapped :
      Storage W E → Policy → Bytes → W → Result CryptoError WrappedKeyData → Step W E
  add_wrapped s policy d w (err e) = (w, (policy, err (crypto e)))
  add_wrapped s policy d w (ok wrapped_key) = after_add (
      commit_data s
        (add_key (record { protector_descriptor = d; wrapped_key = some wrapped_key }) policy) w)

  abbrev pub wrap_and_commit : Process → Storage W E → Protector → Key → Key → Step W E → Step W E
  wrap_and_commit process s protector policy_key protector_key (w, (policy, err e)) =
      (w, (policy, err e))
  wrap_and_commit process s protector policy_key protector_key (w, (policy, ok u)) =
      add_wrapped s policy protector.fields.protector_descriptor w
        (wrap process.primitives protector_key policy_key)

  abbrev pub add_unlocked :
      Process → Storage W E → Policy → Protector → W → Option Key → Option Key → Step W E
  add_unlocked process s policy protector w (some policy_key) (some protector_key) =
      wrap_and_commit process s protector policy_key protector_key
        (add_link process s policy protector w)
  add_unlocked process s policy protector w _ _ = (w, (policy, err locked))

  unfoldable pub add_protector : Process → Storage W E → Policy → Protector → W → Step W E
  unfolding uses_protector add_link add_key commit_data remove_key
  add_protector process s policy protector w =
      if uses_protector policy protector
      then (
        w,
        (policy, err (already_protected (descriptor policy) protector.fields.protector_descriptor)),
      )
      else add_unlocked process s policy protector w policy.key protector.key

  abbrev pub after_remove : WrappedPolicyKey → Step W E → Step W E
  after_remove to_remove (w, (policy, ok u)) = (w, (policy, ok u))
  after_remove to_remove (w, (policy, err e)) = (w, (add_key to_remove policy, err e))

  abbrev pub remove_at :
      Storage W E → Policy → W → Option (WrappedPolicyKey × List WrappedPolicyKey) → Step W E
  remove_at s policy w none = (w, (policy, err panic))
  remove_at s policy w (some (to_remove, keys)) =
      after_remove to_remove (commit_data s (with_keys keys policy) w)

  abbrev pub remove_found : Storage W E → Policy → Bytes → W → Option ℕ → Step W E
  remove_found s policy d w none = (w, (policy, err (not_protected (descriptor policy) d)))
  remove_found s policy d w (some idx) =
      if length (keys_of policy) == 1
      then (w, (policy, err (only_protector (descriptor policy))))
      else remove_at s policy w (remove_key idx (keys_of policy))

  unfoldable pub remove_protector : Storage W E → Policy → Bytes → W → Step W E
  unfolding find_wrapped_key_index remove_key commit_data add_key
  remove_protector s policy d w = remove_found s policy d w (find_wrapped_key_index policy d)
