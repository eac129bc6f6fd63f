-- ===== src/Actions/Policy/Unlock.antt =====
-- actions/policy.go: UnlockWithProtector, Lock, Destroy and Revert.
pub mod Same
use fscrypt.Common.{
  ℕ, Bool, true, false, List, [], ◌∷◌, Option, none, some, Bytes, get_elem?, if◌then◌else◌, Result,
  ok, err,
}
use fscrypt.Metadata.Types.{WrappedPolicyKey, WrappedKeyData}
use fscrypt.Crypto.Key.{Key}
use fscrypt.Crypto.Wrap.{CryptoError, unwrap}
use fscrypt.Actions.Types.{
  Mount, Protector, Policy, ActionError, locked, not_protected, storage, crypto, panic, Storage,
  Process,
}
use fscrypt.Actions.Policy.{descriptor, keys_of, find_wrapped_key_index, lift_storage}

-- The key of crypto.Unwrap, or its error and a policy that stays locked.
abbrev pub unlocked :
    {E : Type 0} → Policy → Result CryptoError Key → Policy × Result (ActionError E) (Unit {0})
unlocked policy (err e) = (policy, err (crypto e))
unlocked policy (ok key) = (record policy { key = some key }, ok tt)

-- A wrapped key that is nil makes crypto.Unwrap panic.
abbrev pub unwrap_slot :
    {E : Type 0}
    → Process
    → Policy
    → Key
    → Option WrappedPolicyKey
    → Policy × Result (ActionError E) (Unit {0})
unwrap_slot process policy key none = (policy, err panic)
unwrap_slot process policy key (some slot) = elim slot.wrapped_key [
  | none ↦ (policy, err panic)
  | some w ↦ unlocked policy (unwrap process.primitives process.memory key w)
]

abbrev pub unlock_found :
    {E : Type 0}
    → Process
    → Policy
    → Protector
    → Key
    → Option ℕ
    → Policy × Result (ActionError E) (Unit {0})
unlock_found process policy protector key none =
    (policy, err (not_protected (descriptor policy) protector.fields.protector_descriptor))
unlock_found process policy protector key (some idx) =
    unwrap_slot process policy key (get_elem? (keys_of policy) idx)

abbrev pub unlock_locked :
    {E : Type 0}
    → Process
    → Policy
    → Protector
    → Option Key
    → Policy × Result (ActionError E) (Unit {0})
unlock_locked process policy protector none = (policy, err locked)
unlock_locked process policy protector (some key) =
    unlock_found process policy protector key
      (find_wrapped_key_index policy protector.fields.protector_descriptor)

abbrev pub unlock_any :
    {E : Type 0}
    → Process
    → Policy
    → Protector
    → Option Key
    → Policy × Result (ActionError E) (Unit {0})
unlock_any process policy protector (some key) = (policy, ok tt)
unlock_any process policy protector none = unlock_locked process policy protector protector.key

unfoldable pub unlock_with_protector :
    {E : Type 0} → Process → Policy → Protector → Policy × Result (ActionError E) (Unit {0})
unfolding find_wrapped_key_index
unlock_with_protector process policy protector = unlock_any process policy protector policy.key

-- Lock: the key is wiped.
unfoldable pub lock : Policy → Policy
lock policy = record policy { key = none }

module _ {W E : Type 0} where
  -- The errors of the removals of new links are dropped.
  abbrev pub remove_links : Storage W E → Mount → List Bytes → W → W
  remove_links s m [] w = w
  remove_links s m (d ∷ rest) w = remove_links s m rest (s.remove_protector m d w).0

  unfoldable pub destroy : Storage W E → Policy → W → W × Result (ActionError E) (Unit {0})
  destroy s policy w =
      let r =
        s.remove_policy policy.context.mount (descriptor policy)
          (remove_links s policy.context.mount policy.new_linked_protectors w) in
      (r.0, lift_storage r.1)

  unfoldable pub revert : Storage W E → Policy → W → W × Result (ActionError E) (Unit {0})
  unfolding destroy
  revert s policy w = if policy.created then destroy s policy w else (w, ok tt)
