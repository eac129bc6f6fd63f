-- ===== src/Actions/Policy/Reach.antt =====
-- The policies that the operations lead to.
use mathlib.Core.Path.{subst}
use fscrypt.Common.{ℕ, ◌≡◌, refl, sym, Option, some, none, Bytes, get_elem?, Result, ok, err}
use fscrypt.Metadata.Types.{WrappedPolicyKey, WrappedKeyData}
use fscrypt.Crypto.Key.{Key}
use fscrypt.Crypto.Wrap.{CryptoError, unwrap}
use fscrypt.Actions.Types.{Protector, Policy, Storage, Process, ActionError, panic}
use fscrypt.Actions.Policy.{keys_of, find_wrapped_key_index, add_protector, remove_protector}
use fscrypt.Actions.Policy.Unlock.{
  unlocked, unwrap_slot, unlock_found, unlock_locked, unlock_any, unlock_with_protector, lock,
}
use fscrypt.Actions.Policy.Removal.{KeepsKeys}
use fscrypt.Actions.Policy.Invariant.{
  IsProtected, IsProtectedData, add-IsProtected, remove-IsProtected,
}

lock-IsProtected : (policy : Policy) → IsProtected policy → IsProtected (lock policy)
unfolding lock
lock-IsProtected policy h = h

module _ (E : Type 0) (process : Process) where
  unlocked_fields :
      (policy : Policy) (r : Result CryptoError Key)
      → (unlocked {E = E} policy r).0.fields ≡ policy.fields
  unlocked_fields policy (ok key) = refl
  unlocked_fields policy (err e) = refl

  slot_fields :
      (policy : Policy) (key : Key) (o : Option WrappedPolicyKey)
      → (unwrap_slot {E = E} process policy key o).0.fields ≡ policy.fields
  slot_fields policy key none = refl
  slot_fields policy key (some slot) = wrapped_fields slot.wrapped_key
    where
      wrapped_fields :
          (o : Option WrappedKeyData)
          → (elim o as (λ _. Policy × Result (ActionError E) (Unit {0})) [
            | none ↦ (policy, err panic)
            | some w ↦ unlocked policy (unwrap process.primitives process.memory key w)
          ]).0.fields
            ≡ policy.fields
      wrapped_fields none = refl
      wrapped_fields (some w) =
          unlocked_fields policy (unwrap process.primitives process.memory key w)

  found_fields :
      (policy : Policy) (protector : Protector) (key : Key) (o : Option ℕ)
      → (unlock_found {E = E} process policy protector key o).0.fields ≡ policy.fields
  found_fields policy protector key none = refl
  found_fields policy protector key (some i) = slot_fields policy key (get_elem? (keys_of policy) i)

  locked_fields :
      (policy : Policy) (protector : Protector) (o : Option Key)
      → (unlock_locked {E = E} process policy protector o).0.fields ≡ policy.fields
  locked_fields policy protector none = refl
  locked_fields policy protector (some key) =
      found_fields policy protector key
        (find_wrapped_key_index policy protector.fields.protector_descriptor)

  any_fields :
      (policy : Policy) (protector : Protector) (o : Option Key)
      → (unlock_any {E = E} process policy protector o).0.fields ≡ policy.fields
  any_fields policy protector (some key) = refl
  any_fields policy protector none = locked_fields policy protector protector.key

  unlock_fields :
      (policy : Policy) (protector : Protector)
      → (unlock_with_protector {E = E} process policy protector).0.fields ≡ policy.fields
  unfolding unlock_with_protector
  unlock_fields policy protector = any_fields policy protector policy.key

  unlock-IsProtected :
      (policy : Policy) (protector : Protector)
      → IsProtected policy
      → IsProtected (unlock_with_protector {E = E} process policy protector).0
  unlock-IsProtected policy protector h =
      subst IsProtectedData (sym (unlock_fields policy protector)) h

module _ {W E : Type 0} (process : Process) (s : Storage W E) (keeps : KeepsKeys s) where
  -- What is called on a policy once it exists, with any storage state at each call.
  pub data Reaches (policy : Policy) : Policy → Type 0 where
    start : Reaches policy policy
    added :
        {p : Policy} (protector : Protector) (w : W)
        → Reaches policy p
        → Reaches policy (add_protector process s p protector w).1.0
    removed :
        {p : Policy} (d : Bytes) (w : W)
        → Reaches policy p
        → Reaches policy (remove_protector s p d w).1.0
    opened :
        {p : Policy} (protector : Protector)
        → Reaches policy p
        → Reaches policy (unlock_with_protector {E = E} process p protector).0
    closed : {p : Policy} → Reaches policy p → Reaches policy (lock p)

  -- From a policy with distinct protectors, at least one, every sequence of AddProtector,
  -- RemoveProtector, UnlockWithProtector and Lock, successful or not, leads to such a policy.
  pub reaches-IsProtected :
      (policy p : Policy) → Reaches policy p → IsProtected policy → IsProtected p
  reaches-IsProtected policy p start h = h
  reaches-IsProtected policy p (added {p = q} protector w steps) h =
      add-IsProtected process s keeps q protector w (reaches-IsProtected policy q steps h)
  reaches-IsProtected policy p (removed {p = q} d w steps) h =
      remove-IsProtected s keeps q d w (reaches-IsProtected policy q steps h)
  reaches-IsProtected policy p (opened {p = q} protector steps) h =
      unlock-IsProtected E process q protector (reaches-IsProtected policy q steps h)
  reaches-IsProtected policy p (closed {p = q} steps) h =
      lock-IsProtected q (reaches-IsProtected policy q steps h)
