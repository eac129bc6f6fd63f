-- ===== src/Actions/Policy/Select/Sound.antt =====
-- What a Policy.Unlock that succeeds has done, and that one that fails leaves the policy locked.
use mathlib.Core.Path.{subst}
use fscrypt.Common.{
  ℕ, zero, suc, ℤ, pos, negsuc, [], ◌∷◌, ◌≡◌, refl, sym, ap, ◌∙◌, ◌⊎◌, inl, inr, false, List,
  Option, Option-cases, none, some, Result, ok, err, arith,
}
use mathlib.Core.List.{map}
use fscrypt.Metadata.Types.{ProtectorData, WrappedPolicyKey, WrappedKeyData}
use fscrypt.Metadata.Checks.{EnumNames}
use fscrypt.Crypto.Key.{Key}
use fscrypt.Crypto.Wrap.{CryptoError, unwrap}
use fscrypt.Actions.Types.{Policy, ActionError, panic, Process}
use fscrypt.Actions.Callback.{KeyFunc, CallbackError, unwrap_protector_key}
use fscrypt.Actions.Callback.Retry.{Opened, loop_ok}
use fscrypt.Actions.Context.{Retrieval, OpError, ProtectorOption, get_protector_option, options_for}
use fscrypt.Actions.Policy.{descriptor, keys_of}
use fscrypt.Actions.Policy.Unlock.{unlocked, unwrap_slot}
use fscrypt.Actions.Policy.Select.{
  OptionFunc, index, policy_options, slot_unlocked, with_key, with_loaded, with_option, selected,
  unlock_key, unlock,
}

module _ {S W E K : Type 0} (process : Process) (names : EnumNames) (ret : Retrieval W E)
    (fn : KeyFunc S K) (policy : Policy) (w : W) where
  -- The key of the policy, the slot that holds it, and the protector that opened the slot: it is
  -- the one whose data the filesystems have for the slot's descriptor.
  pub record IsUnlockedBy (chosen : Result K ℤ) (out : Policy × Result (OpError E K) (Unit {0}))
      : Type 0 where
    pub idx : ℤ
    pub slot : WrappedPolicyKey
    pub info : ProtectorData
    pub wrapped : WrappedKeyData
    pub protector_key : Key
    pub key : Key
    pub is_chosen : chosen ≡ ok idx
    pub has_slot : index (keys_of policy) idx ≡ some slot
    pub has_info :
        (get_protector_option names ret policy.context w slot.protector_descriptor).info ≡ some info
    pub opened : Opened process info fn protector_key
    pub has_wrapped : slot.wrapped_key ≡ some wrapped
    pub unwrapped : unwrap process.primitives process.memory protector_key wrapped ≡ ok key
    pub result : out ≡ (record policy { key = some key }, ok tt)

  abbrev pub Unlocking : Result K ℤ → S × (Policy × Result (OpError E K) (Unit {0})) → Type 0
  Unlocking chosen out = ((e : OpError E K) × (out.1 ≡ (policy, err e))) ⊎ IsUnlockedBy chosen out.1

  module _ (chosen : Result K ℤ) (idx : ℤ) (is_chosen : chosen ≡ ok idx) (info : ProtectorData)
      (protector_key : Key) (opened : Opened process info fn protector_key) where
    unwrapped-Unlocking :
        (st : S) (slot : WrappedPolicyKey) (wrapped : WrappedKeyData) (r : Result CryptoError Key)
        → unwrap process.primitives process.memory protector_key wrapped ≡ r
        → index (keys_of policy) idx ≡ some slot
        → (get_protector_option names ret policy.context w slot.protector_descriptor).info
          ≡ some info
        → slot.wrapped_key ≡ some wrapped
        → Unlocking chosen (slot_unlocked process st (unlocked policy r))
    unwrapped-Unlocking st slot wrapped (err e) q has_slot has_info has_wrapped = inl (_, refl)
    unwrapped-Unlocking st slot wrapped (ok key) q has_slot has_info has_wrapped = inr (record {
      idx = idx;
      slot = slot;
      info = info;
      wrapped = wrapped;
      protector_key = protector_key;
      key = key;
      is_chosen = is_chosen;
      has_slot = has_slot;
      has_info = has_info;
      opened = opened;
      has_wrapped = has_wrapped;
      unwrapped = q;
      result = refl;
    })

    slot-Unlocking :
        (st : S) (o : Option WrappedPolicyKey)
        → index (keys_of policy) idx ≡ o
        → ((slot : WrappedPolicyKey)
            → o ≡ some slot
            → (get_protector_option names ret policy.context w slot.protector_descriptor).info
              ≡ some info)
        → Unlocking chosen (slot_unlocked process st (unwrap_slot process policy protector_key o))
    slot-Unlocking st none q has = inl (_, refl)
    slot-Unlocking st (some slot) q has = elim (Option-cases slot.wrapped_key) [
      | inl empty ↦ rw empty (inl (_, refl))
      | inr (wrapped, full) ↦
          subst
            (λ o. Unlocking chosen (
              slot_unlocked process st
                (elim o as (λ _. Policy × Result (ActionError E) (Unit {0})) [
                  | none ↦ (policy, err panic)
                  | some x ↦
                      unlocked policy (unwrap process.primitives process.memory protector_key x)
                ])))
            (sym full)
            (unwrapped-Unlocking st slot wrapped
              (unwrap process.primitives process.memory protector_key wrapped) refl q
              (has slot refl) full)
    ]

  module _ (chosen : Result K ℤ) (idx : ℤ) (is_chosen : chosen ≡ ok idx) (info : ProtectorData)
      (has : (slot : WrappedPolicyKey)
        → index (keys_of policy) idx ≡ some slot
        → (get_protector_option names ret policy.context w slot.protector_descriptor).info
          ≡ some info) where
    key-Unlocking :
        (x : S × Result (CallbackError K) Key)
        → ((protector_key : Key) → x.1 ≡ ok protector_key → Opened process info fn protector_key)
        → Unlocking chosen (with_key process policy idx x)
    key-Unlocking (st, err e) f = inl (_, refl)
    key-Unlocking (st, ok protector_key) f =
        slot-Unlocking chosen idx is_chosen info protector_key (f protector_key refl) st
          (index (keys_of policy) idx) refl has

  option_of_slot :
      (keys : List WrappedPolicyKey) (idx : ℤ) (option : ProtectorOption E)
      (slot : WrappedPolicyKey)
      → index (options_for names ret policy.context w (map (λ k. k.protector_descriptor) keys)) idx
        ≡ some option
      → index keys idx ≡ some slot
      → get_protector_option names ret policy.context w slot.protector_descriptor ≡ option
  unfolding options_for
  option_of_slot keys (negsuc i) option slot h q = absurd (ground (arith, h))
  option_of_slot [] (pos i) option slot h q = absurd (ground (arith, q))
  option_of_slot (k ∷ keys) (pos zero) option slot h q =
      let same : k ≡ slot = ground (arith, q) in
      let this : get_protector_option names ret policy.context w k.protector_descriptor ≡ option =
        ground (arith, h) in
      subst (λ x. get_protector_option names ret policy.context w x.protector_descriptor ≡ option)
        same this
  option_of_slot (k ∷ keys) (pos (suc i)) option slot h q =
      option_of_slot keys (pos i) option slot h q

  module _ (fuel : ℕ) (chosen : Result K ℤ) (idx : ℤ) (is_chosen : chosen ≡ ok idx) where
    option-Unlocking :
        (st : S) (option : Option (ProtectorOption E))
        → index (policy_options names ret policy w) idx ≡ option
        → Unlocking chosen (with_option process fuel fn policy idx st option)
    unfolding unwrap_protector_key policy_options
    option-Unlocking st none q = inl (_, refl)
    option-Unlocking st (some option) q = loaded st option option.info option.load_error refl q
      where
        loaded :
            (st : S) (option : ProtectorOption E) (info : Option ProtectorData) (e : Option E)
            → option.info ≡ info
            → index (policy_options names ret policy w) idx ≡ some option
            → Unlocking chosen (with_loaded process fuel fn policy idx st info e)
        loaded st option info (some e) h q = inl (_, refl)
        loaded st option none none h q = inl (_, refl)
        loaded st option (some info) none h q =
            key-Unlocking chosen idx is_chosen info
              (λ slot e.
                ap (λ (o : ProtectorOption E). o.info)
                  (option_of_slot (keys_of policy) idx option slot q e)
                ∙ h)
              (unwrap_protector_key fuel process info fn st)
              (λ key e. loop_ok process info fn fuel false st key e)

  chosen-Unlocking :
      (fuel : ℕ) (x : S × Result K ℤ)
      → Unlocking x.1 (selected process fuel fn policy (policy_options names ret policy w) x)
  chosen-Unlocking fuel (st, err e) = inl (_, refl)
  chosen-Unlocking fuel (st, ok idx) =
      option-Unlocking fuel (ok idx) idx refl st (index (policy_options names ret policy w) idx)
        refl

  -- Unlock of a locked policy either returns an error and leaves the policy as it is, locked, or
  -- sets its key: to what crypto.Unwrap makes of the slot that the callback chose, with a protector
  -- key that a key of the other callback opened in the data that GetProtector has for the slot's
  -- protector.
  pub unlock_selects :
      (fuel : ℕ) (option_fn : OptionFunc S E K) (st : S)
      → policy.key ≡ none
      → Unlocking
          (option_fn (descriptor policy) (policy_options names ret policy w) st).1
          (unlock process fuel fn policy names ret option_fn st w)
  unfolding unlock
  unlock_selects fuel option_fn st locked =
      let options = policy_options names ret policy w in
      subst
        (λ o.
          Unlocking (option_fn (descriptor policy) options st).1
            (unlock_key process fuel fn policy names ret option_fn st w o))
        (sym locked) (chosen-Unlocking fuel (option_fn (descriptor policy) options st))
