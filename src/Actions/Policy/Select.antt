-- ===== src/Actions/Policy/Select.antt =====
-- actions/policy.go: ProtectorOptions, and Unlock with callbacks that select a protector and give keys.
pub mod Sound
use fscrypt.Common.{
  ℕ, ℤ, pos, negsuc, List, [], ◌∷◌, Option, none, some, Bytes, get_elem?, Result, ok, err,
}
use fscrypt.Metadata.Types.{ProtectorData, WrappedPolicyKey}
use fscrypt.Metadata.Checks.{EnumNames}
use fscrypt.Crypto.Key.{Key}
use fscrypt.Actions.Types.{Policy, ActionError, panic, Process}
use fscrypt.Actions.Callback.{KeyFunc, CallbackError, unwrap_protector_key}
use fscrypt.Actions.Context.{
  Retrieval, OpError, ProtectorOption, callback_failed, action_failed, load_failed, option_failed,
  index_out_of_range, options_for,
}
use fscrypt.Actions.Policy.{descriptor, keys_of, protector_descriptors}
use fscrypt.Actions.Policy.Unlock.{unwrap_slot}

-- OptionFunc: the index of the selected option.
abbrev pub OptionFunc : Type 0 → Type 0 → Type 0 → Type 0
OptionFunc S E K = Bytes → List (ProtectorOption E) → S → S × Result K ℤ

-- `xs[i]`, which panics out of range.
abbrev pub index {ℓ} : {A : Type ℓ} → List A → ℤ → Option A
index xs (pos i) = get_elem? xs i
index xs (negsuc i) = none

abbrev pub lift_action : {E K A : Type 0} → Result (ActionError E) A → Result (OpError E K) A
lift_action (ok a) = ok a
lift_action (err e) = err (action_failed e)

module _ {W E : Type 0} (names : EnumNames) (ret : Retrieval W E) where
  unfoldable pub policy_options : Policy → W → List (ProtectorOption E)
  unfolding options_for
  policy_options policy w = options_for names ret policy.context w (protector_descriptors policy)

module _ {S E K : Type 0} (process : Process) where
  abbrev pub slot_unlocked :
      S
      → Policy × Result (ActionError E) (Unit {0})
      → S × (Policy × Result (OpError E K) (Unit {0}))
  slot_unlocked st (policy, r) = (st, (policy, lift_action r))

  abbrev pub with_key :
      Policy → ℤ → S × Result (CallbackError K) Key → S × (Policy × Result (OpError E K) (Unit {0}))
  with_key policy idx (st, err e) = (st, (policy, err (callback_failed e)))
  with_key policy idx (st, ok protector_key) =
      slot_unlocked st (unwrap_slot process policy protector_key (index (keys_of policy) idx))

  module _ (fuel : ℕ) (key_fn : KeyFunc S K) (policy : Policy) where
    -- An option without an error has the data of its protector.
    abbrev pub with_info :
        ℤ → S → Option ProtectorData → S × (Policy × Result (OpError E K) (Unit {0}))
    with_info idx st none = (st, (policy, err (action_failed panic)))
    with_info idx st (some info) =
        with_key policy idx (unwrap_protector_key fuel process info key_fn st)

    abbrev pub with_loaded :
        ℤ → S → Option ProtectorData → Option E → S × (Policy × Result (OpError E K) (Unit {0}))
    with_loaded idx st info (some e) = (st, (policy, err (load_failed e)))
    with_loaded idx st info none = with_info idx st info

    abbrev pub with_option :
        ℤ → S → Option (ProtectorOption E) → S × (Policy × Result (OpError E K) (Unit {0}))
    with_option idx st none = (st, (policy, err index_out_of_range))
    with_option idx st (some option) = with_loaded idx st option.info option.load_error

    abbrev pub selected :
        List (ProtectorOption E) → S × Result K ℤ → S × (Policy × Result (OpError E K) (Unit {0}))
    selected options (st, err e) = (st, (policy, err (option_failed e)))
    selected options (st, ok idx) = with_option idx st (index options idx)

    abbrev pub unlock_key :
        {W : Type 0}
        → EnumNames
        → Retrieval W E
        → OptionFunc S E K
        → S
        → W
        → Option Key
        → S × (Policy × Result (OpError E K) (Unit {0}))
    unlock_key names ret option_fn st w (some key) = (st, (policy, ok tt))
    unlock_key names ret option_fn st w none =
        let options = policy_options names ret policy w in
        selected options (option_fn (descriptor policy) options st)

    -- Policy.Unlock, with a bound on the rounds of the loop that asks for keys.
    unfoldable pub unlock :
        {W : Type 0}
        → EnumNames
        → Retrieval W E
        → OptionFunc S E K
        → S
        → W
        → S × (Policy × Result (OpError E K) (Unit {0}))
    unfolding policy_options unwrap_protector_key
    unlock names ret option_fn st w = unlock_key names ret option_fn st w policy.key
