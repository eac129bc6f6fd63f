-- ===== src/Actions/Protector.antt =====
-- actions/protector.go: the creation of protectors, and the operations on them.
pub mod Create
pub mod Rewrapped
use fscrypt.Common.{
  ℕ, ◌==◌, ◌&&◌, eq_ℤ, pos, ℤ, Bool, true, false, not, List, [], ◌∷◌, Option, none, some, Bytes,
  bytes_eq, codes, if◌then◌else◌, Result, ok, err, ◌>>=◌,
}
use fscrypt.Metadata.Types.{
  ProtectorData, SourceType, WrappedKeyData, HashingCosts, internal_key_len, salt_len,
}
use fscrypt.Metadata.Source
use fscrypt.Metadata.Checks.{EnumNames}
use fscrypt.Crypto.Key.{Key, KeyError}
use fscrypt.Crypto.Reader.{new_fixed_length_key}
use fscrypt.Crypto.Wrap.{CryptoError, no_random, lift, random_buffer, wrap}
use fscrypt.Crypto.Derive.{DescriptorError, compute_key_descriptor}
use fscrypt.Actions.Types.{Mount, User, Context, Protector, Storage, Process}
use fscrypt.Actions.Callback.{KeyFunc, CallbackError, get_wrapping_key, unwrap_protector_key}
use fscrypt.Actions.Context.{
  Retrieval, OpError, key_locked, storage_failed, callback_failed, crypto_failed, descriptor_failed,
  login_protector_exists, login_protector_name, missing_protector_name, protector_name_exists,
  load_failed, ProtectorOption, lift_error, check_context, protector_options,
}

-- ProtectorInfo.Name, Source and UID: of no data they are the zero values.
abbrev pub name_of : {E : Type 0} → ProtectorOption E → Bytes
name_of option = elim option.info [ none ↦ [] | some fields ↦ fields.name ]

abbrev pub source_of : {E : Type 0} → ProtectorOption E → SourceType
source_of option = elim option.info [ none ↦ Source.default | some fields ↦ fields.source ]

abbrev pub uid_of : {E : Type 0} → ProtectorOption E → ℤ
uid_of option = elim option.info [ none ↦ pos 0 | some fields ↦ fields.uid ]

unfoldable pub has_name : {E : Type 0} → Bytes → List (ProtectorOption E) → Bool
has_name name [] = false
has_name name (option ∷ options) =
    if bytes_eq (name_of option) name then true else has_name name options

unfoldable pub has_login : {E : Type 0} → ℤ → List (ProtectorOption E) → Bool
has_login uid [] = false
has_login uid (option ∷ options) =
    if eq_ℤ (source_of option) Source.pam_passphrase && eq_ℤ (uid_of option) uid
    then true
    else has_login uid options

module _ {E K : Type 0} where
  abbrev pub refuse_if :
      OpError E K
      → (List (ProtectorOption E) → Bool)
      → Context × Result (OpError E K) (List (ProtectorOption E))
      → Context × Result (OpError E K) (Unit {0})
  refuse_if e test (ctx, err x) = (ctx, err x)
  refuse_if e test (ctx, ok options) = (ctx, if test options then err e else ok tt)

module _ {W E K : Type 0} (names : EnumNames) (ret : Retrieval W E) where
  unfoldable pub check_for_protector_with_name :
      Context → W → Bytes → Context × Result (OpError E K) (Unit {0})
  unfolding protector_options has_name
  check_for_protector_with_name ctx w name =
      refuse_if (protector_name_exists name) (λ os. has_name name os)
        (protector_options names ret ctx w)

  unfoldable pub check_if_user_has_login_protector :
      Context → W → ℤ → Context × Result (OpError E K) (Unit {0})
  unfolding protector_options has_login
  check_if_user_has_login_protector ctx w uid =
      refuse_if (login_protector_exists ctx.target_user) (λ os. has_login uid os)
        (protector_options names ret ctx w)

-- What an operation with a callback leaves of the callback's state, of the filesystems and of the
-- protector, and what it returns.
abbrev pub Outcome : Type 0 → Type 0 → Type 0 → Type 0 → Type 0
Outcome S W E K = S × (W × (Protector × Result (OpError E K) (Unit {0})))

abbrev pub with_wrapped_key : WrappedKeyData → Protector → Protector
with_wrapped_key w protector = record protector {
  fields = record protector.fields { wrapped_key = some w };
}

module _ {S W E K : Type 0} where
  abbrev pub rewrap_stored : S → Protector → W × Result E (Unit {0}) → Outcome S W E K
  rewrap_stored st protector (w, r) = (st, (w, (protector, lift_error r)))

  -- The deferred function takes back a failed crypto.Wrap only.
  abbrev pub rewrap_wrapped :
      Storage W E → S → Protector → W → Result CryptoError WrappedKeyData → Outcome S W E K
  rewrap_wrapped s st protector w (err e) = (st, (w, (protector, err (crypto_failed e))))
  rewrap_wrapped s st protector w (ok wrapped) =
      let protector' = with_wrapped_key wrapped protector in
      rewrap_stored st protector'
        (s.add_protector protector'.context.mount protector'.fields protector'.owner_if_creating w)

  abbrev pub rewrap_by :
      Process
      → Storage W E
      → Protector
      → Key
      → W
      → S × Result (CallbackError K) Key
      → Outcome S W E K
  rewrap_by process s protector key w (st, err e) = (st, (w, (protector, err (callback_failed e))))
  rewrap_by process s protector key w (st, ok wrapping_key) =
      rewrap_wrapped s st protector w (wrap process.primitives wrapping_key key)

  abbrev pub rewrap_key :
      Process → Storage W E → KeyFunc S K → Protector → S → W → Option Key → Outcome S W E K
  rewrap_key process s fn protector st w none = (st, (w, (protector, err key_locked)))
  rewrap_key process s fn protector st w (some key) =
      rewrap_by process s protector key w (get_wrapping_key process protector.fields fn false st)

  unfoldable pub rewrap : Process → Storage W E → KeyFunc S K → Protector → S → W → Outcome S W E K
  unfolding get_wrapping_key
  rewrap process s fn protector st w = rewrap_key process s fn protector st w protector.key

module _ {S E K : Type 0} where
  abbrev pub unlocked_by :
      Protector
      → S × Result (CallbackError K) Key
      → S × (Protector × Result (OpError E K) (Unit {0}))
  unlocked_by protector (st, err e) = (st, (protector, err (callback_failed e)))
  unlocked_by protector (st, ok key) = (st, (record protector { key = some key }, ok tt))

  abbrev pub unlock_key :
      ℕ
      → Process
      → KeyFunc S K
      → Protector
      → S
      → Option Key
      → S × (Protector × Result (OpError E K) (Unit {0}))
  unlock_key fuel process fn protector st (some key) = (st, (protector, ok tt))
  unlock_key fuel process fn protector st none =
      unlocked_by protector (unwrap_protector_key fuel process protector.fields fn st)

  -- Unlock, with a bound on the rounds of the loop that asks for keys.
  unfoldable pub unlock :
      ℕ → Process → KeyFunc S K → Protector → S → S × (Protector × Result (OpError E K) (Unit {0}))
  unfolding unwrap_protector_key
  unlock fuel process fn protector st = unlock_key fuel process fn protector st protector.key

-- Lock: the key is wiped.
unfoldable pub lock : Protector → Protector
lock protector = record protector { key = none }

module _ {W E K : Type 0} where
  unfoldable pub destroy : Storage W E → Protector → W → W × Result (OpError E K) (Unit {0})
  destroy s protector w =
      let r = s.remove_protector protector.context.mount protector.fields.protector_descriptor w in
      (r.0, lift_error r.1)

  unfoldable pub revert : Storage W E → Protector → W → W × Result (OpError E K) (Unit {0})
  unfolding destroy
  revert s protector w = if protector.created then destroy s protector w else (w, ok tt)
