-- ===== src/Actions/Callback.antt =====
-- actions/callback.go: the wrapping key from a KeyFunc, and the loop that asks again.
pub mod Retry
use fscrypt.Common.{
  ℕ, zero, suc, eq_ℤ, Bool, true, false, Option, none, some, if◌then◌else◌, Result, ok, err,
}
use fscrypt.Metadata.Types.{ProtectorData, HashingCosts, WrappedKeyData}
use fscrypt.Metadata.Source
use fscrypt.Crypto.Key.{Key}
use fscrypt.Crypto.Wrap.{CryptoError, bad_auth, panic, unwrap}
use fscrypt.Crypto.Derive.{passphrase_hash}
use fscrypt.Actions.Types.{Process}

-- KeyFunc: `S` is what the callback reads and leaves behind, `K` the type of its errors.
abbrev pub KeyFunc : Type 0 → Type 0 → Type 0
KeyFunc S K = ProtectorData → Bool → S → S × Result K Key

pub data CallbackError (K : Type 0) : Type 0 where
  key_fn : K → CallbackError K
  failed : CryptoError → CallbackError K
  out_of_fuel : CallbackError K

-- crypto.PassphraseHash; costs that are nil panic.
abbrev pub hash_passphrase : Process → Key → ProtectorData → Result CryptoError Key
hash_passphrase process passphrase info = elim info.costs [
  | none ↦ err panic
  | some costs ↦ passphrase_hash process.hashes process.memory passphrase info.salt costs
]

-- crypto.Unwrap of the protector's wrapped key; a nil pointer panics.
abbrev pub unwrap_wrapped : Process → Key → Option WrappedKeyData → Result CryptoError Key
unwrap_wrapped process wrapping_key none = err panic
unwrap_wrapped process wrapping_key (some w) =
    unwrap process.primitives process.memory wrapping_key w

abbrev pub unwrap_info : Process → ProtectorData → Key → Result CryptoError Key
unwrap_info process info wrapping_key = unwrap_wrapped process wrapping_key info.wrapped_key

-- What one round of the loop decides: an answer, or another round.
pub data Round (S K : Type 0) : Type 0 where
  answer : S → Result (CallbackError K) Key → Round S K
  again : S → Round S K

module _ {S K : Type 0} where
  abbrev pub hashed : Process → ProtectorData → S × Result K Key → S × Result (CallbackError K) Key
  hashed process info (st, err e) = (st, err (key_fn e))
  hashed process info (st, ok passphrase) =
      (st, lift_crypto (hash_passphrase process passphrase info))
    where
      lift_crypto : Result CryptoError Key → Result (CallbackError K) Key
      lift_crypto (ok key) = ok key
      lift_crypto (err e) = err (failed e)

  abbrev pub direct : S × Result K Key → S × Result (CallbackError K) Key
  direct (st, err e) = (st, err (key_fn e))
  direct (st, ok key) = (st, ok key)

  unfoldable pub get_wrapping_key :
      Process → ProtectorData → KeyFunc S K → Bool → S → S × Result (CallbackError K) Key
  get_wrapping_key process info fn retry st =
      if eq_ℤ info.source Source.raw_key
      then direct (fn info retry st)
      else hashed process info (fn info retry st)

  abbrev pub judged : S → Result CryptoError Key → Round S K
  judged st (ok key) = answer st (ok key)
  judged st (err bad_auth) = again st
  judged st (err e) = answer st (err (failed e))

  abbrev pub tried : Process → ProtectorData → S × Result (CallbackError K) Key → Round S K
  tried process info (st, err e) = answer st (err e)
  tried process info (st, ok wrapping_key) = judged st (unwrap_info process info wrapping_key)

  unfoldable pub round : Process → ProtectorData → KeyFunc S K → Bool → S → Round S K
  unfolding get_wrapping_key
  round process info fn retry st = tried process info (get_wrapping_key process info fn retry st)

  abbrev pub next :
      Round S K → (S → S × Result (CallbackError K) Key) → S × Result (CallbackError K) Key
  next (answer st r) continue_from = (st, r)
  next (again st) continue_from = continue_from st

  -- The loop, for a number of rounds: only the first has `retry` false.
  unfoldable pub unwrap_loop :
      ℕ → Process → ProtectorData → KeyFunc S K → Bool → S → S × Result (CallbackError K) Key
  unwrap_loop zero process info fn retry st = (st, err out_of_fuel)
  unwrap_loop (suc n) process info fn retry st =
      next (round process info fn retry st) (λ st'. unwrap_loop n process info fn true st')

  unfoldable pub unwrap_protector_key :
      ℕ → Process → ProtectorData → KeyFunc S K → S → S × Result (CallbackError K) Key
  unfolding unwrap_loop
  unwrap_protector_key fuel process info fn st = unwrap_loop fuel process info fn false st
