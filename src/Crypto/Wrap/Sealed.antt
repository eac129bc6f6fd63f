-- ===== src/Crypto/Wrap/Sealed.antt =====
-- What a wrapped key that Wrap returns amounts to.
use mathlib.Core.Path.{subst}
use fscrypt.Common.{
  ◌<◌, ◌≡◌, inl, inr, Bool-cases, Option-cases, ◌++◌, ◌==◌, ==_iff, some, length, ok, arith,
}
use fscrypt.Metadata.Types.{WrappedKeyData}
use fscrypt.Metadata.Checks.{check_wrapped_key}
use fscrypt.Crypto.Key.{Key, data_of, len}
use fscrypt.Crypto.Wrap.{Primitives, check_wrapping_key, wrap}
use fscrypt.Crypto.Wrap.RoundTrip.{
  AreLawful, enc_of, auth_of, sealed, checked_fields, length-xor_key_stream, wrap_lem,
  no_random_lem,
}

module _ (p : Primitives) where
  -- The wrapping key of a successful Wrap has 32 bytes.
  pub wrap_key_length :
      (wrapping_key secret_key : Key) (w : WrappedKeyData)
      → wrap p wrapping_key secret_key ≡ ok w
      → length (data_of wrapping_key) ≡ 32
  unfolding wrap check_wrapping_key len
  wrap_key_length wrapping_key secret_key w h =
      elim (Bool-cases (length (data_of wrapping_key) == 32)) [
        | inl same ↦ (==_iff (length (data_of wrapping_key)) 32).0 same
        | inr other ↦ absurd (ground (arith, rw other at h))
      ]

module _ (p : Primitives) (lawful : AreLawful p) where
  -- The wrapped key of a secret that is not empty passes CheckValidity, and is as long as the secret.
  pub wrap_checked :
      (wrapping_key secret_key : Key) (w : WrappedKeyData)
      → 0 < length (data_of secret_key)
      → wrap p wrapping_key secret_key ≡ ok w
      → (check_wrapped_key (some w) ≡ ok tt)
        × (length w.encrypted_key ≡ length (data_of secret_key))
  wrap_checked wrapping_key secret_key w positive h =
      let e = wrap_key_length p wrapping_key secret_key w h in
      elim (Option-cases (p.random 16)) [
        | inl none_left ↦
            absurd (ground (arith, h, no_random_lem p lawful wrapping_key secret_key e none_left))
        | inr (iv, r) ↦
            let key = data_of wrapping_key in
            let made = sealed p key iv (data_of secret_key) in
            let n = length (data_of secret_key) in
            let stream = p.key_stream (enc_of p key) iv n in
            let long =
              length-xor_key_stream stream (data_of secret_key)
                (lawful.stream_length (enc_of p key) iv n) in
            let same : made ≡ w =
              ground (arith, h, wrap_lem p lawful wrapping_key secret_key iv e r) in
            subst
              (λ (x : WrappedKeyData).
                (check_wrapped_key (some x) ≡ ok tt) × (length x.encrypted_key ≡ n))
              same
              (
                checked_fields made (ground (arith, long)) (lawful.random_length 16 iv r)
                    (lawful.hmac_length (auth_of p key) (iv ++ made.encrypted_key)),
                long,
              )
      ]
