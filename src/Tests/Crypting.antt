-- ===== src/Tests/Crypting.antt =====
-- Package crypto at concrete keys.
use fscrypt.Common.{
  ℕ, ◌≡◌, ◌≢◌, ◌<◌, refl, ◌⊎◌, pos, ◌++◌, some, Bytes, codes, length, replicate, ok, err, to_uint,
  arith,
}
use fscrypt.Metadata.Types.{WrappedKeyData}
use fscrypt.Metadata.Checks.{check_wrapped_key, check_costs}
use fscrypt.Crypto.Key.{Key, data_of}
use fscrypt.Crypto.Wrap.{wrap, unwrap, bad_auth}
use fscrypt.Crypto.Wrap.RoundTrip.{unwrap-wrap, unwrap_lem, auth_of, opened}
use fscrypt.Crypto.Derive.{passphrase_hash}
use fscrypt.Crypto.Derive.Accepted.{passphrase_hash_lem}
use fscrypt.Tests.Samples.{
  memory, memory-HasMemory, primitives, primitives-AreLawful, hashes, hashes-AreLawful, costs,
  wrapped_key, policy_key, key_of,
}

abbrev wrapping_key : Key
wrapping_key = key_of (replicate 32 8)

unwrap-wrap_example :
    (w : WrappedKeyData) × (wrap primitives wrapping_key policy_key ≡ ok w)
    × (0 < length (data_of policy_key) → check_wrapped_key (some w) ≡ ok tt)
    × ((secret : Key) × (unwrap primitives memory wrapping_key w ≡ ok secret)
        × (data_of secret ≡ data_of policy_key))
unwrap-wrap_example =
    unwrap-wrap primitives primitives-AreLawful memory memory-HasMemory wrapping_key policy_key
      (replicate 16 9) refl (omega arith) refl

unwrap_lem_example :
    ((primitives.hmac
          (auth_of primitives (data_of wrapping_key))
          (wrapped_key.iv ++ wrapped_key.encrypted_key)
        ≡ wrapped_key.hmac)
      × (secret : Key) × (unwrap primitives memory wrapping_key wrapped_key ≡ ok secret)
      × (data_of secret ≡ opened primitives (data_of wrapping_key) wrapped_key))
    ⊎ ((primitives.hmac
            (auth_of primitives (data_of wrapping_key))
            (wrapped_key.iv ++ wrapped_key.encrypted_key)
          ≢ wrapped_key.hmac)
        × (unwrap primitives memory wrapping_key wrapped_key ≡ err bad_auth))
unwrap_lem_example =
    unwrap_lem primitives primitives-AreLawful memory memory-HasMemory wrapping_key wrapped_key refl
      refl

passphrase_hash_lem_example :
    (t : ℕ) × (m : ℕ) × (out : Bytes) × (hash : Key) × (costs.time ≡ pos t)
    × (costs.memory ≡ pos m)
    × (hashes.argon2 (codes "hunter2") (replicate 16 0) t m (to_uint 8 costs.parallelism) 32
        ≡ some out)
    × (passphrase_hash hashes memory (key_of (codes "hunter2")) (replicate 16 0) costs ≡ ok hash)
    × (data_of hash ≡ out)
unfolding check_costs to_uint
passphrase_hash_lem_example =
    passphrase_hash_lem hashes hashes-AreLawful memory memory-HasMemory (key_of (codes "hunter2"))
      (replicate 16 0) costs refl
