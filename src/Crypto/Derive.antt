-- ===== src/Crypto/Derive.antt =====
-- crypto/crypto.go: key descriptors, and the hash of a passphrase.
pub mod Accepted
use fscrypt.Common.{
  ℕ, ◌*◌, ◌/◌, ℤ, pos, eq_ℤ, to_uint, [], ◌∷◌, ◌++◌, Option, none, some, String, Bytes, codes, take,
  if◌then◌else◌, Result, ok, err, ◌>>=◌,
}
use fscrypt.Hex.{encode}
use fscrypt.Metadata.Types.{
  HashingCosts, internal_key_len, policy_descriptor_len_v1, policy_descriptor_len_v2,
}
use fscrypt.Crypto.Key.{Memory, Key, data_of, new_blank_key, copy_to}
use fscrypt.Crypto.Wrap.{CryptoError, lift, panic}

-- SHA512, the first bytes of unsalted HKDF-SHA512 under an info string, or `none` when it has no more
-- entropy, and Argon2id with its costs (time, memory, threads) and output length: `none` if it panics.
pub record Hashes : Type 0 where
  pub sha512 : Bytes → Bytes
  pub hkdf_sha512 : Bytes → Bytes → ℕ → Option Bytes
  pub argon2 : Bytes → Bytes → ℕ → ℕ → ℕ → ℕ → Option Bytes

pub data DescriptorError : Type 0 where
  entropy : DescriptorError
  invalid_version : ℤ → DescriptorError

-- hex.DecodedLen
abbrev pub decoded_len : ℕ → ℕ
decoded_len n = n / 2

unfoldable pub compute_key_descriptor_v1 : Hashes → Key → Bytes
compute_key_descriptor_v1 h key =
    let h1 = h.sha512 (data_of key) in
    let h2 = h.sha512 h1 in encode (take (decoded_len policy_descriptor_len_v1) h2)

-- "fscrypt\0" and HKDF_CONTEXT_KEY_IDENTIFIER.
abbrev pub key_identifier_info : Bytes
key_identifier_info = codes "fscrypt" ++ (0 ∷ 1 ∷ [])

abbrev pub hex_or_error : Option Bytes → Result DescriptorError Bytes
hex_or_error none = err entropy
hex_or_error (some h) = ok (encode h)

unfoldable pub compute_key_descriptor_v2 : Hashes → Key → Result DescriptorError Bytes
compute_key_descriptor_v2 h key =
    hex_or_error
      (h.hkdf_sha512 (data_of key) key_identifier_info (decoded_len policy_descriptor_len_v2))

unfoldable pub compute_key_descriptor : Hashes → Key → ℤ → Result DescriptorError Bytes
compute_key_descriptor h key policy_version =
    if eq_ℤ policy_version (pos 1)
    then ok (compute_key_descriptor_v1 h key)
    else if eq_ℤ policy_version (pos 2)
    then compute_key_descriptor_v2 h key
    else err (invalid_version policy_version)

abbrev pub hash_or_panic : Memory → Option Bytes → Result CryptoError Key
hash_or_panic m none = err panic
hash_or_panic m (some key) = do
  hash ← lift (new_blank_key m internal_key_len)
  ok (copy_to key hash)

unfoldable pub passphrase_hash :
    Hashes → Memory → Key → Bytes → HashingCosts → Result CryptoError Key
passphrase_hash h mem passphrase salt costs =
    let t = to_uint 32 costs.time in
    let m = to_uint 32 costs.memory in
    let p = to_uint 8 costs.parallelism in
    hash_or_panic mem (h.argon2 (data_of passphrase) salt t m p internal_key_len)
