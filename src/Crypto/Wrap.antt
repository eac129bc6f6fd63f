-- ===== src/Crypto/Wrap.antt =====
-- crypto/crypto.go: Wrap and Unwrap, encrypt-then-MAC over primitives of the libraries.
pub mod RoundTrip
pub mod Sealed
use Prim.Native.Nat.{bit_xor}
use fscrypt.Common.{
  ℕ, ◌+◌, ◌-◌, ◌*◌, Bool, true, false, not, [], ◌∷◌, ◌++◌, Option, none, some, Bytes, bytes_eq,
  length, take, drop, ◌==◌, if◌then◌else◌, Result, ok, err, ◌>>=◌,
}
use fscrypt.Metadata.Types.{WrappedKeyData, internal_key_len, iv_len}
use fscrypt.Crypto.Key.{Memory, Key, KeyError, data_of, len, new_blank_key, with_data, copy_to}

-- The first `n` bytes of unsalted HKDF-SHA256, the AES256-CTR key stream of `n` bytes, HMAC-SHA256,
-- and the random source: the bytes that it delivers, or `none`.
pub record Primitives : Type 0 where
  pub hkdf : Bytes → ℕ → Bytes
  pub key_stream : Bytes → Bytes → ℕ → Bytes
  pub hmac : Bytes → Bytes → Bytes
  pub random : ℕ → Option Bytes

pub data CryptoError : Type 0 where
  bad_auth no_random : CryptoError
  wrapping_key_length : ℕ → CryptoError
  key_error : KeyError → CryptoError
  panic : CryptoError

abbrev pub lift : Result KeyError Key → Result CryptoError Key
lift (ok key) = ok key
lift (err e) = err (key_error e)

-- stream.XORKeyStream
unfoldable pub xor_key_stream : Bytes → Bytes → Bytes
xor_key_stream [] input = []
xor_key_stream (k ∷ ks) [] = []
xor_key_stream (k ∷ ks) (b ∷ input) = bit_xor b k ∷ xor_key_stream ks input

-- stretchKey: two keys of InternalKeyLen bytes; a length that is wrong panics.
pub record Stretched : Type 0 where
  pub enc_key : Bytes
  pub auth_key : Bytes

unfoldable pub stretch_key : Primitives → Bytes → Result CryptoError Stretched
stretch_key p key =
    if length key == internal_key_len
    then ok (record {
      enc_key = take internal_key_len (p.hkdf key (2 * internal_key_len));
      auth_key = drop internal_key_len (p.hkdf key (2 * internal_key_len));
    })
    else err panic

-- aesCTR: the output has the input's length.
unfoldable pub aes_ctr : Primitives → Bytes → Bytes → Bytes → Result CryptoError Bytes
aes_ctr p key iv input =
    if length key == internal_key_len
    then (if length iv == iv_len
        then ok (xor_key_stream (p.key_stream key iv (length input)) input)
        else err panic)
    else err panic

-- getHMAC over two buffers.
unfoldable pub get_hmac : Primitives → Bytes → Bytes → Bytes → Result CryptoError Bytes
get_hmac p key iv text =
    if length key == internal_key_len then ok (p.hmac key (iv ++ text)) else err panic

unfoldable pub check_wrapping_key : Key → Result CryptoError (Unit {0})
check_wrapping_key key =
    if len key == internal_key_len then ok tt else err (wrapping_key_length (len key))

abbrev pub buffer_or_error : Option Bytes → Result CryptoError Bytes
buffer_or_error none = err no_random
buffer_or_error (some b) = ok b

-- NewRandomBuffer
abbrev pub random_buffer : Primitives → ℕ → Result CryptoError Bytes
random_buffer p n = buffer_or_error (p.random n)

unfoldable pub wrap : Primitives → Key → Key → Result CryptoError WrappedKeyData
wrap p wrapping_key secret_key = do
  checked ← check_wrapping_key wrapping_key
  iv ← random_buffer p iv_len
  keys ← stretch_key p (data_of wrapping_key)
  encrypted_key ← aes_ctr p keys.enc_key iv (data_of secret_key)
  hmac ← get_hmac p keys.auth_key iv encrypted_key
  ok (record { iv = iv; encrypted_key = encrypted_key; hmac = hmac })

-- The secret key, if the HMAC is the one that was stored.
abbrev pub decrypt :
    Primitives → Memory → Stretched → WrappedKeyData → Bytes → Result CryptoError Key
decrypt p m keys w mac =
    if bytes_eq mac w.hmac
    then (do
      secret_key ← lift (new_blank_key m (length w.encrypted_key))
      output ← aes_ctr p keys.enc_key w.iv w.encrypted_key
      ok (with_data output secret_key))
    else err bad_auth

unfoldable pub unwrap : Primitives → Memory → Key → WrappedKeyData → Result CryptoError Key
unwrap p m wrapping_key w = do
  checked ← check_wrapping_key wrapping_key
  keys ← stretch_key p (data_of wrapping_key)
  mac ← get_hmac p keys.auth_key w.iv w.encrypted_key
  decrypt p m keys w mac
