-- ===== src/Crypto/Wrap/RoundTrip.antt =====
-- A wrapped key is unwrapped by the key that wrapped it, and only if the HMAC matches.
use Prim.Native.Nat.{bit_xor}
use mathlib.Core.Path.{subst}
use fscrypt.Common.{
  Option-cases, Bool-cases, inl, inr, ◌⊎◌, ℕ, suc, ◌<◌, ◌≡◌, ◌≢◌, refl, sym, ap, ◌∙◌, Bool, true,
  [], ◌∷◌, ◌++◌, Option, none, some, Bytes, IsBytes, bytes_eq, bytes_eq_refl, bytes_eq→eq, length,
  take, drop, replicate, ◌==◌, ==_iff, passes_below, passes_below_lem, length-take, length-drop,
  length-replicate, ok, err, arith,
}
use fscrypt.Metadata.Types.{WrappedKeyData}
use fscrypt.Metadata.Checks.{check_valid_length, check_wrapped_key}
use fscrypt.Crypto.Key.{Memory, Key, data_of, data_or_empty, len, with_data}
use fscrypt.Crypto.Key.Buffer.{HasMemory, data-new_blank_key}
use fscrypt.Crypto.Wrap.{
  Primitives, bad_auth, no_random, xor_key_stream, stretch_key, aes_ctr, get_hmac,
  check_wrapping_key, wrap, unwrap, decrypt,
}

abbrev xor_returns : ℕ → ℕ → Bool
xor_returns a b = bit_xor (bit_xor a b) b == a

xor_table : passes_below (λ a. passes_below (xor_returns a) 256) 256 ≡ true
unfolding passes_below
xor_table = refl

xor_twice : (a b : ℕ) → a < 256 → b < 256 → bit_xor (bit_xor a b) b ≡ a
xor_twice a b ha hb =
    let row = passes_below_lem (λ x. passes_below (xor_returns x) 256) 256 xor_table a ha in
    (==_iff _ a).0 (passes_below_lem (xor_returns a) 256 row b hb)

pub length-xor_key_stream :
    (ks input : Bytes) → length ks ≡ length input → length (xor_key_stream ks input) ≡ length input
unfolding xor_key_stream
length-xor_key_stream [] [] e = refl
length-xor_key_stream [] (b ∷ input) e = absurd (omega arith)
length-xor_key_stream (k ∷ ks) [] e = refl
length-xor_key_stream (k ∷ ks) (b ∷ input) e = ap suc (length-xor_key_stream ks input (omega arith))

-- The same key stream twice gives the input back.
xor_key_stream_twice :
    (ks input : Bytes)
    → length ks ≡ length input
    → IsBytes ks
    → IsBytes input
    → xor_key_stream ks (xor_key_stream ks input) ≡ input
unfolding xor_key_stream
xor_key_stream_twice [] [] e hk hi = refl
xor_key_stream_twice [] (b ∷ input) e hk hi = absurd (omega arith)
xor_key_stream_twice (k ∷ ks) [] e hk hi = refl
xor_key_stream_twice (k ∷ ks) (b ∷ input) e (hk, hks) (hb, hi) =
    rw (xor_twice b k hb hk, xor_key_stream_twice ks input (omega arith) hks hi) refl

-- The lengths that the primitives deliver, in bytes.
pub record AreLawful (p : Primitives) : Type 0 where
  pub hkdf_length : (key : Bytes) → length (p.hkdf key 64) ≡ 64
  pub stream_length : (key iv : Bytes) (n : ℕ) → length (p.key_stream key iv n) ≡ n
  pub stream_bytes : (key iv : Bytes) (n : ℕ) → IsBytes (p.key_stream key iv n)
  pub hmac_length : (key text : Bytes) → length (p.hmac key text) ≡ 32
  pub random_length : (n : ℕ) (b : Bytes) → p.random n ≡ some b → length b ≡ n
  pub random_bytes : (n : ℕ) (b : Bytes) → p.random n ≡ some b → IsBytes b

pub checked_fields :
    (w : WrappedKeyData)
    → 0 < length w.encrypted_key
    → length w.iv ≡ 16
    → length w.hmac ≡ 32
    → check_wrapped_key (some w) ≡ ok tt
unfolding check_wrapped_key check_valid_length
checked_fields w positive e_iv e_mac = ground (arith, positive, e_iv, e_mac)

module _ (p : Primitives) where
  abbrev pub enc_of : Bytes → Bytes
  enc_of key = take 32 (p.hkdf key 64)

  abbrev pub auth_of : Bytes → Bytes
  auth_of key = drop 32 (p.hkdf key 64)

  -- The ciphertext, and the whole of what Wrap returns.
  abbrev pub sealed : Bytes → Bytes → Bytes → WrappedKeyData
  sealed key iv secret =
      let text : Bytes = xor_key_stream (p.key_stream (enc_of key) iv (length secret)) secret in
      record { iv = iv; encrypted_key = text; hmac = p.hmac (auth_of key) (iv ++ text) }

  -- What the ciphertext decrypts to.
  abbrev pub opened : Bytes → WrappedKeyData → Bytes
  opened key w =
      xor_key_stream (p.key_stream (enc_of key) w.iv (length w.encrypted_key)) w.encrypted_key

module _ (p : Primitives) (lawful : AreLawful p) where
  stretched :
      (key : Bytes)
      → length key ≡ 32
      → stretch_key p key ≡ ok (record { enc_key = enc_of p key; auth_key = auth_of p key })
  unfolding stretch_key
  stretched key e = rw e refl

  length-enc_of : (key : Bytes) → length (enc_of p key) ≡ 32
  length-enc_of key = length-take 32 (p.hkdf key 64) (omega (arith, lawful.hkdf_length key))

  length-auth_of : (key : Bytes) → length (auth_of p key) ≡ 32
  length-auth_of key = omega (arith, length-drop 32 (p.hkdf key 64), lawful.hkdf_length key)

  pub wrap_lem :
      (wrapping_key secret_key : Key) (iv : Bytes)
      → length (data_of wrapping_key) ≡ 32
      → p.random 16 ≡ some iv
      → wrap p wrapping_key secret_key
        ≡ ok (sealed p (data_of wrapping_key) iv (data_of secret_key))
  unfolding wrap check_wrapping_key len get_hmac aes_ctr
  wrap_lem wrapping_key secret_key iv e r =
      let key = data_of wrapping_key in
      rw
        (e, r, stretched key e, length-enc_of key, lawful.random_length 16 iv r, length-auth_of key)
        refl

  data-with_data :
      (d : Bytes) (o : Option Bytes)
      → length (data_or_empty o) ≡ length d
      → data_of (with_data d (record { buffer = o })) ≡ d
  data-with_data d (some old) e = refl
  data-with_data [] none e = refl
  data-with_data (b ∷ d) none e = absurd (omega arith)

  length_blank : (n : ℕ) (key : Key) → data_of key ≡ replicate n 0 → length (data_of key) ≡ n
  length_blank n key zeros = ap length zeros ∙ length-replicate n 0

  -- The key that the ciphertext decrypts to.
  unwrapped :
      (m : Memory)
      → HasMemory m
      → (key : Bytes) (w : WrappedKeyData) → length w.iv ≡ 16
      → let text : Bytes =
          xor_key_stream
            (p.key_stream (enc_of p key) w.iv (length w.encrypted_key))
            w.encrypted_key in
        (secret : Key) × (decrypt p m
            (record { enc_key = enc_of p key; auth_key = auth_of p key })
            w
            w.hmac
          ≡ ok secret)
        × (data_of secret ≡ text)
  unfolding aes_ctr
  unwrapped m h key w e =
      let n = length w.encrypted_key in
      let stream = p.key_stream (enc_of p key) w.iv n in
      let text = xor_key_stream stream w.encrypted_key in
      let (blank, made, zeros) = data-new_blank_key m h n in
      (
        with_data text blank,
        rw (bytes_eq_refl w.hmac, made, length-enc_of key, e) refl,
        data-with_data text blank.buffer (
            length_blank n blank zeros
            ∙ sym (
                length-xor_key_stream stream w.encrypted_key
                  (lawful.stream_length (enc_of p key) w.iv n))),
      )

  -- With a wrapping key of 32 bytes and an IV of 16, Unwrap either finds the HMAC of the stored IV
  -- and ciphertext in the data, and returns the decrypted key, or finds another one, and returns
  -- ErrBadAuth.
  pub unwrap_lem :
      (m : Memory)
      → HasMemory m
      → (wrapping_key : Key) (w : WrappedKeyData) → length (data_of wrapping_key) ≡ 32
      → length w.iv ≡ 16
      → ((p.hmac (auth_of p (data_of wrapping_key)) (w.iv ++ w.encrypted_key) ≡ w.hmac)
          × (secret : Key) × (unwrap p m wrapping_key w ≡ ok secret)
          × (data_of secret ≡ opened p (data_of wrapping_key) w))
        ⊎ ((p.hmac (auth_of p (data_of wrapping_key)) (w.iv ++ w.encrypted_key) ≢ w.hmac)
            × (unwrap p m wrapping_key w ≡ err bad_auth))
  unfolding unwrap check_wrapping_key len get_hmac
  unwrap_lem m h wrapping_key w e e_iv =
      let key = data_of wrapping_key in
      let mac = p.hmac (auth_of p key) (w.iv ++ w.encrypted_key) in
      elim (Bool-cases (bytes_eq mac w.hmac)) [
        | inl same ↦
            let eq : mac ≡ w.hmac = bytes_eq→eq mac w.hmac same in
            let (secret, decrypted, content) = unwrapped m h key w e_iv in
            inl (eq, secret, rw (e, stretched key e, length-auth_of key, eq) decrypted, content)
        | inr other ↦ inr (
          λ eq. absurd (ground (arith, other, eq, bytes_eq_refl w.hmac)),
          rw (e, stretched key e, length-auth_of key, other) refl,
        )
      ]

  -- If the random source delivers an IV, a secret key that a key of 32 bytes wraps is unwrapped by
  -- the same key to the same bytes, and the wrapped key of a secret that is not empty passes the
  -- check of the metadata.
  pub unwrap-wrap :
      (m : Memory)
      → HasMemory m
      → (wrapping_key secret_key : Key) (iv : Bytes) → length (data_of wrapping_key) ≡ 32
      → IsBytes (data_of secret_key)
      → p.random 16 ≡ some iv
      → (w : WrappedKeyData) × (wrap p wrapping_key secret_key ≡ ok w)
        × (0 < length (data_of secret_key) → check_wrapped_key (some w) ≡ ok tt)
        × ((secret : Key) × (unwrap p m wrapping_key w ≡ ok secret)
            × (data_of secret ≡ data_of secret_key))
  unwrap-wrap m h wrapping_key secret_key iv e bytes r =
      let key = data_of wrapping_key in
      let w = sealed p key iv (data_of secret_key) in
      let n = length (data_of secret_key) in
      let stream = p.key_stream (enc_of p key) iv n in
      let stream_length = lawful.stream_length (enc_of p key) iv n in
      let same = length-xor_key_stream stream (data_of secret_key) stream_length in
      (
        w,
        wrap_lem wrapping_key secret_key iv e r,
        λ positive.
            checked_fields w (ground (arith, same)) (lawful.random_length 16 iv r)
              (lawful.hmac_length (auth_of p key) (iv ++ w.encrypted_key)),
        elim (unwrap_lem m h wrapping_key w e (lawful.random_length 16 iv r)) [
          | inl (eq, secret, result, content) ↦ (
            secret,
            result,
            content
                ∙ ap (λ (i : ℕ). xor_key_stream (p.key_stream (enc_of p key) iv i) w.encrypted_key)
                    same
                ∙ xor_key_stream_twice stream (data_of secret_key) stream_length
                    (lawful.stream_bytes (enc_of p key) iv n) bytes,
          )
          | inr (ne, result) ↦ absurd (ne refl)
        ],
      )

  pub no_random_lem :
      (wrapping_key secret_key : Key)
      → length (data_of wrapping_key) ≡ 32
      → p.random 16 ≡ none
      → wrap p wrapping_key secret_key ≡ err no_random
  unfolding wrap check_wrapping_key len
  no_random_lem wrapping_key secret_key e r = rw (e, r) refl

  -- Whatever Wrap returns, Unwrap by the same key opens it.
  pub unwrap_of_wrap :
      (m : Memory)
      → HasMemory m
      → (wrapping_key secret_key : Key) (w : WrappedKeyData) → length (data_of wrapping_key) ≡ 32
      → IsBytes (data_of secret_key)
      → wrap p wrapping_key secret_key ≡ ok w
      → (secret : Key) × (unwrap p m wrapping_key w ≡ ok secret)
        × (data_of secret ≡ data_of secret_key)
  unwrap_of_wrap m h wrapping_key secret_key w e bytes wrapped = elim (Option-cases (p.random 16)) [
    | inl r ↦ absurd (ground (arith, wrapped, no_random_lem wrapping_key secret_key e r))
    | inr (iv, r) ↦
        let (w', wrapped', checked, (secret, opened', content)) =
          unwrap-wrap m h wrapping_key secret_key iv e bytes r in
        let same : w' ≡ w = ground (arith, wrapped, wrapped') in
        (secret, subst (λ x. unwrap p m wrapping_key x ≡ ok secret) same opened', content)
  ]
