-- ===== src/Crypto/Random.antt =====
-- crypto/rand.go: random keys.
use mathlib.Core.Path.{subst}
use fscrypt.Common.{
  ℕ, zero, suc, [], ◌∷◌, IsBytes, ◌≤◌, ◌≡◌, ◌⊎◌, ◌==◌, replicate, if◌then◌else◌, refl, sym, ap, ◌∙◌,
  inl, inr, Bool-cases, Option-cases, leb, leb→le, Option, none, some, Bytes, length, take,
  length-take, Result, ok, err, arith,
}
use fscrypt.Crypto.Key.{
  Memory, Key, KeyError, mlock_ulimit, cannot_allocate, eagain, data_of, new_blank_key,
}
use fscrypt.Crypto.Key.Buffer.{HasMemory, data-new_blank_key}
use fscrypt.Crypto.Reader.{new_fixed_length_key}
use fscrypt.Crypto.Wrap.RoundTrip.{AreLawful}
use fscrypt.Crypto.Wrap.{Primitives, CryptoError, no_random, lift}

-- The random source delivers the bytes, or an error.
abbrev random_key_of : Memory → ℕ → Option Bytes → Result CryptoError Key
random_key_of m n none = err no_random
random_key_of m n (some bytes) = lift (new_fixed_length_key m bytes n)

unfoldable pub new_random_key : Primitives → Memory → ℕ → Result CryptoError Key
unfolding new_fixed_length_key
new_random_key p m n = random_key_of m n (p.random n)

blank_cases :
    (m : Memory) (n : ℕ)
    → ((e : KeyError) × (new_blank_key m (suc n) ≡ err e))
      ⊎ (new_blank_key m (suc n) ≡ ok (record { buffer = some (replicate (suc n) 0) }))
unfolding new_blank_key
blank_cases m n = elim (Option-cases (m.mmap_error (suc n))) [
  | inr (e, bad) ↦ inl (
    if e == eagain then mlock_ulimit else cannot_allocate e (suc n),
    rw (bad, new_blank_key) refl,
  )
  | inl good ↦ inr (rw (good, new_blank_key) refl)
]

key_of_bytes :
    (m : Memory) (bytes : Bytes) (n : ℕ) (key : Key)
    → lift (new_fixed_length_key m bytes (suc n)) ≡ ok key
    → (suc n ≤ length bytes) × (data_of key ≡ take (suc n) bytes)
unfolding new_fixed_length_key
key_of_bytes m bytes n key h = elim (blank_cases m n) [
  | inl (e, bad) ↦ absurd (ground (arith, rw bad at h))
  | inr good ↦ elim (Bool-cases (leb (suc n) (length bytes))) [
    | inr short ↦ absurd (ground (arith, rw (good, short) at h))
    | inl enough ↦
        let made : ok (record { buffer = some (take (suc n) bytes) }) ≡ ok key =
          rw (good, enough) at h in
        let same : record { buffer = some (take (suc n) bytes) } ≡ key = ground (arith, made) in
        (leb→le (suc n) (length bytes) enough, sym (ap data_of same))
  ]
]

random_key_size :
    (m : Memory) (n : ℕ) (o : Option Bytes) (key : Key)
    → random_key_of m (suc n) o ≡ ok key
    → length (data_of key) ≡ suc n
random_key_size m n none key h = absurd (ground (arith, h))
random_key_size m n (some bytes) key h =
    let (enough, same) = key_of_bytes m bytes n key h in
    ap length same ∙ length-take (suc n) bytes enough

-- A random key has the length that was asked for.
pub new_random_key_size :
    (p : Primitives) (m : Memory) (n : ℕ) (key : Key)
    → new_random_key p m (suc n) ≡ ok key
    → length (data_of key) ≡ suc n
unfolding new_random_key
new_random_key_size p m n key h = random_key_size m n (p.random (suc n)) key h

IsBytes-take : (n : ℕ) (bytes : Bytes) → IsBytes bytes → IsBytes (take n bytes)
IsBytes-take zero bytes h = tt
IsBytes-take (suc n) [] h = tt
IsBytes-take (suc n) (b ∷ bytes) (first, rest) = (first, IsBytes-take n bytes rest)

random_key_bytes :
    (m : Memory) (n : ℕ) (o : Option Bytes) (key : Key)
    → ((b : Bytes) → o ≡ some b → IsBytes b)
    → random_key_of m (suc n) o ≡ ok key
    → IsBytes (data_of key)
random_key_bytes m n none key f h = absurd (ground (arith, h))
random_key_bytes m n (some bytes) key f h =
    let (enough, same) = key_of_bytes m bytes n key h in
    subst (λ b. IsBytes b) (sym same) (IsBytes-take (suc n) bytes (f bytes refl))

-- It consists of bytes.
pub new_random_key-IsBytes :
    (p : Primitives)
    → AreLawful p
    → (m : Memory) (n : ℕ) (key : Key) → new_random_key p m (suc n) ≡ ok key
    → IsBytes (data_of key)
unfolding new_random_key
new_random_key-IsBytes p lawful m n key h =
    random_key_bytes m n (p.random (suc n)) key (lawful.random_bytes (suc n)) h

-- With random bytes and memory to be had there is one.
pub new_random_key_exists :
    (p : Primitives)
    → AreLawful p
    → (m : Memory) → HasMemory m
    → (n : ℕ) (b : Bytes) → p.random (suc n) ≡ some b
    → (key : Key) × (new_random_key p m (suc n) ≡ ok key)
unfolding new_random_key new_fixed_length_key
new_random_key_exists p lawful m has n b e =
    let size = lawful.random_length (suc n) b e in
    let (blank, made, zeros) = data-new_blank_key m has (suc n) in
    elim (Bool-cases (leb (suc n) (length b))) [
      | inl enough ↦ rw (e, made, enough) (_, refl)
      | inr short ↦ absurd (ground (arith, short, size))
    ]
