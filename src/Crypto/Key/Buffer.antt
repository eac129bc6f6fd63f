-- ===== src/Crypto/Key/Buffer.antt =====
-- What resizing and cloning keep of a key's bytes.
use fscrypt.Common.{
  ℕ, zero, suc, ◌-◌, ◌≡◌, refl, sym, ap, ◌∙◌, Bool-cases, inl, inr, [], ◌∷◌, ◌++◌, Option, none,
  some, Bytes, length, take, replicate, ◌==◌, ok, arith,
}
use fscrypt.Crypto.Key.{
  Memory, Key, data_or_empty, data_of, len, new_blank_key, copy, copy_to, resize,
}

-- Every mapping succeeds.
abbrev pub HasMemory : Memory → Type 0
HasMemory m = (n : ℕ) → m.mmap_error n ≡ none

-- Copied to a shorter buffer of zeros, a text is cut; to a longer one, it is filled up with zeros.
pub copy-replicate :
    (n : ℕ) (s : Bytes) → copy (replicate n 0) s ≡ take n s ++ replicate (n - length s) 0
unfolding copy
copy-replicate zero s = let e : 0 - length s ≡ 0 = omega arith in rw e refl
copy-replicate (suc n) [] = let e : suc n - 0 ≡ suc n = omega arith in rw e refl
copy-replicate (suc n) (x ∷ s) =
    let e : suc n - suc (length s) ≡ n - length s = omega arith in
    rw e (ap (λ t. x ∷ t) (copy-replicate n s))

copy_into_blank :
    (n : ℕ) (s : Bytes) (o : Option Bytes)
    → data_or_empty o ≡ replicate n 0
    → data_of (copy_to s (record { buffer = o })) ≡ copy (replicate n 0) s
copy_into_blank n s (some d) e = ap (λ t. copy t s) e
copy_into_blank zero s none e = unfold copy in refl
copy_into_blank (suc n) s none e = absurd (cc)

pub data-copy_to :
    (n : ℕ) (s : Bytes) (key : Key)
    → data_of key ≡ replicate n 0
    → data_of (copy_to s key) ≡ copy (replicate n 0) s
data-copy_to n s key e = copy_into_blank n s key.buffer e

pub take_whole : (s : Bytes) → take (length s) s ++ replicate (length s - length s) 0 ≡ s
take_whole [] = refl
take_whole (x ∷ s) =
    let e : suc (length s) - suc (length s) ≡ length s - length s = omega arith in
    rw e (ap (λ t. x ∷ t) (take_whole s))

module _ (m : Memory) (h : HasMemory m) where
  pub data-new_blank_key :
      (n : ℕ) → (key : Key) × (new_blank_key m n ≡ ok key) × (data_of key ≡ replicate n 0)
  unfolding new_blank_key
  data-new_blank_key zero = (record { buffer = none }, refl, refl)
  data-new_blank_key (suc n) =
      (record { buffer = some (replicate (suc n) 0) }, ground (arith, h (suc n)), refl)

  -- With memory to be had, a resized key holds the first bytes of the key, and zeros behind them if
  -- it grew.
  pub data-resize :
      (key : Key) (n : ℕ)
      → (key' : Key) × (resize m key n ≡ ok key')
        × (data_of key' ≡ take n (data_of key) ++ replicate (n - length (data_of key)) 0)
  unfolding resize
  data-resize key n = elim (Bool-cases (len key == n)) [
    | inl same ↦
        let e : length (data_of key) ≡ n = unfold len in ground arith in
        (key, unfold len in ground arith, rw (← e) (sym (take_whole (data_of key))))
    | inr other ↦
        let (blank, made, zeros) = data-new_blank_key n in
        (
          copy_to (data_of key) blank,
          ground (arith, made),
          data-copy_to n (data_of key) blank zeros ∙ copy-replicate n (data_of key),
        )
  ]
