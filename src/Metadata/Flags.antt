-- ===== src/Metadata/Flags.antt =====
-- metadata/policy.go: the padding and the DIRECT_KEY bit in a policy's flags. A `log.Panicf` is
-- `none`.
use Prim.Native.Nat.{bit_and, bit_or}
use fscrypt.Common.{
  passes_below, ℕ, ◌+◌, ◌≡◌, refl, inl, inr, ℤ, pos, to_uint, eq_ℤ, Bool, true, false, List, [],
  ◌∷◌, Option, none, some, if◌then◌else◌, arith,
}
use fscrypt.Util.{lookup}
use fscrypt.Metadata.Types.{EncryptionOptions}
use fscrypt.Metadata.Mode
use fscrypt.Metadata.Checks.{padding_array}
use fscrypt.Metadata.Checks.Valid.{IsPadding}

-- FSCRYPT_POLICY_FLAGS_PAD_4, _8, _16 and _32 of the kernel.
abbrev pub flags_array : List ℤ
flags_array = pos 0 ∷ pos 1 ∷ pos 2 ∷ pos 3 ∷ []

abbrev pub pad_mask : ℕ
pad_mask = 3

abbrev pub direct_key_flag : ℕ
direct_key_flag = 4

unfoldable pub flags_to_padding : ℕ → Option ℤ
unfolding lookup
flags_to_padding flags = lookup (pos (bit_and flags pad_mask)) flags_array padding_array

unfoldable pub should_use_direct_key_flag : EncryptionOptions → Bool
should_use_direct_key_flag options =
    if eq_ℤ options.contents options.filenames then eq_ℤ options.contents Mode.adiantum else false

-- `flags |= FSCRYPT_POLICY_FLAG_DIRECT_KEY`, then `uint8(flags)`.
abbrev pub with_direct_key : Bool → ℤ → ℕ
with_direct_key direct flags =
    let byte = to_uint 8 flags in if direct then bit_or byte direct_key_flag else byte

unfoldable pub build_policy_flags : EncryptionOptions → Option ℕ
unfolding lookup should_use_direct_key_flag to_uint
build_policy_flags options = elim (lookup options.padding padding_array flags_array) [
  | none ↦ none
  | some flags ↦ some (with_direct_key (should_use_direct_key_flag options) flags)
]

-- The bits that stand for a padding.
abbrev pub padding_bits : ℤ → ℕ
padding_bits n =
    if eq_ℤ n (pos 4) then 0 else if eq_ℤ n (pos 8) then 1 else if eq_ℤ n (pos 16) then 2 else 3

-- For a valid padding the flags are the padding's bits, and DIRECT_KEY exactly when contents and
-- filenames are both encrypted with Adiantum; no panic.
pub build_policy_flags_lem :
    (e : EncryptionOptions)
    → IsPadding e.padding
    → build_policy_flags e
      ≡ some (padding_bits e.padding + (if should_use_direct_key_flag e then 4 else 0))
unfolding build_policy_flags
build_policy_flags_lem e (inl h) = ground arith
build_policy_flags_lem e (inr (inl h)) = ground arith
build_policy_flags_lem e (inr (inr (inl h))) = ground arith
build_policy_flags_lem e (inr (inr (inr h))) = ground arith

-- The eight values that the flags can take.
pub padding_bits-read :
    (direct : Bool) (n : ℤ)
    → IsPadding n
    → flags_to_padding (padding_bits n + (if direct then 4 else 0)) ≡ some n
unfolding flags_to_padding
padding_bits-read true n (inl h) = rw h
padding_bits-read true n (inr (inl h)) = rw h
padding_bits-read true n (inr (inr (inl h))) = rw h
padding_bits-read true n (inr (inr (inr h))) = rw h
padding_bits-read false n (inl h) = rw h
padding_bits-read false n (inr (inl h)) = rw h
padding_bits-read false n (inr (inr (inl h))) = rw h
padding_bits-read false n (inr (inr (inr h))) = rw h

has_value : Option ℤ → Bool
has_value none = false
has_value (some n) = true

some_of-has_value : (o : Option ℤ) → has_value o ≡ true → (n : ℤ) × (o ≡ some n)
unfolding has_value
some_of-has_value none h = absurd (ground arith)
some_of-has_value (some n) h = (n, refl)

paddings_found : passes_below (λ flags. has_value (flags_to_padding flags)) 256 ≡ true
unfolding passes_below has_value flags_to_padding
paddings_found = refl
