-- ===== src/Metadata/Checks.antt =====
-- metadata/checks.go: the CheckValidity methods. `EncryptionOptions.CheckValidity` sets an unset
-- policy version to 1 in place, so it and its callers return the structure beside the result.
pub mod Whole
pub mod Costs
pub mod Valid
pub mod PolicyForm
use fscrypt.Common.{
  ℕ, suc, ◌*◌, ◌-◌, ◌^◌, ℤ, pos, to_uint, eq_ℤ, lt_ℤ, Bool, true, false, not, ◌&&◌, ◌||◌, List, [],
  ◌∷◌, Option, none, some, String, Bytes, bytes_eq, length, ◌==◌, if◌then◌else◌, Result, ok, err,
  ◌>>=◌, ◌>>◌,
}
use fscrypt.Util.{index}
use fscrypt.Metadata.Types.{
  Mode, SourceType, HashingCosts, WrappedKeyData, ProtectorData, EncryptionOptions,
  WrappedPolicyKey, PolicyData, Config, policy_descriptor_len_v1, protector_descriptor_len,
  policy_descriptor_len_v2, policy_key_len, internal_key_len, iv_len, salt_len, hmac_len,
}
use fscrypt.Metadata.Mode
use fscrypt.Metadata.Source

pub data CheckError : Type 0 where
  not_initialized : CheckError
  unknown_enum : ℤ → CheckError
  cost_range : String → ℤ → ℕ → ℕ → CheckError
  length_mismatch : ℕ → ℕ → CheckError
  negative_uid bad_padding bad_version : ℤ → CheckError
  wrapped : String → CheckError → CheckError
  in_slot : ℕ → CheckError → CheckError

abbrev pub Check : Type 0
Check = Result CheckError (Unit {0})

-- errors.Wrap: nil stays nil.
abbrev pub wrap : String → Check → Check
wrap msg (ok u) = ok u
wrap msg (err e) = err (wrapped msg e)

-- errors.Wrapf with "policy key slot %d".
abbrev pub wrap_slot : ℕ → Check → Check
wrap_slot i (ok u) = ok u
wrap_slot i (err e) = err (in_slot i e)

-- util.CheckValidLength
unfoldable pub check_valid_length : ℕ → ℕ → Check
check_valid_length expected actual =
    if expected == actual then ok tt else err (length_mismatch expected actual)

-- The generated String methods of the two enums.
pub record EnumNames : Type 0 where
  pub mode_string : Mode → Bytes
  pub source_string : SourceType → Bytes

abbrev pub max_parallelism : ℕ
max_parallelism = 255

abbrev pub max_uint32 : ℕ
max_uint32 = 2 ^ 32 - 1

-- HashingCosts.CheckValidity, of a pointer that is not nil. The log line has no effect.
unfoldable pub check_costs : HashingCosts → Check
check_costs h =
    let p = to_uint 8 h.parallelism in
    if (lt_ℤ h.parallelism (pos 1) || lt_ℤ (pos max_parallelism) h.parallelism)
      && (h.truncation_fixed || p == 0)
    then err (cost_range "parallelism" h.parallelism 1 max_parallelism)
    else if lt_ℤ h.time (pos 1) || lt_ℤ (pos max_uint32) h.time
    then err (cost_range "time" h.time 1 max_uint32)
    else if lt_ℤ h.memory (pos (8 * p)) || lt_ℤ (pos max_uint32) h.memory
    then err (cost_range "memory" h.memory (8 * p) max_uint32)
    else ok tt

unfoldable pub check_hashing_costs : Option HashingCosts → Check
unfolding check_costs
check_hashing_costs none = err not_initialized
check_hashing_costs (some h) = check_costs h

unfoldable pub check_wrapped_key : Option WrappedKeyData → Check
unfolding check_valid_length
check_wrapped_key none = err not_initialized
check_wrapped_key (some w) =
    if length w.encrypted_key == 0 then err (wrapped "encrypted key" not_initialized) else do
      wrap "IV" (check_valid_length iv_len (length w.iv))
      wrap "HMAC" (check_valid_length hmac_len (length w.hmac))

-- `len(w.EncryptedKey)` of a pointer that was checked.
abbrev pub encrypted_len : Option WrappedKeyData → ℕ
encrypted_len none = 0
encrypted_len (some w) = length w.encrypted_key

unfoldable pub check_wrapped_policy_key : WrappedPolicyKey → Check
unfolding check_wrapped_key
check_wrapped_policy_key w = do
  wrap "wrapped key" (check_wrapped_key w.wrapped_key)
  wrap "encrypted key" (check_valid_length policy_key_len (encrypted_len w.wrapped_key))
  wrap "wrapping protector descriptor"
      (check_valid_length protector_descriptor_len (length w.protector_descriptor))

-- The loop over the slots, from slot `i` on.
unfoldable pub check_slots : ℕ → List WrappedPolicyKey → Check
unfolding check_wrapped_policy_key
check_slots i [] = ok tt
check_slots i (w ∷ rest) = do wrap_slot i (check_wrapped_policy_key w); check_slots (suc i) rest

-- metadata/policy.go: the paddings that the policy flags can express.
abbrev pub padding_array : List ℤ
padding_array = pos 4 ∷ pos 8 ∷ pos 16 ∷ pos 32 ∷ []

-- The case of a pam passphrase falls through to that of a custom one.
unfoldable pub check_passphrase : ProtectorData → Check
unfolding check_hashing_costs check_valid_length
check_passphrase p = do
  wrap "passphrase hashing costs" (check_hashing_costs p.costs)
  wrap "passphrase hashing salt" (check_valid_length salt_len (length p.salt))

unfoldable pub check_for_source : ProtectorData → Check
unfolding check_passphrase
check_for_source p =
    if eq_ℤ p.source Source.pam_passphrase
    then (if lt_ℤ p.uid (pos 0) then err (negative_uid p.uid) else check_passphrase p)
    else if eq_ℤ p.source Source.custom_passphrase
    then check_passphrase p
    else ok tt

-- The version that the last check leaves, and the result.
unfoldable pub check_version : EncryptionOptions → EncryptionOptions × Check
check_version e =
    let e' = (if eq_ℤ e.policy_version (pos 0) then record e { policy_version = pos 1 } else e) in
    if not (eq_ℤ e'.policy_version (pos 1)) && not (eq_ℤ e'.policy_version (pos 2))
    then (e', err (bad_version e'.policy_version))
    else (e', ok tt)

abbrev pub then_version : EncryptionOptions → Check → EncryptionOptions × Check
then_version e (ok u) = check_version e
then_version e (err x) = (e, err x)

unfoldable pub check_padding : ℤ → Check
unfolding index
check_padding padding = elim (index padding padding_array) [
  | none ↦ err (bad_padding padding)
  | some i ↦ ok tt
]

module _ (names : EnumNames) where
  unfoldable pub check_mode : Mode → Check
  unfolding bytes_eq
  check_mode m =
      if eq_ℤ m Mode.default
      then err not_initialized
      else if bytes_eq (names.mode_string m) []
      then err (unknown_enum m)
      else ok tt

  unfoldable pub check_source : SourceType → Check
  unfolding bytes_eq
  check_source s =
      if eq_ℤ s Source.default
      then err not_initialized
      else if bytes_eq (names.source_string s) []
      then err (unknown_enum s)
      else ok tt

  unfoldable pub check_protector : ProtectorData → Check
  unfolding check_source check_for_source check_wrapped_key check_valid_length
  check_protector p = do
    wrap "protector source" (check_source p.source)
    check_for_source p
    wrap "wrapped protector key" (check_wrapped_key p.wrapped_key)
    wrap "protector descriptor"
        (check_valid_length protector_descriptor_len (length p.protector_descriptor))
    wrap "encrypted protector key"
        (check_valid_length internal_key_len (encrypted_len p.wrapped_key))

  unfoldable pub check_options : EncryptionOptions → EncryptionOptions × Check
  unfolding check_mode check_version check_padding
  check_options e = then_version e (do
    check_padding e.padding
    wrap "contents encryption mode" (check_mode e.contents)
    wrap "filenames encryption mode" (check_mode e.filenames))
