-- ===== src/Metadata/Checks/PolicyForm.antt =====
-- What PolicyData.CheckValidity accepts, and what it leaves in the structure.
use mathlib.Core.Path.{subst}
use fscrypt.Common.{
  ◌≡◌, refl, ◌⊎◌, inl, inr, ◌↔◌, pos, Option, none, some, Bytes, length, All, ok, arith,
}
use fscrypt.Metadata.Types.{
  EncryptionOptions, PolicyData, policy_descriptor_len_v1, policy_descriptor_len_v2,
}
use fscrypt.Metadata.Checks.{EnumNames, check_slots, check_options}
use fscrypt.Metadata.Checks.Valid.{
  IsValidSlot, IsValidOptions, version_of, Check-cases, check_slots_sound, check_slots_complete,
  check_options_iff, check_options_state,
}
use fscrypt.Metadata.Checks.Whole.{check_policy, check_descriptor, finish_policy}

-- The descriptor has the length that goes with the version.
abbrev pub DescriptorFits : EncryptionOptions → Bytes → Type 0
DescriptorFits e d =
    ((version_of e ≡ pos 1) × (length d ≡ policy_descriptor_len_v1))
    ⊎ ((version_of e ≡ pos 2) × (length d ≡ policy_descriptor_len_v2))

-- A valid policy: every slot holds a 64-byte wrapped key with a 16-byte IV and a 32-byte HMAC and
-- a 16-digit descriptor, the options are valid, and the policy's descriptor has the right length.
abbrev pub IsValidPolicy : EnumNames → PolicyData → Type 0
IsValidPolicy names p =
    (e : EncryptionOptions) × (p.options ≡ some e)
    × All IsValidSlot p.wrapped_policy_keys
    × IsValidOptions names e
    × DescriptorFits e p.key_descriptor

module _ (names : EnumNames) where
  descriptor_iff :
      (e : EncryptionOptions) (d : Bytes)
      → (check_descriptor (record e { policy_version = version_of e }) d ≡ ok tt)
        ↔ DescriptorFits e d
  unfolding check_descriptor
  descriptor_iff e d = ground arith

  finish_iff :
      (p : PolicyData) (e : EncryptionOptions)
      → ((finish_policy p (check_options names e)).1 ≡ ok tt)
        ↔ (IsValidOptions names e × DescriptorFits e p.key_descriptor)
  finish_iff p e = ground (
    arith,
    check_options_iff names e,
    check_options_state names e,
    descriptor_iff e p.key_descriptor,
  )

  policy_sound :
      (p : PolicyData) (o : Option EncryptionOptions)
      → p.options ≡ o
      → (check_policy names p).1 ≡ ok tt
      → IsValidPolicy names p
  unfolding check_policy
  policy_sound p none q h =
      absurd (ground (arith, Check-cases (check_slots 0 p.wrapped_policy_keys)))
  policy_sound p (some e) q h = elim (Check-cases (check_slots 0 p.wrapped_policy_keys)) [
    | inl good ↦
        let (v, d) = (finish_iff p e).0 (rw (good, q) at h) in
        (e, q, check_slots_sound 0 p.wrapped_policy_keys good, v, d)
    | inr (x, bad) ↦ absurd (ground arith)
  ]

  policy_complete : (p : PolicyData) → IsValidPolicy names p → (check_policy names p).1 ≡ ok tt
  unfolding check_policy
  policy_complete p (e, q, slots, v, d) =
      rw (check_slots_complete 0 p.wrapped_policy_keys slots, q) ((finish_iff p e).1 (v, d))

  -- PolicyData.CheckValidity succeeds exactly on the valid policies.
  pub check_policy_iff :
      (p : PolicyData) → ((check_policy names p).1 ≡ ok tt) ↔ IsValidPolicy names p
  check_policy_iff p = (policy_sound p p.options refl, policy_complete p)

  -- A successful check changes nothing but an unset version, which becomes 1.
  pub check_policy_state :
      (p : PolicyData) (e : EncryptionOptions)
      → p.options ≡ some e
      → (check_policy names p).1 ≡ ok tt
      → (check_policy names p).0
        ≡ record p { options = some (record e { policy_version = version_of e }) }
  unfolding check_policy
  check_policy_state p e q h = elim (Check-cases (check_slots 0 p.wrapped_policy_keys)) [
    | inl good ↦
        let v = ((finish_iff p e).0 (rw (good, q) at h)).0 in
        let state = check_options_state names e ((check_options_iff names e).1 v) in
        rw (good, q) (ground (arith, state))
    | inr (x, bad) ↦ absurd (ground arith)
  ]

  -- What a successful check says of the options.
  pub valid_options :
      (p : PolicyData) (e : EncryptionOptions)
      → p.options ≡ some e
      → (check_policy names p).1 ≡ ok tt
      → IsValidOptions names e × DescriptorFits e p.key_descriptor
  valid_options p e q h =
      let (x, some_x, slots, v, fits) = (check_policy_iff p).0 h in
      let same : x ≡ e = cc (some_x, q) in
      subst (λ y. IsValidOptions names y × DescriptorFits y p.key_descriptor) same (v, fits)
