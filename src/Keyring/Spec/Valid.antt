-- ===== src/Keyring/Spec/Valid.antt =====
-- Which descriptors a specifier is built from, and that it names the same key.
use fscrypt.Common.{
  ℕ, ◌*◌, ◌-◌, ◌≡◌, refl, sym, ap, ◌∙◌, ◌⊎◌, inl, inr, ◌++◌, Bytes, All, bytes_eq_refl, length,
  take, take_exact, replicate, ok,
}
use fscrypt.Hex.{encode, IsLowerHex, encode-decode}
use fscrypt.Keyring.Types.{KeySpecifier, spec_type_descriptor, spec_type_identifier}
use fscrypt.Keyring.Spec.{specifier, build_key_specifier, validate_key_descriptor}

-- The 16 digits of a v1 descriptor give a specifier by descriptor, the 32 of a v2 descriptor one by
-- identifier; its first bytes print as the descriptor again, and the check of what the kernel
-- returns accepts the specifier that was built.
pub validate-build :
    (d : Bytes)
    → All IsLowerHex d
    → (n : ℕ) (t : ℕ)
    → ((n ≡ 8) × (t ≡ spec_type_descriptor)) ⊎ ((n ≡ 16) × (t ≡ spec_type_identifier))
    → length d ≡ 2 * n
    → (spec : KeySpecifier) × (build_key_specifier d ≡ ok spec)
      × (spec.spec_type ≡ t)
      × (encode (take n spec.bytes) ≡ d)
      × (validate_key_descriptor spec d ≡ (d, ok tt))
unfolding build_key_specifier validate_key_descriptor
validate-build d lower n t (inl (en, et)) e =
    let (out, decoded, bytes, long, printed) = encode-decode n d e lower in
    let eight : length out ≡ 8 = long ∙ en in
    let front = take_exact n out (replicate (32 - length out) 0) long in
    (
      specifier spec_type_descriptor out,
      rw (decoded, eight) refl,
      sym et,
      ap encode front ∙ printed,
      refl,
    )
validate-build d lower n t (inr (en, et)) e =
    let (out, decoded, bytes, long, printed) = encode-decode n d e lower in
    let sixteen : length out ≡ 16 = long ∙ en in
    let front = take_exact 16 out (replicate (32 - length out) 0) sixteen in
    let actual : encode (take 16 (out ++ replicate (32 - length out) 0)) ≡ d =
      ap encode front ∙ printed in
    (
      specifier spec_type_identifier out,
      rw (decoded, sixteen) refl,
      sym et,
      rw en actual,
      rw (actual, bytes_eq_refl d) refl,
    )
