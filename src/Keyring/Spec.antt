-- ===== src/Keyring/Spec.antt =====
-- keyring/fs_keyring.go: buildKeySpecifier and validateKeyDescriptor.
pub mod Valid
use fscrypt.Common.{
  ℕ, ◌-◌, Option, none, some, Bytes, bytes_eq, length, take, replicate, ◌++◌, ◌==◌, not,
  if◌then◌else◌, Result, ok, err,
}
use fscrypt.Hex.{encode, decode}
use fscrypt.Metadata.Types.{key_descriptor_size, key_identifier_size}
use fscrypt.Keyring.Types.{
  KeySpecifier, spec_type_descriptor, spec_type_identifier, max_specifier_size, KeyringError,
  invalid_descriptor, unknown_length, descriptors_differ,
}

-- `copy(spec.U[:], bytes)` over zeros, for at most 32 bytes.
abbrev pub specifier : ℕ → Bytes → KeySpecifier
specifier t bytes = record {
  spec_type = t;
  bytes = bytes ++ replicate (max_specifier_size - length bytes) 0;
}

abbrev pub specifier_of : Bytes → Option Bytes → Result KeyringError KeySpecifier
specifier_of descriptor none = err (invalid_descriptor descriptor)
specifier_of descriptor (some bytes) =
    if length bytes == key_descriptor_size
    then ok (specifier spec_type_descriptor bytes)
    else if length bytes == key_identifier_size
    then ok (specifier spec_type_identifier bytes)
    else err (unknown_length descriptor)

unfoldable pub build_key_specifier : Bytes → Result KeyringError KeySpecifier
build_key_specifier descriptor = specifier_of descriptor (decode descriptor)

-- The descriptor that is returned, and the error beside it.
unfoldable pub validate_key_descriptor :
    KeySpecifier → Bytes → Bytes × Result KeyringError (Unit {0})
validate_key_descriptor spec descriptor =
    if not (spec.spec_type == spec_type_identifier)
    then (descriptor, ok tt)
    else (let actual = encode (take key_identifier_size spec.bytes) in
        if bytes_eq descriptor actual
        then (descriptor, ok tt)
        else (actual, err (descriptors_differ descriptor actual)))
