-- ===== src/Metadata/Ioctl.antt =====
-- metadata/policy.go: GetPolicy, SetPolicy and CheckSupport over the kernel's ioctls, and the
-- memory layout of the two policy structures.
use fscrypt.Common.{
  ℕ, ℤ, pos, Bool, [], ◌∷◌, Option, none, some, String, Bytes, get_or, take, drop, ◌==◌,
  if◌then◌else◌, Result, ok, err,
}
use fscrypt.Hex
use fscrypt.Metadata.Types.{EncryptionOptions, PolicyData, key_descriptor_size, key_identifier_size}
use fscrypt.Metadata.Checks.{CheckError}
use fscrypt.Metadata.Flags.{flags_to_padding}

pub data Errno : Type 0 where
  enotty eopnotsupp enodata enoent einval eacces eexist enotdir : Errno
  other : ℕ → Errno

-- The system calls, as functions of the state that they read and change. `none` is success.
-- `get_policy_ex` returns `arg.Size` and the buffer `arg.Policy`.
pub record Kernel : Type 1 where
  pub World : Type 0
  pub open_path : World → Bytes → Option Errno
  pub set_policy : World → Bytes → Bytes → World × Option Errno
  pub sync : World → Bytes → Option Errno
  pub get_policy_ex : World → Bytes → Result Errno (ℕ × Bytes)
  pub get_policy_v1 : World → Bytes → Result Errno Bytes
  pub is_dir : World → Bytes → Option Bool
  pub owner : World → Bytes → Option ℕ
  pub euid : World → ℕ

-- unix.FscryptPolicyV1 and unix.FscryptPolicyV2; the four reserved bytes of the latter are zero.
pub record KernelPolicy : Type 0 where
  pub version : ℕ
  pub contents : ℕ
  pub filenames : ℕ
  pub flags : ℕ
  pub master_key : Bytes

abbrev pub memory_v1 : KernelPolicy → Bytes
memory_v1 p = p.version ∷ p.contents ∷ p.filenames ∷ p.flags ∷ p.master_key

abbrev pub memory_v2 : KernelPolicy → Bytes
memory_v2 p = p.version ∷ p.contents ∷ p.filenames ∷ p.flags ∷ 0 ∷ 0 ∷ 0 ∷ 0 ∷ p.master_key

abbrev pub size_v1 : ℕ
size_v1 = 12

abbrev pub size_v2 : ℕ
size_v2 = 24

-- FSCRYPT_POLICY_V1 and FSCRYPT_POLICY_V2.
abbrev pub kernel_v1 : ℕ
kernel_v1 = 0

abbrev pub kernel_v2 : ℕ
kernel_v2 = 2

pub data PolicyError : Type 0 where
  open_error : Errno → PolicyError
  not_supported not_enabled unexpected_size : PolicyError
  not_encrypted already_encrypted invalid_descriptor : Bytes → PolicyError
  get_failed set_failed support_failed : Errno → Bytes → PolicyError
  unsupported_version : ℕ → PolicyError
  bad_policy_version : ℤ → PolicyError
  invalid_policy : CheckError → PolicyError
  directory_not_owned : Bytes → ℕ → PolicyError
  bad_options : Bytes → EncryptionOptions → PolicyError
  panic : String → PolicyError

-- The options in a policy's first four bytes.
abbrev pub options_from : Bytes → ℤ → ℤ → EncryptionOptions
options_from raw version padding = record {
  padding = padding;
  contents = pos (get_or raw 1 0);
  filenames = pos (get_or raw 2 0);
  policy_version = version;
}

abbrev pub build_with : Bytes → Bytes → ℤ → Option ℤ → Result PolicyError PolicyData
build_with raw key version none = err (panic "padding flag not found")
build_with raw key version (some padding) = ok (record {
  key_descriptor = Hex.encode key;
  options = some (options_from raw version padding);
  wrapped_policy_keys = [];
})

unfoldable pub build_v1_policy_data : Bytes → Result PolicyError PolicyData
build_v1_policy_data raw =
    build_with raw (take key_descriptor_size (drop 4 raw)) (pos 1)
      (flags_to_padding (get_or raw 3 0))

unfoldable pub build_v2_policy_data : Bytes → Result PolicyError PolicyData
build_v2_policy_data raw =
    build_with raw (take key_identifier_size (drop 8 raw)) (pos 2)
      (flags_to_padding (get_or raw 3 0))

-- The second `switch` of GetPolicy, on `arg.Policy[0]`.
unfoldable pub parse_policy : ℕ → Bytes → Result PolicyError PolicyData
parse_policy size raw =
    let version = get_or raw 0 0 in
    if version == kernel_v1
    then (if size == size_v1 then build_v1_policy_data raw else err unexpected_size)
    else if version == kernel_v2
    then (if size == size_v2 then build_v2_policy_data raw else err unexpected_size)
    else err (unsupported_version version)

-- The first `switch` of GetPolicy.
unfoldable pub get_error : Errno → Bytes → PolicyError
get_error Errno.enotty path = not_supported
get_error Errno.eopnotsupp path = not_enabled
get_error Errno.enodata path = not_encrypted path
get_error Errno.enoent path = not_encrypted path
get_error e path = get_failed e path

module _ (k : Kernel) where
  open k use {World}

  abbrev pub from_old_ioctl : Bytes → Result Errno Bytes → Result PolicyError PolicyData
  from_old_ioctl path (ok raw) = parse_policy size_v1 raw
  from_old_ioctl path (err e) = err (get_error e path)

  abbrev pub from_new_ioctl :
      World → Bytes → Result Errno (ℕ × Bytes) → Result PolicyError PolicyData
  from_new_ioctl w path (ok (size, raw)) = parse_policy size raw
  from_new_ioctl w path (err Errno.enotty) = from_old_ioctl path (k.get_policy_v1 w path)
  from_new_ioctl w path (err e) = err (get_error e path)

  unfoldable pub get_policy : World → Bytes → Result PolicyError PolicyData
  get_policy w path = elim (k.open_path w path) [
    | some e ↦ err (open_error e)
    | none ↦ from_new_ioctl w path (k.get_policy_ex w path)
  ]
