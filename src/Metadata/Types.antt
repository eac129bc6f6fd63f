-- ===== src/Metadata/Types.antt =====
-- metadata/metadata.proto, metadata/constants.go: the structures and the lengths of their buffers.
-- A message field is a pointer in Go: `Option`. The enums of proto3 are open: any int32.
use fscrypt.Common.{ℕ, ◌*◌, ℤ, Bool, List, Option, Bytes}

abbrev pub Mode : Type 0
Mode = ℤ

abbrev pub SourceType : Type 0
SourceType = ℤ

pub record HashingCosts : Type 0 where
  pub time : ℤ
  pub memory : ℤ
  pub parallelism : ℤ
  pub truncation_fixed : Bool

pub record WrappedKeyData : Type 0 where
  pub iv : Bytes
  pub encrypted_key : Bytes
  pub hmac : Bytes

pub record ProtectorData : Type 0 where
  pub protector_descriptor : Bytes
  pub source : SourceType
  pub name : Bytes
  pub costs : Option HashingCosts
  pub salt : Bytes
  pub uid : ℤ
  pub wrapped_key : Option WrappedKeyData

pub record EncryptionOptions : Type 0 where
  pub padding : ℤ
  pub contents : Mode
  pub filenames : Mode
  pub policy_version : ℤ

pub record WrappedPolicyKey : Type 0 where
  pub protector_descriptor : Bytes
  pub wrapped_key : Option WrappedKeyData

pub record PolicyData : Type 0 where
  pub key_descriptor : Bytes
  pub options : Option EncryptionOptions
  pub wrapped_policy_keys : List WrappedPolicyKey

pub record Config : Type 0 where
  pub source : SourceType
  pub hash_costs : Option HashingCosts
  pub options : Option EncryptionOptions
  pub use_fs_keyring_for_v1_policies : Bool
  pub allow_cross_user_metadata : Bool

-- FSCRYPT_KEY_DESCRIPTOR_SIZE, FSCRYPT_KEY_IDENTIFIER_SIZE and FSCRYPT_MAX_KEY_SIZE of the kernel.
abbrev pub key_descriptor_size : ℕ
key_descriptor_size = 8

abbrev pub key_identifier_size : ℕ
key_identifier_size = 16

abbrev pub policy_key_len : ℕ
policy_key_len = 64

abbrev pub policy_descriptor_len_v1 : ℕ
policy_descriptor_len_v1 = 2 * key_descriptor_size

abbrev pub protector_descriptor_len : ℕ
protector_descriptor_len = policy_descriptor_len_v1

abbrev pub policy_descriptor_len_v2 : ℕ
policy_descriptor_len_v2 = 2 * key_identifier_size

abbrev pub internal_key_len : ℕ
internal_key_len = 32

abbrev pub iv_len : ℕ
iv_len = 16

abbrev pub salt_len : ℕ
salt_len = 16

abbrev pub hmac_len : ℕ
hmac_len = 32
