-- ===== src/Keyring/Types.antt =====
-- The state that the keyring functions change, the ioctls that they make, and their results.
use fscrypt.Common.{ℕ, Bool, Option, Bytes}
use fscrypt.Crypto.Key.{KeyError}
use fscrypt.Actions.Types.{Mount}

-- unix.FscryptKeySpecifier: its type, and the 32 bytes of its union.
pub record KeySpecifier : Type 0 where
  pub spec_type : ℕ
  pub bytes : Bytes

abbrev pub spec_type_descriptor : ℕ
spec_type_descriptor = 1

abbrev pub spec_type_identifier : ℕ
spec_type_identifier = 2

abbrev pub max_specifier_size : ℕ
max_specifier_size = 32

-- The real, effective and saved UIDs of the process.
pub record Uids : Type 0 where
  pub ruid : ℕ
  pub euid : ℕ
  pub suid : ℕ

pub data KeyStatus : Type 0 where
  unknown absent absent_but_files_busy present present_but_only_other_users : KeyStatus

pub data KeyringError : Type 0 where
  key_added_by_other_users key_files_open key_not_present v2_policies_unsupported : KeyringError
  invalid_descriptor unknown_length : Bytes → KeyringError
  descriptors_differ : Bytes → Bytes → KeyringError
  open_failed setting_uids ioctl_failed : ℕ → KeyringError
  unknown_status : ℕ → KeyringError
  key_length : ℕ → KeyringError
  no_memory : KeyError → KeyringError
  user_keyring : ℕ → KeyringError

-- The kernel: `K` is its state. Opening the mount's directory, setresuid from the first UIDs to the
-- second, whether the ioctls exist, and the three ioctls. An errno is 0 on success. Add returns the
-- specifier that the kernel wrote, remove the removal flags, status the status and its flags.
pub record Kernel (K : Type 0) : Type 0 where
  pub open_error : Mount → K → Option ℕ
  pub setresuid_error : Uids → Uids → Option ℕ
  pub add_errno_of_null : Mount → K → ℕ
  pub add_key : Mount → Uids → KeySpecifier → Bytes → K → K × (ℕ × KeySpecifier)
  pub remove_key : Mount → Uids → Bool → KeySpecifier → K → K × (ℕ × ℕ)
  pub key_status : Mount → Uids → KeySpecifier → K → ℕ × (ℕ × ℕ)

-- The process: its UIDs, the cached answer on the filesystem keyring, and the kernel.
pub record State (K : Type 0) : Type 0 where
  pub uids : Uids
  pub supported : Option Bool
  pub kernel : K
