-- ===== src/Metadata/Setting.antt =====
-- metadata/policy.go: SetPolicy and CheckSupport. A call changes the kernel's state, and may set the
-- unset version of the options that it is given, so both come back beside the result.
pub mod Safety
pub mod RoundTrip
use fscrypt.Common.{
  ℕ, ℤ, pos, to_uint, eq_ℤ, Bool, true, false, not, List, [], ◌∷◌, Option, none, some, String,
  Bytes, length, replicate, ◌==◌, if◌then◌else◌, Result, ok, err,
}
use fscrypt.Hex
use fscrypt.Metadata.Types.{EncryptionOptions, PolicyData, key_descriptor_size, key_identifier_size}
use fscrypt.Metadata.Checks.{Check, EnumNames}
use fscrypt.Metadata.Checks.Whole.{check_policy}
use fscrypt.Metadata.Flags.{build_policy_flags}
use fscrypt.Metadata.Ioctl.{
  Errno, Kernel, KernelPolicy, memory_v1, memory_v2, kernel_v1, kernel_v2, PolicyError, open_error,
  not_supported, not_enabled, already_encrypted, invalid_descriptor, set_failed, support_failed,
  bad_policy_version, invalid_policy, directory_not_owned, bad_options, panic, get_policy,
}

-- What `err` holds after the ioctl: an errno, the error of the `default` case, or a panic.
pub data Attempt : Type 0 where
  done : Attempt
  failed : Errno → Attempt
  bad_version : ℤ → Attempt
  panicked : String → Attempt

-- The structure that is handed to the kernel; `uint8` of the modes drops their high bits.
abbrev pub kernel_policy : ℕ → EncryptionOptions → ℕ → Bytes → KernelPolicy
kernel_policy version e flags key = record {
  version = version;
  contents = to_uint 8 e.contents;
  filenames = to_uint 8 e.filenames;
  flags = flags;
  master_key = key;
}

module _ (k : Kernel) where
  open k use {World}

  abbrev pub then_sync : Bytes → World × Option Errno → World × Attempt
  then_sync path (w, some e) = (w, failed e)
  then_sync path (w, none) = elim (k.sync w path) [ some e ↦ (w, failed e) | none ↦ (w, done) ]

  -- `setPolicy`: the ioctl, then fsync.
  unfoldable pub set_policy_ioctl : World → Bytes → Bytes → World × Attempt
  set_policy_ioctl w path memory = then_sync path (k.set_policy w path memory)

  unfoldable pub set_v1_policy : World → Bytes → EncryptionOptions → Bytes → World × Attempt
  set_v1_policy w path e key = elim (build_policy_flags e) [
    | none ↦ (w, panicked "padding was not found")
    | some flags ↦
        if length key == key_descriptor_size
        then set_policy_ioctl w path (memory_v1 (kernel_policy kernel_v1 e flags key))
        else (w, panicked "wrong descriptor size for v1 policy")
  ]

  unfoldable pub set_v2_policy : World → Bytes → EncryptionOptions → Bytes → World × Attempt
  set_v2_policy w path e key = elim (build_policy_flags e) [
    | none ↦ (w, panicked "padding was not found")
    | some flags ↦
        if length key == key_identifier_size
        then set_policy_ioctl w path (memory_v2 (kernel_policy kernel_v2 e flags key))
        else (w, panicked "wrong descriptor size for v2 policy")
  ]

  -- The `switch` on the policy version.
  unfoldable pub set_version : World → Bytes → EncryptionOptions → Bytes → World × Attempt
  set_version w path e key =
      if eq_ℤ e.policy_version (pos 1)
      then set_v1_policy w path e key
      else if eq_ℤ e.policy_version (pos 2)
      then set_v2_policy w path e key
      else (w, bad_version e.policy_version)

  abbrev pub is_ok : Result PolicyError PolicyData → Bool
  is_ok (ok p) = true
  is_ok (err x) = false

  -- `statErr != nil || !info.IsDir()`
  abbrev pub is_no_directory : Option Bool → Bool
  is_no_directory none = true
  is_no_directory (some dir) = not dir

  -- Kernels before v4.11 return EINVAL for several causes.
  unfoldable pub disambiguate : World → Bytes → Attempt → Attempt
  unfolding get_policy
  disambiguate w path (failed Errno.einval) =
      if is_no_directory (k.is_dir w path)
      then failed Errno.enotdir
      else if is_ok (get_policy k w path)
      then failed Errno.eexist
      else failed Errno.einval
  disambiguate w path a = a

  -- `statErr == nil && stat.Uid != uint32(os.Geteuid())`
  abbrev pub access_error : World → Bytes → Option ℕ → PolicyError
  access_error w path none = set_failed Errno.eacces path
  access_error w path (some uid) =
      if uid == k.euid w then set_failed Errno.eacces path else directory_not_owned path uid

  -- The last `switch` of SetPolicy.
  unfoldable pub set_result :
      World → Bytes → EncryptionOptions → Attempt → Result PolicyError (Unit {0})
  set_result w path e done = ok tt
  set_result w path e (failed Errno.eacces) = err (access_error w path (k.owner w path))
  set_result w path e (failed Errno.eexist) = err (already_encrypted path)
  set_result w path e (failed Errno.einval) = err (bad_options path e)
  set_result w path e (failed Errno.enotty) = err not_supported
  set_result w path e (failed Errno.eopnotsupp) = err not_enabled
  set_result w path e (failed x) = err (set_failed x path)
  set_result w path e (bad_version v) = err (bad_policy_version v)
  set_result w path e (panicked s) = err (panic s)

  abbrev pub finish_set :
      Bytes → EncryptionOptions → World × Attempt → World × Result PolicyError (Unit {0})
  finish_set path e (w, a) = (w, set_result w path e (disambiguate w path a))

  abbrev pub set_with :
      World
      → Bytes
      → Option EncryptionOptions
      → Option Bytes
      → Bytes
      → World × Result PolicyError (Unit {0})
  set_with w path o none text = (w, err (invalid_descriptor text))
  set_with w path none (some key) text = (w, err (panic "nil options"))
  set_with w path (some e) (some key) text = finish_set path e (set_version w path e key)

  abbrev pub after_check :
      World → Bytes → PolicyData × Check → PolicyData × (World × Result PolicyError (Unit {0}))
  after_check w path (p, err x) = (p, (w, err (invalid_policy x)))
  after_check w path (p, ok u) =
      (p, set_with w path p.options (Hex.decode p.key_descriptor) p.key_descriptor)

  unfoldable pub set_policy :
      EnumNames → World → Bytes → PolicyData → PolicyData × (World × Result PolicyError (Unit {0}))
  set_policy names w path p = elim (k.open_path w path) [
    | some e ↦ (p, (w, err (open_error e)))
    | none ↦ after_check w path (check_policy names p)
  ]

  -- CheckSupport: a policy whose every field is bad.
  abbrev pub bad_policy : Bytes
  bad_policy = memory_v1 (record {
    version = 255;
    contents = 255;
    filenames = 255;
    flags = 255;
    master_key = replicate 8 0;
  })

  unfoldable pub support_result : Bytes → Attempt → Result PolicyError (Unit {0})
  support_result path done = err (panic "setting a bad policy succeeded")
  support_result path (failed Errno.einval) = ok tt
  support_result path (failed Errno.eacces) = ok tt
  support_result path (failed Errno.enotty) = err not_supported
  support_result path (failed Errno.eopnotsupp) = err not_enabled
  support_result path (failed e) = err (support_failed e path)
  support_result path (bad_version v) = err (bad_policy_version v)
  support_result path (panicked s) = err (panic s)

  unfoldable pub check_support : World → Bytes → World × Result PolicyError (Unit {0})
  unfolding set_policy_ioctl support_result
  check_support w path = elim (k.open_path w path) [
    | some e ↦ (w, err (open_error e))
    | none ↦ let (w', a) = set_policy_ioctl w path bad_policy in (w', support_result path a)
  ]
