-- ===== src/Metadata/Setting/Safety.antt =====
-- SetPolicy reaches none of its panics: CheckValidity rules them out.
use fscrypt.Common.{◌≡◌, Bool, true, false, ◌⊎◌, pos, none, some, Bytes, length, ok, arith}
use fscrypt.Hex
use fscrypt.Metadata.Types.{EncryptionOptions, PolicyData}
use fscrypt.Metadata.Checks.{EnumNames}
use fscrypt.Metadata.Checks.Valid.{version_of}
use fscrypt.Metadata.Checks.Whole.{check_policy}
use fscrypt.Metadata.Checks.PolicyForm.{check_policy_state}
use fscrypt.Metadata.Ioctl.{Kernel}
use fscrypt.Metadata.Setting.{Attempt, done, failed, bad_version, panicked, set_with, set_policy}

-- The attempt ended in the kernel, with success or an errno.
abbrev pub is_settled : Attempt → Bool
is_settled done = true
is_settled (failed e) = true
is_settled (bad_version v) = false
is_settled (panicked s) = false

-- The descriptor's bytes have the length that goes with the version.
abbrev pub KeyFits : EncryptionOptions → Bytes → Type 0
KeyFits e key =
    ((e.policy_version ≡ pos 1) × (length key ≡ 8))
    ⊎ ((e.policy_version ≡ pos 2) × (length key ≡ 16))

module _ (k : Kernel) where
  open k use {World}

  -- On a valid policy SetPolicy hands the kernel the options with their version written out.
  pub set_policy_valid :
      (names : EnumNames) (w : World) (path : Bytes) (p : PolicyData) (e : EncryptionOptions)
      → k.open_path w path ≡ none
      → (check_policy names p).1 ≡ ok tt
      → p.options ≡ some e
      → (set_policy k names w path p).1
        ≡ set_with k w path
            (some (record e { policy_version = version_of e }))
            (Hex.decode p.key_descriptor)
            p.key_descriptor
  unfolding set_policy
  set_policy_valid names w path p e o good q = ground (arith, check_policy_state names p e q good)
