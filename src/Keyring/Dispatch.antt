-- ===== src/Keyring/Dispatch.antt =====
-- keyring/keyring.go: AddEncryptionKey, RemoveEncryptionKey and GetEncryptionKeyStatus.
pub mod Kinds
use fscrypt.Common.{
  ℕ, ◌*◌, Bool, true, false, ◌&&◌, not, Option, none, some, Bytes, bytes_eq, codes, length, ◌++◌,
  ◌==◌, if◌then◌else◌, Result, ok, err,
}
use fscrypt.Metadata.Types.{policy_key_len, key_descriptor_size}
use fscrypt.Crypto.Key.{Memory, Key, len}
use fscrypt.Actions.Types.{Mount, User}
use fscrypt.Keyring.Types.{
  KeyStatus, absent, present, KeyringError, v2_policies_unsupported, key_length, Kernel, State,
}
use fscrypt.Keyring.Fs.{
  fs_add_encryption_key, fs_remove_encryption_key, fs_get_encryption_key_status,
}

pub record Options : Type 0 where
  pub mount : Mount
  pub filesystem_type : Bytes
  pub user : User
  pub use_fs_keyring_for_v1_policies : Bool

-- keyring/user_keyring.go, which keeps the keys of v1 policies under a description.
pub record UserKeyring (K : Type 0) : Type 0 where
  pub add : Key → Bytes → User → State K → State K × Result KeyringError (Unit {0})
  pub remove : Bytes → User → State K → State K × Result KeyringError (Unit {0})
  pub find : Bytes → User → State K → State K × Bool

-- ENOTTY says that the kernel has no such ioctl.
abbrev pub enotty : ℕ
enotty = 25

module _ {K : Type 0} (k : Kernel K) where
  -- checkForFsKeyringSupport
  unfoldable pub check_for_fs_keyring_support : Mount → State K → Bool
  check_for_fs_keyring_support m st = elim (k.open_error m st.kernel) [
    | some errno ↦ false
    | none ↦ not (k.add_errno_of_null m st.kernel == enotty)
  ]

  -- IsFsKeyringSupported: the first answer is kept.
  abbrev pub supported_or_checked : Mount → State K → Option Bool → State K × Bool
  supported_or_checked m st (some known) = (st, known)
  supported_or_checked m st none =
      let answer = check_for_fs_keyring_support m st in
      (record st { supported = some answer }, answer)

  unfoldable pub is_fs_keyring_supported : Mount → State K → State K × Bool
  unfolding check_for_fs_keyring_support
  is_fs_keyring_supported m st = supported_or_checked m st st.supported

  abbrev pub if_supported : State K × Bool → State K × Result KeyringError Bool
  if_supported (st, supported) = (st, if supported then ok true else err v2_policies_unsupported)

  abbrev pub as_result : State K × Bool → State K × Result KeyringError Bool
  as_result (st, supported) = (st, ok supported)

  -- The second test is made only if the option asks for the filesystem keyring.
  unfoldable pub should_use_fs_keyring :
      Bytes → Options → State K → State K × Result KeyringError Bool
  unfolding is_fs_keyring_supported
  should_use_fs_keyring descriptor options st =
      if length descriptor == 2 * key_descriptor_size
      then (if options.use_fs_keyring_for_v1_policies
          then as_result (is_fs_keyring_supported options.mount st)
          else (st, ok false))
      else if_supported (is_fs_keyring_supported options.mount st)

  unfoldable pub build_key_description : Options → Bytes → Bytes
  unfolding bytes_eq
  build_key_description options descriptor =
      if bytes_eq options.filesystem_type (codes "ext4")
      then options.filesystem_type ++ codes ":" ++ descriptor
      else if bytes_eq options.filesystem_type (codes "f2fs")
      then options.filesystem_type ++ codes ":" ++ descriptor
      else codes "fscrypt:" ++ descriptor

  module _ (u : UserKeyring K) where
    -- One of the two keyrings, by the answer of shouldUseFsKeyring.
    abbrev pub in_keyring :
        {A : Type 0}
        → (State K → State K × Result KeyringError A)
        → (State K → State K × Result KeyringError A)
        → State K × Result KeyringError Bool
        → State K × Result KeyringError A
    in_keyring in_fs in_user (st, err e) = (st, err e)
    in_keyring in_fs in_user (st, ok true) = in_fs st
    in_keyring in_fs in_user (st, ok false) = in_user st

    unfoldable pub add_encryption_key :
        Memory → Key → Bytes → Options → State K → State K × Result KeyringError (Unit {0})
    unfolding should_use_fs_keyring fs_add_encryption_key build_key_description
    add_encryption_key memory key descriptor options st =
        if not (policy_key_len == len key)
        then (st, err (key_length (len key)))
        else in_keyring (fs_add_encryption_key k memory key descriptor options.mount options.user)
            (u.add key (build_key_description options descriptor) options.user)
            (should_use_fs_keyring descriptor options st)

    abbrev pub user_unless : Bool → User → Option User
    user_unless true user = none
    user_unless false user = some user

    unfoldable pub remove_encryption_key :
        Bytes → Options → Bool → State K → State K × Result KeyringError (Unit {0})
    unfolding should_use_fs_keyring fs_remove_encryption_key build_key_description
    remove_encryption_key descriptor options all_users st =
        in_keyring
          (fs_remove_encryption_key k descriptor options.mount (user_unless all_users options.user))
          (u.remove (build_key_description options descriptor) options.user)
          (should_use_fs_keyring descriptor options st)

    -- Any error of the search means that the key is absent.
    abbrev pub found_status : State K × Bool → State K × Result KeyringError KeyStatus
    found_status (st, found) = (st, ok (if found then present else absent))

    unfoldable pub get_encryption_key_status :
        Bytes → Options → State K → State K × Result KeyringError KeyStatus
    unfolding should_use_fs_keyring fs_get_encryption_key_status build_key_description
    get_encryption_key_status descriptor options st =
        in_keyring (fs_get_encryption_key_status k descriptor options.mount options.user)
          (λ st'. found_status (u.find (build_key_description options descriptor) options.user st'))
          (should_use_fs_keyring descriptor options st)
