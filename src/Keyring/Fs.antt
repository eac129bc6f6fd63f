-- ===== src/Keyring/Fs.antt =====
-- keyring/fs_keyring.go: adding, removing and looking up a key of a filesystem's keyring.
pub mod KeepsUids
use fscrypt.Common.{
  ℕ, ◌+◌, ◌/◌, ◌%◌, Bool, true, false, not, ◌&&◌, Option, none, some, Bytes, ◌==◌, if◌then◌else◌,
  Result, ok, err,
}
use fscrypt.Crypto.Key.{Memory, Key, KeyError, data_of, len, new_blank_key}
use fscrypt.Actions.Types.{Mount, User}
use fscrypt.Keyring.Types.{
  KeySpecifier, spec_type_descriptor, Uids, KeyStatus, unknown, absent, absent_but_files_busy,
  present, present_but_only_other_users, KeyringError, key_added_by_other_users, key_files_open,
  key_not_present, open_failed, ioctl_failed, unknown_status, no_memory, Kernel, State,
}
use fscrypt.Keyring.Privs.{drop_privs_if_needed, restore_privs}
use fscrypt.Keyring.Spec.{build_key_specifier, validate_key_descriptor}

-- The bits of the kernel's flags.
abbrev pub files_busy : ℕ → Bool
files_busy flags = flags % 2 == 1

abbrev pub other_users : ℕ → Bool
other_users flags = flags / 2 % 2 == 1

abbrev pub added_by_self : ℕ → Bool
added_by_self flags = flags % 2 == 1

abbrev pub enokey : ℕ
enokey = 126

abbrev pub sizeof_add_key_arg : ℕ
sizeof_add_key_arg = 80

module _ {K : Type 0} (k : Kernel K) where
  abbrev pub acted :
      {A : Type 0}
      → (Uids → K → K × A)
      → State K × Result KeyringError (Option Uids)
      → State K × Result KeyringError A
  acted action (st, err e) = (st, err e)
  acted action (st, ok saved) =
      let r = action st.uids st.kernel in
      (restore_privs k saved (record st { kernel = r.0 }), ok r.1)

  -- An ioctl between dropPrivsIfNeeded and restorePrivs.
  abbrev pub run_as :
      {A : Type 0}
      → User
      → KeySpecifier
      → (Uids → K → K × A)
      → State K
      → State K × Result KeyringError A
  run_as user spec action st = acted action (drop_privs_if_needed k user spec st)

  -- What follows the opening of the mount's directory and the descriptor's specifier.
  abbrev pub opened :
      {A : Type 0}
      → Option ℕ
      → Result KeyringError KeySpecifier
      → (KeySpecifier → State K → State K × Result KeyringError A)
      → State K
      → State K × Result KeyringError A
  opened (some errno) spec rest st = (st, err (open_failed errno))
  opened none (err e) rest st = (st, err e)
  opened none (ok spec) rest st = rest spec st

  -- The status that the kernel's answer means.
  abbrev pub status_of : KeySpecifier → ℕ × (ℕ × ℕ) → Result KeyringError KeyStatus
  status_of spec (errno, (status, flags)) =
      if not (errno == 0)
      then err (ioctl_failed errno)
      else if status == 1
      then ok absent
      else if status == 2
      then ok (
          if not (spec.spec_type == spec_type_descriptor) && not (added_by_self flags)
          then present_but_only_other_users
          else present)
      else if status == 3
      then ok absent_but_files_busy
      else err (unknown_status status)

  abbrev pub judged_status :
      KeySpecifier
      → State K × Result KeyringError (ℕ × (ℕ × ℕ))
      → State K × Result KeyringError KeyStatus
  judged_status spec (st, err e) = (st, err e)
  judged_status spec (st, ok answer) = (st, status_of spec answer)

  unfoldable pub fs_get_encryption_key_status :
      Bytes → Mount → User → State K → State K × Result KeyringError KeyStatus
  unfolding build_key_specifier drop_privs_if_needed restore_privs
  fs_get_encryption_key_status descriptor m user st =
      opened (k.open_error m st.kernel) (build_key_specifier descriptor)
        (λ spec st'.
          judged_status spec
            (run_as user spec (λ uids kernel. (kernel, k.key_status m uids spec kernel)) st'))
        st

  abbrev pub removal_result : ℕ → Result KeyringError (Unit {0})
  removal_result flags =
      if other_users flags
      then err key_added_by_other_users
      else if files_busy flags
      then err key_files_open
      else ok tt

  -- ENOKEY: the key is missing, or it is there but not the user's.
  abbrev pub no_key_result :
      State K × Result KeyringError KeyStatus → State K × Result KeyringError (Unit {0})
  no_key_result (st, ok present_but_only_other_users) = (st, err key_added_by_other_users)
  no_key_result (st, _) = (st, err key_not_present)

  abbrev pub no_key :
      Bytes → Mount → Option User → State K → State K × Result KeyringError (Unit {0})
  no_key descriptor m none st = (st, err key_not_present)
  no_key descriptor m (some user) st =
      no_key_result (fs_get_encryption_key_status descriptor m user st)

  abbrev pub judged_removal :
      Bytes
      → Mount
      → Option User
      → State K × Result KeyringError (ℕ × ℕ)
      → State K × Result KeyringError (Unit {0})
  judged_removal descriptor m user (st, err e) = (st, err e)
  judged_removal descriptor m user (st, ok (errno, flags)) =
      if errno == 0
      then (st, removal_result flags)
      else if errno == enokey
      then no_key descriptor m user st
      else (st, err (ioctl_failed errno))

  -- The ioctl for all users runs with the UIDs of the process.
  abbrev pub remove_ioctl :
      Mount → Option User → KeySpecifier → State K → State K × Result KeyringError (ℕ × ℕ)
  remove_ioctl m none spec st =
      let r = k.remove_key m st.uids true spec st.kernel in (record st { kernel = r.0 }, ok r.1)
  remove_ioctl m (some user) spec st =
      run_as user spec (λ uids kernel. k.remove_key m uids false spec kernel) st

  unfoldable pub fs_remove_encryption_key :
      Bytes → Mount → Option User → State K → State K × Result KeyringError (Unit {0})
  unfolding build_key_specifier drop_privs_if_needed restore_privs fs_get_encryption_key_status
  fs_remove_encryption_key descriptor m user st =
      opened (k.open_error m st.kernel) (build_key_specifier descriptor)
        (λ spec st'. judged_removal descriptor m user (remove_ioctl m user spec st')) st

  -- A key that is not the descriptor's is removed again.
  abbrev pub validated :
      Mount
      → User
      → State K
      → Bytes × Result KeyringError (Unit {0})
      → State K × Result KeyringError (Unit {0})
  validated m user st (descriptor, ok u) = (st, ok u)
  validated m user st (descriptor, err e) =
      ((fs_remove_encryption_key descriptor m (some user) st).0, err e)

  abbrev pub judged_addition :
      Bytes
      → Mount
      → User
      → State K × Result KeyringError (ℕ × KeySpecifier)
      → State K × Result KeyringError (Unit {0})
  judged_addition descriptor m user (st, err e) = (st, err e)
  judged_addition descriptor m user (st, ok (errno, spec)) =
      if not (errno == 0)
      then (st, err (ioctl_failed errno))
      else validated m user st (validate_key_descriptor spec descriptor)

  -- NewBlankKey for the argument, before the descriptor is looked at.
  abbrev pub after_alloc :
      Result KeyError Key → Result KeyringError KeySpecifier → Result KeyringError KeySpecifier
  after_alloc (err e) spec = err (no_memory e)
  after_alloc (ok arg) spec = spec

  unfoldable pub fs_add_encryption_key :
      Memory → Key → Bytes → Mount → User → State K → State K × Result KeyringError (Unit {0})
  unfolding build_key_specifier drop_privs_if_needed restore_privs validate_key_descriptor
      fs_remove_encryption_key
  fs_add_encryption_key memory key descriptor m user st =
      opened (k.open_error m st.kernel)
        (after_alloc (new_blank_key memory (sizeof_add_key_arg + len key))
          (build_key_specifier descriptor))
        (λ spec st'.
          judged_addition descriptor m user
            (run_as user spec (λ uids kernel. k.add_key m uids spec (data_of key) kernel) st'))
        st
