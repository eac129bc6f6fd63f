-- ===== src/Keyring/Privs.antt =====
-- security/privileges.go: SetUids; keyring/fs_keyring.go: dropPrivsIfNeeded and restorePrivs.
pub mod Restored
use fscrypt.Common.{ℕ, Option, none, some, ◌==◌, if◌then◌else◌, Result, ok, err}
use fscrypt.Actions.Types.{User}
use fscrypt.Keyring.Types.{
  KeySpecifier, spec_type_descriptor, Uids, KeyringError, setting_uids, Kernel, State,
}

abbrev pub root_uids : Uids
root_uids = record { ruid = 0; euid = 0; suid = 0 }

module _ {K : Type 0} where
  -- C.setresuid
  abbrev pub after_setresuid : State K → Uids → Option ℕ → State K × Result KeyringError (Unit {0})
  after_setresuid st new (some errno) = (st, err (setting_uids errno))
  after_setresuid st new none = (record st { uids = new }, ok tt)

  abbrev pub setresuid : Kernel K → Uids → State K → State K × Result KeyringError (Unit {0})
  setresuid k new st = after_setresuid st new (k.setresuid_error st.uids new)

  abbrev pub then_set :
      Kernel K
      → Uids
      → State K × Result KeyringError (Unit {0})
      → State K × Result KeyringError (Unit {0})
  then_set k new (st, err e) = (st, err e)
  then_set k new (st, ok u) = setresuid k new st

  unfoldable pub set_uids : Kernel K → Uids → State K → State K × Result KeyringError (Unit {0})
  set_uids k new st = then_set k new (setresuid k root_uids st)

  abbrev pub dropped :
      Uids → State K × Result KeyringError (Unit {0}) → State K × Result KeyringError (Option Uids)
  dropped saved (st, err e) = (st, err e)
  dropped saved (st, ok u) = (st, ok (some saved))

  unfoldable pub drop_privs_if_needed :
      Kernel K → User → KeySpecifier → State K → State K × Result KeyringError (Option Uids)
  unfolding set_uids
  drop_privs_if_needed k target_uid spec st =
      if spec.spec_type == spec_type_descriptor
      then (st, ok none)
      else if st.uids.euid == target_uid
      then (st, ok none)
      else dropped st.uids
          (set_uids k (record { ruid = target_uid; euid = target_uid; suid = st.uids.euid }) st)

  -- The callers drop its error.
  unfoldable pub restore_privs : Kernel K → Option Uids → State K → State K
  unfolding set_uids
  restore_privs k none st = st
  restore_privs k (some privs) st = (set_uids k privs st).0
