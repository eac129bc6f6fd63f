-- ===== src/Keyring/Fs/KeepsUids.antt =====
-- The operations on a filesystem's keyring leave the UIDs of the process as they found them.
use fscrypt.Common.{◌≡◌, Result}
use fscrypt.Crypto.Key.{Key}
use fscrypt.Keyring.Types.{KeyringError, Kernel, State}
use fscrypt.Keyring.Privs.Restored.{AllowsUids}

module _ {K : Type 0} (k : Kernel K) (allows : AllowsUids k) where
  -- A step of an effective root that ends with the same UIDs.
  abbrev pub Keeps : {A : Type 0} → State K → State K × Result KeyringError A → Type 0
  Keeps st r = r.0.uids ≡ st.uids
