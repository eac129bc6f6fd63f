-- ===== src/Keyring/Dispatch/Kinds.antt =====
-- Which keyring a descriptor goes to.
use fscrypt.Common.{
  ◌≡◌, ◌≢◌, refl, ◌⊎◌, inl, inr, Bool, true, false, Bool-cases, Bytes, length, ◌==◌, ==_iff, Result,
  ok, err, arith,
}
use fscrypt.Crypto.Key.{Memory, Key, len}
use fscrypt.Keyring.Types.{KeyringError, v2_policies_unsupported, Kernel, State}
use fscrypt.Keyring.Fs.{
  fs_add_encryption_key, fs_remove_encryption_key, fs_get_encryption_key_status,
}
use fscrypt.Keyring.Dispatch.{
  Options, UserKeyring, is_fs_keyring_supported, if_supported, should_use_fs_keyring,
  build_key_description, in_keyring, add_encryption_key, user_unless, remove_encryption_key,
  found_status, get_encryption_key_status,
}

module _ {K : Type 0} (k : Kernel K) where
  -- A descriptor that is not a v1 one goes to the filesystem keyring, or fails without it.
  abbrev pub ToFs : State K × Result KeyringError Bool → Type 0
  ToFs r = (r.1 ≡ ok true) ⊎ (r.1 ≡ err v2_policies_unsupported)

  if_supported-ToFs : (r : State K × Bool) → ToFs (if_supported k r)
  if_supported-ToFs (st, true) = inl refl
  if_supported-ToFs (st, false) = inr refl

  should_use-ToFs :
      (d : Bytes) (options : Options) (st : State K)
      → length d ≢ 16
      → ToFs (should_use_fs_keyring k d options st)
  unfolding should_use_fs_keyring
  should_use-ToFs d options st ne = elim (Bool-cases (length d == 16)) [
    | inl same ↦ absurd (ne ((==_iff (length d) 16).0 same))
    | inr other ↦ rw other (if_supported-ToFs (is_fs_keyring_supported k options.mount st))
  ]

  module _ (u u' : UserKeyring K) where
    same_in_fs :
        {A : Type 0} (in_fs in_user in_user' : State K → State K × Result KeyringError A)
        (r : State K × Result KeyringError Bool)
        → ToFs r
        → in_keyring k u in_fs in_user r ≡ in_keyring k u' in_fs in_user' r
    same_in_fs in_fs in_user in_user' (st, err e) h = refl
    same_in_fs in_fs in_user in_user' (st, ok true) h = refl
    same_in_fs in_fs in_user in_user' (st, ok false) (inl h) = absurd (ground arith)
    same_in_fs in_fs in_user in_user' (st, ok false) (inr h) = absurd (ground arith)

    -- For a descriptor that has not the 16 digits of v1, adding, removing and looking up a key do
    -- not depend on the user keyring at all.
    pub v2_ignores_user_keyring :
        (d : Bytes) (options : Options) (st : State K)
        → length d ≢ 16
        → (memory : Memory) (key : Key) (all_users : Bool)
        → (add_encryption_key k u memory key d options st
            ≡ add_encryption_key k u' memory key d options st)
          × (remove_encryption_key k u d options all_users st
              ≡ remove_encryption_key k u' d options all_users st)
          × (get_encryption_key_status k u d options st
              ≡ get_encryption_key_status k u' d options st)
    unfolding add_encryption_key remove_encryption_key get_encryption_key_status
    v2_ignores_user_keyring d options st ne memory key all_users =
        let to_fs = should_use-ToFs d options st ne in
        let m = options.mount in
        let user = options.user in
        let description = build_key_description k options d in
        let r = should_use_fs_keyring k d options st in
        (
          elim (Bool-cases (64 == len key)) [
            | inl fits ↦ rw fits (
                same_in_fs (fs_add_encryption_key k memory key d m user)
                  (u.add key description user) (u'.add key description user) r to_fs)
            | inr wrong ↦ rw wrong refl
          ],
          same_in_fs (fs_remove_encryption_key k d m (user_unless k u all_users user))
              (u.remove description user) (u'.remove description user) r to_fs,
          same_in_fs (fs_get_encryption_key_status k d m user)
              (λ st'. found_status k u (u.find description user st'))
              (λ st'. found_status k u' (u'.find description user st')) r to_fs,
        )

  -- For a v1 descriptor without the option for the filesystem keyring, a policy key of the right
  -- length is added to the user keyring, removed from it and looked up in it, whatever the kernel
  -- supports.
  pub v1_in_user_keyring :
      (u : UserKeyring K) (d : Bytes) (options : Options) (st : State K)
      → length d ≡ 16
      → options.use_fs_keyring_for_v1_policies ≡ false
      → (memory : Memory) (key : Key) (all_users : Bool) → len key ≡ 64
      → (add_encryption_key k u memory key d options st
          ≡ u.add key (build_key_description k options d) options.user st)
        × (remove_encryption_key k u d options all_users st
            ≡ u.remove (build_key_description k options d) options.user st)
        × (get_encryption_key_status k u d options st
            ≡ found_status k u (u.find (build_key_description k options d) options.user st))
  unfolding add_encryption_key remove_encryption_key get_encryption_key_status should_use_fs_keyring
  v1_in_user_keyring u d options st e off memory key all_users fits =
      (rw (fits, e, off) refl, rw (e, off) refl, rw (e, off) refl)
