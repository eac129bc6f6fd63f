-- ===== src/Actions/Policy/Provision/Purged.antt =====
-- What PurgeAllPolicies has done when it returns.
use fscrypt.Common.{
  ◌≡◌, refl, sym, ap, ◌∙◌, Bool-cases, inl, inr, ◌⊎◌, true, false, List, [], ◌∷◌, none, Bytes,
  Result, ok, err, arith,
}
use mathlib.Core.Path.{subst}
use fscrypt.Metadata.Checks.{EnumNames}
use fscrypt.Keyring.Types.{KeyringError, Kernel, State}
use fscrypt.Keyring.Dispatch.{Options, UserKeyring, remove_encryption_key}
use fscrypt.Actions.Types.{Mount, Context, Process}
use fscrypt.Actions.Context.{Retrieval, OpError, check_context}
use fscrypt.Actions.Policy.Provision.{
  get_keyring_options, lift_keyring, is_ignored, continued, purge, purge_listed, purge_checked,
  purge_all_policies,
}

module _ {J : Type 0} (k : Kernel J) (u : UserKeyring J) (process : Process)
    (type_of : Mount → Bytes) where
  -- The key is away, or is held by open files or by other users.
  abbrev pub IsGone : Result KeyringError (Unit {0}) → Type 0
  IsGone r =
      (r ≡ ok tt) ⊎ ((e : KeyringError) × (r ≡ err e) × (is_ignored k u process type_of e ≡ true))

  -- RemoveEncryptionKey, called for each descriptor in turn, from one state of the keyrings to
  -- another; each call ends so that the key is gone.
  pub data Removals (options : Options) : List Bytes → State J → State J → Type 0 where
    over : {st : State J} → Removals options [] st st
    removal :
        {d : Bytes} {ds : List Bytes} {st st' : State J}
        → IsGone (remove_encryption_key k u d options false st).1
        → Removals options ds (remove_encryption_key k u d options false st).0 st'
        → Removals options (d ∷ ds) st st'

  continued_ok :
      (x : State J × Result KeyringError (Unit {0}))
      (rest : State J → State J × Result KeyringError (Unit {0}))
      → (continued k u process type_of x rest).1 ≡ ok tt
      → IsGone x.1 × (continued k u process type_of x rest ≡ rest x.0)
  continued_ok (st, ok t) rest h = (inl refl, refl)
  continued_ok (st, err e) rest h = elim (Bool-cases (is_ignored k u process type_of e)) [
    | inl ignored ↦ (inr (e, refl, ignored), rw ignored refl)
    | inr other ↦ absurd (ground (arith, rw other at h))
  ]

  purge_removes :
      (options : Options) (ds : List Bytes) (st : State J)
      → (purge k u process type_of options ds st).1 ≡ ok tt
      → Removals options ds st (purge k u process type_of options ds st).0
  unfolding purge
  purge_removes options [] st h = over
  purge_removes options (d ∷ ds) st h =
      let step = remove_encryption_key k u d options false st in
      let (gone, same) = continued_ok step (λ st'. purge k u process type_of options ds st') h in
      removal gone (
        subst (λ (o : State J × Result KeyringError (Unit {0})). Removals options ds step.0 o.0)
          (sym same) (purge_removes options ds step.0 (ap (λ o. o.1) (sym same) ∙ h)))

  module _ {W E : Type 0} (K : Type 0) (names : EnumNames) (ret : Retrieval W E) where
    lifted_removes :
        (options : Options) (ds : List Bytes) (st : State J)
        (x : State J × Result KeyringError (Unit {0}))
        → (x.1 ≡ ok tt → Removals options ds st x.0)
        → (lift_keyring k u process type_of {E = E} {K = K} x).1 ≡ ok tt
        → Removals options ds st (lift_keyring k u process type_of {E = E} {K = K} x).0
    lifted_removes options ds st (st', ok t) f h = f refl
    lifted_removes options ds st (st', err e) f h = absurd (ground (arith, h))

    abbrev pub Purged : Context → W → State J → State J → Type 0
    Purged ctx w st st' =
        (ds : List Bytes) × (ret.list_policies ctx.mount none w ≡ ok ds)
        × Removals (get_keyring_options type_of ctx) ds st st'

    listed_removes :
        (ctx : Context) (w : W) (st : State J) (r : Result E (List Bytes))
        → ret.list_policies ctx.mount none w ≡ r
        → (purge_listed k u process type_of {K = K} names ret ctx st r).1 ≡ ok tt
        → Purged ctx w st (purge_listed k u process type_of {K = K} names ret ctx st r).0
    listed_removes ctx w st (err e) q h = absurd (ground (arith, h))
    listed_removes ctx w st (ok ds) q h =
        let options = get_keyring_options type_of ctx in
        (
          ds,
          q,
          lifted_removes options ds st (purge k u process type_of options ds st)
              (purge_removes options ds st) h,
        )

    checked_removes :
        (w : W) (st : State J) (r : Context × Result (OpError E K) (Unit {0}))
        → (purge_checked k u process type_of names ret w st r).1 ≡ ok tt
        → Purged r.0 w st (purge_checked k u process type_of names ret w st r).0
    checked_removes w st (ctx, err e) h = absurd (ground (arith, h))
    checked_removes w st (ctx, ok t) h =
        listed_removes ctx w st (ret.list_policies ctx.mount none w) refl h

    -- A PurgeAllPolicies that returns no error has called RemoveEncryptionKey for every policy that
    -- the filesystem lists without a trusted user, and none of the calls failed, but for a key that
    -- was not present, is in use by open files, or was added by other users too.
    pub purge_all_policies_removes :
        (ctx : Context) (w : W) (st : State J)
        → (purge_all_policies k u process type_of {K = K} names ret ctx w st).1 ≡ ok tt
        → Purged
            (check_context names ret {K = K} ctx w).0
            w
            st
            (purge_all_policies k u process type_of {K = K} names ret ctx w st).0
    unfolding purge_all_policies
    purge_all_policies_removes ctx w st h = checked_removes w st (check_context names ret ctx w) h
