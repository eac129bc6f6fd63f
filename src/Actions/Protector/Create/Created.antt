-- ===== src/Actions/Protector/Create/Created.antt =====
-- What CreateProtector makes, and what an error of it leaves.
use mathlib.Core.Path.{subst}
use fscrypt.Common.{
  ◌≡◌, refl, sym, ◌∙◌, ◌⊎◌, inl, inr, true, false, Option, some, Bytes, length, Result, ok, err,
  arith,
}
use fscrypt.Metadata.Types.{ProtectorData, WrappedKeyData}
use fscrypt.Metadata.Checks.{
  EnumNames, check_source, check_for_source, check_valid_length, check_wrapped_key, check_protector,
}
use fscrypt.Crypto.Key.{Key, data_of}
use fscrypt.Crypto.Wrap.{CryptoError, random_buffer}
use fscrypt.Crypto.Wrap as Wrap
use fscrypt.Crypto.Wrap.RoundTrip as Wrapping
use fscrypt.Crypto.Wrap.Sealed.{wrap_checked}
use fscrypt.Actions.Types.{Mount, User, Protector, Storage, Process}
use fscrypt.Actions.Callback.{KeyFunc, CallbackError, get_wrapping_key}
use fscrypt.Actions.Context.{Retrieval, OpError}
use fscrypt.Actions.Protector.{
  with_wrapped_key, rewrap, rewrap_key, rewrap_by, rewrap_wrapped, rewrap_stored,
}
use fscrypt.Actions.Protector.Create.{finish}

-- A structure that lacks nothing but a wrapped key.
pub record IsPrepared (names : EnumNames) (fields : ProtectorData) : Type 0 where
  pub source : check_source names fields.source ≡ ok tt
  pub passphrase : check_for_source fields ≡ ok tt
  pub descriptor : length fields.protector_descriptor ≡ 16

wrapped_valid :
    (names : EnumNames) (fields : ProtectorData) (w : WrappedKeyData)
    → IsPrepared names fields
    → check_wrapped_key (some w) ≡ ok tt
    → length w.encrypted_key ≡ 32
    → check_protector names (record fields { wrapped_key = some w }) ≡ ok tt
unfolding check_protector check_valid_length check_for_source
wrapped_valid names fields w g checked long =
    rw (g.source, g.passphrase, checked, g.descriptor, long) refl

module _ {W E : Type 0} (names : EnumNames) (s : Storage W E) (owner : Option User) (name : Bytes)
    (w : W) where
  -- A new protector: it is unlocked, and AddProtector has taken its structure, which is valid.
  pub record IsCreated (p : Protector) (w' : W) : Type 0 where
    pub stored : s.add_protector p.context.mount p.fields p.owner_if_creating w ≡ (w', ok tt)
    pub valid : check_protector names p.fields ≡ ok tt
    pub unlocked : (key : Key) × (p.key ≡ some key) × (length (data_of key) ≡ 32)
    pub named : p.fields.name ≡ name
    pub owned : p.owner_if_creating ≡ owner
    pub created : p.created ≡ true

  -- The filesystems are as before, or as an AddProtector that failed has left them.
  abbrev pub Failed : W → Type 0
  Failed w' =
      (w' ≡ w)
      ⊎ ((m : Mount) × (fields : ProtectorData) × (o : Option User) × (e : E) × (s.add_protector m
              fields o w
            ≡ (w', err e)))

  abbrev pub Creation : {S K : Type 0} → S × (W × Result (OpError E K) Protector) → Type 0
  Creation (st, (w', ok p)) = IsCreated p w'
  Creation (st, (w', err e)) = Failed w'

module _ {S W E : Type 0} (K : Type 0) (process : Process)
    (wrapping : Wrapping.AreLawful process.primitives) (names : EnumNames) (ret : Retrieval W E)
    (s : Storage W E) (w : W) where
  module _ (p : Protector) (key : Key) (unlocked : p.key ≡ some key)
      (long : length (data_of key) ≡ 32) (new : p.created ≡ true)
      (prepared : IsPrepared names p.fields) where
    stored-Creation :
        (st : S) (wrapped : WrappedKeyData) (r : W × Result E (Unit {0}))
        → check_protector names (with_wrapped_key wrapped p).fields ≡ ok tt
        → s.add_protector p.context.mount (with_wrapped_key wrapped p).fields p.owner_if_creating w
          ≡ r
        → Creation names s p.owner_if_creating p.fields.name w
            (finish {K = K} process names ret s (rewrap_stored st (with_wrapped_key wrapped p) r))
    stored-Creation st wrapped (w', ok u) valid e = record {
      stored = e;
      valid = valid;
      unlocked = (key, unlocked, long);
      named = refl;
      owned = refl;
      created = new;
    }
    stored-Creation st wrapped (w', err x) valid e =
        inr (p.context.mount, (with_wrapped_key wrapped p).fields, p.owner_if_creating, x, e)

    wrapped-Creation :
        (st : S) (wrapping_key : Key) (r : Result CryptoError WrappedKeyData)
        → Wrap.wrap process.primitives wrapping_key key ≡ r
        → Creation names s p.owner_if_creating p.fields.name w
            (finish {K = K} process names ret s (rewrap_wrapped s st p w r))
    wrapped-Creation st wrapping_key (err e) q = inl refl
    wrapped-Creation st wrapping_key (ok wrapped) q =
        let (checked, as_long) =
          wrap_checked process.primitives wrapping wrapping_key key wrapped (omega (arith, long))
            q in
        stored-Creation st wrapped
          (s.add_protector p.context.mount (with_wrapped_key wrapped p).fields p.owner_if_creating
            w)
          (wrapped_valid names p.fields wrapped prepared checked (as_long ∙ long)) refl

    called-Creation :
        (r : S × Result (CallbackError K) Key)
        → Creation names s p.owner_if_creating p.fields.name w
            (finish process names ret s (rewrap_by process s p key w r))
    called-Creation (st, err e) = inl refl
    called-Creation (st, ok wrapping_key) =
        wrapped-Creation st wrapping_key (Wrap.wrap process.primitives wrapping_key key) refl

    pub rewrapped-Creation :
        (fn : KeyFunc S K) (st : S)
        → Creation names s p.owner_if_creating p.fields.name w
            (finish process names ret s (rewrap process s fn p st w))
    unfolding rewrap
    rewrapped-Creation fn st =
        subst
          (λ o.
            Creation names s p.owner_if_creating p.fields.name w
              (finish process names ret s (rewrap_key process s fn p st w o)))
          (sym unlocked) (called-Creation (get_wrapping_key process p.fields fn false st))
