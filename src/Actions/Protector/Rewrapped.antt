-- ===== src/Actions/Protector/Rewrapped.antt =====
-- What Rewrap leaves opens with the new wrapping key.
use mathlib.Core.Path.{subst}
use fscrypt.Common.{ℕ, suc, ◌≡◌, refl, sym, ap, ◌∙◌, false, some, IsBytes, Result, ok, err, arith}
use fscrypt.Metadata.Types.{ProtectorData, WrappedKeyData}
use fscrypt.Crypto.Key.{Key, data_of}
use fscrypt.Crypto.Key.Buffer.{HasMemory}
use fscrypt.Crypto.Wrap.{CryptoError, wrap, unwrap}
use fscrypt.Crypto.Wrap.RoundTrip.{AreLawful, unwrap_of_wrap}
use fscrypt.Crypto.Wrap.Sealed.{wrap_key_length}
use fscrypt.Actions.Types.{Protector, Storage, Process}
use fscrypt.Actions.Callback.{
  KeyFunc, CallbackError, get_wrapping_key, round, tried, next, unwrap_loop, unwrap_protector_key,
}
use fscrypt.Actions.Protector.{
  Outcome, with_wrapped_key, rewrap_wrapped, rewrap_by, rewrap_key, rewrap, unlocked_by, unlock,
  lock,
}

-- The wrapping key, what it wraps the protector's key to, and the protector with that.
abbrev IsRewrapped :
    {S W E K : Type 0}
    → Process
    → Protector
    → Key
    → Result (CallbackError K) Key
    → Outcome S W E K
    → Type 0
IsRewrapped process p key given out =
    (wrapping_key : Key) × (wrapped : WrappedKeyData) × (given ≡ ok wrapping_key)
    × (wrap process.primitives wrapping_key key ≡ ok wrapped)
    × (out.1.1.0 ≡ with_wrapped_key wrapped p)

module _ {S W E K : Type 0} (process : Process) (s : Storage W E) (p : Protector) (key : Key)
    (w : W) where
  wrapped_same :
      (st : S) (wrapping_key : Key) (r : Result CryptoError WrappedKeyData)
      → wrap process.primitives wrapping_key key ≡ r
      → (rewrap_wrapped {K = K} s st p w r).1.1.1 ≡ ok tt
      → IsRewrapped process p key (ok wrapping_key) (rewrap_wrapped {K = K} s st p w r)
  wrapped_same st wrapping_key (err e) q h = absurd (ground (arith, h))
  wrapped_same st wrapping_key (ok wrapped) q h = (wrapping_key, wrapped, refl, q, refl)

  called_same :
      (x : S × Result (CallbackError K) Key)
      → (rewrap_by process s p key w x).1.1.1 ≡ ok tt
      → IsRewrapped process p key x.1 (rewrap_by process s p key w x)
  called_same (st, err e) h = absurd (ground (arith, h))
  called_same (st, ok wrapping_key) h =
      wrapped_same st wrapping_key (wrap process.primitives wrapping_key key) refl h

module _ {S K : Type 0} (process : Process) where
  tried_opened :
      (info : ProtectorData) (x : S × Result (CallbackError K) Key) (wrapping_key secret : Key)
      (w : WrappedKeyData) (rest : S → S × Result (CallbackError K) Key)
      → x.1 ≡ ok wrapping_key
      → info.wrapped_key ≡ some w
      → unwrap process.primitives process.memory wrapping_key w ≡ ok secret
      → (next (tried process info x) rest).1 ≡ ok secret
  tried_opened info (st, err e) wrapping_key secret w rest h has opened = absurd (ground (arith, h))
  tried_opened info (st, ok given) wrapping_key secret w rest h has opened =
      let same : wrapping_key ≡ given = ground (arith, h) in
      let opened' : unwrap process.primitives process.memory given w ≡ ok secret =
        subst (λ k. unwrap process.primitives process.memory k w ≡ ok secret) same opened in
      rw (has, opened') refl

  unlocked_lem :
      {E : Type 0} (p : Protector) (x : S × Result (CallbackError K) Key) (secret : Key)
      → x.1 ≡ ok secret
      → (unlocked_by {E = E} p x).1 ≡ (record p { key = some secret }, ok tt)
  unlocked_lem p (st, err e) secret h = absurd (ground (arith, h))
  unlocked_lem p (st, ok key) secret h =
      let same : key ≡ secret = ground (arith, h) in
      ap (λ k. (record p { key = some k }, ok tt)) same

module _ {S W E K : Type 0} (process : Process) (s : Storage W E) where
  -- If Rewrap succeeds, then after Lock, Unlock succeeds in its first round with any callback that
  -- leads to the same wrapping key, and gives the bytes of the protector's key again. The
  -- primitives are as documented, and there is memory.
  pub unlock-rewrap :
      AreLawful process.primitives
      → HasMemory process.memory
      → (p : Protector) (key : Key) (fn fn' : KeyFunc S K) (st st' : S) (w : W) (n : ℕ)
      → p.key ≡ some key
      → IsBytes (data_of key)
      → (rewrap process s fn p st w).1.1.1 ≡ ok tt
      → (get_wrapping_key process (rewrap process s fn p st w).1.1.0.fields fn' false st').1
        ≡ (get_wrapping_key process p.fields fn false st).1
      → (secret : Key) × ((unlock {E = E}
            (suc n)
            process
            fn'
            (lock (rewrap process s fn p st w).1.1.0)
            st').1
          ≡ (record (rewrap process s fn p st w).1.1.0 { key = some secret }, ok tt))
        × (data_of secret ≡ data_of key)
  unfolding rewrap unlock lock unwrap_protector_key unwrap_loop round
  unlock-rewrap lawful memory p key fn fn' st st' w n unlocked bytes done again =
      let out = rewrap process s fn p st w in
      let same : rewrap_key process s fn p st w (some key) ≡ out =
        ap (λ o. rewrap_key process s fn p st w o) (sym unlocked) in
      let (wrapping_key, wrapped, given, sealed, whole) =
        subst (λ o. IsRewrapped process p key (get_wrapping_key process p.fields fn false st).1 o)
          same
          (called_same process s p key w (get_wrapping_key process p.fields fn false st)
            (ap (λ o. o.1.1.1) same ∙ done)) in
      let (secret, opened, content) =
        unwrap_of_wrap process.primitives lawful process.memory memory wrapping_key key wrapped
          (wrap_key_length process.primitives wrapping_key key wrapped sealed) bytes sealed in
      (
        secret,
        unlocked_lem process (lock out.1.1.0) _ secret (
            tried_opened process out.1.1.0.fields
              (get_wrapping_key process out.1.1.0.fields fn' false st') wrapping_key secret wrapped
              _ (again ∙ given) (ap (λ (q : Protector). q.fields.wrapped_key) whole) opened),
        content,
      )
