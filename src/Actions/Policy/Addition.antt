-- ===== src/Actions/Policy/Addition.antt =====
-- What Policy.AddProtector does in each of its cases.
use mathlib.Core.List.{Mem}
use mathlib.Core.Path.{subst}
use fscrypt.Common.{
  ◌≡◌, refl, sym, ap, ◌∙◌, ◌⊎◌, inl, inr, Bool-cases, Bool, true, false, [], ◌∷◌, ◌++◌, Option,
  some, none, Bytes, length, ◌-◌, ◌==◌, Result, ok, err,
}
use fscrypt.Metadata.Types.{WrappedPolicyKey, WrappedKeyData, PolicyData}
use fscrypt.Crypto.Key.{Key}
use fscrypt.Crypto.Wrap.{CryptoError, wrap}
use fscrypt.Actions.Types.{
  User, Protector, Policy, ActionError, locked, already_protected, storage, crypto, Storage,
  Process,
}
use fscrypt.Actions.Policy.{
  descriptor, keys_of, protector_descriptors, find_wrapped_key_index, uses_protector, remove_key,
  add_key, Step, lift_storage, commit_data, get_owner_of_metadata_for_protector, linked, add_link,
  after_add, add_wrapped, wrap_and_commit, add_unlocked, add_protector,
}
use fscrypt.Actions.Policy.Keys.{remove_last, find_index_lem}
use fscrypt.Actions.Policy.Removal.{KeepsKeys}

-- The same keys, wrapped and unwrapped.
abbrev pub SameKeys : Policy → Policy → Type 0
SameKeys a b = (keys_of a ≡ keys_of b) × (a.key ≡ b.key)

module _ {W E : Type 0} where
  linked-SameKeys :
      (policy : Policy) (d : Bytes) (r : W × Result E Bool)
      → SameKeys (linked policy d r).1.0 policy
  linked-SameKeys policy d (w, ok true) = (refl, refl)
  linked-SameKeys policy d (w, ok false) = (refl, refl)
  linked-SameKeys policy d (w, err e) = (refl, refl)

  link-SameKeys :
      (process : Process) (s : Storage W E) (policy : Policy) (protector : Protector) (w : W)
      → SameKeys (add_link process s policy protector w).1.0 policy
  unfolding add_link
  link-SameKeys process s policy protector w =
      elim (Bool-cases (policy.context.mount == protector.context.mount)) [
        | inl same ↦ rw same (refl, refl)
        | inr other ↦ rw other (owned (get_owner_of_metadata_for_protector process protector))
      ]
    where
      owned :
          (o : Result (ActionError E) (Option User))
          → SameKeys
              (elim o as (λ _. Step W E) [
                | err e ↦ (w, (policy, err e))
                | ok owner ↦ linked policy protector.fields.protector_descriptor (
                    s.add_linked_protector policy.context.mount
                      protector.fields.protector_descriptor protector.context.mount
                      protector.context.trusted_user owner w)
              ]).1.0
              policy
      owned (err e) = (refl, refl)
      owned (ok owner) = linked-SameKeys policy protector.fields.protector_descriptor (
          s.add_linked_protector policy.context.mount protector.fields.protector_descriptor
            protector.context.mount protector.context.trusted_user owner w)

  -- The added key is there if the result is no error, and else the keys are those from before.
  abbrev pub Added : Policy → Bytes → Result CryptoError WrappedKeyData → Step W E → Type 0
  Added policy d wrapping result =
      (result.1.0.key ≡ policy.key)
      × (((e : ActionError E) × (result.1.1 ≡ err e) × (keys_of result.1.0 ≡ keys_of policy))
          ⊎ ((w : WrappedKeyData) × (result.1.1 ≡ ok tt)
              × (wrapping ≡ ok w)
              × (keys_of result.1.0
                  ≡ keys_of policy
                    ++ (record { protector_descriptor = d; wrapped_key = some w } ∷ []))))

  answered :
      (policy : Policy) (d : Bytes) (wrapped : WrappedKeyData)
      (r : W × (PolicyData × Result E (Unit {0})))
      → r.1.0.wrapped_policy_keys
        ≡ keys_of policy ++ (record { protector_descriptor = d; wrapped_key = some wrapped } ∷ [])
      → Added policy d
          (ok wrapped)
          (after_add (r.0, (record policy { fields = r.1.0 }, lift_storage r.1.1)))
  answered policy d wrapped (w, (fields, ok tt)) e = (refl, inr (wrapped, refl, refl, e))
  answered policy d wrapped (w, (fields, err x)) e =
      let added : WrappedPolicyKey = record {
        protector_descriptor = d;
        wrapped_key = some wrapped;
      } in
      let back : remove_key (length fields.wrapped_policy_keys - 1) fields.wrapped_policy_keys
          ≡ some (added, keys_of policy) =
        subst (λ keys. remove_key (length keys - 1) keys ≡ some (added, keys_of policy)) (sym e)
          (remove_last (keys_of policy) added) in
      rw back (refl, inl (storage x, refl, refl))

  commits_wrapped :
      (s : Storage W E)
      → KeepsKeys s
      → (policy : Policy) (d : Bytes) (w : W) (wrapping : Result CryptoError WrappedKeyData)
      → Added policy d wrapping (add_wrapped s policy d w wrapping)
  unfolding commit_data add_key
  commits_wrapped s keeps policy d w (err e) = (refl, inl (crypto e, refl, refl))
  commits_wrapped s keeps policy d w (ok wrapped) =
      let fields = record policy.fields {
        wrapped_policy_keys =
            keys_of policy
            ++ (record { protector_descriptor = d; wrapped_key = some wrapped } ∷ []);
      } in
      answered policy d wrapped
        (s.add_policy policy.context.mount fields policy.owner_if_creating w)
        (keeps policy.context.mount fields policy.owner_if_creating w)

  Added-SameKeys :
      (a b : Policy) (d : Bytes) (wrapping : Result CryptoError WrappedKeyData) (r : Step W E)
      → SameKeys a b
      → Added a d wrapping r
      → Added b d wrapping r
  Added-SameKeys a b d wrapping r (keys, key) (same, inl (e, error, kept)) =
      (same ∙ key, inl (e, error, kept ∙ keys))
  Added-SameKeys a b d wrapping r (keys, key) (same, inr (w, fine, wrapped, added)) = (
    same ∙ key,
    inr (
      w,
      fine,
      wrapped,
      added
          ∙ ap (λ ks. ks ++ (record { protector_descriptor = d; wrapped_key = some w } ∷ [])) keys,
    ),
  )

  linked_then_wrapped :
      (process : Process) (s : Storage W E)
      → KeepsKeys s
      → (policy : Policy) (protector : Protector) (policy_key protector_key : Key) (r : Step W E)
      → SameKeys r.1.0 policy
      → Added policy protector.fields.protector_descriptor
          (wrap process.primitives protector_key policy_key)
          (wrap_and_commit process s protector policy_key protector_key r)
  linked_then_wrapped process s keeps policy protector policy_key protector_key (w, (p, err e))
        (keys, key) =
      (key, inl (e, refl, keys))
  linked_then_wrapped process s keeps policy protector policy_key protector_key (w, (p, ok tt))
        same =
      let wrapping = wrap process.primitives protector_key policy_key in
      let d = protector.fields.protector_descriptor in
      Added-SameKeys p policy d wrapping (add_wrapped s p d w wrapping) same
        (commits_wrapped s keeps p d w wrapping)

  -- The outcomes of an addition.
  abbrev pub Addition : Process → Policy → Protector → W → Step W E → Type 0
  Addition process policy protector w result =
      let d = protector.fields.protector_descriptor in
      (Mem d (protector_descriptors policy)
        × (result ≡ (w, (policy, err (already_protected (descriptor policy) d)))))
      ⊎ ((¬ Mem d (protector_descriptors policy))
          × ((policy.key ≡ none) ⊎ (protector.key ≡ none))
          × (result ≡ (w, (policy, err locked))))
      ⊎ ((¬ Mem d (protector_descriptors policy))
          × (policy_key : Key) × (protector_key : Key) × (policy.key ≡ some policy_key)
          × (protector.key ≡ some protector_key)
          × Added policy d (wrap process.primitives protector_key policy_key) result)

  module _ (process : Process) (s : Storage W E) (keeps : KeepsKeys s) where
    unlocked_cases :
        (policy : Policy) (protector : Protector) (w : W) (a b : Option Key)
        → policy.key ≡ a
        → protector.key ≡ b
        → (¬ Mem protector.fields.protector_descriptor (protector_descriptors policy))
        → Addition process policy protector w (add_unlocked process s policy protector w a b)
    unlocked_cases policy protector w none b ea eb absent = inr (inl (absent, inl ea, refl))
    unlocked_cases policy protector w (some k) none ea eb absent = inr (inl (absent, inr eb, refl))
    unlocked_cases policy protector w (some policy_key) (some protector_key) ea eb absent = inr (
        inr (
          absent,
          policy_key,
          protector_key,
          ea,
          eb,
          linked_then_wrapped process s keeps policy protector policy_key protector_key
              (add_link process s policy protector w) (link-SameKeys process s policy protector w),
        ))

    -- AddProtector fails for a protector that the policy has, and for a locked policy or protector,
    -- and changes nothing then. Else the policy has the wrapped policy key of the protector as its
    -- last key if the result is no error, and just the keys from before if it is one; the policy's
    -- own key stays.
    pub add_protector_cases :
        (policy : Policy) (protector : Protector) (w : W)
        → Addition process policy protector w (add_protector process s policy protector w)
    unfolding add_protector uses_protector find_wrapped_key_index
    add_protector_cases policy protector w =
        elim (find_index_lem protector.fields.protector_descriptor (keys_of policy)) [
          | inl (missing, absent) ↦
              rw missing
                (unlocked_cases policy protector w policy.key protector.key refl refl absent)
          | inr (i, found, at, item, e, bound, mem) ↦ inl (mem, rw at refl)
        ]
