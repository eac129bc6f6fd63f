-- ===== src/Actions/Policy/Removal.antt =====
-- What Policy.RemoveProtector does in each of its cases.
use mathlib.Core.List.{Mem, Perm}
use fscrypt.Common.{
  ◌≡◌, ◌≢◌, refl, ap, ◌∙◌, ◌⊎◌, inl, inr, Bool-cases, ==_iff, List, [], ◌∷◌, ◌++◌, Option, Bytes,
  length, ◌==◌, Result, ok, err, arith,
}
use fscrypt.Metadata.Types.{WrappedPolicyKey, PolicyData}
use fscrypt.Actions.Types.{Mount, User, Policy, not_protected, only_protector, storage, Storage}
use fscrypt.Actions.Policy.{
  descriptor, keys_of, protector_descriptors, find_wrapped_key_index, add_key, Step, lift_storage,
  commit_data, after_remove, remove_protector,
}
use fscrypt.Actions.Policy.Keys.{remove_key_lem, find_index_lem}

-- AddPolicy, which may set the version of the policy that it is given, leaves its keys alone.
abbrev pub KeepsKeys : {W E : Type 0} → Storage W E → Type 0
KeepsKeys {W} s =
    (m : Mount) (fields : PolicyData) (owner : Option User) (w : W)
    → (s.add_policy m fields owner w).1.0.wrapped_policy_keys ≡ fields.wrapped_policy_keys

-- What follows from the answer `r` of the storage: the policy loses the key if the storage took the
-- commit, and else it gets the key back at the end.
abbrev pub Committed :
    {W E : Type 0}
    → WrappedPolicyKey
    → List WrappedPolicyKey
    → W × (PolicyData × Result E (Unit {0}))
    → Step W E
    → Type 0
Committed {E = E} removed rest r result =
    (result.0 ≡ r.0)
    × (((r.1.1 ≡ ok tt) × (result.1.1 ≡ ok tt) × (keys_of result.1.0 ≡ rest))
        ⊎ ((e : E) × (r.1.1 ≡ err e)
            × (result.1.1 ≡ err (storage e))
            × (keys_of result.1.0 ≡ rest ++ (removed ∷ []))))

after_answer :
    {W E : Type 0} (policy : Policy) (removed : WrappedPolicyKey) (rest : List WrappedPolicyKey)
    (r : W × (PolicyData × Result E (Unit {0})))
    → r.1.0.wrapped_policy_keys ≡ rest
    → Committed removed rest r
        (after_remove removed (r.0, (record policy { fields = r.1.0 }, lift_storage r.1.1)))
unfolding add_key
after_answer policy removed rest (w, (fields, ok tt)) e = (refl, inl (refl, refl, e))
after_answer policy removed rest (w, (fields, err x)) e =
    (refl, inr (x, refl, refl, ap (λ keys. keys ++ (removed ∷ [])) e))

module _ {W E : Type 0} (s : Storage W E) (keeps : KeepsKeys s) where
  -- The three outcomes of a removal.
  abbrev pub Removal : Policy → Bytes → W → Step W E → Type 0
  Removal policy d w result =
      ((¬ Mem d (protector_descriptors policy))
        × (result ≡ (w, (policy, err (not_protected (descriptor policy) d)))))
      ⊎ (Mem d (protector_descriptors policy)
          × (length (keys_of policy) ≡ 1)
          × (result ≡ (w, (policy, err (only_protector (descriptor policy))))))
      ⊎ (Mem d (protector_descriptors policy)
          × (length (keys_of policy) ≢ 1)
          × (removed : WrappedPolicyKey) × (rest : List WrappedPolicyKey)
          × (removed.protector_descriptor ≡ d)
          × Perm (removed ∷ rest) (keys_of policy)
          × Committed removed rest
              (s.add_policy policy.context.mount
                (record policy.fields { wrapped_policy_keys = rest }) policy.owner_if_creating w)
              result)

  -- RemoveProtector fails for a descriptor that protects nothing and for the only protector, and
  -- changes nothing then. Else it commits the policy without one key of the protector; the keys are
  -- those if the storage takes the commit, and those that were there, up to order, if it does not.
  pub remove_protector_cases :
      (policy : Policy) (d : Bytes) (w : W) → Removal policy d w (remove_protector s policy d w)
  unfolding remove_protector find_wrapped_key_index commit_data
  remove_protector_cases policy d w = elim (find_index_lem d (keys_of policy)) [
    | inl (missing, absent) ↦ inl (absent, rw missing refl)
    | inr (i, found, at, item, e, bound, mem) ↦ elim (Bool-cases (length (keys_of policy) == 1)) [
      | inl one ↦ inr (inl (mem, (==_iff (length (keys_of policy)) 1).0 one, rw (at, one) refl))
      | inr more ↦
          let (removed, rest, taken, item', perm) = remove_key_lem i (keys_of policy) bound in
          let same : removed ≡ found = ground (arith, item, item') in
          let answer =
            s.add_policy policy.context.mount (record policy.fields { wrapped_policy_keys = rest })
              policy.owner_if_creating w in
          inr (
            inr (
              mem,
              λ one. absurd (ground (arith, one, more)),
              removed,
              rest,
              ap (λ k. k.protector_descriptor) same ∙ e,
              perm,
              rw (at, more, taken)
                  (after_answer policy removed rest answer (
                    keeps policy.context.mount (record policy.fields { wrapped_policy_keys = rest })
                      policy.owner_if_creating w)),
            ))
    ]
  ]
