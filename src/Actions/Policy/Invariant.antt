-- ===== src/Actions/Policy/Invariant.antt =====
-- The invariant of a policy's protectors, under every operation that changes them.
use mathlib.Core.List.{
  Mem, Mem-prop, Nodup, Perm, map, mem-cons, mem-cons_of_mem, Nodup-cons, perm_append_singleton,
}
use mathlib.Core.List.Perm
use mathlib.Core.List.Permᴰ.{Permᴰ, nil, cons, swap, trans}
use mathlib.Core.Path.{subst}
use mathlib.Core.Logic.Or
use mathlib.Core.Logic.{∥∥₁_elim}
use native.Mathlib.Nat.{ℕ_set}
use fscrypt.Common.{
  suc, ◌<◌, ◌≡◌, ◌≢◌, ◌↔◌, refl, sym, ap, ◌∙◌, inl, inr, List, [], ◌∷◌, ◌++◌, some, Bytes, length,
  length-append, ok, arith,
}
use fscrypt.Metadata.Types.{WrappedPolicyKey, PolicyData}
use fscrypt.Actions.Types.{Protector, Policy, Storage, Process}
use fscrypt.Actions.Policy.{keys_of, protector_descriptors, add_protector, remove_protector}
use fscrypt.Actions.Policy.Removal.{KeepsKeys, remove_protector_cases}
use fscrypt.Actions.Policy.Addition.{add_protector_cases}

abbrev descriptors : List WrappedPolicyKey → List Bytes
descriptors keys = map (λ w. w.protector_descriptor) keys

-- No protector has two keys, and there is a key.
abbrev pub IsProtectedData : PolicyData → Type 0
IsProtectedData fields =
    Nodup (descriptors fields.wrapped_policy_keys) × (0 < length fields.wrapped_policy_keys)

abbrev pub IsProtected : Policy → Type 0
IsProtected policy = IsProtectedData policy.fields

length-Perm : {a b : List WrappedPolicyKey} → Permᴰ a b → length a ≡ length b
length-Perm nil = refl
length-Perm (cons e d) = ap suc (length-Perm d)
length-Perm (swap e e') = refl
length-Perm (trans d d') = length-Perm d ∙ length-Perm d'

Nodup-descriptors :
    {a b : List WrappedPolicyKey} → Perm a b → Nodup (descriptors a) → Nodup (descriptors b)
Nodup-descriptors perm = Perm.nodup (Perm.map (λ w. w.protector_descriptor) perm)

same_length : {a b : List WrappedPolicyKey} → Perm a b → length a ≡ length b
same_length {a} {b} perm = ∥∥₁_elim perm (ℕ_set (length a) (length b)) length-Perm

-- What is left of a key's list without one key of a protector, when no protector has two.
taken_out :
    (d : Bytes) (removed : WrappedPolicyKey) (rest keys : List WrappedPolicyKey)
    → removed.protector_descriptor ≡ d
    → Perm (removed ∷ rest) keys
    → Nodup (descriptors keys)
    → Nodup (descriptors rest)
      × ((x : Bytes) → Mem x (descriptors rest) ↔ (Mem x (descriptors keys) × (x ≢ d)))
taken_out d removed rest keys e perm distinct =
    let whole : Nodup (removed.protector_descriptor ∷ descriptors rest) =
      Nodup-descriptors (Perm.symm perm) distinct in
    let (absent, left) = Nodup-cons.0 whole in
    let members = Perm.map (λ w. w.protector_descriptor) perm in
    (
      left,
      λ x. (
        λ m. (
          (Perm.mem_iff members).0 (mem-cons_of_mem removed.protector_descriptor m),
          λ same. absent (subst (λ y. Mem y (descriptors rest)) (same ∙ sym e) m),
        ),
        λ (m, ne).
            Or.elim Mem-prop (mem-cons.0 ((Perm.mem_iff members).1 m)) (λ q. absurd (ne (q ∙ e)))
              (λ there. there),
      ),
    )

module _ {W E : Type 0} (s : Storage W E) (keeps : KeepsKeys s) where
  -- Removing a protector keeps the invariant, whatever the storage answers.
  pub remove-IsProtected :
      (policy : Policy) (d : Bytes) (w : W)
      → IsProtected policy
      → IsProtected (remove_protector s policy d w).1.0
  remove-IsProtected policy d w (distinct, positive) =
      elim (remove_protector_cases s keeps policy d w) [
        | inl (absent, e) ↦ rw e (distinct, positive)
        | inr (inl (mem, one, e)) ↦ rw e (distinct, positive)
        | inr (inr (mem, more, removed, rest, e, perm, (w', inl (fine, fine', keys)))) ↦ rw keys (
          (taken_out d removed rest (keys_of policy) e perm distinct).0,
          omega (arith, same_length perm, more, positive),
        )
        | inr (inr (mem, more, removed, rest, e, perm, (w', inr (x, bad, bad', keys)))) ↦
            let back : Perm (keys_of policy) (rest ++ (removed ∷ [])) =
              Perm.trans (Perm.symm perm) (Perm.symm (perm_append_singleton removed rest)) in
            rw keys (Nodup-descriptors back distinct, omega (arith, same_length back, positive))
      ]

  -- A removal that succeeds takes exactly its protector off a policy that satisfies the invariant.
  pub remove_protector_members :
      (policy : Policy) (d : Bytes) (w : W)
      → IsProtected policy
      → (remove_protector s policy d w).1.1 ≡ ok tt
      → (x : Bytes)
      → Mem x (protector_descriptors (remove_protector s policy d w).1.0)
        ↔ (Mem x (protector_descriptors policy) × (x ≢ d))
  remove_protector_members policy d w (distinct, positive) fine =
      elim (remove_protector_cases s keeps policy d w) [
        | inl (absent, e) ↦ absurd (ground (arith, fine, ap (λ r. r.1.1) e))
        | inr (inl (mem, one, e)) ↦ absurd (ground (arith, fine, ap (λ r. r.1.1) e))
        | inr (inr (mem, more, removed, rest, e, perm, (w', inl (_, _, keys)))) ↦
            rw keys (taken_out d removed rest (keys_of policy) e perm distinct).1
        | inr (inr (mem, more, removed, rest, e, perm, (w', inr (x, bad, bad', keys)))) ↦
            absurd (ground (arith, fine, bad'))
      ]

-- The keys with one more at the end.
put_in :
    (added : WrappedPolicyKey) (keys : List WrappedPolicyKey)
    → (¬ Mem added.protector_descriptor (descriptors keys))
    → Nodup (descriptors keys)
    → Nodup (descriptors (keys ++ (added ∷ []))) × (0 < length (keys ++ (added ∷ [])))
put_in added keys absent distinct = (
  Nodup-descriptors (Perm.symm (perm_append_singleton added keys))
      (Nodup-cons.1 (absent, distinct)),
  omega (arith, length-append keys (added ∷ [])),
)

module _ {W E : Type 0} (process : Process) (s : Storage W E) (keeps : KeepsKeys s) where
  -- Adding a protector keeps the protectors distinct and their number positive, whatever the result.
  pub add-IsProtected :
      (policy : Policy) (protector : Protector) (w : W)
      → IsProtected policy
      → IsProtected (add_protector process s policy protector w).1.0
  add-IsProtected policy protector w (distinct, positive) =
      elim (add_protector_cases process s keeps policy protector w) [
        | inl (mem, e) ↦ rw e (distinct, positive)
        | inr (inl (absent, locks, e)) ↦ rw e (distinct, positive)
        | inr (inr (absent, k, k', ek, er, (same, inl (x, bad, keys)))) ↦
            rw keys (distinct, positive)
        | inr (inr (absent, k, k', ek, er, (same, inr (wrapped, fine, wrapping, keys)))) ↦ rw keys (
            put_in
              (record {
                protector_descriptor = protector.fields.protector_descriptor;
                wrapped_key = some wrapped;
              })
              (keys_of policy) absent distinct)
      ]
