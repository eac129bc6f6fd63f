-- ===== src/Actions/Policy/Unlock/Same.antt =====
-- A protector that AddProtector added unlocks the policy, to the same key.
use mathlib.Core.List.{Mem}
use mathlib.Core.Path.{subst}
use fscrypt.Common.{
  ◌≡◌, refl, sym, ap, inl, inr, Bool-cases, List, [], ◌∷◌, ◌++◌, some, none, Bytes, bytes_eq,
  bytes_eq_refl, IsBytes, length, get_elem?, ok, arith,
}
use fscrypt.Metadata.Types.{WrappedPolicyKey, WrappedKeyData}
use fscrypt.Crypto.Key.{Key, data_of}
use fscrypt.Crypto.Key.Buffer.{HasMemory}
use fscrypt.Crypto.Wrap.{wrap, unwrap}
use fscrypt.Crypto.Wrap.RoundTrip.{AreLawful, unwrap_of_wrap}
use fscrypt.Actions.Types.{Protector, Policy, Storage, Process}
use fscrypt.Actions.Policy.{
  find_index, keys_of, protector_descriptors, find_wrapped_key_index, add_protector,
}
use fscrypt.Actions.Policy.Removal.{KeepsKeys}
use fscrypt.Actions.Policy.Addition.{add_protector_cases}
use fscrypt.Actions.Policy.Keys.{find_index_lem}
use fscrypt.Actions.Policy.Unlock.{unlock_with_protector, lock}

-- The search reaches the appended key if no key before is the protector's.
find_appended :
    (d : Bytes) (keys : List WrappedPolicyKey) (added : WrappedPolicyKey)
    → find_index d keys ≡ none
    → added.protector_descriptor ≡ d
    → (find_index d (keys ++ (added ∷ [])) ≡ some (length keys))
      × (get_elem? (keys ++ (added ∷ [])) (length keys) ≡ some added)
find_appended d [] added missing e = (rw (e, bytes_eq_refl d) refl, refl)
find_appended d (w ∷ keys) added missing e = elim (Bool-cases (bytes_eq w.protector_descriptor d)) [
  | inl same ↦ absurd (ground arith)
  | inr other ↦
      let (at, item) = find_appended d keys added (ground arith) e in (rw (other, at) refl, item)
]

missing_index :
    (d : Bytes) (policy : Policy)
    → (¬ Mem d (protector_descriptors policy))
    → find_index d (keys_of policy) ≡ none
missing_index d policy absent = elim (find_index_lem d (keys_of policy)) [
  | inl (missing, _) ↦ missing
  | inr (i, found, at, item, e, bound, mem) ↦ absurd (absent mem)
]

module _ {E : Type 0} where
  -- A locked policy whose last key is the protector's, and no other is, is opened by that key.
  unlock_last :
      (process : Process) (policy : Policy) (protector : Protector) (key secret : Key)
      (keys : List WrappedPolicyKey) (w : WrappedKeyData)
      → policy.key ≡ none
      → protector.key ≡ some key
      → find_index protector.fields.protector_descriptor keys ≡ none
      → keys_of policy
        ≡ keys
          ++ (record {
            protector_descriptor = protector.fields.protector_descriptor;
            wrapped_key = some w;
          }
              ∷ [])
      → unwrap process.primitives process.memory key w ≡ ok secret
      → unlock_with_protector {E = E} process policy protector
        ≡ (record policy { key = some secret }, ok tt)
  unfolding unlock_with_protector find_wrapped_key_index
  unlock_last process policy protector key secret keys w ek er missing ekeys opened =
      let d = protector.fields.protector_descriptor in
      let added : WrappedPolicyKey = record { protector_descriptor = d; wrapped_key = some w } in
      let (at, item) = find_appended d keys added missing refl in
      let at' : find_index d (keys_of policy) ≡ some (length keys) =
        subst (λ ks. find_index d ks ≡ some (length keys)) (sym ekeys) at in
      let item' : get_elem? (keys_of policy) (length keys) ≡ some added =
        subst (λ ks. get_elem? ks (length keys) ≡ some added) (sym ekeys) item in
      rw (ek, er, at', item', opened) refl

module _ {W E : Type 0} where
  module _ (process : Process) (s : Storage W E) (keeps : KeepsKeys s)
      (lawful : AreLawful process.primitives) (memory : HasMemory process.memory) where
    -- If AddProtector of an unlocked protector, whose key has 32 bytes, succeeds on an unlocked
    -- policy, the protector unlocks the policy again after a Lock, to the bytes of the policy's key.
    pub add-unlock :
        (policy : Policy) (protector : Protector) (w : W) (policy_key protector_key : Key)
        → policy.key ≡ some policy_key
        → protector.key ≡ some protector_key
        → IsBytes (data_of policy_key)
        → length (data_of protector_key) ≡ 32
        → (add_protector process s policy protector w).1.1 ≡ ok tt
        → let locked_again = lock (add_protector process s policy protector w).1.0 in
          (key : Key) × (unlock_with_protector {E = E} process locked_again protector
            ≡ (record locked_again { key = some key }, ok tt))
          × (data_of key ≡ data_of policy_key)
    add-unlock policy protector w policy_key protector_key ek er bytes e fine =
        elim (add_protector_cases process s keeps policy protector w) [
          | inl (mem, unchanged) ↦ absurd (ground (arith, fine, ap (λ r. r.1.1) unchanged))
          | inr (inl (absent, locks, unchanged)) ↦
              absurd (ground (arith, fine, ap (λ r. r.1.1) unchanged))
          | inr (inr (absent, k, k', ek', er', (kept, inl (error, failed, same)))) ↦
              absurd (ground (arith, fine, failed))
          | inr (inr (absent, k, k', ek', er', (kept, inr (wrapped, ok', wrapping, added)))) ↦
              let d = protector.fields.protector_descriptor in
              let same : k ≡ policy_key = ground (arith, ek, ek') in
              let same' : k' ≡ protector_key = ground (arith, er, er') in
              let wrapping' : wrap process.primitives protector_key policy_key ≡ ok wrapped =
                rw (← same, ← same') wrapping in
              let (secret, opened, content) =
                unwrap_of_wrap process.primitives lawful process.memory memory protector_key
                  policy_key wrapped e bytes wrapping' in
              let locked_again = lock (add_protector process s policy protector w).1.0 in
              (
                secret,
                unlock_last process locked_again protector protector_key secret (keys_of policy)
                    wrapped (unfold lock in refl) er (missing_index d policy absent)
                    (unfold lock in added) opened,
                content,
              )
        ]
