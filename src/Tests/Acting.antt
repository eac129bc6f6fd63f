-- ===== src/Tests/Acting.antt =====
-- Package actions at a policy of two protectors.
use mathlib.Core.Logic.Or
use mathlib.Core.HLevel.{⊥_prop}
use mathlib.Core.List.{Mem, Nodup-cons, Nodup-nil, mem-cons, not-mem-nil}
use fscrypt.Common.{
  ℕ, ◌≡◌, ◌≢◌, ◌↔◌, ◌<◌, refl, Bool, false, List, [], ◌∷◌, some, bytes_eq, bytes_eq_refl, length,
  replicate, ok, err, arith,
}
use fscrypt.Metadata.Types.{ProtectorData}
use fscrypt.Crypto.Key.{Key, data_of, len}
use fscrypt.Crypto.Wrap.{wrap, check_wrapping_key, stretch_key, aes_ctr, get_hmac}
use fscrypt.Actions.Types.{Policy}
use fscrypt.Actions.Policy.{
  protector_descriptors, add_protector, remove_protector, uses_protector, find_wrapped_key_index,
  remove_key, commit_data, add_link, add_key, get_owner_of_metadata_for_protector,
}
use fscrypt.Actions.Policy.Removal.{KeepsKeys, Removal, remove_protector_cases}
use fscrypt.Actions.Policy.Addition.{Addition, add_protector_cases}
use fscrypt.Actions.Policy.Invariant.{IsProtected, remove_protector_members}
use fscrypt.Actions.Policy.Reach.{start, added, removed, closed, reaches-IsProtected}
use fscrypt.Actions.Policy.Unlock.{unlock_with_protector, lock}
use fscrypt.Actions.Policy.Unlock.Same.{add-unlock}
use fscrypt.Actions.Callback.{KeyFunc, out_of_fuel, unwrap_protector_key}
use fscrypt.Actions.Callback.Retry.{Rounds, Opened, unwrap_protector_key_lem}
use fscrypt.Tests.Samples.{
  memory-HasMemory, primitives-AreLawful, process, policy, policy_key, protector, protector_data,
  storage, storage-KeepsKeys, full_storage, first_descriptor, second_descriptor, key_of,
}

full_storage-KeepsKeys : KeepsKeys full_storage
full_storage-KeepsKeys m fields owner w = refl

descriptors_differ : first_descriptor ≢ second_descriptor
unfolding bytes_eq
descriptors_differ e =
    let same = bytes_eq_refl first_descriptor in
    let other : bytes_eq first_descriptor second_descriptor ≡ false = refl in
    absurd (ground (arith, e, same, other))

policy-IsProtected : IsProtected policy
policy-IsProtected = (
  Nodup-cons.1 (
    λ m. Or.elim ⊥_prop (mem-cons.0 m) descriptors_differ not-mem-nil,
    Nodup-cons.1 (not-mem-nil, Nodup-nil),
  ),
  omega arith,
)

remove_protector_cases_example :
    Removal full_storage full_storage-KeepsKeys policy first_descriptor 0
      (remove_protector full_storage policy first_descriptor 0)
remove_protector_cases_example =
    remove_protector_cases full_storage full_storage-KeepsKeys policy first_descriptor 0

add_protector_cases_example :
    Addition process policy protector 0 (add_protector process storage policy protector 0)
add_protector_cases_example =
    add_protector_cases process storage storage-KeepsKeys policy protector 0

remove_protector_members_example :
    Mem second_descriptor
      (protector_descriptors (remove_protector storage policy first_descriptor 0).1.0)
    ↔ (Mem second_descriptor (protector_descriptors policy)
        × (second_descriptor ≢ first_descriptor))
remove_protector_members_example =
    remove_protector_members storage storage-KeepsKeys policy first_descriptor 0 policy-IsProtected
      (unfold remove_protector commit_data find_wrapped_key_index remove_key bytes_eq in refl)
      second_descriptor

abbrev after_two_steps : Policy
after_two_steps =
    (remove_protector storage (add_protector process storage policy protector 0).1.0
      first_descriptor 1).1.0

reaches-IsProtected_example : IsProtected (lock after_two_steps)
reaches-IsProtected_example =
    reaches-IsProtected process storage storage-KeepsKeys policy (lock after_two_steps)
      (closed (removed first_descriptor 1 (added protector 0 start))) policy-IsProtected

addition_succeeds : (add_protector process storage policy protector 0).1.1 ≡ ok tt
unfolding add_protector uses_protector find_wrapped_key_index bytes_eq add_link
    get_owner_of_metadata_for_protector wrap check_wrapping_key len stretch_key aes_ctr get_hmac
    commit_data add_key
addition_succeeds = refl

add-unlock_example :
    (key : Key) × (unlock_with_protector {E = ℕ} process
        (lock (add_protector process storage policy protector 0).1.0)
        protector
      ≡ (
        record (lock (add_protector process storage policy protector 0).1.0) { key = some key },
        ok tt,
      ))
    × (data_of key ≡ data_of policy_key)
add-unlock_example =
    add-unlock process storage storage-KeepsKeys primitives-AreLawful memory-HasMemory policy
      protector 0 policy_key (key_of (replicate 32 8)) refl refl (omega arith) refl
      addition_succeeds

-- A callback that gives the keys of a list, and then fails.
abbrev listed_keys : KeyFunc (List Key) ℕ
listed_keys info retry [] = ([], err 1)
listed_keys info retry (k ∷ ks) = (ks, ok k)

listed_keys_fewer :
    (info : ProtectorData) (retry : Bool) (ks : List Key) (key : Key)
    → (listed_keys info retry ks).1 ≡ ok key
    → length (listed_keys info retry ks).0 < length ks
listed_keys_fewer info retry [] key e = absurd (ground arith)
listed_keys_fewer info retry (k ∷ ks) key e = omega arith

abbrev two_keys : List Key
two_keys = key_of (replicate 32 1) ∷ key_of (replicate 32 8) ∷ []

unwrap_protector_key_lem_example :
    Rounds process protector_data listed_keys false two_keys
      (unwrap_protector_key 3 process protector_data listed_keys two_keys)
    × ((unwrap_protector_key 3 process protector_data listed_keys two_keys).1 ≢ err out_of_fuel)
    × ((key : Key)
        → (unwrap_protector_key 3 process protector_data listed_keys two_keys).1 ≡ ok key
        → Opened process protector_data listed_keys key)
unwrap_protector_key_lem_example =
    unwrap_protector_key_lem process protector_data listed_keys length 3 two_keys
      (listed_keys_fewer protector_data) (omega arith)
