-- ===== src/Actions/Policy/Create/Opened.antt =====
-- What CreatePolicy makes.
use mathlib.Core.Path.{subst}
use fscrypt.Common.{
  ◌≡◌, refl, ap, ◌∙◌, inl, inr, [], ◌∷◌, Option, none, some, Bytes, IsBytes, length, Result, ok,
  err, arith,
}
use mathlib.Core.List.{map}
use fscrypt.Metadata.Types.{EncryptionOptions}
use fscrypt.Metadata.Checks.{EnumNames}
use fscrypt.Crypto.Key.{Key, data_of}
use fscrypt.Crypto.Key.Buffer.{HasMemory}
use fscrypt.Crypto.Wrap.{CryptoError}
use fscrypt.Crypto.Wrap.RoundTrip.{AreLawful}
use fscrypt.Crypto.Random.{new_random_key, new_random_key_size, new_random_key-IsBytes}
use fscrypt.Crypto.Derive.{DescriptorError, compute_key_descriptor}
use fscrypt.Actions.Types.{User, Context, Protector, Policy, ActionError, Storage, Process}
use fscrypt.Actions.Context.{Retrieval, OpError, check_context}
use fscrypt.Actions.Policy.{
  Step, protector_descriptors, get_owner_of_metadata_for_protector, add_protector,
}
use fscrypt.Actions.Policy.Removal.{KeepsKeys}
use fscrypt.Actions.Policy.Addition.{add_protector_cases}
use fscrypt.Actions.Policy.Unlock.{unlock_with_protector, lock}
use fscrypt.Actions.Policy.Unlock.Same.{add-unlock}
use fscrypt.Actions.Policy.Create.{
  finish, with_owner, with_descriptor, with_options, with_key, context_checked, create_policy,
}

module _ (E : Type 0) (process : Process) (protector : Protector) where
  -- A policy with a key of 64 bytes, which the protector alone protects, and which it opens again.
  pub record IsOpened (policy : Policy) : Type 0 where
    pub only : protector_descriptors policy ≡ protector.fields.protector_descriptor ∷ []
    pub unlocked :
        (key : Key) × (policy.key ≡ some key)
        × (length (data_of key) ≡ 64)
        × ((secret : Key) × (unlock_with_protector {E = E} process (lock policy) protector
              ≡ (record (lock policy) { key = some secret }, ok tt))
            × (data_of secret ≡ data_of key))

  abbrev pub OpenedBy : {W K : Type 0} → W × Result (OpError E K) Policy → Type 0
  OpenedBy (w', err e) = Unit
  OpenedBy (w', ok policy) = IsOpened policy

module _ {W E : Type 0} (K : Type 0) (process : Process) (lawful : AreLawful process.primitives)
    (memory : HasMemory process.memory) (s : Storage W E) (keeps : KeepsKeys s)
    (protector : Protector) (protector_key : Key) (unlocked : protector.key ≡ some protector_key)
    (long : length (data_of protector_key) ≡ 32) (w : W) where
  finished_opened :
      (policy : Policy) (key : Key) (out : Step W E)
      → add_protector process s policy protector w ≡ out
      → policy.key ≡ some key
      → policy.fields.wrapped_policy_keys ≡ []
      → IsBytes (data_of key)
      → length (data_of key) ≡ 64
      → OpenedBy E process protector {K = K} (finish out)
  finished_opened policy key (w', (p, err e)) q has empty bytes size = tt
  finished_opened policy key (w', (p, ok u)) q has empty bytes size =
      let result = add_protector process s policy protector w in
      let fine : result.1.1 ≡ ok tt = ap (λ (o : Step W E). o.1.1) q in
      let same : result.1.0 ≡ p = ap (λ (o : Step W E). o.1.0) q in
      elim (add_protector_cases process s keeps policy protector w) [
        | inl (mem, unchanged) ↦ absurd (ground (arith, fine, ap (λ r. r.1.1) unchanged))
        | inr (inl (absent, locks, unchanged)) ↦
            absurd (ground (arith, fine, ap (λ r. r.1.1) unchanged))
        | inr (inr (absent, k, k', ek, er, (kept, inl (error, failed, _)))) ↦
            absurd (ground (arith, fine, failed))
        | inr (inr (absent, k, k', ek, er, (kept, inr (wrapped, ok', wrapping, added)))) ↦
            subst (λ (x : Policy). IsOpened E process protector x) same
              (record {
                only = ap (λ ks. map (λ x. x.protector_descriptor) ks) added ∙ rw empty refl;
                unlocked = (
                  key,
                  kept ∙ has,
                  size,
                  add-unlock process s keeps lawful memory policy protector w key protector_key has
                      unlocked bytes long fine,
                );
              })
      ]

  owned_opened :
      (ctx : Context) (options : EncryptionOptions) (key : Key) (d : Bytes)
      (r : Result (ActionError E) (Option User))
      → IsBytes (data_of key)
      → length (data_of key) ≡ 64
      → OpenedBy E process protector {K = K} (with_owner process s protector w ctx options key d r)
  owned_opened ctx options key d (err e) bytes size = tt
  owned_opened ctx options key d (ok owner) bytes size =
      finished_opened _ key _ refl refl refl bytes size

  described_opened :
      (ctx : Context) (options : EncryptionOptions) (key : Key) (r : Result DescriptorError Bytes)
      → IsBytes (data_of key)
      → length (data_of key) ≡ 64
      → OpenedBy E process protector {K = K}
          (with_descriptor process s protector w ctx options key r)
  described_opened ctx options key (err e) bytes size = tt
  described_opened ctx options key (ok d) bytes size =
      owned_opened ctx options key d (get_owner_of_metadata_for_protector process protector) bytes
        size

  optioned_opened :
      (ctx : Context) (key : Key) (o : Option EncryptionOptions)
      → IsBytes (data_of key)
      → length (data_of key) ≡ 64
      → OpenedBy E process protector {K = K} (with_options process s protector w ctx key o)
  optioned_opened ctx key none bytes size = tt
  optioned_opened ctx key (some options) bytes size =
      described_opened ctx options key
        (compute_key_descriptor process.hashes key options.policy_version) bytes size

  keyed_opened :
      (ctx : Context) (r : Result CryptoError Key)
      → new_random_key process.primitives process.memory 64 ≡ r
      → OpenedBy E process protector {K = K} (with_key process s protector w ctx r)
  keyed_opened ctx (err e) q = tt
  keyed_opened ctx (ok key) q =
      optioned_opened ctx key ctx.config.options
        (new_random_key-IsBytes process.primitives lawful process.memory 63 key q)
        (new_random_key_size process.primitives process.memory 63 key q)

  checked_opened :
      (r : Context × Result (OpError E K) (Unit {0}))
      → OpenedBy E process protector (context_checked process s protector w r)
  checked_opened (ctx, err e) = tt
  checked_opened (ctx, ok u) =
      keyed_opened ctx (new_random_key process.primitives process.memory 64) refl

  -- A policy that CreatePolicy returns for an unlocked protector, whose key has 32 bytes, is
  -- protected by this protector alone and unlocked with a key of 64 bytes; and after a Lock the
  -- protector unlocks it again, to the bytes of this key. The primitives are as documented, there
  -- is memory, and the storage leaves the keys of a policy alone.
  pub create_policy_opened :
      (names : EnumNames) (ret : Retrieval W E) (ctx : Context)
      → OpenedBy E process protector {K = K} (create_policy process s protector w names ret ctx)
  unfolding create_policy
  create_policy_opened names ret ctx = checked_opened (check_context names ret ctx w)
