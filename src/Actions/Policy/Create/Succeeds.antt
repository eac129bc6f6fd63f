-- ===== src/Actions/Policy/Create/Succeeds.antt =====
-- When CreatePolicy succeeds.
use fscrypt.Common.{ℕ, ◌≡◌, true, [], Option, some, Bytes, length, Result, ok, err}
use fscrypt.Metadata.Types.{EncryptionOptions, PolicyData, WrappedKeyData}
use fscrypt.Crypto.Key.{Key, data_of}
use fscrypt.Crypto.Key.Buffer.{HasMemory}
use fscrypt.Crypto.Wrap.{Primitives}
use fscrypt.Crypto.Wrap.RoundTrip as Wrapping
use fscrypt.Crypto.Derive.Accepted as Deriving
use fscrypt.Actions.Types.{User, Context, Protector, Policy, Storage, Process}
use fscrypt.Actions.Context.{OpError}
use fscrypt.Actions.Policy.{add_key}

-- The result is no error.
abbrev pub IsMade : {W E K : Type 0} → W × Result (OpError E K) Policy → Type 0
IsMade (w, ok policy) = Unit
IsMade (w, err e) = ⊥

-- There are random bytes.
abbrev pub HasRandom : Primitives → Type 0
HasRandom p = (n : ℕ) → (b : Bytes) × (p.random n ≡ some b)

-- AddPolicy returns no error.
abbrev pub AddsPolicies : {W E : Type 0} → Storage W E → Type 0
AddsPolicies {W} {E} s =
    (m : ℕ) (p : PolicyData) (o : Option User) (w : W) → (s.add_policy m p o w).1.1 ≡ ok tt

module _ {W E : Type 0} (K : Type 0) (process : Process)
    (wrapping : Wrapping.AreLawful process.primitives) (hashing : Deriving.AreLawful process.hashes)
    (memory : HasMemory process.memory) (random : HasRandom process.primitives) (s : Storage W E)
    (adds : AddsPolicies s) (protector : Protector) (protector_key : Key)
    (unlocked : protector.key ≡ some protector_key) (long : length (data_of protector_key) ≡ 32)
    (w : W) where
  abbrev fresh : Context → EncryptionOptions → Key → Bytes → Option User → Policy
  fresh ctx options key d owner = record {
    context = ctx;
    fields = record { key_descriptor = d; options = some options; wrapped_policy_keys = [] };
    key = some key;
    created = true;
    owner_if_creating = owner;
    new_linked_protectors = [];
  }

  abbrev with_slot : WrappedKeyData → Policy → Policy
  with_slot wrapped policy =
      add_key
        (record {
          protector_descriptor = protector.fields.protector_descriptor;
          wrapped_key = some wrapped;
        })
        policy
