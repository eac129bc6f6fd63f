-- ===== src/Tests/Samples.antt =====
-- Libraries, kernels and structures that the tests share.
use fscrypt.Common.{
  ℕ, zero, suc, ◌<◌, ◌≡◌, refl, pos, true, false, [], ◌∷◌, ◌++◌, none, some, Bytes, codes, IsBytes,
  length, replicate, length-replicate, length-append, take, length-take, ok, err, arith,
}
use fscrypt.Metadata.Types.{
  HashingCosts, WrappedKeyData, ProtectorData, EncryptionOptions, WrappedPolicyKey, PolicyData,
  Config,
}
use fscrypt.Metadata.Source
use fscrypt.Metadata.Checks.{EnumNames}
use fscrypt.Crypto.Key.{Memory, Key}
use fscrypt.Crypto.Key.Buffer.{HasMemory}
use fscrypt.Crypto.Wrap.{Primitives}
use fscrypt.Crypto.Wrap.RoundTrip as Wrapping
use fscrypt.Crypto.Derive.{Hashes}
use fscrypt.Crypto.Derive.Accepted as Deriving
use fscrypt.Actions.Callback.{KeyFunc}
use fscrypt.Actions.Context.{Retrieval}
use fscrypt.Actions.Policy.Removal.{KeepsKeys}
use fscrypt.Actions.Types.{Context, Protector, Policy, Storage, Process}

abbrev pub memory : Memory
memory = record { mmap_error = λ n. none }

pub memory-HasMemory : HasMemory memory
memory-HasMemory n = refl

-- Primitives that depend on their input, and deliver the right lengths.
abbrev pub primitives : Primitives
primitives = record {
  hkdf = λ key n. take n (key ++ replicate n 3);
  key_stream = λ key iv n. replicate n 5;
  hmac = λ key text. replicate 32 (length text);
  random = λ n. some (replicate n 9);
}

IsBytes-replicate : (n a : ℕ) → a < 256 → IsBytes (replicate n a)
IsBytes-replicate zero a h = tt
IsBytes-replicate (suc n) a h = (h, IsBytes-replicate n a h)

pub primitives-AreLawful : Wrapping.AreLawful primitives
primitives-AreLawful = record {
  hkdf_length = λ key.
      length-take 64 (key ++ replicate 64 3)
        (omega (arith, length-append key (replicate 64 3), length-replicate {A = ℕ} 64 3));
  stream_length = λ key iv n. length-replicate n 5;
  stream_bytes = λ key iv n. IsBytes-replicate n 5 (omega arith);
  hmac_length = λ key text. length-replicate 32 (length text);
  random_length = λ n b e. given n b e;
  random_bytes = λ n b e. given_bytes n b e;
}
  where
    given : (n : ℕ) (b : Bytes) → some (replicate n 9) ≡ some b → length b ≡ n
    given n b e = let same : replicate n 9 ≡ b = ground arith in rw (← same) (length-replicate n 9)

    given_bytes : (n : ℕ) (b : Bytes) → some (replicate n 9) ≡ some b → IsBytes b
    given_bytes n b e =
        let same : replicate n 9 ≡ b = ground arith in
        rw (← same) (IsBytes-replicate n 9 (omega arith))

abbrev pub hashes : Hashes
hashes = record {
  sha512 = λ text. replicate 64 (length text);
  hkdf_sha512 = λ key info n. some (replicate n (length info));
  argon2 = λ passphrase salt t m p n. some (replicate n t);
}

pub hashes-AreLawful : Deriving.AreLawful hashes
hashes-AreLawful = record {
  sha512_length = λ text. length-replicate 64 (length text);
  hkdf_length = λ key info. (replicate 16 (length info), refl, length-replicate 16 (length info));
  argon2_length = λ passphrase salt t m p n ht hp. (replicate n t, refl, length-replicate n t);
}

abbrev pub process : Process
process = record {
  primitives = primitives;
  hashes = hashes;
  memory = memory;
  is_user_root = true;
  user_from_uid = λ uid. some 1000;
}

abbrev pub names : EnumNames
names = record { mode_string = λ m. codes "AES"; source_string = λ s. codes "raw_key" }

abbrev pub options : EncryptionOptions
options = record { padding = pos 32; contents = pos 1; filenames = pos 4; policy_version = pos 2 }

abbrev pub costs : HashingCosts
costs = record { time = pos 3; memory = pos 1024; parallelism = pos 4; truncation_fixed = true }

abbrev pub config : Config
config = record {
  source = Source.custom_passphrase;
  hash_costs = some costs;
  options = some options;
  use_fs_keyring_for_v1_policies = false;
  allow_cross_user_metadata = false;
}

abbrev pub wrapped_key : WrappedKeyData
wrapped_key = record { iv = replicate 16 1; encrypted_key = replicate 64 2; hmac = replicate 32 3 }

abbrev pub slot : Bytes → WrappedPolicyKey
slot d = record { protector_descriptor = d; wrapped_key = some wrapped_key }

abbrev pub first_descriptor : Bytes
first_descriptor = codes "0123456789abcdef"

abbrev pub second_descriptor : Bytes
second_descriptor = codes "fedcba9876543210"

abbrev pub policy_descriptor : Bytes
policy_descriptor = codes "00112233445566778899aabbccddeeff"

abbrev pub policy_data : PolicyData
policy_data = record {
  key_descriptor = policy_descriptor;
  options = some options;
  wrapped_policy_keys = slot first_descriptor ∷ slot second_descriptor ∷ [];
}

abbrev pub context : Context
context = record { config = config; mount = 1; target_user = 1000; trusted_user = none }

abbrev pub key_of : Bytes → Key
key_of bytes = record { buffer = some bytes }

abbrev pub policy_key : Key
policy_key = key_of (replicate 64 7)

abbrev pub policy : Policy
policy = record {
  context = context;
  fields = policy_data;
  key = some policy_key;
  created = true;
  owner_if_creating = none;
  new_linked_protectors = [];
}

abbrev pub protector_data : ProtectorData
protector_data = record {
  protector_descriptor = codes "aaaaaaaaaaaaaaaa";
  source = Source.raw_key;
  name = codes "key";
  costs = none;
  salt = [];
  uid = pos 0;
  wrapped_key = some wrapped_key;
}

abbrev pub protector : Protector
protector = record {
  context = record context { mount = 2 };
  fields = protector_data;
  key = some (key_of (replicate 32 8));
  created = false;
  owner_if_creating = none;
}

-- A storage that counts its calls, and one that refuses every policy.
abbrev pub storage : Storage ℕ ℕ
storage = record {
  add_policy = λ m fields owner w. (suc w, (fields, ok tt));
  remove_policy = λ m d w. (suc w, ok tt);
  add_protector = λ m fields owner w. (suc w, ok tt);
  remove_protector = λ m d w. (suc w, ok tt);
  add_linked_protector = λ m d dest trusted owner w. (suc w, ok true);
}

abbrev pub full_storage : Storage ℕ ℕ
full_storage = record storage { add_policy = λ m fields owner w. (w, (fields, err 28)) }

pub storage-KeepsKeys : KeepsKeys storage
storage-KeepsKeys m fields owner w = refl

-- A filesystem with one protector and one policy.
abbrev pub retrieval : Retrieval ℕ ℕ
retrieval = record {
  check_setup = λ m trusted w. ok tt;
  get_regular_protector = λ m d trusted w. ok protector_data;
  get_protector = λ m d trusted w. ok (2, protector_data);
  list_protectors = λ m trusted w. ok (first_descriptor ∷ []);
  get_policy = λ m d trusted w. ok policy_data;
  list_policies = λ m trusted w. ok (policy_descriptor ∷ []);
}

-- A callback that always gives the same key.
abbrev pub same_key : KeyFunc ℕ ℕ
same_key info retry st = (suc st, ok (key_of (replicate 32 6)))
