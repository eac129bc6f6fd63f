-- ===== src/Actions/Types.antt =====
-- The structures of actions/policy.go, protector.go and context.go, and the interface to the storage.
use fscrypt.Common.{ℕ, ℤ, Bool, List, Option, Bytes, Result}
use fscrypt.Metadata.Types.{Config, ProtectorData, PolicyData}
use fscrypt.Crypto.Key.{Key, Memory}
use fscrypt.Crypto.Wrap.{Primitives, CryptoError}
use fscrypt.Crypto.Derive.{Hashes}

-- A *filesystem.Mount is one pointer for each mount: its number. A user is a uid.
abbrev pub Mount : Type 0
Mount = ℕ

abbrev pub User : Type 0
User = ℕ

pub record Context : Type 0 where
  pub config : Config
  pub mount : Mount
  pub target_user : User
  pub trusted_user : Option User

pub record Protector : Type 0 where
  pub context : Context
  pub fields : ProtectorData
  pub key : Option Key
  pub created : Bool
  pub owner_if_creating : Option User

pub record Policy : Type 0 where
  pub context : Context
  pub fields : PolicyData
  pub key : Option Key
  pub created : Bool
  pub owner_if_creating : Option User
  pub new_linked_protectors : List Bytes

-- `E` is the type of the errors of the storage.
pub data ActionError (E : Type 0) : Type 0 where
  locked : ActionError E
  already_protected : Bytes → Bytes → ActionError E
  not_protected : Bytes → Bytes → ActionError E
  only_protector : Bytes → ActionError E
  unknown_user : ℤ → ActionError E
  storage : E → ActionError E
  crypto : CryptoError → ActionError E
  panic : ActionError E

-- The methods of filesystem.Mount that the actions call. `W` is the state of all filesystems.
-- AddPolicy and AddProtector check the structure that they are given, and the check of a policy may
-- set its version: the structure comes back.
pub record Storage (W E : Type 0) : Type 0 where
  pub add_policy : Mount → PolicyData → Option User → W → W × (PolicyData × Result E (Unit {0}))
  pub remove_policy : Mount → Bytes → W → W × Result E (Unit {0})
  pub add_protector : Mount → ProtectorData → Option User → W → W × Result E (Unit {0})
  pub remove_protector : Mount → Bytes → W → W × Result E (Unit {0})
  pub add_linked_protector :
      Mount → Bytes → Mount → Option User → Option User → W → W × Result E Bool

-- The process: its libraries, and the users that it knows.
pub record Process : Type 0 where
  pub primitives : Primitives
  pub hashes : Hashes
  pub memory : Memory
  pub is_user_root : Bool
  pub user_from_uid : ℤ → Option User
