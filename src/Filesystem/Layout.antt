-- ===== src/Filesystem/Layout.antt =====
-- What the operations on policies and protectors share: the directories, the mounts, and protobuf.
use fscrypt.Common.{◌≡◌, refl, sym, ◌∙◌, Option, Bytes, Result, ok, err, arith}
use fscrypt.Metadata.Types.{PolicyData, ProtectorData}
use fscrypt.Metadata.Checks.{EnumNames, check_protector}
use fscrypt.Metadata.Checks.Whole.{check_policy}
use fscrypt.Actions.Types.{Mount, User}
use fscrypt.Filesystem.MountInfo as MountInfo
use fscrypt.Filesystem.Link.{Lookups}
use fscrypt.Filesystem.Store.{SetupError, StoreError, setup}
use fscrypt.Filesystem.Setup.{Tree, check_setup}
use fscrypt.Filesystem.Records.{Format}

-- A mount is a pointer, its number; `mount_of` is what it points to. The UUID of its filesystem is
-- what getFilesystemUUID finds.
pub record Layout : Type 0 where
  pub tree : Tree
  pub mount_of : Mount → MountInfo.Mount
  pub lookups : Lookups Mount
  pub uuid_of : Mount → Option Bytes
  pub names : EnumNames
  pub marshal_policy : PolicyData → Option Bytes
  pub unmarshal_policy : Bytes → Option PolicyData
  pub marshal_protector : ProtectorData → Option Bytes
  pub unmarshal_protector : Bytes → Option ProtectorData

abbrev pub policy_format : Layout → Format PolicyData
policy_format l = record {
  marshal = l.marshal_policy;
  unmarshal = l.unmarshal_policy;
  check = λ p. check_policy l.names p;
}

abbrev pub protector_format : Layout → Format ProtectorData
protector_format l = record {
  marshal = l.marshal_protector;
  unmarshal = l.unmarshal_protector;
  check = λ p. (p, check_protector l.names p);
}

abbrev pub setup_of : Layout → Mount → Option User → Result SetupError (Unit {0})
setup_of l m trusted = check_setup l.tree (l.mount_of m) trusted

-- An operation that begins with CheckSetup and returns its error.
abbrev pub guarded : {B : Type 0} → Result SetupError (Unit {0}) → (StoreError → B) → B → B
guarded (err e) fail next = fail (setup e)
guarded (ok u) fail next = next

pub guarded_elim :
    {B : Type 0} (P : B → Type 0) (c : Result SetupError (Unit {0})) (fail : StoreError → B)
    (next : B)
    → ((e : StoreError) → P (fail e))
    → P next
    → P (guarded c fail next)
guarded_elim P (err e) fail next failed done = failed (setup e)
guarded_elim P (ok u) fail next failed done = done

-- If the whole succeeds, then so did CheckSetup.
pub guarded_passed :
    {B X : Type 0} (out : B → Result StoreError X) (c : Result SetupError (Unit {0}))
    (fail : StoreError → B) (next : B) (x : X)
    → ((e : StoreError) → out (fail e) ≡ err e)
    → out (guarded c fail next) ≡ ok x
    → guarded c fail next ≡ next
guarded_passed out (err e) fail next x fails h =
    let bad : err (setup e) ≡ ok x = sym (fails (setup e)) ∙ h in absurd (ground (arith, bad))
guarded_passed out (ok u) fail next x fails h = refl

pub guarded_set_up :
    {B X : Type 0} (out : B → Result StoreError X) (c : Result SetupError (Unit {0}))
    (fail : StoreError → B) (next : B) (x : X)
    → ((e : StoreError) → out (fail e) ≡ err e)
    → out (guarded c fail next) ≡ ok x
    → c ≡ ok tt
guarded_set_up out (err e) fail next x fails h =
    let bad : err (setup e) ≡ ok x = sym (fails (setup e)) ∙ h in absurd (ground (arith, bad))
guarded_set_up out (ok u) fail next x fails h = refl

-- What the whole returns with success, the part behind CheckSetup returns.
pub guarded_inner :
    {X : Type 0} (c : Result SetupError (Unit {0})) (next : Result StoreError X) (x : X)
    → guarded c (λ e. err e) next ≡ ok x
    → next ≡ ok x
guarded_inner (err e) next x h = absurd (ground (arith, h))
guarded_inner (ok u) next x h = h
