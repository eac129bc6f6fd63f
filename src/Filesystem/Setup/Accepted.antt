-- ===== src/Filesystem/Setup/Accepted.antt =====
-- What CheckSetup accepts.
use fscrypt.Common.{◌≡◌, ◌↔◌, refl, true, false, [], ◌∷◌, Option, none, some, Bytes, ok, arith}
use fscrypt.Actions.Types.{User}
use fscrypt.Filesystem.MountInfo.{Mount}
use fscrypt.Filesystem.Store.Reading.{IsTrusted, check_ownership_iff}
use fscrypt.Filesystem.Setup.{
  Info, Tree, base_dir, protector_dir, policy_dir, is_fscrypt_setup_allowed, is_world_writable,
  check_subdir, check_subdirs, check_setup,
}

-- A directory for policies or protectors: not a symbolic link, in the right hands, and writable by
-- everybody only with the sticky bit.
pub record IsGoodSubdir (t : Tree) (trusted : Option User) (path : Bytes) : Type 0 where
  pub info : Info
  pub here : t.lstat path ≡ some info
  pub no_symlink : info.is_symlink ≡ false
  pub directory : info.is_dir ≡ true
  pub sticky : is_world_writable info ≡ true → info.is_sticky ≡ true
  pub owned : IsTrusted info.uid trusted

-- A filesystem that is set up. Only the base directory may be a symbolic link.
pub record IsSetUp (t : Tree) (m : Mount) (trusted : Option User) : Type 0 where
  pub allowed : is_fscrypt_setup_allowed m ≡ true
  pub mountpoint : Info
  pub mounted : t.lstat m.path ≡ some mountpoint
  pub no_symlink : mountpoint.is_symlink ≡ false
  pub directory : mountpoint.is_dir ≡ true
  pub owned : IsTrusted mountpoint.uid trusted
  pub base : Info
  pub based : t.stat (base_dir t m) ≡ some base
  pub base_directory : base.is_dir ≡ true
  pub base_owned : IsTrusted base.uid trusted
  pub policies : IsGoodSubdir t trusted (policy_dir t m)
  pub protectors : IsGoodSubdir t trusted (protector_dir t m)

module _ (t : Tree) (trusted : Option User) where
  info_sound :
      (path : Bytes) (o : Option Info)
      → t.lstat path ≡ o
      → check_subdir t trusted path ≡ ok tt
      → IsGoodSubdir t trusted path
  unfolding check_subdir
  info_sound path none e h = absurd (ground (arith, e, h))
  info_sound path (some i) e h = record {
    info = i;
    here = e;
    no_symlink = ground (arith, e, h);
    directory = ground (arith, e, h);
    sticky = ground (arith, e, h);
    owned = (check_ownership_iff i.uid trusted).0 (ground (arith, e, h));
  }

  info_complete : (path : Bytes) → IsGoodSubdir t trusted path → check_subdir t trusted path ≡ ok tt
  unfolding check_subdir
  info_complete path g =
      let owned = (check_ownership_iff g.info.uid trusted).1 g.owned in
      rw (g.here, g.no_symlink, g.directory, owned) (ground (arith, g.sticky))

  both_dirs :
      (a b : Bytes)
      → (check_subdirs t trusted (a ∷ b ∷ []) ≡ ok tt)
        ↔ ((check_subdir t trusted a ≡ ok tt) × (check_subdir t trusted b ≡ ok tt))
  unfolding check_subdirs
  both_dirs a b = ground arith

  setup_sound :
      (m : Mount) (o p : Option Info)
      → t.lstat m.path ≡ o
      → t.stat (base_dir t m) ≡ p
      → check_setup t m trusted ≡ ok tt
      → IsSetUp t m trusted
  unfolding check_setup
  setup_sound m none p e f h = absurd (ground (arith, e, h))
  setup_sound m (some i) none e f h = absurd (ground (arith, e, f, h))
  setup_sound m (some i) (some b) e f h =
      let both = both_dirs (policy_dir t m) (protector_dir t m) in
      let (first, second) = both.0 (ground (arith, e, f, h)) in
      record {
        allowed = ground (arith, e, f, h);
        mountpoint = i;
        mounted = e;
        no_symlink = ground (arith, e, f, h);
        directory = ground (arith, e, f, h);
        owned = (check_ownership_iff i.uid trusted).0 (ground (arith, e, f, h));
        base = b;
        based = f;
        base_directory = ground (arith, e, f, h);
        base_owned = (check_ownership_iff b.uid trusted).0 (ground (arith, e, f, h));
        policies = info_sound (policy_dir t m) (t.lstat (policy_dir t m)) refl first;
        protectors = info_sound (protector_dir t m) (t.lstat (protector_dir t m)) refl second;
      }

  setup_complete : (m : Mount) → IsSetUp t m trusted → check_setup t m trusted ≡ ok tt
  unfolding check_setup
  setup_complete m g =
      let owned = (check_ownership_iff g.mountpoint.uid trusted).1 g.owned in
      let base_owned = (check_ownership_iff g.base.uid trusted).1 g.base_owned in
      let both = both_dirs (policy_dir t m) (protector_dir t m) in
      rw
        (
          g.allowed, g.mounted, g.no_symlink, g.directory, owned, g.based, g.base_directory,
          base_owned,
        )
        (both.1 (
          info_complete (policy_dir t m) g.policies,
          info_complete (protector_dir t m) g.protectors,
        ))

  -- CheckSetup succeeds exactly on a filesystem of an allowed type or at "/", whose mountpoint is a
  -- directory and no symbolic link, whose base directory is a directory, perhaps through a symbolic
  -- link, and whose two subdirectories are directories, no symbolic links, and writable by everybody
  -- only with the sticky bit; all four belong to root or to the trusted user, if one is given.
  pub check_setup_iff : (m : Mount) → (check_setup t m trusted ≡ ok tt) ↔ IsSetUp t m trusted
  check_setup_iff m =
      (setup_sound m (t.lstat m.path) (t.stat (base_dir t m)) refl refl, setup_complete m)
