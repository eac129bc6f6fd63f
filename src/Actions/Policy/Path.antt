-- ===== src/Actions/Policy/Path.antt =====
-- actions/policy.go: GetPolicyFromPath and Apply, over metadata/policy.go and keyring/keyring.go.
-- filesystem/filesystem.go: EncryptionSupportError.
pub mod Agrees
pub mod Found
use fscrypt.Common.{
  ◌==◌, ◌&&◌, not, eq_ℤ, Bool, true, false, [], Option, none, some, Bytes, bytes_eq, if◌then◌else◌,
  Result, ok, err,
}
use fscrypt.Metadata.Types.{EncryptionOptions, PolicyData}
use fscrypt.Metadata.Checks.{EnumNames}
use fscrypt.Metadata.Ioctl as Ioctl
use fscrypt.Metadata.Ioctl.{Errno, PolicyError, open_error}
use fscrypt.Metadata.Setting.{set_policy}
use fscrypt.Keyring.Types as Keyring
use fscrypt.Keyring.Dispatch.{is_fs_keyring_supported}
use fscrypt.Actions.Types.{Mount, Context, Policy}
use fscrypt.Actions.Context.{Retrieval, OpError, storage_failed, check_context}

pub data SupportError : Type 0 where
  encryption_not_enabled encryption_not_supported : Mount → SupportError
  unchanged : PolicyError → SupportError

-- EncryptionSupportError
unfoldable pub encryption_support_error : Mount → PolicyError → SupportError
encryption_support_error m PolicyError.not_enabled = encryption_not_enabled m
encryption_support_error m PolicyError.not_supported = encryption_not_supported m
encryption_support_error m e = unchanged e

-- os.IsPermission looks through a PathError, which os.Open returns, and through no other error.
abbrev pub is_permission : SupportError → Bool
is_permission (unchanged (open_error Errno.eacces)) = true
is_permission (unchanged (open_error (Errno.other n))) = n == 1
is_permission e = false

pub data PathError (E K : Type 0) : Type 0 where
  context_failed : OpError E K → PathError E K
  support_error : SupportError → PathError E K
  access_denied_possibly_v2 : Bytes → PathError E K
  missing_policy_metadata : Mount → Bytes → Bytes → PathError E K
  policy_metadata_mismatch : Bytes → Mount → PolicyData → PolicyData → PathError E K
  find_failed : E → PathError E K
  different_filesystem : Mount → Mount → PathError E K

-- proto.Equal on EncryptionOptions.
abbrev pub eq_options : Option EncryptionOptions → Option EncryptionOptions → Bool
eq_options none none = true
eq_options (some a) (some b) =
    eq_ℤ a.padding b.padding
    && eq_ℤ a.contents b.contents
    && eq_ℤ a.filenames b.filenames
    && eq_ℤ a.policy_version b.policy_version
eq_options _ _ = false

-- What the functions of a path use: unix.Access for reading, filesystem.FindMount, and the test
-- for an ErrPolicyNotFound.
pub record Paths (E : Type 0) : Type 0 where
  pub have_read_access_to : Bytes → Bool
  pub find_mount : Bytes → Result E Mount
  pub is_policy_not_found : E → Bool

module _ {W E K J : Type 0} (names : EnumNames) (ret : Retrieval W E) (paths : Paths E)
    (rings : Keyring.Kernel J) (w : W) (path : Bytes) where
  abbrev pub compared : Context → PolicyData → PolicyData → Result (PathError E K) Policy
  compared ctx path_data mount_data =
      if not (eq_options path_data.options mount_data.options)
      then err (policy_metadata_mismatch path ctx.mount path_data mount_data)
      else if not (bytes_eq path_data.key_descriptor mount_data.key_descriptor)
      then err (policy_metadata_mismatch path ctx.mount path_data mount_data)
      else ok (record {
        context = ctx;
        fields = mount_data;
        key = none;
        created = false;
        owner_if_creating = none;
        new_linked_protectors = [];
      })

  abbrev pub with_metadata :
      Context → PolicyData → Result E PolicyData → Result (PathError E K) Policy
  with_metadata ctx path_data (err e) = err (
      if paths.is_policy_not_found e
      then missing_policy_metadata ctx.mount path path_data.key_descriptor
      else context_failed (storage_failed e))
  with_metadata ctx path_data (ok mount_data) = compared ctx path_data mount_data

  abbrev pub denied :
      SupportError → Keyring.State J × Bool → Keyring.State J × Result (PathError E K) Policy
  denied e (st, true) = (st, err (support_error e))
  denied e (st, false) = (st, err (access_denied_possibly_v2 path))

  -- On kernels without v2 policies a directory with one cannot be opened.
  abbrev pub unreadable :
      Context → SupportError → Keyring.State J → Keyring.State J × Result (PathError E K) Policy
  unreadable ctx e st =
      if is_permission e && paths.have_read_access_to path
      then denied e (is_fs_keyring_supported rings ctx.mount st)
      else (st, err (support_error e))

  abbrev pub with_path_data :
      Context
      → Result PolicyError PolicyData
      → Keyring.State J
      → Keyring.State J × Result (PathError E K) Policy
  with_path_data ctx (err e) st = unreadable ctx (encryption_support_error ctx.mount e) st
  with_path_data ctx (ok path_data) st = (
    st,
    with_metadata ctx path_data
        (ret.get_policy ctx.mount path_data.key_descriptor ctx.trusted_user w),
  )

  module _ (k : Ioctl.Kernel) (kw : k.World) where
    abbrev pub context_checked :
        Context × Result (OpError E K) (Unit {0})
        → Keyring.State J
        → Keyring.State J × Result (PathError E K) Policy
    context_checked (ctx, err e) st = (st, err (context_failed e))
    context_checked (ctx, ok u) st = with_path_data ctx (Ioctl.get_policy k kw path) st

    unfoldable pub get_policy_from_path :
        Context → Keyring.State J → Keyring.State J × Result (PathError E K) Policy
    unfolding check_context is_fs_keyring_supported Ioctl.get_policy encryption_support_error
        bytes_eq
    get_policy_from_path ctx st = context_checked (check_context names ret ctx w) st

module _ {E K : Type 0} (names : EnumNames) (k : Ioctl.Kernel) (policy : Policy) where
  abbrev pub lift_support : Result PolicyError (Unit {0}) → Result (PathError E K) (Unit {0})
  lift_support (ok u) = ok u
  lift_support (err e) = err (support_error (encryption_support_error policy.context.mount e))

  abbrev pub as_applied :
      PolicyData × (k.World × Result PolicyError (Unit {0}))
      → k.World × (Policy × Result (PathError E K) (Unit {0}))
  as_applied (fields, (kw, r)) = (kw, (record policy { fields = fields }, lift_support r))

  abbrev pub on_mount :
      Bytes → k.World → Result E Mount → k.World × (Policy × Result (PathError E K) (Unit {0}))
  on_mount path kw (err e) = (kw, (policy, err (find_failed e)))
  on_mount path kw (ok path_mount) =
      if path_mount == policy.context.mount
      then as_applied (set_policy k names kw path policy.fields)
      else (kw, (policy, err (different_filesystem policy.context.mount path_mount)))

  -- Apply: the check of the policy may set its version.
  unfoldable pub apply :
      Paths E → k.World → Bytes → k.World × (Policy × Result (PathError E K) (Unit {0}))
  unfolding set_policy encryption_support_error
  apply paths kw path = on_mount path kw (paths.find_mount path)
