-- ===== src/Filesystem/Store.antt =====
-- filesystem/filesystem.go: the metadata files: how they are written, read and removed.
pub mod Atomic
pub mod Reading
use fscrypt.Common.{
  ℕ, ◌+◌, Bool, true, false, not, List, [], ◌∷◌, Option, none, some, Bytes, bytes_eq, leb, length,
  take, ◌==◌, ◌||◌, if◌then◌else◌, Result, ok, err,
}
use fscrypt.Actions.Types.{Mount, User}
use fscrypt.Filesystem.Link.{FollowError}

-- What Lstat and Stat show of a file, and its content.
pub record File : Type 0 where
  pub is_regular : Bool
  pub uid : User
  pub mode : ℕ
  pub content : Bytes

-- All files, by path.
abbrev pub Files : Type 0
Files = List (Bytes × File)

unfoldable pub find_file : Bytes → Files → Option File
find_file path [] = none
find_file path ((p, file) ∷ files) = if bytes_eq p path then some file else find_file path files

unfoldable pub delete_file : Bytes → Files → Files
delete_file path [] = []
delete_file path ((p, file) ∷ files) =
    let rest = delete_file path files in if bytes_eq p path then rest else (p, file) ∷ rest

abbrev pub put_file : Bytes → File → Files → Files
put_file path file files = (path, file) ∷ delete_file path files

-- The system calls of this file that can fail at a path.
pub data Call : Type 0 where
  create_temp chmod_temp chown_temp write_temp sync_temp close_temp rename_temp sync_directory :
      Call
  open_existing write_existing sync_existing close_existing : Call
  open_file stat_file clear_nonblock read_file lstat stat remove : Call

pub data SetupError : Type 0 where
  not_set_up mount_owned_by_another_user set_up_by_another_user : SetupError
  insecure_permissions : Bytes → SetupError

pub data StoreError : Type 0 where
  system : ℕ → StoreError
  not_exist no_create_permission : Bytes → StoreError
  not_regular other_owner too_large corrupt : Bytes → StoreError
  invalid_metadata cannot_marshal : StoreError
  setup : SetupError → StoreError
  policy_not_found protector_not_found linked_protector : Bytes → StoreError
  bad_link : Bytes → FollowError → StoreError
  link_points_elsewhere : Bytes → Mount → Mount → StoreError
  cannot_follow : Bytes → StoreError → StoreError

-- The system: the errno with which a call at a path fails, what a failed write leaves of the data,
-- the effective UID, and the UIDs that have a user.
pub record System : Type 0 where
  pub fails : Call → Bytes → Option ℕ
  pub written_part : Bytes → Bytes
  pub euid : User
  pub has_user : User → Bool

abbrev pub enoent : ℕ
enoent = 2

-- os.IsPermission
abbrev pub is_permission : ℕ → Bool
is_permission errno = errno == 1 || errno == 13

-- The first call of a sequence that fails.
abbrev pub first_failure : System → Bytes → List Call → Option ℕ
first_failure s path [] = none
first_failure s path (c ∷ cs) = elim (s.fails c path) [
  | some errno ↦ some errno
  | none ↦ first_failure s path cs
]

-- What a sequence of calls on an open file ends with.
abbrev pub ended : Files → Option ℕ → Files × Result StoreError (Unit {0})
ended files none = (files, ok tt)
ended files (some errno) = (files, err (system errno))

-- The file is truncated when it is opened.
abbrev pub overwritten :
    System → Bytes → Bytes → Files → File → Option ℕ → Files × Result StoreError (Unit {0})
overwritten s path new files old (some errno) =
    (put_file path (record old { content = s.written_part new }) files, err (system errno))
overwritten s path new files old none =
    ended (put_file path (record old { content = new }) files)
      (first_failure s path (sync_existing ∷ close_existing ∷ []))

abbrev pub overwrite_opened :
    System → Bytes → Bytes → Files → File → Option ℕ → Files × Result StoreError (Unit {0})
overwrite_opened s path new files old (some errno) = (files, err (system errno))
overwrite_opened s path new files old none =
    overwritten s path new files old (s.fails write_existing path)

abbrev pub overwrite_found :
    System → Bytes → Bytes → Files → Option File → Files × Result StoreError (Unit {0})
overwrite_found s path new files none = (files, err (not_exist path))
overwrite_found s path new files (some old) =
    overwrite_opened s path new files old (s.fails open_existing path)

unfoldable pub overwrite_data_non_atomic :
    System → Bytes → Bytes → Files → Files × Result StoreError (Unit {0})
unfolding find_file delete_file
overwrite_data_non_atomic s path new files = overwrite_found s path new files (find_file path files)

-- os.Lstat
abbrev pub lstat_file : System → Bytes → Files → Option File
lstat_file s path files = elim (s.fails lstat path) [
  | some errno ↦ none
  | none ↦ find_file path files
]

-- CreateTemp failed: a file that is there is overwritten if only its directory may not be written.
abbrev pub without_temp :
    System → Bytes → Bytes → Files → ℕ → Option File → Files × Result StoreError (Unit {0})
without_temp s path new files errno existing =
    if is_permission errno
    then elim existing [
      | none ↦ (files, err (no_create_permission path))
      | some file ↦ overwrite_data_non_atomic s path new files
    ]
    else (files, err (system errno))

abbrev pub owner_or_self : System → Option User → User
owner_or_self s (some owner) = owner
owner_or_self s none = s.euid

-- Chown is called only for an owner.
abbrev pub temp_calls : Option User → List Call
temp_calls (some owner) =
    chmod_temp ∷ chown_temp ∷ write_temp ∷ sync_temp ∷ close_temp ∷ rename_temp ∷ []
temp_calls none = chmod_temp ∷ write_temp ∷ sync_temp ∷ close_temp ∷ rename_temp ∷ []

-- The temporary file is renamed over the path, or removed.
abbrev pub renamed : System → Bytes → File → Files → Option ℕ → Files × Result StoreError (Unit {0})
renamed s path file files (some errno) = (files, err (system errno))
renamed s path file files none = ended (put_file path file files) (s.fails sync_directory path)

abbrev pub after_create :
    System
    → Bytes
    → Bytes
    → Option User
    → ℕ
    → Files
    → Option ℕ
    → Files × Result StoreError (Unit {0})
after_create s path new owner mode files (some errno) =
    without_temp s path new files errno (lstat_file s path files)
after_create s path new owner mode files none =
    renamed s path
      (record { is_regular = true; uid = owner_or_self s owner; mode = mode; content = new }) files
      (first_failure s path (temp_calls owner))

unfoldable pub write_data :
    System → Bytes → Bytes → Option User → ℕ → Files → Files × Result StoreError (Unit {0})
unfolding overwrite_data_non_atomic find_file delete_file
write_data s path new owner mode files =
    after_create s path new owner mode files (s.fails create_temp path)

abbrev pub max_metadata_file_size : ℕ
max_metadata_file_size = 16384

-- checkOwnership
abbrev pub check_ownership : User → Option User → Bool
check_ownership actual none = true
check_ownership actual (some trusted) = actual == 0 || actual == trusted

-- At most one byte more than the limit is read.
abbrev pub limited : Bytes → User → Bytes → Result StoreError (Bytes × User)
limited path uid read =
    if length read == max_metadata_file_size + 1 then err (too_large path) else ok (read, uid)

abbrev pub read_content : Bytes → File → Option ℕ → Result StoreError (Bytes × User)
read_content path file (some errno) = err (system errno)
read_content path file none = limited path file.uid (take (max_metadata_file_size + 1) file.content)

abbrev pub checked_content : System → Bytes → Option User → File → Result StoreError (Bytes × User)
checked_content s path trusted file =
    if not file.is_regular
    then err (not_regular path)
    else if not (check_ownership file.uid trusted)
    then err (other_owner path)
    else read_content path file (first_failure s path (clear_nonblock ∷ read_file ∷ []))

abbrev pub checked_open :
    System → Bytes → Option User → File → Option ℕ → Result StoreError (Bytes × User)
checked_open s path trusted file (some errno) = err (system errno)
checked_open s path trusted file none = checked_content s path trusted file

abbrev pub opened : System → Bytes → Option User → Option File → Result StoreError (Bytes × User)
opened s path trusted none = err (not_exist path)
opened s path trusted (some file) =
    checked_open s path trusted file (first_failure s path (open_file ∷ stat_file ∷ []))

unfoldable pub read_metadata_file_safe :
    System → Bytes → Option User → Files → Result StoreError (Bytes × User)
unfolding find_file
read_metadata_file_safe s path trusted files = opened s path trusted (find_file path files)
