-- ===== src/Filesystem/Link.antt =====
-- filesystem/mountpoint.go: the link files that lead from one filesystem to another.
pub mod RoundTrip
use fscrypt.Common.{
  ℕ, Bool, true, false, not, ◌&&◌, List, [], ◌∷◌, ◌++◌, Option, none, some, Bytes, codes, bytes_eq,
  if◌then◌else◌, Result, ok, err,
}
use fscrypt.Filesystem.Split.{split, is_space}
use fscrypt.Filesystem.MountInfo.{Mount}

abbrev pub uuid_token : Bytes
uuid_token = codes "UUID"

abbrev pub path_token : Bytes
path_token = codes "PATH"

abbrev pub equals : ℕ
equals = b'='

abbrev pub is_empty : Bytes → Bool
is_empty [] = true
is_empty (c ∷ s) = false

unfoldable pub trim_left : Bytes → Bytes
trim_left [] = []
trim_left (c ∷ s) = let rest = trim_left s in if is_space c then rest else c ∷ s

unfoldable pub trim_right : Bytes → Bytes
trim_right [] = []
trim_right (c ∷ s) = let rest = trim_right s in if is_empty rest && is_space c then [] else c ∷ rest

-- strings.TrimSpace, of an ASCII text.
unfoldable pub trim_space : Bytes → Bytes
trim_space s = trim_right (trim_left s)

-- The variables `uuid` and `path` of the loop over the lines.
pub record Target : Type 0 where
  pub uuid : Bytes
  pub path : Bytes

abbrev pub no_target : Target
no_target = record { uuid = []; path = [] }

-- A line counts if it has exactly one "=".
unfoldable pub read_pair : Target → List Bytes → Target
read_pair t (token ∷ value ∷ []) =
    if bytes_eq token uuid_token
    then record t { uuid = value }
    else if bytes_eq token path_token
    then record t { path = value }
    else t
read_pair t _ = t

unfoldable pub read_line : Target → Bytes → Target
read_line t line =
    let line' = trim_space line in if is_empty line' then t else read_pair t (split equals line')

unfoldable pub read_lines : Target → List Bytes → Target
read_lines t [] = t
read_lines t (line ∷ lines) = read_lines (read_line t line) lines

unfoldable pub parse_link : Bytes → Target
parse_link link = read_lines no_target (split 10 link)

-- What the search asks of the system: uuidToDeviceNumber, the entry of `mountsByDevice` (a nil entry
-- is `some none`; a failed load is `none`), and GetMount.
pub record Lookups (M : Type 0) : Type 0 where
  pub uuid_to_device_number : Bytes → Option ℕ
  pub mounts_by_device : ℕ → Option (Option M)
  pub get_mount : Bytes → Option M

pub data FollowError : Type 0 where
  invalid_link : FollowError
  lacks_main_mount : ℕ → FollowError
  cannot_find : Bytes → Bytes → FollowError

abbrev pub try_path : {M : Type 0} → Lookups M → Target → Result FollowError M
try_path s t =
    if is_empty t.path
    then err (cannot_find t.uuid t.path)
    else elim (s.get_mount t.path) [ none ↦ err (cannot_find t.uuid t.path) | some m ↦ ok m ]

abbrev pub try_entry :
    {M : Type 0} → Lookups M → Target → ℕ → Option (Option M) → Result FollowError M
try_entry s t device none = try_path s t
try_entry s t device (some none) = err (lacks_main_mount device)
try_entry s t device (some (some m)) = ok m

abbrev pub try_device : {M : Type 0} → Lookups M → Target → Option ℕ → Result FollowError M
try_device s t none = try_path s t
try_device s t (some device) = try_entry s t device (s.mounts_by_device device)

unfoldable pub follow : {M : Type 0} → Lookups M → Target → Result FollowError M
follow s t =
    if is_empty t.uuid && is_empty t.path
    then err invalid_link
    else if is_empty t.uuid
    then try_path s t
    else try_device s t (s.uuid_to_device_number t.uuid)

unfoldable pub get_mount_from_link : {M : Type 0} → Lookups M → Bytes → Result FollowError M
get_mount_from_link s link = follow s (parse_link link)

-- `fmt.Sprintf("%s=%s\n", token, value)`
abbrev pub link_line : Bytes → Bytes → Bytes
link_line token value = token ++ equals ∷ value

-- makeLink, given the UUID of the filesystem, if it could be determined.
unfoldable pub make_link : Option Bytes → Mount → Bytes
make_link none m = link_line path_token m.path ++ 10 ∷ []
make_link (some uuid) m = link_line uuid_token uuid ++ 10 ∷ (link_line path_token m.path ++ 10 ∷ [])
