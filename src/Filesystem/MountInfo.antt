-- ===== src/Filesystem/MountInfo.antt =====
-- filesystem/mountpoint.go: one line of /proc/self/mountinfo.
pub mod Line
use fscrypt.Common.{
  ℕ, ◌+◌, ◌-◌, ◌*◌, ◌<◌, Bool, true, false, ◌&&◌, ◌||◌, List, [], ◌∷◌, Option, none, some, Bytes,
  codes, bytes_eq, length, leb, ltb, ◌==◌, if◌then◌else◌,
}
use fscrypt.Filesystem.Escape.{unescape_string}
use fscrypt.Filesystem.Split.{split}

-- filesystem/filesystem.go: type Mount
pub record Mount : Type 0 where
  pub path : Bytes
  pub filesystem_type : Bytes
  pub device : Bytes
  pub device_number : ℕ
  pub subtree : Bytes
  pub read_only : Bool

-- unix.Mkdev, and the name that /sys/dev/block gives a device number ("" if none).
pub record Devices : Type 0 where
  pub mkdev : ℕ → ℕ → ℕ
  pub device_name : ℕ → Bytes

is_digit : ℕ → Bool
is_digit c = leb b'0' c && leb c b'9'

-- The digits in front of a text, as a number behind `n`, and what follows them.
scan_digits : ℕ → Bytes → ℕ × Bytes
scan_digits n [] = (n, [])
scan_digits n (c ∷ s) =
    let more = scan_digits (n * 10 + (c - b'0')) s in if is_digit c then more else (n, c ∷ s)

-- White space that `%d` of fmt.Sscanf skips inside a line.
skip_blanks : Bytes → Bytes
skip_blanks [] = []
skip_blanks (c ∷ s) =
    let rest = skip_blanks s in
    if c == 9 || c == 11 || c == 12 || c == 13 || c == 32 then rest else c ∷ s

in_uint32 : ℕ × Bytes → Option (ℕ × Bytes)
in_uint32 (n, s) = if ltb n 4294967296 then some (n, s) else none

-- `%d` into a uint32: at least one digit, and a value that fits.
scan_number : Bytes → Option (ℕ × Bytes)
scan_number [] = none
scan_number (c ∷ s) = if is_digit c then in_uint32 (scan_digits 0 (c ∷ s)) else none

scan_minor : Devices → ℕ → Bytes → Option ℕ
scan_minor d major [] = none
scan_minor d major (c ∷ s) =
    if c == b':'
    then elim (scan_number (skip_blanks s)) [
      | none ↦ none
      | some (minor, rest) ↦ some (d.mkdev major minor)
    ]
    else none

-- newDeviceNumberFromString: fmt.Sscanf with "%d:%d" has to read two numbers.
unfoldable pub new_device_number : Devices → Bytes → Option ℕ
unfolding scan_number scan_minor skip_blanks scan_digits in_uint32 is_digit
new_device_number d s = elim (scan_number (skip_blanks s)) [
  | none ↦ none
  | some (major, rest) ↦ scan_minor d major rest
]

abbrev pub dash : Bytes
dash = b'-' ∷ []

abbrev pub comma : ℕ
comma = b','

abbrev pub ro : Bytes
ro = codes "ro"

-- The loop over the options.
unfoldable pub has_ro : List Bytes → Bool
has_ro [] = false
has_ro (opt ∷ opts) = bytes_eq opt ro || has_ro opts

-- The loop that counts the optional fields: the fields behind the separator.
unfoldable pub after_separator : List Bytes → Option (List Bytes)
after_separator [] = none
after_separator (f ∷ fs) = if bytes_eq f dash then some fs else after_separator fs

abbrev pub mount_of :
    Devices → Option ℕ → Bytes → Bytes → Bytes → Option (List Bytes) → Option Mount
mount_of d (some number) root path opts (some (fs_type ∷ mount_source ∷ super_opts ∷ more)) =
    some (record {
      path = unescape_string path;
      filesystem_type = unescape_string fs_type;
      device = d.device_name number;
      device_number = number;
      subtree = unescape_string root;
      read_only = has_ro (split comma opts);
    })
mount_of d _ root path opts _ = none

abbrev pub parse_fields : Devices → List Bytes → Option Mount
parse_fields d (id ∷ parent ∷ number ∷ root ∷ path ∷ opts ∷ rest) =
    mount_of d (new_device_number d number) root path opts (after_separator rest)
parse_fields d _ = none

unfoldable pub parse_mount_info_line : Devices → Bytes → Option Mount
parse_mount_info_line d line =
    let fields = split b' ' line in if ltb (length fields) 10 then none else parse_fields d fields
