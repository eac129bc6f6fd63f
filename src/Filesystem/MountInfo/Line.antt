-- ===== src/Filesystem/MountInfo/Line.antt =====
-- A line that is written field by field is parsed to the mount that it describes.
use fscrypt.Common.{
  ℕ, ◌≡◌, ◌≢◌, List, [], ◌∷◌, ◌++◌, some, Bytes, All, All-append, bytes_eq_refl, bytes_eq→eq,
  length-append, arith,
}
use fscrypt.Filesystem.Escape.{space, escape_string, unescape-escape, IsClear, escape-IsClear}
use fscrypt.Filesystem.Split.{split, join, Lacks, split-join}
use fscrypt.Filesystem.MountInfo.{
  Mount, Devices, new_device_number, dash, comma, has_ro, after_separator, parse_mount_info_line,
}

-- The fields of a line; the kernel escapes the root, the mount point and the type.
pub record LineFields : Type 0 where
  pub id : Bytes
  pub parent : Bytes
  pub number : Bytes
  pub root : Bytes
  pub path : Bytes
  pub options : Bytes
  pub optional : List Bytes
  pub fs_type : Bytes
  pub mount_source : Bytes
  pub super_options : Bytes

abbrev pub fields_of : LineFields → List Bytes
fields_of l =
    l.id
    ∷ l.parent
    ∷ l.number
    ∷ escape_string l.root
    ∷ escape_string l.path
    ∷ l.options
    ∷ (l.optional ++ dash ∷ escape_string l.fs_type ∷ l.mount_source ∷ l.super_options ∷ [])

unfoldable pub format_line : LineFields → Bytes
format_line l = join space (fields_of l)

-- The fields that are not escaped hold no space, and no optional field is the separator.
pub record IsWellFormed (l : LineFields) : Type 0 where
  pub id_clear : Lacks space l.id
  pub parent_clear : Lacks space l.parent
  pub number_clear : Lacks space l.number
  pub options_clear : Lacks space l.options
  pub optional_clear : All (Lacks space) l.optional
  pub optional_fields : All (λ f. f ≢ dash) l.optional
  pub source_clear : Lacks space l.mount_source
  pub super_clear : Lacks space l.super_options

clear-Lacks : (s : Bytes) → All IsClear s → Lacks space s
clear-Lacks [] h = tt
clear-Lacks (b ∷ s) (hb, hs) = (hb.0, clear-Lacks s hs)

escape-Lacks : (s : Bytes) → Lacks space (escape_string s)
escape-Lacks s = clear-Lacks (escape_string s) (escape-IsClear s)

after_separator-append :
    (optional rest : List Bytes)
    → All (λ f. f ≢ dash) optional
    → after_separator (optional ++ dash ∷ rest) ≡ some rest
unfolding after_separator
after_separator-append [] rest h = rw (bytes_eq_refl dash)
after_separator-append (f ∷ fs) rest (hf, hs) =
    ground (arith, bytes_eq→eq f dash, after_separator-append fs rest hs)

fields_Lack : (l : LineFields) → IsWellFormed l → All (Lacks space) (fields_of l)
fields_Lack l w = (
  w.id_clear,
  (
    w.parent_clear,
    (
      w.number_clear,
      (
        escape-Lacks l.root,
        (
          escape-Lacks l.path,
          (
            w.options_clear,
            All-append (Lacks space) l.optional _ w.optional_clear
                (omega arith, (escape-Lacks l.fs_type, (w.source_clear, (w.super_clear, tt)))),
          ),
        ),
      ),
    ),
  ),
)

-- The mount that a line describes.
abbrev pub described : Devices → LineFields → ℕ → Mount
described d l number = record {
  path = l.path;
  filesystem_type = l.fs_type;
  device = d.device_name number;
  device_number = number;
  subtree = l.root;
  read_only = has_ro (split comma l.options);
}

-- A line with a valid device number, whose fields hold no space and whose optional fields are no
-- separator, is parsed to the mount that it describes: escaped names come back, however many optional
-- fields there are.
pub parse-format :
    (d : Devices) (l : LineFields) (number : ℕ)
    → IsWellFormed l
    → new_device_number d l.number ≡ some number
    → parse_mount_info_line d (format_line l) ≡ some (described d l number)
unfolding parse_mount_info_line format_line
parse-format d l number w valid =
    let fields = split-join space (fields_of l) (cc) (fields_Lack l w) in
    ground (
      arith,
      fields,
      length-append l.optional
          (dash ∷ escape_string l.fs_type ∷ l.mount_source ∷ l.super_options ∷ []),
      after_separator-append l.optional
          (escape_string l.fs_type ∷ l.mount_source ∷ l.super_options ∷ []) w.optional_fields,
      unescape-escape l.root,
      unescape-escape l.path,
      unescape-escape l.fs_type,
    )
