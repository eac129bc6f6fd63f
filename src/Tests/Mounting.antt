-- ===== src/Tests/Mounting.antt =====
-- Package filesystem and the readers of package crypto at concrete texts.
use fscrypt.Common.{
  ◌≡◌, refl, inl, false, List, [], ◌∷◌, ◌++◌, none, some, Bytes, bytes_eq, codes, length,
  if◌then◌else◌, ok, err, arith,
}
use fscrypt.Filesystem.MountInfo.{Mount, Devices, new_device_number, parse_mount_info_line}
use fscrypt.Filesystem.MountInfo.Line.{
  LineFields, IsWellFormed, format_line, described, parse-format,
}
use fscrypt.Filesystem.Link.{Lookups, get_mount_from_link, make_link, invalid_link, trim_right}
use fscrypt.Filesystem.Split.{is_space}
use fscrypt.Filesystem.Link.RoundTrip.{IsValue, link_leads_back, link_with_equals}
use fscrypt.Filesystem.FindMount.{Table, find_mount}
use fscrypt.Filesystem.FindMount.Walk.{Found, find_mount_by_path}
use fscrypt.Crypto.Key.{Key, data_of}
use fscrypt.Crypto.Reader.{Piece, more, eof, new_key_from_reader}
use fscrypt.Crypto.Reader.Complete.{Delivers, contents, new_key_from_reader_lem}
use fscrypt.Crypto.Recovery.{write_recovery_code, read_recovery_code, recovery_code_length}
use fscrypt.Crypto.Recovery.RoundTrip.{succeeds, read-write}
use fscrypt.Tests.Samples.{memory, memory-HasMemory, policy_key}

abbrev devices : Devices
devices = record { mkdev = λ major minor. major; device_name = λ n. codes "/dev/sda1" }

abbrev fields : LineFields
fields = record {
  id = codes "36";
  parent = codes "35";
  number = codes "98:0";
  root = codes "/";
  path = codes "/mnt/my disk";
  options = codes "ro,noatime";
  optional = codes "master:1" ∷ [];
  fs_type = codes "ext4";
  mount_source = codes "/dev/root";
  super_options = codes "rw";
}

fields-IsWellFormed : IsWellFormed fields
fields-IsWellFormed = record {
  id_clear = omega arith;
  parent_clear = omega arith;
  number_clear = omega arith;
  options_clear = omega arith;
  optional_clear = omega arith;
  optional_fields = (λ e. absurd (ground arith), tt);
  source_clear = omega arith;
  super_clear = omega arith;
}

parse-format_example :
    parse_mount_info_line devices (format_line fields) ≡ some (described devices fields 98)
parse-format_example =
    parse-format devices fields 98 fields-IsWellFormed (unfold new_device_number in refl)

abbrev disk : Mount
disk = record {
  path = codes "/mnt";
  filesystem_type = codes "ext4";
  device = codes "/dev/sda1";
  device_number = 98;
  subtree = codes "/";
  read_only = false;
}

abbrev lookups : Lookups Mount
lookups = record {
  uuid_to_device_number = λ uuid. some 98;
  mounts_by_device = λ n. some (some disk);
  get_mount = λ path. some disk;
}

abbrev uuid : Bytes
uuid = codes "1a2b"

uuid-IsValue : IsValue uuid
unfolding trim_right is_space
uuid-IsValue = record { no_equals = omega arith; no_newline = omega arith; no_trailing = refl }

path-IsValue : IsValue disk.path
unfolding trim_right is_space
path-IsValue = record { no_equals = omega arith; no_newline = omega arith; no_trailing = refl }

link_leads_back_example : get_mount_from_link lookups (make_link (some uuid) disk) ≡ ok disk
link_leads_back_example =
    link_leads_back lookups uuid disk uuid-IsValue path-IsValue (cc) (cc) (inl (98, refl, refl))

abbrev odd_disk : Mount
odd_disk = record disk { path = codes "/a=b" }

odd_trailing : trim_right odd_disk.path ≡ odd_disk.path
unfolding trim_right is_space
odd_trailing = refl

link_with_equals_example : get_mount_from_link lookups (make_link none odd_disk) ≡ err invalid_link
link_with_equals_example =
    link_with_equals lookups odd_disk (codes "/a") (codes "b") refl (omega arith) (omega arith)
      (omega arith) odd_trailing

abbrev table : Table
table = record {
  load_error = none;
  mounts_by_device = λ n. none;
  mounts_by_path = λ path. if bytes_eq path (codes "/mnt") then some disk else none;
  containing_device = λ path. ok 7;
  canonicalize_path = λ path. ok (codes "/mnt/dir/file");
}

find_mount_by_path_example : Found table (codes "/mnt/dir/file") (find_mount table (codes "file"))
find_mount_by_path_example =
    find_mount_by_path table (codes "file") (codes "/mnt/dir/file") 7 refl refl refl refl refl

abbrev pieces : List Piece
pieces =
    record { bytes = 1 ∷ 2 ∷ 3 ∷ []; status = more } ∷ record { bytes = 4 ∷ []; status = eof } ∷ []

new_key_from_reader_lem_example : Delivers (contents pieces) (new_key_from_reader memory 2 pieces)
new_key_from_reader_lem_example =
    new_key_from_reader_lem memory memory-HasMemory 2 pieces (omega arith)

read-write_example :
    ((write_recovery_code memory succeeds policy_key).1 ≡ ok tt)
    × (length (write_recovery_code memory succeeds policy_key).0.written ≡ recovery_code_length)
    × (key' : Key) × (read_recovery_code memory
          ((write_recovery_code memory succeeds policy_key).0.written ++ codes "\n")
        ≡ ok key')
    × (data_of key' ≡ data_of policy_key)
read-write_example = read-write memory memory-HasMemory policy_key (codes "\n") refl (omega arith)
