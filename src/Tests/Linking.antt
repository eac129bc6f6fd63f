-- ===== src/Tests/Linking.antt =====
-- Protectors, links to them and lists of them, on a disk with two filesystems.
use fscrypt.Common.{
  ◌≤◌, to_uint, ◌≡◌, ◌≢◌, ◌↔◌, refl, inr, true, false, [], ◌∷◌, ◌++◌, none, some, Bytes, bytes_eq,
  codes, All, length, ok, arith,
}
use fscrypt.Metadata.Types.{ProtectorData}
use fscrypt.Metadata.Checks.{
  check_protector, check_source, check_for_source, check_wrapped_key, check_valid_length,
  check_passphrase, check_hashing_costs, check_costs,
}
use fscrypt.Filesystem.Store.{
  File, Files, find_file, delete_file, write_data, read_metadata_file_safe,
}
use fscrypt.Filesystem.Clean.{IsName, clean_parts, join_path}
use fscrypt.Filesystem.Split.{split, join, is_space}
use fscrypt.Filesystem.Link.{
  get_mount_from_link, make_link, follow, parse_link, read_lines, read_line, read_pair, trim_space,
  trim_left, trim_right,
}
use fscrypt.Filesystem.Setup.Accepted.{IsSetUp, check_setup_iff}
use fscrypt.Filesystem.Protectors.{get_protector, get_regular_protector, add_linked_protector}
use fscrypt.Filesystem.Protectors.Links.{get_protector-add_linked_protector}
use fscrypt.Filesystem.Protectors.Owned.{IsAccepted, get_regular_protector_sound}
use fscrypt.Filesystem.Listing.{
  Directories, list_metadata, list_protectors, list_directory, trim_all, trim_suffix, filter_owned,
}
use fscrypt.Filesystem.Listing.Filtered.{list_protectors_lacks_links}
use fscrypt.Filesystem.Setup.{
  check_setup, check_subdir, check_subdirs, is_fscrypt_setup_allowed, is_one_of, base_dir,
  protector_dir, protector_path, linked_protector_path,
}
use fscrypt.Filesystem.Records.{get_metadata}
use fscrypt.Tests.Disk.{login_protector, system, tree, mounted, layout, lookups}

check_setup_iff_example :
    (check_setup tree (mounted 1) (some 1000) ≡ ok tt) ↔ IsSetUp tree (mounted 1) (some 1000)
check_setup_iff_example = check_setup_iff tree (some 1000) (mounted 1)

abbrev descriptor : Bytes
descriptor = login_protector.protector_descriptor

abbrev protector_file : File
protector_file = record { is_regular = true; uid = 1000; mode = 384; content = descriptor }

abbrev files : Files
files = (codes "/.fscrypt/protectors/aaaaaaaaaaaaaaaa", protector_file) ∷ []

regular_found :
    get_regular_protector system layout 2 descriptor (some 1000) files ≡ ok login_protector
unfolding get_regular_protector get_metadata read_metadata_file_safe find_file bytes_eq check_setup
    check_subdir check_subdirs is_fscrypt_setup_allowed is_one_of base_dir protector_dir
    protector_path join_path clean_parts split join check_protector check_source check_for_source
    check_wrapped_key check_valid_length check_passphrase check_hashing_costs check_costs to_uint
regular_found = refl

get_regular_protector_sound_example :
    IsAccepted layout
      (codes "/.fscrypt/protectors/aaaaaaaaaaaaaaaa")
      (some 1000)
      files
      login_protector
unfolding protector_path protector_dir base_dir join_path clean_parts split join bytes_eq
get_regular_protector_sound_example =
    get_regular_protector_sound system layout 2 descriptor (some 1000) files login_protector
      regular_found

descriptor-IsName : IsName descriptor
unfolding bytes_eq
descriptor-IsName = record {
  lacks = omega arith;
  not_empty = refl;
  not_dot = refl;
  not_dots = refl;
}

link_leads : get_mount_from_link lookups (make_link (layout.uuid_of 2) (layout.mount_of 2)) ≡ ok 2
unfolding get_mount_from_link follow parse_link read_lines read_line read_pair trim_space trim_left
    trim_right make_link split is_space bytes_eq
link_leads = refl

link_added :
    (add_linked_protector system layout 1 descriptor 2 (some 1000) (some 1000) files).1 ≡ ok true
unfolding add_linked_protector get_regular_protector get_metadata read_metadata_file_safe find_file
    bytes_eq check_setup check_subdir check_subdirs is_fscrypt_setup_allowed is_one_of base_dir
    protector_dir protector_path linked_protector_path join_path clean_parts split join
    check_protector check_source check_for_source check_wrapped_key check_valid_length
    check_passphrase check_hashing_costs check_costs to_uint write_data delete_file make_link
link_added = refl

short : length (make_link (layout.uuid_of 2) (layout.mount_of 2)) ≤ 16384
unfolding make_link
short = omega arith

get_protector-add_linked_protector_example :
    (p : ProtectorData) × (get_regular_protector system layout 2 descriptor (some 1000) files
      ≡ ok p)
    × (get_protector system layout 1 descriptor
          (some 1000)
          (add_linked_protector system layout 1 descriptor 2 (some 1000) (some 1000) files).0
        ≡ ok (2, p))
get_protector-add_linked_protector_example =
    get_protector-add_linked_protector system layout 1 descriptor 2 (some 1000) (some 1000) files
      descriptor-IsName refl (record { opens = refl; reads = refl }) (inr refl) short link_leads
      link_added

abbrev linked_files : Files
linked_files = (add_linked_protector system layout 1 descriptor 2 (some 1000) (some 1000) files).0

-- The directory with the protectors of mount 1 holds a link.
abbrev directories : Directories
directories = record {
  read_names = λ dir. ok ((descriptor ++ codes ".link") ∷ []);
  mod_time = λ path. ok 0;
  sort_by_time = λ timed. timed;
  by_time = false;
}

link_missed : list_protectors directories system layout 1 (some 1000) linked_files ≡ ok []
unfolding list_protectors list_metadata list_directory trim_all trim_suffix filter_owned
    add_linked_protector get_regular_protector get_metadata read_metadata_file_safe find_file
    bytes_eq check_setup check_subdir check_subdirs is_fscrypt_setup_allowed is_one_of base_dir
    protector_dir protector_path linked_protector_path join_path clean_parts split join
    check_protector check_source check_for_source check_wrapped_key check_valid_length
    check_passphrase check_hashing_costs check_costs to_uint write_data delete_file make_link
link_missed = refl

no_protector_file :
    find_file (join_path (protector_dir layout.tree (layout.mount_of 1)) descriptor) linked_files
    ≡ none
unfolding add_linked_protector get_regular_protector get_metadata read_metadata_file_safe find_file
    bytes_eq check_setup check_subdir check_subdirs is_fscrypt_setup_allowed is_one_of base_dir
    protector_dir protector_path linked_protector_path join_path clean_parts split join
    check_protector check_source check_for_source check_wrapped_key check_valid_length
    check_passphrase check_hashing_costs check_costs to_uint write_data delete_file make_link
no_protector_file = refl

list_protectors_lacks_links_example : All (λ name. name ≢ descriptor) []
list_protectors_lacks_links_example =
    list_protectors_lacks_links directories system layout 1 descriptor 1000 linked_files []
      no_protector_file link_missed
