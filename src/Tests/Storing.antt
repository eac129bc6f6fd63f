-- ===== src/Tests/Storing.antt =====
-- The storage of metadata in files, at a filesystem with one policy.
use mathlib.Core.Path.{subst}
use fscrypt.Common.{
  sym, ◌≡◌, ◌≢◌, refl, inr, false, [], ◌∷◌, some, bytes_eq, bytes_eq_refl, codes, ok, err, arith,
}
use fscrypt.Metadata.Checks.{
  check_slots, check_options, check_wrapped_key, check_wrapped_policy_key, check_valid_length,
  check_mode, check_padding, check_version,
}
use fscrypt.Metadata.Checks.Whole.{check_policy, check_descriptor}
use fscrypt.Filesystem.Store.{Files, find_file, delete_file, policy_not_found, write_data}
use fscrypt.Filesystem.Policies.{add_policy, get_policy, remove_policy}
use fscrypt.Filesystem.Split.{split, join}
use fscrypt.Filesystem.Clean.{IsName, clean_parts, join_path}
use fscrypt.Filesystem.Policies.Apart.{get_policy-add_policy_other}
use fscrypt.Filesystem.Policies.Removed.{get_policy-remove_policy}
use fscrypt.Filesystem.Records.{add_metadata, remove_metadata}
use fscrypt.Filesystem.Records.Kept.{Marshals}
use fscrypt.Filesystem.Setup.{
  is_one_of, is_fscrypt_setup_allowed, base_dir, policy_dir, policy_path, check_subdir,
  check_subdirs, check_setup,
}
use fscrypt.Filesystem.Layout.{policy_format, setup_of}
use fscrypt.Filesystem.Policies.Readback.{get_policy-add_policy}
use fscrypt.Tests.Samples.{first_descriptor, policy_data}
use fscrypt.Tests.Disk.{path, old_file, files, system, layout}

set_up : setup_of layout 1 (some 1000) ≡ ok tt
unfolding check_setup check_subdir check_subdirs is_fscrypt_setup_allowed is_one_of bytes_eq
set_up = refl

first-IsName : IsName first_descriptor
unfolding bytes_eq
first-IsName = record { lacks = omega arith; not_empty = refl; not_dot = refl; not_dots = refl }

policy-IsName : IsName policy_data.key_descriptor
unfolding bytes_eq
policy-IsName = record { lacks = omega arith; not_empty = refl; not_dot = refl; not_dots = refl }

descriptors_apart : first_descriptor ≢ policy_data.key_descriptor
unfolding bytes_eq
descriptors_apart e =
    let same = bytes_eq_refl first_descriptor in
    let other : bytes_eq first_descriptor policy_data.key_descriptor ≡ false = refl in
    absurd (ground (arith, e, same, other))

get_policy-add_policy_other_example :
    get_policy system layout 1 first_descriptor
      (some 1000)
      (add_policy system layout 1 policy_data (some 1000) files).0
    ≡ get_policy system layout 1 first_descriptor (some 1000) files
get_policy-add_policy_other_example =
    get_policy-add_policy_other system layout 1 policy_data (some 1000) (some 1000) first_descriptor
      files first-IsName policy-IsName descriptors_apart

policy_added : (add_policy system layout 1 policy_data (some 1000) files).1.1 ≡ ok tt
unfolding add_policy add_metadata check_policy check_slots check_options check_wrapped_key
    check_wrapped_policy_key check_valid_length check_mode check_padding check_version
    check_descriptor write_data check_setup check_subdir check_subdirs is_fscrypt_setup_allowed
    is_one_of bytes_eq
policy_added = refl

policy_left : (add_policy system layout 1 policy_data (some 1000) files).1.0 ≡ policy_data
unfolding add_policy add_metadata check_policy check_slots check_options check_wrapped_key
    check_wrapped_policy_key check_valid_length check_mode check_padding check_version
    check_descriptor write_data check_setup check_subdir check_subdirs is_fscrypt_setup_allowed
    is_one_of bytes_eq
policy_left = refl

policy-Marshals :
    Marshals (policy_format layout) (add_policy system layout 1 policy_data (some 1000) files).1.0
policy-Marshals =
    subst (Marshals (policy_format layout)) (sym policy_left) (λ c e. (refl, ground (arith, e)))

get_policy-add_policy_example :
    get_policy system layout 1 policy_data.key_descriptor
      (some 1000)
      (add_policy system layout 1 policy_data (some 1000) files).0
    ≡ ok (add_policy system layout 1 policy_data (some 1000) files).1.0
get_policy-add_policy_example =
    get_policy-add_policy system layout 1 policy_data 1000 (some 1000) files policy-Marshals
      (inr refl) refl (record { opens = refl; reads = refl }) (set_up) policy_added

abbrev stored_files : Files
stored_files = (codes "/mnt/.fscrypt/policies/0123456789abcdef", old_file) ∷ (path, old_file) ∷ []

policy_gone : (remove_policy system layout 1 first_descriptor stored_files).1 ≡ ok tt
unfolding remove_policy remove_metadata find_file delete_file policy_path policy_dir base_dir
    join_path clean_parts split join bytes_eq check_setup check_subdir check_subdirs
    is_fscrypt_setup_allowed is_one_of
policy_gone = refl

get_policy-remove_policy_example :
    get_policy system layout 1 first_descriptor
      (some 1000)
      (remove_policy system layout 1 first_descriptor stored_files).0
    ≡ err (policy_not_found first_descriptor)
get_policy-remove_policy_example =
    get_policy-remove_policy system layout 1 first_descriptor (some 1000) stored_files policy_gone
      set_up
