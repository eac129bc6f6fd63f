-- ===== src/Tests/Checking.antt =====
-- Package metadata with a kernel that stores one policy.
use fscrypt.Common.{
  ℕ, ◌≡◌, ◌↔◌, refl, true, [], ◌++◌, Option, none, some, Bytes, codes, length, Result, ok, err,
  arith,
}
use fscrypt.Hex
use fscrypt.Util.{lookup}
use fscrypt.Metadata.Checks.{
  check_costs, check_slots, check_options, check_wrapped_key, check_wrapped_policy_key,
  check_valid_length, check_mode, check_padding, check_version,
}
use fscrypt.Metadata.Checks.Costs.{Acceptable, check_costs_iff}
use fscrypt.Metadata.Checks.Valid.{version_of}
use fscrypt.Metadata.Checks.Whole.{check_policy, check_descriptor}
use fscrypt.Metadata.Checks.PolicyForm.{IsValidPolicy, check_policy_iff}
use fscrypt.Metadata.Flags.{build_policy_flags}
use fscrypt.Metadata.Ioctl.{Errno, Kernel, get_policy}
use fscrypt.Metadata.Setting.{
  set_policy, set_version, set_result, disambiguate, set_v2_policy, set_policy_ioctl,
}
use fscrypt.Metadata.Setting.RoundTrip.{StoresPolicies, get_policy-set_policy}
use fscrypt.Tests.Samples.{names, options, costs, policy_data}

-- The world is the memory of the policy that was set.
abbrev stored : Option Bytes → Result Errno (ℕ × Bytes)
stored none = err Errno.enodata
stored (some memory) = ok (length memory, memory ++ [])

abbrev pub kernel : Kernel
kernel = record {
  World = Option Bytes;
  open_path = λ w path. none;
  set_policy = λ w path memory. (some memory, none);
  sync = λ w path. none;
  get_policy_ex = λ w path. stored w;
  get_policy_v1 = λ w path. err Errno.enotty;
  is_dir = λ w path. some true;
  owner = λ w path. some 0;
  euid = λ w. 0;
}

pub kernel-StoresPolicies : StoresPolicies kernel
kernel-StoresPolicies = record { reads_back = λ w path memory e. ([], refl) }

abbrev pub directory : Bytes
directory = codes "/mnt/dir"

pub policy_checked : (check_policy names policy_data).1 ≡ ok tt
unfolding check_policy check_slots check_options check_wrapped_key check_wrapped_policy_key
    check_valid_length check_mode check_padding check_version check_descriptor
policy_checked = refl

check_policy_iff_example :
    ((check_policy names policy_data).1 ≡ ok tt) ↔ IsValidPolicy names policy_data
check_policy_iff_example = check_policy_iff names policy_data

check_costs_iff_example : (check_costs costs ≡ ok tt) ↔ Acceptable costs
check_costs_iff_example = check_costs_iff costs

policy_set : (set_policy kernel names none directory policy_data).1.1 ≡ ok tt
unfolding set_policy set_version set_v2_policy set_policy_ioctl set_result disambiguate Hex.decode
    Hex.from_hex_char build_policy_flags lookup check_policy check_slots check_options
    check_wrapped_key check_wrapped_policy_key check_valid_length check_mode check_padding
    check_version check_descriptor
policy_set = refl

get_policy-set_policy_example :
    get_policy kernel (set_policy kernel names none directory policy_data).1.0 directory
    ≡ ok (record {
      key_descriptor = policy_data.key_descriptor;
      options = some (record options { policy_version = version_of options });
      wrapped_policy_keys = [];
    })
get_policy-set_policy_example =
    get_policy-set_policy kernel kernel-StoresPolicies names none directory policy_data options refl
      (omega arith) (omega arith) policy_set refl
