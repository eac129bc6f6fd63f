-- ===== src/Tests/Ringing.antt =====
-- Package keyring with a kernel that knows one key.
use fscrypt.Common.{
  ℕ, ◌≡◌, refl, inr, Bool, true, false, none, take, if◌then◌else◌, ◌==◌, ok, err, arith, ◌||◌,
}
use fscrypt.Hex.{encode}
use fscrypt.Keyring.Types.{KeySpecifier, Uids, Kernel, State, key_not_present, spec_type_identifier}
use fscrypt.Keyring.Spec.{build_key_specifier, validate_key_descriptor}
use fscrypt.Keyring.Spec.Valid.{validate-build}
use fscrypt.Keyring.Dispatch.{UserKeyring}
use fscrypt.Tests.Samples.{policy_descriptor}

-- A process may set its UIDs if it is root or takes only UIDs that it has.
abbrev has : Uids → ℕ → Bool
has u uid = uid == u.ruid || uid == u.euid || uid == u.suid

-- The state is whether the key is there.
abbrev pub kernel : Kernel Bool
kernel = record {
  open_error = λ m k. none;
  setresuid_error = λ old new. none;
  add_errno_of_null = λ m k. 14;
  add_key = λ m uids spec raw k. (true, (0, spec));
  remove_key = λ m uids all spec k. (false, (if k then 0 else 126, 0));
  key_status = λ m uids spec k. (0, (if k then 2 else 1, 1));
}

abbrev pub root_state : State Bool
root_state = record {
  uids = record { ruid = 0; euid = 0; suid = 0 };
  supported = none;
  kernel = false;
}

validate-build_example :
    (spec : KeySpecifier) × (build_key_specifier policy_descriptor ≡ ok spec)
    × (spec.spec_type ≡ spec_type_identifier)
    × (encode (take 16 spec.bytes) ≡ policy_descriptor)
    × (validate_key_descriptor spec policy_descriptor ≡ (policy_descriptor, ok tt))
validate-build_example =
    validate-build policy_descriptor (omega arith) 16 spec_type_identifier (inr (refl, refl)) refl

abbrev pub user_keyring : UserKeyring Bool
user_keyring = record {
  add = λ key description user st. (st, ok tt);
  remove = λ description user st. (st, err key_not_present);
  find = λ description user st. (st, false);
}
