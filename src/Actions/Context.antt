-- ===== src/Actions/Context.antt =====
-- actions/context.go: checkContext and the options for protectors.
pub mod Good
use fscrypt.Common.{
  ◌==◌, Bool, true, false, List, [], ◌∷◌, Option, none, some, Bytes, if◌then◌else◌, Result, ok, err,
}
use fscrypt.Metadata.Types.{Config, ProtectorData, PolicyData, SourceType}
use fscrypt.Metadata.Checks.{EnumNames, Check, CheckError}
use fscrypt.Metadata.Checks.Whole.{check_config}
use fscrypt.Crypto.Wrap.{CryptoError}
use fscrypt.Crypto.Derive.{DescriptorError}
use fscrypt.Actions.Types.{Mount, User, Context, ActionError}
use fscrypt.Actions.Callback.{CallbackError}

-- The methods of filesystem.Mount by which the actions read.
pub record Retrieval (W E : Type 0) : Type 0 where
  pub check_setup : Mount → Option User → W → Result E (Unit {0})
  pub get_regular_protector : Mount → Bytes → Option User → W → Result E ProtectorData
  pub get_protector : Mount → Bytes → Option User → W → Result E (Mount × ProtectorData)
  pub list_protectors : Mount → Option User → W → Result E (List Bytes)
  pub get_policy : Mount → Bytes → Option User → W → Result E PolicyData
  pub list_policies : Mount → Option User → W → Result E (List Bytes)

-- `E` are the errors of the filesystem, and `K` those of a callback.
pub data OpError (E K : Type 0) : Type 0 where
  key_locked : OpError E K
  bad_config : CheckError → OpError E K
  storage_failed : E → OpError E K
  callback_failed : CallbackError K → OpError E K
  crypto_failed : CryptoError → OpError E K
  descriptor_failed : DescriptorError → OpError E K
  action_failed : ActionError E → OpError E K
  login_protector_exists : User → OpError E K
  login_protector_name : Bytes → User → OpError E K
  missing_protector_name : SourceType → OpError E K
  protector_name_exists : Bytes → OpError E K
  load_failed : E → OpError E K
  option_failed : K → OpError E K
  index_out_of_range : OpError E K

-- A ProtectorOption: no data where the protector could not be loaded, and no mount where it is not
-- linked.
pub record ProtectorOption (E : Type 0) : Type 0 where
  pub info : Option ProtectorData
  pub linked_mount : Option Mount
  pub load_error : Option E

abbrev pub lift_error : {E K A : Type 0} → Result E A → Result (OpError E K) A
lift_error (ok a) = ok a
lift_error (err e) = err (storage_failed e)

module _ {W E : Type 0} (names : EnumNames) (ret : Retrieval W E) where
  abbrev pub checked :
      {K : Type 0} → Context → W → Config × Check → Context × Result (OpError E K) (Unit {0})
  checked ctx w (config, err x) = (record ctx { config = config }, err (bad_config x))
  checked ctx w (config, ok u) =
      (record ctx { config = config }, lift_error (ret.check_setup ctx.mount ctx.trusted_user w))

  -- checkContext: the check of the config may set the version of its options, in place.
  unfoldable pub check_context :
      {K : Type 0} → Context → W → Context × Result (OpError E K) (Unit {0})
  unfolding check_config
  check_context ctx w = checked ctx w (check_config names ctx.config)

  abbrev pub option_of : Context → Result E (Mount × ProtectorData) → ProtectorOption E
  option_of ctx (err e) = record { info = none; linked_mount = none; load_error = some e }
  option_of ctx (ok (m, fields)) = record {
    info = some fields;
    linked_mount = if m == ctx.mount then none else some m;
    load_error = none;
  }

  unfoldable pub get_protector_option : Context → W → Bytes → ProtectorOption E
  get_protector_option ctx w descriptor =
      option_of ctx (ret.get_protector ctx.mount descriptor ctx.trusted_user w)

  unfoldable pub options_for : Context → W → List Bytes → List (ProtectorOption E)
  unfolding get_protector_option
  options_for ctx w [] = []
  options_for ctx w (d ∷ ds) = get_protector_option ctx w d ∷ options_for ctx w ds

  abbrev pub listed :
      {K : Type 0}
      → Context
      → W
      → Result E (List Bytes)
      → Result (OpError E K) (List (ProtectorOption E))
  listed ctx w (err e) = err (storage_failed e)
  listed ctx w (ok descriptors) = ok (options_for ctx w descriptors)

  abbrev pub options_checked :
      {K : Type 0}
      → W
      → Context × Result (OpError E K) (Unit {0})
      → Context × Result (OpError E K) (List (ProtectorOption E))
  options_checked w (ctx, err e) = (ctx, err e)
  options_checked w (ctx, ok u) =
      (ctx, listed ctx w (ret.list_protectors ctx.mount ctx.trusted_user w))

  unfoldable pub protector_options :
      {K : Type 0} → Context → W → Context × Result (OpError E K) (List (ProtectorOption E))
  unfolding check_context options_for
  protector_options ctx w = options_checked w (check_context ctx w)
