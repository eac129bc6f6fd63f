-- ===== src/Actions/Protector/Create.antt =====
-- actions/protector.go: CreateProtector, GetProtector and GetProtectorFromOption.
pub mod Created
pub mod Sources
pub mod Stages
pub mod Whole
use fscrypt.Common.{
  ℕ, pos, ℤ, eq_ℤ, Bool, true, false, [], Option, none, some, Bytes, bytes_eq, if◌then◌else◌,
  Result, ok, err,
}
use fscrypt.Metadata.Types.{ProtectorData, internal_key_len, salt_len}
use fscrypt.Metadata.Source
use fscrypt.Metadata.Checks.{EnumNames}
use fscrypt.Crypto.Key.{Key}
use fscrypt.Crypto.Wrap.{CryptoError, random_buffer}
use fscrypt.Crypto.Random.{new_random_key}
use fscrypt.Crypto.Derive.{DescriptorError, compute_key_descriptor}
use fscrypt.Actions.Types.{Mount, User, Context, Protector, Storage, Process}
use fscrypt.Actions.Callback.{KeyFunc}
use fscrypt.Actions.Context.{
  Retrieval, OpError, crypto_failed, descriptor_failed, login_protector_name,
  missing_protector_name, load_failed, ProtectorOption, lift_error, check_context,
}
use fscrypt.Actions.Protector.{
  Outcome, check_for_protector_with_name, check_if_user_has_login_protector, rewrap,
}

-- The structure at the start.
abbrev pub new_data : Context → Bytes → ProtectorData
new_data ctx name = record {
  protector_descriptor = [];
  source = ctx.config.source;
  name = name;
  costs = none;
  salt = [];
  uid = pos 0;
  wrapped_key = none;
}

module _ {W E K : Type 0} (process : Process) (names : EnumNames) (ret : Retrieval W E) where
  -- The checks of the name.
  unfoldable pub check_name : Context → W → Bytes → Context × Result (OpError E K) (Unit {0})
  unfolding check_for_protector_with_name
  check_name ctx w name =
      if eq_ℤ ctx.config.source Source.pam_passphrase
      then (
        ctx,
        if bytes_eq name [] then ok tt else err (login_protector_name name ctx.target_user),
      )
      else if bytes_eq name []
      then (ctx, err (missing_protector_name ctx.config.source))
      else check_for_protector_with_name names ret ctx w name

  abbrev pub salted :
      Context
      → ProtectorData
      → Result CryptoError Bytes
      → Context × Result (OpError E K) ProtectorData
  salted ctx fields (err e) = (ctx, err (crypto_failed e))
  salted ctx fields (ok salt) =
      (ctx, ok (record fields { salt = salt; costs = ctx.config.hash_costs }))

  abbrev pub add_salt : Context → ProtectorData → Context × Result (OpError E K) ProtectorData
  add_salt ctx fields = salted ctx fields (random_buffer process.primitives salt_len)

  abbrev pub login_checked :
      ProtectorData
      → Context × Result (OpError E K) (Unit {0})
      → Context × Result (OpError E K) ProtectorData
  login_checked fields (ctx, err e) = (ctx, err e)
  login_checked fields (ctx, ok u) = add_salt ctx fields

  -- The `switch`: the case of a login passphrase falls through to that of a custom one.
  unfoldable pub extra_data :
      Context → W → ProtectorData → Context × Result (OpError E K) ProtectorData
  unfolding check_if_user_has_login_protector
  extra_data ctx w fields =
      if eq_ℤ fields.source Source.pam_passphrase
      then login_checked (record fields { uid = pos ctx.target_user })
          (check_if_user_has_login_protector names ret ctx w (pos ctx.target_user))
      else if eq_ℤ fields.source Source.custom_passphrase
      then add_salt ctx fields
      else (ctx, ok fields)

module _ {S W E K : Type 0} (process : Process) (names : EnumNames) (ret : Retrieval W E)
    (s : Storage W E) where
  -- On an error the protector is locked and dropped.
  abbrev pub finish : Outcome S W E K → S × (W × Result (OpError E K) Protector)
  finish (st, (w, (protector, err e))) = (st, (w, err e))
  finish (st, (w, (protector, ok u))) = (st, (w, ok protector))

  module _ (fn : KeyFunc S K) (owner : Option User) (st : S) (w : W) where
    abbrev pub with_descriptor :
        Context
        → ProtectorData
        → Key
        → Result DescriptorError Bytes
        → S × (W × Result (OpError E K) Protector)
    with_descriptor ctx fields key (err e) = (st, (w, err (descriptor_failed e)))
    with_descriptor ctx fields key (ok d) = finish (
        rewrap process s fn
          (record {
            context = ctx;
            fields = record fields { protector_descriptor = d };
            key = some key;
            created = true;
            owner_if_creating = owner;
          })
          st w)

    abbrev pub with_key :
        Context → ProtectorData → Result CryptoError Key → S × (W × Result (OpError E K) Protector)
    with_key ctx fields (err e) = (st, (w, err (crypto_failed e)))
    with_key ctx fields (ok key) =
        with_descriptor ctx fields key (compute_key_descriptor process.hashes key (pos 1))

    abbrev pub with_data :
        Context × Result (OpError E K) ProtectorData → S × (W × Result (OpError E K) Protector)
    with_data (ctx, err e) = (st, (w, err e))
    with_data (ctx, ok fields) =
        with_key ctx fields (new_random_key process.primitives process.memory internal_key_len)

    abbrev pub name_checked :
        Bytes → Context × Result (OpError E K) (Unit {0}) → S × (W × Result (OpError E K) Protector)
    name_checked name (ctx, err e) = (st, (w, err e))
    name_checked name (ctx, ok u) =
        with_data (extra_data process names ret ctx w (new_data ctx name))

    abbrev pub context_checked :
        Bytes → Context × Result (OpError E K) (Unit {0}) → S × (W × Result (OpError E K) Protector)
    context_checked name (ctx, err e) = (st, (w, err e))
    context_checked name (ctx, ok u) = name_checked name (check_name process names ret ctx w name)

    -- The context with which the protector is made is the one that the checks have left.
    unfoldable pub create_protector : Context → Bytes → S × (W × Result (OpError E K) Protector)
    unfolding check_context check_name extra_data new_random_key compute_key_descriptor rewrap
    create_protector ctx name = context_checked name (check_context names ret ctx w)

-- The context with the mount of a linked protector.
abbrev pub linked_context : Context → Option Mount → Context
linked_context ctx none = ctx
linked_context ctx (some m) = record ctx { mount = m }

module _ {W E K : Type 0} (names : EnumNames) (ret : Retrieval W E) where
  abbrev pub locked_protector : Context → Result E ProtectorData → Result (OpError E K) Protector
  locked_protector ctx (err e) = lift_error (err e)
  locked_protector ctx (ok fields) = ok (record {
    context = ctx;
    fields = fields;
    key = none;
    created = false;
    owner_if_creating = none;
  })

  abbrev pub get_checked :
      W → Bytes → Context × Result (OpError E K) (Unit {0}) → Result (OpError E K) Protector
  get_checked w descriptor (ctx, err e) = err e
  get_checked w descriptor (ctx, ok u) =
      locked_protector ctx (ret.get_regular_protector ctx.mount descriptor ctx.trusted_user w)

  unfoldable pub get_protector : Context → W → Bytes → Result (OpError E K) Protector
  unfolding check_context
  get_protector ctx w descriptor = get_checked w descriptor (check_context names ret ctx w)

  abbrev pub from_info :
      Context → Option Mount → Option ProtectorData → Result (OpError E K) (Option Protector)
  from_info ctx m none = ok none
  from_info ctx m (some fields) = ok (
      some (record {
        context = linked_context ctx m;
        fields = fields;
        key = none;
        created = false;
        owner_if_creating = none;
      }))

  abbrev pub from_loaded :
      Context → ProtectorOption E → Option E → Result (OpError E K) (Option Protector)
  from_loaded ctx option (some e) = err (load_failed e)
  from_loaded ctx option none = from_info ctx option.linked_mount option.info

  abbrev pub from_checked :
      ProtectorOption E
      → Context × Result (OpError E K) (Unit {0})
      → Result (OpError E K) (Option Protector)
  from_checked option (ctx, err e) = err e
  from_checked option (ctx, ok u) = from_loaded ctx option option.load_error

  -- A protector without data, from an option without data and without an error, is `none`.
  unfoldable pub get_protector_from_option :
      Context → W → ProtectorOption E → Result (OpError E K) (Option Protector)
  unfolding check_context
  get_protector_from_option ctx w option = from_checked option (check_context names ret ctx w)
