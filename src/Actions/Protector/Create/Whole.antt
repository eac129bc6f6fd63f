-- ===== src/Actions/Protector/Create/Whole.antt =====
-- The whole of CreateProtector.
use mathlib.Core.Path.{subst}
use fscrypt.Common.{◌≡◌, refl, sym, inl, pos, true, Option, some, Bytes, length, Result, ok, err}
use fscrypt.Metadata.Types.{ProtectorData, SourceType}
use fscrypt.Metadata.Checks.{EnumNames, check_for_source}
use fscrypt.Crypto.Key.{Key, data_of}
use fscrypt.Crypto.Random.{new_random_key, new_random_key_size}
use fscrypt.Crypto.Wrap.{CryptoError}
use fscrypt.Crypto.Wrap.RoundTrip as Wrapping
use fscrypt.Crypto.Derive.{DescriptorError, compute_key_descriptor}
use fscrypt.Crypto.Derive.Accepted as Deriving
use fscrypt.Actions.Types.{User, Context, Protector, Storage, Process}
use fscrypt.Actions.Callback.{KeyFunc}
use fscrypt.Actions.Context.{Retrieval, OpError, check_context}
use fscrypt.Actions.Context.Good.{IsGood, check_context-IsGood}
use fscrypt.Actions.Protector.Create.{
  new_data, check_name, extra_data, with_descriptor, with_key, with_data, name_checked,
  context_checked, create_protector,
}
use fscrypt.Actions.Protector.Create.Created.{Creation, rewrapped-Creation}
use fscrypt.Actions.Protector.Create.Stages.{IsExtended, check_name-IsGood, extra_data-IsExtended}

module _ {S W E : Type 0} (K : Type 0) (process : Process)
    (wrapping : Wrapping.AreLawful process.primitives) (hashing : Deriving.AreLawful process.hashes)
    (names : EnumNames) (ret : Retrieval W E) (s : Storage W E) (fn : KeyFunc S K)
    (owner : Option User) (st : S) (w : W) (name : Bytes) where
  described-Creation :
      (start ctx : Context) (fields : ProtectorData) (key : Key) (r : Result DescriptorError Bytes)
      → compute_key_descriptor process.hashes key (pos 1) ≡ r
      → IsExtended names (new_data start name) fields
      → length (data_of key) ≡ 32
      → Creation names s owner name w
          (with_descriptor process names ret s fn owner st w ctx fields key r)
  unfolding check_for_source
  described-Creation start ctx fields key (err e) q x long = inl refl
  described-Creation start ctx fields key (ok d) q x long =
      let fits = Deriving.descriptor_v1_length process.hashes hashing key d q in
      let p : Protector = record {
        context = ctx;
        fields = record fields { protector_descriptor = d };
        key = some key;
        created = true;
        owner_if_creating = owner;
      } in
      subst
        (λ (n : Bytes).
          Creation names s owner n w
            (with_descriptor process names ret s fn owner st w ctx fields key (ok d)))
        x.same_name
        (rewrapped-Creation K process wrapping names ret s w p key refl long refl
          (record { source = x.source; passphrase = x.passphrase; descriptor = fits }) fn st)

  keyed-Creation :
      (start ctx : Context) (fields : ProtectorData) (r : Result CryptoError Key)
      → new_random_key process.primitives process.memory 32 ≡ r
      → IsExtended names (new_data start name) fields
      → Creation names s owner name w (with_key process names ret s fn owner st w ctx fields r)
  keyed-Creation start ctx fields (err e) q x = inl refl
  keyed-Creation start ctx fields (ok key) q x =
      described-Creation start ctx fields key (compute_key_descriptor process.hashes key (pos 1))
        refl x (new_random_key_size process.primitives process.memory 31 key q)

  supplied-Creation :
      (ctx : Context) (r : Context × Result (OpError E K) ProtectorData)
      → ((fields : ProtectorData) → r.1 ≡ ok fields → IsExtended names (new_data ctx name) fields)
      → Creation names s owner name w (with_data process names ret s fn owner st w r)
  supplied-Creation ctx (ctx', err e) f = inl refl
  supplied-Creation ctx (ctx', ok fields) f =
      keyed-Creation ctx ctx' fields (new_random_key process.primitives process.memory 32) refl
        (f fields refl)

  name-Creation :
      (r : Context × Result (OpError E K) (Unit {0}))
      → (r.1 ≡ ok tt → IsGood names r.0.config.source r.0.config)
      → Creation names s owner name w (name_checked process names ret s fn owner st w name r)
  name-Creation (ctx, err e) g = inl refl
  name-Creation (ctx, ok u) g =
      supplied-Creation ctx (extra_data process names ret ctx w (new_data ctx name)) (λ fields e.
        extra_data-IsExtended process names ret wrapping ctx w (new_data ctx name) fields (g refl)
          e)

  context-Creation :
      (x : SourceType) (r : Context × Result (OpError E K) (Unit {0}))
      → (r.1 ≡ ok tt → IsGood names x r.0.config)
      → Creation names s owner name w (context_checked process names ret s fn owner st w name r)
  context-Creation x (ctx, err e) g = inl refl
  context-Creation x (ctx, ok u) g = name-Creation (check_name process names ret ctx w name) (λ e.
      let good = check_name-IsGood process names ret x ctx w name (g refl) e in
      subst
        (λ (y : SourceType).
          IsGood names y (check_name {K = K} process names ret ctx w name).0.config)
        (sym good.same) good)

  -- CreateProtector returns a protector only if AddProtector has stored its data, and then the key
  -- is there, of 32 bytes, the data pass CheckValidity, and the name and the owner are those given.
  -- If it returns an error, nothing is stored: the filesystems are as before, or as an AddProtector
  -- that returned an error has left them. The primitives have their documented output lengths.
  pub create_protector_lem :
      (ctx : Context)
      → Creation names s owner name w (create_protector process names ret s fn owner st w ctx name)
  unfolding create_protector
  create_protector_lem ctx =
      context-Creation ctx.config.source (check_context names ret ctx w)
        (λ e. check_context-IsGood names ret ctx w e)
