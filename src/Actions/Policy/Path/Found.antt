-- ===== src/Actions/Policy/Path/Found.antt =====
-- GetPolicyFromPath after Apply.
use fscrypt.Common.{
  ◌==◌, ◌≡◌, refl, sym, ap, ◌∙◌, Bool, true, false, All, none, some, Bytes, if◌then◌else◌, Result,
  ok, err, arith,
}
use fscrypt.Hex.{IsLowerHex}
use fscrypt.Metadata.Types.{EncryptionOptions, PolicyData}
use fscrypt.Metadata.Checks.{EnumNames}
use fscrypt.Metadata.Checks.Valid.{version_of}
use fscrypt.Metadata.Ioctl as Ioctl
use fscrypt.Metadata.Ioctl.{PolicyError}
use fscrypt.Metadata.Setting.{set_policy}
use fscrypt.Metadata.Setting.RoundTrip.{StoresPolicies, HasByteModes, get_policy-set_policy}
use fscrypt.Keyring.Types as Keyring
use fscrypt.Actions.Types.{Mount, Context, Policy}
use fscrypt.Actions.Context.{Retrieval, check_context}
use fscrypt.Actions.Policy.Path.{
  PathError, Paths, lift_support, as_applied, on_mount, apply, get_policy_from_path,
}
use fscrypt.Actions.Policy.Path.Agrees.{locked_policy, get_policy_from_path_iff}

module _ {E K : Type 0} (names : EnumNames) (k : Ioctl.Kernel) (policy : Policy) where
  lifted_ok :
      (r : Result PolicyError (Unit {0}))
      → lift_support {E = E} {K = K} names k policy r ≡ ok tt
      → r ≡ ok tt
  lifted_ok (ok u) h = refl
  lifted_ok (err e) h = absurd (ground (arith, h))

  same_mount :
      (path : Bytes) (kw : k.World) (b : Bool)
      (out : k.World × (Policy × Result (PathError E K) (Unit {0})))
      (r : Result (PathError E K) (Unit {0}))
      → (r ≡ ok tt → ⊥)
      → (if b then out else (kw, (policy, r))).1.1 ≡ ok tt
      → (if b then out else (kw, (policy, r))) ≡ out
  same_mount path kw true out r bad h = refl
  same_mount path kw false out r bad h = absurd (bad h)

  -- An Apply that succeeds is a SetPolicy that succeeds.
  mounted_set :
      (path : Bytes) (kw : k.World) (r : Result E Mount)
      → (on_mount {K = K} names k policy path kw r).1.1 ≡ ok tt
      → ((set_policy k names kw path policy.fields).1.1 ≡ ok tt)
        × ((on_mount {K = K} names k policy path kw r).0
            ≡ (set_policy k names kw path policy.fields).1.0)
  mounted_set path kw (err e) h = absurd (ground (arith, h))
  mounted_set path kw (ok m) h =
      let same =
        same_mount path kw (m == policy.context.mount)
          (as_applied names k policy (set_policy k names kw path policy.fields)) _
          (λ q. ground (arith, q)) h in
      (lifted_ok _ (ap (λ o. o.1.1) (sym same) ∙ h), ap (λ o. o.0) same)

module _ {W E J : Type 0} (K : Type 0) (names : EnumNames) (ret : Retrieval W E) (paths : Paths E)
    (rings : Keyring.Kernel J) (k : Ioctl.Kernel) (laws : StoresPolicies k) where
  -- After an Apply that succeeds, GetPolicyFromPath finds in the directory the policy that the
  -- filesystem has under the descriptor, if that has the options of the applied policy with a set
  -- version. The kernel stores what is set, the modes are bytes, the descriptor is lower-case
  -- hexadecimal, the directory can be opened, and the context passes its check.
  pub get_policy_from_path-apply :
      (w : W) (path : Bytes) (policy : Policy) (e : EncryptionOptions) (kw : k.World)
      (ctx : Context) (st : Keyring.State J) (mount_data : PolicyData)
      → policy.fields.options ≡ some e
      → HasByteModes e
      → All IsLowerHex policy.fields.key_descriptor
      → (apply {K = K} names k policy paths kw path).1.1 ≡ ok tt
      → k.open_path (apply {K = K} names k policy paths kw path).0 path ≡ none
      → (check_context names ret {K = K} ctx w).1 ≡ ok tt
      → ret.get_policy
          (check_context names ret {K = K} ctx w).0.mount
          policy.fields.key_descriptor
          (check_context names ret {K = K} ctx w).0.trusted_user
          w
        ≡ ok mount_data
      → mount_data.options ≡ some (record e { policy_version = version_of e })
      → mount_data.key_descriptor ≡ policy.fields.key_descriptor
      → (get_policy_from_path {K = K} names ret paths rings w path k
          (apply {K = K} names k policy paths kw path).0
          ctx
          st).1
        ≡ ok (locked_policy (check_context names ret {K = K} ctx w).0 mount_data)
  unfolding apply
  get_policy_from_path-apply w path policy e kw ctx st mount_data has modes lower done opens good
        got same named =
      let (set, world) = mounted_set {K = K} names k policy path kw (paths.find_mount path) done in
      let opens' : k.open_path (set_policy k names kw path policy.fields).1.0 path ≡ none =
        ap (λ x. k.open_path x path) (sym world) ∙ opens in
      let read =
        get_policy-set_policy k laws names kw path policy.fields e has modes lower set opens' in
      (get_policy_from_path_iff K names ret paths rings w path k _ ctx st _).1 (
        good,
        (
          _,
          mount_data,
          ap (λ x. Ioctl.get_policy k x path) world ∙ read,
          got,
          sym same,
          sym named,
          refl,
        ),
      )
