-- ===== src/Actions/Policy/Path/Agrees.antt =====
-- What a policy that GetPolicyFromPath returns agrees with, and that it finds what Apply has set.
use fscrypt.Common.{
  ◌&&◌, not, eq_ℤ→eq, eq_ℤ_refl, ◌↔◌, [], ◌≡◌, refl, sym, ap, ◌∙◌, Bool, true, false, Option, none,
  some, Bytes, bytes_eq, bytes_eq→eq, bytes_eq_refl, if◌then◌else◌, Result, ok, err, arith,
}
use fscrypt.Metadata.Types.{EncryptionOptions, PolicyData}
use fscrypt.Metadata.Checks.{EnumNames}
use fscrypt.Metadata.Ioctl as Ioctl
use fscrypt.Metadata.Ioctl.{PolicyError}
use fscrypt.Keyring.Types as Keyring
use fscrypt.Keyring.Dispatch.{is_fs_keyring_supported}
use fscrypt.Actions.Types.{Context, Policy}
use fscrypt.Actions.Context.{Retrieval, OpError, check_context}
use fscrypt.Actions.Policy.Path.{
  SupportError, support_error, encryption_support_error, eq_options, Paths, with_metadata, denied,
  is_permission, with_path_data, context_checked, get_policy_from_path,
}

eq_options→eq : (a b : Option EncryptionOptions) → eq_options a b ≡ true → a ≡ b
eq_options→eq none none h = refl
eq_options→eq none (some b) h = absurd (ground (arith, h))
eq_options→eq (some a) none h = absurd (ground (arith, h))
eq_options→eq (some a) (some b) h =
    let padding : a.padding ≡ b.padding = eq_ℤ→eq _ _ (ground (arith, h)) in
    let contents : a.contents ≡ b.contents = eq_ℤ→eq _ _ (ground (arith, h)) in
    let filenames : a.filenames ≡ b.filenames = eq_ℤ→eq _ _ (ground (arith, h)) in
    let version : a.policy_version ≡ b.policy_version = eq_ℤ→eq _ _ (ground (arith, h)) in
    λ i. some (record {
      padding = padding i;
      contents = contents i;
      filenames = filenames i;
      policy_version = version i;
    })

eq_options_refl : (a : Option EncryptionOptions) → eq_options a a ≡ true
eq_options_refl none = refl
eq_options_refl (some a) = ground (
  arith,
  eq_ℤ_refl a.padding,
  eq_ℤ_refl a.contents,
  eq_ℤ_refl a.filenames,
  eq_ℤ_refl a.policy_version,
)

both_passed :
    {A B : Type 0} (a b : Bool) (x y : B) (p q : A)
    → (if not a then err x else if not b then err y else ok p) ≡ ok q
    → (a ≡ true) × (b ≡ true) × (q ≡ p)
both_passed true true x y p q h = (refl, refl, ground (arith, h))
both_passed true false x y p q h = absurd (ground (arith, h))
both_passed false b x y p q h = absurd (ground (arith, h))

abbrev pub locked_policy : Context → PolicyData → Policy
locked_policy ctx fields = record {
  context = ctx;
  fields = fields;
  key = none;
  created = false;
  owner_if_creating = none;
  new_linked_protectors = [];
}

module _ {W E : Type 0} (ret : Retrieval W E) (w : W) where
  -- The directory has the options and the descriptor that the stored policy has.
  abbrev pub Agreement : Context → Result PolicyError PolicyData → Policy → Type 0
  Agreement ctx r policy =
      (path_data : PolicyData) × (mount_data : PolicyData) × (r ≡ ok path_data)
      × (ret.get_policy ctx.mount path_data.key_descriptor ctx.trusted_user w ≡ ok mount_data)
      × (path_data.options ≡ mount_data.options)
      × (path_data.key_descriptor ≡ mount_data.key_descriptor)
      × (policy ≡ locked_policy ctx mount_data)

module _ {W E J : Type 0} (K : Type 0) (names : EnumNames) (ret : Retrieval W E) (paths : Paths E)
    (rings : Keyring.Kernel J) (w : W) (path : Bytes) where
  compared_sound :
      (ctx : Context) (path_data : PolicyData) (o : Result E PolicyData) (policy : Policy)
      → ret.get_policy ctx.mount path_data.key_descriptor ctx.trusted_user w ≡ o
      → with_metadata {K = K} names ret paths rings w path ctx path_data o ≡ ok policy
      → Agreement ret w ctx (ok path_data) policy
  compared_sound ctx path_data (err e) policy q h = absurd (ground (arith, h))
  compared_sound ctx path_data (ok mount_data) policy q h =
      let (same, named, found) =
        both_passed (eq_options path_data.options mount_data.options)
          (bytes_eq path_data.key_descriptor mount_data.key_descriptor) _ _
          (locked_policy ctx mount_data) policy h in
      (
        path_data,
        mount_data,
        refl,
        q,
        eq_options→eq path_data.options mount_data.options same,
        bytes_eq→eq path_data.key_descriptor mount_data.key_descriptor named,
        found,
      )

  compared_complete :
      (ctx : Context) (path_data mount_data : PolicyData) (o : Result E PolicyData)
      → o ≡ ok mount_data
      → path_data.options ≡ mount_data.options
      → path_data.key_descriptor ≡ mount_data.key_descriptor
      → with_metadata {K = K} names ret paths rings w path ctx path_data o
        ≡ ok (locked_policy ctx mount_data)
  compared_complete ctx path_data mount_data (err e) h same named = absurd (ground (arith, h))
  compared_complete ctx path_data mount_data (ok fields) h same named =
      let this : fields ≡ mount_data = ground (arith, h) in
      let equal : eq_options path_data.options fields.options ≡ true =
        ap (λ (x : PolicyData). eq_options path_data.options x.options) this
        ∙ ap (λ x. eq_options path_data.options x) (sym same)
        ∙ eq_options_refl path_data.options in
      let equal' : bytes_eq path_data.key_descriptor fields.key_descriptor ≡ true =
        ap (λ (x : PolicyData). bytes_eq path_data.key_descriptor x.key_descriptor) this
        ∙ ap (λ x. bytes_eq path_data.key_descriptor x) (sym named)
        ∙ bytes_eq_refl path_data.key_descriptor in
      rw (equal, equal') (ap (λ x. ok (locked_policy ctx x)) this)

  read_iff :
      (ctx : Context) (r : Result PolicyError PolicyData) (st : Keyring.State J) (policy : Policy)
      → ((with_path_data {K = K} names ret paths rings w path ctx r st).1 ≡ ok policy)
        ↔ Agreement ret w ctx r policy
  read_iff ctx (err e) st policy = (
    λ h. absurd (unreadable_fails (is_permission x && paths.have_read_access_to path) h),
    λ (path_data, mount_data, read, got, same, named, found). absurd (ground (arith, read)),
  )
    where
      x : SupportError
      x = encryption_support_error ctx.mount e

      denied_fails :
          (s : Keyring.State J × Bool)
          → (denied {K = K} names ret paths rings w path x s).1 ≡ ok policy
          → ⊥
      denied_fails (s, true) h = ground (arith, h)
      denied_fails (s, false) h = ground (arith, h)

      unreadable_fails :
          (b : Bool)
          → (if b
              then denied {K = K} names ret paths rings w path x
                  (is_fs_keyring_supported rings ctx.mount st)
              else (st, err (support_error x))).1
            ≡ ok policy
          → ⊥
      unreadable_fails true h = denied_fails (is_fs_keyring_supported rings ctx.mount st) h
      unreadable_fails false h = ground (arith, h)
  read_iff ctx (ok fields) st policy = (
    λ h. compared_sound ctx fields _ policy refl h,
    λ (path_data, mount_data, read, got, same, named, found).
        let this : fields ≡ path_data = ground (arith, read) in
        compared_complete ctx fields mount_data _
          (ap (λ (x : PolicyData). ret.get_policy ctx.mount x.key_descriptor ctx.trusted_user w)
              this
            ∙ got)
          (ap (λ (x : PolicyData). x.options) this ∙ same)
          (ap (λ (x : PolicyData). x.key_descriptor) this ∙ named)
        ∙ ap (λ x. ok x) (sym found),
  )

  checked_iff :
      (k : Ioctl.Kernel) (kw : k.World) (r : Context × Result (OpError E K) (Unit {0}))
      (st : Keyring.State J) (policy : Policy)
      → ((context_checked names ret paths rings w path k kw r st).1 ≡ ok policy)
        ↔ ((r.1 ≡ ok tt) × Agreement ret w r.0 (Ioctl.get_policy k kw path) policy)
  checked_iff k kw (ctx, err e) st policy =
      (λ h. absurd (ground (arith, h)), λ (h, rest). absurd (ground (arith, h)))
  checked_iff k kw (ctx, ok u) st policy =
      let both = read_iff ctx (Ioctl.get_policy k kw path) st policy in
      (λ h. (refl, both.0 h), λ (h, rest). both.1 rest)

  -- GetPolicyFromPath returns a policy exactly if the context passes its check, the kernel has a
  -- policy for the directory, the filesystem has one of that descriptor for the trusted user, and
  -- the two have the same options and descriptor; it is then the locked policy of the filesystem.
  pub get_policy_from_path_iff :
      (k : Ioctl.Kernel) (kw : k.World) (ctx : Context) (st : Keyring.State J) (policy : Policy)
      → ((get_policy_from_path {K = K} names ret paths rings w path k kw ctx st).1 ≡ ok policy) ↔ (
          ((check_context names ret {K = K} ctx w).1 ≡ ok tt)
          × Agreement ret w
              (check_context names ret {K = K} ctx w).0
              (Ioctl.get_policy k kw path)
              policy)
  unfolding get_policy_from_path
  get_policy_from_path_iff k kw ctx st policy =
      checked_iff k kw (check_context names ret ctx w) st policy
