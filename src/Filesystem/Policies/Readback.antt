-- ===== src/Filesystem/Policies/Readback.antt =====
-- A policy that AddPolicy has stored is the one that GetPolicy finds.
use mathlib.Core.Path.{subst}
use fscrypt.Common.{pos, ◌≡◌, refl, sym, ap, ◌∙◌, ◌⊎◌, Option, none, some, ok, err, arith}
use fscrypt.Metadata.Types.{PolicyData, EncryptionOptions}
use fscrypt.Metadata.Checks.{EnumNames}
use fscrypt.Metadata.Checks.Valid.{version_of}
use fscrypt.Metadata.Checks.Whole.{check_policy}
use fscrypt.Metadata.Checks.PolicyForm.{DescriptorFits, check_policy_iff, check_policy_state}
use fscrypt.Actions.Types.{Mount, User}
use fscrypt.Filesystem.Store.{Files, System, create_temp, policy_not_found}
use fscrypt.Filesystem.Store.Reading.{IsTrusted}
use fscrypt.Filesystem.Records.{add_metadata, get_metadata, replaced}
use fscrypt.Filesystem.Records.Kept.{
  Marshals, Reads, add_metadata-data, add_metadata_success, get_after_write,
}
use fscrypt.Filesystem.Layout.{Layout, policy_format, setup_of, guarded, guarded_passed}
use fscrypt.Filesystem.Policies.{path_of, add_policy, get_policy, without_owner}

version_kept :
    (e : EncryptionOptions)
    → (version_of e ≡ pos 1) ⊎ (version_of e ≡ pos 2)
    → version_of (record e { policy_version = version_of e }) ≡ version_of e
version_kept e v = ground arith

module _ (names : EnumNames) where
  written : PolicyData → EncryptionOptions → PolicyData
  written p e = record p { options = some (record e { policy_version = version_of e }) }

  -- A policy that has passed the check passes it again, unchanged.
  checked_twice :
      (p : PolicyData)
      → (check_policy names p).1 ≡ ok tt
      → check_policy names (check_policy names p).0 ≡ ((check_policy names p).0, ok tt)
  checked_twice p h =
      let (e, q, slots, (padding, contents, filenames, version), fits) =
        (check_policy_iff names p).0 h in
      let e' : EncryptionOptions = record e { policy_version = version_of e } in
      let p' : PolicyData = record p { options = some e' } in
      let same = version_kept e version in
      let state = check_policy_state names p e q h in
      let fits' : DescriptorFits e' p'.key_descriptor = ground (arith, same, fits) in
      let version' : (version_of e' ≡ pos 1) ⊎ (version_of e' ≡ pos 2) =
        ground (arith, same, version) in
      let valid =
        (check_policy_iff names p').1
          (e', refl, slots, (padding, contents, filenames, version'), fits') in
      let again = check_policy_state names p' e' refl valid in
      let kept : (check_policy names p').0 ≡ p' =
        again ∙ ap (λ v. record p { options = some (record e { policy_version = v }) }) same in
      subst (λ r. check_policy names r ≡ (r, ok tt)) (sym state) (λ i. (kept i, valid i))

module _ (s : System) (l : Layout) where
  -- After AddPolicy has stored a policy for an owner, where a temporary file can be created, GetPolicy
  -- finds by the descriptor the policy that AddPolicy left in its argument, for every trusted user
  -- that the owner satisfies and for whom CheckSetup succeeds, if the text of the policy is
  -- unmarshalled to it and is not too long, and if no call fails when it is read.
  pub get_policy-add_policy :
      (m : Mount) (p : PolicyData) (owner : User) (trusted : Option User) (files : Files)
      → let r = add_policy s l m p (some owner) files in
        let path = path_of l m p.key_descriptor in
        Marshals (policy_format l) r.1.0
        → IsTrusted owner trusted
        → s.fails create_temp path ≡ none
        → Reads s path
        → setup_of l m trusted ≡ ok tt
        → r.1.1 ≡ ok tt
        → get_policy s l m p.key_descriptor trusted r.0 ≡ ok r.1.0
  unfolding add_policy get_policy
  get_policy-add_policy m p owner trusted files law trust e reads set_up h =
      let path = path_of l m p.key_descriptor in
      let f = policy_format l in
      let added = add_metadata s f path p (some owner) files in
      let q = (check_policy l.names p).0 in
      let whole : add_policy s l m p (some owner) files ≡ added =
        guarded_passed (λ r. r.1.1) (setup_of l m none) (λ x. (files, (p, err x))) added tt
          (λ x. refl) h in
      let same : (add_policy s l m p (some owner) files).1.0 ≡ q =
        ap (λ r. r.1.0) whole ∙ add_metadata-data s f path p (some owner) files in
      let (good, stored) =
        add_metadata_success s f path p owner files e (sym (ap (λ r. r.1.1) whole) ∙ h) in
      let found =
        get_after_write s f path owner trusted q added.0 (subst (Marshals f) same law) trust reads
          (checked_twice l.names p good) stored in
      ap
        (λ c.
          guarded c (λ x. err x)
            (replaced (policy_not_found p.key_descriptor) (
              without_owner
                (get_metadata s f path trusted (add_policy s l m p (some owner) files).0))))
        set_up
      ∙ ap
          (λ r.
            replaced (policy_not_found p.key_descriptor)
              (without_owner (get_metadata s f path trusted r.0)))
          whole
      ∙ ap (λ r. replaced (policy_not_found p.key_descriptor) (without_owner r)) found
      ∙ ap ok (sym same)
