-- ===== src/Filesystem/Policies/Removed.antt =====
-- A policy that RemovePolicy has removed is not found any more.
use fscrypt.Common.{
  ◌≡◌, refl, sym, ap, ◌∙◌, Option, none, Bytes, Result, ok, err, arith, Bool-cases,
}
use fscrypt.Actions.Types.{Mount, User}
use fscrypt.Filesystem.Store.{Files, find_file, StoreError, policy_not_found, System}
use fscrypt.Filesystem.Records.{is_not_exist, replaced, get_metadata, remove_metadata}
use fscrypt.Filesystem.Records.Kept.{get_metadata_absent, remove_metadata_success}
use fscrypt.Filesystem.Layout.{Layout, policy_format, setup_of, guarded, guarded_passed}
use fscrypt.Filesystem.Policies.{path_of, renamed_error, remove_policy, get_policy, without_owner}

pub renamed_success :
    (e : StoreError) (r : Files × Result StoreError (Unit {0}))
    → (renamed_error e r).1 ≡ ok tt
    → r.1 ≡ ok tt
renamed_success e (files, ok u) h = refl
renamed_success e (files, err x) h = absurd (ground (arith, Bool-cases (is_not_exist x)))

renamed-files :
    (e : StoreError) (r : Files × Result StoreError (Unit {0})) → (renamed_error e r).0 ≡ r.0
renamed-files e (files, r) = refl

module _ (s : System) (l : Layout) where
  -- After RemovePolicy has succeeded, GetPolicy answers for every trusted user for whom CheckSetup
  -- succeeds that there is no policy of this descriptor.
  pub get_policy-remove_policy :
      (m : Mount) (d : Bytes) (trusted : Option User) (files : Files)
      → (remove_policy s l m d files).1 ≡ ok tt
      → setup_of l m trusted ≡ ok tt
      → get_policy s l m d trusted (remove_policy s l m d files).0 ≡ err (policy_not_found d)
  unfolding remove_policy get_policy
  get_policy-remove_policy m d trusted files h set_up =
      let path = path_of l m d in
      let f = policy_format l in
      let removed = remove_metadata s path files in
      let next = renamed_error (policy_not_found d) removed in
      let whole : remove_policy s l m d files ≡ next =
        guarded_passed (λ r. r.1) (setup_of l m none) (λ x. (files, err x)) next tt (λ x. refl) h in
      let done = renamed_success (policy_not_found d) removed (sym (ap (λ r. r.1) whole) ∙ h) in
      let gone : find_file path (remove_policy s l m d files).0 ≡ none =
        ap (λ r. find_file path r.0) whole
        ∙ ap (find_file path) (renamed-files (policy_not_found d) removed)
        ∙ remove_metadata_success s path files done in
      let absent = get_metadata_absent s f path trusted (remove_policy s l m d files).0 gone in
      ap
        (λ c.
          guarded c (λ x. err x)
            (replaced (policy_not_found d)
              (without_owner (get_metadata s f path trusted (remove_policy s l m d files).0))))
        set_up
      ∙ ap (λ r. replaced (policy_not_found d) (without_owner r)) absent
