-- ===== src/Filesystem/Protectors/Links.antt =====
-- What AddLinkedProtector leaves, and how GetProtector follows it.
use fscrypt.Common.{
  ◌≤◌, ◌≡◌, ◌≢◌, refl, sym, ap, ◌∙◌, inl, inr, Bool-cases, ◌==◌, true, [], ◌∷◌, ◌++◌, Option, none,
  some, Bytes, codes, append_assoc, length, length-append, Result, ok, err, arith,
}
use fscrypt.Metadata.Types.{ProtectorData}
use fscrypt.Actions.Types.{Mount, User}
use fscrypt.Filesystem.Clean.{slash, IsName, last_part, join_path-parts}
use fscrypt.Filesystem.Split.{Lacks}
use fscrypt.Filesystem.Link.{FollowError, get_mount_from_link, make_link}
use fscrypt.Filesystem.Setup.{protector_path, protector_dir, linked_protector_path}
use fscrypt.Filesystem.Store.{
  File, Files, find_file, StoreError, System, create_temp, owner_or_self, write_data,
  read_metadata_file_safe, max_metadata_file_size, protector_not_found,
}
use fscrypt.Filesystem.Store.Atomic.{write_data-Written, write_data_success}
use fscrypt.Filesystem.Store.Reading.{IsSafe, IsTrusted, read_metadata_complete}
use fscrypt.Filesystem.Records.{file_permissions, is_not_exist, replaced}
use fscrypt.Filesystem.Records.Kept.{Reads, get_metadata-found}
use fscrypt.Filesystem.Layout.{
  Layout, protector_format, setup_of, guarded, guarded_passed, guarded_set_up,
}
use fscrypt.Filesystem.Protectors.{
  path_of, link_path_of, owner_checked, get_regular_protector, followed, through_link, link_read,
  get_protector, existing_link, created_link, make_new_link, link_good, add_linked_protector,
}

Lacks-append : (d : Bytes) → Lacks slash d → Lacks slash (d ++ codes ".link")
Lacks-append [] h = omega arith
Lacks-append (c ∷ d) (h, hs) = (h, Lacks-append d hs)

too_long : (d : Bytes) → d ++ codes ".link" ≢ d
too_long d e = let n = ap length e in omega (arith, n, length-append d (codes ".link"))

module _ (l : Layout) where
  -- A link does not stand in the place of a protector of the same descriptor, on any filesystem.
  links_apart : (m dest : Mount) (d : Bytes) → IsName d → path_of l dest d ≢ link_path_of l m d
  unfolding linked_protector_path protector_path
  links_apart m dest d name e =
      let (x, ex) = join_path-parts (protector_dir l.tree (l.mount_of m)) d name in
      let (y, ey) = join_path-parts (protector_dir l.tree (l.mount_of dest)) d name in
      let both : y ++ slash ∷ d ≡ x ++ slash ∷ (d ++ codes ".link") =
        sym ey ∙ e ∙ ap (λ r. r ++ codes ".link") ex ∙ append_assoc x (slash ∷ d) (codes ".link") in
      too_long d
        (sym (last_part y x d (d ++ codes ".link") name.lacks (Lacks-append d name.lacks) both).1)

module _ (s : System) (l : Layout) where
  get_regular_found :
      (m : Mount) (d : Bytes) (trusted : Option User) (files files' : Files)
      → find_file (path_of l m d) files' ≡ find_file (path_of l m d) files
      → get_regular_protector s l m d trusted files' ≡ get_regular_protector s l m d trusted files
  unfolding get_regular_protector
  get_regular_found m d trusted files files' e =
      ap
        (λ r.
          guarded (setup_of l m trusted) (λ x. err x)
            (owner_checked (path_of l m d) (replaced (protector_not_found d) r)))
        (get_metadata-found s (protector_format l) (path_of l m d) trusted files files' e)

  created_true :
      (r : Files × Result StoreError (Unit {0}))
      → (created_link s l r).1 ≡ ok true
      → (r.1 ≡ ok tt) × ((created_link s l r).0 ≡ r.0)
  created_true (files, ok u) h = (refl, refl)
  created_true (files, err e) h = absurd (ground arith)

  existing_true :
      (dest : Mount) (path : Bytes) (files : Files) (r : Result FollowError Mount)
      → (existing_link s l dest path files r).1 ≢ ok true
  existing_true dest path files (err e) h = absurd (ground arith)
  existing_true dest path files (ok m) h = absurd (ground (arith, Bool-cases (m == dest)))

  abbrev written : Mount → Bytes → Option User → Files → Files × Result StoreError (Unit {0})
  written dest path owner files =
      write_data s path (make_link (l.uuid_of dest) (l.mount_of dest)) owner file_permissions files

  make_new_true :
      (dest : Mount) (path : Bytes) (owner : Option User) (files : Files)
      (r : Result StoreError (Bytes × User))
      → (make_new_link s l dest path owner files r).1 ≡ ok true
      → ((written dest path owner files).1 ≡ ok tt)
        × ((make_new_link s l dest path owner files r).0 ≡ (written dest path owner files).0)
  make_new_true dest path owner files (ok (link, uid)) h =
      absurd (existing_true dest path files (get_mount_from_link l.lookups link) h)
  make_new_true dest path owner files (err e) h = elim (Bool-cases (is_not_exist e)) [
    | inl absent ↦ rw absent (created_true (written dest path owner files) (rw absent at h))
    | inr other ↦ absurd (ground (arith, other, h))
  ]

  link_made :
      (dest : Mount) (path : Bytes) (trusted owner : Option User) (files : Files)
      (r : Result StoreError ProtectorData)
      → (link_good s l dest path trusted owner files r).1 ≡ ok true
      → (p : ProtectorData) × (r ≡ ok p)
        × ((written dest path owner files).1 ≡ ok tt)
        × ((link_good s l dest path trusted owner files r).0 ≡ (written dest path owner files).0)
  link_made dest path trusted owner files (err e) h = absurd (ground arith)
  link_made dest path trusted owner files (ok p) h =
      let (done, same) =
        make_new_true dest path owner files (read_metadata_file_safe s path trusted files) h in
      (p, refl, done, same)

  -- What a link that was newly made amounts to.
  record NewLink (m : Mount) (d : Bytes) (dest : Mount) (trusted owner : Option User)
      (files files' : Files) : Type 0 where
    set_up : setup_of l m trusted ≡ ok tt
    protector : ProtectorData
    regular : get_regular_protector s l dest d trusted files ≡ ok protector
    kept : get_regular_protector s l dest d trusted files' ≡ ok protector
    read :
        read_metadata_file_safe s (link_path_of l m d) trusted files'
        ≡ ok (make_link (l.uuid_of dest) (l.mount_of dest), owner_or_self s owner)

  new_link :
      (m : Mount) (d : Bytes) (dest : Mount) (trusted owner : Option User) (files : Files)
      → let r = add_linked_protector s l m d dest trusted owner files in
        let link = make_link (l.uuid_of dest) (l.mount_of dest) in
        IsName d
        → s.fails create_temp (link_path_of l m d) ≡ none
        → Reads s (link_path_of l m d)
        → IsTrusted (owner_or_self s owner) trusted
        → length link ≤ max_metadata_file_size
        → r.1 ≡ ok true
        → NewLink m d dest trusted owner files r.0
  unfolding add_linked_protector
  new_link m d dest trusted owner files name e reads trust short h =
      let path = link_path_of l m d in
      let link = make_link (l.uuid_of dest) (l.mount_of dest) in
      let regular = get_regular_protector s l dest d trusted files in
      let next = link_good s l dest path trusted owner files regular in
      let whole : add_linked_protector s l m d dest trusted owner files ≡ next =
        guarded_passed (λ r. r.1) (setup_of l m trusted) (λ x. (files, err x)) next true (λ x. refl)
          h in
      let (p, found, done, same) =
        link_made dest path trusted owner files regular (sym (ap (λ r. r.1) whole) ∙ h) in
      let files' = (add_linked_protector s l m d dest trusted owner files).0 in
      let there : files' ≡ (written dest path owner files).0 = ap (λ r. r.0) whole ∙ same in
      let file : File = record {
        is_regular = true;
        uid = owner_or_self s owner;
        mode = file_permissions;
        content = link;
      } in
      let here : find_file path files' ≡ some file =
        ap (find_file path) there
        ∙ write_data_success s path link owner file_permissions files e done in
      let safe : IsSafe trusted file = record { regular = refl; owned = trust; small = short } in
      let elsewhere : find_file (path_of l dest d) files' ≡ find_file (path_of l dest d) files =
        ap (find_file (path_of l dest d)) there
        ∙ (write_data-Written s path link owner file_permissions files).others (path_of l dest d)
            (links_apart l m dest d name) in
      record {
        set_up =
            guarded_set_up (λ r. r.1) (setup_of l m trusted) (λ x. (files, err x)) next true
              (λ x. refl) h;
        protector = p;
        regular = found;
        kept = get_regular_found dest d trusted files files' elsewhere ∙ found;
        read = read_metadata_complete s path trusted files' file here safe reads.opens reads.reads;
      }

  -- If AddLinkedProtector makes a new link, where a temporary file can be created, then GetProtector
  -- follows it to the protector that the other filesystem had and has, if the link leads back to
  -- that filesystem, is not too long, belongs to a user whom the trusted user accepts, and is read
  -- without a failing call, and if the descriptor is the name of a file.
  pub get_protector-add_linked_protector :
      (m : Mount) (d : Bytes) (dest : Mount) (trusted owner : Option User) (files : Files)
      → let r = add_linked_protector s l m d dest trusted owner files in
        let link = make_link (l.uuid_of dest) (l.mount_of dest) in
        IsName d
        → s.fails create_temp (link_path_of l m d) ≡ none
        → Reads s (link_path_of l m d)
        → IsTrusted (owner_or_self s owner) trusted
        → length link ≤ max_metadata_file_size
        → get_mount_from_link l.lookups link ≡ ok dest
        → r.1 ≡ ok true
        → (p : ProtectorData) × (get_regular_protector s l dest d trusted files ≡ ok p)
          × (get_protector s l m d trusted r.0 ≡ ok (dest, p))
  unfolding get_protector
  get_protector-add_linked_protector m d dest trusted owner files name e reads trust short back h =
      let r = add_linked_protector s l m d dest trusted owner files in
      let n = new_link m d dest trusted owner files name e reads trust short h in
      let path = link_path_of l m d in
      let link = make_link (l.uuid_of dest) (l.mount_of dest) in
      (
        n.protector,
        n.regular,
        ap
              (λ c.
                guarded c (λ x. err x)
                  (link_read s l m d path trusted r.0 (read_metadata_file_safe s path trusted r.0)))
              n.set_up
            ∙ ap (link_read s l m d path trusted r.0) n.read
            ∙ ap (followed s l d path link trusted r.0) back
            ∙ ap (through_link s l link dest) n.kept,
      )
