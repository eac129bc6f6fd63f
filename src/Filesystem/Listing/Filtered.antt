-- ===== src/Filesystem/Listing/Filtered.antt =====
-- What the lists hold for a trusted user.
use mathlib.Core.Path.{subst}
use fscrypt.Common.{
  ℕ, ◌≡◌, ◌≢◌, refl, sym, ap, ◌∙◌, ◌⊎◌, inl, inr, Bool-cases, true, List, [], ◌∷◌, All, Option,
  none, some, Bytes, Result, ok, err, arith,
}
use fscrypt.Actions.Types.{Mount, User}
use fscrypt.Filesystem.Clean.{join_path}
use fscrypt.Filesystem.Setup.{protector_dir}
use fscrypt.Filesystem.Store.{File, Files, find_file, lstat, System}
use fscrypt.Filesystem.Layout.{Layout, setup_of, guarded_inner}
use fscrypt.Filesystem.Listing.{
  Directories, is_theirs, keeps, filter_owned, filtered, list_directory, list_metadata,
  list_protectors,
}

-- A file of the user's or of root's.
abbrev pub IsTheirs : User → Option File → Type 0
IsTheirs uid found = (file : File) × (found ≡ some file) × ((file.uid ≡ uid) ⊎ (file.uid ≡ 0))

module _ (x : Directories) (s : System) (l : Layout) where
  theirs :
      (uid : User) (found : Option File) → is_theirs x s l uid found ≡ true → IsTheirs uid found
  theirs uid none h = absurd (ground (arith, h))
  theirs uid (some file) h = (file, refl, ground (arith, h))

  kept-IsTheirs :
      (uid : User) (path : Bytes) (files : Files) (failed : Option ℕ)
      → keeps x s l uid path files failed ≡ true
      → IsTheirs uid (find_file path files)
  kept-IsTheirs uid path files (some errno) h = absurd (ground (arith, h))
  kept-IsTheirs uid path files none h = theirs uid (find_file path files) h

  filter_owned_sound :
      (uid : User) (dir : Bytes) (files : Files) (names : List Bytes)
      → All
          (λ name. IsTheirs uid (find_file (join_path dir name) files))
          (filter_owned x s l uid dir files names)
  unfolding filter_owned
  filter_owned_sound uid dir files [] = tt
  filter_owned_sound uid dir files (name ∷ names) =
      let path = join_path dir name in
      let rest = filter_owned_sound uid dir files names in
      elim (Bool-cases (keeps x s l uid path files (s.fails lstat path))) [
        | inl kept ↦ rw kept (kept-IsTheirs uid path files (s.fails lstat path) kept, rest)
        | inr left ↦ rw left rest
      ]

  filtered_sound :
      (uid : User) (dir : Bytes) (files : Files) (r : Result ℕ (List Bytes)) (names : List Bytes)
      → filtered x s l (some uid) dir files r ≡ ok names
      → All (λ name. IsTheirs uid (find_file (join_path dir name) files)) names
  filtered_sound uid dir files (err errno) names h = absurd (ground (arith, h))
  filtered_sound uid dir files (ok all) names h =
      let same : filter_owned x s l uid dir files all ≡ names = ground (arith, h) in
      subst (All (λ name. IsTheirs uid (find_file (join_path dir name) files))) same
        (filter_owned_sound uid dir files all)

  -- A list of metadata for a trusted user names only files in the directory that belong to this user
  -- or to root.
  pub list_metadata_sound :
      (m : Mount) (dir : Bytes) (uid : User) (files : Files) (names : List Bytes)
      → list_metadata x s l m dir (some uid) files ≡ ok names
      → All (λ name. IsTheirs uid (find_file (join_path dir name) files)) names
  unfolding list_metadata
  list_metadata_sound m dir uid files names h =
      filtered_sound uid dir files (list_directory x dir) names (
        guarded_inner (setup_of l m (some uid))
          (filtered x s l (some uid) dir files (list_directory x dir)) names h)

  left_out :
      (uid : User) (dir d : Bytes) (files : Files) (names : List Bytes)
      → find_file (join_path dir d) files ≡ none
      → All (λ name. IsTheirs uid (find_file (join_path dir name) files)) names
      → All (λ name. name ≢ d) names
  left_out uid dir d files [] absent h = tt
  left_out uid dir d files (name ∷ names) absent ((file, here, owned), hs) = (
    λ e.
        let bad : none ≡ some file =
          sym absent ∙ ap (λ n. find_file (join_path dir n) files) (sym e) ∙ here in
        absurd (ground (arith, bad)),
    left_out uid dir d files names absent hs,
  )

  -- A protector of which a filesystem has only a link is not in its list for a trusted user, whatever
  -- links the directory holds: the names are looked up without their extension.
  pub list_protectors_lacks_links :
      (m : Mount) (d : Bytes) (uid : User) (files : Files) (names : List Bytes)
      → find_file (join_path (protector_dir l.tree (l.mount_of m)) d) files ≡ none
      → list_protectors x s l m (some uid) files ≡ ok names
      → All (λ name. name ≢ d) names
  unfolding list_protectors
  list_protectors_lacks_links m d uid files names absent h =
      let dir = protector_dir l.tree (l.mount_of m) in
      left_out uid dir d files names absent (list_metadata_sound m dir uid files names h)
