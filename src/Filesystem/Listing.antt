-- ===== src/Filesystem/Listing.antt =====
-- filesystem/filesystem.go: listDirectory, listMetadata, and the lists of policies and protectors.
pub mod Filtered
use fscrypt.Common.{
  ℕ, ◌==◌, ◌||◌, Bool, true, false, List, [], ◌∷◌, ◌++◌, Option, none, some, Bytes, bytes_eq, codes,
  if◌then◌else◌, Result, ok, err, ◌>>=◌,
}
use fscrypt.Actions.Types.{Mount, User}
use fscrypt.Filesystem.Clean.{join_path}
use fscrypt.Filesystem.Setup.{policy_dir, protector_dir}
use fscrypt.Filesystem.Store.{File, Files, find_file, lstat, StoreError, system, System}
use fscrypt.Filesystem.Layout.{Layout, setup_of, guarded}

-- Reading a directory, the modification times, and sort.Sort by them (which may order equal times as
-- it likes). `by_time` is SortDescriptorsByLastMtime.
pub record Directories : Type 0 where
  pub read_names : Bytes → Result ℕ (List Bytes)
  pub mod_time : Bytes → Result ℕ ℕ
  pub sort_by_time : List (Bytes × ℕ) → List (Bytes × ℕ)
  pub by_time : Bool

-- strings.TrimSuffix
unfoldable pub trim_suffix : Bytes → Bytes → Bytes
trim_suffix suffix [] = []
trim_suffix suffix (c ∷ s) =
    let rest = trim_suffix suffix s in if bytes_eq (c ∷ s) suffix then [] else c ∷ rest

abbrev pub trim_link : Bytes → Bytes
trim_link name = trim_suffix (codes ".link") name

abbrev names_of : List (Bytes × ℕ) → List Bytes
names_of [] = []
names_of ((name, time) ∷ rest) = name ∷ names_of rest

module _ (x : Directories) where
  unfoldable pub with_times : Bytes → List Bytes → Result ℕ (List (Bytes × ℕ))
  unfolding join_path
  with_times dir [] = ok []
  with_times dir (name ∷ names) = do
    time ← x.mod_time (join_path dir name)
    rest ← with_times dir names
    ok ((name, time) ∷ rest)

  unfoldable pub sort_file_list : Bytes → List Bytes → Result ℕ (List Bytes)
  unfolding with_times
  sort_file_list dir names = do timed ← with_times dir names; ok (names_of (x.sort_by_time timed))

  unfoldable pub trim_all : List Bytes → List Bytes
  unfolding trim_suffix
  trim_all [] = []
  trim_all (name ∷ names) = trim_link name ∷ trim_all names

  unfoldable pub list_directory : Bytes → Result ℕ (List Bytes)
  unfolding sort_file_list trim_all
  list_directory dir = do
    names ← x.read_names dir
    sorted ← (if x.by_time then sort_file_list dir names else ok names)
    ok (trim_all sorted)

  module _ (s : System) (l : Layout) where
    abbrev pub is_theirs : User → Option File → Bool
    is_theirs uid none = false
    is_theirs uid (some file) = file.uid == uid || file.uid == 0

    -- The test of the loop: Lstat works, and the file belongs to the user or to root.
    abbrev pub keeps : User → Bytes → Files → Option ℕ → Bool
    keeps uid path files (some errno) = false
    keeps uid path files none = is_theirs uid (find_file path files)

    unfoldable pub filter_owned : User → Bytes → Files → List Bytes → List Bytes
    unfolding find_file join_path
    filter_owned uid dir files [] = []
    filter_owned uid dir files (name ∷ names) =
        let path = join_path dir name in
        let rest = filter_owned uid dir files names in
        if keeps uid path files (s.fails lstat path) then name ∷ rest else rest

    abbrev pub filtered :
        Option User → Bytes → Files → Result ℕ (List Bytes) → Result StoreError (List Bytes)
    filtered trusted dir files (err errno) = err (system errno)
    filtered none dir files (ok names) = ok names
    filtered (some uid) dir files (ok names) = ok (filter_owned uid dir files names)

    unfoldable pub list_metadata :
        Mount → Bytes → Option User → Files → Result StoreError (List Bytes)
    unfolding list_directory filter_owned
    list_metadata m dir trusted files =
        guarded (setup_of l m trusted) (λ e. err e)
          (filtered trusted dir files (list_directory dir))

    unfoldable pub list_protectors : Mount → Option User → Files → Result StoreError (List Bytes)
    unfolding list_metadata
    list_protectors m trusted files =
        list_metadata m (protector_dir l.tree (l.mount_of m)) trusted files

    unfoldable pub list_policies : Mount → Option User → Files → Result StoreError (List Bytes)
    unfolding list_metadata
    list_policies m trusted files = list_metadata m (policy_dir l.tree (l.mount_of m)) trusted files
