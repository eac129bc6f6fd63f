-- ===== src/Filesystem/Records/Kept.antt =====
-- What addMetadata leaves in the files, and what getMetadata makes of it.
use mathlib.Core.Path.{subst}
use fscrypt.Common.{
  ℕ, ◌≤◌, ◌≡◌, ◌≢◌, refl, sym, ap, ◌∙◌, inl, inr, Bool-cases, [], ◌∷◌, true, Option, none, some,
  Bytes, bytes_eq, length, ok, err, arith,
}
use fscrypt.Metadata.Checks.{Check}
use fscrypt.Actions.Types.{User}
use fscrypt.Filesystem.Store.{
  File, Files, find_file, delete_file, lstat, remove, not_exist, System, first_failure, create_temp,
  open_file, stat_file, clear_nonblock, read_file, max_metadata_file_size, read_metadata_file_safe,
  opened,
}
use fscrypt.Filesystem.Store.Atomic.{write_data-Written, write_data_success}
use fscrypt.Filesystem.Store.Reading.{IsSafe, IsTrusted, read_metadata_complete}
use fscrypt.Filesystem.Records.{
  Format, kept_owner, kept_mode, write_marshalled, add_checked, add_metadata, checked_data,
  unmarshalled, read_data, get_metadata, removed, remove_metadata,
}

-- A file of the owner's with this content.
pub record Holds (owner : User) (content : Bytes) (found : Option File) : Type 0 where
  pub file : File
  pub here : found ≡ some file
  pub regular : file.is_regular ≡ true
  pub owned : file.uid ≡ owner
  pub same : file.content ≡ content

-- What protobuf does for a structure: its text, if it has one, is read back; and a bound on the text.
abbrev pub Marshals : {A : Type 0} → Format A → A → Type 0
Marshals f q =
    (c : Bytes)
    → f.marshal q ≡ some c
    → (f.unmarshal c ≡ some q) × (length c ≤ max_metadata_file_size)

-- No call fails while the file is read.
pub record Reads (s : System) (path : Bytes) : Type 0 where
  pub opens : first_failure s path (open_file ∷ stat_file ∷ []) ≡ none
  pub reads : first_failure s path (clear_nonblock ∷ read_file ∷ []) ≡ none

module _ (s : System) where
  write_marshalled_success :
      (path : Bytes) (owner : User) (files : Files) (o : Option Bytes)
      → s.fails create_temp path ≡ none
      → (write_marshalled s path (some owner) files o).1 ≡ ok tt
      → (content : Bytes) × (o ≡ some content)
        × Holds owner content (find_file path (write_marshalled s path (some owner) files o).0)
  write_marshalled_success path owner files none e h = absurd (ground arith)
  write_marshalled_success path owner files (some content) e h =
      let mode = kept_mode (s.fails lstat path) (find_file path files) in
      (
        content,
        refl,
        record {
          file = record { is_regular = true; uid = owner; mode = mode; content = content };
          here = write_data_success s path content (some owner) mode files e h;
          regular = refl;
          owned = refl;
          same = refl;
        },
      )

  write_marshalled_others :
      (path : Bytes) (owner : Option User) (files : Files) (o : Option Bytes) (q : Bytes)
      → q ≢ path
      → find_file q (write_marshalled s path owner files o).0 ≡ find_file q files
  write_marshalled_others path owner files none q ne = refl
  write_marshalled_others path owner files (some content) q ne =
      (write_data-Written s path content
          (kept_owner s owner (s.fails lstat path) (find_file path files))
          (kept_mode (s.fails lstat path) (find_file path files)) files).others
        q ne

module _ {A : Type 0} (f : Format A) where
  -- What a successful addMetadata of the checked structure `q` has stored.
  pub record Stored (path : Bytes) (owner : User) (q : A) (files : Files) : Type 0 where
    pub content : Bytes
    pub marshalled : f.marshal q ≡ some content
    pub held : Holds owner content (find_file path files)

module _ {A : Type 0} (s : System) (f : Format A) where
  add_checked-data :
      (path : Bytes) (owner : Option User) (files : Files) (r : A × Check)
      → (add_checked s f path owner files r).1.0 ≡ r.0
  add_checked-data path owner files (p, err x) = refl
  add_checked-data path owner files (p, ok u) = refl

  pub add_metadata-data :
      (path : Bytes) (p : A) (owner : Option User) (files : Files)
      → (add_metadata s f path p owner files).1.0 ≡ (f.check p).0
  unfolding add_metadata
  add_metadata-data path p owner files = add_checked-data path owner files (f.check p)

  add_checked_others :
      (path : Bytes) (owner : Option User) (files : Files) (r : A × Check) (q : Bytes)
      → q ≢ path
      → find_file q (add_checked s f path owner files r).0 ≡ find_file q files
  add_checked_others path owner files (p, err x) q ne = refl
  add_checked_others path owner files (p, ok u) q ne =
      write_marshalled_others s path owner files (f.marshal p) q ne

  -- addMetadata changes no file but the one at its path, whether it fails or not.
  pub add_metadata_others :
      (path : Bytes) (p : A) (owner : Option User) (files : Files) (q : Bytes)
      → q ≢ path
      → find_file q (add_metadata s f path p owner files).0 ≡ find_file q files
  unfolding add_metadata
  add_metadata_others path p owner files q ne = add_checked_others path owner files (f.check p) q ne

  add_checked_success :
      (path : Bytes) (owner : User) (files : Files) (r : A × Check)
      → s.fails create_temp path ≡ none
      → (add_checked s f path (some owner) files r).1.1 ≡ ok tt
      → (r.1 ≡ ok tt) × Stored f path owner r.0 (add_checked s f path (some owner) files r).0
  add_checked_success path owner files (p, err x) e h = absurd (ground arith)
  add_checked_success path owner files (p, ok u) e h =
      let (content, marshalled, held) =
        write_marshalled_success s path owner files (f.marshal p) e h in
      (refl, record { content = content; marshalled = marshalled; held = held })

  pub add_metadata_success :
      (path : Bytes) (p : A) (owner : User) (files : Files)
      → s.fails create_temp path ≡ none
      → (add_metadata s f path p (some owner) files).1.1 ≡ ok tt
      → ((f.check p).1 ≡ ok tt)
        × Stored f path owner (f.check p).0 (add_metadata s f path p (some owner) files).0
  unfolding add_metadata
  add_metadata_success path p owner files e h = add_checked_success path owner files (f.check p) e h

  get_held :
      (path : Bytes) (trusted : Option User) (files : Files) (file : File) (q : A)
      → read_metadata_file_safe s path trusted files ≡ ok (file.content, file.uid)
      → f.unmarshal file.content ≡ some q
      → f.check q ≡ (q, ok tt)
      → get_metadata s f path trusted files ≡ ok (q, file.uid)
  unfolding get_metadata
  get_held path trusted files file q read back good =
      ap (read_data s f path) read
      ∙ ap (unmarshalled s f path file.uid) back
      ∙ ap (checked_data s f path file.uid) good

  -- What is stored is found, for a trusted user that the owner satisfies.
  pub get_after_write :
      (path : Bytes) (owner : User) (trusted : Option User) (q : A) (files : Files)
      → Marshals f q
      → IsTrusted owner trusted
      → Reads s path
      → f.check q ≡ (q, ok tt)
      → Stored f path owner q files
      → get_metadata s f path trusted files ≡ ok (q, owner)
  get_after_write path owner trusted q files law trust reads good stored =
      let held = stored.held in
      let (back, small) = law stored.content stored.marshalled in
      let safe : IsSafe trusted held.file = record {
        regular = held.regular;
        owned = subst (λ u. IsTrusted u trusted) (sym held.owned) trust;
        small = subst (λ c. length c ≤ max_metadata_file_size) (sym held.same) small;
      } in
      get_held path trusted files held.file q
        (read_metadata_complete s path trusted files held.file held.here safe reads.opens
          reads.reads)
        (ap f.unmarshal held.same ∙ back) good
      ∙ ap (λ u. ok (q, u)) held.owned

  -- What getMetadata answers depends on the file at its path alone.
  pub get_metadata-found :
      (path : Bytes) (trusted : Option User) (files files' : Files)
      → find_file path files' ≡ find_file path files
      → get_metadata s f path trusted files' ≡ get_metadata s f path trusted files
  unfolding get_metadata read_metadata_file_safe
  get_metadata-found path trusted files files' e =
      ap (λ o. read_data s f path (opened s path trusted o)) e

  pub get_metadata_absent :
      (path : Bytes) (trusted : Option User) (files : Files)
      → find_file path files ≡ none
      → get_metadata s f path trusted files ≡ err (not_exist path)
  unfolding get_metadata read_metadata_file_safe
  get_metadata_absent path trusted files e =
      ap (λ o. read_data s f path (opened s path trusted o)) e

find-delete : (path : Bytes) (files : Files) → find_file path (delete_file path files) ≡ none
unfolding find_file delete_file
find-delete path [] = refl
find-delete path ((p, file) ∷ files) = elim (Bool-cases (bytes_eq p path)) [
  | inl same ↦ rw same (find-delete path files)
  | inr other ↦ rw (other, other) (find-delete path files)
]

removed_success :
    (path : Bytes) (files : Files) (failed : Option ℕ) (found : Option File)
    → (removed path files failed found).1 ≡ ok tt
    → find_file path (removed path files failed found).0 ≡ none
removed_success path files (some errno) found h = absurd (ground arith)
removed_success path files none none h = absurd (ground arith)
removed_success path files none (some file) h = find-delete path files

-- A file that removeMetadata has removed is not there.
pub remove_metadata_success :
    (s : System) (path : Bytes) (files : Files)
    → (remove_metadata s path files).1 ≡ ok tt
    → find_file path (remove_metadata s path files).0 ≡ none
unfolding remove_metadata
remove_metadata_success s path files h =
    removed_success path files (s.fails remove path) (find_file path files) h
