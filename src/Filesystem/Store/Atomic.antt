-- ===== src/Filesystem/Store/Atomic.antt =====
-- What writing a metadata file leaves of the files, whichever call fails.
use mathlib.Core.Path.{subst}
use fscrypt.Common.{
  ℕ, ◌≡◌, ◌≢◌, refl, sym, ◌∙◌, inl, inr, Bool-cases, true, [], ◌∷◌, Option, none, some, Bytes,
  bytes_eq, bytes_eq_refl, bytes_eq→eq, Result, ok, err, arith,
}
use fscrypt.Actions.Types.{User}
use fscrypt.Filesystem.Store.{
  File, Files, find_file, delete_file, put_file, create_temp, open_existing, write_existing,
  sync_existing, close_existing, sync_directory, StoreError, system, not_exist,
  no_create_permission, System, after_create, is_permission, first_failure, ended, overwritten,
  overwrite_opened, overwrite_found, overwrite_data_non_atomic, without_temp, lstat_file,
  owner_or_self, temp_calls, renamed, write_data,
}

find_file-delete_file :
    (q path : Bytes) (files : Files)
    → q ≢ path
    → find_file q (delete_file path files) ≡ find_file q files
unfolding find_file delete_file
find_file-delete_file q path [] ne = refl
find_file-delete_file q path ((p, file) ∷ files) ne =
    let rest = find_file-delete_file q path files ne in
    elim (Bool-cases (bytes_eq p path)) [
      | inl same ↦
          let e = bytes_eq→eq p path same in
          elim (Bool-cases (bytes_eq p q)) [
            | inl also ↦ absurd (ne (sym (bytes_eq→eq p q also) ∙ e))
            | inr other ↦ rw (same, other) rest
          ]
      | inr different ↦ elim (Bool-cases (bytes_eq p q)) [
        | inl hit ↦ rw (different, hit) refl
        | inr miss ↦ rw (different, miss) rest
      ]
    ]

pub find_file-put_file :
    (path : Bytes) (file : File) (files : Files)
    → find_file path (put_file path file files) ≡ some file
unfolding find_file
find_file-put_file path file files = rw (bytes_eq_refl path) refl

other_kept :
    (q path : Bytes) (file : File) (files : Files)
    → q ≢ path
    → find_file q (put_file path file files) ≡ find_file q files
unfolding find_file
other_kept q path file files ne = elim (Bool-cases (bytes_eq path q)) [
  | inl same ↦ absurd (ne (sym (bytes_eq→eq path q same)))
  | inr other ↦ rw other (find_file-delete_file q path files ne)
]

-- No other file is touched, and success means that the file has the new content.
pub record Written (path new : Bytes) (files : Files) (r : Files × Result StoreError (Unit {0}))
    : Type 0 where
  pub others : (q : Bytes) → q ≢ path → find_file q r.0 ≡ find_file q files
  pub content :
      r.1 ≡ ok tt → (file : File) × (find_file path r.0 ≡ some file) × (file.content ≡ new)

failed_write :
    (path new : Bytes) (files : Files) (e : StoreError) → Written path new files (files, err e)
failed_write path new files e = record {
  others = λ q ne. refl;
  content = λ h. absurd (ground arith);
}

put_then :
    (path : Bytes) (file : File) (files : Files) (r : Result StoreError (Unit {0}))
    → Written path file.content files (put_file path file files, r)
put_then path file files r = record {
  others = λ q ne. other_kept q path file files ne;
  content = λ h. (file, find_file-put_file path file files, refl);
}

put_ended :
    (path : Bytes) (file : File) (files : Files) (o : Option ℕ)
    → Written path file.content files (ended (put_file path file files) o)
put_ended path file files none = put_then path file files (ok tt)
put_ended path file files (some errno) = put_then path file files (err (system errno))

module _ (s : System) where
  overwritten-Written :
      (path new : Bytes) (files : Files) (old : File) (o : Option ℕ)
      → Written path new files (overwritten s path new files old o)
  overwritten-Written path new files old (some errno) = record {
    others = λ q ne. other_kept q path (record old { content = s.written_part new }) files ne;
    content = λ h. absurd (ground arith);
  }
  overwritten-Written path new files old none =
      put_ended path (record old { content = new }) files
        (first_failure s path (sync_existing ∷ close_existing ∷ []))

  opened-Written :
      (path new : Bytes) (files : Files) (old : File) (o : Option ℕ)
      → Written path new files (overwrite_opened s path new files old o)
  opened-Written path new files old none =
      overwritten-Written path new files old (s.fails write_existing path)
  opened-Written path new files old (some errno) = failed_write path new files (system errno)

  found-Written :
      (path new : Bytes) (files : Files) (o : Option File)
      → Written path new files (overwrite_found s path new files o)
  found-Written path new files none = failed_write path new files (not_exist path)
  found-Written path new files (some old) =
      opened-Written path new files old (s.fails open_existing path)

  overwrite-Written :
      (path new : Bytes) (files : Files)
      → Written path new files (overwrite_data_non_atomic s path new files)
  unfolding overwrite_data_non_atomic
  overwrite-Written path new files = found-Written path new files (find_file path files)

  without_temp-Written :
      (path new : Bytes) (files : Files) (errno : ℕ) (o : Option File)
      → Written path new files (without_temp s path new files errno o)
  without_temp-Written path new files errno o = elim (Bool-cases (is_permission errno)) [
    | inr other ↦ rw other (failed_write path new files (system errno))
    | inl refused ↦ rw refused (existing o)
  ]
    where
      existing :
          (o : Option File)
          → Written path new files (elim o as (λ _. Files × Result StoreError (Unit {0})) [
            | none ↦ (files, err (no_create_permission path))
            | some file ↦ overwrite_data_non_atomic s path new files
          ])
      existing none = failed_write path new files (no_create_permission path)
      existing (some file) = overwrite-Written path new files

  renamed-Written :
      (path : Bytes) (file : File) (files : Files) (o : Option ℕ)
      → Written path file.content files (renamed s path file files o)
  renamed-Written path file files (some errno) = failed_write path file.content files (system errno)
  renamed-Written path file files none = put_ended path file files (s.fails sync_directory path)

  created-Written :
      (path new : Bytes) (owner : Option User) (mode : ℕ) (files : Files) (o : Option ℕ)
      → Written path new files (after_create s path new owner mode files o)
  created-Written path new owner mode files (some errno) =
      without_temp-Written path new files errno (lstat_file s path files)
  created-Written path new owner mode files none =
      let file : File = record {
        is_regular = true;
        uid = owner_or_self s owner;
        mode = mode;
        content = new;
      } in
      renamed-Written path file files (first_failure s path (temp_calls owner))

  -- Writing a metadata file touches no other file, whichever call fails; if it succeeds, the file is
  -- there with the whole new content.
  pub write_data-Written :
      (path new : Bytes) (owner : Option User) (mode : ℕ) (files : Files)
      → Written path new files (write_data s path new owner mode files)
  unfolding write_data
  write_data-Written path new owner mode files =
      created-Written path new owner mode files (s.fails create_temp path)

  ended_either :
      (path : Bytes) (file : File) (files : Files) (o : Option ℕ)
      → find_file path (ended (put_file path file files) o).0 ≡ some file
  ended_either path file files none = find_file-put_file path file files
  ended_either path file files (some errno) = find_file-put_file path file files

  renamed_success :
      (path : Bytes) (file : File) (files : Files) (o : Option ℕ)
      → (renamed s path file files o).1 ≡ ok tt
      → find_file path (renamed s path file files o).0 ≡ some file
  renamed_success path file files (some errno) h = absurd (ground arith)
  renamed_success path file files none h =
      ended_either path file files (s.fails sync_directory path)

  -- If it succeeds there, the path holds the new file.
  pub write_data_success :
      (path new : Bytes) (owner : Option User) (mode : ℕ) (files : Files)
      → s.fails create_temp path ≡ none
      → (write_data s path new owner mode files).1 ≡ ok tt
      → find_file path (write_data s path new owner mode files).0
        ≡ some
            (record { is_regular = true; uid = owner_or_self s owner; mode = mode; content = new })
  unfolding write_data
  write_data_success path new owner mode files e =
      let file : File = record {
        is_regular = true;
        uid = owner_or_self s owner;
        mode = mode;
        content = new;
      } in
      subst
        (λ (o : Option ℕ).
          (after_create s path new owner mode files o).1 ≡ ok tt
          → find_file path (after_create s path new owner mode files o).0 ≡ some file)
        (sym e) (renamed_success path file files (first_failure s path (temp_calls owner)))
