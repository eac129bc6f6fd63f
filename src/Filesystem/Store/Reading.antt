-- ===== src/Filesystem/Store/Reading.antt =====
-- What readMetadataFileSafe accepts.
use mathlib.Core.Path.{subst}
use fscrypt.Common.{
  ℕ, leb, leb→le, sym, ◌∙◌, ◌+◌, ◌≤◌, ◌≡◌, refl, ◌⊎◌, inl, inr, ◌↔◌, true, Bool-cases, [], ◌∷◌,
  Option, none, some, Bytes, length, take, take_beyond, length-take, ok, arith,
}
use fscrypt.Actions.Types.{User}
use fscrypt.Filesystem.Store.{
  File, Files, find_file, open_file, stat_file, clear_nonblock, read_file, System, first_failure,
  check_ownership, limited, read_content, checked_content, checked_open, opened,
  read_metadata_file_safe, max_metadata_file_size,
}

-- Owned by root or by the trusted user, if there is one.
abbrev pub IsTrusted : User → Option User → Type 0
IsTrusted owner none = Unit {0}
IsTrusted owner (some trusted) = (owner ≡ 0) ⊎ (owner ≡ trusted)

-- A file that may be read as metadata.
pub record IsSafe (trusted : Option User) (file : File) : Type 0 where
  pub regular : file.is_regular ≡ true
  pub owned : IsTrusted file.uid trusted
  pub small : length file.content ≤ max_metadata_file_size

pub check_ownership_iff :
    (owner : User) (trusted : Option User)
    → (check_ownership owner trusted ≡ true) ↔ IsTrusted owner trusted
check_ownership_iff owner none = (λ e. tt, λ u. refl)
check_ownership_iff owner (some trusted) = ground arith

module _ (s : System) (path : Bytes) (trusted : Option User) where
  limited_whole :
      (uid : User) (content : Bytes)
      → length content ≤ max_metadata_file_size
      → limited path uid (take (max_metadata_file_size + 1) content) ≡ ok (content, uid)
  limited_whole uid content small =
      let whole = take_beyond (max_metadata_file_size + 1) content (omega (arith, small)) in
      rw whole (ground (arith, small))

  limited_sound :
      (uid owner : User) (content read : Bytes)
      → limited path uid (take (max_metadata_file_size + 1) content) ≡ ok (read, owner)
      → (length content ≤ max_metadata_file_size) × (read ≡ content) × (owner ≡ uid)
  limited_sound uid owner content read h =
      elim (Bool-cases (leb (length content) max_metadata_file_size)) [
        | inl small ↦
            let fits = leb→le (length content) max_metadata_file_size small in
            let e = sym h ∙ limited_whole uid content fits in
            (fits, ground (arith, e), ground (arith, e))
        | inr large ↦
            let cut = length-take (max_metadata_file_size + 1) content (ground (arith, large)) in
            absurd (ground (arith, cut, h))
      ]

  content_sound :
      (file : File) (o : Option ℕ) (read : Bytes) (owner : User)
      → read_content path file o ≡ ok (read, owner)
      → (o ≡ none)
        × (length file.content ≤ max_metadata_file_size)
        × (read ≡ file.content)
        × (owner ≡ file.uid)
  content_sound file (some errno) read owner h = absurd (ground arith)
  content_sound file none read owner h =
      let (small, same, uid) = limited_sound file.uid owner file.content read h in
      (refl, small, same, uid)

  checked_sound :
      (file : File) (read : Bytes) (owner : User)
      → checked_content s path trusted file ≡ ok (read, owner)
      → IsSafe trusted file × (read ≡ file.content) × (owner ≡ file.uid)
  checked_sound file read owner h = elim (Bool-cases file.is_regular) [
    | inr special ↦ absurd (ground (arith, special, h))
    | inl regular ↦ elim (Bool-cases (check_ownership file.uid trusted)) [
      | inr foreign ↦ absurd (ground (arith, regular, foreign, h))
      | inl owned ↦
          let o = first_failure s path (clear_nonblock ∷ read_file ∷ []) in
          let rest : read_content path file o ≡ ok (read, owner) = rw (regular, owned) at h in
          let (none_failed, small, same, uid) = content_sound file o read owner rest in
          (
            record {
              regular = regular;
              owned = (check_ownership_iff file.uid trusted).0 owned;
              small = small;
            },
            same,
            uid,
          )
    ]
  ]

  opened_sound :
      (file : File) (o : Option ℕ) (read : Bytes) (owner : User)
      → checked_open s path trusted file o ≡ ok (read, owner)
      → IsSafe trusted file × (read ≡ file.content) × (owner ≡ file.uid)
  opened_sound file (some errno) read owner h = absurd (ground arith)
  opened_sound file none read owner h = checked_sound file read owner h

  found_sound :
      (o : Option File) (read : Bytes) (owner : User)
      → opened s path trusted o ≡ ok (read, owner)
      → (file : File) × (o ≡ some file)
        × IsSafe trusted file
        × (read ≡ file.content)
        × (owner ≡ file.uid)
  found_sound none read owner h = absurd (ground arith)
  found_sound (some file) read owner h =
      let o = first_failure s path (open_file ∷ stat_file ∷ []) in
      let (safe, same, uid) = opened_sound file o read owner h in (file, refl, safe, same, uid)

  -- What readMetadataFileSafe returns is the whole content and the owner of a regular file of at most
  -- maxMetadataFileSize bytes, which belongs to root or to the trusted user, if one is given.
  pub read_metadata_sound :
      (files : Files) (read : Bytes) (owner : User)
      → read_metadata_file_safe s path trusted files ≡ ok (read, owner)
      → (file : File) × (find_file path files ≡ some file)
        × IsSafe trusted file
        × (read ≡ file.content)
        × (owner ≡ file.uid)
  unfolding read_metadata_file_safe
  read_metadata_sound files read owner h = found_sound (find_file path files) read owner h

  -- A safe file is read, if no call fails.
  pub read_metadata_complete :
      (files : Files) (file : File)
      → find_file path files ≡ some file
      → IsSafe trusted file
      → first_failure s path (open_file ∷ stat_file ∷ []) ≡ none
      → first_failure s path (clear_nonblock ∷ read_file ∷ []) ≡ none
      → read_metadata_file_safe s path trusted files ≡ ok (file.content, file.uid)
  unfolding read_metadata_file_safe
  read_metadata_complete files file here safe opens reads =
      subst (λ o. opened s path trusted o ≡ ok (file.content, file.uid)) (sym here)
        (subst (λ o. checked_open s path trusted file o ≡ ok (file.content, file.uid)) (sym opens)
          (rw (safe.regular, (check_ownership_iff file.uid trusted).1 safe.owned)
            (subst (λ o. read_content path file o ≡ ok (file.content, file.uid)) (sym reads)
              (limited_whole file.uid file.content safe.small))))
