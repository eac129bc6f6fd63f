-- ===== src/Filesystem/Protectors/Owned.antt =====
-- Whose protectors GetRegularProtector accepts.
use mathlib.Core.Path.{subst}
use fscrypt.Common.{
  pos, eq_ℤ, eq_ℤ→eq, ==_iff, ◌≡◌, refl, sym, ap, ◌∙◌, ◌⊎◌, inl, inr, Bool-cases, ◌==◌, ◌&&◌, not,
  true, false, Option, none, some, Bytes, Result, ok, err, arith,
}
use fscrypt.Metadata.Types.{ProtectorData}
use fscrypt.Metadata.Source
use fscrypt.Metadata.Checks.{Check, check_protector}
use fscrypt.Actions.Types.{Mount, User}
use fscrypt.Filesystem.Store.{
  File, Files, find_file, StoreError, System, read_metadata_file_safe, protector_not_found,
}
use fscrypt.Filesystem.Store.Reading.{IsSafe, read_metadata_sound}
use fscrypt.Filesystem.Records.{
  Format, is_not_exist, replaced, checked_data, unmarshalled, read_data, get_metadata,
}
use fscrypt.Filesystem.Layout.{Layout, protector_format, setup_of, guarded_inner}
use fscrypt.Filesystem.Protectors.{path_of, owner_checked, get_regular_protector}

replaced_ok :
    {A : Type 0} (e : StoreError) (r : Result StoreError A) (a : A) → replaced e r ≡ ok a → r ≡ ok a
replaced_ok e (ok b) a h = h
replaced_ok e (err x) a h = absurd (ground (arith, Bool-cases (is_not_exist x)))

-- A login protector belongs to root or to the user that it names.
abbrev pub IsRightful : ProtectorData → User → Type 0
IsRightful p owner = p.source ≡ Source.pam_passphrase → (owner ≡ 0) ⊎ (pos owner ≡ p.uid)

owner_passes :
    (p : ProtectorData) (owner : User)
    → (eq_ℤ p.source Source.pam_passphrase && not (owner == 0) && not (eq_ℤ (pos owner) p.uid))
      ≡ false
    → IsRightful p owner
owner_passes p owner good source = elim (Bool-cases (owner == 0)) [
  | inl root ↦ inl ((==_iff owner 0).0 root)
  | inr other ↦ elim (Bool-cases (eq_ℤ (pos owner) p.uid)) [
    | inl same ↦ inr (eq_ℤ→eq (pos owner) p.uid same)
    | inr differs ↦
        let pam : eq_ℤ p.source Source.pam_passphrase ≡ true =
          ap (λ x. eq_ℤ x Source.pam_passphrase) source in
        absurd (ground (arith, good, other, differs, pam))
  ]
]

owner_checked_sound :
    (path : Bytes) (r : Result StoreError (ProtectorData × User)) (p : ProtectorData)
    → owner_checked path r ≡ ok p
    → (owner : User) × (r ≡ ok (p, owner)) × IsRightful p owner
owner_checked_sound path (err e) p h = absurd (ground arith)
owner_checked_sound path (ok (q, owner)) p h =
    let test =
      eq_ℤ q.source Source.pam_passphrase && not (owner == 0) && not (eq_ℤ (pos owner) q.uid) in
    elim (Bool-cases test) [
      | inl bad ↦ absurd (ground (arith, bad, h))
      | inr good ↦
          let same : q ≡ p = ground (arith, good, h) in
          (
            owner,
            ap (λ r. ok (r, owner)) same,
            subst (λ (r : ProtectorData). IsRightful r owner) same (owner_passes q owner good),
          )
    ]

module _ {A : Type 0} (s : System) (f : Format A) where
  checked_sound :
      (path : Bytes) (owner : User) (r : A × Check) (p : A) (o : User)
      → checked_data s f path owner r ≡ ok (p, o)
      → (r ≡ (p, ok tt)) × (owner ≡ o)
  checked_sound path owner (q, ok u) p o h =
      let same : q ≡ p = ground (arith, h) in (ap (λ x. (x, ok tt)) same, ground (arith, h))
  checked_sound path owner (q, err x) p o h = absurd (ground (arith, h))

  unmarshalled_sound :
      (path : Bytes) (owner : User) (r : Option A) (p : A) (o : User)
      → unmarshalled s f path owner r ≡ ok (p, o)
      → (q : A) × (r ≡ some q) × (f.check q ≡ (p, ok tt)) × (owner ≡ o)
  unmarshalled_sound path owner none p o h = absurd (ground (arith, h))
  unmarshalled_sound path owner (some q) p o h =
      let (good, same) = checked_sound path owner (f.check q) p o h in (q, refl, good, same)

  read_data_sound :
      (path : Bytes) (r : Result StoreError (Bytes × User)) (p : A) (o : User)
      → read_data s f path r ≡ ok (p, o)
      → (content : Bytes) × (q : A) × (r ≡ ok (content, o))
        × (f.unmarshal content ≡ some q)
        × (f.check q ≡ (p, ok tt))
  read_data_sound path (err e) p o h = absurd (ground (arith, h))
  read_data_sound path (ok (content, owner)) p o h =
      let (q, back, good, same) = unmarshalled_sound path owner (f.unmarshal content) p o h in
      (content, q, ap (λ u. ok (content, u)) same, back, good)

-- A protector that a file in the right hands holds.
pub record IsAccepted (l : Layout) (path : Bytes) (trusted : Option User) (files : Files)
    (p : ProtectorData) : Type 0 where
  pub file : File
  pub here : find_file path files ≡ some file
  pub safe : IsSafe trusted file
  pub read : l.unmarshal_protector file.content ≡ some p
  pub valid : check_protector l.names p ≡ ok tt
  pub rightful : IsRightful p file.uid

module _ (s : System) (l : Layout) where
  -- A protector that GetRegularProtector returns passes CheckValidity and stands in a regular file of
  -- at most maxMetadataFileSize bytes that belongs to root or to the trusted user, if one is given;
  -- and the file of a login protector belongs to root or to the user whom the protector names.
  pub get_regular_protector_sound :
      (m : Mount) (d : Bytes) (trusted : Option User) (files : Files) (p : ProtectorData)
      → get_regular_protector s l m d trusted files ≡ ok p
      → IsAccepted l (path_of l m d) trusted files p
  unfolding get_regular_protector get_metadata
  get_regular_protector_sound m d trusted files p h =
      let path = path_of l m d in
      let f = protector_format l in
      let got = get_metadata s f path trusted files in
      let (owner, checked, rightful) =
        owner_checked_sound path (replaced (protector_not_found d) got) p (
          guarded_inner (setup_of l m trusted)
            (owner_checked path (replaced (protector_not_found d) got)) p h) in
      let (content, q, read, back, good) =
        read_data_sound s f path (read_metadata_file_safe s path trusted files) p owner
          (replaced_ok (protector_not_found d) got (p, owner) checked) in
      let (file, here, safe, same, uid) =
        read_metadata_sound s path trusted files content owner read in
      let same_data : q ≡ p = ap (λ r. r.0) good in
      record {
        file = file;
        here = here;
        safe = safe;
        read = ap l.unmarshal_protector (sym same) ∙ back ∙ ap some same_data;
        valid = ap (check_protector l.names) (sym same_data) ∙ ap (λ r. r.1) good;
        rightful = subst (λ u. IsRightful p u) uid rightful;
      }
