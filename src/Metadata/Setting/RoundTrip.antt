-- ===== src/Metadata/Setting/RoundTrip.antt =====
-- GetPolicy reads back what SetPolicy has set.
use fscrypt.Common.{
  ℕ, ◌+◌, ◌≡◌, inl, inr, ℤ, pos, negsuc, to_uint, InRange, none, some, [], ◌++◌, All, Bytes, length,
  take, take-append, ok, arith, Option-cases, if◌then◌else◌,
}
use fscrypt.Hex
use fscrypt.Hex.{IsLowerHex}
use fscrypt.Metadata.Types.{EncryptionOptions, PolicyData}
use fscrypt.Metadata.Checks.{EnumNames}
use fscrypt.Metadata.Checks.Valid.{IsPadding, version_of, Check-cases}
use fscrypt.Metadata.Checks.Whole.{check_policy}
use fscrypt.Metadata.Checks.PolicyForm.{valid_options, DescriptorFits}
use fscrypt.Metadata.Flags.{
  should_use_direct_key_flag, padding_bits, build_policy_flags_lem, padding_bits-read,
}
use fscrypt.Metadata.Ioctl.{
  Kernel, memory_v1, memory_v2, kernel_v1, kernel_v2, size_v1, size_v2, parse_policy,
  build_v1_policy_data, build_v2_policy_data, get_policy,
}
use fscrypt.Metadata.Setting.{
  Attempt, done, kernel_policy, set_policy_ioctl, set_v1_policy, set_v2_policy, set_version,
  disambiguate, set_result, set_with, set_policy,
}
use fscrypt.Metadata.Setting.Safety.{KeyFits, set_policy_valid}

-- The modes are bytes, as the kernel's structures hold them.
abbrev pub HasByteModes : EncryptionOptions → Type 0
HasByteModes e = InRange 0 255 e.contents × InRange 0 255 e.filenames

to_uint_byte : (m : ℤ) → InRange 0 255 m → pos (to_uint 8 m) ≡ m
unfolding to_uint
to_uint_byte (pos n) h = ground arith
to_uint_byte (negsuc n) h = absurd h

abbrev policy_of : EncryptionOptions → Bytes → PolicyData
policy_of e key = record {
  key_descriptor = Hex.encode key;
  options = some e;
  wrapped_policy_keys = [];
}

abbrev flags_of : EncryptionOptions → ℕ
flags_of e = padding_bits e.padding + (if should_use_direct_key_flag e then 4 else 0)

take_eight : (key pad : Bytes) → length key ≡ 8 → take 8 (key ++ pad) ≡ key
take_eight key pad l = rw (← l) (take-append key pad)

take_sixteen : (key pad : Bytes) → length key ≡ 16 → take 16 (key ++ pad) ≡ key
take_sixteen key pad l = rw (← l) (take-append key pad)

module _ (e : EncryptionOptions) (key pad : Bytes) (h : IsPadding e.padding)
    (m : HasByteModes e) where
  parse_v1 :
      e.policy_version ≡ pos 1
      → length key ≡ 8
      → parse_policy size_v1 (memory_v1 (kernel_policy kernel_v1 e (flags_of e) key) ++ pad)
        ≡ ok (policy_of e key)
  unfolding parse_policy build_v1_policy_data
  parse_v1 v l = ground (
    arith,
    padding_bits-read (should_use_direct_key_flag e) e.padding h,
    to_uint_byte e.contents m.0,
    to_uint_byte e.filenames m.1,
    take_eight key pad l,
  )

  parse_v2 :
      e.policy_version ≡ pos 2
      → length key ≡ 16
      → parse_policy size_v2 (memory_v2 (kernel_policy kernel_v2 e (flags_of e) key) ++ pad)
        ≡ ok (policy_of e key)
  unfolding parse_policy build_v2_policy_data
  parse_v2 v l = ground (
    arith,
    padding_bits-read (should_use_direct_key_flag e) e.padding h,
    to_uint_byte e.contents m.0,
    to_uint_byte e.filenames m.1,
    take_sixteen key pad l,
  )

-- After the ioctl has succeeded, FS_IOC_GET_ENCRYPTION_POLICY_EX returns the policy that was set, in
-- a buffer that may be longer, with its size.
pub record StoresPolicies (k : Kernel) : Type 0 where
  pub reads_back :
      (w : k.World) (path memory : Bytes)
      → (k.set_policy w path memory).1 ≡ none
      → (pad : Bytes) × (k.get_policy_ex (k.set_policy w path memory).0 path
          ≡ ok (length memory, memory ++ pad))

module _ (k : Kernel) (laws : StoresPolicies k) where
  open k use {World}

  ioctl_done :
      (w : World) (path memory : Bytes)
      → (set_policy_ioctl k w path memory).1 ≡ done
      → ((k.set_policy w path memory).1 ≡ none)
        × ((set_policy_ioctl k w path memory).0 ≡ (k.set_policy w path memory).0)
  unfolding set_policy_ioctl
  ioctl_done w path memory h = ground arith

  -- A policy of one version, set and read again.
  reads_v1 :
      (w : World) (path : Bytes) (e : EncryptionOptions) (key : Bytes)
      → IsPadding e.padding
      → HasByteModes e
      → e.policy_version ≡ pos 1
      → length key ≡ 8
      → (set_v1_policy k w path e key).1 ≡ done
      → k.open_path (set_v1_policy k w path e key).0 path ≡ none
      → get_policy k (set_v1_policy k w path e key).0 path ≡ ok (policy_of e key)
  unfolding set_v1_policy get_policy
  reads_v1 w path e key h m v l q o =
      let memory : Bytes = memory_v1 (kernel_policy kernel_v1 e (flags_of e) key) in
      let (pad, read) =
        laws.reads_back w path memory
          (ground (arith, build_policy_flags_lem e h, ioctl_done w path memory)) in
      ground (
        arith,
        build_policy_flags_lem e h,
        ioctl_done w path memory,
        read,
        parse_v1 e key pad h m v l,
      )

  reads_v2 :
      (w : World) (path : Bytes) (e : EncryptionOptions) (key : Bytes)
      → IsPadding e.padding
      → HasByteModes e
      → e.policy_version ≡ pos 2
      → length key ≡ 16
      → (set_v2_policy k w path e key).1 ≡ done
      → k.open_path (set_v2_policy k w path e key).0 path ≡ none
      → get_policy k (set_v2_policy k w path e key).0 path ≡ ok (policy_of e key)
  unfolding set_v2_policy get_policy
  reads_v2 w path e key h m v l q o =
      let memory : Bytes = memory_v2 (kernel_policy kernel_v2 e (flags_of e) key) in
      let (pad, read) =
        laws.reads_back w path memory
          (ground (arith, build_policy_flags_lem e h, ioctl_done w path memory)) in
      ground (
        arith,
        build_policy_flags_lem e h,
        ioctl_done w path memory,
        read,
        parse_v2 e key pad h m v l,
      )

  set_result-eq-ok :
      (w : World) (path : Bytes) (e : EncryptionOptions) (a : Attempt)
      → set_result k w path e (disambiguate k w path a) ≡ ok tt
      → a ≡ done
  unfolding set_result disambiguate
  set_result-eq-ok w path e a h = ground arith

  reads_version :
      (w : World) (path : Bytes) (e : EncryptionOptions) (key : Bytes)
      → IsPadding e.padding
      → HasByteModes e
      → KeyFits e key
      → (set_version k w path e key).1 ≡ done
      → k.open_path (set_version k w path e key).0 path ≡ none
      → get_policy k (set_version k w path e key).0 path ≡ ok (policy_of e key)
  unfolding set_version
  reads_version w path e key h m (inl (v, l)) = ground (arith, reads_v1 w path e key h m v l)
  reads_version w path e key h m (inr (v, l)) = ground (arith, reads_v2 w path e key h m v l)

  decode_fits :
      (e : EncryptionOptions) (text : Bytes)
      → DescriptorFits e text
      → All IsLowerHex text
      → (key : Bytes) × (Hex.decode text ≡ some key)
        × KeyFits (record e { policy_version = version_of e }) key
        × (Hex.encode key ≡ text)
  decode_fits e text (inl (v, l)) h =
      let (key, decoded, bytes, n, printed) = Hex.encode-decode 8 text l h in
      (key, decoded, inl (v, n), printed)
  decode_fits e text (inr (v, l)) h =
      let (key, decoded, bytes, n, printed) = Hex.encode-decode 16 text l h in
      (key, decoded, inr (v, n), printed)

  reads_set :
      (w : World) (path : Bytes) (e : EncryptionOptions) (text : Bytes)
      → IsPadding e.padding
      → HasByteModes e
      → DescriptorFits e text
      → All IsLowerHex text
      → let e' : EncryptionOptions = record e { policy_version = version_of e } in
        let r = set_with k w path (some e') (Hex.decode text) text in
        r.1 ≡ ok tt
        → k.open_path r.0 path ≡ none
        → get_policy k r.0 path
          ≡ ok (record { key_descriptor = text; options = some e'; wrapped_policy_keys = [] })
  reads_set w path e text h m fits lower r o =
      let e' : EncryptionOptions = record e { policy_version = version_of e } in
      let (key, decoded, key_fits, printed) = decode_fits e text fits lower in
      let (w', a) = set_version k w path e' key in
      let finished = set_result-eq-ok w' path e' a (rw decoded at r) in
      ground (arith, decoded, printed, finished, reads_version w path e' key h m key_fits)

  -- A policy that SetPolicy has set is the one that GetPolicy reads from the directory: the same
  -- descriptor, if it is written in lower case, and the same options, if their modes are bytes; an
  -- unset version is read as 1, and the wrapped keys are not on the directory.
  pub get_policy-set_policy :
      (names : EnumNames) (w : World) (path : Bytes) (p : PolicyData) (e : EncryptionOptions)
      → p.options ≡ some e
      → HasByteModes e
      → All IsLowerHex p.key_descriptor
      → (set_policy k names w path p).1.1 ≡ ok tt
      → k.open_path (set_policy k names w path p).1.0 path ≡ none
      → get_policy k (set_policy k names w path p).1.0 path
        ≡ ok (record {
          key_descriptor = p.key_descriptor;
          options = some (record e { policy_version = version_of e });
          wrapped_policy_keys = [];
        })
  unfolding set_policy
  get_policy-set_policy names w path p e some_e m lower done_ok opens =
      elim (Option-cases (k.open_path w path)) [
        | inl opened ↦ elim (Check-cases (check_policy names p).1) [
          | inl good ↦
              let (v, fits) = valid_options names p e some_e good in
              let sent = set_policy_valid k names w path p e opened good some_e in
              rw sent (
                reads_set w path e p.key_descriptor v.0 m fits lower (rw sent at done_ok)
                  (rw sent at opens))
          | inr (x, bad) ↦ absurd (ground arith)
        ]
        | inr (x, refused) ↦ absurd (ground arith)
      ]
