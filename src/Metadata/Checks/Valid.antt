-- ===== src/Metadata/Checks/Valid.antt =====
-- Valid metadata, described by its fields, and what the checks accept.
use fscrypt.Common.{
  ℕ, suc, ◌≡◌, ◌≢◌, refl, ◌⊎◌, inl, inr, ◌↔◌, ℤ, pos, eq_ℤ, Option, none, some, List, [], ◌∷◌,
  length, All, ok, err, arith, if◌then◌else◌,
}
use fscrypt.Metadata.Types.{
  Mode, WrappedKeyData, EncryptionOptions, WrappedPolicyKey, policy_key_len,
  protector_descriptor_len, iv_len, hmac_len,
}
use fscrypt.Metadata.Checks.{
  CheckError, Check, EnumNames, check_wrapped_policy_key, check_slots, check_mode, check_padding,
  check_version, check_options,
}

abbrev pub IsValidKey : WrappedKeyData → Type 0
IsValidKey w = (length w.encrypted_key ≢ 0) × (length w.iv ≡ iv_len) × (length w.hmac ≡ hmac_len)

-- A slot holds a wrapped policy key and the descriptor of its protector.
abbrev pub IsValidSlot : WrappedPolicyKey → Type 0
IsValidSlot w =
    (k : WrappedKeyData) × (w.wrapped_key ≡ some k)
    × IsValidKey k
    × (length k.encrypted_key ≡ policy_key_len)
    × (length w.protector_descriptor ≡ protector_descriptor_len)

pub Check-cases : (c : Check) → (c ≡ ok tt) ⊎ ((x : CheckError) × (c ≡ err x))
Check-cases (ok u) = inl refl
Check-cases (err x) = inr (x, refl)

slot_sound :
    (w : WrappedPolicyKey) (o : Option WrappedKeyData)
    → w.wrapped_key ≡ o
    → check_wrapped_policy_key w ≡ ok tt
    → IsValidSlot w
unfolding check_wrapped_policy_key
slot_sound w none e h = ground arith
slot_sound w (some k) e h = (k, e, ground arith, ground arith, ground arith)

slot_complete : (w : WrappedPolicyKey) → IsValidSlot w → check_wrapped_policy_key w ≡ ok tt
unfolding check_wrapped_policy_key
slot_complete w (k, e, v, l, d) = ground arith

pub check_slots_sound :
    (i : ℕ) (ws : List WrappedPolicyKey) → check_slots i ws ≡ ok tt → All IsValidSlot ws
unfolding check_slots
check_slots_sound i [] h = tt
check_slots_sound i (w ∷ ws) h = elim (Check-cases (check_wrapped_policy_key w)) [
  | inl e ↦ (slot_sound w w.wrapped_key refl e, check_slots_sound (suc i) ws (rw e at h))
  | inr (x, e) ↦ absurd (ground arith)
]

pub check_slots_complete :
    (i : ℕ) (ws : List WrappedPolicyKey) → All IsValidSlot ws → check_slots i ws ≡ ok tt
unfolding check_slots
check_slots_complete i [] v = refl
check_slots_complete i (w ∷ ws) (v, vs) =
    rw (slot_complete w v) (check_slots_complete (suc i) ws vs)

-- The mode is set, and has a name.
abbrev pub IsValidMode : EnumNames → Mode → Type 0
IsValidMode names m = (m ≢ pos 0) × (names.mode_string m ≢ [])

abbrev pub IsPadding : ℤ → Type 0
IsPadding n = (n ≡ pos 4) ⊎ (n ≡ pos 8) ⊎ (n ≡ pos 16) ⊎ (n ≡ pos 32)

-- An unset version stands for version 1.
abbrev pub version_of : EncryptionOptions → ℤ
version_of e = if eq_ℤ e.policy_version (pos 0) then pos 1 else e.policy_version

abbrev pub IsValidOptions : EnumNames → EncryptionOptions → Type 0
IsValidOptions names e =
    IsPadding e.padding
    × IsValidMode names e.contents
    × IsValidMode names e.filenames
    × ((version_of e ≡ pos 1) ⊎ (version_of e ≡ pos 2))

check_mode_iff : (names : EnumNames) (m : Mode) → (check_mode names m ≡ ok tt) ↔ IsValidMode names m
unfolding check_mode
check_mode_iff names m = ground arith

check_padding_iff : (n : ℤ) → (check_padding n ≡ ok tt) ↔ IsPadding n
unfolding check_padding
check_padding_iff n = ground arith

check_version_iff :
    (e : EncryptionOptions)
    → ((check_version e).1 ≡ ok tt) ↔ ((version_of e ≡ pos 1) ⊎ (version_of e ≡ pos 2))
unfolding check_version
check_version_iff e = ground arith

-- The options that the check leaves have their version written out.
pub check_options_state :
    (names : EnumNames) (e : EncryptionOptions)
    → (check_options names e).1 ≡ ok tt
    → (check_options names e).0 ≡ record e { policy_version = version_of e }
unfolding check_options
check_options_state names e h = ground arith

-- The check of the options accepts exactly the valid ones.
pub check_options_iff :
    (names : EnumNames) (e : EncryptionOptions)
    → ((check_options names e).1 ≡ ok tt) ↔ IsValidOptions names e
unfolding check_options
check_options_iff names e = ground (
  arith,
  check_padding_iff e.padding,
  check_mode_iff names e.contents,
  check_mode_iff names e.filenames,
  check_version_iff e,
)
