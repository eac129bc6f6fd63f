-- ===== src/Keyring/Privs/Restored.antt =====
-- The privileges that are dropped come back.
use fscrypt.Common.{
  ℕ, ◌≡◌, refl, sym, ap, ◌∙◌, ◌⊎◌, inl, inr, Option, none, some, Bool-cases, ◌==◌, ok, arith,
}
use fscrypt.Actions.Types.{User}
use fscrypt.Keyring.Types.{KeySpecifier, spec_type_descriptor, Uids, Kernel, State}
use fscrypt.Keyring.Privs.{root_uids, set_uids, drop_privs_if_needed, restore_privs}

-- A UID that the process has as real, effective or saved one.
abbrev pub Has : Uids → ℕ → Type 0
Has u uid = (uid ≡ u.ruid) ⊎ (uid ≡ u.euid) ⊎ (uid ≡ u.suid)

-- setresuid(2): allowed to a privileged process, and to any process for UIDs that it has.
abbrev pub AllowsUids : {K : Type 0} → Kernel K → Type 0
AllowsUids k =
    (old new : Uids)
    → (old.euid ≡ 0) ⊎ (Has old new.ruid × Has old new.euid × Has old new.suid)
    → k.setresuid_error old new ≡ none

module _ {K : Type 0} (k : Kernel K) (allows : AllowsUids k) where
  -- SetUids succeeds for a process that has root as one of its UIDs.
  set_uids_lem :
      (new : Uids) (st : State K)
      → Has st.uids 0
      → set_uids k new st ≡ (record st { uids = new }, ok tt)
  unfolding set_uids
  set_uids_lem new st has =
      let first : k.setresuid_error st.uids root_uids ≡ none =
        allows st.uids root_uids (inr (has, has, has)) in
      let second : k.setresuid_error root_uids new ≡ none = allows root_uids new (inl refl) in
      rw (first, second) refl

  -- An effective root drops its privileges without error.
  pub drop_lem :
      (user : User) (spec : KeySpecifier) (st : State K)
      → st.uids.euid ≡ 0
      → (drop_privs_if_needed k user spec st ≡ (st, ok none))
        ⊎ (drop_privs_if_needed k user spec st ≡ (
          record st { uids = record { ruid = user; euid = user; suid = st.uids.euid } },
          ok (some st.uids),
        ))
  unfolding drop_privs_if_needed
  drop_lem user spec st root = elim (Bool-cases (spec.spec_type == spec_type_descriptor)) [
    | inl v1 ↦ inl (rw v1 refl)
    | inr v2 ↦ elim (Bool-cases (st.uids.euid == user)) [
      | inl same ↦ inl (rw (v2, same) refl)
      | inr other ↦
          let first : k.setresuid_error st.uids root_uids ≡ none =
            allows st.uids root_uids (inl root) in
          let second : k.setresuid_error root_uids
                (record { ruid = user; euid = user; suid = st.uids.euid })
              ≡ none =
            allows root_uids (record { ruid = user; euid = user; suid = st.uids.euid })
              (inl refl) in
          inr (rw (v2, other, first, second) refl)
    ]
  ]

  -- An effective root that runs anything between dropping and restoring its privileges, which
  -- leaves the UIDs alone, has the UIDs from before.
  pub restored :
      (user : User) (spec : KeySpecifier) (st : State K) (saved : Option Uids)
      → st.uids.euid ≡ 0
      → (drop_privs_if_needed k user spec st).1 ≡ ok saved
      → (after : State K) → after.uids ≡ (drop_privs_if_needed k user spec st).0.uids
      → (restore_privs k saved after).uids ≡ st.uids
  unfolding restore_privs
  restored user spec st saved root kept after same = elim (drop_lem user spec st root) [
    | inl e ↦
        let none_saved : none ≡ saved = ground (arith, ap (λ r. r.1) e, kept) in
        rw (← none_saved) (same ∙ ap (λ r. r.0.uids) e)
    | inr e ↦
        let some_saved : some st.uids ≡ saved = ground (arith, ap (λ r. r.1) e, kept) in
        let dropped_to = same ∙ ap (λ r. r.0.uids) e in
        let has : Has after.uids 0 = inr (inr (sym root ∙ sym (ap (λ u. u.suid) dropped_to))) in
        rw (← some_saved) (ap (λ r. r.0.uids) (set_uids_lem st.uids after has))
  ]
