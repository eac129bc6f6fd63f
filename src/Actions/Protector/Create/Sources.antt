-- ===== src/Actions/Protector/Create/Sources.antt =====
-- What a source asks of the data, as the check of a context leaves it.
use mathlib.Core.Path.{subst}
use fscrypt.Common.{
  String, ◌||◌, ℕ, ◌≡◌, refl, sym, ◌⊎◌, inl, inr, pos, eq_ℤ, lt_ℤ, ltb, Bool, true, false, length,
  if◌then◌else◌, ok, err, arith,
}
use fscrypt.Metadata.Types.{ProtectorData, Config, SourceType}
use fscrypt.Metadata.Source
use fscrypt.Metadata.Checks.{
  EnumNames, Check, wrap, check_for_source, check_passphrase, check_hashing_costs,
  check_valid_length,
}
use fscrypt.Metadata.Checks.Whole.{check_config_costs}
use fscrypt.Actions.Context.Good.{IsGood}

pub ltb_zero : (n : ℕ) → ltb n 0 ≡ false
ltb_zero n = ground arith

module _ where
  wrap_ok : (s : String) (a : Check) → wrap s a ≡ ok tt → a ≡ ok tt
  wrap_ok s (ok u) h = refl
  wrap_ok s (err x) h = absurd (ground (arith, h))

  pub good_costs :
      (names : EnumNames) (x : SourceType) (c : Config)
      → IsGood names x c
      → (eq_ℤ x Source.pam_passphrase || eq_ℤ x Source.custom_passphrase) ≡ true
      → check_hashing_costs c.hash_costs ≡ ok tt
  unfolding check_config_costs
  good_costs names x c g h =
      let needed : (eq_ℤ c.source Source.pam_passphrase || eq_ℤ c.source Source.custom_passphrase)
          ≡ true =
        subst
          (λ (y : SourceType).
            (eq_ℤ y Source.pam_passphrase || eq_ℤ y Source.custom_passphrase) ≡ true)
          (sym g.same) h in
      wrap_ok _ (check_hashing_costs c.hash_costs) (rw needed at g.costs)

  pub passphrase_ok :
      (p : ProtectorData)
      → check_hashing_costs p.costs ≡ ok tt
      → length p.salt ≡ 16
      → check_passphrase p ≡ ok tt
  unfolding check_passphrase check_valid_length
  passphrase_ok p costs salt = rw (costs, salt) refl

  chosen :
      (login custom negative : Bool) (x y : Check)
      → y ≡ ok tt
      → (negative ≡ false) ⊎ (login ≡ false)
      → (if login then (if negative then x else y) else if custom then y else ok tt) ≡ ok tt
  chosen true custom false x y e h = e
  chosen true custom true x y e (inl h) = absurd (ground (arith, h))
  chosen true custom true x y e (inr h) = absurd (ground (arith, h))
  chosen false true negative x y e h = e
  chosen false false negative x y e h = refl

  pub for_source_ok :
      (p : ProtectorData)
      → check_passphrase p ≡ ok tt
      → (lt_ℤ p.uid (pos 0) ≡ false) ⊎ (eq_ℤ p.source Source.pam_passphrase ≡ false)
      → check_for_source p ≡ ok tt
  unfolding check_for_source
  for_source_ok p e h =
      chosen (eq_ℤ p.source Source.pam_passphrase) (eq_ℤ p.source Source.custom_passphrase)
        (lt_ℤ p.uid (pos 0)) _ (check_passphrase p) e h

  pub raw_ok :
      (p : ProtectorData)
      → eq_ℤ p.source Source.pam_passphrase ≡ false
      → eq_ℤ p.source Source.custom_passphrase ≡ false
      → check_for_source p ≡ ok tt
  unfolding check_for_source
  raw_ok p a b = rw (a, b) refl
