-- ===== src/Filesystem/MainMount/Folds.antt =====
-- What a loop that adds to a set leaves of it, and what is kept of a set.
use mathlib.Core.Path.{subst}
use fscrypt.Common.{
  ◌≡◌, refl, sym, ◌⊎◌, inl, inr, Bool-cases, Bool, true, List, [], ◌∷◌, Bytes, bytes_eq, arith,
}
use fscrypt.Filesystem.MainMount.{is_in, fold, keep}
use fscrypt.Filesystem.MainMount.Sets.{IsIn, IsDistinct, is_in_tail}

module _ {A : Type 0} (f : List Bytes → A → List Bytes) where
  pub fold_sound :
      (P : A → Type 0) (x : Bytes)
      → ((d : List Bytes) (a : A) → is_in x (f d a) ≡ true → (is_in x d ≡ true) ⊎ P a)
      → (d : List Bytes) (l : List A) → is_in x (fold f d l) ≡ true
      → (is_in x d ≡ true) ⊎ ((a : A) × IsIn a l × P a)
  fold_sound P x step d [] h = inl h
  fold_sound P x step d (a ∷ l) h = elim (fold_sound P x step (f d a) l h) [
    | inl there ↦ elim (step d a there) [ inl before ↦ inl before | inr p ↦ inr (a, inl refl, p) ]
    | inr (b, at, p) ↦ inr (b, inr at, p)
  ]

  pub fold_keeps :
      (x : Bytes)
      → ((d : List Bytes) (a : A) → is_in x d ≡ true → is_in x (f d a) ≡ true)
      → (d : List Bytes) (l : List A) → is_in x d ≡ true
      → is_in x (fold f d l) ≡ true
  fold_keeps x keeps d [] h = h
  fold_keeps x keeps d (a ∷ l) h = fold_keeps x keeps (f d a) l (keeps d a h)

  pub fold_adds :
      (x : Bytes) (b : A)
      → ((d : List Bytes) (a : A) → is_in x d ≡ true → is_in x (f d a) ≡ true)
      → ((d : List Bytes) → is_in x (f d b) ≡ true)
      → (d : List Bytes) (l : List A) → IsIn b l
      → is_in x (fold f d l) ≡ true
  fold_adds x b keeps adds d [] h = absurd h
  fold_adds x b keeps adds d (a ∷ l) (inl e) =
      fold_keeps x keeps (f d a) l (subst (λ z. is_in x (f d z) ≡ true) (sym e) (adds d))
  fold_adds x b keeps adds d (a ∷ l) (inr at) = fold_adds x b keeps adds (f d a) l at

  pub fold-IsDistinct :
      ((d : List Bytes) (a : A) → IsDistinct d → IsDistinct (f d a))
      → (d : List Bytes) (l : List A) → IsDistinct d
      → IsDistinct (fold f d l)
  fold-IsDistinct step d [] h = h
  fold-IsDistinct step d (a ∷ l) h = fold-IsDistinct step (f d a) l (step d a h)

pub is_in-keep :
    (test : Bytes → Bool) (x : Bytes) (s : List Bytes)
    → is_in x (keep test s) ≡ true
    → is_in x s ≡ true
unfolding is_in
is_in-keep test x [] h = absurd (ground (arith, h))
is_in-keep test x (y ∷ s) h = elim (Bool-cases (test y)) [
  | inl fits ↦ elim (Bool-cases (bytes_eq x y)) [
    | inl same ↦ rw same refl
    | inr other ↦ rw other (is_in-keep test x s (rw (fits, other) at h))
  ]
  | inr fails ↦ is_in_tail x y s (is_in-keep test x s (rw fails at h))
]

pub keep-IsDistinct :
    (test : Bytes → Bool) (s : List Bytes) → IsDistinct s → IsDistinct (keep test s)
keep-IsDistinct test [] d = tt
keep-IsDistinct test (y ∷ s) (n, d) = elim (Bool-cases (test y)) [
  | inr fails ↦ rw fails (keep-IsDistinct test s d)
  | inl fits ↦ elim (Bool-cases (is_in y (keep test s))) [
    | inl there ↦ absurd (ground (arith, n, is_in-keep test y s there))
    | inr absent ↦ rw fits (absent, keep-IsDistinct test s d)
  ]
]
