-- ===== src/Filesystem/MainMount/Sets.antt =====
-- Sets as lists: how many keys there are tells whether all are there.
use mathlib.Core.Path.{subst}
use fscrypt.Common.{
  suc, ◌≤◌, ◌≡◌, refl, sym, ap, ◌⊎◌, inl, inr, Bool-cases, Bool, true, false, List, [], ◌∷◌, Bytes,
  bytes_eq, bytes_eq_refl, bytes_eq→eq, length, if◌then◌else◌, arith,
}
use fscrypt.Filesystem.MainMount.{is_in, insert, keep}

-- Membership in a list.
abbrev pub IsIn : {A : Type 0} → A → List A → Type 0
IsIn a [] = ⊥
IsIn a (x ∷ l) = (x ≡ a) ⊎ IsIn a l

abbrev pub IsDistinct : List Bytes → Type 0
IsDistinct [] = Unit
IsDistinct (x ∷ s) = (is_in x s ≡ false) × IsDistinct s

remove : Bytes → List Bytes → List Bytes
remove x [] = []
remove x (y ∷ s) = let rest = remove x s in if bytes_eq x y then s else y ∷ rest

length-remove :
    (x : Bytes) (s : List Bytes) → is_in x s ≡ true → suc (length (remove x s)) ≡ length s
unfolding is_in remove
length-remove x [] h = absurd (ground (arith, h))
length-remove x (y ∷ s) h = elim (Bool-cases (bytes_eq x y)) [
  | inl same ↦ rw same refl
  | inr other ↦ rw other (ap suc (length-remove x s (rw other at h)))
]

is_in-remove :
    (x y : Bytes) (s : List Bytes)
    → bytes_eq y x ≡ false
    → is_in y s ≡ true
    → is_in y (remove x s) ≡ true
unfolding is_in remove
is_in-remove x y [] n h = absurd (ground (arith, h))
is_in-remove x y (z ∷ s) n h = elim (Bool-cases (bytes_eq x z)) [
  | inl same ↦
      let e : x ≡ z = bytes_eq→eq x z same in
      let n' : bytes_eq y z ≡ false = subst (λ (q : Bytes). bytes_eq y q ≡ false) e n in
      rw same (rw n' at h)
  | inr other ↦ elim (Bool-cases (bytes_eq y z)) [
    | inl this ↦ rw (other, this) refl
    | inr that ↦ rw (other, that) (is_in-remove x y s n (rw that at h))
  ]
]

pub is_in_head : (x : Bytes) (s : List Bytes) → is_in x (x ∷ s) ≡ true
unfolding is_in
is_in_head x s = rw (bytes_eq_refl x) refl

pub is_in_tail : (x y : Bytes) (s : List Bytes) → is_in x s ≡ true → is_in x (y ∷ s) ≡ true
unfolding is_in
is_in_tail x y s h = elim (Bool-cases (bytes_eq x y)) [
  | inl same ↦ rw same refl
  | inr other ↦ rw other h
]

-- A key of the rest is not the first one.
rest_differs :
    (x y : Bytes) (s : List Bytes) → is_in x s ≡ false → is_in y s ≡ true → bytes_eq y x ≡ false
rest_differs x y s n h = elim (Bool-cases (bytes_eq y x)) [
  | inl same ↦
      let e : y ≡ x = bytes_eq→eq y x same in
      absurd (ground (arith, n, subst (λ (q : Bytes). is_in q s ≡ true) e h))
  | inr other ↦ other
]

abbrev pub Includes : List Bytes → List Bytes → Type 0
Includes b a = (y : Bytes) → is_in y a ≡ true → is_in y b ≡ true

Includes-removed :
    (x : Bytes) (a b : List Bytes)
    → is_in x a ≡ false
    → Includes b (x ∷ a)
    → Includes (remove x b) a
Includes-removed x a b n i y h =
    is_in-remove x y b (rest_differs x y a n h) (i y (is_in_tail y x a h))

-- A set that includes another has at least as many keys.
pub Includes-length : (a b : List Bytes) → IsDistinct a → Includes b a → length a ≤ length b
Includes-length [] b d i = omega arith
Includes-length (x ∷ a) b (n, d) i = omega (
  arith,
  Includes-length a (remove x b) d (Includes-removed x a b n i),
  length-remove x b (i x (is_in_head x a)),
)

-- If it has no more keys, then the other includes it too.
pub Includes-sym :
    (a b : List Bytes) → IsDistinct a → Includes b a → length b ≤ length a → Includes a b
unfolding is_in
Includes-sym [] [] d i l y h = absurd (ground (arith, h))
Includes-sym [] (x ∷ b) d i l y h = absurd (omega (arith, l))
Includes-sym (x ∷ a) b (n, d) i l y h = elim (Bool-cases (bytes_eq y x)) [
  | inl same ↦ rw same refl
  | inr other ↦ rw other (
      Includes-sym a (remove x b) d (Includes-removed x a b n i)
        (omega (arith, l, length-remove x b (i x (is_in_head x a)))) y (is_in-remove x y b other h))
]

pub is_in-insert :
    (x y : Bytes) (s : List Bytes) → is_in y (insert x s) ≡ true → (y ≡ x) ⊎ (is_in y s ≡ true)
unfolding is_in insert
is_in-insert x y s h = elim (Bool-cases (is_in x s)) [
  | inl there ↦ inr (rw there at h)
  | inr absent ↦ elim (Bool-cases (bytes_eq y x)) [
    | inl same ↦ inl (bytes_eq→eq y x same)
    | inr other ↦ inr (rw (absent, other) at h)
  ]
]

pub insert-is_in : (x : Bytes) (s : List Bytes) → is_in x (insert x s) ≡ true
unfolding insert
insert-is_in x s = elim (Bool-cases (is_in x s)) [
  | inl there ↦ rw there there
  | inr absent ↦ rw absent (is_in_head x s)
]

pub insert-keeps : (x y : Bytes) (s : List Bytes) → is_in y s ≡ true → is_in y (insert x s) ≡ true
unfolding insert
insert-keeps x y s h = elim (Bool-cases (is_in x s)) [
  | inl there ↦ rw there h
  | inr absent ↦ rw absent (is_in_tail y x s h)
]

pub insert-IsDistinct : (x : Bytes) (s : List Bytes) → IsDistinct s → IsDistinct (insert x s)
unfolding insert
insert-IsDistinct x s d = elim (Bool-cases (is_in x s)) [
  | inl there ↦ rw there d
  | inr absent ↦ rw absent (absent, d)
]

-- What `keep` leaves.
pub IsIn-keep :
    {A : Type 0} (test : A → Bool) (a : A) (l : List A)
    → IsIn a (keep test l)
    → IsIn a l × (test a ≡ true)
IsIn-keep test a [] h = absurd h
IsIn-keep test a (x ∷ l) h = elim (Bool-cases (test x)) [
  | inl fits ↦ elim (rw fits at h) as (λ _. IsIn a (x ∷ l) × (test a ≡ true)) [
    | inl e ↦ (inl e, subst (λ z. test z ≡ true) e fits)
    | inr rest ↦ let (there, fine) = IsIn-keep test a l rest in (inr there, fine)
  ]
  | inr fails ↦ let (there, fine) = IsIn-keep test a l (rw fails at h) in (inr there, fine)
]

pub keep-IsIn :
    {A : Type 0} (test : A → Bool) (a : A) (l : List A)
    → IsIn a l
    → test a ≡ true
    → IsIn a (keep test l)
keep-IsIn test a [] h t = absurd h
keep-IsIn test a (x ∷ l) (inl e) t =
    let fits : test x ≡ true = subst (λ z. test z ≡ true) (sym e) t in rw fits (inl e)
keep-IsIn test a (x ∷ l) (inr rest) t = elim (Bool-cases (test x)) [
  | inl fits ↦ rw fits (inr (keep-IsIn test a l rest t))
  | inr fails ↦ rw fails (keep-IsIn test a l rest t)
]
