-- ===== src/Filesystem/MainMount/Chosen.antt =====
-- What the choice among the eligible mounts returns.
use mathlib.Core.Path.{subst}
use fscrypt.Common.{
  ◌≡◌, ◌≢◌, refl, sym, ap, ◌∙◌, ◌⊎◌, inl, inr, Bool-cases, Bool, true, false, List, [], ◌∷◌, Option,
  none, some, Bytes, bytes_eq, bytes_eq_refl, bytes_eq→eq, if◌then◌else◌, arith,
}
use fscrypt.Filesystem.MountInfo.{Mount}
use fscrypt.Filesystem.MainMount.{choose}
use fscrypt.Filesystem.MainMount.Sets.{IsIn}

module _ (test : Mount → Bool) where
  -- All eligible mounts are of the subtree of `m`, and if `m` is read-only, then so are they.
  abbrev pub Leads : Mount → List Mount → Type 0
  Leads m ms =
      (x : Mount)
      → IsIn x ms
      → test x ≡ true
      → (x.subtree ≡ m.subtree) × (m.read_only ≡ true → x.read_only ≡ true)

  -- Two eligible mounts of different subtrees.
  abbrev pub IsAmbiguous : List Mount → Type 0
  IsAmbiguous ms =
      (a : Mount) × (b : Mount) × IsIn a ms
      × IsIn b ms
      × (test a ≡ true)
      × (test b ≡ true)
      × (a.subtree ≢ b.subtree)

  abbrev pub Choice : List Mount → Option Mount → Type 0
  Choice ms (some m) = IsIn m ms × (test m ≡ true) × Leads m ms
  Choice ms none = ((x : Mount) → IsIn x ms → test x ≡ false) ⊎ IsAmbiguous ms

  -- What is chosen if there is a main mount already, which is eligible.
  abbrev Further : Mount → List Mount → Option Mount → Type 0
  Further main_mount ms (some m) =
      ((m ≡ main_mount) ⊎ IsIn m ms)
      × (test m ≡ true)
      × (m.subtree ≡ main_mount.subtree)
      × (m.read_only ≡ true → main_mount.read_only ≡ true)
      × Leads m ms
  Further main_mount ms none =
      ((b : Mount) × IsIn b ms × (test b ≡ true) × (main_mount.subtree ≢ b.subtree))
      ⊎ IsAmbiguous ms

  IsAmbiguous-cons : (m : Mount) (ms : List Mount) → IsAmbiguous ms → IsAmbiguous (m ∷ ms)
  IsAmbiguous-cons m ms (a, b, in_a, in_b, ta, tb, n) = (a, b, inr in_a, inr in_b, ta, tb, n)

  Further-skip :
      (main_mount m : Mount) (ms : List Mount) (r : Option Mount)
      → test m ≡ false
      → Further main_mount ms r
      → Further main_mount (m ∷ ms) r
  Further-skip main_mount m ms (some x) f (at, t, same, ro, leads) = (
    elim at as (λ _. (x ≡ main_mount) ⊎ IsIn x (m ∷ ms)) [
      | inl e ↦ inl e
      | inr there ↦ inr (inr there)
    ],
    t,
    same,
    ro,
    lead,
  )
    where
      lead : Leads x (m ∷ ms)
      lead y (inl e) ty = absurd (ground (arith, f, ap test e, ty))
      lead y (inr there) ty = leads y there ty
  Further-skip main_mount m ms none f (inl (b, there, tb, n)) = inl (b, inr there, tb, n)
  Further-skip main_mount m ms none f (inr two) = inr (IsAmbiguous-cons m ms two)

  Further-kept :
      (main_mount m : Mount) (ms : List Mount) (r : Option Mount)
      → main_mount.read_only ≡ false
      → main_mount.subtree ≡ m.subtree
      → Further main_mount ms r
      → Further main_mount (m ∷ ms) r
  Further-kept main_mount m ms (some x) f e (at, t, same, ro, leads) = (
    elim at as (λ _. (x ≡ main_mount) ⊎ IsIn x (m ∷ ms)) [
      | inl q ↦ inl q
      | inr there ↦ inr (inr there)
    ],
    t,
    same,
    ro,
    lead,
  )
    where
      lead : Leads x (m ∷ ms)
      lead y (inl q) ty = (
        ap (λ (z : Mount). z.subtree) (sym q) ∙ sym e ∙ sym same,
        λ h. absurd (ground (arith, f, ro h)),
      )
      lead y (inr there) ty = leads y there ty
  Further-kept main_mount m ms none f e (inl (b, there, tb, n)) = inl (b, inr there, tb, n)
  Further-kept main_mount m ms none f e (inr two) = inr (IsAmbiguous-cons m ms two)

  Further-taken :
      (main_mount m : Mount) (ms : List Mount) (r : Option Mount)
      → main_mount.read_only ≡ true
      → main_mount.subtree ≡ m.subtree
      → Further m ms r
      → Further main_mount (m ∷ ms) r
  Further-taken main_mount m ms (some x) f e (at, t, same, ro, leads) = (
    elim at as (λ _. (x ≡ main_mount) ⊎ IsIn x (m ∷ ms)) [
      | inl q ↦ inr (inl (sym q))
      | inr there ↦ inr (inr there)
    ],
    t,
    same ∙ sym e,
    λ h. f,
    lead,
  )
    where
      lead : Leads x (m ∷ ms)
      lead y (inl q) ty = (
        ap (λ (z : Mount). z.subtree) (sym q) ∙ sym same,
        λ h. ap (λ (z : Mount). z.read_only) (sym q) ∙ ro h,
      )
      lead y (inr there) ty = leads y there ty
  Further-taken main_mount m ms none f e (inl (b, there, tb, n)) =
      inl (b, inr there, tb, λ q. n (sym e ∙ q))
  Further-taken main_mount m ms none f e (inr two) = inr (IsAmbiguous-cons m ms two)

  Further-preferred :
      (main_mount m : Mount) (ms : List Mount) (read_only : Bool)
      → main_mount.read_only ≡ read_only
      → main_mount.subtree ≡ m.subtree
      → Further m ms (choose test ms (some m))
      → Further main_mount ms (choose test ms (some main_mount))
      → Further main_mount (m ∷ ms) (choose test ms (some (if read_only then m else main_mount)))
  Further-preferred main_mount m ms true ro e taken kept =
      Further-taken main_mount m ms (choose test ms (some m)) ro e taken
  Further-preferred main_mount m ms false ro e taken kept =
      Further-kept main_mount m ms (choose test ms (some main_mount)) ro e kept

  further_lem :
      (ms : List Mount) (main_mount : Mount)
      → test main_mount ≡ true
      → Further main_mount ms (choose test ms (some main_mount))
  unfolding choose
  further_lem [] main_mount t = (inl refl, t, refl, λ h. h, λ x h. absurd h)
  further_lem (m ∷ ms) main_mount t = elim (Bool-cases (test m)) [
    | inr fails ↦ rw fails (Further-skip main_mount m ms _ fails (further_lem ms main_mount t))
    | inl fits ↦ elim (Bool-cases (bytes_eq main_mount.subtree m.subtree)) [
      | inr other ↦
          rw (fits, other)
            (inl (
              m,
              inl refl,
              fits,
              λ e. ground (
                arith,
                other,
                subst (λ (s : Bytes). bytes_eq main_mount.subtree s ≡ true) e
                    (bytes_eq_refl main_mount.subtree),
              ),
            ))
      | inl same ↦
          let e = bytes_eq→eq main_mount.subtree m.subtree same in
          rw (fits, same)
            (Further-preferred main_mount m ms main_mount.read_only refl e (further_lem ms m fits)
              (further_lem ms main_mount t))
    ]
  ]

  Choice-first :
      (m : Mount) (ms : List Mount) (r : Option Mount)
      → test m ≡ true
      → Further m ms r
      → Choice (m ∷ ms) r
  Choice-first m ms (some x) fits (at, t, same, ro, leads) =
      (elim at as (λ _. IsIn x (m ∷ ms)) [ inl q ↦ inl (sym q) | inr there ↦ inr there ], t, lead)
    where
      lead : Leads x (m ∷ ms)
      lead y (inl q) ty = (
        ap (λ (z : Mount). z.subtree) (sym q) ∙ sym same,
        λ h. ap (λ (z : Mount). z.read_only) (sym q) ∙ ro h,
      )
      lead y (inr there) ty = leads y there ty
  Choice-first m ms none fits (inl (b, there, tb, n)) = inr (m, b, inl refl, inr there, fits, tb, n)
  Choice-first m ms none fits (inr two) = inr (IsAmbiguous-cons m ms two)

  Choice-skip :
      (m : Mount) (ms : List Mount) (r : Option Mount)
      → test m ≡ false
      → Choice ms r
      → Choice (m ∷ ms) r
  Choice-skip m ms (some x) f (there, t, leads) = (inr there, t, lead)
    where
      lead : Leads x (m ∷ ms)
      lead y (inl e) ty = absurd (ground (arith, f, ap test e, ty))
      lead y (inr at) ty = leads y at ty
  Choice-skip m ms none f (inl missing) = inl all
    where
      all : (x : Mount) → IsIn x (m ∷ ms) → test x ≡ false
      all x (inl e) = subst (λ z. test z ≡ false) e f
      all x (inr at) = missing x at
  Choice-skip m ms none f (inr two) = inr (IsAmbiguous-cons m ms two)

  -- The choice is an eligible mount whose subtree all eligible mounts have, read-write if one of
  -- them is; there is none exactly because none is eligible or two have different subtrees.
  pub choose_lem : (ms : List Mount) → Choice ms (choose test ms none)
  unfolding choose
  choose_lem [] = inl (λ x h. absurd h)
  choose_lem (m ∷ ms) = elim (Bool-cases (test m)) [
    | inl fits ↦ rw fits (Choice-first m ms _ fits (further_lem ms m fits))
    | inr fails ↦ rw fails (Choice-skip m ms _ fails (choose_lem ms))
  ]
