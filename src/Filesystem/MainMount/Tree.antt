-- ===== src/Filesystem/MainMount/Tree.antt =====
-- The eligible mounts: roots of trees of mountpoints in which every uncontained subtree is mounted.
use mathlib.Core.Path.{subst}
use fscrypt.Common.{
  ℕ, zero, suc, ◌≡◌, ◌↔◌, refl, sym, ap, ◌∙◌, ◌⊎◌, inl, inr, Bool-cases, Bool, true, false, not,
  List, [], Option, none, some, Bytes, length, ◌==◌, ==_iff, ◌&&◌, if◌then◌else◌, arith,
}
use fscrypt.Filesystem.MountInfo.{Mount}
use fscrypt.Filesystem.MainMount.{
  is_in, insert, all_subtrees, parent, children, add_uncontained_subtrees, is_contained,
  all_uncontained, longest, has_no, is_eligible, find_main_mount,
}
use fscrypt.Filesystem.MainMount.Sets.{
  IsIn, IsDistinct, Includes, Includes-length, Includes-sym, is_in-insert, insert-is_in,
  insert-keeps, insert-IsDistinct,
}
use fscrypt.Filesystem.MainMount.Folds.{
  fold_sound, fold_keeps, fold_adds, fold-IsDistinct, keep-IsDistinct,
}
use fscrypt.Filesystem.MainMount.Chosen.{Choice, choose_lem}

module _ (ms : List Mount) where
  -- A node of the tree of `r`, less than `n` levels below it.
  abbrev pub Below : ℕ → Mount → Mount → Type 0
  Below zero r m = ⊥
  Below (suc n) r m = (r ≡ m) ⊎ ((c : Mount) × IsIn c (children ms r) × Below n c m)

  -- A subtree is mounted in the tree of `r`.
  abbrev pub Mounted : ℕ → Mount → Bytes → Type 0
  Mounted n r x = (m : Mount) × Below n r m × (m.subtree ≡ x)

  module _ (uncontained : List Bytes) (x : Bytes) where
    own_sound :
        (d : List Bytes) (r : Mount)
        → is_in x (if is_in r.subtree uncontained then insert r.subtree d else d) ≡ true
        → (is_in x d ≡ true) ⊎ ((r.subtree ≡ x) × (is_in x uncontained ≡ true))
    own_sound d r h = elim (Bool-cases (is_in r.subtree uncontained)) [
      | inl fits ↦ elim (is_in-insert r.subtree x d (rw fits at h)) [
        | inl e ↦ inr (sym e, subst (λ (z : Bytes). is_in z uncontained ≡ true) (sym e) fits)
        | inr there ↦ inl there
      ]
      | inr fails ↦ inl (rw fails at h)
    ]

    own_keeps :
        (d : List Bytes) (r : Mount)
        → is_in x d ≡ true
        → is_in x (if is_in r.subtree uncontained then insert r.subtree d else d) ≡ true
    own_keeps d r h = elim (Bool-cases (is_in r.subtree uncontained)) [
      | inl fits ↦ rw fits (insert-keeps r.subtree x d h)
      | inr fails ↦ rw fails h
    ]

    -- What is collected was there, or is an uncontained subtree that is mounted in the tree.
    collects_sound :
        (n : ℕ) (d : List Bytes) (r : Mount)
        → is_in x (add_uncontained_subtrees ms uncontained n d r) ≡ true
        → (is_in x d ≡ true) ⊎ (Mounted n r x × (is_in x uncontained ≡ true))
    unfolding add_uncontained_subtrees
    collects_sound zero d r h = inl h
    collects_sound (suc n) d r h =
        elim (fold_sound (λ d c. add_uncontained_subtrees ms uncontained n d c)
          (λ c. Mounted n c x × (is_in x uncontained ≡ true)) x (λ d c q. collects_sound n d c q) _
          (children ms r) h) [
            | inl own ↦ elim (own_sound d r own) [
              | inl before ↦ inl before
              | inr (e, fits) ↦ inr ((r, inl refl, e), fits)
            ]
            | inr (c, at, ((m, under, e), fits)) ↦ inr ((m, inr (c, at, under), e), fits)
          ]

    collects_keeps :
        (n : ℕ) (d : List Bytes) (r : Mount)
        → is_in x d ≡ true
        → is_in x (add_uncontained_subtrees ms uncontained n d r) ≡ true
    unfolding add_uncontained_subtrees
    collects_keeps zero d r h = h
    collects_keeps (suc n) d r h =
        fold_keeps (λ d c. add_uncontained_subtrees ms uncontained n d c) x
          (λ d c q. collects_keeps n d c q) _ (children ms r) (own_keeps d r h)

    collects_adds :
        (n : ℕ) (r m : Mount)
        → Below n r m
        → m.subtree ≡ x
        → is_in x uncontained ≡ true
        → (d : List Bytes) → is_in x (add_uncontained_subtrees ms uncontained n d r) ≡ true
    unfolding add_uncontained_subtrees
    collects_adds zero r m under e fits d = absurd under
    collects_adds (suc n) r m (inl q) e fits d =
        let same : r.subtree ≡ x = ap (λ (z : Mount). z.subtree) q ∙ e in
        let fits' : is_in r.subtree uncontained ≡ true =
          subst (λ (z : Bytes). is_in z uncontained ≡ true) (sym same) fits in
        let here : is_in x (insert r.subtree d) ≡ true =
          subst (λ (z : Bytes). is_in z (insert r.subtree d) ≡ true) same
            (insert-is_in r.subtree d) in
        fold_keeps (λ d c. add_uncontained_subtrees ms uncontained n d c) x
          (λ d c p. collects_keeps n d c p) _ (children ms r) (rw fits' here)
    collects_adds (suc n) r m (inr (c, at, under)) e fits d =
        fold_adds (λ d c. add_uncontained_subtrees ms uncontained n d c) x c
          (λ d c p. collects_keeps n d c p) (λ d. collects_adds n c m under e fits d) _
          (children ms r) at

  collects-IsDistinct :
      (uncontained : List Bytes) (n : ℕ) (d : List Bytes) (r : Mount)
      → IsDistinct d
      → IsDistinct (add_uncontained_subtrees ms uncontained n d r)
  unfolding add_uncontained_subtrees
  collects-IsDistinct uncontained zero d r h = h
  collects-IsDistinct uncontained (suc n) d r h =
      fold-IsDistinct (λ d c. add_uncontained_subtrees ms uncontained n d c)
        (λ d c q. collects-IsDistinct uncontained n d c q) _ (children ms r) own
    where
      own : IsDistinct (if is_in r.subtree uncontained then insert r.subtree d else d)
      own = elim (Bool-cases (is_in r.subtree uncontained)) [
        | inl fits ↦ rw fits (insert-IsDistinct r.subtree d h)
        | inr fails ↦ rw fails h
      ]

  -- The set that is collected has the size of the set of uncontained subtrees exactly if each of
  -- these is mounted in the tree.
  collects_all_iff :
      (uncontained : List Bytes) (n : ℕ) (r : Mount)
      → IsDistinct uncontained
      → (length (add_uncontained_subtrees ms uncontained n [] r) ≡ length uncontained)
        ↔ ((x : Bytes) → is_in x uncontained ≡ true → Mounted n r x)
  unfolding is_in
  collects_all_iff uncontained n r d = (
    λ e x h.
        elim (collects_sound uncontained x n [] r
            (Includes-sym got uncontained distinct within (omega (arith, e)) x h))
          as (λ _. Mounted n r x) [
            | inl never ↦ absurd (ground (arith, never))
            | inr (mounted, fits) ↦ mounted
          ],
    λ all. omega (
      arith,
      Includes-length got uncontained distinct within,
      Includes-length uncontained got d
          (λ x h. let (m, under, e) = all x h in collects_adds uncontained x n r m under e h []),
    ),
  )
    where
      got : List Bytes
      got = add_uncontained_subtrees ms uncontained n [] r

      distinct : IsDistinct got
      distinct = collects-IsDistinct uncontained n [] r tt

      within : Includes uncontained got
      within x h = elim (collects_sound uncontained x n [] r h) [
        | inl never ↦ absurd (ground (arith, never))
        | inr (mounted, fits) ↦ fits
      ]

  -- A mount with no other one of the filesystem above its path, in whose tree of mountpoints every
  -- uncontained subtree is mounted.
  abbrev pub IsEligible : Mount → Type 0
  IsEligible m =
      (parent ms m ≡ none)
      × ((x : Bytes)
          → is_in x (all_uncontained (all_subtrees ms)) ≡ true
          → Mounted (suc (longest ms)) m x)

  uncontained-IsDistinct : IsDistinct (all_uncontained (all_subtrees ms))
  uncontained-IsDistinct =
      keep-IsDistinct (λ t. not (is_contained (all_subtrees ms) (length t) t)) (all_subtrees ms)
        (fold-IsDistinct (λ s (m : Mount). insert m.subtree s)
          (λ d m h. insert-IsDistinct m.subtree d h) [] ms tt)

  has_no_iff : {A : Type 0} (o : Option A) → (has_no o ≡ true) ↔ (o ≡ none)
  has_no_iff none = (λ h. refl, λ h. refl)
  has_no_iff (some a) = (λ h. absurd (ground (arith, h)), λ h. absurd (ground (arith, h)))

  IsEligible-iff : (m : Mount) → (is_eligible ms m ≡ true) ↔ IsEligible m
  unfolding is_eligible
  IsEligible-iff m =
      let uncontained = all_uncontained (all_subtrees ms) in
      let got = add_uncontained_subtrees ms uncontained (suc (longest ms)) [] m in
      let all = collects_all_iff uncontained (suc (longest ms)) m uncontained-IsDistinct in
      let rootless = has_no_iff (parent ms m) in
      (
        λ h.
            let (a, b) = both (has_no (parent ms m)) (length got == length uncontained) h in
            (rootless.0 a, all.0 ((==_iff (length got) (length uncontained)).0 b)),
        λ (a, b).
            let fits = rootless.1 a in
            let size = (==_iff (length got) (length uncontained)).1 (all.1 b) in
            rw (fits, size) refl,
      )
    where
      both : (a b : Bool) → (a && b) ≡ true → (a ≡ true) × (b ≡ true)
      both true b h = (refl, h)
      both false b h = absurd (ground (arith, h))

  -- findMainMount returns an eligible mount, whose subtree all eligible mounts have, and a
  -- read-write one if there is one among them; it returns none only if no mount is eligible, or two
  -- of different subtrees are. Eligible are the mounts with no other one above their path, in whose
  -- tree of mountpoints every subtree is mounted that no mounted subtree contains.
  pub find_main_mount_lem :
      Choice (λ m. is_eligible ms m) ms (find_main_mount ms)
      × ((m : Mount) → (is_eligible ms m ≡ true) ↔ IsEligible m)
  unfolding find_main_mount
  find_main_mount_lem = (choose_lem (λ m. is_eligible ms m) ms, IsEligible-iff)
