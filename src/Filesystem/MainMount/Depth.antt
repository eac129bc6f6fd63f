-- ===== src/Filesystem/MainMount/Depth.antt =====
-- The loops of findMainMount end: with the fuel that they are given, they have gone all the way.
use fscrypt.Common.{
  ℕ, zero, suc, ◌+◌, ◌≤◌, ◌<◌, ◌≡◌, refl, sym, ap, ◌∙◌, inl, inr, Bool-cases, Option-cases, true,
  List, [], ◌∷◌, Option, none, some, Bytes, bytes_eq→eq, length, if◌then◌else◌, arith,
}
use fscrypt.Filesystem.MountInfo.{Mount}
use fscrypt.Filesystem.FindMount.{dir}
use fscrypt.Filesystem.FindMount.Walk.{IsAbsolute, dir-IsAbsolute, dir_below}
use fscrypt.Filesystem.MainMount.{
  is_in, by_path, first_of, is_root, parent_above, parent, is_parent, is_contained, longest,
}
use fscrypt.Filesystem.MainMount.Sets.{IsIn, IsIn-keep}
use fscrypt.Filesystem.MainMount.Tree.{Below}
use fscrypt.Filesystem.MainMount.Tables.{by_path_sound}

no_empty : (path : Bytes) → IsAbsolute path → length path ≤ 0 → ⊥
no_empty [] h l = h
no_empty (c ∷ s) h l = omega (arith, l)

contained_enough :
    (subtrees : List Bytes) (n k : ℕ) (t : Bytes)
    → IsAbsolute t
    → length t ≤ n
    → length t ≤ k
    → is_contained subtrees n t ≡ is_contained subtrees k t
unfolding is_contained
contained_enough subtrees zero k t h l l' = absurd (no_empty t h l)
contained_enough subtrees (suc n) zero t h l l' = absurd (no_empty t h l')
contained_enough subtrees (suc n) (suc k) t h l l' = elim (Bool-cases (is_root t)) [
  | inl root ↦ rw root refl
  | inr below ↦
      let shorter = dir_below t h below in
      rw below (
        ap (λ b. if is_in (dir t) subtrees then true else b)
          (contained_enough subtrees n k (dir t) (dir-IsAbsolute t h) (omega (arith, shorter, l))
            (omega (arith, shorter, l'))))
]

module _ (ms : List Mount) where
  parent_enough :
      (n k : ℕ) (path : Bytes)
      → IsAbsolute path
      → length path ≤ n
      → length path ≤ k
      → parent_above ms n path ≡ parent_above ms k path
  unfolding parent_above
  parent_enough zero k path h l l' = absurd (no_empty path h l)
  parent_enough (suc n) zero path h l l' = absurd (no_empty path h l')
  parent_enough (suc n) (suc k) path h l l' = elim (Bool-cases (is_root path)) [
    | inl root ↦ rw root refl
    | inr below ↦
        let shorter = dir_below path h below in
        rw below (
          ap (λ o. first_of (by_path ms (dir path)) o)
            (parent_enough n k (dir path) (dir-IsAbsolute path h) (omega (arith, shorter, l))
              (omega (arith, shorter, l'))))
  ]

  parent_shorter :
      (n : ℕ) (path : Bytes) (p : Mount)
      → IsAbsolute path
      → parent_above ms n path ≡ some p
      → length p.path < length path
  unfolding parent_above
  parent_shorter zero path p h e = absurd (ground (arith, e))
  parent_shorter (suc n) path p h e = elim (Bool-cases (is_root path)) [
    | inl root ↦ absurd (ground (arith, rw root at e))
    | inr below ↦
        let shorter = dir_below path h below in
        elim (Option-cases (by_path ms (dir path))) [
          | inl missing ↦
              let above : parent_above ms n (dir path) ≡ some p = rw (below, missing) at e in
              let further = parent_shorter n (dir path) p (dir-IsAbsolute path h) above in
              omega (arith, shorter, further)
          | inr (q, found) ↦
              let this : some q ≡ some p = rw (below, found) at e in
              let same : q ≡ p = ground (arith, this) in
              let at : p.path ≡ dir path =
                ap (λ (z : Mount). z.path) (sym same) ∙ (by_path_sound ms (dir path) q found).1 in
              let size = ap length at in omega (arith, shorter, size)
        ]
  ]

  parent_of_child :
      (r : Mount) (o : Option Mount)
      → is_parent r o ≡ true
      → (p : Mount) × (o ≡ some p) × (p.path ≡ r.path)
  parent_of_child r none h = absurd (ground (arith, h))
  parent_of_child r (some p) h = (p, refl, bytes_eq→eq p.path r.path h)

  in_longest : (m : Mount) (l : List Mount) → IsIn m l → length m.path ≤ longest l
  in_longest m [] h = absurd h
  in_longest m (x ∷ l) (inl e) =
      let size = ap (λ (z : Mount). length z.path) e in omega (arith, size)
  in_longest m (x ∷ l) (inr at) = let size = in_longest m l at in omega (arith, size)

  -- All paths are absolute.
  abbrev pub AllAbsolute : Type 0
  AllAbsolute = (m : Mount) → IsIn m ms → IsAbsolute m.path

  module _ (absolute : AllAbsolute) where
    deep_enough :
        (n : ℕ) (r m : Mount)
        → length r.path ≤ longest ms
        → Below ms n r m
        → (k : ℕ) → longest ms < length r.path + k
        → Below ms k r m
    deep_enough zero r m l b k h = absurd b
    deep_enough (suc n) r m l b zero h = absurd (omega (arith, l, h))
    deep_enough (suc n) r m l (inl e) (suc k) h = inl e
    deep_enough (suc n) r m l (inr (c, at, b)) (suc k) h =
        let (there, fits) = IsIn-keep (λ c. is_parent r (parent ms c)) c ms at in
        let (p, above, same) = parent_of_child r (parent ms c) fits in
        let longer = parent_shorter (length c.path) c.path p (absolute c there) above in
        let size = ap length same in
        inr (c, at, deep_enough n c m (in_longest c ms there) b k (omega (arith, longer, size, h)))

    -- Where all paths of mounts are absolute, the search for a parent and the test of a subtree do
    -- not depend on their fuel once it is the length of the path, and the tree of mountpoints of a
    -- mount has no node deeper than the depth to which it is searched.
    pub loops_complete :
        ((path : Bytes) (k : ℕ)
          → IsAbsolute path
          → length path ≤ k
          → parent_above ms k path ≡ parent_above ms (length path) path)
        × ((subtrees : List Bytes) (t : Bytes) (k : ℕ)
            → IsAbsolute t
            → length t ≤ k
            → is_contained subtrees k t ≡ is_contained subtrees (length t) t)
        × ((r m : Mount) (n : ℕ) → IsIn r ms → Below ms n r m → Below ms (suc (longest ms)) r m)
    loops_complete = (
      λ path k h l. parent_enough k (length path) path h l (omega arith),
      λ subtrees t k h l. contained_enough subtrees k (length t) t h l (omega arith),
      λ r m n at b. deep_enough n r m (in_longest r ms at) b (suc (longest ms)) (omega arith),
    )
