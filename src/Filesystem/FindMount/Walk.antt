-- ===== src/Filesystem/FindMount/Walk.antt =====
-- The walk ends, and finds the nearest directory that is a main mount.
use mathlib.Core.Path.{subst}
use fscrypt.Common.{
  ℕ, zero, suc, ◌<◌, ◌≡◌, ◌≢◌, refl, true, false, ◌⊎◌, inl, inr, [], ◌∷◌, none, some, Bytes,
  bytes_eq, bytes_eq_refl, bytes_eq→eq, length, Result, ok, err, arith, Bool-cases, Option-cases,
}
use fscrypt.Filesystem.MountInfo.{Mount}
use fscrypt.Filesystem.FindMount.{
  slash, cut_last, dir_of, dir, Table, FindError, no_mountpoint, walk, find_mount,
}

abbrev pub IsAbsolute : Bytes → Type 0
IsAbsolute [] = ⊥
IsAbsolute (c ∷ s) = c ≡ slash

cut_last-length : (s p : Bytes) → cut_last s ≡ some p → length p < length s
unfolding cut_last
cut_last-length [] p h = ground arith
cut_last-length (c ∷ s) p h = elim (Option-cases (cut_last s)) [
  | inl bad ↦ ground arith
  | inr (q, good) ↦ ground (arith, cut_last-length s q good)
]

-- In an absolute path there is a "/", and what stands in front of it is empty or absolute.
cut_last-IsAbsolute :
    (s : Bytes) → (p : Bytes) × (cut_last (slash ∷ s) ≡ some p) × ((p ≡ []) ⊎ IsAbsolute p)
unfolding cut_last
cut_last-IsAbsolute s = elim (Option-cases (cut_last s)) [
  | inl bad ↦ ([], rw bad refl, inl refl)
  | inr (q, good) ↦ (slash ∷ q, rw good refl, inr refl)
]

dir_of-IsAbsolute : (p : Bytes) → (p ≡ []) ⊎ IsAbsolute p → IsAbsolute (dir_of (some p))
dir_of-IsAbsolute [] h = refl
dir_of-IsAbsolute (c ∷ p) (inl h) = ground arith
dir_of-IsAbsolute (c ∷ p) (inr h) = h

pub dir-IsAbsolute : (path : Bytes) → IsAbsolute path → IsAbsolute (dir path)
unfolding dir
dir-IsAbsolute [] h = absurd h
dir-IsAbsolute (c ∷ s) h =
    let (p, e, shape) = cut_last-IsAbsolute s in rw (h, e) (dir_of-IsAbsolute p shape)

dir_of-lt :
    (s p : Bytes)
    → length p < suc (length s)
    → dir_of (some p) ≢ slash ∷ s
    → length (dir_of (some p)) < suc (length s)
dir_of-lt [] [] l n = absurd (n refl)
dir_of-lt (d ∷ s) [] l n = omega arith
dir_of-lt s (c ∷ p) l n = l

-- Below the root, the parent directory is shorter.
dir-lt : (path : Bytes) → IsAbsolute path → dir path ≢ path → length (dir path) < length path
unfolding dir
dir-lt [] h n = absurd h
dir-lt (c ∷ s) h n =
    let (p, e, shape) = cut_last-IsAbsolute s in
    rw (h, e) (dir_of-lt s p (cut_last-length (slash ∷ s) p e) (rw (h, e) at n))

dir_of_below :
    (s p : Bytes)
    → length p < suc (length s)
    → bytes_eq (slash ∷ s) (slash ∷ []) ≡ false
    → length (dir_of (some p)) < suc (length s)
unfolding bytes_eq
dir_of_below [] [] l n = absurd (ground (arith, n))
dir_of_below (d ∷ s) [] l n = omega arith
dir_of_below s (c ∷ p) l n = l

-- The parent directory of any path but the root is shorter.
pub dir_below :
    (path : Bytes)
    → IsAbsolute path
    → bytes_eq path (slash ∷ []) ≡ false
    → length (dir path) < length path
unfolding dir
dir_below [] h n = absurd h
dir_below (c ∷ s) h n =
    let (p, e, shape) = cut_last-IsAbsolute s in
    let n' : bytes_eq (slash ∷ s) (slash ∷ []) ≡ false =
      subst (λ z. bytes_eq (z ∷ s) (slash ∷ []) ≡ false) h n in
    rw (h, e) (dir_of_below s p (cut_last-length (slash ∷ s) p e) n')

-- The directory `n` levels up.
abbrev pub ancestor : ℕ → Bytes → Bytes
ancestor zero path = path
ancestor (suc n) path = ancestor n (dir path)

-- The nearest main mount: a directory that is one, with none below it.
abbrev pub IsNearest : Table → Bytes → Mount → Type 0
IsNearest t path m =
    (n : ℕ) × (t.mounts_by_path (ancestor n path) ≡ some m)
    × ((j : ℕ) → j < n → t.mounts_by_path (ancestor j path) ≡ none)

-- What a walk has to return: the nearest main mount, or an error where no directory is one.
abbrev pub Found : Table → Bytes → Result FindError Mount → Type 0
Found t path (ok m) = IsNearest t path m
Found t path (err e) = (e ≡ no_mountpoint) × ((n : ℕ) → t.mounts_by_path (ancestor n path) ≡ none)

root_stays : (path : Bytes) → dir path ≡ path → (n : ℕ) → ancestor n path ≡ path
root_stays path h zero = refl
root_stays path h (suc n) = rw h (root_stays path h n)

Found-step :
    (t : Table) (path : Bytes) (r : Result FindError Mount)
    → t.mounts_by_path path ≡ none
    → Found t (dir path) r
    → Found t path r
Found-step t path (ok m) e (n, hit, before) = (suc n, hit, λ j. below j)
  where
    below : (j : ℕ) → j < suc n → t.mounts_by_path (ancestor j path) ≡ none
    below zero h = e
    below (suc j) h = before j (omega arith)
Found-step t path (err x) e (q, nothing) = (q, λ n. above n)
  where
    above : (n : ℕ) → t.mounts_by_path (ancestor n path) ≡ none
    above zero = e
    above (suc n) = nothing n

module _ (t : Table) (fuel : ℕ) (path : Bytes) where
  walk_hit : (m : Mount) → t.mounts_by_path path ≡ some m → walk t (suc fuel) path ≡ ok m
  unfolding walk
  walk_hit m hit = ground arith

  walk_root :
      t.mounts_by_path path ≡ none
      → bytes_eq (dir path) path ≡ true
      → walk t (suc fuel) path ≡ err no_mountpoint
  unfolding walk
  walk_root miss root = ground arith

  walk_inner :
      t.mounts_by_path path ≡ none
      → bytes_eq (dir path) path ≡ false
      → walk t (suc fuel) path ≡ walk t fuel (dir path)
  unfolding walk
  walk_inner miss inner = ground arith

-- With more fuel than the path has bytes the walk ends, and finds the nearest main mount.
pub walk_lem :
    (t : Table) (fuel : ℕ) (path : Bytes)
    → IsAbsolute path
    → length path < fuel
    → Found t path (walk t fuel path)
walk_lem t zero path h l = absurd (omega arith)
walk_lem t (suc fuel) path h l = elim (Option-cases (t.mounts_by_path path)) [
  | inr (m, hit) ↦ rw (walk_hit t fuel path m hit) (zero, hit, λ j lt. absurd (omega arith))
  | inl miss ↦ elim (Bool-cases (bytes_eq (dir path) path)) [
    | inl root ↦
        rw (walk_root t fuel path miss root)
          (refl, λ n. rw (root_stays path (bytes_eq→eq (dir path) path root) n) miss)
    | inr inner ↦
        let differ : dir path ≢ path = λ e. ground (arith, bytes_eq_refl path) in
        let rest =
          walk_lem t fuel (dir path) (dir-IsAbsolute path h)
            (omega (arith, dir-lt path h differ)) in
        rw (walk_inner t fuel path miss inner)
          (Found-step t path (walk t fuel (dir path)) miss rest)
  ]
]

-- FindMount by path: for a file whose device is in no mount entry, the nearest main mount above its
-- canonical path, or the error that there is none. The fuel that it starts with is enough.
pub find_mount_by_path :
    (t : Table) (path canonical : Bytes) (device : ℕ)
    → t.load_error ≡ none
    → t.containing_device path ≡ ok device
    → t.mounts_by_device device ≡ none
    → t.canonicalize_path path ≡ ok canonical
    → IsAbsolute canonical
    → Found t canonical (find_mount t path)
unfolding find_mount
find_mount_by_path t path canonical device loaded found miss c absolute =
    subst (Found t canonical) (ground arith)
      (walk_lem t (suc (length canonical)) canonical absolute (omega arith))
