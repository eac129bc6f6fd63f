-- ===== src/Filesystem/MainMount/Tables.antt =====
-- The two tables of main mounts that readMountInfo makes.
use mathlib.Core.List.{map}
use mathlib.Core.Path.{subst}
use fscrypt.Common.{
  ℕ, ◌≡◌, ◌↔◌, refl, sym, ap, ◌∙◌, inl, inr, Bool-cases, Bool, true, false, List, [], ◌∷◌, Option,
  none, some, Bytes, bytes_eq, bytes_eq_refl, bytes_eq→eq, ◌==◌, ==_iff, arith,
}
use fscrypt.Filesystem.MountInfo.{Mount, Devices, parse_mount_info_line}
use fscrypt.Filesystem.MainMount.{
  is_in, fold, keep, by_path, is_eligible, find_main_mount, put_mount, put_if_dir, scan_mounts,
  on_device, main_of, mounts_by_device, is_main, mounts_by_path,
}
use fscrypt.Filesystem.MainMount.Sets.{
  IsIn, IsDistinct, is_in_head, is_in_tail, IsIn-keep, keep-IsIn,
}
use fscrypt.Filesystem.MainMount.Chosen.{Choice}
use fscrypt.Filesystem.MainMount.Tree.{find_main_mount_lem}

abbrev paths_of : List Mount → List Bytes
paths_of ms = map (λ m. m.path) ms

-- No two mounts have the same path.
abbrev pub HasOnePerPath : List Mount → Type 0
HasOnePerPath ms = IsDistinct (paths_of ms)

path_in : (m : Mount) (ms : List Mount) → IsIn m ms → is_in m.path (paths_of ms) ≡ true
path_in m [] h = absurd h
path_in m (x ∷ ms) (inl e) =
    subst (λ (z : Mount). is_in z.path (paths_of (x ∷ ms)) ≡ true) e
      (is_in_head x.path (paths_of ms))
path_in m (x ∷ ms) (inr at) = is_in_tail m.path x.path (paths_of ms) (path_in m ms at)

pub by_path_sound :
    (ms : List Mount) (path : Bytes) (m : Mount)
    → by_path ms path ≡ some m
    → IsIn m ms × (m.path ≡ path)
unfolding by_path
by_path_sound [] path m h = absurd (ground (arith, h))
by_path_sound (x ∷ ms) path m h = elim (Bool-cases (bytes_eq x.path path)) [
  | inl same ↦
      let found : some x ≡ some m = rw same at h in
      let e : x ≡ m = ground (arith, found) in
      (inl e, ap (λ (z : Mount). z.path) (sym e) ∙ bytes_eq→eq x.path path same)
  | inr other ↦ let (at, e) = by_path_sound ms path m (rw other at h) in (inr at, e)
]

by_path_complete :
    (ms : List Mount) (m : Mount) → HasOnePerPath ms → IsIn m ms → by_path ms m.path ≡ some m
unfolding by_path
by_path_complete [] m d h = absurd h
by_path_complete (x ∷ ms) m d (inl e) =
    let same : bytes_eq x.path m.path ≡ true =
      subst (λ (z : Mount). bytes_eq x.path z.path ≡ true) e (bytes_eq_refl x.path) in
    rw same (ap (λ z. some z) e)
by_path_complete (x ∷ ms) m (n, d) (inr at) = elim (Bool-cases (bytes_eq x.path m.path)) [
  | inl same ↦
      let e : x.path ≡ m.path = bytes_eq→eq x.path m.path same in
      absurd (
        ground
          (arith, n, subst (λ (p : Bytes). is_in p (paths_of ms) ≡ true) (sym e) (path_in m ms at)))
  | inr other ↦ rw other (by_path_complete ms m d at)
]

path_in-keep :
    (test : Mount → Bool) (path : Bytes) (ms : List Mount)
    → is_in path (paths_of (keep test ms)) ≡ true
    → is_in path (paths_of ms) ≡ true
unfolding is_in
path_in-keep test path [] h = absurd (ground (arith, h))
path_in-keep test path (m ∷ ms) h = elim (Bool-cases (test m)) [
  | inr fails ↦ is_in_tail path m.path (paths_of ms) (path_in-keep test path ms (rw fails at h))
  | inl fits ↦ elim (Bool-cases (bytes_eq path m.path)) [
    | inl same ↦ rw same refl
    | inr other ↦ rw other (path_in-keep test path ms (rw (fits, other) at h))
  ]
]

keep-HasOnePerPath :
    (test : Mount → Bool) (ms : List Mount) → HasOnePerPath ms → HasOnePerPath (keep test ms)
keep-HasOnePerPath test [] d = tt
keep-HasOnePerPath test (m ∷ ms) (n, d) = elim (Bool-cases (test m)) [
  | inr fails ↦ rw fails (keep-HasOnePerPath test ms d)
  | inl fits ↦ elim (Bool-cases (is_in m.path (paths_of (keep test ms)))) [
    | inl there ↦ absurd (ground (arith, n, path_in-keep test m.path ms there))
    | inr absent ↦ rw fits (absent, keep-HasOnePerPath test ms d)
  ]
]

path_in-put_mount :
    (path : Bytes) (m : Mount) (ms : List Mount)
    → bytes_eq path m.path ≡ false
    → is_in path (paths_of (put_mount m ms)) ≡ true
    → is_in path (paths_of ms) ≡ true
unfolding is_in put_mount
path_in-put_mount path m [] n h = absurd (ground (arith, n, rw n at h))
path_in-put_mount path m (x ∷ ms) n h = elim (Bool-cases (bytes_eq x.path m.path)) [
  | inl same ↦ is_in_tail path x.path (paths_of ms) (rw n at (rw same at h))
  | inr other ↦ elim (Bool-cases (bytes_eq path x.path)) [
    | inl this ↦ rw this refl
    | inr that ↦ rw that (path_in-put_mount path m ms n (rw (other, that) at h))
  ]
]

put_mount-HasOnePerPath :
    (m : Mount) (ms : List Mount) → HasOnePerPath ms → HasOnePerPath (put_mount m ms)
unfolding put_mount is_in
put_mount-HasOnePerPath m [] d = (refl, tt)
put_mount-HasOnePerPath m (x ∷ ms) (n, d) = elim (Bool-cases (bytes_eq x.path m.path)) [
  | inl same ↦
      rw same
        (subst (λ (p : Bytes). is_in p (paths_of ms) ≡ false) (bytes_eq→eq x.path m.path same) n, d)
  | inr other ↦ elim (Bool-cases (is_in x.path (paths_of (put_mount m ms)))) [
    | inl there ↦ absurd (ground (arith, n, path_in-put_mount x.path m ms other there))
    | inr absent ↦ rw other (absent, put_mount-HasOnePerPath m ms d)
  ]
]

-- The scan leaves one mount for each path.
scan_mounts-HasOnePerPath :
    (d : Devices) (is_dir : Bytes → Bool) (lines : List Bytes)
    → HasOnePerPath (scan_mounts d is_dir lines)
unfolding scan_mounts
scan_mounts-HasOnePerPath d is_dir lines = go [] lines tt
  where
    put :
        (ms : List Mount) (o : Option Mount)
        → HasOnePerPath ms
        → HasOnePerPath (put_if_dir is_dir ms o)
    put ms none h = h
    put ms (some m) h = elim (Bool-cases (is_dir m.path)) [
      | inl dir ↦ rw dir (put_mount-HasOnePerPath m ms h)
      | inr other ↦ rw other h
    ]

    go :
        (ms : List Mount) (lines : List Bytes)
        → HasOnePerPath ms
        → HasOnePerPath
            (fold (λ ms line. put_if_dir is_dir ms (parse_mount_info_line d line)) ms lines)
    go ms [] h = h
    go ms (line ∷ lines) h =
        go (put_if_dir is_dir ms (parse_mount_info_line d line)) lines
          (put ms (parse_mount_info_line d line) h)

main_of-IsIn : (ms : List Mount) (m : Mount) → main_of ms ≡ some (some m) → IsIn m ms
main_of-IsIn [] m h = absurd (ground (arith, h))
main_of-IsIn (x ∷ ms) m h =
    let found : find_main_mount (x ∷ ms) ≡ some m = ground (arith, h) in
    let choice =
      subst (λ o. Choice (λ z. is_eligible (x ∷ ms) z) (x ∷ ms) o) found
        (find_main_mount_lem (x ∷ ms)).0 in
    choice.0

module _ (ms : List Mount) (distinct : HasOnePerPath ms) where
  main_on_device :
      (n : ℕ) (m : Mount)
      → mounts_by_device ms n ≡ some (some m)
      → IsIn m ms × (m.device_number ≡ n)
  unfolding mounts_by_device
  main_on_device n m h =
      let (at, same) =
        IsIn-keep (λ (z : Mount). z.device_number == n) m ms (main_of-IsIn (on_device n ms) m h) in
      (at, (==_iff m.device_number n).0 same)

  is_main_lem :
      (m : Mount) (o : Option (Option Mount))
      → is_main ms m o ≡ true
      → (main_mount : Mount) × (o ≡ some (some main_mount)) × (main_mount.path ≡ m.path)
  is_main_lem m none h = absurd (ground (arith, h))
  is_main_lem m (some none) h = absurd (ground (arith, h))
  is_main_lem m (some (some main_mount)) h =
      (main_mount, refl, bytes_eq→eq main_mount.path m.path h)

  same_path : (a b : Mount) → IsIn a ms → IsIn b ms → a.path ≡ b.path → a ≡ b
  same_path a b at_a at_b e =
      let found = by_path_complete ms a distinct at_a in
      let found' : by_path ms a.path ≡ some b =
        ap (λ (p : Bytes). by_path ms p) e ∙ by_path_complete ms b distinct at_b in
      ground (arith, found, found')

  path_to_device :
      (path : Bytes) (m : Mount)
      → mounts_by_path ms path ≡ some m
      → (m.path ≡ path) × (mounts_by_device ms m.device_number ≡ some (some m))
  unfolding mounts_by_path
  path_to_device path m h =
      let test = λ (z : Mount). is_main ms z (mounts_by_device ms z.device_number) in
      let (kept, e) = by_path_sound (keep test ms) path m h in
      let (at, fits) = IsIn-keep test m ms kept in
      let (main_mount, has, same) = is_main_lem m (mounts_by_device ms m.device_number) fits in
      let (at', _) = main_on_device m.device_number main_mount has in
      (e, has ∙ ap (λ z. some (some z)) (same_path main_mount m at' at same))

  device_to_path :
      (n : ℕ) (m : Mount)
      → mounts_by_device ms n ≡ some (some m)
      → (m.device_number ≡ n) × (mounts_by_path ms m.path ≡ some m)
  unfolding mounts_by_path
  device_to_path n m h =
      let test = λ (z : Mount). is_main ms z (mounts_by_device ms z.device_number) in
      let (at, e) = main_on_device n m h in
      let here : mounts_by_device ms m.device_number ≡ some (some m) =
        ap (λ i. mounts_by_device ms i) e ∙ h in
      let fits : test m ≡ true = ap (λ o. is_main ms m o) here ∙ bytes_eq_refl m.path in
      (
        e,
        by_path_complete (keep test ms) m (keep-HasOnePerPath test ms distinct)
            (keep-IsIn test m ms at fits),
      )

-- After readMountInfo the two tables agree: a mount is the main mount of a device exactly if it has
-- this device number and stands in the table of paths, which has it under its own path.
pub tables_agree :
    (d : Devices) (is_dir : Bytes → Bool) (lines : List Bytes) (m : Mount)
    → ((n : ℕ)
        → (mounts_by_device (scan_mounts d is_dir lines) n ≡ some (some m))
          ↔ ((m.device_number ≡ n) × (mounts_by_path (scan_mounts d is_dir lines) m.path ≡ some m)))
      × ((path : Bytes) → mounts_by_path (scan_mounts d is_dir lines) path ≡ some m → m.path ≡ path)
tables_agree d is_dir lines m =
    let ms = scan_mounts d is_dir lines in
    let distinct = scan_mounts-HasOnePerPath d is_dir lines in
    (
      λ n. (
        λ h. device_to_path ms distinct n m h,
        λ (e, h).
            ap (λ i. mounts_by_device ms i) (sym e) ∙ (path_to_device ms distinct m.path m h).1,
      ),
      λ path h. (path_to_device ms distinct path m h).0,
    )
