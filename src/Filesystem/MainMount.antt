-- ===== src/Filesystem/MainMount.antt =====
-- filesystem/mountpoint.go: findMainMount and readMountInfo. The code goes through maps, whose order
-- Go leaves open: here it is the order of a list.
pub mod Sets
pub mod Folds
pub mod Tree
pub mod Chosen
pub mod Tables
pub mod Depth
use fscrypt.Common.{
  ℕ, zero, suc, ◌+◌, ◌&&◌, Bool, true, false, not, List, [], ◌∷◌, Option, none, some, Bytes,
  bytes_eq, length, ◌==◌, if◌then◌else◌,
}
use fscrypt.Filesystem.MountInfo.{Mount, Devices, parse_mount_info_line}
use fscrypt.Filesystem.FindMount.{slash, dir}

-- A map from texts to true, as the list of its keys.
unfoldable pub is_in : Bytes → List Bytes → Bool
unfolding bytes_eq
is_in x [] = false
is_in x (y ∷ s) = if bytes_eq x y then true else is_in x s

unfoldable pub insert : Bytes → List Bytes → List Bytes
unfolding is_in
insert x s = if is_in x s then s else x ∷ s

abbrev pub fold {ℓ} : {A B : Type ℓ} → (B → A → B) → B → List A → B
fold f b [] = b
fold f b (a ∷ l) = fold f (f b a) l

abbrev pub keep {ℓ} : {A : Type ℓ} → (A → Bool) → List A → List A
keep test [] = []
keep test (a ∷ l) = let rest = keep test l in if test a then a ∷ rest else rest

-- allSubtrees
abbrev pub all_subtrees : List Mount → List Bytes
all_subtrees ms = fold (λ s m. insert m.subtree s) [] ms

-- filesystemMountsByPath
unfoldable pub by_path : List Mount → Bytes → Option Mount
unfolding bytes_eq
by_path [] path = none
by_path (m ∷ ms) path = if bytes_eq m.path path then some m else by_path ms path

abbrev pub is_root : Bytes → Bool
is_root path = bytes_eq path (slash ∷ [])

abbrev pub first_of : Option Mount → Option Mount → Option Mount
first_of (some m) other = some m
first_of none other = other

-- The loop that looks for the parent of a node: the mount on the nearest directory above.
unfoldable pub parent_above : List Mount → ℕ → Bytes → Option Mount
unfolding by_path dir bytes_eq
parent_above ms zero path = none
parent_above ms (suc n) path =
    let above = parent_above ms n (dir path) in
    if is_root path then none else first_of (by_path ms (dir path)) above

-- A walk up from a path visits fewer directories than the path has bytes.
abbrev pub parent : List Mount → Mount → Option Mount
parent ms m = parent_above ms (length m.path) m.path

abbrev pub is_parent : Mount → Option Mount → Bool
is_parent node none = false
is_parent node (some p) = bytes_eq p.path node.path

abbrev pub children : List Mount → Mount → List Mount
children ms node = keep (λ c. is_parent node (parent ms c)) ms

-- addUncontainedSubtreesRecursive, to a depth.
unfoldable pub add_uncontained_subtrees :
    List Mount → List Bytes → ℕ → List Bytes → Mount → List Bytes
unfolding parent_above is_in insert
add_uncontained_subtrees ms uncontained zero dst node = dst
add_uncontained_subtrees ms uncontained (suc n) dst node =
    fold (λ d c. add_uncontained_subtrees ms uncontained n d c)
      (if is_in node.subtree uncontained then insert node.subtree dst else dst) (children ms node)

-- The loop over the directories above a subtree.
unfoldable pub is_contained : List Bytes → ℕ → Bytes → Bool
unfolding is_in dir bytes_eq
is_contained subtrees zero t = false
is_contained subtrees (suc n) t =
    let rest = is_contained subtrees n (dir t) in
    if is_root t then false else if is_in (dir t) subtrees then true else rest

-- allUncontainedSubtrees
abbrev pub all_uncontained : List Bytes → List Bytes
all_uncontained subtrees = keep (λ t. not (is_contained subtrees (length t) t)) subtrees

-- A tree is not deeper than the longest path has bytes.
abbrev pub longest : List Mount → ℕ
longest [] = 0
longest (m ∷ ms) = length m.path + longest ms

abbrev pub has_no : {A : Type 0} → Option A → Bool
has_no none = true
has_no (some a) = false

-- A node without parent, in whose tree as many uncontained subtrees are mounted as there are.
unfoldable pub is_eligible : List Mount → Mount → Bool
unfolding parent_above add_uncontained_subtrees is_contained insert
is_eligible ms m =
    let uncontained = all_uncontained (all_subtrees ms) in
    has_no (parent ms m)
    && (length (add_uncontained_subtrees ms uncontained (suc (longest ms)) [] m)
        == length uncontained)

-- The last loop: a second eligible mount of another subtree ends it without a mount, and a
-- read-write mount is preferred.
abbrev pub preferred : Mount → Mount → Mount
preferred main_mount m = if main_mount.read_only then m else main_mount

unfoldable pub choose : (Mount → Bool) → List Mount → Option Mount → Option Mount
unfolding bytes_eq
choose test [] main_mount = main_mount
choose test (m ∷ ms) none =
    let taken = choose test ms (some m) in
    let rest = choose test ms none in if test m then taken else rest
choose test (m ∷ ms) (some main_mount) =
    let taken = choose test ms (some (preferred main_mount m)) in
    let rest = choose test ms (some main_mount) in
    if test m then (if bytes_eq main_mount.subtree m.subtree then taken else none) else rest

unfoldable pub find_main_mount : List Mount → Option Mount
unfolding is_eligible choose
find_main_mount ms = choose (λ m. is_eligible ms m) ms none

-- `allMountsByPath[mnt.Path] = mnt`
unfoldable pub put_mount : Mount → List Mount → List Mount
unfolding bytes_eq
put_mount m [] = m ∷ []
put_mount m (x ∷ ms) = if bytes_eq x.path m.path then m ∷ ms else x ∷ put_mount m ms

abbrev pub put_if_dir : (Bytes → Bool) → List Mount → Option Mount → List Mount
put_if_dir is_dir ms none = ms
put_if_dir is_dir ms (some m) = if is_dir m.path then put_mount m ms else ms

-- The lines of mountinfo, in their order: a later mount on a path replaces an earlier one.
unfoldable pub scan_mounts : Devices → (Bytes → Bool) → List Bytes → List Mount
unfolding parse_mount_info_line put_mount
scan_mounts d is_dir lines =
    fold (λ ms line. put_if_dir is_dir ms (parse_mount_info_line d line)) [] lines

abbrev pub on_device : ℕ → List Mount → List Mount
on_device n ms = keep (λ m. m.device_number == n) ms

abbrev pub main_of : List Mount → Option (Option Mount)
main_of [] = none
main_of (m ∷ ms) = some (find_main_mount (m ∷ ms))

-- mountsByDevice: `some none` is the explicit nil entry.
unfoldable pub mounts_by_device : List Mount → ℕ → Option (Option Mount)
unfolding find_main_mount
mounts_by_device ms n = main_of (on_device n ms)

abbrev pub is_main : List Mount → Mount → Option (Option Mount) → Bool
is_main ms m (some (some main_mount)) = bytes_eq main_mount.path m.path
is_main ms m _ = false

-- mountsByPath: the main mounts of their devices.
unfoldable pub mounts_by_path : List Mount → Bytes → Option Mount
unfolding mounts_by_device by_path
mounts_by_path ms path =
    by_path (keep (λ m. is_main ms m (mounts_by_device ms m.device_number)) ms) path
