-- ===== src/Tests/Containing.antt =====
-- The choice of main mounts: a container, in which the root of the filesystem is not mounted.
use mathlib.Core.Path.{subst}
use fscrypt.Common.{
  ℕ, suc, bytes_eq, ◌≡◌, ◌↔◌, ◌≤◌, refl, inl, inr, true, false, List, [], ◌∷◌, some, Bytes, codes,
  length,
}
use fscrypt.Filesystem.MountInfo.{Mount, Devices}
use fscrypt.Filesystem.FindMount.{dir, cut_last}
use fscrypt.Filesystem.FindMount.Walk.{IsAbsolute}
use fscrypt.Filesystem.MainMount.{
  choose, by_path, add_uncontained_subtrees, is_in, insert, parent_above, is_contained, longest,
  is_eligible, find_main_mount, scan_mounts, mounts_by_device, mounts_by_path,
}
use fscrypt.Filesystem.MainMount.Sets.{IsIn}
use fscrypt.Filesystem.MainMount.Chosen.{Choice}
use fscrypt.Filesystem.MainMount.Tree.{Below, IsEligible, find_main_mount_lem}
use fscrypt.Filesystem.MainMount.Tables.{tables_agree}
use fscrypt.Filesystem.MainMount.Depth.{loops_complete}

abbrev mount_of : Bytes → Bytes → Mount
mount_of subtree path = record {
  path = path;
  filesystem_type = codes "ext4";
  device = codes "/dev/sda1";
  device_number = 8;
  subtree = subtree;
  read_only = false;
}

abbrev mounts : List Mount
mounts = mount_of (codes "/rootfs") (codes "/") ∷ mount_of (codes "/pkg") (codes "/var/pkg") ∷ []

find_main_mount_lem_example :
    Choice (λ m. is_eligible mounts m) mounts (find_main_mount mounts)
    × ((m : Mount) → (is_eligible mounts m ≡ true) ↔ IsEligible mounts m)
find_main_mount_lem_example = find_main_mount_lem mounts

mounts-AllAbsolute : (m : Mount) → IsIn m mounts → IsAbsolute m.path
mounts-AllAbsolute m (inl e) = subst (λ (z : Mount). IsAbsolute z.path) e refl
mounts-AllAbsolute m (inr (inl e)) = subst (λ (z : Mount). IsAbsolute z.path) e refl
mounts-AllAbsolute m (inr (inr h)) = absurd h

loops_complete_example :
    ((path : Bytes) (k : ℕ)
      → IsAbsolute path
      → length path ≤ k
      → parent_above mounts k path ≡ parent_above mounts (length path) path)
    × ((subtrees : List Bytes) (t : Bytes) (k : ℕ)
        → IsAbsolute t
        → length t ≤ k
        → is_contained subtrees k t ≡ is_contained subtrees (length t) t)
    × ((r m : Mount) (n : ℕ)
        → IsIn r mounts
        → Below mounts n r m
        → Below mounts (suc (longest mounts)) r m)
loops_complete_example = loops_complete mounts mounts-AllAbsolute

abbrev devices : Devices
devices = record { mkdev = λ major minor. major; device_name = λ n. codes "/dev/sda1" }

abbrev lines : List Bytes
lines =
    codes "1 0 8:1 /rootfs / rw - ext4 /dev/sda1 rw"
    ∷ codes "2 1 8:1 /pkg /var/pkg rw - ext4 /dev/sda1 rw"
    ∷ []

tables_agree_example :
    ((n : ℕ)
      → (mounts_by_device (scan_mounts devices (λ p. true) lines) n
          ≡ some (some (mount_of (codes "/rootfs") (codes "/"))))
        ↔ ((8 ≡ n)
            × (mounts_by_path (scan_mounts devices (λ p. true) lines) (codes "/")
                ≡ some (mount_of (codes "/rootfs") (codes "/")))))
    × ((path : Bytes)
        → mounts_by_path (scan_mounts devices (λ p. true) lines) path
          ≡ some (mount_of (codes "/rootfs") (codes "/"))
        → codes "/" ≡ path)
tables_agree_example =
    tables_agree devices (λ p. true) lines (mount_of (codes "/rootfs") (codes "/"))

-- The container's root is the main mount.
root_is_main : find_main_mount mounts ≡ some (mount_of (codes "/rootfs") (codes "/"))
unfolding find_main_mount choose is_eligible parent_above by_path dir bytes_eq
    add_uncontained_subtrees is_in insert is_contained cut_last
root_is_main = refl
