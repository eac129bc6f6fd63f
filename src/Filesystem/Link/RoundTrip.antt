-- ===== src/Filesystem/Link/RoundTrip.antt =====
-- A link that makeLink writes leads back to its filesystem.
use fscrypt.Common.{
  ℕ, ◌≡◌, ◌≢◌, refl, false, List, [], ◌∷◌, ◌++◌, none, some, Bytes, ◌⊎◌, inl, inr, All-append,
  bytes_eq, ok, err, arith,
}
use fscrypt.Filesystem.Split.{split, is_space, Lacks, split-append, split-Lacks}
use fscrypt.Filesystem.MountInfo.{Mount}
use fscrypt.Filesystem.Link.{
  uuid_token, path_token, equals, is_empty, trim_left, trim_right, trim_space, Target, no_target,
  read_pair, read_line, read_lines, parse_link, Lookups, follow, get_mount_from_link, link_line,
  make_link, try_device, invalid_link,
}

-- A value that a line can hold: no "=" and no line break, no white space at the end.
pub record IsValue (v : Bytes) : Type 0 where
  pub no_equals : Lacks equals v
  pub no_newline : Lacks 10 v
  pub no_trailing : trim_right v ≡ v

trim-uuid :
    (v : Bytes) → trim_right v ≡ v → trim_space (link_line uuid_token v) ≡ link_line uuid_token v
unfolding trim_space trim_left trim_right is_space
trim-uuid v h = ground arith

trim-path :
    (v : Bytes) → trim_right v ≡ v → trim_space (link_line path_token v) ≡ link_line path_token v
unfolding trim_space trim_left trim_right is_space
trim-path v h = ground arith

read_line-uuid :
    (t : Target) (v : Bytes)
    → IsValue v
    → read_line t (link_line uuid_token v) ≡ record t { uuid = v }
unfolding read_line read_pair bytes_eq
read_line-uuid t v h =
    rw (trim-uuid v h.no_trailing, split-append equals uuid_token v (omega arith))
      (rw (split-Lacks equals v h.no_equals))

read_line-path :
    (t : Target) (v : Bytes)
    → IsValue v
    → read_line t (link_line path_token v) ≡ record t { path = v }
unfolding read_line read_pair bytes_eq
read_line-path t v h =
    rw (trim-path v h.no_trailing, split-append equals path_token v (omega arith))
      (rw (split-Lacks equals v h.no_equals))

line-Lacks : (token v : Bytes) → Lacks 10 token → Lacks 10 v → Lacks 10 (link_line token v)
line-Lacks token v ht hv = All-append _ token (equals ∷ v) ht (omega arith, hv)

read_lines-last :
    (t : Target) (line : Bytes)
    → Lacks 10 line
    → read_lines t (split 10 (line ++ 10 ∷ [])) ≡ read_line t line
unfolding read_lines
read_lines-last t line h =
    rw (split-append 10 line [] h) (unfold split read_line trim_space trim_left trim_right in refl)

read_lines-cons :
    (t : Target) (line : Bytes) (lines : List Bytes)
    → read_lines t (line ∷ lines) ≡ read_lines (read_line t line) lines
unfolding read_lines
read_lines-cons t line lines = refl

parse_link-uuid :
    (uuid : Bytes) (m : Mount)
    → IsValue uuid
    → IsValue m.path
    → parse_link (make_link (some uuid) m) ≡ record { uuid = uuid; path = m.path }
unfolding parse_link make_link
parse_link-uuid uuid m hu hp =
    rw
      (split-append 10 (link_line uuid_token uuid) (link_line path_token m.path ++ 10 ∷ [])
        (line-Lacks uuid_token uuid (omega arith) hu.no_newline))
      (rw (read_lines-cons, read_line-uuid no_target uuid hu)
        (rw
          (read_lines-last (record { uuid = uuid; path = [] }) (link_line path_token m.path)
            (line-Lacks path_token m.path (omega arith) hp.no_newline))
          (read_line-path (record { uuid = uuid; path = [] }) m.path hp)))

ne-empty : (v : Bytes) → v ≢ [] → is_empty v ≡ false
ne-empty [] h = absurd (h refl)
ne-empty (c ∷ v) h = refl

-- The link of a filesystem with a UUID leads to it, if the UUID's device is its main mount; where the
-- UUID is unknown or has no mount, the path serves. A device without a main mount is an error.
pub get_mount_from_link-make_link :
    (s : Lookups Mount) (uuid : Bytes) (m : Mount)
    → IsValue uuid
    → IsValue m.path
    → uuid ≢ []
    → m.path ≢ []
    → get_mount_from_link s (make_link (some uuid) m)
      ≡ try_device s (record { uuid = uuid; path = m.path }) (s.uuid_to_device_number uuid)
unfolding get_mount_from_link follow
get_mount_from_link-make_link s uuid m hu hp u p =
    rw (parse_link-uuid uuid m hu hp, ne-empty uuid u) refl

-- A link that makeLink writes, with a UUID and a path that are not empty and hold no "=", line break
-- or white space at the end, leads to its mount if the UUID's device has it as main mount, or if the
-- UUID has no device and the path is the mount's.
pub link_leads_back :
    (s : Lookups Mount) (uuid : Bytes) (m : Mount)
    → IsValue uuid
    → IsValue m.path
    → uuid ≢ []
    → m.path ≢ []
    → (((n : ℕ) × (s.uuid_to_device_number uuid ≡ some n) × (s.mounts_by_device n ≡ some (some m)))
        ⊎ ((s.uuid_to_device_number uuid ≡ none) × (s.get_mount m.path ≡ some m)))
    → get_mount_from_link s (make_link (some uuid) m) ≡ ok m
link_leads_back s uuid m hu hp u p (inl (n, e, f)) =
    rw (get_mount_from_link-make_link s uuid m hu hp u p, e, f) refl
link_leads_back s uuid m hu hp u p (inr (e, f)) =
    rw (get_mount_from_link-make_link s uuid m hu hp u p) (ground (arith, ne-empty m.path p))

read_line_skips :
    (t : Target) (a b : Bytes)
    → trim_right (a ++ equals ∷ b) ≡ a ++ equals ∷ b
    → Lacks equals a
    → Lacks equals b
    → read_line t (link_line path_token (a ++ equals ∷ b)) ≡ t
unfolding read_line read_pair
read_line_skips t a b h ha hb =
    rw
      (
        trim-path (a ++ equals ∷ b) h,
        split-append equals path_token (a ++ equals ∷ b) (omega arith),
      )
      (rw (split-append equals a b ha) (rw (split-Lacks equals b hb)))

-- For a mount whose path holds one "=", and no line break or white space at the end,
-- getMountFromLink rejects the link without UUID that makeLink writes.
pub link_with_equals :
    (s : Lookups Mount) (m : Mount) (a b : Bytes)
    → m.path ≡ a ++ equals ∷ b
    → Lacks equals a
    → Lacks equals b
    → Lacks 10 m.path
    → trim_right m.path ≡ m.path
    → get_mount_from_link s (make_link none m) ≡ err invalid_link
unfolding get_mount_from_link parse_link make_link follow
link_with_equals s m a b e ha hb newline trailing =
    let line = link_line path_token m.path in
    let last =
      read_lines-last no_target line (line-Lacks path_token m.path (omega arith) newline) in
    let skips : read_line no_target line ≡ no_target =
      rw e (read_line_skips no_target a b (rw e at trailing) ha hb) in
    rw (last, skips) refl
