-- ===== src/Actions/Policy/Keys.antt =====
-- removeKey and findWrappedKeyIndex as operations on the keys of a policy.
use mathlib.Core.List.{
  Mem, Perm, map, mem-cons, mem-cons_of_mem, not-mem-nil, perm_append_singleton,
}
use mathlib.Core.List.Perm
use mathlib.Core.List.Memᴰ
use mathlib.Core.Logic.Or
use mathlib.Core.Path.{subst}
use mathlib.Core.HLevel.{⊥_prop}
use fscrypt.Common.{
  ℕ, zero, suc, ◌-◌, ◌<◌, ◌≡◌, refl, sym, ap, ◌∙◌, ◌⊎◌, inl, inr, Bool-cases, List, [], ◌∷◌, ◌++◌,
  none, some, Bytes, bytes_eq, bytes_eq_refl, bytes_eq→eq, length, length-append, take-append,
  get_elem?, take, arith,
}
use fscrypt.Metadata.Types.{WrappedPolicyKey}
use fscrypt.Actions.Policy.{find_index, set_at, remove_key}

module _ {A : Type 0} where
  get_elem_some : (i : ℕ) (xs : List A) → i < length xs → (item : A) × (get_elem? xs i ≡ some item)
  get_elem_some i [] h = absurd (omega arith)
  get_elem_some zero (x ∷ xs) h = (x, refl)
  get_elem_some (suc i) (x ∷ xs) h = get_elem_some i xs (omega arith)

  length-set_at : (i : ℕ) (a : A) (xs : List A) → length (set_at i a xs) ≡ length xs
  length-set_at zero a [] = refl
  length-set_at (suc i) a [] = refl
  length-set_at zero a (x ∷ xs) = refl
  length-set_at (suc i) a (x ∷ xs) = ap suc (length-set_at i a xs)

  -- Writing over an item exchanges it for the new one.
  set_at-Perm :
      (i : ℕ) (a : A) (xs : List A) {old : A}
      → get_elem? xs i ≡ some old
      → Perm (old ∷ set_at i a xs) (a ∷ xs)
  set_at-Perm i a [] h = absurd (cc)
  set_at-Perm zero a (x ∷ xs) {old} h =
      let e : x ≡ old = ground arith in rw (← e) (Perm.swap a x xs)
  set_at-Perm (suc i) a (x ∷ xs) {old} h =
      Perm.trans (Perm.swap x old (set_at i a xs))
        (Perm.trans (Perm.cons x (set_at-Perm i a xs h)) (Perm.swap a x xs))

  -- The last item after a write is the item that was last, if that item is what was written.
  last-set_at :
      (i n : ℕ) (a : A) (xs : List A)
      → suc n ≡ length xs
      → get_elem? xs n ≡ some a
      → get_elem? (set_at i a xs) n ≡ some a
  last-set_at i n a [] e h = absurd (omega arith)
  last-set_at zero zero a (x ∷ xs) e h = refl
  last-set_at (suc i) zero a (x ∷ xs) e h = h
  last-set_at zero (suc n) a (x ∷ xs) e h = h
  last-set_at (suc i) (suc n) a (x ∷ xs) e h = last-set_at i n a xs (omega arith) h

  split_last :
      (n : ℕ) (a : A) (xs : List A)
      → suc n ≡ length xs
      → get_elem? xs n ≡ some a
      → take n xs ++ (a ∷ []) ≡ xs
  split_last n a [] e h = absurd (omega arith)
  split_last zero a (x ∷ []) e h = ground arith
  split_last zero a (x ∷ y ∷ xs) e h = absurd (omega arith)
  split_last (suc n) a (x ∷ xs) e h = ap (λ t. x ∷ t) (split_last n a xs (omega arith) h)

  at_end : (xs : List A) (a : A) → get_elem? (xs ++ (a ∷ [])) (length xs) ≡ some a
  at_end [] a = refl
  at_end (x ∷ xs) a = at_end xs a

  set_at_end : (xs : List A) (a : A) → set_at (length xs) a (xs ++ (a ∷ [])) ≡ xs ++ (a ∷ [])
  set_at_end [] a = refl
  set_at_end (x ∷ xs) a = ap (λ t. x ∷ t) (set_at_end xs a)

remove_with :
    (i : ℕ) (keys : List WrappedPolicyKey) {removed last : WrappedPolicyKey}
    → get_elem? keys i ≡ some removed
    → get_elem? keys (length keys - 1) ≡ some last
    → remove_key i keys ≡ some (removed, take (length keys - 1) (set_at i last keys))
unfolding remove_key
remove_with i keys r l = ground arith

-- removeKey at an index in range takes that key out, up to order.
pub remove_key_lem :
    (i : ℕ) (keys : List WrappedPolicyKey)
    → i < length keys
    → (removed : WrappedPolicyKey) × (rest : List WrappedPolicyKey) × (remove_key i keys
        ≡ some (removed, rest))
      × (get_elem? keys i ≡ some removed)
      × Perm (removed ∷ rest) keys
remove_key_lem i keys h =
    let n = length keys - 1 in
    let (removed, r) = get_elem_some i keys h in
    let (last, l) = get_elem_some n keys (omega arith) in
    let written = set_at i last keys in
    let split : take n written ++ (last ∷ []) ≡ written =
      split_last n last written (omega (arith, length-set_at i last keys))
        (last-set_at i n last keys (omega arith) l) in
    let front : Perm (last ∷ take n written) written =
      subst (λ t. Perm (last ∷ take n written) t) split
        (Perm.symm (perm_append_singleton last (take n written))) in
    (
      removed,
      take n written,
      remove_with i keys r l,
      r,
      Perm.cons_inv (
          Perm.trans (Perm.swap removed last (take n written))
            (Perm.trans (Perm.cons removed front) (set_at-Perm i last keys r))),
    )

-- Removing the key that was appended gives the keys back.
pub remove_last :
    (keys : List WrappedPolicyKey) (added : WrappedPolicyKey)
    → remove_key (length (keys ++ (added ∷ [])) - 1) (keys ++ (added ∷ [])) ≡ some (added, keys)
remove_last keys added =
    let e : length (keys ++ (added ∷ [])) - 1 ≡ length keys =
      omega (arith, length-append keys (added ∷ [])) in
    let last = at_end keys added in
    remove_with (length (keys ++ (added ∷ [])) - 1) (keys ++ (added ∷ [])) {removed = added}
      {last = added} (rw e last) (rw e last)
    ∙ rw (e, set_at_end keys added, take-append keys (added ∷ [])) refl

descriptors : List WrappedPolicyKey → List Bytes
descriptors keys = map (λ w. w.protector_descriptor) keys

-- The index that is found holds a key of the protector; if none is found, there is none.
pub find_index_lem :
    (d : Bytes) (keys : List WrappedPolicyKey)
    → ((find_index d keys ≡ none) × (¬ Mem d (map (λ w. w.protector_descriptor) keys)))
      ⊎ ((i : ℕ) × (w : WrappedPolicyKey) × (find_index d keys ≡ some i)
          × (get_elem? keys i ≡ some w)
          × (w.protector_descriptor ≡ d)
          × (i < length keys)
          × Mem d (map (λ w. w.protector_descriptor) keys))
find_index_lem d [] = inl (refl, not-mem-nil)
find_index_lem d (w ∷ rest) = elim (Bool-cases (bytes_eq w.protector_descriptor d)) [
  | inl same ↦
      let e = bytes_eq→eq w.protector_descriptor d same in
      inr (0, w, rw same refl, refl, e, omega arith, ∣ Memᴰ.head (sym e) ∣₁)
  | inr other ↦ elim (find_index_lem d rest) [
    | inl (missing, absent) ↦ inl (
      rw (other, missing) refl,
      λ m.
          Or.elim ⊥_prop (mem-cons.0 m) (λ e. absurd (ground (arith, other, e, bytes_eq_refl d)))
            absent,
    )
    | inr (i, found, at, item, e, bound, mem) ↦ inr (
      suc i,
      found,
      rw (other, at) refl,
      item,
      e,
      omega arith,
      mem-cons_of_mem w.protector_descriptor mem,
    )
  ]
]
