-- ===== src/Filesystem/Clean.antt =====
-- filepath.Join of a rooted path and names, which cleans its result.
use mathlib.Core.Path.{subst}
use mathlib.Core.List.{reverse, reverse-cons, append_assoc, append_cancel_left}
use fscrypt.Common.{
  ℕ, ◌≡◌, ◌≢◌, refl, sym, ap, ◌∙◌, inl, inr, Bool-cases, false, ◌||◌, List, [], ◌∷◌, ◌++◌, Bytes,
  ◌==◌, bytes_eq, codes, if◌then◌else◌, arith,
}
use fscrypt.Filesystem.Split.{split, join, push, Lacks, split-Lacks}

abbrev pub slash : ℕ
slash = b'/'

-- The last directory is dropped.
abbrev up : List Bytes → List Bytes
up [] = []
up (p ∷ done) = done

-- One more part of the path, behind the parts that are done, the last one first.
abbrev pub step : List Bytes → Bytes → List Bytes
step done p =
    if bytes_eq p [] || bytes_eq p (codes ".")
    then done
    else if bytes_eq p (codes "..")
    then up done
    else p ∷ done

unfoldable pub clean_parts : List Bytes → List Bytes → List Bytes
clean_parts done [] = done
clean_parts done (p ∷ ps) = clean_parts (step done p) ps

-- filepath.Join of two elements, of which the first is rooted.
unfoldable pub join_path : Bytes → Bytes → Bytes
unfolding clean_parts split join
join_path a b = slash ∷ join slash (reverse (clean_parts [] (split slash (a ++ slash ∷ b))))

-- A name of a file.
pub record IsName (d : Bytes) : Type 0 where
  pub lacks : Lacks slash d
  pub not_empty : bytes_eq d [] ≡ false
  pub not_dot : bytes_eq d (codes ".") ≡ false
  pub not_dots : bytes_eq d (codes "..") ≡ false

prefix : List Bytes → Bytes
prefix [] = []
prefix (p ∷ ps) = p ++ slash ∷ prefix ps

join-append : (ps : List Bytes) (d : Bytes) → join slash (ps ++ (d ∷ [])) ≡ prefix ps ++ d
unfolding join prefix
join-append [] d = refl
join-append (p ∷ []) d = sym (append_assoc p (slash ∷ []) d)
join-append (p ∷ q ∷ ps) d =
    ap (λ r. p ++ slash ∷ r) (join-append (q ∷ ps) d)
    ∙ sym (append_assoc p (slash ∷ prefix (q ∷ ps)) d)

push-append : (c : ℕ) (ps qs : List Bytes) → ps ≢ [] → push c (ps ++ qs) ≡ push c ps ++ qs
push-append c [] qs h = absurd (h refl)
push-append c (p ∷ ps) qs h = refl

push-ne-empty : (c : ℕ) (ps : List Bytes) → push c ps ≢ []
push-ne-empty c [] e = absurd (cc)
push-ne-empty c (p ∷ ps) e = absurd (cc)

split-ne-empty : (s : Bytes) → split slash s ≢ []
unfolding split
split-ne-empty [] e = absurd (cc)
split-ne-empty (c ∷ s) e = elim (Bool-cases (c == slash)) [
  | inl same ↦ let no : [] ∷ split slash s ≡ [] = rw same at e in absurd (cc)
  | inr other ↦ push-ne-empty c (split slash s) (rw other at e)
]

split_both : (a b : Bytes) → split slash (a ++ slash ∷ b) ≡ split slash a ++ split slash b
unfolding split
split_both [] b = ground arith
split_both (c ∷ a) b = elim (Bool-cases (c == slash)) [
  | inl same ↦ rw same (ap (λ r. [] ∷ r) (split_both a b))
  | inr other ↦ rw other (
      ap (push c) (split_both a b)
      ∙ push-append c (split slash a) (split slash b) (split-ne-empty a))
]

clean_parts-last :
    (done ps : List Bytes) (d : Bytes)
    → IsName d
    → clean_parts done (ps ++ (d ∷ [])) ≡ d ∷ clean_parts done ps
unfolding clean_parts
clean_parts-last done [] d name = rw (name.not_empty, name.not_dot, name.not_dots) refl
clean_parts-last done (p ∷ ps) d name = clean_parts-last (step done p) ps d name

-- Joining with a name puts the name behind something that does not depend on it.
join_path-last :
    (a d : Bytes)
    → IsName d
    → join_path a d ≡ (slash ∷ prefix (reverse (clean_parts [] (split slash a)))) ++ d
unfolding join_path
join_path-last a d name =
    let parts = split_both a d ∙ ap (λ r. split slash a ++ r) (split-Lacks slash d name.lacks) in
    let done = ap (clean_parts []) parts ∙ clean_parts-last [] (split slash a) d name in
    ap (λ r. slash ∷ join slash (reverse r)) done
    ∙ ap (λ r. slash ∷ join slash r) (reverse-cons d (clean_parts [] (split slash a)))
    ∙ ap (λ r. slash ∷ r) (join-append (reverse (clean_parts [] (split slash a))) d)

-- Two names lead to one path only if they are the same.
pub join_path-Injective :
    (a d d' : Bytes) → IsName d → IsName d' → join_path a d ≡ join_path a d' → d ≡ d'
join_path-Injective a d d' name name' e =
    append_cancel_left (slash ∷ prefix (reverse (clean_parts [] (split slash a)))) d d'
      (sym (join_path-last a d name) ∙ e ∙ join_path-last a d' name')

-- A text with a slash is not one without.
slash_absent : (x d : Bytes) → Lacks slash (x ++ slash ∷ d) → ◌≡◌ {A = Bytes} [] (slash ∷ [])
slash_absent [] d (h, hs) = absurd (h refl)
slash_absent (c ∷ x) d (h, hs) = slash_absent x d hs

-- What stands behind the last slash is determined by the text, and so is what stands in front.
pub last_part :
    (x y d d' : Bytes)
    → Lacks slash d
    → Lacks slash d'
    → x ++ slash ∷ d ≡ y ++ slash ∷ d'
    → (x ≡ y) × (d ≡ d')
last_part [] [] d d' h h' e = (refl, cc)
last_part [] (b ∷ y) d d' h h' e =
    let tail : d ≡ y ++ slash ∷ d' = cc in
    absurd (let bad = slash_absent y d' (subst (Lacks slash) tail h) in cc)
last_part (a ∷ x) [] d d' h h' e =
    let tail : x ++ slash ∷ d ≡ d' = cc in
    absurd (let bad = slash_absent x d (subst (Lacks slash) (sym tail) h') in cc)
last_part (a ∷ x) (b ∷ y) d d' h h' e =
    let tail : x ++ slash ∷ d ≡ y ++ slash ∷ d' = cc in
    let head : a ≡ b = cc in
    let (same, last) = last_part x y d d' h h' tail in (rw (head, same) refl, last)

prefix_end : (ps : List Bytes) → (x : Bytes) × ((slash ∷ prefix ps) ≡ x ++ slash ∷ [])
unfolding prefix
prefix_end [] = ([], refl)
prefix_end (p ∷ ps) =
    let (x, e) = prefix_end ps in
    (
      (slash ∷ p) ++ x,
      ap (λ r. slash ∷ (p ++ r)) e ∙ ap (λ r. slash ∷ r) (sym (append_assoc p x (slash ∷ []))),
    )

-- A path that ends in a name.
pub join_path-parts : (a d : Bytes) → IsName d → (x : Bytes) × (join_path a d ≡ x ++ slash ∷ d)
join_path-parts a d name =
    let (x, e) = prefix_end (reverse (clean_parts [] (split slash a))) in
    (x, join_path-last a d name ∙ ap (λ r. r ++ d) e ∙ append_assoc x (slash ∷ []) d)
