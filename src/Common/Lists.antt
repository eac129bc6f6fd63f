-- ===== src/Common/Lists.antt =====
-- Lists measured and indexed by native numbers, and predicates on their items.
use Prim.Native.Nat.{ℕ, zero, suc, ◌+◌, ◌-◌, ◌≤◌}
use mathlib.Core.Path.{◌≡◌, refl, ap}
use mathlib.Core.List.{List, [], ◌∷◌, ◌++◌}
use mathlib.Core.Option.{Option, none, some}
use native.Mathlib.Omega.{arith}

module _ {ℓ} {A : Type ℓ} where
  abbrev pub length : List A → ℕ
  length [] = 0
  length (x ∷ xs) = suc (length xs)

  abbrev pub get_elem? : List A → ℕ → Option A
  get_elem? [] i = none
  get_elem? (x ∷ xs) zero = some x
  get_elem? (x ∷ xs) (suc i) = get_elem? xs i

  abbrev pub get_or : List A → ℕ → A → A
  get_or [] i d = d
  get_or (x ∷ xs) zero d = x
  get_or (x ∷ xs) (suc i) d = get_or xs i d

  abbrev pub take : ℕ → List A → List A
  take zero xs = []
  take (suc n) [] = []
  take (suc n) (x ∷ xs) = x ∷ take n xs

  abbrev pub drop : ℕ → List A → List A
  drop zero xs = xs
  drop (suc n) [] = []
  drop (suc n) (x ∷ xs) = drop n xs

  abbrev pub replicate : ℕ → A → List A
  replicate zero a = []
  replicate (suc n) a = a ∷ replicate n a

  pub length-append : (xs ys : List A) → length (xs ++ ys) ≡ length xs + length ys
  length-append [] ys = omega arith
  length-append (x ∷ xs) ys = omega (arith, length-append xs ys)

  pub length-replicate : (n : ℕ) (a : A) → length (replicate n a) ≡ n
  length-replicate zero a = refl
  length-replicate (suc n) a = ap suc (length-replicate n a)

  pub take-append : (xs ys : List A) → take (length xs) (xs ++ ys) ≡ xs
  take-append [] ys = refl
  take-append (x ∷ xs) ys = rw (take-append xs ys)

  pub take-append-drop : (n : ℕ) (xs : List A) → take n xs ++ drop n xs ≡ xs
  take-append-drop zero xs = refl
  take-append-drop (suc n) [] = refl
  take-append-drop (suc n) (x ∷ xs) = rw (take-append-drop n xs)

module _ {ℓ} {A : Type ℓ} where
  pub length-take : (n : ℕ) (s : List A) → n ≤ length s → length (take n s) ≡ n
  length-take zero s h = refl
  length-take (suc n) [] h = absurd (omega arith)
  length-take (suc n) (x ∷ s) h = ap suc (length-take n s (omega arith))

  pub length-drop : (n : ℕ) (s : List A) → length (drop n s) ≡ length s - n
  length-drop zero s = omega arith
  length-drop (suc n) [] = omega arith
  length-drop (suc n) (x ∷ s) = omega (arith, length-drop n s)

  pub take-append_le : (n : ℕ) (s t : List A) → n ≤ length s → take n (s ++ t) ≡ take n s
  take-append_le zero s t h = refl
  take-append_le (suc n) [] t h = absurd (omega arith)
  take-append_le (suc n) (x ∷ s) t h = ap (λ r. x ∷ r) (take-append_le n s t (omega arith))

  pub take_exact : (n : ℕ) (s t : List A) → length s ≡ n → take n (s ++ t) ≡ s
  take_exact zero [] t h = refl
  take_exact zero (x ∷ s) t h = absurd (omega arith)
  take_exact (suc n) [] t h = absurd (omega arith)
  take_exact (suc n) (x ∷ s) t h = ap (λ r. x ∷ r) (take_exact n s t (omega arith))

  pub take_beyond : (n : ℕ) (s : List A) → length s ≤ n → take n s ≡ s
  take_beyond zero [] h = refl
  take_beyond zero (x ∷ s) h = absurd (omega arith)
  take_beyond (suc n) [] h = refl
  take_beyond (suc n) (x ∷ s) h = ap (λ r. x ∷ r) (take_beyond n s (omega arith))

  pub drop_exact : (n : ℕ) (s t : List A) → length s ≡ n → drop n (s ++ t) ≡ t
  drop_exact zero [] t h = refl
  drop_exact zero (x ∷ s) t h = absurd (omega arith)
  drop_exact (suc n) [] t h = absurd (omega arith)
  drop_exact (suc n) (x ∷ s) t h = drop_exact n s t (omega arith)

  pub drop-drop : (m n : ℕ) (s : List A) → drop n (drop m s) ≡ drop (m + n) s
  drop-drop zero n s = let e : zero + n ≡ n = omega arith in rw e refl
  drop-drop (suc m) zero [] = let e : suc m + zero ≡ suc m = omega arith in rw e refl
  drop-drop (suc m) (suc n) [] = let e : suc m + suc n ≡ suc (m + suc n) = omega arith in rw e refl
  drop-drop (suc m) n (x ∷ s) =
      let e : suc m + n ≡ suc (m + n) = omega arith in rw e (drop-drop m n s)

module _ {ℓ κ} {A : Type ℓ} (P : A → Type κ) where
  abbrev pub All : List A → Type κ
  All [] = Unit
  All (x ∷ xs) = P x × All xs

  pub All-append : (xs ys : List A) → All xs → All ys → All (xs ++ ys)
  All-append [] ys hx hy = hy
  All-append (x ∷ xs) ys (px, hx) hy = (px, All-append xs ys hx hy)
