-- ===== src/Util.antt =====
-- util/util.go: the searches in small tables and the minima.
use fscrypt.Common.{
  ℕ, suc, ℤ, List, [], ◌∷◌, Option, none, some, ltb, eq_ℤ, get_elem?, if◌then◌else◌,
}

-- The loop of `Index`, from position `i` on; the result `(0, false)` is `none`.
unfoldable pub index_from : ℕ → ℤ → List ℤ → Option ℕ
index_from i in_val [] = none
index_from i in_val (val ∷ rest) =
    if eq_ℤ val in_val then some i else index_from (suc i) in_val rest

unfoldable pub index : ℤ → List ℤ → Option ℕ
unfolding index_from
index in_val in_array = index_from 0 in_val in_array

-- `outArray[index]`; an index out of range would panic, which is `none` here too.
unfoldable pub lookup : ℤ → List ℤ → List ℤ → Option ℤ
unfolding index
lookup in_val in_array out_array = elim (index in_val in_array) [
  | none ↦ none
  | some i ↦ get_elem? out_array i
]

unfoldable pub min_int : ℕ → ℕ → ℕ
min_int a b = if ltb a b then a else b
