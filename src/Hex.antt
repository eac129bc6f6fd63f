-- ===== src/Hex.antt =====
-- encoding/hex of Go's library, which the descriptors are written in.
use fscrypt.Common.{
  ℕ, zero, suc, ◌+◌, ◌-◌, ◌*◌, ◌/◌, ◌%◌, ◌≤◌, ◌<◌, ◌≡◌, refl, ◌⊎◌, inl, inr, Option-cases, ◌&&◌, [],
  ◌∷◌, Option, none, some, Bytes, IsBytes, All, length, leb, ltb, if◌then◌else◌, arith,
}

unfoldable pub hex_digit : ℕ → ℕ
hex_digit n = if ltb n 10 then b'0' + n else b'a' + (n - 10)

unfoldable pub from_hex_char : ℕ → Option ℕ
from_hex_char c =
    if leb b'0' c && leb c b'9'
    then some (c - b'0')
    else if leb b'a' c && leb c b'f'
    then some (c - b'a' + 10)
    else if leb b'A' c && leb c b'F'
    then some (c - b'A' + 10)
    else none

-- hex.EncodeToString
unfoldable pub encode : Bytes → Bytes
encode [] = []
encode (b ∷ rest) = hex_digit (b / 16) ∷ hex_digit (b % 16) ∷ encode rest

infixl 5 ◌>>=◌
abbrev pub ◌>>=◌ : {A B : Type 0} → Option A → (A → Option B) → Option B
none >>= f = none
some a >>= f = f a

-- hex.DecodeString: an odd length and a byte that is no digit are errors.
unfoldable pub decode : Bytes → Option Bytes
decode [] = some []
decode (a ∷ []) = none
decode (a ∷ b ∷ rest) = do
  hi ← from_hex_char a
  lo ← from_hex_char b
  out ← decode rest
  some ((hi * 16 + lo) ∷ out)

from_hex_char-hex_digit : (n : ℕ) → n < 16 → from_hex_char (hex_digit n) ≡ some n
unfolding from_hex_char hex_digit
from_hex_char-hex_digit n h = ground arith

-- Bytes are read back from their hex print.
pub decode-encode : (s : Bytes) → IsBytes s → decode (encode s) ≡ some s
unfolding decode encode
decode-encode [] h = refl
decode-encode (b ∷ s) (hb, hs) =
    ground (
      arith,
      from_hex_char-hex_digit (b / 16),
      from_hex_char-hex_digit (b % 16),
      decode-encode s hs,
    )

-- Decoding halves the length.
pub length-decode : (s : Bytes) {out : Bytes} → decode s ≡ some out → length s ≡ 2 * length out
unfolding decode
length-decode [] h = ground arith
length-decode (a ∷ []) h = ground arith
length-decode (a ∷ b ∷ s) {out} h = elim (Option-cases (decode s)) [
  | inl bad ↦ absurd (ground arith)
  | inr (tail, good) ↦ ground (arith, length-decode s good)
]

-- A digit that `encode` writes: '0' to '9' or 'a' to 'f'.
abbrev pub IsLowerHex : ℕ → Type 0
IsLowerHex c = ((b'0' ≤ c) × (c ≤ b'9')) ⊎ ((b'a' ≤ c) × (c ≤ b'f'))

hex_digit-from_hex_char :
    (c : ℕ) → IsLowerHex c → (n : ℕ) × (from_hex_char c ≡ some n) × (n < 16) × (hex_digit n ≡ c)
unfolding from_hex_char hex_digit
hex_digit-from_hex_char c (inl h) = (c - b'0', ground arith, ground arith, ground arith)
hex_digit-from_hex_char c (inr h) = (c - b'a' + 10, ground arith, ground arith, ground arith)

-- A lower-case text of even length decodes to bytes, whose print it is.
pub encode-decode :
    (n : ℕ) (s : Bytes)
    → length s ≡ 2 * n
    → All IsLowerHex s
    → (out : Bytes) × (decode s ≡ some out) × IsBytes out × (length out ≡ n) × (encode out ≡ s)
unfolding decode encode
encode-decode zero [] l h = ([], refl, tt, refl, refl)
encode-decode zero (a ∷ s) l h = absurd (omega arith)
encode-decode (suc n) [] l h = absurd (omega arith)
encode-decode (suc n) (a ∷ []) l h = absurd (omega arith)
encode-decode (suc n) (a ∷ b ∷ s) l (ha, (hb, hs)) =
    let (x, ex, bx, px) = hex_digit-from_hex_char a ha in
    let (y, ey, by, py) = hex_digit-from_hex_char b hb in
    let (out, eo, bo, lo, po) = encode-decode n s (omega arith) hs in
    let high : (x * 16 + y) / 16 ≡ x = omega arith in
    let low : (x * 16 + y) % 16 ≡ y = omega arith in
    (
      (x * 16 + y) ∷ out,
      rw (ex, ey, eo) refl,
      (omega arith, bo),
      omega arith,
      rw (high, low, px, py, po) refl,
    )
