-- ===== src/Crypto/Base32.antt =====
-- base32.StdEncoding of Go's library, in which recovery codes are written.
pub mod RoundTrip
use fscrypt.Common.{
  ℕ, zero, suc, ◌+◌, ◌-◌, ◌*◌, ◌/◌, ◌%◌, Bool, true, false, not, ◌&&◌, ◌||◌, List, [], ◌∷◌, ◌++◌,
  Option, none, some, Bytes, length, replicate, leb, ltb, ◌==◌, if◌then◌else◌,
}

abbrev pub pad : ℕ
pad = b'='

unfoldable pub encode_char : ℕ → ℕ
encode_char v = if ltb v 26 then b'A' + v else b'2' + (v - 26)

unfoldable pub decode_char : ℕ → Option ℕ
decode_char c =
    if leb b'A' c && leb c b'Z'
    then some (c - b'A')
    else if leb b'2' c && leb c b'7'
    then some (c - b'2' + 26)
    else none

abbrev pub chars : List ℕ → Bytes
chars [] = []
chars (v ∷ vs) = encode_char v ∷ chars vs

-- The eight digits of five bytes; the encoding of fewer takes the first of them.
abbrev pub digits_5 : ℕ → ℕ → ℕ → ℕ → ℕ → List ℕ
digits_5 a b c d e =
    a / 8
    ∷ (a % 8 * 4 + b / 64)
    ∷ (b / 2 % 32)
    ∷ (b % 2 * 16 + c / 16)
    ∷ (c % 16 * 2 + d / 128)
    ∷ (d / 4 % 32)
    ∷ (d % 4 * 8 + e / 32)
    ∷ (e % 32)
    ∷ []

abbrev pub first : ℕ → List ℕ → List ℕ
first zero vs = []
first (suc n) [] = []
first (suc n) (v ∷ vs) = v ∷ first n vs

-- encoding.Encode
unfoldable pub encode : Bytes → Bytes
encode (a ∷ b ∷ c ∷ d ∷ e ∷ rest) = chars (digits_5 a b c d e) ++ encode rest
encode (a ∷ b ∷ c ∷ d ∷ []) = chars (first 7 (digits_5 a b c d 0)) ++ replicate 1 pad
encode (a ∷ b ∷ c ∷ []) = chars (first 5 (digits_5 a b c 0 0)) ++ replicate 3 pad
encode (a ∷ b ∷ []) = chars (first 4 (digits_5 a b 0 0 0)) ++ replicate 4 pad
encode (a ∷ []) = chars (first 2 (digits_5 a 0 0 0 0)) ++ replicate 6 pad
encode [] = []

-- Up to eight digits, what follows them, and whether padding has ended the text.
pub data Quantum : Type 0 where
  bad : Quantum
  quantum : List ℕ → Bytes → Bool → Quantum

-- The first `n` bytes, as far as there are any, are padding.
unfoldable pub all_pad : ℕ → Bytes → Bool
all_pad zero src = true
all_pad (suc n) [] = true
all_pad (suc n) (c ∷ src) = (c == pad) && all_pad n src

-- A pad character behind `j` digits, with `src` after it.
unfoldable pub end_quantum : ℕ → List ℕ → Bytes → Quantum
end_quantum j dbuf src =
    if ltb (length src + j) 7 || not (all_pad (7 - j) src) || j == 1 || j == 3 || j == 6
    then bad
    else quantum dbuf src true

-- The inner loop of the decoder, with `j` digits in `dbuf`.
unfoldable pub read_quantum : ℕ → List ℕ → Bytes → Quantum
read_quantum j dbuf [] = bad
read_quantum j dbuf (c ∷ src) =
    if c == pad && leb 2 j && ltb (length src) 8
    then end_quantum j dbuf src
    else elim (decode_char c) [
      | none ↦ bad
      | some v ↦
          if j == 7
          then quantum (dbuf ++ v ∷ []) src false
          else read_quantum (suc j) (dbuf ++ v ∷ []) src
    ]

abbrev pub byte_0 : ℕ → ℕ → ℕ
byte_0 p q = (p * 8 + q / 4) % 256

abbrev pub byte_1 : ℕ → ℕ → ℕ → ℕ
byte_1 q r s = (q * 64 + r * 2 + s / 16) % 256

abbrev pub byte_2 : ℕ → ℕ → ℕ
byte_2 s t = (s * 16 + t / 2) % 256

abbrev pub byte_3 : ℕ → ℕ → ℕ → ℕ
byte_3 t u v = (t * 128 + u * 4 + v / 8) % 256

abbrev pub byte_4 : ℕ → ℕ → ℕ
byte_4 v w = (v * 32 + w) % 256

-- The `switch` on the number of digits. The shifts stay within a byte, and the parts that `|` joins
-- have no bit in common, so it is a sum.
unfoldable pub pack : List ℕ → Bytes
pack (p ∷ q ∷ r ∷ s ∷ t ∷ u ∷ v ∷ w ∷ []) =
    byte_0 p q ∷ byte_1 q r s ∷ byte_2 s t ∷ byte_3 t u v ∷ byte_4 v w ∷ []
pack (p ∷ q ∷ r ∷ s ∷ t ∷ u ∷ v ∷ []) = byte_0 p q ∷ byte_1 q r s ∷ byte_2 s t ∷ byte_3 t u v ∷ []
pack (p ∷ q ∷ r ∷ s ∷ t ∷ []) = byte_0 p q ∷ byte_1 q r s ∷ byte_2 s t ∷ []
pack (p ∷ q ∷ r ∷ s ∷ []) = byte_0 p q ∷ byte_1 q r s ∷ []
pack (p ∷ q ∷ []) = byte_0 p q ∷ []
pack _ = []

abbrev pub prepend : Bytes → Option Bytes → Option Bytes
prepend out none = none
prepend out (some rest) = some (out ++ rest)

abbrev pub is_nil : Bytes → Bool
is_nil [] = true
is_nil (c ∷ s) = false

-- The outer loop, with fuel: every round takes a byte at least.
unfoldable pub decode_quanta : ℕ → Bytes → Option Bytes
decode_quanta zero [] = some []
decode_quanta zero (c ∷ src) = none
decode_quanta (suc fuel) src = if is_nil src then some [] else elim (read_quantum 0 [] src) [
  | bad ↦ none
  | quantum dbuf rest ended ↦ elim ended [
    | true ↦ some (pack dbuf)
    | false ↦ prepend (pack dbuf) (decode_quanta fuel rest)
  ]
]

unfoldable pub strip_newlines : Bytes → Bytes
strip_newlines [] = []
strip_newlines (c ∷ s) =
    let rest = strip_newlines s in if c == 13 || c == 10 then rest else c ∷ rest

-- encoding.Decode: `none` is an error.
unfoldable pub decode : Bytes → Option Bytes
decode src = let text = strip_newlines src in decode_quanta (length text) text
