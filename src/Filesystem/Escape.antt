-- ===== src/Filesystem/Escape.antt =====
-- filesystem/mountpoint.go: the octal escapes of the mountinfo file.
use fscrypt.Common.{
  ℕ, ◌+◌, ◌-◌, ◌*◌, ◌/◌, ◌%◌, ◌≡◌, ◌≢◌, refl, ap, Bool, true, false, ◌&&◌, ◌||◌, [], ◌∷◌, ◌++◌,
  Option, none, some, Bytes, All, All-append, Bool-cases, inl, inr, leb, ltb, ◌==◌, if◌then◌else◌,
  arith,
}

abbrev pub backslash : ℕ
backslash = b'\\'

abbrev pub space : ℕ
space = b' '

abbrev pub tab : ℕ
tab = 9

abbrev pub newline : ℕ
newline = 10

abbrev is_octal : ℕ → Bool
is_octal c = leb b'0' c && leb c b'7'

-- strconv.ParseInt(s, 8, 8) of a text of three bytes, then `uint8`: a sign and two digits, or three
-- digits of at most 127.
unfoldable pub parse_octal : ℕ → ℕ → ℕ → Option ℕ
parse_octal x y z =
    let low = (y - b'0') * 8 + (z - b'0') in
    let value = (x - b'0') * 64 + low in
    if is_octal y && is_octal z
    then (if x == b'+'
        then some low
        else if x == b'-'
        then some ((256 - low) % 256)
        else if is_octal x && ltb value 128
        then some value
        else none)
    else none

unfoldable pub unescape_string : Bytes → Bytes
unescape_string (b ∷ x ∷ y ∷ z ∷ rest) =
    let plain = b ∷ unescape_string (x ∷ y ∷ z ∷ rest) in
    let tail = unescape_string rest in
    if b == backslash then elim (parse_octal x y z) [ none ↦ plain | some v ↦ v ∷ tail ] else plain
unescape_string (b ∷ x ∷ y ∷ []) = b ∷ x ∷ y ∷ []
unescape_string (b ∷ x ∷ []) = b ∷ x ∷ []
unescape_string (b ∷ []) = b ∷ []
unescape_string [] = []

unfoldable pub is_special : ℕ → Bool
is_special b = b == space || b == tab || b == newline || b == backslash

-- fmt.Sprintf("\\%03o", b)
unfoldable pub octal : ℕ → Bytes
octal b = backslash ∷ (b'0' + b / 64) ∷ (b'0' + b / 8 % 8) ∷ (b'0' + b % 8) ∷ []

unfoldable pub escape_string : Bytes → Bytes
escape_string [] = []
escape_string (b ∷ s) = (if is_special b then octal b else b ∷ []) ++ escape_string s

unescape_plain :
    (b : ℕ) (s : Bytes) → b ≢ backslash → unescape_string (b ∷ s) ≡ b ∷ unescape_string s
unfolding unescape_string
unescape_plain b [] h = refl
unescape_plain b (x ∷ []) h = refl
unescape_plain b (x ∷ y ∷ []) h = refl
unescape_plain b (x ∷ y ∷ z ∷ s) h = ground arith

unescape-octal :
    (b : ℕ) (s : Bytes)
    → is_special b ≡ true
    → unescape_string (octal b ++ s) ≡ b ∷ unescape_string s
unfolding is_special octal unescape_string parse_octal
unescape-octal b s h = ground arith

special-ne-backslash : (b : ℕ) → is_special b ≡ false → b ≢ backslash
unfolding is_special
special-ne-backslash b h = ground arith

-- Unescaping undoes escaping, for every text.
pub unescape-escape : (s : Bytes) → unescape_string (escape_string s) ≡ s
unfolding escape_string
unescape-escape [] = unfold unescape_string in refl
unescape-escape (b ∷ s) = elim (Bool-cases (is_special b)) [
  | inl special ↦
      rw (special, unescape-octal b (escape_string s) special) (ap (λ t. b ∷ t) (unescape-escape s))
  | inr plain ↦
      rw (plain, unescape_plain b (escape_string s) (special-ne-backslash b plain))
        (ap (λ t. b ∷ t) (unescape-escape s))
]

-- Neither a space nor a line break, which separate fields and lines.
abbrev pub IsClear : ℕ → Type 0
IsClear b = (b ≢ space) × (b ≢ tab) × (b ≢ newline)

octal-IsClear : (b : ℕ) → All IsClear (octal b)
unfolding octal
octal-IsClear b = omega arith

plain-IsClear : (b : ℕ) → is_special b ≡ false → IsClear b
unfolding is_special
plain-IsClear b h = ground arith

-- An escaped text holds no space, tab or line break.
pub escape-IsClear : (s : Bytes) → All IsClear (escape_string s)
unfolding escape_string
escape-IsClear [] = tt
escape-IsClear (b ∷ s) = elim (Bool-cases (is_special b)) [
  | inl special ↦
      rw special
        (All-append IsClear (octal b) (escape_string s) (octal-IsClear b) (escape-IsClear s))
  | inr plain ↦ rw plain (plain-IsClear b plain, escape-IsClear s)
]
