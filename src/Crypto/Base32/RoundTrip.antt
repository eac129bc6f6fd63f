-- ===== src/Crypto/Base32/RoundTrip.antt =====
-- Bytes are read back from their base32 text.
use fscrypt.Common.{
  ℕ, zero, suc, ◌+◌, ◌-◌, ◌*◌, ◌/◌, ◌%◌, ◌≤◌, ◌<◌, ◌≡◌, ◌≢◌, refl, ap, ◌∙◌, append_assoc,
  append-nil, true, false, List, [], ◌∷◌, ◌++◌, some, Bytes, IsBytes, All, All-append, length,
  replicate, length-replicate, ◌==◌, arith,
}
use fscrypt.Crypto.Base32.{
  pad, encode_char, decode_char, chars, digits_5, first, encode, quantum, read_quantum, end_quantum,
  all_pad, pack, prepend, is_nil, decode_quanta, strip_newlines, decode,
}

-- A character of the alphabet, and the digit that it stands for.
decode_char-encode_char : (v : ℕ) → v < 32 → decode_char (encode_char v) ≡ some v
unfolding decode_char encode_char
decode_char-encode_char v h = ground arith

encode_char-ne-pad : (v : ℕ) → v < 32 → (encode_char v == pad) ≡ false
unfolding encode_char
encode_char-ne-pad v h = ground arith

module _ (j : ℕ) (dbuf : List ℕ) (v : ℕ) (src : Bytes) (h : v < 32) where
  read_digit :
      j < 7 → read_quantum j dbuf (encode_char v ∷ src) ≡ read_quantum (suc j) (dbuf ++ v ∷ []) src
  unfolding read_quantum
  read_digit l = ground (arith, decode_char-encode_char v h, encode_char-ne-pad v h)

  read_last_digit :
      j ≡ 7 → read_quantum j dbuf (encode_char v ∷ src) ≡ quantum (dbuf ++ v ∷ []) src false
  unfolding read_quantum
  read_last_digit l = ground (arith, decode_char-encode_char v h, encode_char-ne-pad v h)

abbrev pub AreDigits : List ℕ → Type 0
AreDigits = All (λ v. v < 32)

-- Digits in front of the last one of a quantum.
read_digits :
    (j : ℕ) (dbuf ds : List ℕ) (src : Bytes)
    → AreDigits ds
    → j + length ds < 8
    → read_quantum j dbuf (chars ds ++ src) ≡ read_quantum (j + length ds) (dbuf ++ ds) src
read_digits j dbuf [] src h l = let e : j + 0 ≡ j = omega arith in rw (e, append-nil) refl
read_digits j dbuf (v ∷ ds) src (hv, hs) l =
    let e : j + suc (length ds) ≡ suc j + length ds = omega arith in
    rw (read_digit j dbuf v (chars ds ++ src) hv (omega arith), e)
      (read_digits (suc j) (dbuf ++ v ∷ []) ds src hs (omega arith)
        ∙ ap (λ b. read_quantum (suc j + length ds) b src) (append_assoc dbuf (v ∷ []) ds))

-- A whole quantum of eight digits.
read_whole :
    (ds : List ℕ) (v : ℕ) (src : Bytes)
    → AreDigits ds
    → length ds ≡ 7
    → v < 32
    → read_quantum 0 [] (chars ds ++ encode_char v ∷ src) ≡ quantum (ds ++ v ∷ []) src false
read_whole ds v src hs l hv =
    read_digits 0 [] ds (encode_char v ∷ src) hs (omega arith)
    ∙ read_last_digit (0 + length ds) ds v src hv (omega arith)

all_pad-replicate : (k n : ℕ) → all_pad k (replicate n pad) ≡ true
unfolding all_pad
all_pad-replicate zero n = refl
all_pad-replicate (suc k) zero = refl
all_pad-replicate (suc k) (suc n) = all_pad-replicate k n

read_pad :
    (j : ℕ) (ds : List ℕ) (n : ℕ)
    → 2 ≤ j
    → j + suc n ≡ 8
    → j ≢ 3
    → j ≢ 6
    → read_quantum j ds (pad ∷ replicate n pad) ≡ quantum ds (replicate n pad) true
unfolding read_quantum end_quantum
read_pad j ds n two all three six =
    ground (arith, all_pad-replicate (7 - j) n, length-replicate {A = ℕ} n pad)

-- A quantum that padding ends, at the end of the text.
read_padded :
    (ds : List ℕ) (n : ℕ)
    → AreDigits ds
    → 2 ≤ length ds
    → length ds + suc n ≡ 8
    → length ds ≢ 3
    → length ds ≢ 6
    → read_quantum 0 [] (chars ds ++ replicate (suc n) pad) ≡ quantum ds (replicate n pad) true
read_padded ds n hs two all three six =
    read_digits 0 [] ds (replicate (suc n) pad) hs (omega arith)
    ∙ read_pad (0 + length ds) ds n (omega arith) (omega arith) (λ e. three (omega arith))
        (λ e. six (omega arith))

-- The bytes come back from their digits.
digits-AreDigits :
    (a b c d e : ℕ)
    → a < 256
    → b < 256
    → c < 256
    → d < 256
    → e < 256
    → AreDigits (digits_5 a b c d e)
digits-AreDigits a b c d e ha hb hc hd he = omega arith

pack-digits :
    (a b c d e : ℕ)
    → a < 256
    → b < 256
    → c < 256
    → d < 256
    → e < 256
    → pack (digits_5 a b c d e) ≡ a ∷ b ∷ c ∷ d ∷ e ∷ []
unfolding pack
pack-digits a b c d e ha hb hc hd he = ground arith

module _ (fuel : ℕ) (src : Bytes) (dbuf : List ℕ) (rest : Bytes) where
  one_quantum :
      is_nil src ≡ false
      → read_quantum 0 [] src ≡ quantum dbuf rest false
      → decode_quanta (suc fuel) src ≡ prepend (pack dbuf) (decode_quanta fuel rest)
  unfolding decode_quanta
  one_quantum n e = ground (arith, e)

  last_quantum :
      is_nil src ≡ false
      → read_quantum 0 [] src ≡ quantum dbuf rest true
      → decode_quanta (suc fuel) src ≡ some (pack dbuf)
  unfolding decode_quanta
  last_quantum n e = ground (arith, e)

encode-pos : (a : ℕ) (s : Bytes) → 0 < length (encode (a ∷ s))
unfolding encode
encode-pos a [] = omega arith
encode-pos a (b ∷ []) = omega arith
encode-pos a (b ∷ c ∷ []) = omega arith
encode-pos a (b ∷ c ∷ d ∷ []) = omega arith
encode-pos a (b ∷ c ∷ d ∷ e ∷ s) = omega arith

-- The last quantum of a text, of fewer than eight digits.
decode-padded :
    (fuel n : ℕ) (ds : List ℕ) (out : Bytes)
    → AreDigits ds
    → 2 ≤ length ds
    → length ds + suc n ≡ 8
    → length ds ≢ 3
    → length ds ≢ 6
    → is_nil (chars ds ++ replicate (suc n) pad) ≡ false
    → pack ds ≡ out
    → decode_quanta (suc fuel) (chars ds ++ replicate (suc n) pad) ≡ some out
decode-padded fuel n ds out hs two all three six full packed =
    last_quantum fuel (chars ds ++ replicate (suc n) pad) ds (replicate n pad) full
      (read_padded ds n hs two all three six)
    ∙ ap some packed

pub decode_quanta-encode :
    (fuel : ℕ) (s : Bytes)
    → IsBytes s
    → length (encode s) ≤ fuel
    → decode_quanta fuel (encode s) ≡ some s
unfolding encode
decode_quanta-encode zero [] h l = unfold decode_quanta in refl
decode_quanta-encode (suc fuel) [] h l = unfold decode_quanta in refl
decode_quanta-encode zero (a ∷ s) h l = absurd (omega (arith, encode-pos a s))
decode_quanta-encode (suc fuel) (a ∷ []) (ha, h) l =
    decode-padded fuel 5 (first 2 (digits_5 a 0 0 0 0)) (a ∷ []) (omega arith) (omega arith)
      (omega arith) (omega arith) (omega arith) refl (unfold pack in ground arith)
decode_quanta-encode (suc fuel) (a ∷ b ∷ []) (ha, (hb, h)) l =
    decode-padded fuel 3 (first 4 (digits_5 a b 0 0 0)) (a ∷ b ∷ []) (omega arith) (omega arith)
      (omega arith) (omega arith) (omega arith) refl (unfold pack in ground arith)
decode_quanta-encode (suc fuel) (a ∷ b ∷ c ∷ []) (ha, (hb, (hc, h))) l =
    decode-padded fuel 2 (first 5 (digits_5 a b c 0 0)) (a ∷ b ∷ c ∷ []) (omega arith) (omega arith)
      (omega arith) (omega arith) (omega arith) refl (unfold pack in ground arith)
decode_quanta-encode (suc fuel) (a ∷ b ∷ c ∷ d ∷ []) (ha, (hb, (hc, (hd, h)))) l =
    decode-padded fuel 0 (first 7 (digits_5 a b c d 0)) (a ∷ b ∷ c ∷ d ∷ []) (omega arith)
      (omega arith) (omega arith) (omega arith) (omega arith) refl (unfold pack in ground arith)
decode_quanta-encode (suc fuel) (a ∷ b ∷ c ∷ d ∷ e ∷ rest) (ha, (hb, (hc, (hd, (he, hr))))) l =
    let ds = digits_5 a b c d e in
    let (d0, (d1, (d2, (d3, (d4, (d5, (d6, (d7, none_more)))))))) =
      digits-AreDigits a b c d e ha hb hc hd he in
    one_quantum fuel (encode (a ∷ b ∷ c ∷ d ∷ e ∷ rest)) ds (encode rest) refl (
      read_whole (first 7 ds) (e % 32) (encode rest) (d0, (d1, (d2, (d3, (d4, (d5, (d6, tt)))))))
        refl d7)
    ∙ rw (pack-digits a b c d e ha hb hc hd he, decode_quanta-encode fuel rest hr (omega arith))
        refl

-- No character of the text is a line break, which the decoder would skip.
abbrev pub IsPlain : ℕ → Type 0
IsPlain c = (c ≢ 13) × (c ≢ 10)

strip_plain : (s : Bytes) → All IsPlain s → strip_newlines s ≡ s
unfolding strip_newlines
strip_plain [] h = refl
strip_plain (c ∷ s) (hc, hs) = ground (arith, strip_plain s hs)

encode_char-IsPlain : (v : ℕ) → IsPlain (encode_char v)
unfolding encode_char
encode_char-IsPlain v = ground arith

chars-IsPlain : (ds : List ℕ) → All IsPlain (chars ds)
chars-IsPlain [] = tt
chars-IsPlain (v ∷ ds) = (encode_char-IsPlain v, chars-IsPlain ds)

padded-IsPlain : (ds : List ℕ) (n : ℕ) → All IsPlain (chars ds ++ replicate n pad)
padded-IsPlain ds n = All-append IsPlain (chars ds) (replicate n pad) (chars-IsPlain ds) (pads n)
  where
    pads : (k : ℕ) → All IsPlain (replicate k pad)
    pads zero = tt
    pads (suc k) = (omega arith, pads k)

pub encode-IsPlain : (s : Bytes) → All IsPlain (encode s)
unfolding encode
encode-IsPlain [] = tt
encode-IsPlain (a ∷ []) = padded-IsPlain (first 2 (digits_5 a 0 0 0 0)) 6
encode-IsPlain (a ∷ b ∷ []) = padded-IsPlain (first 4 (digits_5 a b 0 0 0)) 4
encode-IsPlain (a ∷ b ∷ c ∷ []) = padded-IsPlain (first 5 (digits_5 a b c 0 0)) 3
encode-IsPlain (a ∷ b ∷ c ∷ d ∷ []) = padded-IsPlain (first 7 (digits_5 a b c d 0)) 1
encode-IsPlain (a ∷ b ∷ c ∷ d ∷ e ∷ s) =
    All-append IsPlain (chars (digits_5 a b c d e)) (encode s) (chars-IsPlain (digits_5 a b c d e))
      (encode-IsPlain s)

-- Every text of bytes is decoded from its encoding, whatever its length.
pub decode-encode : (s : Bytes) → IsBytes s → decode (encode s) ≡ some s
unfolding decode
decode-encode s h =
    rw (strip_plain (encode s) (encode-IsPlain s))
      (decode_quanta-encode (length (encode s)) s h (omega arith))

-- Eight characters for every five bytes, or part of five.
pub length-encode : (s : Bytes) → length (encode s) ≡ 8 * ((length s + 4) / 5)
unfolding encode
length-encode [] = omega arith
length-encode (a ∷ []) = omega arith
length-encode (a ∷ b ∷ []) = omega arith
length-encode (a ∷ b ∷ c ∷ []) = omega arith
length-encode (a ∷ b ∷ c ∷ d ∷ []) = omega arith
length-encode (a ∷ b ∷ c ∷ d ∷ e ∷ s) = omega (arith, length-encode s)
