-- ===== src/Crypto/Recovery/RoundTrip.antt =====
-- A recovery code that is written is read back as the key.
use fscrypt.Common.{
  ℕ, zero, suc, ◌+◌, ◌-◌, ◌*◌, ◌≤◌, ◌≡◌, refl, sym, ap, ◌∙◌, [], ◌∷◌, ◌++◌, append_assoc,
  append-nil, Option, none, some, Bytes, IsBytes, bytes_eq, length, take, drop, replicate,
  length-append, length-take, length-drop, take_exact, drop_exact, drop-drop, take-append-drop,
  take_beyond, ok, arith,
}
use fscrypt.Util.{min_int}
use fscrypt.Crypto.Key.{Memory, Key, data_of, len, copy_to}
use fscrypt.Crypto.Key.Buffer.{
  HasMemory, data-new_blank_key, data-copy_to, copy-replicate, data-resize,
}
use fscrypt.Crypto.Base32
use fscrypt.Crypto.Base32.RoundTrip
use fscrypt.Crypto.Recovery.{
  separator, ErrWriter, ErrReader, write, read, write_blocks, write_code, write_recovery_code,
  recovery_code_length, read_blocks, read_recovery_code, finish_read,
}

-- `k` blocks of eight characters, each behind a separator.
pub with_separators : ℕ → Bytes → Bytes
with_separators zero d = []
with_separators (suc k) d = b'-' ∷ (take 8 d ++ with_separators k (drop 8 d))

-- The code of an encoded key: thirteen blocks, with separators between them.
abbrev pub code_of : Bytes → Bytes
code_of d = take 8 d ++ with_separators 12 (drop 8 d)

abbrev pub succeeds : Bytes → Option ℕ
succeeds p = none

write_ok :
    (p out : Bytes)
    → write succeeds p (record { written = out; error = none })
      ≡ record { written = out ++ p; error = none }
unfolding write
write_ok p out = refl

-- One round of the writer's loop.
write_round :
    (rounds bs : ℕ) (d out : Bytes)
    → bs + 8 ≤ 104
    → write_blocks succeeds (suc rounds) bs d (record { written = out; error = none })
      ≡ write_blocks succeeds rounds
          (bs + 8)
          d
          (record { written = out ++ (separator ++ take 8 (drop bs d)); error = none })
unfolding write_blocks min_int write
write_round rounds bs d out h =
    let block : bs + 8 - bs ≡ 8 = omega arith in
    ground (arith, block, append_assoc out separator (take 8 (drop bs d)))

write_end : (rounds : ℕ) (d : Bytes) (w : ErrWriter) → write_blocks succeeds rounds 104 d w ≡ w
unfolding write_blocks
write_end zero d w = refl
write_end (suc rounds) d w = refl

write_blocks_lem :
    (k rounds bs : ℕ) (d out : Bytes)
    → bs + 8 * k ≡ 104
    → k ≤ rounds
    → write_blocks succeeds rounds bs d (record { written = out; error = none })
      ≡ record { written = out ++ with_separators k (drop bs d); error = none }
unfolding with_separators
write_blocks_lem zero rounds bs d out e l =
    let last : bs ≡ 104 = omega arith in rw (last, write_end, append-nil) refl
write_blocks_lem (suc k) zero bs d out e l = absurd (omega arith)
write_blocks_lem (suc k) (suc rounds) bs d out e l =
    write_round rounds bs d out (omega arith)
    ∙ write_blocks_lem k rounds (bs + 8) d (out ++ (separator ++ take 8 (drop bs d))) (omega arith)
        (omega arith)
    ∙ ap {B = ErrWriter} (λ t. record { written = t; error = none })
        (append_assoc out (separator ++ take 8 (drop bs d)) (with_separators k (drop (bs + 8) d))
          ∙ ap (λ r. out ++ b'-' ∷ (take 8 (drop bs d) ++ with_separators k r))
              (sym (drop-drop bs 8 d)))

write_code_lem : (d : Bytes) → write_code succeeds d ≡ record { written = code_of d; error = none }
unfolding write_code
write_code_lem d =
    rw (write_ok (take 8 d) []) (write_blocks_lem 12 104 8 d (take 8 d) (omega arith) (omega arith))

-- A Read of `n` bytes that are there.
read_there :
    (n : ℕ) (p rest : Bytes)
    → length p ≡ n
    → read n (record { stream = p ++ rest; error = none })
      ≡ (record { stream = rest; error = none }, p)
unfolding read
read_there n p rest l =
    ground (arith, length-append p rest, take_exact n p rest l, drop_exact n p rest l)

-- One round of the reader's loop.
read_round :
    (rounds bs : ℕ) (p rest d : Bytes)
    → bs + 8 ≤ 104
    → length p ≡ 8
    → read_blocks (suc rounds) bs (record { stream = b'-' ∷ (p ++ rest); error = none }) d
      ≡ read_blocks rounds (bs + 8) (record { stream = rest; error = none }) (d ++ p)
unfolding read_blocks min_int bytes_eq
read_round rounds bs p rest d h l =
    let block : bs + 8 - bs ≡ 8 = omega arith in
    let first = read_there 1 separator (p ++ rest) refl in
    ground (arith, block, first, read_there 8 p rest l)

read_end : (rounds : ℕ) (r : ErrReader) (d : Bytes) → read_blocks rounds 104 r d ≡ ok (r, d)
unfolding read_blocks
read_end zero r d = refl
read_end (suc rounds) r d = ground arith

read_blocks_lem :
    (k rounds bs : ℕ) (d rest acc : Bytes)
    → bs + 8 * k ≡ 104
    → k ≤ rounds
    → length d ≡ 8 * k
    → read_blocks rounds bs (record { stream = with_separators k d ++ rest; error = none }) acc
      ≡ ok (record { stream = rest; error = none }, acc ++ d)
unfolding with_separators
read_blocks_lem zero rounds bs [] rest acc e l n =
    let last : bs ≡ 104 = omega arith in rw (last, read_end, append-nil) refl
read_blocks_lem zero rounds bs (c ∷ d) rest acc e l n = absurd (omega arith)
read_blocks_lem (suc k) zero bs d rest acc e l n = absurd (omega arith)
read_blocks_lem (suc k) (suc rounds) bs d rest acc e l n =
    let p = take 8 d in
    rw (append_assoc p (with_separators k (drop 8 d)) rest) (
      read_round rounds bs p (with_separators k (drop 8 d) ++ rest) acc (omega arith)
        (length-take 8 d (omega arith))
      ∙ read_blocks_lem k rounds (bs + 8) (drop 8 d) rest (acc ++ p) (omega arith) (omega arith)
          (omega (arith, length-drop 8 d))
      ∙ rw (append_assoc acc p (drop 8 d), take-append-drop 8 d) refl)

length-with_separators :
    (k : ℕ) (d : Bytes) → length d ≡ 8 * k → length (with_separators k d) ≡ 9 * k
unfolding with_separators
length-with_separators zero d n = omega arith
length-with_separators (suc k) d n = omega (
  arith,
  length-append (take 8 d) (with_separators k (drop 8 d)),
  length-take 8 d,
  length-with_separators k (drop 8 d) (omega (arith, length-drop 8 d)),
)

length-code_of : (d : Bytes) → length d ≡ 104 → length (code_of d) ≡ recovery_code_length
length-code_of d n = omega (
  arith,
  length-append (take 8 d) (with_separators 12 (drop 8 d)),
  length-take 8 d,
  length-with_separators 12 (drop 8 d) (omega (arith, length-drop 8 d)),
)

-- A buffer with one byte too many is cut.
cut_buffer :
    (b out : Bytes)
    → b ≡ out ++ 0 ∷ []
    → length out ≡ 64
    → take 64 b ++ replicate (64 - length b) 0 ≡ out
cut_buffer b out e n =
    let longer : 64 - length (out ++ 0 ∷ []) ≡ 0 = omega (arith, length-append out (0 ∷ [])) in
    rw (e, longer, take_exact 64 out (0 ∷ []) n, append-nil) refl

module _ (m : Memory) (h : HasMemory m) where
  -- A decoded key of 64 bytes, in a buffer of 65 that is then cut.
  finish_read_lem :
      (out : Bytes)
      → length out ≡ 64
      → (key : Key) × (finish_read m (some out) ≡ ok key) × (data_of key ≡ out)
  finish_read_lem out n =
      let (blank, made, zeros) = data-new_blank_key m h 65 in
      let (key, cut, d) = data-resize m h (copy_to out blank) 64 in
      let filled = data-copy_to 65 out blank zeros ∙ copy-replicate 65 out in
      let one : 65 - length out ≡ 1 = omega arith in
      let whole = take_beyond 65 out (omega arith) in
      let buffer : data_of (copy_to out blank) ≡ out ++ 0 ∷ [] = rw (one, whole) at filled in
      (key, rw (made, cut) refl, d ∙ cut_buffer (data_of (copy_to out blank)) out buffer n)

  -- A stream that starts with a code of 104 encoded characters is read to the decoding of these.
  read_code :
      (d rest : Bytes)
      → length d ≡ 104
      → read_recovery_code m (code_of d ++ rest) ≡ finish_read m (Base32.decode d)
  unfolding read_recovery_code
  read_code d rest n =
      let (blank, made, zeros) = data-new_blank_key m h 104 in
      let tail = with_separators 12 (drop 8 d) in
      let first = read_there 8 (take 8 d) (tail ++ rest) (length-take 8 d (omega arith)) in
      let others =
        read_blocks_lem 12 104 8 (drop 8 d) rest (take 8 d) (omega arith) (omega arith)
          (omega (arith, length-drop 8 d)) in
      rw (made, append_assoc (take 8 d) tail rest, first) (rw (others, take-append-drop 8 d) refl)

  written_lem :
      (key : Key)
      → length (data_of key) ≡ 64
      → write_recovery_code m succeeds key
        ≡ (record { written = code_of (Base32.encode (data_of key)); error = none }, ok tt)
  unfolding write_recovery_code
  written_lem key n =
      let (blank, made, zeros) = data-new_blank_key m h 104 in
      let size : len key ≡ 64 = unfold len in n in
      rw (size, made, write_code_lem (Base32.encode (data_of key))) refl

  -- Of a policy key WriteRecoveryCode writes a code of RecoveryCodeLength characters, from which, in
  -- front of any other text, ReadRecoveryCode reads a key of the same bytes.
  pub read-write :
      (key : Key) (rest : Bytes)
      → length (data_of key) ≡ 64
      → IsBytes (data_of key)
      → ((write_recovery_code m succeeds key).1 ≡ ok tt)
        × (length (write_recovery_code m succeeds key).0.written ≡ recovery_code_length)
        × (key' : Key) × (read_recovery_code m
              ((write_recovery_code m succeeds key).0.written ++ rest)
            ≡ ok key')
        × (data_of key' ≡ data_of key)
  read-write key rest n bytes =
      let text = Base32.encode (data_of key) in
      let size : length text ≡ 104 = omega (arith, RoundTrip.length-encode (data_of key)) in
      let (key', made, same) = finish_read_lem (data_of key) n in
      let written = written_lem key n in
      (
        rw written refl,
        rw written (length-code_of text size),
        key',
        rw written
            (read_code text rest size ∙ rw (RoundTrip.decode-encode (data_of key) bytes) made),
        same,
      )
