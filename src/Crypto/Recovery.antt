-- ===== src/Crypto/Recovery.antt =====
-- crypto/key.go: WriteRecoveryCode and ReadRecoveryCode, over the ErrWriter and ErrReader of
-- util/errors.go.
pub mod RoundTrip
use fscrypt.Common.{
  ℕ, zero, suc, ◌+◌, ◌-◌, ◌*◌, Bool, true, false, not, ◌&&◌, [], ◌∷◌, ◌++◌, Option, none, some,
  Bytes, bytes_eq, length, take, drop, leb, ltb, ◌==◌, if◌then◌else◌, Result, ok, err, ◌>>=◌,
}
use fscrypt.Util.{min_int}
use fscrypt.Metadata.Types.{policy_key_len}
use fscrypt.Crypto.Key.{Memory, Key, KeyError, data_of, len, new_blank_key, resize, copy_to}
use fscrypt.Crypto.Base32

abbrev pub block_size : ℕ
block_size = 8

abbrev pub separator : Bytes
separator = b'-' ∷ []

-- encoding.EncodedLen(64) and encoding.DecodedLen(104)
abbrev pub encoded_length : ℕ
encoded_length = 104

abbrev pub decoded_length : ℕ
decoded_length = 65

abbrev pub recovery_code_length : ℕ
recovery_code_length = 116

pub data RecoveryError : Type 0 where
  key_error : KeyError → RecoveryError
  bad_key_length : ℕ → RecoveryError
  write_error read_error : ℕ → RecoveryError
  invalid_separator : Bytes → RecoveryError
  decode_error : RecoveryError

-- The errors of package key, seen by these functions.
abbrev pub lift : Result KeyError Key → Result RecoveryError Key
lift (ok key) = ok key
lift (err e) = err (key_error e)

pub record ErrWriter : Type 0 where
  pub written : Bytes
  pub error : Option ℕ

pub record ErrReader : Type 0 where
  pub stream : Bytes
  pub error : Option ℕ

-- ErrWriter.Write over a writer that answers each call by an error or by none.
unfoldable pub write : (Bytes → Option ℕ) → Bytes → ErrWriter → ErrWriter
write fails p w = elim w.error [
  | some e ↦ w
  | none ↦ elim (fails p) [
    | some e ↦ record w { error = some e }
    | none ↦ record w { written = w.written ++ p }
  ]
]

-- io.EOF, where nothing was left, and io.ErrUnexpectedEOF.
abbrev pub eof_error : Bytes → ℕ
eof_error [] = 0
eof_error (c ∷ s) = 1

-- ErrReader.Read into a buffer of `n` bytes: the bytes that were read.
unfoldable pub read : ℕ → ErrReader → ErrReader × Bytes
read n r = elim r.error [
  | some e ↦ (r, [])
  | none ↦
      if leb n (length r.stream)
      then (record r { stream = drop n r.stream }, take n r.stream)
      else (record { stream = []; error = some (eof_error r.stream) }, r.stream)
]

abbrev pub slice : ℕ → ℕ → Bytes → Bytes
slice from to d = take (to - from) (drop from d)

-- The loop over the blocks behind the first one, on the number of rounds that are left.
unfoldable pub write_blocks : (Bytes → Option ℕ) → ℕ → ℕ → Bytes → ErrWriter → ErrWriter
write_blocks fails zero block_start d w = w
write_blocks fails (suc rounds) block_start d w =
    let block_end = min_int (block_start + block_size) encoded_length in
    let w' = write fails (slice block_start block_end d) (write fails separator w) in
    let more = write_blocks fails rounds (block_start + block_size) d w' in
    if ltb block_start encoded_length then more else w

abbrev pub writer_result : ErrWriter → ErrWriter × Result RecoveryError (Unit {0})
writer_result w = elim w.error [ some e ↦ (w, err (write_error e)) | none ↦ (w, ok tt) ]

abbrev pub new_writer : ErrWriter
new_writer = record { written = []; error = none }

-- With one round for each byte the loop ends by its test.
unfoldable pub write_code : (Bytes → Option ℕ) → Bytes → ErrWriter
write_code fails d =
    write_blocks fails encoded_length block_size d (write fails (take block_size d) new_writer)

-- WriteRecoveryCode: what was written, and the result.
unfoldable pub write_recovery_code :
    Memory → (Bytes → Option ℕ) → Key → ErrWriter × Result RecoveryError (Unit {0})
write_recovery_code m fails key =
    if len key == policy_key_len
    then elim (new_blank_key m encoded_length) [
      | err e ↦ (new_writer, err (key_error e))
      | ok encoded_key ↦ writer_result (write_code fails (Base32.encode (data_of key)))
    ]
    else (new_writer, err (bad_key_length (len key)))

abbrev pub has_failed : ErrReader → Bool
has_failed r = elim r.error [ none ↦ false | some e ↦ true ]

-- The loop of the reader. The blocks fill the buffer from the front, so it is what was read so far;
-- after a failed Read it is not looked at.
unfoldable pub read_blocks : ℕ → ℕ → ErrReader → Bytes → Result RecoveryError (ErrReader × Bytes)
read_blocks zero block_start r d = ok (r, d)
read_blocks (suc rounds) block_start r d =
    let (r₁, input_separator) = read 1 r in
    let block_end = min_int (block_start + block_size) encoded_length in
    let (r₂, block) = read (block_end - block_start) r₁ in
    let more = read_blocks rounds (block_start + block_size) r₂ (d ++ block) in
    if ltb block_start encoded_length
    then (if not (has_failed r₁) && not (bytes_eq separator input_separator)
        then err (invalid_separator input_separator)
        else more)
    else ok (r, d)

-- The decoded bytes, in a buffer that holds one more than a key has.
abbrev pub finish_read : Memory → Option Bytes → Result RecoveryError Key
finish_read m decoded = do
  decoded_key ← lift (new_blank_key m decoded_length)
  elim decoded [
    | none ↦ err decode_error
    | some out ↦ lift (resize m (copy_to out decoded_key) policy_key_len)
  ]

abbrev pub check_reader : Memory → ErrReader × Bytes → Result RecoveryError Key
check_reader m (r, d) = elim r.error [
  | some e ↦ err (read_error e)
  | none ↦ finish_read m (Base32.decode d)
]

unfoldable pub read_recovery_code : Memory → Bytes → Result RecoveryError Key
read_recovery_code m stream = do
  encoded_key ← lift (new_blank_key m encoded_length)
  let (r, first_block) = read block_size (record { stream = stream; error = none })
  blocks ← read_blocks encoded_length block_size r first_block
  check_reader m blocks
