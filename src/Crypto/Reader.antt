-- ===== src/Crypto/Reader.antt =====
-- crypto/key.go: NewKeyFromReader and NewFixedLengthKeyFromReader.
pub mod Complete
use fscrypt.Common.{
  ℕ, zero, suc, ◌+◌, ◌-◌, ◌*◌, List, [], ◌∷◌, ◌++◌, Bytes, length, take, drop, leb, ◌==◌,
  if◌then◌else◌, Result, ok, err, ◌>>=◌,
}
use fscrypt.Crypto.Key.{
  Memory, Key, KeyError, read_failed, unexpected_eof, out_of_fuel, data_of, len, new_blank_key,
  resize, with_data,
}

-- What an io.Reader will deliver: pieces with the error that comes with the last byte of each.
pub data Status : Type 0 where
  more eof : Status
  failed : ℕ → Status

pub record Piece : Type 0 where
  pub bytes : Bytes
  pub status : Status

pub record Reading : Type 0 where
  pub bytes : Bytes
  pub status : Status
  pub rest : List Piece

-- A Read into a buffer of `n` bytes. A piece that does not fit is delivered in part.
unfoldable pub read : ℕ → List Piece → Reading
read n [] = record { bytes = []; status = eof; rest = [] }
read n (p ∷ ps) =
    if leb (length p.bytes) n
    then record { bytes = p.bytes; status = p.status; rest = ps }
    else record {
      bytes = take n p.bytes;
      status = more;
      rest = record p { bytes = drop n p.bytes } ∷ ps;
    }

-- The bytes that a Read into `key.data[total:]` leaves in the key.
abbrev pub write_at : Bytes → ℕ → Bytes → Bytes
write_at d total bytes = take total d ++ (bytes ++ drop (total + length bytes) d)

-- The end of the function, or the next round of the loop.
pub data Next : Type 0 where
  finished : Result KeyError Key → Next
  again : Key → ℕ → Next

abbrev pub grown : ℕ → Result KeyError Key → Next
grown total (ok key) = again key total
grown total (err e) = finished (err e)

-- The `switch` on the error of a Read.
unfoldable pub after_read : Memory → Key → ℕ → Status → Next
after_read m key total more =
    if len key == total then grown total (resize m key (2 * len key)) else again key total
after_read m key total eof = finished (resize m key total)
after_read m key total (failed e) = finished (err (read_failed e))

unfoldable pub read_loop : Memory → ℕ → Key → ℕ → List Piece → Result KeyError Key
read_loop m zero key total ps = err out_of_fuel
read_loop m (suc fuel) key total ps =
    let r = read (len key - total) ps in
    let total' = total + length r.bytes in
    let key' = with_data (write_at (data_of key) total r.bytes) key in
    elim (after_read m key' total' r.status) [
      | finished result ↦ result
      | again key'' next ↦ read_loop m fuel key'' next r.rest
    ]

-- Each Read takes a piece or fills a buffer that is not empty.
abbrev pub measure : List Piece → ℕ
measure [] = 0
measure (p ∷ ps) = suc (length p.bytes + measure ps)

unfoldable pub new_key_from_reader : Memory → ℕ → List Piece → Result KeyError Key
new_key_from_reader m page_size ps = do
  key ← new_blank_key m page_size
  read_loop m (suc (measure ps)) key 0 ps

-- io.ReadFull of a length, from a reader that delivers these bytes and then ends.
abbrev pub read_full : ℕ → Bytes → Result KeyError Bytes
read_full n stream = if leb n (length stream) then ok (take n stream) else err unexpected_eof

unfoldable pub new_fixed_length_key : Memory → Bytes → ℕ → Result KeyError Key
new_fixed_length_key m stream n = do
  key ← new_blank_key m n
  bytes ← read_full n stream
  ok (with_data bytes key)
