-- ===== src/Crypto/Key.antt =====
-- crypto/key.go: keys and their buffers. A key that is wiped, or blank of length 0, has no buffer.
pub mod Buffer
use fscrypt.Common.{
  ℕ, zero, suc, Bool, true, false, [], ◌∷◌, Option, none, some, Bytes, bytes_eq, length, replicate,
  ◌==◌, if◌then◌else◌, Result, ok, err, ◌>>=◌,
}

-- unix.Mmap: the errno of a mapping of this length, `none` on success.
pub record Memory : Type 0 where
  pub mmap_error : ℕ → Option ℕ

pub data KeyError : Type 0 where
  mlock_ulimit : KeyError
  cannot_allocate : ℕ → ℕ → KeyError
  read_failed : ℕ → KeyError
  unexpected_eof out_of_fuel : KeyError

pub record Key : Type 0 where
  pub buffer : Option Bytes

abbrev pub data_or_empty : Option Bytes → Bytes
data_or_empty none = []
data_or_empty (some d) = d

-- key.data; nil has length 0.
abbrev pub data_of : Key → Bytes
data_of key = data_or_empty key.buffer

unfoldable pub len : Key → ℕ
len key = length (data_of key)

abbrev pub eagain : ℕ
eagain = 11

unfoldable pub new_blank_key : Memory → ℕ → Result KeyError Key
new_blank_key m zero = ok (record { buffer = none })
new_blank_key m (suc n) = elim (m.mmap_error (suc n)) [
  | some e ↦ err (if e == eagain then mlock_ulimit else cannot_allocate e (suc n))
  | none ↦ ok (record { buffer = some (replicate (suc n) 0) })
]

-- The key's buffer is zeroed and unmapped, and `key.data` is nil.
unfoldable pub wipe : Key → Key
wipe key = record key { buffer = none }

-- subtle.ConstantTimeCompare
unfoldable pub equals : Key → Key → Bool
unfolding bytes_eq
equals key key2 = bytes_eq (data_of key) (data_of key2)

-- The built-in `copy`: as many bytes as both have.
unfoldable pub copy : Bytes → Bytes → Bytes
copy [] src = []
copy (d ∷ dst) [] = d ∷ dst
copy (d ∷ dst) (s ∷ src) = s ∷ copy dst src

abbrev pub with_data : Bytes → Key → Key
with_data d key = elim key.buffer [ none ↦ key | some old ↦ record { buffer = some d } ]

-- `copy(to.data, from)` for a new key.
abbrev pub copy_to : Bytes → Key → Key
copy_to src key = with_data (copy (data_of key) src) key

unfoldable pub resize : Memory → Key → ℕ → Result KeyError Key
unfolding len
resize m key requested_size =
    if len key == requested_size
    then ok key
    else do resized ← new_blank_key m requested_size; ok (copy_to (data_of key) resized)

unfoldable pub clone : Memory → Key → Result KeyError Key
unfolding len
clone m key = do new_key ← new_blank_key m (len key); ok (copy_to (data_of key) new_key)
