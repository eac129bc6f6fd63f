-- ===== src/Crypto/Reader/Complete.antt =====
-- NewKeyFromReader reads all that the reader delivers, and ends.
use mathlib.Core.Path.{subst}
use fscrypt.Common.{
  ℕ, zero, suc, ◌+◌, ◌-◌, ◌*◌, ◌≤◌, ◌<◌, ◌≡◌, refl, sym, ap, ◌∙◌, List, [], ◌∷◌, ◌++◌, append_assoc,
  append-nil, Option, none, some, Bytes, length, take, drop, replicate, leb, ◌==◌, length-append,
  length-replicate, take-append-drop, length-take, length-drop, take-append_le, take_exact,
  take_beyond, Result, ok, err, arith, Bool-cases, inl, inr,
}
use fscrypt.Crypto.Key.{Memory, Key, KeyError, read_failed, data_of, len, resize, with_data}
use fscrypt.Crypto.Key.Buffer.{HasMemory, data-new_blank_key, data-resize}
use fscrypt.Crypto.Reader.{
  Status, more, eof, failed, Piece, read, write_at, finished, again, after_read, read_loop, measure,
  new_key_from_reader,
}

-- What a reader delivers up to its end, or the error that it meets before.
abbrev pub join_status : Bytes → Status → Result KeyError Bytes → Result KeyError Bytes
join_status b more (ok rest) = ok (b ++ rest)
join_status b more (err e) = err e
join_status b eof rest = ok b
join_status b (failed e) rest = err (read_failed e)

pub contents : List Piece → Result KeyError Bytes
contents [] = ok []
contents (p ∷ ps) = join_status p.bytes p.status (contents ps)

join_status-append :
    (a b : Bytes) (st : Status) (r : Result KeyError Bytes)
    → join_status a more (join_status b st r) ≡ join_status (a ++ b) st r
join_status-append a b more (ok rest) = ap ok (sym (append_assoc a b rest))
join_status-append a b more (err e) = refl
join_status-append a b eof r = refl
join_status-append a b (failed e) r = refl

-- A Read delivers the front of the contents.
contents-read :
    (n : ℕ) (ps : List Piece)
    → contents ps ≡ join_status (read n ps).bytes (read n ps).status (contents (read n ps).rest)
unfolding contents read
contents-read n [] = refl
contents-read n (p ∷ ps) = elim (Bool-cases (leb (length p.bytes) n)) [
  | inl fits ↦ rw fits refl
  | inr long ↦ rw long (
      sym (
        join_status-append (take n p.bytes) (drop n p.bytes) p.status (contents ps)
        ∙ ap (λ b. join_status b p.status (contents ps)) (take-append-drop n p.bytes)))
]

length-read : (n : ℕ) (ps : List Piece) → length (read n ps).bytes ≤ n
unfolding read
length-read n [] = omega arith
length-read n (p ∷ ps) = ground (arith, length-take n p.bytes)

measure-read :
    (n : ℕ) (ps : List Piece)
    → 0 < n
    → (read n ps).status ≡ more
    → measure (read n ps).rest < measure ps
unfolding read
measure-read n [] h e = absurd (ground arith)
measure-read n (p ∷ ps) h e = ground (arith, length-drop n p.bytes)

module _ (d : Bytes) (total : ℕ) (b : Bytes) (fits : total + length b ≤ length d) where
  -- The bytes read so far, after one more Read.
  take-write_at : take (total + length b) (write_at d total b) ≡ take total d ++ b
  take-write_at =
      let front = length-take total d (omega arith) in
      sym (ap (take (total + length b)) (append_assoc (take total d) b (drop (total + length b) d)))
      ∙ take_exact (total + length b) (take total d ++ b) (drop (total + length b) d)
          (omega (arith, length-append (take total d) b))

  length-write_at : length (write_at d total b) ≡ length d
  length-write_at = omega (
    arith,
    length-append (take total d) (b ++ drop (total + length b) d),
    length-append b (drop (total + length b) d),
    length-take total d,
    length-drop (total + length b) d,
  )

data-with_data : (d : Bytes) (key : Key) → 0 < length (data_of key) → data_of (with_data d key) ≡ d
data-with_data d key h = go key.buffer h
  where
    go :
        (o : Option Bytes)
        → 0 < length (data_of (record { buffer = o }))
        → data_of (with_data d (record { buffer = o })) ≡ d
    go none h = absurd (omega arith)
    go (some old) h = refl

-- What the loop returns for the contents that are left.
abbrev pub Delivers : Result KeyError Bytes → Result KeyError Key → Type 0
Delivers (ok c) r = (key : Key) × (r ≡ ok key) × (data_of key ≡ c)
Delivers (err e) r = r ≡ err e

module _ (m : Memory) (h : HasMemory m) (key : Key) (total : ℕ) where
  abbrev Continues : Type 0
  Continues =
      (key' : Key) × (after_read m key total more ≡ again key' total)
      × (take total (data_of key') ≡ take total (data_of key))
      × (total < length (data_of key'))

  -- The key grows if it is full, and keeps the bytes read so far.
  after_more : total ≤ length (data_of key) → 0 < length (data_of key) → Continues
  unfolding after_read
  after_more le pos = elim (Bool-cases (len key == total)) [
    | inl full ↦
        let (big, made, d) = data-resize m h key (2 * len key) in
        let size : len key ≡ length (data_of key) = unfold len in refl in
        let whole = take_beyond (2 * len key) (data_of key) (omega arith) in
        let zeros : Bytes = replicate (2 * len key - length (data_of key)) 0 in
        let d' : data_of big ≡ data_of key ++ zeros = d ∙ ap (λ s. s ++ zeros) whole in
        (
          big,
          ground (arith, made),
          ap (take total) d' ∙ take-append_le total (data_of key) zeros le,
          rw d' (
              omega (
                arith,
                length-append (data_of key) zeros,
                length-replicate {A = ℕ} (2 * len key - length (data_of key)) 0,
              )),
        )
    | inr room ↦ (key, ground arith, refl, unfold len in ground arith)
  ]

  after_eof :
      total ≤ length (data_of key) → Delivers (ok (take total (data_of key))) (resize m key total)
  after_eof le =
      let (cut, made, d) = data-resize m h key total in
      let none_left : total - length (data_of key) ≡ 0 = omega arith in
      (cut, made, d ∙ rw none_left (append-nil (take total (data_of key))))

join_nothing : (r : Result KeyError Bytes) → join_status [] more r ≡ r
join_nothing (ok rest) = refl
join_nothing (err e) = refl

module _ (m : Memory) (h : HasMemory m) where
  -- One round: what a Read returned, and the rest of the loop on what it left.
  round :
      (fuel : ℕ) (key : Key) (total : ℕ) (b : Bytes) (st : Status) (rest : List Piece)
      → total < length (data_of key)
      → total + length b ≤ length (data_of key)
      → ((key' : Key) (next : ℕ)
          → st ≡ more
          → next < length (data_of key')
          → Delivers
              (join_status (take next (data_of key')) more (contents rest))
              (read_loop m fuel key' next rest))
      → Delivers
          (join_status (take total (data_of key)) more (join_status b st (contents rest)))
          (elim (after_read m
            (with_data (write_at (data_of key) total b) key)
            (total + length b)
            st) [ finished result ↦ result | again key'' next ↦ read_loop m fuel key'' next rest ])
  round fuel key total b more rest lt fits ih =
      let key' = with_data (write_at (data_of key) total b) key in
      let d = data-with_data (write_at (data_of key) total b) key (omega arith) in
      let l = length-write_at (data_of key) total b fits in
      let (key'', made, same, room) =
        after_more m h key' (total + length b) (rw (d, l) fits) (rw (d, l) (omega arith)) in
      let front =
        same ∙ ap (take (total + length b)) d ∙ take-write_at (data_of key) total b fits in
      rw (made, join_status-append (take total (data_of key)) b more (contents rest))
        (rw front at (ih key'' (total + length b) refl room))
  round fuel key total b eof rest lt fits ih =
      let key' = with_data (write_at (data_of key) total b) key in
      let d = data-with_data (write_at (data_of key) total b) key (omega arith) in
      let l = length-write_at (data_of key) total b fits in
      let (cut, made, d') = after_eof m h key' (total + length b) (rw (d, l) fits) in
      (
        cut,
        unfold after_read in made,
        d' ∙ ap (take (total + length b)) d ∙ take-write_at (data_of key) total b fits,
      )
  round fuel key total b (failed e) rest lt fits ih = unfold after_read in refl

  loop_lem :
      (fuel : ℕ) (key : Key) (total : ℕ) (ps : List Piece)
      → measure ps < fuel
      → total < length (data_of key)
      → Delivers
          (join_status (take total (data_of key)) more (contents ps))
          (read_loop m fuel key total ps)
  unfolding read_loop
  loop_lem zero key total ps f lt = absurd (omega arith)
  loop_lem (suc fuel) key total ps f lt =
      let n : ℕ = len key - total in
      let size : len key ≡ length (data_of key) = unfold len in refl in
      rw (contents-read n ps) (
        round fuel key total (read n ps).bytes (read n ps).status (read n ps).rest lt
          (omega (arith, length-read n ps))
          λ key' next e room.
            loop_lem fuel key' next (read n ps).rest
              (omega (arith, measure-read n ps (omega arith) e)) room)

  -- With memory to be had, NewKeyFromReader returns a key of exactly the bytes that the reader
  -- delivers up to its end, whatever the pieces and the page size, or the reader's error.
  pub new_key_from_reader_lem :
      (page_size : ℕ) (ps : List Piece)
      → 0 < page_size
      → Delivers (contents ps) (new_key_from_reader m page_size ps)
  unfolding new_key_from_reader
  new_key_from_reader_lem page_size ps pos =
      let (key, made, zeros) = data-new_blank_key m h page_size in
      let all =
        loop_lem (suc (measure ps)) key 0 ps (omega arith)
          (rw zeros (omega (arith, length-replicate {A = ℕ} page_size 0))) in
      rw made (
        subst (λ c. Delivers c (read_loop m (suc (measure ps)) key 0 ps))
          (join_nothing (contents ps)) all)
