-- ===== src/Actions/Callback/Retry.antt =====
-- What the loop of unwrapProtectorKey returns, and when it returns.
use fscrypt.Common.{
  ℕ, zero, suc, ◌<◌, ◌≡◌, ◌≢◌, refl, ap, ◌∙◌, ◌⊎◌, inl, inr, Bool-cases, eq_ℤ, Bool, true, false,
  Option, none, some, Result, ok, err, arith,
}
use mathlib.Core.Path.{subst}
use fscrypt.Metadata.Source
use fscrypt.Metadata.Types.{ProtectorData, WrappedKeyData}
use fscrypt.Crypto.Key.{Key}
use fscrypt.Crypto.Wrap.{
  CryptoError, bad_auth, no_random, wrapping_key_length, key_error, panic, unwrap,
}
use fscrypt.Actions.Types.{Process}
use fscrypt.Actions.Callback.{
  KeyFunc, CallbackError, out_of_fuel, Round, answer, again, judged, tried, direct, hashed,
  unwrap_wrapped, unwrap_info, hash_passphrase, get_wrapping_key, round, unwrap_loop,
  unwrap_protector_key,
}

Result-cases :
    (r : Result CryptoError Key) → ((k : Key) × (r ≡ ok k)) ⊎ ((e : CryptoError) × (r ≡ err e))
Result-cases (ok k) = inl (k, refl)
Result-cases (err e) = inr (e, refl)

module _ {S K : Type 0} where
  judged_again :
      (st st' : S) (r : Result CryptoError Key) → judged {K = K} st r ≡ again st' → st ≡ st'
  judged_again st st' (ok key) e = absurd (cc)
  judged_again st st' (err bad_auth) e = ground arith
  judged_again st st' (err no_random) e = absurd (cc)
  judged_again st st' (err (wrapping_key_length n)) e = absurd (cc)
  judged_again st st' (err (key_error x)) e = absurd (cc)
  judged_again st st' (err panic) e = absurd (cc)

  judged_ok :
      (st st' : S) (r : Result CryptoError Key) (key : Key)
      → judged {K = K} st r ≡ answer st' (ok key)
      → r ≡ ok key
  judged_ok st st' (ok key') key e = ground arith
  judged_ok st st' (err bad_auth) key e = absurd (cc)
  judged_ok st st' (err no_random) key e = absurd (ground arith)
  judged_ok st st' (err (wrapping_key_length n)) key e = absurd (ground arith)
  judged_ok st st' (err (key_error x)) key e = absurd (ground arith)
  judged_ok st st' (err panic) key e = absurd (ground arith)

  tried_again :
      (process : Process) (info : ProtectorData) (st' : S) (x : S × Result (CallbackError K) Key)
      → tried process info x ≡ again st'
      → (key : Key) × (x ≡ (st', ok key))
  tried_again process info st' (st, err e) h = absurd (cc)
  tried_again process info st' (st, ok key) h =
      let same = judged_again st st' (unwrap_info process info key) h in
      (key, ap (λ z. (z, ok key)) same)

  tried_ok :
      (process : Process) (info : ProtectorData) (st' : S) (x : S × Result (CallbackError K) Key)
      (key : Key)
      → tried process info x ≡ answer st' (ok key)
      → (wrapping_key : Key) × (x.1 ≡ ok wrapping_key)
        × (unwrap_info process info wrapping_key ≡ ok key)
  tried_ok process info st' (st, err e) key h = absurd (ground arith)
  tried_ok process info st' (st, ok wrapping_key) key h =
      (wrapping_key, refl, judged_ok st st' (unwrap_info process info wrapping_key) key h)

  -- No round answers that the loop ran out of rounds.
  judged_ends :
      (st st' : S) (r : Result CryptoError Key)
      → judged {K = K} st r ≡ answer st' (err out_of_fuel)
      → ⊥
  judged_ends st st' (ok key) e = ground arith
  judged_ends st st' (err bad_auth) e = cc
  judged_ends st st' (err no_random) e = ground arith
  judged_ends st st' (err (wrapping_key_length n)) e = ground arith
  judged_ends st st' (err (key_error x)) e = ground arith
  judged_ends st st' (err panic) e = ground arith

  tried_ends :
      (process : Process) (info : ProtectorData) (st' : S) (x : S × Result (CallbackError K) Key)
      → tried process info x ≡ answer st' (err out_of_fuel)
      → x.1 ≡ err out_of_fuel
  tried_ends process info st' (st, err e) h = ground arith
  tried_ends process info st' (st, ok key) h =
      absurd (judged_ends st st' (unwrap_info process info key) h)

  direct_ends : (x : S × Result K Key) → (direct x).1 ≡ err out_of_fuel → ⊥
  direct_ends (st, err e) h = ground arith
  direct_ends (st, ok key) h = cc

  hashed_ends :
      (process : Process) (info : ProtectorData) (x : S × Result K Key)
      → (hashed process info x).1 ≡ err out_of_fuel
      → ⊥
  hashed_ends process info (st, err e) h = ground arith
  hashed_ends process info (st, ok key) h = elim (Result-cases (hash_passphrase process key info)) [
    | inl (k, e) ↦ ground (arith, e, h)
    | inr (x, e) ↦ ground (arith, e, h)
  ]

  direct_ok :
      (x : S × Result K Key) (st' : S) (key : Key)
      → direct x ≡ (st', ok key)
      → (x.0 ≡ st') × ((given : Key) × (x.1 ≡ ok given))
  direct_ok (st, err e) st' key h = absurd (ground (arith, ap (λ r. r.1) h))
  direct_ok (st, ok given) st' key h = (ap (λ r. r.0) h, (given, refl))

  hashed_ok :
      (process : Process) (info : ProtectorData) (x : S × Result K Key) (st' : S) (key : Key)
      → hashed process info x ≡ (st', ok key)
      → (x.0 ≡ st') × ((given : Key) × (x.1 ≡ ok given))
  hashed_ok process info (st, err e) st' key h = absurd (ground (arith, ap (λ r. r.1) h))
  hashed_ok process info (st, ok given) st' key h = (ap (λ r. r.0) h, (given, refl))

module _ {S K : Type 0} (process : Process) (info : ProtectorData) (fn : KeyFunc S K) where
  -- The rounds that lead from a state of the callback to an answer: each round that fails to
  -- authenticate is followed by one that tells the callback that it is a retry.
  pub data Rounds : Bool → S → S × Result (CallbackError K) Key → Type 0 where
    done :
        {retry : Bool} {st st' : S} {r : Result (CallbackError K) Key}
        → round process info fn retry st ≡ answer st' r
        → Rounds retry st (st', r)
    retried :
        {retry : Bool} {st st' : S} {out : S × Result (CallbackError K) Key}
        → round process info fn retry st ≡ again st'
        → Rounds true st' out
        → Rounds retry st out

  -- A protector key, with the wrapping key that the callback gave last.
  abbrev pub Opened : Key → Type 0
  Opened key =
      (retry : Bool) × (before : S) × (after : S) × (wrapping_key : Key) × (w : WrappedKeyData)
      × (get_wrapping_key process info fn retry before ≡ (after, ok wrapping_key))
      × (info.wrapped_key ≡ some w)
      × (unwrap process.primitives process.memory wrapping_key w ≡ ok key)

  round-cases :
      (r : Round S K)
      → ((st : S) × (x : Result (CallbackError K) Key) × (r ≡ answer st x))
        ⊎ ((st : S) × (r ≡ again st))
  round-cases (answer st x) = inl (st, x, refl)
  round-cases (again st) = inr (st, refl)

  -- A wrapping key comes from a key that the callback gave.
  wrapping_key_given :
      (retry : Bool) (st st' : S) (key : Key)
      → get_wrapping_key process info fn retry st ≡ (st', ok key)
      → ((fn info retry st).0 ≡ st') × ((given : Key) × ((fn info retry st).1 ≡ ok given))
  unfolding get_wrapping_key
  wrapping_key_given retry st st' key h = elim (Bool-cases (eq_ℤ info.source Source.raw_key)) [
    | inl raw ↦ direct_ok (fn info retry st) st' key (rw raw at h)
    | inr other ↦ hashed_ok process info (fn info retry st) st' key (rw other at h)
  ]

  module _ (measure : S → ℕ)
      (gives_up : (retry : Bool) (st : S) (key : Key)
        → (fn info retry st).1 ≡ ok key
        → measure (fn info retry st).0 < measure st) where
    again_measure :
        (retry : Bool) (st st' : S)
        → round process info fn retry st ≡ again st'
        → measure st' < measure st
    unfolding round
    again_measure retry st st' h =
        let (key, e) = tried_again process info st' (get_wrapping_key process info fn retry st) h in
        let (same, (given, fine)) = wrapping_key_given retry st st' key e in
        subst (λ z. measure z < measure st) same (gives_up retry st given fine)

    -- If the callback gives only so many keys, the loop returns within as many rounds and one more:
    -- what it returns is where its rounds lead.
    pub loop_returns :
        (fuel : ℕ) (retry : Bool) (st : S)
        → measure st < fuel
        → Rounds retry st (unwrap_loop fuel process info fn retry st)
    unfolding unwrap_loop
    loop_returns zero retry st h = absurd (omega arith)
    loop_returns (suc n) retry st h = elim (round-cases (round process info fn retry st)) [
      | inl (st', x, e) ↦ rw e (done e)
      | inr (st', e) ↦
          rw e (retried e (loop_returns n true st' (omega (arith, again_measure retry st st' e))))
    ]

  unwrapped_info :
      (wrapping_key key : Key) (o : Option WrappedKeyData)
      → unwrap_wrapped process wrapping_key o ≡ ok key
      → (w : WrappedKeyData) × (o ≡ some w)
        × (unwrap process.primitives process.memory wrapping_key w ≡ ok key)
  unwrapped_info wrapping_key key none h = absurd (cc)
  unwrapped_info wrapping_key key (some w) h = (w, refl, h)

  round_ok :
      (retry : Bool) (st st' : S) (key : Key)
      → round process info fn retry st ≡ answer st' (ok key)
      → Opened key
  unfolding round
  round_ok retry st st' key e =
      let got = get_wrapping_key process info fn retry st in
      let (wrapping_key, fine, opened) = tried_ok process info st' got key e in
      let (w, here, secret) = unwrapped_info wrapping_key key info.wrapped_key opened in
      (retry, st, got.0, wrapping_key, w, ap (λ r. (got.0, r)) fine, here, secret)

  -- A key that the rounds end with was unwrapped from the protector's data, by a wrapping key that
  -- was made of what the callback gave.
  pub rounds_lem :
      (retry : Bool) (st st' : S) (key : Key) → Rounds retry st (st', ok key) → Opened key
  rounds_lem retry st st' key rounds = go rounds refl
    where
      go :
          {retry : Bool} {st : S} {out : S × Result (CallbackError K) Key}
          → Rounds retry st out
          → out.1 ≡ ok key
          → Opened key
      go (done {retry = a} {st = s} {st' = t} {r = r} e) h =
          round_ok a s t key (e ∙ ap (λ x. answer t x) h)
      go (retried e rest) h = go rest h

  -- However many rounds are allowed, a key that the loop returns was unwrapped so.
  pub loop_ok :
      (fuel : ℕ) (retry : Bool) (st : S) (key : Key)
      → (unwrap_loop fuel process info fn retry st).1 ≡ ok key
      → Opened key
  unfolding unwrap_loop
  loop_ok zero retry st key h = absurd (ground (arith, h))
  loop_ok (suc n) retry st key h = elim (round-cases (round process info fn retry st)) [
    | inl (st', x, e) ↦
        let same : x ≡ ok key = rw e at h in
        round_ok retry st st' key (e ∙ ap (λ r. answer st' r) same)
    | inr (st', e) ↦ loop_ok n true st' key (rw e at h)
  ]

  wrapping_key_ends :
      (retry : Bool) (st : S) → (get_wrapping_key process info fn retry st).1 ≡ err out_of_fuel → ⊥
  unfolding get_wrapping_key
  wrapping_key_ends retry st h = elim (Bool-cases (eq_ℤ info.source Source.raw_key)) [
    | inl raw ↦ direct_ends (fn info retry st) (rw raw at h)
    | inr other ↦ hashed_ends process info (fn info retry st) (rw other at h)
  ]

  never_out_of_fuel :
      {retry : Bool} {st : S} {out : S × Result (CallbackError K) Key}
      → Rounds retry st out
      → out.1 ≡ err out_of_fuel
      → ⊥
  unfolding round
  never_out_of_fuel (done {retry = a} {st = s} {st' = t} e) h = wrapping_key_ends a s (
      tried_ends process info t (get_wrapping_key process info fn a s) (e ∙ ap (λ x. answer t x) h))
  never_out_of_fuel (retried e rest) h = never_out_of_fuel rest h

  -- If the callback gives only so many keys, unwrapProtectorKey returns within one round more than
  -- that: its rounds start with one that is no retry, and a key that it returns was unwrapped from
  -- the protector's data by a wrapping key made of what the callback gave.
  pub unwrap_protector_key_lem :
      (measure : S → ℕ) (fuel : ℕ) (st : S)
      → ((retry : Bool) (before : S) (key : Key)
          → (fn info retry before).1 ≡ ok key
          → measure (fn info retry before).0 < measure before)
      → measure st < fuel
      → Rounds false st (unwrap_protector_key fuel process info fn st)
        × ((unwrap_protector_key fuel process info fn st).1 ≢ err out_of_fuel)
        × ((key : Key) → (unwrap_protector_key fuel process info fn st).1 ≡ ok key → Opened key)
  unfolding unwrap_protector_key
  unwrap_protector_key_lem measure fuel st gives_up h =
      let out = unwrap_loop fuel process info fn false st in
      let rounds = loop_returns measure gives_up fuel false st h in
      (
        rounds,
        never_out_of_fuel rounds,
        λ key e. rounds_lem false st out.0 key (subst (λ r. Rounds false st (out.0, r)) e rounds),
      )
