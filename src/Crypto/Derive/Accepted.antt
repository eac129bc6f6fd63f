-- ===== src/Crypto/Derive/Accepted.antt =====
-- What ComputeKeyDescriptor and PassphraseHash make is what the checks of the metadata accept.
use fscrypt.Common.{
  ℕ, ◌*◌, ◌-◌, append-nil, take_beyond, ◌≤◌, ◌≡◌, ◌≢◌, refl, sym, ap, ◌∙◌, ◌⊎◌, inl, inr, ℤ, pos,
  negsuc, to_uint, InRange, [], ◌∷◌, ◌++◌, some, Bytes, length, take, length-take, replicate, ok,
  arith,
}
use fscrypt.Hex.{encode}
use fscrypt.Metadata.Types.{HashingCosts, EncryptionOptions}
use fscrypt.Metadata.Checks.{check_costs, max_uint32, max_parallelism}
use fscrypt.Metadata.Checks.Costs.{check_costs_iff}
use fscrypt.Metadata.Checks.PolicyForm.{DescriptorFits}
use fscrypt.Crypto.Key.{Memory, Key, data_of, copy_to}
use fscrypt.Crypto.Key.Buffer.{HasMemory, data-new_blank_key, data-copy_to, copy-replicate}
use fscrypt.Crypto.Derive.{
  Hashes, compute_key_descriptor, compute_key_descriptor_v1, compute_key_descriptor_v2,
  key_identifier_info, passphrase_hash,
}

-- The lengths of the digests, the entropy of HKDF, and the costs for which Argon2id does not panic.
pub record AreLawful (h : Hashes) : Type 0 where
  pub sha512_length : (text : Bytes) → length (h.sha512 text) ≡ 64
  pub hkdf_length :
      (key info : Bytes)
      → (out : Bytes) × (h.hkdf_sha512 key info 16 ≡ some out) × (length out ≡ 16)
  pub argon2_length :
      (passphrase salt : Bytes) (t m p n : ℕ)
      → 1 ≤ t
      → 1 ≤ p
      → (out : Bytes) × (h.argon2 passphrase salt t m p n ≡ some out) × (length out ≡ n)

length-encode : (s : Bytes) → length (encode s) ≡ 2 * length s
unfolding encode
length-encode [] = refl
length-encode (b ∷ s) = omega (arith, length-encode s)

whole : (out : Bytes) → length out ≡ 32 → take 32 out ++ replicate (32 - length out) 0 ≡ out
whole out e = rw (e, append-nil (take 32 out)) (take_beyond 32 out (omega (arith, e)))

to_uint_fits : (n : ℕ) → n ≤ max_uint32 → to_uint 32 (pos n) ≡ n
unfolding to_uint
to_uint_fits n h = omega (arith, h)

in_range :
    (lo : ℕ) (x : ℤ) → InRange lo max_uint32 x → (n : ℕ) × (x ≡ pos n) × (lo ≤ n) × (n ≤ max_uint32)
in_range lo (pos n) (low, high) = (n, refl, low, high)
in_range lo (negsuc n) impossible = absurd impossible

threads : (x : ℤ) → InRange 1 max_parallelism x ⊎ (to_uint 8 x ≢ 0) → 1 ≤ to_uint 8 x
unfolding to_uint
threads (pos n) (inl (low, high)) = ground arith
threads (negsuc n) (inl impossible) = absurd impossible
threads (pos n) (inr ne) = ground arith
threads (negsuc n) (inr ne) = ground arith

-- What the accepted costs are, as Argon2 takes them.
accepted_costs :
    (costs : HashingCosts)
    → check_costs costs ≡ ok tt
    → (1 ≤ to_uint 8 costs.parallelism)
      × InRange 1 max_uint32 costs.time
      × InRange (8 * to_uint 8 costs.parallelism) max_uint32 costs.memory
accepted_costs costs accepted =
    let (p, t, m) = (check_costs_iff costs).0 accepted in
    (threads costs.parallelism (elim p [ inl r ↦ inl r | inr (fixed, ne) ↦ inr ne ]), t, m)

module _ (h : Hashes) (lawful : AreLawful h) where
  -- For a version that the options accept, ComputeKeyDescriptor succeeds, and its descriptor has the
  -- length that PolicyData.CheckValidity asks for under that version.
  pub descriptor_fits :
      (key : Key) (e : EncryptionOptions)
      → (e.policy_version ≡ pos 1) ⊎ (e.policy_version ≡ pos 2)
      → (d : Bytes) × (compute_key_descriptor h key e.policy_version ≡ ok d) × DescriptorFits e d
  unfolding compute_key_descriptor compute_key_descriptor_v1 compute_key_descriptor_v2
  descriptor_fits key e (inl v1) =
      let digest = h.sha512 (h.sha512 (data_of key)) in
      let long = lawful.sha512_length (h.sha512 (data_of key)) in
      (
        encode (take 8 digest),
        rw v1 refl,
        inl (
          rw v1 refl,
          length-encode (take 8 digest)
              ∙ ap (λ i. 2 * i) (length-take 8 digest (omega (arith, long))),
        ),
      )
  descriptor_fits key e (inr v2) =
      let (out, read, long) = lawful.hkdf_length (data_of key) key_identifier_info in
      (encode out, rw (v2, read) refl, inr (rw v2 refl, length-encode out ∙ ap (λ i. 2 * i) long))

  -- The descriptor of a key of a protector has 16 digits.
  pub descriptor_v1_length :
      (key : Key) (d : Bytes) → compute_key_descriptor h key (pos 1) ≡ ok d → length d ≡ 16
  unfolding compute_key_descriptor compute_key_descriptor_v1
  descriptor_v1_length key d e =
      let digest = h.sha512 (h.sha512 (data_of key)) in
      let long = lawful.sha512_length (h.sha512 (data_of key)) in
      let same : encode (take 8 digest) ≡ d = ground (arith, e) in
      ap length (sym same)
      ∙ length-encode (take 8 digest)
      ∙ ap (λ i. 2 * i) (length-take 8 digest (omega (arith, long)))

  -- With costs that HashingCosts.CheckValidity accepts, PassphraseHash does not panic: the key is
  -- the whole output of Argon2id, whose time and memory are those of the costs, not truncated.
  pub passphrase_hash_lem :
      (mem : Memory)
      → HasMemory mem
      → (passphrase : Key) (salt : Bytes) (costs : HashingCosts) → check_costs costs ≡ ok tt
      → (t : ℕ) × (m : ℕ) × (out : Bytes) × (hash : Key) × (costs.time ≡ pos t)
        × (costs.memory ≡ pos m)
        × (h.argon2 (data_of passphrase) salt t m (to_uint 8 costs.parallelism) 32 ≡ some out)
        × (passphrase_hash h mem passphrase salt costs ≡ ok hash)
        × (data_of hash ≡ out)
  unfolding passphrase_hash
  passphrase_hash_lem mem has passphrase salt costs accepted =
      let (time, et, t_low, t_high) = in_range 1 costs.time (accepted_costs costs accepted).1 in
      let (memory, em, m_low, m_high) =
        in_range (8 * to_uint 8 costs.parallelism) costs.memory (accepted_costs costs accepted).2 in
      let p = to_uint 8 costs.parallelism in
      let (out, hashed, long) =
        lawful.argon2_length (data_of passphrase) salt time memory p 32 t_low
          (accepted_costs costs accepted).0 in
      let (blank, made, zeros) = data-new_blank_key mem has 32 in
      (
        time,
        memory,
        out,
        copy_to out blank,
        et,
        em,
        hashed,
        rw (et, em, to_uint_fits time t_high, to_uint_fits memory m_high, hashed, made) refl,
        data-copy_to 32 out blank zeros ∙ copy-replicate 32 out ∙ whole out long,
      )
