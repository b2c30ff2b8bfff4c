-- ===== src/Signing/Equivocation.antt =====
-- What an equivocation proof proves: neura_l1/signing.py.
use neurahash_miner.Base.{
  ℕ, ◌≡◌, ◌≢◌, ◌↔◌, inl, inr, false, Option, none, some, arith, Option-cases,
}
use neurahash_miner.Signing.Defs.{
  Crypto, Commitment, Envelope, EquivocationProof, equivocation_by, recover_signer, recover_with,
  require_supported, is_supported, normalize_scheme, is_recoverable, verify_commitment,
  verify_equivocation, compare_commitments,
}

-- The guilt that a proof has to show: one identity, one height, one parent, two commitments.
pub record IsDoubleCommit (crypto : Crypto) (proof : EquivocationProof) (who : ℕ) : Type 0 where
  pub accomplice : ℕ
  pub first : recover_signer crypto proof.a ≡ some who
  pub second : recover_signer crypto proof.b ≡ some accomplice
  pub one_signer : crypto.lower who ≡ crypto.lower accomplice
  pub one_height : proof.a.commitment.height ≡ proof.b.commitment.height
  pub one_parent : proof.a.commitment.prev_hash ≡ proof.b.commitment.prev_hash
  pub distinct : crypto.commit_id proof.a.commitment ≢ crypto.commit_id proof.b.commitment

module _ (crypto : Crypto) where
  verify_commitment-none :
      (signed : Envelope) → verify_commitment crypto signed none ≡ recover_signer crypto signed
  unfolding verify_commitment
  verify_commitment-none signed = ground arith

  compare_commitments_sound :
      (ca cb : Commitment) (ra rb who : ℕ)
      → compare_commitments crypto ca cb ra rb ≡ equivocation_by who
      → (ra ≡ who)
        × (crypto.lower ra ≡ crypto.lower rb)
        × (ca.height ≡ cb.height)
        × (ca.prev_hash ≡ cb.prev_hash)
        × (crypto.commit_id ca ≢ crypto.commit_id cb)
  unfolding compare_commitments
  compare_commitments_sound ca cb ra rb who h = ground arith

  compare_commitments_complete :
      (ca cb : Commitment) (ra rb : ℕ)
      → crypto.lower ra ≡ crypto.lower rb
      → ca.height ≡ cb.height
      → ca.prev_hash ≡ cb.prev_hash
      → crypto.commit_id ca ≢ crypto.commit_id cb
      → compare_commitments crypto ca cb ra rb ≡ equivocation_by ra
  unfolding compare_commitments
  compare_commitments_complete ca cb ra rb s h p d = ground arith

  verify_equivocation_sound :
      (proof : EquivocationProof) (who : ℕ)
      → verify_equivocation crypto proof none ≡ equivocation_by who
      → IsDoubleCommit crypto proof who
  unfolding verify_equivocation verify_commitment
  verify_equivocation_sound proof who h = elim (Option-cases (recover_signer crypto proof.a)) [
    | inl e ↦ ground arith
    | inr (ra, ea) ↦ elim (Option-cases (recover_signer crypto proof.b)) [
      | inl e ↦ ground arith
      | inr (rb, eb) ↦
          let (w, s, t, p, d) =
            compare_commitments_sound proof.a.commitment proof.b.commitment ra rb who
              (ground arith) in
          record {
            accomplice = rb;
            first = ground arith;
            second = eb;
            one_signer = ground arith;
            one_height = t;
            one_parent = p;
            distinct = d;
          }
    ]
  ]

  verify_equivocation_complete :
      (proof : EquivocationProof) (who : ℕ)
      → IsDoubleCommit crypto proof who
      → verify_equivocation crypto proof none ≡ equivocation_by who
  unfolding verify_equivocation verify_commitment
  verify_equivocation_complete proof who g = ground (
    arith,
    compare_commitments_complete proof.a.commitment proof.b.commitment who g.accomplice g.one_signer
        g.one_height g.one_parent g.distinct,
  )

  -- A proof is accepted, with the signer that it names, exactly when it shows a double
  -- commitment: both envelopes recover to one identity, at one height and on one parent, with
  -- different commitment ids.
  pub verify_equivocation_exact :
      (proof : EquivocationProof) (who : ℕ)
      → (verify_equivocation crypto proof none ≡ equivocation_by who)
        ↔ IsDoubleCommit crypto proof who
  verify_equivocation_exact proof who =
      (verify_equivocation_sound proof who, verify_equivocation_complete proof who)

  -- Only an envelope with a recoverable scheme (secp256k1, or no tag at all) is ever accepted.
  pub verify_commitment-recoverable :
      (signed : Envelope) (expected : Option ℕ)
      → is_recoverable signed.scheme ≡ false
      → verify_commitment crypto signed expected ≡ none
  unfolding verify_commitment recover_signer recover_with require_supported is_supported
      is_recoverable normalize_scheme
  verify_commitment-recoverable signed expected h = ground arith
