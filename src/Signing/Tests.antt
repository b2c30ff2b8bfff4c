-- ===== src/Signing/Tests.antt =====
-- Runs of neura_l1/signing.py on concrete envelopes. A signature names its signer here.
use neurahash_miner.Base.{ℕ, ◌≡◌, ◌↔◌, refl, none, some, pos}
use neurahash_miner.Signing.Defs.{
  Scheme, Crypto, Commitment, Envelope, EquivocationProof, equivocation_by, not_equivocation,
  different_parents, verify_commitment, verify_equivocation, compare_commitments, recover_signer,
  recover_with, require_supported, is_supported, is_recoverable, normalize_scheme,
}
use neurahash_miner.Signing.Equivocation.{
  IsDoubleCommit, verify_equivocation_exact, verify_commitment-recoverable,
}

abbrev toy : Crypto
toy = record { lower = λ a. a; recover_message = λ c sig. some sig; commit_id = λ c. c.merkle_root }

abbrev commitment : ℕ → ℕ → Commitment
commitment parent root = record {
  height = 4;
  prev_hash = parent;
  proposer = 1;
  beacon = 2;
  parent_checkpoint = 3;
  new_checkpoint = 4;
  work_score = pos 5;
  merkle_root = root;
  tx_root = 0;
}

abbrev envelope : Scheme → ℕ → ℕ → Envelope
envelope scheme parent root = record {
  commitment = commitment parent root;
  signer = 9;
  signature = 11;
  scheme = scheme;
}

abbrev double : EquivocationProof
double = record { a = envelope Scheme.absent 7 1; b = envelope Scheme.secp256k1 7 2 }

accepted : verify_equivocation toy double none ≡ equivocation_by 11
unfolding verify_equivocation verify_commitment recover_signer recover_with require_supported
    is_supported normalize_scheme compare_commitments
accepted = refl

-- an honest commitment on the other side of a reorganisation
reorganised :
    verify_equivocation toy
      (record { a = envelope Scheme.absent 7 1; b = envelope Scheme.absent 8 2 })
      none
    ≡ not_equivocation different_parents
unfolding verify_equivocation verify_commitment recover_signer recover_with require_supported
    is_supported normalize_scheme compare_commitments
reorganised = refl

verify_equivocation_exact_example :
    (verify_equivocation toy double none ≡ equivocation_by 11) ↔ IsDoubleCommit toy double 11
verify_equivocation_exact_example = verify_equivocation_exact toy double 11

ml_dsa_refused : verify_commitment toy (envelope Scheme.ml_dsa_44 7 1) none ≡ none
unfolding is_recoverable normalize_scheme
ml_dsa_refused = verify_commitment-recoverable toy (envelope Scheme.ml_dsa_44 7 1) none refl
