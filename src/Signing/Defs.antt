-- ===== src/Signing/Defs.antt =====
-- neura_l1/signing.py and neura_l1/sig_scheme.py: signature schemes, commitments and their
-- envelopes, and the proof of an equivocation.
use neurahash_miner.Base.{ℕ, Bool, true, false, not, Option, none, some, ℤ, ◌==◌, if◌then◌else◌}

-- The scheme tag of a signed record. `absent` is None or "", `other` any unknown name.
pub data Scheme : Type 0 where
  absent secp256k1 ml_dsa_44 hybrid : Scheme
  other : ℕ → Scheme

unfoldable pub normalize_scheme : Scheme → Scheme
normalize_scheme absent = secp256k1
normalize_scheme s = s

-- membership in SUPPORTED_SCHEMES and in RECOVERABLE_SCHEMES
abbrev in_supported : Scheme → Bool
in_supported secp256k1 = true
in_supported ml_dsa_44 = true
in_supported _ = false

abbrev in_recoverable : Scheme → Bool
in_recoverable secp256k1 = true
in_recoverable _ = false

unfoldable pub is_supported : Scheme → Bool
unfolding normalize_scheme
is_supported s = in_supported (normalize_scheme s)

unfoldable pub is_recoverable : Scheme → Bool
unfolding normalize_scheme
is_recoverable s = in_recoverable (normalize_scheme s)

-- `none` is the UnsupportedSchemeError
unfoldable pub require_supported : Scheme → Option Scheme
require_supported s = if is_supported s then some (normalize_scheme s) else none

-- `Commitment.FIELDS`; texts are numbers, and a work score is in fixed-point units
pub record Commitment : Type 0 where
  pub height : ℕ
  pub prev_hash : ℕ
  pub proposer : ℕ
  pub beacon : ℕ
  pub parent_checkpoint : ℕ
  pub new_checkpoint : ℕ
  pub work_score : ℤ
  pub merkle_root : ℕ
  pub tx_root : ℕ

-- A signed envelope. Its 'signer' field is never read by a verification.
pub record Envelope : Type 0 where
  pub commitment : Commitment
  pub signer : ℕ
  pub signature : ℕ
  pub scheme : Scheme

pub record EquivocationProof : Type 0 where
  pub a : Envelope
  pub b : Envelope

-- What the code takes from Python, eth_account and hashlib: `str.lower`, the recovery of an
-- address from a signature over a commitment's bytes, and the sha256 of those bytes.
pub record Crypto : Type 0 where
  pub lower : ℕ → ℕ
  pub recover_message : Commitment → ℕ → Option ℕ
  pub commit_id : Commitment → ℕ

pub data Reason : Type 0 where
  envelope_a_invalid envelope_b_invalid different_signers different_heights : Reason
  different_parents identical_commitment : Reason

pub data Verdict : Type 0 where
  equivocation_by : ℕ → Verdict
  not_equivocation : Reason → Verdict

module _ (crypto : Crypto) where
  open crypto use {lower, recover_message, commit_id}

  -- what `recover_signer` does with the scheme it was given
  unfoldable pub recover_with : Scheme → Envelope → Option ℕ
  recover_with secp256k1 signed = recover_message signed.commitment signed.signature
  recover_with _ signed = none

  -- `none` is any exception
  unfoldable pub recover_signer : Envelope → Option ℕ
  recover_signer signed = elim (require_supported signed.scheme) [
    | none ↦ none
    | some s ↦ recover_with s signed
  ]

  -- `expected_address is not None and recovered.lower() != expected_address.lower()`
  abbrev pub mismatched : ℕ → Option ℕ → Bool
  mismatched recovered none = false
  mismatched recovered (some expected) = not (lower recovered == lower expected)

  -- `some recovered` stands for (True, recovered), `none` for (False, reason)
  unfoldable pub verify_commitment : Envelope → Option ℕ → Option ℕ
  verify_commitment signed expected = elim (recover_signer signed) [
    | none ↦ none
    | some recovered ↦ if mismatched recovered expected then none else some recovered
  ]

  -- the tests on two envelopes that both verify
  unfoldable pub compare_commitments : Commitment → Commitment → ℕ → ℕ → Verdict
  compare_commitments ca cb rec_a rec_b =
      if not (lower rec_a == lower rec_b)
      then not_equivocation different_signers
      else if not (ca.height == cb.height)
      then not_equivocation different_heights
      else if not (ca.prev_hash == cb.prev_hash)
      then not_equivocation different_parents
      else if commit_id ca == commit_id cb
      then not_equivocation identical_commitment
      else equivocation_by rec_a

  unfoldable pub verify_equivocation : EquivocationProof → Option ℕ → Verdict
  verify_equivocation proof expected = elim (verify_commitment proof.a expected) [
    | none ↦ not_equivocation envelope_a_invalid
    | some rec_a ↦ elim (verify_commitment proof.b expected) [
      | none ↦ not_equivocation envelope_b_invalid
      | some rec_b ↦ compare_commitments proof.a.commitment proof.b.commitment rec_a rec_b
    ]
  ]
