-- ===== src/Signing.antt =====
-- neura_l1/signing.py and neura_l1/sig_scheme.py.
mod Defs
pub mod Equivocation
mod Tests
pub use Defs.{
  Scheme, absent, secp256k1, ml_dsa_44, hybrid, other, Commitment, Envelope, EquivocationProof,
  Crypto, Reason, envelope_a_invalid, envelope_b_invalid, different_signers, different_heights,
  different_parents, identical_commitment, Verdict, equivocation_by, not_equivocation, mismatched,
}
unfoldable pub use Defs.{
  normalize_scheme, is_supported, is_recoverable, require_supported, recover_with, recover_signer,
  verify_commitment, compare_commitments, verify_equivocation,
}
