-- ===== src/Clock/Opening.antt =====
-- neurahash/diloco_clock.py: a commitment is opened by its own reveal, and by no other nonce.
use neurahash_miner.Base.{inr, inl, Option-cases, ℕ, true, some, ◌≡◌, arith}
use neurahash_miner.Clock.Defs.{
  Hashes, Sealed, make_commit, commit_envelope, reveal_of, verify_reveal, commit_digest,
}

module _ (h : Hashes) where
  open h use {norm}

  -- A commitment that is made is opened by its own reveal, where normalising a signer twice is
  -- normalising it once.
  pub make_commit-opens :
      (round signer nonce : ℕ) (s : Sealed)
      → ((a : ℕ) → norm (norm a) ≡ norm a)
      → make_commit h round signer nonce ≡ some s
      → verify_reveal h (commit_envelope h s) (reveal_of h s) ≡ true
  unfolding make_commit commit_envelope reveal_of verify_reveal commit_digest
  make_commit-opens round signer nonce s i e =
      elim (Option-cases (h.digest round (norm signer) nonce)) [
        | inl n ↦ ground (arith, n, e)
        | inr (d, n) ↦ ground (arith, n, e, i signer, i (norm signer))
      ]
