-- ===== src/Settlement/Public.antt =====
-- neurahash/chain_settlement.py: what the public check of a chain accepts.
use neurahash_miner.Ledger.Blocks.{apply_block}
use neurahash_miner.Ledger.Defs.{init_state, State}
use neurahash_miner.Base.{
  inr, inl, ℤ, Bool, ℕ, Option, none, some, List, [], ◌∷◌, ◌≡◌, refl, arith, true, false,
  Option-cases,
}
use neurahash_miner.Settlement.Multisig.{
  Decision, Roster, Tally, Proof, collect_settlement_signatures,
}
use neurahash_miner.Settlement.Chain.{
  genesis_prev_hash, replay_blocks, sole_contributor, Settled, Signer, Replayed, replay_from,
  block_fault, verify_block_quorum, whole, stopped,
}
use neurahash_miner.Settlement.Store.{Export, PublicView, verify_public_chain, viewed}
use neurahash_miner.Settlement.Restore.{whole_step}

module _ (ext : Signer) where
  open ext use {hash, recover_bytes, lower, votes}

  -- what a block's quorum authorises: its own recipient, reward and height
  abbrev pub decision_of : Settled → Proof → Decision
  decision_of b q = record {
    recipient = sole_contributor ext b.contributors;
    amount = b.header.reward;
    height = b.header.height;
    delta_cid = q.decision.delta_cid;
  }

  -- the block carries a quorum of the roster for its own reward
  abbrev pub HasQuorum : Roster → Option ℤ → Settled → Type 0
  HasQuorum roster m b =
      (q : Proof) × (v : Tally) × (b.quorum ≡ some q)
      × (collect_settlement_signatures votes (decision_of b q) roster q.sigs m ≡ some v)
      × (v.approved ≡ true)

  abbrev pub SignedBy : ℕ → Settled → Type 0
  SignedBy a b =
      (signer : ℕ) × (recover_bytes (hash b.header) b.sig ≡ some signer) × (lower signer ≡ lower a)

  -- From a head: each block names the one before it, is signed by the address, and carries a
  -- quorum for its own reward.
  abbrev pub AllAuthorised : Roster → Option ℤ → ℕ → ℕ → List Settled → Type 0
  AllAuthorised roster m a head [] = Unit
  AllAuthorised roster m a head (b ∷ bs) =
      (b.header.prev_hash ≡ head)
      × SignedBy a b
      × HasQuorum roster m b
      × AllAuthorised roster m a (hash b.header) bs

  quorum_sound :
      (roster : Roster) (m : Option ℤ) (b : Settled)
      → verify_block_quorum ext b (some roster) m ≡ none
      → HasQuorum roster m b
  unfolding verify_block_quorum
  quorum_sound roster m b e = elim (Option-cases b.quorum) [
    | inl n ↦ absurd (ground (arith, n, e))
    | inr (q, n) ↦
        elim (Option-cases
          (collect_settlement_signatures votes (decision_of b q) roster q.sigs m)) [
            | inl k ↦ absurd (ground (arith, n, k, e))
            | inr (v, k) ↦ (q, v, n, k, ground (arith, n, k, e))
          ]
  ]

  fault_sound :
      (roster : Roster) (m : Option ℤ) (a head : ℕ) (b : Settled)
      → block_fault ext (some (some roster, m)) a head b ≡ none
      → (b.header.prev_hash ≡ head) × SignedBy a b × HasQuorum roster m b
  unfolding block_fault
  fault_sound roster m a head b e = elim (Option-cases (recover_bytes (hash b.header) b.sig)) [
    | inl n ↦ absurd (ground (arith, n, e))
    | inr (signer, n) ↦ (
      ground (arith, n, e),
      (signer, n, ground (arith, n, e)),
      quorum_sound roster m b (ground (arith, n, e)),
    )
  ]

  replay-AllAuthorised :
      (roster : Roster) (m : Option ℤ) (a : ℕ) (bs : List Settled) (s s' : State) (h h' : ℕ)
      → replay_from ext (some (some roster, m)) a bs s h ≡ whole s' h'
      → AllAuthorised roster m a h bs
  unfolding replay_from
  replay-AllAuthorised roster m a [] s s' h h' e = tt
  replay-AllAuthorised roster m a (b ∷ bs) s s' h h' e =
      let (f, (s'', _, k)) =
        whole_step ext (block_fault ext (some (some roster, m)) a h b)
          (apply_block ext.ledger s (record { header = b.header; txs = [] }) b.contributors)
          (λ t. replay_from ext (some (some roster, m)) a bs t (hash b.header)) s' h' e in
      let (p, signed, quorum) = fault_sound roster m a h b f in
      (p, signed, quorum, replay-AllAuthorised roster m a bs s'' s' (hash b.header) h' k)

  viewed_whole :
      (pinned : Bool) (bs : List Settled) (r : Replayed) (v : PublicView)
      → viewed ext pinned bs r ≡ some v
      → (s : State) × (h : ℕ) × (r ≡ whole s h)
  viewed_whole pinned bs (stopped f) v e = absurd (ground (arith, e))
  viewed_whole pinned bs (whole s h) v e = (s, h, refl)

  -- A public chain that is accepted for a pinned address, with a quorum of a pinned roster
  -- required, is linked from the genesis, and each of its blocks is signed by that address and
  -- carries the approval of the roster for its own recipient, reward and height. What the export
  -- says of its coordinator plays no part.
  pub verify_public_chain_sound :
      (e : Export) (pinned : ℕ) (roster : Roster) (m : Option ℤ) (v : PublicView)
      → verify_public_chain ext e (some pinned) (some (some roster, m)) ≡ some v
      → AllAuthorised roster m pinned genesis_prev_hash e.blocks
  unfolding verify_public_chain replay_blocks
  verify_public_chain_sound e pinned roster m v h =
      let (s, head, r) =
        viewed_whole true e.blocks
          (replay_from ext (some (some roster, m)) pinned e.blocks
            (init_state e.genesis_checkpoint false false) genesis_prev_hash)
          v h in
      replay-AllAuthorised roster m pinned e.blocks (init_state e.genesis_checkpoint false false) s
        genesis_prev_hash head r
