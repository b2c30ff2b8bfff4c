-- ===== src/Settlement/Restore.antt =====
-- neurahash/chain_settlement.py: a checkpoint restores its chain, and what a public check accepts.
use neurahash_miner.Ledger.Defs.{init_state, State}
use neurahash_miner.Settlement.Multisig.{Roster}
use neurahash_miner.Ledger.Blocks.{raised, applied, apply_block, Outcome}
use neurahash_miner.Base.{
  false, ap, true, ℤ, ℕ, Option, none, some, List, [], ◌∷◌, ◌≡◌, refl, sym, arith,
}
use neurahash_miner.Settlement.Chain.{
  genesis_prev_hash, then_replay, unless_fault, replay_blocks, Chain, Settled, Signer, Replayed,
  Broken, replay_from, block_fault, whole,
}
use neurahash_miner.Settlement.Store.{to_state, from_state, last_head}
use neurahash_miner.Settlement.Replay.{Made, Made-Replays}

module _ (ext : Signer) where
  open ext use {hash, address, sign, recover_bytes, lower}

  pub whole_step :
      (f : Option Broken) (o : Outcome State) (k : State → Replayed) (s : State) (h : ℕ)
      → unless_fault ext f (then_replay ext o k) ≡ whole s h
      → (f ≡ none) × ((s' : State) × (o ≡ applied s') × (k s' ≡ whole s h))
  whole_step (some b) o k s h e = absurd (ground (arith, e))
  whole_step none (raised x) k s h e = absurd (ground (arith, e))
  whole_step none (applied s') k s h e = (refl, (s', refl, e))

  replay-head :
      (q : Option (Option Roster × Option ℤ)) (a : ℕ) (bs : List Settled) (s s' : State) (h h' : ℕ)
      → replay_from ext q a bs s h ≡ whole s' h'
      → h' ≡ last_head ext h bs
  unfolding replay_from
  replay-head q a [] s s' h h' e = ground (arith, e)
  replay-head q a (b ∷ bs) s s' h h' e =
      let (_, (s'', _, k)) =
        whole_step (block_fault ext q a h b)
          (apply_block ext.ledger s (record { header = b.header; txs = [] }) b.contributors)
          (λ t. replay_from ext q a bs t (hash b.header)) s' h' e in
      replay-head q a bs s'' s' (hash b.header) h' k

  -- Restoring the checkpoint of a chain that settlements and payment marks made gives the chain
  -- itself, where the checkpoint carries the key and signatures recover to their accounts.
  pub from_state-to_state :
      (coord genesis : ℕ) (verify_only : ℕ → ℕ) {c : Chain}
      → ((account digest : ℕ) → recover_bytes digest (sign account digest) ≡ some (address account))
      → Made ext coord genesis c
      → from_state ext verify_only (to_state ext true c) none ≡ some c
  unfolding from_state to_state replay_blocks
  from_state-to_state coord genesis verify_only {c} r m =
      let e = Made-Replays ext coord genesis r m in
      rw e (
        ap (λ h. some (record c { head = h }))
          (sym (
            replay-head none (address c.coord) c.blocks
              (init_state c.genesis_checkpoint false false) c.state genesis_prev_hash c.head e)))
