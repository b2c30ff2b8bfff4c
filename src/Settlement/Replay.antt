-- ===== src/Settlement/Replay.antt =====
-- neurahash/chain_settlement.py: what is settled replays, to the state and the head it made.
use mathlib.Core.Path.{subst}
use neurahash_miner.Settlement.Multisig.{Roster, Proof}
use neurahash_miner.Base.{
  ◌==◌, false, if_intro, ℕ, Option, none, some, List, [], ◌∷◌, ◌++◌, Dict, ℤ, ◌≡◌, refl, ◌∙◌, arith,
}
use neurahash_miner.Settlement.Chain.{
  genesis_prev_hash, settle_header, extended, positive_weights, block_fault, Chain, Settled, Signer,
  Replayed, Broken, settle, mark_paid, new_chain, replay_from, unless_fault, then_replay, whole,
}
use neurahash_miner.Ledger.Blocks.{apply_block, applied, raised, Outcome}
use neurahash_miner.Ledger.Defs.{init_state, State}

-- the chains that a coordinator's settlements and payment marks make
pub data Made (ext : Signer) (coord genesis : ℕ) : Chain → Type 0 where
  fresh : Made ext coord genesis (new_chain ext coord genesis)
  settled :
      {c c' : Chain} (height : ℕ) (pot : ℤ) (ex_by : Dict ℤ) (timestamp : ℕ) (quorum : Option Proof)
      → Made ext coord genesis c
      → settle ext height pot ex_by timestamp quorum c ≡ applied c'
      → Made ext coord genesis c'
  marked :
      {c : Chain} (cid : ℕ)
      → Made ext coord genesis c
      → Made ext coord genesis (mark_paid ext cid c)

module _ (ext : Signer) where
  open ext use {hash, address, sign, recover_bytes, lower}

  go_on :
      (f : Option Broken) (o : Outcome State) (k k' : State → Replayed) (s' : State) (h' : ℕ)
      (t : Replayed)
      → ((s : State) → k s ≡ whole s' h' → k' s ≡ t)
      → unless_fault ext f (then_replay ext o k) ≡ whole s' h'
      → unless_fault ext f (then_replay ext o k') ≡ t
  go_on (some b) o k k' s' h' t step e = ground (arith, e)
  go_on none (raised x) k k' s' h' t step e = ground (arith, e)
  go_on none (applied s) k k' s' h' t step e = step s e

  pub replay_from-append :
      (q : Option (Option Roster × Option ℤ)) (a : ℕ) (bs cs : List Settled) (s s' : State)
      (h h' : ℕ)
      → replay_from ext q a bs s h ≡ whole s' h'
      → replay_from ext q a (bs ++ cs) s h ≡ replay_from ext q a cs s' h'
  unfolding replay_from
  replay_from-append q a [] cs s s' h h' e = ground (arith, e)
  replay_from-append q a (b ∷ bs) cs s s' h h' e =
      go_on (block_fault ext q a h b)
        (apply_block ext.ledger s (record { header = b.header; txs = [] }) b.contributors)
        (λ s'. replay_from ext q a bs s' (hash b.header))
        (λ s'. replay_from ext q a (bs ++ cs) s' (hash b.header)) s' h'
        (replay_from ext q a cs s' h')
        (λ s'' e'. replay_from-append q a bs cs s'' s' (hash b.header) h' e') e

  pub extended_inv :
      (c : Chain) (b : Settled) (o : Outcome State) (c' : Chain)
      → extended ext c b o ≡ applied c'
      → (s : State) × (o ≡ applied s)
        × (record c { state = s; head = hash b.header; blocks = c.blocks ++ (b ∷ []) } ≡ c')
  extended_inv c b (raised e) c' h = absurd (ground (arith, h))
  extended_inv c b (applied s) c' h = (s, refl, ground (arith, h))

  one_block :
      (c : Chain) (b : Settled) (s : State)
      → b.header.prev_hash ≡ c.head
      → recover_bytes (hash b.header) b.sig ≡ some (address c.coord)
      → apply_block ext.ledger c.state (record { header = b.header; txs = [] }) b.contributors
        ≡ applied s
      → replay_from ext none (address c.coord) (b ∷ []) c.state c.head ≡ whole s (hash b.header)
  unfolding replay_from block_fault
  one_block c b s p r a = ground (arith, p, r, a)

  abbrev pub Replays : Chain → Type 0
  Replays c =
      replay_from ext none (address c.coord) c.blocks (init_state c.genesis_checkpoint false false)
        genesis_prev_hash
      ≡ whole c.state c.head

  settle-Replays :
      (height : ℕ) (pot : ℤ) (ex_by : Dict ℤ) (timestamp : ℕ) (quorum : Option Proof) (c c' : Chain)
      → ((account digest : ℕ) → recover_bytes digest (sign account digest) ≡ some (address account))
      → settle ext height pot ex_by timestamp quorum c ≡ applied c'
      → Replays c
      → Replays c'
  unfolding settle
  settle-Replays height pot ex_by timestamp quorum c c' r e h =
      let contributors = positive_weights ex_by in
      let header = settle_header ext c height pot contributors timestamp quorum in
      let b : Settled = record {
        header = header;
        contributors = contributors;
        sig = sign c.coord (hash header);
        quorum = quorum;
      } in
      let (s, o, p) =
        extended_inv c b
          (apply_block ext.ledger c.state (record { header = header; txs = [] }) contributors) c'
          e in
      subst Replays p (
        replay_from-append none (address c.coord) c.blocks (b ∷ [])
          (init_state c.genesis_checkpoint false false) c.state genesis_prev_hash c.head h
        ∙ one_block c b s refl (r c.coord (hash header)) o)

  -- A chain made by settlements and payment marks replays whole, to its own state and head, where
  -- signatures recover to their accounts.
  pub Made-Replays :
      (coord genesis : ℕ) {c : Chain}
      → ((account digest : ℕ) → recover_bytes digest (sign account digest) ≡ some (address account))
      → Made ext coord genesis c
      → Replays c
  unfolding new_chain mark_paid replay_from
  Made-Replays coord genesis r fresh = refl
  Made-Replays coord genesis r (settled {c} {c'} height pot ex_by timestamp quorum m e) =
      settle-Replays height pot ex_by timestamp quorum c c' r e (Made-Replays coord genesis r m)
  Made-Replays coord genesis r (marked {c} cid m) =
      if_intro Replays (cid == 0) (Made-Replays coord genesis r m) (Made-Replays coord genesis r m)
