-- ===== src/Settlement/Store.antt =====
-- neurahash/chain_settlement.py: the checkpoint of a settlement chain, and the public view of it.
use neurahash_miner.Settlement.Multisig.{Roster}
use neurahash_miner.Base.{
  ℕ, Bool, true, false, ◌==◌, if◌then◌else◌, Option, none, some, List, [], ◌∷◌, Dict, ℤ,
}
use neurahash_miner.Settlement.Chain.{
  whole, stopped, Chain, Settled, Signer, Replayed, replay_blocks, genesis_prev_hash,
}

-- what `to_state` serializes: the key, or the address alone
pub record Saved : Type 0 where
  pub coord_key : Option ℕ
  pub coord_address : Option ℕ
  pub genesis_checkpoint : ℕ
  pub blocks : List Settled
  pub paid_cids : List ℕ

-- `public_state`
pub record Export : Type 0 where
  pub coord_address : Option ℕ
  pub genesis_checkpoint : ℕ
  pub blocks : List Settled

-- what `verify_public_chain` returns where the chain is accepted
pub record PublicView : Type 0 where
  pub balances : Dict ℤ
  pub minted : ℤ
  pub height : ℕ
  pub pinned : Bool

module _ (ext : Signer) where
  open ext use {hash, address, lower}

  unfoldable pub to_state : Bool → Chain → Saved
  to_state include_key c = record {
    coord_key = if include_key then some c.coord else none;
    coord_address = if include_key then none else some (address c.coord);
    genesis_checkpoint = c.genesis_checkpoint;
    blocks = c.blocks;
    paid_cids = c.paid_cids;
  }

  unfoldable pub public_state : Chain → Export
  public_state c = record {
    coord_address = some (address c.coord);
    genesis_checkpoint = c.genesis_checkpoint;
    blocks = c.blocks;
  }

  -- the head after the blocks
  abbrev pub last_head : ℕ → List Settled → ℕ
  last_head head [] = head
  last_head head (b ∷ bs) = last_head (hash b.header) bs

  abbrev pub first_some : Option ℕ → Option ℕ → Option ℕ
  first_some none k = k
  first_some (some a) k = some a

  -- The account of the chain: from the key that is given or embedded, if it resolves to the
  -- address of the chain; else one that only verifies. `verify_only` makes such an account.
  abbrev pub account_of : (ℕ → ℕ) → Option ℕ → Option ℕ → Option ℕ
  account_of verify_only (some key) none = some key
  account_of verify_only (some key) (some addr) =
      if lower (address key) == lower addr then some key else none
  account_of verify_only none none = none
  account_of verify_only none (some addr) = some (verify_only addr)

  abbrev pub restored : ℕ → Saved → Replayed → Option Chain
  restored account saved (stopped fault) = none
  restored account saved (whole s head) = some (record {
    coord = account;
    genesis_checkpoint = saved.genesis_checkpoint;
    state = s;
    blocks = saved.blocks;
    head = last_head genesis_prev_hash saved.blocks;
    paid_cids = saved.paid_cids;
  })

  -- `from_state`; none is the ValueError
  unfoldable pub from_state : (ℕ → ℕ) → Saved → Option ℕ → Option Chain
  from_state verify_only saved coord_key =
      elim (account_of verify_only (first_some coord_key saved.coord_key) saved.coord_address) [
        | none ↦ none
        | some account ↦
            restored account saved
              (replay_blocks ext none saved.blocks (address account) saved.genesis_checkpoint)
      ]

  abbrev pub last_height : List Settled → ℕ
  last_height [] = 0
  last_height (b ∷ []) = b.header.height
  last_height (b ∷ c ∷ bs) = last_height (c ∷ bs)

  abbrev pub viewed : Bool → List Settled → Replayed → Option PublicView
  viewed pinned blocks (stopped fault) = none
  viewed pinned blocks (whole s head) =
      some (record {
        balances = s.bal;
        minted = s.minted;
        height = last_height blocks;
        pinned = pinned;
      })

  -- `verify_public_chain`; none is a refusal
  unfoldable pub verify_public_chain :
      Export → Option ℕ → Option (Option Roster × Option ℤ) → Option PublicView
  verify_public_chain e (some pinned) quorum =
      viewed true e.blocks (replay_blocks ext quorum e.blocks pinned e.genesis_checkpoint)
  verify_public_chain e none quorum = elim e.coord_address [
    | none ↦ none
    | some a ↦ viewed false e.blocks (replay_blocks ext quorum e.blocks a e.genesis_checkpoint)
  ]
