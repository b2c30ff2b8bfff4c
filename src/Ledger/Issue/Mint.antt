-- ===== src/Ledger/Issue/Mint.antt =====
-- `apply_block` of neura_l1/block_state.py: what a block adds to the holdings is what it counts
-- as minted.
use neurahash_miner.Base.{◌≡◌}
use neurahash_miner.Ledger.Defs.{State}
use neurahash_miner.Ledger.Blocks.{and_then, Outcome, applied, raised}
use neurahash_miner.Ledger.Keeps.{Keeps}

-- the fields that hold or count amounts
record SameMoney (s t : State) : Type 0 where
  bal : t.bal ≡ s.bal
  staked : t.staked ≡ s.staked
  unbonding : t.unbonding ≡ s.unbonding
  treasury : t.treasury ≡ s.treasury
  minted : t.minted ≡ s.minted

-- what holds of the state of an outcome, if it has one
abbrev pub Then : (State → Type 0) → Outcome State → Type 0
Then P (applied t) = P t
Then P (raised _) = Unit

pub Then-imp :
    (P Q : State → Type 0) → ((t : State) → P t → Q t) → (o : Outcome State) → Then P o → Then Q o
Then-imp P Q f (applied t) p = f t p
Then-imp P Q f (raised _) p = tt

pub Then-and_then :
    (P Q : State → Type 0) (f : State → Outcome State)
    → ((t : State) → P t → Then Q (f t))
    → (o : Outcome State) → Then P o
    → Then Q (and_then o f)
Then-and_then P Q f g (applied t) p = g t p
Then-and_then P Q f g (raised _) p = tt
