-- ===== src/Ledger/Defs.antt =====
-- The data of neura_l1/block_state.py: transactions, headers, blocks and the account state, and
-- the constants of the protocol.
use neurahash_miner.Signing.{Scheme, EquivocationProof, Crypto}
use neurahash_miner.Base.{
  ℕ, ◌*◌, ◌^◌, ◌&&◌, Bool, true, false, Option, none, List, [], ℤ, pos, Dict, ◌==◌,
}

-- An amount of NRH is a double, so a whole number of units of 2^-1074 NRH.
abbrev pub units_per_coin : ℕ
units_per_coin = 2 ^ 1074

-- MAX_SUPPLY
abbrev pub max_supply : ℕ
max_supply = 2100000000 * units_per_coin

-- INITIAL_REWARD
abbrev pub initial_reward : ℕ
initial_reward = 5000 * units_per_coin

-- HALVING_EVERY
abbrev pub halving_every : ℕ
halving_every = 210000

-- UNBONDING_PERIOD
abbrev pub unbonding_period : ℕ
unbonding_period = 5

-- RETARGET_ACTIVATION_HEIGHT
abbrev pub retarget_activation_height : ℕ
retarget_activation_height = 0

abbrev pub target_block_time : ℕ
target_block_time = 60

abbrev pub retarget_window : ℕ
retarget_window = 2016

abbrev pub target_timespan : ℕ
target_timespan = retarget_window * target_block_time

abbrev pub retarget_clamp : ℕ
retarget_clamp = 4

abbrev pub genesis_work_floor : ℕ
genesis_work_floor = 1000000

abbrev pub work_floor_min : ℕ
work_floor_min = 1

abbrev pub work_floor_max : ℕ
work_floor_max = 1000000000000

abbrev pub mtp_window : ℕ
mtp_window = 11

abbrev pub genesis_version : ℕ
genesis_version = 1

abbrev pub upgrade_window : ℕ
upgrade_window = 3

abbrev pub upgrade_activation_delay : ℕ
upgrade_activation_delay = 3

-- a Python float, as far as the tests of the code tell floats apart
pub data Float : Type 0 where
  finite : ℤ → Float
  infinite nan : Float

pub data Kind : Type 0 where
  transfer stake unstake slash upgrade_signal : Kind

-- a vote of the finality module, which is not in the repository: what a slash reads of it
pub record Vote : Type 0 where
  pub vote_id : ℕ
  pub body : ℕ

-- `tx.data`: absent, or what the code can read out of it. A missing or malformed part is `none`.
pub data TxData : Type 0 where
  no_data : TxData
  version : Option ℤ → TxData
  equivocation : Option EquivocationProof → Option ℕ → TxData
  vote_fault : Option ℕ → Option (Vote × Vote) → TxData

-- Texts (names, addresses, hashes, signatures) are only compared, so numbers stand for them. The
-- signature is `none` where it is empty or the placeholder "dev".
pub record Tx : Type 0 where
  pub sender : ℕ
  pub kind : Kind
  pub to : Option ℕ
  pub amount : Float
  pub nonce : ℤ
  pub signature : Option ℕ
  pub scheme : Scheme
  pub payload : TxData

-- the fault ids of `slashed_faults`: '<signer>:<height>', and 'ffg:' with the sorted vote ids
pub data Fault : Type 0 where
  equivocation : ℕ → ℕ → Fault
  ffg : ℕ → ℕ → Fault

unfoldable pub same_fault : Fault → Fault → Bool
same_fault (Fault.equivocation a b) (Fault.equivocation c d) = a == c && b == d
same_fault (ffg a b) (ffg c d) = a == c && b == d
same_fault _ _ = false

pub record Header : Type 0 where
  pub height : ℕ
  pub prev_hash : ℕ
  pub beacon : ℕ
  pub parent_checkpoint : ℕ
  pub new_checkpoint : ℕ
  pub work_score : ℤ
  pub proposer : ℕ
  pub reward : ℤ
  pub tx_root : ℕ
  pub timestamp : ℕ
  pub protocol_version : ℕ
  pub quorum_hash : ℕ

pub record Block : Type 0 where
  pub header : Header
  pub txs : List Tx

-- withdrawing stake: amounts with the heights that release them
abbrev pub Queue : Type 0
Queue = List (ℤ × ℕ)

pub record State : Type 0 where
  pub require_tx_signatures : Bool
  pub retarget_enabled : Bool
  pub bal : Dict ℤ
  pub staked : Dict ℤ
  pub treasury : ℤ
  pub minted : ℤ
  pub nonces : Dict ℤ
  pub keys : Dict ℕ
  pub slashed_faults : List Fault
  pub unbonding : Dict Queue
  pub model_checkpoint : ℕ
  pub protocol_version : ℕ
  pub upgrade_signals : List ℕ
  pub upgrade_streak : ℕ
  pub pending_activation : Option ℕ
  pub work_floor_q : ℕ
  pub retarget_anchor_ts : ℕ
  pub retarget_anchor_h : ℕ
  pub last_block_ts : ℕ
  pub work_ewma_q : ℕ
  pub ts_ring : List ℕ

-- `State.__init__`
abbrev pub init_state : ℕ → Bool → Bool → State
init_state checkpoint signatures retarget = record {
  require_tx_signatures = signatures;
  retarget_enabled = retarget;
  bal = [];
  staked = [];
  treasury = pos 0;
  minted = pos 0;
  nonces = [];
  keys = [];
  slashed_faults = [];
  unbonding = [];
  model_checkpoint = checkpoint;
  protocol_version = genesis_version;
  upgrade_signals = [];
  upgrade_streak = 0;
  pending_activation = none;
  work_floor_q = genesis_work_floor;
  retarget_anchor_ts = 0;
  retarget_anchor_h = 0;
  last_block_ts = 0;
  work_ewma_q = genesis_work_floor;
  ts_ring = [];
}

-- `State.for_value_chain`
abbrev pub for_value_chain : ℕ → State
for_value_chain checkpoint = init_state checkpoint true true

-- What the transition takes from code that is not in the repository, or from floats: the
-- signature libraries, the recovery of a transaction's signer from its signature, the finality
-- module's check of a vote fault, sha256 over the ids of a block's transactions, the two products
-- of floats, `bond * EQUIVOCATION_BOUNTY_FRAC` and `reward * (w / total_w)`, and the double that
-- the sum of two doubles is rounded to.
pub record Externals : Type 0 where
  pub signing : Crypto
  pub recover_tx_message : Tx → ℕ → Option ℕ
  pub verify_vote_fault : ℕ → Vote → Vote → ℕ → Bool
  pub txid : Tx → ℕ
  pub sha256 : List ℕ → ℕ
  pub bounty_of : ℤ → ℤ
  pub share_of : ℤ → ℤ → ℤ → ℤ
  pub rounded : ℤ → ℤ
