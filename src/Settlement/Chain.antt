-- ===== src/Settlement/Chain.antt =====
-- neurahash/chain_settlement.py: the signed chain of settlement blocks, its replay, its public
-- check and its checkpoint.
use neurahash_miner.Base.{
  keys_of, eq_ℤ, ℕ, Bool, true, false, not, ◌&&◌, ◌==◌, if◌then◌else◌, Option, none, some, List, [],
  ◌∷◌, ◌++◌, Dict, get, total, ℤ, pos, ltb_ℤ, max_ℤ, contains, insert_set,
}
use neurahash_miner.Guardian.Defs.{Recovery}
use neurahash_miner.Settlement.Multisig.{
  Decision, Roster, Proof, Tally, collect_settlement_signatures,
}
use neurahash_miner.Ledger.Defs.{State, Header, Externals, init_state, genesis_version}
use neurahash_miner.Ledger.Blocks.{Outcome, applied, raised, apply_block, tx_root}

-- a block as it is stored: its header, its contributors, the signature and the quorum, if any
pub record Settled : Type 0 where
  pub header : Header
  pub contributors : Dict ℤ
  pub sig : ℕ
  pub quorum : Option Proof

-- `ChainSettlement`; `coord` is the coordinator's account
pub record Chain : Type 0 where
  pub coord : ℕ
  pub genesis_checkpoint : ℕ
  pub state : State
  pub blocks : List Settled
  pub head : ℕ
  pub paid_cids : List ℕ

-- why a replay stops
pub data Broken : Type 0 where
  broken_chain bad_signature wrong_signer does_not_apply : Broken
  no_quorum wrong_quorum_hash no_pinned_roster quorum_error quorum_not_met : Broken

pub data Replayed : Type 0 where
  whole : State → ℕ → Replayed
  stopped : Broken → Replayed

-- What the code takes from hashlib and eth_account, beside what the ledger and the multisig take:
-- the hash of a header and of a quorum, the beacon of a head, an account's address, its signature
-- on a hash and the address such a signature recovers to.
pub record Signer : Type 0 where
  pub ledger : Externals
  pub votes : Recovery Decision
  pub hash : Header → ℕ
  pub quorum_digest : Proof → ℕ
  pub beacon : ℕ → ℕ
  pub address : ℕ → ℕ
  pub sign : ℕ → ℕ → ℕ
  pub recover_bytes : ℕ → ℕ → Option ℕ
  pub lower : ℕ → ℕ

-- GENESIS_PREV_HASH, and the text of no quorum hash
abbrev pub genesis_prev_hash : ℕ
genesis_prev_hash = 0

abbrev pub no_quorum_hash : ℕ
no_quorum_hash = 0

-- `{a: float(w) for a, w in ex_by.items() if float(w) > 0}`
unfoldable pub positive_weights : Dict ℤ → Dict ℤ
positive_weights [] = []
positive_weights ((a, w) ∷ d) =
    if ltb_ℤ (pos 0) w then (a, w) ∷ positive_weights d else positive_weights d

module _ (ext : Signer) where
  open ext use {ledger, votes, hash, quorum_digest, beacon, address, sign, recover_bytes, lower}

  -- `ChainSettlement.__init__`
  unfoldable pub new_chain : ℕ → ℕ → Chain
  new_chain coord genesis_checkpoint = record {
    coord = coord;
    genesis_checkpoint = genesis_checkpoint;
    state = init_state genesis_checkpoint false false;
    blocks = [];
    head = genesis_prev_hash;
    paid_cids = [];
  }

  abbrev pub quorum_hash_of : Option Proof → ℕ
  quorum_hash_of none = no_quorum_hash
  quorum_hash_of (some q) = quorum_digest q

  -- the header `settle` builds
  abbrev pub settle_header : Chain → ℕ → ℤ → Dict ℤ → ℕ → Option Proof → Header
  settle_header c height reward_pot contributors timestamp quorum = record {
    height = height;
    prev_hash = c.head;
    beacon = beacon c.head;
    parent_checkpoint = c.state.model_checkpoint;
    new_checkpoint = c.state.model_checkpoint;
    work_score = total contributors;
    proposer = address c.coord;
    reward = max_ℤ (pos 0) reward_pot;
    tx_root = tx_root ledger [];
    timestamp = timestamp;
    protocol_version = genesis_version;
    quorum_hash = quorum_hash_of quorum;
  }

  -- the chain with a block that applied
  abbrev pub extended : Chain → Settled → Outcome State → Outcome Chain
  extended c b (raised e) = raised e
  extended c b (applied s) =
      applied (record c { state = s; head = hash b.header; blocks = c.blocks ++ (b ∷ []) })

  unfoldable pub settle : ℕ → ℤ → Dict ℤ → ℕ → Option Proof → Chain → Outcome Chain
  settle height reward_pot ex_by timestamp quorum c =
      let contributors = positive_weights ex_by in
      let header = settle_header c height reward_pot contributors timestamp quorum in
      extended c
        (record {
          header = header;
          contributors = contributors;
          sig = sign c.coord (hash header);
          quorum = quorum;
        })
        (apply_block ledger c.state (record { header = header; txs = [] }) contributors)

  -- `already_paid` and `mark_paid`; the falsy cid is 0
  unfoldable pub already_paid : ℕ → Chain → Bool
  already_paid cid c = not (cid == 0) && contains cid c.paid_cids

  unfoldable pub mark_paid : ℕ → Chain → Chain
  mark_paid cid c = if cid == 0 then c else record c { paid_cids = insert_set cid c.paid_cids }

  -- `next(iter(contribs)) if len(contribs) == 1 else None`
  abbrev pub sole_contributor : Dict ℤ → Option ℕ
  sole_contributor ((a, w) ∷ []) = some a
  sole_contributor _ = none

  abbrev pub tally_verdict : Option Tally → Option Broken
  tally_verdict none = some quorum_error
  tally_verdict (some v) = if v.approved then none else some quorum_not_met

  -- `_verify_block_quorum`; none is (True, "ok")
  unfoldable pub verify_block_quorum : Settled → Option Roster → Option ℤ → Option Broken
  verify_block_quorum b roster m = elim b.quorum [
    | none ↦ some no_quorum
    | some q ↦
        if not (b.header.quorum_hash == no_quorum_hash)
          && not (quorum_digest q == b.header.quorum_hash)
        then some wrong_quorum_hash
        else elim roster [
          | none ↦ some no_pinned_roster
          | some r ↦ tally_verdict (
              collect_settlement_signatures votes
                (record {
                  recipient = sole_contributor b.contributors;
                  amount = b.header.reward;
                  height = b.header.height;
                  delta_cid = q.decision.delta_cid;
                })
                r q.sigs m)
        ]
  ]

  -- the quorum's part of a block's checks, where it is required
  abbrev pub quorum_check : Option (Option Roster × Option ℤ) → Settled → Option Broken
  quorum_check none b = none
  quorum_check (some (roster, m)) b = verify_block_quorum b roster m

  -- the checks of a block before it is applied; none where they pass
  unfoldable pub block_fault : Option (Option Roster × Option ℤ) → ℕ → ℕ → Settled → Option Broken
  block_fault quorum coord_address head b =
      if not (b.header.prev_hash == head)
      then some broken_chain
      else elim (recover_bytes (hash b.header) b.sig) [
        | none ↦ some bad_signature
        | some signer ↦
            if not (lower signer == lower coord_address)
            then some wrong_signer
            else quorum_check quorum b
      ]

  abbrev pub then_replay : Outcome State → (State → Replayed) → Replayed
  then_replay (applied s) f = f s
  then_replay (raised e) f = stopped does_not_apply

  abbrev pub unless_fault : Option Broken → Replayed → Replayed
  unless_fault none r = r
  unless_fault (some fault) r = stopped fault

  -- `_replay_blocks`, from a state and a head
  unfoldable pub replay_from :
      Option (Option Roster × Option ℤ) → ℕ → List Settled → State → ℕ → Replayed
  replay_from quorum coord_address [] s head = whole s head
  replay_from quorum coord_address (b ∷ bs) s head =
      unless_fault (block_fault quorum coord_address head b) (
        then_replay (apply_block ledger s (record { header = b.header; txs = [] }) b.contributors)
          (λ s'. replay_from quorum coord_address bs s' (hash b.header)))

  unfoldable pub replay_blocks : Option (Option Roster × Option ℤ) → List Settled → ℕ → ℕ → Replayed
  replay_blocks quorum blocks coord_address genesis_checkpoint =
      replay_from quorum coord_address blocks (init_state genesis_checkpoint false false)
        genesis_prev_hash

  -- `verify`: the replay agrees with the live state on every balance and on what was minted
  abbrev pub same_balances : List ℕ → Dict ℤ → Dict ℤ → Bool
  same_balances [] live bal = true
  same_balances (a ∷ as') live bal = eq_ℤ (get a bal) (get a live) && same_balances as' live bal

  abbrev pub agrees : Replayed → State → Bool
  agrees (stopped fault) live = false
  agrees (whole s head) live =
      same_balances (keys_of live.bal ++ keys_of s.bal) live.bal s.bal && eq_ℤ s.minted live.minted

  unfoldable pub verify : Chain → Bool
  verify c = agrees (replay_blocks none c.blocks (address c.coord) c.genesis_checkpoint) c.state
