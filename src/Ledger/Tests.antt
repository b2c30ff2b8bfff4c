-- ===== src/Ledger/Tests.antt =====
-- Runs of neura_l1/block_state.py on a concrete state. A signature names its signer here.
use neurahash_miner.Base.{
  ℕ, ◌+◌, ◌*◌, ◌/◌, ◌≤◌, ◌≡◌, refl, not, true, none, some, List, [], ◌∷◌, ℤ, pos, pos_part, ◌+ℤ◌,
  ◌-ℤ◌, arith, length, ◌==◌, lookup, insert, erase, get, if◌then◌else◌, min, max,
}
use neurahash_miner.Signing.{Scheme, require_supported, is_supported, normalize_scheme}
use neurahash_miner.Ledger.Defs.{
  Block, Externals, Fault, Header, Kind, State, Tx, TxData, finite, init_state, same_fault,
}
use neurahash_miner.Ledger.Stake.{
  at_risk_of, balance, credit, debit, insert_entry, put_queue, seize, seize_bond, seize_entries,
  seize_entry, seize_queue, sort_entries,
}
use neurahash_miner.Ledger.Slash.{
  add_fault, already_slashed, apply_slash, apply_vote_fault_slash, bad_nonce, bounty_for, burn,
  close_slash, err, mem_fault, ok, pay_bounty, punish, recover_tx_signer, recover_tx_with,
  reporter_bounty_ok, transfer_applied, vote_fault_id, vote_fault_slashed, wrong_signer,
}
use neurahash_miner.Ledger.Transition.{
  apply_kind, apply_ordinary, apply_transfer, apply_tx, apply_unstake, authenticate, bump_nonce,
  is_slash,
}
use neurahash_miner.Ledger.Retarget.{fold_retarget, median_time, sample_of, work_ceiling}
use neurahash_miner.Ledger.Retarget.Bounds.{
  IsTuned, fold_retarget-IsTuned, fold_retarget-between, fold_retarget-boundary,
}
use neurahash_miner.Ledger.Blocks.{tx_root}
use neurahash_miner.Ledger.Solvency.{IsSolvent}
use neurahash_miner.Ledger.Keeps.{IsBounty, Keeps}
use neurahash_miner.Ledger.Keeps.Transactions.{apply_tx-Keeps}
use neurahash_miner.Ledger.Replay.{apply_tx-nonces, apply_tx-refused, apply_tx-replayed}
use neurahash_miner.Ledger.Punishment.{burn_takes_all, paid}
use neurahash_miner.Ledger.SlashOnce.{apply_slash-twice}
use neurahash_miner.Ledger.Unstake.{apply_unstake-at_risk}

abbrev ext : Externals
ext = record {
  signing = record {
    lower = λ a. a;
    recover_message = λ c sig. some sig;
    commit_id = λ c. c.merkle_root;
  };
  recover_tx_message = λ tx sig. some sig;
  verify_vote_fault = λ v a b reg. not (a.vote_id == b.vote_id);
  txid = λ tx. tx.sender;
  sha256 = λ ids. length ids + 1;
  bounty_of = λ b. pos (pos_part b / 10);
  share_of = λ r w t. pos (pos_part r * pos_part w / pos_part t);
  rounded = λ a. pos (pos_part a / 2 * 2);
}

ext-IsBounty : IsBounty ext
ext-IsBounty = record { at_least = λ b h. omega arith; at_most = λ b h. ground arith }

-- Account 1 has bonded 50 and is withdrawing 5; account 2 has nothing bonded.
abbrev start : State
start = record (init_state 77 true true) {
  bal = (1, pos 100) ∷ (2, pos 10) ∷ [];
  staked = (1, pos 50) ∷ [];
  keys = (1, 101) ∷ (2, 102) ∷ [];
  unbonding = (1, (pos 5, 9) ∷ []) ∷ [];
}

start-IsSolvent : IsSolvent start
start-IsSolvent = record {
  liquid = omega arith;
  bonded = omega arith;
  withdrawing = omega arith;
  treasury = omega arith;
}

start-IsTuned : IsTuned start
start-IsTuned = omega arith

abbrev payment : Tx
payment = record {
  sender = 1;
  kind = Kind.transfer;
  to = some 2;
  amount = finite (pos 30);
  nonce = pos 0;
  signature = some 101;
  scheme = Scheme.absent;
  payload = TxData.no_data;
}

abbrev withdrawal : Tx
withdrawal = record payment { kind = Kind.unstake; nonce = pos 1 }

abbrev forged : Tx
forged = record payment { signature = some 102 }

abbrev report : Tx
report = record {
  sender = 2;
  kind = Kind.slash;
  to = none;
  amount = finite (pos 0);
  nonce = pos 0;
  signature = some 102;
  scheme = Scheme.absent;
  payload =
      TxData.vote_fault (some 1)
        (some (record { vote_id = 8; body = 0 }, record { vote_id = 3; body = 1 }));
}

abbrev paid_state : State
paid_state = record start { bal = (1, pos 70) ∷ (2, pos 40) ∷ []; nonces = (1, pos 1) ∷ [] }

payment_applies : apply_tx ext payment (some 3) start ≡ (ok transfer_applied, paid_state)
unfolding apply_tx apply_ordinary apply_kind apply_transfer authenticate recover_tx_signer
    recover_tx_with require_supported is_supported normalize_scheme is_slash bump_nonce balance
    credit debit lookup insert ◌+ℤ◌ ◌-ℤ◌
payment_applies = refl

forgery_refused : apply_tx ext forged (some 3) start ≡ (err wrong_signer, start)
unfolding apply_tx apply_ordinary authenticate recover_tx_signer recover_tx_with require_supported
    is_supported normalize_scheme is_slash lookup
forgery_refused = refl

abbrev slashed_state : State
slashed_state = record start {
  bal = (1, pos 100) ∷ (2, pos 15) ∷ [];
  staked = (1, pos 0) ∷ [];
  unbonding = [];
  treasury = pos 50;
  slashed_faults = Fault.ffg 3 8 ∷ [];
}

report_applies :
    apply_slash ext report report.payload start ≡ (ok vote_fault_slashed, slashed_state)
unfolding apply_slash apply_vote_fault_slash punish burn mem_fault add_fault same_fault
    vote_fault_id bounty_for pay_bounty close_slash reporter_bounty_ok recover_tx_signer
    recover_tx_with require_supported is_supported normalize_scheme seize seize_bond seize_queue
    seize_entries seize_entry sort_entries insert_entry put_queue credit lookup insert erase ◌+ℤ◌
    ◌-ℤ◌
report_applies = refl

abbrev header : Header
header = record {
  height = 2016;
  prev_hash = 0;
  beacon = 0;
  parent_checkpoint = 77;
  new_checkpoint = 78;
  work_score = pos 2000000;
  proposer = 1;
  reward = pos 1000;
  tx_root = 2;
  timestamp = 60000;
  protocol_version = 1;
  quorum_hash = 0;
}

abbrev block : Block
block = record { header = header; txs = payment ∷ [] }

abbrev weights : List (ℕ × ℤ)
weights = (2, pos 1) ∷ (1, pos 3) ∷ []

-- the state after the block: the withdrawing stake is released, 1000 are minted in shares of
-- 3 to 1, of which a balance loses a unit to rounding, and the floor rises within its ceiling
abbrev after_block : State
after_block = record start {
  bal = (1, pos 824) ∷ (2, pos 290) ∷ [];
  nonces = (1, pos 1) ∷ [];
  unbonding = [];
  minted = pos 1000;
  model_checkpoint = 78;
  work_floor_q = 796875;
  work_ewma_q = 1062500;
  retarget_anchor_ts = 60000;
  retarget_anchor_h = 2016;
  last_block_ts = 60000;
  ts_ring = 60000 ∷ [];
}

apply_tx-Keeps_example : Keeps start (apply_tx ext report (some 3) start).1
apply_tx-Keeps_example = apply_tx-Keeps ext ext-IsBounty report (some 3) start start-IsSolvent

apply_tx-refused_example : start ≡ start
apply_tx-refused_example =
    apply_tx-refused ext forged (some 3) start start wrong_signer forgery_refused

nonces_step :
    (pos 0 ≡ get 1 start.nonces)
    × (get 2 paid_state.nonces ≡ (if 2 == 1 then pos 0 +ℤ pos 1 else get 2 start.nonces))
unfolding is_slash
nonces_step =
    apply_tx-nonces ext payment (some 3) start paid_state transfer_applied 2 refl payment_applies

apply_tx-replayed_example : apply_tx ext payment (some 4) paid_state ≡ (err bad_nonce, paid_state)
unfolding is_slash
apply_tx-replayed_example =
    apply_tx-replayed ext payment (some 3) (some 4) start paid_state transfer_applied refl
      payment_applies

burn_takes_all_example :
    let t = burn ext report 1 (Fault.ffg 3 8) start in
    (at_risk_of t 1 ≡ pos 0)
    × (t.treasury ≡ pos 0 +ℤ (at_risk_of start 1 -ℤ paid ext report 1 start))
    × (mem_fault (Fault.ffg 3 8) t.slashed_faults ≡ true)
unfolding lookup
burn_takes_all_example =
    burn_takes_all ext report 1 (Fault.ffg 3 8) start start-IsSolvent (refl, tt)

apply_slash-twice_example :
    apply_slash ext report report.payload slashed_state ≡ (ok already_slashed, slashed_state)
apply_slash-twice_example =
    apply_slash-twice ext report report.payload start slashed_state vote_fault_slashed
      report_applies

unstake_stays_at_risk :
    at_risk_of (apply_unstake withdrawal (pos 30) (some 3) start).1 1 ≡ at_risk_of start 1
unstake_stays_at_risk = apply_unstake-at_risk withdrawal (pos 30) (some 3) start 1

floor_within : IsTuned (fold_retarget start start 2016 60000 (pos 2000000))
floor_within =
    fold_retarget-IsTuned start start 2016 60000 (pos 2000000) start-IsTuned start-IsTuned

retarget_bounded :
    let s = fold_retarget start start 5 60000 (pos 2000000) in
    (s.work_floor_q ≡ 1000000)
    × (s.retarget_anchor_ts ≡ 0)
    × (s.retarget_anchor_h ≡ 0)
    × (s.last_block_ts ≡ 60000)
    × (min 1000000 (sample_of (pos 2000000)) ≤ s.work_ewma_q)
    × (s.work_ewma_q ≤ max 1000000 (sample_of (pos 2000000)))
retarget_bounded = fold_retarget-between start start 5 60000 (pos 2000000) refl (omega arith)

fold_retarget-boundary_example :
    let s = fold_retarget start start 2016 60000 (pos 2000000) in
    (s.work_floor_q ≤ 4 * 1000000)
    × (s.work_floor_q ≤ work_ceiling s.work_ewma_q)
    × (s.retarget_anchor_h ≡ 2016)
    × (s.retarget_anchor_ts ≡ median_time s.ts_ring)
fold_retarget-boundary_example =
    fold_retarget-boundary start start 2016 60000 (pos 2000000) refl (omega arith) refl
