-- ===== src/Sequencer/Tests.antt =====
-- neura_l1/pool_sequencer.py: the definitions at concrete inputs.
use neurahash_miner.Base.{arith, ℕ, true, List, [], ◌∷◌, some, pos, ◌≡◌, ◌↔◌, contains}
use neurahash_miner.Signing.{Crypto, Scheme, Envelope}
use neurahash_miner.Sequencer.Defs.{
  RoundRecord, elect_proposer, verify_commitment_chain, sort_records,
}
use neurahash_miner.Sequencer.Chain.{IsChain, verify_commitment_chain_exact}
use neurahash_miner.Base.{◌≢◌, Dict, lookup}
use neurahash_miner.Sequencer.Defs.{takeover_decision, fresh, first_fresh}
use neurahash_miner.Sequencer.Failover.{IsFirstFresh, takeover_decision_sound, elect_proposer-same}

-- a commitment's id is its merkle root, and every signature recovers to itself
abbrev toy : Crypto
toy = record { lower = λ a. a; recover_message = λ c sig. some sig; commit_id = λ c. c.merkle_root }

abbrev signed : ℕ → Envelope
signed root = record {
  commitment = record {
    height = 4;
    prev_hash = 0;
    proposer = 1;
    beacon = 2;
    parent_checkpoint = 3;
    new_checkpoint = 4;
    work_score = pos 5;
    merkle_root = root;
    tx_root = 0;
  };
  signer = 9;
  signature = 9;
  scheme = Scheme.absent;
}

abbrev round_of : ℕ → ℕ → ℕ → RoundRecord
round_of r root prev = record {
  round = r;
  signed = some (signed root);
  commit_id = some root;
  prev_commit_id = some prev;
  proposer = some 5;
}

-- listed out of order
abbrev records : List RoundRecord
records = round_of 5 21 20 ∷ round_of 4 20 99 ∷ []

verify_commitment_chain_exact_example :
    ((verify_commitment_chain toy (some 9) 99 records).0 ≡ true)
    ↔ IsChain toy (some 9) 99 99 0 (sort_records records)
verify_commitment_chain_exact_example = verify_commitment_chain_exact toy (some 9) 99 records

election_agrees :
    elect_proposer (λ a. a) (3 ∷ 1 ∷ 3 ∷ []) ≡ elect_proposer (λ a. a) (3 ∷ 3 ∷ 1 ∷ [])
unfolding contains
election_agrees = elect_proposer-same (λ a. a) (3 ∷ 1 ∷ 3 ∷ []) (3 ∷ 3 ∷ 1 ∷ []) (λ z. ground arith)

abbrev heartbeats : Dict ℕ
heartbeats = (4, 1) ∷ (7, 9) ∷ (9, 10) ∷ []

takeover_shown :
    (p : ℕ) × ((takeover_decision (4 ∷ 7 ∷ 9 ∷ []) heartbeats 10 2).successor ≡ some p)
    × (p ≢ 4)
    × IsFirstFresh heartbeats 10 2 p (4 ∷ 7 ∷ 9 ∷ [])
unfolding takeover_decision first_fresh fresh lookup
takeover_shown = takeover_decision_sound heartbeats 10 2 4 (7 ∷ 9 ∷ []) (λ i. true)
