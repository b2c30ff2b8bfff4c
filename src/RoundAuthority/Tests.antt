-- ===== src/RoundAuthority/Tests.antt =====
-- neurahash/diloco_round_authority.py: the second of three candidates takes a round over.
use neurahash_miner.Settlement.Replay.{Replays}
use neurahash_miner.Settlement.Chain.{Signer, Chain}
use neurahash_miner.Guardian.Defs.{Recovery, distinct_signers}
use neurahash_miner.Ledger.Retarget.{fold_retarget}
use neurahash_miner.Ledger.Stake.{balance, credit, mature_accounts, mature_unbonding}
use neurahash_miner.Settlement.Chain.{new_chain, settle, positive_weights, replay_from}
use neurahash_miner.Ledger.Blocks.{
  credit_reward, insert_share, sort_shares, mint_shares, block_reward, mint_step, aggregate,
  finish_block, upgrade_step, apply_txs, ids_of, tx_root, applied, apply_block, raised, Outcome,
}
use neurahash_miner.Base.{
  insert_set, sorted_set, contains, ◌-ℤ◌, ◌+ℤ◌, total, insert, lookup, keys_of, ℕ, ◌+◌, ◌*◌, ◌/◌,
  false, Option, none, some, List, [], ◌∷◌, length, pos, pos_part, ◌≡◌, refl,
}
use neurahash_miner.Ledger.Defs.{Externals}
use neurahash_miner.Settlement.Multisig.{Decision}
use neurahash_miner.RoundAuthority.Defs.{
  rejected, or_roster, verify_timeout_quorum, no_view_change_proof, recover_proposer,
  views_timed_out, accepted, election_fault, sign_proposer_claim, no_view, accept, Broadcast,
  propose, Authority,
}
use neurahash_miner.RoundAuthority.Quorums.{ItsTurn, accept-ItsTurn}
use neurahash_miner.RoundAuthority.Takeover.{accept_rejected}
use neurahash_miner.RoundAuthority.Replica.{accept-Replays, accept-propose}

-- Every signature recovers to itself, and an account is its address.
abbrev ledger : Externals
ledger = record {
  signing = record { lower = λ a. a; recover_message = λ c sig. some sig; commit_id = λ c. 0 };
  recover_tx_message = λ tx sig. some sig;
  verify_vote_fault = λ v a b reg. false;
  txid = λ tx. tx.sender;
  sha256 = λ ids. length ids;
  bounty_of = λ b. pos 0;
  share_of = λ r w t. pos (pos_part r * pos_part w / pos_part t);
  rounded = λ a. a;
}

abbrev votes : Recovery Decision
votes = record { normal = λ a. a; recover = λ d sig. some sig }

abbrev signer : Signer
signer = record {
  ledger = ledger;
  votes = votes;
  hash = λ header. header.height + 100;
  quorum_digest = λ q. 7;
  beacon = λ head. head;
  address = λ a. a;
  sign = λ a digest. a;
  recover_bytes = λ digest sig. some sig;
  lower = λ a. a;
}

abbrev ext : Authority
ext = record {
  chain = signer;
  timeouts = record { normal = λ a. a; recover = λ t sig. some sig };
  recover_claim = λ r p b sig. some sig;
  sign_claim = λ account r b. account;
}

abbrev order : List ℕ
order = 11 ∷ 12 ∷ 13 ∷ []

abbrev start : Chain
start = new_chain signer 4 6

abbrev blank : Broadcast
blank = record { round = 0; claim = none; view = no_view; timeout_quorums = []; block = none }

abbrev takeover_by : ℕ → Outcome (Option Broadcast × Chain)
takeover_by who = propose ext who 1 1 (pos 10) 5 none 1001 (some 1) ((0, 12 ∷ 13 ∷ []) ∷ []) start

abbrev sent_or : Broadcast → Outcome (Option Broadcast × Chain) → Broadcast
sent_or e (raised x) = e
sent_or e (applied (none, c)) = e
sent_or e (applied (some e', c)) = e'

abbrev settled_or : Chain → Outcome (Option Broadcast × Chain) → Chain
settled_or c (raised x) = c
settled_or c (applied (e, c')) = c'

abbrev takeover : Broadcast
takeover = sent_or blank (takeover_by 12)

abbrev after : Chain
after = settled_or start (takeover_by 12)

takeover_sent : takeover_by 12 ≡ applied (some takeover, after)
unfolding propose sign_proposer_claim settle positive_weights new_chain apply_block tx_root ids_of
    mature_unbonding mature_accounts keys_of apply_txs upgrade_step finish_block aggregate mint_step
    block_reward mint_shares sort_shares insert_share credit_reward credit balance fold_retarget
    lookup insert total ◌+ℤ◌ ◌-ℤ◌
takeover_sent = refl

takeover_elected : election_fault ext 12 takeover order [] none none takeover.view ≡ none
unfolding propose sign_proposer_claim settle positive_weights new_chain apply_block tx_root ids_of
    mature_unbonding mature_accounts keys_of apply_txs upgrade_step finish_block aggregate mint_step
    block_reward mint_shares sort_shares insert_share credit_reward credit balance fold_retarget
    lookup insert total ◌+ℤ◌ ◌-ℤ◌ election_fault views_timed_out verify_timeout_quorum
    distinct_signers contains sorted_set insert_set
takeover_elected = refl

accept-propose_example : accept ext takeover order [] none none start ≡ (accepted, after)
accept-propose_example =
    accept-propose ext 12 1 (pos 10) 5 none 1001 (some 1) ((0, 12 ∷ 13 ∷ []) ∷ []) order [] none
      none start after takeover (λ account digest. refl) (λ account digest. refl) takeover_sent
      takeover_elected

-- a takeover with one timeout only, and one with a majority's
abbrev alone : Broadcast
alone = record takeover { timeout_quorums = (0, 12 ∷ []) ∷ [] }

alone_rejected : accept ext alone order [] none none start ≡ (rejected no_view_change_proof, start)
unfolding accept recover_proposer propose sign_proposer_claim settle positive_weights new_chain
    apply_block tx_root ids_of mature_unbonding mature_accounts keys_of apply_txs upgrade_step
    finish_block aggregate mint_step block_reward mint_shares sort_shares insert_share credit_reward
    credit balance fold_retarget lookup insert total ◌+ℤ◌ ◌-ℤ◌ election_fault views_timed_out
    verify_timeout_quorum distinct_signers contains sorted_set insert_set
alone_rejected = refl

rejection_kept : (accept ext alone order [] none none start).1 ≡ start
unfolding accept recover_proposer propose sign_proposer_claim settle positive_weights new_chain
    apply_block tx_root ids_of mature_unbonding mature_accounts keys_of apply_txs upgrade_step
    finish_block aggregate mint_step block_reward mint_shares sort_shares insert_share credit_reward
    credit balance fold_retarget lookup insert total ◌+ℤ◌ ◌-ℤ◌ election_fault views_timed_out
    verify_timeout_quorum distinct_signers contains sorted_set insert_set
rejection_kept =
    accept_rejected ext alone order [] none none start (accept ext alone order [] none none start).1
      no_view_change_proof refl

accept-Replays_example : Replays signer after
unfolding replay_from new_chain
accept-Replays_example =
    accept-Replays ext takeover order [] none none start after accepted accept-propose_example refl

accept-ItsTurn_example :
    (who : ℕ) × (recover_proposer ext takeover.claim ≡ some who)
    × ItsTurn ext who takeover order (or_roster ext none order) (pos 1)
unfolding propose sign_proposer_claim settle positive_weights new_chain apply_block tx_root ids_of
    mature_unbonding mature_accounts keys_of apply_txs upgrade_step finish_block aggregate mint_step
    block_reward mint_shares sort_shares insert_share credit_reward credit balance fold_retarget
    lookup insert total ◌+ℤ◌ ◌-ℤ◌
accept-ItsTurn_example =
    accept-ItsTurn ext takeover order [] none none start after (pos 1) accept-propose_example refl
