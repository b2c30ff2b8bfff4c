-- ===== src/Settlement/Tests.antt =====
-- neurahash/diloco_settlement.py and neurahash/chain_settlement.py: the definitions at concrete
-- inputs.
use neurahash_miner.Settlement.Stake.{roster_source_select_enforced}
use neurahash_miner.Settlement.Policy.{min_stake, roster_source_select}
use neurahash_miner.Settlement.Quorum.{quorums_meet, SignedBoth}
use neurahash_miner.Settlement.Restore.{from_state-to_state}
use neurahash_miner.Settlement.Public.{verify_public_chain_sound, AllAuthorised}
use neurahash_miner.Ledger.Retarget.{fold_retarget}
use neurahash_miner.Ledger.Stake.{balance, credit, mature_accounts, mature_unbonding}
use neurahash_miner.Guardian.Defs.{distinct_signers, Recovery}
use neurahash_miner.Ledger.Blocks.{
  credit_reward, insert_share, sort_shares, mint_shares, block_reward, mint_step, aggregate,
  finish_block, upgrade_step, apply_txs, ids_of, tx_root, apply_block, Outcome,
}
use neurahash_miner.Base.{
  any_of, ℕ, ◌+◌, ◌*◌, ◌/◌, true, false, Option, none, some, List, [], ◌∷◌, length, pos, pos_part,
  ◌≡◌, refl, ◌+ℤ◌, ◌-ℤ◌, lookup, insert, keys_of, total, contains, sorted_set, insert_set,
}
use neurahash_miner.Ledger.Defs.{Externals}
use neurahash_miner.Settlement.Multisig.{
  enforce, collect_settlement_signatures, Decision, counted, Proof,
}
use neurahash_miner.Ledger.Blocks.{applied, raised, Outcome}
use neurahash_miner.Settlement.Chain.{
  verify_block_quorum, block_fault, replay_from, genesis_prev_hash, replay_blocks, mark_paid,
  positive_weights, Chain, Signer, settle, new_chain,
}
use neurahash_miner.Settlement.Replay.{Made-Replays, Replays, Made, fresh, settled, marked}
use neurahash_miner.Settlement.Store.{to_state, verify_public_chain, from_state, Export, PublicView}

-- Every signature recovers to itself, and an account is its address.
abbrev ledger : Externals
ledger = record {
  signing = record { lower = λ a. a; recover_message = λ c sig. some sig; commit_id = λ c. 0 };
  recover_tx_message = λ tx sig. some sig;
  verify_vote_fault = λ v a b reg. false;
  txid = λ tx. tx.sender;
  sha256 = λ ids. length ids;
  bounty_of = λ b. pos 0;
  share_of = λ r w t. pos (pos_part r * pos_part w / pos_part t);
  rounded = λ a. a;
}

abbrev votes : Recovery Decision
votes = record { normal = λ a. a; recover = λ d sig. some sig }

abbrev ext : Signer
ext = record {
  ledger = ledger;
  votes = votes;
  hash = λ header. header.height + 100;
  quorum_digest = λ q. 7;
  beacon = λ head. head;
  address = λ a. a;
  sign = λ a digest. a;
  recover_bytes = λ digest sig. some sig;
  lower = λ a. a;
}

abbrev roster : List ℕ
roster = 1 ∷ 2 ∷ 3 ∷ []

abbrev pays : ℕ → Decision
pays who = record { recipient = some who; amount = pos 10; height = 1; delta_cid = 9 }

abbrev proof : Proof
proof = record { decision = pays 5; sigs = 1 ∷ 2 ∷ []; roster = roster; n_required = pos 2 }

abbrev chain_or : Chain → Outcome Chain → Chain
chain_or c (applied c') = c'
chain_or c (raised _) = c

abbrev outcome : Outcome Chain
outcome = settle ext 1 (pos 10) ((5, pos 1) ∷ []) 1001 (some proof) (new_chain ext 4 6)

abbrev one : Chain
one = chain_or (new_chain ext 4 6) outcome

one_settled : outcome ≡ applied one
unfolding settle positive_weights new_chain apply_block tx_root ids_of mature_unbonding
    mature_accounts keys_of apply_txs upgrade_step finish_block aggregate mint_step block_reward
    mint_shares sort_shares insert_share credit_reward credit balance fold_retarget lookup insert
    total ◌+ℤ◌ ◌-ℤ◌
one_settled = refl

one_Made : Made ext 4 6 (mark_paid ext 9 one)
one_Made = marked 9 (settled 1 (pos 10) ((5, pos 1) ∷ []) 1001 (some proof) fresh one_settled)

Made-Replays_example : Replays ext (mark_paid ext 9 one)
Made-Replays_example = Made-Replays ext 4 6 (λ account digest. refl) one_Made

from_state-to_state_example :
    from_state ext (λ a. a) (to_state ext true (mark_paid ext 9 one)) none
    ≡ some (mark_paid ext 9 one)
from_state-to_state_example = from_state-to_state ext 4 6 (λ a. a) (λ account digest. refl) one_Made

quorums_meet_example : SignedBoth votes (pays 5) (1 ∷ 2 ∷ []) (pays 6) (3 ∷ 2 ∷ []) roster
unfolding collect_settlement_signatures distinct_signers contains sorted_set insert_set ◌+ℤ◌
quorums_meet_example =
    quorums_meet votes (pays 5) (pays 6) roster (1 ∷ 2 ∷ []) (3 ∷ 2 ∷ []) none (some (pos 2))
      (record {
        approved = true;
        n_signers = 2;
        n_required = pos 2;
        roster_n = 3;
        signers = 1 ∷ 2 ∷ [];
      })
      (record {
        approved = true;
        n_signers = 2;
        n_required = pos 2;
        roster_n = 3;
        signers = 2 ∷ 3 ∷ [];
      })
      refl refl refl refl

abbrev served : Export
served = record { coord_address = some 99; genesis_checkpoint = 6; blocks = one.blocks }

abbrev view_or : PublicView → Option PublicView → PublicView
view_or v none = v
view_or v (some w) = w

abbrev seen : Option PublicView
seen = verify_public_chain ext served (some 4) (some (some (counted roster), none))

abbrev empty_view : PublicView
empty_view = record { balances = []; minted = pos 0; height = 0; pinned = false }

seen_accepted : seen ≡ some (view_or empty_view seen)
unfolding verify_public_chain replay_blocks replay_from block_fault verify_block_quorum
    collect_settlement_signatures distinct_signers contains sorted_set insert_set settle
    positive_weights new_chain apply_block tx_root ids_of mature_unbonding mature_accounts keys_of
    apply_txs upgrade_step finish_block aggregate mint_step block_reward mint_shares sort_shares
    insert_share credit_reward credit balance fold_retarget lookup insert total ◌+ℤ◌ ◌-ℤ◌
seen_accepted = refl

verify_public_chain_sound_example :
    AllAuthorised ext (counted roster) none 4 genesis_prev_hash one.blocks
verify_public_chain_sound_example =
    verify_public_chain_sound ext served 4 (counted roster) none (view_or empty_view seen)
      seen_accepted

-- 8 holds too little
roster_enforced :
    lookup 7 (
      roster_source_select
        (λ a. a)
        enforce
        ((7, 70) ∷ (8, 80) ∷ [])
        (some ((8, pos 5) ∷ (7, min_stake) ∷ [])))
    ≡ some 70
unfolding any_of keys_of lookup
roster_enforced =
    roster_source_select_enforced (λ a. a) ((7, 70) ∷ (8, 80) ∷ [])
      ((8, pos 5) ∷ (7, min_stake) ∷ []) 7
