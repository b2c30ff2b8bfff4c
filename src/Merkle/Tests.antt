-- ===== src/Merkle/Tests.antt =====
-- neurahash/merkle_verify.py: a tree of five leaves.
use neurahash_miner.Merkle.Honest.{merkle_check_complete}
use neurahash_miner.Merkle.Check.{
  endpoint_not_committed, passed, prover_of, train, Run, merkle_check, train_states, Shard,
}
use neurahash_miner.Base.{
  some, false, none, contains, ◌==◌, refl, ◌++◌, ℕ, ◌+◌, ◌*◌, List, [], ◌∷◌, true, ◌≡◌, arith,
}
use neurahash_miner.Merkle.Defs.{
  merkle_verify, merkle_proof, merkle_root, padded, pair_up, root_loop, proof_loop, climb,
}
use neurahash_miner.Merkle.Proofs.{merkle_verify-merkle_proof}

abbrev toy : ℕ → ℕ → ℕ
toy a b = 3 * a + b + 1

abbrev leaves : List ℕ
leaves = 10 ∷ 11 ∷ 12 ∷ 13 ∷ 14 ∷ []

merkle_verify-merkle_proof_example :
    merkle_verify toy 14 (merkle_proof toy leaves 4) (merkle_root toy leaves) ≡ true
merkle_verify-merkle_proof_example = merkle_verify-merkle_proof toy leaves 4 (omega arith)

checks_by_hand : merkle_root toy leaves ≡ merkle_root toy (leaves ++ (14 ∷ []))
unfolding merkle_root root_loop pair_up padded
checks_by_hand = refl

-- a state is a number, a step adds two, and a state is its own hash
abbrev toy_run : Run ℕ
toy_run = record {
  one_step = λ p. p + 2;
  state_leaf = λ p. p;
  matches_delta = λ p. p == 7;
  hpair = toy;
  draw = λ root hash beacon t. root + beacon + t;
}

abbrev shard : Shard
shard = record { data_leaf = 55; size = 4 }

merkle_check_complete_example :
    merkle_check toy_run
      (train toy_run true none 3 1 shard (8 ∷ 9 ∷ []))
      (prover_of toy_run (train_states toy_run true none 3 0 1) 1)
      shard
      5
      (some 3)
      12
    ≡ passed
unfolding train_states
merkle_check_complete_example =
    merkle_check_complete toy_run 3 5 12 1 shard (8 ∷ 9 ∷ []) (omega arith) refl

-- states other than the committed ones are refused
swapped_states :
    merkle_check toy_run
      (train toy_run true none 2 3 shard (8 ∷ []))
      (prover_of toy_run (train_states toy_run false (some 1) 2 0 5) 5)
      shard
      2
      (some 2)
      0
    ≡ endpoint_not_committed
unfolding merkle_check train train_states merkle_verify merkle_proof merkle_root root_loop
    proof_loop pair_up padded climb contains
swapped_states = refl
