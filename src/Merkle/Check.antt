-- ===== src/Merkle/Check.antt =====
-- neurahash/merkle_verify.py: a worker that commits its run, and the check of an endpoint and of
-- challenged steps. The states of the model, one step of training and the hash of a state are
-- parameters: they are tensor arithmetic.
use neurahash_miner.Base.{
  ℕ, zero, suc, ◌+◌, ◌-◌, ◌%◌, Bool, true, false, not, ◌&&◌, ◌==◌, ltb, if◌then◌else◌, Option, none,
  some, List, [], ◌∷◌, get_or, contains,
}
use neurahash_miner.Merkle.Defs.{merkle_root, merkle_proof, merkle_verify}

-- What `MerkleWorker.train` submits. `delta_keys` are the keys of its delta.
pub record Submission : Type 0 where
  pub declared_steps : ℕ
  pub root : ℕ
  pub data_hash : ℕ
  pub n_examples : ℕ
  pub delta_keys : List ℕ
  pub trainable_keys : List ℕ

-- the data a verifier assigned: its hash and its size
pub record Shard : Type 0 where
  pub data_leaf : ℕ
  pub size : ℕ

pub data CheckResult : Type 0 where
  passed wrong_steps extra_keys wrong_shard wrong_size endpoint_not_committed : CheckResult
  delta_mismatch state_not_committed step_inconsistent : CheckResult

-- What the model provides: one training step, the hash of a state, whether a final state agrees
-- with the submitted delta, the hash of a pair, and the hash a challenge is drawn from.
pub record Run (S : Type 0) : Type 0 where
  pub one_step : S → S
  pub state_leaf : S → ℕ
  pub matches_delta : S → Bool
  pub hpair : ℕ → ℕ → ℕ
  pub draw : ℕ → ℕ → ℕ → ℕ → ℕ

-- the worker's states and the proofs it shows for them
pub record Prover (S : Type 0) : Type 0 where
  pub state : ℕ → S
  pub proof : ℕ → List (ℕ × Bool)

abbrev pub all_in : List ℕ → List ℕ → Bool
all_in [] ys = true
all_in (x ∷ xs) ys = contains x ys && all_in xs ys

-- `set(a) != set(b)`, negated
abbrev pub same_set : List ℕ → List ℕ → Bool
same_set xs ys = all_in xs ys && all_in ys xs

module _ {S : Type 0} (run : Run S) where
  open run use {one_step, state_leaf, matches_delta, hpair, draw}

  -- the loop of `train`: an honest worker takes every step, a lazy one those before `skip_after`
  abbrev pub takes_step : Bool → Option ℕ → ℕ → Bool
  takes_step true skip step = true
  takes_step false none step = true
  takes_step false (some k) step = ltb step k

  unfoldable pub train_states : Bool → Option ℕ → ℕ → ℕ → S → List S
  train_states honest skip zero step p = p ∷ []
  train_states honest skip (suc h) step p =
      p
      ∷ train_states honest skip h (step + 1)
          (if takes_step honest skip step then one_step p else p)

  abbrev pub leaves_of : List S → List ℕ
  leaves_of [] = []
  leaves_of (p ∷ ps) = state_leaf p ∷ leaves_of ps

  -- `MerkleWorker.state` and `MerkleWorker.proof`, after `train`
  abbrev pub prover_of : List S → S → Prover S
  prover_of states global = record {
    state = λ i. get_or states i global;
    proof = λ i. merkle_proof hpair (leaves_of states) i;
  }

  -- `_fiat_shamir_indices`, for the challenges `t` to `t + n - 1`. The declared steps `h` are taken
  -- to be positive: at 0 the source's `%` raises.
  unfoldable pub fiat_shamir_indices : ℕ → ℕ → ℕ → ℕ → ℕ → ℕ → List ℕ
  fiat_shamir_indices root data_hash beacon h t zero = []
  fiat_shamir_indices root data_hash beacon h t (suc n) =
      (draw root data_hash beacon t % h + 1) ∷ fiat_shamir_indices root data_hash beacon h (t + 1) n

  -- one challenge
  unfoldable pub challenge : Prover S → ℕ → ℕ → CheckResult → CheckResult
  challenge prover root j rest =
      let s_prev = prover.state (j - 1) in
      if not (merkle_verify hpair (state_leaf s_prev) (prover.proof (j - 1)) root)
      then state_not_committed
      else if not (merkle_verify hpair (state_leaf (one_step s_prev)) (prover.proof j) root)
      then step_inconsistent
      else rest

  unfoldable pub challenges : Prover S → ℕ → List ℕ → CheckResult
  challenges prover root [] = passed
  challenges prover root (j ∷ js) = challenge prover root j (challenges prover root js)

  abbrev pub steps_differ : Option ℕ → ℕ → Bool
  steps_differ none declared = false
  steps_differ (some h) declared = not (declared == h)

  unfoldable pub merkle_check : Submission → Prover S → Shard → ℕ → Option ℕ → ℕ → CheckResult
  merkle_check sub prover shard n_challenges protocol_steps beacon =
      let h = sub.declared_steps in
      if steps_differ protocol_steps h
      then wrong_steps
      else if not (same_set sub.delta_keys sub.trainable_keys)
      then extra_keys
      else if not (sub.data_hash == shard.data_leaf)
      then wrong_shard
      else if not (sub.n_examples == shard.size)
      then wrong_size
      else if not (merkle_verify hpair (state_leaf (prover.state h)) (prover.proof h) sub.root)
      then endpoint_not_committed
      else if not (matches_delta (prover.state h))
      then delta_mismatch
      else challenges prover sub.root
          (fiat_shamir_indices sub.root sub.data_hash beacon h 0 n_challenges)

  -- what an honest or lazy worker submits after `h` steps from the global state
  unfoldable pub train : Bool → Option ℕ → ℕ → S → Shard → List ℕ → Submission
  train honest skip h global shard keys = record {
    declared_steps = h;
    root = merkle_root hpair (leaves_of (train_states honest skip h 0 global));
    data_hash = shard.data_leaf;
    n_examples = shard.size;
    delta_keys = keys;
    trainable_keys = keys;
  }
