-- ===== src/Merkle/Honest.antt =====
-- neurahash/merkle_verify.py: an honest worker passes every check.
use native.Mathlib.Nat.{mod-lt}
use neurahash_miner.Base.{
  ◌%◌, ==_refl, ℕ, zero, suc, ◌+◌, ◌-◌, ◌≤◌, ◌<◌, true, none, some, List, [], ◌∷◌, length, get_or,
  ◌≡◌, refl, ◌∙◌, arith, contains,
}
use neurahash_miner.Merkle.Defs.{merkle_root, merkle_proof, merkle_verify, empty_root}
use neurahash_miner.Merkle.Proofs.{merkle_verify-merkle_proof}
use neurahash_miner.Merkle.Check.{
  Run, Shard, CheckResult, passed, train_states, leaves_of, prover_of, challenges, challenge,
  fiat_shamir_indices, merkle_check, train, all_in,
}

all_in-later : (x : ℕ) (xs ys : List ℕ) → all_in xs ys ≡ true → all_in xs (x ∷ ys) ≡ true
unfolding contains
all_in-later x [] ys h = refl
all_in-later x (y ∷ zs) ys h = ground (arith, h, all_in-later x zs ys)

all_in_self : (xs : List ℕ) → all_in xs xs ≡ true
unfolding contains
all_in_self [] = refl
all_in_self (x ∷ xs) = ground (arith, all_in-later x xs xs (all_in_self xs))

module _ {S : Type 0} (run : Run S) where
  open run use {one_step, state_leaf, matches_delta, hpair}

  length-leaves_of : (ps : List S) → length (leaves_of run ps) ≡ length ps
  length-leaves_of [] = refl
  length-leaves_of (p ∷ ps) = omega (arith, length-leaves_of ps)

  get_or-leaves_of :
      (ps : List S) (i : ℕ) (d : S)
      → i < length ps
      → get_or (leaves_of run ps) i empty_root ≡ state_leaf (get_or ps i d)
  get_or-leaves_of [] i d l = absurd (omega (arith, l))
  get_or-leaves_of (p ∷ ps) zero d l = refl
  get_or-leaves_of (p ∷ ps) (suc i) d l = get_or-leaves_of ps i d (omega (arith, l))

  length-train_states : (h step : ℕ) (p : S) → length (train_states run true none h step p) ≡ suc h
  unfolding train_states
  length-train_states zero step p = refl
  length-train_states (suc h) step p = omega (arith, length-train_states h (step + 1) (one_step p))

  step-train_states :
      (h step i : ℕ) (p d : S)
      → i < h
      → get_or (train_states run true none h step p) (suc i) d
        ≡ one_step (get_or (train_states run true none h step p) i d)
  unfolding train_states
  step-train_states zero step i p d l = absurd (omega (arith, l))
  step-train_states (suc zero) step zero p d l = refl
  step-train_states (suc (suc h)) step zero p d l = refl
  step-train_states (suc h) step (suc i) p d l =
      step-train_states h (step + 1) i (one_step p) d (omega (arith, l))

  -- a state of the run is in the root, by the worker's own proof
  committed :
      (ps : List S) (d : S) (i : ℕ)
      → i < length ps
      → merkle_verify hpair
          (state_leaf (get_or ps i d))
          (merkle_proof hpair (leaves_of run ps) i)
          (merkle_root hpair (leaves_of run ps))
        ≡ true
  committed ps d i l = rw (← get_or-leaves_of ps i d l) (
      merkle_verify-merkle_proof hpair (leaves_of run ps) i (omega (arith, l, length-leaves_of ps)))

  pred_suc : (i : ℕ) → suc i - 1 ≡ i
  pred_suc i = omega arith

  honest_challenge :
      (h j : ℕ) (global : S) (rest : CheckResult)
      → 1 ≤ j
      → j ≤ h
      → challenge run
          (prover_of run (train_states run true none h 0 global) global)
          (merkle_root hpair (leaves_of run (train_states run true none h 0 global)))
          j
          rest
        ≡ rest
  unfolding challenge
  honest_challenge h zero global rest l m = absurd (omega (arith, l))
  honest_challenge h (suc i) global rest l m =
      let ps = train_states run true none h 0 global in
      let len = length-train_states h 0 global in
      rw
        (
          pred_suc i,
          ← step-train_states h 0 i global global (omega (arith, m)),
          committed ps global i (omega (arith, m, len)),
          committed ps global (suc i) (omega (arith, m, len)),
        )
        (λ k. rest)

  honest_challenges :
      (h t n root data_hash beacon : ℕ) (global : S)
      → 0 < h
      → challenges run
          (prover_of run (train_states run true none h 0 global) global)
          (merkle_root hpair (leaves_of run (train_states run true none h 0 global)))
          (fiat_shamir_indices run root data_hash beacon h t n)
        ≡ passed
  unfolding challenges fiat_shamir_indices
  honest_challenges h t zero root data_hash beacon global l = λ k. passed
  honest_challenges h t (suc n) root data_hash beacon global l =
      let j = run.draw root data_hash beacon t % h + 1 in
      honest_challenge h j global
        (challenges run (prover_of run (train_states run true none h 0 global) global)
          (merkle_root hpair (leaves_of run (train_states run true none h 0 global)))
          (fiat_shamir_indices run root data_hash beacon h (t + 1) n))
        (omega arith) (omega (arith, mod-lt (run.draw root data_hash beacon t) l))
      ∙ honest_challenges h (t + 1) n root data_hash beacon global l

  -- An honest worker's submission passes the check of the verifier that assigned its data, for every
  -- beacon and number of challenges, where it took at least one step and its delta is that of its
  -- final state.
  pub merkle_check_complete :
      (h n beacon : ℕ) (global : S) (shard : Shard) (keys : List ℕ)
      → 0 < h
      → matches_delta (get_or (train_states run true none h 0 global) h global) ≡ true
      → merkle_check run
          (train run true none h global shard keys)
          (prover_of run (train_states run true none h 0 global) global)
          shard
          n
          (some h)
          beacon
        ≡ passed
  unfolding merkle_check train
  merkle_check_complete h n beacon global shard keys l d =
      let ps = train_states run true none h 0 global in
      rw
        (
          ==_refl h,
          ==_refl shard.data_leaf,
          ==_refl shard.size,
          all_in_self keys,
          committed ps global h (omega (arith, length-train_states h 0 global)),
          d,
        )
        (honest_challenges h 0 n (merkle_root hpair (leaves_of run ps)) shard.data_leaf beacon
          global l)
