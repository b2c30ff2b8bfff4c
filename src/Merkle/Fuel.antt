-- ===== src/Merkle/Fuel.antt =====
-- neurahash/merkle_verify.py: the loops end, since each level is shorter than the one below.
use neurahash_miner.Base.{Bool, ◌/◌, ltb, get_or, ℕ, List, [], ◌∷◌, suc, ◌≤◌}
use neurahash_miner.Merkle.Defs.{empty_root, sibling, padded, pair_up}

module _ (hpair : ℕ → ℕ → ℕ) where
  -- the loop of the root, without fuel: so many rounds from a level end with the root
  pub data RootRun : ℕ → List ℕ → ℕ → Type 0 where
    no_leaves : RootRun 0 [] empty_root
    one_left : (a : ℕ) → RootRun 0 (a ∷ []) a
    up :
        {n a b r : ℕ} {level : List ℕ}
        → RootRun n (pair_up hpair (padded (a ∷ b ∷ level))) r
        → RootRun (suc n) (a ∷ b ∷ level) r

  -- the loop of a proof likewise, with the index in the level
  pub data ProofRun : ℕ → List ℕ → ℕ → List (ℕ × Bool) → Type 0 where
    nothing_left : (i : ℕ) → ProofRun 0 [] i []
    at_root : (a i : ℕ) → ProofRun 0 (a ∷ []) i []
    past :
        {n a b i : ℕ} {level : List ℕ} {proof : List (ℕ × Bool)}
        → ProofRun n (pair_up hpair (padded (a ∷ b ∷ level))) (i / 2) proof
        → ProofRun
            (suc n)
            (a ∷ b ∷ level)
            i
            ((get_or (padded (a ∷ b ∷ level)) (sibling i) empty_root, ltb (sibling i) i) ∷ proof)

  -- what enough fuel for a level gives
  pub record Ends (fuel : ℕ) (level : List ℕ) (i : ℕ) (root : ℕ) (proof : List (ℕ × Bool))
      : Type 0 where
    pub rounds : ℕ
    pub few : rounds ≤ fuel
    pub root_run : RootRun rounds level root
    pub proof_run : ProofRun rounds level i proof
