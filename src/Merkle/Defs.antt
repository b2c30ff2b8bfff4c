-- ===== src/Merkle/Defs.antt =====
-- neurahash/merkle_verify.py: roots, proofs and their check, and the challenges of a run. A hash is
-- a number.
use neurahash_miner.Base.{
  ℕ, zero, suc, ◌+◌, ◌-◌, ◌/◌, ◌%◌, Bool, ◌==◌, ltb, if◌then◌else◌, List, [], ◌∷◌, length, get_or,
}

-- the root of no leaves, thirty-two zero bytes
abbrev pub empty_root : ℕ
empty_root = 0

-- `i ^ 1`
abbrev pub sibling : ℕ → ℕ
sibling i = if i % 2 == 0 then i + 1 else i - 1

-- `level.append(level[-1])` where the length is odd
unfoldable pub padded : List ℕ → List ℕ
padded [] = []
padded (a ∷ []) = a ∷ a ∷ []
padded (a ∷ b ∷ level) = a ∷ b ∷ padded level

-- `_hpair`
module _ (hpair : ℕ → ℕ → ℕ) where
  -- the level above a padded level
  unfoldable pub pair_up : List ℕ → List ℕ
  pair_up [] = []
  pair_up (a ∷ []) = []
  pair_up (a ∷ b ∷ level) = hpair a b ∷ pair_up level

  -- the loop of `merkle_root`, on fuel, which runs out in the first clause
  unfoldable pub root_loop : ℕ → List ℕ → ℕ
  root_loop zero level = empty_root
  root_loop (suc fuel) [] = empty_root
  root_loop (suc fuel) (a ∷ []) = a
  root_loop (suc fuel) (a ∷ b ∷ level) = root_loop fuel (pair_up (padded (a ∷ b ∷ level)))

  -- a level is shorter than the one below, so as much fuel as leaves is enough
  unfoldable pub merkle_root : List ℕ → ℕ
  merkle_root leaves = root_loop (length leaves) leaves

  unfoldable pub proof_loop : ℕ → List ℕ → ℕ → List (ℕ × Bool)
  proof_loop zero level i = []
  proof_loop (suc fuel) [] i = []
  proof_loop (suc fuel) (a ∷ []) i = []
  proof_loop (suc fuel) (a ∷ b ∷ level) i =
      (get_or (padded (a ∷ b ∷ level)) (sibling i) empty_root, ltb (sibling i) i)
      ∷ proof_loop fuel (pair_up (padded (a ∷ b ∷ level))) (i / 2)

  unfoldable pub merkle_proof : List ℕ → ℕ → List (ℕ × Bool)
  merkle_proof leaves idx = proof_loop (length leaves) leaves idx

  -- the loop of `merkle_verify`
  unfoldable pub climb : ℕ → List (ℕ × Bool) → ℕ
  climb h [] = h
  climb h ((sib, sib_is_left) ∷ proof) =
      climb (if sib_is_left then hpair sib h else hpair h sib) proof

  unfoldable pub merkle_verify : ℕ → List (ℕ × Bool) → ℕ → Bool
  merkle_verify leaf proof root = climb leaf proof == root
