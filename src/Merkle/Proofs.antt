-- ===== src/Merkle/Proofs.antt =====
-- neurahash/merkle_verify.py: the proof of a leaf checks against the root.
use neurahash_miner.Base.{
  ==_iff, ltb, ℕ, zero, suc, ◌+◌, ◌/◌, ◌≤◌, ◌<◌, Bool, true, false, List, [], ◌∷◌, length, get_or,
  ◌≡◌, refl, ◌∙◌, sym, ap, arith, if◌then◌else◌, ==_refl,
}
use neurahash_miner.Merkle.Defs.{
  padded, pair_up, root_loop, proof_loop, climb, merkle_root, merkle_proof, merkle_verify, sibling,
  empty_root,
}

module _ (hpair : ℕ → ℕ → ℕ) where
  pub length-pair_up :
      (level : List ℕ)
      → length (pair_up hpair (padded level)) + length (pair_up hpair (padded level))
        ≤ length level + 1
  unfolding pair_up padded
  length-pair_up [] = omega arith
  length-pair_up (a ∷ []) = omega arith
  length-pair_up (a ∷ b ∷ level) = omega (arith, length-pair_up level)

  half_in :
      (level : List ℕ) (i : ℕ) → i < length level → i / 2 < length (pair_up hpair (padded level))
  unfolding pair_up padded
  half_in [] i l = absurd (omega (arith, l))
  half_in (a ∷ []) i l = omega (arith, l)
  half_in (a ∷ b ∷ level) zero l = omega arith
  half_in (a ∷ b ∷ level) (suc zero) l = omega arith
  half_in (a ∷ b ∷ level) (suc (suc i)) l = omega (arith, half_in level i (omega (arith, l)))

  sibling_step : (i : ℕ) → sibling (suc (suc i)) ≡ suc (suc (sibling i))
  sibling_step i = ground arith

  half_step : (i : ℕ) → suc (suc i) / 2 ≡ suc (i / 2)
  half_step i = omega arith

  -- a node and its sibling hash to the node above
  parent :
      (level : List ℕ) (i : ℕ)
      → i < length level
      → (if ltb (sibling i) i
          then hpair (get_or (padded level) (sibling i) empty_root) (get_or level i empty_root)
          else hpair (get_or level i empty_root) (get_or (padded level) (sibling i) empty_root))
        ≡ get_or (pair_up hpair (padded level)) (i / 2) empty_root
  unfolding pair_up padded
  parent [] i l = absurd (omega (arith, l))
  parent (a ∷ []) zero l = refl
  parent (a ∷ []) (suc i) l = absurd (omega (arith, l))
  parent (a ∷ b ∷ level) zero l = refl
  parent (a ∷ b ∷ level) (suc zero) l = refl
  parent (a ∷ b ∷ level) (suc (suc i)) l =
      rw (sibling_step i, half_step i) (ground (arith, parent level i (omega (arith, l))))

  climb-proof_loop :
      (fuel : ℕ) (level : List ℕ) (i : ℕ)
      → i < length level
      → length level ≤ fuel
      → climb hpair (get_or level i empty_root) (proof_loop hpair fuel level i)
        ≡ root_loop hpair fuel level
  unfolding climb proof_loop root_loop
  climb-proof_loop zero level i l f = absurd (omega (arith, l, f))
  climb-proof_loop (suc fuel) [] i l f = absurd (omega (arith, l))
  climb-proof_loop (suc fuel) (a ∷ []) zero l f = refl
  climb-proof_loop (suc fuel) (a ∷ []) (suc i) l f = absurd (omega (arith, l))
  climb-proof_loop (suc fuel) (a ∷ b ∷ level) i l f =
      let up = pair_up hpair (padded (a ∷ b ∷ level)) in
      ap (λ h. climb hpair h (proof_loop hpair fuel up (i / 2))) (parent (a ∷ b ∷ level) i l)
      ∙ climb-proof_loop fuel up (i / 2) (half_in (a ∷ b ∷ level) i l)
          (omega (arith, f, length-pair_up (a ∷ b ∷ level)))

  -- The proof made for any leaf of a tree checks against the tree's root.
  pub merkle_verify-merkle_proof :
      (leaves : List ℕ) (i : ℕ)
      → i < length leaves
      → merkle_verify hpair
          (get_or leaves i empty_root)
          (merkle_proof hpair leaves i)
          (merkle_root hpair leaves)
        ≡ true
  unfolding merkle_verify merkle_proof merkle_root
  merkle_verify-merkle_proof leaves i l =
      rw (climb-proof_loop (length leaves) leaves i l (omega arith))
        (==_refl (root_loop hpair (length leaves) leaves))

  climb_inj :
      (x y : ℕ) (path : List (ℕ × Bool))
      → ((a b c d : ℕ) → hpair a b ≡ hpair c d → (a ≡ c) × (b ≡ d))
      → climb hpair x path ≡ climb hpair y path
      → x ≡ y
  unfolding climb
  climb_inj x y [] inj e = e
  climb_inj x y ((s, true) ∷ path) inj e =
      (inj s x s y (climb_inj (hpair s x) (hpair s y) path inj e)).1
  climb_inj x y ((s, false) ∷ path) inj e =
      (inj x s y s (climb_inj (hpair x s) (hpair y s) path inj e)).0

  -- Where the hash of a pair determines the pair, the proof made for a leaf is a proof of that leaf
  -- alone: whatever checks with it against the root is the leaf.
  pub merkle_proof_binds :
      (leaves : List ℕ) (i x : ℕ)
      → ((a b c d : ℕ) → hpair a b ≡ hpair c d → (a ≡ c) × (b ≡ d))
      → i < length leaves
      → merkle_verify hpair x (merkle_proof hpair leaves i) (merkle_root hpair leaves) ≡ true
      → x ≡ get_or leaves i empty_root
  unfolding merkle_verify merkle_proof merkle_root
  merkle_proof_binds leaves i x inj l e =
      let path = proof_loop hpair (length leaves) leaves i in
      let root = root_loop hpair (length leaves) leaves in
      climb_inj x (get_or leaves i empty_root) path inj (
        (==_iff (climb hpair x path) root).0 e
        ∙ sym (climb-proof_loop (length leaves) leaves i l (omega arith)))
