-- ===== src/Validators/Honest.antt =====
-- neurahash/quorum.py: an honest quorum decides right, and only liars are slashed.
use neurahash_miner.Base.{
  negsuc, ==_refl, +ℤ_parts, leb_ℤ, sorted_set, ◌+ℤ◌, ◌++◌, pos, ltb_ℤ, ℤ, ◌≤◌, some, ◌-◌, inr,
  arith, refl, inl, ◌+◌, Bool-cases, ap, [], suc, false, if◌then◌else◌, ◌≡◌, true, ◌∷◌, ℕ, length,
  Bool, List,
}
use neurahash_miner.Validators.Defs.{
  addresses_of, slash_all, slash_for, quorum_verify, decided, QuorumInfo, votes_of, vote,
  off_consensus, count_valid, Validator,
}

-- how many validators are honest, and the addresses of the others
abbrev pub honest_count : List Validator → ℕ
honest_count [] = 0
honest_count (v ∷ vs) = let rest = honest_count vs in if v.honest then suc rest else rest

abbrev pub liars : List Validator → List ℕ
liars [] = []
liars (v ∷ vs) = let rest = liars vs in if v.honest then rest else v.address ∷ rest

-- the number of votes for the verdict and against it
count_valid-true : (vs : List Validator) → count_valid (votes_of true vs) ≡ honest_count vs
unfolding count_valid vote
count_valid-true [] = refl
count_valid-true (v ∷ vs) = elim (Bool-cases v.honest) [
  | inl e ↦ ground (arith, e, count_valid-true vs)
  | inr e ↦ ground (arith, e, count_valid-true vs)
]

count_valid-false :
    (vs : List Validator) → count_valid (votes_of false vs) + honest_count vs ≡ length vs
unfolding count_valid vote
count_valid-false [] = refl
count_valid-false (v ∷ vs) = elim (Bool-cases v.honest) [
  | inl e ↦ ground (arith, e, count_valid-false vs)
  | inr e ↦ ground (arith, e, count_valid-false vs)
]

length-votes_of : (valid : Bool) (vs : List Validator) → length (votes_of valid vs) ≡ length vs
length-votes_of valid [] = refl
length-votes_of valid (v ∷ vs) = ap suc (length-votes_of valid vs)

off_consensus-votes_of :
    (valid : Bool) (vs : List Validator) → off_consensus valid (votes_of valid vs) ≡ liars vs
unfolding off_consensus vote
off_consensus-votes_of valid [] = refl
off_consensus-votes_of true (v ∷ vs) = elim (Bool-cases v.honest) [
  | inl e ↦ ground (arith, e, off_consensus-votes_of true vs)
  | inr e ↦ ground (arith, e, off_consensus-votes_of true vs)
]
off_consensus-votes_of false (v ∷ vs) = elim (Bool-cases v.honest) [
  | inl e ↦ ground (arith, e, off_consensus-votes_of false vs)
  | inr e ↦ ground (arith, e, off_consensus-votes_of false vs)
]

honest_count_le : (vs : List Validator) → honest_count vs ≤ length vs
honest_count_le [] = omega arith
honest_count_le (v ∷ vs) = elim (Bool-cases v.honest) [
  | inl e ↦ ground (arith, e, honest_count_le vs)
  | inr e ↦ ground (arith, e, honest_count_le vs)
]

-- as many as the threshold against fewer
decided_right :
    (valid : Bool) (n h v : ℕ) (m : ℤ)
    → (if valid then v else n - v) ≡ h
    → v ≤ n
    → ltb_ℤ (pos n) (m +ℤ m) ≡ true
    → leb_ℤ m (pos h) ≡ true
    → decided m v (n - v) ≡ some valid
unfolding decided
decided_right true n h v (pos m) e b s l = ground (arith, e, b, s, l, +ℤ_parts (pos m) (pos m))
decided_right true n h v (negsuc m) e b s l =
    ground (arith, e, b, s, l, +ℤ_parts (negsuc m) (negsuc m))
decided_right false n h v m e b s l = ground (arith, e, l)

honest_votes :
    (valid : Bool) (vs : List Validator)
    → ((if valid
          then count_valid (votes_of valid vs)
          else length vs - count_valid (votes_of valid vs))
        ≡ honest_count vs)
      × (count_valid (votes_of valid vs) ≤ length vs)
honest_votes true vs = (count_valid-true vs, omega (arith, count_valid-true vs, honest_count_le vs))
honest_votes false vs = (omega (arith, count_valid-false vs), omega (arith, count_valid-false vs))

-- the number of votes that the submission is valid
abbrev pub valid_votes : Bool → List Validator → ℕ
valid_votes true vs = honest_count vs
valid_votes false vs = length vs - honest_count vs

count_valid-votes_of :
    (valid : Bool) (vs : List Validator) → count_valid (votes_of valid vs) ≡ valid_votes valid vs
count_valid-votes_of true vs = count_valid-true vs
count_valid-votes_of false vs = omega (arith, count_valid-false vs)

-- what the quorum finds where it decides by the verdict
abbrev pub info : Bool → ℕ → List Validator → ℕ → QuorumInfo
info valid worker vs n_valid = record {
  accepted = some valid;
  n_valid = n_valid;
  n_invalid = length vs - n_valid;
  validators_slashed = liars vs;
  slashes = slash_for (some valid) worker ++ slash_all (liars vs);
}

-- Where at least the threshold's number of validators are honest, the threshold is a strict
-- majority and the addresses are distinct, the quorum decides by the true verdict, the worker is
-- slashed exactly when its submission is invalid, and of the validators exactly the liars are.
pub quorum_verify-honest :
    (valid : Bool) (worker : ℕ) (vs : List Validator) (m : ℤ)
    → ltb_ℤ (pos (length vs)) (m +ℤ m) ≡ true
    → length (sorted_set (addresses_of vs)) ≡ length vs
    → leb_ℤ m (pos (honest_count vs)) ≡ true
    → quorum_verify valid worker vs m ≡ some (info valid worker vs (valid_votes valid vs))
unfolding quorum_verify
quorum_verify-honest valid worker vs m s d h =
    let (e, b) = honest_votes valid vs in
    let right =
      decided_right valid (length vs) (honest_count vs) (count_valid (votes_of valid vs)) m e b s
        h in
    rw (← count_valid-votes_of valid vs) (
      rw
        (
          s,
          d,
          ==_refl (length vs),
          length-votes_of valid vs,
          right,
          off_consensus-votes_of valid vs,
        )
        refl)
