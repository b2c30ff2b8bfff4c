-- ===== src/Settlement/Quorum.antt =====
-- neurahash/diloco_settlement.py: two quorums over one roster share a validator.
use neurahash_miner.Base.{
  +ℤ_parts, negsuc, leb_ℤ, if◌then◌else◌, inr, inl, ℕ, ◌+◌, ◌<◌, Bool, true, false, List, [], ◌∷◌,
  Option, none, some, length, contains, ℤ, pos, ◌≡◌, sorted_set, sorted_set-IsAscending, arith,
  Bool-cases,
}
use neurahash_miner.Guardian.Defs.{Recovery, normal_all, distinct_signers}
use neurahash_miner.Guardian.Signers.{has_signed, signing_members, distinct_signers_exact}
use neurahash_miner.Settlement.Multisig.{
  is_approved, is_strict_majority, threshold_of, Decision, counted, Tally,
  collect_settlement_signatures, roster_set,
}

module _ (ext : Recovery Decision) where
  -- a member that signed both decisions
  abbrev pub SignedBoth : Decision → List ℕ → Decision → List ℕ → List ℕ → Type 0
  SignedBoth d sigs d' sigs' members =
      (a : ℕ) × (contains a members ≡ true)
      × (has_signed ext d sigs a ≡ true)
      × (has_signed ext d' sigs' a ≡ true)

  later_both :
      (d d' : Decision) (sigs sigs' : List ℕ) (b : ℕ) (bs : List ℕ)
      → SignedBoth d sigs d' sigs' bs
      → SignedBoth d sigs d' sigs' (b ∷ bs)
  unfolding contains
  later_both d d' sigs sigs' b bs (a, c, e, f) = (a, ground (arith, c), e, f)

  head_both :
      (d d' : Decision) (sigs sigs' : List ℕ) (b : ℕ) (bs : List ℕ)
      → has_signed ext d sigs b ≡ true
      → has_signed ext d' sigs' b ≡ true
      → SignedBoth d sigs d' sigs' (b ∷ bs)
  unfolding contains
  head_both d d' sigs sigs' b bs e f = (b, ground arith, e, f)

  -- more signatures than members, so a member with both
  overlap :
      (d d' : Decision) (sigs sigs' : List ℕ) (members : List ℕ)
      → length members
        < length (signing_members ext d sigs members)
          + length (signing_members ext d' sigs' members)
      → SignedBoth d sigs d' sigs' members
  unfolding signing_members
  overlap d d' sigs sigs' [] l = absurd (omega (arith, l))
  overlap d d' sigs sigs' (b ∷ bs) l = elim (Bool-cases (has_signed ext d sigs b)) [
    | inl e ↦ elim (Bool-cases (has_signed ext d' sigs' b)) [
      | inl f ↦ head_both d d' sigs sigs' b bs e f
      | inr f ↦
          later_both d d' sigs sigs' b bs (overlap d d' sigs sigs' bs (ground (arith, e, f, l)))
    ]
    | inr e ↦ later_both d d' sigs sigs' b bs (overlap d d' sigs sigs' bs (ground (arith, e, l)))
  ]

  abbrev members : List ℕ → List ℕ
  members as' = sorted_set (normal_all ext as')

  tally_made :
      (b : Bool) (t v : Tally)
      → (if b then some t else none) ≡ some v
      → v.approved ≡ true
      → (b ≡ true) × (t.approved ≡ true)
  tally_made true t v e f = ground (arith, e, f)
  tally_made false t v e f = ground (arith, e)

  pub strict_count :
      (n k : ℕ) (m : ℤ) → is_strict_majority m n ≡ true → leb_ℤ m (pos k) ≡ true → n < k + k
  strict_count n k (pos m) e f = ground (arith, e, f, +ℤ_parts (pos m) (pos m))
  strict_count n k (negsuc m) e f = ground (arith, e, f, +ℤ_parts (negsuc m) (negsuc m))

  -- an approval by count has more than half of the members behind it
  majority_signed :
      (d : Decision) (as' sigs : List ℕ) (m : Option ℤ) (v : Tally)
      → collect_settlement_signatures ext d (counted as') sigs m ≡ some v
      → v.approved ≡ true
      → length (members as')
        < length (signing_members ext d sigs (members as'))
          + length (signing_members ext d sigs (members as'))
  unfolding collect_settlement_signatures
  majority_signed d as' sigs m v e f =
      let gs = roster_set ext (counted as') (threshold_of m (length (members as'))) in
      let t : Tally = record {
        approved = is_approved ext (counted as') gs.threshold (distinct_signers ext gs d sigs);
        n_signers = length (distinct_signers ext gs d sigs);
        n_required = gs.threshold;
        roster_n = length gs.members;
        signers = distinct_signers ext gs d sigs;
      } in
      let (strict, many) =
        tally_made (is_strict_majority gs.threshold (length gs.members)) t v e f in
      let same =
        distinct_signers_exact ext gs d sigs (sorted_set-IsAscending (normal_all ext as')) in
      rw (← same) (
        strict_count (length (members as')) (length (distinct_signers ext gs d sigs)) gs.threshold
          strict many)

  -- Two reward decisions that are both approved over one roster counted by heads, each under any
  -- threshold that is accepted, were both signed by some validator of the roster: conflicting
  -- settlements need a validator that signs both.
  pub quorums_meet :
      (d d' : Decision) (as' sigs sigs' : List ℕ) (m m' : Option ℤ) (v v' : Tally)
      → collect_settlement_signatures ext d (counted as') sigs m ≡ some v
      → v.approved ≡ true
      → collect_settlement_signatures ext d' (counted as') sigs' m' ≡ some v'
      → v'.approved ≡ true
      → SignedBoth d sigs d' sigs' (members as')
  quorums_meet d d' as' sigs sigs' m m' v v' e f e' f' =
      overlap d d' sigs sigs' (members as') (
        omega (arith, majority_signed d as' sigs m v e f, majority_signed d' as' sigs' m' v' e' f'))
