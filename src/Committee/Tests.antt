-- ===== src/Committee/Tests.antt =====
-- neurahash/diloco_committee.py: three staked verifiers vote on one candidate.
use neurahash_miner.Base.{
  contains, ◌+ℤ◌, ◌+◌, ◌<◌, length, ℕ, Bool, true, false, Option, none, some, List, [], ◌∷◌, pos,
  ◌≡◌, refl, sorted_set,
}
use neurahash_miner.Committee.Defs.{
  verify_diloco_attestation, slashable_of, count_votes, aggregate_diloco_attestations,
  bound_answers, lower_addresses, verify_diloco_candidate, Voting, Attestation, CommitteeVerdict,
  listed, gated_accept,
}
use neurahash_miner.Committee.Majority.{has_accepted, count_where, accepted_by_majority}

-- every signature recovers to itself
abbrev ext : Voting
ext = record { recover = λ h r b a g sig. some sig; lower = λ a. a }

abbrev vote : ℕ → Bool → Option Attestation
vote a says = some record {
  delta_hash = 9;
  base_round = pos 3;
  beacon = 77;
  accepted = says;
  gain = pos 20;
  verifier_addr = some a;
  sig = a;
}

-- The first votes twice, the second accepts, the third rejects, the fourth is not selected, and one
-- is out of reach.
abbrev answers : List (Option Attestation)
answers = vote 1 true ∷ vote 1 true ∷ vote 2 true ∷ vote 3 false ∷ vote 4 true ∷ none ∷ []

abbrev selected : List ℕ
selected = 1 ∷ 2 ∷ 3 ∷ []

abbrev verdict : CommitteeVerdict
verdict = record {
  accepted = true;
  n_accept = 2;
  n_total = 3;
  quorum_met = true;
  selected_n = 3;
  slashable = 3 ∷ [];
}

counts_once :
    verify_diloco_candidate ext answers 77 (pos 2) (listed selected) (pos 0) (pos 0) ≡ some verdict
unfolding verify_diloco_candidate sorted_set ◌+ℤ◌ aggregate_diloco_attestations count_votes
    slashable_of bound_answers verify_diloco_attestation contains
counts_once = refl

accepted_by_majority_example :
    (true ≡ true)
    × (length (sorted_set (lower_addresses ext selected))
        < count_where
            (has_accepted ext (bound_answers ext 77 answers))
            (sorted_set (lower_addresses ext selected))
          + count_where
              (has_accepted ext (bound_answers ext 77 answers))
              (sorted_set (lower_addresses ext selected)))
unfolding gated_accept
accepted_by_majority_example =
    accepted_by_majority ext answers 77 (pos 2) selected (pos 0) (pos 0) verdict true 2 counts_once
      refl
