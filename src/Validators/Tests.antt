-- ===== src/Validators/Tests.antt =====
-- neurahash/quorum.py: three validators, one of whom lies.
use neurahash_miner.Base.{◌+ℤ◌, true, false, some, List, [], ◌∷◌, pos, ◌≡◌, refl, sorted_set}
use neurahash_miner.Validators.Defs.{slash_validator, slash_worker, Validator, quorum_verify}
use neurahash_miner.Validators.Honest.{quorum_verify-honest}

abbrev validators : List Validator
validators =
    record { address = 1; honest = true }
    ∷ record { address = 2; honest = false }
    ∷ record { address = 3; honest = true }
    ∷ []

quorum_verify-honest_example :
    quorum_verify false 9 validators (pos 2)
    ≡ some record {
      accepted = some false;
      n_valid = 1;
      n_invalid = 2;
      validators_slashed = 2 ∷ [];
      slashes = slash_worker 9 ∷ slash_validator 2 ∷ [];
    }
unfolding sorted_set ◌+ℤ◌
quorum_verify-honest_example = quorum_verify-honest false 9 validators (pos 2) refl refl refl
