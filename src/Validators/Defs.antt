-- ===== src/Validators/Defs.antt =====
-- neurahash/quorum.py: the votes, the decision, and who is slashed for it. The verdict of the
-- check of a submission is an argument, and the calls of the ledger's `slash` are listed in order.
use neurahash_miner.Base.{
  ◌-◌, ℕ, suc, Bool, true, false, not, ◌==◌, if◌then◌else◌, Option, none, some, List, [], ◌∷◌, ◌++◌,
  length, sorted_set, ℤ, pos, ltb_ℤ, leb_ℤ, ◌+ℤ◌,
}

pub record Validator : Type 0 where
  pub address : ℕ
  pub honest : Bool

-- `ledger.slash(worker)` and `ledger.slash(addr, validator_slash)`
pub data SlashCall : Type 0 where
  slash_worker slash_validator : ℕ → SlashCall

-- the result and the information on it; `accepted` is none in a dispute
pub record QuorumInfo : Type 0 where
  pub accepted : Option Bool
  pub n_valid : ℕ
  pub n_invalid : ℕ
  pub validators_slashed : List ℕ
  pub slashes : List SlashCall

-- `Validator.vote`, given the verdict of the check
unfoldable pub vote : Bool → Validator → Bool
vote valid v = if v.honest then valid else not valid

abbrev pub votes_of : Bool → List Validator → List (ℕ × Bool)
votes_of valid [] = []
votes_of valid (v ∷ vs) = (v.address, vote valid v) ∷ votes_of valid vs

abbrev pub addresses_of : List Validator → List ℕ
addresses_of [] = []
addresses_of (v ∷ vs) = v.address ∷ addresses_of vs

unfoldable pub count_valid : List (ℕ × Bool) → ℕ
count_valid [] = 0
count_valid ((a, ok) ∷ votes) = let rest = count_valid votes in if ok then suc rest else rest

-- the decided outcome
unfoldable pub decided : ℤ → ℕ → ℕ → Option Bool
decided m n_valid n_invalid =
    if leb_ℤ m (pos n_invalid)
    then some false
    else if leb_ℤ m (pos n_valid)
    then some true
    else none

-- the validators that voted against the outcome
unfoldable pub off_consensus : Bool → List (ℕ × Bool) → List ℕ
off_consensus accepted [] = []
off_consensus accepted ((a, ok) ∷ votes) =
    let rest = off_consensus accepted votes in
    if (if ok then accepted else not accepted) then rest else a ∷ rest

abbrev pub punished : Option Bool → List (ℕ × Bool) → List ℕ
punished none votes = []
punished (some accepted) votes = off_consensus accepted votes

abbrev pub slash_all : List ℕ → List SlashCall
slash_all [] = []
slash_all (a ∷ as') = slash_validator a ∷ slash_all as'

abbrev pub slash_for : Option Bool → ℕ → List SlashCall
slash_for none worker = []
slash_for (some true) worker = []
slash_for (some false) worker = slash_worker worker ∷ []

-- none is a ValueError
unfoldable pub quorum_verify : Bool → ℕ → List Validator → ℤ → Option QuorumInfo
quorum_verify valid worker vs m =
    if not (ltb_ℤ (pos (length vs)) (m +ℤ m))
    then none
    else if not (length (sorted_set (addresses_of vs)) == length vs)
    then none
    else (let votes = votes_of valid vs in
        let n_valid = count_valid votes in
        let n_invalid = length votes - n_valid in
        let accepted = decided m n_valid n_invalid in
        some record {
          accepted = accepted;
          n_valid = n_valid;
          n_invalid = n_invalid;
          validators_slashed = punished accepted votes;
          slashes = slash_for accepted worker ++ slash_all (punished accepted votes);
        })
