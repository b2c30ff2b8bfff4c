-- ===== src/Committee/Defs.antt =====
-- neurahash/diloco_committee.py: attestations, their count, and the final decision on a candidate.
-- A gain is a whole number of millionths: the source rounds it to six places.
use neurahash_miner.Base.{
  ◌-ℤ◌, total, max_ℤ, get, ltb, keys_of, ltb_ℤ, leb_ℤ, insert, ◌+ℤ◌, ℕ, suc, Bool, true, false, not,
  ◌&&◌, ◌||◌, ◌==◌, if◌then◌else◌, Option, none, some, List, [], ◌∷◌, ◌++◌, Dict, length, contains,
  sorted_set, insert_set, ℤ, pos,
}

-- a verifier's attestation; `verifier_addr` is none where it is no text
pub record Attestation : Type 0 where
  pub delta_hash : ℕ
  pub base_round : ℤ
  pub beacon : ℕ
  pub accepted : Bool
  pub gain : ℤ
  pub verifier_addr : Option ℕ
  pub sig : ℕ

-- `allowed`: absent, a collection of addresses, or their stakes
pub data Allowed : Type 0 where
  anyone : Allowed
  listed : List ℕ → Allowed
  staked : Dict ℤ → Allowed

-- what the loop of the aggregation keeps
pub record Counted : Type 0 where
  pub valid : List Attestation
  pub seen : List ℕ
  pub n_accept : ℕ
  pub accept_stake : ℤ

-- the result of the aggregation
pub record Aggregate : Type 0 where
  pub accepted : Bool
  pub valid : List Attestation
  pub slashable : List ℕ
  pub n_accept : ℕ

-- the verdict of a committee, without what it echoes
pub record CommitteeVerdict : Type 0 where
  pub accepted : Bool
  pub n_accept : ℕ
  pub n_total : ℕ
  pub quorum_met : Bool
  pub selected_n : ℕ
  pub slashable : List ℕ

-- the modes of the flag; the source treats every other one as off
pub data Gate : Type 0 where
  off audit enforce : Gate

-- What the code takes from eth_account and `str.lower`: the signer of a payload, over the hash, the
-- round, the beacon, the vote and the gain of an attestation.
pub record Voting : Type 0 where
  pub recover : ℕ → ℤ → ℕ → Bool → ℤ → ℕ → Option ℕ
  pub lower : ℕ → ℕ

module _ (ext : Voting) where
  open ext use {recover, lower}

  abbrev pub claimed_signer : Option ℕ → Option ℕ → Option ℕ
  claimed_signer claimed none = none
  claimed_signer none (some rec) = none
  claimed_signer (some a) (some rec) = if lower rec == lower a then some rec else none

  -- `some` the signer where the attestation holds; none stands for what is no attestation
  unfoldable pub verify_diloco_attestation : Option Attestation → Option ℕ
  verify_diloco_attestation none = none
  verify_diloco_attestation (some att) =
      claimed_signer att.verifier_addr
        (recover att.delta_hash att.base_round att.beacon att.accepted att.gain att.sig)

  abbrev pub lower_addresses : List ℕ → List ℕ
  lower_addresses [] = []
  lower_addresses (a ∷ as') = lower a ∷ lower_addresses as'

  -- `_attestation_stake_weights` of a mapping to numbers
  unfoldable pub stake_weights : Dict ℤ → Dict ℤ → Dict ℤ
  stake_weights [] out = out
  stake_weights ((a, s) ∷ d) out =
      stake_weights d (insert (lower a) (get (lower a) out +ℤ max_ℤ (pos 0) s) out)

  abbrev pub weights_of : Allowed → Option (Dict ℤ)
  weights_of anyone = none
  weights_of (listed as') = none
  weights_of (staked d) = some (stake_weights d [])

  -- `allow`
  abbrev pub allowed_signers : Allowed → Option (List ℕ)
  allowed_signers anyone = none
  allowed_signers (listed as') = some (sorted_set (lower_addresses as'))
  allowed_signers (staked d) = some (sorted_set (lower_addresses (keys_of d)))

  abbrev pub may_vote : Option (List ℕ) → ℕ → Bool
  may_vote none a = true
  may_vote (some allow) a = contains a allow

  abbrev pub stake_in : Option (Dict ℤ) → ℕ → ℤ
  stake_in none a = pos 0
  stake_in (some weights) a = get a weights

  abbrev pub add_vote : Option (Dict ℤ) → Attestation → ℕ → Counted → Counted
  add_vote weights att a c =
      if att.accepted
      then record c {
        valid = c.valid ++ (att ∷ []);
        seen = a ∷ c.seen;
        n_accept = suc c.n_accept;
        accept_stake = c.accept_stake +ℤ stake_in weights a;
      }
      else record c { valid = c.valid ++ (att ∷ []); seen = a ∷ c.seen }

  -- one attestation, and its signer where it has one
  abbrev pub count_vote :
      Option (Dict ℤ) → Option (List ℕ) → Option Attestation → Option ℕ → Counted → Counted
  count_vote weights allow none rec c = c
  count_vote weights allow (some att) none c = c
  count_vote weights allow (some att) (some rec) c =
      if contains (lower rec) c.seen || not (may_vote allow (lower rec))
      then c
      else add_vote weights att (lower rec) c

  unfoldable pub count_votes :
      Option (Dict ℤ) → Option (List ℕ) → List (Option Attestation) → Counted → Counted
  count_votes weights allow [] c = c
  count_votes weights allow (att ∷ atts) c =
      count_votes weights allow atts
        (count_vote weights allow att (verify_diloco_attestation att) c)

  -- the vote's side of the boundary is clear, or every one counts
  abbrev pub clear : ℤ → ℤ → ℤ → Bool
  clear tolerance boundary gain =
      leb_ℤ tolerance (pos 0)
      || (ltb_ℤ tolerance (gain -ℤ boundary) || ltb_ℤ tolerance (boundary -ℤ gain))

  -- `!=` on Booleans
  abbrev pub disagrees : Bool → Bool → Bool
  disagrees a b = if a then not b else b

  abbrev pub with_address : Option ℕ → List ℕ → List ℕ
  with_address none as' = as'
  with_address (some a) as' = insert_set a as'

  -- `sorted({att["verifier_addr"] for att in valid if …})`
  unfoldable pub slashable_of : Bool → ℤ → ℤ → List Attestation → List ℕ
  slashable_of accepted tolerance boundary [] = []
  slashable_of accepted tolerance boundary (att ∷ valid) =
      let rest = slashable_of accepted tolerance boundary valid in
      if disagrees att.accepted accepted && clear tolerance boundary att.gain
      then with_address att.verifier_addr rest
      else rest

  -- the vote's result: over half of the stake, or the threshold's count
  abbrev pub is_accepted : Option (Dict ℤ) → ℤ → Counted → Bool
  is_accepted none m c = leb_ℤ m (pos c.n_accept)
  is_accepted (some weights) m c =
      let all = total weights in ltb_ℤ (pos 0) all && ltb_ℤ all (c.accept_stake +ℤ c.accept_stake)

  abbrev pub no_votes : Counted
  no_votes = record { valid = []; seen = []; n_accept = 0; accept_stake = pos 0 }

  -- none is the ValueError
  unfoldable pub aggregate_diloco_attestations :
      List (Option Attestation) → ℤ → Allowed → ℤ → ℤ → Option Aggregate
  aggregate_diloco_attestations attestations m allowed boundary slash_tolerance =
      if ltb_ℤ m (pos 1)
      then none
      else (let weights = weights_of allowed in
          let c = count_votes weights (allowed_signers allowed) attestations no_votes in
          let accepted = is_accepted weights m c in
          some record {
            accepted = accepted;
            valid = c.valid;
            slashable = slashable_of accepted slash_tolerance boundary c.valid;
            n_accept = c.n_accept;
          })

  -- `m * 2 > N` and `m >= 1` over the selected set, where there is one
  abbrev pub sound_threshold : Option (List ℕ) → ℤ → Bool
  sound_threshold none m = true
  sound_threshold (some allow) m = leb_ℤ (pos 1) m && ltb_ℤ (pos (length allow)) (m +ℤ m)

  abbrev pub bound_to : ℕ → Option Attestation → Bool
  bound_to beacon none = false
  bound_to beacon (some att) = att.beacon == beacon

  -- the answers of the verifiers that are bound to this request; none where one did not answer
  unfoldable pub bound_answers : ℕ → List (Option Attestation) → List (Option Attestation)
  bound_answers beacon [] = []
  bound_answers beacon (a ∷ answers) =
      let rest = bound_answers beacon answers in if bound_to beacon a then a ∷ rest else rest

  abbrev pub selected_count : Option (List ℕ) → List Attestation → ℕ
  selected_count none valid = length valid
  selected_count (some allow) valid = length allow

  abbrev pub committee_verdict : Option (List ℕ) → ℤ → Option Aggregate → Option CommitteeVerdict
  committee_verdict allow m none = none
  committee_verdict allow m (some g) = some record {
    accepted = g.accepted;
    n_accept = g.n_accept;
    n_total = length g.valid;
    quorum_met = leb_ℤ m (pos (length g.valid));
    selected_n = selected_count allow g.valid;
    slashable = g.slashable;
  }

  -- with `verifier_fns`, given their answers and the beacon
  unfoldable pub verify_diloco_candidate :
      List (Option Attestation) → ℕ → ℤ → Allowed → ℤ → ℤ → Option CommitteeVerdict
  verify_diloco_candidate answers beacon m selected margin slash_tolerance =
      let allow = allowed_signers selected in
      if sound_threshold allow m
      then committee_verdict allow m (
          aggregate_diloco_attestations (bound_answers beacon answers) m selected margin
            slash_tolerance)
      else none

-- the decision under enforcement
abbrev pub enforced : Bool → CommitteeVerdict → ℕ → Bool → Bool
enforced single_ok v min_cohort fallback =
    if ltb v.selected_n min_cohort
    then fallback
    else if v.quorum_met && not v.accepted
    then false
    else if not v.quorum_met
    then fallback
    else single_ok

unfoldable pub gated_accept : Bool → CommitteeVerdict → Gate → ℕ → Bool → Bool
gated_accept single_ok v off min_cohort strict = single_ok
gated_accept single_ok v audit min_cohort strict = single_ok
gated_accept single_ok v enforce min_cohort strict =
    enforced single_ok v min_cohort (if strict then false else single_ok)
