-- ===== src/Settlement/Multisig.antt =====
-- neurahash/diloco_settlement.py: the multisig of staked validators over one reward decision.
use neurahash_miner.Base.{
  ℕ, ◌+◌, ◌/◌, Bool, true, false, not, ◌&&◌, ◌==◌, if◌then◌else◌, Option, none, some, List, [], ◌∷◌,
  Dict, insert, get, keys_of, total, length, sorted_set, ℤ, pos, ◌+ℤ◌, leb_ℤ, ltb_ℤ, eq_ℤ, max_ℤ,
}
use neurahash_miner.Guardian.Defs.{Recovery, GuardianSet, normal_all, distinct_signers}

-- What `settlement_payload` binds: the whole reward decision. Amounts are whole units, which its
-- rounding to twelve decimals keeps apart. A recipient that is missing is none.
pub record Decision : Type 0 where
  pub recipient : Option ℕ
  pub amount : ℤ
  pub height : ℕ
  pub delta_cid : ℕ

-- a list of addresses, or a mapping of addresses to bonded stake
pub data Roster : Type 0 where
  counted : List ℕ → Roster
  staked : Dict ℤ → Roster

-- the verdict of `collect_settlement_signatures`, less the fields that only echo its arguments
pub record Tally : Type 0 where
  pub approved : Bool
  pub n_signers : ℕ
  pub n_required : ℤ
  pub roster_n : ℕ
  pub signers : List ℕ

pub data Mode : Type 0 where
  off audit enforce unknown_mode : Mode

-- the quorum proof embedded in a block
pub record Proof : Type 0 where
  pub decision : Decision
  pub sigs : List ℕ
  pub roster : List ℕ
  pub n_required : ℤ

abbrev pub members_of : Roster → List ℕ
members_of (counted as') = as'
members_of (staked d) = keys_of d

-- `_stake_majority`: strictly more than half
unfoldable pub stake_majority : ℤ → ℤ → Bool
stake_majority signer_stake total_stake =
    ltb_ℤ (pos 0) total_stake && ltb_ℤ total_stake (signer_stake +ℤ signer_stake)

-- `m`, the strict majority where it is None
abbrev pub threshold_of : Option ℤ → ℕ → ℤ
threshold_of none n = pos (n / 2 + 1)
threshold_of (some m) n = m

-- `1 <= m <= N and m * 2 > N`, with N above zero
abbrev pub is_strict_majority : ℤ → ℕ → Bool
is_strict_majority m n =
    not (n == 0) && (leb_ℤ (pos 1) m && (leb_ℤ m (pos n) && ltb_ℤ (pos n) (m +ℤ m)))

-- `settle_allowed`; `none` is the ValueError
unfoldable pub settle_allowed : Mode → Tally → Option Bool
settle_allowed off v = some true
settle_allowed audit v = some true
settle_allowed enforce v = some v.approved
settle_allowed unknown_mode v = none

module _ (ext : Recovery Decision) where
  open ext use {normal}

  -- `_stake_weight_map`
  unfoldable pub stake_weight_map : Dict ℤ → Dict ℤ → Dict ℤ
  stake_weight_map [] out = out
  stake_weight_map ((a, s) ∷ rest) out =
      stake_weight_map rest (insert (normal a) (get (normal a) out +ℤ max_ℤ (pos 0) s) out)

  -- `sum(wmap.get(s, 0.0) for s in signers)`
  unfoldable pub stake_of_all : List ℕ → Dict ℤ → ℤ
  stake_of_all [] wmap = pos 0
  stake_of_all (s ∷ ss) wmap = get s wmap +ℤ stake_of_all ss wmap

  -- the roster as a guardian set with the threshold
  abbrev pub roster_set : Roster → ℤ → GuardianSet
  roster_set roster m = record {
    members = sorted_set (normal_all ext (members_of roster));
    threshold = m;
  }

  abbrev pub is_approved : Roster → ℤ → List ℕ → Bool
  is_approved (counted as') m signers = leb_ℤ m (pos (length signers))
  is_approved (staked d) m signers =
      stake_majority (stake_of_all signers (stake_weight_map d [])) (total (stake_weight_map d []))

  -- `none` is the ValueError of an empty roster or a threshold that is no strict majority
  unfoldable pub collect_settlement_signatures :
      Decision → Roster → List ℕ → Option ℤ → Option Tally
  collect_settlement_signatures decision roster sigs m =
      let gs = roster_set roster (threshold_of m (length (roster_set roster (pos 0)).members)) in
      let signers = distinct_signers ext gs decision sigs in
      if is_strict_majority gs.threshold (length gs.members)
      then some (record {
        approved = is_approved roster gs.threshold signers;
        n_signers = length signers;
        n_required = gs.threshold;
        roster_n = length gs.members;
        signers = signers;
      })
      else none

  unfoldable pub settlement_block_proof : Decision → Roster → List ℕ → Option ℤ → Option Proof
  settlement_block_proof decision roster sigs m =
      elim (collect_settlement_signatures decision roster sigs m) [
        | none ↦ none
        | some v ↦ some (record {
          decision = decision;
          sigs = sigs;
          roster = members_of roster;
          n_required = v.n_required;
        })
      ]

  -- a test on a field the caller may leave out
  abbrev pub same_recipient : Option ℕ → Option ℕ → Bool
  same_recipient none r = true
  same_recipient (some a) none = false
  same_recipient (some a) (some b) = normal a == normal b

  abbrev pub same_amount : Option ℤ → ℤ → Bool
  same_amount none a = true
  same_amount (some b) a = eq_ℤ a b

  abbrev pub same_height : Option ℕ → ℕ → Bool
  same_height none a = true
  same_height (some b) a = a == b

  abbrev pub met : Option Tally → Bool
  met none = false
  met (some v) = v.approved

  unfoldable pub verify_settlement_block_proof : Proof → Option ℕ → Option ℤ → Option ℕ → Bool
  verify_settlement_block_proof proof recipient amount height =
      same_recipient recipient proof.decision.recipient
      && (same_amount amount proof.decision.amount
          && (same_height height proof.decision.height
              && met (
                  collect_settlement_signatures proof.decision (counted proof.roster) proof.sigs
                    (some proof.n_required))))
