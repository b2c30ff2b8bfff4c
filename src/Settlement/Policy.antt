-- ===== src/Settlement/Policy.antt =====
-- neurahash/diloco_settlement.py: the staked roster, the settlement behind the multisig, and the
-- source of the roster.
use neurahash_miner.Ledger.Defs.{units_per_coin}
use neurahash_miner.Base.{
  ◌*◌, ℕ, Bool, true, false, not, ◌&&◌, leb, if◌then◌else◌, Option, none, some, List, [], ◌∷◌, Dict,
  get, keys_of, contains, insert_set, ℤ, pos, leb_ℤ,
}
use neurahash_miner.Settlement.Multisig.{
  Decision, Roster, Tally, Mode, enforce, settle_allowed, collect_settlement_signatures,
}
use neurahash_miner.Settlement.Chain.{Chain, Signer, settle}
use neurahash_miner.Ledger.Blocks.{Outcome}

-- MIN_STAKE, 10 NRH
abbrev pub min_stake : ℤ
min_stake = pos (10 * units_per_coin)

module _ (lower : ℕ → ℕ) where
  -- `sorted(roster, key=str.lower)`
  unfoldable pub insert_address : ℕ → List ℕ → List ℕ
  insert_address a [] = a ∷ []
  insert_address a (b ∷ bs) =
      if leb (lower a) (lower b) then a ∷ b ∷ bs else b ∷ insert_address a bs

  unfoldable pub sort_addresses : List ℕ → List ℕ
  unfolding insert_address
  sort_addresses [] = []
  sort_addresses (a ∷ as') = insert_address a (sort_addresses as')

  -- the loop of `staked_roster` over the pool
  unfoldable pub eligible : (ℕ → ℤ) → ℤ → List ℕ → List ℕ → List ℕ
  eligible stake_of floor seen [] = []
  eligible stake_of floor seen (a ∷ as') =
      let ok = leb_ℤ floor (stake_of a) && not (contains (lower a) seen) in
      let rest = eligible stake_of floor (if ok then insert_set (lower a) seen else seen) as' in
      if ok then a ∷ rest else rest

  unfoldable pub staked_roster : (ℕ → ℤ) → ℤ → List ℕ → List ℕ
  staked_roster stake_of floor pool = sort_addresses (eligible stake_of floor [] pool)

  abbrev pub lower_all : List ℕ → List ℕ
  lower_all [] = []
  lower_all (a ∷ as') = lower a ∷ lower_all as'

  -- the roster of a mapping of addresses to stake; none is no source
  abbrev pub staked_set : Option (Dict ℤ) → List ℕ
  staked_set none = []
  staked_set (some stakes) =
      lower_all (staked_roster (λ a. get a stakes) min_stake (keys_of stakes))

  -- the admitted signers whose admitted address holds the stake
  unfoldable pub intersection : List ℕ → Dict ℕ → Dict ℕ
  intersection staked [] = []
  intersection staked ((a, s) ∷ rest) =
      if contains (lower a) staked
      then (a, s) ∷ intersection staked rest
      else intersection staked rest

  -- `roster_source_select`, less the report
  unfoldable pub roster_source_select : Mode → Dict ℕ → Option (Dict ℤ) → Dict ℕ
  roster_source_select enforce admitted stakes = intersection (staked_set stakes) admitted
  roster_source_select _ admitted stakes = admitted

-- the result of a gated settlement: the verdict, and the chain where it settled
pub data Gated : Type 0 where
  invalid_arguments : Gated
  blocked : Tally → Gated
  minted : Tally → Outcome Chain → Gated

abbrev pub gate : Option Bool → Tally → Outcome Chain → Gated
gate none v c = invalid_arguments
gate (some true) v c = minted v c
gate (some false) v c = blocked v

-- `settle_with_multisig`, for the recipient of the decision alone
unfoldable pub settle_with_multisig :
    Signer → Mode → Decision → Roster → List ℕ → Option ℤ → ℕ → ℕ → Chain → Gated
settle_with_multisig ext mode decision roster sigs m recipient timestamp c =
    elim (collect_settlement_signatures ext.votes decision roster sigs m) [
      | none ↦ invalid_arguments
      | some v ↦
          gate (settle_allowed mode v) v
            (settle ext decision.height decision.amount ((recipient, pos 1) ∷ []) timestamp none c)
    ]
