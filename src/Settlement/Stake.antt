-- ===== src/Settlement/Stake.antt =====
-- neurahash/diloco_settlement.py: whom enforcement leaves on the roster.
use neurahash_miner.Settlement.Multisig.{enforce}
use neurahash_miner.Base.{
  inr, contains-insert_set, insert_set, inl, some, not, none, Bool-cases, if◌then◌else◌, leb_ℤ,
  ◌&&◌, ap, ◌∙◌, ◌||◌, ◌==◌, ℕ, Bool, false, List, [], ◌∷◌, Dict, lookup, contains, any_of, ℤ, ◌≡◌,
  refl, arith, get, keys_of,
}
use neurahash_miner.Settlement.Policy.{
  eligible, staked_roster, insert_address, sort_addresses, intersection, roster_source_select,
  lower_all, staked_set, min_stake,
}

module _ (lower : ℕ → ℕ) where
  -- an address of the list with this normal form holds the stake
  abbrev pub backed : (ℕ → ℤ) → ℤ → ℕ → ℕ → Bool
  backed stake_of floor x a = x == lower a && leb_ℤ floor (stake_of a)

  contains-insert_address :
      (x a : ℕ) (as' : List ℕ)
      → contains x (lower_all lower (insert_address lower a as'))
        ≡ (x == lower a || contains x (lower_all lower as'))
  unfolding insert_address contains
  contains-insert_address x a [] = refl
  contains-insert_address x a (b ∷ bs) = ground (arith, contains-insert_address x a bs)

  contains-sort_addresses :
      (x : ℕ) (as' : List ℕ)
      → contains x (lower_all lower (sort_addresses lower as')) ≡ contains x (lower_all lower as')
  unfolding sort_addresses contains
  contains-sort_addresses x [] = refl
  contains-sort_addresses x (a ∷ as') =
      contains-insert_address x a (sort_addresses lower as')
      ∙ ap (λ q. x == lower a || q) (contains-sort_addresses x as')

  contains-eligible :
      (stake_of : ℕ → ℤ) (floor : ℤ) (x : ℕ) (seen pool : List ℕ)
      → (contains x (lower_all lower (eligible lower stake_of floor seen pool)) || contains x seen)
        ≡ (any_of (backed stake_of floor x) pool || contains x seen)
  unfolding eligible contains any_of
  contains-eligible stake_of floor x seen [] = refl
  contains-eligible stake_of floor x seen (a ∷ as') =
      elim (Bool-cases (leb_ℤ floor (stake_of a) && not (contains (lower a) seen))) [
        | inl e ↦ ground (
          arith,
          e,
          contains-eligible stake_of floor x (insert_set (lower a) seen) as',
          contains-insert_set x (lower a) seen,
        )
        | inr e ↦ ground (arith, e, contains-eligible stake_of floor x seen as')
      ]

  none_seen : {a b : Bool} → (a || false) ≡ (b || false) → a ≡ b
  none_seen {a} {b} e = ground (arith, e)

  contains-staked_roster :
      (stake_of : ℕ → ℤ) (floor : ℤ) (x : ℕ) (pool : List ℕ)
      → contains x (lower_all lower (staked_roster lower stake_of floor pool))
        ≡ any_of (backed stake_of floor x) pool
  unfolding staked_roster contains
  contains-staked_roster stake_of floor x pool =
      contains-sort_addresses x (eligible lower stake_of floor [] pool)
      ∙ none_seen (contains-eligible stake_of floor x [] pool)

  lookup-intersection :
      (staked : List ℕ) (admitted : Dict ℕ) (a : ℕ)
      → lookup a (intersection lower staked admitted)
        ≡ (if contains (lower a) staked then lookup a admitted else none)
  unfolding intersection lookup
  lookup-intersection staked [] a = ground arith
  lookup-intersection staked ((b, s) ∷ rest) a = ground (arith, lookup-intersection staked rest a)

  -- Under enforcement an admitted signer stays on the roster exactly when an address of the stake
  -- mapping with the same normal form holds at least the least stake.
  pub roster_source_select_enforced :
      (admitted : Dict ℕ) (stakes : Dict ℤ) (a : ℕ)
      → lookup a (roster_source_select lower enforce admitted (some stakes)) ≡ (
          if any_of (backed (λ b. get b stakes) min_stake (lower a)) (keys_of stakes)
          then lookup a admitted
          else none)
  unfolding roster_source_select
  roster_source_select_enforced admitted stakes a =
      lookup-intersection (staked_set lower (some stakes)) admitted a
      ∙ ap (λ q. if q then lookup a admitted else none)
          (contains-staked_roster (λ b. get b stakes) min_stake (lower a) (keys_of stakes))
