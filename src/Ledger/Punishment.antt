-- ===== src/Ledger/Punishment.antt =====
-- The slash transactions of neura_l1/block_state.py: a fault costs all that is at risk, once,
-- and unstaking does not help.
use neurahash_miner.Base.{List, ℕ, ◌≡◌, ◌∙◌, ap, none, ℤ, pos, ◌+ℤ◌, ◌-ℤ◌, arith, true}
use neurahash_miner.Ledger.Defs.{State, Tx, Fault, Externals, same_fault}
use neurahash_miner.Ledger.Stake.{stake_of, unbonding_of, at_risk_of, seize, credit}
use neurahash_miner.Ledger.Slash.{burn, mem_fault, add_fault, pay_bounty, close_slash, bounty_for}
use neurahash_miner.Ledger.Frame.{seize-SamePolicy}
use neurahash_miner.Ledger.Solvency.{IsSolvent}
use neurahash_miner.Ledger.Seizure.{DistinctKeys, seize-all}

same_fault_refl : (f : Fault) → same_fault f f ≡ true
unfolding same_fault
same_fault_refl (Fault.equivocation a b) = ground arith
same_fault_refl (Fault.ffg a b) = ground arith

pub mem_fault-add_fault : (f : Fault) (fs : List Fault) → mem_fault f (add_fault f fs) ≡ true
unfolding mem_fault add_fault
mem_fault-add_fault f fs = ground (arith, same_fault_refl f)

-- what follows a seizure leaves the bonds and the queues
at_risk_of-rest :
    (a v : ℕ) (b c : ℤ) (f : Fault) (s : State)
    → at_risk_of (close_slash f c (pay_bounty a b s)) v ≡ at_risk_of s v
unfolding at_risk_of stake_of unbonding_of close_slash pay_bounty credit
at_risk_of-rest a v b c f s = ground arith

treasury-rest :
    (a : ℕ) (b c : ℤ) (f : Fault) (s : State)
    → (close_slash f c (pay_bounty a b s)).treasury ≡ s.treasury +ℤ c
unfolding close_slash pay_bounty credit
treasury-rest a b c f s = ground arith

pub faults-rest :
    (a : ℕ) (b c : ℤ) (f : Fault) (s : State)
    → (close_slash f c (pay_bounty a b s)).slashed_faults ≡ add_fault f s.slashed_faults
unfolding close_slash pay_bounty credit
faults-rest a b c f s = ground arith

pub keys-rest :
    (a : ℕ) (b c : ℤ) (f : Fault) (s : State) → (close_slash f c (pay_bounty a b s)).keys ≡ s.keys
unfolding close_slash pay_bounty credit
keys-rest a b c f s = ground arith

module _ (ext : Externals) where
  -- the bounty that a burn pays
  abbrev pub paid : Tx → ℕ → State → ℤ
  paid tx v s = bounty_for ext tx (at_risk_of s v) (seize v none s).1

  -- A fault that was not slashed before costs its author all that is at risk, the active bond and
  -- the withdrawing stake; the treasury gets it, less the reporter's bounty; and the fault is
  -- recorded.
  pub burn_takes_all :
      (tx : Tx) (v : ℕ) (f : Fault) (s : State)
      → IsSolvent s
      → DistinctKeys s.unbonding
      → let t = burn ext tx v f s in
        (at_risk_of t v ≡ pos 0)
        × (t.treasury ≡ s.treasury +ℤ (at_risk_of s v -ℤ paid tx v s))
        × (mem_fault f t.slashed_faults ≡ true)
  unfolding burn
  burn_takes_all tx v f s h d =
      let (b, s') = seize v none s in
      let (all, zero_left) = seize-all v s h d in
      let x = bounty_for ext tx b s' in
      (
        at_risk_of-rest tx.sender v x (b -ℤ x) f s' ∙ zero_left,
        treasury-rest tx.sender x (b -ℤ x) f s' ∙ rw ((seize-SamePolicy v none s).treasury, all),
        ap (mem_fault f) (faults-rest tx.sender x (b -ℤ x) f s')
            ∙ mem_fault-add_fault f s'.slashed_faults,
      )
