-- ===== src/Ledger/Unstake.antt =====
-- `unstake` transactions of neura_l1/block_state.py leave what is at risk.
use neurahash_miner.Base.{
  if◌then◌else◌, insert, if_intro, Dict, ==_iff, ==_refl, ◌==◌, get-insert_self, ℕ, ◌≡◌, refl, ◌∙◌,
  ap, Option, [], ◌∷◌, ◌++◌, ℤ, ◌-ℤ◌, int_laws, arith, parts, Bool-cases, inl, inr, get,
  get_or_default, lookup-insert, get-insert, ltb_ℤ, false,
}
use neurahash_miner.Ledger.Defs.{Queue, State, Tx}
use neurahash_miner.Ledger.Stake.{stake_of, unbonding_of, at_risk_of, queued}
use neurahash_miner.Ledger.Slash.{unstake_queued, insufficient_stake, Reply, ok, err}
use neurahash_miner.Ledger.Transition.{release_height, apply_unstake, queue_unstake, bump_nonce}
use neurahash_miner.Ledger.Worth.{queued-append}

get_queue-insert :
    (a b : ℕ) (q : Queue) (d : Dict Queue)
    → get_or_default a [] (insert b q d) ≡ (if a == b then q else get_or_default a [] d)
get_queue-insert a b q d = ground (arith, lookup-insert a b q d)

queue_unstake-at_risk_self :
    (b : ℕ) (amt : ℤ) (r : ℕ) (s : State) → at_risk_of (queue_unstake b amt r s) b ≡ at_risk_of s b
unfolding at_risk_of stake_of unbonding_of queue_unstake queued
queue_unstake-at_risk_self b amt r s =
    let old = get_or_default b [] s.unbonding in
    let new = old ++ (amt, r) ∷ [] in
    omega (
      int_laws,
      parts (get-insert_self b (get b s.staked -ℤ amt) s.staked),
      parts (ap queued (rw (==_refl b) at (get_queue-insert b b new s.unbonding))),
      parts (queued-append old ((amt, r) ∷ [])),
    )

queue_unstake-at_risk_ne :
    (a b : ℕ) (amt : ℤ) (r : ℕ) (s : State)
    → (a == b) ≡ false
    → at_risk_of (queue_unstake b amt r s) a ≡ at_risk_of s a
unfolding at_risk_of stake_of unbonding_of queue_unstake queued
queue_unstake-at_risk_ne a b amt r s e =
    let new = get_or_default b [] s.unbonding ++ (amt, r) ∷ [] in
    omega (
      int_laws,
      parts (rw e at (get-insert a b (get b s.staked -ℤ amt) s.staked)),
      parts (ap queued (rw e at (get_queue-insert a b new s.unbonding))),
    )

queue_unstake-at_risk :
    (a b : ℕ) (amt : ℤ) (r : ℕ) (s : State)
    → at_risk_of (queue_unstake b amt r s) a ≡ at_risk_of s a
queue_unstake-at_risk a b amt r s = elim (Bool-cases (a == b)) [
  | inl e ↦ rw ((==_iff a b).0 e) (queue_unstake-at_risk_self b amt r s)
  | inr e ↦ queue_unstake-at_risk_ne a b amt r s e
]

bump_nonce-at_risk : (tx : Tx) (s : State) (a : ℕ) → at_risk_of (bump_nonce tx s) a ≡ at_risk_of s a
unfolding at_risk_of stake_of unbonding_of bump_nonce
bump_nonce-at_risk tx s a = refl

-- An unstake, applied or refused, changes nobody's amount at risk: a faulty proposer cannot
-- withdraw out from under a slash.
pub apply_unstake-at_risk :
    (tx : Tx) (amt : ℤ) (h : Option ℕ) (s : State) (a : ℕ)
    → at_risk_of (apply_unstake tx amt h s).1 a ≡ at_risk_of s a
unfolding apply_unstake
apply_unstake-at_risk tx amt h s a =
    let r = release_height h in
    let t = queue_unstake tx.sender amt r s in
    if_intro (λ (p : Reply × State). at_risk_of p.1 a ≡ at_risk_of s a)
      (ltb_ℤ (stake_of s tx.sender) amt) {x = (err insufficient_stake, s)}
      {y = (ok (unstake_queued r), bump_nonce tx t)} refl
      (bump_nonce-at_risk tx t a ∙ queue_unstake-at_risk a tx.sender amt r s)
