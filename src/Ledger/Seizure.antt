-- ===== src/Ledger/Seizure.antt =====
-- What a slash of neura_l1/block_state.py takes: all that is at risk, and no more than once.
use neurahash_miner.Base.{
  get-insert_self, -ℤ_parts, ℕ, ◌≡◌, refl, ◌∙◌, sym, ap, none, some, [], ◌∷◌, ℤ, pos, ◌-ℤ◌,
  int_laws, arith, parts, eq_of_parts, leb_of_ltb, Bool-cases, Option-cases, inl, inr, lookup,
  erase, get, get_or_default, get_or_default-some, get_or_default-none, ltb_ℤ, false, Dict,
  get-nonneg,
}
use neurahash_miner.Ledger.Defs.{State, Queue}
use neurahash_miner.Ledger.Stake.{
  stake_of, unbonding_of, at_risk_of, queued, sort_entries, seize_entry, seize_entries, put_queue,
  seize_bond, seize_queue, seize,
}
use neurahash_miner.Ledger.Worth.{queued-seize_entries, queued-sort_entries}
use neurahash_miner.Ledger.Solvency.{IsSolvent}

-- the keys of a dictionary are distinct
abbrev pub DistinctKeys {ℓ} : {V : Type ℓ} → Dict V → Type ℓ
DistinctKeys [] = Unit
DistinctKeys ((k, _) ∷ d) = (lookup k d ≡ none) × DistinctKeys d

lookup-erase_self {ℓ} :
    {V : Type ℓ} (k : ℕ) (d : Dict V) → DistinctKeys d → lookup k (erase k d) ≡ none
unfolding lookup erase
lookup-erase_self k [] h = refl
lookup-erase_self k ((j, v) ∷ d) h = ground (arith, lookup-erase_self k d h.1)

nothing_left : (amt : ℤ) → ltb_ℤ (pos 0) (amt -ℤ amt) ≡ false
nothing_left amt = ground (arith, -ℤ_parts amt amt)

seize_entries-none : (q : Queue) → (seize_entries none q).1 ≡ []
unfolding seize_entries seize_entry
seize_entries-none [] = refl
seize_entries-none ((amt, rel) ∷ q) = rw (nothing_left amt, seize_entries-none q)

seize_bond-none :
    (a : ℕ) (s : State)
    → IsSolvent s
    → let (taken, left, t) = seize_bond a none s in
      (taken ≡ stake_of s a) × (left ≡ none) × (stake_of t a ≡ pos 0) × (t.unbonding ≡ s.unbonding)
unfolding seize_bond stake_of
seize_bond-none a s h =
    let cur = get a s.staked in
    let n = get-nonneg a s.staked h.bonded in
    elim (Bool-cases (ltb_ℤ (pos 0) cur)) [
      | inl e ↦ rw e (refl, refl, get-insert_self a (cur -ℤ cur) s.staked ∙ omega int_laws, refl)
      | inr e ↦
          let z : cur ≡ pos 0 =
            eq_of_parts cur (pos 0) (omega (arith, n, leb_of_ltb (pos 0) cur e)) in
          rw e (sym z, refl, z, refl)
    ]

seize_entries-all : (q : Queue) → (seize_entries none q).0 ≡ queued q
unfolding queued
seize_entries-all q =
    omega (int_laws, parts (queued-seize_entries none q), parts (ap queued (seize_entries-none q)))

unbonding_of-none : (a : ℕ) (s : State) → lookup a s.unbonding ≡ none → unbonding_of s a ≡ pos 0
unfolding unbonding_of queued
unbonding_of-none a s e = ap queued (get_or_default-none a [] s.unbonding e)

unbonding_of-some :
    (a : ℕ) (s : State) (q : Queue) → lookup a s.unbonding ≡ some q → unbonding_of s a ≡ queued q
unfolding unbonding_of
unbonding_of-some a s q e = ap queued (get_or_default-some a [] q s.unbonding e)

seize_queue-none :
    (a : ℕ) (s : State)
    → DistinctKeys s.unbonding
    → let (taken, t) = seize_queue a none s in
      (taken ≡ unbonding_of s a) × (unbonding_of t a ≡ pos 0) × (t.staked ≡ s.staked)
unfolding seize_queue queued
seize_queue-none a s d = elim (Option-cases (lookup a s.unbonding)) [
  | inl e ↦ rw (e, seize_queue) (sym (unbonding_of-none a s e), unbonding_of-none a s e, refl)
  | inr (q, e) ↦ go q e
]
  where
    go :
        (q : Queue)
        → lookup a s.unbonding ≡ some q
        → let (taken, t) = seize_queue a none s in
          (taken ≡ unbonding_of s a) × (unbonding_of t a ≡ pos 0) × (t.staked ≡ s.staked)
    go [] e = let z = unbonding_of-some a s [] e in rw (e, seize_queue) (sym z, z, refl)
    go (x ∷ q) e =
        let es = sort_entries (x ∷ q) in
        let gone = seize_entries-none es in
        rw (e, seize_queue, gone)
          (
            seize_entries-all es
                ∙ queued-sort_entries (x ∷ q)
                ∙ sym (unbonding_of-some a s (x ∷ q) e),
            unbonding_of-none a _ (unfold put_queue in lookup-erase_self a s.unbonding d),
            refl,
          )

same_queues :
    (a : ℕ) (s t : State) → t.unbonding ≡ s.unbonding → unbonding_of t a ≡ unbonding_of s a
unfolding unbonding_of
same_queues a s t e = ap (λ (d : Dict Queue). queued (get_or_default a [] d)) e

same_bonds : (a : ℕ) (s t : State) → t.staked ≡ s.staked → stake_of t a ≡ stake_of s a
unfolding stake_of
same_bonds a s t e = ap (get a) e

-- A seizure of everything takes what is at risk and leaves nothing at risk.
pub seize-all :
    (a : ℕ) (s : State)
    → IsSolvent s
    → DistinctKeys s.unbonding
    → ((seize a none s).0 ≡ at_risk_of s a) × (at_risk_of (seize a none s).1 a ≡ pos 0)
unfolding seize at_risk_of
seize-all a s h d =
    let (taken, left, t) = seize_bond a none s in
    let (e, l, z, q) = seize_bond-none a s h in
    let d' : DistinctKeys t.unbonding = rw q d in
    let (e', z', b) = seize_queue-none a t d' in
    rw l (
      omega (int_laws, parts e, parts e', parts (same_queues a s t q)),
      omega (int_laws, parts z, parts z', parts (same_bonds a t (seize_queue a none t).1 b)),
    )
