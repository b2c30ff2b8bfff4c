-- ===== src/Ledger/Issue.antt =====
-- Blocks of neura_l1/block_state.py: what a block adds to the holdings is what it counts as
-- minted.
pub mod Drift
pub mod Mint
use neurahash_miner.Base.{
  keys_of, ℕ, ◌≡◌, refl, ◌∙◌, ap, Option, none, some, List, [], ◌∷◌, ℤ, pos, ◌+ℤ◌, ◌-ℤ◌, ◌≤ℤ◌,
  int_laws, arith, parts, leb_of_ltb, get_or_default, Bool-cases, inl, inr, leb, leb_ℤ, Dict,
}
use neurahash_miner.Ledger.Defs.{State, Tx, Header, Block, Externals, Queue}
use neurahash_miner.Ledger.Stake.{
  queued, credit, release_entries, put_queue, mature_account, mature_accounts, mature_unbonding,
}
use neurahash_miner.Ledger.Worth.{worth, holdings, worth-credit, total_queued-put_queue}
use neurahash_miner.Ledger.Solvency.{
  IsSolvent, NonnegQueue, credit-IsSolvent, get-NonnegQueue, put_queue-AllQueues,
}
use neurahash_miner.Ledger.Keeps.{Keeps, Keeps-refl, IsBounty}

pub Keeps-trans : {s t u : State} → Keeps s t → Keeps t u → Keeps s u
Keeps-trans p q = record {
  solvent = q.solvent;
  same = q.same ∙ p.same;
  minted = q.minted ∙ p.minted;
}

-- the loop over a queue credits what it does not keep, and leaves the queues to its caller
record IsRelease (s t : State) (q kept : Queue) : Type 0 where
  solvent : IsSolvent t
  rest : NonnegQueue kept
  sum : worth t +ℤ queued kept ≡ worth s +ℤ queued q
  queues : t.unbonding ≡ s.unbonding
  minted : t.minted ≡ s.minted

credit-unbonding : (a : ℕ) (amt : ℤ) (s : State) → (credit a amt s).unbonding ≡ s.unbonding
unfolding credit
credit-unbonding a amt s = refl

credit-minted : (a : ℕ) (amt : ℤ) (s : State) → (credit a amt s).minted ≡ s.minted
unfolding credit
credit-minted a amt s = refl

release_entries-IsRelease :
    (height a : ℕ) (q : Queue) (s : State)
    → IsSolvent s
    → NonnegQueue q
    → let (t, kept) = release_entries height a q s in IsRelease s t q kept
unfolding release_entries queued
release_entries-IsRelease height a [] s h hq = record {
  solvent = h;
  rest = tt;
  sum = refl;
  queues = refl;
  minted = refl;
}
release_entries-IsRelease height a ((amt, rel) ∷ q) s h hq = elim (Bool-cases (leb rel height)) [
  | inl due ↦
      let s' = credit a amt s in
      let ih = release_entries-IsRelease height a q s' (credit-IsSolvent a amt s hq.0 h) hq.1 in
      rw due (record {
        solvent = ih.solvent;
        rest = ih.rest;
        sum = omega (int_laws, parts ih.sum, parts (worth-credit a amt s));
        queues = ih.queues ∙ credit-unbonding a amt s;
        minted = ih.minted ∙ credit-minted a amt s;
      })
  | inr e ↦
      let ih = release_entries-IsRelease height a q s h hq.1 in
      rw e (record {
        solvent = ih.solvent;
        rest = (hq.0, ih.rest);
        sum = omega (int_laws, parts ih.sum);
        queues = ih.queues;
        minted = ih.minted;
      })
]

mature_account-Keeps :
    (height a : ℕ) (s : State) → IsSolvent s → Keeps s (mature_account height a s)
unfolding mature_account worth holdings
mature_account-Keeps height a s h =
    let old = get_or_default a [] s.unbonding in
    let (t, kept) = release_entries height a old s in
    let r =
      release_entries-IsRelease height a old s h (get-NonnegQueue a s.unbonding h.withdrawing) in
    record {
      solvent = record {
        liquid = r.solvent.liquid;
        bonded = r.solvent.bonded;
        withdrawing = put_queue-AllQueues a kept t.unbonding r.rest r.solvent.withdrawing;
        treasury = r.solvent.treasury;
      };
      same = omega (
        int_laws,
        parts r.sum,
        parts (total_queued-put_queue a kept t.unbonding),
        parts (ap (λ (d : Dict Queue). queued (get_or_default a [] d)) r.queues),
      );
      minted = r.minted;
    }

mature_accounts-Keeps :
    (height : ℕ) (names : List ℕ) (s : State)
    → IsSolvent s
    → Keeps s (mature_accounts height names s)
unfolding mature_accounts
mature_accounts-Keeps height [] s h = Keeps-refl s h
mature_accounts-Keeps height (a ∷ names) s h =
    let k = mature_account-Keeps height a s h in
    Keeps-trans k (mature_accounts-Keeps height names (mature_account height a s) k.solvent)

-- Stake that leaves its queue becomes liquid, and nothing else changes hands.
pub mature_unbonding-Keeps :
    (height : ℕ) (s : State) → IsSolvent s → Keeps s (mature_unbonding height s)
unfolding mature_unbonding
mature_unbonding-Keeps height s h = mature_accounts-Keeps height (keys_of s.unbonding) s h
