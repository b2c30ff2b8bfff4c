-- ===== src/Ledger/Keeps.antt =====
-- Moves of stake keep what a state is worth: neura_l1/block_state.py. A slash and a transaction
-- are below.
pub mod Slashes
pub mod Transactions
use neurahash_miner.Base.{
  ℕ, ◌≡◌, refl, ◌∙◌, Option, none, some, List, [], ◌∷◌, ◌++◌, ℤ, pos, ◌+ℤ◌, ◌-ℤ◌, ◌≤ℤ◌, int_laws,
  parts, tests, leb_of_ltb, arith, Dict, get, get_or_default, total-insert, insert-AllNonneg,
  get-nonneg, Option-cases, Bool-cases, inl, inr, ltb_ℤ, ◌==◌, eq_of_parts, if◌then◌else◌,
}
use neurahash_miner.Signing.{
  EquivocationProof, Verdict, equivocation_by, not_equivocation, verify_equivocation,
}
use neurahash_miner.Ledger.Defs.{
  infinite, nan, Float, State, Tx, TxData, Kind, Fault, Vote, Externals, finite,
}
use neurahash_miner.Ledger.Stake.{balance, stake_of, credit, debit, seize, queued}
use neurahash_miner.Ledger.Slash.{
  Reply, err, Note, invalid_proof, vote_fault_slashed, equivocation_slashed, vote_fault_id, Refusal,
  burn, punish, mem_fault, slash_signer, apply_vote_fault_slash, apply_equivocation_slash,
  apply_slash, reporter_bounty_ok, bounty_for, pay_bounty, close_slash,
}
use neurahash_miner.Ledger.Transition.{
  add_name, release_height, is_slash, bump_nonce, bond, queue_unstake, apply_transfer, apply_stake,
  apply_unstake, apply_upgrade_signal, apply_kind, apply_ordinary, apply_tx, authenticate,
}
use neurahash_miner.Ledger.Worth.{
  holdings, worth, worth-seize, worth-credit, worth-debit, total_queued-insert, queued-append,
}
use neurahash_miner.Ledger.Solvency.{
  IsSolvent, seize-IsSolvent, credit-IsSolvent, debit-IsSolvent, insert-AllQueues,
  append-NonnegQueue, get-NonnegQueue,
}

-- What the code relies on in the product of a double with 0.1: it rounds to a value between 0
-- and the factor.
pub record IsBounty (ext : Externals) : Type 0 where
  pub at_least : (b : ℤ) → pos 0 ≤ℤ b → pos 0 ≤ℤ ext.bounty_of b
  pub at_most : (b : ℤ) → pos 0 ≤ℤ b → ext.bounty_of b ≤ℤ b

-- `t` is solvent, is worth what `s` is, and counts the same amount as minted.
pub record Keeps (s t : State) : Type 0 where
  pub solvent : IsSolvent t
  pub same : worth t ≡ worth s
  pub minted : t.minted ≡ s.minted

pub Keeps-refl : (s : State) → IsSolvent s → Keeps s s
Keeps-refl s h = record { solvent = h; same = refl; minted = refl }

pub bump_nonce-Keeps : (tx : Tx) (s t : State) → Keeps s t → Keeps s (bump_nonce tx t)
unfolding bump_nonce worth holdings
bump_nonce-Keeps tx s t k = record {
  solvent = record {
    liquid = k.solvent.liquid;
    bonded = k.solvent.bonded;
    withdrawing = k.solvent.withdrawing;
    treasury = k.solvent.treasury;
  };
  same = k.same;
  minted = k.minted;
}

pub move-Keeps :
    (a b : ℕ) (amt : ℤ) (s : State)
    → pos 0 ≤ℤ amt
    → amt ≤ℤ balance s a
    → IsSolvent s
    → Keeps s (credit b amt (debit a amt s))
unfolding credit debit
move-Keeps a b amt s p q h = record {
  solvent = credit-IsSolvent b amt (debit a amt s) p (debit-IsSolvent a amt s q h);
  same = omega (int_laws, parts (worth-credit b amt (debit a amt s)), parts (worth-debit a amt s));
  minted = refl;
}

-- Bonding a balance.
pub bond-Keeps :
    (a : ℕ) (amt : ℤ) (s : State)
    → pos 0 ≤ℤ amt
    → amt ≤ℤ balance s a
    → IsSolvent s
    → Keeps s (bond a amt (debit a amt s))
unfolding bond debit balance worth holdings
bond-Keeps a amt s p q h = record {
  solvent = record {
    liquid = (debit-IsSolvent a amt s q h).liquid;
    bonded =
        insert-AllNonneg a (get a s.staked +ℤ amt) s.staked h.bonded
          (omega (int_laws, get-nonneg a s.staked h.bonded));
    withdrawing = h.withdrawing;
    treasury = h.treasury;
  };
  same = omega (
    int_laws,
    parts (total-insert a (get a s.bal -ℤ amt) s.bal),
    parts (total-insert a (get a s.staked +ℤ amt) s.staked),
  );
  minted = refl;
}

-- Moving a bond into the withdrawing queue.
pub queue_unstake-Keeps :
    (a : ℕ) (amt : ℤ) (release : ℕ) (s : State)
    → pos 0 ≤ℤ amt
    → amt ≤ℤ stake_of s a
    → IsSolvent s
    → Keeps s (queue_unstake a amt release s)
unfolding queue_unstake stake_of worth holdings queued
queue_unstake-Keeps a amt release s p q h =
    let old = get_or_default a [] s.unbonding in
    let new = old ++ (amt, release) ∷ [] in
    record {
      solvent = record {
        liquid = h.liquid;
        bonded = insert-AllNonneg a (get a s.staked -ℤ amt) s.staked h.bonded (omega int_laws);
        withdrawing =
            insert-AllQueues a new s.unbonding
              (append-NonnegQueue old ((amt, release) ∷ [])
                (get-NonnegQueue a s.unbonding h.withdrawing) (p, tt))
              h.withdrawing;
        treasury = h.treasury;
      };
      same = omega (
        int_laws,
        parts (total-insert a (get a s.staked -ℤ amt) s.staked),
        parts (total_queued-insert a new s.unbonding),
        parts (queued-append old ((amt, release) ∷ [])),
      );
      minted = refl;
    }
