-- ===== src/Ledger/Issue/Drift.antt =====
-- `credit_reward` of neura_l1/block_state.py: what a number of credits drift by.
use mathlib.Core.Path.{ap}
use neurahash_miner.Base.{
  ltb_ℤ, false, true, get-nonneg, if◌then◌else◌, insert-AllNonneg, Bool, ◌+◌, ◌-ℤ◌, ◌∙◌,
  total-insert, refl, get, insert, suc, ◌≤◌, length, ◌≤ℤ◌, ℕ, ◌≡◌, Option, none, some, List, [],
  ◌∷◌, ℤ, pos, ◌+ℤ◌, int_laws, arith, parts, Dict,
}
use neurahash_miner.Ledger.Defs.{State, Externals}
use neurahash_miner.Ledger.Blocks.{insert_share, sort_shares, aggregate}
use neurahash_miner.Ledger.Worth.{worth, holdings}
use neurahash_miner.Ledger.Solvency.{IsSolvent}
use neurahash_miner.Ledger.Keeps.{Keeps}

-- the rounding of the sum of two doubles: of one that is not negative it is not negative
abbrev pub IsRounding : Externals → Type 0
IsRounding ext = (x : ℤ) → pos 0 ≤ℤ x → pos 0 ≤ℤ ext.rounded x

-- What a number of credits drift by, the holdings from the count: each rounds the sum of a balance
-- and the sum of the count.
pub data Drift (rounded : ℤ → ℤ) : ℕ → ℤ → Type 0 where
  no_drift : Drift rounded 0 (pos 0)
  drifts :
      {n : ℕ} {d : ℤ} (x y : ℤ)
      → Drift rounded n d
      → Drift rounded (suc n) (d +ℤ (rounded x -ℤ x) -ℤ (rounded y -ℤ y))

-- `t` is solvent, and holds more than `s` by what it counts as minted since, but for the drift of
-- at most a number of credits.
pub record Issues (rounded : ℤ → ℤ) (most : ℕ) (s t : State) : Type 0 where
  pub solvent : IsSolvent t
  pub credits : ℕ
  pub few : credits ≤ most
  pub drift : ℤ
  pub is_drift : Drift rounded credits drift
  pub backed : worth t +ℤ s.minted ≡ worth s +ℤ t.minted +ℤ drift

pub Issues-of_Keeps :
    {s t : State} (rounded : ℤ → ℤ) (most : ℕ) → Keeps s t → Issues rounded most s t
Issues-of_Keeps rounded most k = record {
  solvent = k.solvent;
  credits = 0;
  few = omega arith;
  drift = pos 0;
  is_drift = no_drift;
  backed = omega (int_laws, parts k.same, parts k.minted);
}

pub Keeps-then_Issues :
    {s t u : State} (rounded : ℤ → ℤ) (most : ℕ)
    → Keeps s t
    → Issues rounded most t u
    → Issues rounded most s u
Keeps-then_Issues rounded most k i = record {
  solvent = i.solvent;
  credits = i.credits;
  few = i.few;
  drift = i.drift;
  is_drift = i.is_drift;
  backed = omega (int_laws, parts i.backed, parts k.same, parts k.minted);
}

pub Issues-then_Keeps :
    {s t u : State} (rounded : ℤ → ℤ) (most : ℕ)
    → Issues rounded most s t
    → Keeps t u
    → Issues rounded most s u
Issues-then_Keeps rounded most i k = record {
  solvent = k.solvent;
  credits = i.credits;
  few = i.few;
  drift = i.drift;
  is_drift = i.is_drift;
  backed = omega (int_laws, parts i.backed, parts k.same, parts k.minted);
}

pub Issues-weaken :
    {s t : State} (rounded : ℤ → ℤ) (most more : ℕ)
    → most ≤ more
    → Issues rounded most s t
    → Issues rounded more s t
Issues-weaken rounded most more l i = record {
  solvent = i.solvent;
  credits = i.credits;
  few = omega (arith, l, i.few);
  drift = i.drift;
  is_drift = i.is_drift;
  backed = i.backed;
}

-- a state after a credit of a mint: its two sums `x` and `y` are rounded
abbrev pub minted_to : (ℤ → ℤ) → ℕ → ℤ → State → State
minted_to rounded a amt s = record s {
  bal = insert a (rounded (get a s.bal +ℤ amt)) s.bal;
  minted = rounded (s.minted +ℤ amt);
}

minted_to-worth :
    (rounded : ℤ → ℤ) (a : ℕ) (amt : ℤ) (s : State)
    → worth (minted_to rounded a amt s) +ℤ get a s.bal ≡ worth s +ℤ rounded (get a s.bal +ℤ amt)
unfolding worth holdings
minted_to-worth rounded a amt s =
    grind (int_laws, total-insert a (rounded (get a s.bal +ℤ amt)) s.bal)

pub minted_to-IsSolvent :
    (ext : Externals) (rounds : IsRounding ext) (a : ℕ) (amt : ℤ) (s : State)
    → pos 0 ≤ℤ amt
    → IsSolvent s
    → IsSolvent (minted_to ext.rounded a amt s)
minted_to-IsSolvent ext rounds a amt s p h = record {
  liquid =
      insert-AllNonneg a (ext.rounded (get a s.bal +ℤ amt)) s.bal h.liquid
        (rounds (get a s.bal +ℤ amt) (omega (int_laws, p, get-nonneg a s.bal h.liquid)));
  bonded = h.bonded;
  withdrawing = h.withdrawing;
  treasury = h.treasury;
}

-- a credit, and the credits after it
pub minted_to-then_Issues :
    (rounded : ℤ → ℤ) (most a : ℕ) (amt : ℤ) (s u : State)
    → Issues rounded most (minted_to rounded a amt s) u
    → Issues rounded (suc most) s u
minted_to-then_Issues rounded most a amt s u i =
    let x = get a s.bal +ℤ amt in
    let y = s.minted +ℤ amt in
    record {
      solvent = i.solvent;
      credits = suc i.credits;
      few = omega (arith, i.few);
      drift = i.drift +ℤ (rounded x -ℤ x) -ℤ (rounded y -ℤ y);
      is_drift = drifts x y i.is_drift;
      backed = omega (int_laws, parts i.backed, parts (minted_to-worth rounded a amt s));
    }

length-insert : (k : ℕ) (v : ℤ) (d : Dict ℤ) → length (insert k v d) ≤ suc (length d)
unfolding insert
length-insert k v [] = omega arith
length-insert k v (e ∷ d) = ground (arith, length-insert k v d)

length-insert_share : (e : ℕ × ℤ) (d : Dict ℤ) → length (insert_share e d) ≡ suc (length d)
unfolding insert_share
length-insert_share e [] = refl
length-insert_share e (f ∷ d) = ground (arith, length-insert_share e d)

pub length-sort_shares : (d : Dict ℤ) → length (sort_shares d) ≡ length d
unfolding sort_shares
length-sort_shares [] = refl
length-sort_shares (e ∷ d) = length-insert_share e (sort_shares d) ∙ ap suc (length-sort_shares d)

-- `agg` has a key for a contributor at most
abbrev pub IsAtMost : ℕ → Option (Dict ℤ) → Type 0
IsAtMost n none = Unit
IsAtMost n (some d) = length d ≤ n

IsAtMost-weaken : (n m : ℕ) (o : Option (Dict ℤ)) → n ≤ m → IsAtMost n o → IsAtMost m o
IsAtMost-weaken n m none l h = tt
IsAtMost-weaken n m (some d) l h = omega (arith, l, h)

pub length-aggregate :
    (contributors : List (ℕ × ℤ)) (agg : Dict ℤ)
    → IsAtMost (length contributors + length agg) (aggregate contributors agg)
unfolding aggregate
length-aggregate [] agg = omega arith
length-aggregate ((a, w) ∷ rest) agg =
    go (ltb_ℤ w (pos 0)) (ltb_ℤ (pos 0) w) (length-aggregate rest)
  where
    go :
        (b c : Bool)
        → ((d : Dict ℤ) → IsAtMost (length rest + length d) (aggregate rest d))
        → IsAtMost (suc (length rest) + length agg) (
            if b then none else aggregate rest (if c then (insert a (get a agg +ℤ w) agg) else agg))
    go true c later = tt
    go false true later =
        IsAtMost-weaken (length rest + length (insert a (get a agg +ℤ w) agg))
          (suc (length rest) + length agg) (aggregate rest (insert a (get a agg +ℤ w) agg))
          (omega (arith, length-insert a (get a agg +ℤ w) agg))
          (later (insert a (get a agg +ℤ w) agg))
    go false false later =
        IsAtMost-weaken (length rest + length agg) (suc (length rest) + length agg)
          (aggregate rest agg) (omega arith) (later agg)
