-- ===== src/Ledger/Keeps/Transactions.antt =====
-- `apply_tx` of neura_l1/block_state.py moves amounts, and neither makes nor destroys them.
use neurahash_miner.Ledger.Keeps.{
  IsBounty, Keeps, Keeps-refl, bump_nonce-Keeps, move-Keeps, bond-Keeps, queue_unstake-Keeps,
}
use neurahash_miner.Ledger.Keeps.Slashes.{apply_slash-Keeps}
use neurahash_miner.Base.{
  ℕ, ◌≡◌, refl, Option, List, ℤ, pos, ◌≤ℤ◌, leb_of_ltb, arith, Option-cases, Bool-cases, inl, inr,
  ltb_ℤ,
}
use neurahash_miner.Ledger.Defs.{infinite, nan, Float, State, Tx, Kind, Externals, finite}
use neurahash_miner.Ledger.Stake.{balance, stake_of, credit, debit}
use neurahash_miner.Ledger.Transition.{
  add_name, release_height, is_slash, bond, queue_unstake, apply_transfer, apply_stake,
  apply_unstake, apply_upgrade_signal, apply_kind, apply_ordinary, apply_tx,
}
use neurahash_miner.Ledger.Worth.{holdings, worth}
use neurahash_miner.Ledger.Solvency.{IsSolvent}

apply_transfer-Keeps :
    (tx : Tx) (amt : ℤ) (s : State)
    → pos 0 ≤ℤ amt
    → IsSolvent s
    → Keeps s (apply_transfer tx amt s).1
unfolding apply_transfer
apply_transfer-Keeps tx amt s p h = elim (Option-cases tx.to) [
  | inl e ↦ rw (e, apply_transfer) (Keeps-refl s h)
  | inr (to, e) ↦ elim (Bool-cases (ltb_ℤ (balance s tx.sender) amt)) [
    | inl short ↦ rw (e, apply_transfer, short) (Keeps-refl s h)
    | inr q ↦
        rw (e, apply_transfer, q)
          (bump_nonce-Keeps tx s (credit to amt (debit tx.sender amt s))
            (move-Keeps tx.sender to amt s p (leb_of_ltb (balance s tx.sender) amt q) h))
  ]
]

apply_stake-Keeps :
    (tx : Tx) (amt : ℤ) (s : State) → pos 0 ≤ℤ amt → IsSolvent s → Keeps s (apply_stake tx amt s).1
unfolding apply_stake
apply_stake-Keeps tx amt s p h = elim (Bool-cases (ltb_ℤ (balance s tx.sender) amt)) [
  | inl short ↦ rw short (Keeps-refl s h)
  | inr q ↦ rw q (
      bump_nonce-Keeps tx s (bond tx.sender amt (debit tx.sender amt s))
        (bond-Keeps tx.sender amt s p (leb_of_ltb (balance s tx.sender) amt q) h))
]

apply_unstake-Keeps :
    (tx : Tx) (amt : ℤ) (height : Option ℕ) (s : State)
    → pos 0 ≤ℤ amt
    → IsSolvent s
    → Keeps s (apply_unstake tx amt height s).1
unfolding apply_unstake
apply_unstake-Keeps tx amt height s p h = elim (Bool-cases (ltb_ℤ (stake_of s tx.sender) amt)) [
  | inl short ↦ rw short (Keeps-refl s h)
  | inr q ↦
      let r = release_height height in
      rw q (
        bump_nonce-Keeps tx s (queue_unstake tx.sender amt r s)
          (queue_unstake-Keeps tx.sender amt r s p (leb_of_ltb (stake_of s tx.sender) amt q) h))
]

signal-Keeps :
    (names : List ℕ) (s : State) → IsSolvent s → Keeps s (record s { upgrade_signals = names })
unfolding worth holdings
signal-Keeps names s h = record {
  solvent = record {
    liquid = h.liquid;
    bonded = h.bonded;
    withdrawing = h.withdrawing;
    treasury = h.treasury;
  };
  same = refl;
  minted = refl;
}

apply_upgrade_signal-Keeps :
    (tx : Tx) (s : State) → IsSolvent s → Keeps s (apply_upgrade_signal tx s).1
unfolding apply_upgrade_signal
apply_upgrade_signal-Keeps tx s h =
    let names = add_name tx.sender s.upgrade_signals in
    ground (
      arith,
      Keeps-refl s h,
      bump_nonce-Keeps tx s (record s { upgrade_signals = names }) (signal-Keeps names s h),
    )

module _ (ext : Externals) (fair : IsBounty ext) where
  apply_kind-Keeps :
      (tx : Tx) (kind : Kind) (amt : ℤ) (height : Option ℕ) (s : State)
      → pos 0 ≤ℤ amt
      → IsSolvent s
      → Keeps s (apply_kind ext tx kind amt height s).1
  unfolding apply_kind
  apply_kind-Keeps tx Kind.transfer amt height s p h = apply_transfer-Keeps tx amt s p h
  apply_kind-Keeps tx Kind.stake amt height s p h = apply_stake-Keeps tx amt s p h
  apply_kind-Keeps tx Kind.unstake amt height s p h = apply_unstake-Keeps tx amt height s p h
  apply_kind-Keeps tx Kind.upgrade_signal amt height s p h = apply_upgrade_signal-Keeps tx s h
  apply_kind-Keeps tx Kind.slash amt height s p h = apply_slash-Keeps ext fair tx tx.payload s h

  apply_ordinary-Keeps :
      (tx : Tx) (amt : ℤ) (height : Option ℕ) (s : State)
      → pos 0 ≤ℤ amt
      → IsSolvent s
      → Keeps s (apply_ordinary ext tx amt height s).1
  unfolding apply_ordinary
  apply_ordinary-Keeps tx amt height s p h =
      ground (arith, Keeps-refl s h, apply_kind-Keeps tx tx.kind amt height s p h)

  finite-Keeps :
      (tx : Tx) (amt : ℤ) (height : Option ℕ) (s : State)
      → IsSolvent s
      → tx.amount ≡ finite amt
      → Keeps s (apply_tx ext tx height s).1
  unfolding apply_tx
  finite-Keeps tx amt height s h e = elim (Bool-cases (ltb_ℤ amt (pos 0))) [
    | inl neg ↦ rw (e, apply_tx, neg) (Keeps-refl s h)
    | inr p ↦ elim (Bool-cases (is_slash tx.kind)) [
      | inl k ↦ rw (e, apply_tx, p, k) (apply_slash-Keeps ext fair tx tx.payload s h)
      | inr k ↦
          rw (e, apply_tx, p, k) (apply_ordinary-Keeps tx amt height s (leb_of_ltb amt (pos 0) p) h)
    ]
  ]

  -- A transaction, applied or refused, leaves a solvent state solvent and keeps the sum of all
  -- balances, bonds, withdrawing amounts and the treasury.
  pub apply_tx-Keeps :
      (tx : Tx) (height : Option ℕ) (s : State) → IsSolvent s → Keeps s (apply_tx ext tx height s).1
  unfolding apply_tx
  apply_tx-Keeps tx height s h = go tx.amount refl
    where
      go : (f : Float) → tx.amount ≡ f → Keeps s (apply_tx ext tx height s).1
      go (finite amt) e = finite-Keeps tx amt height s h e
      go infinite e = rw (e, apply_tx) (Keeps-refl s h)
      go nan e = rw (e, apply_tx) (Keeps-refl s h)
