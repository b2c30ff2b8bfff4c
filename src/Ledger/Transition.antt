-- ===== src/Ledger/Transition.antt =====
-- `apply_tx` of neura_l1/block_state.py, one function for each kind of transaction.
use neurahash_miner.Base.{
  ℕ, ◌+◌, Bool, true, false, Option, none, some, List, [], ◌∷◌, ◌++◌, ℤ, pos, ◌+ℤ◌, ◌-ℤ◌, ltb_ℤ,
  leb_ℤ, eq_ℤ, get, get_or_default, lookup, insert, ◌==◌, ◌||◌, if◌then◌else◌,
}
use neurahash_miner.Ledger.Defs.{State, Tx, TxData, Kind, finite, Externals, unbonding_period}
use neurahash_miner.Ledger.Stake.{balance, stake_of, credit, debit}
use neurahash_miner.Ledger.Slash.{
  Reply, ok, err, transfer_applied, stake_applied, signal_recorded, unstake_queued, Refusal,
  non_finite_amount, negative_amount, bad_nonce, unregistered_sender, unsupported_scheme,
  bad_signature, wrong_signer, missing_recipient, insufficient_balance, insufficient_stake,
  malformed_version, wrong_version, no_active_stake, signed_by, scheme_error, signature_error,
  recover_tx_signer, apply_slash,
}

-- `self.nonces[tx.sender] = tx.nonce + 1`
unfoldable pub bump_nonce : Tx → State → State
bump_nonce tx s = record s { nonces = insert tx.sender (tx.nonce +ℤ pos 1) s.nonces }

unfoldable pub apply_transfer : Tx → ℤ → State → Reply × State
apply_transfer tx amount s = elim tx.to [
  | none ↦ (err missing_recipient, s)
  | some to ↦
      if ltb_ℤ (balance s tx.sender) amount
      then (err insufficient_balance, s)
      else (ok transfer_applied, bump_nonce tx (credit to amount (debit tx.sender amount s)))
]

-- `self.staked[addr] = self.staked.get(addr, 0.0) + amount`
unfoldable pub bond : ℕ → ℤ → State → State
bond addr amount s = record s { staked = insert addr (get addr s.staked +ℤ amount) s.staked }

unfoldable pub apply_stake : Tx → ℤ → State → Reply × State
apply_stake tx amount s =
    if ltb_ℤ (balance s tx.sender) amount
    then (err insufficient_balance, s)
    else (ok stake_applied, bump_nonce tx (bond tx.sender amount (debit tx.sender amount s)))

unfoldable pub mem_name : ℕ → List ℕ → Bool
mem_name a [] = false
mem_name a (b ∷ bs) = a == b || mem_name a bs

-- `set.add`
unfoldable pub add_name : ℕ → List ℕ → List ℕ
add_name a names = if mem_name a names then names else a ∷ names

-- `int((tx.data or {})["version"])`, where `none` is an exception
unfoldable pub version_of : TxData → Option ℤ
version_of (TxData.version v) = v
version_of _ = none

unfoldable pub apply_upgrade_signal : Tx → State → Reply × State
apply_upgrade_signal tx s = elim (version_of tx.payload) [
  | none ↦ (err malformed_version, s)
  | some version ↦
      if eq_ℤ version (pos (s.protocol_version + 1))
      then if leb_ℤ (stake_of s tx.sender) (pos 0) then (err no_active_stake, s) else (
        ok signal_recorded,
        bump_nonce tx (record s { upgrade_signals = add_name tx.sender s.upgrade_signals }),
      )
      else (err wrong_version, s)
]

-- Moves a bond into the withdrawing queue.
unfoldable pub queue_unstake : ℕ → ℤ → ℕ → State → State
queue_unstake addr amount release s = record s {
  staked = insert addr (get addr s.staked -ℤ amount) s.staked;
  unbonding =
      insert addr (get_or_default addr [] s.unbonding ++ (amount, release) ∷ []) s.unbonding;
}

-- `int(height if height is not None else 0) + UNBONDING_PERIOD`
unfoldable pub release_height : Option ℕ → ℕ
release_height none = 0 + unbonding_period
release_height (some h) = h + unbonding_period

unfoldable pub apply_unstake : Tx → ℤ → Option ℕ → State → Reply × State
apply_unstake tx amount height s =
    if ltb_ℤ (stake_of s tx.sender) amount then (err insufficient_stake, s) else (
      ok (unstake_queued (release_height height)),
      bump_nonce tx (queue_unstake tx.sender amount (release_height height) s),
    )

-- `tx.kind == "slash"`
unfoldable pub is_slash : Kind → Bool
is_slash Kind.slash = true
is_slash _ = false

module _ (ext : Externals) where
  open ext use {signing}

  -- The checks of `apply_tx` on a chain that requires signatures: the first one that fails.
  unfoldable pub authenticate : Tx → State → Option Refusal
  authenticate tx s =
      if s.require_tx_signatures
      then elim (lookup tx.sender s.keys) [
        | none ↦ some unregistered_sender
        | some reg ↦ elim (recover_tx_signer ext tx) [
          | scheme_error ↦ some unsupported_scheme
          | signature_error ↦ some bad_signature
          | signed_by signer ↦
              if signing.lower reg == signing.lower signer then none else some wrong_signer
        ]
      ]
      else none

  -- the dispatch on the kind, once a transaction is authentic
  unfoldable pub apply_kind : Tx → Kind → ℤ → Option ℕ → State → Reply × State
  apply_kind tx Kind.transfer amount height s = apply_transfer tx amount s
  apply_kind tx Kind.stake amount height s = apply_stake tx amount s
  apply_kind tx Kind.upgrade_signal amount height s = apply_upgrade_signal tx s
  apply_kind tx Kind.unstake amount height s = apply_unstake tx amount height s
  apply_kind tx Kind.slash amount height s = apply_slash ext tx tx.payload s

  unfoldable pub apply_ordinary : Tx → ℤ → Option ℕ → State → Reply × State
  apply_ordinary tx amount height s =
      if eq_ℤ tx.nonce (get tx.sender s.nonces)
      then elim (authenticate tx s) [
        | some refusal ↦ (err refusal, s)
        | none ↦ apply_kind tx tx.kind amount height s
      ]
      else (err bad_nonce, s)

  unfoldable pub apply_tx : Tx → Option ℕ → State → Reply × State
  apply_tx tx height s = elim tx.amount [
    | finite amount ↦
        if ltb_ℤ amount (pos 0)
        then (err negative_amount, s)
        else if is_slash tx.kind
        then apply_slash ext tx tx.payload s
        else apply_ordinary tx amount height s
    | _ ↦ (err non_finite_amount, s)
  ]
