-- ===== src/Ledger/Slash.antt =====
-- The slash transactions of neura_l1/block_state.py: `_apply_slash` and what it calls.
use neurahash_miner.Base.{
  ℤ, ℕ, Bool, false, ◌||◌, Option, none, some, List, [], ◌∷◌, pos, ◌+ℤ◌, ◌-ℤ◌, ltb_ℤ, ltb, lookup,
  ◌==◌, if◌then◌else◌,
}
use neurahash_miner.Signing.{
  Scheme, EquivocationProof, equivocation_by, not_equivocation, require_supported,
  verify_equivocation,
}
use neurahash_miner.Ledger.Defs.{State, Tx, TxData, Fault, same_fault, Externals, Vote}
use neurahash_miner.Ledger.Stake.{credit, seize}

-- the texts that `apply_tx` returns with True, and with False
pub data Note : Type 0 where
  transfer_applied stake_applied vote_fault_slashed equivocation_slashed : Note
  already_slashed : Note
  signal_recorded : Note
  unstake_queued : ℕ → Note

pub data Refusal : Type 0 where
  non_finite_amount negative_amount bad_nonce unregistered_sender : Refusal
  unsupported_scheme bad_signature wrong_signer missing_recipient : Refusal
  insufficient_balance insufficient_stake malformed_version wrong_version no_active_stake : Refusal
  missing_proof invalid_proof signer_not_registered missing_validator malformed_fault : Refusal
  unregistered_validator not_a_fault : Refusal

-- (ok, reason)
pub data Reply : Type 0 where
  ok : Note → Reply
  err : Refusal → Reply

-- what `recover_tx_signer` does: it returns an address, raises UnsupportedSchemeError, or raises
-- another exception
pub data Recovery : Type 0 where
  signed_by : ℕ → Recovery
  scheme_error signature_error : Recovery

unfoldable pub mem_fault : Fault → List Fault → Bool
unfolding same_fault
mem_fault f [] = false
mem_fault f (g ∷ fs) = same_fault f g || mem_fault f fs

unfoldable pub add_fault : Fault → List Fault → List Fault
unfolding mem_fault
add_fault f fs = if mem_fault f fs then fs else f ∷ fs

-- 'ffg:' with the sorted vote ids
unfoldable pub vote_fault_id : Vote → Vote → Fault
vote_fault_id a b =
    if ltb b.vote_id a.vote_id then Fault.ffg b.vote_id a.vote_id else Fault.ffg a.vote_id b.vote_id

-- `if bounty > 0: self._credit(tx.sender, bounty)`
unfoldable pub pay_bounty : ℕ → ℤ → State → State
pay_bounty addr bounty s = if ltb_ℤ (pos 0) bounty then credit addr bounty s else s

unfoldable pub close_slash : Fault → ℤ → State → State
close_slash fault burned s = record s {
  treasury = s.treasury +ℤ burned;
  slashed_faults = add_fault fault s.slashed_faults;
}

module _ (ext : Externals) where
  open ext use {signing, recover_tx_message, verify_vote_fault, bounty_of}

  unfoldable pub recover_tx_with : Tx → ℕ → Scheme → Recovery
  recover_tx_with tx sig Scheme.secp256k1 = elim (recover_tx_message tx sig) [
    | none ↦ signature_error
    | some a ↦ signed_by a
  ]
  recover_tx_with tx sig _ = scheme_error

  -- signing.recover_tx_signer
  unfoldable pub recover_tx_signer : Tx → Recovery
  unfolding require_supported recover_tx_with
  recover_tx_signer tx = elim tx.signature [
    | none ↦ signature_error
    | some sig ↦ elim (require_supported tx.scheme) [
      | none ↦ scheme_error
      | some scheme ↦ recover_tx_with tx sig scheme
    ]
  ]

  unfoldable pub reporter_bounty_ok : Tx → State → Bool
  unfolding recover_tx_signer
  reporter_bounty_ok tx s = elim (lookup tx.sender s.keys) [
    | none ↦ false
    | some reg ↦ elim (recover_tx_signer tx) [
      | signed_by signer ↦ signing.lower signer == signing.lower reg
      | _ ↦ false
    ]
  ]

  -- `bond * EQUIVOCATION_BOUNTY_FRAC if self._reporter_bounty_ok(tx) else 0.0`
  unfoldable pub bounty_for : Tx → ℤ → State → ℤ
  bounty_for tx bond s = if reporter_bounty_ok tx s then bounty_of bond else pos 0

  -- What both kinds of slash do once the proof stands: seize all that is at risk, pay an
  -- authenticated reporter, move the rest to the treasury and record the fault.
  unfoldable pub burn : Tx → ℕ → Fault → State → State
  burn tx validator fault s =
      let (bond, s') = seize validator none s in
      let bounty = bounty_for tx bond s' in
      close_slash fault (bond -ℤ bounty) (pay_bounty tx.sender bounty s')

  unfoldable pub punish : Note → Tx → ℕ → Fault → State → Reply × State
  punish note tx validator fault s =
      if mem_fault fault s.slashed_faults
      then (ok already_slashed, s)
      else (ok note, burn tx validator fault s)

  unfoldable pub apply_vote_fault_slash :
      Tx → Option ℕ → Option (Vote × Vote) → State → Reply × State
  apply_vote_fault_slash tx none votes s = (err missing_validator, s)
  apply_vote_fault_slash tx (some validator) none s = (err malformed_fault, s)
  apply_vote_fault_slash tx (some validator) (some (a, b)) s = elim (lookup validator s.keys) [
    | none ↦ (err unregistered_validator, s)
    | some registered ↦
        if verify_vote_fault validator a b registered
        then punish vote_fault_slashed tx validator (vote_fault_id a b) s
        else (err not_a_fault, s)
  ]

  -- `registered is None or registered.lower() != signer.lower()`
  unfoldable pub registered_as : ℕ → ℕ → State → Bool
  registered_as proposer signer s = elim (lookup proposer s.keys) [
    | none ↦ false
    | some registered ↦ signing.lower registered == signing.lower signer
  ]

  unfoldable pub slash_signer : Tx → EquivocationProof → ℕ → ℕ → State → Reply × State
  slash_signer tx proof proposer signer s =
      if registered_as proposer signer s
      then punish equivocation_slashed tx proposer
          (Fault.equivocation (signing.lower signer) proof.a.commitment.height) s
      else (err signer_not_registered, s)

  unfoldable pub apply_equivocation_slash :
      Tx → Option EquivocationProof → Option ℕ → State → Reply × State
  apply_equivocation_slash tx none proposer s = (err missing_proof, s)
  apply_equivocation_slash tx (some proof) none s = (err missing_proof, s)
  apply_equivocation_slash tx (some proof) (some proposer) s =
      elim (verify_equivocation signing proof none) [
        | not_equivocation _ ↦ (err invalid_proof, s)
        | equivocation_by signer ↦ slash_signer tx proof proposer signer s
      ]

  -- `_apply_slash`: the dispatch on `tx.data`
  unfoldable pub apply_slash : Tx → TxData → State → Reply × State
  apply_slash tx (TxData.vote_fault validator votes) s = apply_vote_fault_slash tx validator votes s
  apply_slash tx (TxData.equivocation proof proposer) s =
      apply_equivocation_slash tx proof proposer s
  apply_slash tx _ s = apply_equivocation_slash tx none none s
