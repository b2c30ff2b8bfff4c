-- ===== src/Ledger/Frame.antt =====
-- What the moves of stake of neura_l1/block_state.py leave alone.
use neurahash_miner.Base.{ℕ, ◌≡◌, refl, ◌∙◌, Option, none, some, ℤ, arith, max_ℤ, pos}
use neurahash_miner.Ledger.Defs.{State}
use neurahash_miner.Ledger.Stake.{seize_bond, seize_queue, seize, credit}

-- The parts of a state that a move of stake leaves alone.
pub record SamePolicy (s t : State) : Type 0 where
  pub minted : t.minted ≡ s.minted
  pub treasury : t.treasury ≡ s.treasury
  pub nonces : t.nonces ≡ s.nonces
  pub keys : t.keys ≡ s.keys
  pub faults : t.slashed_faults ≡ s.slashed_faults
  pub signatures : t.require_tx_signatures ≡ s.require_tx_signatures
  pub version : t.protocol_version ≡ s.protocol_version

pub SamePolicy-refl : (s : State) → SamePolicy s s
SamePolicy-refl s = record {
  minted = refl;
  treasury = refl;
  nonces = refl;
  keys = refl;
  faults = refl;
  signatures = refl;
  version = refl;
}

pub SamePolicy-trans : {s t u : State} → SamePolicy s t → SamePolicy t u → SamePolicy s u
SamePolicy-trans p q = record {
  minted = q.minted ∙ p.minted;
  treasury = q.treasury ∙ p.treasury;
  nonces = q.nonces ∙ p.nonces;
  keys = q.keys ∙ p.keys;
  faults = q.faults ∙ p.faults;
  signatures = q.signatures ∙ p.signatures;
  version = q.version ∙ p.version;
}

seize_bond-SamePolicy :
    (addr : ℕ) (remaining : Option ℤ) (s : State) → SamePolicy s (seize_bond addr remaining s).2
unfolding seize_bond
seize_bond-SamePolicy addr remaining s = ground arith

seize_queue-SamePolicy :
    (addr : ℕ) (remaining : Option ℤ) (s : State) → SamePolicy s (seize_queue addr remaining s).1
unfolding seize_queue
seize_queue-SamePolicy addr remaining s = ground arith

-- A seizure changes bonds and queues only; its balances stay too.
pub seize-SamePolicy :
    (addr : ℕ) (amount : Option ℤ) (s : State) → SamePolicy s (seize addr amount s).1
unfolding seize
seize-SamePolicy addr amount s =
    let remaining : Option ℤ = elim amount [ none ↦ none | some a ↦ some (max_ℤ (pos 0) a) ] in
    let (taken, left, s') = seize_bond addr remaining s in
    SamePolicy-trans (seize_bond-SamePolicy addr remaining s) (seize_queue-SamePolicy addr left s')

pub credit-SamePolicy : (addr : ℕ) (amt : ℤ) (s : State) → SamePolicy s (credit addr amt s)
unfolding credit
credit-SamePolicy addr amt s = ground arith
