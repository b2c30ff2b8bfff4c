-- ===== src/Ledger/Blocks.antt =====
-- `apply_block`, the emission schedule and the upgrade bookkeeping of neura_l1/block_state.py.
use neurahash_miner.Base.{
  ℕ, ◌+◌, ◌*◌, ◌/◌, ◌^◌, Bool, true, false, ◌&&◌, Option, none, some, List, [], ◌∷◌, ℤ, pos, ◌+ℤ◌,
  ◌-ℤ◌, ltb_ℤ, leb_ℤ, min_ℤ, max_ℤ, Dict, get, insert, total, ltb, leb, ◌==◌, if◌then◌else◌,
  pos_part, neg_part,
}
use neurahash_miner.Ledger.Defs.{
  State, Tx, Header, Block, Externals, max_supply, initial_reward, halving_every, upgrade_window,
  upgrade_activation_delay,
}
use neurahash_miner.Ledger.Stake.{mature_unbonding}
use neurahash_miner.Ledger.Slash.{Reply, Refusal, ok, err}
use neurahash_miner.Ledger.Transition.{apply_tx}
use neurahash_miner.Ledger.Retarget.{fold_retarget}

-- `nominal_reward`: the product with 0.5 ** k is rounded down to a unit
unfoldable pub nominal_reward : State → ℕ → ℤ
nominal_reward s height =
    if height == 0
    then pos 0
    else max_ℤ (pos 0)
        (min_ℤ (pos (initial_reward / 2 ^ (height / halving_every))) (pos max_supply -ℤ s.minted))

unfoldable pub child_version : State → ℕ → ℕ
child_version s height = elim s.pending_activation [
  | none ↦ s.protocol_version
  | some h ↦ if leb h height then s.protocol_version + 1 else s.protocol_version
]

-- `credit_reward`: its two sums are rounded, each for itself
unfoldable pub credit_reward : (ℤ → ℤ) → ℕ → ℤ → State → State
credit_reward rounded addr amount s = if leb_ℤ amount (pos 0) then s else record s {
  bal = insert addr (rounded (get addr s.bal +ℤ amount)) s.bal;
  minted = rounded (s.minted +ℤ amount);
}

-- the exceptions of `apply_block`
pub data BlockError : Type 0 where
  tx_root_mismatch : BlockError
  tx_failed : Refusal → BlockError
  negative_weight : BlockError

pub data Outcome (A : Type 0) : Type 0 where
  applied : A → Outcome A
  raised : BlockError → Outcome A

-- `sum(self.staked.get(a, 0.0) for a in self.upgrade_signals)`
unfoldable pub signaled_stake : Dict ℤ → List ℕ → ℤ
signaled_stake staked [] = pos 0
signaled_stake staked (a ∷ names) = get a staked +ℤ signaled_stake staked names

-- `total > 0 and signaled * 3 >= total * 2`
unfoldable pub has_supermajority : State → Bool
unfolding signaled_stake total
has_supermajority s =
    let all = total s.staked in
    let signaled = signaled_stake s.staked s.upgrade_signals in
    ltb_ℤ (pos 0) all
    && leb (2 * pos_part all + 3 * neg_part signaled) (3 * pos_part signaled + 2 * neg_part all)

unfoldable pub activate : ℕ → State → State
activate version s = record s {
  protocol_version = version;
  upgrade_signals = [];
  upgrade_streak = 0;
  pending_activation = none;
}

unfoldable pub lock_in : ℕ → State → State
unfolding has_supermajority
lock_in height s =
    let streak = (if has_supermajority s then s.upgrade_streak + 1 else 0) in
    record s {
      upgrade_streak = streak;
      pending_activation =
          if leb upgrade_window streak
          then some (height + upgrade_activation_delay)
          else s.pending_activation;
    }

abbrev pub is_none {ℓ} : {A : Type ℓ} → Option A → Bool
is_none none = true
is_none (some _) = false

abbrev pub nonempty : List ℕ → Bool
nonempty [] = false
nonempty (_ ∷ _) = true

-- step (a2)
unfoldable pub upgrade_step : ℕ → ℕ → State → State
upgrade_step version height s =
    if ltb s.protocol_version version
    then activate version s
    else if is_none s.pending_activation && nonempty s.upgrade_signals
    then lock_in height s
    else s

-- `agg`: the positive weights by address; `none` where a weight is negative
unfoldable pub aggregate : List (ℕ × ℤ) → Dict ℤ → Option (Dict ℤ)
aggregate [] agg = some agg
aggregate ((addr, w) ∷ rest) agg =
    let next =
      aggregate rest (if ltb_ℤ (pos 0) w then insert addr (get addr agg +ℤ w) agg else agg) in
    if ltb_ℤ w (pos 0) then none else next

-- `sorted(agg.items())`: the keys are distinct
unfoldable pub insert_share : ℕ × ℤ → Dict ℤ → Dict ℤ
insert_share e [] = e ∷ []
insert_share e (f ∷ d) = if leb e.0 f.0 then e ∷ f ∷ d else f ∷ insert_share e d

unfoldable pub sort_shares : Dict ℤ → Dict ℤ
unfolding insert_share
sort_shares [] = []
sort_shares (e ∷ d) = insert_share e (sort_shares d)

-- an exception leaves the block at once
abbrev pub and_then : Outcome State → (State → Outcome State) → Outcome State
and_then (applied s) f = f s
and_then (raised e) f = raised e

-- `if not ok: raise ValueError(...)`
abbrev pub unless_refused : Reply → Outcome State → Outcome State
unless_refused (ok _) rest = rest
unless_refused (err refusal) rest = raised (tx_failed refusal)

module _ (ext : Externals) where
  open ext use {txid, sha256, share_of, rounded}

  -- `tx_root`; the root of no transactions is the text of zeros
  unfoldable pub ids_of : List Tx → List ℕ
  ids_of [] = []
  ids_of (tx ∷ txs) = txid tx ∷ ids_of txs

  unfoldable pub tx_root : List Tx → ℕ
  tx_root [] = 0
  tx_root (tx ∷ txs) = sha256 (ids_of (tx ∷ txs))

  -- step (a): the first transaction that does not apply raises
  unfoldable pub apply_txs : ℕ → List Tx → State → Outcome State
  apply_txs height [] s = applied s
  apply_txs height (tx ∷ txs) s =
      let (reply, s') = apply_tx ext tx (some height) s in
      unless_refused reply (apply_txs height txs s')

  unfoldable pub mint_shares : ℤ → ℤ → Dict ℤ → State → State
  mint_shares reward total_w [] s = s
  mint_shares reward total_w ((addr, w) ∷ shares) s =
      mint_shares reward total_w shares (credit_reward rounded addr (share_of reward w total_w) s)

  -- step (b): the header's reward, clamped again to what is left of the supply
  unfoldable pub block_reward : Header → State → ℤ
  block_reward header s = max_ℤ (pos 0) (min_ℤ header.reward (pos max_supply -ℤ s.minted))

  unfoldable pub mint_step : Header → Dict ℤ → State → State
  mint_step header agg s =
      let reward = block_reward header s in
      if ltb_ℤ (pos 0) (total agg) && ltb_ℤ (pos 0) reward
      then mint_shares reward (total agg) (sort_shares agg) s
      else s

  -- steps (b) to (d), on the state `s` after the transactions and the upgrade bookkeeping
  unfoldable pub finish_block : State → Header → List (ℕ × ℤ) → State → Outcome State
  finish_block parent header contributors s = elim (aggregate contributors []) [
    | none ↦ raised negative_weight
    | some agg ↦
        let minted_state = mint_step header agg s in
        applied (
          fold_retarget parent (record minted_state { model_checkpoint = header.new_checkpoint })
            header.height header.timestamp (max_ℤ (pos 0) header.work_score))
  ]

  unfoldable pub apply_block : State → Block → List (ℕ × ℤ) → Outcome State
  apply_block s block contributors =
      let header = block.header in
      if header.tx_root == tx_root block.txs
      then and_then (apply_txs header.height block.txs (mature_unbonding header.height s)) (λ s'.
        finish_block s header contributors (upgrade_step header.protocol_version header.height s'))
      else raised tx_root_mismatch
