-- ===== src/Ledger/Retarget/Bounds.antt =====
-- The difficulty retarget of neura_l1/block_state.py stays within its bounds.
use native.Mathlib.Nat.{div-add-mod}
use neurahash_miner.Base.{
  ltb-zero, ne→==, refl, ℕ, ◌*◌, ◌/◌, ◌%◌, ◌≤◌, ◌≡◌, ◌≢◌, min, max, true, ℤ, pos_part, ◌+ℤ◌,
  floor_div, arith, length, length-last_items, [], ◌∷◌, ◌++◌, if_intro,
}
use neurahash_miner.Ledger.Defs.{State, retarget_window, work_floor_max, mtp_window}
use neurahash_miner.Ledger.Retarget.{
  next_ring, sample_of, next_ewma, clamped_elapsed, work_ceiling, next_floor, fold_block,
  fold_epoch, fold_retarget, median_time,
}

clamped_elapsed_bounds :
    (mtp anchor : ℕ) → (30240 ≤ clamped_elapsed mtp anchor) × (clamped_elapsed mtp anchor ≤ 483840)
unfolding clamped_elapsed
clamped_elapsed_bounds mtp anchor = ground arith

next_ewma-pos : (e s : ℕ) → 1 ≤ e → 1 ≤ s → 1 ≤ next_ewma e s
unfolding next_ewma floor_div ◌+ℤ◌
next_ewma-pos e s p q = ground arith

next_ewma_between : (e s : ℕ) → (min e s ≤ next_ewma e s) × (next_ewma e s ≤ max e s)
unfolding next_ewma floor_div ◌+ℤ◌
next_ewma_between e s = ground arith

next_floor_bounds :
    (old c e : ℕ)
    → (1 ≤ next_floor old c e)
      × (next_floor old c e ≤ work_floor_max)
      × (next_floor old c e ≤ work_ceiling e)
unfolding next_floor work_ceiling
next_floor_bounds old c e = ground arith

quotient_le : (q c x : ℕ) → 30240 ≤ c → q * c ≤ x * 120960 → q ≤ 4 * x
quotient_le q c x h k = grind arith

div-mul-le : (a c : ℕ) → a / c * c ≤ a
div-mul-le a c = omega (arith, div-add-mod a c)

next_floor-le : (old c e : ℕ) → 1 ≤ old → 30240 ≤ c → next_floor old c e ≤ 4 * old
unfolding next_floor work_ceiling
next_floor-le old c e p h =
    let q = old * 120960 / c in
    let fits : q ≤ 4 * old = quotient_le q c old h (div-mul-le (old * 120960) c) in ground arith

-- The work floor and the average are positive, the floor is below its absolute bound, and the
-- ring holds at most MTP_WINDOW timestamps.
pub record IsTuned (s : State) : Type 0 where
  pub floor_pos : 1 ≤ s.work_floor_q
  pub floor_max : s.work_floor_q ≤ work_floor_max
  pub ewma_pos : 1 ≤ s.work_ewma_q
  pub ring : length s.ts_ring ≤ mtp_window

module _ (parent child : State) (height t : ℕ) (work : ℤ) where
  fold_block-IsTuned : IsTuned parent → IsTuned child → IsTuned (fold_block parent child t work)
  unfolding fold_block next_ring sample_of
  fold_block-IsTuned p c = record {
    floor_pos = c.floor_pos;
    floor_max = c.floor_max;
    ewma_pos = next_ewma-pos parent.work_ewma_q (max 1 (pos_part work)) p.ewma_pos (omega arith);
    ring = length-last_items mtp_window (parent.ts_ring ++ t ∷ []);
  }

  fold_epoch-IsTuned : IsTuned child → IsTuned (fold_epoch parent child height)
  unfolding fold_epoch
  fold_epoch-IsTuned c =
      let clamped = clamped_elapsed (median_time child.ts_ring) parent.retarget_anchor_ts in
      let b = next_floor_bounds parent.work_floor_q clamped child.work_ewma_q in
      record { floor_pos = b.0; floor_max = b.1; ewma_pos = c.ewma_pos; ring = c.ring }

module _ (parent child : State) (height t : ℕ) (work : ℤ) where
  -- Folding a block into the retarget state keeps its bounds.
  pub fold_retarget-IsTuned :
      IsTuned parent → IsTuned child → IsTuned (fold_retarget parent child height t work)
  unfolding fold_retarget
  fold_retarget-IsTuned p c =
      let folded = fold_block parent child t work in
      let f = fold_block-IsTuned parent child height t work p c in
      if_intro IsTuned _ c (if_intro IsTuned _ (fold_epoch-IsTuned parent folded height t work f) f)

  boundary :
      parent.retarget_enabled ≡ true
      → height % retarget_window ≡ 0
      → fold_retarget parent child height t work
        ≡ fold_epoch parent (fold_block parent child t work) height
  unfolding fold_retarget
  boundary e z = rw (e, ltb-zero height, z)

  -- A block between two epochs of an enabled chain leaves the floor and the anchors alone; it
  -- records its timestamp and moves the average to a value between the old one and its own work.
  pub fold_retarget-between :
      parent.retarget_enabled ≡ true
      → height % retarget_window ≢ 0
      → let s = fold_retarget parent child height t work in
        (s.work_floor_q ≡ child.work_floor_q)
        × (s.retarget_anchor_ts ≡ child.retarget_anchor_ts)
        × (s.retarget_anchor_h ≡ child.retarget_anchor_h)
        × (s.last_block_ts ≡ t)
        × (min parent.work_ewma_q (sample_of work) ≤ s.work_ewma_q)
        × (s.work_ewma_q ≤ max parent.work_ewma_q (sample_of work))
  unfolding fold_retarget fold_block
  fold_retarget-between e z =
      let b = next_ewma_between parent.work_ewma_q (sample_of work) in
      rw (e, ltb-zero height, ne→== (height % retarget_window) 0 z)
        (refl, refl, refl, refl, b.0, b.1)

  -- A block on the boundary of an epoch of an enabled chain sets the floor to at most four times
  -- the parent's, and to at most three quarters of the average of the work shown (or the least
  -- floor), and anchors the next epoch at its height.
  pub fold_retarget-boundary :
      parent.retarget_enabled ≡ true
      → 1 ≤ parent.work_floor_q
      → height % retarget_window ≡ 0
      → let s = fold_retarget parent child height t work in
        (s.work_floor_q ≤ 4 * parent.work_floor_q)
        × (s.work_floor_q ≤ work_ceiling s.work_ewma_q)
        × (s.retarget_anchor_h ≡ height)
        × (s.retarget_anchor_ts ≡ median_time s.ts_ring)
  unfolding fold_epoch
  fold_retarget-boundary e p z =
      let folded = fold_block parent child t work in
      let mtp = median_time folded.ts_ring in
      let clamped = clamped_elapsed mtp parent.retarget_anchor_ts in
      rw (boundary e z) (
        next_floor-le parent.work_floor_q clamped folded.work_ewma_q p
            (clamped_elapsed_bounds mtp parent.retarget_anchor_ts).0,
        (next_floor_bounds parent.work_floor_q clamped folded.work_ewma_q).2,
        refl,
        refl,
      )
