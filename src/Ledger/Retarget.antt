-- ===== src/Ledger/Retarget.antt =====
-- `_fold_retarget` of neura_l1/block_state.py. A work score counts units of
-- WORK_FLOOR_SCALE^-1, so that its quantization is the identity on the scores that are not
-- negative.
pub mod Bounds
use neurahash_miner.Base.{
  ℕ, ◌-◌, ◌*◌, ◌/◌, ◌%◌, min, max, ◌||◌, not, List, [], ◌∷◌, ◌++◌, ℤ, pos, pos_part, ◌+ℤ◌,
  floor_div, length, get_or, last_items, sort, ltb, ◌==◌, if◌then◌else◌, sub_ℕ,
}
use neurahash_miner.Ledger.Defs.{
  State, target_timespan, retarget_clamp, retarget_window, work_floor_min, work_floor_max,
  mtp_window, retarget_activation_height,
}

unfoldable pub next_ring : List ℕ → ℕ → List ℕ
unfolding last_items
next_ring ring t = last_items mtp_window (ring ++ t ∷ [])

-- `sorted(ring)[len(ring) // 2]`
unfoldable pub median_time : List ℕ → ℕ
unfolding sort
median_time ring = get_or (sort ring) (length ring / 2) 0

unfoldable pub sample_of : ℤ → ℕ
sample_of work = max work_floor_min (pos_part work)

-- `ewma + (sample - ewma) * 1 // 16`; the result is never negative
unfoldable pub next_ewma : ℕ → ℕ → ℕ
unfolding floor_div ◌+ℤ◌
next_ewma ewma sample = pos_part (pos ewma +ℤ floor_div (sub_ℕ sample ewma) 16)

-- The elapsed time of an epoch, clamped. `mtp - anchor` is 0 here where the source has a
-- negative number; both take the lower bound.
unfoldable pub clamped_elapsed : ℕ → ℕ → ℕ
clamped_elapsed mtp anchor =
    let raw = mtp - anchor in
    let lo = target_timespan / retarget_clamp in
    let hi = target_timespan * retarget_clamp in min hi (max lo (if ltb 0 raw then raw else lo))

unfoldable pub work_ceiling : ℕ → ℕ
work_ceiling ewma = max work_floor_min (ewma * 3 / 4)

-- the floor of the next epoch, from the old one, the clamped time and the new average
unfoldable pub next_floor : ℕ → ℕ → ℕ → ℕ
unfolding work_ceiling
next_floor old clamped ewma =
    min (min work_floor_max (max work_floor_min (old * target_timespan / clamped)))
      (work_ceiling ewma)

-- every block: the ring, the average and the last timestamp
unfoldable pub fold_block : State → State → ℕ → ℤ → State
unfolding next_ring sample_of next_ewma
fold_block parent child t work = record child {
  ts_ring = next_ring parent.ts_ring t;
  work_ewma_q = next_ewma parent.work_ewma_q (sample_of work);
  last_block_ts = t;
}

-- an epoch boundary: the floor and the anchors. `child` has been through `fold_block`.
unfoldable pub fold_epoch : State → State → ℕ → State
unfolding median_time clamped_elapsed next_floor
fold_epoch parent child height =
    let mtp = median_time child.ts_ring in
    record child {
      work_floor_q =
          next_floor parent.work_floor_q (clamped_elapsed mtp parent.retarget_anchor_ts)
            child.work_ewma_q;
      retarget_anchor_ts = mtp;
      retarget_anchor_h = height;
    }

unfoldable pub fold_retarget : State → State → ℕ → ℕ → ℤ → State
unfolding fold_block fold_epoch
fold_retarget parent child height t work =
    if not parent.retarget_enabled || ltb height retarget_activation_height
    then child
    else let folded = fold_block parent child t work in
      if height % retarget_window == 0 then fold_epoch parent folded height else folded
