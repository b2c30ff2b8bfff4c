-- ===== src/Vram/Tests.antt =====
-- neurahash/vram_autotune.py and neurahash/vram_manager.py: a card of 24 GiB, in eighths of a GiB.
use neurahash_miner.Vram.Growth.{growth_is_due, all_above}
use neurahash_miner.Base.{
  ◌<◌, ◌≤◌, arith, true, ◌≤ℤ◌, some, refl, negsuc, ◌⊎◌, ◌-ℤ◌, ◌≡◌, [], ◌/◌, floor_div, ◌*◌, none,
  ◌∷◌, false, ℤ, ◌+ℤ◌, List, pos,
}
use neurahash_miner.Vram.Defs.{
  reset_grow, run_ticks, tick, manager_round, footprint, new_tuning, target_units, Tuner, Tuning,
  Manager,
}
use neurahash_miner.Vram.Patience.{latest_first, sustained, growth_is_patient}
use neurahash_miner.Vram.Cap.{manager_round_agrees}
use neurahash_miner.Vram.Fit.{Fits, tick-Fits}

abbrev nine_tenths : ℤ → ℤ
nine_tenths (pos n) = pos (n * 9 / 10)
nine_tenths (negsuc n) = negsuc n

abbrev tuner : Tuner
tuner = record {
  base = pos 32;
  per_unit = 9;
  user_headroom = pos 12;
  min_units = 1;
  max_units = 16;
  grow_patience = 3;
  safe = nine_tenths;
}

abbrev manager : Manager
manager = record {
  tuner = tuner;
  headroom_share = nine_tenths;
  slack = λ a. a +ℤ a;
  cap_gb = none;
  cap_frac = none;
}

abbrev start : Tuning
start = record { current_units = 1; primed = false; grow_streak = 0; grow_floor = none }

-- the worked example of `target_units`
worked : target_units tuner (pos 160) ≡ 11
unfolding target_units floor_div ◌-ℤ◌
worked = refl

tick-Fits_example : Fits tuner (pos 160) (tick tuner (pos 160) start).1.current_units
tick-Fits_example = tick-Fits tuner (pos 160) start

-- five units at first, then room for eleven, for seven, and for nine
abbrev readings : List ℤ
readings = pos 160 ∷ pos 120 ∷ []

growth_is_patient_example :
    sustained tuner 7 3 (pos 140 ∷ latest_first (pos 100 ∷ readings) []) ≡ true
unfolding new_tuning tick run_ticks target_units floor_div ◌-ℤ◌
growth_is_patient_example =
    growth_is_patient tuner start (pos 100) (pos 140) readings 7 refl refl (omega arith)

manager_round_agrees_example :
    let r = manager_round manager (pos 160) (pos 192) start in
    ((r.0.reported ≡ 0)
      ⊎ ((cap : ℤ) × (r.0.cap ≡ some cap) × (footprint tuner r.0.reported ≤ℤ cap)))
    × (r.1.current_units ≤ r.0.reported)
unfolding footprint ◌+ℤ◌
manager_round_agrees_example =
    manager_round_agrees manager (pos 160) (pos 192) start refl refl refl (omega arith)
      (omega arith) (omega arith) (omega arith)

abbrev roomy : List ℤ
roomy = pos 160 ∷ pos 120 ∷ pos 140 ∷ []

roomy_above : all_above tuner 5 roomy ≡ true
unfolding target_units ◌-ℤ◌ floor_div
roomy_above = refl

growth_is_due_example : 5 < (run_ticks tuner roomy (reset_grow 5)).current_units
growth_is_due_example = growth_is_due tuner 5 roomy (omega arith) roomy_above (omega arith)
