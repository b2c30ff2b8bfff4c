-- ===== src/Vram/Defs.antt =====
-- neurahash/vram_autotune.py and neurahash/vram_manager.py: the target, the tick of the tuner, and
-- the manager's round. Memory is counted in whole numbers of some small unit; the products with a
-- fraction of a float are functions. Numbers of layers are not negative.
use neurahash_miner.Base.{
  ℕ, suc, ◌*◌, ◌==◌, Bool, true, false, not, ltb, leb, if◌then◌else◌, Option, none, some, List, [],
  ◌∷◌, ℤ, pos, negsuc, ◌+ℤ◌, ◌-ℤ◌, ltb_ℤ, leb_ℤ, min_ℤ, floor_div,
}

-- The configuration of a tuner. `safe` is the product with `safety_frac`.
pub record Tuner : Type 0 where
  pub base : ℤ
  pub per_unit : ℕ
  pub user_headroom : ℤ
  pub min_units : ℕ
  pub max_units : ℕ
  pub grow_patience : ℕ
  pub safe : ℤ → ℤ

-- what a tuner keeps between ticks
pub record Tuning : Type 0 where
  pub current_units : ℕ
  pub primed : Bool
  pub grow_streak : ℕ
  pub grow_floor : Option ℕ

-- `AdaptiveVramTuner.__init__`; none is a ValueError
unfoldable pub new_tuning : Tuner → Option Tuning
new_tuning c =
    if c.per_unit == 0
    then none
    else if ltb c.max_units c.min_units
    then none
    else some
        record { current_units = c.min_units; primed = false; grow_streak = 0; grow_floor = none }

-- `budget`, what the units may take
abbrev pub budget : Tuner → ℤ → ℤ
budget c free = c.safe free -ℤ c.user_headroom -ℤ c.base

-- `max(min_units, min(fit, max_units))`
abbrev pub clamped : Tuner → ℤ → ℕ
clamped c (negsuc fit) = c.min_units
clamped c (pos fit) =
    let fewer = if leb fit c.max_units then fit else c.max_units in
    if leb fewer c.min_units then c.min_units else fewer

unfoldable pub target_units : Tuner → ℤ → ℕ
target_units c free =
    let left = budget c free in
    let units = clamped c (floor_div left c.per_unit) in
    if ltb_ℤ left (pos (units * c.per_unit)) then 0 else units

-- `_reset_grow`, holding `n` units
abbrev pub reset_grow : ℕ → Tuning
reset_grow n = record { current_units = n; primed = true; grow_streak = 0; grow_floor = none }

abbrev pub lower_floor : Option ℕ → ℕ → ℕ
lower_floor none target = target
lower_floor (some f) target = if leb f target then f else target

-- a target above what is held
abbrev pub grow : Tuner → ℕ → Tuning → Option ℕ × Tuning
grow c target t =
    let level = lower_floor t.grow_floor target in
    if leb c.grow_patience (suc t.grow_streak)
    then (some level, reset_grow level)
    else (none, record t { grow_streak = suc t.grow_streak; grow_floor = some level })

-- the first observation
abbrev pub prime : ℕ → Tuning → Option ℕ × Tuning
prime target t =
    if not (target == t.current_units)
    then (some target, reset_grow target)
    else (none, reset_grow t.current_units)

-- `tick`, given what is free: the new number of units where it changes
unfoldable pub tick : Tuner → ℤ → Tuning → Option ℕ × Tuning
tick c free t =
    let target = target_units c free in
    if not t.primed
    then prime target t
    else if ltb target t.current_units
    then (some target, reset_grow target)
    else if ltb t.current_units target
    then grow c target t
    else (none, reset_grow t.current_units)

-- the ticks of `run`, over the readings of the free memory
unfoldable pub run_ticks : Tuner → List ℤ → Tuning → Tuning
run_ticks c [] t = t
run_ticks c (free ∷ frees) t = run_ticks c frees ((tick c free t).1)

-- What a manager adds, on the cost model of its tuner (one of its own is not given, as in the
-- source's from_env): the products with `default_headroom` and with `runaway_slack`, and the two
-- overrides of the environment, the second as the product with its fraction.
pub record Manager : Type 0 where
  pub tuner : Tuner
  pub headroom_share : ℤ → ℤ
  pub slack : ℤ → ℤ
  pub cap_gb : Option ℤ
  pub cap_frac : Option (ℤ → ℤ)

unfoldable pub footprint : Tuner → ℕ → ℤ
footprint c units = c.base +ℤ pos (units * c.per_unit)

abbrev pub max_footprint : Tuner → ℤ
max_footprint c = footprint c c.max_units

unfoldable pub report_capacity : Manager → ℤ → ℕ
report_capacity m free = target_units m.tuner free

abbrev pub default_cap : Manager → ℤ → ℤ
default_cap m free = min_ℤ (m.headroom_share free) (m.slack (max_footprint m.tuner))

abbrev pub frac_cap : Option (ℤ → ℤ) → ℤ → ℤ → ℤ
frac_cap none total cap = cap
frac_cap (some share) total cap = share total

unfoldable pub cap_gib : Manager → ℤ → ℤ → ℤ
cap_gib m free total = elim m.cap_gb [
  | none ↦ frac_cap m.cap_frac total (default_cap m free)
  | some cap ↦ cap
]

-- the number `apply_cap` returns; none where the card cannot be read
unfoldable pub apply_cap : Manager → ℤ → ℤ → Option ℤ
apply_cap m free total = if leb_ℤ total (pos 0) then none else some (cap_gib m free total)

-- what a round of the manager does, in order: the cap, the report, and the resize, if any
pub record Round : Type 0 where
  pub cap : Option ℤ
  pub reported : ℕ
  pub resize : Option (ℕ × ℕ)

abbrev pub resized : ℕ → Option ℕ → Option (ℕ × ℕ)
resized old none = none
resized old (some new) = some (old, new)

-- one round of `VramManager.run`, from one detection
unfoldable pub manager_round : Manager → ℤ → ℤ → Tuning → Round × Tuning
manager_round m free total t =
    let (new, t') = tick m.tuner free t in
    (
      record {
        cap = apply_cap m free total;
        reported = report_capacity m free;
        resize = resized t.current_units new;
      },
      t',
    )
