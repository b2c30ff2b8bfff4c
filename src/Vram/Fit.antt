-- ===== src/Vram/Fit.antt =====
-- neurahash/vram_autotune.py: what is held fits in what is free, and is a level of the tuner.
use neurahash_miner.Base.{
  true, refl, if◌then◌else◌, leb_of_ltb, Bool, negsuc, ◌≤ℤ◌, false, pos, ◌+ℤ◌, int_laws, ◌⊎◌, inr,
  floor_div, arith, inl, ◌*◌, ◌≡◌, ltb_ℤ, ℕ, ◌≤◌, ℤ,
}
use neurahash_miner.Vram.Defs.{budget, clamped, footprint, tick, target_units, Tuner, Tuning}

-- nothing is held, or what is held leaves the owner the headroom out of the safe part
abbrev pub Fits : Tuner → ℤ → ℕ → Type 0
Fits c free n = (n ≡ 0) ⊎ ((footprint c n +ℤ c.user_headroom) ≤ℤ c.safe free)

-- paused, or between the limits
abbrev pub IsLevel : Tuner → ℕ → Type 0
IsLevel c n = (n ≡ 0) ⊎ ((c.min_units ≤ n) × (n ≤ c.max_units))

within_budget :
    (c : Tuner) (free : ℤ) (n : ℕ)
    → ltb_ℤ (budget c free) (pos (n * c.per_unit)) ≡ false
    → (footprint c n +ℤ c.user_headroom) ≤ℤ c.safe free
unfolding footprint
within_budget c free n e = omega (int_laws, leb_of_ltb (budget c free) (pos (n * c.per_unit)) e)

paused_unless :
    (P : ℕ → Type 0) (b : Bool) (n : ℕ) → P 0 → (b ≡ false → P n) → P (if b then 0 else n)
paused_unless P true n p q = p
paused_unless P false n p q = q refl

pub target_units-Fits : (c : Tuner) (free : ℤ) → Fits c free (target_units c free)
unfolding target_units
target_units-Fits c free =
    let n = clamped c (floor_div (budget c free) c.per_unit) in
    paused_unless (Fits c free) (ltb_ℤ (budget c free) (pos (n * c.per_unit))) n (inl refl)
      (λ e. inr (within_budget c free n e))

pub product_le : (n m k : ℕ) → n ≤ m → n * k ≤ m * k
product_le n m k l = grind arith

Fits-le : (c : Tuner) (free : ℤ) (n m : ℕ) → n ≤ m → Fits c free m → Fits c free n
unfolding footprint
Fits-le c free n m l (inl e) = inl (omega (arith, l, e))
Fits-le c free n m l (inr f) = inr (omega (int_laws, product_le n m c.per_unit l, f))

pub tick_le :
    (c : Tuner) (free : ℤ) (t : Tuning) → (tick c free t).1.current_units ≤ target_units c free
unfolding tick
tick_le c free t = ground arith

clamped_within :
    (c : Tuner) (fit : ℤ)
    → c.min_units ≤ c.max_units
    → (c.min_units ≤ clamped c fit) × (clamped c fit ≤ c.max_units)
clamped_within c (pos fit) l = (ground (arith, l), ground (arith, l))
clamped_within c (negsuc fit) l = (omega arith, omega (arith, l))

pub target_units-IsLevel :
    (c : Tuner) (free : ℤ) → c.min_units ≤ c.max_units → IsLevel c (target_units c free)
unfolding target_units
target_units-IsLevel c free l =
    let fit = floor_div (budget c free) c.per_unit in
    paused_unless (IsLevel c) (ltb_ℤ (budget c free) (pos (clamped c fit * c.per_unit)))
      (clamped c fit) (inl refl) (λ e. inr (clamped_within c fit l))

-- After every tick what is held fits in the memory that is free at the tick: nothing is held, or
-- the footprint and the owner's headroom are within the safe part of what is free.
pub tick-Fits : (c : Tuner) (free : ℤ) (t : Tuning) → Fits c free (tick c free t).1.current_units
tick-Fits c free t =
    Fits-le c free (tick c free t).1.current_units (target_units c free) (tick_le c free t)
      (target_units-Fits c free)
