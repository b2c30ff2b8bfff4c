-- ===== src/Vram/Cap.antt =====
-- neurahash/vram_manager.py: the cap covers what is reported, and the report what is held.
use neurahash_miner.Base.{
  inr, inl, ◌⊎◌, some, true, pos, ltb_ℤ, none, arith, int_laws, ◌≤◌, min_ℤ, ◌≡◌, ℕ, ◌≤ℤ◌, ℤ,
}
use neurahash_miner.Vram.Defs.{
  target_units, default_cap, max_footprint, cap_gib, report_capacity, apply_cap, footprint,
  manager_round, Manager, Tuning,
}
use neurahash_miner.Vram.Fit.{target_units-IsLevel, target_units-Fits, tick_le, product_le}

capped :
    (m : Manager) (free total : ℤ)
    → m.cap_gb ≡ none
    → m.cap_frac ≡ none
    → ltb_ℤ (pos 0) total ≡ true
    → apply_cap m free total ≡ some (default_cap m free)
unfolding apply_cap cap_gib
capped m free total g f l = ground (arith, g, f, l)

least : (a b x : ℤ) → (x ≤ℤ a) → (x ≤ℤ b) → x ≤ℤ min_ℤ a b
least a b x l k = ground (arith, l, k)

footprint_mono : (m : Manager) (n k : ℕ) → n ≤ k → footprint m.tuner n ≤ℤ footprint m.tuner k
unfolding footprint
footprint_mono m n k l = omega (int_laws, product_le n k m.tuner.per_unit l)

below_max :
    (m : Manager) (free : ℤ)
    → m.tuner.min_units ≤ m.tuner.max_units
    → target_units m.tuner free ≤ m.tuner.max_units
below_max m free k = elim (target_units-IsLevel m.tuner free k) [
  | inl e ↦ omega (arith, e)
  | inr (low, high) ↦ high
]

-- In a round of the manager, where the environment sets no cap and the fractions are sound, the cap
-- is at least the footprint of the capacity that is reported, unless that is nothing, and what the
-- tuner holds after the round is at most what is reported.
pub manager_round_agrees :
    (m : Manager) (free total : ℤ) (t : Tuning)
    → m.cap_gb ≡ none
    → m.cap_frac ≡ none
    → ltb_ℤ (pos 0) total ≡ true
    → m.tuner.min_units ≤ m.tuner.max_units
    → pos 0 ≤ℤ m.tuner.user_headroom
    → m.tuner.safe free ≤ℤ m.headroom_share free
    → max_footprint m.tuner ≤ℤ m.slack (max_footprint m.tuner)
    → let r = manager_round m free total t in
      ((r.0.reported ≡ 0)
        ⊎ ((cap : ℤ) × (r.0.cap ≡ some cap) × (footprint m.tuner r.0.reported ≤ℤ cap)))
      × (r.1.current_units ≤ r.0.reported)
unfolding manager_round report_capacity
manager_round_agrees m free total t g f l k h s b =
    let n = target_units m.tuner free in
    (
      elim (target_units-Fits m.tuner free) [
        | inl e ↦ inl e
        | inr fits ↦ inr (
          default_cap m free,
          capped m free total g f l,
          least (m.headroom_share free) (m.slack (max_footprint m.tuner)) (footprint m.tuner n)
              (omega (int_laws, fits, h, s))
              (omega (int_laws, footprint_mono m n m.tuner.max_units (below_max m free k), b)),
        )
      ],
      tick_le m.tuner free t,
    )
