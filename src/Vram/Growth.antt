-- ===== src/Vram/Growth.antt =====
-- neurahash/vram_autotune.py: the tuner takes more memory where it stays free long enough.
use mathlib.Core.Path.{subst}
use neurahash_miner.Base.{
  if◌then◌else◌, false, leb, not, [], ◌&&◌, ltb, refl, inr, ◌∷◌, length, none, inl, ◌⊎◌, ◌+◌, some,
  arith, Bool, ◌≤◌, true, suc, ◌<◌, ℤ, ◌≡◌, List, Option, ℕ,
}
use neurahash_miner.Vram.Defs.{
  prime, Tuner, Tuning, target_units, tick, run_ticks, grow, reset_grow, lower_floor,
}

-- every reading has room for more than a level
abbrev pub all_above : Tuner → ℕ → List ℤ → Bool
all_above c n [] = true
all_above c n (free ∷ frees) = ltb n (target_units c free) && all_above c n frees

abbrev IsFloorAbove : ℕ → Option ℕ → Type 0
IsFloorAbove n none = 0 ≤ n
IsFloorAbove n (some f) = n < f

-- a tuner that had the level: it has grown, or has waited for some ticks, fewer than its patience
record Waits (c : Tuner) (n k : ℕ) (t : Tuning) : Type 0 where
  is_primed : t.primed ≡ true
  above : IsFloorAbove n t.grow_floor
  has_grown :
      (n < t.current_units)
      ⊎ ((t.current_units ≡ n) × (k ≤ t.grow_streak) × (t.grow_streak < c.grow_patience))

lower_floor_above :
    (n target : ℕ) (o : Option ℕ) → IsFloorAbove n o → n < target → n < lower_floor o target
lower_floor_above n target none a l = l
lower_floor_above n target (some f) a l = ground (arith, a, l)

reset-Waits : (c : Tuner) (n k level : ℕ) → n < level → Waits c n k (reset_grow level)
reset-Waits c n k level l = record { is_primed = refl; above = omega arith; has_grown = inl l }

-- what a test leads to, in either case
by_test :
    (c : Tuner) (n k : ℕ) (b : Bool) (x y : Option ℕ × Tuning)
    → (b ≡ true → Waits c n k x.1)
    → (b ≡ false → Waits c n k y.1)
    → Waits c n k (if b then x else y).1
by_test c n k true x y p q = p refl
by_test c n k false x y p q = q refl

grow-Waits :
    (c : Tuner) (n k target : ℕ) (t : Tuning)
    → Waits c n k t
    → n < target
    → Waits c n (suc k) (grow c target t).1
grow-Waits c n k target t w l =
    let level = lower_floor t.grow_floor target in
    let higher : n < level = lower_floor_above n target t.grow_floor w.above l in
    by_test c n (suc k) (leb c.grow_patience (suc t.grow_streak)) (some level, reset_grow level)
      (none, record t { grow_streak = suc t.grow_streak; grow_floor = some level })
      (λ e. reset-Waits c n (suc k) level higher)
      (λ e. record {
        is_primed = w.is_primed;
        above = higher;
        has_grown = elim w.has_grown [
          | inl g ↦ inl g
          | inr g ↦ inr (g.0, omega (arith, g.1), ground (arith, e))
        ];
      })

tick-Waits :
    (c : Tuner) (n k : ℕ) (free : ℤ) (t : Tuning)
    → Waits c n k t
    → n < target_units c free
    → Waits c n (suc k) (tick c free t).1
unfolding tick
tick-Waits c n k free t w l =
    let target = target_units c free in
    let held = t.current_units in
    by_test c n (suc k) (not t.primed) (prime target t)
      (if ltb target held
        then (some target, reset_grow target)
        else if ltb held target
        then grow c target t
        else (none, reset_grow held))
      (λ e. absurd (ground (arith, e, w.is_primed)))
      (λ e.
        by_test c n (suc k) (ltb target held) (some target, reset_grow target)
          (if ltb held target then grow c target t else (none, reset_grow held))
          (λ f. reset-Waits c n (suc k) target l)
          (λ f.
            by_test c n (suc k) (ltb held target) (grow c target t) (none, reset_grow held)
              (λ g. grow-Waits c n k target t w l)
              (λ g. reset-Waits c n (suc k) held (ground (arith, f, g, l)))))

run-Waits :
    (c : Tuner) (n k : ℕ) (frees : List ℤ) (t : Tuning)
    → Waits c n k t
    → all_above c n frees ≡ true
    → Waits c n (k + length frees) (run_ticks c frees t)
unfolding run_ticks
run-Waits c n k [] t w a = subst (λ j. Waits c n j t) (omega arith) w
run-Waits c n k (free ∷ frees) t w a =
    subst (λ j. Waits c n j (run_ticks c frees (tick c free t).1)) (omega arith)
      (run-Waits c n (suc k) frees ((tick c free t).1)
        (tick-Waits c n k free t w (ground (arith, a))) (ground (arith, a)))

-- A tuner that has just come to a level, and whose next readings all have room for more, holds more
-- after them, where they are at least as many as its patience, which is not zero.
pub growth_is_due :
    (c : Tuner) (n : ℕ) (frees : List ℤ)
    → 0 < c.grow_patience
    → all_above c n frees ≡ true
    → c.grow_patience ≤ length frees
    → n < (run_ticks c frees (reset_grow n)).current_units
growth_is_due c n frees p a l =
    let w =
      run-Waits c n 0 frees (reset_grow n)
        record { is_primed = refl; above = omega arith; has_grown = inr (refl, omega arith, p) }
        a in
    elim w.has_grown [ inl g ↦ g | inr g ↦ absurd (omega (arith, l, g.1, g.2)) ]
