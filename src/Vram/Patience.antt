-- ===== src/Vram/Patience.antt =====
-- neurahash/vram_autotune.py: the tuner grows only into what has lasted.
use mathlib.Core.Path.{subst}
use neurahash_miner.Base.{
  ◌<◌, ltb, inl, inr, Bool-cases, refl, [], none, zero, ◌&&◌, leb, ◌∷◌, false, arith, suc, some,
  ◌==◌, true, ◌≡◌, ◌≤◌, Bool, ℕ, ℤ, List, Option,
}
use neurahash_miner.Vram.Defs.{
  new_tuning, run_ticks, grow, tick, target_units, lower_floor, Tuner, Tuning,
}

-- the latest `n` readings, latest first, all had room for `level` units
abbrev pub sustained : Tuner → ℕ → ℕ → List ℤ → Bool
sustained c level zero readings = true
sustained c level (suc n) [] = false
sustained c level (suc n) (free ∷ readings) =
    leb level (target_units c free) && sustained c level n readings

-- what the floor of a streak says of the readings
abbrev pub held_floor : Tuner → Option ℕ → ℕ → List ℤ → Bool
held_floor c none n readings = n == 0
held_floor c (some level) n readings = sustained c level n readings

abbrev pub IsHeld : Tuner → Tuning → List ℤ → Type 0
IsHeld c t readings = held_floor c t.grow_floor t.grow_streak readings ≡ true

sustained_le :
    (c : Tuner) (level level' n : ℕ) (readings : List ℤ)
    → level' ≤ level
    → sustained c level n readings ≡ true
    → sustained c level' n readings ≡ true
sustained_le c level level' zero readings l e = refl
sustained_le c level level' (suc n) [] l e = absurd (ground (arith, e))
sustained_le c level level' (suc n) (free ∷ readings) l e =
    ground (arith, e, l, sustained_le c level level' n readings l (ground (arith, e)))

-- one more reading, over the floor of the streak
lower_floor_held :
    (c : Tuner) (o : Option ℕ) (n : ℕ) (free : ℤ) (readings : List ℤ)
    → held_floor c o n readings ≡ true
    → sustained c (lower_floor o (target_units c free)) (suc n) (free ∷ readings) ≡ true
lower_floor_held c none zero free readings e = ground arith
lower_floor_held c none (suc n) free readings e = absurd (ground (arith, e))
lower_floor_held c (some f) n free readings e = elim (Bool-cases (leb f (target_units c free))) [
  | inl l ↦ ground (arith, l, e)
  | inr l ↦
      ground (arith, l, sustained_le c f (target_units c free) n readings (ground (arith, l)) e)
]

sustained_fewer :
    (c : Tuner) (level m n : ℕ) (readings : List ℤ)
    → m ≤ n
    → sustained c level n readings ≡ true
    → sustained c level m readings ≡ true
sustained_fewer c level zero n readings l e = refl
sustained_fewer c level (suc m) zero readings l e = absurd (omega (arith, l))
sustained_fewer c level (suc m) (suc n) [] l e = absurd (ground (arith, e))
sustained_fewer c level (suc m) (suc n) (free ∷ readings) l e =
    ground (arith, e, sustained_fewer c level m n readings (omega (arith, l)) (ground (arith, e)))

grow-IsHeld :
    (c : Tuner) (free : ℤ) (t : Tuning) (readings : List ℤ)
    → IsHeld c t readings
    → IsHeld c (grow c (target_units c free) t).1 (free ∷ readings)
grow-IsHeld c free t readings h = elim (Bool-cases (leb c.grow_patience (suc t.grow_streak))) [
  | inl e ↦ ground (arith, e)
  | inr e ↦ ground (arith, e, lower_floor_held c t.grow_floor t.grow_streak free readings h)
]

tick-IsHeld :
    (c : Tuner) (free : ℤ) (t : Tuning) (readings : List ℤ)
    → IsHeld c t readings
    → IsHeld c (tick c free t).1 (free ∷ readings)
unfolding tick
tick-IsHeld c free t readings h = elim (Bool-cases t.primed) [
  | inr p ↦ elim (Bool-cases (target_units c free == t.current_units)) [
    | inl g ↦ ground (arith, p, g)
    | inr g ↦ ground (arith, p, g)
  ]
  | inl p ↦ elim (Bool-cases (ltb (target_units c free) t.current_units)) [
    | inl l ↦ ground (arith, p, l)
    | inr l ↦ elim (Bool-cases (ltb t.current_units (target_units c free))) [
      | inl g ↦ ground (arith, p, l, g, grow-IsHeld c free t readings h)
      | inr g ↦ ground (arith, p, l, g)
    ]
  ]
]

primed_after : (c : Tuner) (free : ℤ) (t : Tuning) → (tick c free t).1.primed ≡ true
unfolding tick
primed_after c free t = ground arith

primed_run :
    (c : Tuner) (frees : List ℤ) (t : Tuning)
    → t.primed ≡ true
    → (run_ticks c frees t).primed ≡ true
unfolding run_ticks
primed_run c [] t e = e
primed_run c (free ∷ frees) t e = primed_run c frees ((tick c free t).1) (primed_after c free t)

-- the readings, latest first, before older ones
abbrev pub latest_first : List ℤ → List ℤ → List ℤ
latest_first [] older = older
latest_first (free ∷ frees) older = latest_first frees (free ∷ older)

run-IsHeld :
    (c : Tuner) (frees : List ℤ) (t : Tuning) (older : List ℤ)
    → IsHeld c t older
    → IsHeld c (run_ticks c frees t) (latest_first frees older)
unfolding run_ticks
run-IsHeld c [] t older h = h
run-IsHeld c (free ∷ frees) t older h =
    run-IsHeld c frees ((tick c free t).1) (free ∷ older) (tick-IsHeld c free t older h)

-- a tick that grows, on a tuner whose streak is held
growth_sustained :
    (c : Tuner) (free : ℤ) (t : Tuning) (readings : List ℤ) (new : ℕ)
    → IsHeld c t readings
    → t.primed ≡ true
    → (tick c free t).0 ≡ some new
    → t.current_units < new
    → sustained c new c.grow_patience (free ∷ readings) ≡ true
unfolding tick
growth_sustained c free t readings new h p e l =
    elim (Bool-cases (ltb (target_units c free) t.current_units)) [
      | inl s ↦ absurd (ground (arith, p, s, e, l))
      | inr s ↦ elim (Bool-cases (ltb t.current_units (target_units c free))) [
        | inr g ↦ absurd (ground (arith, p, s, g, e))
        | inl g ↦ elim (Bool-cases (leb c.grow_patience (suc t.grow_streak))) [
          | inr k ↦ absurd (ground (arith, p, s, g, k, e))
          | inl k ↦
              let level = lower_floor t.grow_floor (target_units c free) in
              let same : level ≡ new = ground (arith, p, s, g, k, e) in
              subst (λ n. sustained c n c.grow_patience (free ∷ readings) ≡ true) same
                (sustained_fewer c level c.grow_patience (suc t.grow_streak) (free ∷ readings)
                  (ground (arith, k))
                  (lower_floor_held c t.grow_floor t.grow_streak free readings h))
        ]
      ]
    ]

fresh-IsHeld : (c : Tuner) (start : Tuning) → new_tuning c ≡ some start → IsHeld c start []
unfolding new_tuning
fresh-IsHeld c start b = elim (Bool-cases (c.per_unit == 0)) [
  | inl e ↦ absurd (ground (arith, b, e))
  | inr e ↦ elim (Bool-cases (ltb c.max_units c.min_units)) [
    | inl f ↦ absurd (ground (arith, b, e, f))
    | inr f ↦ ground (arith, b, e, f)
  ]
]

-- A tuner that has ticked before takes more memory only when each of the latest readings, as many
-- as its patience, had room for all that it then takes: a spike is never enough.
pub growth_is_patient :
    (c : Tuner) (start : Tuning) (first free : ℤ) (frees : List ℤ) (new : ℕ)
    → new_tuning c ≡ some start
    → (tick c free (run_ticks c (first ∷ frees) start)).0 ≡ some new
    → (run_ticks c (first ∷ frees) start).current_units < new
    → sustained c new c.grow_patience (free ∷ latest_first (first ∷ frees) []) ≡ true
unfolding run_ticks
growth_is_patient c start first free frees new b e l =
    growth_sustained c free (run_ticks c (first ∷ frees) start) (latest_first (first ∷ frees) [])
      new (run-IsHeld c (first ∷ frees) start [] (fresh-IsHeld c start b))
      (primed_run c frees ((tick c first start).1) (primed_after c first start)) e l
