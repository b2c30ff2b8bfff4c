-- ===== src/Base/Dicts.antt =====
-- A Python dict, in insertion order, with numbers for its keys: an assignment to a known key
-- keeps the key's place, and a new key goes last.
use Prim.Native.Nat.{ℕ}
use mathlib.Core.Path.{◌≡◌, refl}
use mathlib.Core.Logic.{◌≢◌}
use mathlib.Core.Bool.{false, Bool}
use mathlib.Core.Option.{Option, none, some}
use mathlib.Core.List.{List, [], ◌∷◌}
use native.Mathlib.Omega.{arith}
use neurahash_miner.Base.Tests.{◌==◌, if◌then◌else◌, present}
use neurahash_miner.Base.Lists.{contains}
use neurahash_miner.Base.Int.{ℤ, pos, ◌+ℤ◌, int_laws, ◌≤ℤ◌}

abbrev pub Dict {ℓ} : Type ℓ → Type ℓ
Dict V = List (ℕ × V)

module _ {ℓ} {V : Type ℓ} where
  -- `d.get(k)`
  unfoldable pub lookup : ℕ → Dict V → Option V
  lookup k [] = none
  lookup k ((j, v) ∷ d) = if k == j then some v else lookup k d

  -- `d[k] = v`
  unfoldable pub insert : ℕ → V → Dict V → Dict V
  insert k v [] = (k, v) ∷ []
  insert k v (e ∷ d) = if k == e.0 then (k, v) ∷ d else e ∷ insert k v d

  -- `d.pop(k, None)`
  unfoldable pub erase : ℕ → Dict V → Dict V
  erase k [] = []
  erase k (e ∷ d) = if k == e.0 then d else e ∷ erase k d

  -- `list(d.keys())`
  unfoldable pub keys_of : Dict V → List ℕ
  keys_of [] = []
  keys_of (e ∷ d) = e.0 ∷ keys_of d

  -- `k in d`
  abbrev pub has_key : ℕ → Dict V → Bool
  has_key k d = present (lookup k d)

  pub lookup-insert :
      (j k : ℕ) (v : V) (d : Dict V)
      → lookup j (insert k v d) ≡ (if j == k then some v else lookup j d)
  unfolding lookup insert
  lookup-insert j k v [] = refl
  lookup-insert j k v (e ∷ d) = ground (arith, lookup-insert j k v d)

  pub lookup-erase_ne : (j k : ℕ) (d : Dict V) → j ≢ k → lookup j (erase k d) ≡ lookup j d
  unfolding lookup erase
  lookup-erase_ne j k [] h = refl
  lookup-erase_ne j k (e ∷ d) h = ground (arith, lookup-erase_ne j k d h)

-- `d.get(k, default)`
abbrev pub get_or_default {ℓ} : {V : Type ℓ} → ℕ → V → Dict V → V
get_or_default k v d = elim (lookup k d) [ none ↦ v | some w ↦ w ]

pub get_or_default-some {ℓ} :
    {V : Type ℓ} (k : ℕ) (v w : V) (d : Dict V) → lookup k d ≡ some w → get_or_default k v d ≡ w
get_or_default-some k v w d e = ground arith

pub get_or_default-none {ℓ} :
    {V : Type ℓ} (k : ℕ) (v : V) (d : Dict V) → lookup k d ≡ none → get_or_default k v d ≡ v
get_or_default-none k v d e = ground arith

-- `d.get(k, 0.0)`
abbrev pub get : ℕ → Dict ℤ → ℤ
get k d = get_or_default k (pos 0) d

pub get-insert :
    (a b : ℕ) (v : ℤ) (d : Dict ℤ) → get a (insert b v d) ≡ (if a == b then v else get a d)
get-insert a b v d = ground (arith, lookup-insert a b v d)

pub get-insert_self : (a : ℕ) (v : ℤ) (d : Dict ℤ) → get a (insert a v d) ≡ v
get-insert_self a v d = ground (arith, lookup-insert a a v d)

-- `sum(d.values())`
unfoldable pub total : Dict ℤ → ℤ
total [] = pos 0
total ((_, v) ∷ d) = v +ℤ total d

pub total-insert : (k : ℕ) (v : ℤ) (d : Dict ℤ) → total (insert k v d) +ℤ get k d ≡ total d +ℤ v
unfolding total insert lookup
total-insert k v [] = omega int_laws
total-insert k v (e ∷ d) = grind (int_laws, total-insert k v d)

-- every value of a dictionary of amounts is at least zero
abbrev pub AllNonneg : Dict ℤ → Type 0
AllNonneg [] = Unit
AllNonneg ((_, v) ∷ d) = (pos 0 ≤ℤ v) × AllNonneg d

pub get-nonneg : (k : ℕ) (d : Dict ℤ) → AllNonneg d → pos 0 ≤ℤ get k d
unfolding lookup
get-nonneg k [] h = omega arith
get-nonneg k (e ∷ d) h = ground (arith, get-nonneg k d h.1)

pub insert-AllNonneg :
    (k : ℕ) (v : ℤ) (d : Dict ℤ) → AllNonneg d → pos 0 ≤ℤ v → AllNonneg (insert k v d)
unfolding insert
insert-AllNonneg k v [] h p = (p, tt)
insert-AllNonneg k v (e ∷ d) h p = ground (arith, insert-AllNonneg k v d h.1 p)

pub total-nonneg : (d : Dict ℤ) → AllNonneg d → pos 0 ≤ℤ total d
unfolding total
total-nonneg [] h = omega arith
total-nonneg (e ∷ d) h = omega (int_laws, total-nonneg d h.1)

-- every key once
abbrev pub DistinctKeys {ℓ} : {V : Type ℓ} → Dict V → Type 0
DistinctKeys [] = Unit
DistinctKeys (e ∷ d) = (has_key e.0 d ≡ false) × DistinctKeys d

module _ {ℓ} {V : Type ℓ} where
  pub insert-DistinctKeys :
      (k : ℕ) (v : V) (d : Dict V) → DistinctKeys d → DistinctKeys (insert k v d)
  unfolding insert lookup
  insert-DistinctKeys k v [] h = (refl, tt)
  insert-DistinctKeys k v (e ∷ d) h =
      ground (arith, insert-DistinctKeys k v d, lookup-insert e.0 k v d)

  pub lookup-erase_self : (k : ℕ) (d : Dict V) → DistinctKeys d → lookup k (erase k d) ≡ none
  unfolding erase lookup
  lookup-erase_self k [] h = refl
  lookup-erase_self k (e ∷ d) h = ground (arith, lookup-erase_self k d)

  pub erase-DistinctKeys : (k : ℕ) (d : Dict V) → DistinctKeys d → DistinctKeys (erase k d)
  unfolding erase lookup
  erase-DistinctKeys k [] h = tt
  erase-DistinctKeys k (e ∷ d) h = ground (arith, erase-DistinctKeys k d, lookup-erase_ne e.0 k d)

  pub contains-keys_of : (k : ℕ) (d : Dict V) → contains k (keys_of d) ≡ has_key k d
  unfolding keys_of lookup contains
  contains-keys_of k [] = refl
  contains-keys_of k (e ∷ d) = ground (arith, contains-keys_of k d)
