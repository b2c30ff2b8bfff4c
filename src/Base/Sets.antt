-- ===== src/Base/Sets.antt =====
-- Sets of numbers, kept as ascending lists: membership, order, and what determines a set.
use Prim.Native.Nat.{ℕ, suc, ◌≤◌, ◌<◌}
use mathlib.Core.Path.{sym, ◌≡◌, refl, ap, ◌∙◌}
use mathlib.Core.Bool.{false, ◌||◌}
use mathlib.Core.List.{List, [], ◌∷◌}
use native.Mathlib.Omega.{arith}
use neurahash_miner.Base.Tests.{◌==◌}
use neurahash_miner.Base.Lists.{contains, insert_set, sorted_set, length}

-- every element is above a bound, and above those before it
abbrev pub Above : ℕ → List ℕ → Type 0
Above b [] = Unit
Above b (x ∷ xs) = (b < x) × Above x xs

abbrev pub IsAscending : List ℕ → Type 0
IsAscending [] = Unit
IsAscending (x ∷ xs) = Above x xs

pub contains-insert_set :
    (x a : ℕ) (xs : List ℕ) → contains x (insert_set a xs) ≡ (x == a || contains x xs)
unfolding contains insert_set
contains-insert_set x a [] = refl
contains-insert_set x a (b ∷ bs) = ground (arith, contains-insert_set x a bs)

pub contains-sorted_set : (x : ℕ) (xs : List ℕ) → contains x (sorted_set xs) ≡ contains x xs
unfolding sorted_set contains
contains-sorted_set x [] = refl
contains-sorted_set x (a ∷ as') =
    contains-insert_set x a (sorted_set as') ∙ ap (λ q. x == a || q) (contains-sorted_set x as')

pub insert_set-Above : (b a : ℕ) (xs : List ℕ) → b < a → Above b xs → Above b (insert_set a xs)
unfolding insert_set
insert_set-Above b a [] h k = (h, tt)
insert_set-Above b a (x ∷ xs) h (k, l) = ground (arith, insert_set-Above x a xs)

pub insert_set-IsAscending : (a : ℕ) (xs : List ℕ) → IsAscending xs → IsAscending (insert_set a xs)
unfolding insert_set
insert_set-IsAscending a [] h = tt
insert_set-IsAscending a (x ∷ xs) h = ground (arith, insert_set-Above x a xs)

pub sorted_set-IsAscending : (xs : List ℕ) → IsAscending (sorted_set xs)
unfolding sorted_set
sorted_set-IsAscending [] = tt
sorted_set-IsAscending (a ∷ as') =
    insert_set-IsAscending a (sorted_set as') (sorted_set-IsAscending as')

pub length-insert_set : (a : ℕ) (xs : List ℕ) → length (insert_set a xs) ≤ suc (length xs)
unfolding insert_set
length-insert_set a [] = omega arith
length-insert_set a (x ∷ xs) = ground (arith, length-insert_set a xs)

pub Above-weaken : (a b : ℕ) (xs : List ℕ) → a < b → Above b xs → Above a xs
Above-weaken a b [] h k = tt
Above-weaken a b (x ∷ xs) h (k, l) = (omega arith, l)

contains-Above : (a b : ℕ) (xs : List ℕ) → Above b xs → a ≤ b → contains a xs ≡ false
unfolding contains
contains-Above a b [] h l = refl
contains-Above a b (x ∷ xs) (h, k) l = ground (arith, contains-Above a x xs)

pub tail-IsAscending : (x : ℕ) (xs : List ℕ) → IsAscending (x ∷ xs) → IsAscending xs
tail-IsAscending x [] h = tt
tail-IsAscending x (y ∷ ys) (h, k) = k

heads_agree :
    (x y : ℕ) (xs ys : List ℕ)
    → Above x xs
    → Above y ys
    → ((z : ℕ) → contains z (x ∷ xs) ≡ contains z (y ∷ ys))
    → x ≡ y
unfolding contains
heads_agree x y xs ys h k e =
    ground (arith, e x, e y, contains-Above x y ys k, contains-Above y x xs h)

tails_agree :
    (x y : ℕ) (xs ys : List ℕ)
    → x ≡ y
    → Above x xs
    → Above y ys
    → ((z : ℕ) → contains z (x ∷ xs) ≡ contains z (y ∷ ys))
    → (z : ℕ) → contains z xs ≡ contains z ys
unfolding contains
tails_agree x y xs ys same h k e z =
    ground (arith, e z, contains-Above z x xs h, contains-Above z y ys k)

nil_ext : (x : ℕ) (xs : List ℕ) → contains x (x ∷ xs) ≡ contains x [] → (x ∷ xs) ≡ []
unfolding contains
nil_ext x xs e = ground arith

-- A set is determined by its members.
pub ascending_ext :
    (xs ys : List ℕ)
    → IsAscending xs
    → IsAscending ys
    → ((z : ℕ) → contains z xs ≡ contains z ys)
    → xs ≡ ys
ascending_ext [] [] h k e = refl
ascending_ext [] (y ∷ ys) h k e = sym (nil_ext y ys (sym (e y)))
ascending_ext (x ∷ xs) [] h k e = nil_ext x xs (e x)
ascending_ext (x ∷ xs) (y ∷ ys) h k e =
    let same = heads_agree x y xs ys h k e in
    cc (
      same,
      ascending_ext xs ys (tail-IsAscending x xs h) (tail-IsAscending y ys k)
          (tails_agree x y xs ys same h k e),
    )

-- Lists with the same members have the same set.
pub sorted_set_ext :
    (xs ys : List ℕ) → ((z : ℕ) → contains z xs ≡ contains z ys) → sorted_set xs ≡ sorted_set ys
sorted_set_ext xs ys e =
    ascending_ext (sorted_set xs) (sorted_set ys) (sorted_set-IsAscending xs)
      (sorted_set-IsAscending ys)
      (λ z. contains-sorted_set z xs ∙ e z ∙ sym (contains-sorted_set z ys))
