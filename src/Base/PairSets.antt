-- ===== src/Base/PairSets.antt =====
-- Sets of pairs of numbers, kept as ascending lists in the lexicographic order of Python's tuples.
use Prim.Native.Nat.{ℕ}
use mathlib.Core.Path.{◌≡◌, refl, ap, sym, ◌∙◌}
use mathlib.Core.Bool.{Bool, true, false, ◌||◌, ◌&&◌}
use mathlib.Core.List.{List, [], ◌∷◌}
use native.Mathlib.Omega.{arith}
use neurahash_miner.Base.Tests.{◌==◌, ltb, if◌then◌else◌}

abbrev pub eq_pair : ℕ × ℕ → ℕ × ℕ → Bool
eq_pair p q = p.0 == q.0 && p.1 == q.1

abbrev pub ltb_pair : ℕ × ℕ → ℕ × ℕ → Bool
ltb_pair p q = ltb p.0 q.0 || (p.0 == q.0 && ltb p.1 q.1)

unfoldable pub contains_pair : ℕ × ℕ → List (ℕ × ℕ) → Bool
contains_pair p [] = false
contains_pair p (q ∷ qs) = eq_pair p q || contains_pair p qs

unfoldable pub insert_pair : ℕ × ℕ → List (ℕ × ℕ) → List (ℕ × ℕ)
insert_pair p [] = p ∷ []
insert_pair p (q ∷ qs) =
    if ltb_pair p q then p ∷ q ∷ qs else if eq_pair p q then q ∷ qs else q ∷ insert_pair p qs

-- `sorted(set(ps))`
unfoldable pub sorted_pairs : List (ℕ × ℕ) → List (ℕ × ℕ)
unfolding insert_pair
sorted_pairs [] = []
sorted_pairs (p ∷ ps) = insert_pair p (sorted_pairs ps)

abbrev AbovePair : ℕ × ℕ → List (ℕ × ℕ) → Type 0
AbovePair b [] = Unit
AbovePair b (x ∷ xs) = (ltb_pair b x ≡ true) × AbovePair x xs

abbrev pub IsAscendingPairs : List (ℕ × ℕ) → Type 0
IsAscendingPairs [] = Unit
IsAscendingPairs (x ∷ xs) = AbovePair x xs

contains_pair-insert_pair :
    (x a : ℕ × ℕ) (xs : List (ℕ × ℕ))
    → contains_pair x (insert_pair a xs) ≡ (eq_pair x a || contains_pair x xs)
unfolding contains_pair insert_pair
contains_pair-insert_pair x a [] = ground arith
contains_pair-insert_pair x a (b ∷ bs) = ground (arith, contains_pair-insert_pair x a bs)

pub contains_pair-sorted_pairs :
    (x : ℕ × ℕ) (xs : List (ℕ × ℕ)) → contains_pair x (sorted_pairs xs) ≡ contains_pair x xs
unfolding sorted_pairs contains_pair
contains_pair-sorted_pairs x [] = ground arith
contains_pair-sorted_pairs x (a ∷ as') =
    contains_pair-insert_pair x a (sorted_pairs as')
    ∙ ap (λ q. eq_pair x a || q) (contains_pair-sorted_pairs x as')

insert_pair-AbovePair :
    (b a : ℕ × ℕ) (xs : List (ℕ × ℕ))
    → ltb_pair b a ≡ true
    → AbovePair b xs
    → AbovePair b (insert_pair a xs)
unfolding insert_pair
insert_pair-AbovePair b a [] h k = (h, tt)
insert_pair-AbovePair b a (x ∷ xs) h (k, l) = ground (arith, insert_pair-AbovePair x a xs)

insert_pair-IsAscendingPairs :
    (a : ℕ × ℕ) (xs : List (ℕ × ℕ)) → IsAscendingPairs xs → IsAscendingPairs (insert_pair a xs)
unfolding insert_pair
insert_pair-IsAscendingPairs a [] h = tt
insert_pair-IsAscendingPairs a (x ∷ xs) h = ground (arith, insert_pair-AbovePair x a xs)

sorted_pairs-IsAscendingPairs : (xs : List (ℕ × ℕ)) → IsAscendingPairs (sorted_pairs xs)
unfolding sorted_pairs
sorted_pairs-IsAscendingPairs [] = tt
sorted_pairs-IsAscendingPairs (a ∷ as') =
    insert_pair-IsAscendingPairs a (sorted_pairs as') (sorted_pairs-IsAscendingPairs as')

contains_pair-AbovePair :
    (a b : ℕ × ℕ) (xs : List (ℕ × ℕ))
    → AbovePair b xs
    → ltb_pair b a ≡ false
    → contains_pair a xs ≡ false
unfolding contains_pair
contains_pair-AbovePair a b [] h l = ground arith
contains_pair-AbovePair a b (x ∷ xs) (h, k) l = ground (arith, contains_pair-AbovePair a x xs)

pub tail-IsAscendingPairs :
    (x : ℕ × ℕ) (xs : List (ℕ × ℕ)) → IsAscendingPairs (x ∷ xs) → IsAscendingPairs xs
tail-IsAscendingPairs x [] h = tt
tail-IsAscendingPairs x (y ∷ ys) (h, k) = k

heads_agree_pair :
    (x y : ℕ × ℕ) (xs ys : List (ℕ × ℕ))
    → AbovePair x xs
    → AbovePair y ys
    → ((z : ℕ × ℕ) → contains_pair z (x ∷ xs) ≡ contains_pair z (y ∷ ys))
    → eq_pair x y ≡ true
unfolding contains_pair
heads_agree_pair x y xs ys h k e =
    ground (arith, e x, e y, contains_pair-AbovePair x y ys k, contains_pair-AbovePair y x xs h)

eq_of_eq_pair : (x y : ℕ × ℕ) → eq_pair x y ≡ true → x ≡ y
eq_of_eq_pair (a, b) (c, d) e = ground (arith, e)

tails_agree_pair :
    (x y : ℕ × ℕ) (xs ys : List (ℕ × ℕ))
    → eq_pair x y ≡ true
    → AbovePair x xs
    → AbovePair y ys
    → ((z : ℕ × ℕ) → contains_pair z (x ∷ xs) ≡ contains_pair z (y ∷ ys))
    → (z : ℕ × ℕ) → contains_pair z xs ≡ contains_pair z ys
unfolding contains_pair
tails_agree_pair x y xs ys same h k e z =
    ground (arith, e z, same, contains_pair-AbovePair z x xs h, contains_pair-AbovePair z y ys k)

nil_ext_pair :
    (x : ℕ × ℕ) (xs : List (ℕ × ℕ)) → contains_pair x (x ∷ xs) ≡ contains_pair x [] → (x ∷ xs) ≡ []
unfolding contains_pair
nil_ext_pair x xs e = ground arith

pub ascending_pairs_ext :
    (xs ys : List (ℕ × ℕ))
    → IsAscendingPairs xs
    → IsAscendingPairs ys
    → ((z : ℕ × ℕ) → contains_pair z xs ≡ contains_pair z ys)
    → xs ≡ ys
ascending_pairs_ext [] [] h k e = refl
ascending_pairs_ext [] (y ∷ ys) h k e = sym (nil_ext_pair y ys (sym (e y)))
ascending_pairs_ext (x ∷ xs) [] h k e = nil_ext_pair x xs (e x)
ascending_pairs_ext (x ∷ xs) (y ∷ ys) h k e =
    let same = heads_agree_pair x y xs ys h k e in
    cc (
      eq_of_eq_pair x y same,
      ascending_pairs_ext xs ys (tail-IsAscendingPairs x xs h) (tail-IsAscendingPairs y ys k)
          (tails_agree_pair x y xs ys same h k e),
    )

-- Lists with the same members have the same set.
pub sorted_pairs_ext :
    (xs ys : List (ℕ × ℕ))
    → ((z : ℕ × ℕ) → contains_pair z xs ≡ contains_pair z ys)
    → sorted_pairs xs ≡ sorted_pairs ys
sorted_pairs_ext xs ys e =
    ascending_pairs_ext (sorted_pairs xs) (sorted_pairs ys) (sorted_pairs-IsAscendingPairs xs)
      (sorted_pairs-IsAscendingPairs ys)
      (λ z. contains_pair-sorted_pairs z xs ∙ e z ∙ sym (contains_pair-sorted_pairs z ys))
