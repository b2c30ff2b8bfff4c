-- ===== src/Updates/Version.antt =====
-- tools/self_update.py: versions, their order, and that the order is strict and total. A text is a
-- list of character codes, below 128.
use neurahash_miner.Base.{
  ℕ, ◌+◌, ◌-◌, ◌*◌, Bool, true, false, ◌&&◌, ◌||◌, ◌==◌, leb, ltb, if◌then◌else◌, Option, none,
  some, List, [], ◌∷◌, length, ◌≡◌, refl, arith, Bool-cases, inl, inr,
}

abbrev pub Text : Type 0
Text = List ℕ

abbrev pub is_space : ℕ → Bool
is_space c = (c == 32) || ((leb 9 c && leb c 13) || (leb 28 c && leb c 31))

abbrev pub lstrip : Text → Text
lstrip [] = []
lstrip (c ∷ s) = let rest = lstrip s in if is_space c then rest else c ∷ s

abbrev pub rstrip : Text → Text
rstrip [] = []
rstrip (c ∷ s) = keep c (rstrip s)
  where
    keep : ℕ → Text → Text
    keep c [] = if is_space c then [] else c ∷ []
    keep c (d ∷ s) = c ∷ d ∷ s

-- `s.strip()`
unfoldable pub strip : Text → Text
strip s = rstrip (lstrip s)

abbrev pub cons_first : ℕ → List Text → List Text
cons_first c [] = (c ∷ []) ∷ []
cons_first c (part ∷ parts) = (c ∷ part) ∷ parts

-- `s.split(".")`
unfoldable pub split_dots : Text → List Text
split_dots [] = [] ∷ []
split_dots (c ∷ s) = let rest = split_dots s in if c == 46 then [] ∷ rest else cons_first c rest

abbrev pub all_digits : Text → Bool
all_digits [] = true
all_digits (c ∷ s) = (leb 48 c && leb c 57) && all_digits s

-- `p.isdigit()`, which is false of the empty text
abbrev pub is_number : Text → Bool
is_number [] = false
is_number (c ∷ s) = all_digits (c ∷ s)

abbrev pub all_numbers : List Text → Bool
all_numbers [] = true
all_numbers (part ∷ parts) = is_number part && all_numbers parts

-- `int(p)`, onto the number read so far
abbrev pub value_of : ℕ → Text → ℕ
value_of n [] = n
value_of n (c ∷ s) = value_of (n * 10 + (c - 48)) s

abbrev pub values_of : List Text → List ℕ
values_of [] = []
values_of (part ∷ parts) = value_of 0 part ∷ values_of parts

-- none is the ValueError
unfoldable pub parse_version : Text → Option (List ℕ)
parse_version s =
    let parts = split_dots (strip s) in
    if (leb 1 (length parts) && leb (length parts) 4) && all_numbers parts
    then some (values_of parts)
    else none

-- `a < b` of tuples
unfoldable pub version_lt : List ℕ → List ℕ → Bool
version_lt a [] = false
version_lt [] (y ∷ b) = true
version_lt (x ∷ a) (y ∷ b) = let rest = version_lt a b in ltb x y || ((x == y) && rest)

-- `is_forward` of texts, from their versions; none where one does not parse
abbrev pub forward_of : Option (List ℕ) → Option (List ℕ) → Option Bool
forward_of none cur = none
forward_of (some new) none = none
forward_of (some new) (some cur) = some (version_lt cur new)

unfoldable pub is_forward : Text → Text → Option Bool
is_forward new_v cur_v = forward_of (parse_version new_v) (parse_version cur_v)

pub version_lt_irrefl : (a : List ℕ) → version_lt a a ≡ false
unfolding version_lt
version_lt_irrefl [] = refl
version_lt_irrefl (x ∷ a) = ground (arith, version_lt_irrefl a)

pub version_lt_trans :
    (a b c : List ℕ) → version_lt a b ≡ true → version_lt b c ≡ true → version_lt a c ≡ true
unfolding version_lt
version_lt_trans a b [] e f = absurd (ground (arith, f))
version_lt_trans a [] (z ∷ c) e f = absurd (ground (arith, e))
version_lt_trans [] (y ∷ b) (z ∷ c) e f = refl
version_lt_trans (x ∷ a) (y ∷ b) (z ∷ c) e f = elim (Bool-cases (version_lt a b)) [
  | inl g ↦ elim (Bool-cases (version_lt b c)) [
    | inl h ↦ ground (arith, e, f, g, h, version_lt_trans a b c g h)
    | inr h ↦ ground (arith, e, f, g, h)
  ]
  | inr g ↦ ground (arith, e, f, g)
]

pub version_lt_cotrans :
    (a b c : List ℕ) → version_lt a b ≡ false → version_lt b c ≡ false → version_lt a c ≡ false
unfolding version_lt
version_lt_cotrans a b [] e f = refl
version_lt_cotrans a [] (z ∷ c) e f = absurd (ground (arith, f))
version_lt_cotrans [] (y ∷ b) (z ∷ c) e f = absurd (ground (arith, e))
version_lt_cotrans (x ∷ a) (y ∷ b) (z ∷ c) e f = elim (Bool-cases (version_lt a b)) [
  | inl g ↦ ground (arith, e, f, g)
  | inr g ↦ elim (Bool-cases (version_lt b c)) [
    | inl h ↦ ground (arith, e, f, g, h)
    | inr h ↦ ground (arith, e, f, g, h, version_lt_cotrans a b c g h)
  ]
]
