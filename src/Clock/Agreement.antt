-- ===== src/Clock/Agreement.antt =====
-- neurahash/diloco_clock.py: every node agrees on the round, and who equivocates is left out.
use neurahash_miner.Clock.Reveals.{
  same_digest-none, reveals_as, reveals_of_exact, reveals_of-same, reveals_of-DistinctKeys,
  contains_pair-lookup, IsBinding,
}
use neurahash_miner.Clock.Commits.{
  trusted_commits_exact, commits_otherwise, SameMembers, commits_to, holds,
}
use neurahash_miner.Clock.Defs.{
  commit_digest, opens, reveals_of, trusted_commits, agree_seed, Reveal, agree_order,
  CommitEnvelope, sort_by, agree_round, insert_by, Hashes,
}
use neurahash_miner.Base.{
  ne_of_==, sym, [], contains-sorted_set, inr, ==_iff, Bool-cases, inl, sorted_set_ext,
  contains-keys_of, refl, sorted_set, not, contains_pair, arith, Option-cases, ap, sorted_pairs_ext,
  keys_of, ◌∙◌, lookup, none, some, ◌||◌, ◌&&◌, ◌∷◌, false, present, true, ◌==◌, ◌≡◌, ◌≢◌, contains,
  Option, any_of, Bool, List, ℕ,
}

module _ (h : Hashes) (round : ℕ) where
  pairs_same :
      (cs cs' : List CommitEnvelope) (rs rs' : List Reveal)
      → IsBinding h round
      → SameMembers cs cs'
      → SameMembers rs rs'
      → (z : ℕ × ℕ)
      → contains_pair z (reveals_of h round cs rs).valid
        ≡ contains_pair z (reveals_of h round cs' rs').valid
  pairs_same cs cs' rs rs' b c r (s, n) =
      contains_pair-lookup s n (reveals_of h round cs rs).valid
        (reveals_of-DistinctKeys h round cs rs)
      ∙ ap (λ o. holds o n) (reveals_of-same h round s cs cs' rs rs' b c r)
      ∙ sym (
          contains_pair-lookup s n (reveals_of h round cs' rs').valid
            (reveals_of-DistinctKeys h round cs' rs'))

  keys_same :
      (cs cs' : List CommitEnvelope) (rs rs' : List Reveal)
      → IsBinding h round
      → SameMembers cs cs'
      → SameMembers rs rs'
      → (s : ℕ)
      → contains s (keys_of (reveals_of h round cs rs).valid)
        ≡ contains s (keys_of (reveals_of h round cs' rs').valid)
  keys_same cs cs' rs rs' b c r s =
      contains-keys_of s (reveals_of h round cs rs).valid
      ∙ ap present (reveals_of-same h round s cs cs' rs rs' b c r)
      ∙ sym (contains-keys_of s (reveals_of h round cs' rs').valid)

  -- Where digests bind, nodes that hold the same commitments and the same reveals of a round, in any
  -- order and however often repeated, agree on the seed, the order and the valid signers.
  pub agree_round-same :
      (cs cs' : List CommitEnvelope) (rs rs' : List Reveal)
      → IsBinding h round
      → SameMembers cs cs'
      → SameMembers rs rs'
      → ((agree_round h cs rs round).seed ≡ (agree_round h cs' rs' round).seed)
        × ((agree_round h cs rs round).order ≡ (agree_round h cs' rs' round).order)
        × ((agree_round h cs rs round).valid_signers ≡ (agree_round h cs' rs' round).valid_signers)
  unfolding agree_round agree_seed agree_order
  agree_round-same cs cs' rs rs' b c r =
      let pairs =
        sorted_pairs_ext (reveals_of h round cs rs).valid (reveals_of h round cs' rs').valid
          (pairs_same cs cs' rs rs' b c r) in
      let keys =
        sorted_set_ext (keys_of (reveals_of h round cs rs).valid)
          (keys_of (reveals_of h round cs' rs').valid) (keys_same cs cs' rs rs' b c r) in
      (ap (h.seed_hash round) pairs, (λ i. sort_by h (h.seed_hash round (pairs i)) (keys i)), keys)

  contains-insert_by :
      (seed a x : ℕ) (xs : List ℕ) → contains x (insert_by h seed a xs) ≡ (x == a || contains x xs)
  unfolding insert_by contains
  contains-insert_by seed a x [] = ground arith
  contains-insert_by seed a x (b ∷ bs) = ground (arith, contains-insert_by seed a x bs)

  contains-sort_by : (seed x : ℕ) (xs : List ℕ) → contains x (sort_by h seed xs) ≡ contains x xs
  unfolding sort_by contains
  contains-sort_by seed x [] = refl
  contains-sort_by seed x (a ∷ as') =
      contains-insert_by seed a x (sort_by h seed as')
      ∙ ap (λ b. x == a || b) (contains-sort_by seed x as')

  contains-order :
      (cs : List CommitEnvelope) (rs : List Reveal) (s : ℕ)
      → contains s (agree_round h cs rs round).order
        ≡ present (lookup s (reveals_of h round cs rs).valid)
  unfolding agree_round agree_order
  contains-order cs rs s =
      let valid = (reveals_of h round cs rs).valid in
      contains-sort_by (agree_seed h valid round) s (sorted_set (keys_of valid))
      ∙ contains-sorted_set s (keys_of valid)
      ∙ contains-keys_of s valid

  absent_of_holds : (o : Option ℕ) → ((n : ℕ) → holds o n ≡ false) → present o ≡ false
  absent_of_holds none e = refl
  absent_of_holds (some a) e = ground (arith, e a)

  or_right : (a : Bool) {b : Bool} → b ≡ true → (a || b) ≡ true
  or_right a e = ground (arith, e)

  and_not : (a : Bool) {b : Bool} → b ≡ true → (a && not b) ≡ false
  and_not a e = ground (arith, e)

  nothing_holds : (o : Option ℕ) → ((n : ℕ) → holds o n ≡ false) → o ≡ none
  nothing_holds none e = refl
  nothing_holds (some a) e = ground (arith, e a)

  one_otherwise :
      (s d x : ℕ) (c : CommitEnvelope)
      → d ≢ x
      → commits_to h round s d c ≡ true
      → commits_otherwise h round s x c ≡ true
  one_otherwise s d x c e f = elim (Option-cases c.digest) [
    | inl n ↦ ground (arith, n, f)
    | inr (a, n) ↦ ground (arith, n, f)
  ]

  some_otherwise :
      (s d x : ℕ) (cs : List CommitEnvelope)
      → d ≢ x
      → any_of (commits_to h round s d) cs ≡ true
      → any_of (commits_otherwise h round s x) cs ≡ true
  unfolding any_of
  some_otherwise s d x [] e f = ground (arith, f)
  some_otherwise s d x (c ∷ cs) e f = elim (Bool-cases (commits_to h round s d c)) [
    | inl g ↦ rw (one_otherwise s d x c e g) refl
    | inr g ↦
        or_right (commits_otherwise h round s x c) (
          some_otherwise s d x cs e (sym (ap (λ q. q || any_of (commits_to h round s d) cs) g) ∙ f))
  ]

  never_alone :
      (s d d' x : ℕ) (cs : List CommitEnvelope)
      → d ≢ d'
      → any_of (commits_to h round s d) cs ≡ true
      → any_of (commits_to h round s d') cs ≡ true
      → (any_of (commits_to h round s x) cs && not (any_of (commits_otherwise h round s x) cs))
        ≡ false
  never_alone s d d' x cs e f g = elim (Bool-cases (d == x)) [
    | inl p ↦
        let q = (==_iff d x).0 p in
        and_not (any_of (commits_to h round s x) cs)
          (some_otherwise s d' x cs (λ r. e (q ∙ sym r)) g)
    | inr p ↦
        and_not (any_of (commits_to h round s x) cs)
          (some_otherwise s d x cs (λ r. ne_of_== d x p r) f)
  ]

  -- A signer with two commitments of the round to different digests is in no agreed order, where
  -- digests bind: it can be no proposer.
  pub equivocator_excluded :
      (cs : List CommitEnvelope) (rs : List Reveal) (s d d' : ℕ)
      → IsBinding h round
      → d ≢ d'
      → any_of (commits_to h round s d) cs ≡ true
      → any_of (commits_to h round s d') cs ≡ true
      → contains s (agree_round h cs rs round).order ≡ false
  equivocator_excluded cs rs s d d' b e f g =
      let o = lookup s (trusted_commits h round cs) in
      let untrusted =
        nothing_holds o
          (λ x. trusted_commits_exact h round s x cs ∙ never_alone s d d' x cs e f g) in
      contains-order cs rs s
      ∙ absent_of_holds (lookup s (reveals_of h round cs rs).valid) (λ n.
        reveals_of_exact h round s n cs rs b
        ∙ ap (λ p. opens h round s (some n) p && any_of (reveals_as h round s n) rs) untrusted
        ∙ ap (λ q. q && any_of (reveals_as h round s n) rs)
            (same_digest-none h round (commit_digest h round s n)))
