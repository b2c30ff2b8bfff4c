-- ===== src/Clock/Commits.antt =====
-- neurahash/diloco_clock.py: whose commitment counts. It is the one digest a signer committed to
-- in the round, and none where it committed to two.
use neurahash_miner.Base.{
  ne_of_==, ap, sym, refl, lookup-erase_ne, lookup-erase_self, ==_refl, ==_iff, erase-DistinctKeys,
  Bool-cases, ◌∙◌, if◌then◌else◌, insert-DistinctKeys, contains-insert_set, inr, lookup-insert, inl,
  Option-cases, ℕ, Bool, true, false, not, ◌&&◌, ◌||◌, ◌==◌, Option, none, some, List, [], ◌∷◌,
  Dict, lookup, erase, contains, any_of, ◌≡◌, DistinctKeys, arith,
}
use neurahash_miner.Clock.Defs.{
  commits_of, read_commit, Hashes, CommitEnvelope, Commits, add_commits, add_commit, note_commit,
  trusted_commits, drop_signers,
}

-- the option holds the number
abbrev pub holds : Option ℕ → ℕ → Bool
holds none d = false
holds (some a) d = a == d

module _ (h : Hashes) (round : ℕ) where
  open h use {norm}

  abbrev is_round : Option ℕ → Bool
  is_round o = holds o round

  abbrev by : Option ℕ → ℕ → Bool
  by none s = false
  by (some a) s = norm a == s

  abbrev differs : Option ℕ → ℕ → Bool
  differs none d = false
  differs (some a) d = not (a == d)

  -- the envelope commits the signer to the digest, or to another one, in the round
  abbrev pub commits_to : ℕ → ℕ → CommitEnvelope → Bool
  commits_to s d c = is_round c.round && (by c.signer s && holds c.digest d)

  abbrev pub commits_otherwise : ℕ → ℕ → CommitEnvelope → Bool
  commits_otherwise s d c = is_round c.round && (by c.signer s && differs c.digest d)

  abbrev missing : Option ℕ → Bool
  missing none = true
  missing (some _) = false

  -- what the loop's state and the commitments left make of the signer's digest
  abbrev expect : ℕ → ℕ → Commits → Bool → Bool → Bool
  expect s d st to other =
      (holds (lookup s st.commit_map) d || (missing (lookup s st.commit_map) && to))
      && (not (contains s st.equiv) && not other)

  note_commit-expect :
      (s d a e : ℕ) (st : Commits) (to other : Bool)
      → expect s d (note_commit h a e st) to other
        ≡ expect s d st ((a == s && e == d) || to) ((a == s && not (e == d)) || other)
  unfolding note_commit
  note_commit-expect s d a e st to other = elim (Option-cases (lookup a st.commit_map)) [
    | inl n ↦ ground (arith, n, lookup-insert s a e st.commit_map)
    | inr (b, n) ↦ ground (arith, n, contains-insert_set s a st.equiv)
  ]

  read_commit-expect :
      (s d : ℕ) (x y : Option ℕ) (st : Commits) (to other : Bool)
      → expect s d (read_commit h x y st) to other
        ≡ expect s d st ((by x s && holds y d) || to) ((by x s && differs y d) || other)
  read_commit-expect s d none y st to other = refl
  read_commit-expect s d (some a) none st to other = ground arith
  read_commit-expect s d (some a) (some e) st to other =
      note_commit-expect s d (norm a) e st to other ∙ ground arith

  add_commit-expect :
      (s d : ℕ) (c : CommitEnvelope) (st : Commits) (to other : Bool)
      → expect s d (add_commit h round c st) to other
        ≡ expect s d st (commits_to s d c || to) (commits_otherwise s d c || other)
  add_commit-expect s d c st to other = elim (Option-cases c.round) [
    | inl n ↦ rw n refl
    | inr (q, n) ↦ ground (arith, n, read_commit-expect s d c.signer c.digest st to other)
  ]

  add_commits-expect :
      (s d : ℕ) (cs : List CommitEnvelope) (st : Commits)
      → expect s d (add_commits h round cs st) false false
        ≡ expect s d st (any_of (commits_to s d) cs) (any_of (commits_otherwise s d) cs)
  unfolding add_commits any_of
  add_commits-expect s d [] st = refl
  add_commits-expect s d (c ∷ cs) st =
      add_commits-expect s d cs (add_commit h round c st)
      ∙ add_commit-expect s d c st (any_of (commits_to s d) cs) (any_of (commits_otherwise s d) cs)

  note_commit-DistinctKeys :
      (a e : ℕ) (st : Commits)
      → DistinctKeys st.commit_map
      → DistinctKeys (note_commit h a e st).commit_map
  unfolding note_commit
  note_commit-DistinctKeys a e st k = ground (arith, insert-DistinctKeys a e st.commit_map k)

  add_commit-DistinctKeys :
      (c : CommitEnvelope) (st : Commits)
      → DistinctKeys st.commit_map
      → DistinctKeys (add_commit h round c st).commit_map
  add_commit-DistinctKeys c st k = elim (Option-cases c.signer) [
    | inl n ↦ ground (arith, n)
    | inr (a, n) ↦ elim (Option-cases c.digest) [
      | inl m ↦ ground (arith, n, m)
      | inr (e, m) ↦ ground (arith, n, m, note_commit-DistinctKeys (norm a) e st k)
    ]
  ]

  add_commits-DistinctKeys :
      (cs : List CommitEnvelope) (st : Commits)
      → DistinctKeys st.commit_map
      → DistinctKeys (add_commits h round cs st).commit_map
  unfolding add_commits
  add_commits-DistinctKeys [] st k = k
  add_commits-DistinctKeys (c ∷ cs) st k =
      add_commits-DistinctKeys cs (add_commit h round c st) (add_commit-DistinctKeys c st k)

  erased_case :
      (b : Bool) (s t : ℕ) (m : Dict ℕ)
      → DistinctKeys m
      → (if b then none else lookup s (erase t m)) ≡ (if s == t || b then none else lookup s m)
  erased_case true s t m k = ground arith
  erased_case false s t m k = elim (Bool-cases (s == t)) [
    | inl e ↦ let p = (==_iff s t).0 e in rw (p, ==_refl t) (lookup-erase_self t m k)
    | inr e ↦ rw e (lookup-erase_ne s t m (λ p. ne_of_== s t e p))
  ]

  lookup-drop_signers :
      (s : ℕ) (ss : List ℕ) (m : Dict ℕ)
      → DistinctKeys m
      → lookup s (drop_signers h ss m) ≡ (if contains s ss then none else lookup s m)
  unfolding drop_signers contains
  lookup-drop_signers s [] m k = refl
  lookup-drop_signers s (t ∷ ts) m k =
      lookup-drop_signers s ts (erase t m) (erase-DistinctKeys t m k)
      ∙ erased_case (contains s ts) s t m k

  commits_of-DistinctKeys :
      (cs : List CommitEnvelope) → DistinctKeys (commits_of h round cs).commit_map
  unfolding commits_of
  commits_of-DistinctKeys cs =
      add_commits-DistinctKeys cs (record { commit_map = []; equiv = []; wrong = [] }) tt

  from_empty :
      (s d : ℕ) (to other : Bool)
      → expect s d (record { commit_map = []; equiv = []; wrong = [] }) to other ≡ (to && not other)
  unfolding lookup contains
  from_empty s d to other = ground arith

  kept_holds :
      (b : Bool) (o : Option ℕ) (d : ℕ)
      → holds (if b then none else o) d
        ≡ ((holds o d || (missing o && false)) && (not b && not false))
  kept_holds b none d = ground arith
  kept_holds b (some a) d = ground arith

  commits_of-expect :
      (s d : ℕ) (cs : List CommitEnvelope)
      → expect s d (commits_of h round cs) false false
        ≡ (any_of (commits_to s d) cs && not (any_of (commits_otherwise s d) cs))
  unfolding commits_of
  commits_of-expect s d cs =
      add_commits-expect s d cs (record { commit_map = []; equiv = []; wrong = [] })
      ∙ from_empty s d (any_of (commits_to s d) cs) (any_of (commits_otherwise s d) cs)

  -- A signer's digest is trusted exactly when some commitment of the round is to it, and none of
  -- that signer in the round is to another.
  pub trusted_commits_exact :
      (s d : ℕ) (cs : List CommitEnvelope)
      → holds (lookup s (trusted_commits h round cs)) d
        ≡ (any_of (commits_to s d) cs && not (any_of (commits_otherwise s d) cs))
  unfolding trusted_commits
  trusted_commits_exact s d cs =
      let st = commits_of h round cs in
      ap (λ o. holds o d)
        (lookup-drop_signers s st.equiv st.commit_map (commits_of-DistinctKeys cs))
      ∙ kept_holds (contains s st.equiv) (lookup s st.commit_map) d
      ∙ commits_of-expect s d cs

pub holds_ext : (o o' : Option ℕ) → ((d : ℕ) → holds o d ≡ holds o' d) → o ≡ o'
holds_ext none none e = refl
holds_ext none (some b) e = ground (arith, e b)
holds_ext (some a) none e = ground (arith, e a)
holds_ext (some a) (some b) e = ground (arith, e a)

-- Lists that no test tells apart: the same members, in any order and any number.
abbrev pub SameMembers : {A : Type 0} → List A → List A → Type 0
SameMembers {A} xs ys = (p : A → Bool) → any_of p xs ≡ any_of p ys

same_test : {a a' b b' : Bool} → a ≡ a' → b ≡ b' → (a && not b) ≡ (a' && not b')
same_test e f = cc (e, f)

pub trusted_commits-same :
    (h : Hashes) (round s : ℕ) (cs cs' : List CommitEnvelope)
    → SameMembers cs cs'
    → lookup s (trusted_commits h round cs) ≡ lookup s (trusted_commits h round cs')
trusted_commits-same h round s cs cs' same =
    holds_ext (lookup s (trusted_commits h round cs)) (lookup s (trusted_commits h round cs')) (λ d.
      trusted_commits_exact h round s d cs
      ∙ same_test (same (commits_to h round s d)) (same (commits_otherwise h round s d))
      ∙ sym (trusted_commits_exact h round s d cs'))
