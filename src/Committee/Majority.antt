-- ===== src/Committee/Majority.antt =====
-- neurahash/diloco_committee.py: an enforced acceptance has a majority of the selected set behind
-- it.
use mathlib.Core.Path.{sym, subst}
use neurahash_miner.Base.{
  ◌∙◌, negsuc, +ℤ_parts, ◌<◌, length, leb_ℤ, sorted_set, pos, ltb_ℤ, ◌+ℤ◌, ◌++◌, refl, none, inr,
  inl, Bool-cases, arith, [], ◌≤◌, ◌||◌, ◌==◌, suc, ◌+◌, if◌then◌else◌, some, true, ◌&&◌, false,
  not, ◌∷◌, ◌≡◌, ℤ, Bool, ℕ, Dict, List, Option, contains,
}
use neurahash_miner.Committee.Defs.{
  committee_verdict, slashable_of, Aggregate, no_votes, bound_answers, lower_addresses,
  aggregate_diloco_attestations, enforce, listed, verify_diloco_candidate, CommitteeVerdict,
  gated_accept, stake_in, count_votes, add_vote, verify_diloco_attestation, count_vote, Voting,
  Attestation, Counted,
}

-- how many items pass a test
abbrev pub count_where : (ℕ → Bool) → List ℕ → ℕ
count_where p [] = 0
count_where p (a ∷ as') = let rest = count_where p as' in if p a then suc rest else rest

count_where_mono :
    (p q : ℕ → Bool) (as' : List ℕ)
    → ((a : ℕ) → p a ≡ true → q a ≡ true)
    → count_where p as' ≤ count_where q as'
count_where_mono p q [] h = omega arith
count_where_mono p q (a ∷ as') h = elim (Bool-cases (p a)) [
  | inl e ↦ ground (arith, e, h a e, count_where_mono p q as' h)
  | inr e ↦ elim (Bool-cases (q a)) [
    | inl f ↦ ground (arith, e, f, count_where_mono p q as' h)
    | inr f ↦ ground (arith, e, f, count_where_mono p q as' h)
  ]
]

-- one more, where an item of the list passes the second test only
count_where_more :
    (p q : ℕ → Bool) (r : ℕ) (as' : List ℕ)
    → ((a : ℕ) → p a ≡ true → q a ≡ true)
    → p r ≡ false
    → q r ≡ true
    → contains r as' ≡ true
    → suc (count_where p as') ≤ count_where q as'
unfolding contains
count_where_more p q r [] h e f c = absurd (ground (arith, c))
count_where_more p q r (a ∷ as') h e f c = elim (Bool-cases (r == a)) [
  | inl s ↦
      let same : r ≡ a = ground (arith, s) in
      let e' = subst (λ x. p x ≡ false) same e in
      let f' = subst (λ x. q x ≡ true) same f in ground (arith, e', f', count_where_mono p q as' h)
  | inr s ↦
      let more = count_where_more p q r as' h e f (ground (arith, c, s)) in
      elim (Bool-cases (p a)) [
        | inl e' ↦ ground (arith, e', h a e', more)
        | inr e' ↦ elim (Bool-cases (q a)) [
          | inl f' ↦ ground (arith, e', f', more)
          | inr f' ↦ ground (arith, e', f', more)
        ]
      ]
]

module _ (ext : Voting) where
  open ext use {recover, lower}

  abbrev pub votes_yes : ℕ → Option Attestation → Option ℕ → Bool
  votes_yes a none rec = false
  votes_yes a (some att) none = false
  votes_yes a (some att) (some rec) = lower rec == a && att.accepted

  -- an attestation among these holds, is the address's, and accepts
  abbrev pub has_accepted : List (Option Attestation) → ℕ → Bool
  has_accepted [] a = false
  has_accepted (att ∷ atts) a =
      votes_yes a att (verify_diloco_attestation ext att) || has_accepted atts a

  abbrev still : List ℕ → Bool → ℕ → Bool
  still seen b a = not (contains a seen) && b

  -- the sum that the count of a vote keeps within its bound
  abbrev pending : List ℕ → (ℕ → Bool) → Counted → ℕ
  pending allow rest c = c.n_accept + count_where (λ a. still c.seen (rest a) a) allow

  no_vote :
      (allow : List ℕ) (rest says : ℕ → Bool) (c c' : Counted)
      → c' ≡ c
      → pending allow rest c' ≤ pending allow (λ a. says a || rest a) c
  no_vote allow rest says c c' same =
      subst (λ d. pending allow rest d ≤ pending allow (λ a. says a || rest a) c) (sym same)
        (omega (
          arith,
          count_where_mono (λ a. still c.seen (rest a) a) (λ a. still c.seen (says a || rest a) a)
              allow (λ a e. ground (arith, e)),
        ))

  kept : (s b x y : Bool) → (not (b || s) && x) ≡ true → (not s && (y || x)) ≡ true
  kept s b x y e = ground (arith, e)

  one_vote :
      (weights : Option (Dict ℤ)) (allow : List ℕ) (rest : ℕ → Bool) (att : Attestation) (r : ℕ)
      (c : Counted)
      → contains r c.seen ≡ false
      → contains r allow ≡ true
      → pending allow rest (add_vote ext weights att r c)
        ≤ pending allow (λ a. (r == a && att.accepted) || rest a) c
  unfolding contains
  one_vote weights allow rest att r c new on = elim (Bool-cases att.accepted) [
    | inl e ↦
        let more =
          count_where_more (λ a. still (r ∷ c.seen) (rest a) a)
            (λ a. still c.seen ((r == a && att.accepted) || rest a) a) r allow
            (λ a h. kept (contains a c.seen) (a == r) (rest a) (r == a && att.accepted) h)
            (ground arith) (ground (arith, new, e)) on in
        let same : add_vote ext weights att r c ≡ record c {
          valid = c.valid ++ (att ∷ []);
          seen = r ∷ c.seen;
          n_accept = suc c.n_accept;
          accept_stake = c.accept_stake +ℤ stake_in ext weights r;
        } =
          ground (arith, e) in
        subst
          (λ d. pending allow rest d ≤ pending allow (λ a. (r == a && att.accepted) || rest a) c)
          (sym same) (omega (arith, more))
    | inr e ↦
        let fewer =
          count_where_mono (λ a. still (r ∷ c.seen) (rest a) a)
            (λ a. still c.seen ((r == a && att.accepted) || rest a) a) allow
            (λ a h. kept (contains a c.seen) (a == r) (rest a) (r == a && att.accepted) h) in
        let same : add_vote ext weights att r c
            ≡ record c { valid = c.valid ++ (att ∷ []); seen = r ∷ c.seen } =
          ground (arith, e) in
        subst
          (λ d. pending allow rest d ≤ pending allow (λ a. (r == a && att.accepted) || rest a) c)
          (sym same) (omega (arith, fewer))
  ]

  vote_counts :
      (weights : Option (Dict ℤ)) (allow : List ℕ) (att : Option Attestation) (o : Option ℕ)
      (rest : ℕ → Bool) (c : Counted)
      → pending allow rest (count_vote ext weights (some allow) att o c)
        ≤ pending allow (λ a. votes_yes a att o || rest a) c
  vote_counts weights allow none o rest c = no_vote allow rest (λ a. false) c c refl
  vote_counts weights allow (some att) none rest c = no_vote allow rest (λ a. false) c c refl
  vote_counts weights allow (some att) (some rec) rest c =
      elim (Bool-cases (contains (lower rec) c.seen || not (contains (lower rec) allow))) [
        | inl e ↦
            no_vote allow rest (λ a. lower rec == a && att.accepted) c
              (count_vote ext weights (some allow) (some att) (some rec) c) (ground (arith, e))
        | inr e ↦
            let same : count_vote ext weights (some allow) (some att) (some rec) c
                ≡ add_vote ext weights att (lower rec) c =
              ground (arith, e) in
            subst
              (λ d.
                pending allow rest d
                ≤ pending allow (λ a. (lower rec == a && att.accepted) || rest a) c)
              (sym same)
              (one_vote weights allow rest att (lower rec) c (ground (arith, e))
                (ground (arith, e)))
      ]

  count_votes_bound :
      (weights : Option (Dict ℤ)) (allow : List ℕ) (atts : List (Option Attestation)) (c : Counted)
      → (count_votes ext weights (some allow) atts c).n_accept ≤ pending allow (has_accepted atts) c
  unfolding count_votes
  count_votes_bound weights allow [] c = omega arith
  count_votes_bound weights allow (att ∷ atts) c =
      let o = verify_diloco_attestation ext att in
      let c' = count_vote ext weights (some allow) att o c in
      omega (
        arith,
        count_votes_bound weights allow atts c',
        vote_counts weights allow att o (has_accepted atts) c,
      )

  over_half : (n k : ℕ) (m : ℤ) → ltb_ℤ (pos n) (m +ℤ m) ≡ true → leb_ℤ m (pos k) ≡ true → n < k + k
  over_half n k (pos m) e f = ground (arith, e, f, +ℤ_parts (pos m) (pos m))
  over_half n k (negsuc m) e f = ground (arith, e, f, +ℤ_parts (negsuc m) (negsuc m))

  strictly_gated :
      (ok : Bool) (v : CommitteeVerdict) (min_cohort : ℕ)
      → gated_accept ok v enforce min_cohort true ≡ true
      → (ok ≡ true) × (v.accepted ≡ true)
  unfolding gated_accept
  strictly_gated ok v min_cohort e = (ground (arith, e), ground (arith, e))

  passed :
      (b : Bool) (x : Option CommitteeVerdict) (v : CommitteeVerdict)
      → (if b then x else none) ≡ some v
      → (b ≡ true) × (x ≡ some v)
  passed true x v e = (refl, ground (arith, e))
  passed false x v e = absurd (ground (arith, e))

  reported :
      (allow : Option (List ℕ)) (m : ℤ) (b : Bool) (g : Aggregate) (v : CommitteeVerdict)
      → committee_verdict ext allow m (if b then none else some g) ≡ some v
      → g.accepted ≡ v.accepted
  reported allow m true g v e = absurd (ground (arith, e))
  reported allow m false g v e = ground (arith, e)

  verdict_inv :
      (answers : List (Option Attestation)) (beacon : ℕ) (m : ℤ) (as' : List ℕ) (margin tol : ℤ)
      (v : CommitteeVerdict)
      → verify_diloco_candidate ext answers beacon m (listed as') margin tol ≡ some v
      → let members = sorted_set (lower_addresses ext as') in
        (ltb_ℤ (pos (length members)) (m +ℤ m) ≡ true)
        × (leb_ℤ m (
              pos
                (count_votes ext none
                  (some members)
                  (bound_answers ext beacon answers)
                  (no_votes ext)).n_accept)
            ≡ v.accepted)
  unfolding verify_diloco_candidate aggregate_diloco_attestations
  verdict_inv answers beacon m as' margin tol v e =
      let members = sorted_set (lower_addresses ext as') in
      let atts = bound_answers ext beacon answers in
      let c = count_votes ext none (some members) atts (no_votes ext) in
      let g : Aggregate = record {
        accepted = leb_ℤ m (pos c.n_accept);
        valid = c.valid;
        slashable = slashable_of ext (leb_ℤ m (pos c.n_accept)) tol margin c.valid;
        n_accept = c.n_accept;
      } in
      let strict = ltb_ℤ (pos (length members)) (m +ℤ m) in
      let (sound, made) =
        passed (leb_ℤ (pos 1) m && strict)
          (committee_verdict ext (some members) m (if ltb_ℤ m (pos 1) then none else some g)) v e in
      (ground (arith, sound), reported (some members) m (ltb_ℤ m (pos 1)) g v made)

  -- Where a committee's verdict over a selected set, counted by heads, is enforced strictly, a
  -- candidate is accepted only if the single node accepts it and more than half of the set have an
  -- accepting attestation that holds and is bound to the request.
  pub accepted_by_majority :
      (answers : List (Option Attestation)) (beacon : ℕ) (m : ℤ) (as' : List ℕ) (margin tol : ℤ)
      (v : CommitteeVerdict) (ok : Bool) (min_cohort : ℕ)
      → verify_diloco_candidate ext answers beacon m (listed as') margin tol ≡ some v
      → gated_accept ok v enforce min_cohort true ≡ true
      → (ok ≡ true)
        × (length (sorted_set (lower_addresses ext as'))
            < count_where
                (has_accepted (bound_answers ext beacon answers))
                (sorted_set (lower_addresses ext as'))
              + count_where
                  (has_accepted (bound_answers ext beacon answers))
                  (sorted_set (lower_addresses ext as')))
  unfolding contains
  accepted_by_majority answers beacon m as' margin tol v ok min_cohort e g =
      let members = sorted_set (lower_addresses ext as') in
      let atts = bound_answers ext beacon answers in
      let (single, agreed) = strictly_gated ok v min_cohort g in
      let (strict, voted) = verdict_inv answers beacon m as' margin tol v e in
      let n = (count_votes ext none (some members) atts (no_votes ext)).n_accept in
      let half = over_half (length members) n m strict (voted ∙ agreed) in
      let bound = count_votes_bound none members atts (no_votes ext) in
      let all =
        count_where_mono (λ a. still [] (has_accepted atts a) a) (has_accepted atts) members
          (λ a h. ground (arith, h)) in
      (single, omega (arith, half, bound, all))
