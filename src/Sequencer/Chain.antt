-- ===== src/Sequencer/Chain.antt =====
-- neura_l1/pool_sequencer.py: what an accepted chain of round commitments is.
use mathlib.Core.Bool.{true≢false}
use neurahash_miner.Base.{
  inr, sym, ◌∙◌, Bool-cases, inl, Option-cases, ◌&&◌, ltb, contains, arith, ℕ, suc, ◌≤◌, Bool, true,
  false, Option, none, some, List, [], ◌∷◌, ◌≡◌, ◌↔◌,
}
use neurahash_miner.Sequencer.Defs.{
  eq_option, id_ok, is_ok, expected_prev, signature_ok, insert_record, RoundRecord, audit_from,
  sort_records, verify_commitment_chain,
}
use neurahash_miner.Signing.{verify_commitment, Crypto, Envelope}

-- Rounds ascend weakly, from the one below a bound.
abbrev SortedFrom : ℕ → List RoundRecord → Type 0
SortedFrom b [] = Unit
SortedFrom b (r ∷ rs) = (b ≤ suc r.round) × SortedFrom (suc r.round) rs

insert_record-SortedFrom :
    (b : ℕ) (r : RoundRecord) (rs : List RoundRecord)
    → b ≤ suc r.round
    → SortedFrom b rs
    → SortedFrom b (insert_record r rs)
unfolding insert_record
insert_record-SortedFrom b r [] h k = (h, tt)
insert_record-SortedFrom b r (q ∷ qs) h (k, l) =
    ground (arith, insert_record-SortedFrom (suc q.round) r qs)

sort_records-SortedFrom : (rs : List RoundRecord) → SortedFrom 0 (sort_records rs)
unfolding sort_records
sort_records-SortedFrom [] = tt
sort_records-SortedFrom (r ∷ rs) =
    insert_record-SortedFrom 0 r (sort_records rs) (omega arith) (sort_records-SortedFrom rs)

module _ (crypto : Crypto) (expected_proposer : Option ℕ) (genesis_seed : ℕ) where
  -- the record's commitment verifies, and the record names it by its own id
  abbrev pub IsAuthentic : RoundRecord → Type 0
  IsAuthentic r =
      (e : Envelope) × (who : ℕ) × (r.signed ≡ some e)
      × (verify_commitment crypto e expected_proposer ≡ some who)
      × (r.commit_id ≡ some (crypto.commit_id e.commitment))

  -- From a commitment's id and a least round: rounds ascend strictly, every record is authentic,
  -- and each names the id before it.
  abbrev pub IsChain : ℕ → ℕ → List RoundRecord → Type 0
  IsChain prev b [] = Unit
  IsChain prev b (r ∷ rs) =
      (b ≤ r.round)
      × IsAuthentic r
      × (r.prev_commit_id ≡ some prev)
      × IsChain (expected_prev crypto expected_proposer genesis_seed r.commit_id) (suc r.round) rs

  abbrev clean : RoundRecord → Bool
  clean r =
      signature_ok crypto expected_proposer genesis_seed r
      && id_ok crypto expected_proposer genesis_seed r

  clean-unsigned : (r : RoundRecord) → r.signed ≡ none → clean r ≡ false
  unfolding signature_ok id_ok
  clean-unsigned r e = rw e (λ i. false)

  clean-refused :
      (r : RoundRecord) (x : Envelope)
      → r.signed ≡ some x
      → verify_commitment crypto x expected_proposer ≡ none
      → clean r ≡ false
  unfolding signature_ok id_ok
  clean-refused r x e v = rw (e, v) (λ i. false)

  clean-signed :
      (r : RoundRecord) (x : Envelope) (who : ℕ)
      → r.signed ≡ some x
      → verify_commitment crypto x expected_proposer ≡ some who
      → clean r ≡ eq_option (some (crypto.commit_id x.commitment)) r.commit_id
  unfolding signature_ok id_ok
  clean-signed r x who e v =
      rw (e, v) (λ i. eq_option (some (crypto.commit_id x.commitment)) r.commit_id)

  eq_option_iff : (o : Option ℕ) (a : ℕ) → (eq_option (some a) o ≡ true) ↔ (o ≡ some a)
  eq_option_iff none a = ground arith
  eq_option_iff (some b) a = ground arith

  clean_sound : (r : RoundRecord) → clean r ≡ true → IsAuthentic r
  clean_sound r h = elim (Option-cases r.signed) [
    | inl e ↦ elim (true≢false (sym h ∙ clean-unsigned r e)) [ ]
    | inr (x, e) ↦ elim (Option-cases (verify_commitment crypto x expected_proposer)) [
      | inl v ↦ elim (true≢false (sym h ∙ clean-refused r x e v)) [ ]
      | inr (who, v) ↦ (
        x,
        who,
        e,
        v,
        (eq_option_iff r.commit_id (crypto.commit_id x.commitment)).0
            (sym (clean-signed r x who e v) ∙ h),
      )
    ]
  ]

  clean_complete : (r : RoundRecord) → IsAuthentic r → clean r ≡ true
  clean_complete r (x, who, e, v, i) =
      clean-signed r x who e v ∙ (eq_option_iff r.commit_id (crypto.commit_id x.commitment)).1 i

  -- what the rounds seen are, where the next one is at least the bound less one
  Covers : ℕ → List ℕ → Type 0
  Covers b seen = (q : ℕ) → b ≤ suc q → contains q seen ≡ ltb q b

  Covers-next : (b q : ℕ) (seen : List ℕ) → Covers b seen → b ≤ q → Covers (suc q) (q ∷ seen)
  unfolding Covers contains
  Covers-next b q seen h l p k = ground (arith, h p)

  is_ok-duplicate :
      (prev_id prev_round : Option ℕ) (seen : List ℕ) (r : RoundRecord) (rs : List RoundRecord)
      → contains r.round seen ≡ true
      → is_ok crypto expected_proposer genesis_seed
          (audit_from crypto expected_proposer genesis_seed prev_id prev_round seen (r ∷ rs))
        ≡ false
  unfolding audit_from is_ok
  is_ok-duplicate prev_id prev_round seen r rs e = rw e (ground arith)

  is_ok-new :
      (prev_id prev_round : Option ℕ) (seen : List ℕ) (r : RoundRecord) (rs : List RoundRecord)
      → contains r.round seen ≡ false
      → is_ok crypto expected_proposer genesis_seed
          (audit_from crypto expected_proposer genesis_seed prev_id prev_round seen (r ∷ rs))
        ≡ (clean r
            && (eq_option r.prev_commit_id
                  (some (expected_prev crypto expected_proposer genesis_seed prev_id))
                && is_ok crypto expected_proposer genesis_seed (
                    audit_from crypto expected_proposer genesis_seed r.commit_id
                      (some r.round)
                      (r.round ∷ seen)
                      rs)))
  unfolding audit_from is_ok
  is_ok-new prev_id prev_round seen r rs e = rw e (ground arith)

  names_prev : (o : Option ℕ) (a : ℕ) → (eq_option o (some a) ≡ true) ↔ (o ≡ some a)
  names_prev none a = ground arith
  names_prev (some b) a = ground arith

  and_iff : (a b : Bool) → ((a && b) ≡ true) ↔ ((a ≡ true) × (b ≡ true))
  and_iff a b = ground arith

  ltb_above : (b q : ℕ) → b ≤ q → ltb q b ≡ false
  ltb_above b q l = ground arith

  le_of_ltb : (b q : ℕ) → ltb q b ≡ false → b ≤ q
  le_of_ltb b q e = ground arith

  step_duplicate :
      (ok : Bool) (b q : ℕ) {A P C : Type 0}
      → ok ≡ false
      → ltb q b ≡ true
      → (ok ≡ true) ↔ ((b ≤ q) × A × P × C)
  step_duplicate ok b q e l = (
    λ h. elim (true≢false (sym h ∙ e)) [ ],
    λ h. let m = h.0 in elim (true≢false (sym l ∙ ltb_above b q m)) [ ],
  )

  step_new :
      (ok cl eq rest : Bool) (b q : ℕ) {A P C : Type 0}
      → ok ≡ (cl && (eq && rest))
      → b ≤ q
      → (cl ≡ true) ↔ A
      → (eq ≡ true) ↔ P
      → (rest ≡ true) ↔ C
      → (ok ≡ true) ↔ ((b ≤ q) × A × P × C)
  step_new ok cl eq rest b q e l f g h = (
    λ k.
        let (x, y) = (and_iff cl (eq && rest)).0 (sym e ∙ k) in
        let (z, w) = (and_iff eq rest).0 y in (l, f.0 x, g.0 z, h.0 w),
    λ (_, x, y, z). e ∙ (and_iff cl (eq && rest)).1 (f.1 x, (and_iff eq rest).1 (g.1 y, h.1 z)),
  )

  audit_from-nil :
      (prev_id prev_round : Option ℕ) (seen : List ℕ)
      → is_ok crypto expected_proposer genesis_seed
          (audit_from crypto expected_proposer genesis_seed prev_id prev_round seen [])
        ≡ true
  unfolding audit_from is_ok
  audit_from-nil prev_id prev_round seen = λ i. true

  audit_from-exact :
      (prev_id prev_round : Option ℕ) (b : ℕ) (seen : List ℕ) (rs : List RoundRecord)
      → Covers b seen
      → SortedFrom b rs
      → (is_ok crypto expected_proposer genesis_seed
            (audit_from crypto expected_proposer genesis_seed prev_id prev_round seen rs)
          ≡ true)
        ↔ IsChain (expected_prev crypto expected_proposer genesis_seed prev_id) b rs
  unfolding Covers
  audit_from-exact prev_id prev_round b seen [] c s =
      (λ h. tt, λ h. audit_from-nil prev_id prev_round seen)
  audit_from-exact prev_id prev_round b seen (r ∷ rs) c (s, ss) =
      let prev = expected_prev crypto expected_proposer genesis_seed prev_id in
      let report = audit_from crypto expected_proposer genesis_seed in
      let ok = is_ok crypto expected_proposer genesis_seed in
      let within = c r.round s in
      let now = ok (report prev_id prev_round seen (r ∷ rs)) in
      let later = ok (report r.commit_id (some r.round) (r.round ∷ seen) rs) in
      elim (Bool-cases (contains r.round seen)) [
        | inl e ↦
            step_duplicate now b r.round {A = IsAuthentic r} {P = r.prev_commit_id ≡ some prev}
              {C = IsChain (expected_prev crypto expected_proposer genesis_seed r.commit_id)
                (suc r.round) rs}
              (is_ok-duplicate prev_id prev_round seen r rs e) (sym within ∙ e)
        | inr e ↦
            let l = le_of_ltb b r.round (sym within ∙ e) in
            step_new now (clean r) (eq_option r.prev_commit_id (some prev)) later b r.round
              (is_ok-new prev_id prev_round seen r rs e) l (clean_sound r, clean_complete r)
              (names_prev r.prev_commit_id prev)
              (audit_from-exact r.commit_id (some r.round) (suc r.round) (r.round ∷ seen) rs
                (Covers-next b r.round seen c l) ss)
      ]

  Covers-none : Covers 0 []
  unfolding Covers contains
  Covers-none q l = ground arith

  -- A log of round commitments is accepted exactly when its records, in the order of their rounds,
  -- form a chain: rounds ascend strictly, every record carries a commitment that verifies and its
  -- own id, and each names the id before it, the first the genesis seed. A commitment verifies by
  -- the expected proposer; where none is expected, by any signer that its signature recovers to,
  -- whomever the record states as its proposer.
  pub verify_commitment_chain_exact :
      (records : List RoundRecord)
      → ((verify_commitment_chain crypto expected_proposer genesis_seed records).0 ≡ true)
        ↔ IsChain genesis_seed 0 (sort_records records)
  unfolding verify_commitment_chain
  verify_commitment_chain_exact records =
      audit_from-exact none none 0 [] (sort_records records) Covers-none
        (sort_records-SortedFrom records)
