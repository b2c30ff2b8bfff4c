-- ===== src/Sequencer/Failover.antt =====
-- neura_l1/pool_sequencer.py: the election does not depend on how its roster is listed.
use neurahash_miner.Base.{ℕ, List, ◌≡◌, ap, contains, sorted_set_ext}
use neurahash_miner.Sequencer.Defs.{elect_proposer, first, rank}
use neurahash_miner.Sequencer.Defs.{taken_over, takeover_decision, fresh, first_fresh}
use neurahash_miner.Base.{
  ◌≢◌, ◌⊎◌, inl, inr, true, false, Option, none, some, Dict, Bool-cases, [], ◌∷◌, sym, ◌∙◌, arith,
}

-- Two rosters with the same members elect the same proposer and rank alike, whatever the order
-- and the repetitions they list their members in.
pub elect_proposer-same :
    (key : ℕ → ℕ) (xs ys : List ℕ)
    → ((z : ℕ) → contains z xs ≡ contains z ys)
    → elect_proposer key xs ≡ elect_proposer key ys
unfolding elect_proposer
elect_proposer-same key xs ys h =
    ap (λ s. (first (rank key s), rank key s)) (sorted_set_ext xs ys h)

module _ (last_seen : Dict ℕ) (current_round stale_after : ℕ) where
  -- the fresh proposer that a ranking puts before all other fresh ones
  abbrev pub IsFirstFresh : ℕ → List ℕ → Type 0
  IsFirstFresh p [] = ⊥
  IsFirstFresh p (q ∷ qs) =
      ((fresh last_seen current_round stale_after q ≡ true) × (q ≡ p))
      ⊎ ((fresh last_seen current_round stale_after q ≡ false) × IsFirstFresh p qs)

  some_inj : (a b : ℕ) → some a ≡ some b → a ≡ b
  some_inj a b e = ground arith

  first_fresh-here :
      (q : ℕ) (qs : List ℕ)
      → fresh last_seen current_round stale_after q ≡ true
      → first_fresh last_seen current_round stale_after (q ∷ qs) ≡ some q
  unfolding first_fresh
  first_fresh-here q qs e = rw e (λ i. some q)

  first_fresh-later :
      (q : ℕ) (qs : List ℕ)
      → fresh last_seen current_round stale_after q ≡ false
      → first_fresh last_seen current_round stale_after (q ∷ qs)
        ≡ first_fresh last_seen current_round stale_after qs
  unfolding first_fresh
  first_fresh-later q qs e = rw e (λ i. first_fresh last_seen current_round stale_after qs)

  first_fresh_sound :
      (p : ℕ) (ranked : List ℕ)
      → first_fresh last_seen current_round stale_after ranked ≡ some p
      → IsFirstFresh p ranked
  unfolding first_fresh
  first_fresh_sound p [] h = ground arith
  first_fresh_sound p (q ∷ qs) h = elim (Bool-cases (fresh last_seen current_round stale_after q)) [
    | inl e ↦ inl (e, some_inj q p (sym (first_fresh-here q qs e) ∙ h))
    | inr e ↦ inr (e, first_fresh_sound p qs (sym (first_fresh-later q qs e) ∙ h))
  ]

  taken_over-some :
      (o : Option ℕ) (l : ℕ) → taken_over o l ≡ true → (p : ℕ) × (o ≡ some p) × (p ≢ l)
  taken_over-some none l h = ground arith
  taken_over-some (some p) l h = (p, (λ i. some p), ground arith)

  -- When a takeover is reported, the successor is another than the leader, the first fresh one of
  -- the ranking.
  pub takeover_decision_sound :
      (leader : ℕ) (ps : List ℕ)
      → (takeover_decision (leader ∷ ps) last_seen current_round stale_after).would_take_over ≡ true
      → (p : ℕ) × ((takeover_decision (leader ∷ ps) last_seen current_round stale_after).successor
          ≡ some p)
        × (p ≢ leader)
        × IsFirstFresh p (leader ∷ ps)
  unfolding takeover_decision
  takeover_decision_sound leader ps h =
      let (p, e, n) =
        taken_over-some (first_fresh last_seen current_round stale_after (leader ∷ ps)) leader h in
      (p, e, n, first_fresh_sound p (leader ∷ ps) e)
