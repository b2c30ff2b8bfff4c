-- ===== src/RoundAuthority/Quorums.antt =====
-- neurahash/diloco_round_authority.py: a takeover has a majority's timeouts for every earlier view.
use neurahash_miner.RoundAuthority.Takeover.{accept-Taken}
use neurahash_miner.Settlement.Chain.{Chain}
use mathlib.Core.Path.{subst}
use neurahash_miner.Settlement.Quorum.{strict_count}
use neurahash_miner.Settlement.Multisig.{is_strict_majority}
use neurahash_miner.Guardian.Signers.{distinct_signers_exact, signing_members}
use neurahash_miner.Guardian.Defs.{normal_all, distinct_signers, GuardianSet}
use neurahash_miner.Base.{
  ◌==◌, inl, inr, ltb, Bool-cases, negsuc, none, some, not, if◌then◌else◌, Option, refl, zero, [],
  false, pos, leb_ℤ, ◌∷◌, sorted_set-IsAscending, suc, get_or, ◌+◌, arith, true, ◌<◌, length, ◌≡◌,
  ℤ, ℕ, ◌&&◌, Dict, List, Bool,
}
use neurahash_miner.RoundAuthority.Defs.{
  accepted, no_view_change_proof, out_of_turn, turn, or_threshold, recover_proposer, or_roster,
  at_view, accept, in_range, view_fault, Broadcast, election_fault, Rejection, roster_members,
  votes_for, Timeout, verify_timeout_quorum, views_timed_out, Authority,
}

module _ (ext : Authority) where
  open ext use {chain, timeouts, recover_claim}
  open chain use {ledger, hash, address, recover_bytes, lower}

  -- more than half of a roster's members signed a timeout
  abbrev pub MajoritySigned : List ℕ → List ℕ → Timeout → Type 0
  MajoritySigned sigs roster t =
      length (roster_members ext roster)
      < length (signing_members timeouts t sigs (roster_members ext roster))
        + length (signing_members timeouts t sigs (roster_members ext roster))

  both : (a b : Bool) → (a && b) ≡ true → (a ≡ true) × (b ≡ true)
  both true b e = (refl, ground (arith, e))
  both false b e = absurd (ground (arith, e))

  verify_timeout_quorum_sound :
      (sigs roster : List ℕ) (m : ℤ) (t : Timeout)
      → verify_timeout_quorum ext sigs roster m t ≡ true
      → MajoritySigned sigs roster t
  unfolding verify_timeout_quorum
  verify_timeout_quorum_sound sigs roster m t e =
      let gs : GuardianSet = record { members = roster_members ext roster; threshold = m } in
      let n = length (distinct_signers timeouts gs t sigs) in
      let same =
        distinct_signers_exact timeouts gs t sigs
          (sorted_set-IsAscending (normal_all timeouts roster)) in
      let (strict, many) =
        both (is_strict_majority m (length (roster_members ext roster))) (leb_ℤ m (pos n)) e in
      rw (← same) (strict_count chain.votes (length (roster_members ext roster)) n m strict many)

  abbrev pub failed : ℕ → ℕ → ℕ → Timeout
  failed round p v = record { round = round; failed_proposer = lower p; view = v }

  -- the timeout of a view's proposer is in the quorums, signed by more than half of the roster
  abbrev pub TimedOut : Dict (List ℕ) → List ℕ → ℕ → ℕ → ℕ → Type 0
  TimedOut quorums roster round p w =
      MajoritySigned (votes_for ext w quorums) roster (failed round p w)

  views_timed_out_sound :
      (quorums : Dict (List ℕ)) (roster : List ℕ) (m : ℤ) (round v n : ℕ) (order : List ℕ) (who : ℕ)
      → n < length order
      → views_timed_out ext quorums roster m round v n order ≡ true
      → (i : ℕ) → i < n
      → TimedOut quorums roster round (get_or order i who) (v + i)
  unfolding views_timed_out
  views_timed_out_sound quorums roster m round v zero order who b e i l = absurd (omega (arith, l))
  views_timed_out_sound quorums roster m round v (suc n) [] who b e i l = absurd (omega (arith, b))
  views_timed_out_sound quorums roster m round v (suc n) (p ∷ order) who b e zero l =
      let (f, g) =
        both (verify_timeout_quorum ext (votes_for ext v quorums) roster m (failed round p v))
          (views_timed_out ext quorums roster m round (v + 1) n order) e in
      let same : v ≡ v + 0 = omega arith in
      subst (TimedOut quorums roster round p) same
        (verify_timeout_quorum_sound (votes_for ext v quorums) roster m (failed round p v) f)
  views_timed_out_sound quorums roster m round v (suc n) (p ∷ order) who b e (suc i) l =
      let (f, g) =
        both (verify_timeout_quorum ext (votes_for ext v quorums) roster m (failed round p v))
          (views_timed_out ext quorums roster m round (v + 1) n order) e in
      let rest =
        views_timed_out_sound quorums roster m round (v + 1) n order who (omega (arith, b)) g i
          (omega (arith, l)) in
      let same : v + 1 + i ≡ v + suc i = omega arith in
      subst (TimedOut quorums roster round (get_or order i who)) same rest

  -- what a candidate found of the turn of an envelope at a view
  pub record ItsTurn (who : ℕ) (e : Broadcast) (order rost : List ℕ) (z : ℤ) : Type 0 where
    pub view : ℕ
    pub at : z ≡ pos view
    pub within : view < length order
    pub listed : lower who ≡ lower (get_or order view who)
    pub timed_out :
        (w : ℕ) → w < view → TimedOut e.timeout_quorums rost e.round (get_or order w who) w

  no_fault :
      (a b : Bool) (x y : Rejection)
      → (if not a then some x else if b then none else some y) ≡ none
      → (a ≡ true) × (b ≡ true)
  no_fault a b x y e = ground (arith, e)

  view_fault_sound :
      (who : ℕ) (e : Broadcast) (order : List ℕ) (m : Option ℤ) (roster : Option (List ℕ)) (z : ℤ)
      → view_fault ext who e order m roster (in_range ext z (length order)) ≡ none
      → ItsTurn who e order (or_roster ext roster order) z
  view_fault_sound who e order m roster (negsuc v) h = absurd (ground (arith, h))
  view_fault_sound who e order m roster (pos v) h = elim (Bool-cases (ltb v (length order))) [
    | inr l ↦ absurd (ground (arith, h, l))
    | inl l ↦
        let rost = or_roster ext roster order in
        let least = or_threshold ext m (length (roster_members ext rost)) in
        let h' : view_fault ext who e order m roster (turn v) ≡ none = ground (arith, h, l) in
        let (a, b) =
          no_fault (lower who == lower (get_or order v who))
            (views_timed_out ext e.timeout_quorums rost least e.round 0 v order) out_of_turn
            no_view_change_proof h' in
        record {
          view = v;
          at = refl;
          within = ground (arith, l);
          listed = ground (arith, a);
          timed_out = λ w k.
              let same : 0 + w ≡ w = omega arith in
              subst (TimedOut e.timeout_quorums rost e.round (get_or order w who)) same (
                views_timed_out_sound e.timeout_quorums rost least e.round 0 v order who
                  (ground (arith, l)) b w k);
        }
  ]

  -- A block that a candidate accepts in a view comes from the proposer that the agreed order lists
  -- at that view, and for every earlier view more than half of the roster's members signed that its
  -- proposer had timed out in this round.
  pub accept-ItsTurn :
      (e : Broadcast) (order unavailable : List ℕ) (m : Option ℤ) (roster : Option (List ℕ))
      (c c' : Chain) (z : ℤ)
      → accept ext e order unavailable m roster c ≡ (accepted, c')
      → e.view ≡ at_view z
      → (who : ℕ) × (recover_proposer ext e.claim ≡ some who)
        × ItsTurn who e order (or_roster ext roster order) z
  unfolding election_fault
  accept-ItsTurn e order unavailable m roster c c' z h v =
      let t = accept-Taken ext e order unavailable m roster c c' h in
      let f =
        subst (λ field. election_fault ext t.who e order unavailable m roster field ≡ none) v
          t.elected in
      (t.who, t.claimed, view_fault_sound t.who e order m roster z f)
