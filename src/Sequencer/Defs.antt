-- ===== src/Sequencer/Defs.antt =====
-- neura_l1/pool_sequencer.py: the auditor of the chain of round commitments, the failover
-- decision and the election of a proposer. Rounds are not negative.
use neurahash_miner.Base.{
  ℕ, ◌+◌, Bool, true, false, not, ◌&&◌, ◌==◌, leb, if◌then◌else◌, Option, none, some, present, List,
  [], ◌∷◌, Dict, lookup, contains, sorted_set,
}
use neurahash_miner.Signing.{Crypto, Envelope, verify_commitment}

-- A "round_commitment" record of the governance log. A missing field is none, and `signed` is
-- none as well where its envelope lacks a field.
pub record RoundRecord : Type 0 where
  pub round : ℕ
  pub signed : Option Envelope
  pub commit_id : Option ℕ
  pub prev_commit_id : Option ℕ
  pub proposer : Option ℕ

pub record Report : Type 0 where
  pub sig_failures : List ℕ
  pub id_mismatches : List ℕ
  pub chain_breaks : List ℕ
  pub duplicate_rounds : List ℕ
  pub round_gaps : List ℕ

abbrev pub eq_option : Option ℕ → Option ℕ → Bool
eq_option none none = true
eq_option (some a) (some b) = a == b
eq_option _ _ = false

abbrev pub is_empty : List ℕ → Bool
is_empty [] = true
is_empty (_ ∷ _) = false

-- `sorted(..., key=_rnd)`, which keeps the order of records of one round
unfoldable pub insert_record : RoundRecord → List RoundRecord → List RoundRecord
insert_record r [] = r ∷ []
insert_record r (q ∷ qs) = if leb r.round q.round then r ∷ q ∷ qs else q ∷ insert_record r qs

unfoldable pub sort_records : List RoundRecord → List RoundRecord
unfolding insert_record
sort_records [] = []
sort_records (r ∷ rs) = insert_record r (sort_records rs)

-- `if test: report[...].append(rnd)`, before what the later records append
abbrev pub report_if : Bool → ℕ → List ℕ → List ℕ
report_if test round rounds = if test then round ∷ rounds else rounds

-- `prev_round is not None and rnd != prev_round + 1`
abbrev pub is_gap : Option ℕ → ℕ → Bool
is_gap none round = false
is_gap (some p) round = not (round == p + 1)

module _ (crypto : Crypto) (expected_proposer : Option ℕ) (genesis_seed : ℕ) where
  unfoldable pub signature_ok : RoundRecord → Bool
  signature_ok r = elim r.signed [
    | none ↦ false
    | some e ↦ present (verify_commitment crypto e expected_proposer)
  ]

  unfoldable pub id_ok : RoundRecord → Bool
  id_ok r = elim r.signed [
    | none ↦ false
    | some e ↦ eq_option (some (crypto.commit_id e.commitment)) r.commit_id
  ]

  -- `prev_id if prev_id is not None else genesis_seed`
  abbrev pub expected_prev : Option ℕ → ℕ
  expected_prev none = genesis_seed
  expected_prev (some i) = i

  -- the loop of `verify_commitment_chain`, over the sorted records
  unfoldable pub audit_from : Option ℕ → Option ℕ → List ℕ → List RoundRecord → Report
  audit_from prev_id prev_round seen [] = record {
    sig_failures = [];
    id_mismatches = [];
    chain_breaks = [];
    duplicate_rounds = [];
    round_gaps = [];
  }
  audit_from prev_id prev_round seen (r ∷ rs) =
      let dup = contains r.round seen in
      let rest =
        audit_from (if dup then prev_id else r.commit_id) (if dup then prev_round else some r.round)
          (if dup then seen else r.round ∷ seen) rs in
      if dup then record rest { duplicate_rounds = r.round ∷ rest.duplicate_rounds } else record {
        sig_failures = report_if (not (signature_ok r)) r.round rest.sig_failures;
        id_mismatches = report_if (not (id_ok r)) r.round rest.id_mismatches;
        chain_breaks =
            report_if (not (eq_option r.prev_commit_id (some (expected_prev prev_id)))) r.round
              rest.chain_breaks;
        duplicate_rounds = rest.duplicate_rounds;
        round_gaps = report_if (is_gap prev_round r.round) r.round rest.round_gaps;
      }

  -- `report["ok"]`: gaps do not count
  unfoldable pub is_ok : Report → Bool
  is_ok p =
      is_empty p.sig_failures
      && (is_empty p.id_mismatches && (is_empty p.chain_breaks && is_empty p.duplicate_rounds))

  unfoldable pub verify_commitment_chain : List RoundRecord → Bool × Report
  verify_commitment_chain records =
      let report = audit_from none none [] (sort_records records) in (is_ok report, report)

-- what `takeover_decision` returns
pub record Decision : Type 0 where
  pub leader : Option ℕ
  pub leader_last_seen : Option ℕ
  pub leader_stale : Bool
  pub successor : Option ℕ
  pub would_take_over : Bool

-- `fresh`: seen, and at most `stale_after` rounds ago; a proposer seen in a later round is fresh
unfoldable pub fresh : Dict ℕ → ℕ → ℕ → ℕ → Bool
fresh last_seen current_round stale_after p = elim (lookup p last_seen) [
  | none ↦ false
  | some ls ↦ leb current_round (ls + stale_after)
]

-- `next((p for p in ranked if fresh(p)), None)`
unfoldable pub first_fresh : Dict ℕ → ℕ → ℕ → List ℕ → Option ℕ
first_fresh last_seen current_round stale_after [] = none
first_fresh last_seen current_round stale_after (p ∷ ps) =
    if fresh last_seen current_round stale_after p
    then some p
    else first_fresh last_seen current_round stale_after ps

-- `successor is not None and successor != leader`
abbrev pub taken_over : Option ℕ → ℕ → Bool
taken_over none leader = false
taken_over (some p) leader = not (p == leader)

unfoldable pub takeover_decision : List ℕ → Dict ℕ → ℕ → ℕ → Decision
takeover_decision [] last_seen current_round stale_after = record {
  leader = none;
  leader_last_seen = none;
  leader_stale = true;
  successor = none;
  would_take_over = false;
}
takeover_decision (leader ∷ ps) last_seen current_round stale_after =
    let successor = first_fresh last_seen current_round stale_after (leader ∷ ps) in
    record {
      leader = some leader;
      leader_last_seen = lookup leader last_seen;
      leader_stale = not (fresh last_seen current_round stale_after leader);
      successor = successor;
      would_take_over = taken_over successor leader;
    }

-- The ranking of `elect_proposer` over a key: ascending, equal keys by address. The key stands for
-- the bounded stake and the tag, which the consensus module computes.
unfoldable pub insert_ranked : (ℕ → ℕ) → ℕ → List ℕ → List ℕ
insert_ranked key a [] = a ∷ []
insert_ranked key a (b ∷ bs) =
    if leb (key a) (key b) then a ∷ b ∷ bs else b ∷ insert_ranked key a bs

unfoldable pub rank : (ℕ → ℕ) → List ℕ → List ℕ
unfolding insert_ranked
rank key [] = []
rank key (a ∷ as') = insert_ranked key a (rank key as')

abbrev pub first : List ℕ → Option ℕ
first [] = none
first (a ∷ _) = some a

unfoldable pub elect_proposer : (ℕ → ℕ) → List ℕ → Option ℕ × List ℕ
elect_proposer key roster = let ranked = rank key (sorted_set roster) in (first ranked, ranked)
