-- ===== src/RoundAuthority/Defs.antt =====
-- neurahash/diloco_round_authority.py: proposer claims, timeout quorums, and a candidate's
-- acceptance of a block in a view.
use neurahash_miner.Ledger.Defs.{State}
use neurahash_miner.Base.{
  ℕ, zero, suc, ◌+◌, ◌/◌, Bool, true, false, not, ◌&&◌, ◌==◌, ltb, if◌then◌else◌, Option, none,
  some, List, [], ◌∷◌, ◌++◌, Dict, lookup, length, get_or, contains, sorted_set, ℤ, pos, negsuc,
  leb_ℤ,
}
use neurahash_miner.Guardian.Defs.{Recovery, normal_all, distinct_signers}
use neurahash_miner.Settlement.Multisig.{Proof, is_strict_majority}
use neurahash_miner.Settlement.Chain.{settle, Chain, Settled, Signer}
use neurahash_miner.Ledger.Blocks.{Outcome, applied, raised, apply_block}

-- what a timeout attestation binds: the round, the proposer that failed, and its view
pub record Timeout : Type 0 where
  pub round : ℕ
  pub failed_proposer : ℕ
  pub view : ℕ

-- a proposer's claim on a block; `signature` recovers over its own fields
pub record Claim : Type 0 where
  pub round : Option ℕ
  pub proposer : ℕ
  pub block_hash : ℕ
  pub sig : ℕ

-- the view field of an envelope: left out, no number, or a number
pub data ViewField : Type 0 where
  no_view malformed_view : ViewField
  at_view : ℤ → ViewField

-- A broadcast envelope. The block is none where its header does not parse, and the quorums are
-- keyed by the view that timed out.
pub record Broadcast : Type 0 where
  pub round : ℕ
  pub claim : Option Claim
  pub view : ViewField
  pub timeout_quorums : Dict (List ℕ)
  pub block : Option Settled

pub data Rejection : Type 0 where
  bad_claim bad_view view_out_of_range out_of_turn no_view_change_proof : Rejection
  malformed_header claim_not_bound round_mismatch not_our_head bad_coordinator_signature : Rejection
  not_the_coordinator block_does_not_apply : Rejection

pub data Acceptance : Type 0 where
  accepted : Acceptance
  rejected : Rejection → Acceptance

-- What the code takes from eth_account: what a settlement chain takes, the recovery of a timeout's
-- signer, and that of a claim's signer, over its round, its proposer's normal form and its hash, and
-- an account's signature on a claim's round and hash.
pub record Authority : Type 0 where
  pub chain : Signer
  pub timeouts : Recovery Timeout
  pub recover_claim : ℕ → ℕ → ℕ → ℕ → Option ℕ
  pub sign_claim : ℕ → ℕ → ℕ → ℕ

-- the view after the test of its range
pub data Turn : Type 0 where
  turn : ℕ → Turn
  no_turn : Rejection → Turn

module _ (ext : Authority) where
  open ext use {chain, timeouts, recover_claim, sign_claim}
  open chain use {ledger, hash, address, recover_bytes, lower}

  abbrev pub normal_names : List ℕ → List ℕ
  normal_names [] = []
  normal_names (a ∷ as') = lower a ∷ normal_names as'

  -- `elect_proposer`
  unfoldable pub elect_available : List ℕ → List ℕ → Option ℕ
  elect_available unavailable [] = none
  elect_available unavailable (a ∷ as') =
      if contains (lower a) (normal_names unavailable)
      then elect_available unavailable as'
      else some a

  abbrev pub claim_round : Option ℕ → ℕ → ℕ → ℕ → Option ℕ
  claim_round none p b sig = none
  claim_round (some r) p b sig = recover_claim r (lower p) b sig

  abbrev pub claimed_by : ℕ → Option ℕ → Option ℕ
  claimed_by p none = none
  claimed_by p (some rec) = if lower rec == lower p then some rec else none

  -- `some` the recovered address where the claim holds
  unfoldable pub recover_proposer : Option Claim → Option ℕ
  recover_proposer none = none
  recover_proposer (some c) =
      claimed_by c.proposer (claim_round c.round c.proposer c.block_hash c.sig)

  -- The source counts these in their lower case and has the guardian set drop white space around
  -- them; addresses have none, so that the two agree.
  abbrev pub roster_members : List ℕ → List ℕ
  roster_members roster = sorted_set (normal_all timeouts roster)

  -- `approved` of `verify_timeout_quorum`
  unfoldable pub verify_timeout_quorum : List ℕ → List ℕ → ℤ → Timeout → Bool
  verify_timeout_quorum sigs roster m timeout =
      let members = roster_members roster in
      is_strict_majority m (length members)
      && leb_ℤ m (
          pos (
            length (
              distinct_signers timeouts (record { members = members; threshold = m }) timeout
                sigs)))

  abbrev pub votes_for : ℕ → Dict (List ℕ) → List ℕ
  votes_for v quorums = elim (lookup v quorums) [ none ↦ [] | some sigs ↦ sigs ]

  -- `for v in range(view)`: from view `v`, over the proposers of the views below `view`
  unfoldable pub views_timed_out : Dict (List ℕ) → List ℕ → ℤ → ℕ → ℕ → ℕ → List ℕ → Bool
  views_timed_out quorums roster m round v zero order = true
  views_timed_out quorums roster m round v (suc n) [] = true
  views_timed_out quorums roster m round v (suc n) (p ∷ order) =
      verify_timeout_quorum (votes_for v quorums) roster m
        (record { round = round; failed_proposer = lower p; view = v })
      && views_timed_out quorums roster m round (v + 1) n order

  abbrev pub or_roster : Option (List ℕ) → List ℕ → List ℕ
  or_roster none order = order
  or_roster (some roster) order = roster

  abbrev pub or_threshold : Option ℤ → ℕ → ℤ
  or_threshold none n = pos (n / 2 + 1)
  or_threshold (some m) n = m

  abbrev pub in_range : ℤ → ℕ → Turn
  in_range (negsuc v) n = no_turn view_out_of_range
  in_range (pos v) n = if ltb v n then turn v else no_turn view_out_of_range

  -- the test of the election, in a view; none where it passes
  abbrev pub view_fault :
      ℕ → Broadcast → List ℕ → Option ℤ → Option (List ℕ) → Turn → Option Rejection
  view_fault who e order timeout_m roster (no_turn r) = some r
  view_fault who e order timeout_m roster (turn v) =
      let rost = or_roster roster order in
      if not (lower who == lower (get_or order v who))
      then some out_of_turn
      else if views_timed_out e.timeout_quorums rost
          (or_threshold timeout_m (length (roster_members rost))) e.round 0 v order
      then none
      else some no_view_change_proof

  abbrev pub legacy_fault : ℕ → Option ℕ → Option Rejection
  legacy_fault who none = some out_of_turn
  legacy_fault who (some p) = if lower who == lower p then none else some out_of_turn

  unfoldable pub election_fault :
      ℕ → Broadcast → List ℕ → List ℕ → Option ℤ → Option (List ℕ) → ViewField → Option Rejection
  election_fault who e order unavailable timeout_m roster no_view =
      legacy_fault who (elect_available unavailable order)
  election_fault who e order unavailable timeout_m roster malformed_view = some bad_view
  election_fault who e order unavailable timeout_m roster (at_view v) =
      view_fault who e order timeout_m roster (in_range v (length order))

  abbrev pub claim_hash : Option Claim → ℕ → Bool
  claim_hash none h = false
  claim_hash (some c) h = c.block_hash == h

  abbrev pub claim_at : Option Claim → ℕ → Bool
  claim_at none r = false
  claim_at (some c) r = elim c.round [ none ↦ false | some q ↦ q == r ]

  abbrev pub signature_fault : Chain → Option ℕ → Option Rejection
  signature_fault c none = some bad_coordinator_signature
  signature_fault c (some signer) =
      if lower signer == lower (address c.coord) then none else some not_the_coordinator

  -- the tests of the block itself; none where they pass
  unfoldable pub block_rejection : Broadcast → Settled → Chain → Option Rejection
  block_rejection e b c =
      if not (claim_hash e.claim (hash b.header))
      then some claim_not_bound
      else if not (e.round == b.header.height && claim_at e.claim b.header.height)
      then some round_mismatch
      else if not (b.header.prev_hash == c.head)
      then some not_our_head
      else signature_fault c (recover_bytes (hash b.header) b.sig)

  abbrev pub append_block : Chain → Settled → Outcome State → Acceptance × Chain
  append_block c b (raised x) = (rejected block_does_not_apply, c)
  append_block c b (applied s) =
      (accepted, record c { state = s; blocks = c.blocks ++ (b ∷ []); head = hash b.header })

  abbrev pub unless_rejected : Option Rejection → Chain → Acceptance × Chain → Acceptance × Chain
  unless_rejected none c r = r
  unless_rejected (some x) c r = (rejected x, c)

  abbrev pub accept_block : Broadcast → Option Settled → Chain → Acceptance × Chain
  accept_block e none c = (rejected malformed_header, c)
  accept_block e (some b) c = unless_rejected (block_rejection e b c) c (
      append_block c b
        (apply_block ledger c.state (record { header = b.header; txs = [] }) b.contributors))

  unfoldable pub accept :
      Broadcast → List ℕ → List ℕ → Option ℤ → Option (List ℕ) → Chain → Acceptance × Chain
  accept e order unavailable timeout_m roster c = elim (recover_proposer e.claim) [
    | none ↦ (rejected bad_claim, c)
    | some who ↦
        unless_rejected (election_fault who e order unavailable timeout_m roster e.view) c
          (accept_block e e.block c)
  ]

  -- `sign_proposer_claim`, of an account
  unfoldable pub sign_proposer_claim : ℕ → ℕ → ℕ → Claim
  sign_proposer_claim account r b = record {
    round = some r;
    proposer = address account;
    block_hash = b;
    sig = sign_claim account r b;
  }

  abbrev pub view_field : Option ℕ → ViewField
  view_field none = no_view
  view_field (some v) = at_view (pos v)

  abbrev pub quorums_field : Option ℕ → Dict (List ℕ) → Dict (List ℕ)
  quorums_field none quorums = []
  quorums_field (some v) quorums = quorums

  -- the envelope of a chain's last block, which `propose` has just settled
  abbrev pub envelope_of : ℕ → ℕ → Option ℕ → Dict (List ℕ) → List Settled → Option Broadcast
  envelope_of identity r view quorums [] = none
  envelope_of identity r view quorums (b ∷ []) = some record {
    round = r;
    claim = some (sign_proposer_claim identity r (hash b.header));
    view = view_field view;
    timeout_quorums = quorums_field view quorums;
    block = some b;
  }
  envelope_of identity r view quorums (b ∷ (b' ∷ bs)) =
      envelope_of identity r view quorums (b' ∷ bs)

  abbrev pub sent :
      ℕ → ℕ → Option ℕ → Dict (List ℕ) → Outcome Chain → Outcome (Option Broadcast × Chain)
  sent identity r view quorums (raised e) = raised e
  sent identity r view quorums (applied c) =
      applied (envelope_of identity r view quorums c.blocks, c)

  -- `Candidate.propose`, by the account `identity` and on its chain: the chain settled and the
  -- envelope of its last block, or what `settle` raised
  unfoldable pub propose :
      ℕ
      → ℕ
      → ℕ
      → ℤ
      → ℕ
      → Option Proof
      → ℕ
      → Option ℕ
      → Dict (List ℕ)
      → Chain
      → Outcome (Option Broadcast × Chain)
  propose identity r height reward recipient quorum timestamp view quorums c =
      sent identity r view quorums
        (settle chain height reward ((recipient, pos 1) ∷ []) timestamp quorum c)
