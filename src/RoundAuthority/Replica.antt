-- ===== src/RoundAuthority/Replica.antt =====
-- neurahash/diloco_round_authority.py: what a candidate accepts replays, and a proposer's own
-- envelope brings another replica to the proposer's chain.
use neurahash_miner.Settlement.Multisig.{Proof}
use neurahash_miner.RoundAuthority.Takeover.{accept-Taken, accept_rejected}
use mathlib.Core.Path.{ap, sym, subst}
use neurahash_miner.Settlement.Replay.{extended_inv, replay_from-append, Replays}
use neurahash_miner.Ledger.Blocks.{raised, Outcome, applied, apply_block}
use neurahash_miner.Ledger.Defs.{init_state, State}
use neurahash_miner.Base.{
  pos, refl, ◌++◌, some, Dict, ◌∙◌, false, inr, ◌∷◌, arith, inl, [], Option-cases, none, ℤ, ◌≡◌,
  Option, ℕ, List,
}
use neurahash_miner.Settlement.Chain.{
  extended, positive_weights, settle_header, settle, genesis_prev_hash, whole, Settled, Chain,
  block_fault, replay_from,
}
use neurahash_miner.RoundAuthority.Defs.{
  sent, election_fault, propose, quorums_field, view_field, envelope_of, recover_proposer,
  sign_proposer_claim, accepted, rejected, accept, Acceptance, block_rejection, Broadcast,
  Authority,
}

module _ (ext : Authority) where
  open ext use {chain, timeouts, recover_claim, sign_claim}
  open chain use {ledger, hash, address, sign, recover_bytes, lower}

  tested_block :
      (e : Broadcast) (b : Settled) (c : Chain)
      → block_rejection ext e b c ≡ none
      → block_fault chain none (address c.coord) c.head b ≡ none
  unfolding block_rejection block_fault
  tested_block e b c h = elim (Option-cases (recover_bytes (hash b.header) b.sig)) [
    | inl r ↦ ground (arith, h, r)
    | inr (who, r) ↦ ground (arith, h, r)
  ]

  tested_replays :
      (c : Chain) (b : Settled) (s : State)
      → block_fault chain none (address c.coord) c.head b ≡ none
      → apply_block ledger c.state (record { header = b.header; txs = [] }) b.contributors
        ≡ applied s
      → replay_from chain none (address c.coord) (b ∷ []) c.state c.head ≡ whole s (hash b.header)
  unfolding replay_from
  tested_replays c b s f a = ground (arith, f, a)

  -- A chain that replays whole, to its own state and head, still does after every envelope a
  -- candidate accepts or rejects, whatever the envelope holds.
  pub accept-Replays :
      (e : Broadcast) (order unavailable : List ℕ) (m : Option ℤ) (roster : Option (List ℕ))
      (c c' : Chain) (a : Acceptance)
      → accept ext e order unavailable m roster c ≡ (a, c')
      → Replays chain c
      → Replays chain c'
  accept-Replays e order unavailable m roster c c' (rejected x) h r =
      subst (Replays chain) (sym (accept_rejected ext e order unavailable m roster c c' x h)) r
  accept-Replays e order unavailable m roster c c' accepted h r =
      let t = accept-Taken ext e order unavailable m roster c c' h in
      subst (Replays chain) t.made (
        replay_from-append chain none (address c.coord) c.blocks (t.block ∷ [])
          (init_state c.genesis_checkpoint false false) c.state genesis_prev_hash c.head r
        ∙ tested_replays c t.block t.state (tested_block e t.block c t.tested) t.runs)

  -- the envelope of one block
  abbrev envelope : ℕ → ℕ → Option ℕ → Dict (List ℕ) → Settled → Broadcast
  envelope identity r view quorums b = record {
    round = r;
    claim = some (sign_proposer_claim ext identity r (hash b.header));
    view = view_field ext view;
    timeout_quorums = quorums_field ext view quorums;
    block = some b;
  }

  envelope_of-last :
      (identity r : ℕ) (view : Option ℕ) (quorums : Dict (List ℕ)) (bs : List Settled) (b : Settled)
      → envelope_of ext identity r view quorums (bs ++ (b ∷ []))
        ≡ some (envelope identity r view quorums b)
  envelope_of-last identity r view quorums [] b = refl
  envelope_of-last identity r view quorums (b' ∷ []) b = refl
  envelope_of-last identity r view quorums (b' ∷ (b'' ∷ bs)) b =
      envelope_of-last identity r view quorums (b'' ∷ bs) b

  same_some : (e e' : Broadcast) → (some e ≡ some e') → e ≡ e'
  same_some e e' h = ground (arith, h)

  own_claim :
      (identity r h : ℕ)
      → recover_claim r (lower (address identity)) h (sign_claim identity r h)
        ≡ some (address identity)
      → recover_proposer ext (some (sign_proposer_claim ext identity r h)) ≡ some (address identity)
  unfolding recover_proposer sign_proposer_claim
  own_claim identity r h e = ground (arith, e)

  own_block :
      (identity : ℕ) (view : Option ℕ) (quorums : Dict (List ℕ)) (b : Settled) (c : Chain)
      → b.header.prev_hash ≡ c.head
      → recover_bytes (hash b.header) b.sig ≡ some (address c.coord)
      → block_rejection ext (envelope identity b.header.height view quorums b) b c ≡ none
  unfolding block_rejection sign_proposer_claim
  own_block identity view quorums b c p r = ground (arith, p, r)

  accepted_by :
      (e : Broadcast) (order unavailable : List ℕ) (m : Option ℤ) (roster : Option (List ℕ))
      (c : Chain) (who : ℕ) (b : Settled) (s : State)
      → recover_proposer ext e.claim ≡ some who
      → election_fault ext who e order unavailable m roster e.view ≡ none
      → e.block ≡ some b
      → block_rejection ext e b c ≡ none
      → apply_block ledger c.state (record { header = b.header; txs = [] }) b.contributors
        ≡ applied s
      → accept ext e order unavailable m roster c
        ≡ (accepted, record c { state = s; head = hash b.header; blocks = c.blocks ++ (b ∷ []) })
  unfolding accept
  accepted_by e order unavailable m roster c who b s p f q g a = ground (arith, p, f, q, g, a)

  proposed_inv :
      (identity r : ℕ) (view : Option ℕ) (quorums : Dict (List ℕ)) (o : Outcome Chain)
      (e : Broadcast) (c' : Chain)
      → sent ext identity r view quorums o ≡ applied (some e, c')
      → (o ≡ applied c') × (envelope_of ext identity r view quorums c'.blocks ≡ some e)
  proposed_inv identity r view quorums (raised x) e c' h = absurd (ground (arith, h))
  proposed_inv identity r view quorums (applied d) e c' h =
      let same : d ≡ c' = ground (arith, h) in
      (
        ap applied same,
        subst (λ k. envelope_of ext identity r view quorums k.blocks ≡ some e) same
            (ground (arith, h)),
      )

  -- A proposer's own envelope, settled at the round's height, is accepted by every replica that
  -- holds the same chain and elects the proposer, and brings it to the proposer's chain, where
  -- signatures recover to their accounts.
  pub accept-propose :
      (identity r : ℕ) (reward : ℤ) (recipient : ℕ) (quorum : Option Proof) (timestamp : ℕ)
      (view : Option ℕ) (quorums : Dict (List ℕ)) (order unavailable : List ℕ) (m : Option ℤ)
      (roster : Option (List ℕ)) (c c' : Chain) (e : Broadcast)
      → ((account digest : ℕ) → recover_bytes digest (sign account digest) ≡ some (address account))
      → ((account digest : ℕ)
          → recover_claim r (lower (address account)) digest (sign_claim account r digest)
            ≡ some (address account))
      → propose ext identity r r reward recipient quorum timestamp view quorums c
        ≡ applied (some e, c')
      → election_fault ext (address identity) e order unavailable m roster e.view ≡ none
      → accept ext e order unavailable m roster c ≡ (accepted, c')
  unfolding propose settle
  accept-propose identity r reward recipient quorum timestamp view quorums order unavailable m
        roster c c' e rb rc h f =
      let header =
        settle_header chain c r reward (positive_weights ((recipient, pos 1) ∷ [])) timestamp
          quorum in
      let contributors = positive_weights ((recipient, pos 1) ∷ []) in
      let b : Settled = record {
        header = header;
        contributors = contributors;
        sig = sign c.coord (hash header);
        quorum = quorum;
      } in
      let o = apply_block ledger c.state (record { header = header; txs = [] }) contributors in
      let (p, q) = proposed_inv identity r view quorums (extended chain c b o) e c' h in
      let (s, a, k) = extended_inv chain c b o c' p in
      let env = envelope identity r view quorums b in
      let last = subst (λ d. envelope_of ext identity r view quorums d.blocks ≡ some e) (sym k) q in
      let se = same_some env e (sym (envelope_of-last identity r view quorums c.blocks b) ∙ last) in
      accepted_by e order unavailable m roster c (address identity) b s
        (subst (λ x. recover_proposer ext x.claim ≡ some (address identity)) se
          (own_claim identity r (hash header) (rc identity (hash header))))
        f (subst (λ x. x.block ≡ some b) se refl)
        (subst (λ x. block_rejection ext x b c ≡ none) se
          (own_block identity view quorums b c refl (rb c.coord (hash header))))
        a
      ∙ ap (λ d. (accepted, d)) k
