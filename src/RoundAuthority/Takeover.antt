-- ===== src/RoundAuthority/Takeover.antt =====
-- neurahash/diloco_round_authority.py: who a candidate accepts a block from, and what it does to
-- the candidate's chain.
use neurahash_miner.Ledger.Defs.{State}
use neurahash_miner.Ledger.Blocks.{raised, apply_block, applied, Outcome}
use neurahash_miner.Base.{
  ap, inr, inl, ◌∙◌, Option-cases, sym, refl, [], ◌∷◌, ◌++◌, arith, none, some, ℤ, ◌≡◌, ℕ, List,
  Option,
}
use neurahash_miner.Settlement.Chain.{Settled, Chain}
use neurahash_miner.RoundAuthority.Defs.{
  bad_claim, rejected, accept, block_rejection, election_fault, append_block, recover_proposer,
  accepted, unless_rejected, accept_block, Acceptance, Rejection, Broadcast, Authority,
}

module _ (ext : Authority) where
  open ext use {chain, timeouts, recover_claim}
  open chain use {ledger, hash, address, recover_bytes, lower}

  -- what the candidate found before it took a block in
  pub record Taken (e : Broadcast) (order unavailable : List ℕ) (m : Option ℤ)
      (roster : Option (List ℕ)) (c c' : Chain) : Type 0 where
    pub who : ℕ
    pub block : Settled
    pub state : State
    pub claimed : recover_proposer ext e.claim ≡ some who
    pub elected : election_fault ext who e order unavailable m roster e.view ≡ none
    pub sent : e.block ≡ some block
    pub tested : block_rejection ext e block c ≡ none
    pub runs :
        apply_block ledger c.state (record { header = block.header; txs = [] }) block.contributors
        ≡ applied state
    pub made :
        record c { state = state; blocks = c.blocks ++ (block ∷ []); head = hash block.header } ≡ c'

  unless_rejected_inv :
      (f : Option Rejection) (c c' : Chain) (r : Acceptance × Chain)
      → unless_rejected ext f c r ≡ (accepted, c')
      → (f ≡ none) × (r ≡ (accepted, c'))
  unless_rejected_inv none c c' r e = (refl, e)
  unless_rejected_inv (some x) c c' r e = absurd (ground (arith, e))

  append_block_inv :
      (c c' : Chain) (b : Settled) (o : Outcome State)
      → append_block ext c b o ≡ (accepted, c')
      → (s : State) × (o ≡ applied s)
        × (record c { state = s; blocks = c.blocks ++ (b ∷ []); head = hash b.header } ≡ c')
  append_block_inv c c' b (raised x) e = absurd (ground (arith, e))
  append_block_inv c c' b (applied s) e = (s, refl, ground (arith, e))

  accept_block_inv :
      (e : Broadcast) (o : Option Settled) (c c' : Chain)
      → accept_block ext e o c ≡ (accepted, c')
      → (b : Settled) × (o ≡ some b)
        × (block_rejection ext e b c ≡ none)
        × (s : State) × (apply_block ledger c.state
              (record { header = b.header; txs = [] })
              b.contributors
            ≡ applied s)
        × (record c { state = s; blocks = c.blocks ++ (b ∷ []); head = hash b.header } ≡ c')
  accept_block_inv e none c c' h = absurd (ground (arith, h))
  accept_block_inv e (some b) c c' h =
      let o = apply_block ledger c.state (record { header = b.header; txs = [] }) b.contributors in
      let (f, g) =
        unless_rejected_inv (block_rejection ext e b c) c c' (append_block ext c b o) h in
      let (s, p, q) = append_block_inv c c' b o g in (b, refl, f, s, p, q)

  abbrev proposed :
      Broadcast
      → List ℕ
      → List ℕ
      → Option ℤ
      → Option (List ℕ)
      → Chain
      → Option ℕ
      → Acceptance × Chain
  proposed e order unavailable m roster c none = (rejected bad_claim, c)
  proposed e order unavailable m roster c (some who) =
      unless_rejected ext (election_fault ext who e order unavailable m roster e.view) c
        (accept_block ext e e.block c)

  accept-proposed :
      (e : Broadcast) (order unavailable : List ℕ) (m : Option ℤ) (roster : Option (List ℕ))
      (c : Chain)
      → accept ext e order unavailable m roster c
        ≡ proposed e order unavailable m roster c (recover_proposer ext e.claim)
  unfolding accept
  accept-proposed e order unavailable m roster c =
      elim (Option-cases (recover_proposer ext e.claim)) [
        | inl h ↦ ground (arith, h)
        | inr (who, h) ↦ ground (arith, h)
      ]

  taken :
      (e : Broadcast) (order unavailable : List ℕ) (m : Option ℤ) (roster : Option (List ℕ))
      (c c' : Chain) (o : Option ℕ)
      → recover_proposer ext e.claim ≡ o
      → proposed e order unavailable m roster c o ≡ (accepted, c')
      → Taken e order unavailable m roster c c'
  taken e order unavailable m roster c c' none h k = absurd (ground (arith, k))
  taken e order unavailable m roster c c' (some who) h k =
      let (f, g) =
        unless_rejected_inv (election_fault ext who e order unavailable m roster e.view) c c'
          (accept_block ext e e.block c) k in
      let (b, p, q, s, r, t) = accept_block_inv e e.block c c' g in
      record {
        who = who;
        block = b;
        state = s;
        claimed = h;
        elected = f;
        sent = p;
        tested = q;
        runs = r;
        made = t;
      }

  pub accept-Taken :
      (e : Broadcast) (order unavailable : List ℕ) (m : Option ℤ) (roster : Option (List ℕ))
      (c c' : Chain)
      → accept ext e order unavailable m roster c ≡ (accepted, c')
      → Taken e order unavailable m roster c c'
  accept-Taken e order unavailable m roster c c' h =
      taken e order unavailable m roster c c' (recover_proposer ext e.claim) refl
        (sym (accept-proposed e order unavailable m roster c) ∙ h)

  unless_rejected-keeps :
      (f : Option Rejection) (c c' : Chain) (x : Rejection) (r : Acceptance × Chain)
      → (r ≡ (rejected x, c') → c' ≡ c)
      → unless_rejected ext f c r ≡ (rejected x, c')
      → c' ≡ c
  unless_rejected-keeps none c c' x r k e = k e
  unless_rejected-keeps (some y) c c' x r k e = sym (ap (λ p. p.1) e)

  append_block-keeps :
      (c c' : Chain) (b : Settled) (x : Rejection) (o : Outcome State)
      → append_block ext c b o ≡ (rejected x, c')
      → c' ≡ c
  append_block-keeps c c' b x (raised y) e = sym (ap (λ p. p.1) e)
  append_block-keeps c c' b x (applied s) e = absurd (ground (arith, e))

  accept_block-keeps :
      (e : Broadcast) (c c' : Chain) (x : Rejection) (o : Option Settled)
      → accept_block ext e o c ≡ (rejected x, c')
      → c' ≡ c
  accept_block-keeps e c c' x none h = sym (ap (λ p. p.1) h)
  accept_block-keeps e c c' x (some b) h =
      let o = apply_block ledger c.state (record { header = b.header; txs = [] }) b.contributors in
      unless_rejected-keeps (block_rejection ext e b c) c c' x (append_block ext c b o)
        (append_block-keeps c c' b x o) h

  proposed-keeps :
      (e : Broadcast) (order unavailable : List ℕ) (m : Option ℤ) (roster : Option (List ℕ))
      (c c' : Chain) (x : Rejection) (o : Option ℕ)
      → proposed e order unavailable m roster c o ≡ (rejected x, c')
      → c' ≡ c
  proposed-keeps e order unavailable m roster c c' x none h = sym (ap (λ p. p.1) h)
  proposed-keeps e order unavailable m roster c c' x (some who) h =
      unless_rejected-keeps (election_fault ext who e order unavailable m roster e.view) c c' x
        (accept_block ext e e.block c) (accept_block-keeps e c c' x e.block) h

  -- An envelope that a candidate rejects, for whatever reason, leaves its chain as it was.
  pub accept_rejected :
      (e : Broadcast) (order unavailable : List ℕ) (m : Option ℤ) (roster : Option (List ℕ))
      (c c' : Chain) (x : Rejection)
      → accept ext e order unavailable m roster c ≡ (rejected x, c')
      → c' ≡ c
  accept_rejected e order unavailable m roster c c' x h =
      proposed-keeps e order unavailable m roster c c' x (recover_proposer ext e.claim)
        (sym (accept-proposed e order unavailable m roster c) ∙ h)
