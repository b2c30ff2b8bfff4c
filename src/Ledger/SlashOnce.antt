-- ===== src/Ledger/SlashOnce.antt =====
-- The slash transactions of neura_l1/block_state.py: a fault is slashed once.
use neurahash_miner.Ledger.Punishment.{mem_fault-add_fault, faults-rest, keys-rest}
use neurahash_miner.Base.{
  lookup, ℕ, ◌≡◌, refl, ◌∙◌, ap, Option, none, some, ◌-ℤ◌, arith, Bool-cases, Option-cases, inl,
  inr, true,
}
use neurahash_miner.Signing.{
  EquivocationProof, Verdict, equivocation_by, not_equivocation, verify_equivocation,
}
use neurahash_miner.Ledger.Defs.{State, Tx, TxData, Fault, Vote, Externals}
use neurahash_miner.Ledger.Stake.{seize}
use neurahash_miner.Ledger.Slash.{
  equivocation_slashed, vote_fault_id, vote_fault_slashed, Reply, Note, ok, err, already_slashed,
  burn, punish, mem_fault, bounty_for, apply_slash, apply_vote_fault_slash,
  apply_equivocation_slash, slash_signer, registered_as,
}
use neurahash_miner.Ledger.Frame.{seize-SamePolicy}

module _ (ext : Externals) where
  -- what a slash that applies leaves behind
  abbrev Recorded : Fault → State → Reply × State → Type 0
  Recorded f s (ok _, t) = (mem_fault f t.slashed_faults ≡ true) × (t.keys ≡ s.keys)
  Recorded f s (err _, t) = Unit

  burn-Recorded :
      (n : Note) (tx : Tx) (v : ℕ) (f : Fault) (s : State) → Recorded f s (ok n, burn ext tx v f s)
  unfolding burn
  burn-Recorded n tx v f s =
      let (b, s') = seize v none s in
      let x = bounty_for ext tx b s' in
      (
        ap (mem_fault f) (faults-rest tx.sender x (b -ℤ x) f s')
            ∙ mem_fault-add_fault f s'.slashed_faults,
        keys-rest tx.sender x (b -ℤ x) f s' ∙ (seize-SamePolicy v none s).keys,
      )

  punish-Recorded :
      (n : Note) (tx : Tx) (v : ℕ) (f : Fault) (s : State) → Recorded f s (punish ext n tx v f s)
  unfolding punish
  punish-Recorded n tx v f s = elim (Bool-cases (mem_fault f s.slashed_faults)) [
    | inl e ↦ rw e (e, refl)
    | inr e ↦ rw e (burn-Recorded n tx v f s)
  ]

  -- applied once, a slash changes nothing when it is applied again
  abbrev Settled : (State → Reply × State) → Reply × State → Type 0
  Settled again (ok _, t) = again t ≡ (ok already_slashed, t)
  Settled again (err _, t) = Unit

  punish-known :
      (n : Note) (tx : Tx) (v : ℕ) (f : Fault) (t : State)
      → mem_fault f t.slashed_faults ≡ true
      → punish ext n tx v f t ≡ (ok already_slashed, t)
  unfolding punish
  punish-known n tx v f t m = rw m

  punish-Settled :
      (n : Note) (tx : Tx) (v : ℕ) (f : Fault) (s : State) (again : State → Reply × State)
      → ((t : State) → t.keys ≡ s.keys → again t ≡ punish ext n tx v f t)
      → Settled again (punish ext n tx v f s)
  punish-Settled n tx v f s again same = go (punish ext n tx v f s) (punish-Recorded n tx v f s)
    where
      go : (p : Reply × State) → Recorded f s p → Settled again p
      go (ok _, t) (m, k) = same t k ∙ punish-known n tx v f t m
      go (err _, t) r = tt

  vote_fault-guilty :
      (tx : Tx) (v reg : ℕ) (a b : Vote) (s : State)
      → lookup v s.keys ≡ some reg
      → ext.verify_vote_fault v a b reg ≡ true
      → apply_vote_fault_slash ext tx (some v) (some (a, b)) s
        ≡ punish ext vote_fault_slashed tx v (vote_fault_id a b) s
  unfolding apply_vote_fault_slash
  vote_fault-guilty tx v reg a b s e g = rw (e, apply_vote_fault_slash, g)

  vote_fault-Settled :
      (tx : Tx) (v : Option ℕ) (votes : Option (Vote × Vote)) (s : State)
      → Settled (apply_vote_fault_slash ext tx v votes) (apply_vote_fault_slash ext tx v votes s)
  unfolding apply_vote_fault_slash
  vote_fault-Settled tx none votes s = tt
  vote_fault-Settled tx (some v) none s = tt
  vote_fault-Settled tx (some v) (some (a, b)) s = elim (Option-cases (lookup v s.keys)) [
    | inl e ↦ rw (e, apply_vote_fault_slash) tt
    | inr (reg, e) ↦ elim (Bool-cases (ext.verify_vote_fault v a b reg)) [
      | inl g ↦ rw (vote_fault-guilty tx v reg a b s e g) (
          punish-Settled vote_fault_slashed tx v (vote_fault_id a b) s
            (apply_vote_fault_slash ext tx (some v) (some (a, b)))
            (λ t k. vote_fault-guilty tx v reg a b t (ap (lookup v) k ∙ e) g))
      | inr innocent ↦ rw (e, apply_vote_fault_slash, innocent) tt
    ]
  ]

  registered_as-keys :
      (proposer signer : ℕ) (s t : State)
      → t.keys ≡ s.keys
      → registered_as ext proposer signer t ≡ registered_as ext proposer signer s
  unfolding registered_as
  registered_as-keys proposer signer s t k = ground (arith, ap (lookup proposer) k)

  signer_fault : EquivocationProof → ℕ → Fault
  signer_fault proof signer =
      Fault.equivocation (ext.signing.lower signer) proof.a.commitment.height

  slash_signer-guilty :
      (tx : Tx) (proof : EquivocationProof) (proposer signer : ℕ) (s : State)
      → registered_as ext proposer signer s ≡ true
      → slash_signer ext tx proof proposer signer s
        ≡ punish ext equivocation_slashed tx proposer (signer_fault proof signer) s
  unfolding slash_signer signer_fault
  slash_signer-guilty tx proof proposer signer s g = rw g

  slash_signer-Settled :
      (tx : Tx) (proof : EquivocationProof) (proposer signer : ℕ) (s : State)
      → Settled
          (slash_signer ext tx proof proposer signer)
          (slash_signer ext tx proof proposer signer s)
  unfolding slash_signer
  slash_signer-Settled tx proof proposer signer s =
      elim (Bool-cases (registered_as ext proposer signer s)) [
        | inl g ↦ rw (slash_signer-guilty tx proof proposer signer s g) (
            punish-Settled equivocation_slashed tx proposer (signer_fault proof signer) s
              (slash_signer ext tx proof proposer signer)
              (λ t k.
                slash_signer-guilty tx proof proposer signer t
                  (registered_as-keys proposer signer s t k ∙ g)))
        | inr e ↦ rw (e, slash_signer) tt
      ]

  Settled-ext :
      (f g : State → Reply × State)
      → ((t : State) → f t ≡ g t)
      → (p : Reply × State) → Settled g p
      → Settled f p
  Settled-ext f g same (ok _, t) h = same t ∙ h
  Settled-ext f g same (err _, t) h = tt

  judged :
      (tx : Tx) (proof : EquivocationProof) (proposer signer : ℕ) (s : State)
      → verify_equivocation ext.signing proof none ≡ equivocation_by signer
      → apply_equivocation_slash ext tx (some proof) (some proposer) s
        ≡ slash_signer ext tx proof proposer signer s
  unfolding apply_equivocation_slash
  judged tx proof proposer signer s e = rw (e, apply_equivocation_slash)

  equivocation-Settled :
      (tx : Tx) (proof : Option EquivocationProof) (proposer : Option ℕ) (s : State)
      → Settled
          (apply_equivocation_slash ext tx proof proposer)
          (apply_equivocation_slash ext tx proof proposer s)
  unfolding apply_equivocation_slash
  equivocation-Settled tx none proposer s = tt
  equivocation-Settled tx (some proof) none s = tt
  equivocation-Settled tx (some proof) (some proposer) s =
      go (verify_equivocation ext.signing proof none) refl
    where
      go :
          (v : Verdict)
          → verify_equivocation ext.signing proof none ≡ v
          → Settled
              (apply_equivocation_slash ext tx (some proof) (some proposer))
              (apply_equivocation_slash ext tx (some proof) (some proposer) s)
      go (not_equivocation r) e = rw (e, apply_equivocation_slash) tt
      go (equivocation_by signer) e = rw (judged tx proof proposer signer s e) (
          Settled-ext (apply_equivocation_slash ext tx (some proof) (some proposer))
            (slash_signer ext tx proof proposer signer) (λ t. judged tx proof proposer signer t e)
            (slash_signer ext tx proof proposer signer s)
            (slash_signer-Settled tx proof proposer signer s))

  slash-Settled :
      (tx : Tx) (d : TxData) (s : State) → Settled (apply_slash ext tx d) (apply_slash ext tx d s)
  unfolding apply_slash
  slash-Settled tx (TxData.vote_fault v votes) s = vote_fault-Settled tx v votes s
  slash-Settled tx (TxData.equivocation proof proposer) s = equivocation-Settled tx proof proposer s
  slash-Settled tx _ s = equivocation-Settled tx none none s

  -- A slash that has applied changes nothing when it is included again, and is reported as done.
  pub apply_slash-twice :
      (tx : Tx) (d : TxData) (s t : State) (n : Note)
      → apply_slash ext tx d s ≡ (ok n, t)
      → apply_slash ext tx d t ≡ (ok already_slashed, t)
  apply_slash-twice tx d s t n e = rw e at (slash-Settled tx d s)
