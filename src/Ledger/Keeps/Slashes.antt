-- ===== src/Ledger/Keeps/Slashes.antt =====
-- `_apply_slash` of neura_l1/block_state.py moves amounts, and neither makes nor destroys them.
use neurahash_miner.Ledger.Keeps.{credit, IsBounty, Keeps, Keeps-refl}
use neurahash_miner.Ledger.Frame.{seize-SamePolicy}
use neurahash_miner.Ledger.Stake.{credit}
use neurahash_miner.Base.{
  refl, ◌∙◌, ℕ, ◌≡◌, Option, none, some, ℤ, pos, ◌+ℤ◌, ◌-ℤ◌, ◌≤ℤ◌, int_laws, parts, leb_of_ltb,
  arith, Bool-cases, inl, inr, ltb_ℤ,
}
use neurahash_miner.Signing.{
  EquivocationProof, Verdict, equivocation_by, not_equivocation, verify_equivocation,
}
use neurahash_miner.Ledger.Defs.{State, Tx, TxData, Fault, Vote, Externals}
use neurahash_miner.Ledger.Stake.{seize}
use neurahash_miner.Ledger.Slash.{
  Reply, err, Note, invalid_proof, vote_fault_slashed, equivocation_slashed, vote_fault_id, burn,
  punish, mem_fault, slash_signer, apply_vote_fault_slash, apply_equivocation_slash, apply_slash,
  reporter_bounty_ok, bounty_for, pay_bounty, close_slash,
}
use neurahash_miner.Ledger.Worth.{holdings, worth, worth-seize, worth-credit}
use neurahash_miner.Ledger.Solvency.{IsSolvent, seize-IsSolvent, credit-IsSolvent}

pay_bounty-worth :
    (a : ℕ) (b : ℤ) (s : State)
    → pos 0 ≤ℤ b
    → IsSolvent s
    → IsSolvent (pay_bounty a b s) × (worth (pay_bounty a b s) ≡ worth s +ℤ b)
unfolding pay_bounty
pay_bounty-worth a b s p h = elim (Bool-cases (ltb_ℤ (pos 0) b)) [
  | inl e ↦ rw e (credit-IsSolvent a b s p h, worth-credit a b s)
  | inr e ↦ rw e (h, omega (int_laws, leb_of_ltb (pos 0) b e))
]

close_slash-worth :
    (f : Fault) (b : ℤ) (s : State)
    → pos 0 ≤ℤ b
    → IsSolvent s
    → IsSolvent (close_slash f b s) × (worth (close_slash f b s) ≡ worth s +ℤ b)
unfolding close_slash worth holdings
close_slash-worth f b s p h = (
  record {
    liquid = h.liquid;
    bonded = h.bonded;
    withdrawing = h.withdrawing;
    treasury = omega (int_laws, h.treasury);
  },
  omega int_laws,
)

pay_bounty-minted : (a : ℕ) (b : ℤ) (s : State) → (pay_bounty a b s).minted ≡ s.minted
unfolding pay_bounty credit
pay_bounty-minted a b s = ground arith

close_slash-minted : (f : Fault) (b : ℤ) (s : State) → (close_slash f b s).minted ≡ s.minted
unfolding close_slash
close_slash-minted f b s = refl

module _ (ext : Externals) (fair : IsBounty ext) where
  bounty_for-bounds :
      (tx : Tx) (b : ℤ) (s : State)
      → pos 0 ≤ℤ b
      → (pos 0 ≤ℤ bounty_for ext tx b s) × (bounty_for ext tx b s ≤ℤ b)
  unfolding bounty_for
  bounty_for-bounds tx b s p = elim (Bool-cases (reporter_bounty_ok ext tx s)) [
    | inl e ↦ rw e (fair.at_least b p, fair.at_most b p)
    | inr e ↦ rw e (omega arith, p)
  ]

  burn-Keeps : (tx : Tx) (v : ℕ) (f : Fault) (s : State) → IsSolvent s → Keeps s (burn ext tx v f s)
  unfolding burn
  burn-Keeps tx v f s h =
      let (b, s') = seize v none s in
      let (p, h') = seize-IsSolvent v none s h in
      let (q, r) = bounty_for-bounds tx b s' p in
      let x = bounty_for ext tx b s' in
      let (h'', e) = pay_bounty-worth tx.sender x s' q h' in
      let (h3, e') =
        close_slash-worth f (b -ℤ x) (pay_bounty tx.sender x s') (omega int_laws) h'' in
      record {
        solvent = h3;
        same = omega (int_laws, parts e, parts e', parts (worth-seize v none s));
        minted =
            close_slash-minted f (b -ℤ x) (pay_bounty tx.sender x s')
            ∙ pay_bounty-minted tx.sender x s'
            ∙ (seize-SamePolicy v none s).minted;
      }

  punish-Keeps :
      (note : Note) (tx : Tx) (v : ℕ) (f : Fault) (s : State)
      → IsSolvent s
      → Keeps s (punish ext note tx v f s).1
  unfolding punish
  punish-Keeps note tx v f s h = elim (Bool-cases (mem_fault f s.slashed_faults)) [
    | inl e ↦ rw e (Keeps-refl s h)
    | inr e ↦ rw e (burn-Keeps tx v f s h)
  ]

  vote_fault-Keeps :
      (tx : Tx) (v : Option ℕ) (votes : Option (Vote × Vote)) (s : State)
      → IsSolvent s
      → Keeps s (apply_vote_fault_slash ext tx v votes s).1
  unfolding apply_vote_fault_slash
  vote_fault-Keeps tx none votes s h = Keeps-refl s h
  vote_fault-Keeps tx (some v) none s h = Keeps-refl s h
  vote_fault-Keeps tx (some v) (some (a, b)) s h =
      ground (arith, Keeps-refl s h, punish-Keeps vote_fault_slashed tx v (vote_fault_id a b) s h)

  slash_signer-Keeps :
      (tx : Tx) (proof : EquivocationProof) (proposer signer : ℕ) (s : State)
      → IsSolvent s
      → Keeps s (slash_signer ext tx proof proposer signer s).1
  unfolding slash_signer
  slash_signer-Keeps tx proof proposer signer s h =
      let fault = Fault.equivocation (ext.signing.lower signer) proof.a.commitment.height in
      ground (arith, Keeps-refl s h, punish-Keeps equivocation_slashed tx proposer fault s h)

  equivocation-Keeps :
      (tx : Tx) (proof : Option EquivocationProof) (proposer : Option ℕ) (s : State)
      → IsSolvent s
      → Keeps s (apply_equivocation_slash ext tx proof proposer s).1
  unfolding apply_equivocation_slash
  equivocation-Keeps tx none proposer s h = Keeps-refl s h
  equivocation-Keeps tx (some proof) none s h = Keeps-refl s h
  equivocation-Keeps tx (some proof) (some proposer) s h =
      go (verify_equivocation ext.signing proof none)
    where
      go :
          (v : Verdict)
          → Keeps s
              (elim v as (λ _. Reply × State) [
                | not_equivocation _ ↦ (err invalid_proof, s)
                | equivocation_by signer ↦ slash_signer ext tx proof proposer signer s
              ]).1
      go (not_equivocation _) = Keeps-refl s h
      go (equivocation_by signer) = slash_signer-Keeps tx proof proposer signer s h

  pub apply_slash-Keeps :
      (tx : Tx) (d : TxData) (s : State) → IsSolvent s → Keeps s (apply_slash ext tx d s).1
  unfolding apply_slash
  apply_slash-Keeps tx (TxData.vote_fault v votes) s h = vote_fault-Keeps tx v votes s h
  apply_slash-Keeps tx (TxData.equivocation proof proposer) s h =
      equivocation-Keeps tx proof proposer s h
  apply_slash-Keeps tx _ s h = equivocation-Keeps tx none none s h
