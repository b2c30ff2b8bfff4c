-- ===== src/Ledger/Replay.antt =====
-- Refusals, nonces and replays in `apply_tx` of neura_l1/block_state.py.
use neurahash_miner.Base.{
  get-insert, +ℤ_parts, ℕ, ◌≡◌, refl, ◌∙◌, ap, Option, ℤ, pos, ◌+ℤ◌, arith, eq_of_parts, ==_iff,
  Bool-cases, Option-cases, inl, inr, if_intro, insert, get, ltb_ℤ, eq_ℤ, if◌then◌else◌, ◌==◌, true,
  false,
}
use neurahash_miner.Ledger.Defs.{
  Fault, State, Tx, TxData, Kind, Float, finite, infinite, nan, Externals,
}
use neurahash_miner.Ledger.Stake.{credit, debit}
use neurahash_miner.Ledger.Slash.{
  Reply, Note, Refusal, ok, err, bad_nonce, punish, apply_slash, apply_vote_fault_slash,
  apply_equivocation_slash, slash_signer,
}
use neurahash_miner.Ledger.Transition.{
  apply_transfer, apply_stake, apply_unstake, apply_upgrade_signal, apply_kind, apply_ordinary,
  apply_tx, authenticate, is_slash, bump_nonce, bond, queue_unstake,
}

-- What the reply promises of the state that comes with it.
abbrev IsAtomic : State → Reply × State → Type 0
IsAtomic s (ok _, t) = Unit
IsAtomic s (err _, t) = t ≡ s

module _ (ext : Externals) where
  punish-IsAtomic :
      (n : Note) (tx : Tx) (v : ℕ) (f : Fault) (s : State) → IsAtomic s (punish ext n tx v f s)
  unfolding punish
  punish-IsAtomic n tx v f s = ground arith

  apply_slash-IsAtomic : (tx : Tx) (d : TxData) (s : State) → IsAtomic s (apply_slash ext tx d s)
  unfolding apply_slash apply_vote_fault_slash apply_equivocation_slash slash_signer punish
  apply_slash-IsAtomic tx (TxData.vote_fault v votes) s = ground arith
  apply_slash-IsAtomic tx _ s = ground arith

  apply_kind-IsAtomic :
      (tx : Tx) (kind : Kind) (amt : ℤ) (h : Option ℕ) (s : State)
      → IsAtomic s (apply_kind ext tx kind amt h s)
  unfolding apply_kind apply_transfer apply_stake apply_unstake apply_upgrade_signal
  apply_kind-IsAtomic tx Kind.slash amt h s = apply_slash-IsAtomic tx tx.payload s
  apply_kind-IsAtomic tx _ amt h s = ground arith

  apply_tx-IsAtomic : (tx : Tx) (h : Option ℕ) (s : State) → IsAtomic s (apply_tx ext tx h s)
  unfolding apply_tx apply_ordinary
  apply_tx-IsAtomic tx h s = go tx.amount refl
    where
      go : (f : Float) → tx.amount ≡ f → IsAtomic s (apply_tx ext tx h s)
      go (finite amt) e =
          rw (e, apply_tx)
            (ground
              (arith, apply_slash-IsAtomic tx tx.payload s, apply_kind-IsAtomic tx tx.kind amt h s))
      go infinite e = rw (e, apply_tx) refl
      go nan e = rw (e, apply_tx) refl

  -- A transaction that is refused, for whatever reason, leaves the state as it was.
  pub apply_tx-refused :
      (tx : Tx) (h : Option ℕ) (s t : State) (r : Refusal)
      → apply_tx ext tx h s ≡ (err r, t)
      → t ≡ s
  apply_tx-refused tx h s t r e = rw e at (apply_tx-IsAtomic tx h s)

  -- What an ordinary transaction that applies does to the nonces.
  abbrev Bumps : Tx → State → Reply × State → Type 0
  Bumps tx s (ok _, t) = t.nonces ≡ insert tx.sender (tx.nonce +ℤ pos 1) s.nonces
  Bumps tx s (err _, t) = Unit

  apply_kind-Bumps :
      (tx : Tx) (kind : Kind) (amt : ℤ) (h : Option ℕ) (s : State)
      → is_slash kind ≡ false
      → Bumps tx s (apply_kind ext tx kind amt h s)
  unfolding apply_kind apply_transfer apply_stake apply_unstake apply_upgrade_signal is_slash
      bump_nonce credit debit bond queue_unstake
  apply_kind-Bumps tx Kind.slash amt h s k = cc
  apply_kind-Bumps tx _ amt h s k = ground arith

  -- The sender's nonce was the transaction's, and is the next one afterwards.
  abbrev Advances : Tx → State → Reply × State → Type 0
  Advances tx s (ok _, t) =
      (tx.nonce ≡ get tx.sender s.nonces)
      × (t.nonces ≡ insert tx.sender (tx.nonce +ℤ pos 1) s.nonces)
  Advances tx s (err _, t) = Unit

  Advances-of_Bumps :
      (tx : Tx) (s : State) (r : Reply × State)
      → eq_ℤ tx.nonce (get tx.sender s.nonces) ≡ true
      → Bumps tx s r
      → Advances tx s r
  Advances-of_Bumps tx s (ok _, t) e b =
      (eq_of_parts tx.nonce (get tx.sender s.nonces) ((==_iff _ _).0 e), b)
  Advances-of_Bumps tx s (err _, t) e b = tt

  apply_ordinary-Advances :
      (tx : Tx) (amt : ℤ) (h : Option ℕ) (s : State)
      → is_slash tx.kind ≡ false
      → Advances tx s (apply_ordinary ext tx amt h s)
  unfolding apply_ordinary
  apply_ordinary-Advances tx amt h s k =
      elim (Bool-cases (eq_ℤ tx.nonce (get tx.sender s.nonces))) [
        | inl same ↦ elim (Option-cases (authenticate ext tx s)) [
          | inl a ↦
              rw (same, a, apply_ordinary)
                (Advances-of_Bumps tx s (apply_kind ext tx tx.kind amt h s) same
                  (apply_kind-Bumps tx tx.kind amt h s k))
          | inr (r, a) ↦ rw (same, a, apply_ordinary) tt
        ]
        | inr e ↦ rw e tt
      ]

  apply_tx-Advances :
      (tx : Tx) (h : Option ℕ) (s : State)
      → is_slash tx.kind ≡ false
      → Advances tx s (apply_tx ext tx h s)
  unfolding apply_tx
  apply_tx-Advances tx h s k = go tx.amount refl
    where
      go : (f : Float) → tx.amount ≡ f → Advances tx s (apply_tx ext tx h s)
      go (finite amt) e =
          rw (e, apply_tx, k)
            (if_intro (Advances tx s) (ltb_ℤ amt (pos 0)) tt (apply_ordinary-Advances tx amt h s k))
      go infinite e = rw (e, apply_tx) tt
      go nan e = rw (e, apply_tx) tt

  -- An ordinary transaction that applies carried its sender's nonce, which then grows by one; no
  -- other account's nonce changes.
  pub apply_tx-nonces :
      (tx : Tx) (h : Option ℕ) (s t : State) (n : Note) (a : ℕ)
      → is_slash tx.kind ≡ false
      → apply_tx ext tx h s ≡ (ok n, t)
      → (tx.nonce ≡ get tx.sender s.nonces)
        × (get a t.nonces ≡ (if a == tx.sender then tx.nonce +ℤ pos 1 else get a s.nonces))
  apply_tx-nonces tx h s t n a k e =
      let (same, next) = rw e at (apply_tx-Advances tx h s k) in
      (same, ap (get a) next ∙ get-insert a tx.sender (tx.nonce +ℤ pos 1) s.nonces)

  apply_tx-amount :
      (tx : Tx) (h : Option ℕ) (s t : State) (n : Note)
      → apply_tx ext tx h s ≡ (ok n, t)
      → (amt : ℤ) × (tx.amount ≡ finite amt) × (ltb_ℤ amt (pos 0) ≡ false)
  unfolding apply_tx
  apply_tx-amount tx h s t n e = go tx.amount refl
    where
      go :
          (f : Float)
          → tx.amount ≡ f
          → (amt : ℤ) × (tx.amount ≡ finite amt) × (ltb_ℤ amt (pos 0) ≡ false)
      go (finite amt) p = (amt, p, ground arith)
      go infinite p = ground arith
      go nan p = ground arith

  nonce_moves : (n : ℤ) → eq_ℤ n (n +ℤ pos 1) ≡ false
  nonce_moves n = ground (arith, +ℤ_parts n (pos 1))

  get-next :
      (tx : Tx) (s t : State)
      → t.nonces ≡ insert tx.sender (tx.nonce +ℤ pos 1) s.nonces
      → get tx.sender t.nonces ≡ tx.nonce +ℤ pos 1
  get-next tx s t e =
      ap (get tx.sender) e
      ∙ get-insert tx.sender tx.sender (tx.nonce +ℤ pos 1) s.nonces
      ∙ ground arith

  -- An ordinary transaction applies at most once: on the state that it has led to it is refused
  -- for its nonce, in a block of any height.
  pub apply_tx-replayed :
      (tx : Tx) (h h' : Option ℕ) (s t : State) (n : Note)
      → is_slash tx.kind ≡ false
      → apply_tx ext tx h s ≡ (ok n, t)
      → apply_tx ext tx h' t ≡ (err bad_nonce, t)
  unfolding apply_tx apply_ordinary
  apply_tx-replayed tx h h' s t n k e =
      let (amt, p, q) = apply_tx-amount tx h s t n e in
      let next = get-next tx s t (rw e at (apply_tx-Advances tx h s k)).1 in
      let moved : eq_ℤ tx.nonce (get tx.sender t.nonces) ≡ false = rw next (nonce_moves tx.nonce) in
      rw (p, apply_tx, q, k, apply_ordinary, moved)
