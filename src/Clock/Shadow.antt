-- ===== src/Clock/Shadow.antt =====
-- neurahash/diloco_clock.py: the shadow audit of the single node's order, alone and with the
-- commitments of a second coordinator.
use neurahash_miner.Base.{
  ℕ, Bool, true, false, ◌&&◌, ◌==◌, if◌then◌else◌, Option, none, some, List, [], ◌∷◌, ◌++◌, take,
}
use neurahash_miner.Clock.Defs.{Hashes, CommitEnvelope, Reveal, Disputes, agree_round}
use neurahash_miner.Clock.Audit.{
  SignedCommit, verify_clock_commit, on_roster, norm_each, roster_of, none_listed,
}

-- What a shadow audit reports; `match` and `clean` are none where there was no
-- peer.
pub record ShadowRecord : Type 0 where
  pub round : ℕ
  pub match : Option Bool
  pub clean : Option Bool
  pub claimed_order : List ℕ
  pub agreed_order : List ℕ
  pub n_valid : ℕ

abbrev pub same_list : List ℕ → List ℕ → Bool
same_list [] [] = true
same_list (a ∷ as') (b ∷ bs) = a == b && same_list as' bs
same_list _ _ = false

-- `not any(disputes[k] for k in disputes)`
abbrev pub undisputed : Disputes → Bool
undisputed d =
    none_listed d.rejected
    && (none_listed d.missing
        && (none_listed d.unsolicited
            && (none_listed d.commit_equivocations && none_listed d.wrong_round)))

-- the most envelopes a transport may deliver
abbrev pub transport_cap : ℕ
transport_cap = 4096

module _ (h : Hashes) (recover_bytes : ℕ → ℕ → ℕ → ℕ → Option ℕ) where
  open h use {norm}

  unfoldable pub shadow_audit : ℕ → List ℕ → List CommitEnvelope → List Reveal → ShadowRecord
  shadow_audit round claimed_order cs rs =
      let agreed = agree_round h cs rs round in
      let claimed = norm_each norm recover_bytes claimed_order in
      record {
        round = round;
        match = some (same_list claimed agreed.order);
        clean = some (undisputed agreed.disputes);
        claimed_order = claimed;
        agreed_order = agreed.order;
        n_valid = agreed.n_valid;
      }

  -- `_remote_clock_envelopes`: none is a transport that is absent or raises
  unfoldable pub remote_clock_envelopes :
      Option (List SignedCommit × List Reveal) → List SignedCommit × List Reveal
  remote_clock_envelopes none = ([], [])
  remote_clock_envelopes (some (cs, rs)) = (take transport_cap cs, take transport_cap rs)

  abbrev pub norm_signer : Option ℕ → Option ℕ
  norm_signer none = none
  norm_signer (some s) = some (norm s)

  -- `commit_envelope(c)` of a verified commitment
  abbrev pub envelope_of : SignedCommit → CommitEnvelope
  envelope_of c = record { round = c.round; signer = norm_signer c.signer; digest = c.digest }

  -- the remote commitments that verify, from signers on the roster
  unfoldable pub authenticated : Option (List ℕ) → List SignedCommit → List CommitEnvelope
  authenticated allow [] = []
  authenticated allow (c ∷ cs) = elim (verify_clock_commit norm recover_bytes c) [
    | none ↦ authenticated allow cs
    | some rec ↦
        if on_roster norm recover_bytes allow rec
        then envelope_of c ∷ authenticated allow cs
        else authenticated allow cs
  ]

  abbrev pub no_peer : ℕ → List ℕ → ShadowRecord
  no_peer round claimed = record {
    round = round;
    match = none;
    clean = none;
    claimed_order = claimed;
    agreed_order = [];
    n_valid = 0;
  }

  abbrev pub with_peer :
      ℕ → List ℕ → List CommitEnvelope → List CommitEnvelope → List Reveal → ShadowRecord
  with_peer round claimed_order local [] rs =
      no_peer round (norm_each norm recover_bytes claimed_order)
  with_peer round claimed_order local (c ∷ cs) rs =
      shadow_audit round claimed_order (local ++ (c ∷ cs)) rs

  unfoldable pub shadow_audit_live :
      Option (List SignedCommit × List Reveal)
      → ℕ
      → List ℕ
      → List CommitEnvelope
      → List Reveal
      → Option (List ℕ)
      → ShadowRecord
  shadow_audit_live transport round claimed_order local_commits local_reveals allowed =
      let (remote_signed, remote_reveals) = remote_clock_envelopes transport in
      with_peer round claimed_order local_commits
        (authenticated (roster_of norm recover_bytes allowed) remote_signed)
        (local_reveals ++ remote_reveals)
