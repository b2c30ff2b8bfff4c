-- ===== src/Clock/Defs.antt =====
-- neurahash/diloco_clock.py: commitments, reveals, and the agreement of a round from them.
-- Rounds are not negative; texts are numbers.
use neurahash_miner.Base.{
  ℕ, Bool, false, ◌&&◌, ◌==◌, leb, if◌then◌else◌, Option, none, some, List, [], ◌∷◌, Dict, lookup,
  insert, erase, has_key, keys_of, insert_set, sorted_set, sorted_pairs, length,
}

-- What the code takes from Python and hashlib: the normal form of a signer (`str(...).lower()`),
-- that form of a missing signer, the digest of a commitment (none where the nonce is no hex text),
-- the seed's hash over the sorted reveals, and the hash that orders the signers.
pub record Hashes : Type 0 where
  pub norm : ℕ → ℕ
  pub no_signer : ℕ
  pub digest : ℕ → ℕ → ℕ → Option ℕ
  pub seed_hash : ℕ → List (ℕ × ℕ) → ℕ
  pub order_key : ℕ → ℕ → ℕ

-- A sealed commitment, its public envelope and its reveal. In those that arrive from others a
-- field may be missing, or a round may be no number.
pub record Sealed : Type 0 where
  pub round : ℕ
  pub signer : ℕ
  pub digest : ℕ
  pub nonce : ℕ

pub record CommitEnvelope : Type 0 where
  pub round : Option ℕ
  pub signer : Option ℕ
  pub digest : Option ℕ

pub record Reveal : Type 0 where
  pub round : Option ℕ
  pub signer : Option ℕ
  pub nonce : Option ℕ

pub record Disputes : Type 0 where
  pub rejected : List ℕ
  pub missing : List ℕ
  pub unsolicited : List ℕ
  pub commit_equivocations : List ℕ
  pub wrong_round : List ℕ

pub record Agreement : Type 0 where
  pub round : ℕ
  pub seed : ℕ
  pub order : List ℕ
  pub valid_signers : List ℕ
  pub n_valid : ℕ
  pub disputes : Disputes

-- the state of the loop over the commitments
pub record Commits : Type 0 where
  pub commit_map : Dict ℕ
  pub equiv : List ℕ
  pub wrong : List ℕ

-- the state of the loop over the reveals
pub record Reveals : Type 0 where
  pub valid : Dict ℕ
  pub rejected : List ℕ
  pub unsolicited : List ℕ
  pub wrong : List ℕ

module _ (h : Hashes) where
  open h use {norm, no_signer, seed_hash, order_key}

  -- `commit_digest` normalises the signer; `none` is the ValueError
  unfoldable pub commit_digest : ℕ → ℕ → ℕ → Option ℕ
  commit_digest round signer nonce = h.digest round (norm signer) nonce

  unfoldable pub make_commit : ℕ → ℕ → ℕ → Option Sealed
  make_commit round signer nonce = elim (commit_digest round signer nonce) [
    | none ↦ none
    | some d ↦ some (record { round = round; signer = norm signer; digest = d; nonce = nonce })
  ]

  unfoldable pub commit_envelope : Sealed → CommitEnvelope
  commit_envelope s = record {
    round = some s.round;
    signer = some (norm s.signer);
    digest = some s.digest;
  }

  unfoldable pub reveal_of : Sealed → Reveal
  reveal_of s = record { round = some s.round; signer = some (norm s.signer); nonce = some s.nonce }

  -- `recomputed == str(commit_env["digest"])`; a nonce that raises opens nothing
  abbrev pub same_digest : Option ℕ → Option ℕ → Bool
  same_digest (some a) (some b) = a == b
  same_digest _ _ = false

  abbrev pub opens : ℕ → ℕ → Option ℕ → Option ℕ → Bool
  opens round signer none d = false
  opens round signer (some nonce) d = same_digest (commit_digest round signer nonce) d

  abbrev pub verify_fields : Option ℕ → Option ℕ → Option ℕ → Option ℕ → Option ℕ → Option ℕ → Bool
  verify_fields (some r) (some r') (some s) (some s') nonce d =
      (r == r') && ((norm s == norm s') && opens r' s' nonce d)
  verify_fields _ _ _ _ _ _ = false

  unfoldable pub verify_reveal : CommitEnvelope → Reveal → Bool
  verify_reveal c r = verify_fields c.round r.round c.signer r.signer r.nonce c.digest

  -- `str(None).lower()` where the signer is missing
  abbrev pub norm_or : Option ℕ → ℕ
  norm_or none = no_signer
  norm_or (some s) = norm s

  -- the body of the loop over the commitments, past the test of the round
  unfoldable pub note_commit : ℕ → ℕ → Commits → Commits
  note_commit s d st = elim (lookup s st.commit_map) [
    | none ↦ record st { commit_map = insert s d st.commit_map }
    | some d' ↦ if d' == d then st else record st { equiv = insert_set s st.equiv }
  ]

  abbrev pub read_commit : Option ℕ → Option ℕ → Commits → Commits
  read_commit (some s) (some d) st = note_commit (norm s) d st
  read_commit _ _ st = st

  abbrev pub add_commit : ℕ → CommitEnvelope → Commits → Commits
  add_commit round c st = elim c.round [
    | none ↦ st
    | some r ↦
        if r == round
        then read_commit c.signer c.digest st
        else record st { wrong = insert_set (norm_or c.signer) st.wrong }
  ]

  unfoldable pub add_commits : ℕ → List CommitEnvelope → Commits → Commits
  add_commits round [] st = st
  add_commits round (c ∷ cs) st = add_commits round cs (add_commit round c st)

  -- `for s in equiv: commit_map.pop(s, None)`
  unfoldable pub drop_signers : List ℕ → Dict ℕ → Dict ℕ
  drop_signers [] m = m
  drop_signers (s ∷ ss) m = drop_signers ss (erase s m)

  -- the body of the loop over the reveals, past the test of the round
  unfoldable pub note_reveal : ℕ → Dict ℕ → ℕ → Option ℕ → Reveals → Reveals
  note_reveal round commit_map s nonce st = elim (lookup s commit_map) [
    | none ↦ record st { unsolicited = insert_set s st.unsolicited }
    | some d ↦
        if has_key s st.valid
        then st
        else if opens round s nonce (some d)
        then elim nonce [ none ↦ st | some n ↦ record st { valid = insert s n st.valid } ]
        else record st { rejected = insert_set s st.rejected }
  ]

  abbrev pub add_reveal : ℕ → Dict ℕ → Reveal → Reveals → Reveals
  add_reveal round commit_map r st = elim r.round [
    | none ↦ st
    | some q ↦
        if q == round
        then elim r.signer [ none ↦ st | some s ↦ note_reveal round commit_map (norm s) r.nonce st ]
        else record st { wrong = insert_set (norm_or r.signer) st.wrong }
  ]

  unfoldable pub add_reveals : ℕ → Dict ℕ → List Reveal → Reveals → Reveals
  add_reveals round commit_map [] st = st
  add_reveals round commit_map (r ∷ rs) st =
      add_reveals round commit_map rs (add_reveal round commit_map r st)

  -- `agree_seed`, over the signers and their nonces
  unfoldable pub agree_seed : List (ℕ × ℕ) → ℕ → ℕ
  agree_seed reveals round = seed_hash round (sorted_pairs reveals)

  -- `sorted(signers, key=...)`, which is stable
  unfoldable pub insert_by : ℕ → ℕ → List ℕ → List ℕ
  insert_by seed a [] = a ∷ []
  insert_by seed a (b ∷ bs) =
      if leb (order_key seed a) (order_key seed b) then a ∷ b ∷ bs else b ∷ insert_by seed a bs

  unfoldable pub sort_by : ℕ → List ℕ → List ℕ
  unfolding insert_by
  sort_by seed [] = []
  sort_by seed (a ∷ as') = insert_by seed a (sort_by seed as')

  unfoldable pub agree_order : List (ℕ × ℕ) → ℕ → List ℕ
  unfolding sort_by
  agree_order reveals seed = sort_by seed (sorted_set (keys_of reveals))

  -- `sorted(set(commit_map) - set(valid))`
  unfoldable pub missing_of : List ℕ → Dict ℕ → List ℕ
  missing_of [] valid = []
  missing_of (s ∷ ss) valid =
      if has_key s valid then missing_of ss valid else insert_set s (missing_of ss valid)

  -- union of two sets
  unfoldable pub union_set : List ℕ → List ℕ → List ℕ
  union_set [] b = b
  union_set (x ∷ xs) b = insert_set x (union_set xs b)

  -- the commitments that count, and those of an equivocator dropped
  unfoldable pub commits_of : ℕ → List CommitEnvelope → Commits
  commits_of round cs = add_commits round cs (record { commit_map = []; equiv = []; wrong = [] })

  unfoldable pub trusted_commits : ℕ → List CommitEnvelope → Dict ℕ
  trusted_commits round cs =
      drop_signers (commits_of round cs).equiv (commits_of round cs).commit_map

  unfoldable pub reveals_of : ℕ → List CommitEnvelope → List Reveal → Reveals
  reveals_of round cs rs =
      add_reveals round (trusted_commits round cs) rs
        (record { valid = []; rejected = []; unsolicited = []; wrong = [] })

  unfoldable pub agree_round : List CommitEnvelope → List Reveal → ℕ → Agreement
  agree_round cs rs round =
      let commits = commits_of round cs in
      let trusted = trusted_commits round cs in
      let reveals = reveals_of round cs rs in
      let seed = agree_seed reveals.valid round in
      record {
        round = round;
        seed = seed;
        order = agree_order reveals.valid seed;
        valid_signers = sorted_set (keys_of reveals.valid);
        n_valid = length reveals.valid;
        disputes = record {
          rejected = reveals.rejected;
          missing = missing_of (keys_of trusted) reveals.valid;
          unsolicited = reveals.unsolicited;
          commit_equivocations = commits.equiv;
          wrong_round = union_set commits.wrong reveals.wrong;
        };
      }
