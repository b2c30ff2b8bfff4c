-- ===== src/Clock/Reveals.antt =====
-- neurahash/diloco_clock.py: which reveals count.
use neurahash_miner.Base.{
  sym, ap, ==_refl, ==_iff, insert-DistinctKeys, contains_pair, Bool-cases, ◌∙◌, lookup-insert, inr,
  inl, Option-cases, ℕ, Bool, true, false, ◌&&◌, ◌||◌, ◌==◌, Option, none, some, List, [], ◌∷◌,
  Dict, lookup, any_of, ◌≡◌, DistinctKeys, arith, refl,
}
use neurahash_miner.Clock.Defs.{
  reveals_of, same_digest, commit_digest, Hashes, CommitEnvelope, Reveal, Reveals, add_reveals,
  add_reveal, note_reveal, trusted_commits, opens,
}
use neurahash_miner.Clock.Commits.{trusted_commits-same, holds_ext, SameMembers, holds}

-- A digest of the round opens to one nonce for each signer.
abbrev pub IsBinding : Hashes → ℕ → Type 0
IsBinding h round =
    (s n n' d : ℕ)
    → commit_digest h round s n ≡ some d
    → commit_digest h round s n' ≡ some d
    → n ≡ n'

module _ (h : Hashes) (round : ℕ) where
  open h use {norm}

  abbrev by : Option ℕ → ℕ → Bool
  by none s = false
  by (some a) s = norm a == s

  -- the reveal shows the signer's nonce in the round
  abbrev pub reveals_as : ℕ → ℕ → Reveal → Bool
  reveals_as s n r = holds r.round round && (by r.signer s && holds r.nonce n)

  abbrev missing : Option ℕ → Bool
  missing none = true
  missing (some _) = false

  abbrev expect : ℕ → ℕ → Dict ℕ → Reveals → Bool → Bool
  expect s n m st shown =
      holds (lookup s st.valid) n
      || (missing (lookup s st.valid) && (opens h round s (some n) (lookup s m) && shown))

  pub same_digest-none : (o : Option ℕ) → same_digest h o none ≡ false
  same_digest-none none = refl
  same_digest-none (some a) = refl

  digest_of_same : (o : Option ℕ) (d : ℕ) → same_digest h o (some d) ≡ true → o ≡ some d
  digest_of_same none d e = ground (arith, e)
  digest_of_same (some a) d e = ground (arith, e)

  opens_one :
      (s n k d : ℕ)
      → IsBinding h round
      → opens h round s (some n) (some d) ≡ true
      → opens h round s (some k) (some d) ≡ true
      → n ≡ k
  opens_one s n k d b e f =
      b s n k d (digest_of_same (commit_digest h round s n) d e)
        (digest_of_same (commit_digest h round s k) d f)

  -- at the signer itself: what its reveal makes of its entry
  own_reveal :
      (s n : ℕ) (nonce : Option ℕ) (m : Dict ℕ) (st : Reveals) (shown : Bool)
      → IsBinding h round
      → expect s n m (note_reveal h round m s nonce st) shown
        ≡ expect s n m st (holds nonce n || shown)
  unfolding note_reveal
  own_reveal s n nonce m st shown b = elim (Option-cases (lookup s m)) [
    | inl e ↦ ground (arith, e, same_digest-none (commit_digest h round s n))
    | inr (d, e) ↦ elim (Option-cases (lookup s st.valid)) [
      | inr (v, f) ↦ ground (arith, e, f)
      | inl f ↦ elim (Option-cases nonce) [
        | inl g ↦ ground (arith, e, f, g)
        | inr (k, g) ↦ ground (arith, e, f, g, opens_one s n k d b, lookup-insert s s k st.valid)
      ]
    ]
  ]

  other_reveal :
      (s n a : ℕ) (nonce : Option ℕ) (m : Dict ℕ) (st : Reveals)
      → (s == a) ≡ false
      → lookup s (note_reveal h round m a nonce st).valid ≡ lookup s st.valid
  unfolding note_reveal
  other_reveal s n a nonce m st e = elim (Option-cases nonce) [
    | inl g ↦ ground (arith, g, e)
    | inr (k, g) ↦ ground (arith, g, e, lookup-insert s a k st.valid)
  ]

  note_reveal-expect :
      (s n a : ℕ) (nonce : Option ℕ) (m : Dict ℕ) (st : Reveals) (shown : Bool)
      → IsBinding h round
      → expect s n m (note_reveal h round m a nonce st) shown
        ≡ expect s n m st ((a == s && holds nonce n) || shown)
  note_reveal-expect s n a nonce m st shown b = elim (Bool-cases (s == a)) [
    | inl e ↦ let p = (==_iff s a).0 e in rw (← p, ==_refl s) (own_reveal s n nonce m st shown b)
    | inr e ↦ ground (arith, e, other_reveal s n a nonce m st e)
  ]

  add_reveal-expect :
      (s n : ℕ) (r : Reveal) (m : Dict ℕ) (st : Reveals) (shown : Bool)
      → IsBinding h round
      → expect s n m (add_reveal h round m r st) shown ≡ expect s n m st (reveals_as s n r || shown)
  add_reveal-expect s n r m st shown b = elim (Option-cases r.round) [
    | inl e ↦ ground (arith, e)
    | inr (q, e) ↦ elim (Option-cases r.signer) [
      | inl f ↦ ground (arith, e, f)
      | inr (a, f) ↦ ground (arith, e, f, note_reveal-expect s n (norm a) r.nonce m st shown b)
    ]
  ]

  add_reveals-expect :
      (s n : ℕ) (rs : List Reveal) (m : Dict ℕ) (st : Reveals)
      → IsBinding h round
      → expect s n m (add_reveals h round m rs st) false
        ≡ expect s n m st (any_of (reveals_as s n) rs)
  unfolding add_reveals any_of
  add_reveals-expect s n [] m st b = refl
  add_reveals-expect s n (r ∷ rs) m st b =
      add_reveals-expect s n rs m (add_reveal h round m r st) b
      ∙ add_reveal-expect s n r m st (any_of (reveals_as s n) rs) b

  note_reveal-DistinctKeys :
      (a : ℕ) (nonce : Option ℕ) (m : Dict ℕ) (st : Reveals)
      → DistinctKeys st.valid
      → DistinctKeys (note_reveal h round m a nonce st).valid
  unfolding note_reveal
  note_reveal-DistinctKeys a nonce m st k = elim (Option-cases nonce) [
    | inl g ↦ ground (arith, g)
    | inr (n, g) ↦ ground (arith, g, insert-DistinctKeys a n st.valid k)
  ]

  add_reveal-DistinctKeys :
      (r : Reveal) (m : Dict ℕ) (st : Reveals)
      → DistinctKeys st.valid
      → DistinctKeys (add_reveal h round m r st).valid
  add_reveal-DistinctKeys r m st k = elim (Option-cases r.signer) [
    | inl f ↦ ground (arith, f)
    | inr (a, f) ↦ ground (arith, f, note_reveal-DistinctKeys (norm a) r.nonce m st k)
  ]

  add_reveals-DistinctKeys :
      (rs : List Reveal) (m : Dict ℕ) (st : Reveals)
      → DistinctKeys st.valid
      → DistinctKeys (add_reveals h round m rs st).valid
  unfolding add_reveals
  add_reveals-DistinctKeys [] m st k = k
  add_reveals-DistinctKeys (r ∷ rs) m st k =
      add_reveals-DistinctKeys rs m (add_reveal h round m r st) (add_reveal-DistinctKeys r m st k)

  pub reveals_of-DistinctKeys :
      (cs : List CommitEnvelope) (rs : List Reveal) → DistinctKeys (reveals_of h round cs rs).valid
  unfolding reveals_of
  reveals_of-DistinctKeys cs rs =
      add_reveals-DistinctKeys rs (trusted_commits h round cs)
        (record { valid = []; rejected = []; unsolicited = []; wrong = [] }) tt

  from_none :
      (s n : ℕ) (m : Dict ℕ) (shown : Bool)
      → expect s n m (record { valid = []; rejected = []; unsolicited = []; wrong = [] }) shown
        ≡ (opens h round s (some n) (lookup s m) && shown)
  unfolding lookup
  from_none s n m shown = refl

  settled :
      (o : Option ℕ) (n : ℕ) (x : Bool) → holds o n ≡ (holds o n || (missing o && (x && false)))
  settled none n x = ground arith
  settled (some a) n x = ground arith

  -- Where digests bind, a signer's nonce enters the beacon exactly when it opens the digest trusted
  -- for the signer and some reveal of the round shows it.
  pub reveals_of_exact :
      (s n : ℕ) (cs : List CommitEnvelope) (rs : List Reveal)
      → IsBinding h round
      → holds (lookup s (reveals_of h round cs rs).valid) n ≡ (
          opens h round s (some n) (lookup s (trusted_commits h round cs))
          && any_of (reveals_as s n) rs)
  unfolding reveals_of
  reveals_of_exact s n cs rs b =
      let m = trusted_commits h round cs in
      let st : Reveals = record { valid = []; rejected = []; unsolicited = []; wrong = [] } in
      settled (lookup s (add_reveals h round m rs st).valid) n
        (opens h round s (some n) (lookup s m))
      ∙ add_reveals-expect s n rs m st b
      ∙ from_none s n m (any_of (reveals_as s n) rs)

  both : {a a' b b' : Bool} → a ≡ a' → b ≡ b' → (a && b) ≡ (a' && b')
  both e f = cc (e, f)

  pub reveals_of-same :
      (s : ℕ) (cs cs' : List CommitEnvelope) (rs rs' : List Reveal)
      → IsBinding h round
      → SameMembers cs cs'
      → SameMembers rs rs'
      → lookup s (reveals_of h round cs rs).valid ≡ lookup s (reveals_of h round cs' rs').valid
  reveals_of-same s cs cs' rs rs' b c r =
      holds_ext (lookup s (reveals_of h round cs rs).valid)
        (lookup s (reveals_of h round cs' rs').valid)
        (λ n.
          reveals_of_exact s n cs rs b
          ∙ both (ap (λ o. opens h round s (some n) o) (trusted_commits-same h round s cs cs' c))
              (r (reveals_as s n))
          ∙ sym (reveals_of_exact s n cs' rs' b))

pub contains_pair-lookup :
    (s n : ℕ) (d : Dict ℕ) → DistinctKeys d → contains_pair (s, n) d ≡ holds (lookup s d) n
unfolding contains_pair lookup
contains_pair-lookup s n [] k = refl
contains_pair-lookup s n (e ∷ d) k = ground (arith, contains_pair-lookup s n d)
