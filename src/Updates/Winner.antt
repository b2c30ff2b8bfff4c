-- ===== src/Updates/Winner.antt =====
-- tools/self_update.py: what the loop over the mirrors keeps of the best manifest.
use mathlib.Core.Path.{sym, subst}
use neurahash_miner.Updates.Signed.{verify_manifest-IsSigned, IsSigned}
use neurahash_miner.Updates.Version.{
  version_lt_irrefl, version_lt_cotrans, version_lt_trans, version_lt, is_forward, parse_version,
}
use neurahash_miner.Base.{
  if◌then◌else◌, ◌&&◌, false, ◌⊎◌, inl, arith, inr, ◌||◌, refl, Bool-cases, not, ◌≡◌, none, true,
  some, Bool, ℤ, [], ◌∷◌, ℕ, List, Option,
}
use neurahash_miner.Updates.Manifest.{
  refused, Verified, verified, verify_manifest, ReleaseKey, Manifest,
}
use neurahash_miner.Updates.Fetch.{
  best_of, better, replayed, consider, take_if, no_object, unreachable, is_good, version_text,
  served, Answer,
}

-- a mirror among these serves the manifest
pub data Served : Manifest → List Answer → Type 0 where
  here : {m : Manifest} {answers : List Answer} → Served m (served m ∷ answers)
  later :
      {m : Manifest} {a : Answer} {answers : List Answer}
      → Served m answers
      → Served m (a ∷ answers)

abbrev pub version_or_zero : Option (List ℕ) → List ℕ
version_or_zero none = []
version_or_zero (some v) = v

-- a manifest's version, as numbers
abbrev pub version_of : Manifest → List ℕ
version_of m = version_or_zero (parse_version (version_text m))

module _ (ext : ReleaseKey) (pubkey : ℕ) (floor : ℤ) where
  abbrev pub good : Manifest → Bool
  good = is_good ext pubkey floor

  abbrev pub good_best : Option Manifest → Bool
  good_best none = true
  good_best (some b) = good b

  -- a version is not below that of a manifest
  abbrev pub covers : List ℕ → Option Manifest → Bool
  covers v none = true
  covers v (some b) = not (version_lt v (version_of b))

  abbrev pub covers_answer : List ℕ → Answer → Bool
  covers_answer v unreachable = true
  covers_answer v no_object = true
  covers_answer v (served m) = not (good m) || not (version_lt v (version_of m))

  pub good_inv : (m : Manifest) → good m ≡ true → IsSigned ext pubkey m × (replayed floor m ≡ false)
  good_inv m e = go (verify_manifest ext pubkey m) refl e
    where
      go :
          (o : Verified)
          → verify_manifest ext pubkey m ≡ o
          → elim o [ refused _ ↦ false | verified _ ↦ not (replayed floor m) ] ≡ true
          → IsSigned ext pubkey m × (replayed floor m ≡ false)
      go (refused f) h e = absurd (ground (arith, e))
      go (verified rec) h e = (verify_manifest-IsSigned ext pubkey m rec h, ground (arith, e))

  good_parses :
      (m : Manifest) → good m ≡ true → parse_version (version_text m) ≡ some (version_of m)
  good_parses m e = let s = (good_inv m e).0 in ground (arith, s.has_version, s.version_parses)

  decides :
      (m b : Manifest)
      → good m ≡ true
      → good b ≡ true
      → is_forward (version_text m) (version_text b)
        ≡ some (version_lt (version_of b) (version_of m))
  unfolding is_forward
  decides m b e f = rw (good_parses m e, good_parses b f) refl

  -- what considering an answer does: the best stays good, and a version that covers the new best
  -- covers the old one and the answer
  pub record Step (a : Answer) (best new : Option Manifest) : Type 0 where
    pub is_good_best : good_best new ≡ true
    pub from_here : (m : Manifest) → new ≡ some m → (best ≡ some m) ⊎ (a ≡ served m)
    pub covers_both :
        (v : List ℕ) → covers v new ≡ true → (covers v best ≡ true) × (covers_answer v a ≡ true)

  keeps :
      (a : Answer) (best : Option Manifest)
      → good_best best ≡ true
      → ((v : List ℕ) → covers v best ≡ true → covers_answer v a ≡ true)
      → Step a best best
  keeps a best g k = record {
    is_good_best = g;
    from_here = λ m e. inl e;
    covers_both = λ v c. (c, k v c);
  }

  newer :
      (m b : Manifest)
      → good m ≡ true
      → good b ≡ true
      → (d : Bool) → version_lt (version_of b) (version_of m) ≡ d
      → Step (served m) (some b) (take_if (some d) m (some b))
  newer m b g h true l = record {
    is_good_best = g;
    from_here = λ x e. inr (ground (arith, e));
    covers_both = λ v c. (older v c, ground (arith, c));
  }
    where
      older : (v : List ℕ) → not (version_lt v (version_of m)) ≡ true → covers v (some b) ≡ true
      older v c = elim (Bool-cases (version_lt v (version_of b))) [
        | inl x ↦ absurd (ground (arith, c, version_lt_trans v (version_of b) (version_of m) x l))
        | inr x ↦ ground (arith, x)
      ]
  newer m b g h false l = keeps (served m) (some b) h (λ v c.
      ground (arith, version_lt_cotrans v (version_of b) (version_of m) (ground (arith, c)) l))

  step_good :
      (m : Manifest) (best : Option Manifest)
      → good m ≡ true
      → good_best best ≡ true
      → Step (served m) best (better m best)
  step_good m none g h = record {
    is_good_best = g;
    from_here = λ x e. inr (ground (arith, e));
    covers_both = λ v c. (refl, ground (arith, c));
  }
  step_good m (some b) g h =
      subst (λ o. Step (served m) (some b) (take_if o m (some b))) (sym (decides m b g h))
        (newer m b g h (version_lt (version_of b) (version_of m)) refl)

  step :
      (a : Answer) (best : Option Manifest)
      → good_best best ≡ true
      → Step a best (consider ext pubkey floor a best)
  step unreachable best g = keeps unreachable best g (λ v c. refl)
  step no_object best g = keeps no_object best g (λ v c. refl)
  step (served m) best g = by_test (good m) refl
    where
      by_test : (d : Bool) → good m ≡ d → Step (served m) best (if d then better m best else best)
      by_test true e = step_good m best e g
      by_test false e = keeps (served m) best g (λ v c. ground (arith, e))

  abbrev pub covers_all : List ℕ → List Answer → Bool
  covers_all v [] = true
  covers_all v (a ∷ answers) = covers_answer v a && covers_all v answers

  pub record Winner (answers : List Answer) (best : Option Manifest) (m : Manifest) : Type 0 where
    pub is_good_winner : good m ≡ true
    pub came_from : (best ≡ some m) ⊎ Served m answers
    pub covers_best : covers (version_of m) best ≡ true
    pub covers_answers : covers_all (version_of m) answers ≡ true

  pub best_of-Winner :
      (answers : List Answer) (best : Option Manifest) (m : Manifest)
      → good_best best ≡ true
      → best_of ext pubkey floor answers best ≡ some m
      → Winner answers best m
  unfolding best_of
  best_of-Winner [] best m g e = record {
    is_good_winner = subst (λ o. good_best o ≡ true) e g;
    came_from = inl e;
    covers_best =
        subst (λ o. covers (version_of m) o ≡ true) (sym e)
          (ground (arith, version_lt_irrefl (version_of m)));
    covers_answers = refl;
  }
  best_of-Winner (a ∷ answers) best m g e =
      let s = step a best g in
      let w = best_of-Winner answers (consider ext pubkey floor a best) m s.is_good_best e in
      let (c, d) = s.covers_both (version_of m) w.covers_best in
      record {
        is_good_winner = w.is_good_winner;
        came_from = elim w.came_from [
          | inr k ↦ inr (later k)
          | inl h ↦ elim (s.from_here m h) [
            | inl b ↦ inl b
            | inr q ↦ inr (subst (λ x. Served m (x ∷ answers)) (sym q) here)
          ]
        ];
        covers_best = c;
        covers_answers = ground (arith, d, w.covers_answers);
      }
