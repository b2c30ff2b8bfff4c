-- ===== src/Updates/Best.antt =====
-- tools/self_update.py: a good manifest on any mirror wins over whatever the others serve.
use mathlib.Core.Path.{ap}
use neurahash_miner.Updates.Signed.{IsSigned}
use neurahash_miner.Updates.Version.{version_lt, is_forward}
use neurahash_miner.Base.{
  ◌∙◌, if◌then◌else◌, false, inl, arith, inr, refl, ◌≡◌, none, true, some, Bool, ℤ, [], ◌∷◌, ℕ,
  List, Option,
}
use neurahash_miner.Updates.Manifest.{ReleaseKey, Manifest}
use neurahash_miner.Updates.Fetch.{
  fetch_best_manifest, best_of, better, replayed, consider, take_if, no_object, unreachable,
  is_good, version_text, served, Answer,
}
use neurahash_miner.Updates.Winner.{
  Served, here, later, version_of, good, covers_all, best_of-Winner, good_inv,
}

module _ (ext : ReleaseKey) (pubkey : ℕ) (floor : ℤ) where
  take_if-some :
      (o : Option Bool) (m b : Manifest) → (x : Manifest) × (take_if o m (some b) ≡ some x)
  take_if-some none m b = (b, refl)
  take_if-some (some false) m b = (b, refl)
  take_if-some (some true) m b = (m, refl)

  better-some : (m : Manifest) (best : Option Manifest) → (x : Manifest) × (better m best ≡ some x)
  better-some m none = (m, refl)
  better-some m (some b) = take_if-some (is_forward (version_text m) (version_text b)) m b

  consider-some :
      (a : Answer) (b : Manifest) → (x : Manifest) × (consider ext pubkey floor a (some b) ≡ some x)
  consider-some unreachable b = (b, refl)
  consider-some no_object b = (b, refl)
  consider-some (served m) b = by_test (good ext pubkey floor m)
    where
      by_test : (d : Bool) → (x : Manifest) × ((if d then better m (some b) else some b) ≡ some x)
      by_test true = better-some m (some b)
      by_test false = (b, refl)

  best_of-some :
      (answers : List Answer) (best : Option Manifest) (b : Manifest)
      → best ≡ some b
      → (x : Manifest) × (best_of ext pubkey floor answers best ≡ some x)
  unfolding best_of
  best_of-some [] best b e = (b, e)
  best_of-some (a ∷ answers) best b e =
      let (x, k) = consider-some a b in
      best_of-some answers (consider ext pubkey floor a best) x
        (ap (consider ext pubkey floor a) e ∙ k)

  found :
      (m : Manifest) (answers : List Answer) (best : Option Manifest)
      → Served m answers
      → good ext pubkey floor m ≡ true
      → (x : Manifest) × (best_of ext pubkey floor answers best ≡ some x)
  unfolding best_of
  found m _ best (here {answers}) g =
      let (x, k) = better-some m best in
      let same : consider ext pubkey floor (served m) best ≡ better m best = ground (arith, g) in
      best_of-some answers (consider ext pubkey floor (served m) best) x (same ∙ k)
  found m _ best (later {a} {answers} s) g = found m answers (consider ext pubkey floor a best) s g

  covered :
      (m : Manifest) (answers : List Answer) (v : List ℕ)
      → Served m answers
      → good ext pubkey floor m ≡ true
      → covers_all ext pubkey floor v answers ≡ true
      → version_lt v (version_of m) ≡ false
  covered m _ v here g c = ground (arith, g, c)
  covered m _ v (later {a} {answers} s) g c = covered m answers v s g (ground (arith, c))

  pub fetched-IsSigned :
      (answers : List Answer) (m : Manifest)
      → (fetch_best_manifest ext pubkey floor answers).manifest ≡ some m
      → IsSigned ext pubkey m
  unfolding fetch_best_manifest
  fetched-IsSigned answers m e =
      (good_inv ext pubkey floor m
        (best_of-Winner ext pubkey floor answers none m refl e).is_good_winner).0

  pub fetched-fresh :
      (answers : List Answer) (m : Manifest)
      → (fetch_best_manifest ext pubkey floor answers).manifest ≡ some m
      → replayed floor m ≡ false
  unfolding fetch_best_manifest
  fetched-fresh answers m e =
      (good_inv ext pubkey floor m
        (best_of-Winner ext pubkey floor answers none m refl e).is_good_winner).1

  -- Where some mirror serves a manifest that is signed by the pinned key and not older than the
  -- replay floor, whatever the others serve, a manifest is chosen; it is served by a mirror, is
  -- signed by the pinned key, is not older than the floor, and its version is not below that one's.
  pub fetch_best_manifest-wins :
      (answers : List Answer) (m : Manifest)
      → Served m answers
      → is_good ext pubkey floor m ≡ true
      → (best : Manifest) × ((fetch_best_manifest ext pubkey floor answers).manifest ≡ some best)
        × Served best answers
        × IsSigned ext pubkey best
        × (replayed floor best ≡ false)
        × (version_lt (version_of best) (version_of m) ≡ false)
  unfolding fetch_best_manifest
  fetch_best_manifest-wins answers m s g =
      let (best, e) = found m answers none s g in
      let w = best_of-Winner ext pubkey floor answers none best refl e in
      let (signed, fresh) = good_inv ext pubkey floor best w.is_good_winner in
      (
        best,
        e,
        elim w.came_from [ inl k ↦ absurd (ground (arith, k)) | inr k ↦ k ],
        signed,
        fresh,
        covered m answers (version_of best) s g w.covers_answers,
      )
