-- ===== src/Updates/Floor.antt =====
-- tools/self_update.py: an older manifest is not adopted after a newer one.
use neurahash_miner.Updates.Best.{fetched-fresh}
use mathlib.Core.Path.{ap, subst}
use neurahash_miner.Updates.Fetch.{replayed, published, fetch_best_manifest}
use neurahash_miner.Updates.Config.{Applied}
use neurahash_miner.Updates.Apply.{check_and_update, Outcome, Machine}
use neurahash_miner.Base.{
  if◌then◌else◌, true, false, ◌∙◌, ◌<ℤ◌, [], pos, sym, ◌∷◌, none, inl, inr, some, Option,
  Bool-cases, ◌≡◌, arith, max_ℤ, ◌≤ℤ◌, ℤ, Bool, List, ℕ,
}
use neurahash_miner.Updates.Manifest.{ReleaseKey, Manifest}
use neurahash_miner.Updates.Sync.{
  keep_floor, run_again, is_applied, machine_for, SyncEnd, returned, adopted, Synced, Saved,
  sync_from_manifest, run_syncs, adopt,
}

module _ (ext : ReleaseKey) (pubkey : ℕ) where
  max_left : (a b : ℤ) → a ≤ℤ max_ℤ a b
  max_left a b = ground arith

  max_right : (a b : ℤ) → b ≤ℤ max_ℤ a b
  max_right a b = ground arith

  -- what follows the check of a manifest, where it was applied or not
  abbrev after : Bool → Outcome → Machine → Applied → Saved → Manifest → SyncEnd × Saved
  after b o w env saved m = if b then run_again o w env saved m else keep_floor o w env saved m

  after_floor :
      (b : Bool) (o : Outcome) (w : Machine) (env : Applied) (saved : Saved) (m : Manifest)
      → saved.floor_ts ≤ℤ (after b o w env saved m).1.floor_ts
  after_floor true o w env saved m = omega arith
  after_floor false o w env saved m = max_left saved.floor_ts (published m.published_ts)

  after-adopted :
      (b : Bool) (o : Outcome) (w : Machine) (env : Applied) (saved : Saved) (k m : Manifest)
      → adopted (after b o w env saved k).0 ≡ some m
      → k ≡ m
  after-adopted false o w env saved k m e = ground (arith, e)
  after-adopted true o w env saved k m e = elim (Bool-cases w.can_reexec) [
    | inl c ↦ ground (arith, e, c)
    | inr c ↦ absurd (ground (arith, e, c))
  ]

  after_raises :
      (b : Bool) (o : Outcome) (w : Machine) (env : Applied) (saved : Saved) (k m : Manifest)
      (r : Synced)
      → (after b o w env saved k).0 ≡ returned r
      → r.manifest ≡ some m
      → published k.published_ts ≤ℤ (after b o w env saved k).1.floor_ts
  after_raises false o w env saved k m r e f = max_right saved.floor_ts (published k.published_ts)
  after_raises true o w env saved k m r e f = elim (Bool-cases w.can_reexec) [
    | inl c ↦ absurd (ground (arith, e, c))
    | inr c ↦ absurd (ground (arith, e, f, c))
  ]

  adopt_floor :
      (startup : Bool) (w : Machine) (env : Applied) (saved : Saved) (o : Option Manifest)
      → saved.floor_ts ≤ℤ (adopt ext pubkey startup w env saved o).1.floor_ts
  adopt_floor startup w env saved none = omega arith
  adopt_floor startup w env saved (some m) =
      let o = check_and_update ext pubkey (machine_for ext startup w saved m) in
      after_floor (is_applied o.action) o w env saved m

  sync_floor :
      (startup : Bool) (w : Machine) (env : Applied) (saved : Saved)
      → saved.floor_ts ≤ℤ (sync_from_manifest ext pubkey startup w env saved).1.floor_ts
  unfolding sync_from_manifest
  sync_floor startup w env saved = elim (Bool-cases w.is_enabled) [
    | inr e ↦ ground (arith, e)
    | inl e ↦ ground (
      arith,
      e,
      adopt_floor startup w env saved
          ((fetch_best_manifest ext pubkey saved.floor_ts w.answers).manifest),
    )
  ]

  run_floor :
      (syncs : List (Bool × Machine × Applied)) (saved : Saved)
      → saved.floor_ts ≤ℤ (run_syncs ext pubkey syncs saved).floor_ts
  unfolding run_syncs
  run_floor [] saved = omega arith
  run_floor ((startup, w, env) ∷ syncs) saved =
      let next = (sync_from_manifest ext pubkey startup w env saved).1 in
      omega (arith, sync_floor startup w env saved, run_floor syncs next)

  adopt-adopted :
      (startup : Bool) (w : Machine) (env : Applied) (saved : Saved) (o : Option Manifest)
      (m : Manifest)
      → adopted (adopt ext pubkey startup w env saved o).0 ≡ some m
      → o ≡ some m
  adopt-adopted startup w env saved none m e = absurd (ground (arith, e))
  adopt-adopted startup w env saved (some k) m e =
      let o = check_and_update ext pubkey (machine_for ext startup w saved k) in
      ap some (after-adopted (is_applied o.action) o w env saved k m e)

  adopt_raises :
      (startup : Bool) (w : Machine) (env : Applied) (saved : Saved) (o : Option Manifest)
      (m : Manifest) (r : Synced)
      → (adopt ext pubkey startup w env saved o).0 ≡ returned r
      → r.manifest ≡ some m
      → published m.published_ts ≤ℤ (adopt ext pubkey startup w env saved o).1.floor_ts
  adopt_raises startup w env saved none m r e f = absurd (ground (arith, e, f))
  adopt_raises startup w env saved (some k) m r e f =
      let o = check_and_update ext pubkey (machine_for ext startup w saved k) in
      let b = is_applied o.action in
      let same : k ≡ m = after-adopted b o w env saved k m (ap adopted e ∙ f) in
      subst (λ x. published x.published_ts ≤ℤ (after b o w env saved k).1.floor_ts) same
        (after_raises b o w env saved k m r e f)

  sync_enabled :
      (startup : Bool) (w : Machine) (env : Applied) (saved : Saved) (m : Manifest)
      → adopted (sync_from_manifest ext pubkey startup w env saved).0 ≡ some m
      → sync_from_manifest ext pubkey startup w env saved
        ≡ adopt ext pubkey startup w env saved
            ((fetch_best_manifest ext pubkey saved.floor_ts w.answers).manifest)
  unfolding sync_from_manifest
  sync_enabled startup w env saved m e = elim (Bool-cases w.is_enabled) [
    | inr b ↦ absurd (ground (arith, b, e))
    | inl b ↦ ground (arith, b)
  ]

  -- what a sync adopts was fetched above its floor
  sync_fetched :
      (startup : Bool) (w : Machine) (env : Applied) (saved : Saved) (m : Manifest)
      → adopted (sync_from_manifest ext pubkey startup w env saved).0 ≡ some m
      → (fetch_best_manifest ext pubkey saved.floor_ts w.answers).manifest ≡ some m
  sync_fetched startup w env saved m e =
      let o = (fetch_best_manifest ext pubkey saved.floor_ts w.answers).manifest in
      let same = sync_enabled startup w env saved m e in
      adopt-adopted startup w env saved o m (sym (ap (λ p. adopted p.0) same) ∙ e)

  -- a sync that returns raises the floor to what it adopted
  sync_raises :
      (startup : Bool) (w : Machine) (env : Applied) (saved : Saved) (m : Manifest) (r : Synced)
      → (sync_from_manifest ext pubkey startup w env saved).0 ≡ returned r
      → r.manifest ≡ some m
      → published m.published_ts ≤ℤ (sync_from_manifest ext pubkey startup w env saved).1.floor_ts
  sync_raises startup w env saved m r e f =
      let o = (fetch_best_manifest ext pubkey saved.floor_ts w.answers).manifest in
      let same = sync_enabled startup w env saved m (ap adopted e ∙ f) in
      subst (λ p. published m.published_ts ≤ℤ p.1.floor_ts) (sym same)
        (adopt_raises startup w env saved o m r (sym (ap (λ p. p.0) same) ∙ e) f)

  fresh_floor :
      (floor : ℤ) (m : Manifest)
      → pos 0 <ℤ floor
      → replayed floor m ≡ false
      → floor ≤ℤ published m.published_ts
  fresh_floor floor m l e = ground (arith, l, e)

  -- Where a sync returns having adopted a manifest with a positive time stamp, no later sync,
  -- whatever the syncs between them meet, adopts one with an earlier stamp, or runs the program again
  -- on one: a manifest that was superseded does not come back.
  pub sync_from_manifest-later :
      (startup startup' : Bool) (w w' : Machine) (env env' : Applied) (saved : Saved) (r : Synced)
      (m m' : Manifest) (syncs : List (Bool × Machine × Applied))
      → (sync_from_manifest ext pubkey startup w env saved).0 ≡ returned r
      → r.manifest ≡ some m
      → pos 0 <ℤ published m.published_ts
      → adopted
          (sync_from_manifest ext pubkey startup' w' env'
            (run_syncs ext pubkey syncs ((sync_from_manifest ext pubkey startup w env saved).1))).0
        ≡ some m'
      → published m.published_ts ≤ℤ published m'.published_ts
  sync_from_manifest-later startup startup' w w' env env' saved r m m' syncs e f l e' =
      let next = (sync_from_manifest ext pubkey startup w env saved).1 in
      let last = run_syncs ext pubkey syncs next in
      let first = sync_raises startup w env saved m r e f in
      let second = sync_fetched startup' w' env' last m' e' in
      let fresh = fetched-fresh ext pubkey last.floor_ts w'.answers m' second in
      let risen = run_floor syncs next in
      let above : pos 0 <ℤ last.floor_ts = omega (arith, l, first, risen) in
      omega (arith, first, risen, fresh_floor last.floor_ts m' above fresh)
