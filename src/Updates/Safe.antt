-- ===== src/Updates/Safe.antt =====
-- tools/self_update.py: no code is checked out or run but what the pinned key signed for a newer
-- version.
use neurahash_miner.Updates.Best.{fetched-IsSigned}
use mathlib.Core.Path.{sym, subst}
use neurahash_miner.Updates.Fetch.{fetch_best_manifest, Fetch, version_text}
use neurahash_miner.Updates.Signed.{verify_manifest-IsSigned, IsSigned}
use neurahash_miner.Updates.Version.{strip, is_forward, Text}
use neurahash_miner.Base.{
  not, none, if◌then◌else◌, Option, arith, false, ◌&&◌, pos, eq_ℤ, refl, Bool, some, [], ◌∷◌, true,
  ℤ, List, ◌≡◌, ℕ,
}
use neurahash_miner.Updates.Manifest.{
  verified, refused, verify_manifest, Verified, ReleaseKey, Manifest,
}
use neurahash_miner.Updates.Apply.{
  rate_limited, limited, fetch_failed, disabled, verify_failed, untracked_blockers,
  no_op_not_forward, failed_checkout, no_version_file, git_fetch_failed, version_parse_failed,
  supplied_test, fetched_test, chosen, forward_test, checkout_test, git_error, checked,
  text_or_empty, fetch_test, Line, update_to, git_raised, ran_restore, ran_head, ran_fetch,
  lower_text, eq_text, changed, ran_pip, ran_reexec, pip_step, recorded, before, mismatch,
  head_test, git_exit, saved_check, finish, ran_reclaim, Git, ended, ran_checkout, applied_update,
  Machine, Action, Effect, Outcome, check_and_update,
}

module _ (ext : ReleaseKey) (pubkey : ℕ) (w : Machine) where
  -- the pinned key signed the manifest, of this commit, and its version is above the local one
  pub record MayUpdate (m : Manifest) (commit : Text) : Type 0 where
    pub local_version : Text
    pub is_signed : IsSigned ext pubkey m
    pub has_commit : m.git_commit ≡ some commit
    pub is_local : w.local_version ≡ some local_version
    pub is_newer : is_forward (version_text m) local_version ≡ some true

  -- git says that the tree is the commit, but for case and space around it
  pub record MayRun (action : Action) : Type 0 where
    pub manifest : Manifest
    pub commit : Text
    pub head : Text
    pub rc : ℤ
    pub may_update : MayUpdate manifest commit
    pub is_applied : action ≡ applied_update
    pub at_head : w.git_head ≡ git_exit rc head
    pub head_exit : eq_ℤ rc (pos 0) ≡ true
    pub is_commit_head : eq_text (lower_text (strip head)) (lower_text commit) ≡ true

  -- what the code may do, where its result has the action
  abbrev pub Allowed : Action → Effect → Type 0
  Allowed a (ran_checkout commit) = (m : Manifest) × MayUpdate m commit
  Allowed a ran_reexec = MayRun a
  Allowed a ran_pip = MayRun a
  Allowed a (ran_reclaim m) = MayRun a
  Allowed a (saved_check t) = w.is_enabled ≡ true
  Allowed a ran_fetch = w.is_enabled ≡ true
  Allowed a ran_head = w.is_enabled ≡ true
  Allowed a ran_restore = w.is_enabled ≡ true
  Allowed a (recorded b) = a ≡ b

  abbrev pub AllAllowed : Action → List Effect → Type 0
  AllAllowed a [] = a ≡ a
  AllAllowed a (e ∷ es) = Allowed a e × AllAllowed a es

  abbrev pub IsSafe : Outcome → Type 0
  IsSafe o = AllAllowed o.action o.effects

  ended-IsSafe : (a : Action) → IsSafe (ended a)
  ended-IsSafe a = (refl, refl)

  test-IsSafe :
      (b : Bool) (x y : Outcome)
      → (b ≡ true → IsSafe x)
      → (b ≡ false → IsSafe y)
      → IsSafe (if b then x else y)
  test-IsSafe true x y p q = p refl
  test-IsSafe false x y p q = q refl

  finish-IsSafe : (m : Manifest) → MayRun applied_update → IsSafe (finish w m)
  finish-IsSafe m r = go (changed w.req_before w.req_after)
    where
      go :
          (b : Bool)
          → IsSafe (
              before (ran_reclaim m) (
                pip_step b record {
                  action = applied_update;
                  effects = recorded applied_update ∷ ran_reexec ∷ [];
                }))
      go true = (r, (r, (refl, (r, refl))))
      go false = (r, (refl, (r, refl)))

  mismatch-IsSafe : w.is_enabled ≡ true → IsSafe mismatch
  mismatch-IsSafe on = (on, (refl, refl))

  head-IsSafe :
      (m : Manifest) (commit : Text) (g : Git Text)
      → w.is_enabled ≡ true
      → MayUpdate m commit
      → w.git_head ≡ g
      → IsSafe (head_test w m commit g)
  head-IsSafe m commit git_raised on u e = mismatch-IsSafe on
  head-IsSafe m commit (git_exit rc head) on u e =
      test-IsSafe (eq_ℤ rc (pos 0) && eq_text (lower_text (strip head)) (lower_text commit))
        (finish w m) mismatch
        (λ b. finish-IsSafe m record {
          manifest = m;
          commit = commit;
          head = head;
          rc = rc;
          may_update = u;
          is_applied = refl;
          at_head = e;
          head_exit = ground (arith, b);
          is_commit_head = ground (arith, b);
        })
        (λ b. mismatch-IsSafe on)

  checkout-IsSafe :
      (m : Manifest) (commit : Text) (g : Git (List Line))
      → w.is_enabled ≡ true
      → MayUpdate m commit
      → IsSafe (checkout_test w m commit g)
  checkout-IsSafe m commit git_raised on u = ended-IsSafe git_error
  checkout-IsSafe m commit (git_exit rc out) on u =
      test-IsSafe (eq_ℤ rc (pos 0)) (before ran_head (head_test w m commit w.git_head))
        (ended (failed_checkout (untracked_blockers out)))
        (λ b. (on, head-IsSafe m commit w.git_head on u refl))
        (λ b. ended-IsSafe (failed_checkout (untracked_blockers out)))

  fetch-IsSafe :
      (m : Manifest) (commit : Text) (g : Git ℕ)
      → w.is_enabled ≡ true
      → MayUpdate m commit
      → IsSafe (fetch_test w m commit g)
  fetch-IsSafe m commit git_raised on u = ended-IsSafe git_error
  fetch-IsSafe m commit (git_exit rc out) on u =
      test-IsSafe (eq_ℤ rc (pos 0))
        (before (ran_checkout commit) (checkout_test w m commit w.git_checkout))
        (ended git_fetch_failed) (λ b. ((m, u), checkout-IsSafe m commit w.git_checkout on u))
        (λ b. ended-IsSafe git_fetch_failed)

  commit_text :
      (m : Manifest) → IsSigned ext pubkey m → m.git_commit ≡ some (text_or_empty m.git_commit)
  commit_text m s = subst (λ o. o ≡ some (text_or_empty o)) (sym s.has_commit) refl

  forward-IsSafe :
      (m : Manifest) (v : Text) (o : Option Bool)
      → w.is_enabled ≡ true
      → IsSigned ext pubkey m
      → w.local_version ≡ some v
      → is_forward (version_text m) v ≡ o
      → IsSafe (forward_test w m o)
  forward-IsSafe m v none on s l e = ended-IsSafe version_parse_failed
  forward-IsSafe m v (some false) on s l e = ended-IsSafe no_op_not_forward
  forward-IsSafe m v (some true) on s l e = (
    on,
    fetch-IsSafe m (text_or_empty m.git_commit) w.git_fetch on record {
      local_version = v;
      is_signed = s;
      has_commit = commit_text m s;
      is_local = l;
      is_newer = e;
    },
  )

  update-IsSafe :
      (m : Manifest) (v : Text)
      → w.is_enabled ≡ true
      → IsSigned ext pubkey m
      → w.local_version ≡ some v
      → IsSafe (update_to w v m)
  update-IsSafe m v on s l = forward-IsSafe m v (is_forward (version_text m) v) on s l refl

  supplied-IsSafe :
      (m : Manifest) (v : Text) (o : Verified)
      → w.is_enabled ≡ true
      → w.local_version ≡ some v
      → verify_manifest ext pubkey m ≡ o
      → IsSafe (supplied_test ext w v m o)
  supplied-IsSafe m v (refused f) on l e = ended-IsSafe verify_failed
  supplied-IsSafe m v (verified rec) on l e =
      update-IsSafe m v on (verify_manifest-IsSigned ext pubkey m rec e) l

  fetched-IsSafe :
      (f : Fetch) (v : Text) (o : Option Manifest)
      → w.is_enabled ≡ true
      → w.local_version ≡ some v
      → (fetch_best_manifest ext pubkey (pos 0) w.answers).manifest ≡ o
      → IsSafe (fetched_test ext w v f o)
  fetched-IsSafe f v none on l e =
      ended-IsSafe (if f.any_parsed then verify_failed else fetch_failed)
  fetched-IsSafe f v (some m) on l e =
      update-IsSafe m v on (fetched-IsSigned ext pubkey (pos 0) w.answers m e) l

  chosen-IsSafe :
      (v : Text) (o : Option Manifest)
      → w.is_enabled ≡ true
      → w.local_version ≡ some v
      → IsSafe (chosen ext pubkey w v o)
  chosen-IsSafe v (some m) on l = supplied-IsSafe m v (verify_manifest ext pubkey m) on l refl
  chosen-IsSafe v none on l =
      let f = fetch_best_manifest ext pubkey (pos 0) w.answers in
      fetched-IsSafe f v f.manifest on l refl

  checked-IsSafe : (o : Option Text) → w.local_version ≡ o → IsSafe (checked ext pubkey w o)
  checked-IsSafe none l = ended-IsSafe no_version_file
  checked-IsSafe (some v) l =
      test-IsSafe (not w.is_enabled) (record { action = disabled; effects = [] })
        (if limited w
          then record { action = rate_limited; effects = [] }
          else before (saved_check w.now) (chosen ext pubkey w v w.supplied))
        (λ b. refl)
        (λ b.
          test-IsSafe (limited w) (record { action = rate_limited; effects = [] })
            (before (saved_check w.now) (chosen ext pubkey w v w.supplied)) (λ c. refl)
            (λ c. (ground (arith, b), chosen-IsSafe v w.supplied (ground (arith, b)) l)))

  -- Of all that a check for updates does, whatever the mirrors, git and the caller give it: a commit
  -- is checked out only where a manifest names it that the pinned key signed and whose version is
  -- above the local one; files are reclaimed, packages installed and the program run again only
  -- where besides git then reports that commit as the head, and the result is an update.
  pub check_and_update-IsSafe : IsSafe (check_and_update ext pubkey w)
  unfolding check_and_update
  check_and_update-IsSafe = checked-IsSafe w.local_version refl
