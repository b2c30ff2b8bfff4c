-- ===== src/Updates/Applies.antt =====
-- tools/self_update.py: a newer release that some mirror serves is applied.
use neurahash_miner.Base.{
  ◌∷◌, ◌∙◌, Bool, inr, inl, Bool-cases, arith, refl, Option, none, false, true, some, pos, ◌≡◌, ℕ,
}
use mathlib.Core.List.{[], List, Memᴰ}
use mathlib.Core.Path.{ap, sym, subst}
use neurahash_miner.Updates.Version.{
  strip, version_lt_cotrans, forward_of, Text, is_forward, version_lt, parse_version,
}
use neurahash_miner.Updates.Manifest.{ReleaseKey, Manifest}
use neurahash_miner.Updates.Signed.{IsSigned}
use neurahash_miner.Updates.Fetch.{fetch_best_manifest, is_good, version_text}
use neurahash_miner.Updates.Apply.{
  changed, ran_head, recorded, pip_step, ran_reclaim, lower_text, eq_text, applied_update, finish,
  Line, ran_reexec, ran_fetch, saved_check, before, Machine, git_exit, ran_checkout,
  check_and_update, limited, text_or_empty, fetch_test,
}
use neurahash_miner.Updates.Winner.{version_or_zero, Served, version_of}
use neurahash_miner.Updates.Best.{fetch_best_manifest-wins}

-- a version that is not below one that is newer than the local one is newer too
forward_of_up :
    (new best cur : Option (List ℕ)) (numbers : List ℕ)
    → forward_of new cur ≡ some true
    → best ≡ some numbers
    → version_lt (version_or_zero best) (version_or_zero new) ≡ false
    → forward_of best cur ≡ some true
forward_of_up none best cur numbers e p l = absurd (ground (arith, e))
forward_of_up (some x) none cur numbers e p l = absurd (ground (arith, p))
forward_of_up (some x) (some y) none numbers e p l = absurd (ground (arith, e))
forward_of_up (some x) (some y) (some z) numbers e p l = elim (Bool-cases (version_lt z y)) [
  | inl a ↦ ap some a
  | inr a ↦ absurd (ground (arith, e, version_lt_cotrans z y x a l))
]

module _ (ext : ReleaseKey) (pubkey : ℕ) (w : Machine) where
  -- the end of an update that git carries out
  finish-mem : (m : Manifest) → Memᴰ ran_reexec (finish w m).effects
  finish-mem m = go (changed w.req_before w.req_after)
    where
      go :
          (b : Bool)
          → Memᴰ ran_reexec
              (before (ran_reclaim m) (
                pip_step b record {
                  action = applied_update;
                  effects = recorded applied_update ∷ ran_reexec ∷ [];
                })).effects
      go true = Memᴰ.tail (Memᴰ.tail (Memᴰ.tail (Memᴰ.head refl)))
      go false = Memᴰ.tail (Memᴰ.tail (Memᴰ.head refl))

  finish_action : (m : Manifest) → (finish w m).action ≡ applied_update
  finish_action m = ground arith

  fetch_runs :
      (m : Manifest) (commit head : Text) (out : ℕ) (lines : List Line)
      → w.git_fetch ≡ git_exit (pos 0) out
      → w.git_checkout ≡ git_exit (pos 0) lines
      → w.git_head ≡ git_exit (pos 0) head
      → eq_text (lower_text (strip head)) (lower_text commit) ≡ true
      → fetch_test w m commit w.git_fetch
        ≡ before (ran_checkout commit) (before ran_head (finish w m))
  fetch_runs m commit head out lines f c h e = ground (arith, f, c, h, e)

  runs :
      (v : Text) (best : Manifest)
      → w.local_version ≡ some v
      → w.is_enabled ≡ true
      → limited w ≡ false
      → w.supplied ≡ none
      → (fetch_best_manifest ext pubkey (pos 0) w.answers).manifest ≡ some best
      → forward_of (parse_version (version_text best)) (parse_version v) ≡ some true
      → check_and_update ext pubkey w
        ≡ before
            (saved_check w.now)
            (before ran_fetch (fetch_test w best (text_or_empty best.git_commit) w.git_fetch))
  unfolding check_and_update is_forward
  runs v best l on fast given e newer = ground (arith, l, on, fast, given, e, newer)

  -- Where the updater is on and not limited, a mirror serves a manifest that is signed by the pinned
  -- key and newer than the local version, no manifest is supplied, `git fetch` and `git checkout`
  -- succeed, and git then reports the commit of the manifest that was fetched as the head, the
  -- update is applied, whatever the other mirrors serve: the commit of a manifest signed by the
  -- pinned key, whose version is not below the one served, is checked out, and the program is run
  -- again.
  pub check_and_update_reaches :
      (v : Text) (m : Manifest) (head : Text) (out : ℕ) (lines : List Line)
      → w.local_version ≡ some v
      → w.is_enabled ≡ true
      → limited w ≡ false
      → w.supplied ≡ none
      → w.git_fetch ≡ git_exit (pos 0) out
      → w.git_checkout ≡ git_exit (pos 0) lines
      → w.git_head ≡ git_exit (pos 0) head
      → ((b : Manifest)
          → (fetch_best_manifest ext pubkey (pos 0) w.answers).manifest ≡ some b
          → eq_text (lower_text (strip head)) (lower_text (text_or_empty b.git_commit)) ≡ true)
      → Served m w.answers
      → is_good ext pubkey (pos 0) m ≡ true
      → is_forward (version_text m) v ≡ some true
      → (best : Manifest) × (commit : Text) × (best.git_commit ≡ some commit)
        × IsSigned ext pubkey best
        × (version_lt (version_of best) (version_of m) ≡ false)
        × ((check_and_update ext pubkey w).action ≡ applied_update)
        × Memᴰ (ran_checkout commit) (check_and_update ext pubkey w).effects
        × Memᴰ ran_reexec (check_and_update ext pubkey w).effects
  unfolding check_and_update is_forward
  check_and_update_reaches v m head out lines l on fast none_given f c h is_head s g newer =
      let win = fetch_best_manifest-wins ext pubkey (pos 0) w.answers m s g in
      let best = win.0 in
      let signed = win.3 in
      let parses : parse_version (version_text best) ≡ some signed.numbers =
        ground (arith, signed.has_version, signed.version_parses) in
      let forward : forward_of (parse_version (version_text best)) (parse_version v) ≡ some true =
        forward_of_up (parse_version (version_text m)) (parse_version (version_text best))
          (parse_version v) signed.numbers newer parses win.5 in
      let commit = text_or_empty best.git_commit in
      let done =
        runs v best l on fast none_given win.1 forward
        ∙ ap (λ o. before (saved_check w.now) (before ran_fetch o))
            (fetch_runs best commit head out lines f c h (is_head best win.1)) in
      (
        best,
        commit,
        subst (λ o. o ≡ some (text_or_empty o)) (sym signed.has_commit) refl,
        signed,
        win.5,
        ap (λ o. o.action) done ∙ finish_action best,
        subst (λ o. Memᴰ (ran_checkout commit) o.effects) (sym done)
            (Memᴰ.tail (Memᴰ.tail (Memᴰ.head refl))),
        subst (λ o. Memᴰ ran_reexec o.effects) (sym done)
            (Memᴰ.tail (Memᴰ.tail (Memᴰ.tail (Memᴰ.tail (finish-mem best))))),
      )
