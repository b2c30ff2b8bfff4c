-- ===== src/Updates/Sync.antt =====
-- tools/self_update.py: the call that a launcher makes, and what it keeps in the state file.
use neurahash_miner.Base.{
  true, false, none, [], max_ℤ, some, not, if◌then◌else◌, ◌∷◌, List, Bool, ℤ, ℕ, Option,
}
use neurahash_miner.Updates.Version.{Text}
use neurahash_miner.Updates.Manifest.{ReleaseKey, Manifest, publish_block, declared}
use neurahash_miner.Updates.Fetch.{fetch_best_manifest, published}
use neurahash_miner.Updates.Apply.{
  applied_update, Action, saved_check, Machine, Outcome, Effect, check_and_update,
}
use neurahash_miner.Updates.Config.{Applied, apply_manifest_config}

-- the state file, without the report of the last update and the list of shipped files
pub record Saved : Type 0 where
  pub last_check : ℤ
  pub floor_ts : ℤ
  pub min_client_version : Option Text

-- `SyncResult`
pub record Synced : Type 0 where
  pub manifest : Option Manifest
  pub update : Option Outcome
  pub config : Applied
  pub is_blocked : Bool

-- how a sync ends: it returns, or the program is run again on the commit of a manifest
pub data SyncEnd : Type 0 where
  returned : Synced → SyncEnd
  replaced : Manifest → SyncEnd

-- what a sync adopts
abbrev pub adopted : SyncEnd → Option Manifest
adopted (returned r) = r.manifest
adopted (replaced m) = some m

-- `SyncResult()`
abbrev pub no_sync : Applied → Synced
no_sync env = record { manifest = none; update = none; config = env; is_blocked = false }

abbrev pub is_applied : Action → Bool
is_applied applied_update = true
is_applied _ = false

-- the stamp of the last check, after what was done
abbrev pub stamped : List Effect → ℤ → ℤ
stamped [] t = t
stamped (saved_check now ∷ es) t = stamped es now
stamped (_ ∷ es) t = stamped es t

-- What follows an update check that returns. The floor is raised to the manifest's stamp.
abbrev pub keep_floor : Outcome → Machine → Applied → Saved → Manifest → SyncEnd × Saved
keep_floor o w env saved m = (
  returned record {
    manifest = some m;
    update = some o;
    config = apply_manifest_config (declared m.config) env;
    is_blocked = publish_block m.min_client_version w.local_version;
  },
  record {
    last_check = stamped o.effects saved.last_check;
    floor_ts = max_ℤ saved.floor_ts (published m.published_ts);
    min_client_version = m.min_client_version;
  },
)

-- An update that is applied runs the program again and does not return: only the stamp of the check
-- was saved. Where the program cannot be run again, the exception ends the sync.
abbrev pub run_again : Outcome → Machine → Applied → Saved → Manifest → SyncEnd × Saved
run_again o w env saved m = (
  if w.can_reexec then replaced m else returned (no_sync env),
  record saved { last_check = stamped o.effects saved.last_check },
)

module _ (ext : ReleaseKey) where
  abbrev pub machine_for : Bool → Machine → Saved → Manifest → Machine
  machine_for startup w saved m = record w {
    honor_rate_limit = not startup;
    last_check = saved.last_check;
    supplied = some m;
  }

  abbrev pub adopt : ℕ → Bool → Machine → Applied → Saved → Option Manifest → SyncEnd × Saved
  adopt pubkey startup w env saved none = (
    returned record {
      manifest = none;
      update = none;
      config = env;
      is_blocked = publish_block saved.min_client_version w.local_version;
    },
    saved,
  )
  adopt pubkey startup w env saved (some m) =
      let o = check_and_update ext pubkey (machine_for startup w saved m) in
      if is_applied o.action then run_again o w env saved m else keep_floor o w env saved m

  unfoldable pub sync_from_manifest : ℕ → Bool → Machine → Applied → Saved → SyncEnd × Saved
  sync_from_manifest pubkey startup w env saved =
      if not w.is_enabled
      then (returned (no_sync env), saved)
      else adopt pubkey startup w env saved
          ((fetch_best_manifest ext pubkey saved.floor_ts w.answers).manifest)

  -- the state file after a number of syncs
  unfoldable pub run_syncs : ℕ → List (Bool × Machine × Applied) → Saved → Saved
  run_syncs pubkey [] saved = saved
  run_syncs pubkey ((startup, w, env) ∷ syncs) saved =
      run_syncs pubkey syncs ((sync_from_manifest pubkey startup w env saved).1)
