-- ===== src/Updates/Tests.antt =====
-- The updater on concrete manifests: its witnesses, and the results of some runs.
use neurahash_miner.Base.{
  ◌-ℤ◌, ◌∙◌, sym, Option, insert, contains, arith, length, ◌<◌, if◌then◌else◌, lookup, ◌≤ℤ◌, false,
  refl, [], none, true, pos, ◌∷◌, List, ◌≡◌, ℕ, some,
}
use neurahash_miner.Updates.Manifest.{
  publish_block, is_commit, verify_manifest, absent, text, object, merge_url, signed_by, entry,
  Entry, stamp, ReleaseKey, Manifest,
}
use mathlib.Core.Path.{subst}
use neurahash_miner.Updates.Applies.{check_and_update_reaches}
use neurahash_miner.Updates.Complete.{reclaim_after_update_removes}
use neurahash_miner.Updates.Removal.{
  reclaim_pass, disabled_words, word_of, reclaim_mode, act_on_all, reclaim_obsolete_files,
  reclaim_after_update, reclaim_delete,
}
use neurahash_miner.Updates.Obsolete.{reclaim_after_update-IsObsolete}
use mathlib.Core.List.{Memᴰ}
use neurahash_miner.Updates.Reclaim.{
  verdicts_of, candidates_of, plan_reclaim, eq_path, untouchable, deleted, kept_for, ReclaimAction,
  Disk,
}
use neurahash_miner.Updates.Config.{
  is_url, apply_one, apply_manifest_config, merge_url_env, Applied,
}
use neurahash_miner.Updates.Paths.{mem_text, split_slashes, codes, normalise, never_touch}
use neurahash_miner.Updates.Version.{is_forward, strip, split_dots, parse_version, version_lt, Text}
use neurahash_miner.Updates.Fetch.{
  version_text, best_of, replayed, is_good, served, unreachable, Answer, fetch_best_manifest,
}
use neurahash_miner.Updates.Removed.{rels_of, IsObsolete}
use neurahash_miner.Updates.Signed.{IsSigned}
use neurahash_miner.Updates.Floor.{sync_from_manifest-later}
use neurahash_miner.Updates.Best.{fetch_best_manifest-wins}
use neurahash_miner.Updates.Winner.{here, later, version_of, Served}
use neurahash_miner.Updates.Defaults.{apply_manifest_config-fills, KeepsOrFills}
use neurahash_miner.Updates.Safe.{check_and_update-IsSafe, IsSafe}
use neurahash_miner.Updates.Sync.{
  machine_for, Synced, adopted, returned, run_syncs, Saved, sync_from_manifest,
}
use neurahash_miner.Updates.Apply.{
  lower_text, text_or_empty, eq_text, ran_reexec, ran_checkout, git_exit, applied_update,
  check_and_update, Machine,
}

abbrev commit : Text
commit = codes "0123abcd"

-- a signature is the key that made it
abbrev key : ReleaseKey
key = record { recover = λ body sig. some sig; lower = λ a. a }

abbrev config : List Entry
config = entry merge_url (text (codes "https://m.example/v1")) ∷ []

abbrev release : Text → ℕ → ℕ → Manifest
release v ts signer = record {
  version = some v;
  git_commit = some commit;
  published_ts = stamp (pos ts);
  signature = signed_by signer;
  min_client_version = none;
  config = object config;
  files = absent;
}

-- an honest mirror among one that does not answer, one with an old release and one that forges
abbrev mirrors : List Answer
mirrors =
    unreachable
    ∷ served (release (codes "1.2") 20 7)
    ∷ served (release (codes "9.0") 99 8)
    ∷ served (release (codes "1.10") 30 7)
    ∷ []

abbrev machine : Machine
machine = record {
  local_version = some (codes "1.2.0");
  is_enabled = true;
  honor_rate_limit = false;
  now = pos 100;
  last_check = pos 90;
  rate_limit = pos 60;
  supplied = none;
  answers = mirrors;
  git_fetch = git_exit (pos 0) 0;
  git_checkout = git_exit (pos 0) [];
  git_head = git_exit (pos 0) commit;
  req_before = some 1;
  req_after = some 1;
  can_reexec = true;
}

newest_chosen :
    (fetch_best_manifest key 7 (pos 0) mirrors).manifest ≡ some (release (codes "1.10") 30 7)
unfolding fetch_best_manifest best_of verify_manifest is_commit parse_version split_dots strip
    is_forward version_lt
newest_chosen = refl

update_runs : (check_and_update key 7 machine).action ≡ applied_update
unfolding check_and_update fetch_best_manifest best_of verify_manifest is_commit parse_version
    split_dots strip is_forward version_lt
update_runs = refl

abbrev empty_env : Applied
empty_env = record { env = []; names = [] }

spelling_refused : normalise (codes ".git./HEAD") ≡ none
unfolding normalise contains strip split_slashes
spelling_refused = refl

spelled_plain : normalise (codes " ./tools//old.py ") ≡ some (codes "tools" ∷ codes "old.py" ∷ [])
unfolding normalise contains strip split_slashes
spelled_plain = refl

wallet_untouched : never_touch (codes "miner" ∷ codes "MyWallet.json" ∷ []) ≡ true
unfolding never_touch
wallet_untouched = refl

module_touched : never_touch (codes "tools" ∷ codes "old_judge.py" ∷ []) ≡ false
unfolding never_touch
module_touched = refl

old_is_good : is_good key 7 (pos 10) (release (codes "1.2") 20 7) ≡ true
unfolding verify_manifest is_commit parse_version split_dots strip
old_is_good = refl

fetch_best_manifest-wins_example :
    (best : Manifest) × ((fetch_best_manifest key 7 (pos 10) mirrors).manifest ≡ some best)
    × Served best mirrors
    × IsSigned key 7 best
    × (replayed (pos 10) best ≡ false)
    × (version_lt (version_of best) (version_of (release (codes "1.2") 20 7)) ≡ false)
fetch_best_manifest-wins_example =
    fetch_best_manifest-wins key 7 (pos 10) mirrors (release (codes "1.2") 20 7) (later here)
      old_is_good

check_and_update-IsSafe_example : IsSafe key 7 machine (check_and_update key 7 machine)
check_and_update-IsSafe_example = check_and_update-IsSafe key 7 machine

apply_manifest_config-fills_example :
    KeepsOrFills merge_url_env [] (apply_manifest_config config empty_env).env
apply_manifest_config-fills_example = apply_manifest_config-fills config empty_env merge_url_env

-- a blank variable is filled, and one that an operator set is kept
url_filled :
    lookup merge_url_env (apply_manifest_config config empty_env).env
    ≡ some (codes "https://m.example/v1")
unfolding lookup apply_manifest_config apply_one is_url strip contains empty_env insert
url_filled = refl

url_kept :
    lookup merge_url_env
      (apply_manifest_config config record { env = (0, codes "mine") ∷ []; names = [] }).env
    ≡ some (codes "mine")
unfolding lookup apply_manifest_config apply_one is_url strip contains
url_kept = refl

abbrev saved : Saved
saved = record { last_check = pos 0; floor_ts = pos 10; min_client_version = none }

-- a client that has the newest version already
abbrev current : Machine
current = record machine { local_version = some (codes "1.10.0") }

abbrev newest : Manifest
newest = release (codes "1.10") 30 7

abbrev synced : Synced
synced = record {
  manifest = some newest;
  update = some (check_and_update key 7 (machine_for key true current saved newest));
  config = apply_manifest_config config empty_env;
  is_blocked = false;
}

first_returns : (sync_from_manifest key 7 true current empty_env saved).0 ≡ returned synced
unfolding sync_from_manifest fetch_best_manifest best_of verify_manifest is_commit parse_version
    split_dots strip is_forward version_lt check_and_update publish_block
first_returns = refl

second_adopted :
    adopted
      (sync_from_manifest key 7 true machine empty_env (
        run_syncs key 7
          ((false, machine, empty_env) ∷ [])
          ((sync_from_manifest key 7 true current empty_env saved).1))).0
    ≡ some newest
unfolding sync_from_manifest fetch_best_manifest best_of verify_manifest is_commit parse_version
    split_dots strip run_syncs is_forward version_lt check_and_update ◌-ℤ◌
second_adopted = refl

sync_from_manifest-later_example : pos 30 ≤ℤ pos 30
sync_from_manifest-later_example =
    sync_from_manifest-later key 7 true true current machine empty_env empty_env saved synced newest
      newest ((false, machine, empty_env) ∷ []) first_returns refl (omega arith) second_adopted

-- a sync that runs the program again leaves the floor at 10
floor_left : (sync_from_manifest key 7 true machine empty_env saved).1.floor_ts ≡ pos 10
unfolding sync_from_manifest fetch_best_manifest best_of verify_manifest is_commit parse_version
    split_dots strip is_forward version_lt check_and_update
floor_left = refl

abbrev sha : Text
sha = codes "0123456789abcdef0123456789abcdef0123456789abcdef0123456789abcdef"

abbrev disk : Disk
disk = record {
  normcase = λ p. p;
  look = λ p. record {
    is_inside = true;
    is_link = false;
    is_there = true;
    is_file = true;
    inode = some (if eq_path p (codes "a.py" ∷ []) then 1 else 2);
    sha = some sha;
  };
}

abbrev prev_files : List (Text × Text)
prev_files = (codes "a.py", sha) ∷ (codes "tools/old.py", sha) ∷ (codes ".env", sha) ∷ []

abbrev cur_files : List (Text × Text)
cur_files = (codes "a.py", sha) ∷ []

abbrev reclaimed : List ReclaimAction × List (Text × Text)
reclaimed =
    reclaim_after_update disk (λ rel. some sha) (λ rel. true) (some (codes " On")) none prev_files
      cur_files

abbrev removed : ReclaimAction
removed = record { rel = codes "tools/old.py"; verdict = deleted }

old_removed : reclaimed ≡ (
  record { rel = codes ".env"; verdict = kept_for untouchable } ∷ removed ∷ [],
  (codes "a.py", sha) ∷ (codes ".env", sha) ∷ [],
)
unfolding reclaim_after_update reclaim_obsolete_files act_on_all plan_reclaim candidates_of
    version_lt normalise contains strip split_slashes verdicts_of never_touch reclaim_mode
    reclaim_pass
old_removed = refl

removed_reported : Memᴰ removed reclaimed.0
unfolding reclaim_after_update reclaim_obsolete_files act_on_all plan_reclaim candidates_of
    version_lt normalise contains strip split_slashes verdicts_of never_touch reclaim_mode
    reclaim_pass
removed_reported = Memᴰ.tail (Memᴰ.head refl)

reclaim_after_update-IsObsolete_example :
    (reclaim_mode (some (codes " On")) none ≡ reclaim_delete)
    × (mem_text (word_of (some (codes " On"))) disabled_words ≡ false)
    × (0 < length cur_files)
    × IsObsolete disk (λ rel. some sha) (λ rel. true) prev_files cur_files (codes "tools/old.py")
    × ¬ Memᴰ (codes "tools/old.py") (rels_of reclaimed.1)
reclaim_after_update-IsObsolete_example =
    reclaim_after_update-IsObsolete disk (λ rel. some sha) (λ rel. true) (some (codes " On")) none
      prev_files cur_files removed removed_reported refl

abbrev newer_release : Manifest
newer_release = release (codes "1.10") 30 7

newest_is_good : is_good key 7 (pos 0) newer_release ≡ true
unfolding verify_manifest is_commit parse_version split_dots strip
newest_is_good = refl

newest_is_forward : is_forward (version_text newer_release) (codes "1.2.0") ≡ some true
unfolding is_forward parse_version split_dots strip version_lt
newest_is_forward = refl

abbrev commit_of : Option Manifest → Text
commit_of none = []
commit_of (some m) = text_or_empty m.git_commit

commit_same : eq_text (lower_text (strip commit)) (lower_text commit) ≡ true
unfolding strip
commit_same = refl

commit_shown :
    (b : Manifest)
    → ◌≡◌ {A = Option Manifest} (some newer_release) (some b)
    → eq_text (lower_text (strip commit)) (lower_text (text_or_empty b.git_commit)) ≡ true
commit_shown b e =
    subst (λ o. eq_text (lower_text (strip commit)) (lower_text (commit_of o)) ≡ true) e commit_same

head_is_commit :
    (b : Manifest)
    → (fetch_best_manifest key 7 (pos 0) mirrors).manifest ≡ some b
    → eq_text (lower_text (strip commit)) (lower_text (text_or_empty b.git_commit)) ≡ true
head_is_commit b e = commit_shown b (sym newest_chosen ∙ e)

check_and_update_reaches_example :
    (best : Manifest) × (text_commit : Text) × (best.git_commit ≡ some text_commit)
    × IsSigned key 7 best
    × (version_lt (version_of best) (version_of newer_release) ≡ false)
    × ((check_and_update key 7 machine).action ≡ applied_update)
    × Memᴰ (ran_checkout text_commit) (check_and_update key 7 machine).effects
    × Memᴰ ran_reexec (check_and_update key 7 machine).effects
check_and_update_reaches_example =
    check_and_update_reaches key 7 machine (codes "1.2.0") newer_release commit 0 [] refl refl refl
      refl refl refl refl head_is_commit (later (later (later here))) newest_is_good
      newest_is_forward

old_file-IsObsolete :
    IsObsolete disk (λ rel. some sha) (λ rel. true) prev_files cur_files (codes "tools/old.py")
unfolding normalise contains strip split_slashes never_touch candidates_of version_lt
old_file-IsObsolete = record {
  is_recorded = Memᴰ.tail (Memᴰ.head refl);
  path = codes "tools" ∷ codes "old.py" ∷ [];
  is_path = refl;
  is_dropped = refl;
  may_be_touched = refl;
  is_plain = (refl, refl, refl, refl, refl, refl, refl);
  is_unchanged = refl;
  is_small_pass = refl;
}

armed : reclaim_mode (some (codes " On")) none ≡ reclaim_delete
unfolding reclaim_mode strip
armed = refl

reclaim_after_update_removes_example : Memᴰ removed reclaimed.0
reclaim_after_update_removes_example =
    reclaim_after_update_removes disk (λ rel. some sha) (λ rel. true) (some (codes " On")) none
      prev_files cur_files (codes "tools/old.py") armed (omega arith) old_file-IsObsolete refl
