-- ===== src/Updates/Apply.antt =====
-- tools/self_update.py: one check for an update, as its result and what it does, in order. What a
-- message says is left out.
use neurahash_miner.Base.{
  ◌+◌, ◌-ℤ◌, none, pos, ltb_ℤ, ◌==◌, eq_ℤ, not, any_of, ◌||◌, leb, if◌then◌else◌, [], ◌&&◌, false,
  some, true, Option, ℤ, ℕ, ◌∷◌, List, Bool,
}
use neurahash_miner.Updates.Version.{Text, strip, is_forward}
use neurahash_miner.Updates.Manifest.{
  verified, refused, Verified, ReleaseKey, Manifest, verify_manifest,
}
use neurahash_miner.Updates.Fetch.{version_text, Answer, Fetch, fetch_best_manifest}

-- what git answers: it raised, or its return code and output
pub data Git (A : Type 0) : Type 0 where
  git_raised : Git A
  git_exit : ℤ → A → Git A

-- a line of git's output, as the code tests it
pub record Line : Type 0 where
  pub is_marker : Bool
  pub is_blank : Bool
  pub is_tail : Bool
  pub is_indented : Bool
  pub path : ℕ

-- the tag of a result
pub data Action : Type 0 where
  disabled rate_limited no_version_file verify_failed fetch_failed : Action
  version_parse_failed no_op_not_forward git_fetch_failed : Action
  git_checkout_untracked git_checkout_failed git_error head_mismatch applied_update : Action

pub data Effect : Type 0 where
  saved_check : ℤ → Effect
  ran_fetch ran_head ran_restore ran_pip ran_reexec : Effect
  ran_checkout : Text → Effect
  ran_reclaim : Manifest → Effect
  recorded : Action → Effect

pub record Outcome : Type 0 where
  pub action : Action
  pub effects : List Effect

-- What a check finds. `local_version` is none where the file cannot be read or does not parse; a
-- supplied manifest takes the place of the mirrors.
pub record Machine : Type 0 where
  pub local_version : Option Text
  pub is_enabled : Bool
  pub honor_rate_limit : Bool
  pub now : ℤ
  pub last_check : ℤ
  pub rate_limit : ℤ
  pub supplied : Option Manifest
  pub answers : List Answer
  pub git_fetch : Git ℕ
  pub git_checkout : Git (List Line)
  pub git_head : Git Text
  pub req_before : Option ℕ
  pub req_after : Option ℕ
  pub can_reexec : Bool

-- the loop of `untracked_blockers`, before and after the marker
unfoldable pub collect_blockers : Bool → List Line → List ℕ
collect_blockers collecting [] = []
collect_blockers false (l ∷ ls) =
    let on = collect_blockers true ls in
    let rest = collect_blockers false ls in if l.is_marker then on else rest
collect_blockers true (l ∷ ls) =
    let rest = collect_blockers true ls in
    if l.is_marker
    then rest
    else if l.is_blank || (l.is_tail || not l.is_indented)
    then []
    else l.path ∷ rest

unfoldable pub untracked_blockers : List Line → List ℕ
untracked_blockers ls = if any_of (λ l. l.is_marker) ls then collect_blockers false ls else []

abbrev pub lower_char : ℕ → ℕ
lower_char c = if leb 65 c && leb c 90 then c + 32 else c

abbrev pub lower_text : Text → Text
lower_text [] = []
lower_text (c ∷ s) = lower_char c ∷ lower_text s

abbrev pub eq_text : Text → Text → Bool
eq_text [] [] = true
eq_text [] (d ∷ t) = false
eq_text (c ∷ s) [] = false
eq_text (c ∷ s) (d ∷ t) = (c == d) && eq_text s t

-- `_announce` of a result
abbrev pub ended : Action → Outcome
ended a = record { action = a; effects = recorded a ∷ [] }

abbrev pub before : Effect → Outcome → Outcome
before e o = record { action = o.action; effects = e ∷ o.effects }

-- `req_after and req_after != req_before`
abbrev pub changed : Option ℕ → Option ℕ → Bool
changed old none = false
changed none (some new) = true
changed (some old) (some new) = not (old == new)

abbrev pub pip_step : Bool → Outcome → Outcome
pip_step true o = before ran_pip o
pip_step false o = o

-- steps 6b to 8, on a tree that is the signed commit
abbrev pub finish : Machine → Manifest → Outcome
finish w m = before (ran_reclaim m) (
    pip_step (changed w.req_before w.req_after)
      record { action = applied_update; effects = recorded applied_update ∷ ran_reexec ∷ [] })

abbrev pub mismatch : Outcome
mismatch = before ran_restore (ended head_mismatch)

abbrev pub head_test : Machine → Manifest → Text → Git Text → Outcome
head_test w m commit git_raised = mismatch
head_test w m commit (git_exit rc head) =
    if eq_ℤ rc (pos 0) && eq_text (lower_text (strip head)) (lower_text commit)
    then finish w m
    else mismatch

abbrev pub failed_checkout : List ℕ → Action
failed_checkout [] = git_checkout_failed
failed_checkout (path ∷ paths) = git_checkout_untracked

abbrev pub checkout_test : Machine → Manifest → Text → Git (List Line) → Outcome
checkout_test w m commit git_raised = ended git_error
checkout_test w m commit (git_exit rc out) =
    if eq_ℤ rc (pos 0)
    then before ran_head (head_test w m commit w.git_head)
    else ended (failed_checkout (untracked_blockers out))

abbrev pub fetch_test : Machine → Manifest → Text → Git ℕ → Outcome
fetch_test w m commit git_raised = ended git_error
fetch_test w m commit (git_exit rc out) =
    if eq_ℤ rc (pos 0)
    then before (ran_checkout commit) (checkout_test w m commit w.git_checkout)
    else ended git_fetch_failed

abbrev pub text_or_empty : Option Text → Text
text_or_empty none = []
text_or_empty (some s) = s

-- the gate of the version, and the update
abbrev pub forward_test : Machine → Manifest → Option Bool → Outcome
forward_test w m none = ended version_parse_failed
forward_test w m (some false) = ended no_op_not_forward
forward_test w m (some true) =
    before ran_fetch (fetch_test w m (text_or_empty m.git_commit) w.git_fetch)

abbrev pub update_to : Machine → Text → Manifest → Outcome
update_to w local_version m = forward_test w m (is_forward (version_text m) local_version)

abbrev pub limited : Machine → Bool
limited w = w.honor_rate_limit && ltb_ℤ (w.now -ℤ w.last_check) w.rate_limit

module _ (ext : ReleaseKey) where
  abbrev pub supplied_test : Machine → Text → Manifest → Verified → Outcome
  supplied_test w v m (refused fault) = ended verify_failed
  supplied_test w v m (verified signer) = update_to w v m

  abbrev pub fetched_test : Machine → Text → Fetch → Option Manifest → Outcome
  fetched_test w v f none = ended (if f.any_parsed then verify_failed else fetch_failed)
  fetched_test w v f (some m) = update_to w v m

  abbrev pub chosen : ℕ → Machine → Text → Option Manifest → Outcome
  chosen pubkey w v (some m) = supplied_test w v m (verify_manifest ext pubkey m)
  chosen pubkey w v none =
      let f = fetch_best_manifest ext pubkey (pos 0) w.answers in fetched_test w v f f.manifest

  abbrev pub checked : ℕ → Machine → Option Text → Outcome
  checked pubkey w none = ended no_version_file
  checked pubkey w (some v) =
      if not w.is_enabled
      then record { action = disabled; effects = [] }
      else if limited w
      then record { action = rate_limited; effects = [] }
      else before (saved_check w.now) (chosen pubkey w v w.supplied)

  unfoldable pub check_and_update : ℕ → Machine → Outcome
  check_and_update pubkey w = checked pubkey w w.local_version
