-- ===== src/Updates/Removal.antt =====
-- tools/self_update.py: the removal of what a plan allows, and the ledger of shipped files after it.
-- What the file system answers in the second pass is given. A planning that raises, after which
-- nothing is removed, is left out.
use neurahash_miner.Base.{not, none, ◌∷◌, some, [], if◌then◌else◌, Bool, Option, List}
use neurahash_miner.Updates.Version.{Text, strip}
use neurahash_miner.Updates.Apply.{lower_text, eq_text}
use neurahash_miner.Updates.Paths.{codes, all_codes, mem_text}
use neurahash_miner.Updates.Reclaim.{
  would_delete, kept_for, changed_since, deleted, removal_error, Disk, ReclaimAction, Verdict,
  plan_reclaim, recorded_sha,
}

pub data ReclaimMode : Type 0 where
  reclaim_off reclaim_dry reclaim_delete : ReclaimMode

abbrev pub armed_words : List Text
armed_words =
    all_codes ("1" ∷ "true" ∷ "yes" ∷ "on" ∷ "delete" ∷ "apply" ∷ "reclaim" ∷ "enabled" ∷ [])

abbrev pub disabled_words : List Text
disabled_words = all_codes ("0" ∷ "false" ∷ "no" ∷ "off" ∷ "never" ∷ "disabled" ∷ [])

abbrev pub word_of : Option Text → Text
word_of none = []
word_of (some s) = lower_text (strip s)

-- what an override that is no empty text asks for
abbrev pub mode_named : Text → ReclaimMode
mode_named ov =
    if eq_text ov (codes "off")
    then reclaim_off
    else if eq_text ov (codes "delete")
    then reclaim_delete
    else reclaim_dry

abbrev pub mode_of_word : Text → ReclaimMode
mode_of_word raw =
    if mem_text raw armed_words
    then reclaim_delete
    else if mem_text raw disabled_words
    then reclaim_off
    else reclaim_dry

-- the variable of the environment, and the override that a caller gives
unfoldable pub reclaim_mode : Option Text → Option Text → ReclaimMode
reclaim_mode env none = mode_of_word (word_of env)
reclaim_mode env (some []) = mode_of_word (word_of env)
reclaim_mode env (some (c ∷ s)) =
    if mem_text (word_of env) disabled_words
    then reclaim_off
    else mode_named (lower_text (strip (c ∷ s)))

-- a removal, after the file is hashed again; the second argument is what `os.remove` does
abbrev pub removal : Text → Option Text → Bool → Verdict
removal want none removes = kept_for changed_since
removal want (some have) removes =
    if not (eq_text (lower_text have) want)
    then kept_for changed_since
    else if removes
    then deleted
    else removal_error

abbrev pub acted_on :
    (Text → Option Text)
    → (Text → Bool)
    → List (Text × Text)
    → ReclaimAction
    → Verdict
    → ReclaimAction
acted_on rehash removes prev a would_delete = record {
  rel = a.rel;
  verdict = removal (recorded_sha a.rel prev) (rehash a.rel) (removes a.rel);
}
acted_on rehash removes prev a _ = a

abbrev pub act_on :
    (Text → Option Text) → (Text → Bool) → List (Text × Text) → ReclaimAction → ReclaimAction
act_on rehash removes prev a = acted_on rehash removes prev a a.verdict

unfoldable pub act_on_all :
    (Text → Option Text)
    → (Text → Bool)
    → List (Text × Text)
    → List ReclaimAction
    → List ReclaimAction
act_on_all rehash removes prev [] = []
act_on_all rehash removes prev (a ∷ actions) =
    act_on rehash removes prev a ∷ act_on_all rehash removes prev actions

-- a pass in a mode, given the digests and removals of the second look
unfoldable pub reclaim_pass :
    Disk
    → (Text → Option Text)
    → (Text → Bool)
    → ReclaimMode
    → List (Text × Text)
    → List (Text × Text)
    → List ReclaimAction
reclaim_pass d rehash removes reclaim_off prev cur = []
reclaim_pass d rehash removes mode prev [] = []
reclaim_pass d rehash removes reclaim_dry prev (f ∷ cur) = (plan_reclaim d prev (f ∷ cur)).1
reclaim_pass d rehash removes reclaim_delete prev (f ∷ cur) =
    act_on_all rehash removes prev ((plan_reclaim d prev (f ∷ cur)).1)

-- the environment's variable and a caller's override choose the mode
unfoldable pub reclaim_obsolete_files :
    Disk
    → (Text → Option Text)
    → (Text → Bool)
    → Option Text
    → Option Text
    → List (Text × Text)
    → List (Text × Text)
    → List ReclaimAction
reclaim_obsolete_files d rehash removes env override prev cur =
    reclaim_pass d rehash removes (reclaim_mode env override) prev cur

abbrev pub put_text : Text → Text → List (Text × Text) → List (Text × Text)
put_text k v [] = (k, v) ∷ []
put_text k v ((j, w) ∷ m) =
    let rest = put_text k v m in if eq_text j k then (k, v) ∷ m else (j, w) ∷ rest

abbrev pub put_all : List (Text × Text) → List (Text × Text) → List (Text × Text)
put_all m [] = m
put_all m ((k, v) ∷ kvs) = put_all (put_text k v m) kvs

abbrev pub drop_text : Text → List (Text × Text) → List (Text × Text)
drop_text k [] = []
drop_text k ((j, w) ∷ m) = let rest = drop_text k m in if eq_text j k then rest else (j, w) ∷ rest

abbrev pub drop_if : Verdict → Text → List (Text × Text) → List (Text × Text)
drop_if deleted k m = drop_text k m
drop_if _ k m = m

abbrev pub drop_deleted : List ReclaimAction → List (Text × Text) → List (Text × Text)
drop_deleted [] m = m
drop_deleted (a ∷ actions) m = drop_if a.verdict a.rel (drop_deleted actions m)

-- `_reclaim_after_update`, given the variable of the environment and the override: the report's
-- actions, and the ledger as it is kept
unfoldable pub reclaim_after_update :
    Disk
    → (Text → Option Text)
    → (Text → Bool)
    → Option Text
    → Option Text
    → List (Text × Text)
    → List (Text × Text)
    → List ReclaimAction × List (Text × Text)
reclaim_after_update d rehash removes env override prev cur =
    let actions = reclaim_obsolete_files d rehash removes env override prev cur in
    (actions, drop_deleted actions (put_all prev cur))
