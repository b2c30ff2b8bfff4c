-- ===== src/Updates/Reclaim.antt =====
-- tools/self_update.py: which files of an older release may be removed. A path is the list of its
-- components; what the code asks the file system about a path is given.
use neurahash_miner.Base.{
  ◌/◌, ◌==◌, length, true, leb, ltb, contains, none, not, ◌||◌, ℕ, if◌then◌else◌, ◌∷◌, some, [],
  false, ◌&&◌, Option, Bool, List,
}
use neurahash_miner.Updates.Version.{Text, strip, version_lt}
use neurahash_miner.Updates.Manifest.{all_hex}
use neurahash_miner.Updates.Apply.{lower_text, eq_text}
use neurahash_miner.Updates.Paths.{normalise, never_touch}

abbrev pub eq_path : List Text → List Text → Bool
eq_path [] [] = true
eq_path [] (t ∷ q) = false
eq_path (s ∷ p) [] = false
eq_path (s ∷ p) (t ∷ q) = eq_text s t && eq_path p q

abbrev pub mem_path : List Text → List (List Text) → Bool
mem_path p [] = false
mem_path p (q ∷ qs) = eq_path p q || mem_path p qs

-- what the code asks of a path under the install root
pub record FileView : Type 0 where
  pub is_inside : Bool
  pub is_link : Bool
  pub is_there : Bool
  pub is_file : Bool
  pub inode : Option ℕ
  pub sha : Option Text

pub data Why : Type 0 where
  mass_delete unsafe_path untouchable outside_root symlink not_regular : Why
  still_shipped no_recorded_sha unreadable user_modified changed_since : Why

pub data Verdict : Type 0 where
  would_delete deleted already_absent removal_error : Verdict
  kept_for : Why → Verdict

pub record ReclaimAction : Type 0 where
  pub rel : Text
  pub verdict : Verdict

-- what the operating system provides: the normal case of a path, and the look at one
pub record Disk : Type 0 where
  pub normcase : List Text → List Text
  pub look : List Text → FileView

abbrev pub normal_paths : Disk → List (Text × Text) → List (List Text)
normal_paths d [] = []
normal_paths d ((rel, sha) ∷ files) =
    let rest = normal_paths d files in
    elim (normalise rel) [ none ↦ rest | some p ↦ d.normcase p ∷ rest ]

abbrev pub with_inode : Option ℕ → List ℕ → List ℕ
with_inode none ids = ids
with_inode (some i) ids = i ∷ ids

abbrev pub shipped_inodes : Disk → List (Text × Text) → List ℕ
shipped_inodes d [] = []
shipped_inodes d ((rel, sha) ∷ files) =
    let rest = shipped_inodes d files in
    elim (normalise rel) [ none ↦ rest | some p ↦ with_inode (d.look p).inode rest ]

-- a path that is still shipped is no candidate; one that is unsafe stays one
abbrev pub is_shipped : Disk → List (List Text) → Option (List Text) → Bool
is_shipped d cur none = false
is_shipped d cur (some p) = mem_path (d.normcase p) cur

abbrev pub insert_text : Text → List Text → List Text
insert_text s [] = s ∷ []
insert_text s (t ∷ ts) =
    let rest = insert_text s ts in if version_lt t s then t ∷ rest else s ∷ t ∷ ts

abbrev pub sorted_texts : List (Text × Text) → List Text
sorted_texts [] = []
sorted_texts ((rel, sha) ∷ files) = insert_text rel (sorted_texts files)

unfoldable pub candidates_of : Disk → List (List Text) → List Text → List Text
candidates_of d cur [] = []
candidates_of d cur (rel ∷ rels) =
    let rest = candidates_of d cur rels in
    if is_shipped d cur (normalise rel) then rest else rel ∷ rest

abbrev pub recorded_sha : Text → List (Text × Text) → Text
recorded_sha rel [] = []
recorded_sha rel ((k, sha) ∷ files) =
    let rest = recorded_sha rel files in if eq_text k rel then lower_text (strip sha) else rest

abbrev pub is_sha256 : Text → Bool
is_sha256 s = all_hex s && (length s == 64)

abbrev pub mem_inode : Option ℕ → List ℕ → Bool
mem_inode none ids = false
mem_inode (some i) ids = contains i ids

abbrev pub sha_verdict : Text → Option Text → Verdict
sha_verdict want none = kept_for unreadable
sha_verdict want (some have) =
    if eq_text (lower_text have) want then would_delete else kept_for user_modified

-- the tests of a file that is there, with the digest that the older release recorded
abbrev pub file_verdict : FileView → List ℕ → Text → Verdict
file_verdict f ids want =
    if not f.is_inside
    then kept_for outside_root
    else if f.is_link
    then kept_for symlink
    else if not f.is_there
    then already_absent
    else if not f.is_file
    then kept_for not_regular
    else if mem_inode f.inode ids
    then kept_for still_shipped
    else if not (is_sha256 want)
    then kept_for no_recorded_sha
    else sha_verdict want f.sha

abbrev pub path_verdict : Disk → List ℕ → Text → Option (List Text) → Verdict
path_verdict d ids want none = kept_for unsafe_path
path_verdict d ids want (some p) =
    if never_touch p then kept_for untouchable else file_verdict (d.look p) ids want

unfoldable pub verdicts_of : Disk → List (Text × Text) → List ℕ → List Text → List ReclaimAction
verdicts_of d prev ids [] = []
verdicts_of d prev ids (rel ∷ rels) =
    record { rel = rel; verdict = path_verdict d ids (recorded_sha rel prev) (normalise rel) }
    ∷ verdicts_of d prev ids rels

abbrev pub all_refused : List Text → List ReclaimAction
all_refused [] = []
all_refused (rel ∷ rels) = record { rel = rel; verdict = kept_for mass_delete } ∷ all_refused rels

-- `max(RECLAIM_MIN_ABSOLUTE, int(RECLAIM_MAX_FRACTION * len(prev_files)))`
abbrev pub ceiling : List (Text × Text) → ℕ
ceiling prev = if leb (length prev / 4) 5 then 5 else length prev / 4

unfoldable pub plan_reclaim :
    Disk → List (Text × Text) → List (Text × Text) → List Text × List ReclaimAction
plan_reclaim d prev cur =
    let candidates = candidates_of d (normal_paths d cur) (sorted_texts prev) in
    if ltb (ceiling prev) (length candidates)
    then (candidates, all_refused candidates)
    else (candidates, verdicts_of d prev (shipped_inodes d cur) candidates)
