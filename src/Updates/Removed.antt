-- ===== src/Updates/Removed.antt =====
-- tools/self_update.py: what the removals of a plan have checked.
use mathlib.Core.Path.{subst}
use neurahash_miner.Updates.Apply.{lower_text, eq_text}
use neurahash_miner.Updates.Paths.{never_touch, normalise}
use neurahash_miner.Base.{
  length, none, true, inl, inr, ◌∙◌, not, ap, false, sym, refl, arith, ◌⊎◌, some, [], ltb, ◌∷◌, ◌≡◌,
  if◌then◌else◌, Bool, Option,
}
use mathlib.Core.List.{List, Memᴰ}
use neurahash_miner.Updates.Version.{version_lt, Text}
use neurahash_miner.Updates.Reclaim.{
  is_shipped, recorded_sha, removal_error, mass_delete, mem_path, shipped_inodes, already_absent,
  ceiling, deleted, normal_paths, verdicts_of, kept_for, candidates_of, sorted_texts, all_refused,
  insert_text, Disk, ReclaimAction, Verdict, plan_reclaim, would_delete,
}
use neurahash_miner.Updates.Removal.{acted_on, removal, act_on_all, act_on}
use neurahash_miner.Updates.Planned.{
  path_verdict_inv, candidates_inv, path_undeleted, verdicts_inv, kept_not, passed_test,
  kept_undeleted, IsPlain, IsDigest,
}
use mathlib.Core.List.Memᴰ

abbrev pub rels_of : List (Text × Text) → List Text
rels_of [] = []
rels_of ((rel, sha) ∷ files) = rel ∷ rels_of files

insert_inv : (s : Text) (ts : List Text) (r : Text) → Memᴰ r (insert_text s ts) → Memᴰ r (s ∷ ts)
insert_inv s [] r m = m
insert_inv s (t ∷ ts) r m = go (version_lt t s) (insert_inv s ts r) m
  where
    over : Memᴰ r (s ∷ ts) → Memᴰ r (s ∷ t ∷ ts)
    over (Memᴰ.head e) = Memᴰ.head e
    over (Memᴰ.tail m) = Memᴰ.tail (Memᴰ.tail m)

    go :
        (b : Bool)
        → (Memᴰ r (insert_text s ts) → Memᴰ r (s ∷ ts))
        → Memᴰ r (if b then t ∷ insert_text s ts else s ∷ t ∷ ts)
        → Memᴰ r (s ∷ t ∷ ts)
    go true later (Memᴰ.head e) = Memᴰ.tail (Memᴰ.head e)
    go true later (Memᴰ.tail m) = over (later m)
    go false later m = m

sorted_inv :
    (prev : List (Text × Text)) (r : Text) → Memᴰ r (sorted_texts prev) → Memᴰ r (rels_of prev)
sorted_inv [] r m = m
sorted_inv ((rel, sha) ∷ files) r m =
    go (sorted_inv files r) (insert_inv rel (sorted_texts files) r m)
  where
    go :
        (Memᴰ r (sorted_texts files) → Memᴰ r (rels_of files))
        → Memᴰ r (rel ∷ sorted_texts files)
        → Memᴰ r (rel ∷ rels_of files)
    go later (Memᴰ.head e) = Memᴰ.head e
    go later (Memᴰ.tail m) = Memᴰ.tail (later m)

refused_inv :
    (rels : List Text) (a : ReclaimAction)
    → Memᴰ a (all_refused rels)
    → a.verdict ≡ kept_for mass_delete
refused_inv [] a m = absurd (Memᴰ.not-nil m)
refused_inv (rel ∷ rels) a (Memᴰ.head e) = ap (λ x. x.verdict) e
refused_inv (rel ∷ rels) a (Memᴰ.tail m) = refused_inv rels a m

module _ (d : Disk) (rehash : Text → Option Text) (removes : Text → Bool)
    (prev : List (Text × Text)) where
  -- what an action was before the removals
  acted_inv :
      (actions : List ReclaimAction) (a : ReclaimAction)
      → Memᴰ a (act_on_all rehash removes prev actions)
      → (b : ReclaimAction) × Memᴰ b actions × (a ≡ act_on rehash removes prev b)
  unfolding act_on_all
  acted_inv [] a m = absurd (Memᴰ.not-nil m)
  acted_inv (b ∷ actions) a (Memᴰ.head e) = (b, Memᴰ.head refl, e)
  acted_inv (b ∷ actions) a (Memᴰ.tail m) =
      let r = acted_inv actions a m in (r.0, Memᴰ.tail r.1, r.2)

  removal_inv :
      (want : Text) (sha : Option Text) (b : Bool)
      → removal want sha b ≡ deleted
      → IsDigest sha want
  removal_inv want none b e = ground (arith, e)
  removal_inv want (some have) b e =
      let t = passed_test (not (eq_text (lower_text have) want)) _ _ (λ x. ground (arith, x)) e in
      ground (arith, t.0)

  acted_on_inv :
      (b : ReclaimAction) (v : Verdict)
      → b.verdict ≡ v
      → (acted_on rehash removes prev b v).verdict ≡ deleted
      → (b.verdict ≡ deleted)
        ⊎ ((b.verdict ≡ would_delete) × IsDigest (rehash b.rel) (recorded_sha b.rel prev))
  acted_on_inv b would_delete e h =
      inr (e, removal_inv (recorded_sha b.rel prev) (rehash b.rel) (removes b.rel) h)
  acted_on_inv b deleted e h = inl h
  acted_on_inv b already_absent e h = inl h
  acted_on_inv b removal_error e h = inl h
  acted_on_inv b (kept_for why) e h = inl h

  acted_on_rel : (b : ReclaimAction) (v : Verdict) → (acted_on rehash removes prev b v).rel ≡ b.rel
  acted_on_rel b would_delete = refl
  acted_on_rel b deleted = refl
  acted_on_rel b already_absent = refl
  acted_on_rel b removal_error = refl
  acted_on_rel b (kept_for why) = refl

  module _ (cur : List (Text × Text)) where
    abbrev candidates : List Text
    candidates = candidates_of d (normal_paths d cur) (sorted_texts prev)

    -- A file of an older release: recorded then, dropped by the current release, of a safe path,
    -- and unchanged at the plan and at the removal.
    pub record IsObsolete (rel : Text) : Type 0 where
      pub is_recorded : Memᴰ rel (rels_of prev)
      pub path : List Text
      pub is_path : normalise rel ≡ some path
      pub is_dropped : mem_path (d.normcase path) (normal_paths d cur) ≡ false
      pub may_be_touched : never_touch path ≡ false
      pub is_plain : IsPlain (d.look path) (shipped_inodes d cur) (recorded_sha rel prev)
      pub is_unchanged : IsDigest (rehash rel) (recorded_sha rel prev)
      pub is_small_pass : ltb (ceiling prev) (length candidates) ≡ false

    abbrev planned : Bool → List Text × List ReclaimAction
    planned b =
        if b
        then (candidates, all_refused candidates)
        else (candidates, verdicts_of d prev (shipped_inodes d cur) candidates)

    -- no action of a plan says that a file was deleted
    planned_undeleted :
        (b : Bool) (a : ReclaimAction) → Memᴰ a (planned b).1 → a.verdict ≡ deleted → ⊥
    planned_undeleted true a m e = kept_undeleted mass_delete (sym (refused_inv candidates a m) ∙ e)
    planned_undeleted false a m e =
        let v = verdicts_inv d prev (shipped_inodes d cur) candidates a m in
        path_undeleted d prev (shipped_inodes d cur) (recorded_sha a.rel prev) (normalise a.rel)
          (sym v.1 ∙ e)

    planned_inv :
        (b : Bool) (a : ReclaimAction)
        → ltb (ceiling prev) (length candidates) ≡ b
        → Memᴰ a (planned b).1
        → a.verdict ≡ would_delete
        → IsDigest (rehash a.rel) (recorded_sha a.rel prev)
        → IsObsolete a.rel
    planned_inv true a c m e h =
        absurd (kept_not mass_delete (sym (refused_inv candidates a m) ∙ e))
    planned_inv false a c m e h =
        let v = verdicts_inv d prev (shipped_inodes d cur) candidates a m in
        let k = candidates_inv d prev (normal_paths d cur) (sorted_texts prev) a.rel v.0 in
        let p =
          path_verdict_inv d prev (shipped_inodes d cur) (recorded_sha a.rel prev) (normalise a.rel)
            (sym v.1 ∙ e) in
        record {
          is_recorded = sorted_inv prev a.rel k.0;
          path = p.0;
          is_path = p.1;
          is_dropped = subst (λ o. is_shipped d (normal_paths d cur) o ≡ false) p.1 k.1;
          may_be_touched = p.2;
          is_plain = p.3;
          is_unchanged = h;
          is_small_pass = c;
        }

    -- a report of the mode that deletes
    pub deleted_inv :
        (a : ReclaimAction)
        → Memᴰ a (act_on_all rehash removes prev (plan_reclaim d prev cur).1)
        → a.verdict ≡ deleted
        → IsObsolete a.rel
    unfolding plan_reclaim
    deleted_inv a m e =
        let b = acted_inv ((plan_reclaim d prev cur).1) a m in
        let small = ltb (ceiling prev) (length candidates) in
        subst (λ r. IsObsolete r) (sym (ap (λ x. x.rel) b.2 ∙ acted_on_rel b.0 b.0.verdict))
          (elim (acted_on_inv b.0 b.0.verdict refl (sym (ap (λ x. x.verdict) b.2) ∙ e)) [
            | inl h ↦ absurd (planned_undeleted small b.0 b.1 h)
            | inr h ↦ planned_inv small b.0 refl b.1 h.0 h.1
          ])

    pub planned_not :
        (a : ReclaimAction) → Memᴰ a (plan_reclaim d prev cur).1 → a.verdict ≡ deleted → ⊥
    unfolding plan_reclaim
    planned_not a m e = planned_undeleted (ltb (ceiling prev) (length candidates)) a m e
