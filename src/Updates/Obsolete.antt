-- ===== src/Updates/Obsolete.antt =====
-- tools/self_update.py: what is removed after an update, and what the ledger keeps of it.
use neurahash_miner.Updates.Armed.{reclaim_mode_armed}
use neurahash_miner.Updates.Paths.{mem_text}
use mathlib.Core.Path.{ap, subst}
use mathlib.Core.Bool.{true≢false}
use mathlib.Core.List.{◌∷◌, List, Memᴰ}
use neurahash_miner.Base.{
  ◌<◌, ==_refl, arith, ◌∙◌, sym, refl, false, if◌then◌else◌, [], Bool, true, ◌≡◌, Option, length,
}
use neurahash_miner.Updates.Version.{Text}
use neurahash_miner.Updates.Apply.{eq_text}
use neurahash_miner.Updates.Reclaim.{
  removal_error, already_absent, kept_for, Disk, ReclaimAction, Verdict, would_delete, deleted,
}
use neurahash_miner.Updates.Removal.{
  reclaim_obsolete_files, disabled_words, word_of, reclaim_mode, drop_if, ReclaimMode,
  reclaim_delete, reclaim_off, reclaim_dry, reclaim_after_update, reclaim_pass, drop_text,
  drop_deleted, put_all,
}
use neurahash_miner.Updates.Removed.{IsObsolete, rels_of, deleted_inv, planned_not}
use mathlib.Core.List.Memᴰ

eq_text_refl : (s : Text) → eq_text s s ≡ true
eq_text_refl [] = refl
eq_text_refl (c ∷ s) = ground (arith, ==_refl c, eq_text_refl s)

drop_text-sub :
    (k : Text) (m : List (Text × Text)) (r : Text)
    → Memᴰ r (rels_of (drop_text k m))
    → Memᴰ r (rels_of m)
drop_text-sub k [] r h = h
drop_text-sub k ((j, w) ∷ m) r h = go (eq_text j k) (drop_text-sub k m r) h
  where
    go :
        (b : Bool)
        → (Memᴰ r (rels_of (drop_text k m)) → Memᴰ r (rels_of m))
        → Memᴰ r (rels_of (if b then drop_text k m else (j, w) ∷ drop_text k m))
        → Memᴰ r (j ∷ rels_of m)
    go true later h = Memᴰ.tail (later h)
    go false later (Memᴰ.head e) = Memᴰ.head e
    go false later (Memᴰ.tail h) = Memᴰ.tail (later h)

drop_text-free : (k : Text) (m : List (Text × Text)) → Memᴰ k (rels_of (drop_text k m)) → ⊥
drop_text-free k [] h = Memᴰ.not-nil h
drop_text-free k ((j, w) ∷ m) h = go (eq_text j k) refl (drop_text-free k m) h
  where
    go :
        (b : Bool)
        → eq_text j k ≡ b
        → (Memᴰ k (rels_of (drop_text k m)) → ⊥)
        → Memᴰ k (rels_of (if b then drop_text k m else (j, w) ∷ drop_text k m))
        → ⊥
    go true e later h = later h
    go false e later (Memᴰ.head q) =
        true≢false (sym (eq_text_refl j) ∙ subst (λ x. eq_text j x ≡ false) q e)
    go false e later (Memᴰ.tail h) = later h

drop_if-sub :
    (v : Verdict) (k : Text) (m : List (Text × Text)) (r : Text)
    → Memᴰ r (rels_of (drop_if v k m))
    → Memᴰ r (rels_of m)
drop_if-sub deleted k m r h = drop_text-sub k m r h
drop_if-sub would_delete k m r h = h
drop_if-sub already_absent k m r h = h
drop_if-sub removal_error k m r h = h
drop_if-sub (kept_for why) k m r h = h

drop_deleted-free :
    (actions : List ReclaimAction) (m : List (Text × Text)) (a : ReclaimAction)
    → Memᴰ a actions
    → a.verdict ≡ deleted
    → Memᴰ a.rel (rels_of (drop_deleted actions m))
    → ⊥
drop_deleted-free [] m a h e i = Memᴰ.not-nil h
drop_deleted-free (b ∷ actions) m a (Memᴰ.head q) e i =
    drop_text-free b.rel (drop_deleted actions m) (
      subst (λ v. Memᴰ b.rel (rels_of (drop_if v b.rel (drop_deleted actions m))))
        (sym (ap (λ x. x.verdict) q) ∙ e)
        (subst (λ r. Memᴰ r (rels_of (drop_deleted (b ∷ actions) m))) (ap (λ x. x.rel) q) i))
drop_deleted-free (b ∷ actions) m a (Memᴰ.tail h) e i =
    drop_deleted-free actions m a h e (drop_if-sub b.verdict b.rel (drop_deleted actions m) a.rel i)

-- what a report of a mode shows of a file that it says was deleted
report_inv :
    (d : Disk) (rehash : Text → Option Text) (removes : Text → Bool) (mode : ReclaimMode)
    (prev cur : List (Text × Text)) (a : ReclaimAction)
    → Memᴰ a (reclaim_pass d rehash removes mode prev cur)
    → a.verdict ≡ deleted
    → (mode ≡ reclaim_delete) × (0 < length cur) × IsObsolete d rehash removes prev cur a.rel
unfolding reclaim_pass
report_inv d rehash removes reclaim_off prev cur a m e = absurd (Memᴰ.not-nil m)
report_inv d rehash removes reclaim_dry prev [] a m e = absurd (Memᴰ.not-nil m)
report_inv d rehash removes reclaim_delete prev [] a m e = absurd (Memᴰ.not-nil m)
report_inv d rehash removes reclaim_dry prev (f ∷ cur) a m e =
    absurd (planned_not d rehash removes prev (f ∷ cur) a m e)
report_inv d rehash removes reclaim_delete prev (f ∷ cur) a m e =
    (refl, omega arith, deleted_inv d rehash removes prev (f ∷ cur) a m e)

-- Where the reclaim step after an update reports a file as deleted, the variable and the override
-- ask for the mode that deletes, the variable is none of the words that switch it off, and the new
-- manifest declares at least one file. The ledger before has the path, which is a safe relative
-- one: the new manifest does not declare it, no rule forbids touching it, and the pass has no more
-- candidates than its ceiling. At the plan it was inside the root, no link, a regular file, of no
-- inode that the new manifest's files have, and of the recorded digest; hashed again just before
-- the removal, it still had that digest. And the ledger kept afterwards has no entry of the path.
pub reclaim_after_update-IsObsolete :
    (d : Disk) (rehash : Text → Option Text) (removes : Text → Bool) (env override : Option Text)
    (prev cur : List (Text × Text)) (a : ReclaimAction)
    → Memᴰ a (reclaim_after_update d rehash removes env override prev cur).0
    → a.verdict ≡ deleted
    → (reclaim_mode env override ≡ reclaim_delete)
      × (mem_text (word_of env) disabled_words ≡ false)
      × (0 < length cur)
      × IsObsolete d rehash removes prev cur a.rel
      × ¬ Memᴰ a.rel (rels_of (reclaim_after_update d rehash removes env override prev cur).1)
unfolding reclaim_after_update reclaim_obsolete_files
reclaim_after_update-IsObsolete d rehash removes env override prev cur a m e =
    let r = report_inv d rehash removes (reclaim_mode env override) prev cur a m e in
    (
      r.0,
      reclaim_mode_armed env override r.0,
      r.1,
      r.2,
      drop_deleted-free (reclaim_pass d rehash removes (reclaim_mode env override) prev cur)
          (put_all prev cur) a m e,
    )
