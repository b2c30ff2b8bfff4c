-- ===== src/Updates/Complete.antt =====
-- tools/self_update.py: what may be removed after an update is removed.
use neurahash_miner.Updates.Paths.{normalise}
use neurahash_miner.Base.{
  refl, length, ◌<◌, none, false, arith, some, if◌then◌else◌, true, ◌≡◌, [], ◌∷◌, ℕ, Bool, Option,
}
use mathlib.Core.List.{List, Memᴰ}
use mathlib.Core.Path.{ap, sym, subst}
use neurahash_miner.Updates.Version.{version_lt, Text}
use neurahash_miner.Updates.Reclaim.{
  all_refused, normal_paths, shipped_inodes, plan_reclaim, deleted, recorded_sha, would_delete,
  path_verdict, is_shipped, insert_text, file_verdict, sorted_texts, sha_verdict, candidates_of,
  verdicts_of, Disk, ReclaimAction, FileView,
}
use neurahash_miner.Updates.Planned.{IsPlain, IsDigest}
use neurahash_miner.Updates.Removal.{
  removal, act_on_all, act_on, reclaim_mode, reclaim_delete, reclaim_pass, reclaim_after_update,
  reclaim_obsolete_files,
}
use neurahash_miner.Updates.Removed.{IsObsolete, rels_of}
use mathlib.Core.List.Memᴰ

sha_deletes :
    (want : Text) (sha : Option Text) → IsDigest sha want → sha_verdict want sha ≡ would_delete
sha_deletes want none h = absurd h
sha_deletes want (some have) h = ground (arith, h)

file_deletes :
    (f : FileView) (ids : List ℕ) (want : Text)
    → IsPlain f ids want
    → file_verdict f ids want ≡ would_delete
file_deletes f ids want p =
    let s = sha_deletes want f.sha p.6 in ground (arith, p.0, p.1, p.2, p.3, p.4, p.5, s)

removal_deletes :
    (want : Text) (sha : Option Text) (b : Bool)
    → IsDigest sha want
    → b ≡ true
    → removal want sha b ≡ deleted
removal_deletes want none b h e = absurd h
removal_deletes want (some have) b h e = ground (arith, h, e)

insert-mem : (s : Text) (ts : List Text) (r : Text) → Memᴰ r (s ∷ ts) → Memᴰ r (insert_text s ts)
insert-mem s [] r m = m
insert-mem s (t ∷ ts) r m = go (version_lt t s) (insert-mem s ts r) m
  where
    go :
        (b : Bool)
        → (Memᴰ r (s ∷ ts) → Memᴰ r (insert_text s ts))
        → Memᴰ r (s ∷ t ∷ ts)
        → Memᴰ r (if b then t ∷ insert_text s ts else s ∷ t ∷ ts)
    go false later m = m
    go true later (Memᴰ.head e) = Memᴰ.tail (later (Memᴰ.head e))
    go true later (Memᴰ.tail (Memᴰ.head e)) = Memᴰ.head e
    go true later (Memᴰ.tail (Memᴰ.tail m)) = Memᴰ.tail (later (Memᴰ.tail m))

sorted-mem :
    (prev : List (Text × Text)) (r : Text) → Memᴰ r (rels_of prev) → Memᴰ r (sorted_texts prev)
sorted-mem [] r m = m
sorted-mem ((rel, sha) ∷ files) r (Memᴰ.head e) =
    insert-mem rel (sorted_texts files) r (Memᴰ.head e)
sorted-mem ((rel, sha) ∷ files) r (Memᴰ.tail m) =
    insert-mem rel (sorted_texts files) r (Memᴰ.tail (sorted-mem files r m))

module _ (d : Disk) (prev : List (Text × Text)) where
  candidates-mem :
      (cur : List (List Text)) (rels : List Text) (rel : Text)
      → Memᴰ rel rels
      → is_shipped d cur (normalise rel) ≡ false
      → Memᴰ rel (candidates_of d cur rels)
  unfolding candidates_of
  candidates-mem cur [] rel m k = m
  candidates-mem cur (r ∷ rels) rel (Memᴰ.head e) k =
      subst (λ b. Memᴰ rel (if b then candidates_of d cur rels else r ∷ candidates_of d cur rels))
        (sym (subst (λ x. is_shipped d cur (normalise x) ≡ false) e k)) (Memᴰ.head e)
  candidates-mem cur (r ∷ rels) rel (Memᴰ.tail m) k =
      go (is_shipped d cur (normalise r)) (candidates-mem cur rels rel m k)
    where
      go :
          (b : Bool)
          → Memᴰ rel (candidates_of d cur rels)
          → Memᴰ rel (if b then candidates_of d cur rels else r ∷ candidates_of d cur rels)
      go true h = h
      go false h = Memᴰ.tail h

  verdicts-mem :
      (ids : List ℕ) (rels : List Text) (rel : Text)
      → Memᴰ rel rels
      → Memᴰ
          record { rel = rel; verdict = path_verdict d ids (recorded_sha rel prev) (normalise rel) }
          (verdicts_of d prev ids rels)
  unfolding verdicts_of
  verdicts-mem ids [] rel m = absurd (Memᴰ.not-nil m)
  verdicts-mem ids (r ∷ rels) rel (Memᴰ.head e) = Memᴰ.head (
      ap (λ x. record { rel = x; verdict = path_verdict d ids (recorded_sha x prev) (normalise x) })
        e)
  verdicts-mem ids (r ∷ rels) rel (Memᴰ.tail m) = Memᴰ.tail (verdicts-mem ids rels rel m)

acted-mem :
    (rehash : Text → Option Text) (removes : Text → Bool) (prev : List (Text × Text))
    (actions : List ReclaimAction) (a : ReclaimAction)
    → Memᴰ a actions
    → Memᴰ (act_on rehash removes prev a) (act_on_all rehash removes prev actions)
unfolding act_on_all
acted-mem rehash removes prev [] a m = absurd (Memᴰ.not-nil m)
acted-mem rehash removes prev (b ∷ actions) a (Memᴰ.head e) =
    Memᴰ.head (ap (act_on rehash removes prev) e)
acted-mem rehash removes prev (b ∷ actions) a (Memᴰ.tail m) =
    Memᴰ.tail (acted-mem rehash removes prev actions a m)

deleting_pass :
    (d : Disk) (rehash : Text → Option Text) (removes : Text → Bool) (prev cur : List (Text × Text))
    → 0 < length cur
    → reclaim_pass d rehash removes reclaim_delete prev cur
      ≡ act_on_all rehash removes prev (plan_reclaim d prev cur).1
unfolding reclaim_pass
deleting_pass d rehash removes prev [] l = absurd (omega (arith, l))
deleting_pass d rehash removes prev (f ∷ cur) l = refl

module _ (d : Disk) (rehash : Text → Option Text) (removes : Text → Bool)
    (prev cur : List (Text × Text)) (rel : Text)
    (o : IsObsolete d rehash removes prev cur rel) where
  abbrev would : ReclaimAction
  would = record { rel = rel; verdict = would_delete }

  abbrev plan_of : List Text → List ReclaimAction → Bool → List Text × List ReclaimAction
  plan_of candidates verdicts b =
      if b then (candidates, all_refused candidates) else (candidates, verdicts)

  planned-mem : Memᴰ would (plan_reclaim d prev cur).1
  unfolding plan_reclaim
  planned-mem =
      let ids = shipped_inodes d cur in
      let names = sorted_texts prev in
      let shipped = normal_paths d cur in
      let candidates = candidates_of d shipped names in
      let named =
        candidates-mem d prev shipped names rel (sorted-mem prev rel o.is_recorded)
          (subst (λ p. is_shipped d shipped p ≡ false) (sym o.is_path) o.is_dropped) in
      let kept = file_deletes (d.look o.path) ids (recorded_sha rel prev) o.is_plain in
      let verdict : path_verdict d ids (recorded_sha rel prev) (normalise rel) ≡ would_delete =
        subst (λ p. path_verdict d ids (recorded_sha rel prev) p ≡ would_delete) (sym o.is_path)
          (ground (arith, o.may_be_touched, kept)) in
      subst (λ b. Memᴰ would (plan_of candidates (verdicts_of d prev ids candidates) b).1)
        (sym o.is_small_pass)
        (subst (λ v. Memᴰ record { rel = rel; verdict = v } (verdicts_of d prev ids candidates))
          verdict (verdicts-mem d prev ids candidates rel named))

  pass-mem :
      0 < length cur
      → removes rel ≡ true
      → Memᴰ
          record { rel = rel; verdict = deleted }
          (reclaim_pass d rehash removes reclaim_delete prev cur)
  pass-mem l e =
      let acts = act_on_all rehash removes prev (plan_reclaim d prev cur).1 in
      let gone : removal (recorded_sha rel prev) (rehash rel) (removes rel) ≡ deleted =
        removal_deletes (recorded_sha rel prev) (rehash rel) (removes rel) o.is_unchanged e in
      subst (λ xs. Memᴰ record { rel = rel; verdict = deleted } xs)
        (sym (deleting_pass d rehash removes prev cur l))
        (subst (λ v. Memᴰ record { rel = rel; verdict = v } acts) gone
          (acted-mem rehash removes prev ((plan_reclaim d prev cur).1) would planned-mem))

-- The converse: where the variable and the override ask for the mode that deletes, the new manifest
-- declares at least one file, and a path passes every test that a deleted file has passed, the
-- reclaim step reports it as deleted, if the removal of the file succeeds.
pub reclaim_after_update_removes :
    (d : Disk) (rehash : Text → Option Text) (removes : Text → Bool) (env override : Option Text)
    (prev cur : List (Text × Text)) (rel : Text)
    → reclaim_mode env override ≡ reclaim_delete
    → 0 < length cur
    → IsObsolete d rehash removes prev cur rel
    → removes rel ≡ true
    → Memᴰ
        record { rel = rel; verdict = deleted }
        (reclaim_after_update d rehash removes env override prev cur).0
unfolding reclaim_after_update reclaim_obsolete_files
reclaim_after_update_removes d rehash removes env override prev cur rel k l o e =
    subst
      (λ mode.
        Memᴰ record { rel = rel; verdict = deleted } (reclaim_pass d rehash removes mode prev cur))
      (sym k) (pass-mem d rehash removes prev cur rel o l e)
