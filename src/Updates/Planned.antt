-- ===== src/Updates/Planned.antt =====
-- tools/self_update.py: what a plan to remove a file has checked.
use mathlib.Core.Path.{ap, sym, subst}
use neurahash_miner.Updates.Paths.{never_touch, normalise}
use neurahash_miner.Updates.Apply.{lower_text, eq_text}
use neurahash_miner.Base.{
  [], refl, inr, inl, if◌then◌else◌, Bool-cases, arith, not, Bool, none, false, true, ◌≡◌, some, ℕ,
  Option,
}
use mathlib.Core.List.{◌∷◌, List, Memᴰ}
use neurahash_miner.Updates.Version.{Text}
use neurahash_miner.Updates.Reclaim.{
  untouchable, user_modified, recorded_sha, is_shipped, unsafe_path, verdicts_of, unreadable,
  ReclaimAction, path_verdict, candidates_of, deleted, no_recorded_sha, still_shipped, not_regular,
  symlink, outside_root, Verdict, kept_for, Why, is_sha256, mem_inode, would_delete, sha_verdict,
  Disk, FileView, file_verdict,
}
use mathlib.Core.List.Memᴰ

abbrev pub IsDigest : Option Text → Text → Type 0
IsDigest none want = ⊥
IsDigest (some have) want = eq_text (lower_text have) want ≡ true

-- a look at a path that allows its removal, with the inodes that are shipped and the digest wanted
abbrev pub IsPlain : FileView → List ℕ → Text → Type 0
IsPlain f ids want =
    (f.is_inside ≡ true)
    × (f.is_link ≡ false)
    × (f.is_there ≡ true)
    × (f.is_file ≡ true)
    × (mem_inode f.inode ids ≡ false)
    × (is_sha256 want ≡ true)
    × IsDigest f.sha want

-- a test that a verdict has passed
pub passed_test :
    {t : Verdict} (b : Bool) (x v : Verdict)
    → (x ≡ t → ⊥)
    → (if b then x else v) ≡ t
    → (b ≡ false) × (v ≡ t)
passed_test true x v differs e = absurd (differs e)
passed_test false x v differs e = (refl, e)

pub neither_test :
    {t : Verdict} (b : Bool) (x v : Verdict)
    → (x ≡ t → ⊥)
    → (v ≡ t → ⊥)
    → (if b then x else v) ≡ t
    → ⊥
neither_test true x v p q e = p e
neither_test false x v p q e = q e

pub kept_undeleted : (why : Why) → kept_for why ≡ deleted → ⊥
kept_undeleted why e = ground (arith, e)

pub kept_not : (why : Why) → kept_for why ≡ would_delete → ⊥
kept_not why e = ground (arith, e)

sha_verdict_inv :
    (want : Text) (sha : Option Text) → sha_verdict want sha ≡ would_delete → IsDigest sha want
sha_verdict_inv want none e = ground (arith, e)
sha_verdict_inv want (some have) e = elim (Bool-cases (eq_text (lower_text have) want)) [
  | inl b ↦ b
  | inr b ↦ ground (arith, e, b)
]

file_verdict_inv :
    (f : FileView) (ids : List ℕ) (want : Text)
    → file_verdict f ids want ≡ would_delete
    → IsPlain f ids want
file_verdict_inv f ids want e =
    let a = passed_test (not f.is_inside) _ _ (kept_not outside_root) e in
    let b = passed_test f.is_link _ _ (kept_not symlink) a.1 in
    let c = passed_test (not f.is_there) _ _ (λ x. ground (arith, x)) b.1 in
    let d = passed_test (not f.is_file) _ _ (kept_not not_regular) c.1 in
    let g = passed_test (mem_inode f.inode ids) _ _ (kept_not still_shipped) d.1 in
    let h = passed_test (not (is_sha256 want)) _ _ (kept_not no_recorded_sha) g.1 in
    (
      ground (arith, a.0),
      b.0,
      ground (arith, c.0),
      ground (arith, d.0),
      g.0,
      ground (arith, h.0),
      sha_verdict_inv want f.sha h.1,
    )

sha_undeleted : (want : Text) (sha : Option Text) → sha_verdict want sha ≡ deleted → ⊥
sha_undeleted want none = kept_undeleted unreadable
sha_undeleted want (some have) =
    neither_test (eq_text (lower_text have) want) _ _ (λ e. ground (arith, e))
      (kept_undeleted user_modified)

file_undeleted : (f : FileView) (ids : List ℕ) (want : Text) → file_verdict f ids want ≡ deleted → ⊥
file_undeleted f ids want = neither_test (not f.is_inside) _ _ (kept_undeleted outside_root) (
    neither_test f.is_link _ _ (kept_undeleted symlink) (
      neither_test (not f.is_there) _ _ (λ e. ground (arith, e))
        (neither_test (not f.is_file) _ _ (kept_undeleted not_regular) (
          neither_test (mem_inode f.inode ids) _ _ (kept_undeleted still_shipped) (
            neither_test (not (is_sha256 want)) _ _ (kept_undeleted no_recorded_sha)
              (sha_undeleted want f.sha))))))

module _ (d : Disk) (prev : List (Text × Text)) where
  pub path_undeleted :
      (ids : List ℕ) (want : Text) (o : Option (List Text))
      → path_verdict d ids want o ≡ deleted
      → ⊥
  path_undeleted ids want none = kept_undeleted unsafe_path
  path_undeleted ids want (some p) =
      neither_test (never_touch p) _ _ (kept_undeleted untouchable)
        (file_undeleted (d.look p) ids want)

  -- the path of a verdict to delete
  pub path_verdict_inv :
      (ids : List ℕ) (want : Text) (o : Option (List Text))
      → path_verdict d ids want o ≡ would_delete
      → (p : List Text) × (o ≡ some p) × (never_touch p ≡ false) × IsPlain (d.look p) ids want
  path_verdict_inv ids want none e = absurd (kept_not unsafe_path e)
  path_verdict_inv ids want (some p) e =
      let t = passed_test (never_touch p) _ _ (kept_not untouchable) e in
      (p, refl, t.0, file_verdict_inv (d.look p) ids want t.1)

  pub verdicts_inv :
      (ids : List ℕ) (rels : List Text) (a : ReclaimAction)
      → Memᴰ a (verdicts_of d prev ids rels)
      → Memᴰ a.rel rels
        × (a.verdict ≡ path_verdict d ids (recorded_sha a.rel prev) (normalise a.rel))
  unfolding verdicts_of
  verdicts_inv ids [] a m = absurd (Memᴰ.not-nil m)
  verdicts_inv ids (rel ∷ rels) a (Memᴰ.head e) = (
    Memᴰ.head (ap (λ x. x.rel) e),
    subst (λ x. x.verdict ≡ path_verdict d ids (recorded_sha x.rel prev) (normalise x.rel)) (sym e)
        refl,
  )
  verdicts_inv ids (rel ∷ rels) a (Memᴰ.tail m) =
      let r = verdicts_inv ids rels a m in (Memᴰ.tail r.0, r.1)

  -- a candidate is recorded, and is not still shipped
  abbrev pub IsCandidate : List (List Text) → List Text → Text → Type 0
  IsCandidate cur rels rel = Memᴰ rel rels × (is_shipped d cur (normalise rel) ≡ false)

  IsCandidate-tail :
      (cur : List (List Text)) {rels : List Text} {r rel : Text}
      → IsCandidate cur rels rel
      → IsCandidate cur (r ∷ rels) rel
  IsCandidate-tail cur c = (Memᴰ.tail c.0, c.1)

  pub candidates_inv :
      (cur : List (List Text)) (rels : List Text) (rel : Text)
      → Memᴰ rel (candidates_of d cur rels)
      → IsCandidate cur rels rel
  unfolding candidates_of
  candidates_inv cur [] rel m = absurd (Memᴰ.not-nil m)
  candidates_inv cur (r ∷ rels) rel m =
      go (is_shipped d cur (normalise r)) refl (candidates_inv cur rels rel) m
    where
      go :
          (b : Bool)
          → is_shipped d cur (normalise r) ≡ b
          → (Memᴰ rel (candidates_of d cur rels) → IsCandidate cur rels rel)
          → Memᴰ rel (if b then candidates_of d cur rels else r ∷ candidates_of d cur rels)
          → IsCandidate cur (r ∷ rels) rel
      go true e later m = IsCandidate-tail cur (later m)
      go false e later (Memᴰ.head q) =
          (Memᴰ.head q, subst (λ x. is_shipped d cur (normalise x) ≡ false) (sym q) e)
      go false e later (Memᴰ.tail m) = IsCandidate-tail cur (later m)
