-- ===== src/Clock/Log.antt =====
-- neurahash/diloco_clock.py: when the auditor accepts a log.
use neurahash_miner.Base.{
  sym, insert_sorted, ◌∙◌, refl, inr, inl, Option-cases, ℕ, Bool, true, false, ◌&&◌, ◌||◌, ◌==◌,
  Option, none, some, List, [], ◌∷◌, ◌≡◌, ◌↔◌, any_of, arith,
}
use neurahash_miner.Clock.Audit.{
  roster_of, audit_clock_records, none_listed, AuditReport, nothing, bad_signature, stranger,
  digest_of, shadow, shadow, stranger, same_key, digest_of, bad_signature, LogRecord, Shown, Seen,
  seen_digest, see, show_record, audit_records, report_ok, report_entry, conflicts,
}
use neurahash_miner.Clock.Commits.{holds}

-- the entry shows the digest for the signer and the round of a key
abbrev pub shows : ℕ × ℕ → ℕ → Shown → Bool
shows k d (digest_of who j e) = same_key k j && e == d
shows k d _ = false

-- the entry is a signed commitment with a round that does not verify
abbrev pub is_forged : Shown → Bool
is_forged (bad_signature (some r)) = true
is_forged _ = false

-- seen before, or shown by an entry
abbrev covers : ℕ × ℕ → ℕ → Seen → Bool → Bool
covers k d seen later = holds (seen_digest k seen) d || later

-- the entry does not conflict with what was seen
abbrev IsQuiet : Shown → Seen → Type 0
IsQuiet (digest_of who j e) seen = (conflicts j e seen ≡ false)
IsQuiet _ seen = Unit

step_covers :
    (k : ℕ × ℕ) (d : ℕ) (x : Shown) (seen : Seen) (later : Bool)
    → IsQuiet x seen
    → covers k d (see x seen) later ≡ covers k d seen (shows k d x || later)
unfolding seen_digest
step_covers k d nothing seen later q = refl
step_covers k d (bad_signature r) seen later q = refl
step_covers k d (stranger who) seen later q = refl
step_covers k d (shadow r m) seen later q = refl
step_covers k d (digest_of who j e) seen later q = elim (Option-cases (seen_digest j seen)) [
  | inl n ↦ ground (arith, q, n)
  | inr (b, n) ↦ ground (arith, q, n)
]

insert_sorted_listed : (a : ℕ) (xs : List ℕ) → none_listed (insert_sorted a xs) ≡ false
unfolding insert_sorted
insert_sorted_listed a [] = refl
insert_sorted_listed a (b ∷ bs) = ground arith

step_ok :
    (x : Shown) (seen : Seen) (p : AuditReport)
    → (report_ok (report_entry x seen p) ≡ true)
      ↔ ((is_forged x ≡ false) × IsQuiet x seen × (report_ok p ≡ true))
unfolding report_ok report_entry
step_ok nothing seen p = ground arith
step_ok (bad_signature none) seen p = ground arith
step_ok (bad_signature (some r)) seen p = ground (arith, insert_sorted_listed r p.sig_failures)
step_ok (stranger who) seen p = ground arith
step_ok (digest_of who k d) seen p = ground arith
step_ok (shadow round m) seen p = ground arith

or_false : {a b : Bool} → a ≡ false → b ≡ false → (a || b) ≡ false
or_false e f = ground (arith, e, f)

or_left : (a b : Bool) → (a || b) ≡ false → a ≡ false
or_left a b e = ground (arith, e)

or_rest : (a b : Bool) → (a || b) ≡ false → b ≡ false
or_rest a b e = ground (arith, e)

module _ (norm : ℕ → ℕ) (recover_bytes : ℕ → ℕ → ℕ → ℕ → Option ℕ) (allow : Option (List ℕ)) where
  abbrev show : LogRecord → Shown
  show r = show_record norm recover_bytes allow r

  abbrev pub shows_digest : ℕ × ℕ → ℕ → LogRecord → Bool
  shows_digest k d r = shows k d (show r)

  abbrev pub forged : LogRecord → Bool
  forged r = is_forged (show r)

  abbrev Agrees : Seen → List LogRecord → Type 0
  Agrees seen rs =
      (k : ℕ × ℕ) (d d' : ℕ)
      → covers k d seen (any_of (shows_digest k d) rs) ≡ true
      → covers k d' seen (any_of (shows_digest k d') rs) ≡ true
      → d ≡ d'

  holds_one :
      (o : Option ℕ) (d d' : ℕ)
      → (holds o d || false) ≡ true
      → (holds o d' || false) ≡ true
      → d ≡ d'
  holds_one none d d' e f = ground (arith, e)
  holds_one (some a) d d' e f = ground (arith, e, f)

  IsQuiet-show :
      (x : Shown) (seen : Seen)
      → ((k : ℕ × ℕ) (d d' : ℕ)
          → (holds (seen_digest k seen) d || shows k d x) ≡ true
          → (holds (seen_digest k seen) d' || shows k d' x) ≡ true
          → d ≡ d')
      → IsQuiet x seen
  IsQuiet-show nothing seen a = tt
  IsQuiet-show (bad_signature r) seen a = tt
  IsQuiet-show (stranger who) seen a = tt
  IsQuiet-show (shadow r m) seen a = tt
  IsQuiet-show (digest_of who k e) seen a = elim (Option-cases (seen_digest k seen)) [
    | inl n ↦ ground (arith, n)
    | inr (b, n) ↦ ground (arith, n, a k b e)
  ]

  weaken : (a b c : Bool) → (a || b) ≡ true → (a || (b || c)) ≡ true
  weaken a b c e = ground (arith, e)

  audit_records-exact :
      (rs : List LogRecord) (seen : Seen)
      → (report_ok (audit_records norm recover_bytes allow seen rs) ≡ true)
        ↔ ((any_of forged rs ≡ false) × Agrees seen rs)
  unfolding audit_records any_of report_ok
  audit_records-exact [] seen =
      (λ e. (refl, λ k d d' f g. holds_one (seen_digest k seen) d d' f g), λ h. refl)
  audit_records-exact (r ∷ rs) seen =
      let x = show r in
      let rest = audit_records norm recover_bytes allow (see x seen) rs in
      let step = step_ok x seen rest in
      let ih = audit_records-exact rs (see x seen) in
      (
        λ e.
            let (f, q, o) = step.0 e in
            let (fs, ag) = ih.0 o in
            (
              or_false f fs,
              λ k d d' u v.
                  ag k d d' (step_covers k d x seen (any_of (shows_digest k d) rs) q ∙ u)
                    (step_covers k d' x seen (any_of (shows_digest k d') rs) q ∙ v),
            ),
        λ (f, ag).
            let q = IsQuiet-show x seen (λ k d d' u v.
              ag k d d'
                (weaken (holds (seen_digest k seen) d) (shows k d x) (any_of (shows_digest k d) rs)
                  u)
                (weaken (holds (seen_digest k seen) d') (shows k d' x)
                  (any_of (shows_digest k d') rs) v)) in
            step.1 (
              or_left (forged r) (any_of forged rs) f,
              q,
              ih.1 (
                or_rest (forged r) (any_of forged rs) f,
                λ k d d' u v.
                    ag k d d' (sym (step_covers k d x seen (any_of (shows_digest k d) rs) q) ∙ u)
                      (sym (step_covers k d' x seen (any_of (shows_digest k d') rs) q) ∙ v),
              ),
            ),
      )

  -- no signer on the roster shows two digests for one round
  abbrev pub IsConsistent : List LogRecord → Type 0
  IsConsistent rs =
      (k : ℕ × ℕ) (d d' : ℕ)
      → any_of (shows_digest k d) rs ≡ true
      → any_of (shows_digest k d') rs ≡ true
      → d ≡ d'

  fresh_audit :
      (rs : List LogRecord)
      → (report_ok (audit_records norm recover_bytes allow [] rs) ≡ true)
        ↔ ((any_of forged rs ≡ false) × IsConsistent rs)
  unfolding seen_digest
  fresh_audit rs = audit_records-exact rs []

-- The auditor accepts a log exactly when every signed commitment in it that names a round
-- verifies, and no signer on the roster signed two digests for one round. A signed commitment
-- that does not verify and names no round is passed over.
pub audit_clock_records_exact :
    (norm : ℕ → ℕ) (recover_bytes : ℕ → ℕ → ℕ → ℕ → Option ℕ) (expected : Option (List ℕ))
    (rs : List LogRecord)
    → ((audit_clock_records norm recover_bytes rs expected).0 ≡ true) ↔ (
        (any_of (forged norm recover_bytes (roster_of norm recover_bytes expected)) rs ≡ false)
        × IsConsistent norm recover_bytes (roster_of norm recover_bytes expected) rs)
unfolding audit_clock_records
audit_clock_records_exact norm recover_bytes expected rs =
    fresh_audit norm recover_bytes (roster_of norm recover_bytes expected) rs
