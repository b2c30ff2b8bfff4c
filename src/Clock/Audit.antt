-- ===== src/Clock/Audit.antt =====
-- neurahash/diloco_clock.py: signed commitments, the audit of a log of them, the shadow audit of
-- the single node's order, and the policy that keeps that node's clock in charge.
use neurahash_miner.Base.{
  ℕ, suc, Bool, true, false, not, ◌&&◌, ◌==◌, if◌then◌else◌, Option, none, some, List, [], ◌∷◌,
  insert_set, insert_sorted, contains,
}

-- A signed commitment as it arrives: a field may be missing, and a signer may be no text.
pub record SignedCommit : Type 0 where
  pub round : Option ℕ
  pub signer : Option ℕ
  pub digest : Option ℕ
  pub sig : Option ℕ

-- An entry of a log: a signed commitment, a shadow audit with its round and its `match` field, or
-- anything else.
pub data LogRecord : Type 0 where
  signed : SignedCommit → LogRecord
  audited : ℕ → Option Bool → LogRecord
  other : LogRecord

pub data ClockReason : Type 0 where
  envelope_a_invalid envelope_b_invalid different_signers different_rounds : ClockReason
  identical_commitment : ClockReason

pub data ClockVerdict : Type 0 where
  equivocation_by : ℕ → ClockVerdict
  not_equivocation : ClockReason → ClockVerdict

pub record AuditReport : Type 0 where
  pub n_signed : ℕ
  pub n_audits : ℕ
  pub sig_failures : List ℕ
  pub off_roster : List ℕ
  pub equivocations : List (ℕ × ℕ)
  pub mismatches : List ℕ

pub data ClockMode : Type 0 where
  off audit enforce : ClockMode

-- the digests seen, for a signer and a round
abbrev pub Seen : Type 0
Seen = List ((ℕ × ℕ) × ℕ)

abbrev pub same_key : ℕ × ℕ → ℕ × ℕ → Bool
same_key a b = a.0 == b.0 && a.1 == b.1

unfoldable pub seen_digest : ℕ × ℕ → Seen → Option ℕ
seen_digest k [] = none
seen_digest k (e ∷ es) = if same_key k e.0 then some e.1 else seen_digest k es

-- What a log's entry shows to the auditor: nothing, a bad signature with its round, a signer
-- off the roster, or a digest for a signer and a round.
pub data Shown : Type 0 where
  nothing : Shown
  bad_signature : Option ℕ → Shown
  stranger : ℕ → Shown
  digest_of : ℕ → ℕ × ℕ → ℕ → Shown
  shadow : ℕ → Option Bool → Shown

abbrev pub add_present : Option ℕ → List ℕ → List ℕ
add_present none rounds = rounds
add_present (some r) rounds = insert_sorted r rounds

abbrev pub add_mismatch : ℕ → Option Bool → List ℕ → List ℕ
add_mismatch round (some false) rounds = insert_set round rounds
add_mismatch round _ rounds = rounds

-- the digests seen after an entry: the first of a signer in a round stays
abbrev pub see : Shown → Seen → Seen
see (digest_of who k d) seen = elim (seen_digest k seen) [ none ↦ (k, d) ∷ seen | some _ ↦ seen ]
see _ seen = seen

abbrev pub conflicts : ℕ × ℕ → ℕ → Seen → Bool
conflicts k d seen = elim (seen_digest k seen) [ none ↦ false | some e ↦ not (e == d) ]

-- an entry's share of the report, with what the later entries report
unfoldable pub report_entry : Shown → Seen → AuditReport → AuditReport
report_entry nothing seen p = p
report_entry (bad_signature r) seen p = record p {
  n_signed = suc p.n_signed;
  sig_failures = add_present r p.sig_failures;
}
report_entry (stranger who) seen p = record p {
  n_signed = suc p.n_signed;
  off_roster = insert_set who p.off_roster;
}
report_entry (digest_of who k d) seen p =
    if conflicts k d seen
    then record p { n_signed = suc p.n_signed; equivocations = (who, k.1) ∷ p.equivocations }
    else record p { n_signed = suc p.n_signed }
report_entry (shadow round match) seen p = record p {
  n_audits = suc p.n_audits;
  mismatches = add_mismatch round match p.mismatches;
}

abbrev pub none_listed {ℓ} : {A : Type ℓ} → List A → Bool
none_listed [] = true
none_listed (_ ∷ _) = false

unfoldable pub report_ok : AuditReport → Bool
report_ok p = none_listed p.sig_failures && none_listed p.equivocations

module _ (norm : ℕ → ℕ) (recover_bytes : ℕ → ℕ → ℕ → ℕ → Option ℕ) where
  -- what `verify_clock_commit` does with the address it recovered
  abbrev pub claimed_by : ℕ → Option ℕ → Option ℕ
  claimed_by claimed none = none
  claimed_by claimed (some rec) = if norm rec == norm claimed then some rec else none

  -- `some rec` stands for (True, rec), `none` for (False, _)
  abbrev pub verify_signed : Option ℕ → Option ℕ → Option ℕ → Option ℕ → Option ℕ
  verify_signed (some r) (some s) (some d) (some sig) =
      claimed_by s (recover_bytes r (norm s) d sig)
  verify_signed _ _ _ _ = none

  unfoldable pub verify_clock_commit : SignedCommit → Option ℕ
  verify_clock_commit c = verify_signed c.round c.signer c.digest c.sig

  abbrev pub eq_field : Option ℕ → Option ℕ → Bool
  eq_field (some a) (some b) = a == b
  eq_field _ _ = false

  unfoldable pub clock_equivocation : SignedCommit → SignedCommit → ClockVerdict
  clock_equivocation a b = elim (verify_clock_commit a) [
    | none ↦ not_equivocation envelope_a_invalid
    | some rec_a ↦ elim (verify_clock_commit b) [
      | none ↦ not_equivocation envelope_b_invalid
      | some rec_b ↦
          if not (norm rec_a == norm rec_b)
          then not_equivocation different_signers
          else if not (eq_field a.round b.round)
          then not_equivocation different_rounds
          else if eq_field a.digest b.digest
          then not_equivocation identical_commitment
          else equivocation_by rec_a
    ]
  ]

  -- `allow is None or who.lower() in allow`
  abbrev pub on_roster : Option (List ℕ) → ℕ → Bool
  on_roster none who = true
  on_roster (some allow) who = contains (norm who) allow

  abbrev pub show_verified : Option (List ℕ) → Option ℕ → Option ℕ → Option ℕ → Shown
  show_verified allow (some who) (some r) (some d) =
      if on_roster allow who then digest_of who (norm who, r) d else stranger who
  show_verified allow _ r d = bad_signature r

  unfoldable pub show_record : Option (List ℕ) → LogRecord → Shown
  show_record allow (signed c) = show_verified allow (verify_clock_commit c) c.round c.digest
  show_record allow (audited round match) = shadow round match
  show_record allow other = nothing

  unfoldable pub audit_records : Option (List ℕ) → Seen → List LogRecord → AuditReport
  audit_records allow seen [] = record {
    n_signed = 0;
    n_audits = 0;
    sig_failures = [];
    off_roster = [];
    equivocations = [];
    mismatches = [];
  }
  audit_records allow seen (r ∷ rs) =
      let x = show_record allow r in report_entry x seen (audit_records allow (see x seen) rs)

  abbrev pub norm_each : List ℕ → List ℕ
  norm_each [] = []
  norm_each (a ∷ as') = norm a ∷ norm_each as'

  abbrev pub roster_of : Option (List ℕ) → Option (List ℕ)
  roster_of none = none
  roster_of (some signers) = some (norm_each signers)

  unfoldable pub audit_clock_records : List LogRecord → Option (List ℕ) → Bool × AuditReport
  audit_clock_records records expected_signers =
      let report = audit_records (roster_of expected_signers) [] records in
      (report_ok report, report)

-- `none` is the NotImplementedError of the mode that is not built
unfoldable pub elected_round_authority : ℕ → ClockMode → Option ℕ
elected_round_authority single_node_r off = some single_node_r
elected_round_authority single_node_r audit = some single_node_r
elected_round_authority single_node_r enforce = none
