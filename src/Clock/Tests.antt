-- ===== src/Clock/Tests.antt =====
-- neurahash/diloco_clock.py: the definitions at concrete inputs.
use neurahash_miner.Clock.Opening.{make_commit-opens}
use neurahash_miner.Clock.Log.{audit_clock_records_exact, IsConsistent, forged}
use neurahash_miner.Clock.Reveals.{reveals_of_exact, reveals_as, IsBinding}
use neurahash_miner.Clock.Commits.{
  trusted_commits_exact, commits_otherwise, commits_to, holds, SameMembers,
}
use neurahash_miner.Clock.Agreement.{equivocator_excluded, agree_round-same}
use neurahash_miner.Clock.Audit.{
  seen_digest, verify_clock_commit, show_record, report_entry, audited, report_ok, other,
  audit_records, signed, audit_clock_records, LogRecord,
}
use neurahash_miner.Base.{
  erase, insert, insert_sorted, keys_of, insert_set, not, ◌&&◌, sorted_set, lookup, contains, ℕ,
  true, false, Option, none, some, List, [], ◌∷◌, ◌≡◌, ◌↔◌, refl, arith, any_of,
}
use neurahash_miner.Clock.Defs.{
  note_commit, add_commits, drop_signers, commits_of, note_reveal, union_set, missing_of,
  add_reveals, opens, insert_by, reveal_of, sort_by, trusted_commits, commit_envelope, reveals_of,
  verify_reveal, agree_seed, agree_order, commit_digest, Hashes, CommitEnvelope, Reveal,
  agree_round, make_commit,
}

-- a digest is its nonce, a signer its own normal form, and signers are ordered by number
abbrev toy : Hashes
toy = record {
  norm = λ a. a;
  no_signer = 0;
  digest = λ r s n. some n;
  seed_hash = λ r ps. r;
  order_key = λ seed s. s;
}

toy-IsBinding : (round : ℕ) → IsBinding toy round
unfolding commit_digest
toy-IsBinding round s n n' d e f = ground (arith, e, f)

abbrev commit : ℕ → ℕ → CommitEnvelope
commit s d = record { round = some 4; signer = some s; digest = some d }

abbrev reveal : ℕ → ℕ → Reveal
reveal s n = record { round = some 4; signer = some s; nonce = some n }

-- 7 opens what it committed to, 5 does not, and 6 committed twice
abbrev commits : List CommitEnvelope
commits = commit 7 70 ∷ commit 5 50 ∷ commit 6 60 ∷ commit 6 61 ∷ commit 3 30 ∷ []

abbrev reveals : List Reveal
reveals = reveal 7 70 ∷ reveal 5 51 ∷ reveal 6 60 ∷ reveal 3 30 ∷ reveal 9 90 ∷ []

agreed_order : (agree_round toy commits reveals 4).order ≡ 3 ∷ 7 ∷ []
unfolding agree_round agree_order agree_seed sort_by insert_by sorted_set insert_set keys_of
    reveals_of add_reveals note_reveal trusted_commits commits_of drop_signers add_commits
    note_commit commit_digest lookup insert erase
agreed_order = refl

disputed : (agree_round toy commits reveals 4).disputes ≡ record {
  rejected = 5 ∷ [];
  missing = 5 ∷ [];
  unsolicited = 6 ∷ 9 ∷ [];
  commit_equivocations = 6 ∷ [];
  wrong_round = [];
}
unfolding agree_round agree_order agree_seed sort_by insert_by sorted_set insert_set keys_of
    missing_of union_set reveals_of add_reveals note_reveal trusted_commits commits_of drop_signers
    add_commits note_commit commit_digest lookup insert erase
disputed = refl

same_commits :
    SameMembers (commit 7 70 ∷ commit 3 30 ∷ []) (commit 3 30 ∷ commit 7 70 ∷ commit 3 30 ∷ [])
unfolding any_of
same_commits p = ground arith

same_reveals : SameMembers (reveal 7 70 ∷ reveal 3 30 ∷ []) (reveal 3 30 ∷ reveal 7 70 ∷ [])
unfolding any_of
same_reveals p = ground arith

abbrev one_way : List CommitEnvelope
one_way = commit 7 70 ∷ commit 3 30 ∷ []

abbrev other_way : List CommitEnvelope
other_way = commit 3 30 ∷ commit 7 70 ∷ commit 3 30 ∷ []

agree_round-same_example :
    ((agree_round toy one_way (reveal 7 70 ∷ reveal 3 30 ∷ []) 4).seed
      ≡ (agree_round toy other_way (reveal 3 30 ∷ reveal 7 70 ∷ []) 4).seed)
    × ((agree_round toy one_way (reveal 7 70 ∷ reveal 3 30 ∷ []) 4).order
        ≡ (agree_round toy other_way (reveal 3 30 ∷ reveal 7 70 ∷ []) 4).order)
    × ((agree_round toy one_way (reveal 7 70 ∷ reveal 3 30 ∷ []) 4).valid_signers
        ≡ (agree_round toy other_way (reveal 3 30 ∷ reveal 7 70 ∷ []) 4).valid_signers)
agree_round-same_example =
    agree_round-same toy 4 one_way other_way (reveal 7 70 ∷ reveal 3 30 ∷ [])
      (reveal 3 30 ∷ reveal 7 70 ∷ []) (toy-IsBinding 4) same_commits same_reveals

equivocator_excluded_example : contains 6 (agree_round toy commits reveals 4).order ≡ false
unfolding any_of
equivocator_excluded_example =
    equivocator_excluded toy 4 commits reveals 6 60 61 (toy-IsBinding 4) (ground arith) refl refl

nonces_shown : holds (lookup 7 (reveals_of toy 4 commits reveals).valid) 70 ≡ (
    opens toy 4 7 (some 70) (lookup 7 (trusted_commits toy 4 commits))
    && any_of (reveals_as toy 4 7 70) reveals)
nonces_shown = reveals_of_exact toy 4 7 70 commits reveals (toy-IsBinding 4)

trusted_commits_exact_example : holds (lookup 6 (trusted_commits toy 4 commits)) 60 ≡ (
    any_of (commits_to toy 4 6 60) commits && not (any_of (commits_otherwise toy 4 6 60) commits))
trusted_commits_exact_example = trusted_commits_exact toy 4 6 60 commits

commit_opened :
    verify_reveal toy
      (commit_envelope toy (record { round = 4; signer = 7; digest = 70; nonce = 70 }))
      (reveal_of toy (record { round = 4; signer = 7; digest = 70; nonce = 70 }))
    ≡ true
unfolding make_commit commit_digest
commit_opened =
    make_commit-opens toy 4 7 70 (record { round = 4; signer = 7; digest = 70; nonce = 70 })
      (λ a. refl) refl

-- a signature recovers to itself
abbrev recover : ℕ → ℕ → ℕ → ℕ → Option ℕ
recover r s d sig = some sig

abbrev signed_by : ℕ → ℕ → ℕ → LogRecord
signed_by s d sig =
    signed (record { round = some 4; signer = some s; digest = some d; sig = some sig })

-- 7 signs twice, and 5's signature is another's
abbrev log : List LogRecord
log = signed_by 7 70 7 ∷ other ∷ signed_by 7 71 7 ∷ audited 4 (some false) ∷ signed_by 5 50 6 ∷ []

refused_log : (audit_clock_records (λ a. a) recover log none).0 ≡ false
unfolding audit_clock_records audit_records report_ok report_entry show_record verify_clock_commit
    seen_digest insert_sorted
refused_log = refl

-- one that names no round is passed over
passed_over :
    (audit_clock_records
      (λ a. a)
      recover
      (signed (record { round = none; signer = some 5; digest = some 1; sig = some 6 }) ∷ [])
      none).0
    ≡ true
unfolding audit_clock_records audit_records report_ok report_entry show_record verify_clock_commit
    seen_digest
passed_over = refl

audit_clock_records_exact_example :
    ((audit_clock_records (λ a. a) recover log none).0 ≡ true)
    ↔ ((any_of (forged (λ a. a) recover none) log ≡ false) × IsConsistent (λ a. a) recover none log)
audit_clock_records_exact_example = audit_clock_records_exact (λ a. a) recover none log
