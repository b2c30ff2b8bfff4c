-- ===== src/Ledger/Solvency.antt =====
-- No amount that a state holds is negative, under each move of stake of
-- neura_l1/block_state.py.
use neurahash_miner.Base.{
  ℕ, Option, none, some, [], ◌∷◌, ◌++◌, ℤ, pos, ◌+ℤ◌, ◌-ℤ◌, ◌≤ℤ◌, int_laws, arith, Dict, get,
  get_or_default, get_or_default-some, lookup, insert, erase, AllNonneg, get-nonneg,
  insert-AllNonneg, Option-cases, Bool-cases, inl, inr, max_ℤ, min_ℤ, ltb_ℤ, tests, -ℤ_parts,
}
use neurahash_miner.Ledger.Defs.{State, Queue}
use neurahash_miner.Ledger.Stake.{
  queued, at_most, credit, debit, insert_entry, sort_entries, seize_entry, seize_entries, put_queue,
  seize_bond, seize_queue, seize, balance,
}

abbrev pub NonnegQueue : Queue → Type 0
NonnegQueue [] = Unit
NonnegQueue ((amt, _) ∷ q) = (pos 0 ≤ℤ amt) × NonnegQueue q

abbrev pub AllQueues : Dict Queue → Type 0
AllQueues [] = Unit
AllQueues ((_, q) ∷ d) = NonnegQueue q × AllQueues d

pub record IsSolvent (s : State) : Type 0 where
  pub liquid : AllNonneg s.bal
  pub bonded : AllNonneg s.staked
  pub withdrawing : AllQueues s.unbonding
  pub treasury : pos 0 ≤ℤ s.treasury

pub append-NonnegQueue : (p q : Queue) → NonnegQueue p → NonnegQueue q → NonnegQueue (p ++ q)
append-NonnegQueue [] q hp hq = hq
append-NonnegQueue (e ∷ p) q hp hq = (hp.0, append-NonnegQueue p q hp.1 hq)

pub queued-nonneg : (q : Queue) → NonnegQueue q → pos 0 ≤ℤ queued q
unfolding queued
queued-nonneg [] h = omega arith
queued-nonneg (e ∷ q) h = omega (int_laws, queued-nonneg q h.1)

pub insert-AllQueues :
    (k : ℕ) (q : Queue) (d : Dict Queue) → NonnegQueue q → AllQueues d → AllQueues (insert k q d)
unfolding insert
insert-AllQueues k q [] hq hd = (hq, tt)
insert-AllQueues k q (e ∷ d) hq hd = ground (arith, insert-AllQueues k q d hq hd.1)

erase-AllQueues : (k : ℕ) (d : Dict Queue) → AllQueues d → AllQueues (erase k d)
unfolding erase
erase-AllQueues k [] h = tt
erase-AllQueues k (e ∷ d) h = ground (arith, erase-AllQueues k d h.1)

pub get-NonnegQueue : (k : ℕ) (d : Dict Queue) → AllQueues d → NonnegQueue (get_or_default k [] d)
unfolding lookup
get-NonnegQueue k [] h = tt
get-NonnegQueue k (e ∷ d) h = ground (arith, get-NonnegQueue k d h.1)

pub put_queue-AllQueues :
    (k : ℕ) (q : Queue) (d : Dict Queue) → NonnegQueue q → AllQueues d → AllQueues (put_queue k q d)
unfolding put_queue
put_queue-AllQueues k [] d hq hd = erase-AllQueues k d hd
put_queue-AllQueues k (e ∷ q) d hq hd = insert-AllQueues k (e ∷ q) d hq hd

insert_entry-NonnegQueue :
    (e : ℤ × ℕ) (q : Queue) → pos 0 ≤ℤ e.0 → NonnegQueue q → NonnegQueue (insert_entry e q)
unfolding insert_entry
insert_entry-NonnegQueue e [] he h = (he, tt)
insert_entry-NonnegQueue e (f ∷ q) he h = ground (arith, insert_entry-NonnegQueue e q he h.1)

sort_entries-NonnegQueue : (q : Queue) → NonnegQueue q → NonnegQueue (sort_entries q)
unfolding sort_entries
sort_entries-NonnegQueue [] h = tt
sort_entries-NonnegQueue (e ∷ q) h =
    insert_entry-NonnegQueue e (sort_entries q) h.0 (sort_entries-NonnegQueue q h.1)

seize_entry-nonneg :
    (remaining : Option ℤ) (amt : ℤ) (rel : ℕ)
    → pos 0 ≤ℤ amt
    → (pos 0 ≤ℤ (seize_entry remaining amt rel).0) × NonnegQueue (seize_entry remaining amt rel).2
unfolding seize_entry
seize_entry-nonneg none amt rel h = (h, ground (arith, -ℤ_parts amt amt))
seize_entry-nonneg (some r) amt rel h =
    ground (arith, -ℤ_parts amt (min_ℤ amt r), -ℤ_parts amt amt, -ℤ_parts amt r)

seize_entries-nonneg :
    (remaining : Option ℤ) (q : Queue)
    → NonnegQueue q
    → (pos 0 ≤ℤ (seize_entries remaining q).0) × NonnegQueue (seize_entries remaining q).1
unfolding seize_entries
seize_entries-nonneg remaining [] h = (omega arith, tt)
seize_entries-nonneg remaining ((amt, rel) ∷ q) h =
    let (t, left, kept) = seize_entry remaining amt rel in
    let (ht, hk) = seize_entry-nonneg remaining amt rel h.0 in
    let (hs, hr) = seize_entries-nonneg left q h.1 in
    (omega int_laws, append-NonnegQueue kept (seize_entries left q).1 hk hr)

at_most-le : (x : ℤ) (o : Option ℤ) → at_most x o ≤ℤ x
at_most-le x none = omega arith
at_most-le x (some r) = ground arith

seize_bond-IsSolvent :
    (addr : ℕ) (remaining : Option ℤ) (s : State)
    → IsSolvent s
    → (pos 0 ≤ℤ (seize_bond addr remaining s).0) × IsSolvent (seize_bond addr remaining s).2
unfolding seize_bond
seize_bond-IsSolvent addr remaining s h =
    let cur = get addr s.staked in
    let take = at_most cur remaining in
    let room : pos 0 ≤ℤ cur -ℤ take = omega (int_laws, at_most-le cur remaining) in
    let left = insert-AllNonneg addr (cur -ℤ take) s.staked h.bonded room in
    elim (Bool-cases (ltb_ℤ (pos 0) take)) [
      | inl e ↦ rw e (
        omega (tests, e),
        record {
          liquid = h.liquid;
          bonded = left;
          withdrawing = h.withdrawing;
          treasury = h.treasury;
        },
      )
      | inr e ↦ rw e (omega arith, h)
    ]

seize_queue-IsSolvent :
    (addr : ℕ) (remaining : Option ℤ) (s : State)
    → IsSolvent s
    → (pos 0 ≤ℤ (seize_queue addr remaining s).0) × IsSolvent (seize_queue addr remaining s).1
unfolding seize_queue
seize_queue-IsSolvent addr remaining s h = elim (Option-cases (lookup addr s.unbonding)) [
  | inl e ↦ rw (e, seize_queue) (omega arith, h)
  | inr (entries, e) ↦
      let (t, k) = seize_entries-nonneg remaining (sort_entries entries) (
        sort_entries-NonnegQueue entries (
          rw (get_or_default-some addr [] entries s.unbonding e) at
            (get-NonnegQueue addr s.unbonding h.withdrawing))) in
      let p =
        put_queue-AllQueues addr (seize_entries remaining (sort_entries entries)).1 s.unbonding k
          h.withdrawing in
      ground arith
]

-- A seizure takes an amount that is not negative, and leaves a solvent state.
pub seize-IsSolvent :
    (addr : ℕ) (amount : Option ℤ) (s : State)
    → IsSolvent s
    → (pos 0 ≤ℤ (seize addr amount s).0) × IsSolvent (seize addr amount s).1
unfolding seize
seize-IsSolvent addr amount s h =
    let remaining : Option ℤ = elim amount [ none ↦ none | some a ↦ some (max_ℤ (pos 0) a) ] in
    let (taken, left, s') = seize_bond addr remaining s in
    let (p, h') = seize_bond-IsSolvent addr remaining s h in
    let (q, h'') = seize_queue-IsSolvent addr left s' h' in (omega int_laws, h'')

pub credit-IsSolvent :
    (addr : ℕ) (amt : ℤ) (s : State) → pos 0 ≤ℤ amt → IsSolvent s → IsSolvent (credit addr amt s)
unfolding credit
credit-IsSolvent addr amt s p h = record {
  liquid =
      insert-AllNonneg addr (get addr s.bal +ℤ amt) s.bal h.liquid
        (omega (int_laws, get-nonneg addr s.bal h.liquid));
  bonded = h.bonded;
  withdrawing = h.withdrawing;
  treasury = h.treasury;
}

pub debit-IsSolvent :
    (addr : ℕ) (amt : ℤ) (s : State)
    → amt ≤ℤ balance s addr
    → IsSolvent s
    → IsSolvent (debit addr amt s)
unfolding debit balance
debit-IsSolvent addr amt s p h = record {
  liquid = insert-AllNonneg addr (get addr s.bal -ℤ amt) s.bal h.liquid (omega int_laws);
  bonded = h.bonded;
  withdrawing = h.withdrawing;
  treasury = h.treasury;
}
