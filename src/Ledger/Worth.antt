-- ===== src/Ledger/Worth.antt =====
-- The sum of all that a state of neura_l1/block_state.py holds, under each move of stake.
use neurahash_miner.Base.{
  ℕ, ◌≡◌, refl, Option, none, some, [], ◌∷◌, ◌++◌, ℤ, pos, ◌+ℤ◌, ◌-ℤ◌, int_laws, Dict, get,
  get_or_default, get_or_default-some, lookup, insert, erase, total, total-insert, Option-cases,
  inl, inr, max_ℤ, ltb_ℤ, Bool-cases, ◌||◌, parts,
}
use neurahash_miner.Ledger.Frame.{seize-SamePolicy}
use neurahash_miner.Ledger.Defs.{State, Queue}
use neurahash_miner.Ledger.Stake.{
  queued, is_empty, exhausted, at_most, credit, debit, insert_entry, sort_entries, seize_entry,
  seize_entries, put_queue, seize_bond, seize_queue, seize,
}

unfoldable pub total_queued : Dict Queue → ℤ
unfolding queued
total_queued [] = pos 0
total_queued ((_, q) ∷ d) = queued q +ℤ total_queued d

-- liquid, bonded and withdrawing amounts
unfoldable pub holdings : State → ℤ
unfolding total_queued total
holdings s = total s.bal +ℤ total s.staked +ℤ total_queued s.unbonding

-- all that the state holds, the treasury included
unfoldable pub worth : State → ℤ
unfolding holdings
worth s = holdings s +ℤ s.treasury

pub queued-append : (p q : Queue) → queued (p ++ q) ≡ queued p +ℤ queued q
unfolding queued
queued-append [] q = omega int_laws
queued-append (e ∷ p) q = grind (int_laws, queued-append p q)

pub total_queued-insert :
    (k : ℕ) (q : Queue) (d : Dict Queue)
    → total_queued (insert k q d) +ℤ queued (get_or_default k [] d) ≡ total_queued d +ℤ queued q
unfolding total_queued insert lookup queued
total_queued-insert k q [] = omega int_laws
total_queued-insert k q (e ∷ d) = grind (int_laws, total_queued-insert k q d)

pub total_queued-erase :
    (k : ℕ) (d : Dict Queue)
    → total_queued (erase k d) +ℤ queued (get_or_default k [] d) ≡ total_queued d
unfolding total_queued erase lookup queued
total_queued-erase k [] = omega int_laws
total_queued-erase k (e ∷ d) = grind (int_laws, total_queued-erase k d)

pub total_queued-put_queue :
    (k : ℕ) (q : Queue) (d : Dict Queue)
    → total_queued (put_queue k q d) +ℤ queued (get_or_default k [] d) ≡ total_queued d +ℤ queued q
unfolding put_queue queued
total_queued-put_queue k [] d = grind (int_laws, total_queued-erase k d)
total_queued-put_queue k (e ∷ q) d = total_queued-insert k (e ∷ q) d

queued-insert_entry : (e : ℤ × ℕ) (es : Queue) → queued (insert_entry e es) ≡ e.0 +ℤ queued es
unfolding queued insert_entry
queued-insert_entry e [] = refl
queued-insert_entry e (f ∷ es) = grind (int_laws, queued-insert_entry e es)

pub queued-sort_entries : (es : Queue) → queued (sort_entries es) ≡ queued es
unfolding queued sort_entries
queued-sort_entries [] = refl
queued-sort_entries (e ∷ es) =
    grind (int_laws, queued-insert_entry e (sort_entries es), queued-sort_entries es)

queued-seize_entry :
    (remaining : Option ℤ) (amt : ℤ) (rel : ℕ)
    → (seize_entry remaining amt rel).0 +ℤ queued (seize_entry remaining amt rel).2 ≡ amt
unfolding seize_entry queued
queued-seize_entry none amt rel = grind int_laws
queued-seize_entry (some r) amt rel = grind int_laws

pub queued-seize_entries :
    (remaining : Option ℤ) (es : Queue)
    → (seize_entries remaining es).0 +ℤ queued (seize_entries remaining es).1 ≡ queued es
unfolding seize_entries queued
queued-seize_entries remaining [] = omega int_laws
queued-seize_entries remaining ((amt, rel) ∷ es) = grind (
  int_laws,
  queued-seize_entry remaining amt rel,
  queued-append (seize_entry remaining amt rel).2
      (seize_entries (seize_entry remaining amt rel).1 es).1,
  queued-seize_entries (seize_entry remaining amt rel).1 es,
)

holdings-seize_bond :
    (addr : ℕ) (remaining : Option ℤ) (s : State)
    → (seize_bond addr remaining s).0 +ℤ holdings (seize_bond addr remaining s).2 ≡ holdings s
unfolding seize_bond holdings
holdings-seize_bond addr remaining s =
    let cur = get addr s.staked in
    let take = at_most cur remaining in
    elim (Bool-cases (ltb_ℤ (pos 0) take)) [
      | inl e ↦ rw e (omega (int_laws, parts (total-insert addr (cur -ℤ take) s.staked)))
      | inr e ↦ rw e (omega int_laws)
    ]

holdings-seize_queue :
    (addr : ℕ) (remaining : Option ℤ) (s : State)
    → (seize_queue addr remaining s).0 +ℤ holdings (seize_queue addr remaining s).1 ≡ holdings s
unfolding seize_queue holdings
holdings-seize_queue addr remaining s = elim (Option-cases (lookup addr s.unbonding)) [
  | inl e ↦ rw (e, seize_queue) (omega int_laws)
  | inr (entries, e) ↦ elim (Bool-cases (is_empty entries || exhausted remaining)) [
    | inl stop ↦ rw (e, seize_queue, stop) (omega int_laws)
    | inr go ↦
        let (seized, kept) = seize_entries remaining (sort_entries entries) in
        rw (e, seize_queue, go)
          (omega (
            int_laws,
            parts (
                rw (get_or_default-some addr [] entries s.unbonding e) at
                  (total_queued-put_queue addr kept s.unbonding)),
            parts (queued-seize_entries remaining (sort_entries entries)),
            parts (queued-sort_entries entries),
          ))
  ]
]

-- What `seize` returns is what the holdings lose.
pub holdings-seize :
    (addr : ℕ) (amount : Option ℤ) (s : State)
    → (seize addr amount s).0 +ℤ holdings (seize addr amount s).1 ≡ holdings s
unfolding seize
holdings-seize addr amount s =
    let remaining : Option ℤ = elim amount [ none ↦ none | some a ↦ some (max_ℤ (pos 0) a) ] in
    let (taken, left, s') = seize_bond addr remaining s in
    omega (
      int_laws,
      parts (holdings-seize_bond addr remaining s),
      parts (holdings-seize_queue addr left s'),
    )

pub holdings-credit :
    (addr : ℕ) (amt : ℤ) (s : State) → holdings (credit addr amt s) ≡ holdings s +ℤ amt
unfolding credit holdings
holdings-credit addr amt s = grind (int_laws, total-insert addr (get addr s.bal +ℤ amt) s.bal)

pub holdings-debit :
    (addr : ℕ) (amt : ℤ) (s : State) → holdings (debit addr amt s) +ℤ amt ≡ holdings s
unfolding debit holdings
holdings-debit addr amt s = grind (int_laws, total-insert addr (get addr s.bal -ℤ amt) s.bal)

pub worth-credit : (addr : ℕ) (amt : ℤ) (s : State) → worth (credit addr amt s) ≡ worth s +ℤ amt
unfolding worth credit
worth-credit addr amt s = omega (int_laws, parts (holdings-credit addr amt s))

pub worth-debit : (addr : ℕ) (amt : ℤ) (s : State) → worth (debit addr amt s) +ℤ amt ≡ worth s
unfolding worth debit
worth-debit addr amt s = omega (int_laws, parts (holdings-debit addr amt s))

pub worth-seize :
    (addr : ℕ) (amount : Option ℤ) (s : State)
    → (seize addr amount s).0 +ℤ worth (seize addr amount s).1 ≡ worth s
unfolding worth
worth-seize addr amount s =
    rw (seize-SamePolicy addr amount s).treasury
      (omega (int_laws, parts (holdings-seize addr amount s)))
