-- ===== src/Ledger/Stake.antt =====
-- The reads of the state, and what moves bonded stake: `_seize`, `slash` and
-- `_mature_unbonding` of neura_l1/block_state.py.
use neurahash_miner.Base.{
  ℕ, Bool, true, false, ◌&&◌, ◌||◌, Option, none, some, List, [], ◌∷◌, ◌++◌, ℤ, pos, ◌+ℤ◌, ◌-ℤ◌,
  ltb_ℤ, leb_ℤ, min_ℤ, max_ℤ, ltb, leb, Dict, get, get_or_default, lookup, insert, erase, keys_of,
  ◌==◌, if◌then◌else◌,
}
use neurahash_miner.Ledger.Defs.{State, Queue}

unfoldable pub balance : State → ℕ → ℤ
balance s addr = get addr s.bal

unfoldable pub stake_of : State → ℕ → ℤ
stake_of s addr = get addr s.staked

-- `sum(amt for amt, _ in queue)`
unfoldable pub queued : Queue → ℤ
queued [] = pos 0
queued ((amt, rel) ∷ es) = amt +ℤ queued es

unfoldable pub unbonding_of : State → ℕ → ℤ
unfolding queued
unbonding_of s addr = queued (get_or_default addr [] s.unbonding)

unfoldable pub at_risk_of : State → ℕ → ℤ
unfolding stake_of unbonding_of
at_risk_of s addr = stake_of s addr +ℤ unbonding_of s addr

unfoldable pub credit : ℕ → ℤ → State → State
credit addr amt s = record s { bal = insert addr (get addr s.bal +ℤ amt) s.bal }

unfoldable pub debit : ℕ → ℤ → State → State
debit addr amt s = record s { bal = insert addr (get addr s.bal -ℤ amt) s.bal }

-- `sorted(entries, key=lambda e: (e[1], e[0]))`, by insertion
unfoldable pub entry_before : ℤ × ℕ → ℤ × ℕ → Bool
entry_before (a, r) (b, q) = ltb r q || (r == q && leb_ℤ a b)

unfoldable pub insert_entry : ℤ × ℕ → Queue → Queue
insert_entry e [] = e ∷ []
insert_entry e (f ∷ es) = if entry_before e f then e ∷ f ∷ es else f ∷ insert_entry e es

unfoldable pub sort_entries : Queue → Queue
unfolding insert_entry entry_before
sort_entries [] = []
sort_entries (e ∷ es) = insert_entry e (sort_entries es)

-- `remaining is not None and remaining <= 0`
abbrev pub exhausted : Option ℤ → Bool
exhausted none = false
exhausted (some r) = leb_ℤ r (pos 0)

abbrev pub is_empty {ℓ} : {A : Type ℓ} → List A → Bool
is_empty [] = true
is_empty (_ ∷ _) = false

-- `x if remaining is None else min(x, remaining)`
abbrev pub at_most : ℤ → Option ℤ → ℤ
at_most x none = x
at_most x (some r) = min_ℤ x r

-- `if remaining is not None: remaining -= t`
abbrev pub spend : Option ℤ → ℤ → Option ℤ
spend none t = none
spend (some r) t = some (r -ℤ t)

-- One round of the loop over the unbonding entries: what is taken, what remains to take, and
-- what is kept of the entry.
unfoldable pub seize_entry : Option ℤ → ℤ → ℕ → ℤ × Option ℤ × Queue
seize_entry remaining amt rel =
    if exhausted remaining
    then (pos 0, remaining, (amt, rel) ∷ [])
    else let t = at_most amt remaining in
      (t, spend remaining t, if ltb_ℤ (pos 0) (amt -ℤ t) then (amt -ℤ t, rel) ∷ [] else [])

unfoldable pub seize_entries : Option ℤ → Queue → ℤ × Queue
unfolding seize_entry
seize_entries remaining [] = (pos 0, [])
seize_entries remaining ((amt, rel) ∷ es) =
    let (t, left, kept) = seize_entry remaining amt rel in
    let (seized, rest) = seize_entries left es in (t +ℤ seized, kept ++ rest)

-- `if kept: unbonding[addr] = kept else: unbonding.pop(addr, None)`
unfoldable pub put_queue : ℕ → Queue → Dict Queue → Dict Queue
put_queue addr [] d = erase addr d
put_queue addr (e ∷ es) d = insert addr (e ∷ es) d

-- step (1): the active bond
unfoldable pub seize_bond : ℕ → Option ℤ → State → ℤ × Option ℤ × State
seize_bond addr remaining s =
    let cur = get addr s.staked in
    let take = at_most cur remaining in
    if ltb_ℤ (pos 0) take
    then (take, spend remaining take, record s { staked = insert addr (cur -ℤ take) s.staked })
    else (pos 0, remaining, s)

-- step (2): the unbonding entries, oldest release first
unfoldable pub seize_queue : ℕ → Option ℤ → State → ℤ × State
unfolding seize_entries sort_entries put_queue
seize_queue addr remaining s = elim (lookup addr s.unbonding) [
  | none ↦ (pos 0, s)
  | some entries ↦
      if is_empty entries || exhausted remaining
      then (pos 0, s)
      else let (seized, kept) = seize_entries remaining (sort_entries entries) in
        (seized, record s { unbonding = put_queue addr kept s.unbonding })
]

-- `_seize`: `none` seizes everything at risk
unfoldable pub seize : ℕ → Option ℤ → State → ℤ × State
unfolding seize_bond seize_queue
seize addr amount s =
    let remaining : Option ℤ = elim amount [ none ↦ none | some a ↦ some (max_ℤ (pos 0) a) ] in
    let (bond, left, s') = seize_bond addr remaining s in
    let (rest, s'') = seize_queue addr left s' in (bond +ℤ rest, s'')

-- `slash`
unfoldable pub slash_stake : ℕ → Option ℤ → State → ℤ × State
unfolding seize
slash_stake addr amount s =
    let (seized, s') = seize addr amount s in
    (seized, record s' { treasury = s'.treasury +ℤ seized })

-- the loop of `_mature_unbonding` over one queue: credits what is due, and keeps the rest
unfoldable pub release_entries : ℕ → ℕ → Queue → State → State × Queue
unfolding credit
release_entries height addr [] s = (s, [])
release_entries height addr ((amt, rel) ∷ es) s =
    let (s', kept) =
      release_entries height addr es (if leb rel height then credit addr amt s else s) in
    (s', if leb rel height then kept else (amt, rel) ∷ kept)

unfoldable pub mature_account : ℕ → ℕ → State → State
unfolding release_entries put_queue
mature_account height addr s =
    let (s', kept) = release_entries height addr (get_or_default addr [] s.unbonding) s in
    record s' { unbonding = put_queue addr kept s'.unbonding }

unfoldable pub mature_accounts : ℕ → List ℕ → State → State
unfolding mature_account
mature_accounts height [] s = s
mature_accounts height (addr ∷ addrs) s =
    mature_accounts height addrs (mature_account height addr s)

unfoldable pub mature_unbonding : ℕ → State → State
unfolding mature_accounts
mature_unbonding height s = mature_accounts height (keys_of s.unbonding) s
