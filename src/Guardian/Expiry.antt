-- ===== src/Guardian/Expiry.antt =====
-- neurahash/guardian_halt.py: a halt expires, and a full set of guardians is obeyed.
use neurahash_miner.Base.{
  insert_set, length, sorted_set, contains, leb_ℤ, if_intro, ◌∙◌, +ℤ_parts, arith, ℕ, true, false,
  List, [], ◌∷◌, Option, none, some, ℤ, pos, ◌≤ℤ◌, ◌<ℤ◌, ◌≡◌, ◌+ℤ◌, parts,
}
use neurahash_miner.Guardian.Defs.{
  halted_for, Intent, halt, sign_all, GuardianSet, is_halted, build_order, start, distinct_signers,
  meets_threshold, Answer, effective, record_intent, carry_out, Payload, GuardianHalt, Recovery,
  Order, poll, submit, run,
}

module _ (ext : Recovery Payload) where
  open ext use {normal, recover}

  submit-max_halt_s :
      (p : Payload) (sigs : List ℕ) (now : ℤ) (g : GuardianHalt)
      → (submit ext p sigs now g).1.max_halt_s ≡ g.max_halt_s
  unfolding submit carry_out record_intent
  submit-max_halt_s p sigs now g = ground arith

  submit-halted_until :
      (p : Payload) (sigs : List ℕ) (now t m : ℤ) (g : GuardianHalt)
      → g.max_halt_s ≡ m
      → now ≤ℤ t
      → pos 0 ≤ℤ t +ℤ m
      → g.halted_until ≤ℤ t +ℤ m
      → (submit ext p sigs now g).1.halted_until ≤ℤ t +ℤ m
  unfolding submit carry_out record_intent effective
  submit-halted_until p sigs now t m g e h z b =
      ground (arith, +ℤ_parts now p.duration_s, +ℤ_parts now g.max_halt_s, +ℤ_parts t m, parts e)

  poll-max_halt_s :
      (o : Option Order) (now : ℤ) (g : GuardianHalt)
      → (poll ext o now g).1.max_halt_s ≡ g.max_halt_s
  unfolding poll
  poll-max_halt_s none now g = λ i. g.max_halt_s
  poll-max_halt_s (some o) now g = ground (arith, submit-max_halt_s o.payload o.signatures now g)

  poll-halted_until :
      (o : Option Order) (now t m : ℤ) (g : GuardianHalt)
      → g.max_halt_s ≡ m
      → now ≤ℤ t
      → pos 0 ≤ℤ t +ℤ m
      → g.halted_until ≤ℤ t +ℤ m
      → (poll ext o now g).1.halted_until ≤ℤ t +ℤ m
  unfolding poll
  poll-halted_until none now t m g e h z b = b
  poll-halted_until (some o) now t m g e h z b =
      if_intro (λ (r : Option Answer × GuardianHalt). r.1.halted_until ≤ℤ t +ℤ m)
        (leb_ℤ o.payload.epoch g.last_epoch) b
        (submit-halted_until o.payload o.signatures now t m g e h z b)

  -- every order was polled by the time
  abbrev pub PolledBy : ℤ → List (Option Order × ℤ) → Type 0
  PolledBy t [] = Unit
  PolledBy t ((_, now) ∷ rest) = (now ≤ℤ t) × PolledBy t rest

  run-Bounded :
      (m t : ℤ) (orders : List (Option Order × ℤ)) (g : GuardianHalt)
      → g.max_halt_s ≡ m
      → PolledBy t orders
      → pos 0 ≤ℤ t +ℤ m
      → g.halted_until ≤ℤ t +ℤ m
      → (run ext orders g).halted_until ≤ℤ t +ℤ m
  unfolding run
  run-Bounded m t [] g e h z b = b
  run-Bounded m t ((o, now) ∷ rest) g e (h, hs) z b =
      run-Bounded m t rest ((poll ext o now g).1) (poll-max_halt_s o now g ∙ e) hs z
        (poll-halted_until o now t m g e h z b)

  -- Started and run on any orders polled by a time, the pool is not halted once the bound on a
  -- halt has passed since: a lost set of guardians cannot stop it for good.
  pub halt_expires :
      (gs : GuardianSet) (ledger : Option (List Intent)) (max_halt_s t now : ℤ)
      (orders : List (Option Order × ℤ))
      → PolledBy t orders
      → pos 0 ≤ℤ t +ℤ max_halt_s
      → t +ℤ max_halt_s ≤ℤ now
      → is_halted ext now (run ext orders (start ext gs ledger max_halt_s)) ≡ false
  unfolding start is_halted
  halt_expires gs ledger max_halt_s t now orders h z l = ground (
    arith,
    +ℤ_parts t max_halt_s,
    run-Bounded max_halt_s t orders (start ext gs ledger max_halt_s) (λ i. max_halt_s) h z z,
  )

  -- the accounts' addresses in normal form
  module _ (sign : ℕ → Payload → ℕ) (address : ℕ → ℕ) where
    unfoldable pub addresses : List ℕ → List ℕ
    addresses [] = []
    addresses (a ∷ as') = normal (address a) ∷ addresses as'

    abbrev pub AllMembers : List ℕ → List ℕ → Type 0
    AllMembers members [] = Unit
    AllMembers members (a ∷ as') = (contains a members ≡ true) × AllMembers members as'

    signers-build_order :
        (gs : GuardianSet) (p : Payload) (accounts : List ℕ)
        → ((a : ℕ) → recover p (sign a p) ≡ some (address a))
        → AllMembers gs.members (addresses accounts)
        → distinct_signers ext gs p (sign_all ext sign accounts p) ≡ sorted_set (addresses accounts)
    unfolding addresses distinct_signers sorted_set
    signers-build_order gs p [] r h = λ i. []
    signers-build_order gs p (a ∷ as') r (h, hs) =
        rw (r a, h, signers-build_order gs p as' r hs)
          (λ i. insert_set (normal (address a)) (sorted_set (addresses as')))

    -- An order to halt with a new epoch that at least the threshold of distinct guardians sign is
    -- carried out: the pool halts for the time asked for, within the bound.
    pub build_order-obeyed :
        (p : Payload) (accounts : List ℕ) (now : ℤ) (g : GuardianHalt)
        → ((a : ℕ) → recover p (sign a p) ≡ some (address a))
        → AllMembers g.guardians.members (addresses accounts)
        → g.guardians.threshold ≤ℤ pos (length (sorted_set (addresses accounts)))
        → p.action ≡ halt
        → g.last_epoch <ℤ p.epoch
        → ((submit ext p (build_order ext sign p accounts).signatures now g).0
            ≡ halted_for (effective ext p.duration_s g.max_halt_s))
          × ((submit ext p (build_order ext sign p accounts).signatures now g).1.halted_until
              ≡ now +ℤ effective ext p.duration_s g.max_halt_s)
    unfolding submit carry_out record_intent meets_threshold build_order
    build_order-obeyed p accounts now g r h k e l =
        ground (arith, e, signers-build_order g.guardians p accounts r h)
