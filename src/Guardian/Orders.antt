-- ===== src/Guardian/Orders.antt =====
-- neurahash/guardian_halt.py: orders over time. No order is applied twice, not even over a
-- restart, and no halt outlasts its bound.
use neurahash_miner.Base.{
  leb_ℤ, parts, if_intro, arith, ℕ, true, List, [], ◌∷◌, Option, none, some, ℤ, ◌≤ℤ◌, ◌<ℤ◌, ◌≡◌,
  refl,
}
use neurahash_miner.Guardian.Defs.{
  start, ledger_floor, stale_epoch, epoch_floor, run, poll, record_intent, carry_out, submit,
  Payload, GuardianSet, GuardianHalt, Recovery, Order, Intent, Answer, accepted,
}

module _ (ext : Recovery Payload) where
  -- The floor after an order: its own epoch where it is accepted.
  pub submit-floor :
      (p : Payload) (sigs : List ℕ) (now : ℤ) (g : GuardianHalt)
      → accepted (submit ext p sigs now g).0 ≡ true
      → (g.last_epoch <ℤ p.epoch) × ((submit ext p sigs now g).1.last_epoch ≡ p.epoch)
  unfolding submit carry_out record_intent
  submit-floor p sigs now g h = ground arith

  submit-rises :
      (p : Payload) (sigs : List ℕ) (now : ℤ) (g : GuardianHalt)
      → g.last_epoch ≤ℤ (submit ext p sigs now g).1.last_epoch
  unfolding submit carry_out record_intent
  submit-rises p sigs now g = ground arith

  submit-stale :
      (p : Payload) (sigs : List ℕ) (now : ℤ) (g : GuardianHalt)
      → p.epoch ≤ℤ g.last_epoch
      → submit ext p sigs now g ≡ (stale_epoch, g)
  unfolding submit
  submit-stale p sigs now g h = ground arith

  poll-rises :
      (o : Option Order) (now : ℤ) (g : GuardianHalt)
      → g.last_epoch ≤ℤ (poll ext o now g).1.last_epoch
  unfolding poll
  poll-rises none now g = omega arith
  poll-rises (some o) now g = ground (arith, submit-rises o.payload o.signatures now g)

  run-rises :
      (orders : List (Option Order × ℤ)) (g : GuardianHalt)
      → g.last_epoch ≤ℤ (run ext orders g).last_epoch
  unfolding run
  run-rises [] g = omega arith
  run-rises ((o, now) ∷ rest) g =
      omega (arith, poll-rises o now g, run-rises rest ((poll ext o now g).1))

  -- An order that was accepted is refused as stale whenever it is submitted again, whatever
  -- orders were polled in between, under whatever signatures, and it changes nothing then.
  pub accepted_once :
      (p : Payload) (sigs again : List ℕ) (now later : ℤ) (g : GuardianHalt)
      (orders : List (Option Order × ℤ))
      → accepted ((submit ext p sigs now g).0) ≡ true
      → submit ext p again later (run ext orders ((submit ext p sigs now g).1))
        ≡ (stale_epoch, run ext orders ((submit ext p sigs now g).1))
  accepted_once p sigs again now later g orders h =
      let g' = (submit ext p sigs now g).1 in
      let (_, e) = submit-floor p sigs now g h in
      submit-stale p again later (run ext orders g') (omega (arith, parts e, run-rises orders g'))

  -- there is a ledger, and the epoch it remembers is the controller's own
  abbrev pub Remembers : Option (List Intent) → ℤ → Type 0
  Remembers none e = ⊥
  Remembers (some is) e = (epoch_floor ext is ≡ e)

  submit-Remembers :
      (p : Payload) (sigs : List ℕ) (now : ℤ) (g : GuardianHalt)
      → Remembers g.ledger g.last_epoch
      → Remembers (submit ext p sigs now g).1.ledger (submit ext p sigs now g).1.last_epoch
  unfolding submit carry_out record_intent epoch_floor
  submit-Remembers p sigs now g h = ground arith

  poll-Remembers :
      (o : Option Order) (now : ℤ) (g : GuardianHalt)
      → Remembers g.ledger g.last_epoch
      → Remembers (poll ext o now g).1.ledger (poll ext o now g).1.last_epoch
  unfolding poll
  poll-Remembers none now g h = h
  poll-Remembers (some o) now g h =
      if_intro (λ (r : Option Answer × GuardianHalt). Remembers r.1.ledger r.1.last_epoch)
        (leb_ℤ o.payload.epoch g.last_epoch) h (submit-Remembers o.payload o.signatures now g h)

  run-Remembers :
      (orders : List (Option Order × ℤ)) (g : GuardianHalt)
      → Remembers g.ledger g.last_epoch
      → Remembers (run ext orders g).ledger (run ext orders g).last_epoch
  unfolding run
  run-Remembers [] g h = h
  run-Remembers ((o, now) ∷ rest) g h =
      run-Remembers rest ((poll ext o now g).1) (poll-Remembers o now g h)

  floor_of_Remembers : (l : Option (List Intent)) (e : ℤ) → Remembers l e → ledger_floor ext l ≡ e
  floor_of_Remembers none e h = elim h [ ]
  floor_of_Remembers (some is) e h = h

  -- A controller with a ledger, started, run on any orders, and restarted from the ledger it
  -- left, has the epoch floor it had when it stopped.
  pub restart-floor :
      (gs gs' : GuardianSet) (is : List Intent) (max_halt_s max' : ℤ)
      (orders : List (Option Order × ℤ))
      → (start ext gs' (run ext orders (start ext gs (some is) max_halt_s)).ledger max').last_epoch
        ≡ (run ext orders (start ext gs (some is) max_halt_s)).last_epoch
  unfolding start
  restart-floor gs gs' is max_halt_s max' orders =
      let g = start ext gs (some is) max_halt_s in
      floor_of_Remembers (run ext orders g).ledger (run ext orders g).last_epoch
        (run-Remembers orders g refl)
