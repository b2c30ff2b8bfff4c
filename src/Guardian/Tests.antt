-- ===== src/Guardian/Tests.antt =====
-- neurahash/guardian_halt.py: the definitions at concrete inputs.
use neurahash_miner.Base.{
  suc, arith, contains, insert_set, sorted_set, ◌+ℤ◌, List, [], ◌∷◌, Option, none, some, ℤ, pos,
  ◌≡◌, refl, ◌==◌, if◌then◌else◌, false,
}
use neurahash_miner.Guardian.Defs.{
  halted_for, build_order, epoch_floor, stale_epoch, effective, insufficient_signatures, built,
  record_intent, distinct_signers, meets_threshold, is_halted, carry_out, poll, start, guardian_set,
  GuardianSet, run, submit, Payload, GuardianHalt, Recovery, Order, halt, resume,
}
use neurahash_miner.Guardian.Signers.{has_signed, signing_members, distinct_signers_exact}
use neurahash_miner.Guardian.Orders.{accepted_once, restart-floor}
use neurahash_miner.Guardian.Expiry.{halt_expires, addresses, build_order-obeyed}

-- a signature is its signer's address, and 0 recovers to nothing
abbrev ext : Recovery Payload
ext = record { normal = λ a. a; recover = λ p sig. if sig == 0 then none else some sig }

abbrev three : GuardianSet
three = record { members = 1 ∷ 2 ∷ 3 ∷ []; threshold = pos 2 }

abbrev stop : Payload
stop = record { action = halt; epoch = pos 7; reason = 0; duration_s = pos 60 }

abbrev go_on : Payload
go_on = record { action = resume; epoch = pos 8; reason = 0; duration_s = pos 0 }

abbrev fresh : GuardianHalt
fresh = record {
  guardians = three;
  ledger = some [];
  max_halt_s = pos 3600;
  halted_until = pos 0;
  last_epoch = pos 0;
}

abbrev later_orders : List (Option Order × ℤ)
later_orders =
    (some (record { payload = go_on; signatures = 3 ∷ 1 ∷ [] }), pos 120)
    ∷ (none, pos 130)
    ∷ (some (record { payload = stop; signatures = 1 ∷ 2 ∷ [] }), pos 140)
    ∷ []

guardian_set_members : guardian_set ext (3 ∷ 1 ∷ 2 ∷ 1 ∷ []) (pos 2) ≡ built three
unfolding guardian_set sorted_set insert_set
guardian_set_members = refl

too_few : (submit ext stop (2 ∷ 2 ∷ 9 ∷ []) (pos 100) fresh).0 ≡ insufficient_signatures
unfolding submit meets_threshold distinct_signers contains insert_set
too_few = refl

distinct_signers_exact_example :
    distinct_signers ext three stop (2 ∷ 2 ∷ 9 ∷ 0 ∷ 1 ∷ []) ≡ 1 ∷ 2 ∷ []
unfolding has_signed signing_members
distinct_signers_exact_example =
    distinct_signers_exact ext three stop (2 ∷ 2 ∷ 9 ∷ 0 ∷ 1 ∷ []) (omega arith, (omega arith, tt))

accepted_once_example :
    submit ext stop
      (1 ∷ 3 ∷ [])
      (pos 150)
      (run ext later_orders ((submit ext stop (2 ∷ 1 ∷ []) (pos 100) fresh).1))
    ≡ (stale_epoch, run ext later_orders ((submit ext stop (2 ∷ 1 ∷ []) (pos 100) fresh).1))
unfolding submit carry_out meets_threshold distinct_signers contains insert_set
accepted_once_example =
    accepted_once ext stop (2 ∷ 1 ∷ []) (1 ∷ 3 ∷ []) (pos 100) (pos 150) fresh later_orders refl

restart_keeps_floor :
    (start ext three
      (run ext later_orders (start ext three (some []) (pos 3600))).ledger
      (pos 10)).last_epoch
    ≡ (run ext later_orders (start ext three (some []) (pos 3600))).last_epoch
restart_keeps_floor = restart-floor ext three three [] (pos 3600) (pos 10) later_orders

floor_after : (run ext later_orders (start ext three (some []) (pos 3600))).last_epoch ≡ pos 8
unfolding run poll start submit carry_out record_intent meets_threshold distinct_signers contains
    insert_set effective ◌+ℤ◌ epoch_floor
floor_after = refl

halt_expires_example :
    is_halted ext (pos 3740) (run ext later_orders (start ext three (some []) (pos 3600))) ≡ false
unfolding ◌+ℤ◌
halt_expires_example =
    halt_expires ext three (some []) (pos 3600) (pos 140) (pos 3740) later_orders
      (omega arith, (omega arith, (omega arith, tt))) (omega arith) (omega arith)

build_order-obeyed_example :
    ((submit ext stop
        (build_order ext (λ a p. suc a) stop (0 ∷ 2 ∷ [])).signatures
        (pos 100)
        fresh).0
      ≡ halted_for (effective ext (pos 60) (pos 3600)))
    × ((submit ext stop
          (build_order ext (λ a p. suc a) stop (0 ∷ 2 ∷ [])).signatures
          (pos 100)
          fresh).1.halted_until
        ≡ pos 100 +ℤ effective ext (pos 60) (pos 3600))
unfolding addresses contains sorted_set insert_set
build_order-obeyed_example =
    build_order-obeyed ext (λ a p. suc a) suc stop (0 ∷ 2 ∷ []) (pos 100) fresh (λ a. ground arith)
      (refl, (refl, tt)) (omega arith) refl (omega arith)
