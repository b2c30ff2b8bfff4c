-- ===== src/Guardian/Defs.antt =====
-- neurahash/guardian_halt.py: the k-of-m guardian set, the halt and resume state machine, and
-- the record of its orders in the pool's ledger. Times and durations are whole seconds.
use neurahash_miner.Base.{
  ℕ, Bool, true, false, ◌&&◌, Option, none, some, List, [], ◌∷◌, ℤ, pos, ◌+ℤ◌, ◌-ℤ◌, leb_ℤ, ltb_ℤ,
  max_ℤ, min_ℤ, ◌==◌, if◌then◌else◌, length, contains, insert_set, sorted_set,
}

-- An order's action; `unknown` is any other text.
pub data Action : Type 0 where
  halt resume : Action
  unknown : ℕ → Action

-- The arguments of `halt_payload`, which its canonical JSON binds.
pub record Payload : Type 0 where
  pub action : Action
  pub epoch : ℤ
  pub reason : ℕ
  pub duration_s : ℤ

-- `members` is a set of addresses, ascending and each once
pub record GuardianSet : Type 0 where
  pub members : List ℕ
  pub threshold : ℤ

pub data GuardianError : Type 0 where
  empty_set threshold_out_of_range : GuardianError

-- What `GuardianSet(...)` does: the set, or the ValueError.
pub data Built : Type 0 where
  built : GuardianSet → Built
  refused : GuardianError → Built

-- a record `SignedPoolLedger.governance` stores
pub record Intent : Type 0 where
  pub guard_intent : Action
  pub epoch : ℤ
  pub reason : ℕ
  pub expiry : ℤ

-- What the code takes from Python and eth_account: the normal form of an address
-- (`strip().lower()`) and the address a signature over a payload recovers to.
pub record Recovery (P : Type 0) : Type 0 where
  pub normal : ℕ → ℕ
  pub recover : P → ℕ → Option ℕ

-- The controller. `ledger` is none for a controller without one, and the orders stored otherwise,
-- the last one first.
pub record GuardianHalt : Type 0 where
  pub guardians : GuardianSet
  pub ledger : Option (List Intent)
  pub max_halt_s : ℤ
  pub halted_until : ℤ
  pub last_epoch : ℤ

pub data Answer : Type 0 where
  halted_for : ℤ → Answer
  resumed stale_epoch unknown_action insufficient_signatures : Answer

-- an order as `load_order` gives it
pub record Order : Type 0 where
  pub payload : Payload
  pub signatures : List ℕ

abbrev pub accepted : Answer → Bool
accepted (halted_for _) = true
accepted resumed = true
accepted _ = false

module _ {P : Type 0} (ext : Recovery P) where
  open ext use {normal, recover}

  abbrev pub normal_all : List ℕ → List ℕ
  normal_all [] = []
  normal_all (a ∷ as') = normal a ∷ normal_all as'

  -- `GuardianSet.__init__`; no address is blank
  unfoldable pub guardian_set : List ℕ → ℤ → Built
  guardian_set addresses threshold =
      let members = sorted_set (normal_all addresses) in
      if length members == 0
      then refused empty_set
      else if leb_ℤ (pos 1) threshold && leb_ℤ threshold (pos (length members))
      then built (record { members = members; threshold = threshold })
      else refused threshold_out_of_range

  -- the body of the loop of `distinct_signers`
  abbrev pub add_signer : List ℕ → Option ℕ → List ℕ → List ℕ
  add_signer members none signers = signers
  add_signer members (some a) signers =
      if contains (normal a) members then insert_set (normal a) signers else signers

  -- a set, so the order of the signatures is of no account
  unfoldable pub distinct_signers : GuardianSet → P → List ℕ → List ℕ
  distinct_signers gs payload [] = []
  distinct_signers gs payload (sig ∷ sigs) =
      add_signer gs.members (recover payload sig) (distinct_signers gs payload sigs)

  unfoldable pub meets_threshold : GuardianSet → P → List ℕ → Bool
  meets_threshold gs payload sigs =
      leb_ℤ gs.threshold (pos (length (distinct_signers gs payload sigs)))

module _ (ext : Recovery Payload) where
  open ext use {normal, recover}

  abbrev pub is_known : Action → Bool
  is_known (unknown _) = false
  is_known _ = true

  -- the loop of `_init_epoch_from_ledger`
  unfoldable pub epoch_floor : List Intent → ℤ
  epoch_floor [] = pos 0
  epoch_floor (i ∷ is) =
      if is_known i.guard_intent then max_ℤ i.epoch (epoch_floor is) else epoch_floor is

  abbrev pub ledger_floor : Option (List Intent) → ℤ
  ledger_floor none = pos 0
  ledger_floor (some is) = epoch_floor is

  -- `GuardianHalt.__init__`
  unfoldable pub start : GuardianSet → Option (List Intent) → ℤ → GuardianHalt
  start gs ledger max_halt_s = record {
    guardians = gs;
    ledger = ledger;
    max_halt_s = max_halt_s;
    halted_until = pos 0;
    last_epoch = ledger_floor ledger;
  }

  unfoldable pub is_halted : ℤ → GuardianHalt → Bool
  is_halted now g = ltb_ℤ now g.halted_until

  unfoldable pub remaining : ℤ → GuardianHalt → ℤ
  remaining now g = max_ℤ (pos 0) (g.halted_until -ℤ now)

  -- `_record`
  unfoldable pub record_intent : Intent → GuardianHalt → GuardianHalt
  record_intent i g = elim g.ledger [ none ↦ g | some is ↦ record g { ledger = some (i ∷ is) } ]

  -- the halt an order asks for: at most `max_halt_s`, and all of it where it names no duration
  unfoldable pub effective : ℤ → ℤ → ℤ
  effective duration_s max_halt_s =
      if ltb_ℤ (pos 0) duration_s then min_ℤ duration_s max_halt_s else max_halt_s

  -- an authorised order's effect
  unfoldable pub carry_out : Payload → ℤ → GuardianHalt → Answer × GuardianHalt
  carry_out p now g = elim p.action [
    | halt ↦
        let eff = effective p.duration_s g.max_halt_s in
        (
          halted_for eff,
          record_intent
              (record {
                guard_intent = halt;
                epoch = p.epoch;
                reason = p.reason;
                expiry = now +ℤ eff;
              })
              (record g { halted_until = now +ℤ eff; last_epoch = p.epoch }),
        )
    | resume ↦ (
      resumed,
      record_intent
          (record { guard_intent = resume; epoch = p.epoch; reason = p.reason; expiry = pos 0 })
          (record g { halted_until = pos 0; last_epoch = p.epoch }),
    )
    | unknown _ ↦ (unknown_action, g)
  ]

  unfoldable pub submit : Payload → List ℕ → ℤ → GuardianHalt → Answer × GuardianHalt
  submit p sigs now g =
      if leb_ℤ p.epoch g.last_epoch
      then (stale_epoch, g)
      else if is_known p.action
      then (if meets_threshold ext g.guardians p sigs
          then carry_out p now g
          else (insufficient_signatures, g))
      else (unknown_action, g)

  -- `poll_file`, given what `load_order` returned; the answer `none` is (False, None)
  unfoldable pub poll : Option Order → ℤ → GuardianHalt → Option Answer × GuardianHalt
  poll none now g = (none, g)
  poll (some order) now g =
      if leb_ℤ order.payload.epoch g.last_epoch
      then (none, g)
      else let (answer, g') = submit order.payload order.signatures now g in (some answer, g')

  -- successive polls, each with its order and its time
  unfoldable pub run : List (Option Order × ℤ) → GuardianHalt → GuardianHalt
  run [] g = g
  run ((order, now) ∷ rest) g = run rest ((poll order now g).1)

  -- `build_order`, with the signing function of eth_account
  module _ (sign : ℕ → Payload → ℕ) where
    abbrev pub sign_all : List ℕ → Payload → List ℕ
    sign_all [] p = []
    sign_all (account ∷ accounts) p = sign account p ∷ sign_all accounts p

    unfoldable pub build_order : Payload → List ℕ → Order
    build_order p accounts = record { payload = p; signatures = sign_all accounts p }
