-- ===== src/Lib.antt =====
-- NeuraHash miner: the ledger, its signatures and the safeguards of its pool.
--
-- The repository is the client half of a proof-of-work network whose work is training a model.
-- Its chain package (neura_l1/) holds the account state, signed commitments and the round
-- sequencer.
--
-- Base holds what all parts share: Boolean tests, integers, Python dictionaries, sorted lists.
--
-- Signing is neura_l1/signing.py with neura_l1/sig_scheme.py: `Scheme` is a record's scheme tag,
-- `verify_commitment` and `verify_equivocation` keep their names, and a result (ok, text) is an
-- option or a `Verdict`.
--
-- Ledger is neura_l1/block_state.py. `Ledger.Defs` has the data: `State` has the fields of the
-- class. `Ledger.Stake` has the reads, `_seize` (`seize`) and `_mature_unbonding`; `Ledger.Slash`
-- the slash transactions; `Ledger.Transition` has `apply_tx`, a function for each kind;
-- `Ledger.Retarget` has `_fold_retarget`; `Ledger.Blocks` has `apply_block`. A method that mutates
-- the state returns the new one, a result (ok, text) is a `Reply`, and an exception is `raised`.
-- `State.copy` is the identity, since values are not shared.
--
-- Guardian is neurahash/guardian_halt.py: `GuardianSet` and `GuardianHalt` keep their names,
-- `submit` returns the answer with the new controller, and `poll` is `poll_file` given what
-- `load_order` read. The pool's ledger is the list of the intents that `_record` stores.
--
-- Sequencer is neura_l1/pool_sequencer.py: `audit_from` is the loop of
-- `verify_commitment_chain`, which with `takeover_decision` and `elect_proposer` keeps its name. The
-- key an election ranks by comes from modules that are not in the repository and is a parameter.
--
-- Clock is neurahash/diloco_clock.py: `Clock.Defs` has the commitments and `agree_round` with its
-- two loops (`add_commits`, `add_reveals`), `Clock.Audit` the signed commitments and
-- `audit_clock_records`, `Clock.Shadow` the shadow audits. Envelopes come from others, so their
-- fields are options; a dictionary that lacks a field raises where the source says so.
--
-- Settlement is neurahash/diloco_settlement.py (`Settlement.Multisig`, `Settlement.Policy`), which
-- counts votes with Guardian's `distinct_signers` as the source does, and
-- neurahash/chain_settlement.py (`Settlement.Chain`, `Settlement.Store`), which mints with Ledger's
-- `apply_block`: `settle`, `replay_blocks`, `from_state` and `verify_public_chain` keep their names.
--
-- Merkle is neurahash/merkle_verify.py: trees and proofs (`Merkle.Defs`), and the worker and the
-- check of its run (`Merkle.Check`), over a type of model states that a reader may choose.
--
-- RoundAuthority is neurahash/diloco_round_authority.py: `propose` and `accept` of a candidate on
-- its replica of Settlement's chain, with Guardian's `distinct_signers` over signed timeouts.
-- `elect_proposer` is named `elect_available` there.
--
-- Committee is neurahash/diloco_committee.py: `aggregate_diloco_attestations`,
-- `verify_diloco_candidate` given the verifiers' answers, and `gated_accept`.
--
-- Validators is neurahash/quorum.py: `quorum_verify`, given the verdict of the check that each
-- validator runs.
--
-- Vram is neurahash/vram_autotune.py and neurahash/vram_manager.py: `target_units`, `tick` and
-- `cap_gib` keep their names, `run_ticks` is the loop of the tuner's `run`, and `manager_round` one
-- turn of the manager's, given what the driver reports. Memory is counted in whole small units, and
-- a product with a fraction is a function that a reader may choose.
--
-- Updates is tools/self_update.py, and its functions keep their names. `Updates.Manifest` verifies a
-- manifest, `Updates.Fetch` chooses among what the mirrors answer, `Updates.Apply` is one check for
-- an update, as its result and the list of what it does, `Updates.Config` sets defaults from a
-- manifest, `Updates.Sync` is the call of a launcher with the state it keeps, `Updates.Paths`,
-- `Updates.Reclaim` and `Updates.Removal` remove what an older release left. What git, the mirrors
-- and the file system answer is given; the recovery of a signature is a parameter. There a text
-- whose characters matter is the list of their codes, below 128.
--
-- Numbers. Elsewhere texts (names, addresses, hashes) are only compared, so natural numbers stand
-- for them; `str.lower` is a function on these. Amounts are doubles in the source; here they are
-- whole numbers of 2^-1074 NRH, as every finite double is. The products, a bounty and a share of a
-- reward, are functions that a reader may choose, and so is the rounding of the two sums of a
-- mint, whose terms are seldom round. The other sums and differences are exact here; those of
-- doubles are where both terms are multiples of 2^-21 NRH, below 2^32 NRH. A transaction's amount
-- is checked for NaN and infinity as in the source. A work score counts units of 1e-9, so its
-- quantization is exact. Heights and timestamps are not negative.
--
-- Not modelled: the serialization of transactions, blocks and states to JSON, sha256 and
-- secp256k1 (parameters), the finality module (not in the repository), training, transport,
-- wallets, and the tools other than tools/self_update.py; of that file the downloads, the running of
-- git and pip, the reports and the form of its state file.
--
-- Every recursion is structural, but for the two loops over the levels of a Merkle tree: they run
-- on as much fuel as there are leaves, which `Merkle.Fuel` is about.
pub mod Base
pub mod Clock
pub mod Committee
pub mod Guardian
pub mod Ledger
pub mod Merkle
pub mod RoundAuthority
pub mod Sequencer
pub mod Settlement
pub mod Signing
pub mod Updates
pub mod Validators
pub mod Vram
