-- ===== src/Stages.antt =====
-- main.go: the catch-up loop, which executes blocks on a header, and the stages of the program.
pub mod Follow
pub mod Reorg
pub mod Settled
pub mod Catchup
pub mod Service
use modular_indexer_committe.Prelude.{ℕ, zero, suc, ◌+◌, Option, none, some, List, false}
use modular_indexer_committe.Prelude.Outcome.{Result, ok, err, Outcome, done, panic}
use modular_indexer_committe.Bytes.{Bytes}
use modular_indexer_committe.OrdGetter.{OrdGetter, OrdTransfer}
use modular_indexer_committe.Packages.{Verkle, Uint256, Codec}
use modular_indexer_committe.Header.{Header}
use modular_indexer_committe.Header.Paging.{paging}
use modular_indexer_committe.Queue.{exec_header, on_success}

module _ {Node : Type 0} (t : Verkle Node) (c : Codec) (u : Uint256) where
  abbrev pub catchup_exec :
      OrdGetter → Outcome (Unit {0} × Header Node) → Outcome (Option Bytes × Header Node)
  catchup_exec getter (panic r) = panic r
  catchup_exec getter (done (_, h)) = done (none, (paging t getter false h).1)

  abbrev pub catchup_with :
      OrdGetter → ℕ → Header Node → Result (List OrdTransfer) → Outcome (Option Bytes × Header Node)
  catchup_with getter i h (err e) = done (some e, h)
  catchup_with getter i h (ok ots) = catchup_exec getter (exec_header t c u ots i h)

  -- One round of the loop of `CatchupStage`, where no signal arrives.
  unfoldable pub catchup_block : OrdGetter → ℕ → Header Node → Outcome (Option Bytes × Header Node)
  catchup_block getter i h = catchup_with getter i h (getter.get_ord_transfers i)

  -- The loop, with the rounds that are left.
  unfoldable pub catchup_loop :
      OrdGetter → ℕ → ℕ → Header Node → Outcome (Option Bytes × Header Node)
  catchup_loop getter zero i h = done (none, h)
  catchup_loop getter (suc rounds) i h =
      on_success (catchup_block getter i h) (λ h'. catchup_loop getter rounds (i + 1) h')
