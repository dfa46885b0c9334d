-- ===== src/Stages/Catchup.antt =====
-- `CatchupStage` of main.go, where no signal arrives: from the cached header, or a fresh one, to a
-- queue at the latest block.
pub mod Start
pub mod Proof
use modular_indexer_committe.Prelude.{
  ℕ, zero, suc, ◌+◌, ◌-◌, ◌%◌, ◌^◌, Bool, true, false, ◌&&◌, Option, none, some, List, ltb, ◌==◌,
  if◌then◌else◌,
}
use modular_indexer_committe.Prelude.Outcome.{Result, ok, err, Outcome, done, panic, nil_pointer}
use modular_indexer_committe.Bytes.{Bytes, codes}
use modular_indexer_committe.OrdGetter.{OrdGetter, OrdTransfer}
use modular_indexer_committe.Packages.{Verkle, Uint256, Codec}
use modular_indexer_committe.Header.{Header}
use modular_indexer_committe.Queue.{
  Queue, ProofTools, bitcoin_confirmations, latest_height, on_success,
}
use modular_indexer_committe.Queue.Start.{new_queues}
use modular_indexer_committe.Cache.{Gob, Disk, load_header, store_header}
use modular_indexer_committe.Stages.{catchup_block}

abbrev pub too_advanced : Bytes
too_advanced = codes "the stored stateRoot is too advanced to handle reorg situations"

abbrev pub mismatched_height : Bytes
mismatched_height = codes "mismatched state height"

-- A store whose error is only logged.
abbrev pub stored_or_not : {D : Type 0} → Outcome (Option Bytes × D) → Outcome D
stored_or_not (panic r) = panic r
stored_or_not (done (_, d)) = done d

module _ {Node : Type 0} (t : Verkle Node) (c : Codec) (u : Uint256) (p : ProofTools Node)
    {D : Type 0} (gob : Gob) (disk : Disk D) where
  -- `StoreHeader(header, header.Height-2000)`, if the cache is enabled
  unfoldable pub store_if : Bool → Header Node → D → Outcome D
  store_if enable h d =
      if enable
      then stored_or_not (store_header t gob disk h ((h.height + 2 ^ 64 - 2000) % 2 ^ 64) d)
      else done d

  abbrev pub beside : Header Node → Outcome D → Outcome (Option Bytes × (Header Node × D))
  beside h (panic r) = panic r
  beside h (done d) = done (none, (h, d))

  abbrev pub store_every_thousand :
      Bool
      → ℕ
      → D
      → Outcome (Option Bytes × Header Node)
      → Outcome (Option Bytes × (Header Node × D))
  store_every_thousand enable i d (panic r) = panic r
  store_every_thousand enable i d (done (some e, h)) = done (some e, (h, d))
  store_every_thousand enable i d (done (none, h)) =
      beside h (store_if (i % 1000 == 0 && enable) h d)

  -- One round of the loop, with the files.
  unfoldable pub stage_block :
      OrdGetter → Bool → ℕ → Header Node × D → Outcome (Option Bytes × (Header Node × D))
  unfolding store_if
  stage_block getter enable i (h, d) =
      store_every_thousand enable i d (catchup_block t c u getter i h)

  unfoldable pub stage_loop :
      OrdGetter → Bool → ℕ → ℕ → Header Node × D → Outcome (Option Bytes × (Header Node × D))
  stage_loop getter enable zero i s = done (none, s)
  stage_loop getter enable (suc rounds) i s =
      on_success (stage_block getter enable i s) (λ s'. stage_loop getter enable rounds (i + 1) s')

  -- `if queue.LatestHeight() != latestHeight`
  abbrev pub check_height :
      ℕ → D → Outcome (Result (Queue Node)) → Outcome (Result (Queue Node) × D)
  check_height latest d (panic r) = panic r
  check_height latest d (done (err e)) = done (err e, d)
  check_height latest d (done (ok q)) =
      done (if latest_height q == latest then ok q else err mismatched_height, d)

  abbrev pub start_queue :
      OrdGetter → ℕ → ℕ → Header Node → Outcome D → Outcome (Result (Queue Node) × D)
  start_queue getter latest catchup h (panic r) = panic r
  start_queue getter latest catchup h (done d) =
      check_height latest d (new_queues t c u p getter h true ((catchup + 1) % 2 ^ 64))

  abbrev pub with_transfers_of :
      OrdGetter
      → Bool
      → ℕ
      → ℕ
      → Header Node × D
      → Result (List OrdTransfer)
      → Outcome (Result (Queue Node) × D)
  with_transfers_of getter enable latest catchup (h, d) (err e) = done (err e, d)
  with_transfers_of getter enable latest catchup (h, d) (ok ots) =
      start_queue getter latest catchup (record h { ord_trans = ots })
        (store_if enable (record h { ord_trans = ots }) d)

  abbrev pub from_catchup :
      OrdGetter
      → Bool
      → ℕ
      → ℕ
      → Outcome (Option Bytes × (Header Node × D))
      → Outcome (Result (Queue Node) × D)
  from_catchup getter enable latest catchup (panic r) = panic r
  from_catchup getter enable latest catchup (done (some e, (h, d))) = done (err e, d)
  from_catchup getter enable latest catchup (done (none, s)) =
      with_transfers_of getter enable latest catchup s (getter.get_ord_transfers catchup)

  abbrev pub from_header :
      OrdGetter → Bool → ℕ → D → Option (Header Node) → Outcome (Result (Queue Node) × D)
  from_header getter enable latest d none = panic nil_pointer
  from_header getter enable latest d (some h) =
      let catchup = (latest + 2 ^ 64 - bitcoin_confirmations) % 2 ^ 64 in
      if ltb catchup h.height
      then done (err too_advanced, d)
      else from_catchup getter enable latest catchup
          (stage_loop getter enable (catchup - h.height) (h.height + 1) (h, d))

  unfoldable pub catchup_stage : OrdGetter → Bool → ℕ → ℕ → D → Outcome (Result (Queue Node) × D)
  unfolding stage_loop
  catchup_stage getter enable init latest d =
      from_header getter enable latest d (load_header t gob disk enable init d)
