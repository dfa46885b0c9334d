-- ===== src/Stages/Service.antt =====
-- `ServiceStage` of main.go: one round of its loop, where no signal arrives. `log.Fatalf` ends the program
-- with a text; the API server and the pause between rounds are left out.
pub mod Reach
use modular_indexer_committe.Prelude.{
  ℕ, Bool, Option, none, some, List, ltb, not, ◌==◌, if◌then◌else◌,
}
use modular_indexer_committe.Prelude.Outcome.{Result, ok, err, Outcome, done, panic}
use modular_indexer_committe.Bytes.{Bytes}
use modular_indexer_committe.KeyMap.{KeyMap}
use modular_indexer_committe.OrdGetter.{OrdGetter}
use modular_indexer_committe.Packages.{Verkle, Uint256, Codec}
use modular_indexer_committe.Queue.{
  Queue, ProofTools, latest_height, update, recovery, check_for_reorg, on_success,
}
use modular_indexer_committe.Checkpoint.{IndexerIdentification, Checkpoint, UploadRecord}
use modular_indexer_committe.Checkpoint.Upload.{report, reported}

module _ {Node : Type 0} (t : Verkle Node) (c : Codec) (u : Uint256) (p : ProofTools Node) where
  abbrev pub recover_if : OrdGetter → Queue Node → Result ℕ → Outcome (Option Bytes × Queue Node)
  recover_if getter q (err e) = done (some e, q)
  recover_if getter q (ok reorg_height) =
      if reorg_height == 0 then done (none, q) else recovery t c u p getter reorg_height q

  abbrev pub update_if : OrdGetter → Queue Node → Result ℕ → Outcome (Option Bytes × Queue Node)
  update_if getter q (err e) = done (some e, q)
  update_if getter q (ok latest) =
      if ltb (latest_height q) latest then update t c u p getter latest q else done (none, q)

  -- The part of a round that changes the queue.
  unfoldable pub follow_chain : OrdGetter → Queue Node → Outcome (Option Bytes × Queue Node)
  follow_chain getter q =
      on_success (update_if getter q getter.get_latest_block_height)
        (λ q'. recover_if getter q' (check_for_reorg getter q'.history))

  abbrev pub report_if :
      Bool
      → Bytes
      → IndexerIdentification
      → (Bytes → Bytes)
      → KeyMap UploadRecord
      → Outcome (Option Bytes × Queue Node)
      → Outcome (Option Bytes × (Queue Node × KeyMap UploadRecord × List Checkpoint))
  report_if enable method id base64 history (panic r) = panic r
  report_if enable method id base64 history (done (some e, q)) =
      done (some e, (q, history, List.[]))
  report_if enable method id base64 history (done (none, q)) =
      let (records, uploads) = report method id base64 history (reported t q) in
      done (none, (if enable then (q, records, uploads) else (q, history, List.[])))

  unfoldable pub service_round :
      OrdGetter
      → Bool
      → Bytes
      → IndexerIdentification
      → (Bytes → Bytes)
      → Queue Node × KeyMap UploadRecord
      → Outcome (Option Bytes × (Queue Node × KeyMap UploadRecord × List Checkpoint))
  unfolding follow_chain
  service_round getter enable method id base64 (q, history) =
      report_if enable method id base64 history (follow_chain getter q)
