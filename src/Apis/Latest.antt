-- ===== src/Apis/Latest.antt =====
-- The proof of the latest block: `GetLatestStateProof` of apis/apis.go, and `GeneratePostRoot` of
-- apis/verify.go, with which a client executes the block again.
use modular_indexer_committe.Prelude.{
  ℕ, ◌+◌, ◌-◌, ◌%◌, ◌^◌, ◌++◌, Option, none, some, List, [], ◌∷◌, map,
}
use modular_indexer_committe.Prelude.Outcome.{Result, ok, err, Outcome, done, panic, nil_pointer}
use modular_indexer_committe.Bytes.{Bytes, codes}
use modular_indexer_committe.Bytes.Decimal.{format_uint}
use modular_indexer_committe.OrdGetter.{OrdTransfer}
use modular_indexer_committe.Packages.{Verkle, Uint256, Codec}
use modular_indexer_committe.Brc20.Exec.{exec}
use modular_indexer_committe.Light.{LightHeader, light_storage}
use modular_indexer_committe.Queue.{Queue, Proof}
use modular_indexer_committe.Apis.{
  Base64, StemStateDiff, ProofPackage, OrdTransferJson, LatestStateProofResult, Response, failed,
}

abbrev pub LatestResponse : Type 0
LatestResponse = Response LatestStateProofResult

module _ {Node V : Type 0} (base64 : Base64) (pk : ProofPackage Node V) where
  unfoldable pub export_transfer : OrdTransfer → OrdTransferJson
  export_transfer ot = record {
    id = ot.id;
    inscription_id = ot.inscription_id;
    old_satpoint = ot.old_satpoint;
    new_satpoint = ot.new_satpoint;
    new_pkscript = ot.new_pkscript;
    new_wallet = ot.new_wallet;
    sent_as_fee = ot.sent_as_fee;
    content = base64.encode ot.content;
    content_type = ot.content_type;
  }

  -- A response that is written before the loop goes on, and the text of no bytes.
  abbrev export_diff :
      Result Bytes → List (ℕ × LatestResponse) × List Bytes → List (ℕ × LatestResponse) × List Bytes
  export_diff (err e) (written, texts) = (
    (500, failed (codes "Failed to encode stateDiff due to " ++ e)) ∷ written,
    base64.encode [] ∷ texts,
  )
  export_diff (ok b) (written, texts) = (written, base64.encode b ∷ texts)

  -- The loop over the state difference.
  unfoldable pub export_diffs : List StemStateDiff → List (ℕ × LatestResponse) × List Bytes
  export_diffs [] = ([], [])
  export_diffs (d ∷ ds) = export_diff (pk.marshal_diff d) (export_diffs ds)

  abbrev export_all :
      List OrdTransfer → Bytes → List (ℕ × LatestResponse) × List Bytes → List (ℕ × LatestResponse)
  export_all ots proof (written, texts) =
      written
      ++ (
        200,
        record {
          error = none;
          result = some (record { state_diff = texts; ord_transfers = map export_transfer ots });
          proof = some (base64.encode proof);
        },
      )
        ∷ []

  abbrev latest_marshalled :
      List OrdTransfer → List StemStateDiff → Result Bytes → List (ℕ × LatestResponse)
  latest_marshalled ots diffs (err e) =
      (500, failed (codes "Failed to marshal the proof to JSON due to " ++ e)) ∷ []
  latest_marshalled ots diffs (ok b) = export_all ots b (export_diffs diffs)

  abbrev latest_serialized :
      List OrdTransfer → Result (V × List StemStateDiff) → List (ℕ × LatestResponse)
  latest_serialized ots (err e) = (500, failed (codes "Failed to generate proof due to " ++ e)) ∷ []
  latest_serialized ots (ok (v, diffs)) = latest_marshalled ots diffs (pk.marshal_proof v)

  abbrev latest_proof : List OrdTransfer → Option Proof → List (ℕ × LatestResponse)
  latest_proof ots none = (200, record { error = none; result = none; proof = none }) ∷ []
  latest_proof ots (some proof) = latest_serialized ots (pk.serialize_proof proof)

  -- The responses that the handler writes, the first one first.
  unfoldable pub get_latest_state_proof : Queue Node → List (ℕ × LatestResponse)
  unfolding export_diffs export_transfer
  get_latest_state_proof q = latest_proof q.header.ord_trans q.last_state_proof

  -- The block height and the parent are left at their zero values.
  unfoldable pub import_transfer : OrdTransferJson → OrdTransfer
  import_transfer tran = record {
    id = tran.id;
    inscription_id = tran.inscription_id;
    block_height = 0;
    old_satpoint = tran.old_satpoint;
    new_satpoint = tran.new_satpoint;
    new_pkscript = tran.new_pkscript;
    new_wallet = tran.new_wallet;
    sent_as_fee = tran.sent_as_fee;
    content = (base64.decode tran.content).0;
    content_type = tran.content_type;
    parent_id = [];
  }

  -- The message of an error reads the error of the response, which is nil.
  abbrev import_unmarshalled :
      StemStateDiff × Option Bytes → Outcome (List StemStateDiff) → Outcome (List StemStateDiff)
  import_unmarshalled (d, some e) rest = panic nil_pointer
  import_unmarshalled (d, none) (panic r) = panic r
  import_unmarshalled (d, none) (done ds) = done (d ∷ ds)

  abbrev import_diff :
      Bytes × Option Bytes → Outcome (List StemStateDiff) → Outcome (List StemStateDiff)
  import_diff (b, some e) rest = panic nil_pointer
  import_diff (b, none) rest = import_unmarshalled (pk.unmarshal_diff b) rest

  unfoldable pub import_diffs : List Bytes → Outcome (List StemStateDiff)
  import_diffs [] = done []
  import_diffs (s ∷ rest) = import_diff (base64.decode s) (import_diffs rest)

  abbrev pre_verified : Node → Option Bytes → Result Node
  pre_verified root none = ok root
  pre_verified root (some e) = err e

  abbrev pre_tree : Proof → Result Node → Result Node
  pre_tree proof (err e) = err e
  pre_tree proof (ok root) = pre_verified root (pk.verify_with_pre_state proof root)

  abbrev pre_proof : Bytes → Result Proof → Result Node
  pre_proof root_c (err e) = err e
  pre_proof root_c (ok proof) = pre_tree proof (pk.pre_state_tree_from_proof proof root_c)

  abbrev pre_diffs : Bytes → V → Outcome (List StemStateDiff) → Outcome (Result Node)
  pre_diffs root_c v (panic r) = panic r
  pre_diffs root_c v (done diffs) = done (pre_proof root_c (pk.deserialize_proof v diffs))

  -- The tree before the block. The errors of the proof's text are dropped.
  abbrev pre_root : Bytes → Option LatestStateProofResult → Option Bytes → Outcome (Result Node)
  pre_root root_c result none = done (ok (pk.new_stateless_internal root_c))
  pre_root root_c none (some proof) = panic nil_pointer
  pre_root root_c (some result) (some proof) =
      pre_diffs root_c (pk.unmarshal_proof (base64.decode proof).0).0
        (import_diffs result.state_diff)

  module _ (t : Verkle Node) (c : Codec) (u : Uint256) where
    abbrev pub post_tree : Outcome (Unit {0} × LightHeader Node) → Outcome (Result Node)
    post_tree (panic r) = panic r
    post_tree (done (_, h)) = done (ok h.root)

    -- `Exec` of a block on a light header one below it.
    unfoldable pub run_block : ℕ → List OrdTransfer → Node → Outcome (Result Node)
    run_block height ots root = post_tree (
        exec c u (light_storage t u) ots height
          (record { root = root; height = (height + 2 ^ 64 - 1) % 2 ^ 64; hash = [] }))

    abbrev post_block :
        ℕ → Option LatestStateProofResult → Outcome (Result Node) → Outcome (Result Node)
    post_block height result (panic r) = panic r
    post_block height result (done (err e)) = done (err e)
    post_block height none (done (ok root)) = done (ok root)
    post_block height (some result) (done (ok root)) =
        run_block height (map import_transfer result.ord_transfers) root

    abbrev unless_failed : ℕ → Option Bytes → Outcome (Result Node) → Outcome (Result Node)
    unless_failed height none rest = rest
    unless_failed height (some e) rest = done (
        err (
          codes "failed to generate the post root at block height "
          ++ (format_uint height ++ (codes " from committee indexer, error: " ++ e))))

    unfoldable pub generate_post_root : Bytes → ℕ → LatestResponse → Outcome (Result Node)
    unfolding import_diffs import_transfer run_block
    generate_post_root root_c height resp =
        unless_failed height resp.error
          (post_block height resp.result (pre_root root_c resp.result resp.proof))
