-- ===== src/Apis/Replay.antt =====
-- The answer of `GetLatestStateProof`, executed again by `GeneratePostRoot`.
use modular_indexer_committe.Prelude.{
  ℕ, ◌≡◌, refl, ap, ◌∙◌, Option, none, some, List, [], ◌∷◌, map, All,
}
use modular_indexer_committe.Prelude.Outcome.{ok, done}
use modular_indexer_committe.Bytes.{Bytes}
use modular_indexer_committe.OrdGetter.{OrdTransfer}
use modular_indexer_committe.Packages.{Verkle, Uint256, Codec}
use modular_indexer_committe.Queue.{Queue, Proof}
use modular_indexer_committe.Apis.{
  Base64, Base64Laws, StemStateDiff, ProofPackage, ProofPackageLaws,
}
use modular_indexer_committe.Apis.Latest.{
  LatestResponse, export_transfer, export_diffs, get_latest_state_proof, import_transfer,
  import_diffs, run_block, generate_post_root,
}

-- A transfer without its block height and its parent.
abbrev pub without_parent : OrdTransfer → OrdTransfer
without_parent ot = record ot { block_height = 0; parent_id = [] }

module _ {Node V : Type 0} {base64 : Base64} (texts : Base64Laws base64) {pk : ProofPackage Node V}
    (json : ProofPackageLaws pk) where
  import-export_transfers :
      (ots : List OrdTransfer)
      → map (import_transfer base64 pk) (map (export_transfer base64 pk) ots)
        ≡ map without_parent ots
  unfolding import_transfer export_transfer
  import-export_transfers [] = refl
  import-export_transfers (ot ∷ ots) =
      ap
        (λ b.
          record (without_parent ot) { content = b }
          ∷ map (import_transfer base64 pk) (map (export_transfer base64 pk) ots))
        (ap (λ (x : Bytes × Option Bytes). x.0) (texts.decode-encode ot.content))
      ∙ ap (λ rest. without_parent ot ∷ rest) (import-export_transfers ots)

  -- Every stem of a difference can be written.
  abbrev pub IsWritable : List StemStateDiff → Type 0
  IsWritable = All (λ d. (b : Bytes) × (pk.marshal_diff d ≡ ok b))

  import-export_diffs :
      (ds : List StemStateDiff)
      → IsWritable ds
      → (strs : List Bytes) × (export_diffs base64 pk ds ≡ ([], strs))
        × (import_diffs base64 pk strs ≡ done ds)
  unfolding export_diffs import_diffs
  import-export_diffs [] h = ([], refl, refl)
  import-export_diffs (d ∷ ds) h =
      let (b, marshalled) = h.0 in
      let (strs, exported, imported) = import-export_diffs ds h.1 in
      (
        base64.encode b ∷ strs,
        rw (marshalled, exported) refl,
        rw (texts.decode-encode b, json.unmarshal-marshal_diff d b marshalled, imported) refl,
      )

  -- GetLatestStateProof of a queue that has a proof, which the packages serialize and write without
  -- an error, writes one response, with status 200, and GeneratePostRoot of that response, where
  -- the packages accept the proof with a tree of the block before, is what Exec of the same
  -- transfers, but without their parents, leaves on that tree. The packages read back what they
  -- write.
  pub generate_post_root-get_latest_state_proof :
      (t : Verkle Node) (c : Codec) (u : Uint256) (q : Queue Node) (root_c : Bytes) (height : ℕ)
      (proof pre_proof : Proof) (v : V) (ds : List StemStateDiff) (b : Bytes) (root : Node)
      → q.last_state_proof ≡ some proof
      → pk.serialize_proof proof ≡ ok (v, ds)
      → pk.marshal_proof v ≡ ok b
      → IsWritable ds
      → pk.deserialize_proof v ds ≡ ok pre_proof
      → pk.pre_state_tree_from_proof pre_proof root_c ≡ ok root
      → pk.verify_with_pre_state pre_proof root ≡ none
      → (resp : LatestResponse) × (get_latest_state_proof base64 pk q ≡ (200, resp) ∷ [])
        × (generate_post_root base64 pk t c u root_c height resp
            ≡ run_block base64 pk t c u height (map without_parent q.header.ord_trans) root)
  unfolding get_latest_state_proof generate_post_root
  generate_post_root-get_latest_state_proof t c u q root_c height proof pre_proof v ds b root last
        serialized marshalled writable deserialized tree verified =
      let (strs, exported, imported) = import-export_diffs ds writable in
      let resp : LatestResponse = record {
        error = none;
        result = some (record {
          state_diff = strs;
          ord_transfers = map (export_transfer base64 pk) q.header.ord_trans;
        });
        proof = some (base64.encode b);
      } in
      (
        resp,
        rw (last, serialized, marshalled, exported) refl,
        rw
            (
              imported,
              texts.decode-encode b,
              json.unmarshal-marshal_proof v b marshalled,
              deserialized,
              tree,
              verified,
            )
            (ap (λ ots. run_block base64 pk t c u height ots root)
              (import-export_transfers q.header.ord_trans)),
      )
