-- ===== src/Apis/Client.antt =====
-- A client that asks `GetLatestStateProof` and runs `GeneratePostRoot`: it comes to the commitment of
-- the committee.
use modular_indexer_committe.Prelude.{
  ℕ, ◌+◌, ◌-◌, ◌%◌, ◌^◌, ◌≡◌, refl, sym, ap, ◌∙◌, Bool, none, some, List, [], ◌∷◌, map, All,
}
use modular_indexer_committe.Prelude.Outcome.{ok, done, ◌>>=◌}
use modular_indexer_committe.Bytes.{Bytes}
use modular_indexer_committe.OrdGetter.{OrdGetter, OrdTransfer}
use modular_indexer_committe.Packages.{Verkle, VerkleLaws, Uint256, Uint256Laws, Codec}
use modular_indexer_committe.Storage.{KvStorage}
use modular_indexer_committe.Header.{Header}
use modular_indexer_committe.Header.Paging.{paging}
use modular_indexer_committe.Brc20.Exec.{
  exec_deploy, mint_checked, exec_mint, exec_transfer, exec_one, exec_all, exec,
}
use modular_indexer_committe.Queue.{Queue, Proof, exec_header}
use modular_indexer_committe.Light.{LightHeader, light_storage}
use modular_indexer_committe.Light.View.{viewed_storage}
use modular_indexer_committe.Light.Partial.{ViewLaws, Sees, exec-Sees}
use modular_indexer_committe.Apis.{
  Base64, Base64Laws, StemStateDiff, ProofPackage, ProofPackageLaws,
}
use modular_indexer_committe.Apis.Latest.{
  LatestResponse, post_tree, get_latest_state_proof, run_block, generate_post_root,
}
use modular_indexer_committe.Apis.Replay.{
  without_parent, IsWritable, generate_post_root-get_latest_state_proof,
}

abbrev pub HasNoParent : OrdTransfer → Type 0
HasNoParent ot = ot.parent_id ≡ []

module _ {S : Type 0} (c : Codec) (u : Uint256) (kv : KvStorage S) where
  exec_one-without_parent :
      (height : ℕ) (ot : OrdTransfer)
      → HasNoParent ot
      → exec_one c u kv height (without_parent ot) ≡ exec_one c u kv height ot
  unfolding exec_one exec_deploy exec_mint mint_checked exec_transfer
  exec_one-without_parent height ot orphan =
      ap (λ p. exec_one c u kv height (record ot { parent_id = p })) (sym orphan)

  exec_all-without_parent :
      (height : ℕ) (ots : List OrdTransfer)
      → All HasNoParent ots
      → exec_all c u kv height (map without_parent ots) ≡ exec_all c u kv height ots
  unfolding exec_all
  exec_all-without_parent height [] h = refl
  exec_all-without_parent height (ot ∷ ots) h =
      ap (λ m. m >>= λ _. exec_all c u kv height (map without_parent ots))
        (exec_one-without_parent height ot h.0)
      ∙ ap (λ m. exec_one c u kv height ot >>= λ _. m) (exec_all-without_parent height ots h.1)

  -- The block height and an empty parent of a transfer are not read.
  pub exec-without_parent :
      (height : ℕ) (ots : List OrdTransfer) (s : S)
      → All HasNoParent ots
      → exec c u kv (map without_parent ots) height s ≡ exec c u kv ots height s
  unfolding exec
  exec-without_parent height ots s h = rw (exec_all-without_parent height ots h) refl

module _ {Node V : Type 0} {base64 : Base64} (texts : Base64Laws base64) {pk : ProofPackage Node V}
    (json : ProofPackageLaws pk) {t : Verkle Node} {IsFull : Node → Type 0}
    (laws : VerkleLaws t IsFull) {u : Uint256} (words : Uint256Laws u) {in_view : Bytes → Bool}
    {Covers : Node → Node → Type 0} (views : ViewLaws t in_view Covers) (c : Codec) where
  abbrev pub pre_header : ℕ → Node → LightHeader Node
  pre_header height root = record {
    root = root;
    height = (height + 2 ^ 64 - 1) % 2 ^ 64;
    hash = [];
  }

  -- Where a queue has a proof that the packages serialize, write and accept with a tree, no
  -- transfer of its block has a parent, that tree covers a whole tree with the values of a valid
  -- header one block lower, and Exec of the block on that header does not panic even if it were to
  -- panic at a key that the proof does not cover and on reading a text or an inscription ID from a
  -- slot that holds nothing, then Exec does not panic on the header, GetLatestStateProof writes one
  -- response, with status 200, and GeneratePostRoot of that response gives a tree with the
  -- commitment that Paging gives the header. The trees and packages keep their laws.
  pub generate_post_root-commitment :
      (q : Queue Node) (root_c : Bytes) (height : ℕ) (proof pre_proof : Proof) (v : V)
      (ds : List StemStateDiff) (b : Bytes) (root : Node) (getter : OrdGetter) (query_hash : Bool)
      (h h' : Header Node)
      → q.last_state_proof ≡ some proof
      → pk.serialize_proof proof ≡ ok (v, ds)
      → pk.marshal_proof v ≡ ok b
      → IsWritable texts json ds
      → pk.deserialize_proof v ds ≡ ok pre_proof
      → pk.pre_state_tree_from_proof pre_proof root_c ≡ ok root
      → pk.verify_with_pre_state pre_proof root ≡ none
      → All HasNoParent q.header.ord_trans
      → Sees laws words views h (pre_header height root)
      → exec c u (viewed_storage t u in_view) q.header.ord_trans height h ≡ done (tt, h')
      → (exec_header t c u q.header.ord_trans height h ≡ done (tt, h'))
        × ((resp : LatestResponse) × (get_latest_state_proof base64 pk q ≡ (200, resp) ∷ [])
            × ((post : Node) × (generate_post_root base64 pk t c u root_c height resp
                  ≡ done (ok post))
                × (t.commit post ≡ t.commit (paging t getter query_hash h').1.root)))
  unfolding run_block
  generate_post_root-commitment q root_c height proof pre_proof v ds b root getter query_hash h h'
        last serialized marshalled writable deserialized tree verified orphans sees e =
      let ots = q.header.ord_trans in
      let api =
        generate_post_root-get_latest_state_proof texts json t c u q root_c height proof pre_proof v
          ds b root last serialized marshalled writable deserialized tree verified in
      let client =
        exec-Sees laws words views c getter query_hash ots height h h' (pre_header height root) sees
          e in
      (
        client.0,
        (
          api.0,
          api.1,
          (
            client.1.0.root,
            api.2
                ∙ ap (post_tree base64 pk t c u) (
                    exec-without_parent c u (light_storage t u) height ots (pre_header height root)
                      orphans
                    ∙ client.1.1),
            client.1.2,
          ),
        ),
      )
