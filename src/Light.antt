-- ===== src/Light.antt =====
-- ord/stateless/light_header.go: the storage of a client that has a tree and no key-value map.
pub mod Strict
pub mod Mirrors
pub mod Agreement
pub mod View
pub mod Partial
use modular_indexer_committe.Prelude.{
  ℕ, zero, suc, ◌+◌, ◌/◌, ◌%◌, ◌^◌, List, [], ◌∷◌, ◌++◌, ltb, ◌==◌, if◌then◌else◌, length, take,
}
use modular_indexer_committe.Prelude.Outcome.{
  Result, ok, err, Outcome, done, panic, M, pure, fail, ◌>>=◌, out_of_range, tree_error,
}
use modular_indexer_committe.Bytes.{Bytes, bytes_equal, codes}
use modular_indexer_committe.Bytes.Hex.{encode_to_string}
use modular_indexer_committe.Packages.{Verkle, Uint256}
use modular_indexer_committe.Numbers.{value_size}
use modular_indexer_committe.Storage.{
  KvStorage, Cells, to_array, slot_key, insert_uint256, insert_bytes, insert_inscription_id,
  get_slots,
}
use modular_indexer_committe.Header.{default_value}

pub record LightHeader (Node : Type 0) : Type 0 where
  pub root : Node
  pub height : ℕ
  pub hash : Bytes

abbrev pub missing_node : Bytes
missing_node = codes "trying to access a node that is missing from the stateless view"

module _ {Node : Type 0} (t : Verkle Node) (u : Uint256) where
  -- The error of the tree is dropped.
  unfoldable pub light_insert : Bytes → Bytes → M (LightHeader Node) (Unit {0})
  light_insert key value h = done (tt, record h { root = t.insert h.root key value })

  abbrev pub found_or_default : Result Bytes → M (LightHeader Node) Bytes
  found_or_default (ok old) = pure old
  found_or_default (err e) =
      if bytes_equal e missing_node then pure default_value else fail tree_error

  unfoldable pub light_get : Bytes → M (LightHeader Node) Bytes
  unfolding default_value
  light_get key h = found_or_default (t.get h.root key) h

  unfoldable pub light_cells : Cells (LightHeader Node)
  light_cells = record { insert = light_insert; get = light_get; height = λ h. h.height }

  -- A value of no bytes is 0.
  unfoldable pub light_get_uint256 : Bytes → M (LightHeader Node) ℕ
  light_get_uint256 key =
      light_get key >>= λ value. pure (if length value == 0 then 0 else u.set_bytes value)

  -- The panic past the end stands also for Go's `padded[:len]` within the capacity of the slice, which
  -- succeeds with zeros there; it is only met where a slot holds nothing.
  unfoldable pub light_get_bytes : Bytes → M (LightHeader Node) Bytes
  unfolding light_get_uint256
  light_get_bytes key = light_get_uint256 (to_array key) >>= λ stored.
      let len = stored % 2 ^ 64 in
      if len == 0
      then pure []
      else get_slots u light_cells key ((len + 31) % 2 ^ 64 / value_size) 0 [] >>= λ padded.
          if ltb (length padded) len then fail out_of_range else pure (take len padded)

  unfoldable pub light_get_inscription_id : Bytes → M (LightHeader Node) Bytes
  unfolding light_get_uint256
  light_get_inscription_id key =
      let first_key = to_array key in
      light_get first_key >>= λ transaction_id.
      light_get_uint256 (slot_key first_key 1) >>= λ output_index.
      pure (encode_to_string transaction_id ++ b'i' ∷ u.dec output_index)

  -- The operations that write are those of a header, over the cells of a tree.
  unfoldable pub light_storage : KvStorage (LightHeader Node)
  unfolding light_cells
  light_storage = record {
    insert_inscription_id = insert_inscription_id u light_cells;
    get_inscription_id = light_get_inscription_id;
    insert_uint256 = insert_uint256 u light_cells;
    get_uint256 = light_get_uint256;
    insert_bytes = insert_bytes u light_cells;
    get_bytes = light_get_bytes;
    get_height = λ h. h.height;
  }
