-- ===== src/Header.antt =====
-- ord/stateless/types.go and header.go: the state of the indexer after a block.
pub mod Valid
pub mod Access
pub mod Paging
pub mod Tree
pub mod Commit
pub mod Rollback
pub mod Alike
use modular_indexer_committe.Prelude.{
  ℕ, ◌+◌, Bool, true, false, not, Option, none, some, List, [], ◌∷◌, ◌++◌, ltb, ◌==◌, if◌then◌else◌,
  length, take, replicate,
}
use modular_indexer_committe.Prelude.Outcome.{
  Result, ok, err, Outcome, done, panic, M, fail, lift, ◌>>=◌, key_size as bad_key_size,
  value_size as bad_value_size, tree_error, out_of_range,
}
use modular_indexer_committe.Bytes.{Bytes, bytes_equal}
use modular_indexer_committe.KeyMap.{KeyMap, lookup, insert, delete}
use modular_indexer_committe.OrdGetter.{OrdTransfer}
use modular_indexer_committe.Packages.{Verkle}
use modular_indexer_committe.Numbers.{value_size}
use modular_indexer_committe.Storage.{key_size, Cells, to_array}

pub record TripleElement : Type 0 where
  pub key : Bytes
  pub old_value : Bytes
  pub new_value : Bytes
  pub old_value_exists : Bool

pub record Header (Node : Type 0) : Type 0 where
  pub root : Node
  pub kv : KeyMap Bytes
  pub height : ℕ
  pub hash : Bytes
  pub ord_trans : List OrdTransfer
  pub access : List TripleElement
  pub intermediate_kv : KeyMap Bytes

unfoldable pub default_value : Bytes
default_value = replicate value_size 0

-- The loop of `insert` over `h.Access.Elements`, and the append after it.
unfoldable pub record_write : TripleElement → List TripleElement → List TripleElement
record_write new [] = new ∷ []
record_write new (ele ∷ rest) =
    if bytes_equal new.key ele.key
    then record ele { new_value = new.new_value } ∷ rest
    else ele ∷ record_write new rest

-- The loop of `get`, and the append after it.
unfoldable pub record_read : TripleElement → List TripleElement → List TripleElement
record_read new [] = new ∷ []
record_read new (ele ∷ rest) =
    if bytes_equal new.key ele.key then ele ∷ rest else ele ∷ record_read new rest

-- `[ValueSize]byte(oldValue)` panics on a shorter slice.
unfoldable pub current_value : Option Bytes → Bytes → Outcome Bytes
unfolding default_value
current_value (some res) old = done res
current_value none [] = done default_value
current_value none (x ∷ old) =
    if ltb (length (x ∷ old)) value_size
    then panic out_of_range
    else done (take value_size (x ∷ old))

module _ {Node : Type 0} (t : Verkle Node) where
  -- The value of the tree before the block, for `insert`.
  abbrev insert_over : Bytes → Bytes → Result Bytes → M (Header Node) (Unit {0})
  insert_over key value (err _) h = panic tree_error
  insert_over key value (ok old) h =
      let old_value_exists = ltb 0 (length old) in
      done (
        tt,
        record h {
          access =
              record_write
                (record {
                  key = key;
                  old_value = if old_value_exists then to_array old else replicate value_size 0;
                  new_value = value;
                  old_value_exists = old_value_exists;
                })
                h.access;
          intermediate_kv = insert key value h.intermediate_kv;
        },
      )

  unfoldable pub header_insert : Bytes → Bytes → M (Header Node) (Unit {0})
  unfolding to_array
  header_insert key value h =
      if not (length key == key_size)
      then panic bad_key_size
      else if not (length value == value_size)
      then panic bad_value_size
      else insert_over key value (t.get h.root key) h

  -- The access record of `get`.
  abbrev touch : Bytes → Bool → Bytes → M (Header Node) Bytes
  touch key old_value_exists res h = done (
    res,
    record h {
      access =
          record_read
            (record {
              key = key;
              old_value = res;
              new_value = res;
              old_value_exists = old_value_exists;
            })
            h.access;
    },
  )

  abbrev get_over : Bytes → Result Bytes → M (Header Node) Bytes
  get_over key (err _) h = panic tree_error
  get_over key (ok old) h =
      (lift (current_value (lookup key h.intermediate_kv) old) >>= touch key (ltb 0 (length old))) h

  unfoldable pub header_get : Bytes → M (Header Node) Bytes
  unfolding current_value
  header_get key h =
      if not (length key == key_size) then panic bad_key_size else get_over key (t.get h.root key) h

  -- `Header` as a storage of slots
  unfoldable pub header_cells : Cells (Header Node)
  header_cells = record { insert = header_insert; get = header_get; height = λ h. h.height }
