-- ===== src/Storage/Invariant.antt =====
-- What every operation on a storage keeps, as far as `insert` and `get` of a slot keep it.
use modular_indexer_committe.Prelude.{ℕ, zero, suc, Option, none, some}
use modular_indexer_committe.Prelude.Outcome.Keeps.{Keeps, keeps_rules}
use modular_indexer_committe.Bytes.{Bytes}
use modular_indexer_committe.Packages.{Uint256}
use modular_indexer_committe.Storage.{
  KvStorage, Cells, insert_transaction_id, insert_output_index, insert_uint256, get_uint256,
  insert_slots, insert_bytes, get_slots, get_bytes, insert_inscription_id, get_inscription_id,
  slot_storage,
}

-- Every operation keeps `P`, where it does not panic.
pub record StorageKeeps {S : Type 0} (kv : KvStorage S) (P : S → Type 0) : Type 0 where
  pub insert_inscription_id : (k v : Bytes) → Keeps P (kv.insert_inscription_id k v)
  pub get_inscription_id : (k : Bytes) → Keeps P (kv.get_inscription_id k)
  pub insert_uint256 : (k : Bytes) (n : ℕ) → Keeps P (kv.insert_uint256 k n)
  pub get_uint256 : (k : Bytes) → Keeps P (kv.get_uint256 k)
  pub insert_bytes : (k v : Bytes) → Keeps P (kv.insert_bytes k v)
  pub get_bytes : (k : Bytes) → Keeps P (kv.get_bytes k)

module _ {S : Type 0} {P : S → Type 0} (u : Uint256) (c : Cells S)
    (get-keeps : (k : Bytes) → Keeps P (c.get k)) where
  pub get_uint256-keeps : (k : Bytes) → Keeps P (get_uint256 u c k)
  unfolding get_uint256
  get_uint256-keeps k = search (keeps_rules, get-keeps)

  get_slots-keeps : (k : Bytes) (n i : ℕ) (padded : Bytes) → Keeps P (get_slots u c k n i padded)
  unfolding get_slots
  get_slots-keeps k zero i padded = search keeps_rules
  get_slots-keeps k (suc n) i padded = search (keeps_rules, get-keeps, get_slots-keeps k n)

  pub get_bytes-keeps : (k : Bytes) → Keeps P (get_bytes u c k)
  unfolding get_bytes
  get_bytes-keeps k = search (keeps_rules, get-keeps, get_slots-keeps)

  get_inscription_id-keeps : (k : Bytes) → Keeps P (get_inscription_id u c k)
  unfolding get_inscription_id
  get_inscription_id-keeps k = search (keeps_rules, get-keeps)

module _ {S : Type 0} {P : S → Type 0} (u : Uint256) (c : Cells S)
    (insert-keeps : (k v : Bytes) → Keeps P (c.insert k v))
    (get-keeps : (k : Bytes) → Keeps P (c.get k)) where
  insert_uint256-keeps : (k : Bytes) (n : ℕ) → Keeps P (insert_uint256 u c k n)
  unfolding insert_uint256
  insert_uint256-keeps k n = insert-keeps k (u.write_to_array32 n)

  insert_slots-keeps : (k padded : Bytes) (n i : ℕ) → Keeps P (insert_slots u c k padded n i)
  unfolding insert_slots
  insert_slots-keeps k padded zero i = search keeps_rules
  insert_slots-keeps k padded (suc n) i =
      search (keeps_rules, insert-keeps, insert_slots-keeps k padded n)

  insert_bytes-keeps : (k v : Bytes) → Keeps P (insert_bytes u c k v)
  unfolding insert_bytes
  insert_bytes-keeps k v = search (keeps_rules, insert-keeps, insert_slots-keeps)

  insert_transaction_id-keeps :
      (k : Bytes) (o : Option Bytes) → Keeps P (insert_transaction_id u c k o)
  insert_transaction_id-keeps k none = search keeps_rules
  insert_transaction_id-keeps k (some id) = insert-keeps k id

  insert_output_index-keeps : (k : Bytes) (o : Option ℕ) → Keeps P (insert_output_index u c k o)
  insert_output_index-keeps k none = search keeps_rules
  insert_output_index-keeps k (some n) = insert_uint256-keeps k n

  insert_inscription_id-keeps : (k v : Bytes) → Keeps P (insert_inscription_id u c k v)
  unfolding insert_inscription_id
  insert_inscription_id-keeps k v =
      search (keeps_rules, insert_transaction_id-keeps, insert_output_index-keeps)

  pub slot_storage-keeps : StorageKeeps (slot_storage u c) P
  unfolding slot_storage
  slot_storage-keeps = record {
    insert_inscription_id = insert_inscription_id-keeps;
    get_inscription_id = get_inscription_id-keeps u c get-keeps;
    insert_uint256 = insert_uint256-keeps;
    get_uint256 = get_uint256-keeps u c get-keeps;
    insert_bytes = insert_bytes-keeps;
    get_bytes = get_bytes-keeps u c get-keeps;
  }
