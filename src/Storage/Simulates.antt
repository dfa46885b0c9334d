-- ===== src/Storage/Simulates.antt =====
-- Two storages: slots that agree make operations that agree.
use modular_indexer_committe.Prelude.{ℕ, zero, suc, Option, none, some}
use modular_indexer_committe.Prelude.Outcome.Simulates.{Simulates, simulates_rules}
use modular_indexer_committe.Bytes.{Bytes}
use modular_indexer_committe.Packages.{Uint256}
use modular_indexer_committe.Storage.{
  KvStorage, Cells, insert_transaction_id, insert_output_index, insert_uint256, get_uint256,
  insert_slots, insert_bytes, get_slots, get_bytes, insert_inscription_id, get_inscription_id,
  slot_storage,
}

-- Where an operation of `kv` ends without a panic, so does that of `kv'`, with the same value.
pub record StorageSimulates {S T : Type 0} (kv : KvStorage S) (kv' : KvStorage T)
    (R : S → T → Type 0) : Type 0 where
  pub insert_inscription_id :
      (k v : Bytes) → Simulates R (kv.insert_inscription_id k v) (kv'.insert_inscription_id k v)
  pub get_inscription_id :
      (k : Bytes) → Simulates R (kv.get_inscription_id k) (kv'.get_inscription_id k)
  pub insert_uint256 :
      (k : Bytes) (n : ℕ) → Simulates R (kv.insert_uint256 k n) (kv'.insert_uint256 k n)
  pub get_uint256 : (k : Bytes) → Simulates R (kv.get_uint256 k) (kv'.get_uint256 k)
  pub insert_bytes : (k v : Bytes) → Simulates R (kv.insert_bytes k v) (kv'.insert_bytes k v)
  pub get_bytes : (k : Bytes) → Simulates R (kv.get_bytes k) (kv'.get_bytes k)

module _ {S T : Type 0} {R : S → T → Type 0} (u : Uint256) (c : Cells S) (d : Cells T)
    (insert-simulates : (k v : Bytes) → Simulates R (c.insert k v) (d.insert k v)) where
  pub insert_uint256-simulates :
      (k : Bytes) (n : ℕ) → Simulates R (insert_uint256 u c k n) (insert_uint256 u d k n)
  unfolding insert_uint256
  insert_uint256-simulates k n = insert-simulates k (u.write_to_array32 n)

  insert_slots-simulates :
      (k padded : Bytes) (n i : ℕ)
      → Simulates R (insert_slots u c k padded n i) (insert_slots u d k padded n i)
  unfolding insert_slots
  insert_slots-simulates k padded zero i = search simulates_rules
  insert_slots-simulates k padded (suc n) i =
      search (simulates_rules, insert-simulates, insert_slots-simulates k padded n)

  pub insert_bytes-simulates :
      (k v : Bytes) → Simulates R (insert_bytes u c k v) (insert_bytes u d k v)
  unfolding insert_bytes
  insert_bytes-simulates k v = search (simulates_rules, insert-simulates, insert_slots-simulates)

  insert_transaction_id-simulates :
      (k : Bytes) (o : Option Bytes)
      → Simulates R (insert_transaction_id u c k o) (insert_transaction_id u d k o)
  insert_transaction_id-simulates k none = search simulates_rules
  insert_transaction_id-simulates k (some id) = insert-simulates k id

  insert_output_index-simulates :
      (k : Bytes) (o : Option ℕ)
      → Simulates R (insert_output_index u c k o) (insert_output_index u d k o)
  insert_output_index-simulates k none = search simulates_rules
  insert_output_index-simulates k (some n) = insert_uint256-simulates k n

  pub insert_inscription_id-simulates :
      (k v : Bytes) → Simulates R (insert_inscription_id u c k v) (insert_inscription_id u d k v)
  unfolding insert_inscription_id
  insert_inscription_id-simulates k v =
      search (simulates_rules, insert_transaction_id-simulates, insert_output_index-simulates)

module _ {S T : Type 0} {R : S → T → Type 0} (u : Uint256) (c : Cells S) (d : Cells T)
    (insert-simulates : (k v : Bytes) → Simulates R (c.insert k v) (d.insert k v))
    (get-simulates : (k : Bytes) → Simulates R (c.get k) (d.get k)) where
  pub get_uint256-simulates : (k : Bytes) → Simulates R (get_uint256 u c k) (get_uint256 u d k)
  unfolding get_uint256
  get_uint256-simulates k = search (simulates_rules, get-simulates)

  pub get_slots-simulates :
      (k : Bytes) (n i : ℕ) (padded : Bytes)
      → Simulates R (get_slots u c k n i padded) (get_slots u d k n i padded)
  unfolding get_slots
  get_slots-simulates k zero i padded = search simulates_rules
  get_slots-simulates k (suc n) i padded =
      search (simulates_rules, get-simulates, get_slots-simulates k n)

  get_bytes-simulates : (k : Bytes) → Simulates R (get_bytes u c k) (get_bytes u d k)
  unfolding get_bytes
  get_bytes-simulates k = search (simulates_rules, get-simulates, get_slots-simulates)

  get_inscription_id-simulates :
      (k : Bytes) → Simulates R (get_inscription_id u c k) (get_inscription_id u d k)
  unfolding get_inscription_id
  get_inscription_id-simulates k = search (simulates_rules, get-simulates)

  pub slot_storage-simulates : StorageSimulates (slot_storage u c) (slot_storage u d) R
  unfolding slot_storage
  slot_storage-simulates = record {
    insert_inscription_id = insert_inscription_id-simulates u c d insert-simulates;
    get_inscription_id = get_inscription_id-simulates;
    insert_uint256 = insert_uint256-simulates u c d insert-simulates;
    get_uint256 = get_uint256-simulates;
    insert_bytes = insert_bytes-simulates u c d insert-simulates;
    get_bytes = get_bytes-simulates;
  }
