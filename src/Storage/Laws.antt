-- ===== src/Storage/Laws.antt =====
-- What the slots of a storage promise, with a predicate of states and what a slot holds as its
-- parameters.
use modular_indexer_committe.Prelude.{◌≡◌, if◌then◌else◌, length}
use modular_indexer_committe.Prelude.Outcome.{Ends}
use modular_indexer_committe.Bytes.{Bytes, bytes_equal}
use modular_indexer_committe.Storage.{Cells, key_size}
use modular_indexer_committe.Numbers.{value_size}

-- No well-sized call panics; a write shows at its own key only, and a read changes nothing.
pub record CellLaws {S : Type 0} (c : Cells S) (P : S → Type 0) (view : S → Bytes → Bytes)
    : Type 0 where
  pub insert_lem :
      (k v : Bytes) (s : S)
      → P s
      → length k ≡ key_size
      → length v ≡ value_size
      → Ends
          (c.insert k v s)
          (λ _ s'. P s' × ((j : Bytes) → view s' j ≡ (if bytes_equal k j then v else view s j)))
  pub get_lem :
      (k : Bytes) (s : S)
      → P s
      → length k ≡ key_size
      → Ends (c.get k s) (λ r s'. P s' × (r ≡ view s k) × ((j : Bytes) → view s' j ≡ view s j))
  pub length-view : (s : S) (k : Bytes) → P s → length (view s k) ≡ value_size
