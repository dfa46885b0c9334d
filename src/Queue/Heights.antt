-- ===== src/Queue/Heights.antt =====
-- `Exec` on the header of a queue, and the heights that the loops of queue.go keep.
use modular_indexer_committe.Prelude.{ℕ, ◌+◌, ◌-◌, ◌%◌, ◌^◌, ◌≡◌, refl, List}
use modular_indexer_committe.Prelude.Outcome.{done}
use modular_indexer_committe.OrdGetter.{OrdTransfer}
use modular_indexer_committe.Packages.{Verkle, Uint256, Codec}
use modular_indexer_committe.Storage.{slot_storage}
use modular_indexer_committe.Storage.Invariant.{slot_storage-keeps}
use modular_indexer_committe.Header.{Header, header_cells}
use modular_indexer_committe.Header.Valid.{IsValid}
use modular_indexer_committe.Header.Access.{Within, header_insert-keeps, header_get-keeps}
use modular_indexer_committe.Brc20.Invariant.{exec-keeps, height-exec}
use modular_indexer_committe.Queue.{exec_header}

module _ {Node : Type 0} (t : Verkle Node) (IsFull : Node → Type 0) (c : Codec) (u : Uint256) where
  -- Exec on a valid header that does not panic leaves a valid header with the tree, key-value map,
  -- height and hash of before, and that height is one below the block.
  pub exec_header-Within :
      (ots : List OrdTransfer) (i : ℕ) (h h' : Header Node)
      → IsValid t IsFull h
      → exec_header t c u ots i h ≡ done (tt, h')
      → Within t IsFull h h' × (h.height ≡ (i + 2 ^ 64 - 1) % 2 ^ 64)
  unfolding exec_header slot_storage header_cells
  exec_header-Within ots i h h' v e = (
    (exec-keeps c u
          (slot_storage-keeps u (header_cells t) (header_insert-keeps t IsFull h)
            (header_get-keeps t IsFull h))
          ots i).at
        h tt h'
        (record {
          valid = v;
          same_root = refl;
          same_kv = refl;
          same_height = refl;
          same_hash = refl;
        })
        e,
    height-exec c u
        (slot_storage-keeps u (header_cells t) (header_insert-keeps t IsFull h)
          (header_get-keeps t IsFull h))
        ots i h h' e,
  )
