-- ===== src/Header/Paging.antt =====
-- `Paging` of header.go, which commits a block, and `Rollingback` of queue.go, which takes one back.
use modular_indexer_committe.Prelude.{
  ◌+◌, Bool, Option, none, some, List, [], ◌∷◌, map, if◌then◌else◌,
}
use modular_indexer_committe.Prelude.Outcome.{Result, ok, err}
use modular_indexer_committe.Bytes.{Bytes}
use modular_indexer_committe.KeyMap.{KeyMap, insert, delete}
use modular_indexer_committe.OrdGetter.{OrdGetter}
use modular_indexer_committe.Packages.{Verkle}
use modular_indexer_committe.Header.{Header, TripleElement}

-- The loop over `stateDiff.Access.Elements` that puts the old values back.
unfoldable pub undo : List TripleElement → KeyMap Bytes → KeyMap Bytes
undo [] kv = kv
undo (elem ∷ rest) kv =
    undo rest
      (if elem.old_value_exists then insert elem.key elem.old_value kv else delete elem.key kv)

module _ {Node : Type 0} (t : Verkle Node) where
  -- The loop of `Paging` over `h.IntermediateKV`.
  unfoldable pub page_entries : KeyMap Bytes → Header Node → Header Node
  page_entries [] h = h
  page_entries ((key, value) ∷ rest) h =
      let h' = page_entries rest h in
      record h' { root = t.insert h'.root key value; kv = insert key value h'.kv }

  -- The next height is not wrapped: no chain reaches 2^64.
  unfoldable pub clear_block : Header Node → Header Node
  clear_block h = record h { access = []; intermediate_kv = []; height = h.height + 1 }

  -- The hash is left alone where the query fails.
  abbrev with_hash : Result Bytes → Header Node → Option Bytes × Header Node
  with_hash (err e) h = (some e, h)
  with_hash (ok hash) h = (none, record h { hash = hash })

  -- The error that is returned, and the header that the call leaves.
  unfoldable pub paging : OrdGetter → Bool → Header Node → Option Bytes × Header Node
  unfolding page_entries clear_block
  paging getter query_hash h =
      let paged = clear_block (page_entries h.intermediate_kv h) in
      if query_hash then with_hash (getter.get_block_hash paged.height) paged else (none, paged)

  -- `verkle.New()` with every entry of a map inserted
  unfoldable pub build_tree : KeyMap Bytes → Node
  build_tree [] = t.new
  build_tree ((k, v) ∷ rest) = t.insert (build_tree rest) k v

  -- The tree before the block, and the keys that the block touched.
  unfoldable pub rollingback : Header Node → List TripleElement → Node × List Bytes
  unfolding undo build_tree
  rollingback header elements =
      (build_tree (undo elements header.kv), map (λ elem. elem.key) elements)
