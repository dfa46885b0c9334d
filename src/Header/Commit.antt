-- ===== src/Header/Commit.antt =====
-- `Paging` of header.go commits a block.
use modular_indexer_committe.Prelude.{◌+◌, ◌≡◌, ap, Bool, []}
use modular_indexer_committe.Bytes.{Bytes}
use modular_indexer_committe.KeyMap.{lookup}
use modular_indexer_committe.OrdGetter.{OrdGetter}
use modular_indexer_committe.Packages.{Verkle, VerkleLaws}
use modular_indexer_committe.Header.{Header}
use modular_indexer_committe.Header.Valid.{or_default, header_view, IsValid}
use modular_indexer_committe.Header.Paging.{paging}
use modular_indexer_committe.Header.Tree.{
  Agrees, page_entries-Agrees, lookup-page_entries, paging_parts,
}

module _ {Node : Type 0} {t : Verkle Node} {IsFull : Node → Type 0}
    (laws : VerkleLaws t IsFull) where
  pub Agrees-of-IsValid : {h : Header Node} → IsValid t IsFull h → Agrees t IsFull h.root h.kv
  Agrees-of-IsValid v = record { full = v.full; consistent = v.consistent; sized = v.kv_sized }

  -- A header whose block is empty is valid as soon as its tree and its map agree.
  pub IsValid-of-Agrees :
      (h : Header Node)
      → Agrees t IsFull h.root h.kv
      → h.access ≡ []
      → h.intermediate_kv ≡ []
      → IsValid t IsFull h
  unfolding lookup
  IsValid-of-Agrees h a no_access no_pending = record {
    full = a.full;
    consistent = a.consistent;
    kv_sized = a.sized;
    pending_sized = rw no_pending tt;
    recorded = λ k v. rw no_pending (λ e. cc);
    accurate = rw no_access tt;
  }

  pub paging-Agrees :
      (getter : OrdGetter) (query_hash : Bool) (h : Header Node)
      → IsValid t IsFull h
      → let h' = (paging t getter query_hash h).1 in Agrees t IsFull h'.root h'.kv
  paging-Agrees getter query_hash h v =
      let parts = paging_parts t getter query_hash h in
      rw (parts.0, parts.1)
        (page_entries-Agrees laws h.intermediate_kv h v.pending_sized (Agrees-of-IsValid v))

  -- Paging of a valid header over a lawful tree gives a valid header one block higher, with no
  -- accesses, nothing pending, and the same value at every key.
  pub paging-IsValid :
      (getter : OrdGetter) (query_hash : Bool) (h : Header Node)
      → IsValid t IsFull h
      → let h' = (paging t getter query_hash h).1 in
        IsValid t IsFull h'
        × (h'.height ≡ h.height + 1)
        × (h'.access ≡ [])
        × (h'.intermediate_kv ≡ [])
        × ((k : Bytes) → header_view h' k ≡ header_view h k)
  unfolding header_view lookup
  paging-IsValid getter query_hash h v =
      let h' = (paging t getter query_hash h).1 in
      let parts = paging_parts t getter query_hash h in
      (
        IsValid-of-Agrees h' (paging-Agrees getter query_hash h v) parts.3 parts.4,
        parts.2,
        parts.3,
        parts.4,
        λ k. rw (parts.4, parts.1) (ap or_default (lookup-page_entries t h.intermediate_kv h k)),
      )
