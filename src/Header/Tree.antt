-- ===== src/Header/Tree.antt =====
-- The tree and the key-value map of a header stay in step: `Paging`, and trees built from a map.
use modular_indexer_committe.Prelude.{
  ◌+◌, ◌≡◌, refl, sym, ap, ◌∙◌, Bool, Option, [], ◌∷◌, arith, length,
}
use modular_indexer_committe.Prelude.Outcome.{ok}
use modular_indexer_committe.Bytes.{Bytes}
use modular_indexer_committe.KeyMap.{KeyMap, lookup, insert, lookup-insert}
use modular_indexer_committe.OrdGetter.{OrdGetter}
use modular_indexer_committe.Packages.{Verkle, VerkleLaws}
use modular_indexer_committe.Header.{Header}
use modular_indexer_committe.Header.Valid.{or_empty, or_else, IsSized, insert-IsSized}
use modular_indexer_committe.Header.Paging.{page_entries, clear_block, paging, build_tree}

module _ {Node : Type 0} (t : Verkle Node) (IsFull : Node → Type 0) where
  -- The tree holds exactly the entries of the map.
  pub record Agrees (n : Node) (kv : KeyMap Bytes) : Type 0 where
    pub full : IsFull n
    pub consistent : (k : Bytes) → t.get n k ≡ ok (or_empty (lookup k kv))
    pub sized : IsSized kv

module _ {Node : Type 0} {t : Verkle Node} {IsFull : Node → Type 0}
    (laws : VerkleLaws t IsFull) where
  insert-Agrees :
      (n : Node) (kv : KeyMap Bytes) (k v : Bytes)
      → Agrees t IsFull n kv
      → (length k ≡ 32) × (length v ≡ 32)
      → Agrees t IsFull (t.insert n k v) (insert k v kv)
  insert-Agrees n kv k v a (hk, hv) = record {
    full = laws.insert-IsFull n k v a.full hk hv;
    consistent = λ j.
        ground
          (arith, laws.get-insert n k v j a.full hk hv, lookup-insert k j v kv, a.consistent j);
    sized = insert-IsSized kv k v a.sized hk hv;
  }

  pub page_entries-Agrees :
      (es : KeyMap Bytes) (h : Header Node)
      → IsSized es
      → Agrees t IsFull h.root h.kv
      → Agrees t IsFull (page_entries t es h).root (page_entries t es h).kv
  unfolding page_entries
  page_entries-Agrees [] h s a = a
  page_entries-Agrees ((k, v) ∷ es) h s a =
      insert-Agrees (page_entries t es h).root (page_entries t es h).kv k v
        (page_entries-Agrees es h s.1 a) s.0

  pub build_tree-Agrees : (m : KeyMap Bytes) → IsSized m → Agrees t IsFull (build_tree t m) m
  unfolding build_tree lookup
  build_tree-Agrees [] s = record {
    full = laws.new-IsFull;
    consistent = λ k. laws.get-new k;
    sized = tt;
  }
  build_tree-Agrees ((k, v) ∷ m) s =
      let a = build_tree-Agrees m s.1 in
      record {
        full = laws.insert-IsFull (build_tree t m) k v a.full s.0.0 s.0.1;
        consistent = λ j.
            ground
              (arith, laws.get-insert (build_tree t m) k v j a.full s.0.0 s.0.1, a.consistent j);
        sized = s;
      }

  -- Trees that hold the same entries have the same commitment.
  pub commit-Agrees :
      {a b : Node} {m m' : KeyMap Bytes}
      → Agrees t IsFull a m
      → Agrees t IsFull b m'
      → ((k : Bytes) → lookup k m ≡ lookup k m')
      → t.commit a ≡ t.commit b
  commit-Agrees {a} {b} p q same = laws.commit-eq a b p.full q.full (λ k.
      p.consistent k ∙ ap (λ (o : Option Bytes). ok (or_empty o)) (same k) ∙ sym (q.consistent k))

module _ {Node : Type 0} (t : Verkle Node) where
  pub lookup-page_entries :
      (es : KeyMap Bytes) (h : Header Node) (k : Bytes)
      → lookup k (page_entries t es h).kv ≡ or_else (lookup k es) (lookup k h.kv)
  unfolding page_entries lookup
  lookup-page_entries [] h k = refl
  lookup-page_entries ((j, v) ∷ es) h k =
      ground (arith, lookup-insert j k v (page_entries t es h).kv, lookup-page_entries es h k)

  pub height-page_entries :
      (es : KeyMap Bytes) (h : Header Node) → (page_entries t es h).height ≡ h.height
  unfolding page_entries
  height-page_entries [] h = refl
  height-page_entries ((j, v) ∷ es) h = height-page_entries es h

  -- What the call leaves, whether or not the hash was found, is the cleared state up to its hash.
  pub paging_parts :
      (getter : OrdGetter) (query_hash : Bool) (h : Header Node)
      → let (_, h') = paging t getter query_hash h in
        (h'.root ≡ (page_entries t h.intermediate_kv h).root)
        × (h'.kv ≡ (page_entries t h.intermediate_kv h).kv)
        × (h'.height ≡ h.height + 1)
        × (h'.access ≡ [])
        × (h'.intermediate_kv ≡ [])
  unfolding paging clear_block
  paging_parts getter query_hash h = ground (arith, height-page_entries h.intermediate_kv h)
