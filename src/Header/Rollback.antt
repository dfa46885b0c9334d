-- ===== src/Header/Rollback.antt =====
-- `Rollingback` of queue.go takes a committed block back.
use modular_indexer_committe.Prelude.{
  ◌≡◌, refl, sym, ap, ◌∙◌, ◌⊎◌, inl, inr, Bool, true, Option, List, [], ◌∷◌, map, arith, Bool-cases,
  Option-cases, if◌then◌else◌, All, length,
}
use modular_indexer_committe.Prelude.Outcome.{ok}
use modular_indexer_committe.Bytes.{Bytes, bytes_equal, bytes_equal_iff}
use modular_indexer_committe.KeyMap.{KeyMap, lookup, insert, delete, lookup-insert, lookup-delete}
use modular_indexer_committe.Numbers.{value_size}
use modular_indexer_committe.Storage.{key_size}
use modular_indexer_committe.OrdGetter.{OrdGetter}
use modular_indexer_committe.Packages.{Verkle, VerkleLaws}
use modular_indexer_committe.Header.{Header, TripleElement}
use modular_indexer_committe.Header.Valid.{
  or_empty, old_of, IsAccurate, is_recorded, IsSized, lookup-IsSized, insert-IsSized,
  delete-IsSized, IsValid,
}
use modular_indexer_committe.Header.Paging.{undo, paging, rollingback}
use modular_indexer_committe.Header.Tree.{
  build_tree-Agrees, commit-Agrees, lookup-page_entries, paging_parts,
}
use modular_indexer_committe.Header.Commit.{Agrees-of-IsValid, paging-Agrees}

-- One step of the loop.
abbrev pub undo_one : TripleElement → KeyMap Bytes → KeyMap Bytes
undo_one e m = if e.old_value_exists then insert e.key e.old_value m else delete e.key m

pub lookup-undo_one :
    (e : TripleElement) (m : KeyMap Bytes) (k : Bytes)
    → lookup k (undo_one e m) ≡ (if bytes_equal e.key k then old_of e else lookup k m)
lookup-undo_one e m k = ground (arith, lookup-insert e.key k e.old_value m, lookup-delete e.key k m)

-- Undoing accurate records gives `base` at every key that is recorded, or that held it before.
pub lookup-undo :
    (base : KeyMap Bytes) (es : List TripleElement) (m : KeyMap Bytes) (k : Bytes)
    → All (IsAccurate base) es
    → (is_recorded k es ≡ true) ⊎ (lookup k m ≡ lookup k base)
    → lookup k (undo es m) ≡ lookup k base
unfolding undo is_recorded
lookup-undo base [] m k a (inl h) = cc
lookup-undo base [] m k a (inr h) = h
lookup-undo base (e ∷ es) m k (a, rest) h =
    lookup-undo base es (undo_one e m) k rest
      (ground (arith, lookup-undo_one e m k, bytes_equal_iff e.key k, bytes_equal_iff k e.key, a))

-- The old value of a record that has one fits a slot.
abbrev pub IsSizedOld : TripleElement → Type 0
IsSizedOld e =
    e.old_value_exists ≡ true → (length e.key ≡ key_size) × (length e.old_value ≡ value_size)

undo_one-IsSized :
    (e : TripleElement) (m : KeyMap Bytes) → IsSizedOld e → IsSized m → IsSized (undo_one e m)
undo_one-IsSized e m old h = elim (Bool-cases e.old_value_exists) [
  | inl there ↦ rw there (insert-IsSized m e.key e.old_value h (old there).0 (old there).1)
  | inr absent ↦ rw absent (delete-IsSized m e.key h)
]

pub undo-IsSized :
    (es : List TripleElement) (m : KeyMap Bytes)
    → All IsSizedOld es
    → IsSized m
    → IsSized (undo es m)
unfolding undo
undo-IsSized [] m old h = h
undo-IsSized (e ∷ es) m (old, rest) h =
    undo-IsSized es (undo_one e m) rest (undo_one-IsSized e m old h)

-- Accurate records of a sized map have old values that fit.
pub IsSizedOld-of-IsAccurate :
    (base : KeyMap Bytes) (es : List TripleElement)
    → IsSized base
    → All (IsAccurate base) es
    → All IsSizedOld es
IsSizedOld-of-IsAccurate base [] s a = tt
IsSizedOld-of-IsAccurate base (e ∷ es) s (a, rest) = (
  λ there. lookup-IsSized base e.key e.old_value s (a ∙ rw there),
  IsSizedOld-of-IsAccurate base es s rest,
)

module _ {Node : Type 0} {t : Verkle Node} {IsFull : Node → Type 0}
    (laws : VerkleLaws t IsFull) where
  -- Undoing the access records of a committed block restores every entry of the key-value map.
  pub undo-paging :
      (getter : OrdGetter) (query_hash : Bool) (h : Header Node)
      → IsValid t IsFull h
      → (k : Bytes) → lookup k (undo h.access (paging t getter query_hash h).1.kv) ≡ lookup k h.kv
  undo-paging getter query_hash h v k =
      let parts = paging_parts t getter query_hash h in
      lookup-undo h.kv h.access (paging t getter query_hash h).1.kv k v.accurate
        (elim (Option-cases (lookup k h.intermediate_kv)) [
          | inl untouched ↦
              inr (rw parts.1 (lookup-page_entries t h.intermediate_kv h k ∙ rw untouched))
          | inr (w, e) ↦ inl (v.recorded k w e)
        ])

  -- Rollingback of the access list of a valid header over a lawful tree, on what Paging leaves of
  -- that header, gives a tree with the commitment and the values of the tree before the block, and
  -- the keys that the block touched.
  pub rollingback-paging :
      (getter : OrdGetter) (query_hash : Bool) (h : Header Node)
      → IsValid t IsFull h
      → let (tree, keys) = rollingback t (paging t getter query_hash h).1 h.access in
        (t.commit tree ≡ t.commit h.root)
        × ((k : Bytes) → t.get tree k ≡ t.get h.root k)
        × (keys ≡ map (λ (e : TripleElement). e.key) h.access)
  unfolding rollingback
  rollingback-paging getter query_hash h v =
      let paged = (paging t getter query_hash h).1 in
      let rebuilt = build_tree-Agrees laws (undo h.access paged.kv) (
        undo-IsSized h.access paged.kv
          (IsSizedOld-of-IsAccurate h.kv h.access v.kv_sized v.accurate)
          (paging-Agrees laws getter query_hash h v).sized) in
      (
        commit-Agrees laws rebuilt (Agrees-of-IsValid laws v) (undo-paging getter query_hash h v),
        λ k.
            rebuilt.consistent k
            ∙ ap (λ (o : Option Bytes). ok (or_empty o)) (undo-paging getter query_hash h v k)
            ∙ sym (v.consistent k),
        refl,
      )
