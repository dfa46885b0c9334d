-- ===== src/Header/Alike.antt =====
-- Two headers that hold the same values, however their trees, maps and accesses came about.
use modular_indexer_committe.Prelude.{
  ◌≡◌, refl, sym, ap, ◌∙◌, subst, Option, some, arith, if◌then◌else◌, ◌+◌, Bool,
}
use modular_indexer_committe.Prelude.Outcome.{done}
use modular_indexer_committe.Prelude.Outcome.Simulates.{Simulates, done_eq}
use modular_indexer_committe.Bytes.{Bytes, bytes_equal}
use modular_indexer_committe.KeyMap.{lookup, lookup-insert}
use modular_indexer_committe.OrdGetter.{OrdGetter}
use modular_indexer_committe.Packages.{Verkle, VerkleLaws}
use modular_indexer_committe.Header.{Header, header_insert, header_get}
use modular_indexer_committe.Header.Valid.{or_else, or_default, header_view, IsValid}
use modular_indexer_committe.Header.Access.{
  written, read, state_eq, written-IsValid, insert_eq, read-IsValid, get_eq, insert_sizes, get_size,
}
use modular_indexer_committe.Header.Paging.{paging}
use modular_indexer_committe.Header.Tree.{lookup-page_entries, commit-Agrees, paging_parts}
use modular_indexer_committe.Header.Commit.{Agrees-of-IsValid, paging-IsValid}

-- What a key holds after the writes of the block so far.
unfoldable pub held : {Node : Type 0} → Header Node → Bytes → Option Bytes
held h k = or_else (lookup k h.intermediate_kv) (lookup k h.kv)

pub held-written :
    {Node : Type 0} (key value k : Bytes) (h : Header Node)
    → held (written key value h) k ≡ (if bytes_equal key k then some value else held h k)
unfolding held
held-written key value k h = ground (arith, lookup-insert key k value h.intermediate_kv)

pub header_view-held :
    {Node : Type 0} (h : Header Node) (k : Bytes) → header_view h k ≡ or_default (held h k)
unfolding held header_view
header_view-held h k = refl

module _ {Node : Type 0} (t : Verkle Node) (IsFull : Node → Type 0) where
  pub record Alike (h h' : Header Node) : Type 0 where
    pub left : IsValid t IsFull h
    pub right : IsValid t IsFull h'
    pub same : (k : Bytes) → held h k ≡ held h' k
    pub same_height : h.height ≡ h'.height

  pub header_insert-Alike :
      (k v : Bytes) → Simulates Alike (header_insert t k v) (header_insert t k v)
  header_insert-Alike k v = record {
    at = λ s s2 a s' r e.
        let sizes = insert_sizes t IsFull k v s a s' e in
        let left : written k v s ≡ s' =
          state_eq (sym (insert_eq t IsFull k v s r.left sizes.0 sizes.1) ∙ e) in
        (
          written k v s2,
          insert_eq t IsFull k v s2 r.right sizes.0 sizes.1,
          subst (λ x. Alike x (written k v s2)) left
              (record {
                left = written-IsValid t IsFull k v s r.left sizes.0 sizes.1;
                right = written-IsValid t IsFull k v s2 r.right sizes.0 sizes.1;
                same = λ j. rw (held-written k v j s, held-written k v j s2, r.same j) refl;
                same_height = r.same_height;
              }),
        );
  }

  pub header_get-Alike : (k : Bytes) → Simulates Alike (header_get t k) (header_get t k)
  header_get-Alike k = record {
    at = λ s s2 a s' r e.
        let size = get_size t IsFull k s a s' e in
        let one = get_eq t IsFull k s r.left size in
        let two = get_eq t IsFull k s2 r.right size in
        let value : header_view s k ≡ header_view s2 k =
          header_view-held s k ∙ ap or_default (r.same k) ∙ sym (header_view-held s2 k) in
        (
          read k s2,
          two ∙ ap (λ v. done (v, read k s2)) (sym value ∙ (done_eq (sym one ∙ e)).0),
          subst (λ x. Alike x (read k s2)) (done_eq (sym one ∙ e)).1
              (record {
                left = read-IsValid t IsFull k s r.left;
                right = read-IsValid t IsFull k s2 r.right;
                same = λ j. unfold held in r.same j;
                same_height = r.same_height;
              }),
        );
  }

module _ {Node : Type 0} {t : Verkle Node} {IsFull : Node → Type 0}
    (laws : VerkleLaws t IsFull) where
  pub lookup-paging :
      (getter : OrdGetter) (query_hash : Bool) (h : Header Node) (k : Bytes)
      → lookup k (paging t getter query_hash h).1.kv ≡ held h k
  unfolding held
  lookup-paging getter query_hash h k =
      ap (lookup k) (paging_parts t getter query_hash h).1
      ∙ lookup-page_entries t h.intermediate_kv h k

  pub held-paging :
      (getter : OrdGetter) (query_hash : Bool) (h : Header Node) (k : Bytes)
      → IsValid t IsFull h
      → held (paging t getter query_hash h).1 k ≡ held h k
  unfolding held lookup
  held-paging getter query_hash h k v =
      rw ((paging-IsValid laws getter query_hash h v).3) (lookup-paging getter query_hash h k)

  -- Paging, with or without the hash, keeps headers alike, and gives them one commitment.
  pub paging-Alike :
      (getter getter' : OrdGetter) (query_hash query_hash' : Bool) (h h' : Header Node)
      → Alike t IsFull h h'
      → let p = (paging t getter query_hash h).1 in
        let p' = (paging t getter' query_hash' h').1 in
        Alike t IsFull p p' × (t.commit p.root ≡ t.commit p'.root)
  paging-Alike getter getter' query_hash query_hash' h h' r =
      let one = paging-IsValid laws getter query_hash h r.left in
      let two = paging-IsValid laws getter' query_hash' h' r.right in
      (
        record {
          left = one.0;
          right = two.0;
          same = λ k.
              held-paging getter query_hash h k r.left
              ∙ r.same k
              ∙ sym (held-paging getter' query_hash' h' k r.right);
          same_height = one.1 ∙ ap (λ n. n + 1) r.same_height ∙ sym two.1;
        },
        commit-Agrees laws (Agrees-of-IsValid laws one.0) (Agrees-of-IsValid laws two.0) (λ k.
            lookup-paging getter query_hash h k
            ∙ r.same k
            ∙ sym (lookup-paging getter' query_hash' h' k)),
      )
