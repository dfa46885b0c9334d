-- ===== src/Light/Partial.antt =====
-- A client that executes a block on the tree of a proof, beside the committee that executes it on
-- its whole tree.
use modular_indexer_committe.Prelude.{
  Bool, true, false, ℕ, ◌≡◌, refl, sym, ap, ◌∙◌, subst, inl, inr, Bool-cases, List, ◌==◌,
  if◌then◌else◌, length,
}
use modular_indexer_committe.Prelude.Outcome.{Result, ok, err, done, panic, pure, tree_error}
use modular_indexer_committe.Prelude.Outcome.Simulates.{Simulates, simulates_rules, done_eq}
use modular_indexer_committe.Prelude.Outcome.Keeps.{after-eq-done}
use modular_indexer_committe.Bytes.{Bytes, bytes_equal}
use modular_indexer_committe.OrdGetter.{OrdGetter, OrdTransfer}
use modular_indexer_committe.Packages.{Verkle, VerkleLaws, Uint256, Uint256Laws, Codec}
use modular_indexer_committe.Storage.{get_uint256, get_slots, slot_storage}
use modular_indexer_committe.Storage.Simulates.{
  StorageSimulates, get_slots-simulates, insert_uint256-simulates, insert_bytes-simulates,
  insert_inscription_id-simulates,
}
use modular_indexer_committe.Header.{Header, header_insert, header_cells}
use modular_indexer_committe.Header.Access.{insert_sizes}
use modular_indexer_committe.Header.Paging.{paging}
use modular_indexer_committe.Brc20.Exec.{exec}
use modular_indexer_committe.Brc20.Simulates.{exec-simulates}
use modular_indexer_committe.Queue.{exec_header}
use modular_indexer_committe.Light.{
  LightHeader, missing_node, found_or_default, light_insert, light_get, light_get_uint256,
  light_get_bytes, light_get_inscription_id, light_cells, light_storage,
}
use modular_indexer_committe.Light.Strict.{strict_get}
use modular_indexer_committe.Light.Mirrors.{
  Mirrors, insert-Mirrors, get_uint256-Mirrors, strict_get-Mirrors,
}
use modular_indexer_committe.Light.Agreement.{Mirrors-paging}
use modular_indexer_committe.Light.View.{
  inside, inside-Simulates, viewed_cells, viewed_strict_cells, viewed_get_bytes,
  viewed_get_inscription_id, viewed_storage, viewed_storage-header,
}

-- A tree of which only the keys of a view are known, beside the whole tree.
pub record ViewLaws {Node : Type 0} (t : Verkle Node) (in_view : Bytes → Bool)
    (Covers : Node → Node → Type 0) : Type 0 where
  pub get-Covers : (n p : Node) (k : Bytes) → Covers n p → in_view k ≡ true → t.get p k ≡ t.get n k
  pub insert-Covers :
      (n p : Node) (k v : Bytes)
      → Covers n p
      → in_view k ≡ true
      → length k ≡ 32
      → length v ≡ 32
      → Covers (t.insert n k v) (t.insert p k v)
  pub commit-Covers : (n p : Node) → Covers n p → t.commit p ≡ t.commit n

module _ {Node : Type 0} (t : Verkle Node) (u : Uint256) where
  -- What is read depends on the value at the key alone.
  light_get-same :
      (k : Bytes) (l p l' : LightHeader Node) (a : Bytes)
      → t.get p.root k ≡ t.get l.root k
      → light_get t u k l ≡ done (a, l')
      → (light_get t u k p ≡ done (a, p)) × (l ≡ l')
  unfolding light_get
  light_get-same k l p l' a same e =
      let r = go (t.get l.root k) e in (ap (λ x. found_or_default t u x p) same ∙ r.0, r.1)
    where
      go :
          (r : Result Bytes)
          → found_or_default t u r l ≡ done (a, l')
          → (found_or_default t u r p ≡ done (a, p)) × (l ≡ l')
      go (ok old) e' = let d = done_eq e' in (ap (λ x. done (x, p)) d.0, d.1)
      go (err x) e' = elim (Bool-cases (bytes_equal x missing_node)) [
        | inl missing ↦
            let d = done_eq (rw missing at e') in (rw missing (ap (λ x. done (x, p)) d.0), d.1)
        | inr other ↦ absurd (cc (rw other at e'))
      ]

  light_get_uint256-same :
      (k : Bytes) (l p l' : LightHeader Node) (n : ℕ)
      → t.get p.root k ≡ t.get l.root k
      → light_get_uint256 t u k l ≡ done (n, l')
      → (light_get_uint256 t u k p ≡ done (n, p)) × (l ≡ l')
  unfolding light_get_uint256
  light_get_uint256-same k l p l' n same e =
      let parts =
        after-eq-done (light_get t u k l)
          (λ value. pure (if length value == 0 then 0 else u.set_bytes value)) e in
      let first = light_get-same k l p parts.1 parts.0 same parts.2 in
      let last = done_eq parts.3 in (rw first.0 (ap (λ x. done (x, p)) last.0), first.1 ∙ last.1)

module _ {Node : Type 0} {t : Verkle Node} {IsFull : Node → Type 0} (laws : VerkleLaws t IsFull)
    {u : Uint256} (words : Uint256Laws u) {in_view : Bytes → Bool} {Covers : Node → Node → Type 0}
    (views : ViewLaws t in_view Covers) where
  -- A header, and a light header whose tree is a part of one that holds the same values.
  pub record Sees (h : Header Node) (p : LightHeader Node) : Type 0 where
    pub whole : LightHeader Node
    pub mirrors : Mirrors laws words h whole
    pub covers : Covers whole.root p.root
    pub same_height : whole.height ≡ p.height

  insert-Sees :
      (k v : Bytes) → Simulates Sees ((viewed_cells t u in_view).insert k v) (light_insert t u k v)
  unfolding viewed_cells light_insert
  insert-Sees k v = elim (Bool-cases (in_view k)) [
    | inl known ↦ inside-Simulates (in_view k) (header_insert t k v) (light_insert t u k v) (λ _.
        record {
          at = λ s p a s' r e.
              let sizes = insert_sizes t IsFull k v s a s' e in
              let m = (insert-Mirrors laws words k v).at s r.whole a s' r.mirrors e in
              let d = done_eq m.1 in
              (
                record p { root = t.insert p.root k v },
                ap (λ x. done (x, record p { root = t.insert p.root k v })) d.0,
                record {
                  whole = m.0;
                  mirrors = m.2;
                  covers =
                      subst (λ (x : LightHeader Node). Covers x.root (t.insert p.root k v)) d.1
                        (views.insert-Covers r.whole.root p.root k v r.covers known sizes.0
                          sizes.1);
                  same_height = ap (λ (x : LightHeader Node). x.height) (sym d.1) ∙ r.same_height;
                },
              );
        })
    | inr other ↦
        inside-Simulates (in_view k) (header_insert t k v) (light_insert t u k v)
          (λ known. absurd (cc (other, known)))
  ]

  -- A state that a read of the whole tree leaves.
  read-Sees :
      (s' : Header Node) (whole l p : LightHeader Node)
      → Mirrors laws words s' l
      → whole ≡ l
      → Covers whole.root p.root
      → whole.height ≡ p.height
      → Sees s' p
  read-Sees s' whole l p m same covers height = record {
    whole = l;
    mirrors = m;
    covers = subst (λ (x : LightHeader Node). Covers x.root p.root) same covers;
    same_height = ap (λ (x : LightHeader Node). x.height) (sym same) ∙ height;
  }

  number-inside :
      (k : Bytes)
      → in_view k ≡ true
      → (h : Header Node)
      → get_uint256 u (viewed_cells t u in_view) k h ≡ get_uint256 u (header_cells t) k h
  unfolding get_uint256 viewed_cells header_cells
  number-inside k known h = rw known refl

  number-outside :
      (k : Bytes)
      → in_view k ≡ false
      → (h : Header Node) → get_uint256 u (viewed_cells t u in_view) k h ≡ panic tree_error
  unfolding get_uint256 viewed_cells
  number-outside k unknown h = rw unknown refl

  number-Sees :
      (k : Bytes)
      → Simulates Sees (get_uint256 u (viewed_cells t u in_view) k) (light_get_uint256 t u k)
  number-Sees k = record {
    at = λ s p a s' r e. elim (Bool-cases (in_view k)) [
      | inl known ↦
          let m =
            (get_uint256-Mirrors laws words k).at s r.whole a s' r.mirrors
              (sym (number-inside k known s) ∙ e) in
          let seen =
            light_get_uint256-same t u k r.whole p m.0 a
              (views.get-Covers r.whole.root p.root k r.covers known) m.1 in
          (p, seen.0, read-Sees s' r.whole m.0 p m.2 seen.1 r.covers r.same_height)
      | inr unknown ↦ absurd (cc (sym (number-outside k unknown s) ∙ e))
    ];
  }

  value-Sees : (k : Bytes) → in_view k ≡ true → Simulates Sees (strict_get t u k) (light_get t u k)
  value-Sees k known = record {
    at = λ s p a s' r e.
        let m = (strict_get-Mirrors laws words k).at s r.whole a s' r.mirrors e in
        let seen =
          light_get-same t u k r.whole p m.0 a
            (views.get-Covers r.whole.root p.root k r.covers known) m.1 in
        (p, seen.0, read-Sees s' r.whole m.0 p m.2 seen.1 r.covers r.same_height);
  }

  strict-Sees :
      (k : Bytes) → Simulates Sees (inside (in_view k) (strict_get t u k)) (light_get t u k)
  strict-Sees k = inside-Simulates (in_view k) (strict_get t u k) (light_get t u k) (value-Sees k)

  slots-Sees :
      (k : Bytes) (n i : ℕ) (padded : Bytes)
      → Simulates Sees
          (get_slots u (viewed_strict_cells t u in_view) k n i padded)
          (get_slots u (light_cells t u) k n i padded)
  unfolding viewed_strict_cells viewed_cells light_cells
  slots-Sees =
      get_slots-simulates u (viewed_strict_cells t u in_view) (light_cells t u) insert-Sees
        strict-Sees

  bytes-Sees : (k : Bytes) → Simulates Sees (viewed_get_bytes t u in_view k) (light_get_bytes t u k)
  unfolding viewed_get_bytes light_get_bytes
  bytes-Sees k = search (simulates_rules, number-Sees, slots-Sees) depth 8

  id-Sees :
      (k : Bytes)
      → Simulates Sees (viewed_get_inscription_id t u in_view k) (light_get_inscription_id t u k)
  unfolding viewed_get_inscription_id light_get_inscription_id
  id-Sees k = search (simulates_rules, number-Sees, strict-Sees)

  storage-Sees : StorageSimulates (viewed_storage t u in_view) (light_storage t u) Sees
  unfolding viewed_storage slot_storage light_storage light_cells
  storage-Sees = record {
    insert_inscription_id =
        insert_inscription_id-simulates u (viewed_cells t u in_view) (light_cells t u) insert-Sees;
    get_inscription_id = id-Sees;
    insert_uint256 =
        insert_uint256-simulates u (viewed_cells t u in_view) (light_cells t u) insert-Sees;
    get_uint256 = number-Sees;
    insert_bytes =
        insert_bytes-simulates u (viewed_cells t u in_view) (light_cells t u) insert-Sees;
    get_bytes = bytes-Sees;
  }

  -- A block executed on the tree of a proof, beside the header that holds the same values.
  pub exec-Sees :
      (c : Codec) (getter : OrdGetter) (query_hash : Bool) (ots : List OrdTransfer) (i : ℕ)
      (h h' : Header Node) (p : LightHeader Node)
      → Sees h p
      → exec c u (viewed_storage t u in_view) ots i h ≡ done (tt, h')
      → (exec_header t c u ots i h ≡ done (tt, h'))
        × ((p' : LightHeader Node) × (exec c u (light_storage t u) ots i p ≡ done (tt, p'))
            × (t.commit p'.root ≡ t.commit (paging t getter query_hash h').1.root))
  unfolding exec_header slot_storage viewed_storage light_storage viewed_cells header_cells
  exec-Sees c getter query_hash ots i h h' p r e =
      let full =
        (exec-simulates c u (viewed_storage-header t u in_view)
            (λ s s2 same. ap (λ (x : Header Node). x.height) same) ots i).at
          h h tt h' refl e in
      let light =
        (exec-simulates c u storage-Sees (λ s l m. m.mirrors.same_height ∙ m.same_height) ots i).at
          h p tt h' r e in
      (
        full.1 ∙ ap (λ x. done (tt, x)) (sym full.2),
        (
          light.0,
          light.1,
          views.commit-Covers light.2.whole.root light.0.root light.2.covers
              ∙ sym
                  (Mirrors-paging laws words c getter query_hash h' light.2.whole light.2.mirrors),
        ),
      )
