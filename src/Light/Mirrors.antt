-- ===== src/Light/Mirrors.antt =====
-- Each operation of a light header, beside the one of a header that holds the same values.
use modular_indexer_committe.Prelude.{
  Bool, false, ℕ, ◌≡◌, refl, sym, ap, ◌∙◌, subst, Option, none, some, [], ◌∷◌, arith, ◌==◌,
  if◌then◌else◌, length, Option-cases, inl, inr, true,
}
use modular_indexer_committe.Prelude.Outcome.{ok, done, pure}
use modular_indexer_committe.Prelude.Outcome.Simulates.{Simulates, simulates_rules, done_eq}
use modular_indexer_committe.Prelude.Outcome.Keeps.{after-eq-done}
use modular_indexer_committe.Bytes.{Bytes, bytes_equal}
use modular_indexer_committe.KeyMap.{lookup}
use modular_indexer_committe.Packages.{Verkle, VerkleLaws, Uint256, Uint256Laws}
use modular_indexer_committe.Storage.{get_uint256, get_slots, slot_storage}
use modular_indexer_committe.Storage.Simulates.{
  StorageSimulates, get_slots-simulates, insert_uint256-simulates, insert_bytes-simulates,
  insert_inscription_id-simulates,
}
use modular_indexer_committe.Header.{Header, header_insert, header_get, header_cells, default_value}
use modular_indexer_committe.Header.Valid.{or_empty, or_default, lookup-IsSized, IsValid}
use modular_indexer_committe.Header.Access.{
  read, written-IsValid, insert_eq, read-IsValid, get_eq, insert_sizes, get_size,
}
use modular_indexer_committe.Header.Alike.{held, held-written, header_view-held}
use modular_indexer_committe.Light.{
  LightHeader, light_insert, light_get, light_cells, light_get_uint256, light_get_bytes,
  light_get_inscription_id, light_storage,
}
use modular_indexer_committe.Light.Strict.{
  strict_get, strict_cells, strict_get_bytes, strict_get_inscription_id, strict_storage,
}

module _ {Node : Type 0} {t : Verkle Node} {IsFull : Node → Type 0} (laws : VerkleLaws t IsFull)
    {u : Uint256} (words : Uint256Laws u) where
  -- The tree of a light header has what a header holds, in its tree or as a pending write.
  pub record Mirrors (h : Header Node) (l : LightHeader Node) : Type 0 where
    pub valid : IsValid t IsFull h
    pub full : IsFull l.root
    pub mirrored : (k : Bytes) → t.get l.root k ≡ ok (or_empty (held h k))
    pub same_height : h.height ≡ l.height

  or_empty-if :
      (b : Bool) (v : Bytes) (o : Option Bytes)
      → (if b then ok v else ok (or_empty o)) ≡ ok (or_empty (if b then some v else o))
  or_empty-if true v o = refl
  or_empty-if false v o = refl

  pub insert-Mirrors :
      (k v : Bytes) → Simulates Mirrors (header_insert t k v) (light_insert t u k v)
  unfolding light_insert
  insert-Mirrors k v = record {
    at = λ s l a s' r e.
        let (hk, hv) = insert_sizes t IsFull k v s a s' e in
        let same = done_eq (sym (insert_eq t IsFull k v s r.valid hk hv) ∙ e) in
        (
          record l { root = t.insert l.root k v },
          ap (λ x. done (x, record l { root = t.insert l.root k v })) same.0,
          subst (λ x. Mirrors x (record l { root = t.insert l.root k v })) same.1
              (record {
                valid = written-IsValid t IsFull k v s r.valid hk hv;
                full = laws.insert-IsFull l.root k v r.full hk hv;
                mirrored = λ j.
                    laws.get-insert l.root k v j r.full hk hv
                    ∙ ap (λ x. if bytes_equal k j then ok v else x) (r.mirrored j)
                    ∙ or_empty-if (bytes_equal k j) v (held s j)
                    ∙ ap (λ o. ok (or_empty o)) (sym (held-written k v j s));
                same_height = r.same_height;
              }),
        );
  }

  read-Mirrors :
      (k : Bytes) (h : Header Node) (l : LightHeader Node) → Mirrors h l → Mirrors (read k h) l
  read-Mirrors k h l r = record {
    valid = read-IsValid t IsFull k h r.valid;
    full = r.full;
    mirrored = λ j. unfold held in r.mirrored j;
    same_height = r.same_height;
  }

  light_get_eq :
      (k : Bytes) (h : Header Node) (l : LightHeader Node)
      → Mirrors h l
      → light_get t u k l ≡ done (or_empty (held h k), l)
  unfolding light_get
  light_get_eq k h l r = rw (r.mirrored k) refl

  -- What is read as a number is the same number.
  number_eq :
      (o : Option Bytes)
      → ((v : Bytes) → o ≡ some v → length v ≡ 32)
      → u.set_bytes (or_default o)
        ≡ (if length (or_empty o) == 0 then 0 else u.set_bytes (or_empty o))
  unfolding default_value
  number_eq none h = words.set_bytes-zeros
  number_eq (some []) h = absurd (omega (arith, h [] refl))
  number_eq (some (x ∷ v)) h = ground arith

  held-sized :
      (h : Header Node) (k v : Bytes) → IsValid t IsFull h → held h k ≡ some v → length v ≡ 32
  unfolding held
  held-sized h k v valid e = elim (Option-cases (lookup k h.intermediate_kv)) [
    | inl fresh ↦ (lookup-IsSized h.kv k v valid.kv_sized (rw fresh at e)).1
    | inr (w, pending) ↦
        let same : some w ≡ some v = rw pending at e in
        (lookup-IsSized h.intermediate_kv k v valid.pending_sized (pending ∙ same)).1
  ]

  pub get_uint256-Mirrors :
      (k : Bytes) → Simulates Mirrors (get_uint256 u (header_cells t) k) (light_get_uint256 t u k)
  unfolding get_uint256 light_get_uint256 header_cells
  get_uint256-Mirrors k = record {
    at = λ s l a s' r e.
        let parts = after-eq-done (header_get t k s) (λ value. pure (u.set_bytes value)) e in
        let size = get_size t IsFull k s parts.0 parts.1 parts.2 in
        let got = done_eq (sym (get_eq t IsFull k s r.valid size) ∙ parts.2) in
        let ended = done_eq parts.3 in
        (
          l,
          rw (light_get_eq k s l r) (
              ap (λ n. done (n, l))
                (sym (number_eq (held s k) (λ v. held-sized s k v r.valid))
                  ∙ ap u.set_bytes (sym (header_view-held s k) ∙ got.0)
                  ∙ ended.0)),
          subst (λ x. Mirrors x l) (got.1 ∙ ended.1) (read-Mirrors k s l r),
        );
  }

  strict_get_eq :
      (k v : Bytes) (h : Header Node) → held h k ≡ some v → strict_get t u k h ≡ header_get t k h
  unfolding strict_get
  strict_get_eq k v h e = rw e refl

  -- A read that succeeds found a value.
  strict_get-found :
      (k : Bytes) (h h' : Header Node) (a : Bytes)
      → strict_get t u k h ≡ done (a, h')
      → (v : Bytes) × (held h k ≡ some v)
  unfolding strict_get
  strict_get-found k h h' a e = elim (Option-cases (held h k)) [
    | inl missing ↦ absurd (cc (rw missing at e))
    | inr found ↦ found
  ]

  pub strict_get-Mirrors : (k : Bytes) → Simulates Mirrors (strict_get t u k) (light_get t u k)
  strict_get-Mirrors k = record {
    at = λ s l a s' r e.
        let (v, found) = strict_get-found k s s' a e in
        let plain = sym (strict_get_eq k v s found) ∙ e in
        let size = get_size t IsFull k s a s' plain in
        let got = done_eq (sym (get_eq t IsFull k s r.valid size) ∙ plain) in
        (
          l,
          light_get_eq k s l r
              ∙ ap (λ b. done (b, l))
                  (ap or_empty found
                    ∙ sym (ap or_default found)
                    ∙ sym (header_view-held s k)
                    ∙ got.0),
          subst (λ x. Mirrors x l) got.1 (read-Mirrors k s l r),
        );
  }

  get_slots-Mirrors :
      (k : Bytes) (n i : ℕ) (padded : Bytes)
      → Simulates Mirrors
          (get_slots u (strict_cells t u) k n i padded)
          (get_slots u (light_cells t u) k n i padded)
  unfolding strict_cells light_cells
  get_slots-Mirrors =
      get_slots-simulates u (strict_cells t u) (light_cells t u) insert-Mirrors strict_get-Mirrors

  get_bytes-Mirrors :
      (k : Bytes) → Simulates Mirrors (strict_get_bytes t u k) (light_get_bytes t u k)
  unfolding strict_get_bytes light_get_bytes
  get_bytes-Mirrors k = search (simulates_rules, get_uint256-Mirrors, get_slots-Mirrors) depth 8

  get_inscription_id-Mirrors :
      (k : Bytes)
      → Simulates Mirrors (strict_get_inscription_id t u k) (light_get_inscription_id t u k)
  unfolding strict_get_inscription_id light_get_inscription_id
  get_inscription_id-Mirrors k = search (simulates_rules, get_uint256-Mirrors, strict_get-Mirrors)

  -- Each operation of a light header does what that of the header does.
  pub storage-Mirrors : StorageSimulates (strict_storage t u) (light_storage t u) Mirrors
  unfolding strict_storage slot_storage light_storage light_cells header_cells
  storage-Mirrors = record {
    insert_inscription_id =
        insert_inscription_id-simulates u (header_cells t) (light_cells t u) insert-Mirrors;
    get_inscription_id = get_inscription_id-Mirrors;
    insert_uint256 = insert_uint256-simulates u (header_cells t) (light_cells t u) insert-Mirrors;
    get_uint256 = get_uint256-Mirrors;
    insert_bytes = insert_bytes-simulates u (header_cells t) (light_cells t u) insert-Mirrors;
    get_bytes = get_bytes-Mirrors;
  }
