-- ===== src/Header/Access.antt =====
-- `insert` and `get` of header.go keep the invariant, and act on one slot.
use modular_indexer_committe.Prelude.{
  ℕ, zero, suc, ◌≡◌, refl, sym, subst, ap, ◌∙◌, ◌⊎◌, inl, inr, true, Option, none, some, [], ◌∷◌,
  ◌++◌, arith, Option-cases, ltb, lt→ltb, if◌then◌else◌, length, take, replicate,
}
use modular_indexer_committe.Prelude.Outcome.{Outcome, done, Ends-done}
use modular_indexer_committe.Prelude.Outcome.Keeps.{Keeps}
use modular_indexer_committe.Bytes.{Bytes, bytes_equal, bytes_equal_iff}
use modular_indexer_committe.KeyMap.{lookup, insert, lookup-insert}
use modular_indexer_committe.Packages.{Verkle}
use modular_indexer_committe.Numbers.{value_size}
use modular_indexer_committe.Storage.{key_size, to_array}
use modular_indexer_committe.Storage.Laws.{CellLaws}
use modular_indexer_committe.Header.{
  Header, TripleElement, record_write, record_read, default_value, current_value, header_insert,
  header_get, header_cells,
}
use modular_indexer_committe.Header.Valid.{
  or_empty, or_default, or_else, header_view, old_of, IsAccurate, is_recorded, lookup-IsSized,
  insert-IsSized, IsValid, record_write-IsAccurate, record_read-IsAccurate, is_recorded-write,
  is_recorded-read,
}

pub take_whole : (n : ℕ) (v w : Bytes) → length v ≡ n → take n (v ++ w) ≡ v
take_whole zero [] w h = refl
take_whole zero (x ∷ v) w h = absurd (omega arith)
take_whole (suc n) [] w h = absurd (omega arith)
take_whole (suc n) (x ∷ v) w h = ap (λ t. x ∷ t) (take_whole n v w (omega arith))

take_all : (n : ℕ) (v : Bytes) → length v ≡ n → take n v ≡ v
take_all zero [] h = refl
take_all zero (x ∷ v) h = absurd (omega arith)
take_all (suc n) [] h = absurd (omega arith)
take_all (suc n) (x ∷ v) h = ap (λ t. x ∷ t) (take_all n v (omega arith))

-- The record that `insert` makes of what it found.
abbrev pub write_record : Bytes → Bytes → Bytes → TripleElement
write_record key value old =
    let old_value_exists = ltb 0 (length old) in
    record {
      key = key;
      old_value = if old_value_exists then to_array old else replicate value_size 0;
      new_value = value;
      old_value_exists = old_value_exists;
    }

old_of-write :
    (key value : Bytes) (o : Option Bytes)
    → ((v : Bytes) → o ≡ some v → length v ≡ value_size)
    → o ≡ old_of (write_record key value (or_empty o))
unfolding to_array
old_of-write key value none h = refl
old_of-write key value (some []) h = absurd (omega (arith, h [] refl))
old_of-write key value (some (x ∷ v)) h =
    rw (lt→ltb 0 (suc (length v)) (omega arith))
      (ap some (sym (take_whole 32 (x ∷ v) (replicate 32 0) (h (x ∷ v) refl))))

current_value-found :
    (pending old : Option Bytes)
    → ((v : Bytes) → old ≡ some v → length v ≡ value_size)
    → current_value pending (or_empty old) ≡ done (or_default (or_else pending old))
unfolding current_value
current_value-found (some v) old h = refl
current_value-found none none h = refl
current_value-found none (some []) h = absurd (omega (arith, h [] refl))
current_value-found none (some (x ∷ v)) h =
    rw (h (x ∷ v) refl) (ap done (take_all 32 (x ∷ v) (h (x ∷ v) refl)))

-- The state after `insert`.
abbrev pub written : {Node : Type 0} → Bytes → Bytes → Header Node → Header Node
written key value h = record h {
  access = record_write (write_record key value (or_empty (lookup key h.kv))) h.access;
  intermediate_kv = insert key value h.intermediate_kv;
}

-- The record that `get` makes of what it found.
abbrev pub read_record : {Node : Type 0} → Bytes → Header Node → TripleElement
read_record key h = record {
  key = key;
  old_value = header_view h key;
  new_value = header_view h key;
  old_value_exists = ltb 0 (length (or_empty (lookup key h.kv)));
}

-- The state after `get`.
abbrev pub read : {Node : Type 0} → Bytes → Header Node → Header Node
read key h = record h { access = record_read (read_record key h) h.access }

old_of-read :
    (o : Option Bytes)
    → ((v : Bytes) → o ≡ some v → length v ≡ value_size)
    → o ≡ (if ltb 0 (length (or_empty o)) then some (or_default o) else none)
old_of-read none h = refl
old_of-read (some []) h = absurd (omega (arith, h [] refl))
old_of-read (some (x ∷ v)) h = rw (lt→ltb 0 (suc (length v)) (omega arith))

pub state_eq {ℓ κ} :
    {A : Type ℓ} {S : Type κ} {a b : A} {s s' : S}
    → ◌≡◌ {A = Outcome (A × S)} (done (a, s)) (done (b, s'))
    → s ≡ s'
state_eq e = cc

module _ {Node : Type 0} (t : Verkle Node) (IsFull : Node → Type 0) where
  -- A state within the block that starts at `base`.
  pub record Within (base h : Header Node) : Type 0 where
    pub valid : IsValid t IsFull h
    pub same_root : h.root ≡ base.root
    pub same_kv : h.kv ≡ base.kv
    pub same_height : h.height ≡ base.height
    pub same_hash : h.hash ≡ base.hash

  pub written-IsValid :
      (key value : Bytes) (h : Header Node)
      → IsValid t IsFull h
      → length key ≡ key_size
      → length value ≡ value_size
      → IsValid t IsFull (written key value h)
  written-IsValid key value h v hk hv = record {
    full = v.full;
    consistent = v.consistent;
    kv_sized = v.kv_sized;
    pending_sized = insert-IsSized h.intermediate_kv key value v.pending_sized hk hv;
    recorded = λ k w e. ground (
      arith,
      lookup-insert key k value h.intermediate_kv,
      bytes_equal_iff key k,
      bytes_equal_iff k key,
      is_recorded-write k (write_record key value (or_empty (lookup key h.kv))) h.access,
      v.recorded k w,
    );
    accurate =
        record_write-IsAccurate h.kv (write_record key value (or_empty (lookup key h.kv))) h.access
          (old_of-write key value (lookup key h.kv)
            (λ w e. (lookup-IsSized h.kv key w v.kv_sized e).1))
          v.accurate;
  }

  pub insert_eq :
      (key value : Bytes) (h : Header Node)
      → IsValid t IsFull h
      → length key ≡ key_size
      → length value ≡ value_size
      → header_insert t key value h ≡ done (tt, written key value h)
  unfolding header_insert
  insert_eq key value h v hk hv = rw (hk, hv, v.consistent key)

  read_record-IsAccurate :
      (key : Bytes) (h : Header Node)
      → IsValid t IsFull h
      → (is_recorded key h.access ≡ true) ⊎ IsAccurate h.kv (read_record key h)
  unfolding header_view
  read_record-IsAccurate key h v = elim (Option-cases (lookup key h.intermediate_kv)) [
    | inl fresh ↦ inr (
        rw fresh
          (old_of-read (lookup key h.kv) (λ w e. (lookup-IsSized h.kv key w v.kv_sized e).1)))
    | inr (w, e) ↦ inl (v.recorded key w e)
  ]

  pub read-IsValid :
      (key : Bytes) (h : Header Node) → IsValid t IsFull h → IsValid t IsFull (read key h)
  read-IsValid key h v = record {
    full = v.full;
    consistent = v.consistent;
    kv_sized = v.kv_sized;
    pending_sized = v.pending_sized;
    recorded = λ k w e.
        rw (is_recorded-read k (read_record key h) h.access) (ground (arith, v.recorded k w));
    accurate =
        record_read-IsAccurate h.kv (read_record key h) h.access (read_record-IsAccurate key h v)
          v.accurate;
  }

  pub get_eq :
      (key : Bytes) (h : Header Node)
      → IsValid t IsFull h
      → length key ≡ key_size
      → header_get t key h ≡ done (header_view h key, read key h)
  unfolding header_get header_view
  get_eq key h v hk = rw (
    hk,
    v.consistent key,
    current_value-found (lookup key h.intermediate_kv) (lookup key h.kv)
        (λ w e. (lookup-IsSized h.kv key w v.kv_sized e).1),
  )

  header_view-sized :
      (h : Header Node) (k : Bytes) → IsValid t IsFull h → length (header_view h k) ≡ value_size
  unfolding header_view default_value
  header_view-sized h k v = elim (Option-cases (lookup k h.intermediate_kv)) [
    | inr (w, e) ↦ rw e (lookup-IsSized h.intermediate_kv k w v.pending_sized e).1
    | inl fresh ↦ elim (Option-cases (lookup k h.kv)) [
      | inl absent ↦ rw (fresh, absent)
      | inr (w, e) ↦ rw (fresh, e) (lookup-IsSized h.kv k w v.kv_sized e).1
    ]
  ]

  header_view-written :
      (key value j : Bytes) (h : Header Node)
      → header_view (written key value h) j ≡ (if bytes_equal key j then value else header_view h j)
  unfolding header_view
  header_view-written key value j h = ground (arith, lookup-insert key j value h.intermediate_kv)

  pub insert_sizes :
      (k v : Bytes) (s : Header Node) (a : Unit {0}) (s' : Header Node)
      → header_insert t k v s ≡ done (a, s')
      → (length k ≡ key_size) × (length v ≡ value_size)
  unfolding header_insert
  insert_sizes k v s a s' e = ground arith

  pub get_size :
      (k : Bytes) (s : Header Node) (a : Bytes) (s' : Header Node)
      → header_get t k s ≡ done (a, s')
      → length k ≡ key_size
  unfolding header_get
  get_size k s a s' e = ground arith

  -- insert and get of a header, at keys and values of 32 bytes, never panic, act on the values of
  -- the header as on a map, and keep it valid with the tree, map, height and hash of before.
  pub header_cells-laws : (base : Header Node) → CellLaws (header_cells t) (Within base) header_view
  unfolding header_cells
  header_cells-laws base = record {
    insert_lem = λ k v s w hk hv. rw (insert_eq k v s w.valid hk hv) (
        Ends-done tt (written k v s) (
          record {
            valid = written-IsValid k v s w.valid hk hv;
            same_root = w.same_root;
            same_kv = w.same_kv;
            same_height = w.same_height;
            same_hash = w.same_hash;
          },
          λ j. header_view-written k v j s,
        ));
    get_lem = λ k s w hk. rw (get_eq k s w.valid hk) (
        Ends-done (header_view s k) (read k s) (
          record {
            valid = read-IsValid k s w.valid;
            same_root = w.same_root;
            same_kv = w.same_kv;
            same_height = w.same_height;
            same_hash = w.same_hash;
          },
          refl,
          λ j. unfold header_view in refl,
        ));
    length-view = λ s k w. header_view-sized s k w.valid;
  }

  -- What ran without a panic had a key and a value of the right size.
  pub header_insert-keeps :
      (base : Header Node) (k v : Bytes) → Keeps (Within base) (header_insert t k v)
  unfolding header_cells
  header_insert-keeps base k v = record {
    at = λ s a s' w e.
        let sizes = insert_sizes k v s a s' e in
        let r = (header_cells-laws base).insert_lem k v s w sizes.0 sizes.1 in
        subst (Within base) (state_eq (sym r.eq ∙ e)) r.holds.0;
  }

  pub header_get-keeps : (base : Header Node) (k : Bytes) → Keeps (Within base) (header_get t k)
  unfolding header_cells
  header_get-keeps base k = record {
    at = λ s a s' w e.
        let r = (header_cells-laws base).get_lem k s w (get_size k s a s' e) in
        subst (Within base) (state_eq (sym r.eq ∙ e)) r.holds.0;
  }
