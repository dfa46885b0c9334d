-- ===== src/Light/View.antt =====
-- A header that keeps to the keys of a view: the header of Light/Strict that also panics at a key
-- outside it. A client with the tree of a proof sees the keys of the proof alone.
use modular_indexer_committe.Prelude.{
  Bool, true, false, ℕ, ◌+◌, ◌/◌, ◌%◌, ◌^◌, ◌≡◌, refl, [], ◌∷◌, ◌++◌, ltb, ◌==◌, if◌then◌else◌,
  length, take,
}
use modular_indexer_committe.Prelude.Outcome.{M, pure, fail, ◌>>=◌, out_of_range, tree_error}
use modular_indexer_committe.Prelude.Outcome.Simulates.{Simulates, simulates_rules}
use modular_indexer_committe.Bytes.{Bytes}
use modular_indexer_committe.Bytes.Hex.{encode_to_string}
use modular_indexer_committe.Packages.{Verkle, Uint256}
use modular_indexer_committe.Numbers.{value_size}
use modular_indexer_committe.Storage.{
  KvStorage, Cells, to_array, slot_key, get_uint256, get_slots, slot_storage, get_bytes,
  get_inscription_id,
}
use modular_indexer_committe.Storage.Simulates.{
  StorageSimulates, get_uint256-simulates, get_slots-simulates, insert_uint256-simulates,
  insert_bytes-simulates, insert_inscription_id-simulates,
}
use modular_indexer_committe.Header.{Header, header_insert, header_get, header_cells}
use modular_indexer_committe.Light.Strict.{strict_get, Equal, Simulates-self, strict_get-header}

-- Code that runs at a key of the view alone.
abbrev pub inside : {S A : Type 0} → Bool → M S A → M S A
inside true m = m
inside false m = fail tree_error

-- What a test lets through runs as it is.
pub inside-Simulates :
    {S T A : Type 0} {R : S → T → Type 0} (b : Bool) (m : M S A) (n : M T A)
    → (b ≡ true → Simulates R m n)
    → Simulates R (inside b m) n
inside-Simulates true m n h = h refl
inside-Simulates false m n h = record { at = λ s t a s' r e. absurd (cc) }

module _ {Node : Type 0} (t : Verkle Node) (u : Uint256) (in_view : Bytes → Bool) where
  unfoldable pub viewed_cells : Cells (Header Node)
  viewed_cells = record {
    insert = λ k v. inside (in_view k) (header_insert t k v);
    get = λ k. inside (in_view k) (header_get t k);
    height = λ h. h.height;
  }

  unfoldable pub viewed_strict_cells : Cells (Header Node)
  viewed_strict_cells = record {
    insert = λ k v. inside (in_view k) (header_insert t k v);
    get = λ k. inside (in_view k) (strict_get t u k);
    height = λ h. h.height;
  }

  unfoldable pub viewed_get_bytes : Bytes → M (Header Node) Bytes
  viewed_get_bytes key = get_uint256 u viewed_cells (to_array key) >>= λ stored.
      let len = stored % 2 ^ 64 in
      if len == 0
      then pure []
      else get_slots u viewed_strict_cells key ((len + 31) % 2 ^ 64 / value_size) 0 [] >>= λ padded.
          if ltb (length padded) len then fail out_of_range else pure (take len padded)

  unfoldable pub viewed_get_inscription_id : Bytes → M (Header Node) Bytes
  viewed_get_inscription_id key =
      let first_key = to_array key in
      inside (in_view first_key) (strict_get t u first_key) >>= λ transaction_id.
      get_uint256 u viewed_cells (slot_key first_key 1) >>= λ output_index.
      pure (encode_to_string transaction_id ++ b'i' ∷ u.dec output_index)

  -- A header that panics at a key outside the view.
  unfoldable pub viewed_storage : KvStorage (Header Node)
  viewed_storage = record (slot_storage u viewed_cells) {
    get_inscription_id = viewed_get_inscription_id;
    get_bytes = viewed_get_bytes;
  }

  insert-header : (k v : Bytes) → Simulates Equal (viewed_cells.insert k v) (header_insert t k v)
  unfolding viewed_cells
  insert-header k v =
      inside-Simulates (in_view k) (header_insert t k v) (header_insert t k v)
        (λ _. Simulates-self (header_insert t k v))

  get-header : (k : Bytes) → Simulates Equal (viewed_cells.get k) (header_get t k)
  unfolding viewed_cells
  get-header k =
      inside-Simulates (in_view k) (header_get t k) (header_get t k)
        (λ _. Simulates-self (header_get t k))

  get_strict-header : (k : Bytes) → Simulates Equal (viewed_strict_cells.get k) (header_get t k)
  unfolding viewed_strict_cells
  get_strict-header k =
      inside-Simulates (in_view k) (strict_get t u k) (header_get t k)
        (λ _. strict_get-header t u k)

  number-header :
      (k : Bytes)
      → Simulates Equal (get_uint256 u viewed_cells k) (get_uint256 u (header_cells t) k)
  unfolding header_cells
  number-header = get_uint256-simulates u viewed_cells (header_cells t) insert-header get-header

  slots-header :
      (k : Bytes) (n i : ℕ) (padded : Bytes)
      → Simulates Equal
          (get_slots u viewed_strict_cells k n i padded)
          (get_slots u (header_cells t) k n i padded)
  unfolding header_cells viewed_strict_cells viewed_cells
  slots-header =
      get_slots-simulates u viewed_strict_cells (header_cells t) insert-header get_strict-header

  bytes-header : (k : Bytes) → Simulates Equal (viewed_get_bytes k) (get_bytes u (header_cells t) k)
  unfolding viewed_get_bytes get_bytes
  bytes-header k = search (simulates_rules, number-header, slots-header) depth 8

  id-header :
      (k : Bytes)
      → Simulates Equal (viewed_get_inscription_id k) (get_inscription_id u (header_cells t) k)
  unfolding viewed_get_inscription_id get_inscription_id header_cells viewed_strict_cells
  id-header k = search (simulates_rules, number-header, get_strict-header)

  pub viewed_storage-header :
      StorageSimulates viewed_storage (slot_storage u (header_cells t)) Equal
  unfolding viewed_storage slot_storage header_cells
  viewed_storage-header = record {
    insert_inscription_id =
        insert_inscription_id-simulates u viewed_cells (header_cells t) insert-header;
    get_inscription_id = id-header;
    insert_uint256 = insert_uint256-simulates u viewed_cells (header_cells t) insert-header;
    get_uint256 = number-header;
    insert_bytes = insert_bytes-simulates u viewed_cells (header_cells t) insert-header;
    get_bytes = bytes-header;
  }
