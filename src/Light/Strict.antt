-- ===== src/Light/Strict.antt =====
-- A header whose reads of texts and inscription IDs want every slot to hold a value: where it does
-- not panic, it does what the header does.
use modular_indexer_committe.Prelude.{
  ℕ, ◌+◌, ◌/◌, ◌%◌, ◌^◌, ◌≡◌, refl, sym, ap, ◌∙◌, Option, none, some, [], ◌∷◌, ◌++◌, ltb, ◌==◌,
  if◌then◌else◌, length, take, Option-cases, inl, inr,
}
use modular_indexer_committe.Prelude.Outcome.{M, pure, fail, ◌>>=◌, out_of_range, tree_error}
use modular_indexer_committe.Prelude.Outcome.Simulates.{Simulates, simulates_rules}
use modular_indexer_committe.Bytes.{Bytes}
use modular_indexer_committe.Bytes.Hex.{encode_to_string}
use modular_indexer_committe.Packages.{Verkle, Uint256}
use modular_indexer_committe.Numbers.{value_size}
use modular_indexer_committe.Storage.{
  KvStorage, Cells, to_array, slot_key, insert_uint256, get_uint256, insert_bytes,
  insert_inscription_id, get_slots, slot_storage, get_bytes, get_inscription_id,
}
use modular_indexer_committe.Storage.Simulates.{StorageSimulates, get_slots-simulates}
use modular_indexer_committe.Header.{Header, header_insert, header_get, header_cells}
use modular_indexer_committe.Header.Alike.{held}

module _ {Node : Type 0} (t : Verkle Node) (u : Uint256) where
  abbrev pub only_held : Option Bytes → M (Header Node) Bytes → M (Header Node) Bytes
  only_held none m = fail tree_error
  only_held (some v) m = m

  -- `get`, at a key that holds a value.
  unfoldable pub strict_get : Bytes → M (Header Node) Bytes
  unfolding held
  strict_get key h = only_held (held h key) (header_get t key) h

  unfoldable pub strict_cells : Cells (Header Node)
  strict_cells = record { insert = header_insert t; get = strict_get; height = λ h. h.height }

  unfoldable pub strict_get_bytes : Bytes → M (Header Node) Bytes
  strict_get_bytes key = get_uint256 u (header_cells t) (to_array key) >>= λ stored.
      let len = stored % 2 ^ 64 in
      if len == 0
      then pure []
      else get_slots u strict_cells key ((len + 31) % 2 ^ 64 / value_size) 0 [] >>= λ padded.
          if ltb (length padded) len then fail out_of_range else pure (take len padded)

  unfoldable pub strict_get_inscription_id : Bytes → M (Header Node) Bytes
  strict_get_inscription_id key =
      let first_key = to_array key in
      strict_get first_key >>= λ transaction_id.
      get_uint256 u (header_cells t) (slot_key first_key 1) >>= λ output_index.
      pure (encode_to_string transaction_id ++ b'i' ∷ u.dec output_index)

  -- A header that panics where a text or an inscription ID is read from a slot that holds nothing.
  unfoldable pub strict_storage : KvStorage (Header Node)
  unfolding strict_cells
  strict_storage = record (slot_storage u (header_cells t)) {
    get_inscription_id = strict_get_inscription_id;
    get_bytes = strict_get_bytes;
  }

-- A computation beside itself.
abbrev pub Equal : {S : Type 0} → S → S → Type 0
Equal s t = s ≡ t

pub Simulates-self : {S A : Type 0} (m : M S A) → Simulates Equal m m
Simulates-self m = record { at = λ s t a s' e run. (s', ap m (sym e) ∙ run, refl) }

module _ {Node : Type 0} (t : Verkle Node) (u : Uint256) where
  pub strict_get-header : (k : Bytes) → Simulates Equal (strict_get t u k) (header_get t k)
  unfolding strict_get
  strict_get-header k = record {
    at = λ s s2 a s' e run. elim (Option-cases (held s k)) [
      | inl missing ↦ absurd (cc (rw missing at run))
      | inr (v, found) ↦ (s', ap (header_get t k) (sym e) ∙ (rw found at run), refl)
    ];
  }

  get_slots-header :
      (k : Bytes) (n i : ℕ) (padded : Bytes)
      → Simulates Equal
          (get_slots u (strict_cells t u) k n i padded)
          (get_slots u (header_cells t) k n i padded)
  unfolding strict_cells header_cells
  get_slots-header =
      get_slots-simulates u (strict_cells t u) (header_cells t)
        (λ k v. Simulates-self (header_insert t k v)) strict_get-header

  get_bytes-header :
      (k : Bytes) → Simulates Equal (strict_get_bytes t u k) (get_bytes u (header_cells t) k)
  unfolding strict_get_bytes get_bytes
  get_bytes-header k = search (simulates_rules, Simulates-self, get_slots-header) depth 8

  get_inscription_id-header :
      (k : Bytes)
      → Simulates Equal (strict_get_inscription_id t u k) (get_inscription_id u (header_cells t) k)
  unfolding strict_get_inscription_id get_inscription_id header_cells
  get_inscription_id-header k = search (simulates_rules, Simulates-self, strict_get-header)

  pub storage-header : StorageSimulates (strict_storage t u) (slot_storage u (header_cells t)) Equal
  unfolding strict_storage slot_storage
  storage-header = record {
    insert_inscription_id = λ k v. Simulates-self (insert_inscription_id u (header_cells t) k v);
    get_inscription_id = get_inscription_id-header;
    insert_uint256 = λ k n. Simulates-self (insert_uint256 u (header_cells t) k n);
    get_uint256 = λ k. Simulates-self (get_uint256 u (header_cells t) k);
    insert_bytes = λ k v. Simulates-self (insert_bytes u (header_cells t) k v);
    get_bytes = get_bytes-header;
  }
