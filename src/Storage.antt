-- ===== src/Storage.antt =====
-- The `KvStorage` interface of ord/stateless/types.go, and the part of ord/stateless/header.go that
-- stores numbers, bytes and inscription IDs in 32-byte slots by `insert` and `get`.
pub mod Laws
pub mod Invariant
pub mod Simulates
pub mod Text
use modular_indexer_committe.Prelude.{
  ℕ, zero, suc, ◌+◌, ◌-◌, ◌*◌, ◌/◌, ◌%◌, ◌^◌, Bool, Option, none, some, List, [], ◌∷◌, ◌++◌, ltb,
  ◌==◌, if◌then◌else◌, length, get_or, take, drop, replicate,
}
use modular_indexer_committe.Prelude.Outcome.{
  Outcome, done, panic, M, pure, fail, panic_if, ◌>>=◌, ◌>>◌, too_long, bad_hex, bad_decimal,
  out_of_range,
}
use modular_indexer_committe.Bytes.{Bytes}
use modular_indexer_committe.Bytes.Hex.{decode_string, encode_to_string}
use modular_indexer_committe.Packages.{Uint256}
use modular_indexer_committe.Numbers.{value_size}

abbrev pub key_size : ℕ
key_size = 32

abbrev pub stem_size : ℕ
stem_size = 31

-- `verkle.NodeWidth`
abbrev pub node_width : ℕ
node_width = 256

-- The exported operations of `KvStorage`.
pub record KvStorage (S : Type 0) : Type 0 where
  pub insert_inscription_id : Bytes → Bytes → M S (Unit {0})
  pub get_inscription_id : Bytes → M S Bytes
  pub insert_uint256 : Bytes → ℕ → M S (Unit {0})
  pub get_uint256 : Bytes → M S ℕ
  pub insert_bytes : Bytes → Bytes → M S (Unit {0})
  pub get_bytes : Bytes → M S Bytes
  pub get_height : S → ℕ

-- The operations on one slot, and the height.
pub record Cells (S : Type 0) : Type 0 where
  pub insert : Bytes → Bytes → M S (Unit {0})
  pub get : Bytes → M S Bytes
  pub height : S → ℕ

-- `copy` into a fresh array of 32 bytes
unfoldable pub to_array : Bytes → Bytes
to_array b = take 32 (b ++ replicate 32 0)

-- `key[verkle.StemSize]`, for a key that is long enough
unfoldable pub suffix : Bytes → ℕ
suffix key = get_or key stem_size 0

-- `newKey[verkle.StemSize] = key[verkle.StemSize] + byte(n)`
unfoldable pub slot_key : Bytes → ℕ → Bytes
unfolding suffix
slot_key key n = take stem_size key ++ ((suffix key + n) % 256) ∷ []

-- `(n + ValueSize - 1) / ValueSize`
abbrev pub required_slots : ℕ → ℕ
required_slots n = (n + 31) / 32

module _ {S : Type 0} (u : Uint256) (c : Cells S) where
  unfoldable pub insert_uint256 : Bytes → ℕ → M S (Unit {0})
  insert_uint256 key value = c.insert key (u.write_to_array32 value)

  unfoldable pub get_uint256 : Bytes → M S ℕ
  get_uint256 key = c.get key >>= λ value. pure (u.set_bytes value)

  -- The loop of `InsertBytes`: the rounds left, and the round.
  unfoldable pub insert_slots : Bytes → Bytes → ℕ → ℕ → M S (Unit {0})
  insert_slots key padded zero i = pure tt
  insert_slots key padded (suc rounds) i =
      c.insert (slot_key key (i + 1)) (take value_size (drop (i * value_size) padded)) >>= λ _.
      insert_slots key padded rounds (i + 1)

  -- `make([]byte, totalLen)` and `copy`
  unfoldable pub pad : Bytes → Bytes
  pad value = value ++ replicate (required_slots (length value) * value_size - length value) 0

  unfoldable pub insert_bytes : Bytes → Bytes → M S (Unit {0})
  unfolding insert_uint256 insert_slots pad suffix
  insert_bytes key value =
      let expected_size = (node_width - suffix key) * value_size in
      panic_if (ltb (length key) key_size) out_of_range
      >> panic_if (ltb expected_size (length value)) too_long
      >> insert_uint256 (to_array key) (length value)
      >> insert_slots key (pad value) (required_slots (length value)) 0

  -- The loop of `GetBytes`, with what it has read so far.
  unfoldable pub get_slots : Bytes → ℕ → ℕ → Bytes → M S Bytes
  get_slots key zero i padded = pure padded
  get_slots key (suc rounds) i padded =
      panic_if (ltb (length key) key_size) out_of_range
      >> (c.get (slot_key key (i + 1)) >>= λ slot. get_slots key rounds (i + 1) (padded ++ slot))

  -- The length is read as a `uint64`; `padded[:len]` panics past the end.
  unfoldable pub get_bytes : Bytes → M S Bytes
  unfolding get_uint256 get_slots
  get_bytes key = get_uint256 (to_array key) >>= λ stored.
      let len = stored % 2 ^ 64 in
      if len == 0
      then pure []
      else get_slots key ((len + 31) % 2 ^ 64 / value_size) 0 [] >>= λ padded.
          if ltb (length padded) len then fail out_of_range else pure (take len padded)

  abbrev insert_transaction_id : Bytes → Option Bytes → M S (Unit {0})
  insert_transaction_id key none = fail bad_hex
  insert_transaction_id key (some id) = c.insert key id

  abbrev insert_output_index : Bytes → Option ℕ → M S (Unit {0})
  insert_output_index key none = fail bad_decimal
  insert_output_index key (some n) = insert_uint256 key n

  -- `value[:64]` and `value[65:]`; the byte between them is not looked at.
  unfoldable pub insert_inscription_id : Bytes → Bytes → M S (Unit {0})
  unfolding insert_uint256
  insert_inscription_id key value =
      let first_key = to_array key in
      panic_if (ltb (length value) 64) out_of_range
      >> insert_transaction_id first_key (decode_string (take 64 value))
      >> panic_if (ltb (length value) 65) out_of_range
      >> insert_output_index (slot_key first_key 1) (u.from_decimal (drop 65 value))

  unfoldable pub get_inscription_id : Bytes → M S Bytes
  unfolding get_uint256
  get_inscription_id key =
      let first_key = to_array key in
      c.get first_key >>= λ transaction_id. get_uint256 (slot_key first_key 1) >>= λ output_index.
      pure (encode_to_string transaction_id ++ b'i' ∷ u.dec output_index)

  -- What `Header` and `LightHeader` offer as a `KvStorage`.
  unfoldable pub slot_storage : KvStorage S
  slot_storage = record {
    insert_inscription_id = insert_inscription_id;
    get_inscription_id = get_inscription_id;
    insert_uint256 = insert_uint256;
    get_uint256 = get_uint256;
    insert_bytes = insert_bytes;
    get_bytes = get_bytes;
    get_height = c.height;
  }
