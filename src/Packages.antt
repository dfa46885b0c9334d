-- ===== src/Packages.antt =====
-- The packages outside the repository that the program calls, as records of operations, with what
-- the program relies on as records of laws.
pub mod Sample
use modular_indexer_committe.Prelude.{
  ℕ, ◌+◌, ◌-◌, ◌*◌, ◌%◌, ◌^◌, ◌<◌, ◌≡◌, ◌≢◌, Bool, Option, none, some, List, [], All, length, ltb,
  if◌then◌else◌, replicate,
}
use modular_indexer_committe.Prelude.Outcome.{Result, ok}
use modular_indexer_committe.Bytes.{Bytes, bytes_equal}
use modular_indexer_committe.Bytes.Text.{IsDigit, decimal_value}

abbrev pub word_mod : ℕ
word_mod = 2 ^ 256

-- github.com/holiman/uint256. A `*uint256.Int` is the number that it stands for; `Gt`, `Lt`, `Eq`
-- and `IsZero` compare those numbers.
pub record Uint256 : Type 0 where
  pub add : ℕ → ℕ → ℕ
  pub sub : ℕ → ℕ → ℕ
  pub mul : ℕ → ℕ → ℕ
  pub lsh : ℕ → ℕ → ℕ
  pub from_decimal : Bytes → Option ℕ
  pub dec : ℕ → Bytes
  pub write_to_array32 : ℕ → Bytes
  pub set_bytes : Bytes → ℕ

-- Arithmetic wraps at 256 bits; the big-endian bytes of a number read back as that number.
pub record Uint256Laws (u : Uint256) : Type 0 where
  pub add_lem : (a b : ℕ) → u.add a b ≡ (a + b) % word_mod
  pub sub_lem : (a b : ℕ) → b < word_mod → u.sub a b ≡ (a + word_mod - b) % word_mod
  pub mul_lem : (a b : ℕ) → u.mul a b ≡ (a * b) % word_mod
  pub lsh_lem : (a n : ℕ) → u.lsh a n ≡ (a * 2 ^ n) % word_mod
  pub from_decimal_lem :
      (s : Bytes)
      → s ≢ []
      → All IsDigit s
      → u.from_decimal s ≡ (if ltb (decimal_value s) word_mod then some (decimal_value s) else none)
  pub length-write_to_array32 : (n : ℕ) → length (u.write_to_array32 n) ≡ 32
  pub set_bytes-write_to_array32 : (n : ℕ) → n < word_mod → u.set_bytes (u.write_to_array32 n) ≡ n
  pub set_bytes-lt : (b : Bytes) → u.set_bytes b < word_mod
  pub set_bytes-zeros : u.set_bytes (replicate 32 0) ≡ 0

-- github.com/ethereum/go-verkle: a tree with 32-byte keys and values. `get` gives no bytes for a
-- key that is not there. `insert` is the tree as the call leaves it.
pub record Verkle (Node : Type 0) : Type 0 where
  pub new : Node
  pub get : Node → Bytes → Result Bytes
  pub insert : Node → Bytes → Bytes → Node
  pub insert_fails : Node → Bytes → Bytes → Bool
  pub commit : Node → Bytes

-- `IsFull` says that a tree holds all its nodes in memory, as one built by `New` and `Insert` does.
-- The commitment of such a tree depends on its contents alone.
pub record VerkleLaws {Node : Type 0} (t : Verkle Node) (IsFull : Node → Type 0) : Type 0 where
  pub new-IsFull : IsFull t.new
  pub get-new : (k : Bytes) → t.get t.new k ≡ ok []
  pub insert-IsFull :
      (n : Node) (k v : Bytes) → IsFull n → length k ≡ 32 → length v ≡ 32 → IsFull (t.insert n k v)
  pub get-insert :
      (n : Node) (k v j : Bytes)
      → IsFull n
      → length k ≡ 32
      → length v ≡ 32
      → t.get (t.insert n k v) j ≡ (if bytes_equal k j then ok v else t.get n j)
  pub commit-eq :
      (a b : Node)
      → IsFull a
      → IsFull b
      → ((k : Bytes) → t.get a k ≡ t.get b k)
      → t.commit a ≡ t.commit b

-- What the protocol code takes from elsewhere: Keccak256 (golang.org/x/crypto/sha3), base58
-- (github.com/btcsuite/btcd), the Unicode tables behind `strings.ToLower`, `strings.TrimSpace` and
-- `unicode.IsDigit`, the runes of a text, and the string members of a JSON object.
pub record Codec : Type 0 where
  pub keccak256 : Bytes → Bytes
  pub base58_decode : Bytes → Bytes
  pub base58_encode : Bytes → Bytes
  pub to_lower : Bytes → Bytes
  pub trim_space : Bytes → Bytes
  pub runes : Bytes → List ℕ
  pub is_digit : ℕ → Bool
  pub unmarshal_strings : Bytes → List (Bytes × Bytes)

pub record CodecLaws (c : Codec) : Type 0 where
  pub length-keccak256 : (b : Bytes) → length (c.keccak256 b) ≡ 32
