-- ===== src/Packages/Sample.antt =====
-- Small implementations of the outside packages that meet their laws, for the tests: a tree that is a
-- map, 256-bit arithmetic, and a codec that reads `name:value` pairs in place of JSON.
use modular_indexer_committe.Prelude.{
  ℕ, zero, suc, ◌+◌, ◌-◌, ◌*◌, ◌/◌, ◌%◌, ◌^◌, ◌<◌, ◌≡◌, ◌≢◌, refl, ◌∙◌, ap, false, ◌&&◌, Option,
  none, some, List, [], ◌∷◌, map, arith, All, length, ltb, leb, if◌then◌else◌, replicate,
}
use native.Mathlib.Nat.{pow-suc}
use modular_indexer_committe.Prelude.Outcome.{ok}
use modular_indexer_committe.Bytes.{Bytes}
use modular_indexer_committe.Bytes.Text.{
  split, IsDigit, all_digits, all_digits_lem, is_ascii_digit, decimal_value,
}
use modular_indexer_committe.KeyMap.{KeyMap, lookup, insert, lookup-insert}
use modular_indexer_committe.Packages.{
  word_mod, Uint256, Uint256Laws, Verkle, VerkleLaws, Codec, CodecLaws,
}

-- The last `k` bytes of a number, the highest first, in front of `acc`.
unfoldable pub to_be : ℕ → ℕ → Bytes → Bytes
to_be zero n acc = acc
to_be (suc k) n acc = to_be k (n / 256) (n % 256 ∷ acc)

unfoldable pub from_be : ℕ → Bytes → ℕ
from_be acc [] = acc
from_be acc (b ∷ rest) = from_be (acc * 256 + b) rest

from_be-to_be : (k n : ℕ) (acc : Bytes) → n < 256 ^ k → from_be 0 (to_be k n acc) ≡ from_be n acc
unfolding to_be from_be
from_be-to_be zero n acc h = ap (λ m. from_be m acc) (omega arith)
from_be-to_be (suc k) n acc h =
    from_be-to_be k (n / 256) (n % 256 ∷ acc) (omega (arith, pow-suc 256 k))
    ∙ ap (λ m. from_be m acc) (omega arith)

length-to_be : (k n : ℕ) (acc : Bytes) → length (to_be k n acc) ≡ k + length acc
unfolding to_be
length-to_be zero n acc = omega arith
length-to_be (suc k) n acc = omega (arith, length-to_be k (n / 256) (n % 256 ∷ acc))

unfoldable pub print : ℕ → ℕ → Bytes → Bytes
print zero n acc = acc
print (suc f) n acc =
    let more = print f (n / 10) ((n % 10 + 48) ∷ acc) in if ltb n 10 then (n + 48) ∷ acc else more

parse_word : Bytes → Option ℕ
parse_word [] = none
parse_word (c ∷ s) =
    if all_digits (c ∷ s) && ltb (decimal_value (c ∷ s)) word_mod
    then some (decimal_value (c ∷ s))
    else none

unfoldable pub sample_uint256 : Uint256
unfolding to_be from_be print parse_word all_digits decimal_value
sample_uint256 = record {
  add = λ a b. (a + b) % word_mod;
  sub = λ a b. (a + word_mod - b) % word_mod;
  mul = λ a b. (a * b) % word_mod;
  lsh = λ a n. (a * 2 ^ n) % word_mod;
  from_decimal = parse_word;
  dec = λ n. print 78 n [];
  write_to_array32 = λ n. to_be 32 n [];
  set_bytes = λ b. from_be 0 b % word_mod;
}

parse_word_lem :
    (s : Bytes)
    → s ≢ []
    → All IsDigit s
    → parse_word s ≡ (if ltb (decimal_value s) word_mod then some (decimal_value s) else none)
unfolding parse_word
parse_word_lem [] ne h = absurd (ne refl)
parse_word_lem (c ∷ s) ne h = rw (all_digits_lem (c ∷ s) h)

round_trip : (n : ℕ) → n < word_mod → from_be 0 (to_be 32 n []) % word_mod ≡ n
unfolding from_be
round_trip n h = rw (from_be-to_be 32 n [] h) (omega arith)

pub sample_uint256-laws : Uint256Laws sample_uint256
unfolding sample_uint256
sample_uint256-laws = record {
  add_lem = λ a b. refl;
  sub_lem = λ a b h. refl;
  mul_lem = λ a b. refl;
  lsh_lem = λ a n. refl;
  from_decimal_lem = parse_word_lem;
  length-write_to_array32 = λ n. length-to_be 32 n [] ∙ refl;
  set_bytes-write_to_array32 = round_trip;
  set_bytes-lt = λ b. omega arith;
  set_bytes-zeros = refl;
}

abbrev or_empty : Option Bytes → Bytes
or_empty none = []
or_empty (some v) = v

-- The commitment is what the tree holds at a key of zeros.
unfoldable pub sample_verkle : Verkle (KeyMap Bytes)
unfolding lookup insert
sample_verkle = record {
  new = [];
  get = λ n k. ok (or_empty (lookup k n));
  insert = λ n k v. insert k v n;
  insert_fails = λ n k v. false;
  commit = λ n. or_empty (lookup (replicate 32 0) n);
}

abbrev pub AnyTree : KeyMap Bytes → Type 0
AnyTree n = Unit

ok-injective : {a b : Bytes} → ok a ≡ ok b → a ≡ b
ok-injective e = cc

pub sample_verkle-laws : VerkleLaws sample_verkle AnyTree
unfolding sample_verkle
sample_verkle-laws = record {
  new-IsFull = tt;
  get-new = λ k. refl;
  insert-IsFull = λ n k v f hk hv. tt;
  get-insert = λ n k v j f hk hv. ground (arith, lookup-insert k j v n);
  commit-eq = λ a b fa fb same. ok-injective (same (replicate 32 0));
}

hash_of : ℕ → Bytes → ℕ
hash_of acc [] = acc
hash_of acc (b ∷ rest) = hash_of (acc * 257 + b + 1) rest

lower_byte : ℕ → ℕ
lower_byte b = if leb b'A' b && leb b b'Z' then b + 32 else b

abbrev pair_of : List Bytes → Bytes × Bytes
pair_of [] = ([], [])
pair_of (name ∷ []) = (name, [])
pair_of (name ∷ value ∷ rest) = (name, value)

unfoldable pub sample_codec : Codec
unfolding hash_of lower_byte to_be split is_ascii_digit
sample_codec = record {
  keccak256 = λ b. to_be 32 (hash_of 0 b) [];
  base58_decode = λ b. b;
  base58_encode = λ b. b;
  to_lower = map lower_byte;
  trim_space = λ b. b;
  runes = λ b. b;
  is_digit = is_ascii_digit;
  unmarshal_strings = λ b. map (λ part. pair_of (split b':' part)) (split b',' b);
}

pub sample_codec-laws : CodecLaws sample_codec
unfolding sample_codec
sample_codec-laws = record { length-keccak256 = λ b. length-to_be 32 (hash_of 0 b) [] ∙ refl }
