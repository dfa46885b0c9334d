-- ===== src/Bytes/Hex.antt =====
-- `encoding/hex`: `DecodeString` and `EncodeToString`.
use modular_indexer_committe.Prelude.{
  ℕ, ◌+◌, ◌-◌, ◌*◌, ◌/◌, ◌%◌, ◌<◌, ◌≤◌, ◌≡◌, refl, ◌⊎◌, ◌&&◌, Option, none, some, [], ◌∷◌, arith,
  leb, if◌then◌else◌, All, length,
}
use modular_indexer_committe.Bytes.{Bytes}

unfoldable pub hex_value : ℕ → Option ℕ
hex_value c =
    if leb b'0' c && leb c b'9'
    then some (c - 48)
    else if leb b'a' c && leb c b'f'
    then some (c - 87)
    else if leb b'A' c && leb c b'F'
    then some (c - 55)
    else none

-- One byte in front of the rest, if all three parts are good.
abbrev join_byte : Option ℕ → Option ℕ → Option Bytes → Option Bytes
join_byte (some h) (some l) (some r) = some ((h * 16 + l) ∷ r)
join_byte _ _ _ = none

-- `none` is the error, for an odd length or a byte that is no hex digit.
unfoldable pub decode_string : Bytes → Option Bytes
unfolding hex_value
decode_string [] = some []
decode_string (x ∷ []) = none
decode_string (x ∷ y ∷ r) = join_byte (hex_value x) (hex_value y) (decode_string r)

unfoldable pub hex_digit : ℕ → ℕ
hex_digit n = if leb 10 n then n + 87 else n + 48

unfoldable pub encode_to_string : Bytes → Bytes
unfolding hex_digit
encode_to_string [] = []
encode_to_string (b ∷ r) = hex_digit (b / 16) ∷ hex_digit (b % 16) ∷ encode_to_string r

abbrev pub IsByte : ℕ → Type 0
IsByte b = b < 256

hex_value-hex_digit : (n : ℕ) → n < 16 → hex_value (hex_digit n) ≡ some n
unfolding hex_value hex_digit
hex_value-hex_digit n h = ground arith

join_byte-digits :
    (b : ℕ) (r : Bytes)
    → IsByte b
    → join_byte (some (b / 16)) (some (b % 16)) (some r) ≡ some (b ∷ r)
join_byte-digits b r h = ground arith

pub decode-encode : (b : Bytes) → All IsByte b → decode_string (encode_to_string b) ≡ some b
unfolding decode_string encode_to_string
decode-encode [] h = refl
decode-encode (b ∷ r) h =
    rw
      (
        hex_value-hex_digit (b / 16) (omega arith),
        hex_value-hex_digit (b % 16) (omega arith),
        decode-encode r h.1,
      )
      (join_byte-digits b r h.0)

-- The lower-case hex digits, which `EncodeToString` writes.
abbrev pub IsLowerHex : ℕ → Type 0
IsLowerHex c = ((48 ≤ c) × (c ≤ 57)) ⊎ ((97 ≤ c) × (c ≤ 102))

pub length-encode : (b : Bytes) → length (encode_to_string b) ≡ 2 * length b
unfolding encode_to_string
length-encode [] = omega arith
length-encode (b ∷ r) = omega (arith, length-encode r)
