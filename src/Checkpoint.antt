-- ===== src/Checkpoint.antt =====
-- checkpoint/types.go and the part of checkpoint/reporter.go that computes.
pub mod Upload
use modular_indexer_committe.Prelude.{
  ℕ, ◌+◌, ◌-◌, ◌*◌, ◌^◌, Bool, true, false, ◌&&◌, Option, none, some, List, [], ◌∷◌, ◌++◌, ltb, leb,
  ◌==◌, if◌then◌else◌,
}
use modular_indexer_committe.Bytes.{Bytes}
use modular_indexer_committe.Bytes.Decimal.{format_uint}
use modular_indexer_committe.Bytes.Text.{parse_below}

pub record IndexerIdentification : Type 0 where
  pub url : Bytes
  pub name : Bytes
  pub version : Bytes
  pub meta_protocol : Bytes

pub record Checkpoint : Type 0 where
  pub commitment : Bytes
  pub hash : Bytes
  pub height : Bytes
  pub meta_protocol : Bytes
  pub name : Bytes
  pub url : Bytes
  pub version : Bytes

pub record UploadRecord : Type 0 where
  pub success : Bool

unfoldable pub new_checkpoint : IndexerIdentification → ℕ → Bytes → Bytes → Checkpoint
new_checkpoint index_id height hash commitment = record {
  url = index_id.url;
  name = index_id.name;
  version = index_id.version;
  meta_protocol = index_id.meta_protocol;
  height = format_uint height;
  hash = hash;
  commitment = commitment;
}

-- A hexadecimal digit of `strconv.ParseUint`.
abbrev pub digit_value : ℕ → Option ℕ
digit_value c =
    if leb b'0' c && leb c b'9'
    then some (c - b'0')
    else if leb b'a' c && leb c b'f'
    then some (c - b'a' + 10)
    else if leb b'A' c && leb c b'F'
    then some (c - b'A' + 10)
    else none

abbrev pub next_digit : Option ℕ → ℕ → Option ℕ
next_digit none acc = none
next_digit (some d) acc = some (acc * 16 + d)

abbrev pub hex_from : Option ℕ → Bytes → Option ℕ
hex_from none s = none
hex_from (some acc) [] = some acc
hex_from (some acc) (c ∷ s) = hex_from (next_digit (digit_value c) acc) s

abbrev pub below_word : Option ℕ → Option ℕ
below_word none = none
below_word (some n) = if ltb n (2 ^ 64) then some n else none

-- `strconv.ParseUint(s, 16, 64)`
unfoldable pub parse_hex : Bytes → Option ℕ
parse_hex [] = none
parse_hex (c ∷ s) = below_word (hex_from (some 0) (c ∷ s))

abbrev pub is_parsed : Option ℕ → Bool
is_parsed none = false
is_parsed (some n) = true

-- `strings.HasPrefix(nID, "0x")` chooses the base.
unfoldable pub is_valid_namespace_id : Bytes → Bool
unfolding parse_hex
is_valid_namespace_id (c ∷ d ∷ rest) =
    if c == b'0' && d == b'x'
    then is_parsed (parse_hex rest)
    else is_parsed (parse_below (2 ^ 64) (c ∷ d ∷ rest))
is_valid_namespace_id s = is_parsed (parse_below (2 ^ 64) s)
