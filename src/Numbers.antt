-- ===== src/Numbers.antt =====
-- ord/stateless/utils.go: the numbers in an inscription, and the limit that they may not pass.
pub mod Extended
use modular_indexer_committe.Prelude.{
  ℕ, zero, suc, ◌+◌, ◌-◌, ◌*◌, ◌%◌, ◌^◌, Bool, true, false, ◌&&◌, ◌||◌, not, Option, none, some,
  List, [], ◌∷◌, ◌++◌, ltb, leb, ◌==◌, if◌then◌else◌, length, replicate,
}
use modular_indexer_committe.Prelude.Outcome.{
  Result, ok, err, Outcome, done, panic, negative_repeat, out_of_range,
}
use modular_indexer_committe.Bytes.{Bytes}
use modular_indexer_committe.Bytes.Text.{split, contains_byte}
use modular_indexer_committe.Packages.{Uint256, Codec}

-- The first block height of the brc-20 protocol.
abbrev pub brc20_start_height : ℕ
brc20_start_height = 779832

-- `SelfMintEnableHeight`, at its initial value
abbrev pub self_mint_enable_height : ℕ
self_mint_enable_height = 837090

abbrev pub value_size : ℕ
value_size = 32

abbrev strip : Codec → Bool → Bytes → Bytes
strip c do_strip s = if do_strip then c.trim_space s else s

all_runes : (ℕ → Bool) → List ℕ → Bool
all_runes test [] = true
all_runes test (ch ∷ rest) = if not (test ch) then false else all_runes test rest

unfoldable pub is_positive_number : Codec → Bytes → Bool → Bool
unfolding all_runes
is_positive_number c s do_strip =
    let t = strip c do_strip s in if length t == 0 then false else all_runes c.is_digit (c.runes t)

-- The loop of `isPositiveNumberWithDot`.
unfoldable pub digits_and_dot : Bool → Bytes → Bool
digits_and_dot dot_found [] = true
digits_and_dot dot_found (ch ∷ rest) =
    let next = digits_and_dot dot_found rest in
    let next_after_dot = digits_and_dot true rest in
    if ltb ch b'0' || ltb b'9' ch
    then (if not (ch == b'.') || dot_found then false else next_after_dot)
    else next

-- `s[len(s)-1]`
unfoldable pub last_byte : ℕ → Bytes → ℕ
last_byte c [] = c
last_byte c (d ∷ rest) = last_byte d rest

-- The tests of the first and the last byte, then the loop.
unfoldable pub number_with_dot : Bytes → Bool
unfolding digits_and_dot last_byte
number_with_dot [] = false
number_with_dot (c ∷ rest) =
    if c == b'.' || last_byte c rest == b'.' then false else digits_and_dot false (c ∷ rest)

unfoldable pub is_positive_number_with_dot : Codec → Bytes → Bool → Bool
unfolding number_with_dot
is_positive_number_with_dot c s do_strip = number_with_dot (strip c do_strip s)

-- `strings.Repeat("0", int(n.Uint64()))`: an `int` from 2^63 on is negative.
unfoldable pub repeat_zeros : ℕ → Outcome Bytes
repeat_zeros n =
    let count = n % 2 ^ 64 in
    if ltb count (2 ^ 63) then done (replicate count b'0') else panic negative_repeat

abbrev pub overflow : Bytes
overflow =
    110 ∷ 117 ∷ 109 ∷ 98 ∷ 101 ∷ 114 ∷ 32 ∷ 111 ∷ 118 ∷ 101 ∷ 114 ∷ 102 ∷ 108 ∷ 111 ∷ 119 ∷ []

module _ (u : Uint256) where
  -- `none` is a returned error; its text starts with "number overflow".
  unfoldable pub or_overflow : Option ℕ → Result (Option ℕ)
  or_overflow none = err overflow
  or_overflow (some n) = ok (some n)

  abbrev append_zeros : Bytes → Outcome Bytes → Outcome (Result (Option ℕ))
  append_zeros s (done zeros) = done (or_overflow (u.from_decimal (s ++ zeros)))
  append_zeros s (panic r) = panic r

  -- `parts[0]` and `parts[1]`
  unfoldable pub extend_parts : ℕ → List Bytes → Outcome (Result (Option ℕ))
  unfolding or_overflow repeat_zeros
  extend_parts decimals (normal_part ∷ decimal_part ∷ _) =
      let decimal_length = length decimal_part in
      if ltb decimals decimal_length || decimal_length == 0
      then done (ok none)
      else append_zeros (normal_part ++ decimal_part) (repeat_zeros (u.sub 18 decimal_length))
  extend_parts decimals _ = panic out_of_range

  -- `ok none` is `nil, nil`: a text with too many decimals or with none.
  unfoldable pub get_number_extended_to_18_decimals :
      Codec → Bytes → ℕ → Bool → Outcome (Result (Option ℕ))
  unfolding extend_parts split contains_byte
  get_number_extended_to_18_decimals c s decimals do_strip =
      let t = strip c do_strip s in
      if contains_byte b'.' t
      then extend_parts decimals (split b'.' t)
      else done (or_overflow (u.from_decimal (t ++ replicate 18 b'0')))

  -- The loop of `getLimit`, with the rounds that are left.
  unfoldable pub ten18_loop : ℕ → ℕ → ℕ → ℕ
  ten18_loop zero i ten18 = ten18
  ten18_loop (suc rounds) i ten18 =
      ten18_loop rounds (i + 1) (if i == 0 then 10 else u.mul ten18 10)

  unfoldable pub get_limit : ℕ
  unfolding ten18_loop
  get_limit = u.mul (u.sub (u.lsh 1 64) 1) (ten18_loop 18 0 0)
