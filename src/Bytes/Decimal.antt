-- ===== src/Bytes/Decimal.antt =====
-- `%d` of the `fmt` package, on a `uint`: at most 20 digits.
use modular_indexer_committe.Prelude.{
  ℕ, zero, suc, ◌+◌, ◌/◌, ◌%◌, ◌^◌, ◌<◌, ◌≡◌, ◌≢◌, refl, ◌∙◌, ap, some, [], ◌∷◌, arith, All, length,
  ltb, if◌then◌else◌, Bool-cases, inl, inr,
}
use native.Mathlib.Nat.{pow-suc}
use modular_indexer_committe.Bytes.{Bytes}
use modular_indexer_committe.Bytes.Text.{
  IsDigit, value_from, decimal_value, all_digits_lem, parse_below,
}

-- The digits of a number in front of `acc`, at most as many as the first argument says.
unfoldable pub print : ℕ → ℕ → Bytes → Bytes
print zero n acc = acc
print (suc places) n acc =
    let more = print places (n / 10) ((n % 10 + 48) ∷ acc) in
    if ltb n 10 then (n + 48) ∷ acc else more

unfoldable pub format_uint : ℕ → Bytes
unfolding print
format_uint n = print 20 n []

pub value_from-print :
    (places n : ℕ) (acc : Bytes)
    → n < 10 ^ places
    → value_from 0 (print places n acc) ≡ value_from n acc
unfolding print value_from
value_from-print zero n acc h = ap (λ m. value_from m acc) (omega arith)
value_from-print (suc places) n acc h = elim (Bool-cases (ltb n 10)) [
  | inl small ↦ rw small (ap (λ m. value_from m acc) (omega arith))
  | inr large ↦ rw large (
      value_from-print places (n / 10) ((n % 10 + 48) ∷ acc) (omega (arith, pow-suc 10 places))
      ∙ ap (λ m. value_from m acc) (omega arith))
]

pub print-IsDigit :
    (places n : ℕ) (acc : Bytes) → All IsDigit acc → All IsDigit (print places n acc)
unfolding print
print-IsDigit zero n acc h = h
print-IsDigit (suc places) n acc h = elim (Bool-cases (ltb n 10)) [
  | inl small ↦ rw small ((omega arith, ground arith), h)
  | inr large ↦
      rw large (print-IsDigit places (n / 10) ((n % 10 + 48) ∷ acc) ((omega arith, omega arith), h))
]

pub print-length : (places n : ℕ) (acc : Bytes) → length acc ≢ 0 → length (print places n acc) ≢ 0
unfolding print
print-length zero n acc h = h
print-length (suc places) n acc h = elim (Bool-cases (ltb n 10)) [
  | inl small ↦ rw small (omega arith)
  | inr large ↦ rw large (print-length places (n / 10) ((n % 10 + 48) ∷ acc) (omega arith))
]

pub format_uint-IsDigit : (n : ℕ) → All IsDigit (format_uint n)
unfolding format_uint
format_uint-IsDigit n = print-IsDigit 20 n [] tt

pub decimal_value-format_uint : (n : ℕ) → n < 2 ^ 64 → decimal_value (format_uint n) ≡ n
unfolding format_uint decimal_value
decimal_value-format_uint n h = value_from-print 20 n [] (omega arith)

format_uint-length : (n : ℕ) → length (format_uint n) ≢ 0
unfolding format_uint print
format_uint-length n = elim (Bool-cases (ltb n 10)) [
  | inl small ↦ rw small (omega arith)
  | inr large ↦ rw large (print-length 19 (n / 10) ((n % 10 + 48) ∷ []) (omega arith))
]

parse_below-digits :
    (s : Bytes) (top : ℕ)
    → length s ≢ 0
    → All IsDigit s
    → decimal_value s < top
    → parse_below top s ≡ some (decimal_value s)
unfolding parse_below
parse_below-digits [] top ne h lt = absurd (ne refl)
parse_below-digits (c ∷ s) top ne h lt = ground (arith, all_digits_lem (c ∷ s) h)

-- What is printed is read back.
pub parse_below-format_uint :
    (n top : ℕ) → n < 2 ^ 64 → n < top → parse_below top (format_uint n) ≡ some n
parse_below-format_uint n top small lt =
    let value = decimal_value-format_uint n small in
    parse_below-digits (format_uint n) top (format_uint-length n) (format_uint-IsDigit n)
      (rw value lt)
    ∙ ap some value
