-- ===== src/Numbers/Extended.antt =====
-- What `getNumberExtendedTo18Decimals` of ord/stateless/utils.go computes.
use modular_indexer_committe.Prelude.{
  ℕ, zero, suc, ◌+◌, ◌-◌, ◌*◌, ◌%◌, ◌^◌, ◌≤◌, ◌≡◌, ◌≢◌, refl, ap, ◌∙◌, [], ◌∷◌, ◌++◌, arith, All,
  length, replicate, ltb, ◌==◌, if◌then◌else◌, true, false, Bool-cases, inl, inr, Option, some,
  none,
}
use modular_indexer_committe.Prelude.Outcome.{Result, ok, err, done}
use modular_indexer_committe.Bytes.{Bytes}
use modular_indexer_committe.Bytes.Text.{
  IsDigit, value_from, decimal_value, value_from-append, value_from-zeros, value_from_lem,
  split-no_sep, split-append, contains_byte-append, contains_byte-no_sep,
}
use modular_indexer_committe.Packages.{Uint256, Uint256Laws, Codec, word_mod}
use modular_indexer_committe.Numbers.{
  get_number_extended_to_18_decimals, extend_parts, repeat_zeros, or_overflow, overflow,
}

-- A value, or the error where 256 bits do not hold it.
abbrev pub fits : ℕ → Result (Option ℕ)
fits v = if ltb v word_mod then ok (some v) else err overflow

All-append : (a b : Bytes) → All IsDigit a → All IsDigit b → All IsDigit (a ++ b)
All-append [] b h g = g
All-append (c ∷ a) b h g = (h.0, All-append a b h.1 g)

zeros-IsDigit : (n : ℕ) → All IsDigit (replicate n b'0')
zeros-IsDigit zero = tt
zeros-IsDigit (suc n) = ((omega arith, omega arith), zeros-IsDigit n)

digits-no_dot : (s : Bytes) → All IsDigit s → All (λ c. c ≢ b'.') s
digits-no_dot [] h = tt
digits-no_dot (c ∷ s) h = (ground (arith, h.0), digits-no_dot s h.1)

append-ne : (a b : Bytes) → a ≢ [] → a ++ b ≢ []
append-ne [] b h = absurd (h refl)
append-ne (c ∷ a) b h = λ e. cc

-- Digits with zeros behind them.
decimal_value-zeros :
    (s : Bytes) (n : ℕ) → decimal_value (s ++ replicate n b'0') ≡ decimal_value s * 10 ^ n
unfolding decimal_value
decimal_value-zeros s n =
    value_from-append 0 s (replicate n b'0') ∙ value_from-zeros n (value_from 0 s)

decimal_value-append :
    (a b : Bytes) → decimal_value (a ++ b) ≡ decimal_value a * 10 ^ length b + decimal_value b
unfolding decimal_value
decimal_value-append a b = value_from-append 0 a b ∙ value_from_lem (value_from 0 a) b

fits_if : (u : Uint256) (v : ℕ) → or_overflow u (if ltb v word_mod then some v else none) ≡ fits v
unfolding or_overflow
fits_if u v = elim (Bool-cases (ltb v word_mod)) [ inl t ↦ rw t refl | inr f ↦ rw f refl ]

module _ {u : Uint256} (laws : Uint256Laws u) where
  or_overflow-zeros :
      (s : Bytes) (n : ℕ)
      → s ≢ []
      → All IsDigit s
      → or_overflow u (u.from_decimal (s ++ replicate n b'0')) ≡ fits (decimal_value s * 10 ^ n)
  or_overflow-zeros s n ne h =
      ap (or_overflow u) (
        laws.from_decimal_lem (s ++ replicate n b'0') (append-ne s _ ne)
          (All-append s _ h (zeros-IsDigit n)))
      ∙ ap (λ (v : ℕ). or_overflow u (if ltb v word_mod then some v else none))
          (decimal_value-zeros s n)
      ∙ fits_if u (decimal_value s * 10 ^ n)

  repeat_zeros-lem : (k : ℕ) → k ≤ 18 → repeat_zeros (u.sub 18 k) ≡ done (replicate (18 - k) b'0')
  unfolding repeat_zeros
  repeat_zeros-lem k le =
      let count : u.sub 18 k % 2 ^ 64 ≡ 18 - k =
        ap (λ n. n % 2 ^ 64) (laws.sub_lem 18 k (omega arith)) ∙ omega arith in
      let small : ltb (18 - k) (2 ^ 63) ≡ true = ground arith in rw (count, small) refl

  -- getNumberExtendedTo18Decimals of a text of digits gives the number times 10^18, and an error
  -- where 256 bits do not hold it.
  pub extended_integer :
      (c : Codec) (a : Bytes) (decimals : ℕ)
      → All IsDigit a
      → a ≢ []
      → get_number_extended_to_18_decimals u c a decimals false
        ≡ done (fits (decimal_value a * 10 ^ 18))
  unfolding get_number_extended_to_18_decimals
  extended_integer c a decimals h ne =
      rw (contains_byte-no_sep b'.' a (digits-no_dot a h)) (ap done (or_overflow-zeros a 18 ne h))

  -- Each way in which the two parts of a number end.
  extend_parts_lem :
      (a b : Bytes) (decimals : ℕ)
      → All IsDigit a
      → a ≢ []
      → All IsDigit b
      → b ≢ []
      → decimals ≤ 18
      → extend_parts u decimals (a ∷ b ∷ [])
        ≡ done (
            if ltb decimals (length b)
            then ok none
            else fits ((decimal_value a * 10 ^ length b + decimal_value b) * 10 ^ (18 - length b)))
  unfolding extend_parts
  extend_parts_lem a [] decimals ha na hb nb le = absurd (nb refl)
  extend_parts_lem a (d ∷ b) decimals ha na hb nb le =
      elim (Bool-cases (ltb decimals (length (d ∷ b)))) [
        | inl t ↦ rw t refl
        | inr f ↦
            let short : length (d ∷ b) ≤ 18 = ground arith in
            let digits = All-append a (d ∷ b) ha hb in
            let some_digit : (length (d ∷ b) == 0) ≡ false = ground arith in
            rw (f, some_digit, repeat_zeros-lem (length (d ∷ b)) short)
              (ap done (
                or_overflow-zeros (a ++ d ∷ b) (18 - length (d ∷ b)) (append-ne a _ na) digits
                ∙ ap (λ (v : ℕ). fits (v * 10 ^ (18 - length (d ∷ b))))
                    (decimal_value-append a (d ∷ b))))
      ]

  -- getNumberExtendedTo18Decimals of digits, a dot and more digits, with at most 18 decimals
  -- allowed, gives nothing where there are more decimals than allowed, else the number times 10^18,
  -- and an error where 256 bits do not hold it; it never panics.
  pub extended_decimal :
      (c : Codec) (a b : Bytes) (decimals : ℕ)
      → All IsDigit a
      → a ≢ []
      → All IsDigit b
      → b ≢ []
      → decimals ≤ 18
      → get_number_extended_to_18_decimals u c (a ++ b'.' ∷ b) decimals false
        ≡ done (
            if ltb decimals (length b)
            then ok none
            else fits ((decimal_value a * 10 ^ length b + decimal_value b) * 10 ^ (18 - length b)))
  unfolding get_number_extended_to_18_decimals
  extended_decimal c a b decimals ha na hb nb le =
      let parts =
        split-append b'.' a b (digits-no_dot a ha)
        ∙ ap (λ t. a ∷ t) (split-no_sep b'.' b (digits-no_dot b hb)) in
      rw (contains_byte-append b'.' a b, parts) (extend_parts_lem a b decimals ha na hb nb le)
