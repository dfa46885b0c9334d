-- ===== src/Bytes/Atoi.antt =====
-- `strconv.Atoi`, and the file names that a number stands in.
use modular_indexer_committe.Prelude.{
  ℕ, zero, suc, ◌+◌, ◌-◌, ◌^◌, ◌<◌, ◌≡◌, ◌≢◌, refl, ◌∙◌, ap, Bool, true, false, Option, none, some,
  [], ◌∷◌, ◌++◌, arith, All, length, ltb, ◌==◌, if◌then◌else◌, length-append,
}
use modular_indexer_committe.Bytes.{Bytes, bytes_equal, bytes_equal_refl, bytes_equal_ne}
use modular_indexer_committe.Bytes.Text.{IsDigit, parse_below}
use modular_indexer_committe.Bytes.Decimal.{
  format_uint, format_uint-IsDigit, parse_below-format_uint,
}

-- `negsuc n` stands for the number below zero by `n + 1`.
pub data ℤ : Type 0 where
  pos negsuc : ℕ → ℤ

unfoldable pub less : ℤ → ℤ → Bool
less (pos a) (pos b) = ltb a b
less (pos a) (negsuc b) = false
less (negsuc a) (pos b) = true
less (negsuc a) (negsuc b) = ltb b a

-- `int(w)` of a `uint`
unfoldable pub int_of_uint : ℕ → ℤ
int_of_uint w = if ltb w (2 ^ 63) then pos w else negsuc (2 ^ 64 - w - 1)

abbrev pub positive : Option ℕ → Option ℤ
positive none = none
positive (some n) = some (pos n)

abbrev pub negative : Option ℕ → Option ℤ
negative none = none
negative (some zero) = some (pos 0)
negative (some (suc n)) = some (negsuc n)

-- `strconv.Atoi`: a sign, and digits that 63 bits hold.
unfoldable pub atoi : Bytes → Option ℤ
unfolding parse_below
atoi [] = none
atoi (c ∷ s) =
    if c == b'-'
    then negative (parse_below (2 ^ 63 + 1) s)
    else if c == b'+'
    then positive (parse_below (2 ^ 63) s)
    else positive (parse_below (2 ^ 63) (c ∷ s))

abbrev pub push_byte : ℕ → Option Bytes → Option Bytes
push_byte c none = none
push_byte c (some s) = some (c ∷ s)

-- What stands before a suffix, where the text has it.
unfoldable pub trim_suffix : Bytes → Bytes → Option Bytes
trim_suffix suffix [] = if bytes_equal [] suffix then some [] else none
trim_suffix suffix (c ∷ s) =
    let rest = trim_suffix suffix s in
    if bytes_equal (c ∷ s) suffix then some [] else push_byte c rest

pub trim_suffix-append : (s suffix : Bytes) → trim_suffix suffix (s ++ suffix) ≡ some s
unfolding trim_suffix
trim_suffix-append [] [] = rw (bytes_equal_refl []) refl
trim_suffix-append [] (c ∷ suffix) = rw (bytes_equal_refl (c ∷ suffix)) refl
trim_suffix-append (c ∷ s) suffix =
    let longer : c ∷ s ++ suffix ≢ suffix =
      λ e. omega (arith, ap length e, length-append s suffix) in
    rw (bytes_equal_ne (c ∷ s ++ suffix) suffix longer, trim_suffix-append s suffix) refl

atoi-digits : (s : Bytes) → All IsDigit s → atoi s ≡ positive (parse_below (2 ^ 63) s)
unfolding atoi
atoi-digits [] h = refl
atoi-digits (c ∷ s) h = ground (arith, h.0)

pub atoi-format_uint : (n : ℕ) → n < 2 ^ 63 → atoi (format_uint n) ≡ some (pos n)
atoi-format_uint n lt =
    atoi-digits (format_uint n) (format_uint-IsDigit n)
    ∙ ap positive (parse_below-format_uint n (2 ^ 63) (omega arith) lt)
