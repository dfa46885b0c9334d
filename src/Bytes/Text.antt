-- ===== src/Bytes/Text.antt =====
-- The parts of `strings` and `strconv` that the program calls on text, byte by byte.
use modular_indexer_committe.Prelude.{
  ℕ, zero, suc, ◌+◌, ◌-◌, ◌*◌, ◌^◌, ◌≤◌, ◌≡◌, refl, ◌∙◌, ap, sym, ◌≢◌, Bool, true, false, ◌&&◌,
  ◌||◌, Option, none, some, List, [], ◌∷◌, ◌++◌, arith, ltb, leb, ◌==◌, if◌then◌else◌, All, length,
  replicate,
}
use modular_indexer_committe.Bytes.{Bytes}
use native.Mathlib.Nat.{pow-suc}

-- `ch` in front of the first part.
abbrev cons_head : ℕ → List Bytes → List Bytes
cons_head ch [] = (ch ∷ []) ∷ []
cons_head ch (part ∷ parts) = (ch ∷ part) ∷ parts

-- `strings.Split` at one byte
unfoldable pub split : ℕ → Bytes → List Bytes
split sep [] = [] ∷ []
split sep (ch ∷ rest) =
    let parts = split sep rest in if ch == sep then [] ∷ parts else cons_head ch parts

-- `strings.Contains` of one byte
unfoldable pub contains_byte : ℕ → Bytes → Bool
contains_byte sep [] = false
contains_byte sep (ch ∷ rest) = ch == sep || contains_byte sep rest

unfoldable pub is_ascii_digit : ℕ → Bool
is_ascii_digit c = leb b'0' c && leb c b'9'

-- The number that a text of decimal digits stands for, after the digits in `acc`.
unfoldable pub value_from : ℕ → Bytes → ℕ
value_from acc [] = acc
value_from acc (c ∷ rest) = value_from (acc * 10 + (c - 48)) rest

unfoldable pub decimal_value : Bytes → ℕ
unfolding value_from
decimal_value s = value_from 0 s

unfoldable pub all_digits : Bytes → Bool
unfolding is_ascii_digit
all_digits [] = true
all_digits (c ∷ rest) = is_ascii_digit c && all_digits rest

-- `strconv.ParseUint(s, 10, 64)`; with `top` the first value out of range.
unfoldable pub parse_below : ℕ → Bytes → Option ℕ
unfolding all_digits decimal_value
parse_below top [] = none
parse_below top (c ∷ rest) =
    let value = decimal_value (c ∷ rest) in
    if all_digits (c ∷ rest) && ltb value top then some value else none

abbrev pub IsDigit : ℕ → Type 0
IsDigit c = (48 ≤ c) × (c ≤ 57)

pub all_digits_lem : (s : Bytes) → All IsDigit s → all_digits s ≡ true
unfolding all_digits
all_digits_lem [] h = refl
all_digits_lem (c ∷ s) h = ground (arith, all_digits_lem s h.1)

pub value_from-append :
    (acc : ℕ) (a b : Bytes) → value_from acc (a ++ b) ≡ value_from (value_from acc a) b
unfolding value_from
value_from-append acc [] b = refl
value_from-append acc (c ∷ a) b = value_from-append (acc * 10 + (c - 48)) a b

-- One more digit `d` in front of `p` places.
shift_digit : (acc d p q x : ℕ) → q ≡ p * 10 → (acc * 10 + d) * p + x ≡ acc * q + ((0 + d) * p + x)
shift_digit acc d p q x e = rw e (omega arith)

pub value_from_lem :
    (acc : ℕ) (s : Bytes) → value_from acc s ≡ acc * 10 ^ length s + decimal_value s
unfolding value_from decimal_value
value_from_lem acc [] = omega arith
value_from_lem acc (c ∷ s) =
    value_from_lem (acc * 10 + (c - 48)) s
    ∙ shift_digit acc (c - 48) (10 ^ length s) (10 ^ suc (length s)) (decimal_value s)
        (pow-suc 10 (length s))
    ∙ ap (λ t. acc * 10 ^ suc (length s) + t) (sym (value_from_lem (0 + (c - 48)) s))

pub value_from-zeros : (n acc : ℕ) → value_from acc (replicate n b'0') ≡ acc * 10 ^ n
unfolding value_from
value_from-zeros zero acc = omega arith
value_from-zeros (suc n) acc =
    value_from-zeros n (acc * 10 + (b'0' - 48))
    ∙ omega (arith, ap (λ (t : ℕ). acc * t) (pow-suc 10 n))

pub split-no_sep : (sep : ℕ) (s : Bytes) → All (λ c. c ≢ sep) s → split sep s ≡ s ∷ []
unfolding split
split-no_sep sep [] h = refl
split-no_sep sep (c ∷ s) h = ground (arith, split-no_sep sep s h.1)

pub split-append :
    (sep : ℕ) (a b : Bytes) → All (λ c. c ≢ sep) a → split sep (a ++ sep ∷ b) ≡ a ∷ split sep b
unfolding split
split-append sep [] b h = ground arith
split-append sep (c ∷ a) b h = ground (arith, split-append sep a b h.1)

pub contains_byte-append : (sep : ℕ) (a b : Bytes) → contains_byte sep (a ++ sep ∷ b) ≡ true
unfolding contains_byte
contains_byte-append sep [] b = ground arith
contains_byte-append sep (c ∷ a) b = ground (arith, contains_byte-append sep a b)

pub contains_byte-no_sep :
    (sep : ℕ) (a : Bytes) → All (λ c. c ≢ sep) a → contains_byte sep a ≡ false
unfolding contains_byte
contains_byte-no_sep sep [] h = refl
contains_byte-no_sep sep (c ∷ a) h = ground (arith, contains_byte-no_sep sep a h.1)
