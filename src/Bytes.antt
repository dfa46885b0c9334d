-- ===== src/Bytes.antt =====
-- Go's `string` and `[]byte`: a list of bytes. `bytes.Equal`, and `==` on strings.
pub mod Hex
pub mod Text
pub mod Decimal
pub mod Atoi
use Prim.Native.Char.{code}
use Prim.Native.String
use modular_indexer_committe.Prelude.{
  ℕ, String, ◌≡◌, refl, subst, ◌≢◌, ◌↔◌, Bool, true, false, ◌&&◌, List, [], ◌∷◌, arith, ◌==◌,
  ==_iff, if◌then◌else◌,
}

abbrev pub Bytes : Type 0
Bytes = List ℕ

-- The bytes of an ASCII literal.
abbrev pub codes : String → Bytes
codes String.[] = []
codes (String.◌∷◌ c s) = code c ∷ codes s

unfoldable pub bytes_equal : Bytes → Bytes → Bool
bytes_equal [] [] = true
bytes_equal [] (y ∷ ys) = false
bytes_equal (x ∷ xs) [] = false
bytes_equal (x ∷ xs) (y ∷ ys) = (x == y) && bytes_equal xs ys

pub bytes_equal_refl : (a : Bytes) → bytes_equal a a ≡ true
unfolding bytes_equal
bytes_equal_refl [] = refl
bytes_equal_refl (x ∷ xs) = ground (arith, bytes_equal_refl xs)

pub eq_of_bytes_equal : (a b : Bytes) → bytes_equal a b ≡ true → a ≡ b
unfolding bytes_equal
eq_of_bytes_equal [] [] h = refl
eq_of_bytes_equal [] (y ∷ ys) h = cc
eq_of_bytes_equal (x ∷ xs) [] h = cc
eq_of_bytes_equal (x ∷ xs) (y ∷ ys) h = ground (arith, eq_of_bytes_equal xs ys)

pub bytes_equal_iff : (a b : Bytes) → (bytes_equal a b ≡ true) ↔ (a ≡ b)
bytes_equal_iff a b =
    (eq_of_bytes_equal a b, λ e. subst (λ c. bytes_equal a c ≡ true) e (bytes_equal_refl a))

pub bytes_equal_ne : (a b : Bytes) → a ≢ b → bytes_equal a b ≡ false
bytes_equal_ne a b h = ground (arith, bytes_equal_iff a b)
