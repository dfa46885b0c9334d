-- ===== src/Prelude/Outcome.antt =====
-- How Go code ends: a value, an error that is returned, or a panic that stops the process.
pub mod Keeps
pub mod Simulates
use mathlib.Core.Path.{◌≡◌, refl, ap, ◌∙◌}
use mathlib.Core.Bool.{Bool, true, false}
use mathlib.Core.List.{List}
use Prim.Native.Nat.{ℕ}

-- `(value, err)`; the text of an error is its bytes.
pub data Result {ℓ} (A : Type ℓ) : Type ℓ where
  ok : A → Result A
  err : List ℕ → Result A

-- Why the code panics.
pub data Reason : Type 0 where
  key_size value_size too_long bad_hex bad_decimal out_of_range negative_repeat : Reason
  tree_error height_mismatch commitment_mismatch nil_pointer : Reason

pub data Outcome {ℓ} (A : Type ℓ) : Type ℓ where
  done : A → Outcome A
  panic : Reason → Outcome A

-- Code that reads and writes a state and may panic.
abbrev pub M {ℓ κ} : Type ℓ → Type κ → Type (ℓ ⊔ κ)
M S A = S → Outcome (A × S)

abbrev pub pure {ℓ κ} : {S : Type ℓ} {A : Type κ} → A → M S A
pure a s = done (a, s)

abbrev pub fail {ℓ κ} : {S : Type ℓ} {A : Type κ} → Reason → M S A
fail r s = panic r

-- Pure code that may panic, run in a state.
abbrev pub lift {ℓ κ} : {S : Type ℓ} {A : Type κ} → Outcome A → M S A
lift (done a) s = done (a, s)
lift (panic r) s = panic r

abbrev pub after {ℓ κ μ} :
    {S : Type ℓ} {A : Type κ} {B : Type μ} → Outcome (A × S) → (A → M S B) → Outcome (B × S)
after (done (a, s)) f = f a s
after (panic r) f = panic r

infixl 5 ◌>>=◌ ◌>>◌
abbrev pub ◌>>=◌ {ℓ κ μ} : {S : Type ℓ} {A : Type κ} {B : Type μ} → M S A → (A → M S B) → M S B
◌>>=◌ m f s = after (m s) f

abbrev pub ◌>>◌ {ℓ κ μ} : {S : Type ℓ} {A : Type κ} {B : Type μ} → M S A → M S B → M S B
m >> k = m >>= λ _. k

abbrev pub panic_if {ℓ} : {S : Type ℓ} → Bool → Reason → M S (Unit {0})
panic_if true r s = panic r
panic_if false r s = done (tt, s)

-- A run that does not panic, and what holds at its end.
pub record Ends {ℓ κ μ} {S : Type ℓ} {A : Type κ} (o : Outcome (A × S)) (Q : A → S → Type μ)
    : Type (ℓ ⊔ κ ⊔ μ) where
  pub value : A
  pub state : S
  pub eq : o ≡ done (value, state)
  pub holds : Q value state

module _ {ℓ κ μ} {S : Type ℓ} {A : Type κ} {Q : A → S → Type μ} where
  pub Ends-done : (a : A) (s : S) → Q a s → Ends (done (a, s)) Q
  Ends-done a s h = record { value = a; state = s; eq = refl; holds = h }

  -- A first step that ends, and a second one that ends from there.
  pub Ends-bind {ν ξ} :
      {B : Type ν} {R : B → S → Type ξ} (m : M S A) (f : A → M S B) (s : S)
      → Ends (m s) Q
      → ((a : A) (s' : S) → Q a s' → Ends (f a s') R)
      → Ends ((m >>= f) s) R
  Ends-bind m f s e k =
      let r = k e.value e.state e.holds in
      record {
        value = r.value;
        state = r.state;
        eq = ap (λ o. after o f) e.eq ∙ r.eq;
        holds = r.holds;
      }

  pub Ends-weaken {ξ} :
      {R : A → S → Type ξ} {o : Outcome (A × S)}
      → Ends o Q
      → ((a : A) (s' : S) → Q a s' → R a s')
      → Ends o R
  Ends-weaken e k = record {
    value = e.value;
    state = e.state;
    eq = e.eq;
    holds = k e.value e.state e.holds;
  }
