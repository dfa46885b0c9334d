-- ===== src/Prelude/Outcome/Keeps.antt =====
-- Invariants of code that may panic, one rule for each way to build it.
use mathlib.Core.Path.{◌≡◌, refl}
use mathlib.Core.Bool.{Bool, true, false}
use native.Mathlib.Omega.{arith}
use modular_indexer_committe.Prelude.Tests.{if◌then◌else◌}
use modular_indexer_committe.Prelude.Outcome.{
  Reason, Outcome, done, panic, M, pure, fail, lift, after, ◌>>=◌, ◌>>◌, panic_if,
}

-- A run of `m` that ends without a panic keeps `P`.
pub record Keeps {ℓ} {S A : Type ℓ} (P : S → Type ℓ) (m : M S A) : Type ℓ where
  pub at : (s : S) (a : A) (s' : S) → P s → m s ≡ done (a, s') → P s'

pub after-eq-done {ℓ} :
    {S A B : Type ℓ} (o : Outcome (A × S)) (f : A → M S B) {b : B} {s : S}
    → after o f ≡ done (b, s)
    → (a : A) × (s' : S) × (o ≡ done (a, s')) × (f a s' ≡ done (b, s))
after-eq-done (done (a, s')) f e = (a, s', refl, e)
after-eq-done (panic r) f e = cc

module _ {ℓ} {S A : Type ℓ} {P : S → Type ℓ} where
  pub Keeps-pure : (a : A) → Keeps P (pure a)
  Keeps-pure a = record { at = λ s b s' h e. ground arith }

  pub Keeps-fail : (r : Reason) → Keeps P (fail {A = A} r)
  Keeps-fail r = record { at = λ s b s' h e. cc }

  pub Keeps-lift : (o : Outcome A) → Keeps P (lift o)
  Keeps-lift (done a) = record { at = λ s b s' h e. ground arith }
  Keeps-lift (panic r) = record { at = λ s b s' h e. cc }

  pub Keeps-if : (b : Bool) (m n : M S A) → Keeps P m → Keeps P n → Keeps P (if b then m else n)
  Keeps-if true m n km kn = km
  Keeps-if false m n km kn = kn

module _ {ℓ} {S A B : Type ℓ} {P : S → Type ℓ} where
  pub Keeps-bind :
      (m : M S A) (f : A → M S B) → Keeps P m → ((a : A) → Keeps P (f a)) → Keeps P (m >>= f)
  Keeps-bind m f km kf = record {
    at = λ s b s' h e.
        let parts = after-eq-done (m s) f e in
        (kf parts.0).at parts.1 b s' (km.at s parts.0 parts.1 h parts.2) parts.3;
  }

module _ {S : Type 0} {P : S → Type 0} where
  pub Keeps-panic_if : (b : Bool) (r : Reason) → Keeps P (panic_if b r)
  Keeps-panic_if true r = record { at = λ s a s' h e. cc }
  Keeps-panic_if false r = record { at = λ s a s' h e. ground arith }

  -- A `do` block whose first step returns nothing.
  pub Keeps-then :
      {B : Type 0} (m : M S (Unit {0})) (n : M S B) → Keeps P m → Keeps P n → Keeps P (m >> n)
  Keeps-then m n km kn = Keeps-bind m (λ _. n) km (λ _. kn)

pub ruleset keeps_rules =
    (Keeps-pure, Keeps-fail, Keeps-lift, Keeps-if, Keeps-panic_if, Keeps-then, Keeps-bind)
