-- ===== src/Prelude/Outcome/Simulates.antt =====
-- Two runs of code that may panic, side by side: one rule for each way to build them.
use mathlib.Core.Path.{◌≡◌, ap, ◌∙◌}
use mathlib.Core.Bool.{Bool, true, false}
use modular_indexer_committe.Prelude.Tests.{if◌then◌else◌}
use modular_indexer_committe.Prelude.Outcome.{
  Reason, Outcome, done, panic, M, pure, fail, lift, after, ◌>>=◌, ◌>>◌, panic_if,
}
use modular_indexer_committe.Prelude.Outcome.Keeps.{after-eq-done}

-- Where `m` ends without a panic, so does `n` from a related state, with the same value.
pub record Simulates {ℓ} {S T A : Type ℓ} (R : S → T → Type ℓ) (m : M S A) (n : M T A)
    : Type ℓ where
  pub at :
      (s : S) (t : T) (a : A) (s' : S)
      → R s t
      → m s ≡ done (a, s')
      → (t' : T) × (n t ≡ done (a, t')) × R s' t'

pub done_eq {ℓ} :
    {S A : Type ℓ} {a b : A} {s s' : S}
    → ◌≡◌ {A = Outcome (A × S)} (done (a, s)) (done (b, s'))
    → (a ≡ b) × (s ≡ s')
done_eq e = (cc, cc)

module _ {ℓ} {S T A : Type ℓ} {R : S → T → Type ℓ} where
  pub Simulates-pure : (a : A) → Simulates R (pure a) (pure a)
  Simulates-pure a = record {
    at = λ s t b s' h e. let same = done_eq e in (t, ap (λ x. done (x, t)) same.0, rw (← same.1) h);
  }

  pub Simulates-fail : (r : Reason) (n : M T A) → Simulates R (fail {A = A} r) n
  Simulates-fail r n = record { at = λ s t b s' h e. absurd (cc) }

  pub Simulates-lift : (o : Outcome A) → Simulates R (lift o) (lift o)
  Simulates-lift (done a) = Simulates-pure a
  Simulates-lift (panic r) = Simulates-fail r (lift (panic r))

  pub Simulates-if :
      (b : Bool) (m m' : M S A) (n n' : M T A)
      → Simulates R m n
      → Simulates R m' n'
      → Simulates R (if b then m else m') (if b then n else n')
  Simulates-if true m m' n n' h h' = h
  Simulates-if false m m' n n' h h' = h'

module _ {ℓ} {S T A B : Type ℓ} {R : S → T → Type ℓ} where
  pub Simulates-bind :
      (m : M S A) (n : M T A) (f : A → M S B) (g : A → M T B)
      → Simulates R m n
      → ((a : A) → Simulates R (f a) (g a))
      → Simulates R (m >>= f) (n >>= g)
  Simulates-bind m n f g h k = record {
    at = λ s t b s' r e.
        let parts = after-eq-done (m s) f e in
        let first = h.at s t parts.0 parts.1 r parts.2 in
        let second = (k parts.0).at parts.1 first.0 b s' first.2 parts.3 in
        (second.0, ap (λ o. after o g) first.1 ∙ second.1, second.2);
  }

module _ {S T : Type 0} {R : S → T → Type 0} where
  pub Simulates-panic_if : (b : Bool) (r : Reason) → Simulates R (panic_if b r) (panic_if b r)
  Simulates-panic_if true r = record { at = λ s t b s' h e. absurd (cc) }
  Simulates-panic_if false r = record {
    at = λ s t b s' h e. let same = done_eq e in (t, ap (λ x. done (x, t)) same.0, rw (← same.1) h);
  }

  pub Simulates-then :
      {B : Type 0} (m : M S (Unit {0})) (n : M T (Unit {0})) (m' : M S B) (n' : M T B)
      → Simulates R m n
      → Simulates R m' n'
      → Simulates R (m >> m') (n >> n')
  Simulates-then m n m' n' h h' = Simulates-bind m n (λ _. m') (λ _. n') h (λ _. h')

pub ruleset simulates_rules = (
  Simulates-pure, Simulates-fail, Simulates-lift, Simulates-if, Simulates-panic_if, Simulates-then,
  Simulates-bind,
)
