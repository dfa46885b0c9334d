-- ===== src/Queue/History.antt =====
-- The array of differences: `copy(queue.History[:], queue.History[1:])` and a write of one entry.
use modular_indexer_committe.Prelude.{
  ℕ, zero, suc, ◌<◌, ◌≤◌, ◌≡◌, ◌≢◌, refl, ap, none, some, List, [], ◌∷◌, arith, length, get_elem?,
  set,
}
use modular_indexer_committe.Queue.{DiffState, shift_in}

pub length-shift_in : (new : DiffState) (ds : List DiffState) → length (shift_in new ds) ≡ length ds
unfolding shift_in
length-shift_in new [] = refl
length-shift_in new (d ∷ []) = refl
length-shift_in new (d ∷ e ∷ rest) = ap suc (length-shift_in new (e ∷ rest))

pub get_elem?-shift_in :
    (new : DiffState) (ds : List DiffState) (i : ℕ)
    → suc i < length ds
    → get_elem? (shift_in new ds) i ≡ get_elem? ds (suc i)
unfolding shift_in
get_elem?-shift_in new [] i h = absurd (omega arith)
get_elem?-shift_in new (d ∷ []) i h = absurd (omega arith)
get_elem?-shift_in new (d ∷ e ∷ rest) zero h = refl
get_elem?-shift_in new (d ∷ e ∷ rest) (suc i) h = get_elem?-shift_in new (e ∷ rest) i (omega arith)

pub get_elem?-shift_in_last :
    (new : DiffState) (ds : List DiffState) (n : ℕ)
    → length ds ≡ suc n
    → get_elem? (shift_in new ds) n ≡ some new
unfolding shift_in
get_elem?-shift_in_last new [] n h = absurd (omega arith)
get_elem?-shift_in_last new (d ∷ []) zero h = refl
get_elem?-shift_in_last new (d ∷ []) (suc n) h = absurd (omega arith)
get_elem?-shift_in_last new (d ∷ e ∷ rest) zero h = absurd (omega arith)
get_elem?-shift_in_last new (d ∷ e ∷ rest) (suc n) h =
    get_elem?-shift_in_last new (e ∷ rest) n (omega arith)

pub get_elem?-set_self :
    (xs : List DiffState) (i : ℕ) (v : DiffState)
    → i < length xs
    → get_elem? (set xs i v) i ≡ some v
get_elem?-set_self [] i v h = elim h [ ]
get_elem?-set_self (x ∷ xs) zero v h = refl
get_elem?-set_self (x ∷ xs) (suc i) v h = get_elem?-set_self xs i v (omega arith)

pub get_elem?-set_ne :
    (xs : List DiffState) (i j : ℕ) (v : DiffState)
    → i ≢ j
    → get_elem? (set xs i v) j ≡ get_elem? xs j
get_elem?-set_ne [] i j v h = refl
get_elem?-set_ne (x ∷ xs) zero zero v h = absurd (h refl)
get_elem?-set_ne (x ∷ xs) zero (suc j) v h = refl
get_elem?-set_ne (x ∷ xs) (suc i) zero v h = refl
get_elem?-set_ne (x ∷ xs) (suc i) (suc j) v h = get_elem?-set_ne xs i j v (λ e. h (ap suc e))

pub get_elem?-some :
    (xs : List DiffState) (i : ℕ) → i < length xs → (d : DiffState) × (get_elem? xs i ≡ some d)
get_elem?-some [] i h = elim h [ ]
get_elem?-some (x ∷ xs) zero h = (x, refl)
get_elem?-some (x ∷ xs) (suc i) h = get_elem?-some xs i (omega arith)

pub get_elem?-none : (xs : List DiffState) (i : ℕ) → length xs ≤ i → get_elem? xs i ≡ none
get_elem?-none [] i h = refl
get_elem?-none (x ∷ xs) zero h = absurd (omega arith)
get_elem?-none (x ∷ xs) (suc i) h = get_elem?-none xs i (omega arith)
