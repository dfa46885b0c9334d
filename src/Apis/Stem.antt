-- ===== src/Apis/Stem.antt =====
-- A proof for suffixes of one stem: what go-verkle promises, and what `ParseStateDiff` makes of two of them.
use modular_indexer_committe.Prelude.{
  ℕ, zero, suc, ◌≡◌, refl, ap, none, some, List, [], ◌∷◌, ◌++◌, map, arith, All, length, get_elem?,
  take,
}
use modular_indexer_committe.Prelude.Outcome.{ok, done}
use modular_indexer_committe.Bytes.{Bytes, bytes_equal_refl}
use modular_indexer_committe.Packages.{Verkle}
use modular_indexer_committe.Queue.{Proof}
use modular_indexer_committe.Apis.{SuffixStateDiff, StemStateDiff, ProofPackage}
use modular_indexer_committe.Apis.Diff.{add_suffix, parse_state_diff}

module _ {Node V : Type 0} (t : Verkle Node) (IsFull : Node → Type 0)
    (pk : ProofPackage Node V) where
  -- A suffix of a stem, with the value that the tree holds there.
  pub record Shows (root : Node) (stem : Bytes) (d : SuffixStateDiff) : Type 0 where
    pub value : Bytes
    pub current : d.current_value ≡ some value
    pub no_new : d.new_value ≡ none
    pub in_tree : t.get root (stem ++ d.suffix ∷ []) ≡ ok value

  -- A proof for suffixes of one stem is accepted with the values of the tree.
  pub record IsComplete : Type 0 where
    pub accepts :
        (root : Node) (stem : Bytes) (shown : List SuffixStateDiff) (proof : Proof) (v : V)
        (ds : List StemStateDiff)
        → IsFull root
        → length stem ≡ 31
        → All (Shows root stem) shown
        → pk.make_verkle_multi_proof root
            (map (λ (d : SuffixStateDiff). stem ++ d.suffix ∷ []) shown)
          ≡ ok proof
        → pk.serialize_proof proof ≡ ok (v, ds)
        → (proof' : Proof) × (pk.deserialize_proof v
              (record { stem = stem; suffix_diffs = shown } ∷ [])
            ≡ ok proof')
          × ((pre : Node) × (pk.pre_state_tree_from_proof proof' (t.commit root) ≡ ok pre)
              × (pk.verify_with_pre_state proof' pre ≡ none))

at-stem :
    (n : ℕ) (stem : Bytes) (x : ℕ)
    → length stem ≡ n
    → (take n (stem ++ x ∷ []) ≡ stem) × (get_elem? (stem ++ x ∷ []) n ≡ some x)
at-stem zero [] x h = (refl, refl)
at-stem zero (y ∷ stem) x h = absurd (omega (arith, h))
at-stem (suc n) [] x h = absurd (omega (arith, h))
at-stem (suc n) (y ∷ stem) x h =
    let r = at-stem n stem x (omega (arith, h)) in (ap (λ s. y ∷ s) r.0, r.1)

append-no_zeros : (w : Bytes) → w ++ [] ≡ w
append-no_zeros [] = refl
append-no_zeros (x ∷ w) = ap (λ s. x ∷ s) (append-no_zeros w)

-- Two suffixes of a stem, each with a word and with no new value.
pub parse_state_diff-two :
    (stem a b : Bytes)
    → length stem ≡ 31
    → length a ≡ 32
    → length b ≡ 32
    → parse_state_diff ((stem ++ 0 ∷ []) ∷ (stem ++ 1 ∷ []) ∷ []) (a ∷ b ∷ []) ([] ∷ [] ∷ []) []
      ≡ done (
          record {
            stem = stem;
            suffix_diffs =
                record { suffix = 0; current_value = some a; new_value = none }
                ∷ record { suffix = 1; current_value = some b; new_value = none }
                ∷ [];
          }
          ∷ [])
unfolding parse_state_diff add_suffix
parse_state_diff-two stem a b s la lb =
    let zeroth = at-stem 31 stem 0 s in
    let first = at-stem 31 stem 1 s in
    rw
      (
        zeroth.0,
        zeroth.1,
        first.0,
        first.1,
        la,
        lb,
        append-no_zeros a,
        append-no_zeros b,
        bytes_equal_refl stem,
      )
      refl
