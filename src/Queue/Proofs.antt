-- ===== src/Queue/Proofs.antt =====
-- `generateProofFromUpdate` of ord/stateless/queue.go: what it hands to go-verkle and go-ipa, and what it
-- makes of the answers.
use modular_indexer_committe.Prelude.{
  Bool, true, false, Option, none, some, List, [], ◌∷◌, map, ltb, if◌then◌else◌,
}
use modular_indexer_committe.Prelude.Outcome.{Result, ok, err}
use modular_indexer_committe.Bytes.{Bytes, bytes_equal}
use modular_indexer_committe.KeyMap.{KeyMap, lookup, insert}
use modular_indexer_committe.Header.{Header, TripleElement, default_value}

-- What `GetCommitmentsForMultiproof` returns, with the keys as it leaves them, sorted.
pub record ProofElements : Type 0 where
  pub keys : List Bytes
  pub vals : List Bytes
  pub by_path : KeyMap Bytes
  pub ext_status : Bytes
  pub poa_stems : List Bytes

-- `verkle.GetCommitmentsForMultiproof`; `ipa.NewIPASettings` with `CreateMultiProof`.
pub record ProofTools (Node : Type 0) : Type 0 where
  pub get_commitments : Node → List Bytes → Result ProofElements
  pub create_multi_proof : ProofElements → Result Bytes

-- `verkle.Proof`
pub record Proof : Type 0 where
  pub multipoint : Bytes
  pub cs : List Bytes
  pub ext_status : Bytes
  pub poa_stems : List Bytes
  pub keys : List Bytes
  pub pre_values : List Bytes
  pub post_values : List (Option Bytes)

-- `kvMap[elem.Key] = elem.NewValue` for every element, the first one first
unfoldable pub new_values : List TripleElement → KeyMap Bytes → KeyMap Bytes
new_values [] m = m
new_values (elem ∷ rest) m = new_values rest (insert elem.key elem.new_value m)

abbrev or_zeros : Option Bytes → Bytes
or_zeros none = default_value
or_zeros (some v) = v

-- `postvals`: the new value where it differs from the one before, else `nil`
unfoldable pub post_values : KeyMap Bytes → List Bytes → List Bytes → List (Option Bytes)
unfolding default_value
post_values kv (key ∷ keys) (pre ∷ vals) =
    let val = or_zeros (lookup key kv) in
    (if bytes_equal pre val then none else some val) ∷ post_values kv keys vals
post_values kv _ _ = []

-- `a < b` on strings
unfoldable pub bytes_less : Bytes → Bytes → Bool
bytes_less [] [] = false
bytes_less [] (y ∷ b) = true
bytes_less (x ∷ a) [] = false
bytes_less (x ∷ a) (y ∷ b) = if ltb x y then true else if ltb y x then false else bytes_less a b

-- One path into a sorted list.
unfoldable pub insert_path : Bytes → List Bytes → List Bytes
insert_path path [] = path ∷ []
insert_path path (other ∷ rest) =
    if bytes_less other path then other ∷ insert_path path rest else path ∷ other ∷ rest

-- The paths of the map but the root's, sorted.
unfoldable pub sorted_paths : KeyMap Bytes → List Bytes
unfolding insert_path bytes_less
sorted_paths [] = []
sorted_paths (([], point) ∷ rest) = sorted_paths rest
sorted_paths ((b ∷ path, point) ∷ rest) = insert_path (b ∷ path) (sorted_paths rest)

module _ {Node : Type 0} (p : ProofTools Node) where
  abbrev proof_of : KeyMap Bytes → ProofElements → Result Bytes → Result (Option Proof)
  proof_of kv pe (err e) = err e
  proof_of kv pe (ok multipoint) = ok (
      some (record {
        multipoint = multipoint;
        cs = map (λ (path : Bytes). or_zeros (lookup path pe.by_path)) (sorted_paths pe.by_path);
        ext_status = pe.ext_status;
        poa_stems = pe.poa_stems;
        keys = pe.keys;
        pre_values = pe.vals;
        post_values = post_values kv pe.keys pe.vals;
      }))

  abbrev prove_elements : KeyMap Bytes → Result ProofElements → Result (Option Proof)
  prove_elements kv (err e) = err e
  prove_elements kv (ok pe) = proof_of kv pe (p.create_multi_proof pe)

  -- `ok none` is `nil, nil`.
  unfoldable pub generate_proof_from_update :
      Header Node → List TripleElement → Result (Option Proof)
  unfolding new_values post_values sorted_paths
  generate_proof_from_update header [] = ok none
  generate_proof_from_update header (elem ∷ rest) =
      prove_elements (new_values (elem ∷ rest) [])
        (p.get_commitments header.root (map (λ (e : TripleElement). e.key) (elem ∷ rest)))
