-- ===== src/Tests/Sats.antt =====
-- Satpoints and state differences at concrete texts and keys.
use modular_indexer_committe.Prelude.{
  ℕ, zero, suc, ◌≢◌, ◌≡◌, ◌++◌, refl, none, some, List, [], ◌∷◌, arith, All, replicate,
}
use modular_indexer_committe.Prelude.Outcome.{done}
use modular_indexer_committe.Bytes.{Bytes, codes}
use modular_indexer_committe.Bytes.Text.{split, parse_below}
use modular_indexer_committe.Sat.{
  SatPoint, encode_sat_point, decode_out_point, decode_sat_point, decode_sat_point-encode_sat_point,
}
use modular_indexer_committe.Apis.{StemStateDiff}
use modular_indexer_committe.Apis.Diff.{parse_state_diff, entries, given, parse_state_diff_lem}

abbrev somewhere : SatPoint
somewhere = record { out_point = record { tx_id = replicate 32 b'a'; offset = 0 }; offset = 6 }

plain_replicate : (n : ℕ) → All {A = ℕ} (λ c. c ≢ b':') (replicate n b'a')
plain_replicate zero = tt
plain_replicate (suc n) = (omega arith, plain_replicate n)

plain_tx_id : All {A = ℕ} (λ c. c ≢ b':') somewhere.out_point.tx_id
plain_tx_id = plain_replicate 32

decode_sat_point-encode_sat_point_example :
    decode_sat_point (encode_sat_point somewhere) ≡ some somewhere
decode_sat_point-encode_sat_point_example =
    decode_sat_point-encode_sat_point somewhere refl plain_tx_id (omega arith) (omega arith)

-- The example that ord/types.go gives of an outpoint has 64 digits.
decode_out_point-doc :
    decode_out_point (codes "680df1e4d43016571e504b0b142ee43c5c0b83398a97bdcfd94ea6f287322d22:0")
    ≡ none
unfolding decode_out_point split parse_below
decode_out_point-doc = refl

abbrev two_keys : List Bytes
two_keys = (replicate 31 5 ++ 0 ∷ []) ∷ (replicate 31 5 ++ 1 ∷ []) ∷ (replicate 31 6 ++ 1 ∷ []) ∷ []

abbrev old_values : List Bytes
old_values = replicate 32 1 ∷ [] ∷ replicate 32 2 ∷ []

abbrev new_values : List Bytes
new_values = [] ∷ replicate 32 3 ∷ [] ∷ []

parse_state_diff_lem_example :
    (diffs : List StemStateDiff) × (parse_state_diff two_keys old_values new_values [] ≡ done diffs)
    × (entries diffs ≡ given two_keys old_values new_values)
parse_state_diff_lem_example = parse_state_diff_lem two_keys old_values new_values [] (
  refl,
  (λ h. refl),
  (λ h. absurd (h refl)),
  (refl, (λ h. absurd (h refl)), (λ h. refl), (refl, (λ h. refl), (λ h. absurd (h refl)), tt)),
)
