-- ===== src/Apis/Balance.antt =====
-- The balances of apis/apis.go and their check in apis/verify.go. A handler gives what it writes, as
-- a status and a body, and the header that its reads leave.
use modular_indexer_committe.Prelude.{ℕ, Bool, true, false, ◌++◌, Option, none, some, List, [], ◌∷◌}
use modular_indexer_committe.Prelude.Outcome.{
  Result, ok, err, Outcome, done, panic, M, pure, ◌>>=◌, nil_pointer,
}
use modular_indexer_committe.Bytes.{Bytes, codes}
use modular_indexer_committe.Bytes.Decimal.{format_uint}
use modular_indexer_committe.Packages.{Verkle, Uint256, Codec}
use modular_indexer_committe.Storage.{slot_storage}
use modular_indexer_committe.Header.{Header, header_cells}
use modular_indexer_committe.Brc20.Keys.{
  get_tick_pkscript_hash, available_balance_pkscript, overall_balance_pkscript,
}
use modular_indexer_committe.Brc20.Ops.{get_balances, get_latest_pkscript}
use modular_indexer_committe.Queue.{Queue, Proof, latest_height}
use modular_indexer_committe.Apis.{
  Base64, StemStateDiff, ProofPackage, PkscriptResult, WalletResult, Response, failed,
}
use modular_indexer_committe.Apis.Diff.{parse_state_diff}

module _ {Node V : Type 0} (t : Verkle Node) (c : Codec) (u : Uint256) (base64 : Base64)
    (pk : ProofPackage Node V) where
  abbrev balance_result : (ℕ → Bytes) → ℕ → ℕ → PkscriptResult
  balance_result string available overall = record {
    available_balance = string available;
    overall_balance = string overall;
  }

  -- `GetAllBalances`; `string` is the method `String` of uint256.
  unfoldable pub get_all_balances :
      (ℕ → Bytes) → Bytes → Bytes → M (Header Node) (Bytes × Bytes × PkscriptResult)
  get_all_balances string tick pkscript =
      get_balances c u (slot_storage u (header_cells t)) tick pkscript
      >>= λ (avail_key, over_key, available, overall).
          pure (avail_key, over_key, balance_result string available overall)

  abbrev marshalled : Result Bytes → Result Bytes
  marshalled (err e) = err (codes "Failed to marshal the proof to JSON due to " ++ e)
  marshalled (ok b) = ok (base64.encode b)

  abbrev serialized : Bytes → Result (V × List StemStateDiff) → Result Bytes
  serialized text (err e) = err (text ++ e)
  serialized text (ok (v, _)) = marshalled (pk.marshal_proof v)

  abbrev proved : Result Proof → Result Bytes
  proved (err e) = err (codes "Failed to generate proof due to " ++ e)
  proved (ok proof) =
      serialized (codes "Failed to serialize proof due to ") (pk.serialize_proof proof)

  -- The steps that both handlers take to the text of a proof.
  unfoldable pub final_proof : Node → List Bytes → Result Bytes
  final_proof root keys = proved (pk.make_verkle_multi_proof root keys)

  abbrev pub respond : {R : Type 0} → R → Result Bytes → ℕ × Response R
  respond result (err e) = (500, failed e)
  respond result (ok proof) =
      (200, record { error = none; result = some result; proof = some proof })

  unfoldable pub get_current_balance_of_pkscript :
      (ℕ → Bytes) → Bytes → Bytes → M (Header Node) (ℕ × Response PkscriptResult)
  unfolding get_all_balances final_proof
  get_current_balance_of_pkscript string tick pkscript =
      get_all_balances string tick pkscript >>= λ (avail_key, over_key, result).
      λ h. done (respond result (final_proof h.root (avail_key ∷ over_key ∷ [])), h)

  unfoldable pub get_current_balance_of_wallet :
      (ℕ → Bytes) → Bytes → Bytes → M (Header Node) (ℕ × Response WalletResult)
  unfolding get_all_balances final_proof
  get_current_balance_of_wallet string tick wallet =
      get_latest_pkscript c u (slot_storage u (header_cells t)) wallet >>= λ (_, pkscript).
      get_all_balances string tick pkscript >>= λ (avail_key, over_key, result). λ h. done (
        respond
            (record {
              available_balance = result.available_balance;
              overall_balance = result.overall_balance;
              pkscript = pkscript;
            })
            (final_proof h.root (avail_key ∷ over_key ∷ [])),
        h,
      )

  unfoldable pub get_block_height : Queue Node → ℕ × Bytes
  get_block_height q = (200, format_uint (latest_height q))

  abbrev word_of : Option ℕ → Option Bytes
  word_of none = none
  word_of (some value) = some (u.write_to_array32 value)

  -- `none` where the text is no number.
  unfoldable pub parse_balance : Bytes → Option Bytes
  parse_balance balance = word_of (u.from_decimal balance)

  abbrev unmarshalled : V × Option Bytes → Option V
  unmarshalled (v, none) = some v
  unmarshalled (v, some e) = none

  abbrev decoded : Bytes × Option Bytes → Option V
  decoded (b, none) = unmarshalled (pk.unmarshal_proof b)
  decoded (b, some e) = none

  -- `none` where the text is no proof.
  unfoldable pub parse_proof : Bytes → Option V
  parse_proof proof = decoded (base64.decode proof)

  abbrev accepted : Option Bytes → Bool
  accepted none = true
  accepted (some e) = false

  abbrev verify_tree : Proof → Result Node → Bool
  verify_tree proof (err e) = false
  verify_tree proof (ok root) = accepted (pk.verify_with_pre_state proof root)

  abbrev verify_proof : Bytes → Result Proof → Bool
  verify_proof root_c (err e) = false
  verify_proof root_c (ok proof) = verify_tree proof (pk.pre_state_tree_from_proof proof root_c)

  abbrev verify_diff : Bytes → V → Outcome (List StemStateDiff) → Outcome Bool
  verify_diff root_c v (panic r) = panic r
  verify_diff root_c v (done diffs) = done (verify_proof root_c (pk.deserialize_proof v diffs))

  abbrev verify_parsed : Bytes → List Bytes → List Bytes → Option V → Outcome Bool
  verify_parsed root_c keys values none = done false
  verify_parsed root_c keys values (some v) =
      verify_diff root_c v (parse_state_diff keys values ([] ∷ [] ∷ []) [])

  abbrev verify_values :
      Bytes → List Bytes → Option Bytes → Option Bytes → Option Bytes → Outcome Bool
  verify_values root_c keys (some available) (some overall) none = panic nil_pointer
  verify_values root_c keys (some available) (some overall) (some proof) =
      verify_parsed root_c keys (available ∷ overall ∷ []) (parse_proof proof)
  verify_values root_c keys available overall proof = done false

  abbrev verify_result : Bytes → List Bytes → Option PkscriptResult → Option Bytes → Outcome Bool
  verify_result root_c keys none proof = panic nil_pointer
  verify_result root_c keys (some result) proof =
      verify_values root_c keys (parse_balance result.available_balance)
        (parse_balance result.overall_balance) proof

  abbrev unless_error : Option Bytes → Outcome Bool → Outcome Bool
  unless_error (some e) rest = done false
  unless_error none rest = rest

  -- `true` is returned without an error, and `false` with one.
  unfoldable pub verify_current_balance_of_pkscript :
      Bytes → Bytes → Bytes → Response PkscriptResult → Outcome Bool
  unfolding parse_balance parse_proof
  verify_current_balance_of_pkscript root_c tick pkscript resp =
      let keys =
        get_tick_pkscript_hash c tick pkscript available_balance_pkscript
        ∷ get_tick_pkscript_hash c tick pkscript overall_balance_pkscript
        ∷ [] in
      unless_error resp.error (verify_result root_c keys resp.result resp.proof)

  abbrev verify_wallet_result :
      Bytes → Bytes → Response WalletResult → Option WalletResult → Outcome Bool
  verify_wallet_result root_c tick resp none = panic nil_pointer
  verify_wallet_result root_c tick resp (some result) =
      verify_current_balance_of_pkscript root_c tick result.pkscript (record {
        error = resp.error;
        result = some (record {
          available_balance = result.available_balance;
          overall_balance = result.overall_balance;
        });
        proof = resp.proof;
      })

  -- The result is read before the error is looked at.
  unfoldable pub verify_current_balance_of_wallet :
      Bytes → Bytes → Response WalletResult → Outcome Bool
  unfolding verify_current_balance_of_pkscript
  verify_current_balance_of_wallet root_c tick resp =
      verify_wallet_result root_c tick resp resp.result
