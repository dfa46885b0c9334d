-- ===== src/Tests/Client.antt =====
-- A client and the committee, at the block that deploys a token and mints 1.5 of it.
use modular_indexer_committe.Prelude.{sym, not, replicate, Bool, All, if◌then◌else◌}
use modular_indexer_committe.Prelude.Outcome.{Outcome}
use modular_indexer_committe.Tests.Headers.{fresh, fresh-IsValid}
use modular_indexer_committe.Header.{Header}
use modular_indexer_committe.KeyMap.{lookup-insert}
use modular_indexer_committe.Header.Valid.{or_empty}
use modular_indexer_committe.Header.Alike.{held}
use modular_indexer_committe.Light.Strict.{strict_get}
use modular_indexer_committe.Light.View.{
  viewed_cells, viewed_strict_cells, viewed_get_bytes, viewed_get_inscription_id, viewed_storage,
}
use modular_indexer_committe.Light.Partial.{ViewLaws, Sees}
use modular_indexer_committe.Apis.Client.{HasNoParent, generate_post_root-commitment}
use modular_indexer_committe.Tests.Queues.{executed, is_executed, executed_lem}
use modular_indexer_committe.Prelude.{
  ℕ, ◌≡◌, ◌≢◌, ◌∙◌, ap, ◌+◌, ◌<◌, ◌%◌, ◌/◌, Bool-cases, inl, inr, ltb, refl, true, Option, none,
  some, List, [], ◌∷◌, arith, length, map, lt→ltb,
}
use modular_indexer_committe.Prelude.Outcome.{Result, err, ok, done}
use modular_indexer_committe.Bytes.{Bytes, codes}
use modular_indexer_committe.KeyMap.{KeyMap, lookup}
use modular_indexer_committe.Packages.Sample.{
  sample_uint256, sample_verkle, AnyTree, sample_verkle-laws, sample_codec,
}
use modular_indexer_committe.Header.Paging.{undo, build_tree}
use modular_indexer_committe.Queue.{
  Queue, exec_header, update, recovery, check_for_reorg, rollback_loop, start_height,
}
use modular_indexer_committe.Queue.Chain.{IsLinked}
use modular_indexer_committe.Packages.{word_mod}
use modular_indexer_committe.Packages.Sample.{sample_uint256-laws, sample_codec-laws}
use modular_indexer_committe.Bytes.Decimal.{value_from-print, print-IsDigit, print-length}
use modular_indexer_committe.Bytes.Decimal
use modular_indexer_committe.Queue.Update.{update-IsLinked}
use modular_indexer_committe.Header.Access.{read}
use modular_indexer_committe.Brc20.Keys.{available_balance_pkscript, overall_balance_pkscript}
use modular_indexer_committe.Queue.{Proof}
use modular_indexer_committe.Apis.{
  Base64, Base64Laws, SuffixStateDiff, StemStateDiff, ProofPackage, ProofPackageLaws,
  PkscriptResult, Response,
}
use modular_indexer_committe.Apis.Balance.{
  get_current_balance_of_pkscript, verify_current_balance_of_pkscript,
}
use modular_indexer_committe.Apis.Stem.{IsComplete}
use modular_indexer_committe.Apis.Accepted.{verify_current_balance-get_current_balance}
use modular_indexer_committe.Apis.Latest.{
  LatestResponse, get_latest_state_proof, run_block, generate_post_root,
}
use modular_indexer_committe.Apis.Replay.{without_parent, generate_post_root-get_latest_state_proof}
use modular_indexer_committe.Tests.Queues.{
  tools, six, six-IsLinked, chain, settled, settled_lem, update_runs,
}
use modular_indexer_committe.Queue.{
  copy_elements, copy_diff, first_height, shift_in, latest_height, update_block, update_loop,
  rollback_block, replay_block, replay_loop,
}
use modular_indexer_committe.KeyMap.{insert, delete}
use modular_indexer_committe.Packages.Sample.{to_be, from_be, print}
use modular_indexer_committe.Bytes.{bytes_equal}
use modular_indexer_committe.Brc20.Exec.{
  parse_decimals, media_type, is_media_type, parse_amount, parse_limit, deploy_supply, exec_deploy,
  mint_checked, exec_mint, exec_transfer, exec_one, exec_all, exec,
}
use modular_indexer_committe.Brc20.Keys.{
  tick_pkscript_image, tick_image, wallet_image, event_image, stem_of, get_tick_pkscript_hash,
  get_tick_hash, get_wallet_hash, get_event_hash,
}
use modular_indexer_committe.Numbers.{
  is_positive_number, digits_and_dot, last_byte, number_with_dot, is_positive_number_with_dot,
  repeat_zeros, or_overflow, extend_parts, get_number_extended_to_18_decimals, ten18_loop,
  get_limit,
}
use modular_indexer_committe.Storage.{
  to_array, suffix, slot_key, insert_uint256, get_uint256, insert_slots, pad, insert_bytes,
  get_slots, get_bytes, insert_inscription_id, get_inscription_id, slot_storage,
}
use modular_indexer_committe.Bytes.Hex.{hex_value, decode_string, hex_digit, encode_to_string}
use modular_indexer_committe.Bytes.Text.{
  split, contains_byte, is_ascii_digit, value_from, decimal_value, all_digits, parse_below,
}
use modular_indexer_committe.Header.Paging.{page_entries, clear_block, paging}
use modular_indexer_committe.Queue.Proofs.{
  new_values, post_values, bytes_less, insert_path, sorted_paths, generate_proof_from_update,
}
use modular_indexer_committe.Brc20.Ops.{
  decode_or_panic, update_uint256, update_balance, get_balances, update_tick_state,
  update_latest_pkscript, get_latest_pkscript, update_wallet_and_pkscript, get_wallet_and_pkscript,
  get_event_counts, is_used_or_invalid, count_event, deploy_inscribe, mint_inscribe,
  transfer_inscribe, transfer_transfer_spend_to_fee, transfer_transfer_normal,
}
use modular_indexer_committe.Header.{
  default_value, record_write, record_read, current_value, header_insert, header_get, header_cells,
}

abbrev plain_base64 : Base64
plain_base64 = record { encode = λ b. b; decode = λ b. (b, none) }

plain_base64-laws : Base64Laws plain_base64
plain_base64-laws = record { decode-encode = λ b. refl }

abbrev sample_proof : Proof
sample_proof = record {
  multipoint = [];
  cs = [];
  ext_status = [];
  poa_stems = [];
  keys = [];
  pre_values = [];
  post_values = [];
}

abbrev write_stem : List SuffixStateDiff → Bytes → Result Bytes
write_stem [] stem = ok stem
write_stem (d ∷ ds) stem = err (codes "not written")

-- The text of a proof is its multipoint; every proof is accepted.
abbrev sample_package : ProofPackage (KeyMap Bytes) Bytes
sample_package = record {
  make_verkle_multi_proof = λ root keys. ok sample_proof;
  serialize_proof =
      λ proof. ok (proof.multipoint, record { stem = codes "stem"; suffix_diffs = [] } ∷ []);
  marshal_proof = λ v. ok v;
  unmarshal_proof = λ b. (b, none);
  marshal_diff = λ d. write_stem d.suffix_diffs d.stem;
  unmarshal_diff = λ b. (record { stem = b; suffix_diffs = [] }, none);
  deserialize_proof = λ v diffs. ok sample_proof;
  pre_state_tree_from_proof = λ proof root_c. ok [];
  verify_with_pre_state = λ proof pre. none;
  new_stateless_internal = λ root_c. [];
}

unwritten :
    (ds : List SuffixStateDiff) (stem b : Bytes)
    → write_stem ds stem ≡ ok b
    → ◌≡◌ {A = StemStateDiff × Option Bytes}
        (record { stem = b; suffix_diffs = [] }, none)
        (record { stem = stem; suffix_diffs = ds }, none)
unwritten [] stem b e = let same : stem ≡ b = cc in rw same refl
unwritten (d ∷ ds) stem b e = absurd (cc)

sample_package-laws : ProofPackageLaws sample_package
sample_package-laws = record {
  unmarshal-marshal_proof = λ v b e. let same : v ≡ b = cc in rw same refl;
  unmarshal-marshal_diff = λ d b e. unwritten d.suffix_diffs d.stem b e;
}

sample_package-IsComplete : IsComplete sample_verkle AnyTree sample_package
sample_package-IsComplete = record {
  accepts = λ root stem shown proof v ds full long all made serialized.
      (sample_proof, refl, ([], refl, refl));
}

abbrev eleven : Queue (KeyMap Bytes)
eleven = settled (update sample_verkle sample_codec sample_uint256 tools chain 11 six)

eleven-IsLinked : IsLinked sample_verkle AnyTree eleven × (eleven.header.height ≡ 11)
eleven-IsLinked =
    update-IsLinked sample_verkle-laws sample_codec sample_uint256 tools chain 11 six eleven
      six-IsLinked
      (settled_lem (update sample_verkle sample_codec sample_uint256 tools chain 11 six)
        update_runs)

abbrev decimal : ℕ → Bytes
decimal n = Decimal.print 78 n []

not_empty : (s : Bytes) → length s ≢ 0 → s ≢ []
not_empty s ne e = ne (ap length e)

nonzero : (n : ℕ) → length (decimal n) ≢ 0
unfolding Decimal.print
nonzero n = elim (Bool-cases (ltb n 10)) [
  | inl small ↦ rw small (omega arith)
  | inr large ↦ rw large (print-length 77 (n / 10) ((n % 10 + 48) ∷ []) (omega arith))
]

from_decimal-decimal : (n : ℕ) → n < word_mod → sample_uint256.from_decimal (decimal n) ≡ some n
unfolding decimal_value
from_decimal-decimal n small =
    let value : decimal_value (decimal n) ≡ n = value_from-print 78 n [] (omega (arith, small)) in
    sample_uint256-laws.from_decimal_lem (decimal n) (not_empty (decimal n) (nonzero n))
      (print-IsDigit 78 n [] tt)
    ∙ rw (value, lt→ltb n word_mod small) refl

abbrev minted : ℕ
minted = 1500000000000000000

held_balances :
    (lookup
        (get_tick_pkscript_hash sample_codec (codes "ordi") (codes "51") available_balance_pkscript)
        eleven.header.kv
      ≡ some (sample_uint256.write_to_array32 minted))
    × (lookup
          (get_tick_pkscript_hash sample_codec (codes "ordi") (codes "51") overall_balance_pkscript)
          eleven.header.kv
        ≡ some (sample_uint256.write_to_array32 minted))
unfolding copy_elements copy_diff first_height shift_in check_for_reorg start_height latest_height
    exec_header update_block update_loop update rollback_block rollback_loop replay_block
    replay_loop recovery lookup insert delete to_be from_be print sample_uint256 sample_verkle
    sample_codec bytes_equal parse_decimals media_type is_media_type parse_amount parse_limit
    deploy_supply exec_deploy mint_checked exec_mint exec_transfer exec_one exec_all exec
    tick_pkscript_image tick_image wallet_image event_image stem_of get_tick_pkscript_hash
    get_tick_hash get_wallet_hash get_event_hash is_positive_number digits_and_dot last_byte
    number_with_dot is_positive_number_with_dot repeat_zeros or_overflow extend_parts
    get_number_extended_to_18_decimals ten18_loop get_limit to_array suffix slot_key insert_uint256
    get_uint256 insert_slots pad insert_bytes get_slots get_bytes insert_inscription_id
    get_inscription_id slot_storage hex_value decode_string hex_digit encode_to_string split
    contains_byte is_ascii_digit value_from decimal_value all_digits parse_below undo page_entries
    clear_block paging build_tree new_values post_values bytes_less insert_path sorted_paths
    generate_proof_from_update decode_or_panic update_uint256 update_balance get_balances
    update_tick_state update_latest_pkscript get_latest_pkscript update_wallet_and_pkscript
    get_wallet_and_pkscript get_event_counts is_used_or_invalid count_event deploy_inscribe
    mint_inscribe transfer_inscribe transfer_transfer_spend_to_fee transfer_transfer_normal
    default_value record_write record_read current_value header_insert header_get header_cells
held_balances = (refl, refl)

verify_current_balance-get_current_balance_example :
    let k0 =
      get_tick_pkscript_hash sample_codec (codes "ordi") (codes "51") available_balance_pkscript in
    let k1 =
      get_tick_pkscript_hash sample_codec (codes "ordi") (codes "51") overall_balance_pkscript in
    let result : PkscriptResult = record {
      available_balance = decimal minted;
      overall_balance = decimal minted;
    } in
    let resp : Response PkscriptResult = record {
      error = none;
      result = some result;
      proof = some [];
    } in
    (get_current_balance_of_pkscript sample_verkle sample_codec sample_uint256 plain_base64
        sample_package decimal
        (codes "ordi")
        (codes "51")
        eleven.header
      ≡ done ((200, resp), read k1 (read k0 eleven.header)))
    × (verify_current_balance_of_pkscript sample_verkle sample_codec sample_uint256 plain_base64
          sample_package
          (sample_verkle.commit eleven.header.root)
          (codes "ordi")
          (codes "51")
          resp
        ≡ done true)
verify_current_balance-get_current_balance_example =
    verify_current_balance-get_current_balance sample_codec-laws sample_uint256-laws
      plain_base64-laws sample_package-laws sample_package-IsComplete decimal (codes "ordi")
      (codes "51") eleven.header minted minted sample_proof []
      (record { stem = codes "stem"; suffix_diffs = [] } ∷ []) [] from_decimal-decimal
      eleven-IsLinked.0.valid eleven-IsLinked.0.idle (omega arith) (omega arith) held_balances.0
      held_balances.1 refl refl refl

abbrev proved : Queue (KeyMap Bytes)
proved = record eleven { last_state_proof = some sample_proof }

generate_post_root-get_latest_state_proof_example :
    (resp : LatestResponse) × (get_latest_state_proof plain_base64 sample_package proved
      ≡ (200, resp) ∷ [])
    × (generate_post_root plain_base64 sample_package sample_verkle sample_codec sample_uint256 []
          11 resp
        ≡ run_block plain_base64 sample_package sample_verkle sample_codec sample_uint256 11
            (map without_parent eleven.header.ord_trans)
            [])
generate_post_root-get_latest_state_proof_example =
    generate_post_root-get_latest_state_proof plain_base64-laws sample_package-laws sample_verkle
      sample_codec sample_uint256 proved [] 11 sample_proof sample_proof []
      (record { stem = codes "stem"; suffix_diffs = [] } ∷ []) [] [] refl refl refl
      ((codes "stem", refl), tt) refl refl refl

-- A view of every key but one.
abbrev hidden : Bytes
hidden = replicate 32 9

abbrev in_view : Bytes → Bool
in_view k = not (bytes_equal hidden k)

abbrev Covers : KeyMap Bytes → KeyMap Bytes → Type 0
Covers n p = (k : Bytes) → in_view k ≡ true → lookup k p ≡ lookup k n

sample-ViewLaws : ViewLaws sample_verkle in_view Covers
unfolding sample_verkle
sample-ViewLaws = record {
  get-Covers = λ n p k covers known. ap (λ o. ok (or_empty o)) (covers k known);
  insert-Covers = λ n p k v covers known hk hv. λ j seen.
      lookup-insert k j v p
      ∙ ap (λ o. if bytes_equal k j then some v else o) (covers j seen)
      ∙ sym (lookup-insert k j v n);
  commit-Covers = λ n p covers. ap or_empty (covers (replicate 32 0) (unfold bytes_equal in refl));
}

abbrev viewed_run : Outcome (Unit {0} × Header (KeyMap Bytes))
viewed_run =
    exec sample_codec sample_uint256 (viewed_storage sample_verkle sample_uint256 in_view)
      eleven.header.ord_trans 11 fresh

viewed_runs : is_executed viewed_run ≡ true
unfolding strict_get viewed_cells viewed_strict_cells viewed_get_bytes viewed_get_inscription_id
    viewed_storage copy_elements copy_diff first_height shift_in check_for_reorg start_height
    latest_height exec_header update_block update_loop update rollback_block rollback_loop
    replay_block replay_loop recovery lookup insert delete to_be from_be print sample_uint256
    sample_verkle sample_codec bytes_equal parse_decimals media_type is_media_type parse_amount
    parse_limit deploy_supply exec_deploy mint_checked exec_mint exec_transfer exec_one exec_all
    exec tick_pkscript_image tick_image wallet_image event_image stem_of get_tick_pkscript_hash
    get_tick_hash get_wallet_hash get_event_hash is_positive_number digits_and_dot last_byte
    number_with_dot is_positive_number_with_dot repeat_zeros or_overflow extend_parts
    get_number_extended_to_18_decimals ten18_loop get_limit to_array suffix slot_key insert_uint256
    get_uint256 insert_slots pad insert_bytes get_slots get_bytes insert_inscription_id
    get_inscription_id slot_storage hex_value decode_string hex_digit encode_to_string split
    contains_byte is_ascii_digit value_from decimal_value all_digits parse_below undo page_entries
    clear_block paging build_tree new_values post_values bytes_less insert_path sorted_paths
    generate_proof_from_update decode_or_panic update_uint256 update_balance get_balances
    update_tick_state update_latest_pkscript get_latest_pkscript update_wallet_and_pkscript
    get_wallet_and_pkscript get_event_counts is_used_or_invalid count_event deploy_inscribe
    mint_inscribe transfer_inscribe transfer_transfer_spend_to_fee transfer_transfer_normal
    default_value record_write record_read current_value header_insert header_get header_cells
viewed_runs = refl

orphans : All HasNoParent eleven.header.ord_trans
unfolding copy_elements copy_diff first_height shift_in check_for_reorg start_height latest_height
    exec_header update_block update_loop update rollback_block rollback_loop replay_block
    replay_loop recovery lookup insert delete to_be from_be print sample_uint256 sample_verkle
    sample_codec bytes_equal parse_decimals media_type is_media_type parse_amount parse_limit
    deploy_supply exec_deploy mint_checked exec_mint exec_transfer exec_one exec_all exec
    tick_pkscript_image tick_image wallet_image event_image stem_of get_tick_pkscript_hash
    get_tick_hash get_wallet_hash get_event_hash is_positive_number digits_and_dot last_byte
    number_with_dot is_positive_number_with_dot repeat_zeros or_overflow extend_parts
    get_number_extended_to_18_decimals ten18_loop get_limit to_array suffix slot_key insert_uint256
    get_uint256 insert_slots pad insert_bytes get_slots get_bytes insert_inscription_id
    get_inscription_id slot_storage hex_value decode_string hex_digit encode_to_string split
    contains_byte is_ascii_digit value_from decimal_value all_digits parse_below undo page_entries
    clear_block paging build_tree new_values post_values bytes_less insert_path sorted_paths
    generate_proof_from_update decode_or_panic update_uint256 update_balance get_balances
    update_tick_state update_latest_pkscript get_latest_pkscript update_wallet_and_pkscript
    get_wallet_and_pkscript get_event_counts is_used_or_invalid count_event deploy_inscribe
    mint_inscribe transfer_inscribe transfer_transfer_spend_to_fee transfer_transfer_normal
    default_value record_write record_read current_value header_insert header_get header_cells
orphans = (refl, (refl, tt))

fresh-Sees :
    Sees sample_verkle-laws sample_uint256-laws sample-ViewLaws fresh
      (record { root = []; height = 10; hash = [] })
unfolding sample_verkle lookup held
fresh-Sees = record {
  whole = record { root = []; height = 10; hash = [] };
  mirrors = record { valid = fresh-IsValid; full = tt; mirrored = λ k. refl; same_height = refl };
  covers = λ k known. refl;
  same_height = refl;
}

generate_post_root-commitment_example :
    (exec_header sample_verkle sample_codec sample_uint256 eleven.header.ord_trans 11 fresh
      ≡ done (tt, executed viewed_run))
    × ((resp : LatestResponse) × (get_latest_state_proof plain_base64 sample_package proved
          ≡ (200, resp) ∷ [])
        × ((post : KeyMap Bytes) × (generate_post_root plain_base64 sample_package sample_verkle
                sample_codec sample_uint256 [] 11 resp
              ≡ done (ok post))
            × (sample_verkle.commit post
                ≡ sample_verkle.commit
                    (paging sample_verkle chain true (executed viewed_run)).1.root)))
generate_post_root-commitment_example =
    generate_post_root-commitment plain_base64-laws sample_package-laws sample_verkle-laws
      sample_uint256-laws sample-ViewLaws sample_codec proved [] 11 sample_proof sample_proof []
      (record { stem = codes "stem"; suffix_diffs = [] } ∷ []) [] [] chain true fresh
      (executed viewed_run) refl refl refl ((codes "stem", refl), tt) refl refl refl orphans
      fresh-Sees (executed_lem viewed_run viewed_runs)
