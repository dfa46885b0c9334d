-- ===== src/Tests/Mints.antt =====
-- A mint of 600, at a block that has written the remaining supply of a token.
use modular_indexer_committe.Prelude.{ℕ, ◌≡◌, ◌≢◌, ◌+◌, ◌-◌, refl, false, [], ◌∷◌, arith, replicate}
use modular_indexer_committe.Bytes.{Bytes, codes}
use modular_indexer_committe.KeyMap.{KeyMap, lookup}
use modular_indexer_committe.Packages.Sample.{sample_uint256, sample_verkle, AnyTree, sample_codec}
use modular_indexer_committe.Header.{Header}
use modular_indexer_committe.Header.Valid.{IsValid}
use modular_indexer_committe.Header.Paging.{undo, build_tree}
use modular_indexer_committe.Queue.{
  exec_header, update, recovery, check_for_reorg, rollback_loop, start_height,
}
use modular_indexer_committe.Tests.Headers.{fresh}
use modular_indexer_committe.Header.Valid.{is_recorded, header_view}
use modular_indexer_committe.Header.Access.{Within, header_cells-laws}
use modular_indexer_committe.Bytes.{bytes_equal_iff}
use modular_indexer_committe.Packages.Sample.{sample_uint256-laws, sample_codec-laws}
use modular_indexer_committe.Brc20.Move.{number}
use modular_indexer_committe.Brc20.Supply.{length-get_tick_hash, mint_inscribe-numbers}
use modular_indexer_committe.Queue.{
  copy_elements, copy_diff, first_height, shift_in, latest_height, update_block, update_loop,
  rollback_block, replay_block, replay_loop,
}
use modular_indexer_committe.KeyMap.{insert, delete}
use modular_indexer_committe.Packages.Sample.{to_be, from_be, print}
use modular_indexer_committe.Bytes.{bytes_equal}
use modular_indexer_committe.Brc20.Exec.{
  parse_decimals, media_type, is_media_type, parse_amount, parse_limit, deploy_supply, exec_deploy,
  mint_checked, exec_mint, exec_transfer, exec_one, exec_all, exec,
}
use modular_indexer_committe.Brc20.Keys.{
  tick_pkscript_image, tick_image, wallet_image, event_image, stem_of, get_tick_pkscript_hash,
  get_tick_hash, get_wallet_hash, get_event_hash,
}
use modular_indexer_committe.Numbers.{
  is_positive_number, digits_and_dot, last_byte, number_with_dot, is_positive_number_with_dot,
  repeat_zeros, or_overflow, extend_parts, get_number_extended_to_18_decimals, ten18_loop,
  get_limit,
}
use modular_indexer_committe.Storage.{
  to_array, suffix, slot_key, insert_uint256, get_uint256, insert_slots, pad, insert_bytes,
  get_slots, get_bytes, insert_inscription_id, get_inscription_id, slot_storage,
}
use modular_indexer_committe.Bytes.Hex.{hex_value, decode_string, hex_digit, encode_to_string}
use modular_indexer_committe.Bytes.Text.{
  split, contains_byte, is_ascii_digit, value_from, decimal_value, all_digits, parse_below,
}
use modular_indexer_committe.Header.Paging.{page_entries, clear_block, paging}
use modular_indexer_committe.Queue.Proofs.{
  new_values, post_values, bytes_less, insert_path, sorted_paths, generate_proof_from_update,
}
use modular_indexer_committe.Brc20.Ops.{
  decode_or_panic, update_uint256, update_balance, get_balances, update_tick_state,
  update_latest_pkscript, get_latest_pkscript, update_wallet_and_pkscript, get_wallet_and_pkscript,
  get_event_counts, is_used_or_invalid, count_event, deploy_inscribe, mint_inscribe,
  transfer_inscribe, transfer_transfer_spend_to_fee, transfer_transfer_normal,
}
use modular_indexer_committe.Header.{
  default_value, record_write, record_read, current_value, header_insert, header_get, header_cells,
}

abbrev remaining_key : Bytes
remaining_key = get_tick_hash sample_codec (codes "ordi") 1

abbrev available_key : Bytes
available_key = get_tick_pkscript_hash sample_codec (codes "ordi") (codes "51") 0

abbrev overall_key : Bytes
overall_key = get_tick_pkscript_hash sample_codec (codes "ordi") (codes "51") 1

abbrev supplied : Header (KeyMap Bytes)
supplied = record fresh {
  access =
      record {
        key = remaining_key;
        old_value = replicate 32 0;
        new_value = sample_uint256.write_to_array32 1500;
        old_value_exists = false;
      }
      ∷ [];
  intermediate_kv = (remaining_key, sample_uint256.write_to_array32 1500) ∷ [];
}

supplied-IsValid : IsValid sample_verkle AnyTree supplied
unfolding sample_verkle lookup is_recorded
supplied-IsValid = record {
  full = tt;
  consistent = λ k. refl;
  kv_sized = tt;
  pending_sized = (
    (
      length-get_tick_hash sample_codec-laws (codes "ordi") 1,
      sample_uint256-laws.length-write_to_array32 1500,
    ),
    tt,
  );
  recorded =
      λ k v e. ground (arith, bytes_equal_iff k remaining_key, bytes_equal_iff remaining_key k);
  accurate = (refl, tt);
}

supplied-Within : Within sample_verkle AnyTree supplied supplied
supplied-Within = record {
  valid = supplied-IsValid;
  same_root = refl;
  same_kv = refl;
  same_height = refl;
  same_hash = refl;
}

different : bytes_equal overall_key remaining_key ≡ false
unfolding header_view copy_elements copy_diff first_height shift_in check_for_reorg start_height
    latest_height exec_header update_block update_loop update rollback_block rollback_loop
    replay_block replay_loop recovery lookup insert delete to_be from_be print sample_uint256
    sample_verkle sample_codec bytes_equal parse_decimals media_type is_media_type parse_amount
    parse_limit deploy_supply exec_deploy mint_checked exec_mint exec_transfer exec_one exec_all
    exec tick_pkscript_image tick_image wallet_image event_image stem_of get_tick_pkscript_hash
    get_tick_hash get_wallet_hash get_event_hash is_positive_number digits_and_dot last_byte
    number_with_dot is_positive_number_with_dot repeat_zeros or_overflow extend_parts
    get_number_extended_to_18_decimals ten18_loop get_limit to_array suffix slot_key insert_uint256
    get_uint256 insert_slots pad insert_bytes get_slots get_bytes insert_inscription_id
    get_inscription_id slot_storage hex_value decode_string hex_digit encode_to_string split
    contains_byte is_ascii_digit value_from decimal_value all_digits parse_below undo page_entries
    clear_block paging build_tree new_values post_values bytes_less insert_path sorted_paths
    generate_proof_from_update decode_or_panic update_uint256 update_balance get_balances
    update_tick_state update_latest_pkscript get_latest_pkscript update_wallet_and_pkscript
    get_wallet_and_pkscript get_event_counts is_used_or_invalid count_event deploy_inscribe
    mint_inscribe transfer_inscribe transfer_transfer_spend_to_fee transfer_transfer_normal
    default_value record_write record_read current_value header_insert header_get header_cells
different = refl

keys_differ : overall_key ≢ remaining_key
keys_differ e = cc (different, (bytes_equal_iff overall_key remaining_key).1 e)

numbers :
    (number sample_uint256 header_view supplied remaining_key ≡ 1500)
    × (number sample_uint256 header_view supplied available_key ≡ 0)
    × (number sample_uint256 header_view supplied overall_key ≡ 0)
unfolding header_view copy_elements copy_diff first_height shift_in check_for_reorg start_height
    latest_height exec_header update_block update_loop update rollback_block rollback_loop
    replay_block replay_loop recovery lookup insert delete to_be from_be print sample_uint256
    sample_verkle sample_codec bytes_equal parse_decimals media_type is_media_type parse_amount
    parse_limit deploy_supply exec_deploy mint_checked exec_mint exec_transfer exec_one exec_all
    exec tick_pkscript_image tick_image wallet_image event_image stem_of get_tick_pkscript_hash
    get_tick_hash get_wallet_hash get_event_hash is_positive_number digits_and_dot last_byte
    number_with_dot is_positive_number_with_dot repeat_zeros or_overflow extend_parts
    get_number_extended_to_18_decimals ten18_loop get_limit to_array suffix slot_key insert_uint256
    get_uint256 insert_slots pad insert_bytes get_slots get_bytes insert_inscription_id
    get_inscription_id slot_storage hex_value decode_string hex_digit encode_to_string split
    contains_byte is_ascii_digit value_from decimal_value all_digits parse_below undo page_entries
    clear_block paging build_tree new_values post_values bytes_less insert_path sorted_paths
    generate_proof_from_update decode_or_panic update_uint256 update_balance get_balances
    update_tick_state update_latest_pkscript get_latest_pkscript update_wallet_and_pkscript
    get_wallet_and_pkscript get_event_counts is_used_or_invalid count_event deploy_inscribe
    mint_inscribe transfer_inscribe transfer_transfer_spend_to_fee transfer_transfer_normal
    default_value record_write record_read current_value header_insert header_get header_cells
numbers = (refl, refl, refl)

mint_inscribe-numbers_example :
    let storage = slot_storage sample_uint256 (header_cells sample_verkle) in
    let held : Header (KeyMap Bytes) → Bytes → ℕ =
      number sample_uint256 (header_view {Node = KeyMap Bytes}) in
    (s' : Header (KeyMap Bytes)) × (mint_inscribe sample_codec sample_uint256 storage
        (codes "51")
        (codes "wallet")
        (codes "ordi")
        600
        supplied
      ≡ update_latest_pkscript sample_codec sample_uint256 storage (codes "wallet") (codes "51") s')
    × Within sample_verkle AnyTree supplied s'
    × (held s' available_key ≡ held supplied available_key + 600)
    × (held s' overall_key + held s' remaining_key
        ≡ held supplied overall_key + held supplied remaining_key)
    × (held s' remaining_key ≡ held supplied remaining_key - 600)
    × ((j : Bytes)
        → available_key ≢ j
        → overall_key ≢ j
        → remaining_key ≢ j
        → held s' j ≡ held supplied j)
mint_inscribe-numbers_example =
    mint_inscribe-numbers sample_codec-laws sample_uint256-laws
      (header_cells-laws sample_verkle AnyTree supplied) (codes "51") (codes "wallet")
      (codes "ordi") 600 supplied supplied-Within keys_differ (omega (arith, numbers.0))
      (omega (arith, numbers.1)) (omega (arith, numbers.2))
