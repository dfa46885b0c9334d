-- ===== src/Tests/Balances.antt =====
-- Balances, at a header whose block gave 1500 to one pkscript.
use modular_indexer_committe.Prelude.{◌≡◌, ◌+◌, refl, false, [], ◌∷◌, arith, replicate}
use modular_indexer_committe.Header.Valid.{is_recorded}
use modular_indexer_committe.Bytes.{bytes_equal_iff, Bytes, codes}
use modular_indexer_committe.KeyMap.{KeyMap, lookup}
use modular_indexer_committe.Packages.Sample.{sample_uint256, sample_verkle, AnyTree, sample_codec}
use modular_indexer_committe.Header.{Header}
use modular_indexer_committe.Header.Valid.{IsValid}
use modular_indexer_committe.Header.Access.{Within}
use modular_indexer_committe.Header.Paging.{undo, build_tree}
use modular_indexer_committe.Queue.{
  exec_header, update, recovery, check_for_reorg, rollback_loop, start_height,
}
use modular_indexer_committe.Tests.Headers.{fresh}
use modular_indexer_committe.Queue.{
  copy_elements, copy_diff, first_height, shift_in, latest_height, update_block, update_loop,
  rollback_block, replay_block, replay_loop,
}
use modular_indexer_committe.KeyMap.{insert, delete}
use modular_indexer_committe.Packages.Sample.{to_be, from_be, print}
use modular_indexer_committe.Bytes.{bytes_equal}
use modular_indexer_committe.Brc20.Exec.{
  parse_decimals, media_type, is_media_type, parse_amount, parse_limit, deploy_supply, exec_deploy,
  mint_checked, exec_mint, exec_transfer, exec_one, exec_all, exec,
}
use modular_indexer_committe.Brc20.Keys.{
  tick_pkscript_image, tick_image, wallet_image, event_image, stem_of, get_tick_pkscript_hash,
  get_tick_hash, get_wallet_hash, get_event_hash,
}
use modular_indexer_committe.Numbers.{
  is_positive_number, digits_and_dot, last_byte, number_with_dot, is_positive_number_with_dot,
  repeat_zeros, or_overflow, extend_parts, get_number_extended_to_18_decimals, ten18_loop,
  get_limit,
}
use modular_indexer_committe.Storage.{
  to_array, suffix, slot_key, insert_uint256, get_uint256, insert_slots, pad, insert_bytes,
  get_slots, get_bytes, insert_inscription_id, get_inscription_id, slot_storage,
}
use modular_indexer_committe.Bytes.Hex.{hex_value, decode_string, hex_digit, encode_to_string}
use modular_indexer_committe.Bytes.Text.{
  split, contains_byte, is_ascii_digit, value_from, decimal_value, all_digits, parse_below,
}
use modular_indexer_committe.Header.Paging.{page_entries, clear_block, paging}
use modular_indexer_committe.Queue.Proofs.{
  new_values, post_values, bytes_less, insert_path, sorted_paths, generate_proof_from_update,
}
use modular_indexer_committe.Brc20.Ops.{
  decode_or_panic, update_uint256, update_balance, get_balances, update_tick_state,
  update_latest_pkscript, get_latest_pkscript, update_wallet_and_pkscript, get_wallet_and_pkscript,
  get_event_counts, is_used_or_invalid, count_event, deploy_inscribe, mint_inscribe,
  transfer_inscribe, transfer_transfer_spend_to_fee, transfer_transfer_normal,
}
use modular_indexer_committe.Header.{
  default_value, record_write, record_read, current_value, header_insert, header_get, header_cells,
}
use modular_indexer_committe.Brc20.Move.{number}
use modular_indexer_committe.Brc20.Transfer.{transfer_transfer_normal-numbers}
use modular_indexer_committe.Header.Access.{written, written-IsValid, get_size}
use modular_indexer_committe.Prelude.Outcome.{Outcome, done, panic}
use modular_indexer_committe.Header.Valid.{header_view}
use modular_indexer_committe.Header.Access.{header_cells-laws}
use modular_indexer_committe.Prelude.{length, ◌≢◌, ◌-◌}
use modular_indexer_committe.Packages.Sample.{sample_uint256-laws}
use modular_indexer_committe.Packages.Sample.{sample_codec-laws}
use modular_indexer_committe.Prelude.Outcome.{◌>>◌}
use modular_indexer_committe.Brc20.Balances.{length-get_tick_pkscript_hash, length-get_event_hash}

-- A header whose block wrote one slot.
abbrev one_write : Bytes → Bytes → Header (KeyMap Bytes)
one_write key value = record fresh {
  access =
      record { key = key; old_value = replicate 32 0; new_value = value; old_value_exists = false }
      ∷ [];
  intermediate_kv = (key, value) ∷ [];
}

one_write-IsValid :
    (key value : Bytes)
    → length key ≡ 32
    → length value ≡ 32
    → IsValid sample_verkle AnyTree (one_write key value)
unfolding sample_verkle lookup is_recorded
one_write-IsValid key value k32 v32 = record {
  full = tt;
  consistent = λ k. refl;
  kv_sized = tt;
  pending_sized = ((k32, v32), tt);
  recorded = λ k v e. ground (arith, bytes_equal_iff k key, bytes_equal_iff key k);
  accurate = (refl, tt);
}

abbrev balance_key : Bytes
balance_key = get_tick_pkscript_hash sample_codec (codes "ordi") (codes "51") 1

abbrev minted : Header (KeyMap Bytes)
minted = one_write balance_key (sample_uint256.write_to_array32 1500)

minted-IsValid : IsValid sample_verkle AnyTree minted
minted-IsValid =
    one_write-IsValid balance_key (sample_uint256.write_to_array32 1500)
      (length-get_tick_pkscript_hash sample_codec-laws (codes "ordi") (codes "51") 1)
      (sample_uint256-laws.length-write_to_array32 1500)

-- The slot of the length of the pkscript that inscribed `id`, and the slot of its bytes.
abbrev length_key : Bytes
length_key = get_event_hash sample_codec (codes "id") 5

abbrev data_key : Bytes
data_key = get_event_hash sample_codec (codes "id") 6

-- The pkscript 51 has 1500, and it inscribed `id`.
abbrev inscribed : Header (KeyMap Bytes)
inscribed =
    written data_key (81 ∷ replicate 31 0)
      (written length_key (sample_uint256.write_to_array32 1) minted)

inscribed-IsValid : IsValid sample_verkle AnyTree inscribed
inscribed-IsValid =
    written-IsValid sample_verkle AnyTree data_key (81 ∷ replicate 31 0)
      (written length_key (sample_uint256.write_to_array32 1) minted)
      (written-IsValid sample_verkle AnyTree length_key (sample_uint256.write_to_array32 1) minted
        minted-IsValid (length-get_event_hash sample_codec-laws (codes "id") 5)
        (sample_uint256-laws.length-write_to_array32 1))
      (length-get_event_hash sample_codec-laws (codes "id") 6) refl

inscribed-Within : Within sample_verkle AnyTree inscribed inscribed
inscribed-Within = record {
  valid = inscribed-IsValid;
  same_root = refl;
  same_kv = refl;
  same_height = refl;
  same_hash = refl;
}

-- The header that a run left.
abbrev left : {A : Type 0} → Outcome (A × Header (KeyMap Bytes)) → Header (KeyMap Bytes)
left (done (a, h)) = h
left (panic r) = fresh

balance :
    number sample_uint256 header_view inscribed
      (get_tick_pkscript_hash sample_codec (codes "ordi") (codes "51") 1)
    ≡ 1500
unfolding header_view copy_elements copy_diff first_height shift_in check_for_reorg start_height
    latest_height exec_header update_block update_loop update rollback_block rollback_loop
    replay_block replay_loop recovery lookup insert delete to_be from_be print sample_uint256
    sample_verkle sample_codec bytes_equal parse_decimals media_type is_media_type parse_amount
    parse_limit deploy_supply exec_deploy mint_checked exec_mint exec_transfer exec_one exec_all
    exec tick_pkscript_image tick_image wallet_image event_image stem_of get_tick_pkscript_hash
    get_tick_hash get_wallet_hash get_event_hash is_positive_number digits_and_dot last_byte
    number_with_dot is_positive_number_with_dot repeat_zeros or_overflow extend_parts
    get_number_extended_to_18_decimals ten18_loop get_limit to_array suffix slot_key insert_uint256
    get_uint256 insert_slots pad insert_bytes get_slots get_bytes insert_inscription_id
    get_inscription_id slot_storage hex_value decode_string hex_digit encode_to_string split
    contains_byte is_ascii_digit value_from decimal_value all_digits parse_below undo page_entries
    clear_block paging build_tree new_values post_values bytes_less insert_path sorted_paths
    generate_proof_from_update decode_or_panic update_uint256 update_balance get_balances
    update_tick_state update_latest_pkscript get_latest_pkscript update_wallet_and_pkscript
    get_wallet_and_pkscript get_event_counts is_used_or_invalid count_event deploy_inscribe
    mint_inscribe transfer_inscribe transfer_transfer_spend_to_fee transfer_transfer_normal
    default_value record_write record_read current_value header_insert header_get header_cells
balance = refl

no_balance :
    number sample_uint256 header_view inscribed
      (get_tick_pkscript_hash sample_codec (codes "ordi") (codes "52") 1)
    ≡ 0
unfolding header_view copy_elements copy_diff first_height shift_in check_for_reorg start_height
    latest_height exec_header update_block update_loop update rollback_block rollback_loop
    replay_block replay_loop recovery lookup insert delete to_be from_be print sample_uint256
    sample_verkle sample_codec bytes_equal parse_decimals media_type is_media_type parse_amount
    parse_limit deploy_supply exec_deploy mint_checked exec_mint exec_transfer exec_one exec_all
    exec tick_pkscript_image tick_image wallet_image event_image stem_of get_tick_pkscript_hash
    get_tick_hash get_wallet_hash get_event_hash is_positive_number digits_and_dot last_byte
    number_with_dot is_positive_number_with_dot repeat_zeros or_overflow extend_parts
    get_number_extended_to_18_decimals ten18_loop get_limit to_array suffix slot_key insert_uint256
    get_uint256 insert_slots pad insert_bytes get_slots get_bytes insert_inscription_id
    get_inscription_id slot_storage hex_value decode_string hex_digit encode_to_string split
    contains_byte is_ascii_digit value_from decimal_value all_digits parse_below undo page_entries
    clear_block paging build_tree new_values post_values bytes_less insert_path sorted_paths
    generate_proof_from_update decode_or_panic update_uint256 update_balance get_balances
    update_tick_state update_latest_pkscript get_latest_pkscript update_wallet_and_pkscript
    get_wallet_and_pkscript get_event_counts is_used_or_invalid count_event deploy_inscribe
    mint_inscribe transfer_inscribe transfer_transfer_spend_to_fee transfer_transfer_normal
    default_value record_write record_read current_value header_insert header_get header_cells
no_balance = refl

no_available :
    number sample_uint256 header_view inscribed
      (get_tick_pkscript_hash sample_codec (codes "ordi") (codes "52") 0)
    ≡ 0
unfolding header_view copy_elements copy_diff first_height shift_in check_for_reorg start_height
    latest_height exec_header update_block update_loop update rollback_block rollback_loop
    replay_block replay_loop recovery lookup insert delete to_be from_be print sample_uint256
    sample_verkle sample_codec bytes_equal parse_decimals media_type is_media_type parse_amount
    parse_limit deploy_supply exec_deploy mint_checked exec_mint exec_transfer exec_one exec_all
    exec tick_pkscript_image tick_image wallet_image event_image stem_of get_tick_pkscript_hash
    get_tick_hash get_wallet_hash get_event_hash is_positive_number digits_and_dot last_byte
    number_with_dot is_positive_number_with_dot repeat_zeros or_overflow extend_parts
    get_number_extended_to_18_decimals ten18_loop get_limit to_array suffix slot_key insert_uint256
    get_uint256 insert_slots pad insert_bytes get_slots get_bytes insert_inscription_id
    get_inscription_id slot_storage hex_value decode_string hex_digit encode_to_string split
    contains_byte is_ascii_digit value_from decimal_value all_digits parse_below undo page_entries
    clear_block paging build_tree new_values post_values bytes_less insert_path sorted_paths
    generate_proof_from_update decode_or_panic update_uint256 update_balance get_balances
    update_tick_state update_latest_pkscript get_latest_pkscript update_wallet_and_pkscript
    get_wallet_and_pkscript get_event_counts is_used_or_invalid count_event deploy_inscribe
    mint_inscribe transfer_inscribe transfer_transfer_spend_to_fee transfer_transfer_normal
    default_value record_write record_read current_value header_insert header_get header_cells
no_available = refl

owner :
    let kv = slot_storage sample_uint256 (header_cells sample_verkle) in
    let run = get_wallet_and_pkscript sample_codec sample_uint256 kv (codes "id") inscribed in
    run ≡ done (([], codes "51"), left run)
unfolding header_view copy_elements copy_diff first_height shift_in check_for_reorg start_height
    latest_height exec_header update_block update_loop update rollback_block rollback_loop
    replay_block replay_loop recovery lookup insert delete to_be from_be print sample_uint256
    sample_verkle sample_codec bytes_equal parse_decimals media_type is_media_type parse_amount
    parse_limit deploy_supply exec_deploy mint_checked exec_mint exec_transfer exec_one exec_all
    exec tick_pkscript_image tick_image wallet_image event_image stem_of get_tick_pkscript_hash
    get_tick_hash get_wallet_hash get_event_hash is_positive_number digits_and_dot last_byte
    number_with_dot is_positive_number_with_dot repeat_zeros or_overflow extend_parts
    get_number_extended_to_18_decimals ten18_loop get_limit to_array suffix slot_key insert_uint256
    get_uint256 insert_slots pad insert_bytes get_slots get_bytes insert_inscription_id
    get_inscription_id slot_storage hex_value decode_string hex_digit encode_to_string split
    contains_byte is_ascii_digit value_from decimal_value all_digits parse_below undo page_entries
    clear_block paging build_tree new_values post_values bytes_less insert_path sorted_paths
    generate_proof_from_update decode_or_panic update_uint256 update_balance get_balances
    update_tick_state update_latest_pkscript get_latest_pkscript update_wallet_and_pkscript
    get_wallet_and_pkscript get_event_counts is_used_or_invalid count_event deploy_inscribe
    mint_inscribe transfer_inscribe transfer_transfer_spend_to_fee transfer_transfer_normal
    default_value record_write record_read current_value header_insert header_get header_cells
owner = refl

transfer_transfer_normal-numbers_example :
    let view = header_view {Node = KeyMap Bytes} in
    let n = number sample_uint256 view in
    let kv = slot_storage sample_uint256 (header_cells sample_verkle) in
    let spent_key = get_tick_pkscript_hash sample_codec (codes "ordi") (codes "52") 1 in
    let available_key = get_tick_pkscript_hash sample_codec (codes "ordi") (codes "52") 0 in
    (h : Header (KeyMap Bytes)) × (transfer_transfer_normal sample_codec sample_uint256 kv
        (codes "id")
        (codes "52")
        (codes "w")
        (codes "ordi")
        600
        inscribed
      ≡ (update_latest_pkscript sample_codec sample_uint256 kv [] (codes "51")
            >> (update_latest_pkscript sample_codec sample_uint256 kv (codes "w") (codes "52")
                >> count_event sample_codec sample_uint256 kv (codes "id") 1))
          h)
    × Within sample_verkle AnyTree inscribed h
    × (balance_key ≡ spent_key → n h balance_key ≡ n inscribed balance_key)
    × (balance_key ≢ spent_key
        → (n h balance_key ≡ n inscribed balance_key - 600)
          × (n h spent_key ≡ n inscribed spent_key + 600))
    × (n h available_key ≡ n inscribed available_key + 600)
    × ((j : Bytes) → balance_key ≢ j → available_key ≢ j → spent_key ≢ j → n h j ≡ n inscribed j)
unfolding header_cells
transfer_transfer_normal-numbers_example =
    transfer_transfer_normal-numbers sample_codec-laws sample_uint256-laws
      (header_cells-laws sample_verkle AnyTree inscribed) (get_size sample_verkle AnyTree)
      (codes "id") (codes "52") (codes "w") (codes "ordi") 600 [] (codes "51") inscribed
      (left (
        get_wallet_and_pkscript sample_codec sample_uint256
          (slot_storage sample_uint256 (header_cells sample_verkle)) (codes "id") inscribed))
      inscribed-Within owner (omega (arith, balance)) (omega (arith, no_balance))
      (omega (arith, no_available))
