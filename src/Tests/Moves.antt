-- ===== src/Tests/Moves.antt =====
-- Moves of transfers, at an inscription that has been transferred.
use modular_indexer_committe.Prelude.{◌≡◌, refl, Bool, [], ◌∷◌, arith}
use modular_indexer_committe.Prelude.Outcome.{Outcome, done, panic}
use modular_indexer_committe.Bytes.{Bytes, codes}
use modular_indexer_committe.KeyMap.{KeyMap, lookup}
use modular_indexer_committe.OrdGetter.{OrdTransfer}
use modular_indexer_committe.Packages.Sample.{
  sample_uint256, sample_uint256-laws, sample_verkle, AnyTree, sample_codec, sample_codec-laws,
}
use modular_indexer_committe.Header.{Header}
use modular_indexer_committe.Header.Valid.{header_view, IsValid}
use modular_indexer_committe.Header.Paging.{undo, build_tree}
use modular_indexer_committe.Header.Access.{
  Within, header_cells-laws, written, written-IsValid, get_size,
}
use modular_indexer_committe.Queue.{
  exec_header, update, recovery, check_for_reorg, rollback_loop, start_height,
}
use modular_indexer_committe.Brc20.Balances.{length-get_event_hash}
use modular_indexer_committe.Brc20.Supply.{length-get_tick_hash}
use modular_indexer_committe.Brc20.Move.{number}
use modular_indexer_committe.Brc20.Used.{exec_transfer-used}
use modular_indexer_committe.Tests.Headers.{fresh, fresh-IsValid}
use modular_indexer_committe.Queue.{
  copy_elements, copy_diff, first_height, shift_in, latest_height, update_block, update_loop,
  rollback_block, replay_block, replay_loop,
}
use modular_indexer_committe.KeyMap.{insert, delete}
use modular_indexer_committe.Packages.Sample.{to_be, from_be, print}
use modular_indexer_committe.Bytes.{bytes_equal}
use modular_indexer_committe.Brc20.Exec.{
  parse_decimals, media_type, is_media_type, parse_amount, parse_limit, deploy_supply, exec_deploy,
  mint_checked, exec_mint, exec_transfer, exec_one, exec_all, exec,
}
use modular_indexer_committe.Brc20.Keys.{
  tick_pkscript_image, tick_image, wallet_image, event_image, stem_of, get_tick_pkscript_hash,
  get_tick_hash, get_wallet_hash, get_event_hash,
}
use modular_indexer_committe.Numbers.{
  is_positive_number, digits_and_dot, last_byte, number_with_dot, is_positive_number_with_dot,
  repeat_zeros, or_overflow, extend_parts, get_number_extended_to_18_decimals, ten18_loop,
  get_limit,
}
use modular_indexer_committe.Storage.{
  to_array, suffix, slot_key, insert_uint256, get_uint256, insert_slots, pad, insert_bytes,
  get_slots, get_bytes, insert_inscription_id, get_inscription_id, slot_storage,
}
use modular_indexer_committe.Bytes.Hex.{hex_value, decode_string, hex_digit, encode_to_string}
use modular_indexer_committe.Bytes.Text.{
  split, contains_byte, is_ascii_digit, value_from, decimal_value, all_digits, parse_below,
}
use modular_indexer_committe.Header.Paging.{page_entries, clear_block, paging}
use modular_indexer_committe.Queue.Proofs.{
  new_values, post_values, bytes_less, insert_path, sorted_paths, generate_proof_from_update,
}
use modular_indexer_committe.Brc20.Ops.{
  decode_or_panic, update_uint256, update_balance, get_balances, update_tick_state,
  update_latest_pkscript, get_latest_pkscript, update_wallet_and_pkscript, get_wallet_and_pkscript,
  get_event_counts, is_used_or_invalid, count_event, deploy_inscribe, mint_inscribe,
  transfer_inscribe, transfer_transfer_spend_to_fee, transfer_transfer_normal,
}
use modular_indexer_committe.Header.{
  default_value, record_write, record_read, current_value, header_insert, header_get, header_cells,
}

-- The tick exists.
abbrev listed : Header (KeyMap Bytes)
listed =
    written (get_tick_hash sample_codec (codes "ordi") 0) (sample_uint256.write_to_array32 1) fresh

listed-IsValid : IsValid sample_verkle AnyTree listed
listed-IsValid =
    written-IsValid sample_verkle AnyTree (get_tick_hash sample_codec (codes "ordi") 0)
      (sample_uint256.write_to_array32 1) fresh fresh-IsValid
      (length-get_tick_hash sample_codec-laws (codes "ordi") 0)
      (sample_uint256-laws.length-write_to_array32 1)

-- It has 18 decimals.
abbrev deployed : Header (KeyMap Bytes)
deployed =
    written (get_tick_hash sample_codec (codes "ordi") 4) (sample_uint256.write_to_array32 18)
      listed

deployed-IsValid : IsValid sample_verkle AnyTree deployed
deployed-IsValid =
    written-IsValid sample_verkle AnyTree (get_tick_hash sample_codec (codes "ordi") 4)
      (sample_uint256.write_to_array32 18) listed listed-IsValid
      (length-get_tick_hash sample_codec-laws (codes "ordi") 4)
      (sample_uint256-laws.length-write_to_array32 18)

-- `id` was inscribed once.
abbrev inscribed : Header (KeyMap Bytes)
inscribed =
    written (get_event_hash sample_codec (codes "id") 0) (sample_uint256.write_to_array32 1)
      deployed

inscribed-IsValid : IsValid sample_verkle AnyTree inscribed
inscribed-IsValid =
    written-IsValid sample_verkle AnyTree (get_event_hash sample_codec (codes "id") 0)
      (sample_uint256.write_to_array32 1) deployed deployed-IsValid
      (length-get_event_hash sample_codec-laws (codes "id") 0)
      (sample_uint256-laws.length-write_to_array32 1)

-- `id` was transferred once.
abbrev transferred : Header (KeyMap Bytes)
transferred =
    written (get_event_hash sample_codec (codes "id") 1) (sample_uint256.write_to_array32 1)
      inscribed

transferred-IsValid : IsValid sample_verkle AnyTree transferred
transferred-IsValid =
    written-IsValid sample_verkle AnyTree (get_event_hash sample_codec (codes "id") 1)
      (sample_uint256.write_to_array32 1) inscribed inscribed-IsValid
      (length-get_event_hash sample_codec-laws (codes "id") 1)
      (sample_uint256-laws.length-write_to_array32 1)

transferred-Within : Within sample_verkle AnyTree transferred transferred
transferred-Within = record {
  valid = transferred-IsValid;
  same_root = refl;
  same_kv = refl;
  same_height = refl;
  same_hash = refl;
}

-- A second move of `id`.
abbrev again : OrdTransfer
again = record {
  id = 3;
  inscription_id = codes "id";
  block_height = 11;
  old_satpoint = codes "old";
  new_satpoint = codes "new";
  new_pkscript = codes "52";
  new_wallet = codes "w";
  sent_as_fee = Bool.false;
  content = [];
  content_type = codes "text/plain";
  parent_id = [];
}

abbrev amount_5 : KeyMap Bytes
amount_5 = (codes "amt", codes "5") ∷ []

-- The header that a run left.
abbrev left : {A : Type 0} → Outcome (A × Header (KeyMap Bytes)) → Header (KeyMap Bytes)
left (done (a, h)) = h
left (panic r) = fresh

abbrev second : Outcome (Unit {0} × Header (KeyMap Bytes))
second =
    exec_transfer sample_codec sample_uint256
      (slot_storage sample_uint256 (header_cells sample_verkle)) amount_5 again (codes "ordi")
      transferred

second_runs : second ≡ done (tt, left second)
unfolding header_view copy_elements copy_diff first_height shift_in check_for_reorg start_height
    latest_height exec_header update_block update_loop update rollback_block rollback_loop
    replay_block replay_loop recovery lookup insert delete to_be from_be print sample_uint256
    sample_verkle sample_codec bytes_equal parse_decimals media_type is_media_type parse_amount
    parse_limit deploy_supply exec_deploy mint_checked exec_mint exec_transfer exec_one exec_all
    exec tick_pkscript_image tick_image wallet_image event_image stem_of get_tick_pkscript_hash
    get_tick_hash get_wallet_hash get_event_hash is_positive_number digits_and_dot last_byte
    number_with_dot is_positive_number_with_dot repeat_zeros or_overflow extend_parts
    get_number_extended_to_18_decimals ten18_loop get_limit to_array suffix slot_key insert_uint256
    get_uint256 insert_slots pad insert_bytes get_slots get_bytes insert_inscription_id
    get_inscription_id slot_storage hex_value decode_string hex_digit encode_to_string split
    contains_byte is_ascii_digit value_from decimal_value all_digits parse_below undo page_entries
    clear_block paging build_tree new_values post_values bytes_less insert_path sorted_paths
    generate_proof_from_update decode_or_panic update_uint256 update_balance get_balances
    update_tick_state update_latest_pkscript get_latest_pkscript update_wallet_and_pkscript
    get_wallet_and_pkscript get_event_counts is_used_or_invalid count_event deploy_inscribe
    mint_inscribe transfer_inscribe transfer_transfer_spend_to_fee transfer_transfer_normal
    default_value record_write record_read current_value header_insert header_get header_cells
second_runs = refl

transfer_count :
    number sample_uint256 header_view transferred (get_event_hash sample_codec (codes "id") 1) ≡ 1
unfolding header_view copy_elements copy_diff first_height shift_in check_for_reorg start_height
    latest_height exec_header update_block update_loop update rollback_block rollback_loop
    replay_block replay_loop recovery lookup insert delete to_be from_be print sample_uint256
    sample_verkle sample_codec bytes_equal parse_decimals media_type is_media_type parse_amount
    parse_limit deploy_supply exec_deploy mint_checked exec_mint exec_transfer exec_one exec_all
    exec tick_pkscript_image tick_image wallet_image event_image stem_of get_tick_pkscript_hash
    get_tick_hash get_wallet_hash get_event_hash is_positive_number digits_and_dot last_byte
    number_with_dot is_positive_number_with_dot repeat_zeros or_overflow extend_parts
    get_number_extended_to_18_decimals ten18_loop get_limit to_array suffix slot_key insert_uint256
    get_uint256 insert_slots pad insert_bytes get_slots get_bytes insert_inscription_id
    get_inscription_id slot_storage hex_value decode_string hex_digit encode_to_string split
    contains_byte is_ascii_digit value_from decimal_value all_digits parse_below undo page_entries
    clear_block paging build_tree new_values post_values bytes_less insert_path sorted_paths
    generate_proof_from_update decode_or_panic update_uint256 update_balance get_balances
    update_tick_state update_latest_pkscript get_latest_pkscript update_wallet_and_pkscript
    get_wallet_and_pkscript get_event_counts is_used_or_invalid count_event deploy_inscribe
    mint_inscribe transfer_inscribe transfer_transfer_spend_to_fee transfer_transfer_normal
    default_value record_write record_read current_value header_insert header_get header_cells
transfer_count = refl

exec_transfer-used_example :
    Within sample_verkle AnyTree transferred (left second)
    × ((j : Bytes) → header_view (left second) j ≡ header_view transferred j)
unfolding header_cells
exec_transfer-used_example =
    exec_transfer-used sample_codec-laws sample_uint256-laws
      (header_cells-laws sample_verkle AnyTree transferred) (get_size sample_verkle AnyTree) again
      transferred (λ e. omega arith) (λ e. λ z. omega (arith, transfer_count, z)) amount_5
      (codes "ordi") (left second) transferred-Within second_runs
