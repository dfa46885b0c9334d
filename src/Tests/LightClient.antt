-- ===== src/Tests/LightClient.antt =====
-- A light client beside a header, at a block that deploys a token and mints it.
use modular_indexer_committe.Prelude.{◌≡◌, refl, true, [], ◌∷◌}
use modular_indexer_committe.Prelude.Outcome.{Outcome, done}
use modular_indexer_committe.Bytes.{Bytes}
use modular_indexer_committe.KeyMap.{KeyMap, lookup}
use modular_indexer_committe.Packages.Sample.{
  sample_uint256, sample_verkle, sample_verkle-laws, sample_codec,
}
use modular_indexer_committe.Header.{Header}
use modular_indexer_committe.Header.Paging.{undo, build_tree}
use modular_indexer_committe.Queue.{
  exec_header, update, recovery, check_for_reorg, rollback_loop, start_height,
}
use modular_indexer_committe.Tests.Headers.{fresh, fresh-IsValid}
use modular_indexer_committe.Packages.Sample.{sample_uint256-laws}
use modular_indexer_committe.Header.Alike.{held}
use modular_indexer_committe.Light.{LightHeader, light_storage}
use modular_indexer_committe.Light.Strict.{
  strict_get, strict_cells, strict_get_bytes, strict_get_inscription_id, strict_storage,
}
use modular_indexer_committe.Light.Mirrors.{Mirrors}
use modular_indexer_committe.Light.Agreement.{exec-Mirrors}
use modular_indexer_committe.Tests.Queues.{
  chain, deploy_ordi, mint_ordi, executed, is_executed, executed_lem,
}
use modular_indexer_committe.Queue.{
  copy_elements, copy_diff, first_height, shift_in, latest_height, update_block, update_loop,
  rollback_block, replay_block, replay_loop,
}
use modular_indexer_committe.KeyMap.{insert, delete}
use modular_indexer_committe.Packages.Sample.{to_be, from_be, print}
use modular_indexer_committe.Bytes.{bytes_equal}
use modular_indexer_committe.Brc20.Exec.{
  parse_decimals, media_type, is_media_type, parse_amount, parse_limit, deploy_supply, exec_deploy,
  mint_checked, exec_mint, exec_transfer, exec_one, exec_all, exec,
}
use modular_indexer_committe.Brc20.Keys.{
  tick_pkscript_image, tick_image, wallet_image, event_image, stem_of, get_tick_pkscript_hash,
  get_tick_hash, get_wallet_hash, get_event_hash,
}
use modular_indexer_committe.Numbers.{
  is_positive_number, digits_and_dot, last_byte, number_with_dot, is_positive_number_with_dot,
  repeat_zeros, or_overflow, extend_parts, get_number_extended_to_18_decimals, ten18_loop,
  get_limit,
}
use modular_indexer_committe.Storage.{
  to_array, suffix, slot_key, insert_uint256, get_uint256, insert_slots, pad, insert_bytes,
  get_slots, get_bytes, insert_inscription_id, get_inscription_id, slot_storage,
}
use modular_indexer_committe.Bytes.Hex.{hex_value, decode_string, hex_digit, encode_to_string}
use modular_indexer_committe.Bytes.Text.{
  split, contains_byte, is_ascii_digit, value_from, decimal_value, all_digits, parse_below,
}
use modular_indexer_committe.Header.Paging.{page_entries, clear_block, paging}
use modular_indexer_committe.Queue.Proofs.{
  new_values, post_values, bytes_less, insert_path, sorted_paths, generate_proof_from_update,
}
use modular_indexer_committe.Brc20.Ops.{
  decode_or_panic, update_uint256, update_balance, get_balances, update_tick_state,
  update_latest_pkscript, get_latest_pkscript, update_wallet_and_pkscript, get_wallet_and_pkscript,
  get_event_counts, is_used_or_invalid, count_event, deploy_inscribe, mint_inscribe,
  transfer_inscribe, transfer_transfer_spend_to_fee, transfer_transfer_normal,
}
use modular_indexer_committe.Header.{
  default_value, record_write, record_read, current_value, header_insert, header_get, header_cells,
}

abbrev seen : LightHeader (KeyMap Bytes)
seen = record { root = []; height = 10; hash = [] }

abbrev after_block : Outcome (Unit {0} × Header (KeyMap Bytes))
after_block =
    exec sample_codec sample_uint256 (strict_storage sample_verkle sample_uint256)
      (deploy_ordi ∷ mint_ordi ∷ []) 11 fresh

strict_runs : is_executed after_block ≡ true
unfolding strict_get strict_cells strict_get_bytes strict_get_inscription_id strict_storage
    copy_elements copy_diff first_height shift_in check_for_reorg start_height latest_height
    exec_header update_block update_loop update rollback_block rollback_loop replay_block
    replay_loop recovery lookup insert delete to_be from_be print sample_uint256 sample_verkle
    sample_codec bytes_equal parse_decimals media_type is_media_type parse_amount parse_limit
    deploy_supply exec_deploy mint_checked exec_mint exec_transfer exec_one exec_all exec
    tick_pkscript_image tick_image wallet_image event_image stem_of get_tick_pkscript_hash
    get_tick_hash get_wallet_hash get_event_hash is_positive_number digits_and_dot last_byte
    number_with_dot is_positive_number_with_dot repeat_zeros or_overflow extend_parts
    get_number_extended_to_18_decimals ten18_loop get_limit to_array suffix slot_key insert_uint256
    get_uint256 insert_slots pad insert_bytes get_slots get_bytes insert_inscription_id
    get_inscription_id slot_storage hex_value decode_string hex_digit encode_to_string split
    contains_byte is_ascii_digit value_from decimal_value all_digits parse_below undo page_entries
    clear_block paging build_tree new_values post_values bytes_less insert_path sorted_paths
    generate_proof_from_update decode_or_panic update_uint256 update_balance get_balances
    update_tick_state update_latest_pkscript get_latest_pkscript update_wallet_and_pkscript
    get_wallet_and_pkscript get_event_counts is_used_or_invalid count_event deploy_inscribe
    mint_inscribe transfer_inscribe transfer_transfer_spend_to_fee transfer_transfer_normal
    default_value record_write record_read current_value header_insert header_get header_cells
strict_runs = refl

seen-Mirrors : Mirrors sample_verkle-laws sample_uint256-laws fresh seen
unfolding sample_verkle lookup held
seen-Mirrors = record { valid = fresh-IsValid; full = tt; mirrored = λ k. refl; same_height = refl }

exec-Mirrors_example :
    (exec_header sample_verkle sample_codec sample_uint256 (deploy_ordi ∷ mint_ordi ∷ []) 11 fresh
      ≡ done (tt, executed after_block))
    × ((l' : LightHeader (KeyMap Bytes)) × (exec sample_codec sample_uint256
            (light_storage sample_verkle sample_uint256)
            (deploy_ordi ∷ mint_ordi ∷ [])
            11
            seen
          ≡ done (tt, l'))
        × (sample_verkle.commit l'.root
            ≡ sample_verkle.commit (paging sample_verkle chain true (executed after_block)).1.root))
exec-Mirrors_example =
    exec-Mirrors sample_verkle-laws sample_uint256-laws sample_codec chain true
      (deploy_ordi ∷ mint_ordi ∷ []) 11 fresh (executed after_block) seen seen-Mirrors
      (executed_lem after_block strict_runs)
