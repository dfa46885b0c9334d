-- ===== src/Tests/Forks.antt =====
-- Chains that fork, at a queue of six empty blocks.
use modular_indexer_committe.Prelude.{
  ℕ, ◌≡◌, ◌+◌, ◌<◌, ◌≤◌, ◌^◌, ltb, refl, true, [], ◌∷◌, arith, All, ◌==◌, if◌then◌else◌,
}
use modular_indexer_committe.Prelude.Outcome.{ok}
use modular_indexer_committe.Bytes.{Bytes}
use modular_indexer_committe.KeyMap.{KeyMap, lookup}
use modular_indexer_committe.OrdGetter.{OrdGetter}
use modular_indexer_committe.Packages.Sample.{
  sample_uint256, sample_verkle, AnyTree, sample_verkle-laws, sample_codec,
}
use modular_indexer_committe.Header.Paging.{undo, build_tree}
use modular_indexer_committe.Queue.{
  Queue, exec_header, update, recovery, check_for_reorg, rollback_loop, start_height,
}
use modular_indexer_committe.Tests.Headers.{fresh, fresh-IsValid}
use modular_indexer_committe.Queue.Reorg.{Confirmed}
use modular_indexer_committe.Queue.Confirmed.{update-Confirmed}
use modular_indexer_committe.Stages.{catchup_loop}
use modular_indexer_committe.Stages.Follow.{Follows, exec_header-Alike, update-Follows}
use modular_indexer_committe.Stages.Reorg.{recovery-update}
use modular_indexer_committe.Stages.Service.{follow_chain}
use modular_indexer_committe.Stages.Service.Reach.{
  IsServing, LastConfirmed, Serves, Serves.start, Serves.round, Serves-IsServing,
}
use modular_indexer_committe.Header.Alike.{Alike}
use modular_indexer_committe.Prelude.Outcome.Simulates.{Simulates}
use modular_indexer_committe.Tests.Queues.{
  tools, six, six-IsLinked, chain, settled, settled_lem, is_settled, deploy_ordi, mint_ordi,
  update_runs,
}
use modular_indexer_committe.Queue.{
  copy_elements, copy_diff, first_height, shift_in, latest_height, update_block, update_loop,
  rollback_block, replay_block, replay_loop,
}
use modular_indexer_committe.KeyMap.{insert, delete}
use modular_indexer_committe.Packages.Sample.{to_be, from_be, print}
use modular_indexer_committe.Bytes.{bytes_equal}
use modular_indexer_committe.Brc20.Exec.{
  parse_decimals, media_type, is_media_type, parse_amount, parse_limit, deploy_supply, exec_deploy,
  mint_checked, exec_mint, exec_transfer, exec_one, exec_all, exec,
}
use modular_indexer_committe.Brc20.Keys.{
  tick_pkscript_image, tick_image, wallet_image, event_image, stem_of, get_tick_pkscript_hash,
  get_tick_hash, get_wallet_hash, get_event_hash,
}
use modular_indexer_committe.Numbers.{
  is_positive_number, digits_and_dot, last_byte, number_with_dot, is_positive_number_with_dot,
  repeat_zeros, or_overflow, extend_parts, get_number_extended_to_18_decimals, ten18_loop,
  get_limit,
}
use modular_indexer_committe.Storage.{
  to_array, suffix, slot_key, insert_uint256, get_uint256, insert_slots, pad, insert_bytes,
  get_slots, get_bytes, insert_inscription_id, get_inscription_id, slot_storage,
}
use modular_indexer_committe.Bytes.Hex.{hex_value, decode_string, hex_digit, encode_to_string}
use modular_indexer_committe.Bytes.Text.{
  split, contains_byte, is_ascii_digit, value_from, decimal_value, all_digits, parse_below,
}
use modular_indexer_committe.Header.Paging.{page_entries, clear_block, paging}
use modular_indexer_committe.Queue.Proofs.{
  new_values, post_values, bytes_less, insert_path, sorted_paths, generate_proof_from_update,
}
use modular_indexer_committe.Brc20.Ops.{
  decode_or_panic, update_uint256, update_balance, get_balances, update_tick_state,
  update_latest_pkscript, get_latest_pkscript, update_wallet_and_pkscript, get_wallet_and_pkscript,
  get_event_counts, is_used_or_invalid, count_event, deploy_inscribe, mint_inscribe,
  transfer_inscribe, transfer_transfer_spend_to_fee, transfer_transfer_normal,
}
use modular_indexer_committe.Header.{
  default_value, record_write, record_read, current_value, header_insert, header_get, header_cells,
}

-- A chain whose blocks from 10 on are others.
abbrev forked : OrdGetter
forked = record {
  get_latest_block_height = ok 12;
  get_block_hash = λ height. ok (if ltb height 10 then height ∷ [] else 0 ∷ height ∷ []);
  get_ord_transfers = λ height. if height == 10 then ok (deploy_ordi ∷ []) else ok [];
}

-- The queue after the block 11 of the first chain.
abbrev one_later : Queue (KeyMap Bytes)
one_later = settled (update sample_verkle sample_codec sample_uint256 tools chain 11 six)

recovery_runs :
    is_settled (recovery sample_verkle sample_codec sample_uint256 tools forked 11 one_later) ≡ true
unfolding copy_elements copy_diff first_height shift_in check_for_reorg start_height latest_height
    exec_header update_block update_loop update rollback_block rollback_loop replay_block
    replay_loop recovery lookup insert delete to_be from_be print sample_uint256 sample_verkle
    sample_codec bytes_equal parse_decimals media_type is_media_type parse_amount parse_limit
    deploy_supply exec_deploy mint_checked exec_mint exec_transfer exec_one exec_all exec
    tick_pkscript_image tick_image wallet_image event_image stem_of get_tick_pkscript_hash
    get_tick_hash get_wallet_hash get_event_hash is_positive_number digits_and_dot last_byte
    number_with_dot is_positive_number_with_dot repeat_zeros or_overflow extend_parts
    get_number_extended_to_18_decimals ten18_loop get_limit to_array suffix slot_key insert_uint256
    get_uint256 insert_slots pad insert_bytes get_slots get_bytes insert_inscription_id
    get_inscription_id slot_storage hex_value decode_string hex_digit encode_to_string split
    contains_byte is_ascii_digit value_from decimal_value all_digits parse_below undo page_entries
    clear_block paging build_tree new_values post_values bytes_less insert_path sorted_paths
    generate_proof_from_update decode_or_panic update_uint256 update_balance get_balances
    update_tick_state update_latest_pkscript get_latest_pkscript update_wallet_and_pkscript
    get_wallet_and_pkscript get_event_counts is_used_or_invalid count_event deploy_inscribe
    mint_inscribe transfer_inscribe transfer_transfer_spend_to_fee transfer_transfer_normal
    default_value record_write record_read current_value header_insert header_get header_cells
recovery_runs = refl

recovery-update_example :
    Follows sample_verkle-laws sample_codec sample_uint256
      (catchup_loop sample_verkle sample_codec sample_uint256 forked 1 11 fresh)
      (settled
        (recovery sample_verkle sample_codec sample_uint256 tools forked 11 one_later)).header
recovery-update_example =
    recovery-update sample_verkle-laws sample_codec sample_uint256 tools chain forked 1 six
      one_later
      (settled (recovery sample_verkle sample_codec sample_uint256 tools forked 11 one_later))
      six-IsLinked (omega arith) (omega arith)
      (settled_lem (update sample_verkle sample_codec sample_uint256 tools chain 11 six)
        update_runs)
      (settled_lem (recovery sample_verkle sample_codec sample_uint256 tools forked 11 one_later)
        recovery_runs)

update-Follows_example :
    Follows sample_verkle-laws sample_codec sample_uint256
      (catchup_loop sample_verkle sample_codec sample_uint256 chain 1 11 fresh)
      one_later.header
update-Follows_example =
    update-Follows sample_verkle-laws sample_codec sample_uint256 tools chain 11 six one_later fresh
      (record { left = fresh-IsValid; right = fresh-IsValid; same = λ k. refl; same_height = refl })
      refl
      (settled_lem (update sample_verkle sample_codec sample_uint256 tools chain 11 six)
        update_runs)

exec_header-Alike_example :
    Simulates
      (Alike sample_verkle AnyTree)
      (exec_header sample_verkle sample_codec sample_uint256 (deploy_ordi ∷ mint_ordi ∷ []) 11)
      (exec_header sample_verkle sample_codec sample_uint256 (deploy_ordi ∷ mint_ordi ∷ []) 11)
exec_header-Alike_example =
    exec_header-Alike sample_verkle AnyTree sample_codec sample_uint256
      (deploy_ordi ∷ mint_ordi ∷ []) 11

tip_runs : is_settled (update sample_verkle sample_codec sample_uint256 tools forked 11 six) ≡ true
unfolding copy_elements copy_diff first_height shift_in check_for_reorg start_height latest_height
    exec_header update_block update_loop update rollback_block rollback_loop replay_block
    replay_loop recovery lookup insert delete to_be from_be print sample_uint256 sample_verkle
    sample_codec bytes_equal parse_decimals media_type is_media_type parse_amount parse_limit
    deploy_supply exec_deploy mint_checked exec_mint exec_transfer exec_one exec_all exec
    tick_pkscript_image tick_image wallet_image event_image stem_of get_tick_pkscript_hash
    get_tick_hash get_wallet_hash get_event_hash is_positive_number digits_and_dot last_byte
    number_with_dot is_positive_number_with_dot repeat_zeros or_overflow extend_parts
    get_number_extended_to_18_decimals ten18_loop get_limit to_array suffix slot_key insert_uint256
    get_uint256 insert_slots pad insert_bytes get_slots get_bytes insert_inscription_id
    get_inscription_id slot_storage hex_value decode_string hex_digit encode_to_string split
    contains_byte is_ascii_digit value_from decimal_value all_digits parse_below undo page_entries
    clear_block paging build_tree new_values post_values bytes_less insert_path sorted_paths
    generate_proof_from_update decode_or_panic update_uint256 update_balance get_balances
    update_tick_state update_latest_pkscript get_latest_pkscript update_wallet_and_pkscript
    get_wallet_and_pkscript get_event_counts is_used_or_invalid count_event deploy_inscribe
    mint_inscribe transfer_inscribe transfer_transfer_spend_to_fee transfer_transfer_normal
    default_value record_write record_read current_value header_insert header_get header_cells
tip_runs = refl

-- The block 10, which the queue is at, is another one in this chain.
update-Confirmed_example :
    let q' = settled (update sample_verkle sample_codec sample_uint256 tools forked 11 six) in
    All (Confirmed forked) q'.history × (check_for_reorg forked q'.history ≡ ok 0)
update-Confirmed_example =
    update-Confirmed sample_verkle-laws sample_codec sample_uint256 tools forked 11 six
      (settled (update sample_verkle sample_codec sample_uint256 tools forked 11 six))
      (refl, (refl, (refl, (refl, (refl, (refl, tt))))))
      (settled_lem (update sample_verkle sample_codec sample_uint256 tools forked 11 six) tip_runs)

abbrev first_round : Queue (KeyMap Bytes)
first_round = settled (follow_chain sample_verkle sample_codec sample_uint256 tools chain six)

abbrev second_round : Queue (KeyMap Bytes)
second_round =
    settled (follow_chain sample_verkle sample_codec sample_uint256 tools forked first_round)

first_round_runs :
    is_settled (follow_chain sample_verkle sample_codec sample_uint256 tools chain six) ≡ true
unfolding follow_chain copy_elements copy_diff first_height shift_in check_for_reorg start_height
    latest_height exec_header update_block update_loop update rollback_block rollback_loop
    replay_block replay_loop recovery lookup insert delete to_be from_be print sample_uint256
    sample_verkle sample_codec bytes_equal parse_decimals media_type is_media_type parse_amount
    parse_limit deploy_supply exec_deploy mint_checked exec_mint exec_transfer exec_one exec_all
    exec tick_pkscript_image tick_image wallet_image event_image stem_of get_tick_pkscript_hash
    get_tick_hash get_wallet_hash get_event_hash is_positive_number digits_and_dot last_byte
    number_with_dot is_positive_number_with_dot repeat_zeros or_overflow extend_parts
    get_number_extended_to_18_decimals ten18_loop get_limit to_array suffix slot_key insert_uint256
    get_uint256 insert_slots pad insert_bytes get_slots get_bytes insert_inscription_id
    get_inscription_id slot_storage hex_value decode_string hex_digit encode_to_string split
    contains_byte is_ascii_digit value_from decimal_value all_digits parse_below undo page_entries
    clear_block paging build_tree new_values post_values bytes_less insert_path sorted_paths
    generate_proof_from_update decode_or_panic update_uint256 update_balance get_balances
    update_tick_state update_latest_pkscript get_latest_pkscript update_wallet_and_pkscript
    get_wallet_and_pkscript get_event_counts is_used_or_invalid count_event deploy_inscribe
    mint_inscribe transfer_inscribe transfer_transfer_spend_to_fee transfer_transfer_normal
    default_value record_write record_read current_value header_insert header_get header_cells
first_round_runs = refl

second_round_runs :
    is_settled (follow_chain sample_verkle sample_codec sample_uint256 tools forked first_round)
    ≡ true
unfolding follow_chain copy_elements copy_diff first_height shift_in check_for_reorg start_height
    latest_height exec_header update_block update_loop update rollback_block rollback_loop
    replay_block replay_loop recovery lookup insert delete to_be from_be print sample_uint256
    sample_verkle sample_codec bytes_equal parse_decimals media_type is_media_type parse_amount
    parse_limit deploy_supply exec_deploy mint_checked exec_mint exec_transfer exec_one exec_all
    exec tick_pkscript_image tick_image wallet_image event_image stem_of get_tick_pkscript_hash
    get_tick_hash get_wallet_hash get_event_hash is_positive_number digits_and_dot last_byte
    number_with_dot is_positive_number_with_dot repeat_zeros or_overflow extend_parts
    get_number_extended_to_18_decimals ten18_loop get_limit to_array suffix slot_key insert_uint256
    get_uint256 insert_slots pad insert_bytes get_slots get_bytes insert_inscription_id
    get_inscription_id slot_storage hex_value decode_string hex_digit encode_to_string split
    contains_byte is_ascii_digit value_from decimal_value all_digits parse_below undo page_entries
    clear_block paging build_tree new_values post_values bytes_less insert_path sorted_paths
    generate_proof_from_update decode_or_panic update_uint256 update_balance get_balances
    update_tick_state update_latest_pkscript get_latest_pkscript update_wallet_and_pkscript
    get_wallet_and_pkscript get_event_counts is_used_or_invalid count_event deploy_inscribe
    mint_inscribe transfer_inscribe transfer_transfer_spend_to_fee transfer_transfer_normal
    default_value record_write record_read current_value header_insert header_get header_cells
second_round_runs = refl

bounded : (n latest : ℕ) → n + 1 < 2 ^ 64 → ok n ≡ ok latest → latest + 1 < 2 ^ 64
bounded n latest small e = let same : n ≡ latest = cc in omega arith

six-IsServing : IsServing sample_verkle-laws sample_codec sample_uint256 tools six
six-IsServing = record { linked = six-IsLinked; high = omega arith; small = omega arith }

rounds :
    Serves sample_verkle-laws sample_codec sample_uint256 tools six
      (forked ∷ chain ∷ [])
      second_round
rounds =
    round
      (round start (
        settled_lem (follow_chain sample_verkle sample_codec sample_uint256 tools chain six)
          first_round_runs))
      (settled_lem (follow_chain sample_verkle sample_codec sample_uint256 tools forked first_round)
        second_round_runs)

Serves-IsServing_example :
    IsServing sample_verkle-laws sample_codec sample_uint256 tools second_round
    × LastConfirmed sample_verkle-laws sample_codec sample_uint256 tools
        (forked ∷ chain ∷ [])
        second_round
    × (six.header.height ≤ second_round.header.height)
Serves-IsServing_example =
    Serves-IsServing sample_verkle-laws sample_codec sample_uint256 tools six second_round
      (forked ∷ chain ∷ [])
      (
        λ latest e. bounded 12 latest (omega arith) e,
        (λ latest e. bounded 11 latest (omega arith) e, tt),
      )
      six-IsServing rounds
