-- ===== src/Tests/Queues.antt =====
-- Queue, at a queue of six empty blocks and a chain whose next block deploys a token.
use modular_indexer_committe.Prelude.{
  ℕ, ◌≡◌, ◌+◌, ltb, ◌⊎◌, refl, Bool, true, false, Option, none, some, [], ◌∷◌, ◌++◌, arith, All,
  ◌==◌, if◌then◌else◌, map, replicate,
}
use modular_indexer_committe.Prelude.Outcome.{Result, err, ok, Outcome, done, panic, out_of_range}
use modular_indexer_committe.Bytes.{Bytes, codes}
use modular_indexer_committe.KeyMap.{KeyMap, lookup}
use modular_indexer_committe.OrdGetter.{OrdGetter, OrdTransfer}
use modular_indexer_committe.Packages.Sample.{
  sample_uint256, sample_verkle, AnyTree, sample_verkle-laws, sample_codec,
}
use modular_indexer_committe.Header.{Header}
use modular_indexer_committe.Header.Valid.{IsValid}
use modular_indexer_committe.Header.Access.{Within}
use modular_indexer_committe.Header.Paging.{undo, build_tree}
use modular_indexer_committe.Queue.{
  Queue, DiffState, exec_header, update, recovery, check_for_reorg, rollback_loop, start_height,
}
use modular_indexer_committe.Queue.Proofs.{ProofTools}
use modular_indexer_committe.Queue.Heights.{exec_header-Within}
use modular_indexer_committe.Queue.Chain.{IsLinked}
use modular_indexer_committe.Queue.Update.{update-IsLinked}
use modular_indexer_committe.Queue.Reorg.{
  Confirmed, FirstChange, check_for_reorg_lem, rollback_loop-height, recovery_too_deep,
}
use modular_indexer_committe.Queue.Recovery.{recovery-IsLinked}
use modular_indexer_committe.Tests.Headers.{fresh, fresh-IsValid}
use modular_indexer_committe.Queue.{
  copy_elements, copy_diff, first_height, shift_in, latest_height, update_block, update_loop,
  rollback_block, replay_block, replay_loop,
}
use modular_indexer_committe.KeyMap.{insert, delete}
use modular_indexer_committe.Packages.Sample.{to_be, from_be, print}
use modular_indexer_committe.Bytes.{bytes_equal}
use modular_indexer_committe.Brc20.Exec.{
  parse_decimals, media_type, is_media_type, parse_amount, parse_limit, deploy_supply, exec_deploy,
  mint_checked, exec_mint, exec_transfer, exec_one, exec_all, exec,
}
use modular_indexer_committe.Brc20.Keys.{
  tick_pkscript_image, tick_image, wallet_image, event_image, stem_of, get_tick_pkscript_hash,
  get_tick_hash, get_wallet_hash, get_event_hash,
}
use modular_indexer_committe.Numbers.{
  is_positive_number, digits_and_dot, last_byte, number_with_dot, is_positive_number_with_dot,
  repeat_zeros, or_overflow, extend_parts, get_number_extended_to_18_decimals, ten18_loop,
  get_limit,
}
use modular_indexer_committe.Storage.{
  to_array, suffix, slot_key, insert_uint256, get_uint256, insert_slots, pad, insert_bytes,
  get_slots, get_bytes, insert_inscription_id, get_inscription_id, slot_storage,
}
use modular_indexer_committe.Bytes.Hex.{hex_value, decode_string, hex_digit, encode_to_string}
use modular_indexer_committe.Bytes.Text.{
  split, contains_byte, is_ascii_digit, value_from, decimal_value, all_digits, parse_below,
}
use modular_indexer_committe.Header.Paging.{page_entries, clear_block, paging}
use modular_indexer_committe.Queue.Proofs.{
  new_values, post_values, bytes_less, insert_path, sorted_paths, generate_proof_from_update,
}
use modular_indexer_committe.Brc20.Ops.{
  decode_or_panic, update_uint256, update_balance, get_balances, update_tick_state,
  update_latest_pkscript, get_latest_pkscript, update_wallet_and_pkscript, get_wallet_and_pkscript,
  get_event_counts, is_used_or_invalid, count_event, deploy_inscribe, mint_inscribe,
  transfer_inscribe, transfer_transfer_spend_to_fee, transfer_transfer_normal,
}
use modular_indexer_committe.Header.{
  default_value, record_write, record_read, current_value, header_insert, header_get, header_cells,
}
use modular_indexer_committe.Queue.Start.{new_queues, start_loop, start_block}
use modular_indexer_committe.Queue.Start.Linked.{new_queues-IsLinked}

abbrev pub tools : ProofTools (KeyMap Bytes)
tools = record {
  get_commitments = λ root keys. ok (record {
    keys = keys;
    vals = map (λ (k : Bytes). replicate 32 0) keys;
    by_path = ([], []) ∷ [];
    ext_status = [];
    poa_stems = [];
  });
  create_multi_proof = λ pe. ok [];
}

abbrev quiet : ℕ → DiffState
quiet height = record { height = height; hash = height ∷ []; verkle_commit = []; access = [] }

abbrev pub six : Queue (KeyMap Bytes)
six = record {
  header = fresh;
  history = quiet 4 ∷ quiet 5 ∷ quiet 6 ∷ quiet 7 ∷ quiet 8 ∷ quiet 9 ∷ [];
  last_state_proof = none;
}

pub six-IsLinked : IsLinked sample_verkle AnyTree six
unfolding sample_verkle undo build_tree
six-IsLinked = record {
  valid = fresh-IsValid;
  idle = refl;
  no_access = refl;
  sized = refl;
  chain = (
    record { diff = quiet 9; at = refl; next_height = refl; old_sized = tt; commits = refl },
    (
      record { diff = quiet 8; at = refl; next_height = refl; old_sized = tt; commits = refl },
      (
        record { diff = quiet 7; at = refl; next_height = refl; old_sized = tt; commits = refl },
        (
          record { diff = quiet 6; at = refl; next_height = refl; old_sized = tt; commits = refl },
          (
            record {
              diff = quiet 5;
              at = refl;
              next_height = refl;
              old_sized = tt;
              commits = refl;
            },
            (
              record {
                diff = quiet 4;
                at = refl;
                next_height = refl;
                old_sized = tt;
                commits = refl;
              },
              tt,
            ),
          ),
        ),
      ),
    ),
  );
}

-- A transfer that an inscription makes, with the members of its content.
abbrev pub inscribe : ℕ → Bytes → OrdTransfer
inscribe id content = record {
  id = id;
  inscription_id = replicate 64 b'a' ++ codes "i0";
  block_height = 11;
  old_satpoint = [];
  new_satpoint = codes "tx:0:0";
  new_pkscript = codes "51";
  new_wallet = codes "wallet";
  sent_as_fee = false;
  content = content;
  content_type = codes "text/plain;charset=utf-8";
  parent_id = [];
}

abbrev pub deploy_ordi : OrdTransfer
deploy_ordi = inscribe 1 (codes "op:deploy,tick:ORDI,max:21.5,lim:2")

abbrev pub mint_ordi : OrdTransfer
mint_ordi = inscribe 2 (codes "op:mint,tick:ordi,amt:1.5")

abbrev pub chain : OrdGetter
chain = record {
  get_latest_block_height = ok 11;
  get_block_hash = λ height. ok (height ∷ []);
  get_ord_transfers = λ height. if height == 11 then ok (deploy_ordi ∷ mint_ordi ∷ []) else ok [];
}

-- The state of a run that neither panicked nor returned an error.
abbrev pub settled : Outcome (Option Bytes × Queue (KeyMap Bytes)) → Queue (KeyMap Bytes)
settled (done (none, q)) = q
settled _ = six

abbrev pub is_settled : Outcome (Option Bytes × Queue (KeyMap Bytes)) → Bool
is_settled (done (none, q)) = true
is_settled _ = false

pub settled_lem :
    (o : Outcome (Option Bytes × Queue (KeyMap Bytes)))
    → is_settled o ≡ true
    → o ≡ done (none, settled o)
settled_lem (done (none, q)) e = refl
settled_lem (done (some x, q)) e = absurd (cc)
settled_lem (panic r) e = absurd (cc)

pub update_runs :
    is_settled (update sample_verkle sample_codec sample_uint256 tools chain 11 six) ≡ true
unfolding copy_elements copy_diff first_height shift_in check_for_reorg start_height latest_height
    exec_header update_block update_loop update rollback_block rollback_loop replay_block
    replay_loop recovery lookup insert delete to_be from_be print sample_uint256 sample_verkle
    sample_codec bytes_equal parse_decimals media_type is_media_type parse_amount parse_limit
    deploy_supply exec_deploy mint_checked exec_mint exec_transfer exec_one exec_all exec
    tick_pkscript_image tick_image wallet_image event_image stem_of get_tick_pkscript_hash
    get_tick_hash get_wallet_hash get_event_hash is_positive_number digits_and_dot last_byte
    number_with_dot is_positive_number_with_dot repeat_zeros or_overflow extend_parts
    get_number_extended_to_18_decimals ten18_loop get_limit to_array suffix slot_key insert_uint256
    get_uint256 insert_slots pad insert_bytes get_slots get_bytes insert_inscription_id
    get_inscription_id slot_storage hex_value decode_string hex_digit encode_to_string split
    contains_byte is_ascii_digit value_from decimal_value all_digits parse_below undo page_entries
    clear_block paging build_tree new_values post_values bytes_less insert_path sorted_paths
    generate_proof_from_update decode_or_panic update_uint256 update_balance get_balances
    update_tick_state update_latest_pkscript get_latest_pkscript update_wallet_and_pkscript
    get_wallet_and_pkscript get_event_counts is_used_or_invalid count_event deploy_inscribe
    mint_inscribe transfer_inscribe transfer_transfer_spend_to_fee transfer_transfer_normal
    default_value record_write record_read current_value header_insert header_get header_cells
update_runs = refl

update-IsLinked_example :
    let q' = settled (update sample_verkle sample_codec sample_uint256 tools chain 11 six) in
    IsLinked sample_verkle AnyTree q' × (q'.header.height ≡ 11)
update-IsLinked_example =
    update-IsLinked sample_verkle-laws sample_codec sample_uint256 tools chain 11 six
      (settled (update sample_verkle sample_codec sample_uint256 tools chain 11 six)) six-IsLinked
      (settled_lem (update sample_verkle sample_codec sample_uint256 tools chain 11 six)
        update_runs)

recovery_runs :
    is_settled (recovery sample_verkle sample_codec sample_uint256 tools chain 9 six) ≡ true
unfolding recovery copy_elements copy_diff first_height shift_in check_for_reorg start_height
    latest_height exec_header update_block update_loop update rollback_block rollback_loop
    replay_block replay_loop lookup insert delete to_be from_be print sample_uint256 sample_verkle
    sample_codec bytes_equal parse_decimals media_type is_media_type parse_amount parse_limit
    deploy_supply exec_deploy mint_checked exec_mint exec_transfer exec_one exec_all exec
    tick_pkscript_image tick_image wallet_image event_image stem_of get_tick_pkscript_hash
    get_tick_hash get_wallet_hash get_event_hash is_positive_number digits_and_dot last_byte
    number_with_dot is_positive_number_with_dot repeat_zeros or_overflow extend_parts
    get_number_extended_to_18_decimals ten18_loop get_limit to_array suffix slot_key insert_uint256
    get_uint256 insert_slots pad insert_bytes get_slots get_bytes insert_inscription_id
    get_inscription_id slot_storage hex_value decode_string hex_digit encode_to_string split
    contains_byte is_ascii_digit value_from decimal_value all_digits parse_below undo page_entries
    clear_block paging build_tree new_values post_values bytes_less insert_path sorted_paths
    generate_proof_from_update decode_or_panic update_uint256 update_balance get_balances
    update_tick_state update_latest_pkscript get_latest_pkscript update_wallet_and_pkscript
    get_wallet_and_pkscript get_event_counts is_used_or_invalid count_event deploy_inscribe
    mint_inscribe transfer_inscribe transfer_transfer_spend_to_fee transfer_transfer_normal
    default_value record_write record_read current_value header_insert header_get header_cells
recovery_runs = refl

recovery-IsLinked_example :
    let q' = settled (recovery sample_verkle sample_codec sample_uint256 tools chain 9 six) in
    IsLinked sample_verkle AnyTree q' × (q'.header.height ≡ 10)
unfolding start_height first_height
recovery-IsLinked_example =
    recovery-IsLinked sample_verkle-laws sample_codec sample_uint256 tools chain 9 six
      (settled (recovery sample_verkle sample_codec sample_uint256 tools chain 9 six)) six-IsLinked
      (omega arith) (omega arith) (omega arith)
      (settled_lem (recovery sample_verkle sample_codec sample_uint256 tools chain 9 six)
        recovery_runs)

rollback_loop-height_example :
    (q' : Queue (KeyMap Bytes)) × (rollback_loop sample_verkle sample_codec sample_uint256 tools
        (start_height six)
        4
        9
        six
      ≡ done q')
    × IsValid sample_verkle AnyTree q'.header
    × (q'.header.height + 1 ≡ 7)
    × (q'.history ≡ six.history)
unfolding start_height first_height
rollback_loop-height_example =
    rollback_loop-height sample_verkle-laws sample_codec sample_uint256 tools 7 six six-IsLinked
      (omega arith) (omega arith) (omega arith) (omega arith)

recovery_too_deep_example :
    recovery sample_verkle sample_codec sample_uint256 tools chain 4 six ≡ panic out_of_range
unfolding start_height first_height
recovery_too_deep_example =
    recovery_too_deep sample_verkle-laws sample_codec sample_uint256 tools chain 4 six six-IsLinked
      (omega arith) (omega arith) (omega arith)

-- The database gives another hash for the blocks from 7 on.
abbrev reorganized : OrdGetter
reorganized = record chain {
  get_block_hash = λ height. ok (if ltb height 7 then height ∷ [] else 0 ∷ []);
}

check_for_reorg_lem_example :
    let n : ℕ = 7 in
    (All (Confirmed reorganized) six.history × (n ≡ 0)) ⊎ FirstChange reorganized six.history n
unfolding check_for_reorg bytes_equal
check_for_reorg_lem_example = check_for_reorg_lem reorganized six.history 7 refl

-- The header of a run of `Exec` that did not panic.
abbrev pub executed : Outcome (Unit {0} × Header (KeyMap Bytes)) → Header (KeyMap Bytes)
executed (done (_, h)) = h
executed (panic r) = fresh

abbrev pub is_executed : Outcome (Unit {0} × Header (KeyMap Bytes)) → Bool
is_executed (done (_, h)) = true
is_executed (panic r) = false

pub executed_lem :
    (o : Outcome (Unit {0} × Header (KeyMap Bytes)))
    → is_executed o ≡ true
    → o ≡ done (tt, executed o)
executed_lem (done (tt, h)) e = refl
executed_lem (panic r) e = absurd (cc)

exec_runs :
    is_executed (
      exec_header sample_verkle sample_codec sample_uint256 (deploy_ordi ∷ mint_ordi ∷ []) 11 fresh)
    ≡ true
unfolding copy_elements copy_diff first_height shift_in check_for_reorg start_height latest_height
    exec_header update_block update_loop update rollback_block rollback_loop replay_block
    replay_loop recovery lookup insert delete to_be from_be print sample_uint256 sample_verkle
    sample_codec bytes_equal parse_decimals media_type is_media_type parse_amount parse_limit
    deploy_supply exec_deploy mint_checked exec_mint exec_transfer exec_one exec_all exec
    tick_pkscript_image tick_image wallet_image event_image stem_of get_tick_pkscript_hash
    get_tick_hash get_wallet_hash get_event_hash is_positive_number digits_and_dot last_byte
    number_with_dot is_positive_number_with_dot repeat_zeros or_overflow extend_parts
    get_number_extended_to_18_decimals ten18_loop get_limit to_array suffix slot_key insert_uint256
    get_uint256 insert_slots pad insert_bytes get_slots get_bytes insert_inscription_id
    get_inscription_id slot_storage hex_value decode_string hex_digit encode_to_string split
    contains_byte is_ascii_digit value_from decimal_value all_digits parse_below undo page_entries
    clear_block paging build_tree new_values post_values bytes_less insert_path sorted_paths
    generate_proof_from_update decode_or_panic update_uint256 update_balance get_balances
    update_tick_state update_latest_pkscript get_latest_pkscript update_wallet_and_pkscript
    get_wallet_and_pkscript get_event_counts is_used_or_invalid count_event deploy_inscribe
    mint_inscribe transfer_inscribe transfer_transfer_spend_to_fee transfer_transfer_normal
    default_value record_write record_read current_value header_insert header_get header_cells
exec_runs = refl

exec_header-Within_example :
    Within sample_verkle AnyTree fresh (
      executed (
        exec_header sample_verkle sample_codec sample_uint256
          (deploy_ordi ∷ mint_ordi ∷ [])
          11
          fresh))
    × (fresh.height ≡ 10)
exec_header-Within_example =
    exec_header-Within sample_verkle AnyTree sample_codec sample_uint256
      (deploy_ordi ∷ mint_ordi ∷ []) 11 fresh
      (executed (
        exec_header sample_verkle sample_codec sample_uint256 (deploy_ordi ∷ mint_ordi ∷ []) 11
          fresh))
      fresh-IsValid
      (executed_lem
        (exec_header sample_verkle sample_codec sample_uint256 (deploy_ordi ∷ mint_ordi ∷ []) 11
          fresh)
        exec_runs)

-- The queue that a run of `NewQueues` made.
abbrev made : Outcome (Result (Queue (KeyMap Bytes))) → Queue (KeyMap Bytes)
made (done (ok q)) = q
made _ = six

abbrev is_made : Outcome (Result (Queue (KeyMap Bytes))) → Bool
is_made (done (ok q)) = true
is_made _ = false

made_lem : (o : Outcome (Result (Queue (KeyMap Bytes)))) → is_made o ≡ true → o ≡ done (ok (made o))
made_lem (done (ok q)) e = refl
made_lem (done (err x)) e = absurd (cc)
made_lem (panic r) e = absurd (cc)

new_queues_runs :
    is_made (new_queues sample_verkle sample_codec sample_uint256 tools chain fresh true 11) ≡ true
unfolding new_queues start_loop start_block copy_elements copy_diff first_height shift_in
    check_for_reorg start_height latest_height exec_header update_block update_loop update
    rollback_block rollback_loop replay_block replay_loop recovery lookup insert delete to_be
    from_be print sample_uint256 sample_verkle sample_codec bytes_equal parse_decimals media_type
    is_media_type parse_amount parse_limit deploy_supply exec_deploy mint_checked exec_mint
    exec_transfer exec_one exec_all exec tick_pkscript_image tick_image wallet_image event_image
    stem_of get_tick_pkscript_hash get_tick_hash get_wallet_hash get_event_hash is_positive_number
    digits_and_dot last_byte number_with_dot is_positive_number_with_dot repeat_zeros or_overflow
    extend_parts get_number_extended_to_18_decimals ten18_loop get_limit to_array suffix slot_key
    insert_uint256 get_uint256 insert_slots pad insert_bytes get_slots get_bytes
    insert_inscription_id get_inscription_id slot_storage hex_value decode_string hex_digit
    encode_to_string split contains_byte is_ascii_digit value_from decimal_value all_digits
    parse_below undo page_entries clear_block paging build_tree new_values post_values bytes_less
    insert_path sorted_paths generate_proof_from_update decode_or_panic update_uint256
    update_balance get_balances update_tick_state update_latest_pkscript get_latest_pkscript
    update_wallet_and_pkscript get_wallet_and_pkscript get_event_counts is_used_or_invalid
    count_event deploy_inscribe mint_inscribe transfer_inscribe transfer_transfer_spend_to_fee
    transfer_transfer_normal default_value record_write record_read current_value header_insert
    header_get header_cells
new_queues_runs = refl

new_queues-IsLinked_example :
    let q = made (new_queues sample_verkle sample_codec sample_uint256 tools chain fresh true 11) in
    IsLinked sample_verkle AnyTree q × (q.header.height ≡ 16)
new_queues-IsLinked_example =
    new_queues-IsLinked sample_verkle-laws sample_codec sample_uint256 tools chain true fresh
      (made (new_queues sample_verkle sample_codec sample_uint256 tools chain fresh true 11))
      fresh-IsValid refl refl (omega arith)
      (made_lem (new_queues sample_verkle sample_codec sample_uint256 tools chain fresh true 11)
        new_queues_runs)
