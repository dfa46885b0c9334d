-- ===== src/Tests/Restart.antt =====
-- The cache of headers and the catch-up stage, over a directory that is a list of files.
use modular_indexer_committe.Prelude.{
  ℕ, zero, suc, ◌≡◌, ◌∙◌, sym, ap, refl, Bool, true, false, Option, none, some, [], ◌∷◌, ◌++◌,
  arith, map, length, take, drop, if◌then◌else◌, length-append, subst, inl, inr, Bool-cases, ◌<◌,
  ◌≤◌,
}
use modular_indexer_committe.Prelude.Outcome.{Result, err, ok, Outcome, done, panic}
use modular_indexer_committe.Bytes.{Bytes, codes}
use modular_indexer_committe.KeyMap.{KeyMap, lookup}
use modular_indexer_committe.Packages.Sample.{
  sample_uint256, sample_verkle, AnyTree, sample_verkle-laws, sample_codec,
}
use modular_indexer_committe.Header.{Header}
use modular_indexer_committe.Header.Paging.{undo, build_tree}
use modular_indexer_committe.Queue.{
  Queue, exec_header, update, recovery, check_for_reorg, rollback_loop, start_height,
}
use modular_indexer_committe.Queue.Chain.{IsLinked}
use modular_indexer_committe.Queue.Update.{update-IsLinked}
use modular_indexer_committe.Tests.Headers.{fresh, fresh-IsValid}
use modular_indexer_committe.Bytes.{bytes_equal_iff}
use modular_indexer_committe.Bytes.Decimal.{format_uint}
use modular_indexer_committe.Bytes.Atoi.{ℤ, pos, less, int_of_uint, atoi, trim_suffix}
use modular_indexer_committe.KeyMap.{lookup-insert, lookup-delete}
use modular_indexer_committe.Header.Valid.{IsSized}
use modular_indexer_committe.Header.Alike.{Alike}
use modular_indexer_committe.Cache.{
  Gob, Disk, file_name, cached_height, latest_file, rebuild, deserialize, load_header, evict,
  store_header,
}
use modular_indexer_committe.Cache.Files.{GobLaws, DiskLaws, IsOlder}
use modular_indexer_committe.Cache.Restart.{load_header-store_header}
use modular_indexer_committe.Stages.{catchup_block, catchup_loop}
use modular_indexer_committe.Stages.Follow.{Follows}
use modular_indexer_committe.Stages.Catchup.{store_if, stage_block, stage_loop, catchup_stage}
use modular_indexer_committe.Stages.Catchup.Proof.{catchup_stage-IsLinked}
use modular_indexer_committe.Queue.Start.{new_queues, start_loop, start_block}
use modular_indexer_committe.Tests.Queues.{
  tools, six, six-IsLinked, chain, settled, settled_lem, update_runs,
}
use modular_indexer_committe.Queue.{
  copy_elements, copy_diff, first_height, shift_in, latest_height, update_block, update_loop,
  rollback_block, replay_block, replay_loop,
}
use modular_indexer_committe.KeyMap.{insert, delete}
use modular_indexer_committe.Packages.Sample.{to_be, from_be, print}
use modular_indexer_committe.Bytes.{bytes_equal}
use modular_indexer_committe.Brc20.Exec.{
  parse_decimals, media_type, is_media_type, parse_amount, parse_limit, deploy_supply, exec_deploy,
  mint_checked, exec_mint, exec_transfer, exec_one, exec_all, exec,
}
use modular_indexer_committe.Brc20.Keys.{
  tick_pkscript_image, tick_image, wallet_image, event_image, stem_of, get_tick_pkscript_hash,
  get_tick_hash, get_wallet_hash, get_event_hash,
}
use modular_indexer_committe.Numbers.{
  is_positive_number, digits_and_dot, last_byte, number_with_dot, is_positive_number_with_dot,
  repeat_zeros, or_overflow, extend_parts, get_number_extended_to_18_decimals, ten18_loop,
  get_limit,
}
use modular_indexer_committe.Storage.{
  to_array, suffix, slot_key, insert_uint256, get_uint256, insert_slots, pad, insert_bytes,
  get_slots, get_bytes, insert_inscription_id, get_inscription_id, slot_storage,
}
use modular_indexer_committe.Bytes.Hex.{hex_value, decode_string, hex_digit, encode_to_string}
use modular_indexer_committe.Bytes.Text.{
  split, contains_byte, is_ascii_digit, value_from, decimal_value, all_digits, parse_below,
}
use modular_indexer_committe.Header.Paging.{page_entries, clear_block, paging}
use modular_indexer_committe.Queue.Proofs.{
  new_values, post_values, bytes_less, insert_path, sorted_paths, generate_proof_from_update,
}
use modular_indexer_committe.Brc20.Ops.{
  decode_or_panic, update_uint256, update_balance, get_balances, update_tick_state,
  update_latest_pkscript, get_latest_pkscript, update_wallet_and_pkscript, get_wallet_and_pkscript,
  get_event_counts, is_used_or_invalid, count_event, deploy_inscribe, mint_inscribe,
  transfer_inscribe, transfer_transfer_spend_to_fee, transfer_transfer_normal,
}
use modular_indexer_committe.Header.{
  default_value, record_write, record_read, current_value, header_insert, header_get, header_cells,
}

-- Keys and values of 32 bytes, one after the other.
unfoldable flat : KeyMap Bytes → Bytes
flat [] = []
flat ((k, v) ∷ m) = k ++ (v ++ flat m)

unfoldable parts : ℕ → Bytes → KeyMap Bytes
parts zero b = []
parts (suc n) [] = []
parts (suc n) (x ∷ b) =
    (take 32 (x ∷ b), take 32 (drop 32 (x ∷ b))) ∷ parts n (drop 32 (drop 32 (x ∷ b)))

abbrev sample_gob : Gob
sample_gob = record { encode = λ m. ok (flat m); decode = λ b. ok (parts (length b) b) }

take-append : (n : ℕ) (a b : Bytes) → length a ≡ n → take n (a ++ b) ≡ a
take-append zero [] b e = refl
take-append zero (x ∷ a) b e = absurd (omega (arith, e))
take-append (suc n) [] b e = absurd (omega (arith, e))
take-append (suc n) (x ∷ a) b e = ap (λ t. x ∷ t) (take-append n a b (omega (arith, e)))

drop-append : (n : ℕ) (a b : Bytes) → length a ≡ n → drop n (a ++ b) ≡ b
drop-append zero [] b e = refl
drop-append zero (x ∷ a) b e = absurd (omega (arith, e))
drop-append (suc n) [] b e = absurd (omega (arith, e))
drop-append (suc n) (x ∷ a) b e = drop-append n a b (omega (arith, e))

parts-step :
    (n : ℕ) (b : Bytes)
    → 0 < length b
    → parts (suc n) b ≡ (take 32 b, take 32 (drop 32 b)) ∷ parts n (drop 32 (drop 32 b))
unfolding parts
parts-step n [] h = absurd (omega (arith, h))
parts-step n (x ∷ b) h = refl

parts-flat : (n : ℕ) (m : KeyMap Bytes) → IsSized m → length m ≤ n → parts n (flat m) ≡ m
unfolding flat
parts-flat zero [] s h = unfold parts in refl
parts-flat (suc n) [] s h = unfold parts in refl
parts-flat zero ((k, v) ∷ m) s h = absurd (omega (arith, h))
parts-flat (suc n) ((k, v) ∷ m) s h =
    let whole = k ++ (v ++ flat m) in
    let behind : drop 32 whole ≡ v ++ flat m = drop-append 32 k (v ++ flat m) s.0.0 in
    parts-step n whole (omega (arith, length-append k (v ++ flat m), s.0.0))
    ∙ ap (λ b. (b, take 32 (drop 32 whole)) ∷ parts n (drop 32 (drop 32 whole)))
        (take-append 32 k (v ++ flat m) s.0.0)
    ∙ ap (λ b. (k, take 32 b) ∷ parts n (drop 32 b)) behind
    ∙ ap (λ b. (k, b) ∷ parts n (drop 32 (v ++ flat m))) (take-append 32 v (flat m) s.0.1)
    ∙ ap (λ b. (k, v) ∷ parts n b) (drop-append 32 v (flat m) s.0.1)
    ∙ ap (λ r. (k, v) ∷ r) (parts-flat n m s.1 (omega (arith, h)))

length-flat : (m : KeyMap Bytes) → IsSized m → length m ≤ length (flat m)
unfolding flat
length-flat [] s = omega arith
length-flat ((k, v) ∷ m) s =
    omega (arith, length-append k (v ++ flat m), length-append v (flat m), length-flat m s.1, s.0.0)

sample_gob-laws : GobLaws sample_gob
sample_gob-laws = record {
  decode-encode = λ m b s e.
      let same : flat m ≡ b = cc in
      (
        m,
        ap (λ x. ok (parts (length x) x)) (sym same)
            ∙ ap ok (parts-flat (length (flat m)) m s (length-flat m s)),
        s,
        λ k. refl,
      );
}

abbrev found : Option Bytes → Result Bytes
found none = err (codes "no such file")
found (some b) = ok b

-- The files by their names.
abbrev sample_disk : Disk (KeyMap Bytes)
sample_disk = record {
  read_dir = λ d. ok (map (λ (name, b). name) d);
  read_file = λ d name. found (lookup name d);
  write_file = λ d name b. ok (insert name b d);
  remove = λ d name. some (delete name d);
}

sample_disk-laws : DiskLaws sample_disk
sample_disk-laws = record {
  read-write = λ d d' name b e.
      let same : insert name b d ≡ d' = cc in
      ap (λ x. found (lookup name x)) (sym same)
      ∙ ap found (
          lookup-insert name name b d
          ∙ ap (λ (t : Bool). if t then some b else lookup name d)
              ((bytes_equal_iff name name).1 refl));
  read-remove = λ d d' name other e different.
      let same : delete other d ≡ d' = cc in
      ap (λ x. found (lookup name x)) (sym same)
      ∙ ap found (
          lookup-delete other name d ∙ elim (Bool-cases (bytes_equal other name)) [
            | inl t ↦ absurd (different (sym ((bytes_equal_iff other name).0 t)))
            | inr f ↦ ap (λ (t : Bool). if t then none else lookup name d) f
          ]);
}

-- The header after the block 11, which deploys a token and mints it.
abbrev after_eleven : Header (KeyMap Bytes)
after_eleven =
    (settled (update sample_verkle sample_codec sample_uint256 tools chain 11 six)).header

abbrev files : KeyMap Bytes
files = (codes "9.dat", []) ∷ (codes "notes", []) ∷ []

abbrev store_run : Outcome (Option Bytes × KeyMap Bytes)
store_run = store_header sample_verkle sample_gob sample_disk after_eleven 9 files

abbrev written_files : Outcome (Option Bytes × KeyMap Bytes) → KeyMap Bytes
written_files (done (_, d)) = d
written_files (panic r) = []

abbrev is_stored : Outcome (Option Bytes × KeyMap Bytes) → Bool
is_stored (done (none, d)) = true
is_stored _ = false

stored_lem :
    (o : Outcome (Option Bytes × KeyMap Bytes))
    → is_stored o ≡ true
    → o ≡ done (none, written_files o)
stored_lem (done (none, d)) e = refl
stored_lem (done (some x, d)) e = absurd (cc)
stored_lem (panic r) e = absurd (cc)

store_runs :
    (is_stored store_run ≡ true)
    × (sample_disk.read_dir (written_files store_run)
        ≡ ok ((codes "9.dat" ∷ codes "notes" ∷ []) ++ file_name after_eleven.height ∷ []))
unfolding store_header file_name cached_height latest_file evict format_uint atoi trim_suffix
    int_of_uint less flat copy_elements copy_diff first_height shift_in check_for_reorg start_height
    latest_height exec_header update_block update_loop update rollback_block rollback_loop
    replay_block replay_loop recovery lookup insert delete to_be from_be print sample_uint256
    sample_verkle sample_codec bytes_equal parse_decimals media_type is_media_type parse_amount
    parse_limit deploy_supply exec_deploy mint_checked exec_mint exec_transfer exec_one exec_all
    exec tick_pkscript_image tick_image wallet_image event_image stem_of get_tick_pkscript_hash
    get_tick_hash get_wallet_hash get_event_hash is_positive_number digits_and_dot last_byte
    number_with_dot is_positive_number_with_dot repeat_zeros or_overflow extend_parts
    get_number_extended_to_18_decimals ten18_loop get_limit to_array suffix slot_key insert_uint256
    get_uint256 insert_slots pad insert_bytes get_slots get_bytes insert_inscription_id
    get_inscription_id slot_storage hex_value decode_string hex_digit encode_to_string split
    contains_byte is_ascii_digit value_from decimal_value all_digits parse_below undo page_entries
    clear_block paging build_tree new_values post_values bytes_less insert_path sorted_paths
    generate_proof_from_update decode_or_panic update_uint256 update_balance get_balances
    update_tick_state update_latest_pkscript get_latest_pkscript update_wallet_and_pkscript
    get_wallet_and_pkscript get_event_counts is_used_or_invalid count_event deploy_inscribe
    mint_inscribe transfer_inscribe transfer_transfer_spend_to_fee transfer_transfer_normal
    default_value record_write record_read current_value header_insert header_get header_cells
store_runs = (refl, refl)

abbrev is_below : Option ℤ → Bool
is_below none = true
is_below (some z) = less z (pos 11)

older : (name : Bytes) (o : Option ℤ) → cached_height name ≡ o → is_below o ≡ true → IsOlder 11 name
older name none e h = λ height e'. absurd (cc)
older name (some z) e h =
    λ height e'. let same : z ≡ height = cc in subst (λ x. less x (pos 11) ≡ true) same h

nine-IsOlder : IsOlder 11 (codes "9.dat")
unfolding cached_height atoi trim_suffix less bytes_equal
nine-IsOlder = older (codes "9.dat") (some (pos 9)) refl refl

notes-IsOlder : IsOlder 11 (codes "notes")
unfolding cached_height atoi trim_suffix bytes_equal
notes-IsOlder = older (codes "notes") none refl refl

eleven-IsLinked :
    IsLinked sample_verkle AnyTree
      (settled (update sample_verkle sample_codec sample_uint256 tools chain 11 six))
    × (after_eleven.height ≡ 11)
eleven-IsLinked =
    update-IsLinked sample_verkle-laws sample_codec sample_uint256 tools chain 11 six
      (settled (update sample_verkle sample_codec sample_uint256 tools chain 11 six)) six-IsLinked
      (settled_lem (update sample_verkle sample_codec sample_uint256 tools chain 11 six)
        update_runs)

load_header-store_header_example :
    (loaded : Header (KeyMap Bytes)) × (load_header sample_verkle sample_gob sample_disk true 4
        (written_files store_run)
      ≡ some loaded)
    × Alike sample_verkle AnyTree loaded after_eleven
    × (sample_verkle.commit loaded.root ≡ sample_verkle.commit after_eleven.root)
load_header-store_header_example =
    load_header-store_header sample_verkle-laws (λ n k v f hk hv. unfold sample_verkle in refl)
      sample_gob-laws sample_disk-laws after_eleven 4 9 files (written_files store_run)
      (codes "9.dat" ∷ codes "notes" ∷ []) [] eleven-IsLinked.0.valid eleven-IsLinked.0.idle
      (omega (arith, eleven-IsLinked.1)) (omega (arith, eleven-IsLinked.1))
      (rw (eleven-IsLinked.1) (unfold less int_of_uint in refl)) (stored_lem store_run store_runs.0)
      store_runs.1 (rw (eleven-IsLinked.1) (nine-IsOlder, (notes-IsOlder, tt))) tt

abbrev built :
    Outcome (Result (Queue (KeyMap Bytes)) × KeyMap Bytes) → Queue (KeyMap Bytes) × KeyMap Bytes
built (done (ok q, d)) = (q, d)
built _ = (six, [])

abbrev is_built : Outcome (Result (Queue (KeyMap Bytes)) × KeyMap Bytes) → Bool
is_built (done (ok q, d)) = true
is_built _ = false

built_lem :
    (o : Outcome (Result (Queue (KeyMap Bytes)) × KeyMap Bytes))
    → is_built o ≡ true
    → o ≡ done (ok (built o).0, (built o).1)
built_lem (done (ok q, d)) e = refl
built_lem (done (err x, d)) e = absurd (cc)
built_lem (panic r) e = absurd (cc)

abbrev catchup_run : Outcome (Result (Queue (KeyMap Bytes)) × KeyMap Bytes)
catchup_run =
    catchup_stage sample_verkle sample_codec sample_uint256 tools sample_gob sample_disk chain true
      10 17 []

catchup_runs : is_built catchup_run ≡ true
unfolding store_if stage_block stage_loop catchup_stage catchup_block catchup_loop new_queues
    start_loop start_block load_header deserialize rebuild store_header file_name cached_height
    latest_file evict format_uint atoi trim_suffix int_of_uint less flat copy_elements copy_diff
    first_height shift_in check_for_reorg start_height latest_height exec_header update_block
    update_loop update rollback_block rollback_loop replay_block replay_loop recovery lookup insert
    delete to_be from_be print sample_uint256 sample_verkle sample_codec bytes_equal parse_decimals
    media_type is_media_type parse_amount parse_limit deploy_supply exec_deploy mint_checked
    exec_mint exec_transfer exec_one exec_all exec tick_pkscript_image tick_image wallet_image
    event_image stem_of get_tick_pkscript_hash get_tick_hash get_wallet_hash get_event_hash
    is_positive_number digits_and_dot last_byte number_with_dot is_positive_number_with_dot
    repeat_zeros or_overflow extend_parts get_number_extended_to_18_decimals ten18_loop get_limit
    to_array suffix slot_key insert_uint256 get_uint256 insert_slots pad insert_bytes get_slots
    get_bytes insert_inscription_id get_inscription_id slot_storage hex_value decode_string
    hex_digit encode_to_string split contains_byte is_ascii_digit value_from decimal_value
    all_digits parse_below undo page_entries clear_block paging build_tree new_values post_values
    bytes_less insert_path sorted_paths generate_proof_from_update decode_or_panic update_uint256
    update_balance get_balances update_tick_state update_latest_pkscript get_latest_pkscript
    update_wallet_and_pkscript get_wallet_and_pkscript get_event_counts is_used_or_invalid
    count_event deploy_inscribe mint_inscribe transfer_inscribe transfer_transfer_spend_to_fee
    transfer_transfer_normal default_value record_write record_read current_value header_insert
    header_get header_cells
catchup_runs = refl

catchup_stage-IsLinked_example :
    let q = (built catchup_run).0 in
    IsLinked sample_verkle AnyTree q
    × (q.header.height ≡ 17)
    × Follows sample_verkle-laws sample_codec sample_uint256
        (catchup_loop sample_verkle sample_codec sample_uint256 chain 7 11 fresh)
        q.header
catchup_stage-IsLinked_example =
    catchup_stage-IsLinked sample_verkle-laws sample_codec sample_uint256 tools sample_gob
      sample_disk chain true 10 17 [] (built catchup_run).1 fresh (built catchup_run).0
      (unfold load_header latest_file sample_verkle in refl)
      (record { valid = fresh-IsValid; idle = refl; no_access = refl }) (omega arith) (omega arith)
      (built_lem catchup_run catchup_runs)
