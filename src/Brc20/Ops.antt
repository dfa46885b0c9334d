-- ===== src/Brc20/Ops.antt =====
-- The operations of ord/stateless/brc20.go on the state of a token, a wallet and an inscription.
use modular_indexer_committe.Prelude.{ℕ, Bool, not, ◌||◌, Option, none, some, ◌==◌, if◌then◌else◌}
use modular_indexer_committe.Prelude.Outcome.{M, pure, fail, ◌>>=◌, ◌>>◌, bad_hex}
use modular_indexer_committe.Bytes.{Bytes, bytes_equal, codes}
use modular_indexer_committe.Bytes.Hex.{decode_string, encode_to_string}
use modular_indexer_committe.Packages.{Uint256, Codec}
use modular_indexer_committe.Storage.{KvStorage}
use modular_indexer_committe.Brc20.Keys
use modular_indexer_committe.Brc20.Keys.{
  get_tick_pkscript_hash, get_tick_hash, get_wallet_hash, get_event_hash,
}

module _ {S : Type 0} (c : Codec) (u : Uint256) (kv : KvStorage S) where
  -- `hex.DecodeString`, and a panic where it fails
  unfoldable pub decode_or_panic : Option Bytes → M S Bytes
  decode_or_panic none = fail bad_hex
  decode_or_panic (some bytes) = pure bytes

  -- The body that `updateBalance` and `updateTickState` share.
  unfoldable pub update_uint256 : (ℕ → ℕ) → Bytes → M S (Unit {0})
  update_uint256 f key = do value ← kv.get_uint256 key; kv.insert_uint256 key (f value)

  unfoldable pub update_balance : (ℕ → ℕ) → Bytes → Bytes → ℕ → M S (Unit {0})
  unfolding update_uint256
  update_balance f tick pkscript loc = update_uint256 f (get_tick_pkscript_hash c tick pkscript loc)

  unfoldable pub get_balances : Bytes → Bytes → M S (Bytes × Bytes × ℕ × ℕ)
  get_balances tick pkscript = do
    let key0 = get_tick_pkscript_hash c tick pkscript Keys.available_balance_pkscript
    let key1 = get_tick_pkscript_hash c tick pkscript Keys.overall_balance_pkscript
    value0 ← kv.get_uint256 key0
    value1 ← kv.get_uint256 key1
    pure (key0, key1, value0, value1)

  unfoldable pub update_tick_state : (ℕ → ℕ) → Bytes → ℕ → M S (Unit {0})
  unfolding update_uint256
  update_tick_state f tick loc = update_uint256 f (get_tick_hash c tick loc)

  unfoldable pub update_latest_pkscript : Bytes → Bytes → M S (Unit {0})
  unfolding decode_or_panic
  update_latest_pkscript wallet pkscript = do
    bytes ← decode_or_panic (decode_string pkscript)
    kv.insert_bytes (get_wallet_hash c wallet Keys.wallet_latest_pkscript) bytes

  unfoldable pub get_latest_pkscript : Bytes → M S (Bytes × Bytes)
  get_latest_pkscript wallet = do
    let key = get_wallet_hash c wallet Keys.wallet_latest_pkscript
    value ← kv.get_bytes key
    pure (key, encode_to_string value)

  unfoldable pub update_wallet_and_pkscript : Bytes → Bytes → Bytes → M S (Unit {0})
  unfolding decode_or_panic
  update_wallet_and_pkscript inscription wallet pkscript = do
    kv.insert_bytes (get_event_hash c inscription Keys.transfer_inscribe_source_wallet)
        (c.base58_decode wallet)
    bytes ← decode_or_panic (decode_string pkscript)
    kv.insert_bytes (get_event_hash c inscription Keys.transfer_inscribe_source_pkscript) bytes

  unfoldable pub get_wallet_and_pkscript : Bytes → M S (Bytes × Bytes)
  get_wallet_and_pkscript inscription = do
    wallet_bytes ← kv.get_bytes (get_event_hash c inscription Keys.transfer_inscribe_source_wallet)
    pkscript_bytes ←
        kv.get_bytes (get_event_hash c inscription Keys.transfer_inscribe_source_pkscript)
    pure (c.base58_encode wallet_bytes, encode_to_string pkscript_bytes)

  unfoldable pub get_event_counts : Bytes → M S (ℕ × ℕ)
  get_event_counts inscription = do
    value0 ← kv.get_uint256 (get_event_hash c inscription Keys.transfer_inscribe_count)
    value1 ← kv.get_uint256 (get_event_hash c inscription Keys.transfer_transfer_count)
    pure (value0, value1)

  unfoldable pub is_used_or_invalid : Bytes → M S Bool
  unfolding get_event_counts
  is_used_or_invalid inscription = do
    (inscribe_count, transfer_count) ← get_event_counts inscription
    pure (not (inscribe_count == 1) || not (transfer_count == 0))

  -- `newEventCount` is read, raised by one and written.
  unfoldable pub count_event : Bytes → ℕ → M S (Unit {0})
  unfolding update_uint256
  count_event inscription loc = update_uint256 (λ v. u.add v 1) (get_event_hash c inscription loc)

  unfoldable pub deploy_inscribe : Bytes → Bytes → ℕ → ℕ → ℕ → Bytes → M S (Unit {0})
  deploy_inscribe inscription tick max_supply decimals limit_per_mint is_self_mint = do
    kv.insert_uint256 (get_tick_hash c tick Keys.exists) 1
    kv.insert_uint256 (get_tick_hash c tick Keys.remaining_supply) max_supply
    kv.insert_uint256 (get_tick_hash c tick Keys.max_supply) max_supply
    kv.insert_uint256 (get_tick_hash c tick Keys.decimals) decimals
    kv.insert_uint256 (get_tick_hash c tick Keys.limit_per_mint) limit_per_mint
    kv.insert_uint256 (get_tick_hash c tick Keys.is_self_mint)
        (if bytes_equal is_self_mint (codes "true") then 1 else 0)
    kv.insert_inscription_id (get_tick_hash c tick Keys.inscription_id) inscription

  unfoldable pub mint_inscribe : Bytes → Bytes → Bytes → ℕ → M S (Unit {0})
  unfolding update_balance update_tick_state update_latest_pkscript
  mint_inscribe new_pkscript new_wallet tick amount = do
    update_balance (λ v. u.add v amount) tick new_pkscript Keys.available_balance_pkscript
    update_balance (λ v. u.add v amount) tick new_pkscript Keys.overall_balance_pkscript
    update_tick_state (λ v. u.sub v amount) tick Keys.remaining_supply
    update_latest_pkscript new_wallet new_pkscript

  unfoldable pub transfer_inscribe : Bytes → Bytes → Bytes → Bytes → ℕ → M S (Unit {0})
  unfolding update_balance update_latest_pkscript update_wallet_and_pkscript count_event
  transfer_inscribe inscription source_pkscript source_wallet tick amount = do
    update_balance (λ v. u.sub v amount) tick source_pkscript Keys.available_balance_pkscript
    update_latest_pkscript source_wallet source_pkscript
    update_wallet_and_pkscript inscription source_wallet source_pkscript
    count_event inscription Keys.transfer_inscribe_count

  unfoldable pub transfer_transfer_spend_to_fee : Bytes → Bytes → ℕ → M S (Unit {0})
  unfolding update_balance update_latest_pkscript get_wallet_and_pkscript count_event
  transfer_transfer_spend_to_fee inscription tick amount = do
    (source_wallet, source_pkscript) ← get_wallet_and_pkscript inscription
    update_balance (λ v. u.add v amount) tick source_pkscript Keys.available_balance_pkscript
    update_latest_pkscript source_wallet source_pkscript
    count_event inscription Keys.transfer_transfer_count

  unfoldable pub transfer_transfer_normal : Bytes → Bytes → Bytes → Bytes → ℕ → M S (Unit {0})
  unfolding update_balance update_latest_pkscript get_wallet_and_pkscript count_event
  transfer_transfer_normal inscription spent_pkscript spent_wallet tick amount = do
    (source_wallet, source_pkscript) ← get_wallet_and_pkscript inscription
    update_balance (λ v. u.sub v amount) tick source_pkscript Keys.overall_balance_pkscript
    update_balance (λ v. u.add v amount) tick spent_pkscript Keys.available_balance_pkscript
    update_balance (λ v. u.add v amount) tick spent_pkscript Keys.overall_balance_pkscript
    update_latest_pkscript source_wallet source_pkscript
    update_latest_pkscript spent_wallet spent_pkscript
    count_event inscription Keys.transfer_transfer_count
