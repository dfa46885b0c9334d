-- ===== src/Brc20/Keys.antt =====
-- The keys of ord/stateless/brc20.go: 31 bytes of a Keccak hash, and a byte that tells the slots of
-- one hash apart.
use modular_indexer_committe.Prelude.{ℕ, [], ◌∷◌, ◌++◌, take}
use modular_indexer_committe.Bytes.{Bytes, codes}
use modular_indexer_committe.Packages.{Codec}
use modular_indexer_committe.Storage.{stem_size}

abbrev pub available_balance_pkscript : ℕ
available_balance_pkscript = 0

abbrev pub overall_balance_pkscript : ℕ
overall_balance_pkscript = 1

abbrev pub exists : ℕ
exists = 0

abbrev pub remaining_supply : ℕ
remaining_supply = 1

abbrev pub max_supply : ℕ
max_supply = 2

abbrev pub limit_per_mint : ℕ
limit_per_mint = 3

abbrev pub decimals : ℕ
decimals = 4

abbrev pub is_self_mint : ℕ
is_self_mint = 5

abbrev pub inscription_id : ℕ
inscription_id = 6

abbrev pub wallet_latest_pkscript : ℕ
wallet_latest_pkscript = 0

abbrev pub transfer_inscribe_count : ℕ
transfer_inscribe_count = 0

abbrev pub transfer_transfer_count : ℕ
transfer_transfer_count = 1

abbrev pub transfer_inscribe_source_wallet : ℕ
transfer_inscribe_source_wallet = 2

abbrev pub transfer_inscribe_source_pkscript : ℕ
transfer_inscribe_source_pkscript = 5

-- The texts that are hashed.
unfoldable pub tick_pkscript_image : Bytes → Bytes → Bytes
tick_pkscript_image tick pkscript = (tick ++ pkscript) ++ codes "GetTickPkscriptHash"

unfoldable pub tick_image : Bytes → Bytes
tick_image tick = tick ++ codes "GetTickHash"

unfoldable pub wallet_image : Bytes → Bytes
wallet_image wallet = wallet ++ codes "GetWalletHash"

unfoldable pub event_image : Bytes → Bytes
event_image inscription_id = inscription_id ++ codes "GetEventHash"

module _ (c : Codec) where
  -- `resHash[:verkle.StemSize]`
  unfoldable pub stem_of : Bytes → Bytes
  stem_of image = take stem_size (c.keccak256 image)

  unfoldable pub get_tick_pkscript_hash : Bytes → Bytes → ℕ → Bytes
  unfolding tick_pkscript_image stem_of
  get_tick_pkscript_hash tick pkscript state_id =
      stem_of (tick_pkscript_image tick pkscript) ++ state_id ∷ []

  unfoldable pub get_tick_hash : Bytes → ℕ → Bytes
  unfolding tick_image stem_of
  get_tick_hash tick location_id = stem_of (tick_image tick) ++ location_id ∷ []

  unfoldable pub get_wallet_hash : Bytes → ℕ → Bytes
  unfolding wallet_image stem_of
  get_wallet_hash wallet location_id = stem_of (wallet_image wallet) ++ location_id ∷ []

  unfoldable pub get_event_hash : Bytes → ℕ → Bytes
  unfolding event_image stem_of
  get_event_hash inscription location_id = stem_of (event_image inscription) ++ location_id ∷ []
