-- ===== src/OrdGetter.antt =====
-- ord/getter/types.go: a transfer of an inscription, and the database that the blocks come from. The
-- answers of a database do not change while one operation of the indexer runs. Also the getter
-- of ord/getter/opiclienttest.go, which answers from lists.
use modular_indexer_committe.Prelude.{ℕ, Bool, List, [], ◌∷◌, ◌==◌, if◌then◌else◌}
use modular_indexer_committe.Prelude.Outcome.{Result, ok, err}
use modular_indexer_committe.Bytes.{Bytes, codes}

pub record OrdTransfer : Type 0 where
  pub id : ℕ
  pub inscription_id : Bytes
  pub block_height : ℕ
  pub old_satpoint : Bytes
  pub new_satpoint : Bytes
  pub new_pkscript : Bytes
  pub new_wallet : Bytes
  pub sent_as_fee : Bool
  pub content : Bytes
  pub content_type : Bytes
  pub parent_id : Bytes

pub record OrdGetter : Type 0 where
  pub get_latest_block_height : Result ℕ
  pub get_block_hash : ℕ → Result Bytes
  pub get_ord_transfers : ℕ → Result (List OrdTransfer)

pub record OpiOrdGetterTest : Type 0 where
  pub latest_block_height : ℕ
  pub block_hash : List (ℕ × Bytes)
  pub ord_transfers : List OrdTransfer

unfoldable pub set_latest_block_height : OpiOrdGetterTest → ℕ → OpiOrdGetterTest
set_latest_block_height opi height = record opi { latest_block_height = height }

-- `opi.BlockHash[blockHeight]`
unfoldable pub find_hash : ℕ → List (ℕ × Bytes) → Result Bytes
find_hash block_height [] = err (codes "block hash not found for block height")
find_hash block_height ((height, hash) ∷ rest) =
    if height == block_height then ok hash else find_hash block_height rest

-- The loop of `GetOrdTransfers`.
unfoldable pub filter_transfers : ℕ → List OrdTransfer → List OrdTransfer
filter_transfers block_height [] = []
filter_transfers block_height (transfer ∷ rest) =
    let filtered = filter_transfers block_height rest in
    if transfer.block_height == block_height then transfer ∷ filtered else filtered

unfoldable pub test_getter : OpiOrdGetterTest → OrdGetter
unfolding find_hash filter_transfers
test_getter opi = record {
  get_latest_block_height = ok opi.latest_block_height;
  get_block_hash = λ block_height. find_hash block_height opi.block_hash;
  get_ord_transfers = λ block_height. ok (filter_transfers block_height opi.ord_transfers);
}
