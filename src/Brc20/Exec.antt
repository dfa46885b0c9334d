-- ===== src/Brc20/Exec.antt =====
-- `Exec` of ord/stateless/brc20.go. A `continue` of its loop is `skip`. The three blocks of the loop's
-- body exclude one another, since each wants another value of `js["op"]`.
use modular_indexer_committe.Prelude.{
  ℕ, ◌+◌, ◌-◌, ◌%◌, ◌^◌, Bool, false, not, ◌&&◌, ◌||◌, Option, none, some, List, [], ◌∷◌, ltb, ◌==◌,
  if◌then◌else◌, length, get_or,
}
use modular_indexer_committe.Prelude.Outcome.{
  Result, ok, err, Outcome, done, panic, M, pure, lift, ◌>>=◌, height_mismatch,
}
use modular_indexer_committe.Bytes.{Bytes, bytes_equal, codes}
use modular_indexer_committe.Bytes.Hex.{decode_string}
use modular_indexer_committe.Bytes.Text.{split, parse_below}
use modular_indexer_committe.KeyMap.{KeyMap, lookup}
use modular_indexer_committe.OrdGetter.{OrdTransfer}
use modular_indexer_committe.Packages.{Uint256, Codec}
use modular_indexer_committe.Numbers.{
  is_positive_number, is_positive_number_with_dot, get_number_extended_to_18_decimals, get_limit,
  self_mint_enable_height,
}
use modular_indexer_committe.Storage.{KvStorage}
use modular_indexer_committe.Brc20.Keys
use modular_indexer_committe.Brc20.Keys.{get_tick_pkscript_hash, get_tick_hash}
use modular_indexer_committe.Brc20.Ops.{
  deploy_inscribe, mint_inscribe, transfer_inscribe, transfer_transfer_spend_to_fee,
  transfer_transfer_normal, is_used_or_invalid,
}

-- `js[name]`
abbrev pub member : KeyMap Bytes → Bytes → Option Bytes
member js name = lookup name js

abbrev pub is_text : Bytes → Option Bytes → Bool
is_text text none = false
is_text text (some value) = bytes_equal value text

-- `decimals` of a deploy, or `none` where the code continues with the next transfer.
abbrev pub decimals_of : Codec → Option Bytes → Option ℕ
decimals_of c none = some 18
decimals_of c (some dec) =
    if not (is_positive_number c dec false) then none else parse_below (2 ^ 63) dec

unfoldable pub parse_decimals : Codec → KeyMap Bytes → Option ℕ
parse_decimals c js = decimals_of c (member js (codes "dec"))

-- The content type, decoded from hex where it is hex, up to a semicolon.
unfoldable pub media_type : Bytes → Bytes
media_type content_type =
    let decoded : Bytes = elim (decode_string content_type) [
      | none ↦ content_type
      | some bytes ↦ bytes
    ] in
    get_or (split b';' decoded) 0 []

unfoldable pub is_media_type : Bytes → Bool
is_media_type t = bytes_equal t (codes "application/json") || bytes_equal t (codes "text/plain")

module _ (c : Codec) (u : Uint256) where
  -- The tests on a parsed number: `none` where it is missing, over the limit or zero.
  abbrev pub within_limit : Result (Option ℕ) → Option ℕ
  within_limit (err e) = none
  within_limit (ok none) = none
  within_limit (ok (some n)) = if ltb (get_limit u) n || n == 0 then none else some n

  abbrev pub map_within : Outcome (Result (Option ℕ)) → Outcome (Option ℕ)
  map_within (done r) = done (within_limit r)
  map_within (panic r) = panic r

  -- A supply, a limit or an amount: the same tests stand five times in `Exec`.
  unfoldable pub parse_amount : Bytes → ℕ → Outcome (Option ℕ)
  parse_amount s decimals =
      if not (is_positive_number_with_dot c s false)
      then done none
      else map_within (get_number_extended_to_18_decimals u c s decimals false)

  abbrev pub limit_or : Option Bytes → ℕ → ℕ → Outcome (Option ℕ)
  limit_or none decimals max_supply = done (some max_supply)
  limit_or (some lim) decimals max_supply = parse_amount lim decimals

  -- `limitPerMint` of a deploy
  unfoldable pub parse_limit : KeyMap Bytes → ℕ → ℕ → Outcome (Option ℕ)
  unfolding parse_amount
  parse_limit js decimals max_supply = limit_or (member js (codes "lim")) decimals max_supply

module _ {S : Type 0} (c : Codec) (u : Uint256) (kv : KvStorage S) where
  abbrev pub skip : M S (Unit {0})
  skip = pure tt

  -- The self-mint tests and the last test of the supply, before `deployInscribe`.
  unfoldable pub deploy_supply : KeyMap Bytes → Bytes → Bytes → ℕ → ℕ → ℕ → ℕ → M S (Unit {0})
  deploy_supply js inscription tick block_height max_supply decimals limit_per_mint =
      if length tick == 5
      then (if ltb block_height self_mint_enable_height
          then skip
          else if not (is_text (codes "true") (member js (codes "self_mint")))
          then skip
          else let upper = get_limit u in
            let limit' = if max_supply == 0 && limit_per_mint == 0 then upper else limit_per_mint in
            let max' = if max_supply == 0 then upper else max_supply in
            if max' == 0
            then skip
            else deploy_inscribe c u kv inscription tick max' decimals limit' (codes "true"))
      else if max_supply == 0
      then skip
      else deploy_inscribe c u kv inscription tick max_supply decimals limit_per_mint
          (codes "false")

  abbrev pub deploy_with_limit :
      KeyMap Bytes → Bytes → Bytes → ℕ → ℕ → ℕ → Option ℕ → M S (Unit {0})
  deploy_with_limit js inscription tick block_height decimals max_supply none = skip
  deploy_with_limit js inscription tick block_height decimals max_supply (some limit_per_mint) =
      deploy_supply js inscription tick block_height max_supply decimals limit_per_mint

  abbrev pub deploy_with_max : KeyMap Bytes → Bytes → Bytes → ℕ → ℕ → Option ℕ → M S (Unit {0})
  deploy_with_max js inscription tick block_height decimals none = skip
  deploy_with_max js inscription tick block_height decimals (some max_supply) =
      lift (parse_limit c u js decimals max_supply)
      >>= deploy_with_limit js inscription tick block_height decimals max_supply

  abbrev pub deploy_with_decimals :
      KeyMap Bytes → Bytes → Bytes → ℕ → Bytes → Option ℕ → M S (Unit {0})
  deploy_with_decimals js inscription tick block_height max none = skip
  deploy_with_decimals js inscription tick block_height max (some decimals) =
      if ltb 18 decimals
      then skip
      else lift (parse_amount c u max decimals)
        >>= deploy_with_max js inscription tick block_height decimals

  abbrev pub deploy_max : KeyMap Bytes → Bytes → Bytes → ℕ → Option Bytes → M S (Unit {0})
  deploy_max js inscription tick block_height none = skip
  deploy_max js inscription tick block_height (some max) =
      kv.get_uint256 (get_tick_hash c tick Keys.exists) >>= λ tick_exists.
      if not (tick_exists == 0)
      then skip
      else deploy_with_decimals js inscription tick block_height max (parse_decimals c js)

  -- `// handle deploy`
  unfoldable pub exec_deploy : KeyMap Bytes → Bytes → Bytes → ℕ → M S (Unit {0})
  unfolding deploy_supply
  exec_deploy js inscription tick block_height =
      deploy_max js inscription tick block_height (member js (codes "max"))

  -- The self-mint test reads both slots before it decides.
  unfoldable pub mint_checked : OrdTransfer → Bytes → ℕ → M S (Unit {0})
  mint_checked ot tick amount = do
    self_mint ← kv.get_uint256 (get_tick_hash c tick Keys.is_self_mint)
    tick_parent_id ← kv.get_inscription_id (get_tick_hash c tick Keys.inscription_id)
    (if self_mint == 1 && not (bytes_equal tick_parent_id ot.parent_id)
        then skip
        else mint_inscribe c u kv ot.new_pkscript ot.new_wallet tick amount)

  abbrev pub mint_amount : OrdTransfer → Bytes → ℕ → ℕ → Option ℕ → M S (Unit {0})
  mint_amount ot tick remaining limit_per_mint none = skip
  mint_amount ot tick remaining limit_per_mint (some amount) =
      if remaining == 0
      then skip
      else if ltb limit_per_mint amount
      then skip
      else mint_checked ot tick (if ltb remaining amount then remaining else amount)

  -- The limits of the tick are read in this order, before the amount is parsed.
  abbrev pub mint_deployed : OrdTransfer → Bytes → Bytes → M S (Unit {0})
  mint_deployed ot tick amount_string = do
    remaining ← kv.get_uint256 (get_tick_hash c tick Keys.remaining_supply)
    limit_per_mint ← kv.get_uint256 (get_tick_hash c tick Keys.limit_per_mint)
    decimals ← kv.get_uint256 (get_tick_hash c tick Keys.decimals)
    amount ← lift (parse_amount c u amount_string decimals)
    mint_amount ot tick remaining limit_per_mint amount

  abbrev pub mint_text : OrdTransfer → Bytes → Option Bytes → M S (Unit {0})
  mint_text ot tick none = skip
  mint_text ot tick (some amount_string) =
      kv.get_uint256 (get_tick_hash c tick Keys.exists) >>= λ tick_exists.
      if tick_exists == 0 then skip else mint_deployed ot tick amount_string

  -- `// handle mint`
  unfoldable pub exec_mint : KeyMap Bytes → OrdTransfer → Bytes → M S (Unit {0})
  unfolding mint_checked
  exec_mint js ot tick = mint_text ot tick (member js (codes "amt"))

  -- An inscription of a transfer: the balance must cover it.
  abbrev pub inscribe_transfer : OrdTransfer → Bytes → ℕ → M S (Unit {0})
  inscribe_transfer ot tick amount =
      kv.get_uint256 (get_tick_pkscript_hash c tick ot.new_pkscript Keys.available_balance_pkscript)
      >>= λ available_balance.
          if ltb available_balance amount
          then skip
          else transfer_inscribe c u kv ot.inscription_id ot.new_pkscript ot.new_wallet tick amount

  -- A move of an inscribed transfer.
  abbrev pub move_transfer : OrdTransfer → Bytes → ℕ → M S (Unit {0})
  move_transfer ot tick amount = is_used_or_invalid c u kv ot.inscription_id >>= λ used.
      if used
      then skip
      else if ot.sent_as_fee
      then transfer_transfer_spend_to_fee c u kv ot.inscription_id tick amount
      else transfer_transfer_normal c u kv ot.inscription_id ot.new_pkscript ot.new_wallet tick
          amount

  abbrev pub transfer_amount : OrdTransfer → Bytes → Option ℕ → M S (Unit {0})
  transfer_amount ot tick none = skip
  transfer_amount ot tick (some amount) =
      if length ot.old_satpoint == 0
      then inscribe_transfer ot tick amount
      else move_transfer ot tick amount

  abbrev pub transfer_deployed : OrdTransfer → Bytes → Bytes → M S (Unit {0})
  transfer_deployed ot tick amount_string = do
    decimals ← kv.get_uint256 (get_tick_hash c tick Keys.decimals)
    amount ← lift (parse_amount c u amount_string decimals)
    transfer_amount ot tick amount

  abbrev pub transfer_text : OrdTransfer → Bytes → Option Bytes → M S (Unit {0})
  transfer_text ot tick none = skip
  transfer_text ot tick (some amount_string) =
      kv.get_uint256 (get_tick_hash c tick Keys.exists) >>= λ tick_exists.
      if tick_exists == 0 then skip else transfer_deployed ot tick amount_string

  -- `// handle transfer`
  unfoldable pub exec_transfer : KeyMap Bytes → OrdTransfer → Bytes → M S (Unit {0})
  exec_transfer js ot tick = transfer_text ot tick (member js (codes "amt"))

  -- The choice by `js["op"]`.
  abbrev pub exec_op : KeyMap Bytes → OrdTransfer → ℕ → Bytes → Bytes → M S (Unit {0})
  exec_op js ot block_height op tick =
      if bytes_equal op (codes "deploy") && length ot.old_satpoint == 0
      then exec_deploy js ot.inscription_id tick block_height
      else if bytes_equal op (codes "mint") && length ot.old_satpoint == 0
      then exec_mint js ot tick
      else if bytes_equal op (codes "transfer")
      then exec_transfer js ot tick
      else skip

  abbrev pub exec_tick :
      KeyMap Bytes → OrdTransfer → ℕ → Option Bytes → Option Bytes → M S (Unit {0})
  exec_tick js ot block_height (some tick) (some op) =
      let lower = c.to_lower tick in
      if not (length lower == 4) && not (length lower == 5)
      then skip
      else exec_op js ot block_height op lower
  exec_tick js ot block_height _ _ = skip

  -- One round of the loop.
  unfoldable pub exec_one : ℕ → OrdTransfer → M S (Unit {0})
  unfolding exec_deploy exec_mint exec_transfer media_type is_media_type
  exec_one block_height ot =
      let js = c.unmarshal_strings ot.content in
      if ot.sent_as_fee && length ot.old_satpoint == 0
      then skip
      else if length ot.content_type == 0
      then skip
      else if not (is_media_type (media_type ot.content_type))
      then skip
      else exec_tick js ot block_height (member js (codes "tick")) (member js (codes "op"))

  unfoldable pub exec_all : ℕ → List OrdTransfer → M S (Unit {0})
  exec_all block_height [] = skip
  exec_all block_height (ot ∷ ots) = exec_one block_height ot >>= λ _. exec_all block_height ots

  -- `blockHeight - 1` wraps, as a `uint` does.
  unfoldable pub exec : List OrdTransfer → ℕ → M S (Unit {0})
  unfolding exec_all
  exec ots block_height s =
      if not (kv.get_height s == (block_height + 2 ^ 64 - 1) % 2 ^ 64)
      then panic height_mismatch
      else exec_all block_height ots s
