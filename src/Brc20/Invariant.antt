-- ===== src/Brc20/Invariant.antt =====
-- What `Exec` of ord/stateless/brc20.go keeps: all that each operation of its storage keeps.
use modular_indexer_committe.Prelude.{
  ℕ, ◌+◌, ◌-◌, ◌%◌, ◌^◌, ◌≡◌, ◌==◌, ==_iff, Option, none, some, List, [], ◌∷◌, Bool-cases, inl, inr,
}
use modular_indexer_committe.Prelude.Outcome.{done}
use modular_indexer_committe.Prelude.Outcome.Keeps.{Keeps, keeps_rules}
use modular_indexer_committe.Bytes.{Bytes, codes}
use modular_indexer_committe.KeyMap.{KeyMap}
use modular_indexer_committe.OrdGetter.{OrdTransfer}
use modular_indexer_committe.Packages.{Uint256, Codec}
use modular_indexer_committe.Storage.{KvStorage}
use modular_indexer_committe.Storage.Invariant.{StorageKeeps}
use modular_indexer_committe.Brc20.Keys
use modular_indexer_committe.Brc20.Ops.{
  decode_or_panic, update_uint256, update_balance, update_tick_state, update_latest_pkscript,
  update_wallet_and_pkscript, get_wallet_and_pkscript, is_used_or_invalid, count_event,
  deploy_inscribe, mint_inscribe, transfer_inscribe, transfer_transfer_spend_to_fee,
  transfer_transfer_normal,
}
use modular_indexer_committe.Brc20.Exec.{
  member, deploy_supply, deploy_with_limit, deploy_with_max, deploy_with_decimals, deploy_max,
  exec_deploy, mint_checked, mint_amount, mint_text, exec_mint, transfer_amount, transfer_text,
  exec_transfer, exec_tick, exec_one, exec_all, exec,
}

module _ {S : Type 0} {P : S → Type 0} (c : Codec) (u : Uint256) {kv : KvStorage S}
    (k : StorageKeeps kv P) where
  update_uint256-keeps : (f : ℕ → ℕ) (key : Bytes) → Keeps P (update_uint256 c u kv f key)
  unfolding update_uint256
  update_uint256-keeps f key = search (keeps_rules, k.get_uint256, k.insert_uint256)

  decode_or_panic-keeps : (o : Option Bytes) → Keeps P (decode_or_panic c u kv o)
  unfolding decode_or_panic
  decode_or_panic-keeps none = search keeps_rules
  decode_or_panic-keeps (some b) = search keeps_rules

  update_balance-keeps :
      (f : ℕ → ℕ) (tick pk : Bytes) (loc : ℕ) → Keeps P (update_balance c u kv f tick pk loc)
  unfolding update_balance
  update_balance-keeps f tick pk loc =
      update_uint256-keeps f (Keys.get_tick_pkscript_hash c tick pk loc)

  update_tick_state-keeps :
      (f : ℕ → ℕ) (tick : Bytes) (loc : ℕ) → Keeps P (update_tick_state c u kv f tick loc)
  unfolding update_tick_state
  update_tick_state-keeps f tick loc = update_uint256-keeps f (Keys.get_tick_hash c tick loc)

  count_event-keeps : (id : Bytes) (loc : ℕ) → Keeps P (count_event c u kv id loc)
  unfolding count_event
  count_event-keeps id loc = update_uint256-keeps (λ v. u.add v 1) (Keys.get_event_hash c id loc)

  update_latest_pkscript-keeps : (w pk : Bytes) → Keeps P (update_latest_pkscript c u kv w pk)
  unfolding update_latest_pkscript
  update_latest_pkscript-keeps w pk = search (keeps_rules, decode_or_panic-keeps, k.insert_bytes)

  update_wallet_and_pkscript-keeps :
      (id w pk : Bytes) → Keeps P (update_wallet_and_pkscript c u kv id w pk)
  unfolding update_wallet_and_pkscript
  update_wallet_and_pkscript-keeps id w pk =
      search (keeps_rules, decode_or_panic-keeps, k.insert_bytes)

  get_wallet_and_pkscript-keeps : (id : Bytes) → Keeps P (get_wallet_and_pkscript c u kv id)
  unfolding get_wallet_and_pkscript
  get_wallet_and_pkscript-keeps id = search (keeps_rules, k.get_bytes)

  is_used_or_invalid-keeps : (id : Bytes) → Keeps P (is_used_or_invalid c u kv id)
  unfolding is_used_or_invalid
  is_used_or_invalid-keeps id = search (keeps_rules, k.get_uint256)

  deploy_inscribe-keeps :
      (id tick : Bytes) (m d l : ℕ) (self : Bytes)
      → Keeps P (deploy_inscribe c u kv id tick m d l self)
  unfolding deploy_inscribe
  deploy_inscribe-keeps id tick m d l self =
      search (keeps_rules, k.insert_uint256, k.insert_inscription_id) depth 12

  mint_inscribe-keeps : (pk w tick : Bytes) (n : ℕ) → Keeps P (mint_inscribe c u kv pk w tick n)
  unfolding mint_inscribe
  mint_inscribe-keeps pk w tick n =
      search (keeps_rules, k.get_uint256, k.insert_uint256, decode_or_panic-keeps, k.insert_bytes)
        depth 12

  transfer_inscribe-keeps :
      (id pk w tick : Bytes) (n : ℕ) → Keeps P (transfer_inscribe c u kv id pk w tick n)
  unfolding transfer_inscribe
  transfer_inscribe-keeps id pk w tick n =
      search (keeps_rules, k.get_uint256, k.insert_uint256, decode_or_panic-keeps, k.insert_bytes)
        depth 16

  transfer_transfer_spend_to_fee-keeps :
      (id tick : Bytes) (n : ℕ) → Keeps P (transfer_transfer_spend_to_fee c u kv id tick n)
  unfolding transfer_transfer_spend_to_fee
  transfer_transfer_spend_to_fee-keeps id tick n =
      search
        (
          keeps_rules, k.get_bytes, k.get_uint256, k.insert_uint256, decode_or_panic-keeps,
          k.insert_bytes,
        )
        depth 16

  transfer_transfer_normal-keeps :
      (id pk w tick : Bytes) (n : ℕ) → Keeps P (transfer_transfer_normal c u kv id pk w tick n)
  unfolding transfer_transfer_normal
  transfer_transfer_normal-keeps id pk w tick n =
      search
        (
          keeps_rules, k.get_bytes, k.get_uint256, k.insert_uint256, decode_or_panic-keeps,
          k.insert_bytes,
        )
        depth 20

  deploy_supply-keeps :
      (js : KeyMap Bytes) (id tick : Bytes) (h m d l : ℕ)
      → Keeps P (deploy_supply c u kv js id tick h m d l)
  unfolding deploy_supply
  deploy_supply-keeps js id tick h m d l = search (keeps_rules, deploy_inscribe-keeps) depth 9

  deploy_with_limit-keeps :
      (js : KeyMap Bytes) (id tick : Bytes) (h d m : ℕ) (o : Option ℕ)
      → Keeps P (deploy_with_limit c u kv js id tick h d m o)
  deploy_with_limit-keeps js id tick h d m none = search keeps_rules
  deploy_with_limit-keeps js id tick h d m (some l) = deploy_supply-keeps js id tick h m d l

  deploy_with_max-keeps :
      (js : KeyMap Bytes) (id tick : Bytes) (h d : ℕ) (o : Option ℕ)
      → Keeps P (deploy_with_max c u kv js id tick h d o)
  deploy_with_max-keeps js id tick h d none = search keeps_rules
  deploy_with_max-keeps js id tick h d (some m) = search (keeps_rules, deploy_with_limit-keeps)

  deploy_with_decimals-keeps :
      (js : KeyMap Bytes) (id tick : Bytes) (h : ℕ) (max : Bytes) (o : Option ℕ)
      → Keeps P (deploy_with_decimals c u kv js id tick h max o)
  deploy_with_decimals-keeps js id tick h max none = search keeps_rules
  deploy_with_decimals-keeps js id tick h max (some d) = search (keeps_rules, deploy_with_max-keeps)

  deploy_max-keeps :
      (js : KeyMap Bytes) (id tick : Bytes) (h : ℕ) (o : Option Bytes)
      → Keeps P (deploy_max c u kv js id tick h o)
  deploy_max-keeps js id tick h none = search keeps_rules
  deploy_max-keeps js id tick h (some max) =
      search (keeps_rules, k.get_uint256, deploy_with_decimals-keeps)

  exec_deploy-keeps :
      (js : KeyMap Bytes) (id tick : Bytes) (n : ℕ) → Keeps P (exec_deploy c u kv js id tick n)
  unfolding exec_deploy
  exec_deploy-keeps js id tick n = deploy_max-keeps js id tick n (member js (codes "max"))

  mint_checked-keeps :
      (ot : OrdTransfer) (tick : Bytes) (n : ℕ) → Keeps P (mint_checked c u kv ot tick n)
  unfolding mint_checked
  mint_checked-keeps ot tick n =
      search (keeps_rules, k.get_uint256, k.get_inscription_id, mint_inscribe-keeps)

  mint_amount-keeps :
      (ot : OrdTransfer) (tick : Bytes) (r l : ℕ) (o : Option ℕ)
      → Keeps P (mint_amount c u kv ot tick r l o)
  mint_amount-keeps ot tick r l none = search keeps_rules
  mint_amount-keeps ot tick r l (some n) = search (keeps_rules, mint_checked-keeps)

  mint_text-keeps :
      (ot : OrdTransfer) (tick : Bytes) (o : Option Bytes) → Keeps P (mint_text c u kv ot tick o)
  mint_text-keeps ot tick none = search keeps_rules
  mint_text-keeps ot tick (some s) = search (keeps_rules, k.get_uint256, mint_amount-keeps) depth 12

  exec_mint-keeps :
      (js : KeyMap Bytes) (ot : OrdTransfer) (tick : Bytes) → Keeps P (exec_mint c u kv js ot tick)
  unfolding exec_mint
  exec_mint-keeps js ot tick = mint_text-keeps ot tick (member js (codes "amt"))

  transfer_amount-keeps :
      (ot : OrdTransfer) (tick : Bytes) (o : Option ℕ) → Keeps P (transfer_amount c u kv ot tick o)
  transfer_amount-keeps ot tick none = search keeps_rules
  transfer_amount-keeps ot tick (some n) =
      search
        (
          keeps_rules, k.get_uint256, transfer_inscribe-keeps, is_used_or_invalid-keeps,
          transfer_transfer_spend_to_fee-keeps, transfer_transfer_normal-keeps,
        )
        depth 9

  transfer_text-keeps :
      (ot : OrdTransfer) (tick : Bytes) (o : Option Bytes)
      → Keeps P (transfer_text c u kv ot tick o)
  transfer_text-keeps ot tick none = search keeps_rules
  transfer_text-keeps ot tick (some s) =
      search (keeps_rules, k.get_uint256, transfer_amount-keeps) depth 12

  exec_transfer-keeps :
      (js : KeyMap Bytes) (ot : OrdTransfer) (tick : Bytes)
      → Keeps P (exec_transfer c u kv js ot tick)
  unfolding exec_transfer
  exec_transfer-keeps js ot tick = transfer_text-keeps ot tick (member js (codes "amt"))

  exec_tick-keeps :
      (js : KeyMap Bytes) (ot : OrdTransfer) (h : ℕ) (tick op : Option Bytes)
      → Keeps P (exec_tick c u kv js ot h tick op)
  exec_tick-keeps js ot h (some tick) (some op) =
      search (keeps_rules, exec_deploy-keeps, exec_mint-keeps, exec_transfer-keeps) depth 8
  exec_tick-keeps js ot h _ _ = search keeps_rules

  exec_one-keeps : (h : ℕ) (ot : OrdTransfer) → Keeps P (exec_one c u kv h ot)
  unfolding exec_one
  exec_one-keeps h ot = search (keeps_rules, exec_tick-keeps) depth 8

  exec_all-keeps : (h : ℕ) (ots : List OrdTransfer) → Keeps P (exec_all c u kv h ots)
  unfolding exec_all
  exec_all-keeps h [] = search keeps_rules
  exec_all-keeps h (ot ∷ ots) = search (keeps_rules, exec_one-keeps h ot, exec_all-keeps h ots)

  -- Exec, where it does not panic, keeps every predicate of states that each operation of its
  -- storage keeps.
  pub exec-keeps : (ots : List OrdTransfer) (h : ℕ) → Keeps P (exec c u kv ots h)
  unfolding exec
  exec-keeps ots h = record {
    at = λ s a s' p e. elim (Bool-cases (kv.get_height s == (h + 2 ^ 64 - 1) % 2 ^ 64)) [
      | inl same ↦ (exec_all-keeps h ots).at s a s' p (rw same at e)
      | inr other ↦ absurd (cc (rw other at e))
    ];
  }

  -- It began at the height before the block.
  pub height-exec :
      (ots : List OrdTransfer) (h : ℕ) (s s' : S)
      → exec c u kv ots h s ≡ done (tt, s')
      → kv.get_height s ≡ (h + 2 ^ 64 - 1) % 2 ^ 64
  unfolding exec
  height-exec ots h s s' e = elim (Bool-cases (kv.get_height s == (h + 2 ^ 64 - 1) % 2 ^ 64)) [
    | inl same ↦ (==_iff _ _).0 same
    | inr other ↦ absurd (cc (rw other at e))
  ]
