-- ===== src/Brc20/Simulates.antt =====
-- `Exec` of ord/stateless/brc20.go on two storages: operations that agree make runs that agree.
use modular_indexer_committe.Prelude.{
  ℕ, ◌+◌, ◌-◌, ◌%◌, ◌^◌, ◌≡◌, ◌==◌, true, Option, none, some, List, [], ◌∷◌, Bool-cases, inl, inr,
}
use modular_indexer_committe.Prelude.Outcome.Simulates.{Simulates, simulates_rules}
use modular_indexer_committe.Bytes.{Bytes, codes}
use modular_indexer_committe.KeyMap.{KeyMap}
use modular_indexer_committe.OrdGetter.{OrdTransfer}
use modular_indexer_committe.Packages.{Uint256, Codec}
use modular_indexer_committe.Storage.{KvStorage}
use modular_indexer_committe.Storage.Simulates.{StorageSimulates}
use modular_indexer_committe.Brc20.Keys
use modular_indexer_committe.Brc20.Ops.{
  decode_or_panic, update_uint256, update_balance, update_tick_state, update_latest_pkscript,
  update_wallet_and_pkscript, get_wallet_and_pkscript, is_used_or_invalid, count_event,
  deploy_inscribe, mint_inscribe, transfer_inscribe, transfer_transfer_spend_to_fee,
  transfer_transfer_normal,
}
use modular_indexer_committe.Brc20.Exec.{
  member, deploy_supply, deploy_with_limit, deploy_with_max, deploy_with_decimals, deploy_max,
  exec_deploy, mint_checked, mint_amount, mint_text, exec_mint, transfer_amount, transfer_text,
  exec_transfer, exec_tick, exec_one, exec_all, exec,
}

module _ {S T : Type 0} {R : S → T → Type 0} (c : Codec) (u : Uint256) {kv : KvStorage S}
    {kv' : KvStorage T} (k : StorageSimulates kv kv' R) where
  update_uint256-simulates :
      (f : ℕ → ℕ) (key : Bytes)
      → Simulates R (update_uint256 c u kv f key) (update_uint256 c u kv' f key)
  unfolding update_uint256
  update_uint256-simulates f key = search (simulates_rules, k.get_uint256, k.insert_uint256)

  decode_or_panic-simulates :
      (o : Option Bytes) → Simulates R (decode_or_panic c u kv o) (decode_or_panic c u kv' o)
  unfolding decode_or_panic
  decode_or_panic-simulates none = search simulates_rules
  decode_or_panic-simulates (some b) = search simulates_rules

  update_balance-simulates :
      (f : ℕ → ℕ) (tick pk : Bytes) (loc : ℕ)
      → Simulates R (update_balance c u kv f tick pk loc) (update_balance c u kv' f tick pk loc)
  unfolding update_balance
  update_balance-simulates f tick pk loc =
      update_uint256-simulates f (Keys.get_tick_pkscript_hash c tick pk loc)

  update_tick_state-simulates :
      (f : ℕ → ℕ) (tick : Bytes) (loc : ℕ)
      → Simulates R (update_tick_state c u kv f tick loc) (update_tick_state c u kv' f tick loc)
  unfolding update_tick_state
  update_tick_state-simulates f tick loc =
      update_uint256-simulates f (Keys.get_tick_hash c tick loc)

  count_event-simulates :
      (id : Bytes) (loc : ℕ) → Simulates R (count_event c u kv id loc) (count_event c u kv' id loc)
  unfolding count_event
  count_event-simulates id loc =
      update_uint256-simulates (λ v. u.add v 1) (Keys.get_event_hash c id loc)

  update_latest_pkscript-simulates :
      (w pk : Bytes)
      → Simulates R (update_latest_pkscript c u kv w pk) (update_latest_pkscript c u kv' w pk)
  unfolding update_latest_pkscript
  update_latest_pkscript-simulates w pk =
      search (simulates_rules, decode_or_panic-simulates, k.insert_bytes)

  update_wallet_and_pkscript-simulates :
      (id w pk : Bytes)
      → Simulates R
          (update_wallet_and_pkscript c u kv id w pk)
          (update_wallet_and_pkscript c u kv' id w pk)
  unfolding update_wallet_and_pkscript
  update_wallet_and_pkscript-simulates id w pk =
      search (simulates_rules, decode_or_panic-simulates, k.insert_bytes)

  get_wallet_and_pkscript-simulates :
      (id : Bytes)
      → Simulates R (get_wallet_and_pkscript c u kv id) (get_wallet_and_pkscript c u kv' id)
  unfolding get_wallet_and_pkscript
  get_wallet_and_pkscript-simulates id = search (simulates_rules, k.get_bytes)

  is_used_or_invalid-simulates :
      (id : Bytes) → Simulates R (is_used_or_invalid c u kv id) (is_used_or_invalid c u kv' id)
  unfolding is_used_or_invalid
  is_used_or_invalid-simulates id = search (simulates_rules, k.get_uint256)

  deploy_inscribe-simulates :
      (id tick : Bytes) (m d l : ℕ) (self : Bytes)
      → Simulates R
          (deploy_inscribe c u kv id tick m d l self)
          (deploy_inscribe c u kv' id tick m d l self)
  unfolding deploy_inscribe
  deploy_inscribe-simulates id tick m d l self =
      search (simulates_rules, k.insert_uint256, k.insert_inscription_id) depth 12

  mint_inscribe-simulates :
      (pk w tick : Bytes) (n : ℕ)
      → Simulates R (mint_inscribe c u kv pk w tick n) (mint_inscribe c u kv' pk w tick n)
  unfolding mint_inscribe
  mint_inscribe-simulates pk w tick n =
      search
        (
          simulates_rules, k.get_uint256, k.insert_uint256, decode_or_panic-simulates,
          k.insert_bytes,
        )
        depth 12

  transfer_inscribe-simulates :
      (id pk w tick : Bytes) (n : ℕ)
      → Simulates R
          (transfer_inscribe c u kv id pk w tick n)
          (transfer_inscribe c u kv' id pk w tick n)
  unfolding transfer_inscribe
  transfer_inscribe-simulates id pk w tick n =
      search
        (
          simulates_rules, k.get_uint256, k.insert_uint256, decode_or_panic-simulates,
          k.insert_bytes,
        )
        depth 16

  transfer_transfer_spend_to_fee-simulates :
      (id tick : Bytes) (n : ℕ)
      → Simulates R
          (transfer_transfer_spend_to_fee c u kv id tick n)
          (transfer_transfer_spend_to_fee c u kv' id tick n)
  unfolding transfer_transfer_spend_to_fee
  transfer_transfer_spend_to_fee-simulates id tick n =
      search
        (
          simulates_rules, k.get_bytes, k.get_uint256, k.insert_uint256, decode_or_panic-simulates,
          k.insert_bytes,
        )
        depth 16

  transfer_transfer_normal-simulates :
      (id pk w tick : Bytes) (n : ℕ)
      → Simulates R
          (transfer_transfer_normal c u kv id pk w tick n)
          (transfer_transfer_normal c u kv' id pk w tick n)
  unfolding transfer_transfer_normal
  transfer_transfer_normal-simulates id pk w tick n =
      search
        (
          simulates_rules, k.get_bytes, k.get_uint256, k.insert_uint256, decode_or_panic-simulates,
          k.insert_bytes,
        )
        depth 20

  deploy_supply-simulates :
      (js : KeyMap Bytes) (id tick : Bytes) (h m d l : ℕ)
      → Simulates R
          (deploy_supply c u kv js id tick h m d l)
          (deploy_supply c u kv' js id tick h m d l)
  unfolding deploy_supply
  deploy_supply-simulates js id tick h m d l =
      search (simulates_rules, deploy_inscribe-simulates) depth 9

  deploy_with_limit-simulates :
      (js : KeyMap Bytes) (id tick : Bytes) (h d m : ℕ) (o : Option ℕ)
      → Simulates R
          (deploy_with_limit c u kv js id tick h d m o)
          (deploy_with_limit c u kv' js id tick h d m o)
  deploy_with_limit-simulates js id tick h d m none = search simulates_rules
  deploy_with_limit-simulates js id tick h d m (some l) = deploy_supply-simulates js id tick h m d l

  deploy_with_max-simulates :
      (js : KeyMap Bytes) (id tick : Bytes) (h d : ℕ) (o : Option ℕ)
      → Simulates R
          (deploy_with_max c u kv js id tick h d o)
          (deploy_with_max c u kv' js id tick h d o)
  deploy_with_max-simulates js id tick h d none = search simulates_rules
  deploy_with_max-simulates js id tick h d (some m) =
      search (simulates_rules, deploy_with_limit-simulates)

  deploy_with_decimals-simulates :
      (js : KeyMap Bytes) (id tick : Bytes) (h : ℕ) (max : Bytes) (o : Option ℕ)
      → Simulates R
          (deploy_with_decimals c u kv js id tick h max o)
          (deploy_with_decimals c u kv' js id tick h max o)
  deploy_with_decimals-simulates js id tick h max none = search simulates_rules
  deploy_with_decimals-simulates js id tick h max (some d) =
      search (simulates_rules, deploy_with_max-simulates)

  deploy_max-simulates :
      (js : KeyMap Bytes) (id tick : Bytes) (h : ℕ) (o : Option Bytes)
      → Simulates R (deploy_max c u kv js id tick h o) (deploy_max c u kv' js id tick h o)
  deploy_max-simulates js id tick h none = search simulates_rules
  deploy_max-simulates js id tick h (some max) =
      search (simulates_rules, k.get_uint256, deploy_with_decimals-simulates)

  exec_deploy-simulates :
      (js : KeyMap Bytes) (id tick : Bytes) (n : ℕ)
      → Simulates R (exec_deploy c u kv js id tick n) (exec_deploy c u kv' js id tick n)
  unfolding exec_deploy
  exec_deploy-simulates js id tick n = deploy_max-simulates js id tick n (member js (codes "max"))

  mint_checked-simulates :
      (ot : OrdTransfer) (tick : Bytes) (n : ℕ)
      → Simulates R (mint_checked c u kv ot tick n) (mint_checked c u kv' ot tick n)
  unfolding mint_checked
  mint_checked-simulates ot tick n =
      search (simulates_rules, k.get_uint256, k.get_inscription_id, mint_inscribe-simulates)

  mint_amount-simulates :
      (ot : OrdTransfer) (tick : Bytes) (r l : ℕ) (o : Option ℕ)
      → Simulates R (mint_amount c u kv ot tick r l o) (mint_amount c u kv' ot tick r l o)
  mint_amount-simulates ot tick r l none = search simulates_rules
  mint_amount-simulates ot tick r l (some n) = search (simulates_rules, mint_checked-simulates)

  mint_text-simulates :
      (ot : OrdTransfer) (tick : Bytes) (o : Option Bytes)
      → Simulates R (mint_text c u kv ot tick o) (mint_text c u kv' ot tick o)
  mint_text-simulates ot tick none = search simulates_rules
  mint_text-simulates ot tick (some s) =
      search (simulates_rules, k.get_uint256, mint_amount-simulates) depth 12

  exec_mint-simulates :
      (js : KeyMap Bytes) (ot : OrdTransfer) (tick : Bytes)
      → Simulates R (exec_mint c u kv js ot tick) (exec_mint c u kv' js ot tick)
  unfolding exec_mint
  exec_mint-simulates js ot tick = mint_text-simulates ot tick (member js (codes "amt"))

  transfer_amount-simulates :
      (ot : OrdTransfer) (tick : Bytes) (o : Option ℕ)
      → Simulates R (transfer_amount c u kv ot tick o) (transfer_amount c u kv' ot tick o)
  transfer_amount-simulates ot tick none = search simulates_rules
  transfer_amount-simulates ot tick (some n) =
      search
        (
          simulates_rules, k.get_uint256, transfer_inscribe-simulates, is_used_or_invalid-simulates,
          transfer_transfer_spend_to_fee-simulates, transfer_transfer_normal-simulates,
        )
        depth 9

  transfer_text-simulates :
      (ot : OrdTransfer) (tick : Bytes) (o : Option Bytes)
      → Simulates R (transfer_text c u kv ot tick o) (transfer_text c u kv' ot tick o)
  transfer_text-simulates ot tick none = search simulates_rules
  transfer_text-simulates ot tick (some s) =
      search (simulates_rules, k.get_uint256, transfer_amount-simulates) depth 12

  exec_transfer-simulates :
      (js : KeyMap Bytes) (ot : OrdTransfer) (tick : Bytes)
      → Simulates R (exec_transfer c u kv js ot tick) (exec_transfer c u kv' js ot tick)
  unfolding exec_transfer
  exec_transfer-simulates js ot tick = transfer_text-simulates ot tick (member js (codes "amt"))

  exec_tick-simulates :
      (js : KeyMap Bytes) (ot : OrdTransfer) (h : ℕ) (tick op : Option Bytes)
      → Simulates R (exec_tick c u kv js ot h tick op) (exec_tick c u kv' js ot h tick op)
  exec_tick-simulates js ot h (some tick) (some op) =
      search (simulates_rules, exec_deploy-simulates, exec_mint-simulates, exec_transfer-simulates)
        depth 8
  exec_tick-simulates js ot h _ _ = search simulates_rules

  exec_one-simulates :
      (h : ℕ) (ot : OrdTransfer) → Simulates R (exec_one c u kv h ot) (exec_one c u kv' h ot)
  unfolding exec_one
  exec_one-simulates h ot = search (simulates_rules, exec_tick-simulates) depth 8

  exec_all-simulates :
      (h : ℕ) (ots : List OrdTransfer)
      → Simulates R (exec_all c u kv h ots) (exec_all c u kv' h ots)
  unfolding exec_all
  exec_all-simulates h [] = search simulates_rules
  exec_all-simulates h (ot ∷ ots) =
      search (simulates_rules, exec_one-simulates h ot, exec_all-simulates h ots)

  -- Exec
  pub exec-simulates :
      ((s : S) (t : T) → R s t → kv.get_height s ≡ kv'.get_height t)
      → (ots : List OrdTransfer) (h : ℕ) → Simulates R (exec c u kv ots h) (exec c u kv' ots h)
  unfolding exec
  exec-simulates same ots h = record {
    at = λ s t a s' r e. elim (Bool-cases (kv.get_height s == (h + 2 ^ 64 - 1) % 2 ^ 64)) [
      | inl here ↦
          let there : (kv'.get_height t == (h + 2 ^ 64 - 1) % 2 ^ 64) ≡ true =
            rw (same s t r) at here in
          rw there ((exec_all-simulates h ots).at s t a s' r (rw here at e))
      | inr other ↦ absurd (cc (rw other at e))
    ];
  }
