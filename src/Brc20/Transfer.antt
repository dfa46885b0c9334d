-- ===== src/Brc20/Transfer.antt =====
-- The numbers that `transferTransferNormal` of ord/stateless/brc20.go updates.
use modular_indexer_committe.Prelude.{
  ℕ, ◌+◌, ◌-◌, ◌<◌, ◌≤◌, ◌≡◌, ◌≢◌, refl, sym, subst, ap, ◌∙◌, length,
}
use modular_indexer_committe.Prelude.Outcome.{done, ◌>>◌}
use modular_indexer_committe.Prelude.Outcome.Keeps.{Keeps, keeps_rules}
use modular_indexer_committe.Bytes.{Bytes}
use modular_indexer_committe.Packages.{Uint256, Uint256Laws, Codec, CodecLaws, word_mod}
use modular_indexer_committe.Storage.{Cells, slot_storage, key_size}
use modular_indexer_committe.Storage.Laws.{CellLaws}
use modular_indexer_committe.Storage.Invariant.{get_bytes-keeps}
use modular_indexer_committe.Header.Access.{state_eq}
use modular_indexer_committe.Brc20.Keys
use modular_indexer_committe.Brc20.Keys.{get_tick_pkscript_hash}
use modular_indexer_committe.Brc20.Ops.{
  get_wallet_and_pkscript, update_latest_pkscript, count_event, transfer_transfer_normal,
}
use modular_indexer_committe.Brc20.Move.{number, update_balance-thrice}

module _ {S : Type 0} {c : Codec} {u : Uint256} {cells : Cells S} {P : S → Type 0}
    {view : S → Bytes → Bytes} (codec_laws : CodecLaws c) (laws : Uint256Laws u)
    (slots : CellLaws cells P view)
    (sized : (k : Bytes) (s : S) (a : Bytes) (s' : S)
      → cells.get k s ≡ done (a, s')
      → length k ≡ key_size) where
  pub get-quiet :
      (s0 : S) (k : Bytes) → Keeps (λ s. P s × ((j : Bytes) → view s j ≡ view s0 j)) (cells.get k)
  get-quiet s0 k = record {
    at = λ s a s' h e.
        let r = slots.get_lem k s h.0 (sized k s a s' e) in
        subst (λ s. P s × ((j : Bytes) → view s j ≡ view s0 j)) (state_eq (sym r.eq ∙ e))
          (r.holds.0, λ j. r.holds.2 j ∙ h.1 j);
  }

  -- Reading the owner of an inscription changes no slot.
  get_wallet_and_pkscript-quiet :
      (s0 : S) (inscription : Bytes)
      → Keeps
          (λ s. P s × ((j : Bytes) → view s j ≡ view s0 j))
          (get_wallet_and_pkscript c u (slot_storage u cells) inscription)
  unfolding get_wallet_and_pkscript slot_storage
  get_wallet_and_pkscript-quiet s0 inscription =
      search (keeps_rules, get_bytes-keeps u cells (get-quiet s0))

  -- transferTransferNormal, over slots that keep their laws and whose reads end only at keys of 32
  -- bytes, where the read of the source of the inscription ends, the overall balance of the source
  -- covers the amount and neither balance of the receiver overflows, first ends without a panic in
  -- a state that keeps the predicate of the slots, in which the overall balance is as before if the
  -- source and the receiver have one key, else the source has lost the amount and the receiver has
  -- gained it, the available balance of the receiver has grown by the amount, and no other slot
  -- holds another number; from there it does updateLatestPkscript of the source and of the receiver
  -- and counts the event.
  pub transfer_transfer_normal-numbers :
      (inscription spent_pkscript spent_wallet tick : Bytes) (amount : ℕ) (wallet source : Bytes)
      (s s0 : S)
      → P s
      → get_wallet_and_pkscript c u (slot_storage u cells) inscription s
        ≡ done ((wallet, source), s0)
      → let source_key = get_tick_pkscript_hash c tick source Keys.overall_balance_pkscript in
        let spent_key =
          get_tick_pkscript_hash c tick spent_pkscript Keys.overall_balance_pkscript in
        let available_key =
          get_tick_pkscript_hash c tick spent_pkscript Keys.available_balance_pkscript in
        let kv = slot_storage u cells in
        amount ≤ number u view s source_key
        → number u view s spent_key + amount < word_mod
        → number u view s available_key + amount < word_mod
        → (s' : S) × (transfer_transfer_normal c u kv inscription spent_pkscript spent_wallet tick
              amount s
            ≡ (update_latest_pkscript c u kv wallet source
                  >> (update_latest_pkscript c u kv spent_wallet spent_pkscript
                      >> count_event c u kv inscription Keys.transfer_transfer_count))
                s')
          × P s'
          × (source_key ≡ spent_key → number u view s' source_key ≡ number u view s source_key)
          × (source_key ≢ spent_key
              → (number u view s' source_key ≡ number u view s source_key - amount)
                × (number u view s' spent_key ≡ number u view s spent_key + amount))
          × (number u view s' available_key ≡ number u view s available_key + amount)
          × ((j : Bytes)
              → source_key ≢ j
              → available_key ≢ j
              → spent_key ≢ j
              → number u view s' j ≡ number u view s j)
  unfolding transfer_transfer_normal
  transfer_transfer_normal-numbers inscription spent spent_wallet tick amount wallet source s s0 h e
        le fits_spent fits_available =
      let kv = slot_storage u cells in
      let quiet =
        (get_wallet_and_pkscript-quiet s inscription).at s (wallet, source) s0 (h, λ j. refl) e in
      let same : (j : Bytes) → number u view s0 j ≡ number u view s j =
        λ j. ap u.set_bytes (quiet.1 j) in
      let k1 = get_tick_pkscript_hash c tick source Keys.overall_balance_pkscript in
      let k2 = get_tick_pkscript_hash c tick spent Keys.overall_balance_pkscript in
      let k3 = get_tick_pkscript_hash c tick spent Keys.available_balance_pkscript in
      let r =
        update_balance-thrice codec_laws laws slots tick source spent amount s0 quiet.0
          (rw (same k1) le) (rw (same k2) fits_spent) (rw (same k3) fits_available) in
      (
        r.0,
        rw e (
            r.1 (
              update_latest_pkscript c u kv wallet source
              >> (update_latest_pkscript c u kv spent_wallet spent
                  >> count_event c u kv inscription Keys.transfer_transfer_count))),
        r.2,
        (λ q. r.3 q ∙ same k1),
        (λ d.
            let w = r.4 d in
            (w.0 ∙ ap (λ n. n - amount) (same k1), w.1 ∙ ap (λ n. n + amount) (same k2))),
        r.5 ∙ ap (λ n. n + amount) (same k3),
        λ j x1 x3 x2. r.6 j x1 x3 x2 ∙ same j,
      )
