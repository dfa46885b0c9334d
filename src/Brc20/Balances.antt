-- ===== src/Brc20/Balances.antt =====
-- `updateBalance` of ord/stateless/brc20.go: what it does to the slots.
use modular_indexer_committe.Prelude.{
  ℕ, ◌≡◌, ap, ◌∙◌, [], ◌∷◌, ◌++◌, arith, length, length-append, length-take, take, if◌then◌else◌,
}
use modular_indexer_committe.Prelude.Outcome.{Ends}
use modular_indexer_committe.Bytes.{Bytes, bytes_equal, codes}
use modular_indexer_committe.Packages.{Uint256, Uint256Laws, Codec, CodecLaws}
use modular_indexer_committe.Storage.{Cells, slot_storage, get_uint256, insert_uint256}
use modular_indexer_committe.Storage.Laws.{CellLaws}
use modular_indexer_committe.Brc20.Keys.{
  event_image, stem_of, get_event_hash, get_tick_pkscript_hash,
}
use modular_indexer_committe.Brc20.Ops.{update_uint256, update_balance}

pub length-get_tick_pkscript_hash :
    {c : Codec}
    → CodecLaws c
    → (tick pk : Bytes) (loc : ℕ) → length (get_tick_pkscript_hash c tick pk loc) ≡ 32
unfolding get_tick_pkscript_hash stem_of
length-get_tick_pkscript_hash {c} laws tick pk loc =
    let image = (tick ++ pk) ++ codes "GetTickPkscriptHash" in
    omega (
      arith,
      length-append (take 31 (c.keccak256 image)) (loc ∷ []),
      length-take 31 (c.keccak256 image),
      laws.length-keccak256 image,
    )

pub length-get_event_hash :
    {c : Codec} → CodecLaws c → (id : Bytes) (loc : ℕ) → length (get_event_hash c id loc) ≡ 32
unfolding get_event_hash event_image stem_of
length-get_event_hash {c} laws id loc =
    let image = event_image id in
    omega (
      arith,
      length-append (take 31 (c.keccak256 image)) (loc ∷ []),
      length-take 31 (c.keccak256 image),
      laws.length-keccak256 image,
    )

-- A slot after a write of a number to `key`.
abbrev pub written_number : Uint256 → (Bytes → Bytes) → Bytes → ℕ → Bytes → Bytes
written_number u view key n j = if bytes_equal key j then u.write_to_array32 n else view j

module _ {S : Type 0} {c : Codec} {u : Uint256} {cells : Cells S} {P : S → Type 0}
    {view : S → Bytes → Bytes} (codec_laws : CodecLaws c) (laws : Uint256Laws u)
    (slots : CellLaws cells P view) where
  pub update_uint256_lem :
      (f : ℕ → ℕ) (key : Bytes) (s : S)
      → P s
      → length key ≡ 32
      → Ends (update_uint256 c u (slot_storage u cells) f key s) (λ _ s'.
        P s'
        × ((j : Bytes)
            → view s' j ≡ written_number u (view s) key (f (u.set_bytes (view s key))) j))
  unfolding update_uint256 slot_storage get_uint256 insert_uint256
  update_uint256_lem f key s h size =
      let old = slots.get_lem key s h size in
      let new =
        slots.insert_lem key (u.write_to_array32 (f (u.set_bytes old.value))) old.state old.holds.0
          size (laws.length-write_to_array32 (f (u.set_bytes old.value))) in
      record {
        value = new.value;
        state = new.state;
        eq = rw old.eq new.eq;
        holds = (
          new.holds.0,
          λ j.
              new.holds.1 j
              ∙ ap
                  (λ v.
                    if bytes_equal key j
                    then u.write_to_array32 (f (u.set_bytes v))
                    else view old.state j)
                  old.holds.1
              ∙ ap
                  (λ w.
                    if bytes_equal key j
                    then u.write_to_array32 (f (u.set_bytes (view s key)))
                    else w)
                  (old.holds.2 j),
        );
      }

  pub update_balance_lem :
      (f : ℕ → ℕ) (tick pk : Bytes) (loc : ℕ) (s : S)
      → P s
      → let key = get_tick_pkscript_hash c tick pk loc in
        Ends (update_balance c u (slot_storage u cells) f tick pk loc s) (λ _ s'.
          P s'
          × ((j : Bytes)
              → view s' j ≡ written_number u (view s) key (f (u.set_bytes (view s key))) j))
  unfolding update_balance
  update_balance_lem f tick pk loc s h =
      update_uint256_lem f (get_tick_pkscript_hash c tick pk loc) s h
        (length-get_tick_pkscript_hash codec_laws tick pk loc)
