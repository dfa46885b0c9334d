-- ===== src/Brc20/Source.antt =====
-- `updateWalletAndPkscript` and `getWalletAndPkscript` of ord/stateless/brc20.go: the source of a
-- transfer inscription, which is written when it is inscribed and read when it is transferred.
use modular_indexer_committe.Prelude.{
  ℕ, ◌+◌, ◌<◌, ◌≤◌, ◌≡◌, refl, ap, ◌∙◌, [], ◌∷◌, ◌++◌, arith, length, length-take, take, get_or,
  All,
}
use modular_indexer_committe.Prelude.Outcome.{Ends, Ends-bind, Ends-weaken, ◌>>◌}
use modular_indexer_committe.Bytes.{Bytes}
use modular_indexer_committe.Bytes.Hex.{IsByte, encode_to_string, decode-encode}
use modular_indexer_committe.Packages.{Uint256, Uint256Laws, Codec, CodecLaws}
use modular_indexer_committe.Storage.{Cells, slot_storage, suffix, slot_key, pad, required_slots}
use modular_indexer_committe.Storage.Laws.{CellLaws}
use modular_indexer_committe.Storage.Text.{
  chunk, insert_bytes_lem, get_bytes_lem, suffix-slot_key, get_or-last,
}
use modular_indexer_committe.Brc20.Keys.{event_image, stem_of, get_event_hash}
use modular_indexer_committe.Brc20.Ops.{
  decode_or_panic, update_wallet_and_pkscript, get_wallet_and_pkscript,
}
use modular_indexer_committe.Brc20.Balances.{length-get_event_hash}

suffix-get_event_hash :
    {c : Codec} → CodecLaws c → (id : Bytes) (loc : ℕ) → suffix (get_event_hash c id loc) ≡ loc
unfolding suffix get_event_hash stem_of event_image
suffix-get_event_hash {c} laws id loc =
    let stem = take 31 (c.keccak256 (event_image id)) in
    let size : 31 ≡ length stem = omega (
      arith,
      length-take 31 (c.keccak256 (event_image id)),
      laws.length-keccak256 (event_image id),
    ) in
    ap (λ n. get_or (stem ++ loc ∷ []) n 0) size ∙ get_or-last stem loc

-- A slot of the text at an event key.
suffix-event_slot :
    {c : Codec}
    → CodecLaws c
    → (id : Bytes) (loc m : ℕ) → loc + m < 256
    → suffix (slot_key (get_event_hash c id loc) m) ≡ loc + m
suffix-event_slot {c} laws id loc m fits = omega (
  arith,
  suffix-slot_key (get_event_hash c id loc) m (length-get_event_hash laws id loc),
  suffix-get_event_hash laws id loc,
  fits,
)

module _ {S : Type 0} {c : Codec} {u : Uint256} {cells : Cells S} {P : S → Type 0}
    {view : S → Bytes → Bytes} (codec_laws : CodecLaws c) (laws : Uint256Laws u)
    (slots : CellLaws cells P view) where
  -- The slots from `k` on hold the length and the bytes of a text.
  abbrev HasText : S → Bytes → Bytes → Type 0
  HasText s k v =
      (view s k ≡ u.write_to_array32 (length v))
      × ((m : ℕ)
          → m < required_slots (length v)
          → view s (slot_key k (m + 1)) ≡ chunk (pad u cells v) m)

  update_wallet_and_pkscript_lem :
      (id wallet pkscript : Bytes) (s : S)
      → P s
      → length (c.base58_decode wallet) ≤ 64
      → All IsByte pkscript
      → length pkscript ≤ 8000
      → Ends
          (update_wallet_and_pkscript c u
            (slot_storage u cells)
            id
            wallet
            (encode_to_string pkscript)
            s)
          (λ _ s'.
            P s'
            × HasText s' (get_event_hash c id 2) (c.base58_decode wallet)
            × HasText s' (get_event_hash c id 5) pkscript
            × ((loc : ℕ)
                → loc < 2
                → view s' (get_event_hash c id loc) ≡ view s (get_event_hash c id loc)))
  unfolding update_wallet_and_pkscript decode_or_panic slot_storage
  update_wallet_and_pkscript_lem id wallet pkscript s h short bytes fits =
      let kw = get_event_hash c id 2 in
      let kp = get_event_hash c id 5 in
      let sx = suffix-get_event_hash codec_laws id in
      let one =
        insert_bytes_lem laws slots kw (c.base58_decode wallet) s h
          (length-get_event_hash codec_laws id 2) (omega (arith, sx 2, short)) in
      let two =
        insert_bytes_lem laws slots kp pkscript one.state one.holds.0
          (length-get_event_hash codec_laws id 5) (omega (arith, sx 5, fits)) in
      let slot_2 : (m : ℕ)
          → m < required_slots (length (c.base58_decode wallet))
          → suffix (slot_key kw (m + 1)) ≡ 2 + (m + 1) =
        λ m hi. suffix-event_slot codec_laws id 2 (m + 1) (omega (arith, hi, short)) in
      let apart : (j : Bytes) → suffix j < 5 → view two.state j ≡ view one.state j = λ j low.
        two.holds.3 j (λ e. omega (arith, ap suffix e, sx 5, low))
          (λ m hi e. omega (
            arith,
            ap suffix e,
            suffix-event_slot codec_laws id 5 (m + 1) (omega (arith, hi, fits)),
            low,
          )) in
      record {
        value = two.value;
        state = two.state;
        eq = rw (one.eq, decode-encode pkscript bytes, two.eq) refl;
        holds = (
          two.holds.0,
          (
            apart kw (omega (arith, sx 2)) ∙ one.holds.1,
            λ m hi.
                apart (slot_key kw (m + 1)) (omega (arith, slot_2 m hi, hi, short))
                ∙ one.holds.2 m hi,
          ),
          (two.holds.1, two.holds.2),
          λ loc low.
              apart (get_event_hash c id loc) (omega (arith, sx loc, low))
              ∙ one.holds.3 (get_event_hash c id loc)
                  (λ e. omega (arith, ap suffix e, sx 2, sx loc, low))
                  (λ m hi e. omega (arith, ap suffix e, slot_2 m hi, sx loc, low)),
        );
      }

  get_wallet_and_pkscript_lem :
      (id wallet pkscript : Bytes) (s : S)
      → P s
      → length wallet ≤ 64
      → length pkscript ≤ 8000
      → HasText s (get_event_hash c id 2) wallet
      → HasText s (get_event_hash c id 5) pkscript
      → Ends (get_wallet_and_pkscript c u (slot_storage u cells) id s) (λ r s'.
        P s'
        × (r ≡ (c.base58_encode wallet, encode_to_string pkscript))
        × ((j : Bytes) → view s' j ≡ view s j))
  unfolding get_wallet_and_pkscript slot_storage
  get_wallet_and_pkscript_lem id wallet pkscript s h short fits hw hp =
      let kp = get_event_hash c id 5 in
      let one =
        get_bytes_lem laws slots (get_event_hash c id 2) wallet s h
          (length-get_event_hash codec_laws id 2) (omega (arith, short)) hw.0 hw.1 in
      let two =
        get_bytes_lem laws slots kp pkscript one.state one.holds.0
          (length-get_event_hash codec_laws id 5) (omega (arith, fits)) (one.holds.2 kp ∙ hp.0)
          (λ m hi. one.holds.2 (slot_key kp (m + 1)) ∙ hp.1 m hi) in
      record {
        value = (c.base58_encode one.value, encode_to_string two.value);
        state = two.state;
        eq = rw (one.eq, two.eq) refl;
        holds = (
          two.holds.0,
          ap (λ b. (c.base58_encode b, encode_to_string two.value)) one.holds.1
              ∙ ap (λ b. (c.base58_encode wallet, encode_to_string b)) two.holds.1,
          λ j. two.holds.2 j ∙ one.holds.2 j,
        );
      }

  -- Over slots that keep their laws, getWalletAndPkscript after updateWalletAndPkscript gives the
  -- wallet and the pkscript that were written, without a panic, and leaves the two event counts of
  -- the inscription as they were, where the wallet is what base58 encodes back from its at most 64
  -- decoded bytes, and the pkscript is the hex text of at most 8000 bytes.
  pub get_wallet_and_pkscript-update_wallet_and_pkscript :
      (id wallet pkscript : Bytes) (s : S)
      → P s
      → c.base58_encode (c.base58_decode wallet) ≡ wallet
      → length (c.base58_decode wallet) ≤ 64
      → All IsByte pkscript
      → length pkscript ≤ 8000
      → let kv = slot_storage u cells in
        Ends
          ((update_wallet_and_pkscript c u kv id wallet (encode_to_string pkscript)
              >> get_wallet_and_pkscript c u kv id)
            s)
          (λ r s'.
            P s'
            × (r ≡ (wallet, encode_to_string pkscript))
            × ((loc : ℕ)
                → loc < 2
                → view s' (get_event_hash c id loc) ≡ view s (get_event_hash c id loc)))
  get_wallet_and_pkscript-update_wallet_and_pkscript id wallet pkscript s h encodes short bytes
        fits =
      let kv = slot_storage u cells in
      Ends-bind (update_wallet_and_pkscript c u kv id wallet (encode_to_string pkscript))
        (λ _. get_wallet_and_pkscript c u kv id) s
        (update_wallet_and_pkscript_lem id wallet pkscript s h short bytes fits)
        (λ a s1 w.
          Ends-weaken
            (get_wallet_and_pkscript_lem id (c.base58_decode wallet) pkscript s1 w.0 short fits w.1
              w.2)
            (λ b s2 r. (
              r.0,
              r.1 ∙ ap (λ t. (t, encode_to_string pkscript)) encodes,
              λ loc low. r.2 (get_event_hash c id loc) ∙ w.3 loc low,
            )))
