-- ===== src/Tests/Texts.antt =====
-- Texts in slots, at a text of two slots and at the source of an inscription.
use modular_indexer_committe.Prelude.{
  ℕ, ◌+◌, ◌<◌, ◌≡◌, ◌≢◌, refl, [], ◌∷◌, arith, length, replicate,
}
use modular_indexer_committe.Prelude.Outcome.{Ends, ◌>>◌}
use modular_indexer_committe.Bytes.{Bytes, codes}
use modular_indexer_committe.KeyMap.{KeyMap}
use modular_indexer_committe.Packages.Sample.{
  sample_uint256, sample_uint256-laws, sample_verkle, AnyTree, sample_codec, sample_codec-laws,
}
use modular_indexer_committe.Storage.{
  slot_storage, suffix, slot_key, insert_bytes, get_bytes, required_slots,
}
use modular_indexer_committe.Storage.Text.{get_bytes-insert_bytes}
use modular_indexer_committe.Header.{header_cells}
use modular_indexer_committe.Header.Valid.{header_view}
use modular_indexer_committe.Header.Access.{Within, header_cells-laws}
use modular_indexer_committe.Bytes.Hex.{encode_to_string}
use modular_indexer_committe.Brc20.Keys.{get_event_hash}
use modular_indexer_committe.Brc20.Ops.{update_wallet_and_pkscript, get_wallet_and_pkscript}
use modular_indexer_committe.Brc20.Source.{get_wallet_and_pkscript-update_wallet_and_pkscript}
use modular_indexer_committe.Tests.Headers.{fresh, fresh-IsValid}

abbrev text : Bytes
text = codes "a text that is longer than one slot"

abbrev text_key : Bytes
text_key = replicate 32 7

fresh-Within : Within sample_verkle AnyTree fresh fresh
fresh-Within = record {
  valid = fresh-IsValid;
  same_root = refl;
  same_kv = refl;
  same_height = refl;
  same_hash = refl;
}

get_bytes-insert_bytes_example :
    Ends
      ((insert_bytes sample_uint256 (header_cells sample_verkle) text_key text
          >> get_bytes sample_uint256 (header_cells sample_verkle) text_key)
        fresh)
      (λ r h.
        Within sample_verkle AnyTree fresh h
        × (r ≡ text)
        × ((j : Bytes)
            → text_key ≢ j
            → ((m : ℕ) → m < required_slots (length text) → slot_key text_key (m + 1) ≢ j)
            → header_view {Node = KeyMap Bytes} h j ≡ header_view fresh j))
unfolding suffix
get_bytes-insert_bytes_example =
    get_bytes-insert_bytes sample_uint256-laws (header_cells-laws sample_verkle AnyTree fresh)
      text_key text fresh fresh-Within refl (omega arith)

get_wallet_and_pkscript-update_wallet_and_pkscript_example :
    let kv = slot_storage sample_uint256 (header_cells sample_verkle) in
    Ends
      ((update_wallet_and_pkscript sample_codec sample_uint256 kv
            (codes "id")
            (codes "w")
            (encode_to_string (81 ∷ []))
          >> get_wallet_and_pkscript sample_codec sample_uint256 kv (codes "id"))
        fresh)
      (λ r h.
        Within sample_verkle AnyTree fresh h
        × (r ≡ (codes "w", encode_to_string (81 ∷ [])))
        × ((loc : ℕ)
            → loc < 2
            → header_view {Node = KeyMap Bytes} h (get_event_hash sample_codec (codes "id") loc)
              ≡ header_view fresh (get_event_hash sample_codec (codes "id") loc)))
unfolding sample_codec
get_wallet_and_pkscript-update_wallet_and_pkscript_example =
    get_wallet_and_pkscript-update_wallet_and_pkscript sample_codec-laws sample_uint256-laws
      (header_cells-laws sample_verkle AnyTree fresh) (codes "id") (codes "w") (81 ∷ []) fresh
      fresh-Within refl (omega arith) (omega arith, tt) (omega arith)
