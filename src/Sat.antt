-- ===== src/Sat.antt =====
-- ord/sat.go, with its types of ord/types.go: where a satoshi is, as a text. An error is `none`.
use modular_indexer_committe.Prelude.{
  ℕ, ◌^◌, ◌<◌, ◌≡◌, ◌≢◌, refl, ap, ◌∙◌, Bool, true, false, Option, none, some, List, [], ◌∷◌, ◌++◌,
  arith, All, length, ◌==◌, if◌then◌else◌,
}
use modular_indexer_committe.Bytes.{Bytes}
use modular_indexer_committe.Bytes.Text.{IsDigit, split, split-append, split-no_sep, parse_below}
use modular_indexer_committe.Bytes.Decimal.{
  format_uint, format_uint-IsDigit, parse_below-format_uint,
}

pub record OutPoint : Type 0 where
  pub tx_id : Bytes
  pub offset : ℕ

pub record SatPoint : Type 0 where
  pub out_point : OutPoint
  pub offset : ℕ

unfoldable pub encode_out_point : OutPoint → Bytes
encode_out_point p = p.tx_id ++ b':' ∷ format_uint p.offset

abbrev with_out_offset : Bytes → Option ℕ → Option OutPoint
with_out_offset tx_id none = none
with_out_offset tx_id (some offset) = some (record { tx_id = tx_id; offset = offset })

abbrev out_point_of : List Bytes → Option OutPoint
out_point_of (tx_id ∷ offset ∷ []) =
    if length tx_id == 32 then with_out_offset tx_id (parse_below (2 ^ 64) offset) else none
out_point_of parts = none

unfoldable pub decode_out_point : Bytes → Option OutPoint
decode_out_point s = out_point_of (split b':' s)

unfoldable pub encode_sat_point : SatPoint → Bytes
unfolding encode_out_point
encode_sat_point p = encode_out_point p.out_point ++ b':' ∷ format_uint p.offset

-- A byte in front of what was cut, or the first cut.
abbrev cut_here : ℕ → Bytes → Bool → Option (Bytes × Bytes) → Option (Bytes × Bytes)
cut_here c s here (some (a, b)) = some (c ∷ a, b)
cut_here c s true none = some ([], s)
cut_here c s false none = none

-- The text before and after the last separator: `strings.LastIndex` and the two slices.
unfoldable pub split_last : ℕ → Bytes → Option (Bytes × Bytes)
split_last sep [] = none
split_last sep (c ∷ s) = cut_here c s (c == sep) (split_last sep s)

abbrev with_offset : Option OutPoint → Option ℕ → Option SatPoint
with_offset none offset = none
with_offset (some p) none = none
with_offset (some p) (some offset) = some (record { out_point = p; offset = offset })

abbrev sat_point_of : Option (Bytes × Bytes) → Option SatPoint
sat_point_of none = none
sat_point_of (some (first, last)) = with_offset (decode_out_point first) (parse_below (2 ^ 64) last)

unfoldable pub decode_sat_point : Bytes → Option SatPoint
unfolding decode_out_point split_last
decode_sat_point s = sat_point_of (split_last b':' s)

digits-no_colon : (s : Bytes) → All IsDigit s → All (λ c. c ≢ b':') s
digits-no_colon [] h = tt
digits-no_colon (c ∷ s) h = (omega (arith, h.0), digits-no_colon s h.1)

split_last-no_sep : (sep : ℕ) (s : Bytes) → All (λ c. c ≢ sep) s → split_last sep s ≡ none
unfolding split_last
split_last-no_sep sep [] h = refl
split_last-no_sep sep (c ∷ s) h = ground (arith, split_last-no_sep sep s h.1)

split_last-append :
    (sep : ℕ) (a b : Bytes) → All (λ c. c ≢ sep) b → split_last sep (a ++ sep ∷ b) ≡ some (a, b)
unfolding split_last
split_last-append sep [] b h = ground (arith, split_last-no_sep sep b h)
split_last-append sep (c ∷ a) b h = rw (split_last-append sep a b h) refl

decode_out_point-encode_out_point :
    (p : OutPoint)
    → length p.tx_id ≡ 32
    → All (λ c. c ≢ b':') p.tx_id
    → p.offset < 2 ^ 64
    → decode_out_point (encode_out_point p) ≡ some p
unfolding decode_out_point encode_out_point
decode_out_point-encode_out_point p sized plain small =
    ap out_point_of (
      split-append b':' p.tx_id (format_uint p.offset) plain
      ∙ ap (λ parts. p.tx_id ∷ parts)
          (split-no_sep b':' (format_uint p.offset)
            (digits-no_colon (format_uint p.offset) (format_uint-IsDigit p.offset))))
    ∙ rw (parse_below-format_uint p.offset (2 ^ 64) small small) ground (arith, sized)

-- DecodeSatPoint of the text of a satpoint, whose transaction ID has 32 bytes and no colon and
-- whose offsets fit 64 bits, is the satpoint.
pub decode_sat_point-encode_sat_point :
    (p : SatPoint)
    → length p.out_point.tx_id ≡ 32
    → All (λ c. c ≢ b':') p.out_point.tx_id
    → p.out_point.offset < 2 ^ 64
    → p.offset < 2 ^ 64
    → decode_sat_point (encode_sat_point p) ≡ some p
unfolding decode_sat_point encode_sat_point
decode_sat_point-encode_sat_point p sized plain small small' =
    ap sat_point_of (
      split_last-append b':' (encode_out_point p.out_point) (format_uint p.offset)
        (digits-no_colon (format_uint p.offset) (format_uint-IsDigit p.offset)))
    ∙ ap (λ o. with_offset o (parse_below (2 ^ 64) (format_uint p.offset)))
        (decode_out_point-encode_out_point p.out_point sized plain small)
    ∙ ap (with_offset (some p.out_point)) (parse_below-format_uint p.offset (2 ^ 64) small' small')
