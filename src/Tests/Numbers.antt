-- ===== src/Tests/Numbers.antt =====
-- Numbers, at the amounts 21 and 1.25.
use modular_indexer_committe.Prelude.{◌+◌, ◌*◌, ◌^◌, ◌≡◌, Bool, arith}
use modular_indexer_committe.Prelude.Outcome.{done}
use modular_indexer_committe.Bytes.{codes}
use modular_indexer_committe.Bytes.Text.{decimal_value, value_from}
use modular_indexer_committe.Packages.Sample.{sample_uint256, sample_uint256-laws, sample_codec}
use modular_indexer_committe.Numbers.{get_number_extended_to_18_decimals}
use modular_indexer_committe.Numbers.Extended.{fits, extended_integer, extended_decimal}

extended_integer_example :
    get_number_extended_to_18_decimals sample_uint256 sample_codec (codes "21") 18 Bool.false
    ≡ done (fits (21 * 10 ^ 18))
unfolding decimal_value value_from
extended_integer_example =
    extended_integer sample_uint256-laws sample_codec (codes "21") 18
      ((omega arith, omega arith), ((omega arith, omega arith), tt)) (λ e. cc)

extended_decimal_example :
    get_number_extended_to_18_decimals sample_uint256 sample_codec (codes "1.25") 18 Bool.false
    ≡ done (fits ((1 * 10 ^ 2 + 25) * 10 ^ 16))
unfolding decimal_value value_from
extended_decimal_example =
    extended_decimal sample_uint256-laws sample_codec (codes "1") (codes "25") 18
      ((omega arith, omega arith), tt) (λ e. cc)
      ((omega arith, omega arith), ((omega arith, omega arith), tt)) (λ e. cc) (omega arith)
