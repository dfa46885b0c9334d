-- ===== src/Tests/Headers.antt =====
-- Header, at a header with one write and one read.
use modular_indexer_committe.Prelude.{◌≡◌, refl, Bool, true, [], ◌∷◌, arith, replicate}
use modular_indexer_committe.Prelude.Outcome.{ok}
use modular_indexer_committe.Bytes.{Bytes, bytes_equal_iff}
use modular_indexer_committe.KeyMap.{KeyMap, lookup}
use modular_indexer_committe.OrdGetter.{OrdGetter}
use modular_indexer_committe.Packages.Sample.{sample_verkle, AnyTree, sample_verkle-laws}
use modular_indexer_committe.Storage.Laws.{CellLaws}
use modular_indexer_committe.Header.{Header, header_cells}
use modular_indexer_committe.Header.Valid.{header_view, is_recorded, IsValid}
use modular_indexer_committe.Header.Access.{Within, header_cells-laws}
use modular_indexer_committe.Header.Paging.{paging, rollingback}
use modular_indexer_committe.Header.Commit.{paging-IsValid}
use modular_indexer_committe.Header.Rollback.{rollingback-paging}

abbrev pub fresh : Header (KeyMap Bytes)
fresh = record {
  root = [];
  kv = [];
  height = 10;
  hash = [];
  ord_trans = [];
  access = [];
  intermediate_kv = [];
}

pub fresh-IsValid : IsValid sample_verkle AnyTree fresh
unfolding sample_verkle lookup
fresh-IsValid = record {
  full = tt;
  consistent = λ k. refl;
  kv_sized = tt;
  pending_sized = tt;
  recorded = λ k v e. cc;
  accurate = tt;
}

fresh-Within : Within sample_verkle AnyTree fresh fresh
fresh-Within = record {
  valid = fresh-IsValid;
  same_root = refl;
  same_kv = refl;
  same_height = refl;
  same_hash = refl;
}

header_cells-laws_example :
    CellLaws (header_cells sample_verkle) (Within sample_verkle AnyTree fresh) header_view
header_cells-laws_example = header_cells-laws sample_verkle AnyTree fresh

-- The header after a write of sevens.
abbrev wrote : Header (KeyMap Bytes)
wrote = record fresh {
  access =
      record {
        key = replicate 32 0;
        old_value = replicate 32 0;
        new_value = replicate 32 7;
        old_value_exists = Bool.false;
      }
      ∷ [];
  intermediate_kv = (replicate 32 0, replicate 32 7) ∷ [];
}

wrote-IsValid : IsValid sample_verkle AnyTree wrote
unfolding sample_verkle lookup is_recorded
wrote-IsValid = record {
  full = tt;
  consistent = λ k. refl;
  kv_sized = tt;
  pending_sized = ((refl, refl), tt);
  recorded = λ k v e.
      ground (arith, bytes_equal_iff k (replicate 32 0), bytes_equal_iff (replicate 32 0) k);
  accurate = (refl, tt);
}

abbrev pub answers : OrdGetter
answers = record {
  get_latest_block_height = ok 20;
  get_block_hash = λ height. ok (height ∷ []);
  get_ord_transfers = λ height. ok [];
}

paging-IsValid_example :
    let h' = (paging sample_verkle answers true wrote).1 in
    IsValid sample_verkle AnyTree h'
    × (h'.height ≡ 11)
    × (h'.access ≡ [])
    × (h'.intermediate_kv ≡ [])
    × ((k : Bytes) → header_view h' k ≡ header_view wrote k)
paging-IsValid_example = paging-IsValid sample_verkle-laws answers true wrote wrote-IsValid

rollingback-paging_example :
    let (tree, keys) =
      rollingback sample_verkle (paging sample_verkle answers true wrote).1 wrote.access in
    (sample_verkle.commit tree ≡ sample_verkle.commit wrote.root)
    × ((k : Bytes) → sample_verkle.get tree k ≡ sample_verkle.get wrote.root k)
    × (keys ≡ replicate 32 0 ∷ [])
rollingback-paging_example = rollingback-paging sample_verkle-laws answers true wrote wrote-IsValid
