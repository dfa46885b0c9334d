-- ===== src/Queue/Undo.antt =====
-- The key-value map that the entries of a history take a map back to, from the last one on.
use modular_indexer_committe.Prelude.{
  ℕ, zero, suc, ◌<◌, ◌≤◌, ◌≡◌, refl, ap, ◌∙◌, Option, none, some, List, arith, get_elem?,
}
use modular_indexer_committe.Bytes.{Bytes}
use modular_indexer_committe.KeyMap.{KeyMap}
use modular_indexer_committe.Header.Paging.{undo}
use modular_indexer_committe.Queue.{DiffState}
use modular_indexer_committe.Queue.Chain.{Same, undo-Same}

abbrev pub undo_at : Option DiffState → KeyMap Bytes → KeyMap Bytes
undo_at none m = m
undo_at (some diff) m = undo diff.access m

-- `steps` entries are undone, the first of them the one below the index `j`.
abbrev pub undo_back : List DiffState → ℕ → ℕ → KeyMap Bytes → KeyMap Bytes
undo_back ds zero j m = m
undo_back ds (suc steps) zero m = m
undo_back ds (suc steps) (suc j) m = undo_back ds steps j (undo_at (get_elem? ds j) m)

undo_at-Same :
    (o : Option DiffState) (m m' : KeyMap Bytes) → Same m m' → Same (undo_at o m) (undo_at o m')
undo_at-Same none m m' h = h
undo_at-Same (some diff) m m' h = undo-Same diff.access m m' h

pub undo_back-Same :
    (ds : List DiffState) (steps j : ℕ) (m m' : KeyMap Bytes)
    → Same m m'
    → Same (undo_back ds steps j m) (undo_back ds steps j m')
undo_back-Same ds zero j m m' h = h
undo_back-Same ds (suc steps) zero m m' h = h
undo_back-Same ds (suc steps) (suc j) m m' h =
    undo_back-Same ds steps j (undo_at (get_elem? ds j) m) (undo_at (get_elem? ds j) m')
      (undo_at-Same (get_elem? ds j) m m' h)

-- A history that has been shifted by one place.
pub undo_back-shift :
    (ds ds' : List DiffState) (steps j : ℕ) (m : KeyMap Bytes)
    → ((i : ℕ) → i < j → get_elem? ds' i ≡ get_elem? ds (suc i))
    → steps ≤ j
    → undo_back ds' steps j m ≡ undo_back ds steps (suc j) m
undo_back-shift ds ds' zero j m same le = refl
undo_back-shift ds ds' (suc steps) zero m same le = absurd (omega arith)
undo_back-shift ds ds' (suc steps) (suc j) m same le =
    ap (λ o. undo_back ds' steps j (undo_at o m)) (same j (omega arith))
    ∙ undo_back-shift ds ds' steps j (undo_at (get_elem? ds (suc j)) m)
        (λ i lt. same i (omega arith)) (omega arith)
