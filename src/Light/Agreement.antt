-- ===== src/Light/Agreement.antt =====
-- `Exec` on a light header computes the commitment that `Exec` and `Paging` give a full header.
use modular_indexer_committe.Prelude.{ℕ, ◌≡◌, refl, sym, ap, ◌∙◌, List, Bool}
use modular_indexer_committe.Prelude.Outcome.{ok, done}
use modular_indexer_committe.OrdGetter.{OrdGetter, OrdTransfer}
use modular_indexer_committe.Packages.{Verkle, VerkleLaws, Uint256, Uint256Laws, Codec}
use modular_indexer_committe.Storage.{slot_storage}
use modular_indexer_committe.Header.{Header, header_cells}
use modular_indexer_committe.Header.Valid.{or_empty}
use modular_indexer_committe.Header.Alike.{lookup-paging}
use modular_indexer_committe.Header.Paging.{paging}
use modular_indexer_committe.Header.Commit.{paging-IsValid}
use modular_indexer_committe.Brc20.Exec.{exec}
use modular_indexer_committe.Brc20.Simulates.{exec-simulates}
use modular_indexer_committe.Queue.{exec_header}
use modular_indexer_committe.Light.{LightHeader, light_storage}
use modular_indexer_committe.Light.Strict.{strict_storage, storage-header}
use modular_indexer_committe.Light.Mirrors.{Mirrors, storage-Mirrors}

module _ {Node : Type 0} {t : Verkle Node} {IsFull : Node → Type 0} (laws : VerkleLaws t IsFull)
    {u : Uint256} (words : Uint256Laws u) (c : Codec) where
  pub Mirrors-paging :
      (getter : OrdGetter) (query_hash : Bool) (h : Header Node) (l : LightHeader Node)
      → Mirrors laws words h l
      → t.commit (paging t getter query_hash h).1.root ≡ t.commit l.root
  Mirrors-paging getter query_hash h l r =
      let v = (paging-IsValid laws getter query_hash h r.valid).0 in
      laws.commit-eq (paging t getter query_hash h).1.root l.root v.full r.full (λ k.
        v.consistent k
        ∙ ap (λ o. ok (or_empty o)) (lookup-paging laws getter query_hash h k)
        ∙ sym (r.mirrored k))

  -- Where a light header and a header over lawful trees hold the same values at the same height,
  -- and Exec of a block on the header does not panic even if it were to panic on reading a text or
  -- an inscription ID from a slot that holds nothing, Exec does not panic on either, and the tree
  -- of the light header then has the commitment that Paging gives the header.
  pub exec-Mirrors :
      (getter : OrdGetter) (query_hash : Bool) (ots : List OrdTransfer) (i : ℕ) (h h' : Header Node)
      (l : LightHeader Node)
      → Mirrors laws words h l
      → exec c u (strict_storage t u) ots i h ≡ done (tt, h')
      → (exec_header t c u ots i h ≡ done (tt, h'))
        × ((l' : LightHeader Node) × (exec c u (light_storage t u) ots i l ≡ done (tt, l'))
            × (t.commit l'.root ≡ t.commit (paging t getter query_hash h').1.root))
  unfolding exec_header strict_storage slot_storage light_storage header_cells
  exec-Mirrors getter query_hash ots i h h' l r e =
      let full =
        (exec-simulates c u (storage-header t u)
            (λ s s2 same. ap (λ (x : Header Node). x.height) same) ots i).at
          h h tt h' refl e in
      let light =
        (exec-simulates c u (storage-Mirrors laws words) (λ s s2 m. m.same_height) ots i).at h l tt
          h' r e in
      (
        full.1 ∙ ap (λ x. done (tt, x)) (sym full.2),
        (light.0, light.1, sym (Mirrors-paging getter query_hash h' light.0 light.2)),
      )
