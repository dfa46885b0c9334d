-- ===== src/Queue/Chain.antt =====
-- The invariant of a queue: each entry of the history takes the key-value map of its block back to
-- the one before, whose tree has the commitment that the entry holds.
use modular_indexer_committe.Prelude.{
  ℕ, zero, suc, ◌+◌, ◌-◌, ◌<◌, ◌≡◌, sym, ap, ◌∙◌, Bool-cases, inl, inr, some, List, [], ◌∷◌, arith,
  length, get_elem?, All, subst, ◌==◌, ==_iff,
}
use modular_indexer_committe.Bytes.{Bytes}
use modular_indexer_committe.KeyMap.{KeyMap, lookup}
use modular_indexer_committe.Packages.{Verkle, VerkleLaws}
use modular_indexer_committe.Header.{TripleElement}
use modular_indexer_committe.Header.Valid.{IsSized, IsValid}
use modular_indexer_committe.Header.Paging.{undo, build_tree}
use modular_indexer_committe.Header.Tree.{build_tree-Agrees, commit-Agrees}
use modular_indexer_committe.Header.Rollback.{undo_one, lookup-undo_one, IsSizedOld, undo-IsSized}
use modular_indexer_committe.Queue.{Queue, DiffState, bitcoin_confirmations}

abbrev pub Same : KeyMap Bytes → KeyMap Bytes → Type 0
Same m m' = (k : Bytes) → lookup k m ≡ lookup k m'

pub undo-Same :
    (es : List TripleElement) (m m' : KeyMap Bytes) → Same m m' → Same (undo es m) (undo es m')
unfolding undo
undo-Same [] m m' h = h
undo-Same (e ∷ es) m m' h =
    undo-Same es (undo_one e m) (undo_one e m')
      (λ k. ground (arith, lookup-undo_one e m k, lookup-undo_one e m' k, h k))

module _ {Node : Type 0} (t : Verkle Node) where
  abbrev pub commitment : KeyMap Bytes → Bytes
  commitment m = t.commit (build_tree t m)

  -- The entry at the index `j` leads from the map `m` at the height `n` to the block before.
  pub record Link (ds : List DiffState) (j : ℕ) (m : KeyMap Bytes) (n : ℕ) : Type 0 where
    pub diff : DiffState
    pub at : get_elem? ds j ≡ some diff
    pub next_height : diff.height + 1 ≡ n
    pub old_sized : All IsSizedOld diff.access
    pub commits : commitment (undo diff.access m) ≡ diff.verkle_commit

  -- The entries at the indices below `j` lead back from `m`, one after the other.
  abbrev pub Chain : List DiffState → ℕ → KeyMap Bytes → ℕ → Type 0
  Chain ds zero m n = Unit
  Chain ds (suc j) m n = (l : Link ds j m n) × Chain ds j (undo l.diff.access m) l.diff.height

  pub record IsLinked (IsFull : Node → Type 0) (q : Queue Node) : Type 0 where
    pub valid : IsValid t IsFull q.header
    pub idle : q.header.intermediate_kv ≡ []
    pub no_access : q.header.access ≡ []
    pub sized : length q.history ≡ bitcoin_confirmations
    pub chain : Chain q.history bitcoin_confirmations q.header.kv q.header.height

module _ {Node : Type 0} {t : Verkle Node} {IsFull : Node → Type 0}
    (laws : VerkleLaws t IsFull) where
  commitment-Same :
      (m m' : KeyMap Bytes) → IsSized m → IsSized m' → Same m m' → commitment t m ≡ commitment t m'
  commitment-Same m m' s s' h =
      commit-Agrees laws (build_tree-Agrees laws m s) (build_tree-Agrees laws m' s') h

  -- The chain is about what a map holds, and not about how it is listed.
  pub Chain-Same :
      (ds : List DiffState) (j : ℕ) (m m' : KeyMap Bytes) (n : ℕ)
      → IsSized m
      → IsSized m'
      → Same m m'
      → Chain t ds j m n
      → Chain t ds j m' n
  Chain-Same ds zero m m' n s s' h c = tt
  Chain-Same ds (suc j) m m' n s s' h (l, rest) =
      let es = l.diff.access in
      let u = undo-IsSized es m l.old_sized s in
      let u' = undo-IsSized es m' l.old_sized s' in
      (
        record {
          diff = l.diff;
          at = l.at;
          next_height = l.next_height;
          old_sized = l.old_sized;
          commits =
              sym (commitment-Same (undo es m) (undo es m') u u' (undo-Same es m m' h)) ∙ l.commits;
        },
        Chain-Same ds j (undo es m) (undo es m') l.diff.height u u' (undo-Same es m m' h) rest,
      )

module _ {Node : Type 0} (t : Verkle Node) where
  -- A chain in another history with the same entries, `shift` places further on.
  pub Chain-move :
      (ds ds' : List DiffState) (shift : ℕ) (j : ℕ) (m : KeyMap Bytes) (n : ℕ)
      → ((i : ℕ) → i < j → get_elem? ds' i ≡ get_elem? ds (shift + i))
      → Chain t ds (shift + j) m n
      → Chain t ds' j m n
  Chain-move ds ds' shift zero m n same c = tt
  Chain-move ds ds' shift (suc j) m n same c =
      let c' : Chain t ds (suc (shift + j)) m n =
        subst (λ k. Chain t ds k m n) {y = suc (shift + j)} (omega arith) c in
      (
        record {
          diff = c'.0.diff;
          at = same j (omega arith) ∙ c'.0.at;
          next_height = c'.0.next_height;
          old_sized = c'.0.old_sized;
          commits = c'.0.commits;
        },
        Chain-move ds ds' shift j (undo c'.0.diff.access m) c'.0.diff.height
            (λ i lt. same i (omega arith)) c'.1,
      )

  -- The heights fall by one with each entry.
  pub Chain-height :
      (ds : List DiffState) (j : ℕ) (m : KeyMap Bytes) (n : ℕ)
      → Chain t ds j m n
      → (i : ℕ) (d : DiffState) → i < j
      → get_elem? ds i ≡ some d
      → d.height + (j - i) ≡ n
  Chain-height ds zero m n c i d lt e = absurd (omega arith)
  Chain-height ds (suc j) m n (l, rest) i d lt e = elim (Bool-cases (i == j)) [
    | inl last ↦ ground (arith, l.at, l.next_height, e, ap (get_elem? ds) ((==_iff i j).0 last))
    | inr earlier ↦
        let below : i < j = ground arith in
        omega (
          arith,
          Chain-height ds j (undo l.diff.access m) l.diff.height rest i d below e,
          l.next_height,
        )
  ]
