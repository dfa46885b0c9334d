-- ===== src/Queue/Reorg.antt =====
-- `CheckForReorg` and the first loop of `Recovery` of queue.go.
use modular_indexer_committe.Prelude.{
  ℕ, zero, suc, ◌+◌, ◌-◌, ◌%◌, ◌^◌, ◌≤◌, ◌<◌, ◌≡◌, ◌≢◌, refl, sym, ap, ◌∙◌, subst, ◌⊎◌, inl, inr,
  Bool-cases, ◌==◌, ==_iff, ==_ne, none, some, List, [], ◌∷◌, ◌++◌, arith, All, length, get_elem?,
}
use modular_indexer_committe.Prelude.Outcome.{Result, ok, err, done, panic, out_of_range}
use modular_indexer_committe.Bytes.{Bytes, bytes_equal, bytes_equal_iff, bytes_equal_refl}
use modular_indexer_committe.OrdGetter.{OrdGetter}
use modular_indexer_committe.Packages.{Verkle, VerkleLaws, Uint256, Codec}
use modular_indexer_committe.Header.{Header}
use modular_indexer_committe.Header.Valid.{IsValid}
use modular_indexer_committe.Header.Paging.{undo, build_tree}
use modular_indexer_committe.Header.Tree.{build_tree-Agrees}
use modular_indexer_committe.Header.Commit.{IsValid-of-Agrees}
use modular_indexer_committe.Header.Rollback.{undo-IsSized}
use modular_indexer_committe.Queue.{
  Queue, DiffState, ProofTools, bitcoin_confirmations, first_height, start_height, compare_hash,
  rollback_rounds, check_for_reorg, rollback_block, rollback_loop, recovery,
}
use modular_indexer_committe.Queue.Chain.{Chain, IsLinked, Chain-height}
use modular_indexer_committe.Queue.History.{get_elem?-none}
use modular_indexer_committe.Queue.Undo.{undo_back, undo_at}

-- The block of an entry has the hash that the database gives.
abbrev pub Confirmed : OrdGetter → DiffState → Type 0
Confirmed getter d = getter.get_block_hash d.height ≡ ok d.hash

-- The first entry whose block has another hash now.
pub record FirstChange (getter : OrdGetter) (ds : List DiffState) (n : ℕ) : Type 0 where
  pub before : List DiffState
  pub changed : DiffState
  pub later : List DiffState
  pub split : ds ≡ before ++ changed ∷ later
  pub confirmed : All (Confirmed getter) before
  pub new_hash : Bytes
  pub answer : getter.get_block_hash changed.height ≡ ok new_hash
  pub differs : changed.hash ≢ new_hash
  pub height : changed.height ≡ n

ok-injective : {A : Type 0} {a b : A} → ok a ≡ ok b → a ≡ b
ok-injective e = cc

-- CheckForReorg that returns no error gives 0 where every block of the history has its hash, and
-- else the height of the first that has not.
pub check_for_reorg_lem :
    (getter : OrdGetter) (ds : List DiffState) (n : ℕ)
    → check_for_reorg getter ds ≡ ok n
    → (All (Confirmed getter) ds × (n ≡ 0)) ⊎ FirstChange getter ds n
unfolding check_for_reorg
check_for_reorg_lem getter [] n e = inl (tt, sym (ok-injective e))
check_for_reorg_lem getter (d ∷ ds) n e =
    go (check_for_reorg_lem getter ds n) (getter.get_block_hash d.height) refl e
  where
    extend :
        Confirmed getter d
        → (All (Confirmed getter) ds × (n ≡ 0)) ⊎ FirstChange getter ds n
        → (All (Confirmed getter) (d ∷ ds) × (n ≡ 0)) ⊎ FirstChange getter (d ∷ ds) n
    extend c (inl (all, zero_height)) = inl ((c, all), zero_height)
    extend c (inr f) = inr (record {
      before = d ∷ f.before;
      changed = f.changed;
      later = f.later;
      split = ap (λ t. d ∷ t) f.split;
      confirmed = (c, f.confirmed);
      new_hash = f.new_hash;
      answer = f.answer;
      differs = f.differs;
      height = f.height;
    })

    go :
        (check_for_reorg getter ds ≡ ok n
          → (All (Confirmed getter) ds × (n ≡ 0)) ⊎ FirstChange getter ds n)
        → (r : Result Bytes) → getter.get_block_hash d.height ≡ r
        → compare_hash d r (check_for_reorg getter ds) ≡ ok n
        → (All (Confirmed getter) (d ∷ ds) × (n ≡ 0)) ⊎ FirstChange getter (d ∷ ds) n
    go rest (err x) a h = absurd (cc)
    go rest (ok new) a h = elim (Bool-cases (bytes_equal d.hash new)) [
      | inl same ↦
          extend (a ∙ ap ok (sym ((bytes_equal_iff d.hash new).0 same))) (rest (rw same at h))
      | inr other ↦ inr (record {
        before = [];
        changed = d;
        later = ds;
        split = refl;
        confirmed = tt;
        new_hash = new;
        answer = a;
        differs = λ e'. cc ((bytes_equal_iff d.hash new).1 e');
        height = ok-injective (rw other at h);
      })
    ]

module _ {Node : Type 0} {t : Verkle Node} {IsFull : Node → Type 0} (laws : VerkleLaws t IsFull)
    (c : Codec) (u : Uint256) (p : ProofTools Node) where
  -- A queue that has been taken back to the entry `j` of a history that starts at `start`.
  pub record IsBack (start j : ℕ) (q : Queue Node) : Type 0 where
    pub valid : IsValid t IsFull q.header
    pub idle : q.header.intermediate_kv ≡ []
    pub no_access : q.header.access ≡ []
    pub sized : length q.history ≡ bitcoin_confirmations
    pub chain : Chain t q.history j q.header.kv q.header.height
    pub height : q.header.height ≡ start + j

  -- One round takes one entry of the history back.
  rollback_block-IsBack :
      (start j : ℕ) (q : Queue Node)
      → start + j < 2 ^ 64
      → (b : IsBack start (suc j) q)
      → (q' : Queue Node) × (rollback_block t c u p start
            ((q.header.height + 2 ^ 64 - 1) % 2 ^ 64)
            q
          ≡ done q')
        × IsBack start j q'
        × (q'.header.height + 1 ≡ q.header.height)
        × (q'.history ≡ q.history)
        × (q'.header.kv ≡ undo b.chain.0.diff.access q.header.kv)
        × (t.commit q'.header.root ≡ b.chain.0.diff.verkle_commit)
  unfolding rollback_block
  rollback_block-IsBack start j q small b =
      let l = b.chain.0 in
      let kv = undo l.diff.access q.header.kv in
      let i = (q.header.height + 2 ^ 64 - 1) % 2 ^ 64 in
      let agrees =
        build_tree-Agrees laws kv
          (undo-IsSized l.diff.access q.header.kv l.old_sized b.valid.kv_sized) in
      let header : Header Node = record {
        root = build_tree t kv;
        kv = kv;
        height = i;
        hash = l.diff.hash;
        ord_trans = q.header.ord_trans;
        access = [];
        intermediate_kv = [];
      } in
      let index : (i + 2 ^ 64 - start) % 2 ^ 64 ≡ j = omega (arith, b.height) in
      (
        record q { header = header },
        rw (index, l.at, l.commits, bytes_equal_refl l.diff.verkle_commit),
        record {
          valid = IsValid-of-Agrees laws header agrees refl refl;
          idle = refl;
          no_access = refl;
          sized = b.sized;
          chain = subst (Chain t q.history j kv) (omega (arith, l.next_height)) b.chain.1;
          height = omega (arith, b.height);
        },
        omega (arith, b.height),
        refl,
        refl,
        l.commits,
      )

  -- Any number of rounds within the history succeeds.
  pub rollback_loop-IsBack :
      (start rounds j : ℕ) (q : Queue Node)
      → start + j ≤ 2 ^ 64
      → rounds ≤ j
      → IsBack start j q
      → (q' : Queue Node) × (rollback_loop t c u p start rounds
            ((q.header.height + 2 ^ 64 - 1) % 2 ^ 64)
            q
          ≡ done q')
        × IsBack start (j - rounds) q'
        × (q'.history ≡ q.history)
        × (q'.header.kv ≡ undo_back q.history rounds j q.header.kv)
  unfolding rollback_loop
  rollback_loop-IsBack start zero j q small le b =
      (q, refl, subst (λ n. IsBack start n q) (omega arith) b, refl, refl)
  rollback_loop-IsBack start (suc rounds) zero q small le b = absurd (omega arith)
  rollback_loop-IsBack start (suc rounds) (suc j) q small le b =
      let one = rollback_block-IsBack start j q (omega arith) b in
      let rest = rollback_loop-IsBack start rounds j one.0 (omega arith) (omega arith) one.2 in
      (
        rest.0,
        rw one.1 (
            ap (λ (n : ℕ). rollback_loop t c u p start rounds ((n + 2 ^ 64 - 1) % 2 ^ 64) one.0)
              (omega (arith, one.3, b.height))
            ∙ rest.1),
        subst (λ n. IsBack start n rest.0) (omega arith) rest.2,
        rest.3 ∙ one.4,
        rest.4
            ∙ ap (λ ds. undo_back ds rounds j one.0.header.kv) one.4
            ∙ ap (undo_back q.history rounds j)
                (one.5 ∙ ap (λ o. undo_at o q.header.kv) (sym b.chain.0.at)),
      )

  -- More rounds than the history has entries read before its start.
  rollback_loop-past :
      (start rounds j : ℕ) (q : Queue Node)
      → start + j ≤ 2 ^ 64
      → j < rounds
      → IsBack start j q
      → rollback_loop t c u p start rounds ((q.header.height + 2 ^ 64 - 1) % 2 ^ 64) q
        ≡ panic out_of_range
  unfolding rollback_loop rollback_block
  rollback_loop-past start zero j q small lt b = absurd (omega arith)
  rollback_loop-past start (suc rounds) zero q small lt b =
      let i = (q.header.height + 2 ^ 64 - 1) % 2 ^ 64 in
      let far : bitcoin_confirmations ≤ (i + 2 ^ 64 - start) % 2 ^ 64 = omega (arith, b.height) in
      rw (get_elem?-none q.history ((i + 2 ^ 64 - start) % 2 ^ 64) (omega (arith, b.sized)))
  rollback_loop-past start (suc rounds) (suc j) q small lt b =
      let one = rollback_block-IsBack start j q (omega arith) b in
      rw one.1 (
        ap (λ (n : ℕ). rollback_loop t c u p start rounds ((n + 2 ^ 64 - 1) % 2 ^ 64) one.0)
          (omega (arith, one.3, b.height))
        ∙ rollback_loop-past start rounds j one.0 (omega arith) (omega arith) one.2)

  first_height-at :
      (ds : List DiffState)
      → 0 < length ds
      → (d : DiffState) × (get_elem? ds 0 ≡ some d) × (first_height ds ≡ d.height)
  unfolding first_height
  first_height-at [] h = absurd (omega arith)
  first_height-at (d ∷ ds) h = (d, refl, refl)

  -- The history of a queue in order starts six blocks below the latest one.
  pub start_height_lem :
      (q : Queue Node)
      → IsLinked t IsFull q
      → q.header.height ≡ start_height q + bitcoin_confirmations
  unfolding start_height
  start_height_lem q l =
      let (d, at, first) = first_height-at q.history (omega (arith, l.sized)) in
      omega (
        arith,
        Chain-height t q.history 6 q.header.kv q.header.height l.chain 0 d (omega arith) at,
        first,
      )

  pub IsBack-of-IsLinked :
      (q : Queue Node) → IsLinked t IsFull q → IsBack (start_height q) bitcoin_confirmations q
  IsBack-of-IsLinked q l = record {
    valid = l.valid;
    idle = l.idle;
    no_access = l.no_access;
    sized = l.sized;
    chain = l.chain;
    height = start_height_lem q l;
  }

  -- From a reorg height above 1 the test of the loop fails in the end.
  pub rollback_rounds-above :
      (cur reorg : ℕ) (ds : List DiffState)
      → 1 < reorg
      → reorg ≤ cur + 1
      → cur < 2 ^ 64
      → rollback_rounds cur reorg ds ≡ cur + 1 - reorg
  rollback_rounds-above cur reorg ds above le small =
      rw (==_ne reorg 1 (λ e. omega (arith, e))) (omega arith)

  -- The first loop of Recovery on a queue in order over a lawful tree, with the latest height below
  -- 2^64, from any reorg height above 1 and above the first one of the history and not above the
  -- latest one, ends without a panic at a valid header one below the reorg height, with the history
  -- as it was.
  pub rollback_loop-height :
      (reorg : ℕ) (q : Queue Node)
      → IsLinked t IsFull q
      → q.header.height < 2 ^ 64
      → 1 < reorg
      → start_height q < reorg
      → reorg ≤ q.header.height
      → let rounds = rollback_rounds q.header.height reorg q.history in
        let i = (q.header.height + 2 ^ 64 - 1) % 2 ^ 64 in
        (q' : Queue Node) × (rollback_loop t c u p (start_height q) rounds i q ≡ done q')
        × IsValid t IsFull q'.header
        × (q'.header.height + 1 ≡ reorg)
        × (q'.history ≡ q.history)
  rollback_loop-height reorg q l small above lo hi =
      let b = IsBack-of-IsLinked q l in
      let rounds = rollback_rounds q.header.height reorg q.history in
      let all =
        rollback_rounds-above q.header.height reorg q.history above (omega (arith, hi)) small in
      let r =
        rollback_loop-IsBack (start_height q) rounds 6 q (omega (arith, b.height))
          (omega (arith, b.height, all)) b in
      (r.0, r.1, r.2.valid, omega (arith, r.2.height, b.height, all), r.3)

  -- More rounds than entries.
  recovery_past :
      (getter : OrdGetter) (reorg : ℕ) (q : Queue Node)
      → IsLinked t IsFull q
      → q.header.height < 2 ^ 64
      → bitcoin_confirmations < rollback_rounds q.header.height reorg q.history
      → recovery t c u p getter reorg q ≡ panic out_of_range
  unfolding recovery
  recovery_past getter reorg q l small many =
      let b = IsBack-of-IsLinked q l in
      rw (
        rollback_loop-past (start_height q) (rollback_rounds q.header.height reorg q.history) 6 q
          (omega (arith, b.height)) many b)

  -- At the reorg height 1 the bound of the loop is 0, which no `uint` is below.
  pub recovery_at_one :
      (getter : OrdGetter) (q : Queue Node)
      → IsLinked t IsFull q
      → q.header.height < 2 ^ 64
      → recovery t c u p getter 1 q ≡ panic out_of_range
  recovery_at_one getter q l small = recovery_past getter 1 q l small (omega (arith, l.sized))

  -- Recovery of a queue in order over a lawful tree, with the latest height below 2^64, from a
  -- positive height at or below the first one of the history panics with an index out of range.
  pub recovery_too_deep :
      (getter : OrdGetter) (reorg : ℕ) (q : Queue Node)
      → IsLinked t IsFull q
      → q.header.height < 2 ^ 64
      → 0 < reorg
      → reorg ≤ start_height q
      → recovery t c u p getter reorg q ≡ panic out_of_range
  recovery_too_deep getter reorg q l small pos deep = elim (Bool-cases (reorg == 1)) [
    | inl one ↦ rw ((==_iff reorg 1).0 one) (recovery_at_one getter q l small)
    | inr other ↦
        let height = start_height_lem q l in
        let above : 1 < reorg = ground arith in
        let all =
          rollback_rounds-above q.header.height reorg q.history above (omega (arith, height))
            small in
        recovery_past getter reorg q l small (omega (arith, all, height))
  ]

  -- A recovery that ends was not at the reorg height 1.
  pub recovery-above :
      (getter : OrdGetter) (reorg : ℕ) (q q' : Queue Node)
      → IsLinked t IsFull q
      → q.header.height < 2 ^ 64
      → start_height q < reorg
      → recovery t c u p getter reorg q ≡ done (none, q')
      → 1 < reorg
  recovery-above getter reorg q q' l small lo e = elim (Bool-cases (reorg == 1)) [
    | inl one ↦ absurd (
        cc (
          recovery_at_one getter q l small,
          ap (λ (n : ℕ). recovery t c u p getter n q) ((==_iff reorg 1).0 one),
          e,
        ))
    | inr other ↦ ground arith
  ]
