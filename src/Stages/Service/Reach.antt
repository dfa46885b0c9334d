-- ===== src/Stages/Service/Reach.antt =====
-- The rounds of `ServiceStage` of main.go, one after the other, over databases that change in between.
use modular_indexer_committe.Prelude.{
  ℕ, ◌+◌, ◌-◌, ◌^◌, ◌≤◌, ◌<◌, ◌≡◌, refl, sym, ap, ◌∙◌, subst, inl, inr, false, Bool-cases, ltb,
  ◌==◌, Option, none, some, List, [], ◌∷◌, ◌++◌, arith, All, length, get_elem?,
}
use modular_indexer_committe.Prelude.Outcome.{Result, ok, err, done}
use modular_indexer_committe.Bytes.{Bytes}
use modular_indexer_committe.OrdGetter.{OrdGetter}
use modular_indexer_committe.Packages.{Verkle, VerkleLaws, Uint256, Codec}
use modular_indexer_committe.Queue.{
  Queue, DiffState, ProofTools, bitcoin_confirmations, start_height, latest_height, recovery,
  check_for_reorg,
}
use modular_indexer_committe.Queue.Chain.{IsLinked, Chain-height}
use modular_indexer_committe.Queue.Update.{done-injective, on_success-none, update-IsLinked}
use modular_indexer_committe.Queue.Reorg.{
  Confirmed, FirstChange, check_for_reorg_lem, start_height_lem, recovery_too_deep,
}
use modular_indexer_committe.Queue.Recovery.{recovery-IsLinked}
use modular_indexer_committe.Queue.Confirmed.{
  All-of-PrefixConfirmed, PrefixConfirmed, PrefixConfirmed-append, recovery-Confirmed,
}
use modular_indexer_committe.Stages.Service.{recover_if, update_if, follow_chain}

-- The latest height that a database answers leaves room for one more block.
abbrev pub IsBounded : OrdGetter → Type 0
IsBounded getter = (latest : ℕ) → getter.get_latest_block_height ≡ ok latest → latest + 1 < 2 ^ 64

get_elem?-middle :
    (before later : List DiffState) (d : DiffState)
    → get_elem? (before ++ d ∷ later) (length before) ≡ some d
get_elem?-middle [] later d = refl
get_elem?-middle (x ∷ xs) later d = get_elem?-middle xs later d

length-middle :
    (before later : List DiffState) (d : DiffState) → length before < length (before ++ d ∷ later)
length-middle [] later d = omega arith
length-middle (x ∷ xs) later d = omega (arith, length-middle xs later d)

module _ {Node : Type 0} {t : Verkle Node} {IsFull : Node → Type 0} (laws : VerkleLaws t IsFull)
    (c : Codec) (u : Uint256) (p : ProofTools Node) where
  -- A queue in order, and not too close to the ends of the heights.
  pub record IsServing (q : Queue Node) : Type 0 where
    pub linked : IsLinked t IsFull q
    pub high : bitcoin_confirmations < q.header.height
    pub small : q.header.height + 1 < 2 ^ 64

  update_if-IsServing :
      (getter : OrdGetter) (r : Result ℕ) (q q' : Queue Node)
      → getter.get_latest_block_height ≡ r
      → IsBounded getter
      → IsServing q
      → update_if t c u p getter q r ≡ done (none, q')
      → IsServing q' × (q.header.height ≤ q'.header.height)
  update_if-IsServing getter (err x) q q' a bound s e =
      absurd (cc (ap (λ (z : Option Bytes × Queue Node). z.0) (done-injective e)))
  update_if-IsServing getter (ok latest) q q' a bound s e =
      elim (Bool-cases (ltb (latest_height q) latest)) [
        | inl more ↦
            let r = update-IsLinked laws c u p getter latest q q' s.linked (rw more at e) in
            (
              record {
                linked = r.0;
                high = omega (arith, r.1, s.high);
                small = omega (arith, r.1, s.small, bound latest a);
              },
              omega (arith, r.1),
            )
        | inr no_more ↦
            let same : q ≡ q' =
              ap (λ (z : Option Bytes × Queue Node). z.1) (done-injective (rw no_more at e)) in
            subst (λ (x : Queue Node). IsServing x × (q.header.height ≤ x.header.height)) same
              (s, omega arith)
      ]

  recovered :
      (getter : OrdGetter) (reorg : ℕ) (q q' : Queue Node)
      → IsServing q
      → FirstChange getter q.history reorg
      → recovery t c u p getter reorg q ≡ done (none, q')
      → IsServing q' × All (Confirmed getter) q'.history × (q'.header.height ≡ q.header.height)
  recovered getter reorg q q' s f e =
      let k = length f.before in
      let at : get_elem? q.history k ≡ some f.changed =
        ap (λ ds. get_elem? ds k) f.split ∙ get_elem?-middle f.before f.later f.changed in
      let inside : k < 6 =
        omega
          (arith, s.linked.sized, ap length f.split, length-middle f.before f.later f.changed) in
      let height =
        Chain-height t q.history 6 q.header.kv q.header.height s.linked.chain k f.changed inside
          at in
      let start = start_height_lem laws c u p q s.linked in
      let reorg_at : reorg ≡ start_height q + k = omega (arith, height, start, f.height) in
      elim (Bool-cases (ltb (start_height q) reorg)) [
        | inl above ↦
            let above' : start_height q < reorg = ground arith in
            let prefix : PrefixConfirmed getter q.history (reorg - start_height q) =
              subst (λ (n : ℕ). PrefixConfirmed getter q.history n) (omega arith)
                (subst (λ ds. PrefixConfirmed getter ds k) (sym f.split)
                  (PrefixConfirmed-append getter f.before (f.changed ∷ f.later) f.confirmed)) in
            let r =
              recovery-IsLinked laws c u p getter reorg q q' s.linked s.small above'
                (omega (arith, start)) e in
            (
              record {
                linked = r.0;
                high = omega (arith, r.1, s.high);
                small = omega (arith, r.1, s.small);
              },
              All-of-PrefixConfirmed getter q'.history (
                  subst (λ (n : ℕ). PrefixConfirmed getter q'.history n) (sym r.0.sized)
                    (recovery-Confirmed laws c u p getter reorg q q' s.linked s.small above'
                      (omega (arith, start)) prefix e)),
              r.1,
            )
        | inr below ↦
            let below' : reorg ≤ start_height q = ground arith in
            absurd (
              cc (
                recovery_too_deep laws c u p getter reorg q s.linked (omega (arith, s.small))
                    (omega (arith, start, s.high)) below',
                e,
              ))
      ]

  recover_if-IsServing :
      (getter : OrdGetter) (r : Result ℕ) (q q' : Queue Node)
      → check_for_reorg getter q.history ≡ r
      → IsServing q
      → recover_if t c u p getter q r ≡ done (none, q')
      → IsServing q' × All (Confirmed getter) q'.history × (q'.header.height ≡ q.header.height)
  recover_if-IsServing getter (err x) q q' a s e =
      absurd (cc (ap (λ (z : Option Bytes × Queue Node). z.0) (done-injective e)))
  recover_if-IsServing getter (ok reorg) q q' a s e =
      elim (check_for_reorg_lem getter q.history reorg a) [
        | inl all ↦
            let same : q ≡ q' =
              ap (λ (z : Option Bytes × Queue Node). z.1) (done-injective (rw all.1 at e)) in
            subst
              (λ (x : Queue Node).
                IsServing x
                × All (Confirmed getter) x.history
                × (x.header.height ≡ q.header.height))
              same (s, all.0, refl)
        | inr f ↦ recovered getter reorg q q' s f (rw (changed_high f) at e)
      ]
    where
      changed_high : FirstChange getter q.history reorg → (reorg == 0) ≡ false
      changed_high f =
          let k = length f.before in
          let at : get_elem? q.history k ≡ some f.changed =
            ap (λ ds. get_elem? ds k) f.split ∙ get_elem?-middle f.before f.later f.changed in
          let inside : k < 6 =
            omega (
              arith,
              s.linked.sized,
              ap length f.split,
              length-middle f.before f.later f.changed,
            ) in
          let height =
            Chain-height t q.history 6 q.header.kv q.header.height s.linked.chain k f.changed inside
              at in
          ground (arith, height, f.height, s.high)

  -- One round keeps the queue in order, and confirms its history by the database of the round.
  pub follow_chain-Confirmed :
      (getter : OrdGetter) (q q' : Queue Node)
      → IsBounded getter
      → IsServing q
      → follow_chain t c u p getter q ≡ done (none, q')
      → IsServing q' × All (Confirmed getter) q'.history × (q.header.height ≤ q'.header.height)
  unfolding follow_chain
  follow_chain-Confirmed getter q q' bound s e =
      let (q1, first, rest) =
        on_success-none (update_if t c u p getter q getter.get_latest_block_height)
          (λ (x : Queue Node). recover_if t c u p getter x (check_for_reorg getter x.history)) e in
      let up = update_if-IsServing getter getter.get_latest_block_height q q1 refl bound s first in
      let re =
        recover_if-IsServing getter (check_for_reorg getter q1.history) q1 q' refl up.0 rest in
      (re.0, re.1, omega (arith, up.1, re.2))

  -- The rounds that end, each with the database as it is then, the last one first.
  pub data Serves (q : Queue Node) : List OrdGetter → Queue Node → Type 0 where
    start : Serves q [] q
    round :
        {getter : OrdGetter} {getters : List OrdGetter} {q1 q2 : Queue Node}
        → Serves q getters q1
        → follow_chain t c u p getter q1 ≡ done (none, q2)
        → Serves q (getter ∷ getters) q2

  -- The database of the last round confirms the history.
  abbrev pub LastConfirmed : List OrdGetter → Queue Node → Type 0
  LastConfirmed [] q = Unit
  LastConfirmed (getter ∷ getters) q = All (Confirmed getter) q.history

  -- Any number of rounds of the service loop (Update where the database is ahead, then
  -- CheckForReorg, then Recovery where it found a change), each without a panic or an error and
  -- with a database of its own whose latest height is below 2^64 - 1, take a queue in order at a
  -- height above 6 and below 2^64 - 1 to one that is so too and not lower, and every hash in its
  -- history is the one that the database of the last round gives.
  pub Serves-IsServing :
      (q q' : Queue Node) (getters : List OrdGetter)
      → All IsBounded getters
      → IsServing q
      → Serves q getters q'
      → IsServing q' × LastConfirmed getters q' × (q.header.height ≤ q'.header.height)
  Serves-IsServing q q' [] bounds s start = (s, tt, omega arith)
  Serves-IsServing q q' (getter ∷ getters) bounds s (round {q1 = q1} before e) =
      let rest = Serves-IsServing q q1 getters bounds.1 s before in
      let here = follow_chain-Confirmed getter q1 q' bounds.0 rest.0 e in
      (here.0, here.1, omega (arith, rest.2, here.2))
