-- ===== src/Queue/Confirmed.antt =====
-- The block hashes that `Update` and `Recovery` of queue.go write into the history.
use modular_indexer_committe.Prelude.{
  ℕ, zero, suc, ◌+◌, ◌-◌, ◌%◌, ◌^◌, ◌≤◌, ◌<◌, ◌≡◌, ◌≢◌, refl, sym, ap, ◌∙◌, subst, inl, inr, ◌==◌,
  ==_iff, Bool-cases, Option, none, some, List, [], ◌∷◌, ◌++◌, arith, All, length, get_elem?, set,
}
use modular_indexer_committe.Prelude.Outcome.{ok, done}
use modular_indexer_committe.Bytes.{Bytes, bytes_equal_iff}
use modular_indexer_committe.OrdGetter.{OrdGetter}
use modular_indexer_committe.Packages.{Verkle, VerkleLaws, Uint256, Codec}
use modular_indexer_committe.Queue.{
  Queue, DiffState, ProofTools, bitcoin_confirmations, rollback_rounds, shift_in, start_height,
  diff_of, check_for_reorg, update_block, update_loop, update, replay_block, replay_loop, recovery,
}
use modular_indexer_committe.Queue.Chain.{IsLinked}
use modular_indexer_committe.Queue.History.{get_elem?-set_self, get_elem?-set_ne}
use modular_indexer_committe.Queue.Update.{done-injective, on_success-none, updated}
use modular_indexer_committe.Queue.Reorg.{
  Confirmed, IsBack, IsBack-of-IsLinked, rollback_rounds-above, recovery-above,
  rollback_loop-IsBack,
}
use modular_indexer_committe.Queue.Recovery.{replayed, replay_block-IsBack}

-- The entries below an index are confirmed.
abbrev pub PrefixConfirmed : OrdGetter → List DiffState → ℕ → Type 0
PrefixConfirmed getter ds n =
    (k : ℕ) (d : DiffState) → k < n → get_elem? ds k ≡ some d → Confirmed getter d

some-injective : {A : Type 0} {a b : A} → some a ≡ some b → a ≡ b
some-injective e = cc

pub All-of-PrefixConfirmed :
    (getter : OrdGetter) (ds : List DiffState)
    → PrefixConfirmed getter ds (length ds)
    → All (Confirmed getter) ds
All-of-PrefixConfirmed getter [] h = tt
All-of-PrefixConfirmed getter (d ∷ ds) h = (
  h 0 d (omega arith) refl,
  All-of-PrefixConfirmed getter ds (λ k x lt. h (suc k) x (omega arith)),
)

pub PrefixConfirmed-append :
    (getter : OrdGetter) (before later : List DiffState)
    → All (Confirmed getter) before
    → PrefixConfirmed getter (before ++ later) (length before)
PrefixConfirmed-append getter [] later h k d lt e = absurd (omega arith)
PrefixConfirmed-append getter (x ∷ xs) later h zero d lt e =
    subst (Confirmed getter) (some-injective e) h.0
PrefixConfirmed-append getter (x ∷ xs) later h (suc k) d lt e =
    PrefixConfirmed-append getter xs later h.1 k d (omega arith) e

shift_in-Confirmed :
    (getter : OrdGetter) (new : DiffState) (ds : List DiffState)
    → Confirmed getter new
    → All (Confirmed getter) ds
    → All (Confirmed getter) (shift_in new ds)
unfolding shift_in
shift_in-Confirmed getter new [] n h = tt
shift_in-Confirmed getter new (d ∷ []) n h = (n, tt)
shift_in-Confirmed getter new (d ∷ d' ∷ ds) n h =
    (h.1.0, shift_in-Confirmed getter new (d' ∷ ds) n h.1)

set-PrefixConfirmed :
    (getter : OrdGetter) (new : DiffState) (ds : List DiffState) (j : ℕ)
    → j < length ds
    → Confirmed getter new
    → PrefixConfirmed getter ds j
    → PrefixConfirmed getter (set ds j new) (suc j)
set-PrefixConfirmed getter new ds j small n h k d lt e = elim (Bool-cases (k == j)) [
  | inl last ↦
      let same : k ≡ j = (==_iff k j).0 last in
      subst (Confirmed getter)
        (some-injective
          (sym (get_elem?-set_self ds j new small) ∙ ap (get_elem? (set ds j new)) (sym same) ∙ e))
        n
  | inr earlier ↦
      let other : j ≢ k = λ s. absurd (cc ((==_iff k j).1 (sym s))) in
      h k d (ground (arith)) (sym (get_elem?-set_ne ds j k new other) ∙ e)
]

-- Confirmed entries say that nothing changed.
pub check_for_reorg-Confirmed :
    (getter : OrdGetter) (ds : List DiffState)
    → All (Confirmed getter) ds
    → check_for_reorg getter ds ≡ ok 0
unfolding check_for_reorg
check_for_reorg-Confirmed getter [] h = refl
check_for_reorg-Confirmed getter (d ∷ ds) h =
    rw (h.0, (bytes_equal_iff d.hash d.hash).1 refl) (check_for_reorg-Confirmed getter ds h.1)

module _ {Node : Type 0} {t : Verkle Node} {IsFull : Node → Type 0} (laws : VerkleLaws t IsFull)
    (c : Codec) (u : Uint256) (p : ProofTools Node) where
  update_block-Confirmed :
      (getter : OrdGetter) (i : ℕ) (q q' : Queue Node)
      → update_block t c u p getter i q ≡ done (none, q')
      → All (Confirmed getter) q.history
      → All (Confirmed getter) q'.history
  update_block-Confirmed getter i q q' eq h =
      let up = updated laws c u p getter i q q' eq in
      rw up.history
        (shift_in-Confirmed getter (diff_of t c u p up.h i up.hash) q.history up.hashed h)

  update_loop-Confirmed :
      (getter : OrdGetter) (rounds i : ℕ) (q q' : Queue Node)
      → update_loop t c u p getter rounds i q ≡ done (none, q')
      → All (Confirmed getter) q.history
      → All (Confirmed getter) q'.history
  unfolding update_loop
  update_loop-Confirmed getter zero i q q' eq h =
      subst (λ (x : Queue Node). All (Confirmed getter) x.history)
        (ap (λ (z : Option Bytes × Queue Node). z.1) (done-injective eq)) h
  update_loop-Confirmed getter (suc rounds) i q q' eq h =
      let (q1, first, rest) =
        on_success-none (update_block t c u p getter i q)
          (update_loop t c u p getter rounds (i + 1)) eq in
      update_loop-Confirmed getter rounds (i + 1) q1 q' rest
        (update_block-Confirmed getter i q q1 first h)

  -- Update without a panic or an error of a queue whose history has the hashes that the database
  -- gives leaves a history that has them too, and CheckForReorg then finds no change; nothing is
  -- asked of the block that the queue was at.
  pub update-Confirmed :
      (getter : OrdGetter) (latest : ℕ) (q q' : Queue Node)
      → All (Confirmed getter) q.history
      → update t c u p getter latest q ≡ done (none, q')
      → All (Confirmed getter) q'.history × (check_for_reorg getter q'.history ≡ ok 0)
  unfolding update
  update-Confirmed getter latest q q' h eq =
      let all =
        update_loop-Confirmed getter (latest - q.header.height) (q.header.height + 1) q q' eq h in
      (all, check_for_reorg-Confirmed getter q'.history all)

  replay_loop-Confirmed :
      (getter : OrdGetter) (start rounds j i : ℕ) (q q' : Queue Node)
      → i ≡ start + suc j
      → i + rounds ≤ 2 ^ 64
      → j + rounds ≤ bitcoin_confirmations
      → IsBack laws c u p start j q
      → replay_loop t c u p getter start rounds i q ≡ done (none, q')
      → PrefixConfirmed getter q.history j
      → PrefixConfirmed getter q'.history (j + rounds)
  unfolding replay_loop
  replay_loop-Confirmed getter start zero j i q q' ij small lt b eq h =
      let here : q ≡ q' = ap (λ (z : Option Bytes × Queue Node). z.1) (done-injective eq) in
      subst (λ (x : Queue Node). PrefixConfirmed getter x.history (j + 0)) here
        (λ k d below. h k d (omega arith))
  replay_loop-Confirmed getter start (suc rounds) j i q q' ij small lt b eq h =
      let (q1, first, rest) =
        on_success-none (replay_block t c u p getter start i q)
          (replay_loop t c u p getter start rounds (i + 1)) eq in
      let back =
        replay_block-IsBack laws c u p getter start j i q q1 ij (omega arith) (omega arith) b
          first in
      let re =
        replayed laws c u p getter start i j q q1 (omega arith) (omega (arith, b.sized)) first in
      let diff = diff_of t c u p re.h i re.hash in
      let index : (i + 2 ^ 64 - start + 2 ^ 64 - 1) % 2 ^ 64 ≡ j = omega arith in
      let written : set q.history j diff ≡ q1.history =
        ap (λ (n : ℕ). set q.history n diff) (sym index) ∙ sym re.history in
      let prefix : PrefixConfirmed getter q1.history (suc j) =
        subst (λ ds. PrefixConfirmed getter ds (suc j)) written
          (set-PrefixConfirmed getter diff q.history j (omega (arith, b.sized)) re.hashed h) in
      let onwards =
        replay_loop-Confirmed getter start rounds (suc j) (i + 1) q1 q' (omega arith) (omega arith)
          (omega arith) back rest prefix in
      λ k d below. onwards k d (omega arith)

  -- Recovery confirms the entries from the one before the change on.
  pub recovery-Confirmed :
      (getter : OrdGetter) (reorg : ℕ) (q q' : Queue Node)
      → IsLinked t IsFull q
      → q.header.height + 1 < 2 ^ 64
      → start_height q < reorg
      → reorg ≤ q.header.height
      → PrefixConfirmed getter q.history (reorg - start_height q)
      → recovery t c u p getter reorg q ≡ done (none, q')
      → PrefixConfirmed getter q'.history bitcoin_confirmations
  unfolding recovery
  recovery-Confirmed getter reorg q q' l small lo hi h eq =
      let start = start_height q in
      let cur = q.header.height in
      let b = IsBack-of-IsLinked laws c u p q l in
      let rounds = rollback_rounds cur reorg q.history in
      let above = recovery-above laws c u p getter reorg q q' l (omega (arith, small)) lo eq in
      let all =
        rollback_rounds-above laws c u p cur reorg q.history above (omega (arith, hi))
          (omega (arith, small)) in
      let back =
        rollback_loop-IsBack laws c u p start rounds 6 q (omega (arith, b.height, all))
          (omega (arith, b.height, all)) b in
      let again = cur + 1 - reorg in
      let end =
        replay_loop-Confirmed getter start again (6 - rounds) reorg back.0 q'
          (omega (arith, b.height, all)) (omega (arith, b.height, all))
          (omega (arith, b.height, all)) back.2 (rw back.1 at eq)
          (λ k d below e.
            h k d (omega (arith, b.height, all)) (sym (ap (λ ds. get_elem? ds k) back.3) ∙ e)) in
      λ k d below. end k d (omega (arith, b.height, all))
