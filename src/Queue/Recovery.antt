-- ===== src/Queue/Recovery.antt =====
-- The second loop of `Recovery` of queue.go, and `Recovery` as a whole.
use modular_indexer_committe.Prelude.{
  ℕ, zero, suc, ◌+◌, ◌-◌, ◌%◌, ◌^◌, ◌≤◌, ◌<◌, ◌≡◌, refl, sym, ap, ◌∙◌, subst, Option, none, List,
  arith, length, get_elem?, set, length-set, lt→ltb,
}
use modular_indexer_committe.Prelude.Outcome.{Result, ok, err, Outcome, done, panic}
use modular_indexer_committe.Bytes.{Bytes}
use modular_indexer_committe.OrdGetter.{OrdGetter, OrdTransfer}
use modular_indexer_committe.Packages.{Verkle, VerkleLaws, Uint256, Codec}
use modular_indexer_committe.Header.{Header}
use modular_indexer_committe.Queue.{
  Queue, ProofTools, bitcoin_confirmations, rollback_rounds, start_height, exec_header, diff_of,
  page_block, replay_hash, replay_exec, replay_with, replay_block, replay_loop, recovery,
}
use modular_indexer_committe.Queue.Heights.{exec_header-Within}
use modular_indexer_committe.Queue.Chain.{Chain, IsLinked, Chain-move}
use modular_indexer_committe.Queue.History.{get_elem?-set_self, get_elem?-set_ne}
use modular_indexer_committe.Queue.Update.{done-injective, on_success-none, advance}
use modular_indexer_committe.Queue.Reorg.{
  IsBack, rollback_rounds-above, recovery-above, rollback_loop-IsBack, IsBack-of-IsLinked,
}

module _ {Node : Type 0} {t : Verkle Node} {IsFull : Node → Type 0} (laws : VerkleLaws t IsFull)
    (c : Codec) (u : Uint256) (p : ProofTools Node) where
  -- A round of the loop that returns no error, taken apart.
  pub record Replayed (getter : OrdGetter) (start i : ℕ) (q q' : Queue Node) : Type 0 where
    pub ots : List OrdTransfer
    pub answered : getter.get_ord_transfers i ≡ ok ots
    pub h : Header Node
    pub hash : Bytes
    pub hashed : getter.get_block_hash (i - 1) ≡ ok hash
    pub executed : exec_header t c u ots i q.header ≡ done (tt, h)
    pub header : q'.header ≡ page_block t c u p getter ots h
    pub history :
        q'.history
        ≡ set q.history ((i + 2 ^ 64 - start + 2 ^ 64 - 1) % 2 ^ 64) (diff_of t c u p h i hash)

  replay_hash-Replayed :
      (getter : OrdGetter) (start i j : ℕ) (ots : List OrdTransfer) (q q' : Queue Node)
      (h : Header Node) (r : Result Bytes)
      → (i + 2 ^ 64 - start + 2 ^ 64 - 1) % 2 ^ 64 ≡ j
      → j < length q.history
      → getter.get_block_hash (i - 1) ≡ r
      → getter.get_ord_transfers i ≡ ok ots
      → exec_header t c u ots i q.header ≡ done (tt, h)
      → replay_hash t c u p getter j i ots (record q { header = h }) r ≡ done (none, q')
      → Replayed getter start i q q'
  replay_hash-Replayed getter start i j ots q q' h (err e) ij lt hashed answered x eq =
      absurd (cc (ap (λ (z : Option Bytes × Queue Node). z.0) (done-injective eq)))
  replay_hash-Replayed getter start i j ots q q' h (ok hash) ij lt hashed answered x eq =
      let eq' = done-injective (rw (lt→ltb j (length q.history) lt) at eq) in
      record {
        ots = ots;
        answered = answered;
        hashed = hashed;
        h = h;
        hash = hash;
        executed = x;
        header = sym (ap (λ (z : Option Bytes × Queue Node). z.1.header) eq');
        history = rw ij (sym (ap (λ (z : Option Bytes × Queue Node). z.1.history) eq'));
      }

  replay_exec-Replayed :
      (getter : OrdGetter) (start i j : ℕ) (ots : List OrdTransfer) (q q' : Queue Node)
      (o : Outcome (Unit {0} × Header Node))
      → (i + 2 ^ 64 - start + 2 ^ 64 - 1) % 2 ^ 64 ≡ j
      → j < length q.history
      → getter.get_ord_transfers i ≡ ok ots
      → exec_header t c u ots i q.header ≡ o
      → replay_exec t c u p getter j i ots q o ≡ done (none, q')
      → Replayed getter start i q q'
  replay_exec-Replayed getter start i j ots q q' (panic r) ij lt answered x eq = absurd (cc)
  replay_exec-Replayed getter start i j ots q q' (done (tt, h)) ij lt answered x eq =
      replay_hash-Replayed getter start i j ots q q' h (getter.get_block_hash (i - 1)) ij lt refl
        answered x eq

  pub replayed :
      (getter : OrdGetter) (start i j : ℕ) (q q' : Queue Node)
      → (i + 2 ^ 64 - start + 2 ^ 64 - 1) % 2 ^ 64 ≡ j
      → j < length q.history
      → replay_block t c u p getter start i q ≡ done (none, q')
      → Replayed getter start i q q'
  unfolding replay_block
  replayed getter start i j q q' ij lt eq = go (getter.get_ord_transfers i) refl (rw ij at eq)
    where
      go :
          (r : Result (List OrdTransfer))
          → getter.get_ord_transfers i ≡ r
          → replay_with t c u p getter j i q r ≡ done (none, q')
          → Replayed getter start i q q'
      go (err e) answered eq' =
          absurd (cc (ap (λ (z : Option Bytes × Queue Node). z.0) (done-injective eq')))
      go (ok ots) answered eq' =
          replay_exec-Replayed getter start i j ots q q' (exec_header t c u ots i q.header) ij lt
            answered refl eq'

  -- A round writes the next entry of the history.
  pub replay_block-IsBack :
      (getter : OrdGetter) (start j i : ℕ) (q q' : Queue Node)
      → i ≡ start + suc j
      → i < 2 ^ 64
      → j < bitcoin_confirmations
      → IsBack laws c u p start j q
      → replay_block t c u p getter start i q ≡ done (none, q')
      → IsBack laws c u p start (suc j) q'
  replay_block-IsBack getter start j i q q' ij small lt b eq =
      let index : (i + 2 ^ 64 - start + 2 ^ 64 - 1) % 2 ^ 64 ≡ j = omega arith in
      let r = replayed getter start i j q q' index (omega (arith, b.sized)) eq in
      let w = (exec_header-Within t IsFull c u r.ots i q.header r.h b.valid r.executed).0 in
      let diff = diff_of t c u p r.h i r.hash in
      let ds = set q.history j diff in
      let history = r.history ∙ ap (λ n. set q.history n diff) index in
      let a =
        advance laws c u p getter r.ots q.header r.h r.hash ds j i q' w (omega (arith, b.height))
          (get_elem?-set_self q.history j diff (omega (arith, b.sized)))
          (Chain-move t q.history ds 0 j q.header.kv q.header.height
            (λ k below.
              get_elem?-set_ne q.history j k diff (omega arith)
              ∙ ap (get_elem? q.history) (omega arith))
            (subst (λ n. Chain t q.history n q.header.kv q.header.height) (omega arith) b.chain))
          r.header history in
      record {
        valid = a.valid;
        idle = a.idle;
        no_access = a.no_access;
        sized = ap length history ∙ length-set q.history j diff ∙ b.sized;
        chain = a.chain;
        height = omega (arith, a.height);
      }

  replay_loop-IsBack :
      (getter : OrdGetter) (start rounds j i : ℕ) (q q' : Queue Node)
      → i ≡ start + suc j
      → i + rounds ≤ 2 ^ 64
      → j + rounds ≤ bitcoin_confirmations
      → IsBack laws c u p start j q
      → replay_loop t c u p getter start rounds i q ≡ done (none, q')
      → IsBack laws c u p start (j + rounds) q'
  unfolding replay_loop
  replay_loop-IsBack getter start zero j i q q' ij small lt b eq =
      subst (λ n. IsBack laws c u p start n q') (omega arith)
        (subst (IsBack laws c u p start j)
          (ap (λ (z : Option Bytes × Queue Node). z.1) (done-injective eq)) b)
  replay_loop-IsBack getter start (suc rounds) j i q q' ij small lt b eq =
      let (q1, first, rest) =
        on_success-none (replay_block t c u p getter start i q)
          (replay_loop t c u p getter start rounds (i + 1)) eq in
      let one = replay_block-IsBack getter start j i q q1 ij (omega arith) (omega arith) b first in
      subst (λ n. IsBack laws c u p start n q') (omega arith)
        (replay_loop-IsBack getter start rounds (suc j) (i + 1) q1 q' (omega arith) (omega arith)
          (omega arith) one rest)

  -- Recovery of a queue in order on a lawful tree, from a reorg height above the first one of the
  -- history and not above the latest one, which is below 2^64 - 1, leaves, where it neither panics
  -- nor returns an error, a queue in order at the same height.
  pub recovery-IsLinked :
      (getter : OrdGetter) (reorg : ℕ) (q q' : Queue Node)
      → IsLinked t IsFull q
      → q.header.height + 1 < 2 ^ 64
      → start_height q < reorg
      → reorg ≤ q.header.height
      → recovery t c u p getter reorg q ≡ done (none, q')
      → IsLinked t IsFull q' × (q'.header.height ≡ q.header.height)
  unfolding recovery
  recovery-IsLinked getter reorg q q' l small lo hi eq =
      let start = start_height q in
      let cur = q.header.height in
      let b = IsBack-of-IsLinked laws c u p q l in
      let rounds = rollback_rounds cur reorg q.history in
      let above = recovery-above laws c u p getter reorg q q' l (omega (arith, small)) lo eq in
      let all =
        rollback_rounds-above laws c u p cur reorg q.history above (omega (arith, hi))
          (omega (arith, small)) in
      let back =
        rollback_loop-IsBack laws c u p start rounds 6 q (omega (arith, b.height, all))
          (omega (arith, b.height, all)) b in
      let again = cur + 1 - reorg in
      let end =
        replay_loop-IsBack getter start again (6 - rounds) reorg back.0 q'
          (omega (arith, b.height, all)) (omega (arith, b.height, all))
          (omega (arith, b.height, all)) back.2 (rw back.1 at eq) in
      let whole : (6 - rounds) + again ≡ 6 = omega (arith, b.height, all) in
      (
        record {
          valid = end.valid;
          idle = end.idle;
          no_access = end.no_access;
          sized = end.sized;
          chain = subst (λ n. Chain t q'.history n q'.header.kv q'.header.height) whole end.chain;
        },
        omega (arith, end.height, b.height, all),
      )
