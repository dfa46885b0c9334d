-- ===== src/Queue/Start/Linked.antt =====
-- `NewQueues` of ord/stateless/queue.go makes a queue in order.
use modular_indexer_committe.Prelude.{
  ℕ, zero, suc, ◌+◌, ◌-◌, ◌%◌, ◌^◌, ◌≤◌, ◌<◌, ◌≡◌, refl, sym, ap, ◌∙◌, subst, Option, none, some,
  List, [], arith, length, get_elem?, set, length-set, lt→ltb, ltb, Bool, true, replicate,
}
use modular_indexer_committe.Prelude.Outcome.{Result, ok, err, Outcome, done, panic}
use modular_indexer_committe.Bytes.{Bytes}
use modular_indexer_committe.OrdGetter.{OrdGetter, OrdTransfer}
use modular_indexer_committe.Packages.{Verkle, VerkleLaws, Uint256, Codec}
use modular_indexer_committe.Header.{Header}
use modular_indexer_committe.Header.Valid.{IsValid}
use modular_indexer_committe.Queue.{
  Queue, ProofTools, bitcoin_confirmations, exec_header, diff_of, page_block,
}
use modular_indexer_committe.Queue.Heights.{exec_header-Within}
use modular_indexer_committe.Queue.Chain.{Chain, IsLinked, Chain-move}
use modular_indexer_committe.Queue.History.{get_elem?-set_self, get_elem?-set_ne}
use modular_indexer_committe.Queue.Update.{done-injective, on_success-none, advance}
use modular_indexer_committe.Queue.Reorg.{IsBack}
use modular_indexer_committe.Queue.Start.{
  no_diff, queried_hash, made_queue, start_hash, start_exec, start_with, start_block, start_loop,
  new_queues,
}

pub made_queue-ok :
    {Q : Type 0} (o : Outcome (Option Bytes × Q)) {q : Q}
    → made_queue o ≡ done (ok q)
    → o ≡ done (none, q)
made_queue-ok (panic r) e = absurd (cc)
made_queue-ok (done (none, q)) e = cc
made_queue-ok (done (some x, q)) e = absurd (cc)

module _ {Node : Type 0} {t : Verkle Node} {IsFull : Node → Type 0} (laws : VerkleLaws t IsFull)
    (c : Codec) (u : Uint256) (p : ProofTools Node) where
  -- A round of the loop that returns no error, taken apart.
  pub record Started (getter : OrdGetter) (start i : ℕ) (q q' : Queue Node) : Type 0 where
    pub ots : List OrdTransfer
    pub answered : getter.get_ord_transfers i ≡ ok ots
    pub h : Header Node
    pub hash : Bytes
    pub executed : exec_header t c u ots i q.header ≡ done (tt, h)
    pub header : q'.header ≡ page_block t c u p getter h.ord_trans h
    pub history :
        q'.history ≡ set q.history ((i + 2 ^ 64 - start) % 2 ^ 64) (diff_of t c u p h i hash)

  start_hash-Started :
      (getter : OrdGetter) (start i j : ℕ) (ots : List OrdTransfer) (q q' : Queue Node)
      (h : Header Node) (r : Result Bytes)
      → (i + 2 ^ 64 - start) % 2 ^ 64 ≡ j
      → j < length q.history
      → getter.get_ord_transfers i ≡ ok ots
      → exec_header t c u ots i q.header ≡ done (tt, h)
      → start_hash t c u p getter start i (record q { header = h }) r ≡ done (none, q')
      → Started getter start i q q'
  start_hash-Started getter start i j ots q q' h (err e) ij lt answered x eq =
      absurd (cc (ap (λ (z : Option Bytes × Queue Node). z.0) (done-injective eq)))
  start_hash-Started getter start i j ots q q' h (ok hash) ij lt answered x eq =
      let inside : ltb ((i + 2 ^ 64 - start) % 2 ^ 64) (length q.history) ≡ true =
        rw ij (lt→ltb j (length q.history) lt) in
      let eq' = done-injective (rw inside at eq) in
      record {
        ots = ots;
        answered = answered;
        h = h;
        hash = hash;
        executed = x;
        header = sym (ap (λ (z : Option Bytes × Queue Node). z.1.header) eq');
        history = sym (ap (λ (z : Option Bytes × Queue Node). z.1.history) eq');
      }

  start_exec-Started :
      (getter : OrdGetter) (query_hash : Bool) (start i j : ℕ) (ots : List OrdTransfer)
      (q q' : Queue Node) (o : Outcome (Unit {0} × Header Node))
      → (i + 2 ^ 64 - start) % 2 ^ 64 ≡ j
      → j < length q.history
      → getter.get_ord_transfers i ≡ ok ots
      → exec_header t c u ots i q.header ≡ o
      → start_exec t c u p getter query_hash start i q o ≡ done (none, q')
      → Started getter start i q q'
  start_exec-Started getter query_hash start i j ots q q' (panic r) ij lt answered x eq =
      absurd (cc)
  start_exec-Started getter query_hash start i j ots q q' (done (tt, h)) ij lt answered x eq =
      start_hash-Started getter start i j ots q q' h
        (queried_hash query_hash (getter.get_block_hash (i - 1))) ij lt answered x eq

  pub started :
      (getter : OrdGetter) (query_hash : Bool) (start i j : ℕ) (q q' : Queue Node)
      → (i + 2 ^ 64 - start) % 2 ^ 64 ≡ j
      → j < length q.history
      → start_block t c u p getter query_hash start i q ≡ done (none, q')
      → Started getter start i q q'
  unfolding start_block
  started getter query_hash start i j q q' ij lt eq = go (getter.get_ord_transfers i) refl eq
    where
      go :
          (r : Result (List OrdTransfer))
          → getter.get_ord_transfers i ≡ r
          → start_with t c u p getter query_hash start i q r ≡ done (none, q')
          → Started getter start i q q'
      go (err e) answered eq' =
          absurd (cc (ap (λ (z : Option Bytes × Queue Node). z.0) (done-injective eq')))
      go (ok ots) answered eq' =
          start_exec-Started getter query_hash start i j ots q q' (exec_header t c u ots i q.header)
            ij lt answered refl eq'

  -- A round writes the next entry of the history.
  pub start_block-IsBack :
      (getter : OrdGetter) (query_hash : Bool) (base j i : ℕ) (q q' : Queue Node)
      → i ≡ base + suc j
      → i < 2 ^ 64
      → j < bitcoin_confirmations
      → IsBack laws c u p base j q
      → start_block t c u p getter query_hash (base + 1) i q ≡ done (none, q')
      → IsBack laws c u p base (suc j) q'
  start_block-IsBack getter query_hash base j i q q' ij small lt b eq =
      let index : (i + 2 ^ 64 - (base + 1)) % 2 ^ 64 ≡ j = omega arith in
      let r = started getter query_hash (base + 1) i j q q' index (omega (arith, b.sized)) eq in
      let w = (exec_header-Within t IsFull c u r.ots i q.header r.h b.valid r.executed).0 in
      let diff = diff_of t c u p r.h i r.hash in
      let ds = set q.history j diff in
      let history = r.history ∙ ap (λ n. set q.history n diff) index in
      let a =
        advance laws c u p getter r.h.ord_trans q.header r.h r.hash ds j i q' w
          (omega (arith, b.height)) (get_elem?-set_self q.history j diff (omega (arith, b.sized)))
          (Chain-move t q.history ds 0 j q.header.kv q.header.height
            (λ k below.
              get_elem?-set_ne q.history j k diff (omega arith)
              ∙ ap (get_elem? q.history) (omega arith))
            (subst (λ n. Chain t q.history n q.header.kv q.header.height) (omega arith) b.chain))
          r.header history in
      record {
        valid = a.valid;
        idle = a.idle;
        no_access = a.no_access;
        sized = ap length history ∙ length-set q.history j diff ∙ b.sized;
        chain = a.chain;
        height = omega (arith, a.height);
      }

  start_loop-IsBack :
      (getter : OrdGetter) (query_hash : Bool) (base rounds j i : ℕ) (q q' : Queue Node)
      → i ≡ base + suc j
      → i + rounds ≤ 2 ^ 64
      → j + rounds ≤ bitcoin_confirmations
      → IsBack laws c u p base j q
      → start_loop t c u p getter query_hash (base + 1) rounds i q ≡ done (none, q')
      → IsBack laws c u p base (j + rounds) q'
  unfolding start_loop
  start_loop-IsBack getter query_hash base zero j i q q' ij small lt b eq =
      subst (λ n. IsBack laws c u p base n q') (omega arith)
        (subst (IsBack laws c u p base j)
          (ap (λ (z : Option Bytes × Queue Node). z.1) (done-injective eq)) b)
  start_loop-IsBack getter query_hash base (suc rounds) j i q q' ij small lt b eq =
      let (q1, first, rest) =
        on_success-none (start_block t c u p getter query_hash (base + 1) i q)
          (start_loop t c u p getter query_hash (base + 1) rounds (i + 1)) eq in
      let one =
        start_block-IsBack getter query_hash base j i q q1 ij (omega arith) (omega arith) b first in
      subst (λ n. IsBack laws c u p base n q') (omega arith)
        (start_loop-IsBack getter query_hash base rounds (suc j) (i + 1) q1 q' (omega arith)
          (omega arith) (omega arith) one rest)

  -- The queue that the loop starts with.
  pub start-IsBack :
      (h : Header Node)
      → IsValid t IsFull h
      → h.intermediate_kv ≡ []
      → h.access ≡ []
      → IsBack laws c u p h.height 0
          (record { header = h; history = replicate 6 no_diff; last_state_proof = none })
  start-IsBack h v idle no_access = record {
    valid = v;
    idle = idle;
    no_access = no_access;
    sized = refl;
    chain = tt;
    height = omega arith;
  }

  -- NewQueues over a lawful tree, on a valid header with nothing pending, at the block after it and
  -- with room for seven more heights up to 2^64, makes, where it neither panics nor returns an
  -- error, a queue in order, six blocks higher.
  pub new_queues-IsLinked :
      (getter : OrdGetter) (query_hash : Bool) (h : Header Node) (q : Queue Node)
      → IsValid t IsFull h
      → h.intermediate_kv ≡ []
      → h.access ≡ []
      → h.height + 7 ≤ 2 ^ 64
      → new_queues t c u p getter h query_hash (h.height + 1) ≡ done (ok q)
      → IsLinked t IsFull q × (q.header.height ≡ h.height + bitcoin_confirmations)
  unfolding new_queues
  new_queues-IsLinked getter query_hash h q v idle no_access small eq =
      let rounds : (h.height + 1 + 6 - 1) % 2 ^ 64 + 1 - (h.height + 1) ≡ 6 = omega arith in
      let first : Queue Node = record {
        header = h;
        history = replicate 6 no_diff;
        last_state_proof = none;
      } in
      let b = start-IsBack h v idle no_access in
      let run =
        made_queue-ok
          (start_loop t c u p getter query_hash (h.height + 1)
            ((h.height + 1 + 6 - 1) % 2 ^ 64 + 1 - (h.height + 1)) (h.height + 1) first)
          eq in
      let end =
        start_loop-IsBack getter query_hash h.height 6 0 (h.height + 1) first q (omega arith)
          (omega arith) (omega arith) b (rw rounds at run) in
      (
        record {
          valid = end.valid;
          idle = end.idle;
          no_access = end.no_access;
          sized = end.sized;
          chain = end.chain;
        },
        omega (arith, end.height),
      )
