-- ===== src/Stages/Catchup/Start.antt =====
-- `NewQueues` computes what the catch-up loop computes on a header alone.
use modular_indexer_committe.Prelude.{
  ℕ, zero, suc, ◌+◌, ◌-◌, ◌%◌, ◌^◌, ◌≤◌, ◌≡◌, refl, ap, ◌∙◌, subst, Bool, Option, none, [], arith,
  replicate,
}
use modular_indexer_committe.Prelude.Outcome.{ok, done}
use modular_indexer_committe.Bytes.{Bytes}
use modular_indexer_committe.OrdGetter.{OrdGetter}
use modular_indexer_committe.Packages.{Verkle, VerkleLaws, Uint256, Codec}
use modular_indexer_committe.Header.{Header}
use modular_indexer_committe.Header.Valid.{IsValid}
use modular_indexer_committe.Header.Alike.{Alike}
use modular_indexer_committe.Queue.{Queue, ProofTools, bitcoin_confirmations}
use modular_indexer_committe.Queue.Update.{done-injective, on_success-none}
use modular_indexer_committe.Queue.Reorg.{IsBack}
use modular_indexer_committe.Queue.Start.{new_queues, start_loop, start_block, no_diff}
use modular_indexer_committe.Queue.Start.Linked.{
  made_queue-ok, started, start_block-IsBack, start-IsBack,
}
use modular_indexer_committe.Stages.{catchup_block, catchup_loop}
use modular_indexer_committe.Stages.Follow.{Follows, catchup_block-Follows, on_success-run}

module _ {Node : Type 0} {t : Verkle Node} {IsFull : Node → Type 0} (laws : VerkleLaws t IsFull)
    (c : Codec) (u : Uint256) (p : ProofTools Node) where
  start_loop-Follows :
      (getter : OrdGetter) (query_hash : Bool) (base rounds j i : ℕ) (q q' : Queue Node)
      (h : Header Node)
      → i ≡ base + suc j
      → i + rounds ≤ 2 ^ 64
      → j + rounds ≤ bitcoin_confirmations
      → IsBack laws c u p base j q
      → Alike t IsFull q.header h
      → t.commit q.header.root ≡ t.commit h.root
      → start_loop t c u p getter query_hash (base + 1) rounds i q ≡ done (none, q')
      → Follows laws c u (catchup_loop t c u getter rounds i h) q'.header
  unfolding start_loop catchup_loop
  start_loop-Follows getter query_hash base zero j i q q' h ij small lt b r same e =
      let here : q ≡ q' = ap (λ (z : Option Bytes × Queue Node). z.1) (done-injective e) in
      record {
        header = h;
        runs = refl;
        alike = subst (λ (x : Queue Node). Alike t IsFull x.header h) here r;
        same_commitment =
            subst (λ (x : Queue Node). t.commit x.header.root ≡ t.commit h.root) here same;
      }
  start_loop-Follows getter query_hash base (suc rounds) j i q q' h ij small lt b r same e =
      let (q1, first, rest) =
        on_success-none (start_block t c u p getter query_hash (base + 1) i q)
          (start_loop t c u p getter query_hash (base + 1) rounds (i + 1)) e in
      let back =
        start_block-IsBack laws c u p getter query_hash base j i q q1 ij (omega arith) (omega arith)
          b first in
      let st =
        started laws c u p getter query_hash (base + 1) i j q q1 (omega arith)
          (omega (arith, b.sized)) first in
      let one =
        catchup_block-Follows laws c u p getter st.ots st.h.ord_trans i q.header st.h h r
          st.answered st.executed in
      let onwards =
        start_loop-Follows getter query_hash base rounds (suc j) (i + 1) q1 q' one.header
          (omega arith) (omega arith) (omega arith) back (rw st.header one.alike)
          (rw st.header one.same_commitment) rest in
      record {
        header = onwards.header;
        runs =
            on_success-run laws c u (catchup_block t c u getter i h)
              (catchup_loop t c u getter rounds (i + 1)) one.runs
            ∙ onwards.runs;
        alike = onwards.alike;
        same_commitment = onwards.same_commitment;
      }

  pub new_queues-Follows :
      (getter : OrdGetter) (query_hash : Bool) (h h2 : Header Node) (q : Queue Node)
      → IsValid t IsFull h
      → h.intermediate_kv ≡ []
      → h.access ≡ []
      → h.height + 7 ≤ 2 ^ 64
      → Alike t IsFull h h2
      → t.commit h.root ≡ t.commit h2.root
      → new_queues t c u p getter h query_hash (h.height + 1) ≡ done (ok q)
      → Follows laws c u
          (catchup_loop t c u getter bitcoin_confirmations (h.height + 1) h2)
          q.header
  unfolding new_queues
  new_queues-Follows getter query_hash h h2 q v idle no_access small r same e =
      let rounds : (h.height + 1 + 6 - 1) % 2 ^ 64 + 1 - (h.height + 1) ≡ 6 = omega arith in
      let first : Queue Node = record {
        header = h;
        history = replicate 6 no_diff;
        last_state_proof = none;
      } in
      let run =
        made_queue-ok
          (start_loop t c u p getter query_hash (h.height + 1)
            ((h.height + 1 + 6 - 1) % 2 ^ 64 + 1 - (h.height + 1)) (h.height + 1) first)
          e in
      start_loop-Follows getter query_hash h.height 6 0 (h.height + 1) first q h2 (omega arith)
        (omega arith) (omega arith) (start-IsBack laws c u p h v idle no_access) r same
        (rw rounds at run)
