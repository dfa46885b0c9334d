-- ===== src/Stages/Follow.antt =====
-- What a queue computes is what the catch-up loop computes on a header alone.
use modular_indexer_committe.Prelude.{
  ℕ, zero, suc, ◌+◌, ◌-◌, ◌≡◌, refl, ap, ◌∙◌, subst, Option, none, List, true, false,
}
use modular_indexer_committe.Prelude.Outcome.{ok, Outcome, done}
use modular_indexer_committe.Prelude.Outcome.Simulates.{Simulates}
use modular_indexer_committe.Bytes.{Bytes}
use modular_indexer_committe.OrdGetter.{OrdGetter, OrdTransfer}
use modular_indexer_committe.Packages.{Verkle, VerkleLaws, Uint256, Codec}
use modular_indexer_committe.Storage.Simulates.{slot_storage-simulates}
use modular_indexer_committe.Storage.{slot_storage}
use modular_indexer_committe.Header.{Header, header_cells}
use modular_indexer_committe.Header.Alike.{
  Alike, held, header_insert-Alike, header_get-Alike, paging-Alike,
}
use modular_indexer_committe.Header.Paging.{paging}
use modular_indexer_committe.Brc20.Simulates.{exec-simulates}
use modular_indexer_committe.Queue.{
  Queue, ProofTools, exec_header, on_success, page_block, update_block, update_loop, update,
}
use modular_indexer_committe.Queue.Update.{
  done-injective, on_success-none, with_transfers, with_transfers-IsValid, updated,
}
use modular_indexer_committe.Stages.{catchup_block, catchup_loop}

module _ {Node : Type 0} (t : Verkle Node) (IsFull : Node → Type 0) (c : Codec) (u : Uint256) where
  -- Exec depends on a header only through its height and the values that it holds, pending ones
  -- first: of two valid headers that agree on these, if it does not panic on one, it does not panic
  -- on the other and leaves valid headers that agree again.
  pub exec_header-Alike :
      (ots : List OrdTransfer) (i : ℕ)
      → Simulates (Alike t IsFull) (exec_header t c u ots i) (exec_header t c u ots i)
  unfolding exec_header header_cells slot_storage
  exec_header-Alike ots i =
      exec-simulates c u
        (slot_storage-simulates u (header_cells t) (header_cells t) (header_insert-Alike t IsFull)
          (header_get-Alike t IsFull))
        (λ s s2 r. r.same_height) ots i

module _ {Node : Type 0} {t : Verkle Node} {IsFull : Node → Type 0} (laws : VerkleLaws t IsFull)
    (c : Codec) (u : Uint256) where
  -- A header that the catch-up loop reaches, beside the one of a queue.
  pub record Follows (outcome : Outcome (Option Bytes × Header Node)) (h : Header Node)
      : Type 0 where
    pub header : Header Node
    pub runs : outcome ≡ done (none, header)
    pub alike : Alike t IsFull h header
    pub same_commitment : t.commit h.root ≡ t.commit header.root

  -- A block that is executed and paged on one header, and run by the catch-up loop on another.
  pub catchup_block-Follows :
      (p : ProofTools Node) (getter : OrdGetter) (ots ots' : List OrdTransfer) (i : ℕ)
      (h h1 h2 : Header Node)
      → Alike t IsFull h h2
      → getter.get_ord_transfers i ≡ ok ots
      → exec_header t c u ots i h ≡ done (tt, h1)
      → Follows (catchup_block t c u getter i h2) (page_block t c u p getter ots' h1)
  unfolding catchup_block
  catchup_block-Follows p getter ots ots' i h h1 h2 r answered e =
      let other = (exec_header-Alike t IsFull c u ots i).at h h2 tt h1 r e in
      let moved : Alike t IsFull (with_transfers ots' h1) other.0 = record {
        left = with_transfers-IsValid ots' h1 other.2.left;
        right = other.2.right;
        same = λ k. unfold held in other.2.same k;
        same_height = other.2.same_height;
      } in
      let paged =
        paging-Alike laws getter getter true false (with_transfers ots' h1) other.0 moved in
      record {
        header = (paging t getter false other.0).1;
        runs = rw (answered, other.1);
        alike = paged.0;
        same_commitment = paged.1;
      }

  pub on_success-run :
      (o : Outcome (Option Bytes × Header Node))
      (k : Header Node → Outcome (Option Bytes × Header Node)) {h : Header Node}
      → o ≡ done (none, h)
      → on_success o k ≡ k h
  on_success-run o k e = ap (λ x. on_success x k) e

  update_loop-Follows :
      (p : ProofTools Node) (getter : OrdGetter) (rounds i : ℕ) (q q' : Queue Node)
      (h : Header Node)
      → Alike t IsFull q.header h
      → t.commit q.header.root ≡ t.commit h.root
      → update_loop t c u p getter rounds i q ≡ done (none, q')
      → Follows (catchup_loop t c u getter rounds i h) q'.header
  unfolding update_loop catchup_loop
  update_loop-Follows p getter zero i q q' h r same e =
      let here : q ≡ q' = ap (λ (z : Option Bytes × Queue Node). z.1) (done-injective e) in
      record {
        header = h;
        runs = refl;
        alike = subst (λ (x : Queue Node). Alike t IsFull x.header h) here r;
        same_commitment =
            subst (λ (x : Queue Node). t.commit x.header.root ≡ t.commit h.root) here same;
      }
  update_loop-Follows p getter (suc rounds) i q q' h r same e =
      let (q1, first, rest) =
        on_success-none (update_block t c u p getter i q)
          (update_loop t c u p getter rounds (i + 1)) e in
      let up = updated laws c u p getter i q q1 first in
      let one =
        catchup_block-Follows p getter up.ots up.ots i q.header up.h h r up.answered up.executed in
      let onwards =
        update_loop-Follows p getter rounds (i + 1) q1 q' one.header (rw up.header one.alike)
          (rw up.header one.same_commitment) rest in
      record {
        header = onwards.header;
        runs =
            on_success-run (catchup_block t c u getter i h)
              (catchup_loop t c u getter rounds (i + 1)) one.runs
            ∙ onwards.runs;
        alike = onwards.alike;
        same_commitment = onwards.same_commitment;
      }

  -- Update of a queue over a lawful tree without a panic or an error leaves a header with the
  -- values, the height and the commitment that the catch-up loop gives at the same blocks, from a
  -- header with the values, the height and the commitment of the queue.
  pub update-Follows :
      (p : ProofTools Node) (getter : OrdGetter) (latest : ℕ) (q q' : Queue Node) (h : Header Node)
      → Alike t IsFull q.header h
      → t.commit q.header.root ≡ t.commit h.root
      → update t c u p getter latest q ≡ done (none, q')
      → Follows
          (catchup_loop t c u getter (latest - q.header.height) (q.header.height + 1) h)
          q'.header
  unfolding update
  update-Follows p getter latest q q' h r same e =
      update_loop-Follows p getter (latest - q.header.height) (q.header.height + 1) q q' h r same e
