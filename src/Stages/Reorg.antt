-- ===== src/Stages/Reorg.antt =====
-- `Update` and then `Recovery`: the blocks that were abandoned leave no trace in the state.
use modular_indexer_committe.Prelude.{
  ℕ, zero, suc, ◌+◌, ◌-◌, ◌^◌, ◌<◌, ◌≤◌, ◌≡◌, refl, sym, ap, ◌∙◌, subst, Option, none, [], arith,
  true,
}
use modular_indexer_committe.Prelude.Outcome.{done}
use modular_indexer_committe.Bytes.{Bytes}
use modular_indexer_committe.KeyMap.{KeyMap, lookup}
use modular_indexer_committe.OrdGetter.{OrdGetter}
use modular_indexer_committe.Packages.{Verkle, VerkleLaws, Uint256, Codec}
use modular_indexer_committe.Header.{Header}
use modular_indexer_committe.Header.Alike.{Alike, held}
use modular_indexer_committe.Header.Paging.{undo}
use modular_indexer_committe.Header.Rollback.{undo-paging}
use modular_indexer_committe.Header.Commit.{Agrees-of-IsValid}
use modular_indexer_committe.Header.Tree.{commit-Agrees}
use modular_indexer_committe.Queue.{
  Queue, ProofTools, bitcoin_confirmations, rollback_rounds, shift_in, start_height, diff_of,
  update_block, update_loop, update, replay_block, replay_loop, recovery,
}
use modular_indexer_committe.Queue.Heights.{exec_header-Within}
use modular_indexer_committe.Queue.Chain.{Same, IsLinked}
use modular_indexer_committe.Queue.History.{get_elem?-shift_in, get_elem?-shift_in_last}
use modular_indexer_committe.Queue.Undo.{undo_back, undo_at, undo_back-Same, undo_back-shift}
use modular_indexer_committe.Queue.Update.{
  done-injective, on_success-none, with_transfers, with_transfers-IsValid, updated,
  update_block-IsLinked, update_loop-IsLinked,
}
use modular_indexer_committe.Queue.Reorg.{
  IsBack, IsBack-of-IsLinked, rollback_loop-IsBack, rollback_rounds-above, start_height_lem,
}
use modular_indexer_committe.Queue.Recovery.{replayed, replay_block-IsBack}
use modular_indexer_committe.Stages.{catchup_block, catchup_loop}
use modular_indexer_committe.Stages.Follow.{Follows, catchup_block-Follows, on_success-run}

module _ {Node : Type 0} {t : Verkle Node} {IsFull : Node → Type 0} (laws : VerkleLaws t IsFull)
    (c : Codec) (u : Uint256) (p : ProofTools Node) where
  -- The last `steps` entries lead back to the map `base`.
  abbrev Remembers : KeyMap Bytes → ℕ → Queue Node → Type 0
  Remembers base steps q = Same (undo_back q.history steps bitcoin_confirmations q.header.kv) base

  update_block-Remembers :
      (getter : OrdGetter) (base : KeyMap Bytes) (steps i : ℕ) (q q' : Queue Node)
      → IsLinked t IsFull q
      → steps ≤ 5
      → update_block t c u p getter i q ≡ done (none, q')
      → Remembers base steps q
      → Remembers base (suc steps) q'
  update_block-Remembers getter base steps i q q' l le e old k =
      let up = updated laws c u p getter i q q' e in
      let w = (exec_header-Within t IsFull c u up.ots i q.header up.h l.valid up.executed).0 in
      let diff = diff_of t c u p up.h i up.hash in
      let ds = shift_in diff q.history in
      let undone : Same (undo up.h.access q'.header.kv) q.header.kv = λ j.
        ap (λ (x : Header Node). lookup j (undo up.h.access x.kv)) up.header
        ∙ undo-paging laws getter true (with_transfers up.ots up.h)
            (with_transfers-IsValid up.ots up.h w.valid) j
        ∙ ap (lookup j) w.same_kv in
      ap (λ x. lookup k (undo_back x (suc steps) 6 q'.header.kv)) up.history
      ∙ ap (λ o. lookup k (undo_back ds steps 5 (undo_at o q'.header.kv)))
          (get_elem?-shift_in_last diff q.history 5 l.sized)
      ∙ ap (lookup k) (
          undo_back-shift q.history ds steps 5 (undo up.h.access q'.header.kv)
            (λ j lt. get_elem?-shift_in diff q.history j (omega (arith, l.sized))) le)
      ∙ undo_back-Same q.history steps 6 (undo up.h.access q'.header.kv) q.header.kv undone k
      ∙ old k

  update_loop-Remembers :
      (getter : OrdGetter) (base : KeyMap Bytes) (rounds steps i : ℕ) (q q' : Queue Node)
      → IsLinked t IsFull q
      → i ≡ q.header.height + 1
      → rounds + steps ≤ 6
      → update_loop t c u p getter rounds i q ≡ done (none, q')
      → Remembers base steps q
      → Remembers base (rounds + steps) q'
  unfolding update_loop
  update_loop-Remembers getter base zero steps i q q' l next le e old =
      subst (Remembers base (0 + steps))
        (ap (λ (z : Option Bytes × Queue Node). z.1) (done-injective e))
        (subst (λ n. Remembers base n q) (omega arith) old)
  update_loop-Remembers getter base (suc rounds) steps i q q' l next le e old =
      let (q1, first, rest) =
        on_success-none (update_block t c u p getter i q)
          (update_loop t c u p getter rounds (i + 1)) e in
      let one = update_block-IsLinked laws c u p getter i q q1 l next first in
      subst (λ n. Remembers base n q') (omega arith)
        (update_loop-Remembers getter base rounds (suc steps) (i + 1) q1 q' one.0
          (omega (arith, one.1)) (omega arith) rest
          (update_block-Remembers getter base steps i q q1 l (omega arith) first old))

  replay_loop-Follows :
      (getter : OrdGetter) (start rounds j i : ℕ) (q q' : Queue Node) (h : Header Node)
      → i ≡ start + suc j
      → i + rounds ≤ 2 ^ 64
      → j + rounds ≤ bitcoin_confirmations
      → IsBack laws c u p start j q
      → Alike t IsFull q.header h
      → t.commit q.header.root ≡ t.commit h.root
      → replay_loop t c u p getter start rounds i q ≡ done (none, q')
      → Follows laws c u (catchup_loop t c u getter rounds i h) q'.header
  unfolding replay_loop catchup_loop
  replay_loop-Follows getter start zero j i q q' h ij small lt b r same e =
      let here : q ≡ q' = ap (λ (z : Option Bytes × Queue Node). z.1) (done-injective e) in
      record {
        header = h;
        runs = refl;
        alike = subst (λ (x : Queue Node). Alike t IsFull x.header h) here r;
        same_commitment =
            subst (λ (x : Queue Node). t.commit x.header.root ≡ t.commit h.root) here same;
      }
  replay_loop-Follows getter start (suc rounds) j i q q' h ij small lt b r same e =
      let (q1, first, rest) =
        on_success-none (replay_block t c u p getter start i q)
          (replay_loop t c u p getter start rounds (i + 1)) e in
      let back =
        replay_block-IsBack laws c u p getter start j i q q1 ij (omega arith) (omega arith) b
          first in
      let re =
        replayed laws c u p getter start i j q q1 (omega arith) (omega (arith, b.sized)) first in
      let one =
        catchup_block-Follows laws c u p getter re.ots re.ots i q.header re.h h r re.answered
          re.executed in
      let onwards =
        replay_loop-Follows getter start rounds (suc j) (i + 1) q1 q' one.header (omega arith)
          (omega arith) (omega arith) back (rw re.header one.alike)
          (rw re.header one.same_commitment) rest in
      record {
        header = onwards.header;
        runs =
            on_success-run laws c u (catchup_block t c u getter i h)
              (catchup_loop t c u getter rounds (i + 1)) one.runs
            ∙ onwards.runs;
        alike = onwards.alike;
        same_commitment = onwards.same_commitment;
      }

  held-idle : (h : Header Node) (k : Bytes) → h.intermediate_kv ≡ [] → held h k ≡ lookup k h.kv
  unfolding held lookup
  held-idle h k idle = rw idle refl

  -- Update of a queue in order over a lawful tree by at most six blocks of one database, and then
  -- Recovery from the first of them with another database, with the heights below 2^64 - 1 and
  -- neither with a panic or an error, end with the values, the height and the commitment that the
  -- catch-up loop gives on the header of before with the blocks of the second database alone.
  pub recovery-update :
      (getter getter' : OrdGetter) (blocks : ℕ) (q q1 q2 : Queue Node)
      → IsLinked t IsFull q
      → blocks ≤ bitcoin_confirmations
      → q.header.height + blocks + 1 < 2 ^ 64
      → update t c u p getter (q.header.height + blocks) q ≡ done (none, q1)
      → recovery t c u p getter' (q.header.height + 1) q1 ≡ done (none, q2)
      → Follows laws c u
          (catchup_loop t c u getter' blocks (q.header.height + 1) q.header)
          q2.header
  unfolding update recovery
  recovery-update getter getter' blocks q q1 q2 l le small e e' =
      let n = q.header.height in
      let all : n + blocks - n ≡ blocks = omega arith in
      let run : update_loop t c u p getter blocks (n + 1) q ≡ done (none, q1) =
        ap (λ r. update_loop t c u p getter r (n + 1) q) (sym all) ∙ e in
      let forward = update_loop-IsLinked laws c u p getter blocks (n + 1) q q1 l refl run in
      let memory =
        update_loop-Remembers getter q.header.kv blocks 0 (n + 1) q q1 l refl (omega arith) run
          (λ k. refl) in
      let start = start_height q1 in
      let b = IsBack-of-IsLinked laws c u p q1 forward.0 in
      let rounds : rollback_rounds q1.header.height (n + 1) q1.history ≡ blocks =
        rollback_rounds-above laws c u p q1.header.height (n + 1) q1.history
          (omega (arith, start_height_lem laws c u p q l)) (omega (arith, forward.1))
          (omega (arith, forward.1))
        ∙ omega (arith, forward.1) in
      let back =
        rollback_loop-IsBack laws c u p start blocks 6 q1 (omega (arith, b.height, forward.1)) le
          b in
      let again : q1.header.height + 1 - (n + 1) ≡ blocks = omega (arith, forward.1) in
      let map_back : Same back.0.header.kv q.header.kv = λ k.
        ap (lookup k) back.4
        ∙ ap (λ (s : ℕ). lookup k (undo_back q1.history s 6 q1.header.kv)) (omega arith)
        ∙ memory k in
      let alike : Alike t IsFull back.0.header q.header = record {
        left = back.2.valid;
        right = l.valid;
        same = λ k.
            held-idle back.0.header k back.2.idle ∙ map_back k ∙ sym (held-idle q.header k l.idle);
        same_height = omega (arith, back.2.height, b.height, forward.1);
      } in
      let same =
        commit-Agrees laws (Agrees-of-IsValid laws back.2.valid) (Agrees-of-IsValid laws l.valid)
          map_back in
      replay_loop-Follows getter' start blocks (6 - blocks) (n + 1) back.0 q2 q.header
        (omega (arith, b.height, forward.1)) (omega arith) (omega arith) back.2 alike same
        (rw (rounds, back.1, again) at e')
