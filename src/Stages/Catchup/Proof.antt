-- ===== src/Stages/Catchup/Proof.antt =====
-- `CatchupStage` ends with a queue in order at the latest block, whose state is that of the plain loop.
use modular_indexer_committe.Prelude.{
  ℕ, zero, suc, ◌+◌, ◌-◌, ◌%◌, ◌^◌, ◌≤◌, ◌≡◌, refl, sym, ap, ◌∙◌, Bool, true, Bool-cases, inl, inr,
  Option, none, some, List, arith, ltb, ◌==◌, ==_iff, ◌&&◌,
}
use modular_indexer_committe.Prelude.Outcome.{Result, ok, err, Outcome, done, panic}
use modular_indexer_committe.Bytes.{Bytes}
use modular_indexer_committe.OrdGetter.{OrdGetter, OrdTransfer}
use modular_indexer_committe.Packages.{Verkle, VerkleLaws, Uint256, Codec}
use modular_indexer_committe.Header.{Header}
use modular_indexer_committe.Header.Alike.{Alike, held}
use modular_indexer_committe.Queue.{Queue, ProofTools, bitcoin_confirmations, latest_height}
use modular_indexer_committe.Queue.Chain.{IsLinked}
use modular_indexer_committe.Queue.Update.{
  done-injective, on_success-none, with_transfers, with_transfers-IsValid,
}
use modular_indexer_committe.Queue.Start.{new_queues}
use modular_indexer_committe.Queue.Start.Linked.{new_queues-IsLinked}
use modular_indexer_committe.Cache.{Gob, Disk, load_header}
use modular_indexer_committe.Stages.{catchup_block, catchup_loop}
use modular_indexer_committe.Stages.Follow.{Follows, on_success-run}
use modular_indexer_committe.Stages.Catchup.{
  store_if, beside, store_every_thousand, stage_block, stage_loop, check_height, start_queue,
  with_transfers_of, from_catchup, from_header, catchup_stage,
}
use modular_indexer_committe.Stages.Settled.{IsSettled, catchup_loop-IsSettled, catchup_loop-append}
use modular_indexer_committe.Stages.Catchup.Start.{new_queues-Follows}

ok_queue : {Q : Type 0} {a b : Q} → ok a ≡ ok b → a ≡ b
ok_queue e = cc

module _ {Node : Type 0} {t : Verkle Node} {IsFull : Node → Type 0} (laws : VerkleLaws t IsFull)
    (c : Codec) (u : Uint256) (p : ProofTools Node) where
  module _ {D : Type 0} (gob : Gob) (disk : Disk D) where
    -- The files do not change what the loop computes.
    stage_block-block :
        (getter : OrdGetter) (enable : Bool) (i : ℕ) (s s' : Header Node × D)
        → stage_block t c u p gob disk getter enable i s ≡ done (none, s')
        → catchup_block t c u getter i s.0 ≡ done (none, s'.0)
    unfolding stage_block
    stage_block-block getter enable i (h, d) s' e = go (catchup_block t c u getter i h) e
      where
        stored :
            (h' : Header Node) (o : Outcome D)
            → beside t c u p gob disk h' o ≡ done (none, s')
            → h' ≡ s'.0
        stored h' (panic r) e' = absurd (cc)
        stored h' (done d') e' =
            ap (λ (z : Option Bytes × (Header Node × D)). z.1.0) (done-injective e')

        go :
            (o : Outcome (Option Bytes × Header Node))
            → store_every_thousand t c u p gob disk enable i d o ≡ done (none, s')
            → o ≡ done (none, s'.0)
        go (panic r) e' = absurd (cc)
        go (done (some x, h')) e' =
            absurd (cc (ap (λ (z : Option Bytes × (Header Node × D)). z.0) (done-injective e')))
        go (done (none, h')) e' =
            ap (λ (z : Header Node). done (none, z))
              (stored h' (store_if t c u p gob disk (i % 1000 == 0 && enable) h' d) e')

    stage_loop-loop :
        (getter : OrdGetter) (enable : Bool) (rounds i : ℕ) (s s' : Header Node × D)
        → stage_loop t c u p gob disk getter enable rounds i s ≡ done (none, s')
        → catchup_loop t c u getter rounds i s.0 ≡ done (none, s'.0)
    unfolding stage_loop catchup_loop
    stage_loop-loop getter enable zero i s s' e =
        ap (λ (z : Option Bytes × (Header Node × D)). done (none, z.1.0)) (done-injective e)
    stage_loop-loop getter enable (suc rounds) i s s' e =
        let (s1, first, rest) =
          on_success-none (stage_block t c u p gob disk getter enable i s)
            (stage_loop t c u p gob disk getter enable rounds (i + 1)) e in
        on_success-run laws c u (catchup_block t c u getter i s.0)
          (catchup_loop t c u getter rounds (i + 1)) (stage_block-block getter enable i s s1 first)
        ∙ stage_loop-loop getter enable rounds (i + 1) s1 s' rest

    -- What a stage that returns a queue has done, one part after the other.
    record Caught (getter : OrdGetter) (enable : Bool) (latest : ℕ) (h : Header Node) (d : D)
        (q : Queue Node) : Type 0 where
      low : h.height ≤ (latest + 2 ^ 64 - bitcoin_confirmations) % 2 ^ 64
      ots : List OrdTransfer
      header : Header Node
      loop :
          catchup_loop t c u getter
            ((latest + 2 ^ 64 - bitcoin_confirmations) % 2 ^ 64 - h.height)
            (h.height + 1)
            h
          ≡ done (none, header)
      queue :
          new_queues t c u p getter
            (with_transfers ots header)
            true
            (((latest + 2 ^ 64 - bitcoin_confirmations) % 2 ^ 64 + 1) % 2 ^ 64)
          ≡ done (ok q)
      height : q.header.height ≡ latest

    check_height-ok :
        (latest : ℕ) (d : D) (q : Queue Node) (d' : D) (o : Outcome (Result (Queue Node)))
        → check_height t c u p gob disk latest d o ≡ done (ok q, d')
        → (o ≡ done (ok q)) × (q.header.height ≡ latest)
    unfolding latest_height
    check_height-ok latest d q d' (panic r) e = absurd (cc)
    check_height-ok latest d q d' (done (err x)) e =
        absurd (cc (ap (λ (z : Result (Queue Node) × D). z.0) (done-injective e)))
    check_height-ok latest d q d' (done (ok q1)) e =
        elim (Bool-cases (q1.header.height == latest)) [
          | inl same ↦
              let here : ok q1 ≡ ok q =
                ap (λ (z : Result (Queue Node) × D). z.0) (done-injective (rw same at e)) in
              (
                ap done here,
                ap (λ (z : Queue Node). z.header.height) (sym (ok_queue here))
                    ∙ (==_iff q1.header.height latest).0 same,
              )
          | inr other ↦
              absurd
                (cc (ap (λ (z : Result (Queue Node) × D). z.0) (done-injective (rw other at e))))
        ]

    caught_queue :
        (getter : OrdGetter) (latest catchup : ℕ) (h : Header Node) (q : Queue Node) (d' : D)
        (o : Outcome D)
        → start_queue t c u p gob disk getter latest catchup h o ≡ done (ok q, d')
        → (new_queues t c u p getter h true ((catchup + 1) % 2 ^ 64) ≡ done (ok q))
          × (q.header.height ≡ latest)
    caught_queue getter latest catchup h q d' (panic r) e = absurd (cc)
    caught_queue getter latest catchup h q d' (done d) e =
        check_height-ok latest d q d' (new_queues t c u p getter h true ((catchup + 1) % 2 ^ 64)) e

    caught :
        (getter : OrdGetter) (enable : Bool) (latest : ℕ) (h : Header Node) (d d' : D)
        (q : Queue Node)
        → from_header t c u p gob disk getter enable latest d (some h) ≡ done (ok q, d')
        → Caught getter enable latest h d q
    caught getter enable latest h d d' q e =
        let catchup = (latest + 2 ^ 64 - bitcoin_confirmations) % 2 ^ 64 in
        elim (Bool-cases (ltb catchup h.height)) [
          | inl high ↦
              absurd
                (cc (ap (λ (z : Result (Queue Node) × D). z.0) (done-injective (rw high at e))))
          | inr low ↦
              looped (ground (arith, low))
                (stage_loop t c u p gob disk getter enable (catchup - h.height) (h.height + 1)
                  (h, d))
                refl (rw low at e)
        ]
      where
        answered :
            (s : Header Node × D) (r : Result (List OrdTransfer))
            → h.height ≤ (latest + 2 ^ 64 - bitcoin_confirmations) % 2 ^ 64
            → stage_loop t c u p gob disk getter enable
                ((latest + 2 ^ 64 - bitcoin_confirmations) % 2 ^ 64 - h.height)
                (h.height + 1)
                (h, d)
              ≡ done (none, s)
            → with_transfers_of t c u p gob disk getter enable latest
                ((latest + 2 ^ 64 - bitcoin_confirmations) % 2 ^ 64)
                s
                r
              ≡ done (ok q, d')
            → Caught getter enable latest h d q
        answered s (err x) low run e' =
            absurd (cc (ap (λ (z : Result (Queue Node) × D). z.0) (done-injective e')))
        answered s (ok ots) low run e' =
            let made =
              caught_queue getter latest ((latest + 2 ^ 64 - bitcoin_confirmations) % 2 ^ 64)
                (with_transfers ots s.0) q d'
                (store_if t c u p gob disk enable (with_transfers ots s.0) s.1) e' in
            record {
              low = low;
              ots = ots;
              header = s.0;
              loop =
                  stage_loop-loop getter enable
                    ((latest + 2 ^ 64 - bitcoin_confirmations) % 2 ^ 64 - h.height) (h.height + 1)
                    (h, d) s run;
              queue = made.0;
              height = made.1;
            }

        looped :
            h.height ≤ (latest + 2 ^ 64 - bitcoin_confirmations) % 2 ^ 64
            → (o : Outcome (Option Bytes × (Header Node × D)))
            → stage_loop t c u p gob disk getter enable
                ((latest + 2 ^ 64 - bitcoin_confirmations) % 2 ^ 64 - h.height)
                (h.height + 1)
                (h, d)
              ≡ o
            → from_catchup t c u p gob disk getter enable latest
                ((latest + 2 ^ 64 - bitcoin_confirmations) % 2 ^ 64)
                o
              ≡ done (ok q, d')
            → Caught getter enable latest h d q
        looped low (panic r) run e' = absurd (cc)
        looped low (done (some x, s)) run e' =
            absurd (cc (ap (λ (z : Result (Queue Node) × D). z.0) (done-injective e')))
        looped low (done (none, s)) run e' =
            answered s
              (getter.get_ord_transfers ((latest + 2 ^ 64 - bitcoin_confirmations) % 2 ^ 64)) low
              run e'

    -- CatchupStage over a lawful tree that loads a valid header with nothing pending, with a latest
    -- height from 6 to 2^64 - 1, and makes a queue without a panic or an error, makes a queue in
    -- order at the latest height, with the values and the commitment that the catch-up loop gives
    -- on the loaded header at all the blocks up to that height.
    pub catchup_stage-IsLinked :
        (getter : OrdGetter) (enable : Bool) (init latest : ℕ) (d d' : D) (h : Header Node)
        (q : Queue Node)
        → load_header t gob disk enable init d ≡ some h
        → IsSettled laws c u h
        → bitcoin_confirmations ≤ latest
        → latest + 1 ≤ 2 ^ 64
        → catchup_stage t c u p gob disk getter enable init latest d ≡ done (ok q, d')
        → IsLinked t IsFull q
          × (q.header.height ≡ latest)
          × Follows laws c u
              (catchup_loop t c u getter (latest - h.height) (h.height + 1) h)
              q.header
    unfolding catchup_stage
    catchup_stage-IsLinked getter enable init latest d d' h q loaded settled six small e =
        let parts = caught getter enable latest h d d' q (rw loaded at e) in
        let back : (latest + 2 ^ 64 - bitcoin_confirmations) % 2 ^ 64 ≡ latest - 6 = omega arith in
        let low : h.height ≤ latest - 6 = rw (← back) parts.low in
        let loop : catchup_loop t c u getter (latest - 6 - h.height) (h.height + 1) h
            ≡ done (none, parts.header) =
          ap (λ (n : ℕ). catchup_loop t c u getter (n - h.height) (h.height + 1) h) (sym back)
          ∙ parts.loop in
        let there =
          catchup_loop-IsSettled laws c u getter (latest - 6 - h.height) (h.height + 1) h
            parts.header settled loop in
        let moved = with_transfers parts.ots parts.header in
        let v = with_transfers-IsValid parts.ots parts.header there.0.valid in
        let next : (((latest + 2 ^ 64 - bitcoin_confirmations) % 2 ^ 64 + 1) % 2 ^ 64)
            ≡ parts.header.height + 1 =
          omega (arith, there.1) in
        let made : new_queues t c u p getter moved true (parts.header.height + 1) ≡ done (ok q) =
          ap (new_queues t c u p getter moved true) (sym next) ∙ parts.queue in
        let alike : Alike t IsFull moved parts.header = record {
          left = v;
          right = there.0.valid;
          same = λ k. unfold held in refl;
          same_height = refl;
        } in
        let linked =
          new_queues-IsLinked laws c u p getter true moved q v there.0.idle there.0.no_access
            (omega (arith, there.1)) made in
        let follows =
          new_queues-Follows laws c u p getter true moved parts.header q v there.0.idle
            there.0.no_access (omega (arith, there.1)) alike refl made in
        let whole : latest - 6 - h.height + 6 ≡ latest - h.height = omega arith in
        (
          linked.0,
          parts.height,
          record {
            header = follows.header;
            runs =
                ap (λ (n : ℕ). catchup_loop t c u getter n (h.height + 1) h) (sym whole)
                ∙ catchup_loop-append laws c u getter (latest - 6 - h.height) 6 (h.height + 1) h
                    parts.header loop
                ∙ ap (λ (n : ℕ). catchup_loop t c u getter 6 n parts.header)
                    (omega (arith, there.1))
                ∙ follows.runs;
            alike = follows.alike;
            same_commitment = follows.same_commitment;
          },
        )
