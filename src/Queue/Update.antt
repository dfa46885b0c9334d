-- ===== src/Queue/Update.antt =====
-- `Update` of queue.go keeps the invariant of the queue.
use modular_indexer_committe.Prelude.{
  ℕ, zero, suc, ◌+◌, ◌-◌, ◌≡◌, refl, sym, ap, ◌∙◌, subst, Option, none, some, List, [], arith,
  length, get_elem?, true,
}
use modular_indexer_committe.Prelude.Outcome.{Result, ok, err, Outcome, done, panic}
use modular_indexer_committe.Bytes.{Bytes}
use modular_indexer_committe.OrdGetter.{OrdGetter, OrdTransfer}
use modular_indexer_committe.Packages.{Verkle, VerkleLaws, Uint256, Codec}
use modular_indexer_committe.Header.{Header}
use modular_indexer_committe.Header.Valid.{IsValid}
use modular_indexer_committe.Header.Access.{Within}
use modular_indexer_committe.Header.Paging.{undo, rollingback}
use modular_indexer_committe.Header.Commit.{paging-IsValid}
use modular_indexer_committe.Header.Rollback.{
  IsSizedOld-of-IsAccurate, undo-IsSized, undo-paging, rollingback-paging,
}
use modular_indexer_committe.Queue.{
  Queue, DiffState, ProofTools, shift_in, exec_header, on_success, diff_of, page_block, prove_block,
  hash_block, after_exec, update_with, update_block, update_loop, update,
}
use modular_indexer_committe.Queue.Proofs.{Proof, generate_proof_from_update}
use modular_indexer_committe.Queue.Heights.{exec_header-Within}
use modular_indexer_committe.Queue.Chain.{Chain, IsLinked, Chain-Same, Chain-move}
use modular_indexer_committe.Queue.History.{
  length-shift_in, get_elem?-shift_in, get_elem?-shift_in_last,
}

pub done-injective {ℓ} : {A : Type ℓ} {a b : A} → done a ≡ done b → a ≡ b
done-injective e = cc

-- A loop that went on after a round.
pub on_success-none :
    {Q : Type 0} (o : Outcome (Option Bytes × Q)) (k : Q → Outcome (Option Bytes × Q)) {q' : Q}
    → on_success o k ≡ done (none, q')
    → (q : Q) × (o ≡ done (none, q)) × (k q ≡ done (none, q'))
on_success-none (panic r) k e = cc
on_success-none {Q} (done (some x, q)) k e =
    absurd (cc (ap (λ (z : Option Bytes × Q). z.0) (done-injective e)))
on_success-none (done (none, q)) k e = (q, refl, e)

-- The header of an executed block, with the block's transfers.
abbrev pub with_transfers : {Node : Type 0} → List OrdTransfer → Header Node → Header Node
with_transfers ots h = record h { ord_trans = ots }

module _ {Node : Type 0} {t : Verkle Node} {IsFull : Node → Type 0} where
  pub with_transfers-IsValid :
      (ots : List OrdTransfer) (h : Header Node)
      → IsValid t IsFull h
      → IsValid t IsFull (with_transfers ots h)
  with_transfers-IsValid ots h v = record {
    full = v.full;
    consistent = v.consistent;
    kv_sized = v.kv_sized;
    pending_sized = v.pending_sized;
    recorded = v.recorded;
    accurate = v.accurate;
  }

module _ {Node : Type 0} {t : Verkle Node} {IsFull : Node → Type 0} (laws : VerkleLaws t IsFull)
    (c : Codec) (u : Uint256) (p : ProofTools Node) where
  -- Paging an executed block makes the chain one entry longer.
  pub page_block-Chain :
      (getter : OrdGetter) (ots : List OrdTransfer) (h : Header Node) (hash : Bytes)
      (ds : List DiffState) (j : ℕ)
      → IsValid t IsFull h
      → get_elem? ds j ≡ some (diff_of t c u p h (h.height + 1) hash)
      → Chain t ds j h.kv h.height
      → let h' = page_block t c u p getter ots h in Chain t ds (suc j) h'.kv h'.height
  unfolding rollingback
  page_block-Chain getter ots h hash ds j v e ch =
      let v' = with_transfers-IsValid ots h v in
      let h' = page_block t c u p getter ots h in
      let paged = paging-IsValid laws getter true (with_transfers ots h) v' in
      let undone = undo h.access h'.kv in
      let old = IsSizedOld-of-IsAccurate h.kv h.access v.kv_sized v.accurate in
      (
        record {
          diff = diff_of t c u p h (h.height + 1) hash;
          at = e;
          next_height = omega (arith, paged.1);
          old_sized = old;
          commits = (rollingback-paging laws getter true (with_transfers ots h) v').0;
        },
        subst (Chain t ds j undone) (omega arith) (
            Chain-Same laws ds j h.kv undone h.height v.kv_sized
              (undo-IsSized h.access h'.kv old paged.0.kv_sized)
              (λ k. sym (undo-paging laws getter true (with_transfers ots h) v' k)) ch),
      )

  -- A queue after a block has been paged, with `suc j` entries of its history in the chain.
  pub record Advanced (j i : ℕ) (q : Queue Node) : Type 0 where
    pub valid : IsValid t IsFull q.header
    pub idle : q.header.intermediate_kv ≡ []
    pub no_access : q.header.access ≡ []
    pub chain : Chain t q.history (suc j) q.header.kv q.header.height
    pub height : q.header.height ≡ i

  -- What `Update` and `Recovery` share: a block is executed and paged, and its entry is written.
  pub advance :
      (getter : OrdGetter) (ots : List OrdTransfer) (base h : Header Node) (hash : Bytes)
      (ds : List DiffState) (j i : ℕ) (q : Queue Node)
      → Within t IsFull base h
      → i ≡ base.height + 1
      → get_elem? ds j ≡ some (diff_of t c u p h i hash)
      → Chain t ds j base.kv base.height
      → q.header ≡ page_block t c u p getter ots h
      → q.history ≡ ds
      → Advanced j i q
  advance getter ots base h hash ds j i q w next at ch header history =
      let paged =
        paging-IsValid laws getter true (with_transfers ots h)
          (with_transfers-IsValid ots h w.valid) in
      let at_height : i ≡ h.height + 1 = omega (arith, w.same_height) in
      let newest = at ∙ ap (λ n. some (diff_of t c u p h n hash)) at_height in
      let kept : Chain t ds j h.kv h.height = rw (w.same_kv, w.same_height) ch in
      record {
        valid = rw header paged.0;
        idle = rw header paged.3;
        no_access = rw header paged.2;
        chain =
            subst (λ d. Chain t d (suc j) q.header.kv q.header.height) (sym history)
              (rw header (page_block-Chain getter ots h hash ds j w.valid newest kept));
        height = rw header (omega (arith, paged.1));
      }

  -- A round of `Update` that returns no error, taken apart.
  pub record Updated (getter : OrdGetter) (i : ℕ) (q q' : Queue Node) : Type 0 where
    pub ots : List OrdTransfer
    pub answered : getter.get_ord_transfers i ≡ ok ots
    pub h : Header Node
    pub hash : Bytes
    pub hashed : getter.get_block_hash (i - 1) ≡ ok hash
    pub executed : exec_header t c u ots i q.header ≡ done (tt, h)
    pub header : q'.header ≡ page_block t c u p getter ots h
    pub history : q'.history ≡ shift_in (diff_of t c u p h i hash) q.history

  hash_block-Updated :
      (getter : OrdGetter) (i : ℕ) (ots : List OrdTransfer) (q q' : Queue Node) (h : Header Node)
      (r : Result Bytes)
      → getter.get_block_hash (i - 1) ≡ r
      → getter.get_ord_transfers i ≡ ok ots
      → exec_header t c u ots i q.header ≡ done (tt, h)
      → hash_block t c u p getter i ots (record q { header = h }) r ≡ (none, q')
      → Updated getter i q q'
  hash_block-Updated getter i ots q q' h (err e) hashed answered x eq =
      absurd (cc (ap (λ (z : Option Bytes × Queue Node). z.0) eq))
  hash_block-Updated getter i ots q q' h (ok hash) hashed answered x eq =
      go (generate_proof_from_update p h h.access) eq
    where
      go :
          (r : Result (Option Proof))
          → prove_block t c u p getter ots (record q { header = h }) (diff_of t c u p h i hash) r
            ≡ (none, q')
          → Updated getter i q q'
      go (err e) eq' = absurd (cc (ap (λ (z : Option Bytes × Queue Node). z.0) eq'))
      go (ok proof) eq' = record {
        ots = ots;
        answered = answered;
        h = h;
        hash = hash;
        hashed = hashed;
        executed = x;
        header = sym (ap (λ (z : Option Bytes × Queue Node). z.1.header) eq');
        history = sym (ap (λ (z : Option Bytes × Queue Node). z.1.history) eq');
      }

  after_exec-Updated :
      (getter : OrdGetter) (i : ℕ) (ots : List OrdTransfer) (q q' : Queue Node)
      (o : Outcome (Unit {0} × Header Node))
      → getter.get_ord_transfers i ≡ ok ots
      → exec_header t c u ots i q.header ≡ o
      → after_exec t c u p getter i ots q o ≡ done (none, q')
      → Updated getter i q q'
  after_exec-Updated getter i ots q q' (panic r) answered x eq = absurd (cc)
  after_exec-Updated getter i ots q q' (done (tt, h)) answered x eq =
      hash_block-Updated getter i ots q q' h (getter.get_block_hash (i - 1)) refl answered x
        (done-injective eq)

  pub updated :
      (getter : OrdGetter) (i : ℕ) (q q' : Queue Node)
      → update_block t c u p getter i q ≡ done (none, q')
      → Updated getter i q q'
  unfolding update_block
  updated getter i q q' eq = go (getter.get_ord_transfers i) refl eq
    where
      go :
          (r : Result (List OrdTransfer))
          → getter.get_ord_transfers i ≡ r
          → update_with t c u p getter i q r ≡ done (none, q')
          → Updated getter i q q'
      go (err e) answered eq' =
          absurd (cc (ap (λ (z : Option Bytes × Queue Node). z.0) (done-injective eq')))
      go (ok ots) answered eq' =
          after_exec-Updated getter i ots q q' (exec_header t c u ots i q.header) answered refl eq'

  -- A round of `Update` at the block after the latest one that returns no error keeps the invariant
  -- and moves the queue to that block.
  pub update_block-IsLinked :
      (getter : OrdGetter) (i : ℕ) (q q' : Queue Node)
      → IsLinked t IsFull q
      → i ≡ q.header.height + 1
      → update_block t c u p getter i q ≡ done (none, q')
      → IsLinked t IsFull q' × (q'.header.height ≡ i)
  update_block-IsLinked getter i q q' l next eq =
      let up = updated getter i q q' eq in
      let w = (exec_header-Within t IsFull c u up.ots i q.header up.h l.valid up.executed).0 in
      let diff = diff_of t c u p up.h i up.hash in
      let a =
        advance getter up.ots q.header up.h up.hash (shift_in diff q.history) 5 i q' w next
          (get_elem?-shift_in_last diff q.history 5 l.sized)
          (Chain-move t q.history (shift_in diff q.history) 1 5 q.header.kv q.header.height
            (λ k lt.
              get_elem?-shift_in diff q.history k (omega (arith, l.sized))
              ∙ ap (get_elem? q.history) (omega arith))
            l.chain)
          up.header up.history in
      (
        record {
          valid = a.valid;
          idle = a.idle;
          no_access = a.no_access;
          sized = ap length up.history ∙ length-shift_in diff q.history ∙ l.sized;
          chain = a.chain;
        },
        a.height,
      )

  pub update_loop-IsLinked :
      (getter : OrdGetter) (rounds i : ℕ) (q q' : Queue Node)
      → IsLinked t IsFull q
      → i ≡ q.header.height + 1
      → update_loop t c u p getter rounds i q ≡ done (none, q')
      → IsLinked t IsFull q' × (q'.header.height ≡ q.header.height + rounds)
  unfolding update_loop
  update_loop-IsLinked getter zero i q q' l next eq =
      let same : q ≡ q' = ap (λ (z : Option Bytes × Queue Node). z.1) (done-injective eq) in
      (subst (IsLinked t IsFull) same l, rw (← same) (omega arith))
  update_loop-IsLinked getter (suc rounds) i q q' l next eq =
      let (q1, first, rest) =
        on_success-none (update_block t c u p getter i q)
          (update_loop t c u p getter rounds (i + 1)) eq in
      let one = update_block-IsLinked getter i q q1 l next first in
      let r = update_loop-IsLinked getter rounds (i + 1) q1 q' one.0 (omega (arith, one.1)) rest in
      (r.0, omega (arith, r.1, one.1))

  -- Update of a queue in order on a lawful tree, where it neither panics nor returns an error,
  -- leaves a queue in order, at the height it was given or at its own if that is higher.
  pub update-IsLinked :
      (getter : OrdGetter) (latest : ℕ) (q q' : Queue Node)
      → IsLinked t IsFull q
      → update t c u p getter latest q ≡ done (none, q')
      → IsLinked t IsFull q' × (q'.header.height ≡ q.header.height + (latest - q.header.height))
  unfolding update
  update-IsLinked getter latest q q' l eq =
      update_loop-IsLinked getter (latest - q.header.height) (q.header.height + 1) q q' l refl eq
