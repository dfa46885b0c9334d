-- ===== src/Stages/Settled.antt =====
-- The catch-up loop goes from a header between two blocks to another.
use modular_indexer_committe.Prelude.{
  ℕ, zero, suc, ◌+◌, ◌≡◌, refl, ap, ◌∙◌, subst, false, Option, none, List, [], arith,
}
use modular_indexer_committe.Prelude.Outcome.{Result, ok, err, Outcome, done, panic}
use modular_indexer_committe.Bytes.{Bytes}
use modular_indexer_committe.OrdGetter.{OrdGetter, OrdTransfer}
use modular_indexer_committe.Packages.{Verkle, VerkleLaws, Uint256, Codec}
use modular_indexer_committe.Header.{Header}
use modular_indexer_committe.Header.Valid.{IsValid}
use modular_indexer_committe.Queue.Update.{done-injective, on_success-none}
use modular_indexer_committe.Stages.{catchup_exec, catchup_with, catchup_block, catchup_loop}
use modular_indexer_committe.Queue.{exec_header}
use modular_indexer_committe.Queue.Heights.{exec_header-Within}
use modular_indexer_committe.Header.Paging.{paging}
use modular_indexer_committe.Header.Commit.{paging-IsValid}
use modular_indexer_committe.Stages.Follow.{on_success-run}

module _ {Node : Type 0} {t : Verkle Node} {IsFull : Node → Type 0} (laws : VerkleLaws t IsFull)
    (c : Codec) (u : Uint256) where
  -- A header between two blocks.
  pub record IsSettled (h : Header Node) : Type 0 where
    pub valid : IsValid t IsFull h
    pub idle : h.intermediate_kv ≡ []
    pub no_access : h.access ≡ []

  catchup_block-IsSettled :
      (getter : OrdGetter) (i : ℕ) (h h' : Header Node)
      → IsValid t IsFull h
      → catchup_block t c u getter i h ≡ done (none, h')
      → IsSettled h' × (h'.height ≡ h.height + 1)
  unfolding catchup_block
  catchup_block-IsSettled getter i h h' v e = answered (getter.get_ord_transfers i) e
    where
      executed :
          (ots : List OrdTransfer) (o : Outcome (Unit {0} × Header Node))
          → exec_header t c u ots i h ≡ o
          → catchup_exec t c u getter o ≡ done (none, h')
          → IsSettled h' × (h'.height ≡ h.height + 1)
      executed ots (panic r) x e' = absurd (cc)
      executed ots (done (tt, h1)) x e' =
          let w = (exec_header-Within t IsFull c u ots i h h1 v x).0 in
          let paged = paging-IsValid laws getter false h1 w.valid in
          let same : (paging t getter false h1).1 ≡ h' =
            cc (ap (λ (z : Option Bytes × Header Node). z.1) (done-injective e')) in
          subst (λ (z : Header Node). IsSettled z × (z.height ≡ h.height + 1)) same
            (
              record { valid = paged.0; idle = paged.3; no_access = paged.2 },
              paged.1 ∙ ap (λ n. n + 1) w.same_height,
            )

      answered :
          (r : Result (List OrdTransfer))
          → catchup_with t c u getter i h r ≡ done (none, h')
          → IsSettled h' × (h'.height ≡ h.height + 1)
      answered (err x) e' =
          absurd (cc (ap (λ (z : Option Bytes × Header Node). z.0) (done-injective e')))
      answered (ok ots) e' = executed ots (exec_header t c u ots i h) refl e'

  pub catchup_loop-IsSettled :
      (getter : OrdGetter) (rounds i : ℕ) (h h' : Header Node)
      → IsSettled h
      → catchup_loop t c u getter rounds i h ≡ done (none, h')
      → IsSettled h' × (h'.height ≡ h.height + rounds)
  unfolding catchup_loop
  catchup_loop-IsSettled getter zero i h h' s e =
      let same : h ≡ h' = ap (λ (z : Option Bytes × Header Node). z.1) (done-injective e) in
      (subst IsSettled same s, rw (← same) (omega arith))
  catchup_loop-IsSettled getter (suc rounds) i h h' s e =
      let (h1, first, rest) =
        on_success-none (catchup_block t c u getter i h) (catchup_loop t c u getter rounds (i + 1))
          e in
      let one = catchup_block-IsSettled getter i h h1 s.valid first in
      let more = catchup_loop-IsSettled getter rounds (i + 1) h1 h' one.0 rest in
      (more.0, omega (arith, more.1, one.1))

  -- Two runs of the loop, one after the other.
  pub catchup_loop-append :
      (getter : OrdGetter) (first more i : ℕ) (h h1 : Header Node)
      → catchup_loop t c u getter first i h ≡ done (none, h1)
      → catchup_loop t c u getter (first + more) i h ≡ catchup_loop t c u getter more (i + first) h1
  unfolding catchup_loop
  catchup_loop-append getter zero more i h h1 e =
      let same : h ≡ h1 = ap (λ (z : Option Bytes × Header Node). z.1) (done-injective e) in
      rw (← same) (
        ap (λ (n : ℕ). catchup_loop t c u getter n i h) {x = 0 + more} {y = more} (omega arith)
        ∙ ap (λ (n : ℕ). catchup_loop t c u getter more n h) {x = i} {y = i + 0} (omega arith))
  catchup_loop-append getter (suc first) more i h h1 e =
      let (h2, one, rest) =
        on_success-none (catchup_block t c u getter i h) (catchup_loop t c u getter first (i + 1))
          e in
      ap (λ (n : ℕ). catchup_loop t c u getter n i h) {x = suc first + more}
        {y = suc (first + more)} (omega arith)
      ∙ on_success-run laws c u (catchup_block t c u getter i h)
          (catchup_loop t c u getter (first + more) (i + 1)) one
      ∙ catchup_loop-append getter first more (i + 1) h2 h1 rest
      ∙ ap (λ (n : ℕ). catchup_loop t c u getter more n h1) {x = i + 1 + first} {y = i + suc first}
          (omega arith)
