-- ===== src/Queue/Start.antt =====
-- `NewQueues` of ord/stateless/queue.go.
pub mod Linked
use modular_indexer_committe.Prelude.{
  ℕ, zero, suc, ◌+◌, ◌-◌, ◌%◌, ◌^◌, ◌≤◌, ◌<◌, ◌≡◌, refl, sym, ap, ◌∙◌, subst, Option, none, some,
  List, [], ◌==◌, arith, length, get_elem?, set, length-set, lt→ltb, ltb, if◌then◌else◌, Bool, true,
  false, replicate,
}
use modular_indexer_committe.Prelude.Outcome.{Result, ok, err, Outcome, done, panic, out_of_range}
use modular_indexer_committe.Bytes.{Bytes}
use modular_indexer_committe.OrdGetter.{OrdGetter, OrdTransfer}
use modular_indexer_committe.Packages.{Verkle, VerkleLaws, Uint256, Codec}
use modular_indexer_committe.Header.{Header}
use modular_indexer_committe.Header.Valid.{IsValid}
use modular_indexer_committe.Header.Paging.{paging}
use modular_indexer_committe.Queue.{
  Queue, DiffState, ProofTools, bitcoin_confirmations, exec_header, diff_of, page_block, on_success,
}
use modular_indexer_committe.Queue.Proofs.{Proof, generate_proof_from_update}
use modular_indexer_committe.Queue.Heights.{exec_header-Within}
use modular_indexer_committe.Queue.Chain.{Chain, IsLinked, Chain-move}
use modular_indexer_committe.Queue.History.{get_elem?-set_self, get_elem?-set_ne}
use modular_indexer_committe.Queue.Update.{done-injective, on_success-none, advance}
use modular_indexer_committe.Queue.Reorg.{IsBack}

-- The zero value of an entry of `stateList`.
abbrev pub no_diff : DiffState
no_diff = record { height = 0; hash = []; verkle_commit = replicate 32 0; access = [] }

-- `proof, _ = generateProofFromUpdate(…)`
abbrev pub proof_or_nil : Result (Option Proof) → Option Proof
proof_or_nil (err e) = none
proof_or_nil (ok proof) = proof

-- The hash of the block before, which is asked for only if `queryHash` says so.
abbrev pub queried_hash : Bool → Result Bytes → Result Bytes
queried_hash query_hash answer = if query_hash then answer else ok []

-- `return &queue, nil`, or `return nil, err`
abbrev pub made_queue : {Q : Type 0} → Outcome (Option Bytes × Q) → Outcome (Result Q)
made_queue (panic r) = panic r
made_queue (done (none, q)) = done (ok q)
made_queue (done (some e, q)) = done (err e)

module _ {Node : Type 0} (t : Verkle Node) (c : Codec) (u : Uint256) (p : ProofTools Node) where
  -- The header, `stateList` and `proof` of the loop are held as the queue that they make.
  abbrev pub start_hash :
      OrdGetter → ℕ → ℕ → Queue Node → Result Bytes → Outcome (Option Bytes × Queue Node)
  start_hash getter start i q (err e) = done (some e, q)
  start_hash getter start i q (ok hash) =
      let index = (i + 2 ^ 64 - start) % 2 ^ 64 in
      let diff = diff_of t c u p q.header i hash in
      if ltb index (length q.history)
      then done (
        none,
        record {
          header = (paging t getter true q.header).1;
          history = set q.history index diff;
          last_state_proof =
              if i == (start + bitcoin_confirmations - 1) % 2 ^ 64
              then proof_or_nil (generate_proof_from_update p q.header diff.access)
              else q.last_state_proof;
        },
      )
      else panic out_of_range

  abbrev pub start_exec :
      OrdGetter
      → Bool
      → ℕ
      → ℕ
      → Queue Node
      → Outcome (Unit {0} × Header Node)
      → Outcome (Option Bytes × Queue Node)
  start_exec getter query_hash start i q (panic r) = panic r
  start_exec getter query_hash start i q (done (_, h)) =
      start_hash getter start i (record q { header = h })
        (queried_hash query_hash (getter.get_block_hash (i - 1)))

  abbrev pub start_with :
      OrdGetter
      → Bool
      → ℕ
      → ℕ
      → Queue Node
      → Result (List OrdTransfer)
      → Outcome (Option Bytes × Queue Node)
  start_with getter query_hash start i q (err e) = done (some e, q)
  start_with getter query_hash start i q (ok ots) =
      start_exec getter query_hash start i q (exec_header t c u ots i q.header)

  -- One round of the loop.
  unfoldable pub start_block :
      OrdGetter → Bool → ℕ → ℕ → Queue Node → Outcome (Option Bytes × Queue Node)
  start_block getter query_hash start i q =
      start_with getter query_hash start i q (getter.get_ord_transfers i)

  -- The loop of `NewQueues`, with the rounds that are left, for heights below 2^64 - 1.
  unfoldable pub start_loop :
      OrdGetter → Bool → ℕ → ℕ → ℕ → Queue Node → Outcome (Option Bytes × Queue Node)
  start_loop getter query_hash start zero i q = done (none, q)
  start_loop getter query_hash start (suc rounds) i q =
      on_success (start_block getter query_hash start i q)
        (λ q'. start_loop getter query_hash start rounds (i + 1) q')

  -- `startHeight+ord.BitcoinConfirmations-1` wraps, as a `uint` does.
  unfoldable pub new_queues : OrdGetter → Header Node → Bool → ℕ → Outcome (Result (Queue Node))
  unfolding start_loop
  new_queues getter header query_hash start = made_queue (
      start_loop getter query_hash start ((start + bitcoin_confirmations - 1) % 2 ^ 64 + 1 - start)
        start
        (record {
          header = header;
          history = replicate bitcoin_confirmations no_diff;
          last_state_proof = none;
        }))
