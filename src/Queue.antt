-- ===== src/Queue.antt =====
-- ord/stateless/queue.go: the latest header and the differences of the last six blocks. A loop
-- returns the error that stopped it and the queue as it is then.
pub mod Proofs
pub use Proofs.*
pub mod Heights
pub mod Chain
pub mod History
pub mod Update
pub mod Undo
pub mod Reorg
pub mod Recovery
pub mod Confirmed
pub mod Start
use modular_indexer_committe.Prelude.{
  ℕ, zero, suc, ◌+◌, ◌-◌, ◌%◌, ◌^◌, ◌≡◌, Bool, false, true, not, Option, none, some, List, [], ◌∷◌,
  ◌++◌, map, ltb, ◌==◌, if◌then◌else◌, length, get_elem?, set, replicate,
}
use modular_indexer_committe.Prelude.Outcome.{
  Result, ok, err, Outcome, done, panic, out_of_range, commitment_mismatch,
}
use modular_indexer_committe.Bytes.{Bytes, bytes_equal}
use modular_indexer_committe.KeyMap.{KeyMap}
use modular_indexer_committe.OrdGetter.{OrdGetter, OrdTransfer}
use modular_indexer_committe.Packages.{Verkle, Uint256, Codec}
use modular_indexer_committe.Storage.{slot_storage}
use modular_indexer_committe.Header.{Header, TripleElement, header_cells}
use modular_indexer_committe.Header.Paging.{paging, undo, build_tree}
use modular_indexer_committe.Brc20.Exec.{exec}

-- ord/utils.go
abbrev pub bitcoin_confirmations : ℕ
bitcoin_confirmations = 6

pub record DiffState : Type 0 where
  pub height : ℕ
  pub hash : Bytes
  pub verkle_commit : Bytes
  pub access : List TripleElement

-- The elements of `DiffState.Copy`: the new elements do not name `OldValueExists`, which is `false` in them.
abbrev copy_element : TripleElement → TripleElement
copy_element elem = record {
  key = elem.key;
  old_value = elem.old_value;
  new_value = elem.new_value;
  old_value_exists = false;
}

unfoldable pub copy_elements : List TripleElement → List TripleElement
copy_elements = map copy_element

unfoldable pub copy_diff : DiffState → DiffState
unfolding copy_elements
copy_diff state = record state { access = copy_elements state.access }

pub record Queue (Node : Type 0) : Type 0 where
  pub header : Header Node
  pub history : List DiffState
  pub last_state_proof : Option Proof

-- `queue.History[0].Height`
unfoldable pub first_height : List DiffState → ℕ
first_height [] = 0
first_height (diff ∷ rest) = diff.height

-- `copy(queue.History[:], queue.History[1:])`, and the write of the last entry
unfoldable pub shift_in : DiffState → List DiffState → List DiffState
shift_in new [] = []
shift_in new (diff ∷ []) = new ∷ []
shift_in new (diff ∷ next ∷ rest) = next ∷ shift_in new (next ∷ rest)

-- How often `for i := curHeight - 1; i >= reorgHeight-1; i--` runs. With a bound of 0 the test never
-- fails, so that only a panic ends the loop: the indices of one round more than the history has
-- entries are all different, and one of them is out of range.
abbrev pub rollback_rounds : ℕ → ℕ → List DiffState → ℕ
rollback_rounds cur reorg ds =
    if reorg == 1
    then suc (length ds)
    else (cur + 2 ^ 64 - 1) % 2 ^ 64 + 1 - (reorg + 2 ^ 64 - 1) % 2 ^ 64

-- One round of the loop of `CheckForReorg`, with what the rest of the loop returns.
abbrev pub compare_hash : DiffState → Result Bytes → Result ℕ → Result ℕ
compare_hash state (err e) rest = err e
compare_hash state (ok new_hash) rest =
    if bytes_equal state.hash new_hash then rest else ok state.height

-- The loop of `CheckForReorg`; 0 says that no block changed.
unfoldable pub check_for_reorg : OrdGetter → List DiffState → Result ℕ
check_for_reorg getter [] = ok 0
check_for_reorg getter (state ∷ rest) =
    let later = check_for_reorg getter rest in
    compare_hash state (getter.get_block_hash state.height) later

-- The rest of a loop, where a round has neither panicked nor returned an error.
abbrev pub on_success :
    {Q : Type 0}
    → Outcome (Option Bytes × Q)
    → (Q → Outcome (Option Bytes × Q))
    → Outcome (Option Bytes × Q)
on_success (panic r) k = panic r
on_success (done (some e, q)) k = done (some e, q)
on_success (done (none, q)) k = k q

abbrev pub on_done : {Q : Type 0} → Outcome Q → (Q → Outcome Q) → Outcome Q
on_done (panic r) k = panic r
on_done (done q) k = k q

module _ {Node : Type 0} where
  unfoldable pub start_height : Queue Node → ℕ
  unfolding first_height
  start_height queue = first_height queue.history

  unfoldable pub latest_height : Queue Node → ℕ
  latest_height queue = queue.header.height

module _ {Node : Type 0} (t : Verkle Node) (c : Codec) (u : Uint256) where
  -- `Exec` on a header.
  unfoldable pub exec_header : List OrdTransfer → ℕ → Header Node → Outcome (Unit {0} × Header Node)
  exec_header ots height h = exec c u (slot_storage u (header_cells t)) ots height h

module _ {Node : Type 0} (t : Verkle Node) (c : Codec) (u : Uint256) (p : ProofTools Node) where
  -- What is known of a block after `Exec`, before it is paged. The block is one above a height, so that
  -- `i - 1` does not wrap.
  abbrev pub diff_of : Header Node → ℕ → Bytes → DiffState
  diff_of h i hash = record {
    height = i - 1;
    hash = hash;
    verkle_commit = t.commit h.root;
    access = h.access;
  }

  -- `if proof != nil { queue.LastStateProof = proof }`
  abbrev pub keep_proof : Option Proof → Option Proof → Option Proof
  keep_proof none old = old
  keep_proof (some proof) old = some proof

  -- `header.OrdTrans = ordTransfer` and `Paging`, whose error is dropped.
  abbrev pub page_block : OrdGetter → List OrdTransfer → Header Node → Header Node
  page_block getter ots h = (paging t getter true (record h { ord_trans = ots })).1

  abbrev pub prove_block :
      OrdGetter
      → List OrdTransfer
      → Queue Node
      → DiffState
      → Result (Option Proof)
      → Option Bytes × Queue Node
  prove_block getter ots q diff (err e) = (some e, record q { history = shift_in diff q.history })
  prove_block getter ots q diff (ok proof) = (
    none,
    record {
      header = page_block getter ots q.header;
      history = shift_in diff q.history;
      last_state_proof = keep_proof proof q.last_state_proof;
    },
  )

  abbrev pub hash_block :
      OrdGetter → ℕ → List OrdTransfer → Queue Node → Result Bytes → Option Bytes × Queue Node
  hash_block getter i ots q (err e) = (some e, q)
  hash_block getter i ots q (ok hash) =
      let diff = diff_of q.header i hash in
      prove_block getter ots q diff (generate_proof_from_update p q.header diff.access)

  abbrev pub after_exec :
      OrdGetter
      → ℕ
      → List OrdTransfer
      → Queue Node
      → Outcome (Unit {0} × Header Node)
      → Outcome (Option Bytes × Queue Node)
  after_exec getter i ots q (panic r) = panic r
  after_exec getter i ots q (done (_, h)) =
      done (hash_block getter i ots (record q { header = h }) (getter.get_block_hash (i - 1)))

  abbrev pub update_with :
      OrdGetter → ℕ → Queue Node → Result (List OrdTransfer) → Outcome (Option Bytes × Queue Node)
  update_with getter i q (err e) = done (some e, q)
  update_with getter i q (ok ots) = after_exec getter i ots q (exec_header t c u ots i q.header)

  -- One round of the loop of `Update`, at the block `i`.
  unfoldable pub update_block : OrdGetter → ℕ → Queue Node → Outcome (Option Bytes × Queue Node)
  unfolding exec_header shift_in
  update_block getter i q = update_with getter i q (getter.get_ord_transfers i)

  -- The loop of `Update`, with the rounds that are left. Up to 2^64 - 1 the loop of the code would not
  -- end, since `i <= latestHeight` never fails; the rounds are counted for lower heights.
  unfoldable pub update_loop : OrdGetter → ℕ → ℕ → Queue Node → Outcome (Option Bytes × Queue Node)
  update_loop getter zero i q = done (none, q)
  update_loop getter (suc rounds) i q =
      on_success (update_block getter i q) (λ q'. update_loop getter rounds (i + 1) q')

  unfoldable pub update : OrdGetter → ℕ → Queue Node → Outcome (Option Bytes × Queue Node)
  unfolding update_loop
  update getter latest q =
      let cur_height = q.header.height in
      update_loop getter (latest - cur_height) (cur_height + 1) q

  abbrev pub recover_header : ℕ → DiffState → Queue Node → Outcome (Queue Node)
  recover_header i past q =
      let kv = undo past.access q.header.kv in
      let new_root = build_tree t kv in
      if bytes_equal (t.commit new_root) past.verkle_commit
      then done (record q {
        header = record {
          root = new_root;
          kv = kv;
          height = i;
          hash = past.hash;
          ord_trans = q.header.ord_trans;
          access = [];
          intermediate_kv = [];
        };
      })
      else panic commitment_mismatch

  -- `queue.History[index]`
  abbrev pub recover_from : ℕ → Queue Node → Option DiffState → Outcome (Queue Node)
  recover_from i q none = panic out_of_range
  recover_from i q (some past) = recover_header i past q

  -- One round of the first loop of `Recovery`: back to the height `i`.
  unfoldable pub rollback_block : ℕ → ℕ → Queue Node → Outcome (Queue Node)
  rollback_block start i q = recover_from i q (get_elem? q.history ((i + 2 ^ 64 - start) % 2 ^ 64))

  -- The first loop, with the rounds that are left; `i--` wraps.
  unfoldable pub rollback_loop : ℕ → ℕ → ℕ → Queue Node → Outcome (Queue Node)
  rollback_loop start zero i q = done q
  rollback_loop start (suc rounds) i q =
      on_done (rollback_block start i q)
        (λ q'. rollback_loop start rounds ((i + 2 ^ 64 - 1) % 2 ^ 64) q')

  -- `queue.History[index] = …`
  abbrev pub replay_hash :
      OrdGetter
      → ℕ
      → ℕ
      → List OrdTransfer
      → Queue Node
      → Result Bytes
      → Outcome (Option Bytes × Queue Node)
  replay_hash getter index i ots q (err e) = done (some e, q)
  replay_hash getter index i ots q (ok hash) =
      if ltb index (length q.history)
      then done (
        none,
        record q {
          header = page_block getter ots q.header;
          history = set q.history index (diff_of q.header i hash);
        },
      )
      else panic out_of_range

  abbrev pub replay_exec :
      OrdGetter
      → ℕ
      → ℕ
      → List OrdTransfer
      → Queue Node
      → Outcome (Unit {0} × Header Node)
      → Outcome (Option Bytes × Queue Node)
  replay_exec getter index i ots q (panic r) = panic r
  replay_exec getter index i ots q (done (_, h)) =
      replay_hash getter index i ots (record q { header = h }) (getter.get_block_hash (i - 1))

  abbrev pub replay_with :
      OrdGetter
      → ℕ
      → ℕ
      → Queue Node
      → Result (List OrdTransfer)
      → Outcome (Option Bytes × Queue Node)
  replay_with getter index i q (err e) = done (some e, q)
  replay_with getter index i q (ok ots) =
      replay_exec getter index i ots q (exec_header t c u ots i q.header)

  -- One round of the second loop: the block `i` of the new chain.
  unfoldable pub replay_block : OrdGetter → ℕ → ℕ → Queue Node → Outcome (Option Bytes × Queue Node)
  unfolding exec_header
  replay_block getter start i q =
      replay_with getter ((i + 2 ^ 64 - start + 2 ^ 64 - 1) % 2 ^ 64) i q
        (getter.get_ord_transfers i)

  unfoldable pub replay_loop :
      OrdGetter → ℕ → ℕ → ℕ → Queue Node → Outcome (Option Bytes × Queue Node)
  replay_loop getter start zero i q = done (none, q)
  replay_loop getter start (suc rounds) i q =
      on_success (replay_block getter start i q) (λ q'. replay_loop getter start rounds (i + 1) q')

  abbrev pub replay_from :
      OrdGetter → ℕ → ℕ → ℕ → Outcome (Queue Node) → Outcome (Option Bytes × Queue Node)
  replay_from getter start reorg cur (panic r) = panic r
  replay_from getter start reorg cur (done q) = replay_loop getter start (cur + 1 - reorg) reorg q

  -- Back from the height before the latest one to `reorgHeight - 1`, then forward again.
  unfoldable pub recovery : OrdGetter → ℕ → Queue Node → Outcome (Option Bytes × Queue Node)
  unfolding rollback_loop replay_loop start_height
  recovery getter reorg q =
      let cur = q.header.height in
      let start = start_height q in
      replay_from getter start reorg cur
        (rollback_loop start (rollback_rounds cur reorg q.history) ((cur + 2 ^ 64 - 1) % 2 ^ 64) q)
