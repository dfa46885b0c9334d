-- ===== src/Lib.antt =====
-- The state of the committee indexer: how it executes the BRC-20 transfers of a Bitcoin block on a
-- verkle tree, commits the block, and takes blocks back when the chain is reorganized.
--
-- A transfer source (ord/getter) gives the transfers and the hash of each block. `Exec`
-- (ord/stateless/brc20.go) runs the transfers of one block on a storage of typed slots, which a
-- `Header` (ord/stateless/header.go) keeps over a verkle tree: reads and writes go to an access list
-- and a map of pending values, and `Paging` moves them into the tree and the key-value map. A `Queue`
-- (ord/stateless/queue.go) holds the latest header and the access lists of the last six blocks:
-- `Update` goes forward, `CheckForReorg` finds a changed block, `Recovery` goes back and forward again.
--
-- Files:
-- - Prelude, Prelude/Lists, Prelude/Outcome: library names, lists over the native numbers, and Go code
--   as a function from a state to a value and a state, or to a panic; Prelude/Outcome/Keeps is a
--   predicate that such code keeps. An error that is returned is a value of `Result`, or an optional
--   text beside the state that the code leaves.
-- - Bytes, Bytes/Hex, Bytes/Text: byte strings, hex, and the text functions of Go's library.
-- - KeyMap: a Go map as an association list.
-- - Packages: go-verkle, uint256 and the codecs (keccak, base58, JSON, case) as records of operations
--   that the definitions take as parameters, with their documented behaviour as records of laws;
--   Packages/Sample has functions that satisfy those laws.
-- - Numbers: ord/stateless/utils.go. OrdGetter: ord/getter/types.go and the getter of
--   ord/getter/opiclienttest.go.
-- - Storage: the six typed operations of ord/stateless/header.go over cells of 32 bytes; Storage/Text:
--   texts in slots.
-- - Header: `insert`, `get` and the types of ord/stateless/types.go; Header/Paging: `Paging` and
--   `Rollingback`; Header/Valid, Access, Tree, Commit, Rollback: their proofs.
-- - Brc20/Keys, Ops, Exec: ord/stateless/brc20.go; Brc20/Invariant, Balances, Move, Supply,
--   Transfer, Source, Used: their proofs.
-- - Queue, Queue/Proofs: ord/stateless/queue.go; Queue/Heights, Chain, History, Update, Undo, Reorg,
--   Recovery, Confirmed: the proofs. Queue/Start: `NewQueues`, with its proof in Queue/Start/Linked.
-- - Prelude/Outcome/Simulates is a relation between two states that code on both keeps; Storage/Simulates
--   and Brc20/Simulates carry it through the slots and through `Exec`, and Header/Alike is the relation of
--   two headers that hold the same values.
-- - Light: ord/stateless/light_header.go, the header of a client. Light/Strict is a header that panics
--   where a text or an inscription ID is read from an empty slot, which serves the comparison of the two
--   in Light/Mirrors and Light/Agreement. Light/View is the same for the keys of a proof, and
--   Light/Partial compares a client that has the tree of a proof.
-- - Cache: ord/stateless/storage.go, with `Serialize` and `Deserialize`; Cache/Files and Cache/Restart:
--   a restart.
-- - Stages: the catch-up loop of main.go; Stages/Follow and Reorg compare a queue with that loop;
--   Stages/Settled, Catchup, Catchup/Start, Catchup/Proof: `CatchupStage`; Stages/Service: the rounds of
--   `ServiceStage`, and Stages/Service/Reach: sequences of rounds over databases that change in between.
-- - Checkpoint: checkpoint/types.go and what checkpoint/reporter.go computes; Checkpoint/Upload: the
--   reports of a service round.
-- - Apis: apis/types.go and the packages for base64, JSON and proofs, as parameters; Apis/Balance: the
--   balances of apis/apis.go and their check in apis/verify.go, with Apis/Stem and
--   Apis/Accepted; Apis/Diff:
--   `ParseStateDiff`; Apis/Latest: the proof of the latest block and `GeneratePostRoot`, with
--   Apis/Replay and Apis/Client.
-- - Sat: ord/sat.go. Bytes/Decimal and Bytes/Atoi: the numbers that Go's library prints and reads.
--
-- Numbers: a `uint` is 64 bits wide and wraps where the code subtracts; a uint256 wraps by its laws.
-- Loops over a range of heights recurse on the number of rounds, which the code fixes before the loop,
-- so that no fuel is chosen. They stand for the code at heights below 2^64 - 1: at that bound a test
-- `i <= latest` never fails, and the next height of `Paging` wraps. Where the first loop of Recovery has the
-- bound 0, which a `uint` is never below, `rollback_rounds` takes one round more than the history has
-- entries, and one of these panics. A text whose slots are missing in a light header is a panic,
-- where Go may give zeros instead.
--
-- A queue in order (`IsLinked`): its header is valid, with nothing pending; it has six entries; and
-- each entry takes the key-value map back to that of the block before, whose tree has the commitment
-- that the entry holds.
--
-- The catch-up loop is the reference for the queue: it only goes forward and keeps no history, so that
-- what it leaves is the state of a chain. `Follows` says that a header has the values, the height and the
-- commitment of the header that the loop reaches.
--
-- Not modelled: the locks of the queue and the header (each method runs alone), the signals that end the
-- stages, and the input and output around them: the database client, the routes of the HTTP server, the
-- uploads to S3 and to the data-availability network, the metrics, the flags and the configuration file,
-- and the comparison of a state with a CSV file.
pub mod Prelude
pub mod Bytes
pub mod KeyMap
pub mod Packages
pub mod Numbers
pub mod OrdGetter
pub mod Storage
pub mod Header
pub mod Brc20
pub mod Queue
pub mod Light
pub mod Cache
pub mod Sat
pub mod Apis
pub mod Checkpoint
pub mod Stages
mod Tests
