-- ===== src/Brc20.antt =====
-- ord/stateless/brc20.go: the BRC-20 protocol over a `KvStorage`. Keys are in Brc20/Keys.antt, the
-- operations on the state in Brc20/Ops.antt, and `Exec` in Brc20/Exec.antt.
pub mod Keys
pub mod Ops
pub mod Exec
pub mod Invariant
pub mod Simulates
pub mod Balances
pub mod Move
pub mod Supply
pub mod Transfer
pub mod Source
pub mod Used
